-- ===== src/Ownership/Broadcast.antt =====
-- The broadcast of a list of calls, and how one section of `step_23` after another amounts to it.
use paraspace_core.Prelude.{
  if◌then◌else◌, String, Bool, true, false, not, Option, none, some, List, [], ◌∷◌, ◌++◌, ◌≡◌, refl,
  Bool-cases, Option-cases, inl, inr, arith, ◌∙◌, append-nil, append_assoc,
}
use paraspace_core.Ownership.{
  Target, Role, Action, Accepts, ◌▸◌, when, when_role, send, Tx, State, Script, apply,
}

-- The broadcast of calls in order, up to the first that a contract rejects.
unfoldable pub send_all : Accepts → List Tx → Script → Option Script
send_all accepts [] s = some s
send_all accepts (x ∷ xs) s =
    if accepts x s.state
    then send_all accepts xs
        (record s { state = apply x.target x.call s.state; sent = s.sent ++ x ∷ [] })
    else none

abbrev pub only : Bool → Tx → List Tx
only b x = if b then x ∷ [] else []

-- The script after an accepted call.
abbrev pub after : Tx → Script → Script
after x s = record s { state = apply x.target x.call s.state; sent = s.sent ++ x ∷ [] }

module _ (accepts : Accepts) where
  pub send_cons :
      (x : Tx) (g : Action) (xs : List Tx) (s : Script)
      → g (after x s) ≡ send_all accepts xs (after x s)
      → (send accepts x.target x.call ▸ g) s ≡ send_all accepts (x ∷ xs) s
  unfolding send_all
  send_cons x g xs s h = elim (Bool-cases (accepts x s.state)) [
    | inl e ↦ rw (e, ◌▸◌) h
    | inr e ↦ rw (e, ◌▸◌)
  ]

  pub send_one :
      (x : Tx) (s : Script) → send accepts x.target x.call s ≡ send_all accepts (x ∷ []) s
  unfolding send_all
  send_one x s = refl

  -- A call that is made only if a role is missing, and one only if it is held.
  pub send_missing :
      (t : Target) (r : Role) (a : String) (b : Bool) (x : Tx) (g : Action) (xs : List Tx)
      (s : Script)
      → s.state.roles t r a ≡ b
      → (b ≡ false → g (after x s) ≡ send_all accepts xs (after x s))
      → (b ≡ true → g s ≡ send_all accepts xs s)
      → (when_role t r a false (send accepts x.target x.call) ▸ g) s
        ≡ send_all accepts (only (not b) x ++ xs) s
  send_missing t r a true x g xs s e h k = rw (e, ◌▸◌) (k refl)
  send_missing t r a false x g xs s e h k = rw (e, ◌▸◌) (send_cons x g xs s (h refl))

  pub send_held :
      (t : Target) (r : Role) (a : String) (b : Bool) (x : Tx) (g : Action) (xs : List Tx)
      (s : Script)
      → s.state.roles t r a ≡ b
      → (b ≡ true → g (after x s) ≡ send_all accepts xs (after x s))
      → (b ≡ false → g s ≡ send_all accepts xs s)
      → (when_role t r a true (send accepts x.target x.call) ▸ g) s
        ≡ send_all accepts (only b x ++ xs) s
  send_held t r a true x g xs s e h k = rw (e, ◌▸◌) (send_cons x g xs s (h refl))
  send_held t r a false x g xs s e h k = rw (e, ◌▸◌) (k refl)

  pub send_all-append :
      (xs ys : List Tx) (s : Script)
      → send_all accepts (xs ++ ys) s ≡ (send_all accepts xs ▸ send_all accepts ys) s
  unfolding send_all
  send_all-append [] ys s = refl
  send_all-append (x ∷ xs) ys s = elim (Bool-cases (accepts x s.state)) [
    | inl e ↦ rw (e, ◌▸◌) (send_all-append xs ys _)
    | inr e ↦ rw (e, ◌▸◌)
  ]

  -- One call that is guarded by a test.
  pub when-send :
      (b : Bool) (x : Tx) (s : Script)
      → when b (send accepts x.target x.call) s ≡ send_all accepts (only b x) s
  unfolding send_all
  when-send true x s = refl
  when-send false x s = refl

-- The state after calls that are all accepted.
unfoldable pub apply_all : List Tx → State → State
apply_all [] s = s
apply_all (x ∷ xs) s = apply_all xs (apply x.target x.call s)

pub send_all-eq-some :
    (accepts : Accepts) (xs : List Tx) (s t : Script)
    → send_all accepts xs s ≡ some t
    → (t.state ≡ apply_all xs s.state) × (t.sent ≡ s.sent ++ xs)
unfolding send_all apply_all
send_all-eq-some accepts [] s t h = ground (arith, append-nil s.sent)
send_all-eq-some accepts (x ∷ xs) s t h = elim (Bool-cases (accepts x s.state)) [
  | inl e ↦
      let (p, q) = send_all-eq-some accepts xs (after x s) t (rw e at h) in
      (p, q ∙ append_assoc s.sent (x ∷ []) xs)
  | inr e ↦ let h' = rw e at h in (cc, cc)
]

module _ (accepts : Accepts) (f g : Action) (xs ys : List Tx) (s : Script) where
  -- Two parts of a script after one another; the second starts from what the first left.
  pub send_all_seq_state :
      f s ≡ send_all accepts xs s
      → ((t : Script) → t.state ≡ apply_all xs s.state → g t ≡ send_all accepts ys t)
      → (f ▸ g) s ≡ send_all accepts (xs ++ ys) s
  send_all_seq_state h k =
      rw (send_all-append accepts xs ys s, h, ◌▸◌)
        (elim (Option-cases (send_all accepts xs s)) [
          | inl e ↦ rw (e, ◌▸◌)
          | inr (t, e) ↦ rw (e, ◌▸◌) (k t (send_all-eq-some accepts xs s t e).0)
        ])

-- A part of a script that sends a fixed list of calls.
pub record Sends (accepts : Accepts) (f : Action) (xs : List Tx) : Type 0 where
  pub law : (s : Script) → f s ≡ send_all accepts xs s

module _ (accepts : Accepts) where
  pub Sends-one : (x : Tx) → Sends accepts (send accepts x.target x.call) (x ∷ [])
  Sends-one x = record { law = send_one accepts x }

  pub Sends-when :
      (b : Bool) (x : Tx) → Sends accepts (when b (send accepts x.target x.call)) (only b x)
  Sends-when b x = record { law = when-send accepts b x }

  pub Sends-cons :
      (x : Tx) {g : Action} {xs : List Tx}
      → Sends accepts g xs
      → Sends accepts (send accepts x.target x.call ▸ g) (x ∷ xs)
  Sends-cons x {g} {xs} p = record { law = λ s. send_cons accepts x g xs s (p.law _) }

  pub Sends-seq :
      {f g : Action} {xs ys : List Tx}
      → Sends accepts f xs
      → Sends accepts g ys
      → Sends accepts (f ▸ g) (xs ++ ys)
  Sends-seq {f} {g} {xs} {ys} p q = record {
    law = λ s. send_all_seq_state accepts f g xs ys s (p.law s) (λ t _. q.law t);
  }
