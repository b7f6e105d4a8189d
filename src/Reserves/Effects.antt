-- ===== src/Reserves/Effects.antt =====
-- What the tasks that go through a list of assets set, and for which of them.
use paraspace_core.Prelude.{
  leb, if◌then◌else◌, any, ℕ, String, str_eq, eq_iff, eq_refl, Bool, true, false, ◌||◌, Option,
  some, List, [], ◌∷◌, map, ◌≡◌, inl, inr, refl, Bool-cases, Option-cases,
}
use paraspace_core.Timelock.{live}
use paraspace_core.Reserves.{
  Reserve, Pool, Access, Contract, pool_configurator, Call, configure_reserve_as_collateral,
  set_time_lock_strategy,
}
use paraspace_core.Reserves.Configurator.{execute, are_valid, max_valid_percentage, with_collateral}
use paraspace_core.Reserves.Tasks.{
  Script, Outcome, finished, find_reserve, submit, transact, and_then, for_assets, set_ltv,
  set_timelock_strategy,
}
use paraspace_core.Reserves.Sound.{put, update-eq, guard-true}
use paraspace_core.Reserves.Selection.{
  leading, present, known, known-missing, known-found, selected, selected-cons,
}
use paraspace_core.Reserves.Replay.{Lookup-cases, finished-injective}

or_false : (a : Bool) → (a || false) ≡ a
or_false true = refl
or_false false = refl

or_assoc : (a b c : Bool) → ((a || b) || c) ≡ (a || (b || c))
or_assoc true b c = refl
or_assoc false b c = refl

-- A call that updates one reserve by `f`, given what the snapshot has of it.
abbrev Updates : Access → (String → Reserve → Call) → (Reserve → Reserve → Reserve) → Type 0
Updates acl c f =
    (a : String) (r : Reserve) (p q : Pool) → execute acl (c a r) p ≡ some q → q ≡ put a (f r) p

submit-pool :
    (g : String → Option String) (acl : Access) (contract : Contract) (c : Call) (s : Script)
    (k : Script → Outcome) (t : Script)
    → and_then g acl live (submit g acl live contract c s) k ≡ finished t
    → (p : Pool) × (execute acl c s.pool ≡ some p) × (k (record s { pool = p }) ≡ finished t)
unfolding submit
submit-pool g acl contract c s k t h = elim (Option-cases (execute acl c s.pool)) [
  | inl e ↦ let h' = rw (transact, e) at h in cc
  | inr (p, e) ↦ (p, e, rw (transact, e) at h)
]

module _ (g : String → Option String) (acl : Access) (data_at : Pool) (returns : Bool)
    (c : String → Reserve → Call) (f : Reserve → Reserve → Reserve) (updates : Updates acl c f)
    (again : (r : Reserve) → f r (f r r) ≡ f r r) where
  -- A reserve after the loop, which has dealt with it or not.
  abbrev after : String → Bool → Reserve
  after k b = if b then f (data_at.reserve k) (data_at.reserve k) else data_at.reserve k

  abbrev Holds : Pool → (String → Bool) → Type 0
  Holds p seen = (k : String) → p.reserve k ≡ after k (seen k)

  put-after :
      (p : Pool) (seen : String → Bool) (a : String)
      → Holds p seen
      → Holds (put a (f (data_at.reserve a)) p) (λ k. seen k || str_eq k a)
  put-after p seen a h k = elim (Bool-cases (str_eq k a)) [
    | inl e ↦ elim (Bool-cases (seen k)) [
      | inl s ↦ rw (← (eq_iff k a).0 e, eq_refl k, h k, s) (again (data_at.reserve k))
      | inr s ↦ rw (← (eq_iff k a).0 e, eq_refl k, h k, s) refl
    ]
    | inr e ↦ elim (Bool-cases (seen k)) [
      | inl s ↦ rw (e, h k, s) refl
      | inr s ↦ rw (e, h k, s) refl
    ]
  ]

  for_assets-after :
      (assets : List String) (s t : Script) (seen : String → Bool)
      → Holds s.pool seen
      → for_assets g acl live data_at returns c assets s ≡ finished t
      → Holds t.pool
          (λ k. seen k || any (str_eq k) (selected returns (map (known g data_at) assets)))
  unfolding for_assets
  for_assets-after [] s t seen h e k = elim (Bool-cases returns) [
    | inl r ↦ rw (r, ← finished-injective e, or_false (seen k)) (h k)
    | inr r ↦ rw (r, ← finished-injective e, or_false (seen k)) (h k)
  ]
  for_assets-after (asset ∷ assets) s t seen h e k =
      elim (Lookup-cases (find_reserve g data_at asset)) [
        | inl l ↦ let e' = rw (for_assets, l) at e in cc
        | inr (inl l) ↦ elim (Bool-cases returns) [
          | inl r ↦
              rw
                (
                  r,
                  known-missing g data_at asset l,
                  or_false (seen k),
                  ← finished-injective (rw (for_assets, l, r) at e),
                )
                (h k)
          | inr r ↦
              rw (r, known-missing g data_at asset l)
                (rw r at (for_assets-after assets s t seen h (rw (for_assets, l, r) at e) k))
        ]
        | inr (inr (a, r, l)) ↦
            let (p, x, rest) =
              submit-pool g acl pool_configurator (c a r) s
                (for_assets g acl live data_at returns c assets) t (rw (for_assets, l) at e) in
            let (at_a, data_a) = known-found g data_at asset a r l in
            let now : Holds p (λ i. seen i || str_eq i a) =
              rw (updates a r s.pool p x, data_a) (put-after s.pool seen a h) in
            let goal =
              for_assets-after assets (record s { pool = p }) t (λ i. seen i || str_eq i a) now rest
                k in
            rw
              (
                at_a,
                selected-cons returns a (map (known g data_at) assets),
                ← or_assoc (seen k) (str_eq k a)
                    (any (str_eq k) (selected returns (map (known g data_at) assets))),
              )
              goal
      ]

configure-put :
    (acl : Access) (a : String) (n t b : ℕ) (p q : Pool)
    → execute acl (configure_reserve_as_collateral a n t b) p ≡ some q
    → q ≡ put a (with_collateral n t b) p
unfolding execute
configure-put acl a n t b p q x =
    let (_, x1) = guard-true (acl.is_risk_admin || acl.is_pool_admin) _ q x in
    let (_, x2) = guard-true (leb n t) _ q x1 in
    let (_, x3) = guard-true (are_valid acl a t b) _ q x2 in
    let (_, x4) = guard-true (leb n max_valid_percentage) _ q x3 in
    let (_, x5) = guard-true (leb t max_valid_percentage) _ q x4 in
    let (_, x6) = guard-true (leb b max_valid_percentage) _ q x5 in
    update-eq a (with_collateral n t b) p q x6

-- The pool after a task has set something in the reserves of some assets.
abbrev pub SetFor : List String → (Reserve → Reserve) → Pool → Pool → Type 0
SetFor assets f p q =
    (k : String) → q.reserve k ≡ (if any (str_eq k) assets then f (p.reserve k) else p.reserve k)

module _ (g : String → Option String) (acl : Access) (assets : List String) (s t : Script) where
  -- Where `set-ltv`, outside a dry run, ends without an exception, the loan to value is the new one in exactly the
  -- reserves of the assets before the first that the pool does not list; their threshold and bonus
  -- and everything else in the pool's reserves is as it was. The assets after it are left out in
  -- silence.
  pub set_ltv-sets :
      (n : ℕ)
      → set_ltv g acl live assets n s ≡ finished t
      → SetFor (leading (map (known g s.pool) assets)) (λ r. record r { ltv = n }) s.pool t.pool
  unfolding set_ltv execute
  set_ltv-sets n h k =
      for_assets-after g acl s.pool true
        (λ a r. configure_reserve_as_collateral a n r.liquidation_threshold r.liquidation_bonus)
        (λ r. with_collateral n r.liquidation_threshold r.liquidation_bonus)
        (λ a r p q x. configure-put acl a n r.liquidation_threshold r.liquidation_bonus p q x)
        (λ r. refl) assets s t (λ _. false) (λ _. refl) h k

  -- Where `set-timelock-strategy`, outside a dry run, ends without an exception, the strategy is the new one in exactly
  -- the reserves of the assets that the pool lists, and everything else in the reserves is as it was.
  pub set_timelock_strategy-sets :
      (strategy : String)
      → set_timelock_strategy g acl live assets strategy s ≡ finished t
      → SetFor
          (present (map (known g s.pool) assets))
          (λ r. record r { time_lock_strategy = strategy })
          s.pool
          t.pool
  unfolding set_timelock_strategy execute
  set_timelock_strategy-sets strategy h k =
      for_assets-after g acl s.pool false (λ a r. set_time_lock_strategy a strategy)
        (λ _ r. record r { time_lock_strategy = strategy })
        (λ a r p q x. update-eq a _ p q (guard-true _ _ q x).1) (λ r. refl) assets s t (λ _. false)
        (λ _. refl) h k
