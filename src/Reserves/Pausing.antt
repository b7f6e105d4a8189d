-- ===== src/Reserves/Pausing.antt =====
-- What the task that pauses or unpauses the pool does to its reserves.
use paraspace_core.Prelude.{
  if◌then◌else◌, any, String, str_eq, Bool, true, false, ◌||◌, Option, some, List, [], ◌∷◌, ◌≡◌,
  inl, inr, refl, Bool-cases, Option-cases,
}
use paraspace_core.Timelock.{live}
use paraspace_core.Reserves.{Reserve, Pool, Access, pause_pool, unpause_pool}
use paraspace_core.Reserves.Configurator.{update, update_all, with_paused, execute}
use paraspace_core.Reserves.Tasks.{Script, finished, submit, transact, to_paused, set_pool_pause}
use paraspace_core.Reserves.Sound.{update-eq, guard-true, some-injective}
use paraspace_core.Reserves.Replay.{finished-injective}
use paraspace_core.Reserves.Effects.{SetFor}

-- The addresses that are not zero.
abbrev pub nonzero : List String → List String
nonzero [] = []
nonzero (a ∷ l) = let rest = nonzero l in if str_eq a "0x0" then rest else a ∷ rest

merge :
    (b c : Bool) (f : Reserve → Reserve) (r : Reserve)
    → f (f r) ≡ f r
    → (if c then f (if b then f r else r) else if b then f r else r) ≡ (if b || c then f r else r)
merge true true f r h = h
merge true false f r h = refl
merge false true f r h = refl
merge false false f r h = refl

update_all-SetFor :
    (f : Reserve → Reserve) (l : List String) (p q : Pool)
    → ((r : Reserve) → f (f r) ≡ f r)
    → update_all f l p ≡ some q
    → SetFor (nonzero l) f p q
unfolding update_all
update_all-SetFor f [] p q again h k = rw (← some-injective h) refl
update_all-SetFor f (a ∷ l) p q again h k = elim (Bool-cases (str_eq a "0x0")) [
  | inl z ↦ rw z (update_all-SetFor f l p q again (rw z at h) k)
  | inr z ↦ elim (Option-cases (update a f p)) [
    | inl u ↦ let h' = rw (z, u) at h in cc
    | inr (m, u) ↦
        let ih = update_all-SetFor f l m q again (rw (z, u) at h) k in
        let made = update-eq a f p m u in
        rw (z, ih, made)
          (merge (str_eq k a) (any (str_eq k) (nonzero l)) f (p.reserve k) (again (p.reserve k)))
  ]
]

module _ (g : String → Option String) (acl : Access) where
  -- A pool that the configurator accepts to pause or unpause.
  execute-SetFor :
      (paused : Bool) (p q : Pool)
      → execute acl (if paused then pause_pool else unpause_pool) p ≡ some q
      → SetFor (nonzero p.reserves_list) (with_paused paused) p q
  unfolding execute
  execute-SetFor true p q h =
      update_all-SetFor (with_paused true) p.reserves_list p q (λ r. refl)
        (guard-true _ _ q (guard-true _ _ q h).1).1
  execute-SetFor false p q h =
      update_all-SetFor (with_paused false) p.reserves_list p q (λ r. refl) (guard-true _ _ q h).1

  -- Where `set-pool-pause`, outside a dry run, ends without an exception, every reserve of the pool's list is paused, or
  -- unpaused for the text "false", and nothing else in the reserves has changed.
  pub set_pool_pause-sets :
      (text : String) (s t : Script)
      → set_pool_pause g acl live text s ≡ finished t
      → SetFor (nonzero s.pool.reserves_list) (with_paused (to_paused text)) s.pool t.pool
  unfolding set_pool_pause submit
  set_pool_pause-sets text s t h =
      elim (Option-cases
        (execute acl (if to_paused text then pause_pool else unpause_pool) s.pool)) [
          | inl e ↦ let h' = rw (transact, e) at h in cc
          | inr (p, e) ↦
              let ends : finished (record s { pool = p }) ≡ finished t = rw (transact, e) at h in
              rw (← finished-injective ends) (execute-SetFor (to_paused text) s.pool p e)
        ]
