-- ===== src/Reserves/Replay.antt =====
-- A dry run of a task against the task itself: the calls that it encodes do the same when they are sent.
use paraspace_core.Prelude.{
  if◌then◌else◌, String, Bool, true, false, Option, none, some, List, [], ◌∷◌, ◌++◌, ◌≡◌, ◌⊎◌, inl,
  inr, refl, sym, Bool-cases, append-nil, append_assoc,
}
use paraspace_core.Timelock.{live, kept}
use paraspace_core.Reserves.{
  Reserve, Pool, Access, Contract, pool_configurator, auto_compound_ape, Call,
  configure_reserve_as_collateral, set_reserve_factor, set_supply_cap, set_borrow_cap,
  set_rate_strategy, set_auction_strategy, set_time_lock_strategy, pause_pool, unpause_pool,
  pause_reserve, unpause_reserve, pause_cape, unpause_cape,
}
use paraspace_core.Reserves.Configurator.{execute}
use paraspace_core.Reserves.Tasks.{
  Script, Outcome, finished, thrown, to_paused, Lookup, invalid, missing, found, find_reserve,
  submit, and_then, for_assets, set_ltv, set_liquidation_threshold, set_factor,
  set_interest_rate_strategy, set_timelock_strategy, set_auction, set_max_supply, set_max_borrow,
  set_pool_pause, set_reserve_pause, set_cape_pause, Task, ltv, liquidation_threshold,
  reserve_factor, rate_strategy, timelock_strategy, auction_strategy, supply_cap, borrow_cap,
  pool_pause, cape_pause, reserve_pause, run_task,
}

pub Lookup-cases :
    (l : Lookup)
    → (l ≡ invalid) ⊎ ((l ≡ missing) ⊎ ((a : String) × (r : Reserve) × (l ≡ found a r)))
Lookup-cases invalid = inl refl
Lookup-cases missing = inr (inl refl)
Lookup-cases (found a r) = inr (inr (a, r, refl))

pub finished-injective : {s t : Script} → finished s ≡ finished t → s ≡ t
finished-injective h = cc

-- The calls sent one after the other, up to the first that reverts.
abbrev pub send_calls : Access → List (Contract × Call) → Script → Outcome
send_calls acl [] s = finished s
send_calls acl ((contract, c) ∷ rest) s = elim (execute acl c s.pool) [
  | none ↦ thrown s
  | some p ↦ send_calls acl rest (record s { pool = p })
]

-- What a dry run that took `s` to `d` has encoded does what the task does.
pub data Replays (acl : Access) (task : Script → Outcome) (s d : Script) : Type 0 where
  replays :
      (calls : List (Contract × Call))
      → d ≡ record s { encoded = s.encoded ++ calls }
      → ((u : Script) → task u ≡ send_calls acl calls u)
      → Replays acl task s d

module _ (g : String → Option String) (acl : Access) where
  attempt-then :
      (o : Option Pool) (u : Script) (k l : Script → Outcome)
      → ((v : Script) → k v ≡ l v)
      → and_then g acl live
          (elim o [ none ↦ thrown u | some p ↦ finished (record u { pool = p }) ])
          k
        ≡ (elim o [ none ↦ thrown u | some p ↦ l (record u { pool = p }) ])
  attempt-then none u k l h = refl
  attempt-then (some p) u k l h = h (record u { pool = p })

  submit-then :
      (contract : Contract) (c : Call) (rest : List (Contract × Call)) (u : Script)
      (k : Script → Outcome)
      → ((v : Script) → k v ≡ send_calls acl rest v)
      → and_then g acl live (submit g acl live contract c u) k
        ≡ send_calls acl ((contract, c) ∷ rest) u
  unfolding submit
  submit-then contract c rest u k h =
      attempt-then (execute acl c u.pool) u k (send_calls acl rest) h

  submit-finished :
      (contract : Contract) (c : Call) (u : Script)
      → submit g acl live contract c u ≡ send_calls acl ((contract, c) ∷ []) u
  unfolding submit
  submit-finished contract c u = refl

  submit-Replays :
      (contract : Contract) (c : Call) (s d : Script)
      → submit g acl kept contract c s ≡ finished d
      → Replays acl (submit g acl live contract c) s d
  unfolding submit
  submit-Replays contract c s d h =
      replays ((contract, c) ∷ []) (sym (finished-injective h)) (submit-finished contract c)

  for_assets-Replays :
      (data_at : Pool) (returns : Bool) (c : String → Reserve → Call) (assets : List String)
      (s d : Script)
      → for_assets g acl kept data_at returns c assets s ≡ finished d
      → Replays acl (for_assets g acl live data_at returns c assets) s d
  unfolding for_assets submit
  for_assets-Replays data_at returns c [] s d h =
      replays [] (rw (append-nil s.encoded) (sym (finished-injective h))) (λ u. refl)
  for_assets-Replays data_at returns c (asset ∷ assets) s d h =
      elim (Lookup-cases (find_reserve g data_at asset)) [
        | inl l ↦ let h' = rw (for_assets, l) at h in cc
        | inr (inl l) ↦ elim (Bool-cases returns) [
          | inl r ↦
              replays []
                (rw (append-nil s.encoded) (sym (finished-injective (rw (for_assets, l, r) at h))))
                (λ u. rw (for_assets, l, r))
          | inr r ↦
              elim (for_assets-Replays data_at returns c assets s d (rw (for_assets, l, r) at h)) [
                | replays calls e k ↦ replays calls e (λ u. rw (for_assets, l, r) (k u))
              ]
        ]
        | inr (inr (a, r, l)) ↦
            elim (for_assets-Replays data_at returns c assets
              (record s { encoded = s.encoded ++ (pool_configurator, c a r) ∷ [] }) d
              (rw (for_assets, l) at h)) [
                | replays calls e k ↦
                    replays ((pool_configurator, c a r) ∷ calls)
                      (rw (e, append_assoc s.encoded ((pool_configurator, c a r) ∷ []) calls))
                      (λ u.
                        rw (for_assets, l)
                          (submit-then pool_configurator (c a r) calls u
                            (for_assets g acl live data_at returns c assets) k))
              ]
      ]

-- `s` to `d` is the dry run and `t` the end of the task.
abbrev pub IsReplayed : Access → Script → Script → Outcome → Type 0
IsReplayed acl s d t =
    (calls : List (Contract × Call)) × (d ≡ record s { encoded = s.encoded ++ calls })
    × (t ≡ send_calls acl calls s)

Replays-IsReplayed :
    (acl : Access) (task : Script → Outcome) (s d : Script)
    → Replays acl task s d
    → IsReplayed acl s d (task s)
Replays-IsReplayed acl task s d (replays calls e k) = (calls, e, k s)

module _ (g : String → Option String) (acl : Access) (s d : Script) where
  loop-IsReplayed :
      (returns : Bool) (c : String → Reserve → Call) (assets : List String)
      → for_assets g acl kept s.pool returns c assets s ≡ finished d
      → IsReplayed acl s d (for_assets g acl live s.pool returns c assets s)
  loop-IsReplayed returns c assets h =
      Replays-IsReplayed acl (for_assets g acl live s.pool returns c assets) s d
        (for_assets-Replays g acl s.pool returns c assets s d h)

  submit-IsReplayed :
      (contract : Contract) (c : Call)
      → submit g acl kept contract c s ≡ finished d
      → IsReplayed acl s d (submit g acl live contract c s)
  submit-IsReplayed contract c h =
      Replays-IsReplayed acl (submit g acl live contract c) s d
        (submit-Replays g acl contract c s d h)

  -- A dry run of any of the tasks, in a mode that keeps the calls and sends none, that ends without an
  -- exception leaves the chain as it was and
  -- encodes calls which, sent in their order up to the first that reverts, do what the task itself
  -- does from the same state, and end as it ends.
  pub run_task-replays :
      (t : Task)
      → run_task g acl kept t s ≡ finished d
      → IsReplayed acl s d (run_task g acl live t s)
  unfolding run_task set_ltv set_liquidation_threshold set_factor set_interest_rate_strategy
      set_timelock_strategy set_auction set_max_supply set_max_borrow set_pool_pause
      set_reserve_pause set_cape_pause
  run_task-replays (ltv assets n) h =
      loop-IsReplayed true
        (λ a r. configure_reserve_as_collateral a n r.liquidation_threshold r.liquidation_bonus)
        assets h
  run_task-replays (liquidation_threshold assets n) h =
      loop-IsReplayed true (λ a r. configure_reserve_as_collateral a r.ltv n r.liquidation_bonus)
        assets h
  run_task-replays (reserve_factor assets n) h =
      loop-IsReplayed true (λ a r. set_reserve_factor a n) assets h
  run_task-replays (rate_strategy assets t) h =
      loop-IsReplayed false (λ a r. set_rate_strategy a t) assets h
  run_task-replays (timelock_strategy assets t) h =
      loop-IsReplayed false (λ a r. set_time_lock_strategy a t) assets h
  run_task-replays (auction_strategy asset t) h =
      loop-IsReplayed true (λ a r. set_auction_strategy a t) (asset ∷ []) h
  run_task-replays (supply_cap asset n) h =
      loop-IsReplayed true (λ a r. set_supply_cap a n) (asset ∷ []) h
  run_task-replays (borrow_cap asset n) h =
      loop-IsReplayed true (λ a r. set_borrow_cap a n) (asset ∷ []) h
  run_task-replays (pool_pause text) h =
      submit-IsReplayed pool_configurator (if to_paused text then pause_pool else unpause_pool) h
  run_task-replays (cape_pause text) h =
      submit-IsReplayed auto_compound_ape (if to_paused text then pause_cape else unpause_cape) h
  run_task-replays (reserve_pause asset text) h =
      submit-IsReplayed pool_configurator
        (if to_paused text then pause_reserve asset else unpause_reserve asset) h
