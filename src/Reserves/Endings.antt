-- ===== src/Reserves/Endings.antt =====
-- What the tasks leave of the pool's bounds, however they end.
use paraspace_core.Prelude.{
  if◌then◌else◌, String, Bool, true, false, Option, List, [], ◌∷◌, inl, inr, Bool-cases,
  Option-cases,
}
use paraspace_core.Timelock.{Way, live, kept, raw}
use paraspace_core.Reserves.{
  Reserve, Pool, Access, Contract, pool_configurator, auto_compound_ape, Call,
  configure_reserve_as_collateral, set_reserve_factor, set_supply_cap, set_borrow_cap,
  set_rate_strategy, set_auction_strategy, set_time_lock_strategy, pause_pool, unpause_pool,
  pause_reserve, unpause_reserve, pause_cape, unpause_cape,
}
use paraspace_core.Reserves.Configurator.{execute}
use paraspace_core.Reserves.Tasks.{
  Script, Outcome, finished, thrown, find_reserve, submit, transact, and_then, for_assets, set_ltv,
  set_liquidation_threshold, set_factor, set_interest_rate_strategy, set_timelock_strategy,
  set_auction, set_max_supply, set_max_borrow, set_pool_pause, set_reserve_pause, set_cape_pause,
  to_paused, Task, run_task, ltv, liquidation_threshold, reserve_factor, rate_strategy,
  timelock_strategy, auction_strategy, supply_cap, borrow_cap, pool_pause, cape_pause,
  reserve_pause,
}
use paraspace_core.Reserves.Sound.{IsSound, execute-IsSound}
use paraspace_core.Reserves.Replay.{Lookup-cases}

abbrev pub script_of : Outcome → Script
script_of (finished s) = s
script_of (thrown s) = s

-- An outcome in which the pool is sound, thrown or not.
abbrev pub EndsSound : Outcome → Type 0
EndsSound o = IsSound (script_of o).pool

module _ (g : String → Option String) (acl : Access) (way : Way) where
  transact-EndsSound :
      (contract : Contract) (c : Call) (s : Script)
      → IsSound s.pool
      → EndsSound (transact g acl way contract c s)
  transact-EndsSound contract c s i = elim (Option-cases (execute acl c s.pool)) [
    | inl e ↦ rw (transact, e) i
    | inr (p, e) ↦ rw (transact, e) (execute-IsSound acl c s.pool p e i)
  ]

  submit-EndsSound :
      (contract : Contract) (c : Call) (s : Script)
      → IsSound s.pool
      → EndsSound (submit g acl way contract c s)
  unfolding submit
  submit-EndsSound contract c s i = elim way as (λ u. EndsSound (submit g acl u contract c s)) [
    | live ↦ transact-EndsSound contract c s i
    | raw ↦ transact-EndsSound contract c s i
    | kept ↦ i
  ]

  and_then-EndsSound :
      (o : Outcome) (k : Script → Outcome)
      → EndsSound o
      → ((s : Script) → IsSound s.pool → EndsSound (k s))
      → EndsSound (and_then g acl way o k)
  and_then-EndsSound (finished s) k i h = h s i
  and_then-EndsSound (thrown s) k i h = i

  for_assets-EndsSound :
      (data_at : Pool) (returns : Bool) (c : String → Reserve → Call) (assets : List String)
      (s : Script)
      → IsSound s.pool
      → EndsSound (for_assets g acl way data_at returns c assets s)
  unfolding for_assets
  for_assets-EndsSound data_at returns c [] s i = i
  for_assets-EndsSound data_at returns c (asset ∷ assets) s i =
      elim (Lookup-cases (find_reserve g data_at asset)) [
        | inl l ↦ rw (for_assets, l) i
        | inr (inl l) ↦ elim (Bool-cases returns) [
          | inl r ↦ rw (for_assets, l, r) i
          | inr r ↦ rw (for_assets, l, r) (for_assets-EndsSound data_at returns c assets s i)
        ]
        | inr (inr (a, r, l)) ↦
            rw (for_assets, l)
              (and_then-EndsSound (submit g acl way pool_configurator (c a r) s)
                (for_assets g acl way data_at returns c assets)
                (submit-EndsSound pool_configurator (c a r) s i)
                (for_assets-EndsSound data_at returns c assets))
      ]

-- In whatever way a task ends, dry run or not, by an exception in the middle of its list or not, the
-- parameters of every reserve are sound if they were when it started: a loan to value of at most the
-- threshold, a bonus of at least 100 % where there is a threshold and none where there is none, a
-- threshold that with the bonus is at most 100 %, and a reserve factor, a protocol fee and caps within their
-- bounds.
pub run_task-IsSound :
    (g : String → Option String) (acl : Access) (way : Way) (t : Task) (s : Script)
    → IsSound s.pool
    → EndsSound (run_task g acl way t s)
unfolding run_task set_ltv set_liquidation_threshold set_factor set_interest_rate_strategy
    set_timelock_strategy set_auction set_max_supply set_max_borrow set_pool_pause set_reserve_pause
    set_cape_pause
run_task-IsSound g acl way (ltv assets n) s i =
    for_assets-EndsSound g acl way s.pool true
      (λ a r. configure_reserve_as_collateral a n r.liquidation_threshold r.liquidation_bonus)
      assets s i
run_task-IsSound g acl way (liquidation_threshold assets n) s i =
    for_assets-EndsSound g acl way s.pool true
      (λ a r. configure_reserve_as_collateral a r.ltv n r.liquidation_bonus) assets s i
run_task-IsSound g acl way (reserve_factor assets n) s i =
    for_assets-EndsSound g acl way s.pool true (λ a r. set_reserve_factor a n) assets s i
run_task-IsSound g acl way (rate_strategy assets t) s i =
    for_assets-EndsSound g acl way s.pool false (λ a r. set_rate_strategy a t) assets s i
run_task-IsSound g acl way (timelock_strategy assets t) s i =
    for_assets-EndsSound g acl way s.pool false (λ a r. set_time_lock_strategy a t) assets s i
run_task-IsSound g acl way (auction_strategy asset t) s i =
    for_assets-EndsSound g acl way s.pool true (λ a r. set_auction_strategy a t) (asset ∷ []) s i
run_task-IsSound g acl way (supply_cap asset n) s i =
    for_assets-EndsSound g acl way s.pool true (λ a r. set_supply_cap a n) (asset ∷ []) s i
run_task-IsSound g acl way (borrow_cap asset n) s i =
    for_assets-EndsSound g acl way s.pool true (λ a r. set_borrow_cap a n) (asset ∷ []) s i
run_task-IsSound g acl way (pool_pause text) s i =
    submit-EndsSound g acl way pool_configurator
      (if to_paused text then pause_pool else unpause_pool) s i
run_task-IsSound g acl way (cape_pause text) s i =
    submit-EndsSound g acl way auto_compound_ape
      (if to_paused text then pause_cape else unpause_cape) s i
run_task-IsSound g acl way (reserve_pause asset text) s i =
    submit-EndsSound g acl way pool_configurator
      (if to_paused text then pause_reserve asset else unpause_reserve asset) s i
