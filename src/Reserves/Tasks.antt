-- ===== src/Reserves/Tasks.antt =====
-- The tasks of tasks/dev/reserveConfigurator.ts. An asset list is what `split(",")` gives;
-- `get_address` is `utils.getAddress`, which throws on text that is no address. A number among the
-- arguments is text in the source, which the encoder of ethers reads; here it is the number.
use paraspace_core.Prelude.{
  if◌then◌else◌, ℕ, String, str_eq, Bool, true, false, Option, none, some, List, [], ◌∷◌, ◌++◌,
}
use paraspace_core.Timelock.{Way, live, kept, raw}
use paraspace_core.Reserves.{
  Reserve, Pool, Access, Contract, pool_configurator, auto_compound_ape, Call,
  configure_reserve_as_collateral, set_reserve_factor, set_supply_cap, set_borrow_cap,
  set_rate_strategy, set_auction_strategy, set_time_lock_strategy, pause_pool, unpause_pool,
  pause_reserve, unpause_reserve, pause_cape, unpause_cape, is_listed,
}
use paraspace_core.Reserves.Configurator.{execute}

-- The chain, and the calls that `dryRunEncodedData` kept.
pub record Script : Type 0 where
  pub pool : Pool
  pub encoded : List (Contract × Call)

-- How a task ends: normally, or by an exception after some effects.
pub data Outcome : Type 0 where
  finished : Script → Outcome
  thrown : Script → Outcome

-- What `reservesData.find(…)` gives.
pub data Lookup : Type 0 where
  invalid : Lookup
  missing : Lookup
  found : String → Reserve → Lookup

-- `paused == "false" ? false : true`
abbrev pub to_paused : String → Bool
to_paused text = if str_eq text "false" then false else true

-- `reservesData.find(x => x.underlyingAsset === utils.getAddress(asset))`: where there are no reserves
-- the address is never looked at.
abbrev pub look_up : List String → Option String → (String → Bool) → (String → Reserve) → Lookup
look_up [] address listed data_of = missing
look_up (_ ∷ _) none listed data_of = invalid
look_up (_ ∷ _) (some a) listed data_of = if listed a then found a (data_of a) else missing

-- The search in the reserves that the provider of the user interface gave at the start.
unfoldable pub find_reserve : (String → Option String) → Pool → String → Lookup
find_reserve get_address p asset =
    look_up p.reserves_list (get_address asset) (is_listed p) p.reserve

module _ (get_address : String → Option String) (acl : Access) (way : Way) where
  -- The contract's own function, or a raw transaction of the same signer with its encoded call.
  abbrev pub transact : Contract → Call → Script → Outcome
  transact contract c s = elim (execute acl c s.pool) [
    | none ↦ thrown s
    | some p ↦ finished (record s { pool = p })
  ]

  -- `if (DRY_RUN) dryRunEncodedData(contract, encodedData) else waitForTx(contract.call())`
  unfoldable pub submit : Contract → Call → Script → Outcome
  submit contract c s = elim way [
    | live ↦ transact contract c s
    | raw ↦ transact contract c s
    | kept ↦ finished (record s { encoded = s.encoded ++ (contract, c) ∷ [] })
  ]

  abbrev pub and_then : Outcome → (Script → Outcome) → Outcome
  and_then (finished s) k = k s
  and_then (thrown s) k = thrown s

  -- `for (const asset of assets.split(","))`; at an asset without a reserve the task either returns
  -- or goes on with the next.
  unfoldable pub for_assets :
      Pool → (returns : Bool) → (String → Reserve → Call) → List String → Script → Outcome
  for_assets data_at returns c [] s = finished s
  for_assets data_at returns c (asset ∷ assets) s =
      let rest = for_assets data_at returns c assets in
      elim (find_reserve get_address data_at asset) [
        | invalid ↦ thrown s
        | missing ↦ if returns then finished s else rest s
        | found a r ↦ and_then (submit pool_configurator (c a r) s) rest
      ]

  unfoldable pub set_ltv : List String → ℕ → Script → Outcome
  set_ltv assets ltv s =
      for_assets s.pool true
        (λ a r. configure_reserve_as_collateral a ltv r.liquidation_threshold r.liquidation_bonus)
        assets s

  unfoldable pub set_liquidation_threshold : List String → ℕ → Script → Outcome
  set_liquidation_threshold assets threshold s =
      for_assets s.pool true
        (λ a r. configure_reserve_as_collateral a r.ltv threshold r.liquidation_bonus) assets s

  unfoldable pub set_factor : List String → ℕ → Script → Outcome
  set_factor assets n s = for_assets s.pool true (λ a r. set_reserve_factor a n) assets s

  unfoldable pub set_interest_rate_strategy : List String → String → Script → Outcome
  set_interest_rate_strategy assets t s =
      for_assets s.pool false (λ a r. set_rate_strategy a t) assets s

  unfoldable pub set_timelock_strategy : List String → String → Script → Outcome
  set_timelock_strategy assets t s =
      for_assets s.pool false (λ a r. set_time_lock_strategy a t) assets s

  -- The tasks on one asset: as a loop over it that returns where it has no reserve.
  unfoldable pub set_auction : String → String → Script → Outcome
  set_auction asset t s = for_assets s.pool true (λ a r. set_auction_strategy a t) (asset ∷ []) s

  unfoldable pub set_max_supply : String → ℕ → Script → Outcome
  set_max_supply asset n s = for_assets s.pool true (λ a r. set_supply_cap a n) (asset ∷ []) s

  unfoldable pub set_max_borrow : String → ℕ → Script → Outcome
  set_max_borrow asset n s = for_assets s.pool true (λ a r. set_borrow_cap a n) (asset ∷ []) s

  unfoldable pub set_pool_pause : String → Script → Outcome
  set_pool_pause text s =
      submit pool_configurator (if to_paused text then pause_pool else unpause_pool) s

  unfoldable pub set_reserve_pause : String → String → Script → Outcome
  set_reserve_pause asset text s =
      submit pool_configurator
        (if to_paused text then pause_reserve asset else unpause_reserve asset) s

  unfoldable pub set_cape_pause : String → Script → Outcome
  set_cape_pause text s =
      submit auto_compound_ape (if to_paused text then pause_cape else unpause_cape) s

-- The tasks of the file with their arguments.
pub data Task : Type 0 where
  ltv liquidation_threshold reserve_factor : List String → ℕ → Task
  rate_strategy timelock_strategy : List String → String → Task
  auction_strategy : String → String → Task
  supply_cap borrow_cap : String → ℕ → Task
  pool_pause cape_pause : String → Task
  reserve_pause : String → String → Task

unfoldable pub run_task : (String → Option String) → Access → Way → Task → Script → Outcome
unfolding set_ltv set_liquidation_threshold set_factor set_interest_rate_strategy
    set_timelock_strategy set_auction set_max_supply set_max_borrow set_pool_pause set_reserve_pause
    set_cape_pause
run_task g acl way (ltv assets n) = set_ltv g acl way assets n
run_task g acl way (liquidation_threshold assets n) = set_liquidation_threshold g acl way assets n
run_task g acl way (reserve_factor assets n) = set_factor g acl way assets n
run_task g acl way (rate_strategy assets t) = set_interest_rate_strategy g acl way assets t
run_task g acl way (timelock_strategy assets t) = set_timelock_strategy g acl way assets t
run_task g acl way (auction_strategy asset t) = set_auction g acl way asset t
run_task g acl way (supply_cap asset n) = set_max_supply g acl way asset n
run_task g acl way (borrow_cap asset n) = set_max_borrow g acl way asset n
run_task g acl way (pool_pause text) = set_pool_pause g acl way text
run_task g acl way (cape_pause text) = set_cape_pause g acl way text
run_task g acl way (reserve_pause asset text) = set_reserve_pause g acl way asset text
