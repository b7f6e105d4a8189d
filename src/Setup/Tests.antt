-- ===== src/Setup/Tests.antt =====
-- The configuration of a pool with one reserve, and the theorems there.
use paraspace_core.Prelude.{
  if◌then◌else◌, String, str_eq, Bool, true, false, Option, none, some, List, [], ◌∷◌, ◌≡◌, refl,
  ap, All,
}
use paraspace_core.Chunk.{chunk, reduce_chunks}
use paraspace_core.Market.{Environment, ReserveParams, MarketConfig}
use paraspace_core.Market.Common.{common_config}
use paraspace_core.Market.Params.{strategy_weth}
use paraspace_core.Market.Configs.{zksync, paraspace_configs}
use paraspace_core.Reserves.{Reserve, Pool, Access}
use paraspace_core.Reserves.Configurator.{are_valid, percent_mul, execute, update}
use paraspace_core.Setup.{ConfigureReserveInput, World, Setting, address_of}
use paraspace_core.Setup.Helper.{
  to_input, collect_inputs, helper_access, configure_loop, configure_reserve, configure_chunks,
  configure_chunk, submit_inputs, configure_reserves_by_helper,
}
use paraspace_core.Setup.Described.{described_pool}
use paraspace_core.Setup.Writes.{HasReserve}
use paraspace_core.Setup.Configured.{IsReady, configure_all, configure_loop-refines}
use paraspace_core.Setup.Batches.{granted, SameAdmins, configure_reserves_by_helper-lends}
use paraspace_core.Setup.Rerun.{configure_reserves_by_helper-again}
use paraspace_core.Setup.Tables.{IsFresh, market-configured}

abbrev new_reserve : Reserve
new_reserve = record {
  ltv = 0;
  liquidation_threshold = 0;
  liquidation_bonus = 0;
  reserve_factor = 0;
  supply_cap = 0;
  borrow_cap = 0;
  interest_rate_strategy = "rate";
  auction_strategy = "auction";
  time_lock_strategy = "lock";
  is_paused = false;
  liquidation_protocol_fee = 0;
  borrowing_enabled = false;
  is_active = true;
  is_frozen = false;
  is_siloed = false;
}

abbrev new_pool : Pool
new_pool = record { reserves_list = "0xweth" ∷ []; reserve = λ _. new_reserve; cape_paused = false }

abbrev setting : Setting
setting = record {
  dry_run = false;
  signer = "deployer";
  administers_roles = true;
  helper = "helper";
  helper_owner = "deployer";
  has_suppliers = λ _. false;
  has_borrowers = λ _. false;
}

abbrev world : World
world = record { pool = new_pool; pool_admins = λ a. str_eq a "deployer"; encoded = [] }

abbrev rows : List (String × ReserveParams)
rows = ("WETH", strategy_weth) ∷ ("cAPE", strategy_weth) ∷ []

abbrev tokens : List (String × String)
tokens = ("WETH", "0xweth") ∷ ("DAI", "") ∷ []

abbrev weth : ConfigureReserveInput
weth = to_input "0xweth" strategy_weth

-- The row without an address is left out.
collect_inputs_test : collect_inputs new_pool tokens rows ≡ weth ∷ []
unfolding collect_inputs address_of
collect_inputs_test = refl

-- The reserve ends with the numbers of the table.
configure_test :
    (elim (configure_reserves_by_helper setting rows tokens world) [
      | none ↦ 0
      | some v ↦ (v.pool.reserve "0xweth").liquidation_threshold
    ])
    ≡ strategy_weth.liquidation_threshold
unfolding configure_reserves_by_helper submit_inputs collect_inputs address_of configure_chunks
    configure_chunk chunk reduce_chunks configure_loop configure_reserve execute are_valid
    percent_mul update
configure_test = refl

weth-IsReady : (acl : Access) → acl.has_suppliers "0xweth" ≡ false → IsReady acl new_pool weth
unfolding are_valid percent_mul
weth-IsReady acl h = (
  record { nonzero = refl; listed = refl },
  record {
    is_loan = refl;
    loan_below = refl;
    collateral = refl;
    loan_fits = refl;
    threshold_fits = refl;
    bonus_fits = refl;
    fee_fits = refl;
    borrow_cap_fits = refl;
    supply_cap_fits = refl;
    factor_fits = refl;
  },
)

configure_loop-refines_example :
    configure_loop (helper_access setting (granted setting world).pool_admins) (weth ∷ []) new_pool
    ≡ some (configure_all (weth ∷ []) new_pool)
configure_loop-refines_example =
    configure_loop-refines (helper_access setting (granted setting world).pool_admins) (weth ∷ [])
      new_pool refl
      (weth-IsReady (helper_access setting (granted setting world).pool_admins) refl, tt)

configure_reserves_by_helper-lends_example :
    (v : World) × (configure_reserves_by_helper setting rows tokens world ≡ some v)
    × SameAdmins world v
configure_reserves_by_helper-lends_example =
    configure_reserves_by_helper-lends setting rows tokens world refl refl

rows-IsReady :
    All
      (IsReady (helper_access setting (granted setting world).pool_admins) new_pool)
      (collect_inputs new_pool tokens rows)
rows-IsReady =
    rw collect_inputs_test
      (weth-IsReady (helper_access setting (granted setting world).pool_admins) refl, tt)

configure_reserves_by_helper-again_example :
    (v : World) × (configure_reserves_by_helper setting rows tokens world ≡ some v)
    × (configure_reserves_by_helper setting rows tokens v ≡ some v)
configure_reserves_by_helper-again_example =
    configure_reserves_by_helper-again setting rows tokens world refl refl refl rows-IsReady
      (refl, (refl, tt))

tokens-listed :
    (symbol token : String) → address_of tokens symbol ≡ some token → HasReserve new_pool token
unfolding address_of
tokens-listed symbol token = first (str_eq "WETH" symbol) (str_eq "DAI" symbol)
  where
    unpack : Option String → String
    unpack none = ""
    unpack (some x) = x

    first :
        (b c : Bool)
        → (if b then some "0xweth" else if c then none else none) ≡ some token
        → HasReserve new_pool token
    first true c h =
        let e : "0xweth" ≡ token = ap unpack h in rw⁻¹ e (record { nonzero = refl; listed = refl })
    first false true h = cc
    first false false h = cc

new_pool-IsFresh : IsFresh setting new_pool tokens
new_pool-IsFresh = record { lists = tokens-listed; unsupplied = λ a. refl }

abbrev environment : Environment
environment = record { multi_send = ""; multi_sig = "" }

abbrev market : MarketConfig
market = elim (paraspace_configs environment zksync) [
  | none ↦ common_config environment
  | some m ↦ m
]

market-configured_example :
    (v : World) × (configure_reserves_by_helper setting market.reserves_config tokens world
      ≡ some v)
    × (v.pool ≡ described_pool tokens market.reserves_config new_pool)
market-configured_example =
    market-configured environment zksync market setting tokens world refl refl refl refl
      new_pool-IsFresh
