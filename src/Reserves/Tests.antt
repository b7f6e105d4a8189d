-- ===== src/Reserves/Tests.antt =====
-- Runs of the tasks on a pool of two reserves, and the theorems there.
use paraspace_core.Prelude.{
  if◌then◌else◌, ℕ, String, str_eq, true, false, some, List, [], ◌∷◌, map, ◌≡◌, refl, arith,
}
use paraspace_core.Timelock.{live, kept}
use paraspace_core.Reserves.{
  Reserve, Pool, Access, pool_configurator, configure_reserve_as_collateral,
}
use paraspace_core.Reserves.Configurator.{
  execute, are_valid, percent_mul, update, update_all, with_paused,
}
use paraspace_core.Reserves.Tasks.{
  Script, finished, find_reserve, submit, for_assets, set_ltv, set_timelock_strategy, ltv, run_task,
  set_pool_pause, to_paused,
}
use paraspace_core.Reserves.Sound.{IsSound}
use paraspace_core.Reserves.Replay.{IsReplayed, run_task-replays}
use paraspace_core.Reserves.Endings.{EndsSound, run_task-IsSound}
use paraspace_core.Reserves.Pausing.{nonzero, set_pool_pause-sets}
use paraspace_core.Reserves.Selection.{leading, present, known}
use paraspace_core.Reserves.Effects.{SetFor, set_ltv-sets, set_timelock_strategy-sets}

abbrev reserve_data : Reserve
reserve_data = record {
  ltv = 5000;
  liquidation_threshold = 7000;
  liquidation_bonus = 10500;
  reserve_factor = 1000;
  supply_cap = 0;
  borrow_cap = 0;
  interest_rate_strategy = "rate";
  auction_strategy = "auction";
  time_lock_strategy = "old";
  is_paused = false;
  liquidation_protocol_fee = 0;
  borrowing_enabled = true;
  is_active = true;
  is_frozen = false;
  is_siloed = false;
}

abbrev pool : Pool
pool = record {
  reserves_list = "WETH" ∷ "APE" ∷ [];
  reserve = λ _. reserve_data;
  cape_paused = false;
}

abbrev risk_admin : Access
risk_admin = record {
  is_pool_admin = false;
  is_emergency_admin = false;
  is_risk_admin = true;
  has_suppliers = λ _. true;
  has_borrowers = λ _. true;
}

abbrev start : Script
start = record { pool = pool; encoded = [] }

abbrev assets : List String
assets = "WETH" ∷ "DAI" ∷ "APE" ∷ []

abbrev collateral_for : ℕ → String → Script
collateral_for n asset = record {
  pool = record {
    reserves_list = "WETH" ∷ "APE" ∷ [];
    reserve = λ k. if str_eq k asset then record reserve_data { ltv = n } else reserve_data;
    cape_paused = false;
  };
  encoded = [];
}

-- The loan to value of APE is not set, since DAI is not listed.
set_ltv_test :
    set_ltv some risk_admin live assets 6000 start ≡ finished (collateral_for 6000 "WETH")
unfolding set_ltv for_assets find_reserve submit execute are_valid percent_mul update
set_ltv_test = refl

set_ltv-sets_example :
    SetFor
      (leading (map (known some pool) assets))
      (λ r. record r { ltv = 6000 })
      pool
      (collateral_for 6000 "WETH").pool
set_ltv-sets_example =
    set_ltv-sets some risk_admin assets start (collateral_for 6000 "WETH") 6000 set_ltv_test

abbrev with_strategy : Script
with_strategy = record {
  pool = record {
    reserves_list = "WETH" ∷ "APE" ∷ [];
    reserve = λ k.
        if str_eq k "APE"
        then record (if str_eq k "WETH"
            then record reserve_data { time_lock_strategy = "new" }
            else reserve_data) { time_lock_strategy = "new" }
        else if str_eq k "WETH"
        then record reserve_data { time_lock_strategy = "new" }
        else reserve_data;
    cape_paused = false;
  };
  encoded = [];
}

-- The strategies of WETH and APE are both set.
set_timelock_strategy_test :
    set_timelock_strategy some risk_admin live assets "new" start ≡ finished with_strategy
unfolding set_timelock_strategy for_assets find_reserve submit execute update
set_timelock_strategy_test = refl

set_timelock_strategy-sets_example :
    SetFor
      (present (map (known some pool) assets))
      (λ r. record r { time_lock_strategy = "new" })
      pool
      with_strategy.pool
set_timelock_strategy-sets_example =
    set_timelock_strategy-sets some risk_admin assets start with_strategy "new"
      set_timelock_strategy_test

abbrev dry_end : Script
dry_end = record {
  pool = pool;
  encoded = (pool_configurator, configure_reserve_as_collateral "WETH" 6000 7000 10500) ∷ [];
}

dry_run_test : run_task some risk_admin kept (ltv assets 6000) start ≡ finished dry_end
unfolding run_task set_ltv for_assets find_reserve submit
dry_run_test = refl

run_task-replays_example :
    IsReplayed risk_admin start dry_end (run_task some risk_admin live (ltv assets 6000) start)
run_task-replays_example =
    run_task-replays some risk_admin start dry_end (ltv assets 6000) dry_run_test

pool-IsSound : IsSound pool
pool-IsSound k = record {
  borrow_below = omega arith;
  no_bonus = λ h. omega arith;
  bonus_above = λ h. omega arith;
  covered = omega arith;
  factor_below = omega arith;
  supply_cap_below = omega arith;
  borrow_cap_below = omega arith;
  fee_below = omega arith;
}

run_task-IsSound_example : EndsSound (run_task some risk_admin live (ltv assets 8000) start)
run_task-IsSound_example =
    run_task-IsSound some risk_admin live (ltv assets 8000) start pool-IsSound

abbrev guardian : Access
guardian = record {
  is_pool_admin = false;
  is_emergency_admin = true;
  is_risk_admin = false;
  has_suppliers = λ _. true;
  has_borrowers = λ _. true;
}

abbrev paused_end : Script
paused_end = record {
  pool = record {
    reserves_list = "WETH" ∷ "APE" ∷ [];
    reserve = λ k.
        if str_eq k "APE"
        then with_paused true
            (if str_eq k "WETH" then with_paused true reserve_data else reserve_data)
        else if str_eq k "WETH"
        then with_paused true reserve_data
        else reserve_data;
    cape_paused = false;
  };
  encoded = [];
}

set_pool_pause_test : set_pool_pause some guardian live "true" start ≡ finished paused_end
unfolding set_pool_pause submit execute update_all update
set_pool_pause_test = refl

set_pool_pause-sets_example :
    SetFor (nonzero pool.reserves_list) (with_paused (to_paused "true")) pool paused_end.pool
set_pool_pause-sets_example =
    set_pool_pause-sets some guardian "true" start paused_end set_pool_pause_test
