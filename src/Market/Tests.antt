-- ===== src/Market/Tests.antt =====
-- The strategies of concrete tables.
use paraspace_core.Prelude.{ℕ, ◌+◌, ◌-◌, ◌≤◌, true, none, some, All, ◌≡◌, refl, arith}
use paraspace_core.Market.{Environment, MarketConfig}
use paraspace_core.Market.Common.{common_config}
use paraspace_core.Market.TimeLocks.{time_lock_strategy_usdc}
use paraspace_core.Market.Configs.{mainnet, paraspace_configs}
use paraspace_core.Market.Release.{
  Period, is_constructed, calculate_time_lock_params, wait_time, update_period_limit,
  calculate-bounded, calculate_mono,
}
use paraspace_core.Market.Constructed.{AreConstructed, market-AreConstructed}

abbrev environment : Environment
environment = record { multi_send = ""; multi_sig = "" }

abbrev market : MarketConfig
market = elim (paraspace_configs environment mainnet) [
  | none ↦ common_config environment
  | some m ↦ m
]

market-AreConstructed_example : All AreConstructed market.reserves_config
market-AreConstructed_example = market-AreConstructed environment mainnet market refl

abbrev period : Period
period = record { total = 1875000000000; last_reset = 1700000000 }

usdc_test : is_constructed time_lock_strategy_usdc ≡ true
unfolding is_constructed
usdc_test = refl

-- Half an hour after the reset the period's limit is reached: 7200 and 600 seconds of waiting.
release_test :
    calculate_time_lock_params time_lock_strategy_usdc 1700001800 200000000000 period
    ≡ some (1700009600, record { total = 2075000000000; last_reset = 1700000000 })
unfolding calculate_time_lock_params update_period_limit wait_time
release_test = refl

calculate-bounded_example :
    (r : ℕ) × (s' : Period) × (calculate_time_lock_params time_lock_strategy_usdc 1700001800
        200000000000 period
      ≡ some (r, s'))
    × (1700001800 + 12 ≤ r)
    × (r ≤ 1700001800 + 21600 + 600)
    × (s'.total ≡ 1875000000000 + 200000000000)
calculate-bounded_example =
    calculate-bounded time_lock_strategy_usdc 1700001800 200000000000 period usdc_test (omega arith)
      (omega arith) (omega arith)

calculate_mono_example :
    (q : ℕ) × (u : Period) × (calculate_time_lock_params time_lock_strategy_usdc 1700001800 5 period
      ≡ some (q, u))
    × (q + (wait_time time_lock_strategy_usdc 200000000000 - wait_time time_lock_strategy_usdc 5)
        ≤ 1700009600)
    × (u.total + (200000000000 - 5) ≡ 2075000000000)
calculate_mono_example =
    calculate_mono time_lock_strategy_usdc 1700001800 5 200000000000 period
      (record { total = 2075000000000; last_reset = 1700000000 }) 1700009600 usdc_test (omega arith)
      release_test
