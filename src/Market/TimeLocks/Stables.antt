-- ===== src/Market/TimeLocks/Stables.antt =====
-- The time lock strategy of the stable coins, in
-- market-config/timeLockStrategies.ts.
use paraspace_core.Market.{TimeLockStrategyParams, units}

abbrev pub time_lock_strategy_usdc : TimeLockStrategyParams
time_lock_strategy_usdc = record {
  name = "timeLockStrategyUSDC";
  min_threshold = units 105000 0 6;
  mid_threshold = units 400000 0 6;
  min_wait_time = 12;
  mid_wait_time = 7200;
  max_wait_time = 21600;
  pool_period_wait_time = 600;
  pool_period_limit = units 1875000 0 6;
  period = 86400;
}

abbrev pub time_lock_strategy_a_usdc : TimeLockStrategyParams
time_lock_strategy_a_usdc = record {
  name = "timeLockStrategyaUSDC";
  min_threshold = units 105000 0 6;
  mid_threshold = units 400000 0 6;
  min_wait_time = 12;
  mid_wait_time = 7200;
  max_wait_time = 21600;
  pool_period_wait_time = 600;
  pool_period_limit = units 1875000 0 6;
  period = 86400;
}

abbrev pub time_lock_strategy_usdt : TimeLockStrategyParams
time_lock_strategy_usdt = record {
  name = "timeLockStrategyUSDT";
  min_threshold = units 105000 0 6;
  mid_threshold = units 200500 0 6;
  min_wait_time = 12;
  mid_wait_time = 7200;
  max_wait_time = 21600;
  pool_period_wait_time = 600;
  pool_period_limit = units 400000 0 6;
  period = 86400;
}

abbrev pub time_lock_strategy_dai : TimeLockStrategyParams
time_lock_strategy_dai = record {
  name = "timeLockStrategyDAI";
  min_threshold = units 40000 0 18;
  mid_threshold = units 100000 0 18;
  min_wait_time = 12;
  mid_wait_time = 7200;
  max_wait_time = 21600;
  pool_period_wait_time = 600;
  pool_period_limit = units 17500 0 18;
  period = 86400;
}

abbrev pub time_lock_strategy_frax : TimeLockStrategyParams
time_lock_strategy_frax = record {
  name = "timeLockStrategyFRAX";
  min_threshold = units 30000 0 18;
  mid_threshold = units 50000 0 18;
  min_wait_time = 12;
  mid_wait_time = 7200;
  max_wait_time = 21600;
  pool_period_wait_time = 600;
  pool_period_limit = units 15000 0 18;
  period = 86400;
}

abbrev pub time_lock_strategy_xcusdt : TimeLockStrategyParams
time_lock_strategy_xcusdt = record {
  name = "timeLockStrategyXCUSDT";
  min_threshold = units 105000 0 6;
  mid_threshold = units 200500 0 6;
  min_wait_time = 12;
  mid_wait_time = 7200;
  max_wait_time = 21600;
  pool_period_wait_time = 600;
  pool_period_limit = units 400000 0 6;
  period = 86400;
}

abbrev pub time_lock_strategy_usdcwh : TimeLockStrategyParams
time_lock_strategy_usdcwh = record {
  name = "timeLockStrategyUSDCWH";
  min_threshold = units 105000 0 6;
  mid_threshold = units 400000 0 6;
  min_wait_time = 12;
  mid_wait_time = 7200;
  max_wait_time = 21600;
  pool_period_wait_time = 600;
  pool_period_limit = units 1875000 0 6;
  period = 86400;
}
