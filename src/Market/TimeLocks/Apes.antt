-- ===== src/Market/TimeLocks/Apes.antt =====
-- The time lock strategy of APE and its wrappers, PUNK and BLUR, in
-- market-config/timeLockStrategies.ts.
use paraspace_core.Market.{TimeLockStrategyParams, units}

abbrev pub time_lock_strategy_punk : TimeLockStrategyParams
time_lock_strategy_punk = record {
  name = "timeLockStrategyPUNK";
  min_threshold = units 1000 0 18;
  mid_threshold = units 5000 0 18;
  min_wait_time = 12;
  mid_wait_time = 7200;
  max_wait_time = 21600;
  pool_period_wait_time = 600;
  pool_period_limit = units 50000 0 18;
  period = 86400;
}

abbrev pub time_lock_strategy_ape : TimeLockStrategyParams
time_lock_strategy_ape = record {
  name = "timeLockStrategyAPE";
  min_threshold = units 10975 0 18;
  mid_threshold = units 20100 0 18;
  min_wait_time = 12;
  mid_wait_time = 7200;
  max_wait_time = 21600;
  pool_period_wait_time = 600;
  pool_period_limit = units 30000 0 18;
  period = 86400;
}

abbrev pub time_lock_strategy_sape : TimeLockStrategyParams
time_lock_strategy_sape = record {
  name = "timeLockStrategySAPE";
  min_threshold = units 10975 0 18;
  mid_threshold = units 53000 0 18;
  min_wait_time = 12;
  mid_wait_time = 7200;
  max_wait_time = 21600;
  pool_period_wait_time = 600;
  pool_period_limit = units 1000000 0 18;
  period = 86400;
}

abbrev pub time_lock_strategy_cape : TimeLockStrategyParams
time_lock_strategy_cape = record {
  name = "timeLockStrategyCAPE";
  min_threshold = units 10975 0 18;
  mid_threshold = units 53000 0 18;
  min_wait_time = 12;
  mid_wait_time = 7200;
  max_wait_time = 21600;
  pool_period_wait_time = 600;
  pool_period_limit = units 1000000 0 18;
  period = 86400;
}

abbrev pub time_lock_strategy_yape : TimeLockStrategyParams
time_lock_strategy_yape = record {
  name = "timeLockStrategyYAPE";
  min_threshold = units 10975 0 18;
  mid_threshold = units 53000 0 18;
  min_wait_time = 12;
  mid_wait_time = 7200;
  max_wait_time = 21600;
  pool_period_wait_time = 600;
  pool_period_limit = units 1000000 0 18;
  period = 86400;
}

abbrev pub time_lock_strategy_blur : TimeLockStrategyParams
time_lock_strategy_blur = record {
  name = "timeLockStrategyBLUR";
  min_threshold = units 71500 0 18;
  mid_threshold = units 118750 0 18;
  min_wait_time = 12;
  mid_wait_time = 7200;
  max_wait_time = 21600;
  pool_period_wait_time = 600;
  pool_period_limit = units 200000 0 18;
  period = 86400;
}
