-- ===== src/Market/TimeLocks/Chains.antt =====
-- The time lock strategy of bitcoin and the other chains' own coins, in
-- market-config/timeLockStrategies.ts.
use paraspace_core.Market.{TimeLockStrategyParams, units}

abbrev pub time_lock_strategy_wbtc : TimeLockStrategyParams
time_lock_strategy_wbtc = record {
  name = "timeLockStrategyWBTC";
  min_threshold = units 25 1 8;
  mid_threshold = units 28 1 8;
  min_wait_time = 12;
  mid_wait_time = 7200;
  max_wait_time = 21600;
  pool_period_wait_time = 600;
  pool_period_limit = units 3 0 8;
  period = 86400;
}

abbrev pub time_lock_strategy_xcdot : TimeLockStrategyParams
time_lock_strategy_xcdot = record {
  name = "timeLockStrategyXCDOT";
  min_threshold = units 1000 0 10;
  mid_threshold = units 5000 0 10;
  min_wait_time = 12;
  mid_wait_time = 7200;
  max_wait_time = 21600;
  pool_period_wait_time = 600;
  pool_period_limit = units 50000 0 10;
  period = 86400;
}

abbrev pub time_lock_strategy_stdot : TimeLockStrategyParams
time_lock_strategy_stdot = record {
  name = "timeLockStrategySTDOT";
  min_threshold = units 1000 0 10;
  mid_threshold = units 5000 0 10;
  min_wait_time = 12;
  mid_wait_time = 7200;
  max_wait_time = 21600;
  pool_period_wait_time = 600;
  pool_period_limit = units 50000 0 10;
  period = 86400;
}

abbrev pub time_lock_strategy_wbtcwh : TimeLockStrategyParams
time_lock_strategy_wbtcwh = record {
  name = "timeLockStrategyWBTCWH";
  min_threshold = units 25 1 8;
  mid_threshold = units 28 1 8;
  min_wait_time = 12;
  mid_wait_time = 7200;
  max_wait_time = 21600;
  pool_period_wait_time = 600;
  pool_period_limit = units 3 0 8;
  period = 86400;
}

abbrev pub time_lock_strategy_wglmr : TimeLockStrategyParams
time_lock_strategy_wglmr = record {
  name = "timeLockStrategyWGLMR";
  min_threshold = units 1000 0 18;
  mid_threshold = units 5000 0 18;
  min_wait_time = 12;
  mid_wait_time = 7200;
  max_wait_time = 21600;
  pool_period_wait_time = 600;
  pool_period_limit = units 50000 0 18;
  period = 86400;
}

abbrev pub time_lock_strategy_arb : TimeLockStrategyParams
time_lock_strategy_arb = record {
  name = "timeLockStrategyARB";
  min_threshold = units 10000 0 18;
  mid_threshold = units 20000 0 18;
  min_wait_time = 12;
  mid_wait_time = 7200;
  max_wait_time = 21600;
  pool_period_wait_time = 600;
  pool_period_limit = units 30000 0 18;
  period = 86400;
}

abbrev pub time_lock_strategy_matic : TimeLockStrategyParams
time_lock_strategy_matic = record {
  name = "timeLockStrategyMATIC";
  min_threshold = units 80000 0 18;
  mid_threshold = units 120000 0 18;
  min_wait_time = 12;
  mid_wait_time = 7200;
  max_wait_time = 21600;
  pool_period_wait_time = 600;
  pool_period_limit = units 240000 0 18;
  period = 86400;
}

abbrev pub time_lock_strategy_stmatic : TimeLockStrategyParams
time_lock_strategy_stmatic = record {
  name = "timeLockStrategySTMATIC";
  min_threshold = units 80000 0 18;
  mid_threshold = units 120000 0 18;
  min_wait_time = 12;
  mid_wait_time = 7200;
  max_wait_time = 21600;
  pool_period_wait_time = 600;
  pool_period_limit = units 240000 0 18;
  period = 86400;
}

abbrev pub time_lock_strategy_wmatic : TimeLockStrategyParams
time_lock_strategy_wmatic = record {
  name = "timeLockStrategyWMATIC";
  min_threshold = units 80000 0 18;
  mid_threshold = units 120000 0 18;
  min_wait_time = 12;
  mid_wait_time = 7200;
  max_wait_time = 21600;
  pool_period_wait_time = 600;
  pool_period_limit = units 240000 0 18;
  period = 86400;
}
