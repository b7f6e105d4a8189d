-- ===== src/Market/TimeLocks/Ethers.antt =====
-- The time lock strategy of ether and what wraps or stakes it, in
-- market-config/timeLockStrategies.ts.
use paraspace_core.Market.{TimeLockStrategyParams, units}

abbrev pub time_lock_strategy_weth : TimeLockStrategyParams
time_lock_strategy_weth = record {
  name = "timeLockStrategyWETH";
  min_threshold = units 515 1 18;
  mid_threshold = units 155 0 18;
  min_wait_time = 12;
  mid_wait_time = 7200;
  max_wait_time = 21600;
  pool_period_wait_time = 600;
  pool_period_limit = units 1900 0 18;
  period = 86400;
}

abbrev pub time_lock_strategy_cbeth : TimeLockStrategyParams
time_lock_strategy_cbeth = record {
  name = "timeLockStrategyCBETH";
  min_threshold = units 515 1 18;
  mid_threshold = units 155 0 18;
  min_wait_time = 12;
  mid_wait_time = 7200;
  max_wait_time = 21600;
  pool_period_wait_time = 600;
  pool_period_limit = units 1900 0 18;
  period = 86400;
}

abbrev pub time_lock_strategy_reth : TimeLockStrategyParams
time_lock_strategy_reth = record {
  name = "timeLockStrategyRETH";
  min_threshold = units 515 1 18;
  mid_threshold = units 155 0 18;
  min_wait_time = 12;
  mid_wait_time = 7200;
  max_wait_time = 21600;
  pool_period_wait_time = 600;
  pool_period_limit = units 1900 0 18;
  period = 86400;
}

abbrev pub time_lock_strategy_steth : TimeLockStrategyParams
time_lock_strategy_steth = record {
  name = "timeLockStrategySTETH";
  min_threshold = units 515 1 18;
  mid_threshold = units 155 0 18;
  min_wait_time = 12;
  mid_wait_time = 7200;
  max_wait_time = 21600;
  pool_period_wait_time = 600;
  pool_period_limit = units 1900 0 18;
  period = 86400;
}

abbrev pub time_lock_strategy_asteth : TimeLockStrategyParams
time_lock_strategy_asteth = record {
  name = "timeLockStrategyASTETH";
  min_threshold = units 515 1 18;
  mid_threshold = units 155 0 18;
  min_wait_time = 12;
  mid_wait_time = 7200;
  max_wait_time = 21600;
  pool_period_wait_time = 600;
  pool_period_limit = units 1900 0 18;
  period = 86400;
}

abbrev pub time_lock_strategy_wsteth : TimeLockStrategyParams
time_lock_strategy_wsteth = record {
  name = "timeLockStrategyWSTETH";
  min_threshold = units 515 1 18;
  mid_threshold = units 155 0 18;
  min_wait_time = 12;
  mid_wait_time = 7200;
  max_wait_time = 21600;
  pool_period_wait_time = 600;
  pool_period_limit = units 1900 0 18;
  period = 86400;
}

abbrev pub time_lock_strategy_bendeth : TimeLockStrategyParams
time_lock_strategy_bendeth = record {
  name = "timeLockStrategyBENDETH";
  min_threshold = units 515 1 18;
  mid_threshold = units 155 0 18;
  min_wait_time = 12;
  mid_wait_time = 7200;
  max_wait_time = 21600;
  pool_period_wait_time = 600;
  pool_period_limit = units 1900 0 18;
  period = 86400;
}

abbrev pub time_lock_strategy_awsteth : TimeLockStrategyParams
time_lock_strategy_awsteth = record {
  name = "timeLockStrategyAWSTETH";
  min_threshold = units 515 1 18;
  mid_threshold = units 155 0 18;
  min_wait_time = 12;
  mid_wait_time = 7200;
  max_wait_time = 21600;
  pool_period_wait_time = 600;
  pool_period_limit = units 1900 0 18;
  period = 86400;
}

abbrev pub time_lock_strategy_aweth : TimeLockStrategyParams
time_lock_strategy_aweth = record {
  name = "timeLockStrategyAWETH";
  min_threshold = units 515 1 18;
  mid_threshold = units 155 0 18;
  min_wait_time = 12;
  mid_wait_time = 7200;
  max_wait_time = 21600;
  pool_period_wait_time = 600;
  pool_period_limit = units 1900 0 18;
  period = 86400;
}

abbrev pub time_lock_strategy_ceth : TimeLockStrategyParams
time_lock_strategy_ceth = record {
  name = "timeLockStrategyCETH";
  min_threshold = units 515 1 18;
  mid_threshold = units 155 0 18;
  min_wait_time = 12;
  mid_wait_time = 7200;
  max_wait_time = 21600;
  pool_period_wait_time = 600;
  pool_period_limit = units 1900 0 18;
  period = 86400;
}

abbrev pub time_lock_strategy_wethwh : TimeLockStrategyParams
time_lock_strategy_wethwh = record {
  name = "timeLockStrategyWETHWH";
  min_threshold = units 515 1 18;
  mid_threshold = units 155 0 18;
  min_wait_time = 12;
  mid_wait_time = 7200;
  max_wait_time = 21600;
  pool_period_wait_time = 600;
  pool_period_limit = units 1900 0 18;
  period = 86400;
}
