-- ===== src/Market/TimeLocks/Protocols.antt =====
-- The time lock strategy of the coins of protocols and of fractions, and what stands for no asset, in
-- market-config/timeLockStrategies.ts.
use paraspace_core.Market.{TimeLockStrategyParams, units}

abbrev pub time_lock_strategy_u_bayc : TimeLockStrategyParams
time_lock_strategy_u_bayc = record {
  name = "timeLockStrategyuBAYC";
  min_threshold = units 1800000 0 18;
  mid_threshold = units 5400000 0 18;
  min_wait_time = 12;
  mid_wait_time = 7200;
  max_wait_time = 21600;
  pool_period_wait_time = 600;
  pool_period_limit = units 64800000 0 18;
  period = 86400;
}

abbrev pub time_lock_strategy_u_ppg : TimeLockStrategyParams
time_lock_strategy_u_ppg = record {
  name = "timeLockStrategyuPPG";
  min_threshold = units 10000000 0 18;
  mid_threshold = units 30000000 0 18;
  min_wait_time = 12;
  mid_wait_time = 7200;
  max_wait_time = 21600;
  pool_period_wait_time = 600;
  pool_period_limit = units 360000000 0 18;
  period = 86400;
}

abbrev pub time_lock_strategy_gmx : TimeLockStrategyParams
time_lock_strategy_gmx = record {
  name = "timeLockStrategyGMX";
  min_threshold = units 1000 0 18;
  mid_threshold = units 2000 0 18;
  min_wait_time = 12;
  mid_wait_time = 7200;
  max_wait_time = 21600;
  pool_period_wait_time = 600;
  pool_period_limit = units 3000 0 18;
  period = 86400;
}

abbrev pub time_lock_strategy_bal : TimeLockStrategyParams
time_lock_strategy_bal = record {
  name = "timeLockStrategyBAL";
  min_threshold = units 10000 0 18;
  mid_threshold = units 20000 0 18;
  min_wait_time = 12;
  mid_wait_time = 7200;
  max_wait_time = 21600;
  pool_period_wait_time = 600;
  pool_period_limit = units 30000 0 18;
  period = 86400;
}

abbrev pub time_lock_strategy_rdnt : TimeLockStrategyParams
time_lock_strategy_rdnt = record {
  name = "timeLockStrategyRDNT";
  min_threshold = units 80000 0 18;
  mid_threshold = units 120000 0 18;
  min_wait_time = 12;
  mid_wait_time = 7200;
  max_wait_time = 21600;
  pool_period_wait_time = 600;
  pool_period_limit = units 240000 0 18;
  period = 86400;
}

abbrev pub time_lock_strategy_link : TimeLockStrategyParams
time_lock_strategy_link = record {
  name = "timeLockStrategyLINK";
  min_threshold = units 10000 0 18;
  mid_threshold = units 20000 0 18;
  min_wait_time = 12;
  mid_wait_time = 7200;
  max_wait_time = 21600;
  pool_period_wait_time = 600;
  pool_period_limit = units 30000 0 18;
  period = 86400;
}

abbrev pub time_lock_strategy_aave : TimeLockStrategyParams
time_lock_strategy_aave = record {
  name = "timeLockStrategyAAVE";
  min_threshold = units 1000 0 18;
  mid_threshold = units 2000 0 18;
  min_wait_time = 12;
  mid_wait_time = 7200;
  max_wait_time = 21600;
  pool_period_wait_time = 600;
  pool_period_limit = units 3000 0 18;
  period = 86400;
}

abbrev pub time_lock_strategy_uni : TimeLockStrategyParams
time_lock_strategy_uni = record {
  name = "timeLockStrategyUNI";
  min_threshold = units 10000 0 18;
  mid_threshold = units 20000 0 18;
  min_wait_time = 12;
  mid_wait_time = 7200;
  max_wait_time = 21600;
  pool_period_wait_time = 600;
  pool_period_limit = units 30000 0 18;
  period = 86400;
}

abbrev pub time_lock_strategy_crv : TimeLockStrategyParams
time_lock_strategy_crv = record {
  name = "timeLockStrategyCRV";
  min_threshold = units 80000 0 18;
  mid_threshold = units 120000 0 18;
  min_wait_time = 12;
  mid_wait_time = 7200;
  max_wait_time = 21600;
  pool_period_wait_time = 600;
  pool_period_limit = units 240000 0 18;
  period = 86400;
}
