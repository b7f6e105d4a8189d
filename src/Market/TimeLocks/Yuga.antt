-- ===== src/Market/TimeLocks/Yuga.antt =====
-- The time lock strategy of the collections of Yuga Labs and VeeFriends, in
-- market-config/timeLockStrategies.ts.
use paraspace_core.Market.{TimeLockStrategyParams}

abbrev pub time_lock_strategy_bayc : TimeLockStrategyParams
time_lock_strategy_bayc = record {
  name = "timeLockStrategyBAYC";
  min_threshold = 2;
  mid_threshold = 4;
  min_wait_time = 12;
  mid_wait_time = 7200;
  max_wait_time = 21600;
  pool_period_wait_time = 600;
  pool_period_limit = 100;
  period = 86400;
}

abbrev pub time_lock_strategy_mayc : TimeLockStrategyParams
time_lock_strategy_mayc = record {
  name = "timeLockStrategyMAYC";
  min_threshold = 2;
  mid_threshold = 6;
  min_wait_time = 12;
  mid_wait_time = 7200;
  max_wait_time = 21600;
  pool_period_wait_time = 600;
  pool_period_limit = 200;
  period = 86400;
}

abbrev pub time_lock_strategy_bakc : TimeLockStrategyParams
time_lock_strategy_bakc = record {
  name = "timeLockStrategyBAKC";
  min_threshold = 4;
  mid_threshold = 12;
  min_wait_time = 12;
  mid_wait_time = 7200;
  max_wait_time = 21600;
  pool_period_wait_time = 600;
  pool_period_limit = 57;
  period = 86400;
}

abbrev pub time_lock_strategy_othr : TimeLockStrategyParams
time_lock_strategy_othr = record {
  name = "timeLockStrategyOTHR";
  min_threshold = 10;
  mid_threshold = 30;
  min_wait_time = 12;
  mid_wait_time = 7200;
  max_wait_time = 21600;
  pool_period_wait_time = 600;
  pool_period_limit = 230;
  period = 86400;
}

abbrev pub time_lock_strategy_meebits : TimeLockStrategyParams
time_lock_strategy_meebits = record {
  name = "timeLockStrategyMeebits";
  min_threshold = 5;
  mid_threshold = 20;
  min_wait_time = 12;
  mid_wait_time = 7200;
  max_wait_time = 21600;
  pool_period_wait_time = 600;
  pool_period_limit = 13;
  period = 86400;
}

abbrev pub time_lock_strategy_wpunks : TimeLockStrategyParams
time_lock_strategy_wpunks = record {
  name = "timeLockStrategyWPunks";
  min_threshold = 2;
  mid_threshold = 4;
  min_wait_time = 12;
  mid_wait_time = 7200;
  max_wait_time = 21600;
  pool_period_wait_time = 600;
  pool_period_limit = 2;
  period = 86400;
}

abbrev pub time_lock_strategy_sewer : TimeLockStrategyParams
time_lock_strategy_sewer = record {
  name = "timeLockStrategySEWER";
  min_threshold = 5;
  mid_threshold = 20;
  min_wait_time = 12;
  mid_wait_time = 7200;
  max_wait_time = 21600;
  pool_period_wait_time = 600;
  pool_period_limit = 2;
  period = 86400;
}

abbrev pub time_lock_strategy_hvmtl : TimeLockStrategyParams
time_lock_strategy_hvmtl = record {
  name = "timeLockStrategyHVMTL";
  min_threshold = 10;
  mid_threshold = 30;
  min_wait_time = 12;
  mid_wait_time = 7200;
  max_wait_time = 21600;
  pool_period_wait_time = 600;
  pool_period_limit = 100;
  period = 86400;
}

abbrev pub time_lock_strategy_exp : TimeLockStrategyParams
time_lock_strategy_exp = record {
  name = "timeLockStrategyEXP";
  min_threshold = 10;
  mid_threshold = 30;
  min_wait_time = 12;
  mid_wait_time = 7200;
  max_wait_time = 21600;
  pool_period_wait_time = 600;
  pool_period_limit = 100;
  period = 86400;
}

abbrev pub time_lock_strategy_vsl : TimeLockStrategyParams
time_lock_strategy_vsl = record {
  name = "timeLockStrategyVSL";
  min_threshold = 20;
  mid_threshold = 50;
  min_wait_time = 12;
  mid_wait_time = 7200;
  max_wait_time = 21600;
  pool_period_wait_time = 600;
  pool_period_limit = 100;
  period = 86400;
}

abbrev pub time_lock_strategy_koda : TimeLockStrategyParams
time_lock_strategy_koda = record {
  name = "timeLockStrategyKODA";
  min_threshold = 4;
  mid_threshold = 12;
  min_wait_time = 12;
  mid_wait_time = 7200;
  max_wait_time = 21600;
  pool_period_wait_time = 600;
  pool_period_limit = 10;
  period = 86400;
}
