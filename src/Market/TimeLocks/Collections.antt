-- ===== src/Market/TimeLocks/Collections.antt =====
-- The time lock strategy of the other collections, in
-- market-config/timeLockStrategies.ts.
use paraspace_core.Market.{TimeLockStrategyParams}

abbrev pub time_lock_strategy_doodles : TimeLockStrategyParams
time_lock_strategy_doodles = record {
  name = "timeLockStrategyDoodles";
  min_threshold = 5;
  mid_threshold = 20;
  min_wait_time = 12;
  mid_wait_time = 7200;
  max_wait_time = 21600;
  pool_period_wait_time = 600;
  pool_period_limit = 2;
  period = 86400;
}

abbrev pub time_lock_strategy_clone_x : TimeLockStrategyParams
time_lock_strategy_clone_x = record {
  name = "timeLockStrategyCloneX";
  min_threshold = 5;
  mid_threshold = 20;
  min_wait_time = 12;
  mid_wait_time = 7200;
  max_wait_time = 21600;
  pool_period_wait_time = 600;
  pool_period_limit = 8;
  period = 86400;
}

abbrev pub time_lock_strategy_moonbird : TimeLockStrategyParams
time_lock_strategy_moonbird = record {
  name = "timeLockStrategyMoonbird";
  min_threshold = 5;
  mid_threshold = 20;
  min_wait_time = 12;
  mid_wait_time = 7200;
  max_wait_time = 21600;
  pool_period_wait_time = 600;
  pool_period_limit = 3;
  period = 86400;
}

abbrev pub time_lock_strategy_azuki : TimeLockStrategyParams
time_lock_strategy_azuki = record {
  name = "timeLockStrategyAzuki";
  min_threshold = 2;
  mid_threshold = 6;
  min_wait_time = 12;
  mid_wait_time = 7200;
  max_wait_time = 21600;
  pool_period_wait_time = 600;
  pool_period_limit = 9;
  period = 86400;
}

abbrev pub time_lock_strategy_uniswap_v3 : TimeLockStrategyParams
time_lock_strategy_uniswap_v3 = record {
  name = "timeLockStrategyUniswapV3";
  min_threshold = 5;
  mid_threshold = 10;
  min_wait_time = 12;
  mid_wait_time = 7200;
  max_wait_time = 21600;
  pool_period_wait_time = 600;
  pool_period_limit = 50;
  period = 86400;
}

abbrev pub time_lock_strategy_penguins : TimeLockStrategyParams
time_lock_strategy_penguins = record {
  name = "timeLockStrategyPenguins";
  min_threshold = 4;
  mid_threshold = 12;
  min_wait_time = 12;
  mid_wait_time = 7200;
  max_wait_time = 21600;
  pool_period_wait_time = 600;
  pool_period_limit = 2;
  period = 86400;
}

abbrev pub time_lock_strategy_stakefish_validator : TimeLockStrategyParams
time_lock_strategy_stakefish_validator = record {
  name = "timeLockStrategyStakefishValidator";
  min_threshold = 4;
  mid_threshold = 12;
  min_wait_time = 12;
  mid_wait_time = 7200;
  max_wait_time = 21600;
  pool_period_wait_time = 600;
  pool_period_limit = 2;
  period = 86400;
}

abbrev pub time_lock_strategy_beanz : TimeLockStrategyParams
time_lock_strategy_beanz = record {
  name = "timeLockStrategyBEANZ";
  min_threshold = 5;
  mid_threshold = 20;
  min_wait_time = 12;
  mid_wait_time = 7200;
  max_wait_time = 21600;
  pool_period_wait_time = 600;
  pool_period_limit = 40;
  period = 86400;
}

abbrev pub time_lock_strategy_degods : TimeLockStrategyParams
time_lock_strategy_degods = record {
  name = "timeLockStrategyDEGODS";
  min_threshold = 4;
  mid_threshold = 12;
  min_wait_time = 12;
  mid_wait_time = 7200;
  max_wait_time = 21600;
  pool_period_wait_time = 600;
  pool_period_limit = 10;
  period = 86400;
}

abbrev pub time_lock_strategy_blocks : TimeLockStrategyParams
time_lock_strategy_blocks = record {
  name = "timeLockStrategyBLOCKS";
  min_threshold = 4;
  mid_threshold = 12;
  min_wait_time = 12;
  mid_wait_time = 7200;
  max_wait_time = 21600;
  pool_period_wait_time = 600;
  pool_period_limit = 10;
  period = 86400;
}

abbrev pub time_lock_strategy_exrp : TimeLockStrategyParams
time_lock_strategy_exrp = record {
  name = "timeLockStrategyEXRP";
  min_threshold = 20;
  mid_threshold = 50;
  min_wait_time = 12;
  mid_wait_time = 7200;
  max_wait_time = 21600;
  pool_period_wait_time = 600;
  pool_period_limit = 100;
  period = 86400;
}
