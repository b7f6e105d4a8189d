-- ===== src/Market/Rates/Stables.antt =====
-- The interest rate strategy of the stable coins, in
-- market-config/rateStrategies.ts.
use paraspace_core.Market.{InterestRateStrategyParams, units}

abbrev pub rate_strategy_dai : InterestRateStrategyParams
rate_strategy_dai = record {
  name = "rateStrategyDAI";
  optimal_usage_ratio = units 8 1 27;
  base_variable_borrow_rate = units 0 0 27;
  variable_rate_slope1 = units 4 2 27;
  variable_rate_slope2 = units 75 2 27;
}

abbrev pub rate_strategy_usdc : InterestRateStrategyParams
rate_strategy_usdc = record {
  name = "rateStrategyUSDC";
  optimal_usage_ratio = units 9 1 27;
  base_variable_borrow_rate = units 0 0 27;
  variable_rate_slope1 = units 4 2 27;
  variable_rate_slope2 = units 60 2 27;
}

abbrev pub rate_strategy_a_usdc : InterestRateStrategyParams
rate_strategy_a_usdc = record {
  name = "rateStrategyaUSDC";
  optimal_usage_ratio = units 9 1 27;
  base_variable_borrow_rate = units 0 0 27;
  variable_rate_slope1 = units 4 2 27;
  variable_rate_slope2 = units 60 2 27;
}

abbrev pub rate_strategy_usdt : InterestRateStrategyParams
rate_strategy_usdt = record {
  name = "rateStrategyUSDT";
  optimal_usage_ratio = units 9 1 27;
  base_variable_borrow_rate = units 0 0 27;
  variable_rate_slope1 = units 4 2 27;
  variable_rate_slope2 = units 75 2 27;
}

abbrev pub rate_strategy_frax : InterestRateStrategyParams
rate_strategy_frax = record {
  name = "rateStrategyFRAX";
  optimal_usage_ratio = units 85 2 27;
  base_variable_borrow_rate = units 18 2 27;
  variable_rate_slope1 = units 8 2 27;
  variable_rate_slope2 = units 6 1 27;
}

abbrev pub rate_strategy_xcusdt : InterestRateStrategyParams
rate_strategy_xcusdt = record {
  name = "rateStrategyXCUSDT";
  optimal_usage_ratio = units 80 2 27;
  base_variable_borrow_rate = units 2 2 27;
  variable_rate_slope1 = units 25 2 27;
  variable_rate_slope2 = units 2 1 27;
}

abbrev pub rate_strategy_usdcwh : InterestRateStrategyParams
rate_strategy_usdcwh = record {
  name = "rateStrategyUSDCWH";
  optimal_usage_ratio = units 9 1 27;
  base_variable_borrow_rate = units 0 0 27;
  variable_rate_slope1 = units 4 2 27;
  variable_rate_slope2 = units 60 2 27;
}
