-- ===== src/Market/Rates/Apes.antt =====
-- The interest rate strategy of APE and its wrappers, PUNK and BLUR, in
-- market-config/rateStrategies.ts.
use paraspace_core.Market.{InterestRateStrategyParams, units}

abbrev pub rate_strategy_ape : InterestRateStrategyParams
rate_strategy_ape = record {
  name = "rateStrategyAPE";
  optimal_usage_ratio = units 90 2 27;
  base_variable_borrow_rate = units 70 2 27;
  variable_rate_slope1 = units 45 2 27;
  variable_rate_slope2 = units 55 2 27;
}

abbrev pub rate_strategy_c_ape : InterestRateStrategyParams
rate_strategy_c_ape = record {
  name = "rateStrategycAPE";
  optimal_usage_ratio = units 85 2 27;
  base_variable_borrow_rate = units 5 2 27;
  variable_rate_slope1 = units 1 1 27;
  variable_rate_slope2 = units 23 2 27;
}

abbrev pub rate_strategy_blur : InterestRateStrategyParams
rate_strategy_blur = record {
  name = "rateStrategyBLUR";
  optimal_usage_ratio = units 9 1 27;
  base_variable_borrow_rate = units 0 0 27;
  variable_rate_slope1 = units 4 2 27;
  variable_rate_slope2 = units 60 2 27;
}
