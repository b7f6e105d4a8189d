-- ===== src/Market/Rates/Ethers.antt =====
-- The interest rate strategy of ether and what wraps or stakes it, in
-- market-config/rateStrategies.ts.
use paraspace_core.Market.{InterestRateStrategyParams, units}

abbrev pub rate_strategy_weth : InterestRateStrategyParams
rate_strategy_weth = record {
  name = "rateStrategyWETH";
  optimal_usage_ratio = units 7 1 27;
  base_variable_borrow_rate = units 25 3 27;
  variable_rate_slope1 = units 8 2 27;
  variable_rate_slope2 = units 9 1 27;
}

abbrev pub rate_strategy_wethwh : InterestRateStrategyParams
rate_strategy_wethwh = record {
  name = "rateStrategyWETHWH";
  optimal_usage_ratio = units 7 1 27;
  base_variable_borrow_rate = units 25 3 27;
  variable_rate_slope1 = units 8 2 27;
  variable_rate_slope2 = units 9 1 27;
}

abbrev pub rate_strategy_steth : InterestRateStrategyParams
rate_strategy_steth = record {
  name = "rateStrategySTETH";
  optimal_usage_ratio = units 88 2 27;
  base_variable_borrow_rate = units 2 1 27;
  variable_rate_slope1 = units 8 2 27;
  variable_rate_slope2 = units 60 2 27;
}

abbrev pub rate_strategy_xeth : InterestRateStrategyParams
rate_strategy_xeth = record {
  name = "rateStrategyXETH";
  optimal_usage_ratio = units 65 2 27;
  base_variable_borrow_rate = units 25 3 27;
  variable_rate_slope1 = units 7 2 27;
  variable_rate_slope2 = units 1 0 27;
}
