-- ===== src/Market/Rates/Chains.antt =====
-- The interest rate strategy of bitcoin and the other chains' own coins, in
-- market-config/rateStrategies.ts.
use paraspace_core.Market.{InterestRateStrategyParams, units}

abbrev pub rate_strategy_wbtc : InterestRateStrategyParams
rate_strategy_wbtc = record {
  name = "rateStrategyWBTC";
  optimal_usage_ratio = units 85 2 27;
  base_variable_borrow_rate = units 18 2 27;
  variable_rate_slope1 = units 8 2 27;
  variable_rate_slope2 = units 6 1 27;
}

abbrev pub rate_strategy_xcdot : InterestRateStrategyParams
rate_strategy_xcdot = record {
  name = "rateStrategyXCDOT";
  optimal_usage_ratio = units 80 2 27;
  base_variable_borrow_rate = units 2 2 27;
  variable_rate_slope1 = units 25 2 27;
  variable_rate_slope2 = units 2 1 27;
}

abbrev pub rate_strategy_stdot : InterestRateStrategyParams
rate_strategy_stdot = record {
  name = "rateStrategySTDOT";
  optimal_usage_ratio = units 80 2 27;
  base_variable_borrow_rate = units 2 2 27;
  variable_rate_slope1 = units 25 2 27;
  variable_rate_slope2 = units 2 1 27;
}

abbrev pub rate_strategy_wbtcwh : InterestRateStrategyParams
rate_strategy_wbtcwh = record {
  name = "rateStrategyWBTCWH";
  optimal_usage_ratio = units 85 2 27;
  base_variable_borrow_rate = units 18 2 27;
  variable_rate_slope1 = units 8 2 27;
  variable_rate_slope2 = units 6 1 27;
}

abbrev pub rate_strategy_wglmr : InterestRateStrategyParams
rate_strategy_wglmr = record {
  name = "rateStrategyWGLMR";
  optimal_usage_ratio = units 80 2 27;
  base_variable_borrow_rate = units 0 0 27;
  variable_rate_slope1 = units 25 2 27;
  variable_rate_slope2 = units 25 2 27;
}

abbrev pub rate_strategy_arb : InterestRateStrategyParams
rate_strategy_arb = record {
  name = "rateStrategyARB";
  optimal_usage_ratio = units 8 1 27;
  base_variable_borrow_rate = units 0 0 27;
  variable_rate_slope1 = units 4 2 27;
  variable_rate_slope2 = units 75 2 27;
}

abbrev pub rate_strategy_matic : InterestRateStrategyParams
rate_strategy_matic = record {
  name = "rateStrategyMATIC";
  optimal_usage_ratio = units 9 1 27;
  base_variable_borrow_rate = units 0 0 27;
  variable_rate_slope1 = units 4 2 27;
  variable_rate_slope2 = units 60 2 27;
}

abbrev pub rate_strategy_stmatic : InterestRateStrategyParams
rate_strategy_stmatic = record {
  name = "rateStrategySTMATIC";
  optimal_usage_ratio = units 9 1 27;
  base_variable_borrow_rate = units 0 0 27;
  variable_rate_slope1 = units 4 2 27;
  variable_rate_slope2 = units 60 2 27;
}

abbrev pub rate_strategy_wmatic : InterestRateStrategyParams
rate_strategy_wmatic = record {
  name = "rateStrategyWMATIC";
  optimal_usage_ratio = units 7 1 27;
  base_variable_borrow_rate = units 25 3 27;
  variable_rate_slope1 = units 8 2 27;
  variable_rate_slope2 = units 9 1 27;
}
