-- ===== src/Market/Rates/Protocols.antt =====
-- The interest rate strategy of the coins of protocols and of fractions, and what stands for no asset, in
-- market-config/rateStrategies.ts.
use paraspace_core.Market.{InterestRateStrategyParams, units}

abbrev pub rate_strategy_gmx : InterestRateStrategyParams
rate_strategy_gmx = record {
  name = "rateStrategyGMX";
  optimal_usage_ratio = units 8 1 27;
  base_variable_borrow_rate = units 0 0 27;
  variable_rate_slope1 = units 4 2 27;
  variable_rate_slope2 = units 75 2 27;
}

abbrev pub rate_strategy_bal : InterestRateStrategyParams
rate_strategy_bal = record {
  name = "rateStrategyBAL";
  optimal_usage_ratio = units 8 1 27;
  base_variable_borrow_rate = units 0 0 27;
  variable_rate_slope1 = units 4 2 27;
  variable_rate_slope2 = units 75 2 27;
}

abbrev pub rate_strategy_link : InterestRateStrategyParams
rate_strategy_link = record {
  name = "rateStrategyLINK";
  optimal_usage_ratio = units 8 1 27;
  base_variable_borrow_rate = units 0 0 27;
  variable_rate_slope1 = units 4 2 27;
  variable_rate_slope2 = units 75 2 27;
}

abbrev pub rate_strategy_aave : InterestRateStrategyParams
rate_strategy_aave = record {
  name = "rateStrategyAAVE";
  optimal_usage_ratio = units 8 1 27;
  base_variable_borrow_rate = units 0 0 27;
  variable_rate_slope1 = units 4 2 27;
  variable_rate_slope2 = units 75 2 27;
}

abbrev pub rate_strategy_uni : InterestRateStrategyParams
rate_strategy_uni = record {
  name = "rateStrategyUNI";
  optimal_usage_ratio = units 8 1 27;
  base_variable_borrow_rate = units 0 0 27;
  variable_rate_slope1 = units 4 2 27;
  variable_rate_slope2 = units 75 2 27;
}

abbrev pub rate_strategy_rdnt : InterestRateStrategyParams
rate_strategy_rdnt = record {
  name = "rateStrategyRDNT";
  optimal_usage_ratio = units 9 1 27;
  base_variable_borrow_rate = units 0 0 27;
  variable_rate_slope1 = units 4 2 27;
  variable_rate_slope2 = units 60 2 27;
}

abbrev pub rate_strategy_crv : InterestRateStrategyParams
rate_strategy_crv = record {
  name = "rateStrategyCRV";
  optimal_usage_ratio = units 9 1 27;
  base_variable_borrow_rate = units 0 0 27;
  variable_rate_slope1 = units 4 2 27;
  variable_rate_slope2 = units 60 2 27;
}

abbrev pub rate_strategy_nft : InterestRateStrategyParams
rate_strategy_nft = record {
  name = "rateStrategyNFT";
  optimal_usage_ratio = units 45 2 27;
  base_variable_borrow_rate = units 0 0 27;
  variable_rate_slope1 = units 7 2 27;
  variable_rate_slope2 = units 3 0 27;
}
