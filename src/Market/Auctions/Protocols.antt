-- ===== src/Market/Auctions/Protocols.antt =====
-- The auction strategy of the coins of protocols and of fractions, and what stands for no asset, in
-- market-config/auctionStrategies.ts.
use paraspace_core.Market.{AuctionStrategyParams, units}

abbrev pub auction_strategy_exponential : AuctionStrategyParams
auction_strategy_exponential = record {
  name = "auctionStrategyExp";
  max_price_multiplier = units 3 0 18;
  min_exp_price_multiplier = units 12 1 18;
  min_price_multiplier = units 5 1 18;
  step_linear = units 57 3 18;
  step_exp = units 8 2 18;
  tick_length = 900;
}

abbrev pub auction_strategy_linear : AuctionStrategyParams
auction_strategy_linear = record {
  name = "auctionStrategyLinear";
  max_price_multiplier = units 3 0 18;
  min_exp_price_multiplier = units 1 0 18;
  min_price_multiplier = units 5 1 18;
  step_linear = units 5 2 18;
  step_exp = units 1 1 18;
  tick_length = 60;
}

abbrev pub auction_strategy_zero : AuctionStrategyParams
auction_strategy_zero = record {
  name = "auctionStrategyZero";
  max_price_multiplier = units 3 0 18;
  min_exp_price_multiplier = units 1 0 18;
  min_price_multiplier = units 5 1 18;
  step_linear = units 5 2 18;
  step_exp = units 1 1 18;
  tick_length = 60;
}
