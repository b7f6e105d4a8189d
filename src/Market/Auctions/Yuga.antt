-- ===== src/Market/Auctions/Yuga.antt =====
-- The auction strategy of the collections of Yuga Labs and VeeFriends, in
-- market-config/auctionStrategies.ts.
use paraspace_core.Market.{AuctionStrategyParams, units}

abbrev pub auction_strategy_bayc : AuctionStrategyParams
auction_strategy_bayc = record {
  name = "auctionStrategyBAYC";
  max_price_multiplier = units 25 1 18;
  min_exp_price_multiplier = units 12 1 18;
  min_price_multiplier = units 8 1 18;
  step_linear = units 1102276665 11 18;
  step_exp = units 2022592736 11 18;
  tick_length = 900;
}

abbrev pub auction_strategy_wpunks : AuctionStrategyParams
auction_strategy_wpunks = record {
  name = "auctionStrategyWPunks";
  max_price_multiplier = units 5 0 18;
  min_exp_price_multiplier = units 12 1 18;
  min_price_multiplier = units 8 1 18;
  step_linear = units 1149268155 11 18;
  step_exp = units 4100348452 11 18;
  tick_length = 900;
}

abbrev pub auction_strategy_mayc : AuctionStrategyParams
auction_strategy_mayc = record {
  name = "auctionStrategyMAYC";
  max_price_multiplier = units 2 0 18;
  min_exp_price_multiplier = units 12 1 18;
  min_price_multiplier = units 8 1 18;
  step_linear = units 1830333903 11 18;
  step_exp = units 2337453645 11 18;
  tick_length = 900;
}

abbrev pub auction_strategy_othr : AuctionStrategyParams
auction_strategy_othr = record {
  name = "auctionStrategyOthr";
  max_price_multiplier = units 3 0 18;
  min_exp_price_multiplier = units 19 1 18;
  min_price_multiplier = units 8 1 18;
  step_linear = units 6875 5 18;
  step_exp = units 285474001559822 16 18;
  tick_length = 900;
}

abbrev pub auction_strategy_meebits : AuctionStrategyParams
auction_strategy_meebits = record {
  name = "auctionStrategyMeebits";
  max_price_multiplier = units 5 0 18;
  min_exp_price_multiplier = units 12 1 18;
  min_price_multiplier = units 8 1 18;
  step_linear = units 114491225 10 18;
  step_exp = units 4084807493 11 18;
  tick_length = 900;
}

abbrev pub auction_strategy_bakc : AuctionStrategyParams
auction_strategy_bakc = record {
  name = "auctionStrategyBAKC";
  max_price_multiplier = units 2 0 18;
  min_exp_price_multiplier = units 12 1 18;
  min_price_multiplier = units 8 1 18;
  step_linear = units 1102276665 11 18;
  step_exp = units 2022592736 11 18;
  tick_length = 900;
}

abbrev pub auction_strategy_sewer : AuctionStrategyParams
auction_strategy_sewer = record {
  name = "auctionStrategySEWER";
  max_price_multiplier = units 25 1 18;
  min_exp_price_multiplier = units 12 1 18;
  min_price_multiplier = units 8 1 18;
  step_linear = units 1102276665 11 18;
  step_exp = units 2022592736 11 18;
  tick_length = 900;
}

abbrev pub auction_strategy_hvmtl : AuctionStrategyParams
auction_strategy_hvmtl = record {
  name = "auctionStrategyHVMTL";
  max_price_multiplier = units 3 0 18;
  min_exp_price_multiplier = units 12 1 18;
  min_price_multiplier = units 8 1 18;
  step_linear = units 6875 5 18;
  step_exp = units 285474001559822 16 18;
  tick_length = 900;
}

abbrev pub auction_strategy_exp : AuctionStrategyParams
auction_strategy_exp = record {
  name = "auctionStrategyEXP";
  max_price_multiplier = units 3 0 18;
  min_exp_price_multiplier = units 12 1 18;
  min_price_multiplier = units 8 1 18;
  step_linear = units 6875 5 18;
  step_exp = units 285474001559822 16 18;
  tick_length = 900;
}

abbrev pub auction_strategy_vsl : AuctionStrategyParams
auction_strategy_vsl = record {
  name = "auctionStrategyVSL";
  max_price_multiplier = units 3 0 18;
  min_exp_price_multiplier = units 12 1 18;
  min_price_multiplier = units 8 1 18;
  step_linear = units 6875 5 18;
  step_exp = units 285474001559822 16 18;
  tick_length = 900;
}

abbrev pub auction_strategy_koda : AuctionStrategyParams
auction_strategy_koda = record {
  name = "auctionStrategyKODA";
  max_price_multiplier = units 3 0 18;
  min_exp_price_multiplier = units 12 1 18;
  min_price_multiplier = units 8 1 18;
  step_linear = units 6875 5 18;
  step_exp = units 285474001559822 16 18;
  tick_length = 900;
}
