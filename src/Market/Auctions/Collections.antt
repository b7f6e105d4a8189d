-- ===== src/Market/Auctions/Collections.antt =====
-- The auction strategy of the other collections, in
-- market-config/auctionStrategies.ts.
use paraspace_core.Market.{AuctionStrategyParams, units}

abbrev pub auction_strategy_doodles : AuctionStrategyParams
auction_strategy_doodles = record {
  name = "auctionStrategyDoodles";
  max_price_multiplier = units 35 1 18;
  min_exp_price_multiplier = units 12 1 18;
  min_price_multiplier = units 7 1 18;
  step_linear = units 2106053073 11 18;
  step_exp = units 4508812849 11 18;
  tick_length = 900;
}

abbrev pub auction_strategy_clone_x : AuctionStrategyParams
auction_strategy_clone_x = record {
  name = "auctionStrategyCloneX";
  max_price_multiplier = units 3 0 18;
  min_exp_price_multiplier = units 15 1 18;
  min_price_multiplier = units 8 1 18;
  step_linear = units 2584044038 11 18;
  step_exp = units 2558746914 11 18;
  tick_length = 900;
}

abbrev pub auction_strategy_moonbird : AuctionStrategyParams
auction_strategy_moonbird = record {
  name = "auctionStrategyMoonbird";
  max_price_multiplier = units 2 0 18;
  min_exp_price_multiplier = units 11 1 18;
  min_price_multiplier = units 8 1 18;
  step_linear = units 1136311018 11 18;
  step_exp = units 2264429236 11 18;
  tick_length = 900;
}

abbrev pub auction_strategy_azuki : AuctionStrategyParams
auction_strategy_azuki = record {
  name = "auctionStrategyAzuki";
  max_price_multiplier = units 3 0 18;
  min_exp_price_multiplier = units 12 1 18;
  min_price_multiplier = units 7 1 18;
  step_linear = units 2957356117 11 18;
  step_exp = units 5419596001 11 18;
  tick_length = 900;
}

abbrev pub auction_strategy_uniswap_v3 : AuctionStrategyParams
auction_strategy_uniswap_v3 = record {
  name = "auctionStrategyUniswapV3";
  max_price_multiplier = units 12 1 18;
  min_exp_price_multiplier = units 1 0 18;
  min_price_multiplier = units 8 1 18;
  step_linear = units 3102276665 12 18;
  step_exp = units 2022592736 10 18;
  tick_length = 900;
}

abbrev pub auction_strategy_pudgy_penguins : AuctionStrategyParams
auction_strategy_pudgy_penguins = record {
  name = "auctionStrategyPudgyPenguins";
  max_price_multiplier = units 26 1 18;
  min_exp_price_multiplier = units 12 1 18;
  min_price_multiplier = units 8 1 18;
  step_linear = units 25 3 18;
  step_exp = units 483 4 18;
  tick_length = 900;
}

abbrev pub auction_strategy_stakefish_validator : AuctionStrategyParams
auction_strategy_stakefish_validator = record {
  name = "auctionStrategyStakefishValidator";
  max_price_multiplier = units 1 0 18;
  min_exp_price_multiplier = units 1 0 18;
  min_price_multiplier = units 95 2 18;
  step_linear = units 364583 11 18;
  step_exp = units 483 4 18;
  tick_length = 900;
}

abbrev pub auction_strategy_beanz : AuctionStrategyParams
auction_strategy_beanz = record {
  name = "auctionStrategyBEANZ";
  max_price_multiplier = units 26 1 18;
  min_exp_price_multiplier = units 11 1 18;
  min_price_multiplier = units 7 1 18;
  step_linear = units 25 3 18;
  step_exp = units 537625790764445 16 18;
  tick_length = 900;
}

abbrev pub auction_strategy_degods : AuctionStrategyParams
auction_strategy_degods = record {
  name = "auctionStrategyDEGODS";
  max_price_multiplier = units 3 0 18;
  min_exp_price_multiplier = units 12 1 18;
  min_price_multiplier = units 8 1 18;
  step_linear = units 6875 5 18;
  step_exp = units 285474001559822 16 18;
  tick_length = 900;
}

abbrev pub auction_strategy_blocks : AuctionStrategyParams
auction_strategy_blocks = record {
  name = "auctionStrategyBLOCKS";
  max_price_multiplier = units 10 0 18;
  min_exp_price_multiplier = units 11 1 18;
  min_price_multiplier = units 8 1 18;
  step_linear = units 625 5 18;
  step_exp = units 459848940247859 16 18;
  tick_length = 900;
}

abbrev pub auction_strategy_exrp : AuctionStrategyParams
auction_strategy_exrp = record {
  name = "auctionStrategyEXRP";
  max_price_multiplier = units 3 0 18;
  min_exp_price_multiplier = units 12 1 18;
  min_price_multiplier = units 8 1 18;
  step_linear = units 6875 5 18;
  step_exp = units 285474001559822 16 18;
  tick_length = 900;
}
