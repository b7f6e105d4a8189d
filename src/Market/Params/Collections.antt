-- ===== src/Market/Params/Collections.antt =====
-- The parameters of the other collections, in
-- market-config/reservesConfigs.ts.
use paraspace_core.Prelude.{false, pos}
use paraspace_core.Market.{
  ReserveParams, n_token_impl, n_token_moon_birds_impl, n_token_stakefish_impl,
  n_token_uniswap_v3_impl,
}
use paraspace_core.Market.Rates.{rate_strategy_nft}
use paraspace_core.Market.Auctions.{
  auction_strategy_azuki, auction_strategy_beanz, auction_strategy_blocks, auction_strategy_clone_x,
  auction_strategy_degods, auction_strategy_doodles, auction_strategy_exrp,
  auction_strategy_moonbird, auction_strategy_pudgy_penguins, auction_strategy_stakefish_validator,
  auction_strategy_uniswap_v3,
}
use paraspace_core.Market.TimeLocks.{
  time_lock_strategy_azuki, time_lock_strategy_beanz, time_lock_strategy_blocks,
  time_lock_strategy_clone_x, time_lock_strategy_degods, time_lock_strategy_doodles,
  time_lock_strategy_exrp, time_lock_strategy_moonbird, time_lock_strategy_penguins,
  time_lock_strategy_stakefish_validator, time_lock_strategy_uniswap_v3,
}

abbrev pub strategy_doodles : ReserveParams
strategy_doodles = record {
  strategy = rate_strategy_nft;
  auction_strategy = auction_strategy_doodles;
  time_lock_strategy = time_lock_strategy_doodles;
  base_ltv_as_collateral = pos 3000;
  liquidation_protocol_fee_percentage = 0;
  liquidation_threshold = 6500;
  liquidation_bonus = 10500;
  borrowing_enabled = false;
  reserve_decimals = 0;
  x_token_impl = n_token_impl;
  reserve_factor = 0;
  borrow_cap = 0;
  supply_cap = 0;
}

abbrev pub strategy_clonex : ReserveParams
strategy_clonex = record {
  strategy = rate_strategy_nft;
  auction_strategy = auction_strategy_clone_x;
  time_lock_strategy = time_lock_strategy_clone_x;
  base_ltv_as_collateral = pos 3000;
  liquidation_protocol_fee_percentage = 0;
  liquidation_threshold = 6500;
  liquidation_bonus = 10500;
  borrowing_enabled = false;
  reserve_decimals = 0;
  x_token_impl = n_token_impl;
  reserve_factor = 0;
  borrow_cap = 0;
  supply_cap = 0;
}

abbrev pub strategy_moonbird : ReserveParams
strategy_moonbird = record {
  strategy = rate_strategy_nft;
  auction_strategy = auction_strategy_moonbird;
  time_lock_strategy = time_lock_strategy_moonbird;
  base_ltv_as_collateral = pos 3000;
  liquidation_protocol_fee_percentage = 0;
  liquidation_threshold = 6500;
  liquidation_bonus = 10500;
  borrowing_enabled = false;
  reserve_decimals = 0;
  x_token_impl = n_token_moon_birds_impl;
  reserve_factor = 0;
  borrow_cap = 0;
  supply_cap = 0;
}

abbrev pub strategy_azuki : ReserveParams
strategy_azuki = record {
  strategy = rate_strategy_nft;
  auction_strategy = auction_strategy_azuki;
  time_lock_strategy = time_lock_strategy_azuki;
  base_ltv_as_collateral = pos 3000;
  liquidation_protocol_fee_percentage = 0;
  liquidation_threshold = 6500;
  liquidation_bonus = 10500;
  borrowing_enabled = false;
  reserve_decimals = 0;
  x_token_impl = n_token_impl;
  reserve_factor = 0;
  borrow_cap = 0;
  supply_cap = 0;
}

abbrev pub strategy_uniswap_v3 : ReserveParams
strategy_uniswap_v3 = record {
  strategy = rate_strategy_nft;
  auction_strategy = auction_strategy_uniswap_v3;
  time_lock_strategy = time_lock_strategy_uniswap_v3;
  base_ltv_as_collateral = pos 3000;
  liquidation_protocol_fee_percentage = 0;
  liquidation_threshold = 7000;
  liquidation_bonus = 10500;
  borrowing_enabled = false;
  reserve_decimals = 0;
  x_token_impl = n_token_uniswap_v3_impl;
  reserve_factor = 0;
  borrow_cap = 0;
  supply_cap = 0;
}

abbrev pub strategy_pudgy_penguins : ReserveParams
strategy_pudgy_penguins = record {
  strategy = rate_strategy_nft;
  auction_strategy = auction_strategy_pudgy_penguins;
  time_lock_strategy = time_lock_strategy_penguins;
  base_ltv_as_collateral = pos 3000;
  liquidation_protocol_fee_percentage = 0;
  liquidation_threshold = 6500;
  liquidation_bonus = 10500;
  borrowing_enabled = false;
  reserve_decimals = 0;
  x_token_impl = n_token_impl;
  reserve_factor = 0;
  borrow_cap = 0;
  supply_cap = 0;
}

abbrev pub strategy_stakefish_validator : ReserveParams
strategy_stakefish_validator = record {
  strategy = rate_strategy_nft;
  auction_strategy = auction_strategy_stakefish_validator;
  time_lock_strategy = time_lock_strategy_stakefish_validator;
  base_ltv_as_collateral = pos 7425;
  liquidation_protocol_fee_percentage = 0;
  liquidation_threshold = 7740;
  liquidation_bonus = 10450;
  borrowing_enabled = false;
  reserve_decimals = 0;
  x_token_impl = n_token_stakefish_impl;
  reserve_factor = 0;
  borrow_cap = 0;
  supply_cap = 20;
}

abbrev pub strategy_beanz : ReserveParams
strategy_beanz = record {
  strategy = rate_strategy_nft;
  auction_strategy = auction_strategy_beanz;
  time_lock_strategy = time_lock_strategy_beanz;
  base_ltv_as_collateral = pos 3000;
  liquidation_protocol_fee_percentage = 0;
  liquidation_threshold = 6500;
  liquidation_bonus = 10500;
  borrowing_enabled = false;
  reserve_decimals = 0;
  x_token_impl = n_token_impl;
  reserve_factor = 0;
  borrow_cap = 0;
  supply_cap = 0;
}

abbrev pub strategy_degods : ReserveParams
strategy_degods = record {
  strategy = rate_strategy_nft;
  auction_strategy = auction_strategy_degods;
  time_lock_strategy = time_lock_strategy_degods;
  base_ltv_as_collateral = pos 3000;
  liquidation_protocol_fee_percentage = 0;
  liquidation_threshold = 6500;
  liquidation_bonus = 10500;
  borrowing_enabled = false;
  reserve_decimals = 0;
  x_token_impl = n_token_impl;
  reserve_factor = 0;
  borrow_cap = 0;
  supply_cap = 1000;
}

abbrev pub strategy_blocks : ReserveParams
strategy_blocks = record {
  strategy = rate_strategy_nft;
  auction_strategy = auction_strategy_blocks;
  time_lock_strategy = time_lock_strategy_blocks;
  base_ltv_as_collateral = pos 2000;
  liquidation_protocol_fee_percentage = 0;
  liquidation_threshold = 6500;
  liquidation_bonus = 10500;
  borrowing_enabled = false;
  reserve_decimals = 0;
  x_token_impl = n_token_impl;
  reserve_factor = 0;
  borrow_cap = 0;
  supply_cap = 0;
}

abbrev pub strategy_exrp : ReserveParams
strategy_exrp = record {
  strategy = rate_strategy_nft;
  auction_strategy = auction_strategy_exrp;
  time_lock_strategy = time_lock_strategy_exrp;
  base_ltv_as_collateral = pos 2000;
  liquidation_protocol_fee_percentage = 0;
  liquidation_threshold = 3500;
  liquidation_bonus = 10500;
  borrowing_enabled = false;
  reserve_decimals = 0;
  x_token_impl = n_token_impl;
  reserve_factor = 0;
  borrow_cap = 0;
  supply_cap = 1000;
}
