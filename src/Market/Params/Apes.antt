-- ===== src/Market/Params/Apes.antt =====
-- The parameters of APE and its wrappers, PUNK and BLUR, in
-- market-config/reservesConfigs.ts.
use paraspace_core.Prelude.{false, pos, true}
use paraspace_core.Market.{
  ReserveParams, p_token_c_ape_impl, p_token_impl, p_token_s_ape_impl, p_yield_token_impl,
}
use paraspace_core.Market.Rates.{rate_strategy_ape, rate_strategy_blur, rate_strategy_xeth}
use paraspace_core.Market.Auctions.{auction_strategy_zero}
use paraspace_core.Market.TimeLocks.{
  time_lock_strategy_ape, time_lock_strategy_blur, time_lock_strategy_cape, time_lock_strategy_punk,
  time_lock_strategy_sape, time_lock_strategy_yape,
}

abbrev pub strategy_ape : ReserveParams
strategy_ape = record {
  strategy = rate_strategy_ape;
  auction_strategy = auction_strategy_zero;
  time_lock_strategy = time_lock_strategy_ape;
  base_ltv_as_collateral = pos 5000;
  liquidation_protocol_fee_percentage = 0;
  liquidation_threshold = 7000;
  liquidation_bonus = 10500;
  borrowing_enabled = true;
  reserve_decimals = 18;
  x_token_impl = p_token_impl;
  reserve_factor = 1000;
  borrow_cap = 0;
  supply_cap = 18062500;
}

abbrev pub strategy_sape : ReserveParams
strategy_sape = record {
  strategy = rate_strategy_ape;
  auction_strategy = auction_strategy_zero;
  time_lock_strategy = time_lock_strategy_sape;
  base_ltv_as_collateral = pos 5000;
  liquidation_protocol_fee_percentage = 0;
  liquidation_threshold = 7000;
  liquidation_bonus = 10500;
  borrowing_enabled = false;
  reserve_decimals = 18;
  x_token_impl = p_token_s_ape_impl;
  reserve_factor = 2500;
  borrow_cap = 0;
  supply_cap = 0;
}

abbrev pub strategy_cape : ReserveParams
strategy_cape = record {
  strategy = rate_strategy_ape;
  auction_strategy = auction_strategy_zero;
  time_lock_strategy = time_lock_strategy_cape;
  base_ltv_as_collateral = pos 5000;
  liquidation_protocol_fee_percentage = 0;
  liquidation_threshold = 7000;
  liquidation_bonus = 10500;
  borrowing_enabled = true;
  reserve_decimals = 18;
  x_token_impl = p_token_c_ape_impl;
  reserve_factor = 1000;
  borrow_cap = 0;
  supply_cap = 18062500;
}

abbrev pub strategy_yape : ReserveParams
strategy_yape = record {
  strategy = rate_strategy_ape;
  auction_strategy = auction_strategy_zero;
  time_lock_strategy = time_lock_strategy_yape;
  base_ltv_as_collateral = pos 2000;
  liquidation_protocol_fee_percentage = 0;
  liquidation_threshold = 7000;
  liquidation_bonus = 10500;
  borrowing_enabled = false;
  reserve_decimals = 18;
  x_token_impl = p_yield_token_impl;
  reserve_factor = 1000;
  borrow_cap = 0;
  supply_cap = 18062500;
}

abbrev pub strategy_punk : ReserveParams
strategy_punk = record {
  strategy = rate_strategy_xeth;
  auction_strategy = auction_strategy_zero;
  time_lock_strategy = time_lock_strategy_punk;
  base_ltv_as_collateral = pos 6900;
  liquidation_protocol_fee_percentage = 0;
  liquidation_threshold = 8100;
  liquidation_bonus = 10750;
  borrowing_enabled = true;
  reserve_decimals = 18;
  x_token_impl = p_token_impl;
  reserve_factor = 1000;
  borrow_cap = 0;
  supply_cap = 0;
}

abbrev pub strategy_blur : ReserveParams
strategy_blur = record {
  strategy = rate_strategy_blur;
  auction_strategy = auction_strategy_zero;
  time_lock_strategy = time_lock_strategy_blur;
  base_ltv_as_collateral = pos 2000;
  liquidation_protocol_fee_percentage = 0;
  liquidation_threshold = 3000;
  liquidation_bonus = 11000;
  borrowing_enabled = true;
  reserve_decimals = 18;
  x_token_impl = p_token_impl;
  reserve_factor = 1000;
  borrow_cap = 5000000;
  supply_cap = 5000000;
}
