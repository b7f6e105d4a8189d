-- ===== src/Market/Params/Chains.antt =====
-- The parameters of bitcoin and the other chains' own coins, in
-- market-config/reservesConfigs.ts.
use paraspace_core.Prelude.{pos, true}
use paraspace_core.Market.{ReserveParams, p_token_impl, p_token_st_ksm_impl}
use paraspace_core.Market.Rates.{
  rate_strategy_arb, rate_strategy_stdot, rate_strategy_stmatic, rate_strategy_wbtc,
  rate_strategy_wbtcwh, rate_strategy_wglmr, rate_strategy_wmatic, rate_strategy_xcdot,
}
use paraspace_core.Market.Auctions.{auction_strategy_zero}
use paraspace_core.Market.TimeLocks.{
  time_lock_strategy_arb, time_lock_strategy_stdot, time_lock_strategy_stmatic,
  time_lock_strategy_wbtc, time_lock_strategy_wbtcwh, time_lock_strategy_wglmr,
  time_lock_strategy_wmatic, time_lock_strategy_xcdot,
}

abbrev pub strategy_wbtc : ReserveParams
strategy_wbtc = record {
  strategy = rate_strategy_wbtc;
  auction_strategy = auction_strategy_zero;
  time_lock_strategy = time_lock_strategy_wbtc;
  base_ltv_as_collateral = pos 7200;
  liquidation_protocol_fee_percentage = 0;
  liquidation_threshold = 8200;
  liquidation_bonus = 10500;
  borrowing_enabled = true;
  reserve_decimals = 8;
  x_token_impl = p_token_impl;
  reserve_factor = 1000;
  borrow_cap = 0;
  supply_cap = 0;
}

abbrev pub strategy_xcdot : ReserveParams
strategy_xcdot = record {
  strategy = rate_strategy_xcdot;
  auction_strategy = auction_strategy_zero;
  time_lock_strategy = time_lock_strategy_xcdot;
  base_ltv_as_collateral = pos 6500;
  liquidation_protocol_fee_percentage = 0;
  liquidation_threshold = 7000;
  liquidation_bonus = 10500;
  borrowing_enabled = true;
  reserve_decimals = 10;
  x_token_impl = p_token_impl;
  reserve_factor = 1000;
  borrow_cap = 0;
  supply_cap = 0;
}

abbrev pub strategy_stdot : ReserveParams
strategy_stdot = record {
  strategy = rate_strategy_stdot;
  auction_strategy = auction_strategy_zero;
  time_lock_strategy = time_lock_strategy_stdot;
  base_ltv_as_collateral = pos 6500;
  liquidation_protocol_fee_percentage = 0;
  liquidation_threshold = 7000;
  liquidation_bonus = 10500;
  borrowing_enabled = true;
  reserve_decimals = 10;
  x_token_impl = p_token_st_ksm_impl;
  reserve_factor = 1000;
  borrow_cap = 0;
  supply_cap = 0;
}

abbrev pub strategy_wbtcwh : ReserveParams
strategy_wbtcwh = record {
  strategy = rate_strategy_wbtcwh;
  auction_strategy = auction_strategy_zero;
  time_lock_strategy = time_lock_strategy_wbtcwh;
  base_ltv_as_collateral = pos 7200;
  liquidation_protocol_fee_percentage = 0;
  liquidation_threshold = 8200;
  liquidation_bonus = 10500;
  borrowing_enabled = true;
  reserve_decimals = 8;
  x_token_impl = p_token_impl;
  reserve_factor = 1000;
  borrow_cap = 0;
  supply_cap = 0;
}

abbrev pub strategy_wglmr : ReserveParams
strategy_wglmr = record {
  strategy = rate_strategy_wglmr;
  auction_strategy = auction_strategy_zero;
  time_lock_strategy = time_lock_strategy_wglmr;
  base_ltv_as_collateral = pos 3000;
  liquidation_protocol_fee_percentage = 0;
  liquidation_threshold = 4500;
  liquidation_bonus = 10500;
  borrowing_enabled = true;
  reserve_decimals = 18;
  x_token_impl = p_token_impl;
  reserve_factor = 1000;
  borrow_cap = 0;
  supply_cap = 0;
}

abbrev pub strategy_arb : ReserveParams
strategy_arb = record {
  strategy = rate_strategy_arb;
  auction_strategy = auction_strategy_zero;
  time_lock_strategy = time_lock_strategy_arb;
  base_ltv_as_collateral = pos 3500;
  liquidation_protocol_fee_percentage = 0;
  liquidation_threshold = 6500;
  liquidation_bonus = 11000;
  borrowing_enabled = true;
  reserve_decimals = 18;
  x_token_impl = p_token_impl;
  reserve_factor = 1000;
  borrow_cap = 0;
  supply_cap = 0;
}

abbrev pub strategy_stmatic : ReserveParams
strategy_stmatic = record {
  strategy = rate_strategy_stmatic;
  auction_strategy = auction_strategy_zero;
  time_lock_strategy = time_lock_strategy_stmatic;
  base_ltv_as_collateral = pos 5000;
  liquidation_protocol_fee_percentage = 0;
  liquidation_threshold = 6500;
  liquidation_bonus = 11000;
  borrowing_enabled = true;
  reserve_decimals = 18;
  x_token_impl = p_token_impl;
  reserve_factor = 1000;
  borrow_cap = 0;
  supply_cap = 0;
}

abbrev pub strategy_wmatic : ReserveParams
strategy_wmatic = record {
  strategy = rate_strategy_wmatic;
  auction_strategy = auction_strategy_zero;
  time_lock_strategy = time_lock_strategy_wmatic;
  base_ltv_as_collateral = pos 6800;
  liquidation_threshold = 7300;
  liquidation_protocol_fee_percentage = 0;
  liquidation_bonus = 10700;
  borrowing_enabled = true;
  reserve_decimals = 18;
  x_token_impl = p_token_impl;
  reserve_factor = 2000;
  borrow_cap = 0;
  supply_cap = 0;
}
