-- ===== src/Market/Params/Ethers.antt =====
-- The parameters of ether and what wraps or stakes it, in
-- market-config/reservesConfigs.ts.
use paraspace_core.Prelude.{pos, true}
use paraspace_core.Market.{
  ReserveParams, p_token_a_st_eth_impl, p_token_a_token_impl, p_token_impl, p_token_st_eth_impl,
}
use paraspace_core.Market.Rates.{rate_strategy_weth, rate_strategy_wethwh, rate_strategy_xeth}
use paraspace_core.Market.Auctions.{auction_strategy_zero}
use paraspace_core.Market.TimeLocks.{
  time_lock_strategy_asteth, time_lock_strategy_aweth, time_lock_strategy_awsteth,
  time_lock_strategy_bendeth, time_lock_strategy_ceth, time_lock_strategy_reth,
  time_lock_strategy_weth, time_lock_strategy_wethwh, time_lock_strategy_wsteth,
}

abbrev pub strategy_weth : ReserveParams
strategy_weth = record {
  strategy = rate_strategy_weth;
  auction_strategy = auction_strategy_zero;
  time_lock_strategy = time_lock_strategy_weth;
  base_ltv_as_collateral = pos 8250;
  liquidation_threshold = 8600;
  liquidation_protocol_fee_percentage = 0;
  liquidation_bonus = 10450;
  borrowing_enabled = true;
  reserve_decimals = 18;
  x_token_impl = p_token_impl;
  reserve_factor = 1000;
  borrow_cap = 0;
  supply_cap = 0;
}

abbrev pub strategy_wethwh : ReserveParams
strategy_wethwh = record {
  strategy = rate_strategy_wethwh;
  auction_strategy = auction_strategy_zero;
  time_lock_strategy = time_lock_strategy_wethwh;
  base_ltv_as_collateral = pos 8250;
  liquidation_threshold = 8600;
  liquidation_protocol_fee_percentage = 0;
  liquidation_bonus = 10450;
  borrowing_enabled = true;
  reserve_decimals = 18;
  x_token_impl = p_token_impl;
  reserve_factor = 1000;
  borrow_cap = 0;
  supply_cap = 0;
}

abbrev pub strategy_cbeth : ReserveParams
strategy_cbeth = record {
  strategy = rate_strategy_xeth;
  auction_strategy = auction_strategy_zero;
  time_lock_strategy = time_lock_strategy_weth;
  base_ltv_as_collateral = pos 7200;
  liquidation_protocol_fee_percentage = 0;
  liquidation_threshold = 8300;
  liquidation_bonus = 10700;
  borrowing_enabled = true;
  reserve_decimals = 18;
  x_token_impl = p_token_impl;
  reserve_factor = 1000;
  borrow_cap = 110000;
  supply_cap = 110000;
}

abbrev pub strategy_steth : ReserveParams
strategy_steth = record {
  strategy = rate_strategy_xeth;
  auction_strategy = auction_strategy_zero;
  time_lock_strategy = time_lock_strategy_weth;
  base_ltv_as_collateral = pos 6900;
  liquidation_protocol_fee_percentage = 0;
  liquidation_threshold = 8100;
  liquidation_bonus = 10750;
  borrowing_enabled = true;
  reserve_decimals = 18;
  x_token_impl = p_token_st_eth_impl;
  reserve_factor = 1000;
  borrow_cap = 0;
  supply_cap = 0;
}

abbrev pub strategy_asteth : ReserveParams
strategy_asteth = record {
  strategy = rate_strategy_xeth;
  auction_strategy = auction_strategy_zero;
  time_lock_strategy = time_lock_strategy_asteth;
  base_ltv_as_collateral = pos 6900;
  liquidation_protocol_fee_percentage = 0;
  liquidation_threshold = 8100;
  liquidation_bonus = 10750;
  borrowing_enabled = true;
  reserve_decimals = 18;
  x_token_impl = p_token_a_st_eth_impl;
  reserve_factor = 1000;
  borrow_cap = 0;
  supply_cap = 0;
}

abbrev pub strategy_wsteth : ReserveParams
strategy_wsteth = record {
  strategy = rate_strategy_xeth;
  auction_strategy = auction_strategy_zero;
  time_lock_strategy = time_lock_strategy_wsteth;
  base_ltv_as_collateral = pos 6900;
  liquidation_protocol_fee_percentage = 0;
  liquidation_threshold = 8100;
  liquidation_bonus = 10750;
  borrowing_enabled = true;
  reserve_decimals = 18;
  x_token_impl = p_token_impl;
  reserve_factor = 1000;
  borrow_cap = 0;
  supply_cap = 0;
}

abbrev pub strategy_awsteth : ReserveParams
strategy_awsteth = record {
  strategy = rate_strategy_xeth;
  auction_strategy = auction_strategy_zero;
  time_lock_strategy = time_lock_strategy_awsteth;
  base_ltv_as_collateral = pos 6900;
  liquidation_protocol_fee_percentage = 0;
  liquidation_threshold = 8100;
  liquidation_bonus = 10750;
  borrowing_enabled = true;
  reserve_decimals = 18;
  x_token_impl = p_token_a_token_impl;
  reserve_factor = 1000;
  borrow_cap = 0;
  supply_cap = 0;
}

abbrev pub strategy_bendeth : ReserveParams
strategy_bendeth = record {
  strategy = rate_strategy_xeth;
  auction_strategy = auction_strategy_zero;
  time_lock_strategy = time_lock_strategy_bendeth;
  base_ltv_as_collateral = pos 6900;
  liquidation_protocol_fee_percentage = 0;
  liquidation_threshold = 8100;
  liquidation_bonus = 10750;
  borrowing_enabled = true;
  reserve_decimals = 18;
  x_token_impl = p_token_a_token_impl;
  reserve_factor = 1000;
  borrow_cap = 0;
  supply_cap = 0;
}

abbrev pub strategy_aweth : ReserveParams
strategy_aweth = record {
  strategy = rate_strategy_xeth;
  auction_strategy = auction_strategy_zero;
  time_lock_strategy = time_lock_strategy_aweth;
  base_ltv_as_collateral = pos 8250;
  liquidation_protocol_fee_percentage = 0;
  liquidation_threshold = 8600;
  liquidation_bonus = 10450;
  borrowing_enabled = true;
  reserve_decimals = 18;
  x_token_impl = p_token_a_token_impl;
  reserve_factor = 1000;
  borrow_cap = 80000;
  supply_cap = 80000;
}

abbrev pub strategy_ceth : ReserveParams
strategy_ceth = record {
  strategy = rate_strategy_xeth;
  auction_strategy = auction_strategy_zero;
  time_lock_strategy = time_lock_strategy_ceth;
  base_ltv_as_collateral = pos 6900;
  liquidation_threshold = 8100;
  liquidation_protocol_fee_percentage = 0;
  liquidation_bonus = 10750;
  borrowing_enabled = true;
  reserve_decimals = 8;
  x_token_impl = p_token_impl;
  reserve_factor = 1000;
  borrow_cap = 0;
  supply_cap = 0;
}

abbrev pub strategy_reth : ReserveParams
strategy_reth = record {
  strategy = rate_strategy_xeth;
  auction_strategy = auction_strategy_zero;
  time_lock_strategy = time_lock_strategy_reth;
  base_ltv_as_collateral = pos 7200;
  liquidation_protocol_fee_percentage = 0;
  liquidation_threshold = 8300;
  liquidation_bonus = 10700;
  borrowing_enabled = true;
  reserve_decimals = 18;
  x_token_impl = p_token_impl;
  reserve_factor = 1000;
  borrow_cap = 20000;
  supply_cap = 20000;
}
