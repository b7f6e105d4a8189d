-- ===== src/Market/Params/Stables.antt =====
-- The parameters of the stable coins, in
-- market-config/reservesConfigs.ts.
use paraspace_core.Prelude.{pos, true}
use paraspace_core.Market.{ReserveParams, p_token_a_token_impl, p_token_impl}
use paraspace_core.Market.Rates.{
  rate_strategy_a_usdc, rate_strategy_dai, rate_strategy_frax, rate_strategy_usdc,
  rate_strategy_usdcwh, rate_strategy_usdt, rate_strategy_xcusdt,
}
use paraspace_core.Market.Auctions.{auction_strategy_zero}
use paraspace_core.Market.TimeLocks.{
  time_lock_strategy_a_usdc, time_lock_strategy_dai, time_lock_strategy_frax,
  time_lock_strategy_usdc, time_lock_strategy_usdcwh, time_lock_strategy_usdt,
  time_lock_strategy_xcusdt,
}

abbrev pub strategy_dai : ReserveParams
strategy_dai = record {
  strategy = rate_strategy_dai;
  auction_strategy = auction_strategy_zero;
  time_lock_strategy = time_lock_strategy_dai;
  base_ltv_as_collateral = pos 7700;
  liquidation_threshold = 9000;
  liquidation_protocol_fee_percentage = 0;
  liquidation_bonus = 10400;
  borrowing_enabled = true;
  reserve_decimals = 18;
  x_token_impl = p_token_impl;
  reserve_factor = 1000;
  borrow_cap = 0;
  supply_cap = 0;
}

abbrev pub strategy_usdc : ReserveParams
strategy_usdc = record {
  strategy = rate_strategy_usdc;
  auction_strategy = auction_strategy_zero;
  time_lock_strategy = time_lock_strategy_usdc;
  base_ltv_as_collateral = pos 8700;
  liquidation_threshold = 8900;
  liquidation_protocol_fee_percentage = 0;
  liquidation_bonus = 10450;
  borrowing_enabled = true;
  reserve_decimals = 6;
  x_token_impl = p_token_impl;
  reserve_factor = 1000;
  borrow_cap = 0;
  supply_cap = 0;
}

abbrev pub strategy_ausdc : ReserveParams
strategy_ausdc = record {
  strategy = rate_strategy_a_usdc;
  auction_strategy = auction_strategy_zero;
  time_lock_strategy = time_lock_strategy_a_usdc;
  base_ltv_as_collateral = pos 8700;
  liquidation_threshold = 8900;
  liquidation_protocol_fee_percentage = 0;
  liquidation_bonus = 10450;
  borrowing_enabled = true;
  reserve_decimals = 6;
  x_token_impl = p_token_a_token_impl;
  reserve_factor = 1000;
  borrow_cap = 0;
  supply_cap = 0;
}

abbrev pub strategy_usdt : ReserveParams
strategy_usdt = record {
  strategy = rate_strategy_usdt;
  auction_strategy = auction_strategy_zero;
  time_lock_strategy = time_lock_strategy_usdt;
  base_ltv_as_collateral = pos 7500;
  liquidation_threshold = 8000;
  liquidation_protocol_fee_percentage = 0;
  liquidation_bonus = 10500;
  borrowing_enabled = true;
  reserve_decimals = 6;
  x_token_impl = p_token_impl;
  reserve_factor = 1000;
  borrow_cap = 0;
  supply_cap = 0;
}

abbrev pub strategy_frax : ReserveParams
strategy_frax = record {
  strategy = rate_strategy_frax;
  auction_strategy = auction_strategy_zero;
  time_lock_strategy = time_lock_strategy_frax;
  base_ltv_as_collateral = pos 7500;
  liquidation_threshold = 8000;
  liquidation_protocol_fee_percentage = 0;
  liquidation_bonus = 10500;
  borrowing_enabled = true;
  reserve_decimals = 18;
  x_token_impl = p_token_impl;
  reserve_factor = 1000;
  borrow_cap = 0;
  supply_cap = 0;
}

abbrev pub strategy_xcusdt : ReserveParams
strategy_xcusdt = record {
  strategy = rate_strategy_xcusdt;
  auction_strategy = auction_strategy_zero;
  time_lock_strategy = time_lock_strategy_xcusdt;
  base_ltv_as_collateral = pos 7500;
  liquidation_protocol_fee_percentage = 0;
  liquidation_threshold = 8000;
  liquidation_bonus = 10500;
  borrowing_enabled = true;
  reserve_decimals = 10;
  x_token_impl = p_token_impl;
  reserve_factor = 1000;
  borrow_cap = 0;
  supply_cap = 0;
}

abbrev pub strategy_usdcwh : ReserveParams
strategy_usdcwh = record {
  strategy = rate_strategy_usdcwh;
  auction_strategy = auction_strategy_zero;
  time_lock_strategy = time_lock_strategy_usdcwh;
  base_ltv_as_collateral = pos 8700;
  liquidation_threshold = 8900;
  liquidation_protocol_fee_percentage = 0;
  liquidation_bonus = 10450;
  borrowing_enabled = true;
  reserve_decimals = 6;
  x_token_impl = p_token_impl;
  reserve_factor = 1000;
  borrow_cap = 0;
  supply_cap = 0;
}
