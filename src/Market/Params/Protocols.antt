-- ===== src/Market/Params/Protocols.antt =====
-- The parameters of the coins of protocols and of fractions, and what stands for no asset, in
-- market-config/reservesConfigs.ts.
use paraspace_core.Prelude.{pos, true}
use paraspace_core.Market.{ReserveParams, p_token_impl}
use paraspace_core.Market.Rates.{
  rate_strategy_aave, rate_strategy_bal, rate_strategy_blur, rate_strategy_crv, rate_strategy_gmx,
  rate_strategy_link, rate_strategy_rdnt, rate_strategy_uni,
}
use paraspace_core.Market.Auctions.{auction_strategy_zero}
use paraspace_core.Market.TimeLocks.{
  time_lock_strategy_aave, time_lock_strategy_bal, time_lock_strategy_crv, time_lock_strategy_gmx,
  time_lock_strategy_link, time_lock_strategy_rdnt, time_lock_strategy_u_bayc,
  time_lock_strategy_u_ppg, time_lock_strategy_uni,
}

abbrev pub strategy_gmx : ReserveParams
strategy_gmx = record {
  strategy = rate_strategy_gmx;
  auction_strategy = auction_strategy_zero;
  time_lock_strategy = time_lock_strategy_gmx;
  base_ltv_as_collateral = pos 5000;
  liquidation_protocol_fee_percentage = 0;
  liquidation_threshold = 6500;
  liquidation_bonus = 11000;
  borrowing_enabled = true;
  reserve_decimals = 18;
  x_token_impl = p_token_impl;
  reserve_factor = 1000;
  borrow_cap = 0;
  supply_cap = 0;
}

abbrev pub strategy_bal : ReserveParams
strategy_bal = record {
  strategy = rate_strategy_bal;
  auction_strategy = auction_strategy_zero;
  time_lock_strategy = time_lock_strategy_bal;
  base_ltv_as_collateral = pos 5000;
  liquidation_protocol_fee_percentage = 0;
  liquidation_threshold = 6500;
  liquidation_bonus = 11000;
  borrowing_enabled = true;
  reserve_decimals = 18;
  x_token_impl = p_token_impl;
  reserve_factor = 1000;
  borrow_cap = 0;
  supply_cap = 0;
}

abbrev pub strategy_link : ReserveParams
strategy_link = record {
  strategy = rate_strategy_link;
  auction_strategy = auction_strategy_zero;
  time_lock_strategy = time_lock_strategy_link;
  base_ltv_as_collateral = pos 7000;
  liquidation_protocol_fee_percentage = 0;
  liquidation_threshold = 7500;
  liquidation_bonus = 11000;
  borrowing_enabled = true;
  reserve_decimals = 18;
  x_token_impl = p_token_impl;
  reserve_factor = 1000;
  borrow_cap = 0;
  supply_cap = 0;
}

abbrev pub strategy_aave : ReserveParams
strategy_aave = record {
  strategy = rate_strategy_aave;
  auction_strategy = auction_strategy_zero;
  time_lock_strategy = time_lock_strategy_aave;
  base_ltv_as_collateral = pos 5000;
  liquidation_protocol_fee_percentage = 0;
  liquidation_threshold = 6500;
  liquidation_bonus = 11000;
  borrowing_enabled = true;
  reserve_decimals = 18;
  x_token_impl = p_token_impl;
  reserve_factor = 1000;
  borrow_cap = 0;
  supply_cap = 0;
}

abbrev pub strategy_uni : ReserveParams
strategy_uni = record {
  strategy = rate_strategy_uni;
  auction_strategy = auction_strategy_zero;
  time_lock_strategy = time_lock_strategy_uni;
  base_ltv_as_collateral = pos 3000;
  liquidation_protocol_fee_percentage = 0;
  liquidation_threshold = 7000;
  liquidation_bonus = 10500;
  borrowing_enabled = true;
  reserve_decimals = 18;
  x_token_impl = p_token_impl;
  reserve_factor = 0;
  borrow_cap = 0;
  supply_cap = 0;
}

abbrev pub strategy_rdnt : ReserveParams
strategy_rdnt = record {
  strategy = rate_strategy_rdnt;
  auction_strategy = auction_strategy_zero;
  time_lock_strategy = time_lock_strategy_rdnt;
  base_ltv_as_collateral = pos 2500;
  liquidation_protocol_fee_percentage = 0;
  liquidation_threshold = 3500;
  liquidation_bonus = 11000;
  borrowing_enabled = true;
  reserve_decimals = 18;
  x_token_impl = p_token_impl;
  reserve_factor = 1000;
  borrow_cap = 0;
  supply_cap = 0;
}

abbrev pub strategy_crv : ReserveParams
strategy_crv = record {
  strategy = rate_strategy_crv;
  auction_strategy = auction_strategy_zero;
  time_lock_strategy = time_lock_strategy_crv;
  base_ltv_as_collateral = pos 2500;
  liquidation_protocol_fee_percentage = 0;
  liquidation_threshold = 3500;
  liquidation_bonus = 11000;
  borrowing_enabled = true;
  reserve_decimals = 18;
  x_token_impl = p_token_impl;
  reserve_factor = 1000;
  borrow_cap = 0;
  supply_cap = 0;
}

abbrev pub strategy_u_bayc : ReserveParams
strategy_u_bayc = record {
  strategy = rate_strategy_blur;
  auction_strategy = auction_strategy_zero;
  time_lock_strategy = time_lock_strategy_u_bayc;
  base_ltv_as_collateral = pos 4000;
  liquidation_threshold = 8000;
  liquidation_protocol_fee_percentage = 0;
  liquidation_bonus = 10500;
  borrowing_enabled = true;
  reserve_decimals = 18;
  x_token_impl = p_token_impl;
  reserve_factor = 1000;
  borrow_cap = 0;
  supply_cap = 0;
}

abbrev pub strategy_u_ppg : ReserveParams
strategy_u_ppg = record {
  strategy = rate_strategy_blur;
  auction_strategy = auction_strategy_zero;
  time_lock_strategy = time_lock_strategy_u_ppg;
  base_ltv_as_collateral = pos 3000;
  liquidation_threshold = 6500;
  liquidation_protocol_fee_percentage = 0;
  liquidation_bonus = 10500;
  borrowing_enabled = true;
  reserve_decimals = 18;
  x_token_impl = p_token_impl;
  reserve_factor = 1000;
  borrow_cap = 0;
  supply_cap = 0;
}
