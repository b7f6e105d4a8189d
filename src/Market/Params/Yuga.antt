-- ===== src/Market/Params/Yuga.antt =====
-- The parameters of the collections of Yuga Labs and VeeFriends, in
-- market-config/reservesConfigs.ts.
use paraspace_core.Prelude.{false, pos}
use paraspace_core.Market.{
  ReserveParams, n_token_bakc_impl, n_token_bayc_impl, n_token_impl, n_token_mayc_impl,
}
use paraspace_core.Market.Rates.{rate_strategy_nft}
use paraspace_core.Market.Auctions.{
  auction_strategy_bakc, auction_strategy_bayc, auction_strategy_exp, auction_strategy_hvmtl,
  auction_strategy_koda, auction_strategy_mayc, auction_strategy_meebits, auction_strategy_othr,
  auction_strategy_sewer, auction_strategy_vsl, auction_strategy_wpunks,
}
use paraspace_core.Market.TimeLocks.{
  time_lock_strategy_bakc, time_lock_strategy_bayc, time_lock_strategy_exp,
  time_lock_strategy_hvmtl, time_lock_strategy_koda, time_lock_strategy_mayc,
  time_lock_strategy_meebits, time_lock_strategy_othr, time_lock_strategy_sewer,
  time_lock_strategy_vsl, time_lock_strategy_wpunks,
}

abbrev pub strategy_bayc : ReserveParams
strategy_bayc = record {
  strategy = rate_strategy_nft;
  auction_strategy = auction_strategy_bayc;
  time_lock_strategy = time_lock_strategy_bayc;
  base_ltv_as_collateral = pos 4000;
  liquidation_protocol_fee_percentage = 0;
  liquidation_threshold = 8000;
  liquidation_bonus = 10500;
  borrowing_enabled = false;
  reserve_decimals = 0;
  x_token_impl = n_token_bayc_impl;
  reserve_factor = 0;
  borrow_cap = 0;
  supply_cap = 0;
}

abbrev pub strategy_mayc : ReserveParams
strategy_mayc = record {
  strategy = rate_strategy_nft;
  auction_strategy = auction_strategy_mayc;
  time_lock_strategy = time_lock_strategy_mayc;
  base_ltv_as_collateral = pos 3250;
  liquidation_protocol_fee_percentage = 0;
  liquidation_threshold = 7000;
  liquidation_bonus = 10500;
  borrowing_enabled = false;
  reserve_decimals = 0;
  x_token_impl = n_token_mayc_impl;
  reserve_factor = 0;
  borrow_cap = 0;
  supply_cap = 0;
}

abbrev pub strategy_bakc : ReserveParams
strategy_bakc = record {
  strategy = rate_strategy_nft;
  auction_strategy = auction_strategy_bakc;
  time_lock_strategy = time_lock_strategy_bakc;
  base_ltv_as_collateral = pos 4000;
  liquidation_protocol_fee_percentage = 0;
  liquidation_threshold = 8000;
  liquidation_bonus = 10500;
  borrowing_enabled = false;
  reserve_decimals = 0;
  x_token_impl = n_token_bakc_impl;
  reserve_factor = 0;
  borrow_cap = 0;
  supply_cap = 1000;
}

abbrev pub strategy_othr : ReserveParams
strategy_othr = record {
  strategy = rate_strategy_nft;
  auction_strategy = auction_strategy_othr;
  time_lock_strategy = time_lock_strategy_othr;
  base_ltv_as_collateral = pos 3000;
  liquidation_protocol_fee_percentage = 0;
  liquidation_threshold = 6500;
  liquidation_bonus = 10500;
  borrowing_enabled = false;
  reserve_decimals = 0;
  x_token_impl = n_token_impl;
  reserve_factor = 0;
  borrow_cap = 0;
  supply_cap = 0;
}

abbrev pub strategy_meebits : ReserveParams
strategy_meebits = record {
  strategy = rate_strategy_nft;
  auction_strategy = auction_strategy_meebits;
  time_lock_strategy = time_lock_strategy_meebits;
  base_ltv_as_collateral = pos 3000;
  liquidation_protocol_fee_percentage = 0;
  liquidation_threshold = 6500;
  liquidation_bonus = 10500;
  borrowing_enabled = false;
  reserve_decimals = 0;
  x_token_impl = n_token_impl;
  reserve_factor = 0;
  borrow_cap = 0;
  supply_cap = 0;
}

abbrev pub strategy_wpunks : ReserveParams
strategy_wpunks = record {
  strategy = rate_strategy_nft;
  auction_strategy = auction_strategy_wpunks;
  time_lock_strategy = time_lock_strategy_wpunks;
  base_ltv_as_collateral = pos 3500;
  liquidation_protocol_fee_percentage = 0;
  liquidation_threshold = 7000;
  liquidation_bonus = 10500;
  borrowing_enabled = false;
  reserve_decimals = 0;
  x_token_impl = n_token_impl;
  reserve_factor = 0;
  borrow_cap = 0;
  supply_cap = 0;
}

abbrev pub strategy_sewer : ReserveParams
strategy_sewer = record {
  strategy = rate_strategy_nft;
  auction_strategy = auction_strategy_sewer;
  time_lock_strategy = time_lock_strategy_sewer;
  base_ltv_as_collateral = pos 0;
  liquidation_protocol_fee_percentage = 0;
  liquidation_threshold = 0000;
  liquidation_bonus = 00000;
  borrowing_enabled = false;
  reserve_decimals = 0;
  x_token_impl = n_token_impl;
  reserve_factor = 0;
  borrow_cap = 0;
  supply_cap = 1000;
}

abbrev pub strategy_hvmtl : ReserveParams
strategy_hvmtl = record {
  strategy = rate_strategy_nft;
  auction_strategy = auction_strategy_hvmtl;
  time_lock_strategy = time_lock_strategy_hvmtl;
  base_ltv_as_collateral = pos 3000;
  liquidation_protocol_fee_percentage = 0;
  liquidation_threshold = 6500;
  liquidation_bonus = 10500;
  borrowing_enabled = false;
  reserve_decimals = 0;
  x_token_impl = n_token_impl;
  reserve_factor = 0;
  borrow_cap = 0;
  supply_cap = 1000;
}

abbrev pub strategy_exp : ReserveParams
strategy_exp = record {
  strategy = rate_strategy_nft;
  auction_strategy = auction_strategy_exp;
  time_lock_strategy = time_lock_strategy_exp;
  base_ltv_as_collateral = pos 3000;
  liquidation_protocol_fee_percentage = 0;
  liquidation_threshold = 6500;
  liquidation_bonus = 10500;
  borrowing_enabled = false;
  reserve_decimals = 0;
  x_token_impl = n_token_impl;
  reserve_factor = 0;
  borrow_cap = 0;
  supply_cap = 1000;
}

abbrev pub strategy_vsl : ReserveParams
strategy_vsl = record {
  strategy = rate_strategy_nft;
  auction_strategy = auction_strategy_vsl;
  time_lock_strategy = time_lock_strategy_vsl;
  base_ltv_as_collateral = pos 3000;
  liquidation_protocol_fee_percentage = 0;
  liquidation_threshold = 6500;
  liquidation_bonus = 10500;
  borrowing_enabled = false;
  reserve_decimals = 0;
  x_token_impl = n_token_impl;
  reserve_factor = 0;
  borrow_cap = 0;
  supply_cap = 1000;
}

abbrev pub strategy_koda : ReserveParams
strategy_koda = record {
  strategy = rate_strategy_nft;
  auction_strategy = auction_strategy_koda;
  time_lock_strategy = time_lock_strategy_koda;
  base_ltv_as_collateral = pos 3000;
  liquidation_protocol_fee_percentage = 0;
  liquidation_threshold = 6500;
  liquidation_bonus = 10500;
  borrowing_enabled = false;
  reserve_decimals = 0;
  x_token_impl = n_token_impl;
  reserve_factor = 0;
  borrow_cap = 0;
  supply_cap = 1000;
}
