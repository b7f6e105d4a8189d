-- ===== src/Setup/Init.antt =====
-- The first two loops of `initReservesByHelper` of helpers/init-helpers.ts: a row for each reserve
-- with its strategies, and the input parameters of the rows. The file with the deployed addresses is left out.
use Prim.Native.String.{◌++◌ as str_append}
use paraspace_core.Prelude.{
  if◌then◌else◌, ℕ, String, Bool, true, false, Option, none, some, List, [], ◌∷◌, ◌++◌, map,
}
use paraspace_core.Market.{
  ContractId, InterestRateStrategyParams, AuctionStrategyParams, TimeLockStrategyParams,
  ReserveParams, n_token_impl, n_token_moon_birds_impl, n_token_uniswap_v3_impl, n_token_bayc_impl,
  n_token_mayc_impl, n_token_bakc_impl, n_token_stakefish_impl, n_token_chromie_squiggle_impl,
  n_token_otherdeed_impl, delegation_aware_p_token_impl,
}
use paraspace_core.Setup.{address_of}
use paraspace_core.Setup.Registry.{Registry, Kind, ensure}

-- `xTokenType`
pub data XTokenType : Type 0 where
  delegation_aware nft generic : XTokenType

abbrev pub x_token_type : ContractId → XTokenType
x_token_type delegation_aware_p_token_impl = delegation_aware
x_token_type n_token_impl = nft
x_token_type n_token_moon_birds_impl = nft
x_token_type n_token_uniswap_v3_impl = nft
x_token_type n_token_bayc_impl = nft
x_token_type n_token_mayc_impl = nft
x_token_type n_token_bakc_impl = nft
x_token_type n_token_stakefish_impl = nft
x_token_type n_token_chromie_squiggle_impl = nft
x_token_type n_token_otherdeed_impl = nft
x_token_type _ = generic

-- The addresses that the caller gives for all strategies of a kind, and those of deployments.
pub record Deployer : Type 0 where
  pub default_rate : Option String
  pub default_auction : Option String
  pub default_time_lock : Option String
  pub rate_at : ℕ → String
  pub auction_at : ℕ → String
  pub time_lock_at : ℕ → String

pub record Registries : Type 0 where
  pub rates : Registry InterestRateStrategyParams
  pub auctions : Registry AuctionStrategyParams
  pub time_locks : Registry TimeLockStrategyParams

-- What the first loop pushes and the records per asset: a symbol occurs once among the entries.
pub record InitRow : Type 0 where
  pub symbol : String
  pub token : String
  pub decimals : ℕ
  pub token_type : XTokenType
  pub rate : Option String
  pub auction : Option String
  pub time_lock : Option String

module _ (d : Deployer) where
  abbrev pub rate_kind : Kind InterestRateStrategyParams
  rate_kind = record {
    name = λ s. s.name;
    zero_name = "rateStrategyZero";
    default = d.default_rate;
    address_at = d.rate_at;
  }

  abbrev pub auction_kind : Kind AuctionStrategyParams
  auction_kind = record {
    name = λ s. s.name;
    zero_name = "auctionStrategyZero";
    default = d.default_auction;
    address_at = d.auction_at;
  }

  abbrev pub time_lock_kind : Kind TimeLockStrategyParams
  time_lock_kind = record {
    name = λ s. s.name;
    zero_name = "timeLockStrategyZero";
    default = d.default_time_lock;
    address_at = d.time_lock_at;
  }

  abbrev pub ensure_strategies : ReserveParams → Registries → Registries
  ensure_strategies params r = record {
    rates = ensure rate_kind params.strategy r.rates;
    auctions = ensure auction_kind params.auction_strategy r.auctions;
    time_locks = ensure time_lock_kind params.time_lock_strategy r.time_locks;
  }

  abbrev pub to_row : String → String → ReserveParams → Registries → InitRow
  to_row symbol token params r = record {
    symbol = symbol;
    token = token;
    decimals = params.reserve_decimals;
    token_type = x_token_type params.x_token_impl;
    rate = address_of r.rates.addresses params.strategy.name;
    auction = address_of r.auctions.addresses params.auction_strategy.name;
    time_lock = address_of r.time_locks.addresses params.time_lock_strategy.name;
  }

  -- The body of the loop: a reserve without a token address is passed over.
  abbrev pub visit : Option String → String → ReserveParams → Registries → Registries × List InitRow
  visit none symbol params r = (r, [])
  visit (some token) symbol params r =
      let r' = ensure_strategies params r in (r', to_row symbol token params r' ∷ [])

  unfoldable pub collect_rows :
      List (String × String)
      → List (String × ReserveParams)
      → Registries
      → Registries × List InitRow
  collect_rows tokens [] r = (r, [])
  collect_rows tokens ((symbol, params) ∷ rest) r =
      let v = visit (address_of tokens symbol) symbol params r in
      let w = collect_rows tokens rest v.0 in (w.0, v.1 ++ w.1)

-- An element of `initInputParams`.
pub record InitReserveInput : Type 0 where
  pub x_token_impl : String
  pub asset_type : ℕ
  pub variable_debt_token_impl : String
  pub underlying_asset_decimals : ℕ
  pub interest_rate_strategy_address : Option String
  pub auction_strategy_address : Option String
  pub time_lock_strategy_address : Option String
  pub underlying_asset : String
  pub treasury : String
  pub incentives_controller : String
  pub underlying_asset_name : String
  pub x_token_name : String
  pub x_token_symbol : String
  pub variable_debt_token_name : String
  pub variable_debt_token_symbol : String
  pub params : String

-- The prefixes and addresses among the arguments.
pub record Naming : Type 0 where
  pub x_token_name_prefix : String
  pub variable_debt_token_name_prefix : String
  pub symbol_prefix : String
  pub treasury_address : String
  pub incentives_controller_address : String

abbrev is_nft : XTokenType → Bool
is_nft nft = true
is_nft _ = false

abbrev join : String → String → String
join = str_append

-- The body of the loop over `reserveSymbols`.
unfoldable pub to_init_input : Naming → InitRow → InitReserveInput
to_init_input n row = record {
  x_token_impl = "";
  asset_type = if is_nft row.token_type then 1 else 0;
  variable_debt_token_impl = "";
  underlying_asset_decimals = row.decimals;
  interest_rate_strategy_address = row.rate;
  auction_strategy_address = row.auction;
  time_lock_strategy_address = row.time_lock;
  underlying_asset = row.token;
  treasury = n.treasury_address;
  incentives_controller = n.incentives_controller_address;
  underlying_asset_name = row.symbol;
  x_token_name = join n.x_token_name_prefix (join " " row.symbol);
  x_token_symbol =
      join (if is_nft row.token_type then "n" else "p") (join n.symbol_prefix row.symbol);
  variable_debt_token_name =
      join n.variable_debt_token_name_prefix (join " " (join n.symbol_prefix row.symbol));
  variable_debt_token_symbol = join "vDebt" (join n.symbol_prefix row.symbol);
  params = "0x10";
}

abbrev pub init_inputs : Naming → List InitRow → List InitReserveInput
init_inputs n rows = map (to_init_input n) rows
