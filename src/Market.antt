-- ===== src/Market.antt =====
-- The types of the market tables (helpers/types.ts): strategies, parameters of a reserve and the
-- configuration of a market. Amounts and addresses are what their texts denote.
pub mod Common
pub mod Rates
pub mod Auctions
pub mod TimeLocks
pub mod Params
pub mod Configs
pub mod Release
pub mod Everywhere
pub mod Constructed
mod Tests
use paraspace_core.Prelude.{ℕ, ◌*◌, ◌^◌, ◌-◌, String, Bool, Option, List, ℤ}

-- `parseUnits`: the digits of a decimal text, how many of them follow the point, and the decimals.
abbrev pub units : ℕ → ℕ → ℕ → ℕ
units digits fraction decimals = digits * 10 ^ (decimals - fraction)

-- The implementations of a token of `eContractid`.
pub data ContractId : Type 0 where
  p_token_impl p_token_s_ape_impl p_token_a_token_impl p_token_st_eth_impl : ContractId
  p_token_st_ksm_impl p_token_a_st_eth_impl p_token_c_ape_impl p_yield_token_impl : ContractId
  n_token_impl n_token_moon_birds_impl n_token_uniswap_v3_impl n_token_bayc_impl : ContractId
  n_token_mayc_impl n_token_bakc_impl n_token_otherdeed_impl n_token_stakefish_impl : ContractId
  n_token_chromie_squiggle_impl delegation_aware_p_token_impl : ContractId

abbrev pub contract_id_text : ContractId → String
contract_id_text p_token_impl = "PTokenImpl"
contract_id_text p_token_s_ape_impl = "PTokenSApeImpl"
contract_id_text p_token_a_token_impl = "PTokenATokenImpl"
contract_id_text p_token_st_eth_impl = "PTokenStETHImpl"
contract_id_text p_token_st_ksm_impl = "PTokenStKSMImpl"
contract_id_text p_token_a_st_eth_impl = "PTokenAStETHImpl"
contract_id_text p_token_c_ape_impl = "PTokenCApeImpl"
contract_id_text p_yield_token_impl = "PYieldTokenImpl"
contract_id_text n_token_impl = "NTokenImpl"
contract_id_text n_token_moon_birds_impl = "NTokenMoonBirdsImpl"
contract_id_text n_token_uniswap_v3_impl = "NTokenUniswapV3Impl"
contract_id_text n_token_bayc_impl = "NTokenBAYCImpl"
contract_id_text n_token_mayc_impl = "NTokenMAYCImpl"
contract_id_text n_token_bakc_impl = "NTokenBAKCImpl"
contract_id_text n_token_otherdeed_impl = "NTokenOtherdeedImpl"
contract_id_text n_token_stakefish_impl = "NTokenStakefishImpl"
contract_id_text n_token_chromie_squiggle_impl = "NTokenChromieSquiggleImpl"
contract_id_text delegation_aware_p_token_impl = "DelegationAwarePTokenImpl"

pub record InterestRateStrategyParams : Type 0 where
  pub name : String
  pub optimal_usage_ratio : ℕ
  pub base_variable_borrow_rate : ℕ
  pub variable_rate_slope1 : ℕ
  pub variable_rate_slope2 : ℕ

pub record AuctionStrategyParams : Type 0 where
  pub name : String
  pub max_price_multiplier : ℕ
  pub min_exp_price_multiplier : ℕ
  pub min_price_multiplier : ℕ
  pub step_linear : ℕ
  pub step_exp : ℕ
  pub tick_length : ℕ

pub record TimeLockStrategyParams : Type 0 where
  pub name : String
  pub min_threshold : ℕ
  pub mid_threshold : ℕ
  pub min_wait_time : ℕ
  pub mid_wait_time : ℕ
  pub max_wait_time : ℕ
  pub pool_period_wait_time : ℕ
  pub pool_period_limit : ℕ
  pub period : ℕ

-- The base loan to value is an integer: "-1" keeps a reserve from being configured.
pub record ReserveParams : Type 0 where
  pub strategy : InterestRateStrategyParams
  pub auction_strategy : AuctionStrategyParams
  pub time_lock_strategy : TimeLockStrategyParams
  pub base_ltv_as_collateral : ℤ
  pub liquidation_threshold : ℕ
  pub liquidation_protocol_fee_percentage : ℕ
  pub liquidation_bonus : ℕ
  pub borrowing_enabled : Bool
  pub reserve_decimals : ℕ
  pub x_token_impl : ContractId
  pub reserve_factor : ℕ
  pub borrow_cap : ℕ
  pub supply_cap : ℕ

pub record OracleConfig : Type 0 where
  pub base_currency : String
  pub base_currency_unit : ℕ
  pub base_currency_decimals : ℕ
  pub expiration_period : ℕ
  pub deviation_rate : ℕ
  pub nodes : List String

-- `MULTI_SEND` and `MULTI_SIG` of helpers/hardhat-constants.ts, "" if they are not set.
pub record Environment : Type 0 where
  pub multi_send : String
  pub multi_sig : String

-- A market. What is keyed by a symbol or a name is a list of pairs in the order of the source. The
-- prices for mocks and the endpoints of account abstraction are left out.
pub record MarketConfig : Type 0 where
  pub wrapped_native_token_id : String
  pub market_id : String
  pub p_token_name_prefix : String
  pub variable_debt_token_name_prefix : String
  pub symbol_prefix : String
  pub provider_id : ℕ
  pub auction_recovery_health_factor : ℕ
  pub para_space_admin : Option String
  pub emergency_admins : List String
  pub risk_admin : Option String
  pub gateway_admin : Option String
  pub para_space_admin_index : ℕ
  pub emergency_admin_index : ℕ
  pub risk_admin_index : ℕ
  pub gateway_admin_index : ℕ
  pub oracle : OracleConfig
  pub hot_wallet : String
  pub delegation_registry : String
  pub incentives_controller : String
  pub multisend : String
  pub multisig : String
  pub para_space_v1 : List (String × String)
  pub para_space_team : String
  pub treasury : String
  pub tokens : List (String × String)
  pub yoga_labs : List (String × String)
  pub uniswap : List (String × String)
  pub bend_dao : List (String × String)
  pub stakefish : List (String × String)
  pub marketplace : List (String × String)
  pub chainlink : List (String × String)
  pub reserves_config : List (String × ReserveParams)
