-- ===== src/Market/Common.antt =====
-- The oracle settings of market-config/oracle.ts and what all markets share, `CommonConfig` of
-- market-config/index.ts.
use paraspace_core.Prelude.{if◌then◌else◌, String, str_eq, none, [], ◌^◌}
use paraspace_core.Market.{Environment, OracleConfig, MarketConfig}

abbrev pub zero_address : String
zero_address = "0x0000000000000000000000000000000000000000"

-- `value || otherwise`.
abbrev pub or_else : String → String → String
or_else value otherwise = if str_eq value "" then otherwise else value

abbrev pub mainnet_oracle_config : OracleConfig
mainnet_oracle_config = record {
  base_currency = "WETH";
  base_currency_unit = 10 ^ 18;
  base_currency_decimals = 18;
  expiration_period = 2400;
  deviation_rate = 300;
  nodes = [];
}

abbrev pub moonbeam_oracle_config : OracleConfig
moonbeam_oracle_config = record {
  base_currency = zero_address;
  base_currency_unit = 100000000;
  base_currency_decimals = 8;
  expiration_period = 2400;
  deviation_rate = 300;
  nodes = [];
}

abbrev pub arbitrum_oracle_config : OracleConfig
arbitrum_oracle_config = record {
  base_currency = zero_address;
  base_currency_unit = 100000000;
  base_currency_decimals = 8;
  expiration_period = 2400;
  deviation_rate = 300;
  nodes = [];
}

abbrev pub polygon_oracle_config : OracleConfig
polygon_oracle_config = record {
  base_currency = zero_address;
  base_currency_unit = 100000000;
  base_currency_decimals = 8;
  expiration_period = 2400;
  deviation_rate = 300;
  nodes = [];
}

abbrev pub zk_sync_oracle_config : OracleConfig
zk_sync_oracle_config = record {
  base_currency = zero_address;
  base_currency_unit = 100000000;
  base_currency_decimals = 8;
  expiration_period = 2400;
  deviation_rate = 300;
  nodes = [];
}

abbrev pub linea_oracle_config : OracleConfig
linea_oracle_config = record {
  base_currency = zero_address;
  base_currency_unit = 100000000;
  base_currency_decimals = 8;
  expiration_period = 2400;
  deviation_rate = 300;
  nodes = [];
}

abbrev pub testnet_oracle_config : OracleConfig
testnet_oracle_config = record {
  base_currency = "WETH";
  base_currency_unit = 10 ^ 18;
  base_currency_decimals = 18;
  expiration_period = 600;
  deviation_rate = 1000;
  nodes = [];
}

-- The markets say themselves what stands here with no entry: team, treasury, tokens, aggregators
-- and reserves.
abbrev pub common_config : Environment → MarketConfig
common_config env = record {
  wrapped_native_token_id = "WETH";
  market_id = "ParaSpaceMM";
  p_token_name_prefix = "ParaSpace Derivative Token";
  variable_debt_token_name_prefix = "ParaSpace Variable Debt Token";
  symbol_prefix = "";
  provider_id = 1;
  auction_recovery_health_factor = 1500000000000000000;
  para_space_admin = none;
  emergency_admins = [];
  risk_admin = none;
  gateway_admin = none;
  para_space_admin_index = 4;
  emergency_admin_index = 3;
  risk_admin_index = 2;
  gateway_admin_index = 1;
  oracle = testnet_oracle_config;
  hot_wallet = zero_address;
  delegation_registry = zero_address;
  incentives_controller = zero_address;
  multisend = or_else env.multi_send zero_address;
  multisig = or_else env.multi_sig zero_address;
  para_space_v1 = [];
  para_space_team = "";
  treasury = "";
  tokens = [];
  yoga_labs = [];
  uniswap = [];
  bend_dao = [];
  stakefish = [];
  marketplace = [];
  chainlink = [];
  reserves_config = [];
}
