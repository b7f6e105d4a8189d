-- ===== src/Market/Configs/Rollups.antt =====
-- The configurations of market-config/index.ts: ZkSyncConfig, ZkSyncGoerliConfig, LineaConfig, LineaGoerliConfig.
use paraspace_core.Prelude.{[], some, ◌∷◌}
use paraspace_core.Market.{Environment, MarketConfig}
use paraspace_core.Market.Common.{common_config, linea_oracle_config, zk_sync_oracle_config}
use paraspace_core.Market.Params.{
  strategy_dai, strategy_frax, strategy_steth, strategy_usdc, strategy_usdt, strategy_wbtc,
  strategy_weth, strategy_wsteth,
}

abbrev pub zk_sync_config : Environment → MarketConfig
zk_sync_config env = record (common_config env) {
  para_space_admin = some "0x3BeD3C25415e4D980954Dc5FDe2e11D7fb22E582";
  emergency_admins =
      "0x17816E9A858b161c3E37016D139cf618056CaCD4" ∷ "0x69FAD68De47D5666Ad668C7D682dDb8FD6322949"
      ∷ "0x2f2d07d60ea7330DD2314f4413CCbB2dC25276EF" ∷ "0x001e2bcC5c1BfC3131d33Ba074B12c2F1237FB04"
      ∷ "0x4AC3fD073786a971e1B8dE5a526959c9B3B2B407" ∷ [];
  risk_admin = some "0x3BeD3C25415e4D980954Dc5FDe2e11D7fb22E582";
  gateway_admin = some "0x3BeD3C25415e4D980954Dc5FDe2e11D7fb22E582";
  para_space_team = "0x3BeD3C25415e4D980954Dc5FDe2e11D7fb22E582";
  treasury = "0x909e36B512Ed45250fdff513523119d825647695";
  tokens =
      ("WETH", "0x5bF39BdE21B95d77fb18F27bBCb07F3648720A2e")
      ∷ ("USDC", "0x3355df6D4c9C3035724Fd0e3914dE96A5a83aaf4")
      ∷ ("WBTC", "0xBBeB516fb02a01611cBBE0453Fe3c580D7281011")
      ∷ [];
  yoga_labs = [];
  uniswap = [];
  marketplace = [];
  bend_dao = [];
  stakefish = [];
  chainlink =
      ("WETH", "0x279dBcc7417DC8a73F9154fb640E2467209C8C34")
      ∷ ("USDC", "0x9Dc7257a0a21Ec3EAf0CbFB02fb01A2825a1e14e")
      ∷ ("WBTC", "0x1474A19D97A9e84A201d481c2F995513d3380412")
      ∷ [];
  reserves_config =
      ("USDC", strategy_usdc) ∷ ("WETH", strategy_weth) ∷ ("WBTC", strategy_wbtc) ∷ [];
  oracle = zk_sync_oracle_config;
}

abbrev pub zk_sync_goerli_config : Environment → MarketConfig
zk_sync_goerli_config env = record (common_config env) {
  para_space_team = "0x018281853eCC543Aa251732e8FDaa7323247eBeB";
  treasury = "0x018281853eCC543Aa251732e8FDaa7323247eBeB";
  para_space_admin = some "0x018281853eCC543Aa251732e8FDaa7323247eBeB";
  emergency_admins = "0x018281853eCC543Aa251732e8FDaa7323247eBeB" ∷ [];
  risk_admin = some "0x018281853eCC543Aa251732e8FDaa7323247eBeB";
  gateway_admin = some "0x018281853eCC543Aa251732e8FDaa7323247eBeB";
  tokens = [];
  yoga_labs = [];
  uniswap = [];
  marketplace = [];
  bend_dao = [];
  stakefish = [];
  chainlink = [];
  reserves_config =
      ("DAI", strategy_dai)
      ∷ ("USDC", strategy_usdc)
      ∷ ("USDT", strategy_usdt)
      ∷ ("FRAX", strategy_frax)
      ∷ ("WETH", strategy_weth)
      ∷ ("WBTC", strategy_wbtc)
      ∷ [];
  oracle = zk_sync_oracle_config;
}

abbrev pub linea_config : Environment → MarketConfig
linea_config env = record (common_config env) {
  para_space_team = "0x018281853eCC543Aa251732e8FDaa7323247eBeB";
  treasury = "0x018281853eCC543Aa251732e8FDaa7323247eBeB";
  para_space_admin = some "0x018281853eCC543Aa251732e8FDaa7323247eBeB";
  emergency_admins = "0x018281853eCC543Aa251732e8FDaa7323247eBeB" ∷ [];
  risk_admin = some "0x018281853eCC543Aa251732e8FDaa7323247eBeB";
  gateway_admin = some "0x018281853eCC543Aa251732e8FDaa7323247eBeB";
  tokens = [];
  yoga_labs = [];
  uniswap = [];
  marketplace = [];
  bend_dao = [];
  stakefish = [];
  chainlink = [];
  reserves_config =
      ("DAI", strategy_dai)
      ∷ ("USDC", strategy_usdc)
      ∷ ("USDT", strategy_usdt)
      ∷ ("FRAX", strategy_frax)
      ∷ ("WETH", strategy_weth)
      ∷ ("WBTC", strategy_wbtc)
      ∷ ("stETH", strategy_steth)
      ∷ ("wstETH", strategy_wsteth)
      ∷ [];
  oracle = linea_oracle_config;
}

abbrev pub linea_goerli_config : Environment → MarketConfig
linea_goerli_config env = record (common_config env) {
  para_space_team = "0x018281853eCC543Aa251732e8FDaa7323247eBeB";
  treasury = "0x018281853eCC543Aa251732e8FDaa7323247eBeB";
  para_space_admin = some "0x018281853eCC543Aa251732e8FDaa7323247eBeB";
  emergency_admins = "0x018281853eCC543Aa251732e8FDaa7323247eBeB" ∷ [];
  risk_admin = some "0x018281853eCC543Aa251732e8FDaa7323247eBeB";
  gateway_admin = some "0x018281853eCC543Aa251732e8FDaa7323247eBeB";
  tokens = [];
  yoga_labs = [];
  uniswap = [];
  marketplace = [];
  bend_dao = [];
  stakefish = [];
  chainlink = [];
  reserves_config =
      ("DAI", strategy_dai)
      ∷ ("USDC", strategy_usdc)
      ∷ ("USDT", strategy_usdt)
      ∷ ("FRAX", strategy_frax)
      ∷ ("WETH", strategy_weth)
      ∷ ("WBTC", strategy_wbtc)
      ∷ [];
  oracle = linea_oracle_config;
}
