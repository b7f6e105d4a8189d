-- ===== src/Market/Configs/Moonbeam.antt =====
-- The configurations of market-config/index.ts: MoonbeamConfig, MoonbaseConfig.
use paraspace_core.Prelude.{[], some, ◌∷◌}
use paraspace_core.Market.{Environment, MarketConfig}
use paraspace_core.Market.Common.{common_config, moonbeam_oracle_config, or_else}
use paraspace_core.Market.Params.{
  strategy_exrp, strategy_stdot, strategy_usdcwh, strategy_wbtcwh, strategy_wethwh, strategy_wglmr,
  strategy_xcdot, strategy_xcusdt,
}

abbrev pub moonbeam_config : Environment → MarketConfig
moonbeam_config env = record (common_config env) {
  wrapped_native_token_id = "WGLMR";
  para_space_admin = some "0x4a84d250419697440FDCea4826E2421b84af69Fe";
  emergency_admins =
      "0x17816E9A858b161c3E37016D139cf618056CaCD4" ∷ "0x69FAD68De47D5666Ad668C7D682dDb8FD6322949"
      ∷ "0x2f2d07d60ea7330DD2314f4413CCbB2dC25276EF" ∷ "0x001e2bcC5c1BfC3131d33Ba074B12c2F1237FB04"
      ∷ "0x4a84d250419697440FDCea4826E2421b84af69Fe" ∷ "0x4AC3fD073786a971e1B8dE5a526959c9B3B2B407"
      ∷ [];
  risk_admin = some "0x4a84d250419697440FDCea4826E2421b84af69Fe";
  gateway_admin = some "0x4a84d250419697440FDCea4826E2421b84af69Fe";
  para_space_team = "0x4a84d250419697440FDCea4826E2421b84af69Fe";
  treasury = "0x4a84d250419697440FDCea4826E2421b84af69Fe";
  tokens =
      ("WGLMR", "0xAcc15dC74880C9944775448304B263D191c6077F")
      ∷ ("xcDOT", "0xFfFFfFff1FcaCBd218EDc0EbA20Fc2308C778080")
      ∷ ("xcUSDT", "0xFFFFFFfFea09FB06d082fd1275CD48b191cbCD1d")
      ∷ ("stDOT", "0xFA36Fe1dA08C89eC72Ea1F0143a35bFd5DAea108")
      ∷ ("USDC", "0x931715fee2d06333043d11f658c8ce934ac61d0c")
      ∷ ("WETH", "0xab3f0245b83feb11d15aaffefd7ad465a59817ed")
      ∷ ("WBTC", "0xe57ebd2d67b462e9926e04a8e33f01cd0d64346d")
      ∷ ("EXRP", "0x515e20e6275CEeFe19221FC53e77E38cc32b80Fb")
      ∷ [];
  yoga_labs = [];
  uniswap = [];
  marketplace = [];
  bend_dao = [];
  stakefish = [];
  chainlink =
      ("WGLMR", "0x4497B606be93e773bbA5eaCFCb2ac5E2214220Eb")
      ∷ ("xcDOT", "0x1466b4bD0C4B6B8e1164991909961e0EE6a66d8c")
      ∷ ("xcUSDT", "0xd925c5bf88bd0ca09312625d429240f811b437c6")
      ∷ ("stDOT", "0xd925c5bf88bd0ca09312625d429240f811b437c6")
      ∷ ("USDC", "0xa122591f60115d63421f66f752ef9f6e0bc73abc")
      ∷ ("WETH", "0x9ce2388a1696e22f870341c3fc1e89710c7569b5")
      ∷ ("WBTC", "0x8211b991d713ddae32326fd69e1e2510f4a653b0")
      ∷ [];
  reserves_config =
      ("xcDOT", strategy_xcdot)
      ∷ ("xcUSDT", strategy_xcusdt)
      ∷ ("stDOT", strategy_stdot)
      ∷ ("WGLMR", strategy_wglmr)
      ∷ ("USDC", strategy_usdcwh)
      ∷ ("WETH", strategy_wethwh)
      ∷ ("WBTC", strategy_wbtcwh)
      ∷ ("EXRP", strategy_exrp)
      ∷ [];
  oracle = moonbeam_oracle_config;
  multisend = or_else env.multi_send "0x40A2aCCbd92BCA938b02010E17A5b8929b49130D";
  multisig = or_else env.multi_sig "0x4a84d250419697440FDCea4826E2421b84af69Fe";
}

abbrev pub moonbase_config : Environment → MarketConfig
moonbase_config env = record (common_config env) {
  wrapped_native_token_id = "WGLMR";
  para_space_team = "0x018281853eCC543Aa251732e8FDaa7323247eBeB";
  treasury = "0x018281853eCC543Aa251732e8FDaa7323247eBeB";
  para_space_admin = some "0x018281853eCC543Aa251732e8FDaa7323247eBeB";
  emergency_admins = "0x018281853eCC543Aa251732e8FDaa7323247eBeB" ∷ [];
  risk_admin = some "0x018281853eCC543Aa251732e8FDaa7323247eBeB";
  gateway_admin = some "0x018281853eCC543Aa251732e8FDaa7323247eBeB";
  tokens = ("WGLMR", "0xD909178CC99d318e4D46e7E66a972955859670E1") ∷ [];
  yoga_labs = [];
  uniswap = [];
  marketplace = [];
  bend_dao = [];
  stakefish = [];
  chainlink = [];
  reserves_config =
      ("xcDOT", strategy_xcdot)
      ∷ ("xcUSDT", strategy_xcusdt)
      ∷ ("stDOT", strategy_stdot)
      ∷ ("WGLMR", strategy_wglmr)
      ∷ ("USDC", strategy_usdcwh)
      ∷ ("WETH", strategy_wethwh)
      ∷ ("WBTC", strategy_wbtcwh)
      ∷ ("EXRP", strategy_exrp)
      ∷ [];
  oracle = moonbeam_oracle_config;
}
