-- ===== src/Market/Configs/Polygon.antt =====
-- The configurations of market-config/index.ts: PolygonConfig, PolygonMumbaiConfig, PolygonZkevmConfig, PolygonZkevmGoerliConfig.
use paraspace_core.Prelude.{[], some, ◌∷◌}
use paraspace_core.Market.{Environment, MarketConfig}
use paraspace_core.Market.Common.{common_config, or_else, polygon_oracle_config}
use paraspace_core.Market.Params.{
  strategy_aave, strategy_bal, strategy_crv, strategy_dai, strategy_frax, strategy_link,
  strategy_steth, strategy_stmatic, strategy_uni, strategy_uniswap_v3, strategy_usdc, strategy_usdt,
  strategy_wbtc, strategy_weth, strategy_wmatic, strategy_wsteth,
}

abbrev pub polygon_config : Environment → MarketConfig
polygon_config env = record (common_config env) {
  wrapped_native_token_id = "WMATIC";
  para_space_admin = some "0xeeE8Fd9B887ee57CAf2905851175470c03DE64F6";
  emergency_admins =
      "0x17816E9A858b161c3E37016D139cf618056CaCD4" ∷ "0x69FAD68De47D5666Ad668C7D682dDb8FD6322949"
      ∷ "0x2f2d07d60ea7330DD2314f4413CCbB2dC25276EF" ∷ "0x001e2bcC5c1BfC3131d33Ba074B12c2F1237FB04"
      ∷ "0xeeE8Fd9B887ee57CAf2905851175470c03DE64F6" ∷ "0x4AC3fD073786a971e1B8dE5a526959c9B3B2B407"
      ∷ [];
  risk_admin = some "0xeeE8Fd9B887ee57CAf2905851175470c03DE64F6";
  gateway_admin = some "0xeeE8Fd9B887ee57CAf2905851175470c03DE64F6";
  para_space_team = "0xeeE8Fd9B887ee57CAf2905851175470c03DE64F6";
  treasury = "0xeeE8Fd9B887ee57CAf2905851175470c03DE64F6";
  tokens =
      ("WMATIC", "0x0d500b1d8e8ef31e21c99d1db9a6444d3adf1270")
      ∷ ("stMATIC", "0x3a58a54c066fdc0f2d55fc9c89f0415c92ebf3c4")
      ∷ ("WETH", "0x7ceB23fD6bC0adD59E62ac25578270cFf1b9f619")
      ∷ ("WBTC", "0x1BFD67037B42Cf73acF2047067bd4F2C47D9BfD6")
      ∷ ("USDT", "0xc2132D05D31c914a87C6611C10748AEb04B58e8F")
      ∷ ("USDC", "0x2791bca1f2de4661ed88a30c99a7a9449aa84174")
      ∷ ("DAI", "0x8f3Cf7ad23Cd3CaDbD9735AFf958023239c6A063")
      ∷ ("UNI", "0xb33EaAd8d922B1083446DC23f610c2567fB5180f")
      ∷ ("LINK", "0x53E0bca35eC356BD5ddDFebbD1Fc0fD03FaBad39")
      ∷ ("AAVE", "0xD6DF932A45C0f255f85145f286eA0b292B21C90B")
      ∷ ("BAL", "0x9a71012B13CA4d3D0Cdc72A177DF3ef03b0E76A3")
      ∷ ("CRV", "0x172370d5Cd63279eFa6d502DAB29171933a610AF")
      ∷ ("UniswapV3", "0xc36442b4a4522e871399cd717abdd847ab11fe88")
      ∷ [];
  yoga_labs = [];
  uniswap =
      ("V3Factory", "0x1F98431c8aD98523631AE4a59f267346ea31F984")
      ∷ ("V3NFTPositionManager", "0xc36442b4a4522e871399cd717abdd847ab11fe88")
      ∷ ("V3Router", "0x68b3465833fb72A70ecDF485E0e4C7bD8665Fc45")
      ∷ [];
  marketplace = ("Seaport", "0x00000000000000ADc04C56Bf30aC9d3c0aAF14dC") ∷ [];
  bend_dao = [];
  stakefish = [];
  chainlink =
      ("DAI", "0x4746dec9e833a82ec7c2c1356372ccf2cfcd2f3d")
      ∷ ("USDT", "0x0a6513e40db6eb1b165753ad52e80663aea50545")
      ∷ ("USDC", "0xfe4a8cc5b5b2366c1b58bea3858e81843581b2f7")
      ∷ ("WETH", "0xf9680d99d6c9589e2a93a78a04a279e509205945")
      ∷ ("WBTC", "0xc907e116054ad103354f2d350fd2514433d57f6f")
      ∷ ("WMATIC", "0xab594600376ec9fd91f8e885dadf0ce036862de0")
      ∷ ("LINK", "0xd9ffdb71ebe7496cc440152d43986aae0ab76665")
      ∷ ("UNI", "0xdf0fb4e4f928d2dcb76f438575fdd8682386e13c")
      ∷ ("AAVE", "0x72484b12719e23115761d5da1646945632979bb6")
      ∷ ("BAL", "0xd106b538f2a868c28ca1ec7e298c3325e0251d66")
      ∷ ("CRV", "0x336584C8E6Dc19637A5b36206B1c79923111b405")
      ∷ ("stMATIC", "0xEe96b77129cF54581B5a8FECCcC50A6A067034a1")
      ∷ [];
  reserves_config =
      ("DAI", strategy_dai)
      ∷ ("USDT", strategy_usdt)
      ∷ ("USDC", strategy_usdc)
      ∷ ("WETH", strategy_weth)
      ∷ ("WBTC", strategy_wbtc)
      ∷ ("WMATIC", strategy_wmatic)
      ∷ ("stMATIC", strategy_stmatic)
      ∷ ("AAVE", strategy_aave)
      ∷ ("LINK", strategy_link)
      ∷ ("BAL", strategy_bal)
      ∷ ("UNI", strategy_uni)
      ∷ ("CRV", strategy_crv)
      ∷ ("UniswapV3", strategy_uniswap_v3)
      ∷ [];
  oracle = polygon_oracle_config;
  multisend = or_else env.multi_send "0x40A2aCCbd92BCA938b02010E17A5b8929b49130D";
  multisig = or_else env.multi_sig "0xeeE8Fd9B887ee57CAf2905851175470c03DE64F6";
}

abbrev pub polygon_mumbai_config : Environment → MarketConfig
polygon_mumbai_config env = record (common_config env) {
  wrapped_native_token_id = "WMATIC";
  para_space_team = "0x018281853eCC543Aa251732e8FDaa7323247eBeB";
  treasury = "0x018281853eCC543Aa251732e8FDaa7323247eBeB";
  para_space_admin = some "0x018281853eCC543Aa251732e8FDaa7323247eBeB";
  emergency_admins = "0x018281853eCC543Aa251732e8FDaa7323247eBeB" ∷ [];
  risk_admin = some "0x018281853eCC543Aa251732e8FDaa7323247eBeB";
  gateway_admin = some "0x018281853eCC543Aa251732e8FDaa7323247eBeB";
  tokens =
      ("WETH", "0xA6FA4fB5f76172d178d61B04b0ecd319C5d1C0aa")
      ∷ ("WMATIC", "0x9c3C9283D3e44854697Cd22D3Faa240Cfb032889")
      ∷ ("UniswapV3", "0xc36442b4a4522e871399cd717abdd847ab11fe88")
      ∷ [];
  yoga_labs = [];
  uniswap =
      ("V3Factory", "0x1F98431c8aD98523631AE4a59f267346ea31F984")
      ∷ ("V3NFTPositionManager", "0xc36442b4a4522e871399cd717abdd847ab11fe88")
      ∷ ("V3Router", "0x68b3465833fb72A70ecDF485E0e4C7bD8665Fc45")
      ∷ [];
  marketplace = [];
  bend_dao = [];
  stakefish = [];
  chainlink = [];
  reserves_config =
      ("DAI", strategy_dai)
      ∷ ("USDC", strategy_usdc)
      ∷ ("USDT", strategy_usdt)
      ∷ ("FRAX", strategy_frax)
      ∷ ("WETH", strategy_weth)
      ∷ ("WBTC", strategy_wbtc)
      ∷ ("stETH", strategy_steth)
      ∷ ("wstETH", strategy_wsteth)
      ∷ ("stMATIC", strategy_stmatic)
      ∷ ("WMATIC", strategy_wmatic)
      ∷ ("CRV", strategy_crv)
      ∷ ("UniswapV3", strategy_uniswap_v3)
      ∷ [];
  oracle = polygon_oracle_config;
}

abbrev pub polygon_zkevm_config : Environment → MarketConfig
polygon_zkevm_config env = record (common_config env) {
  para_space_team = "0x018281853eCC543Aa251732e8FDaa7323247eBeB";
  treasury = "0x018281853eCC543Aa251732e8FDaa7323247eBeB";
  para_space_admin = some "0x018281853eCC543Aa251732e8FDaa7323247eBeB";
  emergency_admins = "0x018281853eCC543Aa251732e8FDaa7323247eBeB" ∷ [];
  risk_admin = some "0x018281853eCC543Aa251732e8FDaa7323247eBeB";
  gateway_admin = some "0x018281853eCC543Aa251732e8FDaa7323247eBeB";
  tokens = [];
  yoga_labs = [];
  uniswap = [];
  marketplace = [];
  bend_dao = [];
  stakefish = [];
  chainlink = [];
  reserves_config =
      ("DAI", strategy_dai)
      ∷ ("USDC", strategy_usdc)
      ∷ ("USDT", strategy_usdt)
      ∷ ("FRAX", strategy_frax)
      ∷ ("WETH", strategy_weth)
      ∷ ("WBTC", strategy_wbtc)
      ∷ ("stETH", strategy_steth)
      ∷ ("wstETH", strategy_wsteth)
      ∷ ("WMATIC", strategy_wmatic)
      ∷ ("stMATIC", strategy_stmatic)
      ∷ ("CRV", strategy_crv)
      ∷ ("UniswapV3", strategy_uniswap_v3)
      ∷ [];
  oracle = polygon_oracle_config;
}

abbrev pub polygon_zkevm_goerli_config : Environment → MarketConfig
polygon_zkevm_goerli_config env = record (common_config env) {
  para_space_team = "0x018281853eCC543Aa251732e8FDaa7323247eBeB";
  treasury = "0x018281853eCC543Aa251732e8FDaa7323247eBeB";
  para_space_admin = some "0x018281853eCC543Aa251732e8FDaa7323247eBeB";
  emergency_admins = "0x018281853eCC543Aa251732e8FDaa7323247eBeB" ∷ [];
  risk_admin = some "0x018281853eCC543Aa251732e8FDaa7323247eBeB";
  gateway_admin = some "0x018281853eCC543Aa251732e8FDaa7323247eBeB";
  tokens = [];
  yoga_labs = [];
  uniswap = [];
  marketplace = [];
  bend_dao = [];
  stakefish = [];
  chainlink = [];
  reserves_config =
      ("DAI", strategy_dai)
      ∷ ("USDC", strategy_usdc)
      ∷ ("USDT", strategy_usdt)
      ∷ ("FRAX", strategy_frax)
      ∷ ("WETH", strategy_weth)
      ∷ ("WBTC", strategy_wbtc)
      ∷ ("stETH", strategy_steth)
      ∷ ("wstETH", strategy_wsteth)
      ∷ ("WMATIC", strategy_wmatic)
      ∷ ("stMATIC", strategy_stmatic)
      ∷ ("CRV", strategy_crv)
      ∷ ("UniswapV3", strategy_uniswap_v3)
      ∷ [];
  oracle = polygon_oracle_config;
}
