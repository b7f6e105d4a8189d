-- ===== src/Market/Configs/Arbitrum.antt =====
-- The configurations of market-config/index.ts: ArbitrumConfig, ArbitrumGoerliConfig, ArbitrumSepoliaConfig, ParallelDevConfig.
use paraspace_core.Prelude.{[], some, ◌∷◌}
use paraspace_core.Market.{Environment, MarketConfig}
use paraspace_core.Market.Common.{arbitrum_oracle_config, common_config, or_else}
use paraspace_core.Market.Params.{
  strategy_aave, strategy_arb, strategy_azuki, strategy_bal, strategy_blocks, strategy_blur,
  strategy_clonex, strategy_dai, strategy_doodles, strategy_frax, strategy_gmx, strategy_link,
  strategy_meebits, strategy_moonbird, strategy_othr, strategy_pudgy_penguins, strategy_punk,
  strategy_rdnt, strategy_sewer, strategy_steth, strategy_uni, strategy_uniswap_v3, strategy_usdc,
  strategy_usdt, strategy_wbtc, strategy_weth, strategy_wpunks, strategy_wsteth,
}

abbrev pub arbitrum_config : Environment → MarketConfig
arbitrum_config env = record (common_config env) {
  para_space_admin = some "0x1aD5db7e9fcdc6052A8362633E7CEaf80f623741";
  emergency_admins =
      "0x17816E9A858b161c3E37016D139cf618056CaCD4" ∷ "0x69FAD68De47D5666Ad668C7D682dDb8FD6322949"
      ∷ "0x2f2d07d60ea7330DD2314f4413CCbB2dC25276EF" ∷ "0x001e2bcC5c1BfC3131d33Ba074B12c2F1237FB04"
      ∷ "0x4AC3fD073786a971e1B8dE5a526959c9B3B2B407" ∷ [];
  risk_admin = some "0x1aD5db7e9fcdc6052A8362633E7CEaf80f623741";
  gateway_admin = some "0x1aD5db7e9fcdc6052A8362633E7CEaf80f623741";
  para_space_team = "0x1aD5db7e9fcdc6052A8362633E7CEaf80f623741";
  treasury = "0x1aD5db7e9fcdc6052A8362633E7CEaf80f623741";
  tokens =
      ("WETH", "0x82aF49447D8a07e3bd95BD0d56f35241523fBab1")
      ∷ ("wstETH", "0x5979d7b546e38e414f7e9822514be443a4800529")
      ∷ ("USDC", "0xFF970A61A04b1cA14834A43f5dE4533eBDDB5CC8")
      ∷ ("DAI", "0xDA10009cBd5D07dd0CeCc66161FC93D7c9000da1")
      ∷ ("USDT", "0xFd086bC7CD5C481DCC9C85ebE478A1C0b69FCbb9")
      ∷ ("FRAX", "0x17FC002b466eEc40DaE837Fc4bE5c67993ddBd6F")
      ∷ ("WBTC", "0x2f2a2543b76a4166549f7aab2e75bef0aefc5b0f")
      ∷ ("ARB", "0x912ce59144191c1204e64559fe8253a0e49e6548")
      ∷ ("GMX", "0xfc5a1a6eb076a2c7ad06ed22c90d7e710e35ad0a")
      ∷ ("BAL", "0x040d1edc9569d4bab2d15287dc5a4f10f56a56b8")
      ∷ ("AAVE", "0xba5ddd1f9d7f570dc94a51479a000e3bce967196")
      ∷ ("LINK", "0xf97f4df75117a78c1a5a0dbb814af92458539fb4")
      ∷ ("UNI", "0xfa7f8980b0f1e64a2062791cc3b0871572f1f7f0")
      ∷ ("RDNT", "0x3082cc23568ea640225c2467653db90e9250aaa0")
      ∷ ("UniswapV3", "0xC36442b4a4522E871399CD717aBDD847Ab11FE88")
      ∷ [];
  yoga_labs = [];
  uniswap =
      ("V3Factory", "0x1F98431c8aD98523631AE4a59f267346ea31F984")
      ∷ ("V3Router", "0x4c60051384bd2d3c01bfc845cf5f4b44bcbe9de5")
      ∷ ("V3NFTPositionManager", "0xC36442b4a4522E871399CD717aBDD847Ab11FE88")
      ∷ [];
  marketplace = ("Seaport", "0x00000000000000ADc04C56Bf30aC9d3c0aAF14dC") ∷ [];
  bend_dao = [];
  stakefish = [];
  chainlink =
      ("WETH", "0x639fe6ab55c921f74e7fac1ee960c0b6293ba612")
      ∷ ("wstETH", "0x230E0321Cf38F09e247e50Afc7801EA2351fe56F")
      ∷ ("DAI", "0xc5c8e77b397e531b8ec06bfb0048328b30e9ecfb")
      ∷ ("USDC", "0x50834f3163758fcc1df9973b6e91f0f0f0434ad3")
      ∷ ("USDT", "0x3f3f5df88dc9f13eac63df89ec16ef6e7e25dde7")
      ∷ ("FRAX", "0x0809e3d38d1b4214958faf06d8b1b1a2b73f2ab8")
      ∷ ("WBTC", "0xd0c7101eacbb49f3decccc166d238410d6d46d57")
      ∷ ("ARB", "0xb2a824043730fe05f3da2efafa1cbbe83fa548d6")
      ∷ ("GMX", "0xdb98056fecfff59d032ab628337a4887110df3db")
      ∷ ("LINK", "0x86e53cf1b870786351da77a57575e79cb55812cb")
      ∷ ("UNI", "0x9c917083fdb403ab5adbec26ee294f6ecada2720")
      ∷ ("AAVE", "0xad1d5344aade45f43e596773bcc4c423eabdd034")
      ∷ ("BAL", "0xbe5ea816870d11239c543f84b71439511d70b94f")
      ∷ ("RDNT", "0x20d0fcab0ecfd078b036b6caf1fac69a6453b352")
      ∷ [];
  reserves_config =
      ("DAI", strategy_dai)
      ∷ ("USDC", strategy_usdc)
      ∷ ("USDT", strategy_usdt)
      ∷ ("FRAX", strategy_frax)
      ∷ ("WETH", strategy_weth)
      ∷ ("wstETH", strategy_wsteth)
      ∷ ("WBTC", strategy_wbtc)
      ∷ ("BAL", strategy_bal)
      ∷ ("LINK", strategy_link)
      ∷ ("AAVE", strategy_aave)
      ∷ ("UNI", strategy_uni)
      ∷ ("RDNT", strategy_rdnt)
      ∷ ("GMX", strategy_gmx)
      ∷ ("ARB", strategy_arb)
      ∷ ("UniswapV3", strategy_uniswap_v3)
      ∷ [];
  oracle = arbitrum_oracle_config;
  multisend = or_else env.multi_send "0x40A2aCCbd92BCA938b02010E17A5b8929b49130D";
  multisig = or_else env.multi_sig "0x1aD5db7e9fcdc6052A8362633E7CEaf80f623741";
}

abbrev pub arbitrum_goerli_config : Environment → MarketConfig
arbitrum_goerli_config env = record (common_config env) {
  para_space_team = "0x018281853eCC543Aa251732e8FDaa7323247eBeB";
  treasury = "0x018281853eCC543Aa251732e8FDaa7323247eBeB";
  para_space_admin = some "0x018281853eCC543Aa251732e8FDaa7323247eBeB";
  emergency_admins = "0x018281853eCC543Aa251732e8FDaa7323247eBeB" ∷ [];
  risk_admin = some "0x018281853eCC543Aa251732e8FDaa7323247eBeB";
  gateway_admin = some "0x018281853eCC543Aa251732e8FDaa7323247eBeB";
  tokens =
      ("WETH", "0xe39ab88f8a4777030a534146a9ca3b52bd5d43a3")
      ∷ ("UniswapV3", "0x622e4726a167799826d1e1d150b076a7725f5d81")
      ∷ [];
  yoga_labs = [];
  uniswap =
      ("V3Factory", "0x4893376342d5d7b3e31d4184c08b265e5ab2a3f6")
      ∷ ("V3NFTPositionManager", "0x622e4726a167799826d1e1d150b076a7725f5d81")
      ∷ ("V3Router", "0x4648a43B2C14Da09FdF82B161150d3F634f40491")
      ∷ [];
  marketplace = [];
  bend_dao = [];
  stakefish = [];
  chainlink =
      ("WETH", "0x62CAe0FA2da220f43a51F86Db2EDb36DcA9A5A08")
      ∷ ("WBTC", "0x6550bc2301936011c1334555e62A87705A81C12C")
      ∷ ("DAI", "0x103b53E977DA6E4Fa92f76369c8b7e20E7fb7fe1")
      ∷ ("USDC", "0x1692Bdd32F31b831caAc1b0c9fAF68613682813b")
      ∷ ("USDT", "0x0a023a3423D9b27A0BE48c768CCF2dD7877fEf5E")
      ∷ [];
  reserves_config =
      ("DAI", strategy_dai)
      ∷ ("USDC", strategy_usdc)
      ∷ ("USDT", strategy_usdt)
      ∷ ("FRAX", strategy_frax)
      ∷ ("WETH", strategy_weth)
      ∷ ("WBTC", strategy_wbtc)
      ∷ ("stETH", strategy_steth)
      ∷ ("wstETH", strategy_wsteth)
      ∷ ("GMX", strategy_gmx)
      ∷ ("ARB", strategy_arb)
      ∷ ("BAL", strategy_bal)
      ∷ ("LINK", strategy_link)
      ∷ ("AAVE", strategy_aave)
      ∷ ("UNI", strategy_uni)
      ∷ ("RDNT", strategy_rdnt)
      ∷ ("UniswapV3", strategy_uniswap_v3)
      ∷ [];
  oracle = arbitrum_oracle_config;
}

abbrev pub arbitrum_sepolia_config : Environment → MarketConfig
arbitrum_sepolia_config env = record (common_config env) {
  para_space_team = "0x018281853eCC543Aa251732e8FDaa7323247eBeB";
  treasury = "0x018281853eCC543Aa251732e8FDaa7323247eBeB";
  yoga_labs = [];
  uniswap = [];
  tokens = [];
  marketplace = [];
  chainlink = [];
  bend_dao = [];
  stakefish = [];
  reserves_config =
      ("DAI", strategy_dai)
      ∷ ("USDC", strategy_usdc)
      ∷ ("USDT", strategy_usdt)
      ∷ ("FRAX", strategy_frax)
      ∷ ("WETH", strategy_weth)
      ∷ ("WBTC", strategy_wbtc)
      ∷ ("PUNK", strategy_punk)
      ∷ ("BLUR", strategy_blur)
      ∷ ("DOODLE", strategy_doodles)
      ∷ ("WPUNKS", strategy_wpunks)
      ∷ ("MOONBIRD", strategy_moonbird)
      ∷ ("MEEBITS", strategy_meebits)
      ∷ ("AZUKI", strategy_azuki)
      ∷ ("OTHR", strategy_othr)
      ∷ ("CLONEX", strategy_clonex)
      ∷ ("BLOCKS", strategy_blocks)
      ∷ ("SEWER", strategy_sewer)
      ∷ ("PPG", strategy_pudgy_penguins)
      ∷ [];
}

abbrev pub parallel_dev_config : Environment → MarketConfig
parallel_dev_config env = record (common_config env) {
  para_space_team = "0x018281853eCC543Aa251732e8FDaa7323247eBeB";
  treasury = "0x018281853eCC543Aa251732e8FDaa7323247eBeB";
  yoga_labs = [];
  uniswap = [];
  tokens = [];
  marketplace = [];
  chainlink = [];
  bend_dao = [];
  stakefish = [];
  reserves_config =
      ("DAI", strategy_dai)
      ∷ ("USDC", strategy_usdc)
      ∷ ("USDT", strategy_usdt)
      ∷ ("FRAX", strategy_frax)
      ∷ ("WETH", strategy_weth)
      ∷ ("WBTC", strategy_wbtc)
      ∷ ("PUNK", strategy_punk)
      ∷ ("BLUR", strategy_blur)
      ∷ ("DOODLE", strategy_doodles)
      ∷ ("WPUNKS", strategy_wpunks)
      ∷ ("MOONBIRD", strategy_moonbird)
      ∷ ("MEEBITS", strategy_meebits)
      ∷ ("AZUKI", strategy_azuki)
      ∷ ("OTHR", strategy_othr)
      ∷ ("CLONEX", strategy_clonex)
      ∷ ("BLOCKS", strategy_blocks)
      ∷ ("SEWER", strategy_sewer)
      ∷ ("PPG", strategy_pudgy_penguins)
      ∷ [];
}
