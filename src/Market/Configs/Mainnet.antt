-- ===== src/Market/Configs/Mainnet.antt =====
-- The configurations of market-config/index.ts: MainnetConfig.
use paraspace_core.Prelude.{[], some, ◌∷◌}
use paraspace_core.Market.{Environment, MarketConfig}
use paraspace_core.Market.Common.{common_config, mainnet_oracle_config, or_else}
use paraspace_core.Market.Params.{
  strategy_ape, strategy_aweth, strategy_azuki, strategy_bakc, strategy_bayc, strategy_beanz,
  strategy_blocks, strategy_blur, strategy_cape, strategy_cbeth, strategy_clonex, strategy_dai,
  strategy_degods, strategy_doodles, strategy_exp, strategy_frax, strategy_hvmtl, strategy_koda,
  strategy_mayc, strategy_meebits, strategy_moonbird, strategy_othr, strategy_pudgy_penguins,
  strategy_reth, strategy_sape, strategy_sewer, strategy_stakefish_validator, strategy_steth,
  strategy_u_bayc, strategy_u_ppg, strategy_uniswap_v3, strategy_usdc, strategy_usdt, strategy_vsl,
  strategy_wbtc, strategy_weth, strategy_wpunks, strategy_wsteth,
}

abbrev pub mainnet_config : Environment → MarketConfig
mainnet_config env = record (common_config env) {
  para_space_admin = some "0x19293FBec52F94165f903708a74513Dd6dFedd0a";
  emergency_admins =
      "0x17816E9A858b161c3E37016D139cf618056CaCD4" ∷ "0x69FAD68De47D5666Ad668C7D682dDb8FD6322949"
      ∷ "0x2f2d07d60ea7330DD2314f4413CCbB2dC25276EF" ∷ "0x001e2bcC5c1BfC3131d33Ba074B12c2F1237FB04"
      ∷ "0x4AC3fD073786a971e1B8dE5a526959c9B3B2B407" ∷ [];
  risk_admin = some "0x19293FBec52F94165f903708a74513Dd6dFedd0a";
  gateway_admin = some "0x19293FBec52F94165f903708a74513Dd6dFedd0a";
  para_space_team = "0x19293FBec52F94165f903708a74513Dd6dFedd0a";
  treasury = "0x19293FBec52F94165f903708a74513Dd6dFedd0a";
  tokens =
      ("WETH", "0xC02aaA39b223FE8D0A0e5C4F27eAD9083C756Cc2")
      ∷ ("stETH", "0xae7ab96520DE3A18E5e111B5EaAb095312D7fE84")
      ∷ ("wstETH", "0x7f39C581F595B53c5cb19bD0b3f8dA6c935E2Ca0")
      ∷ ("astETH", "0x1982b2f5814301d4e9a8b0201555376e62f82428")
      ∷ ("awstETH", "0x0B925eD163218f6662a35e0f0371Ac234f9E9371")
      ∷ ("bendETH", "0xeD1840223484483C0cb050E6fC344d1eBF0778a9")
      ∷ ("cbETH", "0xbe9895146f7af43049ca1c1ae358b0541ea49704")
      ∷ ("rETH", "0xae78736cd615f374d3085123a210448e74fc6393")
      ∷ ("aWETH", "0x030bA81f1c18d280636F32af80b9AAd02Cf0854e")
      ∷ ("USDC", "0xA0b86991c6218b36c1d19D4a2e9Eb0cE3606eB48")
      ∷ ("DAI", "0x6B175474E89094C44Da98b954EedeAC495271d0F")
      ∷ ("USDT", "0xdAC17F958D2ee523a2206206994597C13D831ec7")
      ∷ ("FRAX", "0x853d955acef822db058eb8505911ed77f175b99e")
      ∷ ("WBTC", "0x2260FAC5E5542a773Aa44fBCfeDf7C193bc2C599")
      ∷ ("APE", "0x4d224452801ACEd8B2F0aebE155379bb5D594381")
      ∷ ("BLUR", "0x5283D291DBCF85356A21bA090E6db59121208b44")
      ∷ ("BAYC", "0xBC4CA0EdA7647A8aB7C2061c2E118A18a936f13D")
      ∷ ("MAYC", "0x60E4d786628Fea6478F785A6d7e704777c86a7c6")
      ∷ ("BAKC", "0xba30E5F9Bb24caa003E9f2f0497Ad287FDF95623")
      ∷ ("PUNKS", "0xb47e3cd837dDF8e4c57F05d70Ab865de6e193BBB")
      ∷ ("WPUNKS", "0xb7F7F6C52F2e2fdb1963Eab30438024864c313F6")
      ∷ ("DOODLE", "0x8a90CAb2b38dba80c64b7734e58Ee1dB38B8992e")
      ∷ ("MOONBIRD", "0x23581767a106ae21c074b2276d25e5c3e136a68b")
      ∷ ("MEEBITS", "0x7bd29408f11d2bfc23c34f18275bbf23bb716bc7")
      ∷ ("AZUKI", "0xed5af388653567af2f388e6224dc7c4b3241c544")
      ∷ ("OTHR", "0x34d85c9cdeb23fa97cb08333b511ac86e1c4e258")
      ∷ ("CLONEX", "0x49cf6f5d44e70224e2e23fdcdd2c053f30ada28b")
      ∷ ("sAPE", "0x0000000000000000000000000000000000000001")
      ∷ ("UniswapV3", "0xC36442b4a4522E871399CD717aBDD847Ab11FE88")
      ∷ ("cETH", "0x4ddc2d193948926d02f9b1fe9e1daa0718270ed5")
      ∷ ("SEWER", "0x764AeebcF425d56800eF2c84F2578689415a2DAa")
      ∷ ("PPG", "0xbd3531da5cf5857e7cfaa92426877b022e612cf8")
      ∷ ("SFVLDR", "0xffff2d93c83d4c613ed68ca887f057651135e089")
      ∷ ("HVMTL", "0x4b15a9c28034dC83db40CD810001427d3BD7163D")
      ∷ ("BEANZ", "0x306b1ea3ecdf94ab739f1910bbda052ed4a9f949")
      ∷ ("DEGODS", "0x8821bee2ba0df28761afff119d66390d594cd280")
      ∷ ("EXP", "0x790b2cf29ed4f310bf7641f013c65d4560d28371")
      ∷ ("VSL", "0x5b1085136a811e55b2bb2ca1ea456ba82126a376")
      ∷ ("KODA", "0xe012baf811cf9c05c408e879c399960d1f305903")
      ∷ ("BLOCKS", "0x059EDD72Cd353dF5106D2B9cC5ab83a52287aC3a")
      ∷ ("uBAYC", "0x1e610de0d7acfa1d820024948a91d96c5c9ce6b9")
      ∷ ("uPPG", "0x30F7c830e0C2f4bEC871DF809D73E27eF19EB151")
      ∷ [];
  yoga_labs = ("ApeCoinStaking", "0x5954aB967Bc958940b7EB73ee84797Dc8a2AFbb9") ∷ [];
  uniswap =
      ("V2Factory", "0x5C69bEe701ef814a2B6a3EDD4B1652CB9cc5aA6f")
      ∷ ("V2Router", "0x7a250d5630B4cF539739dF2C5dAcb4c659F2488D")
      ∷ ("V3Factory", "0x1F98431c8aD98523631AE4a59f267346ea31F984")
      ∷ ("V3Router", "0xE592427A0AEce92De3Edee1F18E0157C05861564")
      ∷ ("V3NFTPositionManager", "0xC36442b4a4522E871399CD717aBDD847Ab11FE88")
      ∷ [];
  marketplace = ("Seaport", "0x00000000000000ADc04C56Bf30aC9d3c0aAF14dC") ∷ [];
  bend_dao =
      ("LendingPool", "0x70b97a0da65c15dfb0ffa02aee6fa36e507c2762")
      ∷ ("LendingPoolLoan", "0x5f6ac80CdB9E87f3Cfa6a90E5140B9a16A361d5C")
      ∷ [];
  stakefish = ("StakefishManager", "0xffff2d93c83d4c613ed68ca887f057651135e089") ∷ [];
  chainlink =
      ("WETH", "0x5f4eC3Df9cbd43714FE2740f5E3616155c5b8419")
      ∷ ("rETH", "0xFCbf6B66dED63D6a8231dB091c16a3481d2E8890")
      ∷ ("aWETH", "0x549945De284a8cc102D49cE28683ee9E87edE3E3")
      ∷ ("stETH", "0x86392dC19c0b719886221c78AB11eb8Cf5c52812")
      ∷ ("astETH", "0x86392dC19c0b719886221c78AB11eb8Cf5c52812")
      ∷ ("wstETH", "0x1d05d899c3AC6CfA35D50c063325ccA39727c7c8")
      ∷ ("awstETH", "0x1d05d899c3AC6CfA35D50c063325ccA39727c7c8")
      ∷ ("cbETH", "0xf017fcb346a1885194689ba23eff2fe6fa5c483b")
      ∷ ("DAI", "0x773616E4d11A78F511299002da57A0a94577F1f4")
      ∷ ("USDC", "0x986b5E1e1755e3C2440e960477f25201B0a8bbD4")
      ∷ ("USDT", "0xEe9F2375b4bdF6387aa8265dD4FB8F16512A1d46")
      ∷ ("FRAX", "0x14d04fff8d21bd62987a5ce9ce543d2f1edf5d3e")
      ∷ ("WBTC", "0xdeb288F737066589598e9214E782fa5A8eD689e8")
      ∷ ("APE", "0xc7de7f4d4C9c991fF62a07D18b3E31e349833A18")
      ∷ ("sAPE", "0xc7de7f4d4C9c991fF62a07D18b3E31e349833A18")
      ∷ ("cAPE", "0xc7de7f4d4C9c991fF62a07D18b3E31e349833A18")
      ∷ ("yAPE", "0xc7de7f4d4C9c991fF62a07D18b3E31e349833A18")
      ∷ ("BLUR", "0x32A880E831814CfD55dC556645Ef06816fE9bE02")
      ∷ ("AZUKI", "0xA8B9A447C73191744D5B79BcE864F343455E1150")
      ∷ ("BAYC", "0x352f2Bc3039429fC2fe62004a1575aE74001CfcE")
      ∷ ("BAKC", "0x393aecF5EAABB009989D629CB33933A3aE201903")
      ∷ ("CLONEX", "0x021264d59DAbD26E7506Ee7278407891Bb8CDCCc")
      ∷ ("WPUNKS", "0x01B6710B01cF3dd8Ae64243097d91aFb03728Fdd")
      ∷ ("DOODLE", "0x027828052840a43Cc2D0187BcfA6e3D6AcE60336")
      ∷ ("MAYC", "0x1823C89715Fe3fB96A24d11c917aCA918894A090")
      ∷ ("MOONBIRD", "0x9cd36E0E8D3C27d630D00406ACFC3463154951Af")
      ∷ ("UniswapV3", "0xAf7508f0ccFffFd0BE5D3EC6304CF6258a852de5")
      ∷ ("SFVLDR", "0x2d21Da8e041E82253e3cbE2012D4d59d46F3c1f2")
      ∷ ("SEWER", "0x6D09f55aae5489D664203Fb8aD72A8d520A87470")
      ∷ [];
  reserves_config =
      ("DAI", strategy_dai)
      ∷ ("USDC", strategy_usdc)
      ∷ ("USDT", strategy_usdt)
      ∷ ("FRAX", strategy_frax)
      ∷ ("WETH", strategy_weth)
      ∷ ("aWETH", strategy_aweth)
      ∷ ("stETH", strategy_steth)
      ∷ ("wstETH", strategy_wsteth)
      ∷ ("cbETH", strategy_cbeth)
      ∷ ("rETH", strategy_reth)
      ∷ ("APE", strategy_ape)
      ∷ ("WBTC", strategy_wbtc)
      ∷ ("BLUR", strategy_blur)
      ∷ ("DOODLE", strategy_doodles)
      ∷ ("BAYC", strategy_bayc)
      ∷ ("MAYC", strategy_mayc)
      ∷ ("WPUNKS", strategy_wpunks)
      ∷ ("MOONBIRD", strategy_moonbird)
      ∷ ("MEEBITS", strategy_meebits)
      ∷ ("AZUKI", strategy_azuki)
      ∷ ("OTHR", strategy_othr)
      ∷ ("CLONEX", strategy_clonex)
      ∷ ("sAPE", strategy_sape)
      ∷ ("cAPE", strategy_cape)
      ∷ ("UniswapV3", strategy_uniswap_v3)
      ∷ ("BAKC", strategy_bakc)
      ∷ ("SEWER", strategy_sewer)
      ∷ ("PPG", strategy_pudgy_penguins)
      ∷ ("SFVLDR", strategy_stakefish_validator)
      ∷ ("HVMTL", strategy_hvmtl)
      ∷ ("BEANZ", strategy_beanz)
      ∷ ("DEGODS", strategy_degods)
      ∷ ("EXP", strategy_exp)
      ∷ ("VSL", strategy_vsl)
      ∷ ("KODA", strategy_koda)
      ∷ ("BLOCKS", strategy_blocks)
      ∷ ("uBAYC", strategy_u_bayc)
      ∷ ("uPPG", strategy_u_ppg)
      ∷ [];
  oracle = mainnet_oracle_config;
  hot_wallet = "0xC3AA9bc72Bd623168860a1e5c6a4530d3D80456c";
  delegation_registry = "0x00000000000000447e69651d841bD8D104Bed493";
  multisend = or_else env.multi_send "0x40A2aCCbd92BCA938b02010E17A5b8929b49130D";
  multisig = or_else env.multi_sig "0x19293FBec52F94165f903708a74513Dd6dFedd0a";
  para_space_v1 =
      ("PoolV1", "0x638a98BBB92a7582d07C52ff407D49664DC8b3Ee")
      ∷ ("ProtocolDataProviderV1", "0xbc88150EbEFDa53fb61F4C59E98d0dE5EBbB8CD3")
      ∷ ("CApeV1", "0xC5c9fB6223A989208Df27dCEE33fC59ff5c26fFF")
      ∷ ("TimeLockV1", "0x59B72FdB45B3182c8502cC297167FE4f821f332d")
      ∷ ("P2PPairStakingV1", "0xf090Eb4c2B63e7B26E8Bb09e6Fc0cC3A7586263B")
      ∷ [];
}
