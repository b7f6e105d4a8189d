-- ===== src/Market/Configs/Ethereum.antt =====
-- The configurations of market-config/index.ts: HardhatConfig, GoerliConfig.
use paraspace_core.Prelude.{[], some, ◌∷◌}
use paraspace_core.Market.{Environment, MarketConfig}
use paraspace_core.Market.Common.{common_config}
use paraspace_core.Market.Params.{
  strategy_ape, strategy_asteth, strategy_aweth, strategy_awsteth, strategy_azuki, strategy_bakc,
  strategy_bayc, strategy_beanz, strategy_bendeth, strategy_blocks, strategy_blur, strategy_cape,
  strategy_cbeth, strategy_ceth, strategy_clonex, strategy_dai, strategy_degods, strategy_doodles,
  strategy_exp, strategy_frax, strategy_hvmtl, strategy_koda, strategy_mayc, strategy_meebits,
  strategy_moonbird, strategy_othr, strategy_pudgy_penguins, strategy_punk, strategy_reth,
  strategy_sape, strategy_sewer, strategy_stakefish_validator, strategy_steth, strategy_u_bayc,
  strategy_u_ppg, strategy_uniswap_v3, strategy_usdc, strategy_usdt, strategy_vsl, strategy_wbtc,
  strategy_weth, strategy_wpunks, strategy_wsteth, strategy_yape,
}

abbrev pub hardhat_config : Environment → MarketConfig
hardhat_config env = record (common_config env) {
  para_space_team = "0xc783df8a850f42e7F7e57013759C285caa701eB6";
  treasury = "0xc783df8a850f42e7F7e57013759C285caa701eB6";
  tokens = ("sAPE", "0x0000000000000000000000000000000000000001") ∷ [];
  yoga_labs = [];
  uniswap = [];
  marketplace = [];
  chainlink = [];
  bend_dao = [];
  stakefish = [];
  reserves_config =
      ("DAI", strategy_dai)
      ∷ ("USDC", strategy_usdc)
      ∷ ("USDT", strategy_usdt)
      ∷ ("FRAX", strategy_frax)
      ∷ ("WETH", strategy_weth)
      ∷ ("APE", strategy_ape)
      ∷ ("WBTC", strategy_wbtc)
      ∷ ("stETH", strategy_steth)
      ∷ ("wstETH", strategy_wsteth)
      ∷ ("aWETH", strategy_aweth)
      ∷ ("cETH", strategy_ceth)
      ∷ ("PUNK", strategy_punk)
      ∷ ("BLUR", strategy_blur)
      ∷ ("DOODLE", strategy_doodles)
      ∷ ("BAYC", strategy_bayc)
      ∷ ("MAYC", strategy_mayc)
      ∷ ("WPUNKS", strategy_wpunks)
      ∷ ("MOONBIRD", strategy_moonbird)
      ∷ ("MEEBITS", strategy_meebits)
      ∷ ("AZUKI", strategy_azuki)
      ∷ ("OTHR", strategy_othr)
      ∷ ("CLONEX", strategy_clonex)
      ∷ ("UniswapV3", strategy_uniswap_v3)
      ∷ ("sAPE", strategy_sape)
      ∷ ("cAPE", strategy_cape)
      ∷ ("yAPE", strategy_yape)
      ∷ ("BAKC", strategy_bakc)
      ∷ ("BLOCKS", strategy_blocks)
      ∷ ("SEWER", strategy_sewer)
      ∷ ("PPG", strategy_pudgy_penguins)
      ∷ ("SFVLDR", strategy_stakefish_validator)
      ∷ [];
}

abbrev pub goerli_config : Environment → MarketConfig
goerli_config env = record (common_config env) {
  para_space_team = "0x018281853eCC543Aa251732e8FDaa7323247eBeB";
  treasury = "0x018281853eCC543Aa251732e8FDaa7323247eBeB";
  para_space_admin = some "0x018281853eCC543Aa251732e8FDaa7323247eBeB";
  emergency_admins = "0x018281853eCC543Aa251732e8FDaa7323247eBeB" ∷ [];
  risk_admin = some "0x018281853eCC543Aa251732e8FDaa7323247eBeB";
  gateway_admin = some "0x018281853eCC543Aa251732e8FDaa7323247eBeB";
  tokens =
      ("APE", "0x328507DC29C95c170B56a1b3A758eB7a9E73455c")
      ∷ ("BAYC", "0xF40299b626ef6E197F5d9DE9315076CAB788B6Ef")
      ∷ ("MAYC", "0x3f228cBceC3aD130c45D21664f2C7f5b23130d23")
      ∷ ("BAKC", "0xd60d682764Ee04e54707Bee7B564DC65b31884D0")
      ∷ ("sAPE", "0x0000000000000000000000000000000000000001")
      ∷ ("WETH", "0xB4FBF271143F4FBf7B91A5ded31805e42b2208d6")
      ∷ ("aWETH", "0x7649e0d153752c556b8b23DB1f1D3d42993E83a5")
      ∷ ("bendETH", "0x57FEbd640424C85b72b4361fE557a781C8d2a509")
      ∷ ("UniswapV3", "0xC36442b4a4522E871399CD717aBDD847Ab11FE88")
      ∷ ("PPG", "0xf140558cA4d4e10f63661504D4F3f74FADDDe3E8")
      ∷ ("SEWER", "0x3aa026cd539fa1f6ae58ae238a10e2f1cf831454")
      ∷ ("SFVLDR", "0x5b41ffb9c448c02ff3d0401b0374b67efcb73c7e")
      ∷ [];
  yoga_labs =
      ("ApeCoinStaking", "0xeF37717B1807a253c6D140Aca0141404D23c26D4")
      ∷ ("BAKC", "0xd60d682764Ee04e54707Bee7B564DC65b31884D0")
      ∷ [];
  uniswap =
      ("V2Factory", "0x5C69bEe701ef814a2B6a3EDD4B1652CB9cc5aA6f")
      ∷ ("V2Router", "0x7a250d5630B4cF539739dF2C5dAcb4c659F2488D")
      ∷ ("V3Factory", "0x1F98431c8aD98523631AE4a59f267346ea31F984")
      ∷ ("V3Router", "0xE592427A0AEce92De3Edee1F18E0157C05861564")
      ∷ ("V3NFTPositionManager", "0xC36442b4a4522E871399CD717aBDD847Ab11FE88")
      ∷ [];
  marketplace = ("Seaport", "0x00000000000000ADc04C56Bf30aC9d3c0aAF14dC") ∷ [];
  bend_dao =
      ("LendingPool", "0x84a47EaEca69f8B521C21739224251c8c4566Bbc")
      ∷ ("LendingPoolLoan", "0x7F64c32a3c13Bd245a7141a607A7E60DA585BA86")
      ∷ [];
  stakefish = ("StakefishManager", "0x5b41ffb9c448c02ff3d0401b0374b67efcb73c7e") ∷ [];
  chainlink =
      ("WETH", "0xD4a33860578De61DBAbDc8BFdb98FD742fA7028e")
      ∷ ("BAYC", "0xB677bfBc9B09a3469695f40477d05bc9BcB15F50")
      ∷ ("MAYC", "0xCbDcc8788019226d09FcCEb4C727C48A062D8124")
      ∷ ("CLONEX", "0xE42f272EdF974e9c70a6d38dCb47CAB2A28CED3F")
      ∷ ("WPUNKS", "0x5c13b249846540F81c093Bc342b5d963a7518145")
      ∷ ("DOODLE", "0xEDA76D1C345AcA04c6910f5824EC337C8a8F36d2")
      ∷ ("AZUKI", "0x9F6d70CDf08d893f0063742b51d3E9D1e18b7f74")
      ∷ [];
  reserves_config =
      ("DAI", strategy_dai)
      ∷ ("USDC", strategy_usdc)
      ∷ ("USDT", strategy_usdt)
      ∷ ("FRAX", strategy_frax)
      ∷ ("WETH", strategy_weth)
      ∷ ("APE", strategy_ape)
      ∷ ("WBTC", strategy_wbtc)
      ∷ ("stETH", strategy_steth)
      ∷ ("wstETH", strategy_wsteth)
      ∷ ("aWETH", strategy_aweth)
      ∷ ("bendETH", strategy_bendeth)
      ∷ ("cbETH", strategy_cbeth)
      ∷ ("rETH", strategy_reth)
      ∷ ("astETH", strategy_asteth)
      ∷ ("awstETH", strategy_awsteth)
      ∷ ("cETH", strategy_ceth)
      ∷ ("PUNK", strategy_punk)
      ∷ ("BLUR", strategy_blur)
      ∷ ("DOODLE", strategy_doodles)
      ∷ ("BAYC", strategy_bayc)
      ∷ ("MAYC", strategy_mayc)
      ∷ ("WPUNKS", strategy_wpunks)
      ∷ ("MOONBIRD", strategy_moonbird)
      ∷ ("MEEBITS", strategy_meebits)
      ∷ ("AZUKI", strategy_azuki)
      ∷ ("OTHR", strategy_othr)
      ∷ ("CLONEX", strategy_clonex)
      ∷ ("UniswapV3", strategy_uniswap_v3)
      ∷ ("sAPE", strategy_sape)
      ∷ ("cAPE", strategy_cape)
      ∷ ("yAPE", strategy_yape)
      ∷ ("BAKC", strategy_bakc)
      ∷ ("SEWER", strategy_sewer)
      ∷ ("PPG", strategy_pudgy_penguins)
      ∷ ("SFVLDR", strategy_stakefish_validator)
      ∷ ("HVMTL", strategy_hvmtl)
      ∷ ("BEANZ", strategy_beanz)
      ∷ ("DEGODS", strategy_degods)
      ∷ ("EXP", strategy_exp)
      ∷ ("VSL", strategy_vsl)
      ∷ ("KODA", strategy_koda)
      ∷ ("BLOCKS", strategy_blocks)
      ∷ ("uBAYC", strategy_u_bayc)
      ∷ ("uPPG", strategy_u_ppg)
      ∷ [];
  delegation_registry = "0x00000000000000447e69651d841bD8D104Bed493";
}
