-- ===== src/Network.antt =====
-- The chain ids of helpers/hardhat-constants.ts, `CHAINS_ID` of helper-hardhat-config.ts, and the
-- predicates of helpers/misc-utils.ts that ask which network the scripts run on. A node is what
-- they read: `DRE.network.config.chainId`, which may be undefined, and the text `FORK`, which is
-- empty where nothing is forked.
mod Families
mod Forks
mod Tests
use paraspace_core.Prelude.{
  if◌then◌else◌, ℕ, String, str_eq, ◌==◌, Bool, true, false, Option, none, some, List, [], ◌∷◌,
  ◌||◌,
}
use paraspace_core.Market.Configs.{
  EthereumNetwork, ropsten, goerli, sepolia, mainnet, hardhat, tenderly_main, ganache, parallel,
  localhost, anvil, moonbeam, moonbase, arbitrum, arbitrum_goerli, arbitrum_sepolia, parallel_dev,
  polygon, polygon_mumbai, polygon_zkevm, polygon_zkevm_goerli, zksync, zksync_goerli, linea,
  linea_goerli, neon,
}

-- `eEthereumNetwork`, as texts.
abbrev pub network_text : EthereumNetwork → String
network_text ropsten = "ropsten"
network_text goerli = "goerli"
network_text sepolia = "sepolia"
network_text mainnet = "mainnet"
network_text hardhat = "hardhat"
network_text tenderly_main = "tenderlyMain"
network_text ganache = "ganache"
network_text parallel = "parallel"
network_text localhost = "localhost"
network_text anvil = "anvil"
network_text moonbeam = "moonbeam"
network_text moonbase = "moonbase"
network_text arbitrum = "arbitrum"
network_text arbitrum_goerli = "arbitrumGoerli"
network_text arbitrum_sepolia = "arbitrumSepolia"
network_text parallel_dev = "parallelDev"
network_text polygon = "polygon"
network_text polygon_mumbai = "polygonMumbai"
network_text polygon_zkevm = "polygonZkevm"
network_text polygon_zkevm_goerli = "polygonZkevmGoerli"
network_text zksync = "zksync"
network_text zksync_goerli = "zksyncGoerli"
network_text linea = "linea"
network_text linea_goerli = "lineaGoerli"
network_text neon = "neon"

abbrev pub hardhat_chainid : ℕ
hardhat_chainid = 31337

abbrev pub goerli_chainid : ℕ
goerli_chainid = 5

abbrev pub sepolia_chainid : ℕ
sepolia_chainid = 11155111

abbrev pub fork_chainid : ℕ
fork_chainid = 522

abbrev pub mainnet_chainid : ℕ
mainnet_chainid = 1

abbrev pub parallel_chainid : ℕ
parallel_chainid = 1024

abbrev pub parallel_dev_chainid : ℕ
parallel_dev_chainid = 2982896226593698

abbrev pub moonbeam_chainid : ℕ
moonbeam_chainid = 1284

abbrev pub moonbase_chainid : ℕ
moonbase_chainid = 1287

abbrev pub arbitrum_one_chainid : ℕ
arbitrum_one_chainid = 42161

abbrev pub arbitrum_goerli_chainid : ℕ
arbitrum_goerli_chainid = 421613

abbrev pub arbitrum_sepolia_chainid : ℕ
arbitrum_sepolia_chainid = 421613

abbrev pub polygon_chainid : ℕ
polygon_chainid = 137

abbrev pub polygon_zkevm_chainid : ℕ
polygon_zkevm_chainid = 1101

abbrev pub polygon_zkevm_goerli_chainid : ℕ
polygon_zkevm_goerli_chainid = 1442

abbrev pub polygon_mumbai_chainid : ℕ
polygon_mumbai_chainid = 80001

abbrev pub zksync_chainid : ℕ
zksync_chainid = 324

abbrev pub zksync_goerli_chainid : ℕ
zksync_goerli_chainid = 280

abbrev pub linea_goerli_chainid : ℕ
linea_goerli_chainid = 59140

abbrev pub linea_chainid : ℕ
linea_chainid = 59144

abbrev pub neon_chainid : ℕ
neon_chainid = 245022934

-- `CHAINS_ID`: ropsten and localhost have no row there.
abbrev pub chains_id : String → EthereumNetwork → Option ℕ
chains_id fork ropsten = none
chains_id fork goerli = some goerli_chainid
chains_id fork sepolia = some sepolia_chainid
chains_id fork mainnet = some mainnet_chainid
chains_id fork hardhat = some (if str_eq fork "" then hardhat_chainid else fork_chainid)
chains_id fork tenderly_main = none
chains_id fork ganache = none
chains_id fork parallel = some parallel_chainid
chains_id fork localhost = none
chains_id fork anvil = some hardhat_chainid
chains_id fork moonbeam = some moonbeam_chainid
chains_id fork moonbase = some moonbase_chainid
chains_id fork arbitrum = some arbitrum_one_chainid
chains_id fork arbitrum_goerli = some arbitrum_goerli_chainid
chains_id fork arbitrum_sepolia = some arbitrum_sepolia_chainid
chains_id fork parallel_dev = some parallel_dev_chainid
chains_id fork polygon = some polygon_chainid
chains_id fork polygon_mumbai = some polygon_mumbai_chainid
chains_id fork polygon_zkevm = some polygon_zkevm_chainid
chains_id fork polygon_zkevm_goerli = some polygon_zkevm_goerli_chainid
chains_id fork zksync = some zksync_chainid
chains_id fork zksync_goerli = some zksync_goerli_chainid
chains_id fork linea = some linea_chainid
chains_id fork linea_goerli = some linea_goerli_chainid
chains_id fork neon = some neon_chainid

pub record Node : Type 0 where
  pub chain_id : Option ℕ
  pub fork : String

abbrev pub includes_id : List ℕ → ℕ → Bool
includes_id [] n = false
includes_id (k ∷ ks) n = (n == k) || includes_id ks n

-- `[..].includes(DRE.network.config.chainId!)`: an undefined id is in no list.
abbrev pub includes_chain : List ℕ → Option ℕ → Bool
includes_chain ks none = false
includes_chain ks (some n) = includes_id ks n

-- `[..].includes(FORK as eEthereumNetwork)`
abbrev pub includes_fork : List EthereumNetwork → String → Bool
includes_fork [] t = false
includes_fork (n ∷ ns) t = str_eq t (network_text n) || includes_fork ns t

unfoldable pub is_local_testnet : Node → Bool
is_local_testnet x = includes_chain (hardhat_chainid ∷ []) x.chain_id

unfoldable pub is_public_testnet : Node → Bool
is_public_testnet x =
    includes_chain
      (goerli_chainid ∷ sepolia_chainid ∷ arbitrum_goerli_chainid ∷ arbitrum_sepolia_chainid
        ∷ parallel_dev_chainid ∷ zksync_goerli_chainid ∷ polygon_zkevm_goerli_chainid
        ∷ polygon_mumbai_chainid ∷ moonbase_chainid ∷ linea_goerli_chainid ∷ [])
      x.chain_id
    || includes_fork
        (goerli ∷ sepolia ∷ arbitrum_goerli ∷ arbitrum_sepolia ∷ parallel_dev ∷ zksync_goerli
          ∷ polygon_zkevm_goerli ∷ polygon_mumbai ∷ moonbase ∷ linea_goerli ∷ [])
        x.fork

unfoldable pub is_fork : Node → Bool
is_fork x = includes_chain (fork_chainid ∷ []) x.chain_id

unfoldable pub is_moonbeam : Node → Bool
is_moonbeam x =
    includes_chain (moonbeam_chainid ∷ []) x.chain_id || includes_fork (moonbeam ∷ []) x.fork

unfoldable pub is_arbitrum : Node → Bool
is_arbitrum x =
    includes_chain (arbitrum_one_chainid ∷ []) x.chain_id || includes_fork (arbitrum ∷ []) x.fork

unfoldable pub is_ethereum : Node → Bool
is_ethereum x =
    includes_chain (mainnet_chainid ∷ []) x.chain_id || includes_fork (mainnet ∷ []) x.fork

unfoldable pub is_polygon : Node → Bool
is_polygon x =
    includes_chain (polygon_chainid ∷ []) x.chain_id || includes_fork (polygon ∷ []) x.fork

unfoldable pub is_polygon_zk_evm : Node → Bool
is_polygon_zk_evm x =
    includes_chain (polygon_zkevm_chainid ∷ []) x.chain_id
    || includes_fork (polygon_zkevm ∷ []) x.fork

unfoldable pub is_zk_sync : Node → Bool
is_zk_sync x = includes_chain (zksync_chainid ∷ []) x.chain_id || includes_fork (zksync ∷ []) x.fork

unfoldable pub is_linea : Node → Bool
is_linea x = includes_chain (linea_chainid ∷ []) x.chain_id || includes_fork (linea ∷ []) x.fork

unfoldable pub is_neon : Node → Bool
is_neon x = includes_chain (neon_chainid ∷ []) x.chain_id || includes_fork (neon ∷ []) x.fork

unfoldable pub is_parallel : Node → Bool
is_parallel x =
    includes_chain (parallel_chainid ∷ []) x.chain_id || includes_fork (parallel ∷ []) x.fork

unfoldable pub is_mainnet : Node → Bool
is_mainnet x =
    is_ethereum x
    || is_moonbeam x
    || is_arbitrum x
    || is_zk_sync x
    || is_polygon x
    || is_polygon_zk_evm x
    || is_linea x
    || is_neon x
    || is_parallel x
