-- ===== src/Market/Configs.antt =====
-- `ParaSpaceConfigs` of market-config/index.ts: the configuration of each network's market.
mod Mainnet
mod Ethereum
mod Moonbeam
mod Polygon
mod Arbitrum
mod Rollups
use paraspace_core.Prelude.{Option, none, some}
use paraspace_core.Market.{Environment, MarketConfig}
use Mainnet.{mainnet_config}
use Ethereum.{hardhat_config, goerli_config}
use Moonbeam.{moonbeam_config, moonbase_config}
use Polygon.{
  polygon_config, polygon_mumbai_config, polygon_zkevm_config, polygon_zkevm_goerli_config,
}
use Arbitrum.{arbitrum_config, arbitrum_goerli_config, arbitrum_sepolia_config, parallel_dev_config}
use Rollups.{zk_sync_config, zk_sync_goerli_config, linea_config, linea_goerli_config}

-- `eEthereumNetwork`
pub data EthereumNetwork : Type 0 where
  ropsten goerli sepolia mainnet hardhat tenderly_main : EthereumNetwork
  ganache parallel localhost anvil moonbeam moonbase : EthereumNetwork
  arbitrum arbitrum_goerli arbitrum_sepolia parallel_dev polygon polygon_mumbai : EthereumNetwork
  polygon_zkevm polygon_zkevm_goerli zksync zksync_goerli linea linea_goerli : EthereumNetwork
  neon : EthereumNetwork

abbrev pub paraspace_configs : Environment → EthereumNetwork → Option MarketConfig
paraspace_configs env ropsten = none
paraspace_configs env goerli = some (goerli_config env)
paraspace_configs env sepolia = none
paraspace_configs env mainnet = some (mainnet_config env)
paraspace_configs env hardhat = some (hardhat_config env)
paraspace_configs env tenderly_main = none
paraspace_configs env ganache = none
paraspace_configs env parallel = some (hardhat_config env)
paraspace_configs env localhost = some (hardhat_config env)
paraspace_configs env anvil = some (hardhat_config env)
paraspace_configs env moonbeam = some (moonbeam_config env)
paraspace_configs env moonbase = some (moonbase_config env)
paraspace_configs env arbitrum = some (arbitrum_config env)
paraspace_configs env arbitrum_goerli = some (arbitrum_goerli_config env)
paraspace_configs env arbitrum_sepolia = some (arbitrum_sepolia_config env)
paraspace_configs env parallel_dev = some (parallel_dev_config env)
paraspace_configs env polygon = some (polygon_config env)
paraspace_configs env polygon_mumbai = some (polygon_mumbai_config env)
paraspace_configs env polygon_zkevm = some (polygon_zkevm_config env)
paraspace_configs env polygon_zkevm_goerli = some (polygon_zkevm_goerli_config env)
paraspace_configs env zksync = some (zk_sync_config env)
paraspace_configs env zksync_goerli = some (zk_sync_goerli_config env)
paraspace_configs env linea = some (linea_config env)
paraspace_configs env linea_goerli = some (linea_goerli_config env)
paraspace_configs env neon = some (hardhat_config env)
