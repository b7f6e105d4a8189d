-- ===== src/Network/Forks.antt =====
-- A fork of a network against the network itself.
use paraspace_core.Prelude.{String, Bool, List, [], ◌∷◌, ◌≡◌, refl}
use paraspace_core.Market.Configs.{
  EthereumNetwork, ropsten, goerli, sepolia, mainnet, hardhat, tenderly_main, ganache, parallel,
  localhost, anvil, moonbeam, moonbase, arbitrum, arbitrum_goerli, arbitrum_sepolia, parallel_dev,
  polygon, polygon_mumbai, polygon_zkevm, polygon_zkevm_goerli, zksync, zksync_goerli, linea,
  linea_goerli, neon,
}
use paraspace_core.Network.{
  Node, network_text, chains_id, is_public_testnet, is_mainnet, is_ethereum, is_moonbeam,
  is_arbitrum, is_zk_sync, is_polygon, is_polygon_zk_evm, is_linea, is_neon, is_parallel,
}

-- A node of a network's row, with a text for `FORK`.
abbrev pub node : String → EthereumNetwork → Node
node t n = record { chain_id = chains_id t n; fork = t }

-- What the predicates on mainnets and on public testnets answer.
unfoldable pub answers : Node → List Bool
answers x =
    is_public_testnet x
    ∷ is_mainnet x
    ∷ is_ethereum x
    ∷ is_moonbeam x
    ∷ is_arbitrum x
    ∷ is_zk_sync x
    ∷ is_polygon x
    ∷ is_polygon_zk_evm x
    ∷ is_linea x
    ∷ is_neon x
    ∷ is_parallel x
    ∷ []

-- On every network, with the chain id of its row, the predicates for the nine mainnets, for mainnets at
-- all and for public testnets answer on the hardhat network that forks it as they do on the network
-- itself.
pub answers-node :
    (n : EthereumNetwork) → answers (node (network_text n) hardhat) ≡ answers (node "" n)
unfolding answers is_public_testnet is_mainnet is_ethereum is_moonbeam is_arbitrum is_zk_sync
    is_polygon is_polygon_zk_evm is_linea is_neon is_parallel
answers-node ropsten = refl
answers-node goerli = refl
answers-node sepolia = refl
answers-node mainnet = refl
answers-node hardhat = refl
answers-node tenderly_main = refl
answers-node ganache = refl
answers-node parallel = refl
answers-node localhost = refl
answers-node anvil = refl
answers-node moonbeam = refl
answers-node moonbase = refl
answers-node arbitrum = refl
answers-node arbitrum_goerli = refl
answers-node arbitrum_sepolia = refl
answers-node parallel_dev = refl
answers-node polygon = refl
answers-node polygon_mumbai = refl
answers-node polygon_zkevm = refl
answers-node polygon_zkevm_goerli = refl
answers-node zksync = refl
answers-node zksync_goerli = refl
answers-node linea = refl
answers-node linea_goerli = refl
answers-node neon = refl
