-- ===== src/Network/Tests.antt =====
-- The predicates on Ethereum, on its fork and on a testnet, and the theorems on them.
use paraspace_core.Prelude.{true, ◌≡◌, refl, inr}
use paraspace_core.Market.Configs.{mainnet, hardhat, goerli}
use paraspace_core.Network.{is_ethereum, is_public_testnet, is_fork}
use paraspace_core.Network.Families.{on_ethereum, is_family_unique}
use paraspace_core.Network.Forks.{node, answers, answers-node}

fork_test : is_fork (node "mainnet" hardhat) ≡ true
unfolding is_fork
fork_test = refl

testnet_test : is_public_testnet (node "" goerli) ≡ true
unfolding is_public_testnet
testnet_test = refl

-- The fork of Ethereum is Ethereum, by its name.
forked_ethereum : is_ethereum (node "mainnet" hardhat) ≡ true
unfolding is_ethereum
forked_ethereum = refl

is_family_unique_example : on_ethereum ≡ on_ethereum
is_family_unique_example =
    is_family_unique on_ethereum on_ethereum (node "mainnet" hardhat) (inr refl) forked_ethereum
      forked_ethereum

answers-node_example : answers (node "mainnet" hardhat) ≡ answers (node "" mainnet)
answers-node_example = answers-node mainnet
