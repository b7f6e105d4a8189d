-- ===== src/Oracles/Tests.antt =====
-- The aggregators of the main network.
use paraspace_core.Prelude.{String, none, some, List, [], true, ◌≡◌, refl}
use paraspace_core.Market.{Environment, MarketConfig}
use paraspace_core.Market.Common.{common_config}
use paraspace_core.Market.Configs.{mainnet, paraspace_configs}
use paraspace_core.Setup.{address_of}
use paraspace_core.Oracles.{Aggregator, base_token, keys, deploy_all_aggregators}
use paraspace_core.Oracles.Complete.{are_ordered, priced, deploy_all_aggregators-some}

abbrev environment : Environment
environment = record { multi_send = ""; multi_sig = "" }

abbrev market : MarketConfig
market = elim (paraspace_configs environment mainnet) [
  | none ↦ common_config environment
  | some m ↦ m
]

mainnet_test : are_ordered market market.tokens [] (keys market.tokens) ≡ true
unfolding are_ordered base_token address_of
mainnet_test = refl

deploy_all_aggregators-some_example :
    (q : List (String × Aggregator)) × (deploy_all_aggregators market none market.tokens ≡ some q)
    × (keys q ≡ priced market market.tokens (keys market.tokens))
deploy_all_aggregators-some_example = deploy_all_aggregators-some market market.tokens mainnet_test
