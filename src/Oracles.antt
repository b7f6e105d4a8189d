-- ===== src/Oracles.antt =====
-- The price aggregators of the tokens: helpers/oracles-helpers.ts.
pub mod Complete
mod Tests
use paraspace_core.Prelude.{
  if◌then◌else◌, ℕ, ◌*◌, String, str_eq, Bool, true, false, not, ◌||◌, ◌&&◌, Option, none, some,
  List, [], ◌∷◌, ◌++◌, ◌>>=◌, map,
}
use paraspace_core.Market.{OracleConfig, MarketConfig}
use paraspace_core.Market.Common.{zero_address}
use paraspace_core.Setup.{address_of}

-- What gives the price of a token, with the arguments of its deployment.
pub data Aggregator : Type 0 where
  chainlink : String → Aggregator
  fixed_price : ℕ → String → Aggregator
  c_token : String → String → Aggregator
  wst_eth : Aggregator → String → ℕ → Aggregator
  exchange_rate : String → String → Aggregator
  uniswap_v3 : String → Aggregator
  erc721_wrapper : String → String → Aggregator
  mock : String → String → Aggregator

-- The object `aggregators`: a value may be undefined.
abbrev pub Aggregators : Type 0
Aggregators = List (String × Option Aggregator)

unfoldable pub get_aggregator : Aggregators → String → Option Aggregator
get_aggregator [] symbol = none
get_aggregator ((key, a) ∷ rest) symbol =
    if str_eq key symbol then a else get_aggregator rest symbol

-- `ERC20TokenContractId[BaseCurrency]`: the tables have the name of a token or the zero address.
unfoldable pub base_token : OracleConfig → Option String
base_token c = if str_eq c.base_currency zero_address then none else some c.base_currency

abbrev pub is_base : OracleConfig → String → Bool
is_base c symbol = elim (base_token c) [ none ↦ false | some base ↦ str_eq symbol base ]

abbrev pub is_weth_based : OracleConfig → Bool
is_weth_based c = is_base c "WETH"

-- What a round of the loop does: an exception, no aggregator, or a value for the symbol.
pub data Round : Type 0 where
  thrown : Round
  skipped : Round
  assigned : Option Aggregator → Round

-- `aggregators[stETH].address`, which throws where there is none.
abbrev pub on_top_of : Option Aggregator → String → ℕ → Round
on_top_of none token decimals = thrown
on_top_of (some a) token decimals = assigned (some (wst_eth a token decimals))

-- The mocks' prices, where there are any.
abbrev pub unnamed : Option (List (String × String)) → String → String → Round
unnamed none symbol token = assigned (some (erc721_wrapper token symbol))
unnamed (some prices) symbol token = elim (address_of prices symbol) [
  | none ↦ skipped
  | some price ↦ assigned (some (mock symbol price))
]

module _ (m : MarketConfig) (prices : Option (List (String × String)))
    (tokens : List (String × String)) where
  abbrev pub token_address : String → String
  token_address symbol = elim (address_of tokens symbol) [ none ↦ "" | some a ↦ a ]

  -- A token with neither base currency nor Chainlink feed.
  unfoldable pub derive : Aggregators → String → Round
  derive aggregators symbol =
      if is_weth_based m.oracle && (str_eq symbol "bendETH" || str_eq symbol "aWETH")
      then assigned (some (fixed_price m.oracle.base_currency_unit symbol))
      else if str_eq symbol "cETH"
      then assigned (some (c_token (token_address symbol) symbol))
      else if str_eq symbol "SFVLDR"
      then assigned (some (fixed_price (m.oracle.base_currency_unit * 32) symbol))
      else if str_eq symbol "wstETH"
      then on_top_of (get_aggregator aggregators "stETH") (token_address "stETH")
          m.oracle.base_currency_decimals
      else if str_eq symbol "awstETH"
      then assigned (get_aggregator aggregators "wstETH")
      else if str_eq symbol "astETH"
      then assigned (get_aggregator aggregators "stETH")
      else if str_eq symbol "rETH"
      then assigned (some (exchange_rate (token_address "rETH") symbol))
      else if str_eq symbol "UniswapV3"
      then assigned (some (uniswap_v3 (token_address "UniswapV3")))
      else unnamed prices symbol (token_address symbol)

  unfoldable pub choose : Aggregators → String → Round
  choose aggregators symbol =
      if is_base m.oracle symbol then skipped else elim (address_of m.chainlink symbol) [
        | some feed ↦ assigned (some (chainlink feed))
        | none ↦ derive aggregators symbol
      ]

  abbrev pub settle : Round → String → Aggregators → Option Aggregators
  settle thrown symbol aggregators = none
  settle skipped symbol aggregators = some aggregators
  settle (assigned a) symbol aggregators = some (aggregators ++ (symbol, a) ∷ [])

  -- The loop over the symbols.
  unfoldable pub deploy_loop : List String → Aggregators → Option Aggregators
  deploy_loop [] aggregators = some aggregators
  deploy_loop (symbol ∷ rest) aggregators =
      settle (choose aggregators symbol) symbol aggregators >>= deploy_loop rest

-- `getContractAddresses`, which throws at a value that is undefined.
unfoldable pub get_contract_addresses : Aggregators → Option (List (String × Aggregator))
get_contract_addresses [] = some []
get_contract_addresses ((symbol, none) ∷ rest) = none
get_contract_addresses ((symbol, some a) ∷ rest) =
    get_contract_addresses rest >>= (λ l. some ((symbol, a) ∷ l))

abbrev pub keys {ℓ} : {A : Type ℓ} → List (String × A) → List String
keys l = map (λ row. row.0) l

unfoldable pub deploy_all_aggregators :
    MarketConfig
    → Option (List (String × String))
    → List (String × String)
    → Option (List (String × Aggregator))
deploy_all_aggregators m prices tokens =
    deploy_loop m prices tokens (keys tokens) [] >>= get_contract_addresses

abbrev pub keep_pair {ℓ} : {A : Type ℓ} → Bool → A → List A → List A
keep_pair b x l = if b then l else x ∷ l

-- `getPairsTokenAggregators`: the tokens but the base currency, with their aggregators.
unfoldable pub get_pairs {ℓ} :
    {A : Type ℓ} → OracleConfig → (String → A) → List (String × String) → List String × List A
get_pairs c aggregator_of [] = ([], [])
get_pairs c aggregator_of ((symbol, token) ∷ rest) =
    let pairs = get_pairs c aggregator_of rest in
    (
      keep_pair (is_base c symbol) token pairs.0,
      keep_pair (is_base c symbol) (aggregator_of symbol) pairs.1,
    )
