-- ===== src/Setup/Tokens.antt =====
-- The third loop of `initReservesByHelper` of helpers/init-helpers.ts: each chunk of reserves gets its token
-- implementations and is sent. An implementation is known by its name in `eContractid`.
use paraspace_core.Prelude.{
  if◌then◌else◌, ltb, length, ℕ, String, str_eq, Bool, not, ◌||◌, ◌&&◌, Option, none, some, List,
  [], ◌∷◌, ◌++◌, ◌>>=◌, map, any,
}
use paraspace_core.Chunk.{chunk}
use paraspace_core.Reserves.Configurator.{guard}
use paraspace_core.Setup.{address_of}
use paraspace_core.Setup.Registry.{Registry, Kind, put, fresh, ensure}
use paraspace_core.Setup.Init.{
  XTokenType, generic, nft, delegation_aware, InitReserveInput, InitRow, Deployer, Naming,
  Registries, collect_rows, init_inputs,
}
use paraspace_core.Market.{ReserveParams}

-- The implementation of the token of a reserve.
unfoldable pub generic_impl : String → String
generic_impl symbol =
    if str_eq symbol "stETH"
    then "PTokenStETHImpl"
    else if str_eq symbol "stDOT"
    then "PTokenStKSMImpl"
    else if str_eq symbol "aWETH" || str_eq symbol "awstETH" || str_eq symbol "aUSDC"
    then "PTokenATokenImpl"
    else if str_eq symbol "astETH"
    then "PTokenAStETHImpl"
    else if str_eq symbol "sAPE"
    then "PTokenSApeImpl"
    else if str_eq symbol "cAPE"
    then "PTokenCApeImpl"
    else if str_eq symbol "yAPE"
    then "PYieldTokenImpl"
    else "PTokenImpl"

unfoldable pub nft_impl : String → String
nft_impl symbol =
    if str_eq symbol "MOONBIRD"
    then "NTokenMoonBirdsImpl"
    else if str_eq symbol "UniswapV3"
    then "NTokenUniswapV3Impl"
    else if str_eq symbol "BAYC"
    then "NTokenBAYCImpl"
    else if str_eq symbol "MAYC"
    then "NTokenMAYCImpl"
    else if str_eq symbol "BAKC"
    then "NTokenBAKCImpl"
    else if str_eq symbol "OTHR"
    then "NTokenOtherdeedImpl"
    else if str_eq symbol "SFVLDR"
    then "NTokenStakefishImpl"
    else if str_eq symbol "BLOCKS"
    then "NTokenChromieSquiggleImpl"
    else "NTokenImpl"

abbrev pub x_token_for : XTokenType → String → String
x_token_for generic symbol = generic_impl symbol
x_token_for nft symbol = nft_impl symbol
x_token_for delegation_aware symbol = "DelegationAwarePTokenImpl"

-- The implementation of the debt token: one of its own only among the generic tokens.
abbrev pub debt_token_for : XTokenType → String → String
debt_token_for generic symbol =
    if str_eq symbol "stETH"
    then "StETHDebtToken"
    else if str_eq symbol "stDOT"
    then "StKSMDebtToken"
    else if str_eq symbol "aWETH" || str_eq symbol "awstETH" || str_eq symbol "aUSDC"
    then "ATokenDebtToken"
    else if str_eq symbol "astETH"
    then "AStETHDebtToken"
    else if str_eq symbol "cAPE"
    then "CApeDebtToken"
    else "VariableDebtTokenImpl"
debt_token_for _ symbol = "VariableDebtTokenImpl"

-- What is deployed anew for every reserve.
abbrev pub is_deployed_anew : String → Bool
is_deployed_anew impl =
    str_eq impl "NTokenOtherdeedImpl"
    || str_eq impl "NTokenStakefishImpl"
    || str_eq impl "NTokenChromieSquiggleImpl"

-- What needs the tokens of BAYC and MAYC, which must be on the chain.
abbrev pub needs_apes : String → Bool
needs_apes impl = str_eq impl "PTokenSApeImpl" || str_eq impl "NTokenBAKCImpl"

-- The tokens on the chain by symbol (`getAllXTokens`), the assets in the pool's list, the
-- implementations at hand, and the inputs given to `dryRunEncodedData`.
pub record Progress : Type 0 where
  pub x_tokens : List String
  pub listed : List String
  pub implementations : Registry String
  pub encoded : List (List InitReserveInput)

abbrev pub has_apes : List String → Bool
has_apes symbols = any (str_eq "nBAYC") symbols && any (str_eq "nMAYC") symbols

-- What the chain answers to an initialisation: whether the signer lists assets or administers the
-- pool, and whether the proxies of the reserve's tokens can be created over the implementations
-- and the asset is a contract.
pub record Chain : Type 0 where
  pub may_list : Bool
  pub creates : InitReserveInput → Bool

abbrev pub max_reserves_count : ℕ
max_reserves_count = 128

-- `executeInitReserve` of ConfiguratorLogic.sol and PoolLogic.sol, where no reserve was dropped: an
-- asset is listed once, and there are places for so many.
abbrev pub init_reserve : Chain → InitReserveInput → List String → Option (List String)
init_reserve chain i listed = guard (chain.creates i) (
    guard (not (any (str_eq i.underlying_asset) listed))
      (guard (ltb (length listed) max_reserves_count) (some (listed ++ i.underlying_asset ∷ []))))

unfoldable pub init_loop : Chain → List InitReserveInput → List String → Option (List String)
init_loop chain [] listed = some listed
init_loop chain (i ∷ rest) listed = init_reserve chain i listed >>= init_loop chain rest

-- `initReserves` of PoolConfigurator.sol.
abbrev pub init_on_chain : Chain → List InitReserveInput → List String → Option (List String)
init_on_chain chain inputs listed = guard chain.may_list (init_loop chain inputs listed)

module _ (chain : Chain) (dry_run : Bool) (impl_at : ℕ → String)
    (type_of : String → XTokenType) where
  abbrev pub impl_kind : Kind String
  impl_kind = record { name = λ x. x; zero_name = ""; default = none; address_at = impl_at }

  -- The implementation is at hand, or deployed; `none` where `find(…)!` finds no token.
  abbrev pub get_impl : String → Progress → Option Progress
  get_impl impl p =
      if is_deployed_anew impl
      then some (record p { implementations = put impl_kind impl fresh p.implementations })
      else elim (address_of p.implementations.addresses impl) [
        | some _ ↦ some p
        | none ↦
            if needs_apes impl && not (has_apes p.x_tokens)
            then none
            else some (record p { implementations = ensure impl_kind impl p.implementations })
      ]

  abbrev pub address : Progress → String → String
  address p impl = elim (address_of p.implementations.addresses impl) [ none ↦ "" | some a ↦ a ]

  -- The body of the inner loop.
  unfoldable pub fill_input : InitReserveInput → Progress → Option (InitReserveInput × Progress)
  fill_input i p =
      let symbol = i.underlying_asset_name in
      let x_token = x_token_for (type_of symbol) symbol in
      let debt = debt_token_for (type_of symbol) symbol in
      get_impl x_token p >>= (λ q. get_impl debt q >>= (λ r. some (
        record i { x_token_impl = address q x_token; variable_debt_token_impl = address r debt },
        r,
      )))

  unfoldable pub fill_inputs :
      List InitReserveInput → Progress → Option (List InitReserveInput × Progress)
  fill_inputs [] p = some ([], p)
  fill_inputs (i ∷ rest) p =
      fill_input i p >>= (λ t. fill_inputs rest t.1 >>= (λ u. some (t.0 ∷ u.0, u.1)))

  -- `initReserves` of the chunk, where an exception is caught, or its encoding.
  abbrev pub send_chunk : List InitReserveInput → Progress → Progress
  send_chunk inputs p =
      if dry_run
      then record p { encoded = p.encoded ++ inputs ∷ [] }
      else elim (init_on_chain chain inputs p.listed) [
        | none ↦ p
        | some l ↦ record p {
          x_tokens = p.x_tokens ++ map (λ i. i.x_token_symbol) inputs;
          listed = l;
        }
      ]

  unfoldable pub init_chunks : List (List InitReserveInput) → Progress → Option Progress
  init_chunks [] p = some p
  init_chunks (inputs ∷ rest) p =
      fill_inputs inputs p >>= (λ t. some (send_chunk t.0 t.1)) >>= init_chunks rest

  unfoldable pub init_reserves : List InitReserveInput → Progress → Option Progress
  init_reserves inputs p = init_chunks (chunk inputs 4) p

-- `xTokenType[symbol]`; a symbol without a row is asked for by none.
unfoldable pub token_type_in : List InitRow → String → XTokenType
token_type_in [] symbol = generic
token_type_in (row ∷ rest) symbol =
    if str_eq row.symbol symbol then row.token_type else token_type_in rest symbol

-- The whole of `initReservesByHelper`.
unfoldable pub init_reserves_by_helper :
    Chain
    → Bool
    → (ℕ → String)
    → Deployer
    → Naming
    → List (String × ReserveParams)
    → List (String × String)
    → Registries
    → Progress
    → Option Progress
init_reserves_by_helper chain dry_run impl_at d naming reserves tokens r p =
    let rows = (collect_rows d tokens reserves r).1 in
    init_reserves chain dry_run impl_at (token_type_in rows) (init_inputs naming rows) p
