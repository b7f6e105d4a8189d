-- ===== src/Upgrade.antt =====
-- The upgrade of the pool's implementations: scripts/upgrade/pool.ts over the proxy of
-- contracts/protocol/libraries/paraspace-upgradeability/lib/ParaProxyLib.sol.
pub mod Proxy
pub mod Scripts
pub mod Routing
pub mod Refines
mod Tests
use paraspace_core.Prelude.{if◌then◌else◌, ℕ, String, str_eq, Bool, List, any}

-- `ProxyStorage`: the implementation of a selector (the zero address if it has none) and its
-- position among the selectors of that implementation; the implementations and their positions. Lists are shorter
-- than 2 ^ 96, so that the casts of lengths keep them.
pub record Storage : Type 0 where
  pub impl_of : String → String
  pub position_of : String → ℕ
  pub selectors_of : String → List String
  pub addresses : List String
  pub address_position : String → ℕ

-- `ProxyImplementationAction`
pub data Action : Type 0 where
  add replace remove : Action

-- `ProxyImplementation`
pub record Cut : Type 0 where
  pub impl_address : String
  pub action : Action
  pub function_selectors : List String

-- `list.includes(x)`
abbrev pub includes : List String → String → Bool
includes l x = any (λ y. str_eq x y) l

-- `mapping[key] = value`
abbrev pub assign {ℓ} : {A : Type ℓ} → (String → A) → String → A → String → A
assign f key value = λ x. if str_eq x key then value else f x
