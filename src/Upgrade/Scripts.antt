-- ===== src/Upgrade/Scripts.antt =====
-- The functions of scripts/upgrade/pool.ts. The addresses and selectors of the contracts that they
-- deploy are arguments; `upgrade` is the call of `updatePoolImpl`, which a dry run encodes.
use paraspace_core.Prelude.{
  if◌then◌else◌, String, str_eq, Bool, not, Option, none, some, List, [], ◌∷◌, ◌++◌, ◌>>=◌, concat,
  map,
}
use paraspace_core.Market.Common.{zero_address}
use paraspace_core.Upgrade.{Storage, Action, add, replace, remove, Cut, includes}
use paraspace_core.Upgrade.Proxy.{is_empty, update_implementation}

-- `list.filter(p)`
unfoldable pub filter : (String → Bool) → List String → List String
filter p [] = []
filter p (x ∷ l) = let rest = filter p l in if p x then x ∷ rest else rest

-- An implementation's address, its selectors, and those of the one before it.
pub record Implementation : Type 0 where
  pub address : String
  pub new_selectors : List String
  pub old_selectors : List String

-- `if (selectors.length) proxyImplementation.push(…)`
abbrev pub cut_if : String → Action → List String → List Cut
cut_if impl action selectors =
    if is_empty selectors
    then []
    else record { impl_address = impl; action = action; function_selectors = selectors } ∷ []

unfoldable pub to_add : Implementation → List String
to_add i = filter (λ s. not (includes i.old_selectors s)) i.new_selectors

unfoldable pub to_replace : Implementation → List String
to_replace i = filter (λ s. includes i.old_selectors s) i.new_selectors

unfoldable pub to_remove : Implementation → List String
to_remove i = filter (λ s. not (includes i.new_selectors s)) i.old_selectors

unfoldable pub cuts_of : Implementation → List Cut
cuts_of i =
    cut_if zero_address remove (to_remove i)
    ++ cut_if i.address replace (to_replace i)
    ++ cut_if i.address add (to_add i)

-- What a script has done: the proxy's storage, and the calls that a dry run encoded.
pub record Progress : Type 0 where
  pub proxy : Storage
  pub encoded : List (List Cut)

-- A facet of `facets()`.
abbrev pub facets : Storage → List (String × List String)
facets ds = map (λ a. (a, ds.selectors_of a)) ds.addresses

-- `if (poolApeStaking) implementations.push(…)`
abbrev pub if_deployed {ℓ κ} : {A : Type ℓ} {B : Type κ} → (A → B) → Option A → List B
if_deployed f none = []
if_deployed f (some a) = f a ∷ []

module _ (self : String) (has_code : String → Bool) (dry_run : Bool) where
  abbrev pub upgrade : List Cut → Progress → Option Progress
  upgrade cuts p =
      if dry_run
      then some (record p { encoded = p.encoded ++ cuts ∷ [] })
      else update_implementation self has_code cuts p.proxy
        >>= (λ ds. some (record p { proxy = ds }))

  unfoldable pub upgrade_proxy_implementations : List Implementation → Progress → Option Progress
  upgrade_proxy_implementations implementations p = upgrade (concat (map cuts_of implementations)) p

  -- The facets but that of the proxy's own interfaces, which has `facets()` (0x7a0ed627).
  unfoldable pub reset_cuts : String → List (String × List String) → List Cut
  reset_cuts interfaces [] = []
  reset_cuts interfaces ((a, selectors) ∷ rest) =
      let others = reset_cuts interfaces rest in
      if str_eq a interfaces
      then others
      else record { impl_address = zero_address; action = remove; function_selectors = selectors }
        ∷ others

  unfoldable pub reset_selectors : Progress → Option Progress
  reset_selectors p = upgrade (reset_cuts (p.proxy.impl_of "0x7a0ed627") (facets p.proxy)) p

  -- An implementation for what a facet has now: `facetFunctionSelectors`.
  abbrev pub in_place_of : Storage → String → String × List String → Implementation
  in_place_of ds old (address, selectors) = record {
    address = address;
    new_selectors = selectors;
    old_selectors = ds.selectors_of old;
  }

  abbrev afresh : String × List String → Implementation
  afresh (address, selectors) = record {
    address = address;
    new_selectors = selectors;
    old_selectors = [];
  }

  -- The implementation of the staking of APE is deployed on some networks only.
  unfoldable pub reset_pool :
      String × List String
      → String × List String
      → String × List String
      → Option (String × List String)
      → Progress
      → Option Progress
  reset_pool core marketplace parameters ape_staking p =
      reset_selectors p
      >>= upgrade_proxy_implementations
          (afresh core ∷ afresh marketplace ∷ afresh parameters ∷ if_deployed afresh ape_staking)

  -- One deployed implementation in place of what the pool has from the old one.
  unfoldable pub upgrade_one : String → String × List String → Progress → Option Progress
  upgrade_one old deployed p =
      upgrade_proxy_implementations (in_place_of p.proxy old deployed ∷ []) p

  unfoldable pub upgrade_borrow_ape_and_stake :
      String → String × List String → Progress → Option Progress
  upgrade_borrow_ape_and_stake old deployed p =
      upgrade_proxy_implementations
        ((if str_eq old zero_address then afresh deployed else in_place_of p.proxy old deployed)
          ∷ [])
        p

  -- The addresses of the implementations before an upgrade of the pool.
  unfoldable pub upgrade_pool :
      String × String × String × String
      → String × List String
      → String × List String
      → String × List String
      → Option (String × List String)
      → Progress
      → Option Progress
  upgrade_pool (old_core, old_marketplace, old_parameters, old_ape_staking) core marketplace
        parameters ape_staking p =
      upgrade_proxy_implementations
        (in_place_of p.proxy old_core core
          ∷ in_place_of p.proxy old_marketplace marketplace
          ∷ in_place_of p.proxy old_parameters parameters
          ∷ if_deployed (in_place_of p.proxy old_ape_staking) ape_staking)
        p

  abbrev pub upgrade_pool_core : String → String × List String → Progress → Option Progress
  upgrade_pool_core old deployed p = upgrade_one old deployed p

  abbrev pub upgrade_pool_marketplace : String → String × List String → Progress → Option Progress
  upgrade_pool_marketplace old deployed p = upgrade_one old deployed p

  abbrev pub upgrade_pool_ape_staking : String → String × List String → Progress → Option Progress
  upgrade_pool_ape_staking old deployed p = upgrade_one old deployed p

  abbrev pub upgrade_pool_parameters : String → String × List String → Progress → Option Progress
  upgrade_pool_parameters old deployed p = upgrade_one old deployed p

  abbrev pub upgrade_pool_position_mover :
      String → String × List String → Progress → Option Progress
  upgrade_pool_position_mover old deployed p = upgrade_one old deployed p

  abbrev pub upgrade_pool_aa_position_mover :
      String → String × List String → Progress → Option Progress
  upgrade_pool_aa_position_mover old deployed p = upgrade_one old deployed p
