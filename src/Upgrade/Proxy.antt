-- ===== src/Upgrade/Proxy.antt =====
-- The functions of ParaProxyLib.sol. A call that reverts is `none`.
use paraspace_core.Prelude.{
  if◌then◌else◌, ◌==◌, ℕ, zero, suc, ◌+◌, ◌-◌, String, str_eq, Bool, true, false, not, Option, none,
  some, List, [], ◌∷◌, ◌++◌, ◌>>=◌, length, get_elem?, take,
}
use paraspace_core.Market.Common.{zero_address}
use paraspace_core.Reserves.Configurator.{guard}
use paraspace_core.Upgrade.{Storage, Action, add, replace, remove, Cut, assign}

-- `list[i] = x`, which reverts out of bounds.
unfoldable pub set_elem {ℓ} : {A : Type ℓ} → List A → ℕ → A → Option (List A)
set_elem [] i x = none
set_elem (y ∷ l) zero x = some (x ∷ l)
set_elem (y ∷ l) (suc i) x = set_elem l i x >>= (λ m. some (y ∷ m))

-- `list.pop()` of a list that is not empty.
abbrev pub pop {ℓ} : {A : Type ℓ} → List A → List A
pop l = take (length l - 1) l

abbrev pub is_zero : String → Bool
is_zero a = str_eq a zero_address

unfoldable pub add_function : String → ℕ → String → Storage → Storage
add_function selector position impl ds = record ds {
  position_of = assign ds.position_of selector position;
  selectors_of = assign ds.selectors_of impl (ds.selectors_of impl ++ selector ∷ []);
  impl_of = assign ds.impl_of selector impl;
}

-- The last selector takes the place of the one that is removed.
unfoldable pub swap_selector : String → ℕ → ℕ → Storage → Option Storage
swap_selector impl position last ds =
    if position == last
    then some ds
    else get_elem? (ds.selectors_of impl) last >>= (λ last_selector.
      set_elem (ds.selectors_of impl) position last_selector >>= (λ l. some (record ds {
        selectors_of = assign ds.selectors_of impl l;
        position_of = assign ds.position_of last_selector position;
      })))

-- The last implementation takes the place of the one that is removed.
unfoldable pub swap_address : ℕ → ℕ → Storage → Option Storage
swap_address position last ds =
    if position == last
    then some ds
    else get_elem? ds.addresses last >>= (λ last_address.
      set_elem ds.addresses position last_address >>= (λ l. some (record ds {
        addresses = l;
        address_position = assign ds.address_position last_address position;
      })))

unfoldable pub remove_address : String → Storage → Option Storage
remove_address impl ds = guard (not (length ds.addresses == 0)) (
    swap_address (ds.address_position impl) (length ds.addresses - 1) ds >>= (λ d. some (record d {
      addresses = pop d.addresses;
      address_position = assign d.address_position impl 0;
    })))

-- `pop` and `delete` of the selector.
abbrev pub drop_selector : String → String → Storage → Storage
drop_selector impl selector ds = record ds {
  selectors_of = assign ds.selectors_of impl (pop (ds.selectors_of impl));
  impl_of = assign ds.impl_of selector zero_address;
  position_of = assign ds.position_of selector 0;
}

unfoldable pub add_loop : String → List String → ℕ → Storage → Option Storage
add_loop impl [] position ds = some ds
add_loop impl (selector ∷ rest) position ds =
    guard (is_zero (ds.impl_of selector))
      (add_loop impl rest (position + 1) (add_function selector position impl ds))

abbrev pub is_empty : List String → Bool
is_empty [] = true
is_empty (_ ∷ _) = false

-- The proxy's own address, and which addresses have code.
module _ (self : String) (has_code : String → Bool) where
  unfoldable pub add_facet : String → Storage → Option Storage
  add_facet impl ds = guard (has_code impl) (
      some (record ds {
        address_position = assign ds.address_position impl (length ds.addresses);
        addresses = ds.addresses ++ impl ∷ [];
      }))

  unfoldable pub remove_function : String → String → Storage → Option Storage
  remove_function impl selector ds = guard (not (is_zero impl)) (
      guard (not (str_eq impl self)) (
        guard (not (length (ds.selectors_of impl) == 0)) (
          swap_selector impl (ds.position_of selector) (length (ds.selectors_of impl) - 1) ds
          >>= (λ d.
              let e = drop_selector impl selector d in
              if length (ds.selectors_of impl) - 1 == 0 then remove_address impl e else some e))))

  unfoldable pub replace_loop : String → List String → ℕ → Storage → Option Storage
  replace_loop impl [] position ds = some ds
  replace_loop impl (selector ∷ rest) position ds =
      guard (not (str_eq (ds.impl_of selector) impl)) (
        remove_function (ds.impl_of selector) selector ds
        >>= (λ d. replace_loop impl rest (position + 1) (add_function selector position impl d)))

  unfoldable pub remove_loop : List String → Storage → Option Storage
  remove_loop [] ds = some ds
  remove_loop (selector ∷ rest) ds =
      remove_function (ds.impl_of selector) selector ds >>= remove_loop rest

  -- A new implementation is entered with its first selectors.
  abbrev pub enter : String → Storage → Option Storage
  enter impl ds = if is_empty (ds.selectors_of impl) then add_facet impl ds else some ds

  -- `addFunctions`, `replaceFunctions` and `removeFunctions`, past the check that there are selectors.
  abbrev pub dispatch : Action → String → List String → Storage → Option Storage
  dispatch add impl selectors ds =
      guard (not (is_zero impl))
        (enter impl ds >>= add_loop impl selectors (length (ds.selectors_of impl)))
  dispatch replace impl selectors ds =
      guard (not (is_zero impl))
        (enter impl ds >>= replace_loop impl selectors (length (ds.selectors_of impl)))
  dispatch remove impl selectors ds = guard (is_zero impl) (remove_loop selectors ds)

  unfoldable pub cut : Cut → Storage → Option Storage
  cut c ds =
      guard (not (is_empty c.function_selectors))
        (dispatch c.action c.impl_address c.function_selectors ds)

  -- `updateImplementation`; the scripts give no initialiser.
  unfoldable pub update_implementation : List Cut → Storage → Option Storage
  update_implementation [] ds = some ds
  update_implementation (c ∷ rest) ds = cut c ds >>= update_implementation rest
