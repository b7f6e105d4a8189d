-- ===== src/Upgrade/Tests.antt =====
-- The upgrade of a proxy with one implementation.
use paraspace_core.Prelude.{
  if◌then◌else◌, String, str_eq, Bool, false, Option, none, some, [], ◌∷◌, ◌≡◌, refl,
}
use paraspace_core.Market.Common.{zero_address}
use paraspace_core.Upgrade.{Storage}
use paraspace_core.Upgrade.Proxy.{
  set_elem, add_facet, add_function, swap_selector, swap_address, remove_address, remove_function,
  add_loop, replace_loop, remove_loop, cut, update_implementation,
}
use paraspace_core.Upgrade.Scripts.{
  Implementation, Progress, filter, to_add, to_replace, to_remove, cuts_of,
  upgrade_proxy_implementations,
}
use paraspace_core.Upgrade.Refines.{install_all, upgrade_proxy_implementations-refines}

-- The selectors "a" and "b" of the old implementation.
abbrev proxy : Storage
proxy = record {
  impl_of = λ s. if str_eq s "a" then "old" else if str_eq s "b" then "old" else zero_address;
  position_of = λ s. if str_eq s "b" then 1 else 0;
  selectors_of = λ i. if str_eq i "old" then "a" ∷ "b" ∷ [] else [];
  addresses = "old" ∷ [];
  address_position = λ _. 0;
}

abbrev start : Progress
start = record { proxy = proxy; encoded = [] }

abbrev has_code : String → Bool
has_code a = str_eq a "new"

-- The new one keeps "b" and adds "c".
abbrev implementation : Implementation
implementation = record {
  address = "new";
  new_selectors = "b" ∷ "c" ∷ [];
  old_selectors = "a" ∷ "b" ∷ [];
}

abbrev result : Option Progress → Progress
result none = start
result (some q) = q

abbrev end : Progress
end = result (upgrade_proxy_implementations "proxy" has_code false (implementation ∷ []) start)

upgrade_test :
    upgrade_proxy_implementations "proxy" has_code false (implementation ∷ []) start ≡ some end
unfolding upgrade_proxy_implementations cuts_of to_add to_replace to_remove filter
    update_implementation cut remove_loop replace_loop add_loop remove_function add_function
    add_facet swap_selector swap_address remove_address set_elem
upgrade_test = refl

-- Only the new implementation is left.
addresses_test : end.proxy.addresses ≡ "new" ∷ []
unfolding upgrade_proxy_implementations cuts_of to_add to_replace to_remove filter
    update_implementation cut remove_loop replace_loop add_loop remove_function add_function
    add_facet swap_selector swap_address remove_address set_elem
addresses_test = refl

upgrade_proxy_implementations-refines_example :
    end.proxy.impl_of ≡ install_all (implementation ∷ []) start.proxy.impl_of
upgrade_proxy_implementations-refines_example =
    upgrade_proxy_implementations-refines "proxy" has_code (implementation ∷ []) start end
      upgrade_test
