-- ===== src/Upgrade/Routing.antt =====
-- What the proxy's functions do to the routing, that is, to the implementation of each selector.
use paraspace_core.Prelude.{
  if◌then◌else◌, ◌==◌, ℕ, ◌+◌, ◌-◌, String, str_eq, Bool, true, false, not, ◌||◌, Option, none,
  some, List, [], ◌∷◌, ◌>>=◌, length, get_elem?, ◌≡◌, ◌∙◌, refl, sym, ap, fun_ext, eq_iff,
}
use paraspace_core.Market.Common.{zero_address}
use paraspace_core.Reserves.Configurator.{guard}
use paraspace_core.Upgrade.{Storage, Action, add, replace, remove, Cut, includes, assign}
use paraspace_core.Upgrade.Proxy.{
  set_elem, pop, add_facet, add_function, swap_selector, swap_address, remove_address,
  drop_selector, remove_function, add_loop, replace_loop, remove_loop, is_zero, is_empty, enter,
  dispatch, cut,
}

-- What a step that succeeds has gone through.
guard-some :
    {A : Type 0} (b : Bool) (m : Option A) {a : A} → guard b m ≡ some a → (b ≡ true) × (m ≡ some a)
guard-some true m h = (refl, h)
guard-some false m h = cc

pub bind-some :
    {A B : Type 0} (m : Option A) (k : A → Option B) {b : B}
    → (m >>= k) ≡ some b
    → (a : A) × (m ≡ some a) × (k a ≡ some b)
bind-some (some a) k h = (a, refl, h)
bind-some none k h = cc

abbrev routing_of : (String → String) → Option Storage → String → String
routing_of f none = f
routing_of f (some d) = d.impl_of

pub same_routing : {d e : Storage} → some d ≡ some e → e.impl_of ≡ d.impl_of
same_routing {d = d} h = ap (routing_of d.impl_of) (sym h)

-- The step leaves the routing as it is.
abbrev Keeps : (Storage → Option Storage) → Type 0
Keeps f = (ds e : Storage) → f ds ≡ some e → e.impl_of ≡ ds.impl_of

swap_selector-Keeps : (impl : String) (position last : ℕ) → Keeps (swap_selector impl position last)
unfolding swap_selector
swap_selector-Keeps impl position last ds e h = go (position == last) h
  where
    entered : String → List String → Storage
    entered x l = record ds {
      selectors_of = assign ds.selectors_of impl l;
      position_of = assign ds.position_of x position;
    }

    go :
        (b : Bool)
        → (if b
            then some ds
            else get_elem? (ds.selectors_of impl) last
              >>= (λ x. set_elem (ds.selectors_of impl) position x >>= (λ l. some (entered x l))))
          ≡ some e
        → e.impl_of ≡ ds.impl_of
    go true k = same_routing k
    go false k =
        let (x, e1, k1) =
          bind-some (get_elem? (ds.selectors_of impl) last)
            (λ x. set_elem (ds.selectors_of impl) position x >>= (λ l. some (entered x l))) k in
        let (l, e2, k2) =
          bind-some (set_elem (ds.selectors_of impl) position x) (λ l. some (entered x l)) k1 in
        same_routing k2

swap_address-Keeps : (position last : ℕ) → Keeps (swap_address position last)
unfolding swap_address
swap_address-Keeps position last ds e h = go (position == last) h
  where
    entered : String → List String → Storage
    entered x l = record ds {
      addresses = l;
      address_position = assign ds.address_position x position;
    }

    go :
        (b : Bool)
        → (if b
            then some ds
            else get_elem? ds.addresses last
              >>= (λ x. set_elem ds.addresses position x >>= (λ l. some (entered x l))))
          ≡ some e
        → e.impl_of ≡ ds.impl_of
    go true k = same_routing k
    go false k =
        let (x, e1, k1) =
          bind-some (get_elem? ds.addresses last)
            (λ x. set_elem ds.addresses position x >>= (λ l. some (entered x l))) k in
        let (l, e2, k2) =
          bind-some (set_elem ds.addresses position x) (λ l. some (entered x l)) k1 in
        same_routing k2

remove_address-Keeps : (impl : String) → Keeps (remove_address impl)
unfolding remove_address
remove_address-Keeps impl ds e h =
    let last = length ds.addresses - 1 in
    let (t, k) = guard-some (not (length ds.addresses == 0)) _ h in
    let (d, e1, k1) =
      bind-some (swap_address (ds.address_position impl) last ds)
        (λ d. some (record d {
          addresses = pop d.addresses;
          address_position = assign d.address_position impl 0;
        }))
        k in
    same_routing k1 ∙ swap_address-Keeps (ds.address_position impl) last ds d e1

-- Removing a selector takes its implementation away and leaves the rest.
remove_function-routes :
    (self : String) (has_code : String → Bool) (impl selector : String) (ds e : Storage)
    → remove_function self has_code impl selector ds ≡ some e
    → e.impl_of ≡ assign ds.impl_of selector zero_address
unfolding remove_function
remove_function-routes self has_code impl selector ds e h =
    let last = length (ds.selectors_of impl) - 1 in
    let (_, h1) = guard-some (not (is_zero impl)) _ h in
    let (_, h2) = guard-some (not (str_eq impl self)) _ h1 in
    let (_, h3) = guard-some (not (length (ds.selectors_of impl) == 0)) _ h2 in
    let (d, e1, h4) =
      bind-some (swap_selector impl (ds.position_of selector) last ds)
        (λ d.
          if last == 0
          then remove_address impl (drop_selector impl selector d)
          else some (drop_selector impl selector d))
        h3 in
    last_step (last == 0) (drop_selector impl selector d) h4
    ∙ ap (λ f. assign f selector zero_address)
        (swap_selector-Keeps impl (ds.position_of selector) last ds d e1)
  where
    last_step :
        (b : Bool) (d : Storage)
        → (if b then remove_address impl d else some d) ≡ some e
        → e.impl_of ≡ d.impl_of
    last_step true d k = remove_address-Keeps impl d e k
    last_step false d k = same_routing k

-- The routing after all selectors of a list have been led to one implementation.
abbrev pub lead : List String → String → (String → String) → String → String
lead selectors impl f = λ s. if includes selectors s then impl else f s

lead-cons :
    (selectors : List String) (x impl : String) (f : String → String)
    → lead selectors impl (assign f x impl) ≡ lead (x ∷ selectors) impl f
lead-cons selectors x impl f = fun_ext (λ s. merge (str_eq s x) (includes selectors s) (f s))
  where
    merge :
        (b c : Bool) (w : String)
        → (if c then impl else if b then impl else w) ≡ (if b || c then impl else w)
    merge true true w = refl
    merge true false w = refl
    merge false c w = refl

remove_loop-routes :
    (self : String) (has_code : String → Bool) (selectors : List String) (ds e : Storage)
    → remove_loop self has_code selectors ds ≡ some e
    → e.impl_of ≡ lead selectors zero_address ds.impl_of
unfolding remove_loop
remove_loop-routes self has_code [] ds e h = same_routing h
remove_loop-routes self has_code (x ∷ rest) ds e h =
    let (d, e1, k) =
      bind-some (remove_function self has_code (ds.impl_of x) x ds) (remove_loop self has_code rest)
        h in
    remove_loop-routes self has_code rest d e k
    ∙ ap (lead rest zero_address) (remove_function-routes self has_code (ds.impl_of x) x ds d e1)
    ∙ lead-cons rest x zero_address ds.impl_of

add_loop-routes :
    (impl : String) (selectors : List String) (position : ℕ) (ds e : Storage)
    → add_loop impl selectors position ds ≡ some e
    → e.impl_of ≡ lead selectors impl ds.impl_of
unfolding add_loop add_function
add_loop-routes impl [] position ds e h = same_routing h
add_loop-routes impl (x ∷ rest) position ds e h =
    let (_, k) =
      guard-some (is_zero (ds.impl_of x))
        (add_loop impl rest (position + 1) (add_function x position impl ds)) h in
    add_loop-routes impl rest (position + 1) (add_function x position impl ds) e k
    ∙ lead-cons rest x impl ds.impl_of

assign_twice : (f : String → String) (x a b : String) → assign (assign f x a) x b ≡ assign f x b
assign_twice f x a b = fun_ext (λ s. again (str_eq s x) (f s))
  where
    again : (t : Bool) (w : String) → (if t then b else if t then a else w) ≡ (if t then b else w)
    again true w = refl
    again false w = refl

replace_loop-routes :
    (self : String) (has_code : String → Bool) (impl : String) (selectors : List String)
    (position : ℕ) (ds e : Storage)
    → replace_loop self has_code impl selectors position ds ≡ some e
    → e.impl_of ≡ lead selectors impl ds.impl_of
unfolding replace_loop add_function
replace_loop-routes self has_code impl [] position ds e h = same_routing h
replace_loop-routes self has_code impl (x ∷ rest) position ds e h =
    let (_, k) = guard-some (not (str_eq (ds.impl_of x) impl)) _ h in
    let (d, e1, k1) =
      bind-some (remove_function self has_code (ds.impl_of x) x ds)
        (λ d. replace_loop self has_code impl rest (position + 1) (add_function x position impl d))
        k in
    replace_loop-routes self has_code impl rest (position + 1) (add_function x position impl d) e k1
    ∙ ap (λ f. lead rest impl (assign f x impl))
        (remove_function-routes self has_code (ds.impl_of x) x ds d e1)
    ∙ ap (lead rest impl) (assign_twice ds.impl_of x zero_address impl)
    ∙ lead-cons rest x impl ds.impl_of

enter-Keeps :
    (self : String) (has_code : String → Bool) (impl : String) → Keeps (enter self has_code impl)
unfolding add_facet
enter-Keeps self has_code impl ds e h = go (is_empty (ds.selectors_of impl)) h
  where
    go :
        (b : Bool)
        → (if b then add_facet self has_code impl ds else some ds) ≡ some e
        → e.impl_of ≡ ds.impl_of
    go true k = same_routing (guard-some (has_code impl) _ k).1
    go false k = same_routing k

dispatch-routes :
    (self : String) (has_code : String → Bool) (action : Action) (impl : String)
    (selectors : List String) (ds e : Storage)
    → dispatch self has_code action impl selectors ds ≡ some e
    → e.impl_of ≡ lead selectors impl ds.impl_of
dispatch-routes self has_code add impl selectors ds e h =
    let (_, k) = guard-some (not (is_zero impl)) _ h in
    let (d, e1, k1) =
      bind-some (enter self has_code impl ds)
        (add_loop impl selectors (length (ds.selectors_of impl))) k in
    add_loop-routes impl selectors (length (ds.selectors_of impl)) d e k1
    ∙ ap (lead selectors impl) (enter-Keeps self has_code impl ds d e1)
dispatch-routes self has_code replace impl selectors ds e h =
    let (_, k) = guard-some (not (is_zero impl)) _ h in
    let (d, e1, k1) =
      bind-some (enter self has_code impl ds)
        (replace_loop self has_code impl selectors (length (ds.selectors_of impl))) k in
    replace_loop-routes self has_code impl selectors (length (ds.selectors_of impl)) d e k1
    ∙ ap (lead selectors impl) (enter-Keeps self has_code impl ds d e1)
dispatch-routes self has_code remove impl selectors ds e h =
    let (t, k) = guard-some (is_zero impl) (remove_loop self has_code selectors ds) h in
    let zero_impl : impl ≡ zero_address = (eq_iff impl zero_address).0 t in
    remove_loop-routes self has_code selectors ds e k
    ∙ ap (λ a. lead selectors a ds.impl_of) (sym zero_impl)

-- A cut that is accepted leads its selectors to its address.
pub cut-routes :
    (self : String) (has_code : String → Bool) (c : Cut) (ds e : Storage)
    → cut self has_code c ds ≡ some e
    → e.impl_of ≡ lead c.function_selectors c.impl_address ds.impl_of
unfolding cut
cut-routes self has_code c ds e h =
    dispatch-routes self has_code c.action c.impl_address c.function_selectors ds e
      (guard-some (not (is_empty c.function_selectors))
        (dispatch self has_code c.action c.impl_address c.function_selectors ds) h).1
