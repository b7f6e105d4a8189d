-- ===== src/Upgrade/Refines.antt =====
-- The upgrade scripts refine an abstract upgrade of the routing.
use paraspace_core.Prelude.{
  if◌then◌else◌, String, str_eq, Bool, true, false, not, ◌||◌, ◌&&◌, none, some, List, [], ◌∷◌,
  ◌++◌, map, concat, ◌≡◌, ◌∙◌, refl, sym, ap, inl, inr, Bool-cases, fun_ext, eq_iff,
}
use paraspace_core.Market.Common.{zero_address}
use paraspace_core.Upgrade.{Storage, Action, add, replace, remove, Cut, includes}
use paraspace_core.Upgrade.Proxy.{cut, update_implementation}
use paraspace_core.Upgrade.Routing.{lead, cut-routes, bind-some, same_routing}
use paraspace_core.Upgrade.Scripts.{
  Implementation, Progress, filter, cut_if, to_add, to_replace, to_remove, cuts_of,
  upgrade_proxy_implementations,
}

-- The abstract upgrade: a selector of the new contract is led to it, one that only the old contract
-- had is led nowhere, and the others stay.
unfoldable pub install : Implementation → (String → String) → String → String
install i f = λ s.
    if includes i.new_selectors s
    then i.address
    else if includes i.old_selectors s
    then zero_address
    else f s

unfoldable pub install_all : List Implementation → (String → String) → String → String
install_all [] f = f
install_all (i ∷ rest) f = install_all rest (install i f)

-- The routing after cuts that are all accepted.
abbrev lead_all : List Cut → (String → String) → String → String
lead_all [] f = f
lead_all (c ∷ rest) f = lead_all rest (lead c.function_selectors c.impl_address f)

lead_all-append :
    (xs ys : List Cut) (f : String → String) → lead_all (xs ++ ys) f ≡ lead_all ys (lead_all xs f)
lead_all-append [] ys f = refl
lead_all-append (c ∷ xs) ys f = lead_all-append xs ys (lead c.function_selectors c.impl_address f)

update-leads :
    (self : String) (has_code : String → Bool) (cuts : List Cut) (ds e : Storage)
    → update_implementation self has_code cuts ds ≡ some e
    → e.impl_of ≡ lead_all cuts ds.impl_of
unfolding update_implementation
update-leads self has_code [] ds e h = same_routing h
update-leads self has_code (c ∷ rest) ds e h =
    let (d, e1, k) =
      bind-some (cut self has_code c ds) (update_implementation self has_code rest) h in
    update-leads self has_code rest d e k ∙ ap (lead_all rest) (cut-routes self has_code c ds d e1)

-- Leaving out an empty cut changes nothing.
cut_if-leads :
    (impl : String) (action : Action) (selectors : List String) (f : String → String)
    → lead_all (cut_if impl action selectors) f ≡ lead selectors impl f
cut_if-leads impl action [] f = refl
cut_if-leads impl action (x ∷ selectors) f = refl

taken_in : (b c d : Bool) → (b ≡ true → d ≡ true) → b || (c && d) ≡ (b || c) && d
taken_in true c d h = sym (h refl)
taken_in false c d h = refl

left_out : (b c d : Bool) → (b ≡ true → d ≡ false) → c && d ≡ (b || c) && d
left_out true true d h = refl
left_out true false d h = sym (h refl)
left_out false c d h = refl

includes-filter :
    (p : String → Bool) (l : List String) (s : String)
    → includes (filter p l) s ≡ includes l s && p s
unfolding filter
includes-filter p [] s = refl
includes-filter p (x ∷ l) s =
    let here : str_eq s x ≡ true → p s ≡ p x = λ e. ap p ((eq_iff s x).0 e) in
    elim (Bool-cases (p x)) [
      | inl t ↦ rw t (
          ap (λ b. str_eq s x || b) (includes-filter p l s)
          ∙ taken_in (str_eq s x) (includes l s) (p s) (λ e. here e ∙ t))
      | inr t ↦
          rw t
            (includes-filter p l s ∙ left_out (str_eq s x) (includes l s) (p s) (λ e. here e ∙ t))
    ]

-- The three tests, one after the other.
decide :
    (n o : Bool) (a z w : String)
    → (if n && not o then a else if n && o then a else if o && not n then z else w)
      ≡ (if n then a else if o then z else w)
decide true true a z w = refl
decide true false a z w = refl
decide false true a z w = refl
decide false false a z w = refl

-- The three cuts of an implementation amount to its installation.
cuts_of-installs : (i : Implementation) (f : String → String) → lead_all (cuts_of i) f ≡ install i f
unfolding cuts_of install to_add to_replace to_remove
cuts_of-installs i f =
    let first = cut_if zero_address remove (to_remove i) in
    let second = cut_if i.address replace (to_replace i) in
    let third = cut_if i.address add (to_add i) in
    let removed = lead (to_remove i) zero_address f in
    lead_all-append (first ++ second) third f
    ∙ ap (lead_all third) (lead_all-append first second f)
    ∙ cut_if-leads i.address add (to_add i) (lead_all second (lead_all first f))
    ∙ ap (lead (to_add i) i.address) (
        cut_if-leads i.address replace (to_replace i) (lead_all first f)
        ∙ ap (lead (to_replace i) i.address) (cut_if-leads zero_address remove (to_remove i) f))
    ∙ fun_ext (λ s.
      let n = includes i.new_selectors s in
      let o = includes i.old_selectors s in
      rw
        (
          includes-filter (λ x. not (includes i.old_selectors x)) i.new_selectors s,
          includes-filter (λ x. includes i.old_selectors x) i.new_selectors s,
          includes-filter (λ x. not (includes i.new_selectors x)) i.old_selectors s,
        )
        (decide n o i.address zero_address (f s)))

cuts-install :
    (implementations : List Implementation) (f : String → String)
    → lead_all (concat (map cuts_of implementations)) f ≡ install_all implementations f
unfolding install_all
cuts-install [] f = refl
cuts-install (i ∷ rest) f =
    lead_all-append (cuts_of i) (concat (map cuts_of rest)) f
    ∙ ap (lead_all (concat (map cuts_of rest))) (cuts_of-installs i f)
    ∙ cuts-install rest (install i f)

-- Where a live upgrade of any implementations is accepted, whatever selectors they and those before
-- them have, the proxy routes as the abstract upgrades do, one after the other: every selector of a
-- new contract to it, one that only the old contract had nowhere, and the others as before.
pub upgrade_proxy_implementations-refines :
    (self : String) (has_code : String → Bool) (implementations : List Implementation)
    (p q : Progress)
    → upgrade_proxy_implementations self has_code false implementations p ≡ some q
    → q.proxy.impl_of ≡ install_all implementations p.proxy.impl_of
unfolding upgrade_proxy_implementations
upgrade_proxy_implementations-refines self has_code implementations p q h =
    let cuts = concat (map cuts_of implementations) in
    let (e, accepted, k) =
      bind-some (update_implementation self has_code cuts p.proxy)
        (λ ds. some (record p { proxy = ds })) h in
    proxy_routing k
    ∙ update-leads self has_code cuts p.proxy e accepted
    ∙ cuts-install implementations p.proxy.impl_of
  where
    proxy_routing : {a b : Progress} → some a ≡ some b → b.proxy.impl_of ≡ a.proxy.impl_of
    proxy_routing {a = a} e =
        ap
          (λ o. elim o as (λ _. String → String) [
            | none ↦ a.proxy.impl_of
            | some x ↦ x.proxy.impl_of
          ])
          (sym e)
