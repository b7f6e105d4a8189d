-- ===== src/Oracles/Complete.antt =====
-- On a live network every token but the base currency gets an aggregator.
use paraspace_core.Prelude.{
  if◌then◌else◌, String, str_eq, Bool, true, false, not, ◌||◌, ◌&&◌, Option, none, some, List, [],
  ◌∷◌, ◌++◌, ◌>>=◌, any, All, All-append, map-append, append-nil, append_assoc, ◌≡◌, ◌∙◌, refl, sym,
  ap, subst, inl, inr, Bool-cases,
}
use paraspace_core.Market.{MarketConfig}
use paraspace_core.Market.Everywhere.{both}
use paraspace_core.Setup.{address_of}
use paraspace_core.Oracles.{
  Aggregator, chainlink, Aggregators, get_aggregator, is_base, is_weth_based, Round, skipped,
  assigned, derive, choose, settle, deploy_loop, get_contract_addresses, keys,
  deploy_all_aggregators,
}

abbrev pub has : List String → String → Bool
has l s = any (λ k. str_eq k s) l

-- The value is there.
abbrev IsDefined : String × Option Aggregator → Type 0
IsDefined row = (a : Aggregator) × (row.1 ≡ some a)

get_aggregator-some :
    (l : Aggregators) (s : String)
    → All IsDefined l
    → has (keys l) s ≡ true
    → (a : Aggregator) × (get_aggregator l s ≡ some a)
unfolding get_aggregator
get_aggregator-some [] s h k = cc
get_aggregator-some ((key, o) ∷ l) s ((a, e), hs) k = elim (Bool-cases (str_eq key s)) [
  | inl t ↦ (a, rw t e)
  | inr t ↦ let later : has (keys l) s ≡ true = rw t at k in rw t (get_aggregator-some l s hs later)
]

-- The round gives the symbol an aggregator.
abbrev Gives : Round → Type 0
Gives r = (a : Aggregator) × (r ≡ assigned (some a))

either_Gives :
    (b : Bool) (x y : Round)
    → (b ≡ true → Gives x)
    → (b ≡ false → Gives y)
    → Gives (if b then x else y)
either_Gives true x y f g = f refl
either_Gives false x y f g = g refl

-- What a symbol is derived from has an aggregator already.
abbrev pub needs : List String → String → String → String → Bool
needs seen symbol derived source = not (str_eq symbol derived) || has seen source

abbrev pub is_satisfied : List String → String → Bool
is_satisfied seen symbol =
    needs seen symbol "wstETH" "stETH"
    && needs seen symbol "awstETH" "wstETH"
    && needs seen symbol "astETH" "stETH"

needed :
    (seen : List String) (symbol derived source : String)
    → needs seen symbol derived source ≡ true
    → str_eq symbol derived ≡ true
    → has seen source ≡ true
needed seen symbol derived source h t = rw t at h

module _ (m : MarketConfig) (tokens : List (String × String)) where
  derive-Gives :
      (l : Aggregators) (symbol : String)
      → All IsDefined l
      → is_satisfied (keys l) symbol ≡ true
      → Gives (derive m none tokens l symbol)
  unfolding derive
  derive-Gives l symbol h k =
      let first =
        both (needs (keys l) symbol "wstETH" "stETH" && needs (keys l) symbol "awstETH" "wstETH")
          (needs (keys l) symbol "astETH" "stETH") k in
      let second =
        both (needs (keys l) symbol "wstETH" "stETH") (needs (keys l) symbol "awstETH" "wstETH")
          first.0 in
      either_Gives (is_weth_based m.oracle && (str_eq symbol "bendETH" || str_eq symbol "aWETH")) _
        _ (λ t. (_, refl))
        (λ _.
          either_Gives (str_eq symbol "cETH") _ _ (λ t. (_, refl))
            (λ _.
              either_Gives (str_eq symbol "SFVLDR") _ _ (λ t. (_, refl))
                (λ _.
                  either_Gives (str_eq symbol "wstETH") _ _
                    (λ t.
                      let (a, e) =
                        get_aggregator-some l "stETH" h
                          (needed (keys l) symbol "wstETH" "stETH" second.0 t) in
                      rw e (_, refl))
                    (λ _.
                      either_Gives (str_eq symbol "awstETH") _ _
                        (λ t.
                          let (a, e) =
                            get_aggregator-some l "wstETH" h
                              (needed (keys l) symbol "awstETH" "wstETH" second.1 t) in
                          rw e (_, refl))
                        (λ _.
                          either_Gives (str_eq symbol "astETH") _ _
                            (λ t.
                              let (a, e) =
                                get_aggregator-some l "stETH" h
                                  (needed (keys l) symbol "astETH" "stETH" first.1 t) in
                              rw e (_, refl))
                            (λ _.
                              either_Gives (str_eq symbol "rETH") _ _ (λ t. (_, refl))
                                (λ _.
                                  either_Gives (str_eq symbol "UniswapV3") _ _ (λ t. (_, refl))
                                    (λ _. (_, refl)))))))))

  abbrev has_feed : String → Bool
  has_feed symbol = elim (address_of m.chainlink symbol) [ none ↦ false | some _ ↦ true ]

  abbrev pub seen_with : String → List String → List String
  seen_with symbol seen = if is_base m.oracle symbol then seen else seen ++ symbol ∷ []

  -- Every symbol is the base currency, has a feed, or comes after what it is derived from.
  unfoldable pub are_ordered : List String → List String → Bool
  are_ordered seen [] = true
  are_ordered seen (symbol ∷ rest) =
      (is_base m.oracle symbol || has_feed symbol || is_satisfied seen symbol)
      && are_ordered (seen_with symbol seen) rest

  -- The symbols but the base currency.
  unfoldable pub priced : List String → List String
  priced [] = []
  priced (symbol ∷ rest) = if is_base m.oracle symbol then priced rest else symbol ∷ priced rest

  choose-Gives :
      (l : Aggregators) (symbol : String)
      → All IsDefined l
      → is_base m.oracle symbol ≡ false
      → has_feed symbol || is_satisfied (keys l) symbol ≡ true
      → Gives (choose m none tokens l symbol)
  unfolding choose
  choose-Gives l symbol h t k = rw t (go (address_of m.chainlink symbol) k)
    where
      go :
          (o : Option String)
          → (elim o [ none ↦ false | some _ ↦ true ]) || is_satisfied (keys l) symbol ≡ true
          → Gives (elim o [
            | some feed ↦ assigned (some (chainlink feed))
            | none ↦ derive m none tokens l symbol
          ])
      go none k' = derive-Gives l symbol h k'
      go (some feed) k' = (chainlink feed, refl)

  choose-base :
      (l : Aggregators) (symbol : String)
      → is_base m.oracle symbol ≡ true
      → choose m none tokens l symbol ≡ skipped
  unfolding choose
  choose-base l symbol t = rw t refl

  abbrev Ends : List String → Aggregators → Type 0
  Ends symbols l =
      (r : Aggregators) × (deploy_loop m none tokens symbols l ≡ some r)
      × All IsDefined r
      × (keys r ≡ keys l ++ priced symbols)

  deploy_loop-some :
      (symbols : List String) (l : Aggregators)
      → All IsDefined l
      → are_ordered (keys l) symbols ≡ true
      → Ends symbols l
  unfolding deploy_loop are_ordered priced
  deploy_loop-some [] l h k = (l, refl, h, sym (append-nil (keys l)))
  deploy_loop-some (symbol ∷ rest) l h k =
      let parts =
        both (is_base m.oracle symbol || has_feed symbol || is_satisfied (keys l) symbol)
          (are_ordered (seen_with symbol (keys l)) rest) k in
      elim (Bool-cases (is_base m.oracle symbol)) [
        | inl t ↦
            let (r, e, d, s) = deploy_loop-some rest l h (rw t at parts.1) in
            (
              r,
              ap (λ x. settle m none tokens x symbol l >>= deploy_loop m none tokens rest)
                    (choose-base l symbol t)
                  ∙ e,
              d,
              rw t s,
            )
        | inr t ↦
            let (a, g) = choose-Gives l symbol h t (rw t at parts.0) in
            let l' = l ++ (symbol, some a) ∷ [] in
            let more : keys l' ≡ keys l ++ symbol ∷ [] =
              map-append (λ row. row.0) l ((symbol, some a) ∷ []) in
            let next : are_ordered (keys l ++ symbol ∷ []) rest ≡ true = rw t at parts.1 in
            let (r, e, d, s) =
              deploy_loop-some rest l'
                (All-append IsDefined l ((symbol, some a) ∷ []) h ((a, refl), tt))
                (subst (λ x. are_ordered x rest ≡ true) (sym more) next) in
            (
              r,
              ap (λ x. settle m none tokens x symbol l >>= deploy_loop m none tokens rest) g ∙ e,
              d,
              rw t (
                  s
                  ∙ ap (λ x. x ++ priced rest) more
                  ∙ append_assoc (keys l) (symbol ∷ []) (priced rest)),
            )
      ]

  get_contract_addresses-some :
      (l : Aggregators)
      → All IsDefined l
      → (q : List (String × Aggregator)) × (get_contract_addresses l ≡ some q) × (keys q ≡ keys l)
  unfolding get_contract_addresses
  get_contract_addresses-some [] h = ([], refl, refl)
  get_contract_addresses-some ((symbol, some a) ∷ l) (h, hs) =
      let (q, e, s) = get_contract_addresses-some l hs in
      ((symbol, a) ∷ q, ap (λ o. o >>= (λ r. some ((symbol, a) ∷ r))) e, ap (λ r. symbol ∷ r) s)
  get_contract_addresses-some ((symbol, none) ∷ l) ((a, e), hs) = cc

  -- Without prices for mocks, where every token is the base currency, has a Chainlink feed, or comes
  -- after the token whose aggregator its own is made from, the deployment ends without an exception,
  -- and exactly the tokens but the base currency have an aggregator, in order.
  pub deploy_all_aggregators-some :
      are_ordered [] (keys tokens) ≡ true
      → (q : List (String × Aggregator)) × (deploy_all_aggregators m none tokens ≡ some q)
        × (keys q ≡ priced (keys tokens))
  unfolding deploy_all_aggregators
  deploy_all_aggregators-some h =
      let (r, e, d, s) = deploy_loop-some (keys tokens) [] tt h in
      let (q, e', s') = get_contract_addresses-some r d in
      (q, ap (λ o. o >>= get_contract_addresses) e ∙ e', s' ∙ s)
