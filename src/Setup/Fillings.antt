-- ===== src/Setup/Fillings.antt =====
-- The implementations that the reserves of a chunk get, and that the chunk is listed then.
use paraspace_core.Prelude.{
  if◌then◌else◌, ℕ, String, str_eq, Bool, true, false, not, ◌||◌, ◌&&◌, Option, none, some, List,
  [], ◌∷◌, ◌++◌, ◌>>=◌, ◌≡◌, ◌∙◌, refl, sym, ap, subst, map, append-nil, append_assoc, All, any,
  length, ltb,
}
use paraspace_core.Market.Everywhere.{both}
use paraspace_core.Setup.{address_of}
use paraspace_core.Setup.Found.{address_of-own, address_of-nonempty}
use paraspace_core.Setup.Sources.{IsAddressing, ensure-gives}
use paraspace_core.Reserves.Configurator.{guard}
use paraspace_core.Setup.Registry.{put, fresh, ensure}
use paraspace_core.Setup.Init.{XTokenType, InitReserveInput}
use paraspace_core.Setup.Tokens.{
  Chain, max_reserves_count, init_reserve, init_loop, x_token_for, debt_token_for, is_deployed_anew,
  needs_apes, has_apes, Progress, impl_kind, get_impl, fill_input, fill_inputs, address,
}

-- The tokens of BAYC and MAYC are there if an implementation needs them.
abbrev is_ready : List String → String → Bool
is_ready tokens impl = not (needs_apes impl) || has_apes tokens

-- A step that succeeds hands its result on.
pub then_some {ℓ κ} :
    {A : Type ℓ} {B : Type κ} {m : Option A} {a : A} (k : A → Option B)
    → m ≡ some a
    → (m >>= k) ≡ k a
then_some k e = ap (λ m. m >>= k) e

three_guards {ℓ} :
    {A : Type ℓ} {a b c : Bool} {o : Option A}
    → a ≡ true
    → b ≡ true
    → c ≡ true
    → guard a (guard b (guard c o)) ≡ o
three_guards p q r = rw (p, q, r) refl

found-nonempty :
    (l : List (String × String)) (n a : String)
    → address_of l n ≡ some a
    → str_eq (elim (address_of l n) [ none ↦ "" | some b ↦ b ]) "" ≡ false
found-nonempty l n a h = rw h (address_of-nonempty l n a h)

module _ (chain : Chain) (impl_at : ℕ → String) (type_of : String → XTokenType) where
  -- The addresses of the implementations differ, and none is an empty text.
  abbrev pub AreAddresses : Type 0
  AreAddresses = IsAddressing (impl_kind chain false impl_at type_of)

  -- The implementation has an address now, and the chain is as before.
  abbrev HasImpl : String → Progress → Progress → Type 0
  HasImpl impl p q =
      (q.x_tokens ≡ p.x_tokens)
      × (q.listed ≡ p.listed)
      × (str_eq (address chain false impl_at type_of q impl) "" ≡ false)

  get_impl-some :
      (impl : String) (p : Progress)
      → AreAddresses
      → is_ready p.x_tokens impl ≡ true
      → (q : Progress) × (get_impl chain false impl_at type_of impl p ≡ some q) × HasImpl impl p q
  get_impl-some impl p addresses h =
      go (is_deployed_anew impl) (address_of p.implementations.addresses impl) refl
        (needs_apes impl) (has_apes p.x_tokens) h
    where
      go :
          (b : Bool) (o : Option String)
          → address_of p.implementations.addresses impl ≡ o
          → (c d : Bool) → not c || d ≡ true
          → (q : Progress) × ((if b
                then some (record p {
                  implementations =
                      put (impl_kind chain false impl_at type_of) impl fresh p.implementations;
                })
                else elim o [
                  | some _ ↦ some p
                  | none ↦
                      if c && not d
                      then none
                      else some (record p {
                        implementations =
                            ensure (impl_kind chain false impl_at type_of) impl p.implementations;
                      })
                ])
              ≡ some q)
            × HasImpl impl p q
      go true o e c d h = (
        _,
        refl,
        (
          refl,
          refl,
          found-nonempty _ impl (impl_at (length p.implementations.deployed)) (
              address_of-own p.implementations.addresses impl
                (impl_at (length p.implementations.deployed))
                (addresses.at-nonempty (length p.implementations.deployed))),
        ),
      )
      go false (some a) e c d h =
          (_, refl, (refl, refl, found-nonempty p.implementations.addresses impl a e))
      go false none e true true h =
          let got =
            ensure-gives (impl_kind chain false impl_at type_of) impl p.implementations addresses in
          (_, refl, (refl, refl, found-nonempty _ impl got.0 got.1))
      go false none e true false h = cc
      go false none e false d h =
          let got =
            ensure-gives (impl_kind chain false impl_at type_of) impl p.implementations addresses in
          (_, refl, (refl, refl, found-nonempty _ impl got.0 got.1))

  abbrev pub is_input_ready : List String → InitReserveInput → Bool
  is_input_ready tokens i =
      is_ready tokens (x_token_for (type_of i.underlying_asset_name) i.underlying_asset_name)
      && is_ready tokens (debt_token_for (type_of i.underlying_asset_name) i.underlying_asset_name)

  abbrev pub are_inputs_ready : List String → List InitReserveInput → Bool
  are_inputs_ready tokens [] = true
  are_inputs_ready tokens (i ∷ rest) = is_input_ready tokens i && are_inputs_ready tokens rest

  abbrev pub symbols : List InitReserveInput → List String
  symbols inputs = map (λ i. i.x_token_symbol) inputs

  -- The tokens of the reserve can be created over any implementations that have addresses.
  abbrev pub IsCreatable : InitReserveInput → Type 0
  IsCreatable i =
      (x d : String)
      → str_eq x "" ≡ false
      → str_eq d "" ≡ false
      → chain.creates (record i { x_token_impl = x; variable_debt_token_impl = d }) ≡ true

  -- The asset is not listed, and there is a place for it.
  abbrev pub has_room : List String → InitReserveInput → Bool
  has_room listed i =
      not (any (str_eq i.underlying_asset) listed) && ltb (length listed) max_reserves_count

  abbrev pub have_room : List String → List InitReserveInput → Bool
  have_room listed [] = true
  have_room listed (i ∷ rest) =
      has_room listed i && have_room (listed ++ i.underlying_asset ∷ []) rest

  abbrev pub assets : List InitReserveInput → List String
  assets inputs = map (λ i. i.underlying_asset) inputs

  -- What becomes of an input keeps its symbol and asset, and is listed where there is room.
  abbrev pub IsFilled : InitReserveInput → InitReserveInput → Type 0
  IsFilled i j =
      (j.x_token_symbol ≡ i.x_token_symbol)
      × ((l : List String)
          → has_room l i ≡ true
          → init_reserve chain j l ≡ some (l ++ i.underlying_asset ∷ []))

  fill_input-some :
      (i : InitReserveInput) (p : Progress)
      → AreAddresses
      → IsCreatable i
      → is_input_ready p.x_tokens i ≡ true
      → (j : InitReserveInput) × (q : Progress) × (fill_input chain false impl_at type_of i p
          ≡ some (j, q))
        × IsFilled i j
        × (q.x_tokens ≡ p.x_tokens)
        × (q.listed ≡ p.listed)
  unfolding fill_input
  fill_input-some i p addresses creatable h =
      let symbol = i.underlying_asset_name in
      let x_token = x_token_for (type_of symbol) symbol in
      let debt = debt_token_for (type_of symbol) symbol in
      let parts = both (is_ready p.x_tokens x_token) (is_ready p.x_tokens debt) h in
      let (q, eq, (sq, lq, ex)) = get_impl-some x_token p addresses parts.0 in
      let (r, er, (sr, lr, ed)) =
        get_impl-some debt q addresses (subst (λ l. is_ready l debt ≡ true) (sym sq) parts.1) in
      let made : chain.creates (record i {
        x_token_impl = address chain false impl_at type_of q x_token;
        variable_debt_token_impl = address chain false impl_at type_of r debt;
      })
          ≡ true =
        creatable (address chain false impl_at type_of q x_token)
          (address chain false impl_at type_of r debt) ex ed in
      (
        record i {
          x_token_impl = address chain false impl_at type_of q x_token;
          variable_debt_token_impl = address chain false impl_at type_of r debt;
        },
        r,
        then_some
              (λ q. get_impl chain false impl_at type_of debt q >>= (λ r. some (
                record i {
                  x_token_impl = address chain false impl_at type_of q x_token;
                  variable_debt_token_impl = address chain false impl_at type_of r debt;
                },
                r,
              )))
              eq
            ∙ then_some
                (λ r. some (
                  record i {
                    x_token_impl = address chain false impl_at type_of q x_token;
                    variable_debt_token_impl = address chain false impl_at type_of r debt;
                  },
                  r,
                ))
                er,
        (
          refl,
          λ l room.
              let free =
                both (not (any (str_eq i.underlying_asset) l)) (ltb (length l) max_reserves_count)
                  room in
              three_guards made free.0 free.1,
        ),
        sr ∙ sq,
        lr ∙ lq,
      )

  pub fill_inputs-some :
      (inputs : List InitReserveInput) (p : Progress)
      → AreAddresses
      → All IsCreatable inputs
      → are_inputs_ready p.x_tokens inputs ≡ true
      → (filled : List InitReserveInput) × (q : Progress) × (fill_inputs chain false impl_at type_of
            inputs p
          ≡ some (filled, q))
        × (symbols filled ≡ symbols inputs)
        × ((l : List String)
            → have_room l inputs ≡ true
            → init_loop chain filled l ≡ some (l ++ assets inputs))
        × (q.x_tokens ≡ p.x_tokens)
        × (q.listed ≡ p.listed)
  unfolding fill_inputs init_loop
  fill_inputs-some [] p addresses c h =
      ([], p, refl, refl, λ l room. ap some (sym (append-nil l)), refl, refl)
  fill_inputs-some (i ∷ rest) p addresses (c, cs) h =
      let parts = both (is_input_ready p.x_tokens i) (are_inputs_ready p.x_tokens rest) h in
      let (j, q, ei, (si, listing), qi, li) = fill_input-some i p addresses c parts.0 in
      let (filled, r, er, sr, listings, qr, lr) =
        fill_inputs-some rest q addresses cs
          (subst (λ l. are_inputs_ready l rest ≡ true) (sym qi) parts.1) in
      (
        j ∷ filled,
        r,
        then_some
              (λ t.
                fill_inputs chain false impl_at type_of rest t.1 >>= (λ u. some (t.0 ∷ u.0, u.1)))
              ei
            ∙ then_some (λ u. some (j ∷ u.0, u.1)) er,
        ap (λ x. x ∷ symbols filled) si ∙ ap (λ l. i.x_token_symbol ∷ l) sr,
        λ l room.
            let free = both (has_room l i) (have_room (l ++ i.underlying_asset ∷ []) rest) room in
            then_some (init_loop chain filled) (listing l free.0)
            ∙ listings (l ++ i.underlying_asset ∷ []) free.1
            ∙ ap some (append_assoc l (i.underlying_asset ∷ []) (assets rest)),
        qr ∙ qi,
        lr ∙ li,
      )
