-- ===== src/Setup/Rows.antt =====
-- The strategies in the rows that `initReservesByHelper` collects.
use paraspace_core.Prelude.{
  String, Option, none, some, List, [], ◌∷◌, ◌++◌, ◌≡◌, ◌∙◌, refl, sym, ap, map,
}
use paraspace_core.Market.{ReserveParams}
use paraspace_core.Setup.{address_of}
use paraspace_core.Setup.Registry.{Registry, Kind, ensure, ensure_all}
use paraspace_core.Setup.Sources.{IsAddressing, ensure_all-stays, ensure-gives}
use paraspace_core.Setup.Init.{
  Deployer, Registries, InitRow, rate_kind, auction_kind, time_lock_kind, ensure_strategies, visit,
  to_row, collect_rows,
}

-- The parameters of the reserves that have a token address.
abbrev pub keep : Option String → ReserveParams → List ReserveParams → List ReserveParams
keep none params l = l
keep (some _) params l = params ∷ l

unfoldable pub present : List (String × String) → List (String × ReserveParams) → List ReserveParams
present tokens [] = []
present tokens ((symbol, params) ∷ rest) =
    keep (address_of tokens symbol) params (present tokens rest)

module _ (d : Deployer) where
  -- One kind after the other, over the reserves that are present.
  abbrev pub ensure_each : List ReserveParams → Registries → Registries
  ensure_each l r = record {
    rates = ensure_all (rate_kind d) (map (λ p. p.strategy) l) r.rates;
    auctions = ensure_all (auction_kind d) (map (λ p. p.auction_strategy) l) r.auctions;
    time_locks = ensure_all (time_lock_kind d) (map (λ p. p.time_lock_strategy) l) r.time_locks;
  }

  -- The registries after the loop.
  collect_rows-registries :
      (tokens : List (String × String)) (rows : List (String × ReserveParams)) (r : Registries)
      → (collect_rows d tokens rows r).0 ≡ ensure_each (present tokens rows) r
  unfolding collect_rows present ensure_all
  collect_rows-registries tokens [] r = refl
  collect_rows-registries tokens ((symbol, params) ∷ rest) r =
      go (collect_rows-registries tokens rest) (address_of tokens symbol)
    where
      go :
          ((s : Registries)
            → (collect_rows d tokens rest s).0 ≡ ensure_each (present tokens rest) s)
          → (o : Option String)
          → (collect_rows d tokens rest (visit d o symbol params r).0).0
            ≡ ensure_each (keep o params (present tokens rest)) r
      go later none = later r
      go later (some token) = later (ensure_strategies d params r)

  -- The addresses of a row, and those that the names of its strategies have in registries.
  abbrev pub addresses_of : InitRow → Option String × Option String × Option String
  addresses_of row = (row.rate, row.auction, row.time_lock)

  abbrev pub look_up_all :
      Registries → ReserveParams → Option String × Option String × Option String
  look_up_all r p = (
    address_of r.rates.addresses p.strategy.name,
    address_of r.auctions.addresses p.auction_strategy.name,
    address_of r.time_locks.addresses p.time_lock_strategy.name,
  )

  abbrev pub AreAddressings : Type 0
  AreAddressings =
      IsAddressing (rate_kind d) × IsAddressing (auction_kind d) × IsAddressing (time_lock_kind d)

  -- An address found once is found at the end.
  same_later {ℓ} :
      {A : Type ℓ} (kind : Kind A) (x : A) (xs : List A) (r : Registry A)
      → IsAddressing kind
      → address_of (ensure kind x r).addresses (kind.name x)
        ≡ address_of (ensure_all kind xs (ensure kind x r)).addresses (kind.name x)
  same_later kind x xs r h =
      let (a, e) = ensure-gives kind x r h in
      e ∙ sym (ensure_all-stays kind xs (ensure kind x r) (kind.name x) a e)

  row-final :
      (tokens : List (String × String)) (rest : List (String × ReserveParams))
      (symbol token : String) (params : ReserveParams) (r : Registries)
      → AreAddressings
      → addresses_of (to_row d symbol token params (ensure_strategies d params r))
        ≡ look_up_all (collect_rows d tokens rest (ensure_strategies d params r)).0 params
  row-final tokens rest symbol token params r (hr, ha, ht) =
      let s = ensure_strategies d params r in
      let l = present tokens rest in
      let er = same_later (rate_kind d) params.strategy (map (λ p. p.strategy) l) r.rates hr in
      let ea =
        same_later (auction_kind d) params.auction_strategy (map (λ p. p.auction_strategy) l)
          r.auctions ha in
      let et =
        same_later (time_lock_kind d) params.time_lock_strategy (map (λ p. p.time_lock_strategy) l)
          r.time_locks ht in
      let au = address_of s.auctions.addresses params.auction_strategy.name in
      let tl = address_of s.time_locks.addresses params.time_lock_strategy.name in
      let last = look_up_all (ensure_each l s) params in
      ap (λ x. (x, au, tl)) er
      ∙ ap (λ x. (last.0, x, tl)) ea
      ∙ ap (λ x. (last.0, last.1, x)) et
      ∙ ap (λ q. look_up_all q params) (sym (collect_rows-registries tokens rest s))

  -- Where addresses are no empty texts and those of deployments differ, the rows' strategy
  -- addresses are, row by row, those that the names of the strategies have after the loop.
  pub collect_rows-final :
      (tokens : List (String × String)) (rows : List (String × ReserveParams)) (r : Registries)
      → AreAddressings
      → map addresses_of (collect_rows d tokens rows r).1
        ≡ map (look_up_all (collect_rows d tokens rows r).0) (present tokens rows)
  unfolding collect_rows present
  collect_rows-final tokens [] r h = refl
  collect_rows-final tokens ((symbol, params) ∷ rest) r h =
      go (λ s. collect_rows-final tokens rest s h) (address_of tokens symbol)
    where
      go :
          ((s : Registries)
            → map addresses_of (collect_rows d tokens rest s).1
              ≡ map (look_up_all (collect_rows d tokens rest s).0) (present tokens rest))
          → (o : Option String)
          → map addresses_of (
              (visit d o symbol params r).1
              ++ (collect_rows d tokens rest (visit d o symbol params r).0).1)
            ≡ map
                (look_up_all (collect_rows d tokens rest (visit d o symbol params r).0).0)
                (keep o params (present tokens rest))
      go later none = later r
      go later (some token) =
          let s = ensure_strategies d params r in
          let w = collect_rows d tokens rest s in
          ap (λ x. x ∷ map addresses_of w.1) (row-final tokens rest symbol token params r h)
          ∙ ap (λ t. look_up_all w.0 params ∷ t) (later s)
