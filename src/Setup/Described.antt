-- ===== src/Setup/Described.antt =====
-- The reserves of a market as the rows of its table describe them, against what the loop collects.
use paraspace_core.Prelude.{
  if◌then◌else◌, ◌==◌, ◌||◌, ℕ, String, str_eq, Bool, true, false, Option, none, some, List, [],
  ◌∷◌, ℤ, pos, negsuc, ◌≡◌, refl, inl, inr, Bool-cases, eq_iff, All,
}
use paraspace_core.Market.{ReserveParams}
use paraspace_core.Reserves.{Reserve, Pool}
use paraspace_core.Setup.{ConfigureReserveInput, address_of}
use paraspace_core.Setup.Helper.{is_skipped, already_enabled, add_input, collect_inputs}
use paraspace_core.Setup.Writes.{configured}
use paraspace_core.Setup.Configured.{after}

abbrev pub loan_of : ℤ → ℕ
loan_of (pos n) = n
loan_of (negsuc n) = 0

-- A reserve with the numbers of a row.
abbrev pub with_params : ReserveParams → Reserve → Reserve
with_params params r = record r {
  ltv = loan_of params.base_ltv_as_collateral;
  liquidation_threshold = params.liquidation_threshold;
  liquidation_bonus = params.liquidation_bonus;
  liquidation_protocol_fee =
      if params.liquidation_protocol_fee_percentage == 0
      then r.liquidation_protocol_fee
      else params.liquidation_protocol_fee_percentage;
  borrowing_enabled = params.borrowing_enabled || r.borrowing_enabled;
  borrow_cap = if params.borrowing_enabled then params.borrow_cap else r.borrow_cap;
  supply_cap = params.supply_cap;
  reserve_factor = params.reserve_factor;
}

abbrev is_token : Option String → String → Bool
is_token none k = false
is_token (some a) k = str_eq k a

-- A reserve with the numbers of every row for its token, the later over the earlier.
unfoldable pub described :
    List (String × String) → List (String × ReserveParams) → String → Reserve → Reserve
described tokens [] k r = r
described tokens ((symbol, params) ∷ rows) k r =
    described tokens rows k
      (if is_token (address_of tokens symbol) k then with_params params r else r)

-- The pool as the table describes it: a token that was a collateral before is left alone.
abbrev pub described_pool : List (String × String) → List (String × ReserveParams) → Pool → Pool
described_pool tokens rows p = record p {
  reserve = λ k.
      if (p.reserve k).liquidation_threshold == 0
      then described tokens rows k (p.reserve k)
      else p.reserve k;
}

-- The row is to be a collateral.
abbrev pub IsWanted : String × ReserveParams → Type 0
IsWanted row = is_skipped row.1 ≡ false

module _ (p : Pool) (tokens : List (String × String)) (k : String) where
  add_input-after :
      (o : Option String) (params : ReserveParams) (others : List ConfigureReserveInput)
      (f : Reserve → Reserve) (r : Reserve)
      → is_skipped params ≡ false
      → already_enabled p k ≡ false
      → ((q : Reserve) → after others k q ≡ f q)
      → after (add_input p o params others) k r
        ≡ f (if is_token o k then with_params params r else r)
  unfolding after configured
  add_input-after none params others f r wanted new rest = rest r
  add_input-after (some a) params others f r wanted new rest = elim (Bool-cases (str_eq k a)) [
    | inl t ↦
        let same : k ≡ a = (eq_iff k a).0 t in
        let new' : already_enabled p a ≡ false = rw same at new in
        rw (wanted, new', after, t) (rest (with_params params r))
    | inr e ↦ elim (Bool-cases (already_enabled p a)) [
      | inl t ↦ rw (wanted, t, e) (rest r)
      | inr n ↦ rw (wanted, n, after, e) (rest r)
    ]
  ]

  add_input-enabled :
      (o : Option String) (params : ReserveParams) (others : List ConfigureReserveInput)
      (r : Reserve)
      → is_skipped params ≡ false
      → already_enabled p k ≡ true
      → after others k r ≡ r
      → after (add_input p o params others) k r ≡ r
  unfolding after configured
  add_input-enabled none params others r wanted old rest = rest
  add_input-enabled (some a) params others r wanted old rest =
      elim (Bool-cases (already_enabled p a)) [
        | inl t ↦ rw (wanted, t) rest
        | inr n ↦ elim (Bool-cases (str_eq k a)) [
          | inl t ↦ let same : k ≡ a = (eq_iff k a).0 t in cc
          | inr e ↦ rw (wanted, n, after, e) rest
        ]
      ]

  collect_inputs-described :
      (rows : List (String × ReserveParams)) (r : Reserve)
      → All IsWanted rows
      → already_enabled p k ≡ false
      → after (collect_inputs p tokens rows) k r ≡ described tokens rows k r
  unfolding collect_inputs described after
  collect_inputs-described [] r wanted new = refl
  collect_inputs-described ((symbol, params) ∷ rows) r (w, ws) new =
      add_input-after (address_of tokens symbol) params (collect_inputs p tokens rows)
        (described tokens rows k) r w new (λ q. collect_inputs-described rows q ws new)

  collect_inputs-enabled :
      (rows : List (String × ReserveParams)) (r : Reserve)
      → All IsWanted rows
      → already_enabled p k ≡ true
      → after (collect_inputs p tokens rows) k r ≡ r
  unfolding collect_inputs after
  collect_inputs-enabled [] r wanted old = refl
  collect_inputs-enabled ((symbol, params) ∷ rows) r (w, ws) old =
      add_input-enabled (address_of tokens symbol) params (collect_inputs p tokens rows) r w old
        (collect_inputs-enabled rows r ws old)

  pub collect_inputs-after :
      (rows : List (String × ReserveParams))
      → All IsWanted rows
      → after (collect_inputs p tokens rows) k (p.reserve k)
        ≡ (described_pool tokens rows p).reserve k
  collect_inputs-after rows wanted = elim (Bool-cases ((p.reserve k).liquidation_threshold == 0)) [
    | inl t ↦ rw t (collect_inputs-described rows (p.reserve k) wanted (rw t refl))
    | inr e ↦ rw e (collect_inputs-enabled rows (p.reserve k) wanted (rw e refl))
  ]
