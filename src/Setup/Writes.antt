-- ===== src/Setup/Writes.antt =====
-- One input: the helper contract's calls for it amount to one update of its reserve.
use paraspace_core.Prelude.{
  if◌then◌else◌, leb, ◌==◌, ℕ, String, str_eq, Bool, true, false, ◌||◌, Option, some, ◌>>=◌, ℤ, pos,
  ◌≡◌, ◌∙◌, refl, ap, fun_ext, inl, inr, Bool-cases,
}
use paraspace_core.Reserves.{
  Reserve, Pool, Access, configure_reserve_as_collateral, set_liquidation_protocol_fee,
  set_reserve_borrowing, set_borrow_cap, set_supply_cap, set_reserve_factor, is_listed,
}
use paraspace_core.Reserves.Configurator.{
  guard, execute, update, are_valid, with_collateral, percentage_factor, max_valid_percentage,
  max_valid_cap,
}
use paraspace_core.Setup.{ConfigureReserveInput}
use paraspace_core.Setup.Helper.{to_uint, configure_reserve}

abbrev pub write : String → (Reserve → Reserve) → Pool → Pool
write a f p = record p { reserve = λ k. if str_eq k a then f (p.reserve k) else p.reserve k }

-- What the configurator asks of an input.
pub record IsAcceptable (acl : Access) (i : ConfigureReserveInput) (ltv : ℕ) : Type 0 where
  pub is_loan : i.base_ltv ≡ pos ltv
  pub loan_below : leb ltv i.liquidation_threshold ≡ true
  pub collateral : are_valid acl i.asset i.liquidation_threshold i.liquidation_bonus ≡ true
  pub loan_fits : leb ltv max_valid_percentage ≡ true
  pub threshold_fits : leb i.liquidation_threshold max_valid_percentage ≡ true
  pub bonus_fits : leb i.liquidation_bonus max_valid_percentage ≡ true
  pub fee_fits : leb i.liquidation_protocol_fee_percentage percentage_factor ≡ true
  pub borrow_cap_fits : leb i.borrow_cap max_valid_cap ≡ true
  pub supply_cap_fits : leb i.supply_cap max_valid_cap ≡ true
  pub factor_fits : leb i.reserve_factor percentage_factor ≡ true

-- The pool has a reserve for an address.
pub record HasReserve (p : Pool) (a : String) : Type 0 where
  pub nonzero : str_eq a "0x0" ≡ false
  pub listed : is_listed p a ≡ true

-- The reserve that an input describes: a fee of 0 and a cap on what is not borrowed are not written.
unfoldable pub configured : ConfigureReserveInput → ℕ → Reserve → Reserve
configured i loan r = record r {
  ltv = loan;
  liquidation_threshold = i.liquidation_threshold;
  liquidation_bonus = i.liquidation_bonus;
  liquidation_protocol_fee =
      if i.liquidation_protocol_fee_percentage == 0
      then r.liquidation_protocol_fee
      else i.liquidation_protocol_fee_percentage;
  borrowing_enabled = i.borrowing_enabled || r.borrowing_enabled;
  borrow_cap = if i.borrowing_enabled then i.borrow_cap else r.borrow_cap;
  supply_cap = i.supply_cap;
  reserve_factor = i.reserve_factor;
}

update-write :
    (a : String) (f : Reserve → Reserve) (p : Pool)
    → HasReserve p a
    → update a f p ≡ some (write a f p)
unfolding update
update-write a f p h = rw (h.nonzero, h.listed)

write-write :
    (a : String) (f g : Reserve → Reserve) (p : Pool)
    → write a g (write a f p) ≡ write a (λ r. g (f r)) p
write-write a f g p =
    ap (λ m. record p { reserve = m }) (fun_ext (λ k. twice (str_eq k a) (p.reserve k) f g))
  where
    twice :
        (b : Bool) (r : Reserve) (f g : Reserve → Reserve)
        → (if b then g (if b then f r else r) else (if b then f r else r))
          ≡ (if b then g (f r) else r)
    twice true r f g = refl
    twice false r f g = refl

write-none : (a : String) (p : Pool) → p ≡ write a (λ r. r) p
write-none a p = ap (λ m. record p { reserve = m }) (fun_ext (λ k. same (str_eq k a) (p.reserve k)))
  where
    same : (b : Bool) (r : Reserve) → r ≡ (if b then r else r)
    same true r = refl
    same false r = refl

pub write-HasReserve :
    (a b : String) (f : Reserve → Reserve) (p : Pool) → HasReserve p b → HasReserve (write a f p) b
write-HasReserve a b f p h = record { nonzero = h.nonzero; listed = h.listed }

-- The role passes the first guard of a setter.
allowed : (b c : Bool) {m : Option Pool} → c ≡ true → guard (b || c) m ≡ m
allowed true true h = refl
allowed false true h = refl
allowed b false h = cc

-- What the helper writes of the fee and of the borrowing.
abbrev with_fee : ℕ → Reserve → Reserve
with_fee n r = if n == 0 then r else record r { liquidation_protocol_fee = n }

abbrev with_borrowing : Bool → ℕ → Reserve → Reserve
with_borrowing b n r = if b then record r { borrowing_enabled = true; borrow_cap = n } else r

module _ (acl : Access) (a : String) (admin : acl.is_pool_admin ≡ true) where
  fee_step :
      (n : ℕ) (p : Pool)
      → HasReserve p a
      → leb n percentage_factor ≡ true
      → (if n == 0 then some p else execute acl (set_liquidation_protocol_fee a n) p)
        ≡ some (write a (with_fee n) p)
  unfolding execute
  fee_step n p h fits = elim (Bool-cases (n == 0)) [
    | inl t ↦ rw t (ap some (write-none a p))
    | inr t ↦
        rw (t, allowed acl.is_risk_admin acl.is_pool_admin admin, fits)
          (update-write a (λ r. record r { liquidation_protocol_fee = n }) p h)
  ]

  borrowing_step :
      (b : Bool) (n : ℕ) (p : Pool)
      → HasReserve p a
      → leb n max_valid_cap ≡ true
      → (if b
          then execute acl (set_reserve_borrowing a true) p >>= execute acl (set_borrow_cap a n)
          else some p)
        ≡ some (write a (with_borrowing b n) p)
  unfolding execute
  borrowing_step false n p h fits = ap some (write-none a p)
  borrowing_step true n p h fits =
      let enable = λ (r : Reserve). record r { borrowing_enabled = true } in
      let limit = λ (r : Reserve). record r { borrow_cap = n } in
      let next = update-write a limit (write a enable p) (write-HasReserve a a enable p h) in
      rw
        (
          allowed acl.is_risk_admin acl.is_pool_admin admin,
          update-write a enable p h,
          allowed acl.is_risk_admin acl.is_pool_admin admin,
          fits,
          next,
        )
        (ap some (write-write a enable limit p))

  collateral_step :
      (i : ConfigureReserveInput) (ltv : ℕ) (p : Pool)
      → i.asset ≡ a
      → HasReserve p a
      → IsAcceptable acl i ltv
      → execute acl
          (configure_reserve_as_collateral i.asset ltv i.liquidation_threshold i.liquidation_bonus)
          p
        ≡ some (write a (with_collateral ltv i.liquidation_threshold i.liquidation_bonus) p)
  unfolding execute
  collateral_step i ltv p e h ok =
      rw
        (
          allowed acl.is_risk_admin acl.is_pool_admin admin,
          ok.loan_below,
          ok.collateral,
          ok.loan_fits,
          ok.threshold_fits,
          ok.bonus_fits,
        )
        (rw e
          (update-write a (with_collateral ltv i.liquidation_threshold i.liquidation_bonus) p h))

  supply_step :
      (n : ℕ) (p : Pool)
      → HasReserve p a
      → leb n max_valid_cap ≡ true
      → execute acl (set_supply_cap a n) p ≡ some (write a (λ r. record r { supply_cap = n }) p)
  unfolding execute
  supply_step n p h fits =
      rw (allowed acl.is_risk_admin acl.is_pool_admin admin, fits)
        (update-write a (λ r. record r { supply_cap = n }) p h)

  factor_step :
      (n : ℕ) (p : Pool)
      → HasReserve p a
      → leb n percentage_factor ≡ true
      → execute acl (set_reserve_factor a n) p
        ≡ some (write a (λ r. record r { reserve_factor = n }) p)
  unfolding execute
  factor_step n p h fits =
      rw (allowed acl.is_risk_admin acl.is_pool_admin admin, fits)
        (update-write a (λ r. record r { reserve_factor = n }) p h)

-- The writes of one round, the last one outside.
abbrev rounds : ConfigureReserveInput → ℕ → Reserve → Reserve
rounds i ltv r =
    record (record (with_borrowing i.borrowing_enabled i.borrow_cap (
      with_fee i.liquidation_protocol_fee_percentage
        (with_collateral ltv i.liquidation_threshold i.liquidation_bonus r))) {
          supply_cap = i.supply_cap;
        }) { reserve_factor = i.reserve_factor }

rounds-configured :
    (i : ConfigureReserveInput) (ltv : ℕ) (r : Reserve) → rounds i ltv r ≡ configured i ltv r
unfolding configured
rounds-configured i ltv r = elim (Bool-cases i.borrowing_enabled) [
  | inl b ↦ elim (Bool-cases (i.liquidation_protocol_fee_percentage == 0)) [
    | inl t ↦ rw (b, t) refl
    | inr t ↦ rw (b, t) refl
  ]
  | inr b ↦ elim (Bool-cases (i.liquidation_protocol_fee_percentage == 0)) [
    | inl t ↦ rw (b, t) refl
    | inr t ↦ rw (b, t) refl
  ]
]

five_writes :
    (a : String) (f1 f2 f3 f4 f5 g : Reserve → Reserve) (p : Pool)
    → ((r : Reserve) → f5 (f4 (f3 (f2 (f1 r)))) ≡ g r)
    → write a f5 (write a f4 (write a f3 (write a f2 (write a f1 p)))) ≡ write a g p
five_writes a f1 f2 f3 f4 f5 g p e =
    ap (λ q. write a f5 (write a f4 (write a f3 q))) (write-write a f1 f2 p)
    ∙ ap (λ q. write a f5 (write a f4 q)) (write-write a (λ r. f2 (f1 r)) f3 p)
    ∙ ap (write a f5) (write-write a (λ r. f3 (f2 (f1 r))) f4 p)
    ∙ write-write a (λ r. f4 (f3 (f2 (f1 r)))) f5 p
    ∙ ap (λ f. write a f p) (fun_ext e)

pub to_uint-pos : (z : ℤ) (n : ℕ) (k : ℕ → Option Pool) → z ≡ pos n → (to_uint z >>= k) ≡ k n
to_uint-pos z n k e = rw e refl

pub configure_reserve-writes :
    (acl : Access) (i : ConfigureReserveInput) (ltv : ℕ) (p : Pool)
    → acl.is_pool_admin ≡ true
    → HasReserve p i.asset
    → IsAcceptable acl i ltv
    → configure_reserve acl i ltv p ≡ some (write i.asset (configured i ltv) p)
unfolding configure_reserve
configure_reserve-writes acl i ltv p admin h ok =
    let a = i.asset in
    let f1 = with_collateral ltv i.liquidation_threshold i.liquidation_bonus in
    let f2 = with_fee i.liquidation_protocol_fee_percentage in
    let f3 = with_borrowing i.borrowing_enabled i.borrow_cap in
    let f4 = λ (r : Reserve). record r { supply_cap = i.supply_cap } in
    let f5 = λ (r : Reserve). record r { reserve_factor = i.reserve_factor } in
    let p1 = write a f1 p in
    let p2 = write a f2 p1 in
    let p3 = write a f3 p2 in
    let p4 = write a f4 p3 in
    let h1 = write-HasReserve a a f1 p h in
    let h2 = write-HasReserve a a f2 p1 h1 in
    let h3 = write-HasReserve a a f3 p2 h2 in
    let h4 = write-HasReserve a a f4 p3 h3 in
    rw
      (
        collateral_step acl a admin i ltv p refl h ok,
        fee_step acl a admin i.liquidation_protocol_fee_percentage p1 h1 ok.fee_fits,
        borrowing_step acl a admin i.borrowing_enabled i.borrow_cap p2 h2 ok.borrow_cap_fits,
        supply_step acl a admin i.supply_cap p3 h3 ok.supply_cap_fits,
        factor_step acl a admin i.reserve_factor p4 h4 ok.factor_fits,
      )
      (ap some (five_writes a f1 f2 f3 f4 f5 (configured i ltv) p (rounds-configured i ltv)))
