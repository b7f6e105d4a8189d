-- ===== src/Reserves/Sound.antt =====
-- What the pool's parameters always satisfy.
use paraspace_core.Prelude.{
  leb, leb→le, if◌then◌else◌, ℕ, ◌+◌, ◌*◌, ◌/◌, ◌≤◌, ◌<◌, String, str_eq, Bool, true, false, Option,
  some, List, [], ◌∷◌, ◌≡◌, inl, inr, refl, arith, Bool-cases, Option-cases,
}
use paraspace_core.Reserves.{
  Reserve, Pool, Access, Call, configure_reserve_as_collateral, set_reserve_factor, set_supply_cap,
  set_borrow_cap, set_liquidation_protocol_fee, set_reserve_borrowing, set_siloed_borrowing,
  set_reserve_active, set_reserve_freeze, set_rate_strategy, set_auction_strategy,
  set_time_lock_strategy, pause_pool, unpause_pool, pause_reserve, unpause_reserve, pause_cape,
  unpause_cape,
}
use paraspace_core.Reserves.Configurator.{
  guard, percentage_factor, max_valid_percentage, max_valid_cap, percent_mul, update, are_valid,
  with_collateral, with_paused, update_all, execute,
}

-- What a seized collateral is worth with the bonus: the threshold times the bonus, rounded half up.
abbrev pub worst_case : Reserve → ℕ
worst_case r = (r.liquidation_threshold * r.liquidation_bonus + 5000) / percentage_factor

-- A loan up to the loan to value is not at once liquidated, a liquidator gets at least what it pays,
-- and the collateral of a position at the threshold covers the bonus.
pub record IsSoundReserve (r : Reserve) : Type 0 where
  pub borrow_below : r.ltv ≤ r.liquidation_threshold
  pub no_bonus : r.liquidation_threshold ≡ 0 → r.liquidation_bonus ≡ 0
  pub bonus_above : 0 < r.liquidation_threshold → percentage_factor ≤ r.liquidation_bonus
  pub covered : worst_case r ≤ percentage_factor
  pub factor_below : r.reserve_factor ≤ percentage_factor
  pub supply_cap_below : r.supply_cap ≤ max_valid_cap
  pub borrow_cap_below : r.borrow_cap ≤ max_valid_cap
  pub fee_below : r.liquidation_protocol_fee ≤ percentage_factor

abbrev pub IsSound : Pool → Type 0
IsSound p = (k : String) → IsSoundReserve (p.reserve k)

-- The pool after `_reserves[asset] = f(_reserves[asset])`.
abbrev pub put : String → (Reserve → Reserve) → Pool → Pool
put asset f p = record p { reserve = λ k. if str_eq k asset then f (p.reserve k) else p.reserve k }

pub some-injective {ℓ} : {A : Type ℓ} {a b : A} → some a ≡ some b → a ≡ b
some-injective h = cc

pub update-eq :
    (asset : String) (f : Reserve → Reserve) (p q : Pool)
    → update asset f p ≡ some q
    → q ≡ put asset f p
unfolding update
update-eq asset f p q h = ground arith

put-IsSound :
    (asset : String) (f : Reserve → Reserve) (p : Pool)
    → ((r : Reserve) → IsSoundReserve r → IsSoundReserve (f r))
    → IsSound p
    → IsSound (put asset f p)
put-IsSound asset f p h s k = elim (Bool-cases (str_eq k asset)) [
  | inl e ↦ rw e (h _ (s k))
  | inr e ↦ rw e (s k)
]

are_valid-true :
    (acl : Access) (asset : String) (t b : ℕ)
    → are_valid acl asset t b ≡ true
    → (t ≡ 0 → b ≡ 0)
      × (0 < t → percentage_factor ≤ b)
      × ((t * b + 5000) / percentage_factor ≤ percentage_factor)
unfolding are_valid percent_mul
are_valid-true acl asset t b h = ground arith

-- Setters that keep a reserve sound.
abbrev pub KeepsSound : (Reserve → Reserve) → Type 0
KeepsSound f = (r : Reserve) → IsSoundReserve r → IsSoundReserve (f r)

update-IsSound :
    (asset : String) (f : Reserve → Reserve) (p q : Pool)
    → KeepsSound f
    → IsSound p
    → update asset f p ≡ some q
    → IsSound q
update-IsSound asset f p q h s e = rw (update-eq asset f p q e) (put-IsSound asset f p h s)

update_all-IsSound :
    (f : Reserve → Reserve) (l : List String) (p q : Pool)
    → KeepsSound f
    → IsSound p
    → update_all f l p ≡ some q
    → IsSound q
unfolding update_all
update_all-IsSound f [] p q h s e = rw (← some-injective e) s
update_all-IsSound f (a ∷ l) p q h s e = elim (Bool-cases (str_eq a "0x0")) [
  | inl z ↦ update_all-IsSound f l p q h s (rw z at e)
  | inr z ↦ elim (Option-cases (update a f p)) [
    | inl u ↦ let e' = rw (z, u) at e in cc
    | inr (m, u) ↦ update_all-IsSound f l m q h (update-IsSound a f p m h s u) (rw (z, u) at e)
  ]
]

-- A setter that leaves the collateral's parameters alone and the rest below the bounds.
untouched :
    (f : Reserve → Reserve)
    → ((r : Reserve)
        → (f r).ltv ≡ r.ltv
          × (f r).liquidation_threshold ≡ r.liquidation_threshold
          × (f r).liquidation_bonus ≡ r.liquidation_bonus)
    → ((r : Reserve)
        → IsSoundReserve r
        → (f r).reserve_factor ≤ percentage_factor
          × (f r).supply_cap ≤ max_valid_cap
          × (f r).borrow_cap ≤ max_valid_cap
          × (f r).liquidation_protocol_fee ≤ percentage_factor)
    → KeepsSound f
untouched f e b r s =
    let (l, t, o) = e r in
    let (x, y, z, w) = b r s in
    record {
      borrow_below = rw (l, t) s.borrow_below;
      no_bonus = rw (t, o) s.no_bonus;
      bonus_above = rw (t, o) s.bonus_above;
      covered = rw (t, o) s.covered;
      factor_below = x;
      supply_cap_below = y;
      borrow_cap_below = z;
      fee_below = w;
    }

set-IsSound :
    (asset : String) (f : Reserve → Reserve) (p q : Pool)
    → ((r : Reserve)
        → (f r).ltv ≡ r.ltv
          × (f r).liquidation_threshold ≡ r.liquidation_threshold
          × (f r).liquidation_bonus ≡ r.liquidation_bonus)
    → ((r : Reserve)
        → IsSoundReserve r
        → (f r).reserve_factor ≤ percentage_factor
          × (f r).supply_cap ≤ max_valid_cap
          × (f r).borrow_cap ≤ max_valid_cap
          × (f r).liquidation_protocol_fee ≤ percentage_factor)
    → IsSound p
    → update asset f p ≡ some q
    → IsSound q
set-IsSound asset f p q e b = update-IsSound asset f p q (untouched f e b)

with_paused-KeepsSound : (b : Bool) → KeepsSound (with_paused b)
with_paused-KeepsSound b =
    untouched (with_paused b) (λ r. (refl, refl, refl))
      (λ r s. (s.factor_below, s.supply_cap_below, s.borrow_cap_below, s.fee_below))

pub guard-true :
    (b : Bool) (o : Option Pool) (q : Pool) → guard b o ≡ some q → (b ≡ true) × (o ≡ some q)
guard-true true o q h = (refl, h)
guard-true false o q h = cc

cape-IsSound :
    (role state paused : Bool) (p q : Pool)
    → guard role (guard state (some (record p { cape_paused = paused }))) ≡ some q
    → IsSound p
    → IsSound q
cape-IsSound true true paused p q h s = rw (← some-injective h) s
cape-IsSound true false paused p q h s = cc
cape-IsSound false state paused p q h s = cc

-- Every call that is not reverted keeps the parameters of every reserve sound.
pub execute-IsSound :
    (acl : Access) (c : Call) (p q : Pool) → execute acl c p ≡ some q → IsSound p → IsSound q
unfolding execute
execute-IsSound acl (configure_reserve_as_collateral asset n t b) p q h s =
    let (_, h1) = guard-true _ _ q h in
    let (below, h2) = guard-true _ _ q h1 in
    let (valid, h3) = guard-true _ _ q h2 in
    let (_, h4) = guard-true (leb n max_valid_percentage) _ q h3 in
    let (_, h5) = guard-true (leb t max_valid_percentage) _ q h4 in
    let (_, h6) = guard-true (leb b max_valid_percentage) _ q h5 in
    let (none_if, above, cover) = are_valid-true acl asset t b valid in
    update-IsSound asset (with_collateral n t b) p q
      (λ r i. record {
        borrow_below = leb→le n t below;
        no_bonus = none_if;
        bonus_above = above;
        covered = cover;
        factor_below = i.factor_below;
        supply_cap_below = i.supply_cap_below;
        borrow_cap_below = i.borrow_cap_below;
        fee_below = i.fee_below;
      })
      s h6
execute-IsSound acl (set_reserve_factor asset n) p q h s =
    set-IsSound asset (λ r. record r { reserve_factor = n }) p q (λ r. (refl, refl, refl))
      (λ r i. (
        leb→le _ _ (guard-true _ _ q (guard-true _ _ q h).1).0,
        i.supply_cap_below,
        i.borrow_cap_below,
        i.fee_below,
      ))
      s (guard-true _ _ q (guard-true _ _ q h).1).1
execute-IsSound acl (set_supply_cap asset n) p q h s =
    set-IsSound asset (λ r. record r { supply_cap = n }) p q (λ r. (refl, refl, refl))
      (λ r i. (
        i.factor_below,
        leb→le _ _ (guard-true _ _ q (guard-true _ _ q h).1).0,
        i.borrow_cap_below,
        i.fee_below,
      ))
      s (guard-true _ _ q (guard-true _ _ q h).1).1
execute-IsSound acl (set_borrow_cap asset n) p q h s =
    set-IsSound asset (λ r. record r { borrow_cap = n }) p q (λ r. (refl, refl, refl))
      (λ r i. (
        i.factor_below,
        i.supply_cap_below,
        leb→le _ _ (guard-true _ _ q (guard-true _ _ q h).1).0,
        i.fee_below,
      ))
      s (guard-true _ _ q (guard-true _ _ q h).1).1
execute-IsSound acl (set_liquidation_protocol_fee asset n) p q h s =
    set-IsSound asset (λ r. record r { liquidation_protocol_fee = n }) p q (λ r. (refl, refl, refl))
      (λ r i. (
        i.factor_below,
        i.supply_cap_below,
        i.borrow_cap_below,
        leb→le _ _ (guard-true _ _ q (guard-true _ _ q h).1).0,
      ))
      s (guard-true _ _ q (guard-true _ _ q h).1).1
execute-IsSound acl (set_reserve_borrowing asset n) p q h s =
    set-IsSound asset (λ r. record r { borrowing_enabled = n }) p q (λ r. (refl, refl, refl))
      (λ r i. (i.factor_below, i.supply_cap_below, i.borrow_cap_below, i.fee_below)) s
      (guard-true _ _ q h).1
execute-IsSound acl (set_siloed_borrowing asset n) p q h s =
    set-IsSound asset (λ r. record r { is_siloed = n }) p q (λ r. (refl, refl, refl))
      (λ r i. (i.factor_below, i.supply_cap_below, i.borrow_cap_below, i.fee_below)) s
      (guard-true _ _ q (guard-true _ _ q h).1).1
execute-IsSound acl (set_reserve_active asset n) p q h s =
    set-IsSound asset (λ r. record r { is_active = n }) p q (λ r. (refl, refl, refl))
      (λ r i. (i.factor_below, i.supply_cap_below, i.borrow_cap_below, i.fee_below)) s
      (guard-true _ _ q (guard-true _ _ q h).1).1
execute-IsSound acl (set_reserve_freeze asset n) p q h s =
    set-IsSound asset (λ r. record r { is_frozen = n }) p q (λ r. (refl, refl, refl))
      (λ r i. (i.factor_below, i.supply_cap_below, i.borrow_cap_below, i.fee_below)) s
      (guard-true _ _ q h).1
execute-IsSound acl (set_rate_strategy asset n) p q h s =
    set-IsSound asset (λ r. record r { interest_rate_strategy = n }) p q (λ r. (refl, refl, refl))
      (λ r i. (i.factor_below, i.supply_cap_below, i.borrow_cap_below, i.fee_below)) s
      (guard-true _ _ q h).1
execute-IsSound acl (set_auction_strategy asset n) p q h s =
    set-IsSound asset (λ r. record r { auction_strategy = n }) p q (λ r. (refl, refl, refl))
      (λ r i. (i.factor_below, i.supply_cap_below, i.borrow_cap_below, i.fee_below)) s
      (guard-true _ _ q h).1
execute-IsSound acl (set_time_lock_strategy asset n) p q h s =
    set-IsSound asset (λ r. record r { time_lock_strategy = n }) p q (λ r. (refl, refl, refl))
      (λ r i. (i.factor_below, i.supply_cap_below, i.borrow_cap_below, i.fee_below)) s
      (guard-true _ _ q h).1
execute-IsSound acl (pause_reserve asset) p q h s =
    update-IsSound asset (with_paused true) p q (with_paused-KeepsSound true) s
      (guard-true _ _ q h).1
execute-IsSound acl (unpause_reserve asset) p q h s =
    update-IsSound asset (with_paused false) p q (with_paused-KeepsSound false) s
      (guard-true _ _ q h).1
execute-IsSound acl pause_pool p q h s =
    update_all-IsSound (with_paused true) p.reserves_list p q (with_paused-KeepsSound true) s
      (guard-true _ _ q (guard-true _ _ q h).1).1
execute-IsSound acl unpause_pool p q h s =
    update_all-IsSound (with_paused false) p.reserves_list p q (with_paused-KeepsSound false) s
      (guard-true _ _ q h).1
execute-IsSound acl pause_cape p q h s = cape-IsSound _ _ true p q h s
execute-IsSound acl unpause_cape p q h s = cape-IsSound _ _ false p q h s
