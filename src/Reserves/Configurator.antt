-- ===== src/Reserves/Configurator.antt =====
-- The functions of contracts/protocol/pool/PoolConfigurator.sol that the tasks call, with the setters
-- of PoolParameters.sol and ReserveConfiguration.sol that they rest on. A call that reverts is `none`.
use paraspace_core.Prelude.{
  ltb, leb, ◌==◌, if◌then◌else◌, ℕ, ◌+◌, ◌-◌, ◌*◌, ◌/◌, ◌^◌, String, str_eq, Bool, true, false, not,
  ◌||◌, ◌&&◌, Option, none, some, List, [], ◌∷◌, ◌>>=◌,
}
use paraspace_core.Reserves.{
  Reserve, Pool, Access, Call, configure_reserve_as_collateral, set_reserve_factor, set_supply_cap,
  set_borrow_cap, set_liquidation_protocol_fee, set_reserve_borrowing, set_siloed_borrowing,
  set_reserve_active, set_reserve_freeze, set_rate_strategy, set_auction_strategy,
  set_time_lock_strategy, pause_pool, unpause_pool, pause_reserve, unpause_reserve, pause_cape,
  unpause_cape, is_listed,
}

abbrev pub percentage_factor : ℕ
percentage_factor = 10000

abbrev pub max_valid_percentage : ℕ
max_valid_percentage = 65535

abbrev pub max_valid_cap : ℕ
max_valid_cap = 68719476735

abbrev pub guard {ℓ} : {A : Type ℓ} → Bool → Option A → Option A
guard b next = if b then next else none

-- `percentMul`: half a unit is rounded up, and a product that does not fit reverts.
unfoldable pub percent_mul : ℕ → ℕ → Option ℕ
percent_mul value percentage =
    if not (percentage == 0) && ltb ((2 ^ 256 - 1 - 5000) / percentage) value
    then none
    else some ((value * percentage + 5000) / percentage_factor)

-- `_reserves[asset] = …` under the `require`s of the pool's setters.
unfoldable pub update : String → (Reserve → Reserve) → Pool → Option Pool
update asset f p = guard (not (str_eq asset "0x0")) (
    guard (is_listed p asset)
      (some (record p { reserve = λ k. if str_eq k asset then f (p.reserve k) else p.reserve k })))

-- The `require`s of `configureReserveAsCollateral` on the threshold and the bonus.
unfoldable pub are_valid : Access → String → ℕ → ℕ → Bool
are_valid acl asset threshold bonus =
    if threshold == 0
    then bonus == 0 && not (acl.has_suppliers asset)
    else leb percentage_factor bonus
      && (elim (percent_mul threshold bonus) [ none ↦ false | some n ↦ leb n percentage_factor ])

abbrev pub with_collateral : ℕ → ℕ → ℕ → Reserve → Reserve
with_collateral ltv threshold bonus r = record r {
  ltv = ltv;
  liquidation_threshold = threshold;
  liquidation_bonus = bonus;
}

abbrev pub with_paused : Bool → Reserve → Reserve
with_paused b r = record r { is_paused = b }

-- The loops of `pausePool` and `unpausePool`.
unfoldable pub update_all : (Reserve → Reserve) → List String → Pool → Option Pool
update_all f [] p = some p
update_all f (a ∷ rest) p =
    if str_eq a "0x0" then update_all f rest p else update a f p >>= update_all f rest

-- A call of a contract by the signer.
unfoldable pub execute : Access → Call → Pool → Option Pool
execute acl (configure_reserve_as_collateral asset ltv threshold bonus) p =
    guard (acl.is_risk_admin || acl.is_pool_admin) (
      guard (leb ltv threshold) (
        guard (are_valid acl asset threshold bonus) (
          guard (leb ltv max_valid_percentage) (
            guard (leb threshold max_valid_percentage) (
              guard (leb bonus max_valid_percentage)
                (update asset (with_collateral ltv threshold bonus) p))))))
execute acl (set_reserve_factor asset n) p =
    guard (acl.is_risk_admin || acl.is_pool_admin)
      (guard (leb n percentage_factor) (update asset (λ r. record r { reserve_factor = n }) p))
execute acl (set_supply_cap asset n) p =
    guard (acl.is_risk_admin || acl.is_pool_admin)
      (guard (leb n max_valid_cap) (update asset (λ r. record r { supply_cap = n }) p))
execute acl (set_borrow_cap asset n) p =
    guard (acl.is_risk_admin || acl.is_pool_admin)
      (guard (leb n max_valid_cap) (update asset (λ r. record r { borrow_cap = n }) p))
execute acl (set_liquidation_protocol_fee asset n) p =
    guard (acl.is_risk_admin || acl.is_pool_admin) (
      guard (leb n percentage_factor)
        (update asset (λ r. record r { liquidation_protocol_fee = n }) p))
execute acl (set_reserve_borrowing asset b) p =
    guard (acl.is_risk_admin || acl.is_pool_admin)
      (update asset (λ r. record r { borrowing_enabled = b }) p)
execute acl (set_siloed_borrowing asset b) p =
    guard (acl.is_risk_admin || acl.is_pool_admin) (
      guard (not (b && acl.has_borrowers asset)) (update asset (λ r. record r { is_siloed = b }) p))
execute acl (set_reserve_active asset b) p =
    guard acl.is_pool_admin (
      guard (b || not (acl.has_suppliers asset)) (update asset (λ r. record r { is_active = b }) p))
execute acl (set_reserve_freeze asset b) p =
    guard (acl.is_risk_admin || acl.is_pool_admin)
      (update asset (λ r. record r { is_frozen = b }) p)
execute acl (set_rate_strategy asset s) p =
    guard (acl.is_risk_admin || acl.is_pool_admin)
      (update asset (λ r. record r { interest_rate_strategy = s }) p)
execute acl (set_auction_strategy asset s) p =
    guard (acl.is_risk_admin || acl.is_pool_admin)
      (update asset (λ r. record r { auction_strategy = s }) p)
execute acl (set_time_lock_strategy asset s) p =
    guard (acl.is_risk_admin || acl.is_pool_admin)
      (update asset (λ r. record r { time_lock_strategy = s }) p)
execute acl (pause_reserve asset) p =
    guard (acl.is_pool_admin || acl.is_emergency_admin) (update asset (with_paused true) p)
execute acl (unpause_reserve asset) p = guard acl.is_pool_admin (update asset (with_paused false) p)
execute acl pause_pool p = guard acl.is_emergency_admin (
    guard (acl.is_pool_admin || acl.is_emergency_admin)
      (update_all (with_paused true) p.reserves_list p))
execute acl unpause_pool p =
    guard acl.is_pool_admin (update_all (with_paused false) p.reserves_list p)
execute acl pause_cape p =
    guard (acl.is_pool_admin || acl.is_emergency_admin)
      (guard (not p.cape_paused) (some (record p { cape_paused = true })))
execute acl unpause_cape p =
    guard acl.is_pool_admin (guard p.cape_paused (some (record p { cape_paused = false })))
