-- ===== src/Reserves.antt =====
-- The parameters of the pool's reserves and the tasks that set them.
pub mod Configurator
pub mod Tasks
pub mod Sound
pub mod Replay
pub mod Endings
pub mod Selection
pub mod Effects
pub mod Pausing
mod Tests
use paraspace_core.Prelude.{ℕ, String, Bool, true, false, List, any, str_eq}

-- What the pool keeps of a reserve, of what the tasks set.
pub record Reserve : Type 0 where
  pub ltv : ℕ
  pub liquidation_threshold : ℕ
  pub liquidation_bonus : ℕ
  pub reserve_factor : ℕ
  pub supply_cap : ℕ
  pub borrow_cap : ℕ
  pub interest_rate_strategy : String
  pub auction_strategy : String
  pub time_lock_strategy : String
  pub is_paused : Bool
  pub liquidation_protocol_fee : ℕ
  pub borrowing_enabled : Bool
  pub is_active : Bool
  pub is_frozen : Bool
  pub is_siloed : Bool

-- The pool: the addresses of `getReservesList` and the mapping of reserves. `cape_paused` is the
-- state of the auto compounding contract for APE.
pub record Pool : Type 0 where
  pub reserves_list : List String
  pub reserve : String → Reserve
  pub cape_paused : Bool

-- What the access control and the tokens say while a task runs: the roles of the signer, and whether
-- a reserve has suppliers or borrowers.
pub record Access : Type 0 where
  pub is_pool_admin : Bool
  pub is_emergency_admin : Bool
  pub is_risk_admin : Bool
  pub has_suppliers : String → Bool
  pub has_borrowers : String → Bool

pub data Contract : Type 0 where
  pool_configurator auto_compound_ape : Contract

-- A function of a contract and its arguments.
pub data Call : Type 0 where
  configure_reserve_as_collateral : String → ℕ → ℕ → ℕ → Call
  set_reserve_factor set_supply_cap set_borrow_cap set_liquidation_protocol_fee : String → ℕ → Call
  set_reserve_borrowing set_siloed_borrowing : String → Bool → Call
  set_reserve_active set_reserve_freeze : String → Bool → Call
  set_rate_strategy set_auction_strategy set_time_lock_strategy : String → String → Call
  pause_pool unpause_pool : Call
  pause_reserve unpause_reserve : String → Call
  pause_cape unpause_cape : Call

abbrev pub is_listed : Pool → String → Bool
is_listed p a = any (λ b. str_eq b a) p.reserves_list
