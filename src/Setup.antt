-- ===== src/Setup.antt =====
-- The initialisation and configuration of reserves: helpers/init-helpers.ts and the contract
-- contracts/deployments/ReservesSetupHelper.sol, over the configurator of Reserves and the tables of
-- Market.
pub mod Registry
pub mod Init
pub mod Tokens
pub mod Implementations
pub mod Fillings
pub mod Chunks
pub mod Rows
pub mod Found
pub mod Sources
pub mod Once
pub mod Helper
pub mod Writes
pub mod Configured
pub mod Described
pub mod Batches
pub mod Collected
pub mod Rerun
pub mod Tables
mod Tests
mod Examples
use paraspace_core.Prelude.{
  if◌then◌else◌, ℕ, String, str_eq, Bool, true, false, List, Option, none, some, [], ◌∷◌, ℤ,
}
use paraspace_core.Reserves.{Pool, Access}

-- `ConfigureReserveInput`, as the script pushes it: the loan to value may be negative.
pub record ConfigureReserveInput : Type 0 where
  pub asset : String
  pub base_ltv : ℤ
  pub liquidation_protocol_fee_percentage : ℕ
  pub liquidation_threshold : ℕ
  pub liquidation_bonus : ℕ
  pub reserve_factor : ℕ
  pub borrow_cap : ℕ
  pub supply_cap : ℕ
  pub borrowing_enabled : Bool

-- A call that the script encodes in a dry run.
pub data SetupCall : Type 0 where
  add_pool_admin remove_pool_admin : String → SetupCall
  configure_reserves_call : List ConfigureReserveInput → SetupCall

-- The chain, with the mapping of pool admins, and the encoded calls.
pub record World : Type 0 where
  pub pool : Pool
  pub pool_admins : String → Bool
  pub encoded : List SetupCall

-- What does not change while the script runs: the signer, whether it administers the role of pool
-- admins, the helper contract and its owner, and what the tokens say.
pub record Setting : Type 0 where
  pub dry_run : Bool
  pub signer : String
  pub administers_roles : Bool
  pub helper : String
  pub helper_owner : String
  pub has_suppliers : String → Bool
  pub has_borrowers : String → Bool

-- `tokenAddresses[symbol]`, where no entry and an empty one are both falsy.
unfoldable pub address_of : List (String × String) → String → Option String
address_of [] symbol = none
address_of ((key, address) ∷ rest) symbol =
    if str_eq key symbol
    then (if str_eq address "" then none else some address)
    else address_of rest symbol
