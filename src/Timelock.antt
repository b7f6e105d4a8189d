-- ===== src/Timelock.antt =====
-- The time lock through which governance acts: the contract, the buffer of planned calls that the
-- tooling keeps in its data base, and the world that both stand in.
pub mod Contract
pub mod Buffer
pub mod Tasks
pub mod Window
pub mod Queueing
pub mod Draining
pub mod Renewal
pub mod Proposing
mod Tests
use paraspace_core.Prelude.{ℕ, ℤ, String, Bool, Option, List}

-- `Action` of helpers/types.ts, and the arguments of the contract's functions. A call's data is text
-- in hexadecimal, and an amount of wei or seconds is a natural number.
pub record Action : Type 0 where
  pub target : String
  pub value : ℕ
  pub signature : String
  pub data_hex : String
  pub execution_time : ℕ
  pub with_delegatecall : Bool

-- What the contract emits, of what the tooling reads.
pub data Event : Type 0 where
  queued_action executed_action cancelled_action : Action → Event

-- The storage of ExecutorWithTimelock and its events, oldest first.
pub record Executor : Type 0 where
  pub grace_period : ℕ
  pub minimum_delay : ℕ
  pub maximum_delay : ℕ
  pub admin : String
  pub pending_admin : String
  pub delay : ℕ
  pub queued : String → Bool
  pub events : List Event

-- The strings of its `require` statements.
pub data Error : Type 0 where
  only_by_admin only_by_this_timelock only_by_pending_admin : Error
  delay_shorter_than_minimum delay_longer_than_maximum : Error
  execution_time_underestimated action_not_queued timelock_not_finished : Error
  grace_period_finished not_enough_msg_value failed_action_execution addition_overflow : Error

pub data Result {ℓ} (A : Type ℓ) : Type ℓ where
  ok : A → Result A
  revert : Error → Result A

-- What the tooling keeps of a planned call; the times are seconds, where the source formats them.
pub record TimeLockData : Type 0 where
  pub action : Action
  pub action_hash : String
  pub queue_data : String
  pub execute_data : String
  pub cancel_data : String
  pub execute_time : ℕ
  pub queue_expire_time : ℤ
  pub execute_expire_time : ℕ

pub data DryRunExecutor : Type 0 where
  time_lock safe safe_with_time_lock run no_dry_run : DryRunExecutor

-- What becomes of a call in a script: without DRY_RUN the script calls the contract; of the dry runs,
-- `run` sends the encoded call as a raw transaction, and the others only keep it, in the buffer, in a
-- proposal or in print.
pub data Way : Type 0 where
  live kept raw : Way

abbrev pub way_of : DryRunExecutor → Way
way_of no_dry_run = live
way_of run = raw
way_of _ = kept

pub data TimeLockOperation : Type 0 where
  queue execute cancel : TimeLockOperation

pub data OperationType : Type 0 where
  call delegate_call : OperationType

pub record MetaTransaction : Type 0 where
  pub to : String
  pub data_hex : String

-- A proposal to the Safe service; without a nonce it takes the service's next one.
pub record Proposal : Type 0 where
  pub to : String
  pub data_hex : String
  pub nonce : Option ℕ
  pub operation : OperationType

-- helpers/hardhat-constants.ts and the market configuration, as far as they are read here.
pub record Config : Type 0 where
  pub dry_run : DryRunExecutor
  pub buffering_time : ℕ
  pub default_operation : TimeLockOperation
  pub multi_sig_nonce : Option ℕ
  pub chunk_size : ℕ
  pub multisend : String

-- Encoders of third parties: `keccak256(abi.encode(action))`, `encodeFunctionData` of the three
-- functions of the time lock, and `encodeMulti`.
pub record Codec : Type 0 where
  pub hash : Action → String
  pub encode : TimeLockOperation → Action → String
  pub encode_multi : List MetaTransaction → String

-- The chain and the data base: `now` is the timestamp of the latest block, at which the next transaction
-- is looked at, and `clock` gives the timestamp of the block after one with a transaction.
pub record World : Type 0 where
  pub now : ℕ
  pub clock : ℕ → ℕ
  pub signer : String
  pub lock_address : String
  pub executor : Executor
  pub in_db : Bool
  pub buffer : List TimeLockData
  pub proposals : List Proposal
  pub sent : List (String × String)
  pub printed : List (String × String)
