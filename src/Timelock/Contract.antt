-- ===== src/Timelock/Contract.antt =====
-- The contract of contracts/governance/ExecutorWithTimelock.sol. `hash` stands for
-- `keccak256(abi.encode(…))`, and `succeeds` says whether the call that an action makes succeeds.
use paraspace_core.Prelude.{
  ltb, leb, if◌then◌else◌, ℕ, ◌+◌, ◌^◌, String, str_eq, Bool, true, false, not, ◌||◌, ◌++◌, [], ◌∷◌,
}
use paraspace_core.Timelock.{
  Action, queued_action, executed_action, cancelled_action, Executor, Error, only_by_admin,
  only_by_this_timelock, only_by_pending_admin, delay_shorter_than_minimum,
  delay_longer_than_maximum, execution_time_underestimated, action_not_queued,
  timelock_not_finished, grace_period_finished, not_enough_msg_value, failed_action_execution,
  addition_overflow, Result, ok, revert,
}

infixl 5 ◌>>=◌
abbrev pub ◌>>=◌ {ℓ κ} : {A : Type ℓ} {B : Type κ} → Result A → (A → Result B) → Result B
ok a >>= k = k a
revert e >>= k = revert e

abbrev pub require {ℓ} : {A : Type ℓ} → Bool → Error → Result A → Result A
require b e next = if b then next else revert e

-- Numbers of 256 bits; `SafeMath` reverts where a sum does not fit.
abbrev pub uint256_mod : ℕ
uint256_mod = 2 ^ 256

abbrev pub fits : ℕ → Bool
fits n = ltb n uint256_mod

abbrev pub mark : String → Bool → (String → Bool) → String → Bool
mark h b queued k = if str_eq h k then b else queued k

unfoldable pub deploy : String → (delay grace minimum maximum : ℕ) → Result Executor
deploy admin delay grace minimum maximum = require (leb minimum delay) delay_shorter_than_minimum (
    require (leb delay maximum) delay_longer_than_maximum (
      ok (record {
        grace_period = grace;
        minimum_delay = minimum;
        maximum_delay = maximum;
        admin = admin;
        pending_admin = "0x0";
        delay = delay;
        queued = λ _. false;
        events = [];
      })))

-- The functions that only the time lock itself may call; `this` is its address.
unfoldable pub set_delay : String → String → ℕ → Executor → Result Executor
set_delay this sender delay e = require (str_eq sender this) only_by_this_timelock (
    require (leb e.minimum_delay delay) delay_shorter_than_minimum (
      require (leb delay e.maximum_delay) delay_longer_than_maximum
        (ok (record e { delay = delay }))))

unfoldable pub set_pending_admin : String → String → String → Executor → Result Executor
set_pending_admin this sender admin e =
    require (str_eq sender this) only_by_this_timelock (ok (record e { pending_admin = admin }))

unfoldable pub accept_admin : String → Executor → Result Executor
accept_admin sender e =
    require (str_eq sender e.pending_admin) only_by_pending_admin
      (ok (record e { admin = sender; pending_admin = "0x0" }))

module _ (hash : Action → String) where
  unfoldable pub queue_transaction : String → ℕ → Action → Executor → Result Executor
  queue_transaction sender now a e = require (str_eq sender e.admin) only_by_admin (
      require (fits (now + e.delay)) addition_overflow (
        require (leb (now + e.delay) a.execution_time) execution_time_underestimated (
          ok (record e {
            queued = mark (hash a) true e.queued;
            events = e.events ++ queued_action a ∷ [];
          }))))

  unfoldable pub cancel_transaction : String → Action → Executor → Result Executor
  cancel_transaction sender a e = require (str_eq sender e.admin) only_by_admin (
      ok (record e {
        queued = mark (hash a) false e.queued;
        events = e.events ++ cancelled_action a ∷ [];
      }))

  -- `msg_value` is the wei sent along. The call of the action acts on other contracts: one on the time
  -- lock itself (`setDelay`, `setPendingAdmin`) or one that calls back into it is not covered here.
  unfoldable pub execute_transaction :
      (Action → Bool) → String → ℕ → ℕ → Action → Executor → Result Executor
  execute_transaction succeeds sender msg_value now a e =
      require (str_eq sender e.admin) only_by_admin (
        require (e.queued (hash a)) action_not_queued (
          require (leb a.execution_time now) timelock_not_finished (
            require (fits (a.execution_time + e.grace_period)) addition_overflow (
              require (leb now (a.execution_time + e.grace_period)) grace_period_finished (
                require (not a.with_delegatecall || leb a.value msg_value) not_enough_msg_value (
                  require (succeeds a) failed_action_execution (
                    ok (record e {
                      queued = mark (hash a) false e.queued;
                      events = e.events ++ executed_action a ∷ [];
                    }))))))))
