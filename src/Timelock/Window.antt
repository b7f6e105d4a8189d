-- ===== src/Timelock/Window.antt =====
-- The times at which the time lock accepts an action, against those that the tooling reports.
use paraspace_core.Prelude.{
  le→leb, lt→ltb, ℕ, ◌+◌, ◌≤◌, ◌<◌, ◌≤ℤ◌, le-sub_ℕ, add-le_of_le-sub_ℕ, String, Bool, true, false,
  Option, ◌≡◌, ◌↔◌, refl, arith, eq_iff,
}
use paraspace_core.Timelock.{
  Action, Executor, Codec, Config, World, TimeLockData, queue, execute, Result, ok,
}
use paraspace_core.Timelock.Contract.{uint256_mod, queue_transaction, execute_transaction}
use paraspace_core.Timelock.Buffer.{get_time_lock_data}
use paraspace_core.Timelock.Tasks.{operate}

-- An operation that the contract accepts.
abbrev pub Succeeds : Result Executor → Type 0
Succeeds r = (e : Executor) × (r ≡ ok e)

-- The queue opens for the administrator up to the execution time less the delay.
queue_opens :
    (hash : Action → String) (sender : String) (now : ℕ) (a : Action) (e : Executor)
    → sender ≡ e.admin
    → now + e.delay < uint256_mod
    → now + e.delay ≤ a.execution_time
    → Succeeds (queue_transaction hash sender now a e)
unfolding queue_transaction
queue_opens hash sender now a e h f k =
    rw ((eq_iff sender e.admin).1 h, lt→ltb _ _ f, le→leb _ _ k) (_, refl)

queue_closes :
    (hash : Action → String) (sender : String) (now : ℕ) (a : Action) (e t : Executor)
    → queue_transaction hash sender now a e ≡ ok t
    → (sender ≡ e.admin) × (now + e.delay ≤ a.execution_time)
unfolding queue_transaction
queue_closes hash sender now a e t h = ground (arith, eq_iff sender e.admin)

execute_opens :
    (hash : Action → String) (succeeds : Action → Bool) (sender : String) (now : ℕ) (a : Action)
    (e : Executor)
    → sender ≡ e.admin
    → e.queued (hash a) ≡ true
    → a.execution_time + e.grace_period < uint256_mod
    → a.execution_time ≤ now
    → now ≤ a.execution_time + e.grace_period
    → a.with_delegatecall ≡ false
    → succeeds a ≡ true
    → Succeeds (execute_transaction hash succeeds sender 0 now a e)
unfolding execute_transaction
execute_opens hash succeeds sender now a e h q f p r d s =
    rw ((eq_iff sender e.admin).1 h, q, lt→ltb _ _ f, le→leb _ _ p, le→leb _ _ r, s, d) (_, refl)

execute_closes :
    (hash : Action → String) (succeeds : Action → Bool) (sender : String) (now : ℕ) (a : Action)
    (e t : Executor)
    → execute_transaction hash succeeds sender 0 now a e ≡ ok t
    → (e.queued (hash a) ≡ true)
      × (a.execution_time ≤ now)
      × (now ≤ a.execution_time + e.grace_period)
      × (succeeds a ≡ true)
unfolding execute_transaction
execute_closes hash succeeds sender now a e t h = ground (arith, eq_iff sender e.admin)

module _ (codec : Codec) (config : Config) (succeeds : Action → Bool) (target data_hex : String)
    (time : Option ℕ) (w : World) where
  abbrev pub planned : TimeLockData
  planned = get_time_lock_data codec config target data_hex time w

  -- If the delay is as it was when the call was planned, and the present time and the delay fit in 256
  -- bits, the administrator can queue a planned call exactly until the expiry time that was computed
  -- when it was planned.
  pub queue-until_expiry :
      (v : World)
      → v.signer ≡ v.executor.admin
      → v.executor.delay ≡ w.executor.delay
      → v.now + v.executor.delay < uint256_mod
      → Succeeds (operate codec config succeeds queue planned.action v)
        ↔ (v.now ≤ℤ planned.queue_expire_time)
  unfolding operate queue_transaction get_time_lock_data
  queue-until_expiry v a d f = (
    λ (t, q).
        le-sub_ℕ v.now _ _ (rw (← d) (queue_closes codec.hash v.signer v.now _ v.executor t q).1),
    λ h.
        queue_opens codec.hash v.signer v.now _ v.executor a f
          (rw d (add-le_of_le-sub_ℕ v.now _ _ h)),
  )

  -- If the grace period is as it was when the call was planned, the expiry time that was computed then
  -- fits in 256 bits, and the call that it makes succeeds and acts on other contracts than the time
  -- lock, a planned call that is queued is accepted for execution by the administrator exactly from its
  -- execution time until that expiry time.
  pub execute-in_window :
      (v : World)
      → v.signer ≡ v.executor.admin
      → v.executor.grace_period ≡ w.executor.grace_period
      → v.executor.queued planned.action_hash ≡ true
      → succeeds planned.action ≡ true
      → planned.execute_expire_time < uint256_mod
      → Succeeds (operate codec config succeeds execute planned.action v)
        ↔ (planned.action.execution_time ≤ v.now) × (v.now ≤ planned.execute_expire_time)
  unfolding operate get_time_lock_data
  execute-in_window v a g q s f = (
    λ (t, r).
        let (_, from, until, _) =
          execute_closes codec.hash succeeds v.signer v.now _ v.executor t r in
        (from, rw (← g) until),
    λ h.
        execute_opens codec.hash succeeds v.signer v.now _ v.executor a q (rw g f) h.0 (rw g h.1)
          refl s,
  )
