-- ===== src/Timelock/Tasks.antt =====
-- The tasks of tasks/dev/timeLock.ts. `succeeds` says whether the call that an executed action makes
-- succeeds; a task that throws is a `revert`, and what it sent before stands.
use paraspace_core.Prelude.{
  ltb, leb, if◌then◌else◌, ℕ, ◌+◌, ◌-◌, ◌/◌, String, Bool, true, false, not, some, List, [], ◌∷◌,
  map,
}
use paraspace_core.Timelock.{
  Action, Event, queued_action, executed_action, cancelled_action, Executor, TimeLockData,
  no_dry_run, DryRunExecutor, TimeLockOperation, queue, execute, cancel, Config, Codec, World,
  Result, ok, revert,
}
use paraspace_core.Timelock.Contract.{queue_transaction, cancel_transaction, execute_transaction}
use paraspace_core.Timelock.Buffer.{
  get_time_lock_data, dry_run_encoded_data, clear_time_lock_data, dry_run_multiple,
  insert_time_lock_data,
}

-- How a task ends: normally, or by an exception after some effects.
pub data Outcome : Type 0 where
  finished : World → Outcome
  thrown : World → Outcome

abbrev pub is_dry : DryRunExecutor → Bool
is_dry no_dry_run = false
is_dry _ = true

-- `await waitForTx(await timeLock.f(…))`: a revert throws and changes nothing; what follows an accepted
-- transaction sees the next block.
abbrev pub settle : World → Result Executor → (World → Outcome) → Outcome
settle w (ok e) k = k (record w { executor = e; now = w.clock w.now })
settle w (revert x) k = thrown w

module _ (codec : Codec) (config : Config) (succeeds : Action → Bool) where
  unfoldable pub increase_to_execution_time : World → World
  increase_to_execution_time w = record w {
    now = w.now + (w.executor.delay + config.buffering_time);
  }

  -- One of the three functions of the time lock, called by the signer.
  unfoldable pub operate : TimeLockOperation → Action → World → Result Executor
  unfolding queue_transaction cancel_transaction execute_transaction
  operate queue a w = queue_transaction codec.hash w.signer w.now a w.executor
  operate execute a w = execute_transaction codec.hash succeeds w.signer 0 w.now a w.executor
  operate cancel a w = cancel_transaction codec.hash w.signer a w.executor

  -- The tasks `queue-tx`, `execute-tx` and `cancel-tx`.
  unfoldable pub single_tx : TimeLockOperation → String → String → ℕ → World → Outcome
  unfolding operate dry_run_encoded_data get_time_lock_data insert_time_lock_data
  single_tx op target data_hex time w =
      if is_dry config.dry_run
      then finished (dry_run_encoded_data codec config target data_hex (some time) w)
      else settle w
          (operate op (get_time_lock_data codec config target data_hex (some time) w).action w)
          finished

  -- `isActionQueued`, and not past the grace period.
  abbrev pub is_live : World → Action → Bool
  is_live w a =
      if w.executor.queued (codec.hash a)
      then not (ltb (a.execution_time + w.executor.grace_period) w.now)
      else false

  -- The loop of `list-queued-txs` and `decode-queued-txs` over the events; what they show.
  unfoldable pub list_queued : World → List Event → List Action
  list_queued w [] = []
  list_queued w (queued_action a ∷ es) =
      let rest = list_queued w es in if is_live w a then a ∷ rest else rest
  list_queued w (executed_action a ∷ es) = list_queued w es
  list_queued w (cancelled_action a ∷ es) = list_queued w es

  -- `executeTime.lte(time) ? 0 : executeTime.sub(time).div(60)`
  unfoldable pub minutes_until : ℕ → ℕ → ℕ
  minutes_until time t = if leb t time then 0 else (t - time) / 60

  -- The task `renew-buffered-txs`.
  unfoldable pub renew_buffered : World → World
  unfolding clear_time_lock_data dry_run_multiple
  renew_buffered w =
      dry_run_multiple codec config (map (λ d. (d.action.target, d.action.data_hex)) w.buffer) []
        (clear_time_lock_data codec config w)

  -- The loop of `queue-buffered-txs`: what is queued already is passed over.
  unfoldable pub queue_loop : List TimeLockData → World → Outcome
  queue_loop [] w = finished w
  queue_loop (d ∷ ds) w =
      let next = queue_loop ds in
      if w.executor.queued d.action_hash then next w else settle w (operate queue d.action w) next

  -- The loops of `execute-buffered-txs` and `cancel-buffered-txs`: what is not queued is passed over.
  unfoldable pub unqueue_loop : TimeLockOperation → List TimeLockData → World → Outcome
  unqueue_loop op [] w = finished w
  unqueue_loop op (d ∷ ds) w =
      let next = unqueue_loop op ds in
      if w.executor.queued d.action_hash then settle w (operate op d.action w) next else next w

  unfoldable pub queue_buffered : World → Outcome
  unfolding queue_loop
  queue_buffered w = queue_loop w.buffer w

  unfoldable pub execute_buffered : World → Outcome
  unfolding unqueue_loop
  execute_buffered w = unqueue_loop execute w.buffer w

  unfoldable pub cancel_buffered : World → Outcome
  unfolding unqueue_loop
  cancel_buffered w = unqueue_loop cancel w.buffer w
