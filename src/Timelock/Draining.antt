-- ===== src/Timelock/Draining.antt =====
-- What the tasks that execute or cancel the buffered calls leave in the time lock.
use paraspace_core.Prelude.{
  All, String, Bool, false, List, [], ◌∷◌, ◌≡◌, inl, inr, refl, str_eq, Bool-cases,
}
use paraspace_core.Timelock.{
  Action, Executor, TimeLockData, TimeLockOperation, execute, cancel, Config, Codec, World,
}
use paraspace_core.Timelock.Tasks.{
  finished, operate, unqueue_loop, execute_buffered, cancel_buffered,
}
use paraspace_core.Timelock.Contract.{mark}
use paraspace_core.Timelock.Queueing.{
  IsHashed, mark_self, mark_clears, mark_other, finished-injective, Result-cases, operate-queued,
  queues,
}

module _ (codec : Codec) (config : Config) (succeeds : Action → Bool) (op : TimeLockOperation)
    (removes : queues op ≡ false) where
  -- One round of the loop: passed over, or operated on and unmarked.
  data Round (d : TimeLockData) (ds : List TimeLockData) (w v : World) : Type 0 where
    passed :
        w.executor.queued d.action_hash ≡ false
        → unqueue_loop codec config succeeds op ds w ≡ finished v
        → Round d ds w v
    removed :
        (e : Executor)
        → e.queued ≡ mark (codec.hash d.action) false w.executor.queued
        → unqueue_loop codec config succeeds op ds (record w { executor = e; now = w.clock w.now })
          ≡ finished v
        → Round d ds w v

  Round-unqueue_loop :
      (d : TimeLockData) (ds : List TimeLockData) (w v : World)
      → unqueue_loop codec config succeeds op (d ∷ ds) w ≡ finished v
      → Round d ds w v
  unfolding unqueue_loop
  Round-unqueue_loop d ds w v h = elim (Bool-cases (w.executor.queued d.action_hash)) [
    | inr q ↦ passed q (rw q at h)
    | inl q ↦
        elim (Result-cases codec config succeeds (operate codec config succeeds op d.action w)) [
          | inl (x, r) ↦ let h' = rw (q, r) at h in cc
          | inr (e, r) ↦
              removed e (rw (← removes) (operate-queued codec config succeeds op d.action w e r))
                (rw (q, r) at h)
        ]
  ]

  unqueue_loop-keeps :
      (ds : List TimeLockData) (w v : World) (k : String)
      → unqueue_loop codec config succeeds op ds w ≡ finished v
      → w.executor.queued k ≡ false
      → v.executor.queued k ≡ false
  unfolding unqueue_loop
  unqueue_loop-keeps [] w v k h q = rw (← finished-injective h) q
  unqueue_loop-keeps (d ∷ ds) w v k h q = elim (Round-unqueue_loop d ds w v h) [
    | passed _ next ↦ unqueue_loop-keeps ds w v k next q
    | removed e m next ↦
        unqueue_loop-keeps ds (record w { executor = e; now = w.clock w.now }) v k next
          (rw m (mark_clears (codec.hash d.action) k w.executor.queued q))
  ]

  unqueue_loop-drained :
      (ds : List TimeLockData) (w v : World)
      → All (IsHashed codec config succeeds) ds
      → unqueue_loop codec config succeeds op ds w ≡ finished v
      → All (λ d. v.executor.queued d.action_hash ≡ false) ds
  unqueue_loop-drained [] w v p h = tt
  unqueue_loop-drained (d ∷ ds) w v (p, ps) h = elim (Round-unqueue_loop d ds w v h) [
    | passed q next ↦
        (unqueue_loop-keeps ds w v d.action_hash next q, unqueue_loop-drained ds w v ps next)
    | removed e m next ↦ (
      unqueue_loop-keeps ds (record w { executor = e; now = w.clock w.now }) v d.action_hash next
          (rw (m, p) (mark_self (codec.hash d.action) false w.executor.queued)),
      unqueue_loop-drained ds (record w { executor = e; now = w.clock w.now }) v ps next,
    )
  ]

  -- What no entry names stays as it was.
  unqueue_loop-others :
      (ds : List TimeLockData) (w v : World) (k : String)
      → All (λ d. str_eq (codec.hash d.action) k ≡ false) ds
      → unqueue_loop codec config succeeds op ds w ≡ finished v
      → v.executor.queued k ≡ w.executor.queued k
  unfolding unqueue_loop
  unqueue_loop-others [] w v k p h = rw (← finished-injective h)
  unqueue_loop-others (d ∷ ds) w v k (p, ps) h = elim (Round-unqueue_loop d ds w v h) [
    | passed _ next ↦ unqueue_loop-others ds w v k ps next
    | removed e m next ↦
        let rest =
          unqueue_loop-others ds (record w { executor = e; now = w.clock w.now }) v k ps next in
        rw (rest, m) (mark_other (codec.hash d.action) k false w.executor.queued p)
  ]

module _ (codec : Codec) (config : Config) (succeeds : Action → Bool) (w v : World) where
  -- If `cancel-buffered-txs` ends without an exception, no buffered call is queued in the time lock,
  -- and an action that is not in the buffer is queued exactly if it was before. Every entry of the
  -- buffer has the hash of its action.
  pub cancel_buffered-drained :
      (k : String)
      → All (IsHashed codec config succeeds) w.buffer
      → All (λ d. str_eq (codec.hash d.action) k ≡ false) w.buffer
      → cancel_buffered codec config succeeds w ≡ finished v
      → All (λ d. v.executor.queued d.action_hash ≡ false) w.buffer
        × (v.executor.queued k ≡ w.executor.queued k)
  unfolding cancel_buffered
  cancel_buffered-drained k p o h = (
    unqueue_loop-drained codec config succeeds cancel refl w.buffer w v p h,
    unqueue_loop-others codec config succeeds cancel refl w.buffer w v k o h,
  )

  -- If `execute-buffered-txs` ends without an exception, no buffered call is queued in the time lock
  -- any more, and an action that is not in the buffer is queued exactly if it was before. Every entry
  -- of the buffer has the hash of its action.
  pub execute_buffered-drained :
      (k : String)
      → All (IsHashed codec config succeeds) w.buffer
      → All (λ d. str_eq (codec.hash d.action) k ≡ false) w.buffer
      → execute_buffered codec config succeeds w ≡ finished v
      → All (λ d. v.executor.queued d.action_hash ≡ false) w.buffer
        × (v.executor.queued k ≡ w.executor.queued k)
  unfolding execute_buffered
  execute_buffered-drained k p o h = (
    unqueue_loop-drained codec config succeeds execute refl w.buffer w v p h,
    unqueue_loop-others codec config succeeds execute refl w.buffer w v k o h,
  )
