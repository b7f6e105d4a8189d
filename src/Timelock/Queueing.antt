-- ===== src/Timelock/Queueing.antt =====
-- What the tasks on the buffered calls leave queued in the time lock.
use paraspace_core.Prelude.{
  All, String, Bool, true, false, List, [], ◌∷◌, ◌≡◌, ◌⊎◌, inl, inr, refl, arith, str_eq, eq_refl,
  Bool-cases,
}
use paraspace_core.Timelock.{
  Action, Executor, TimeLockData, TimeLockOperation, queue, execute, cancel, Config, Codec, World,
  Error, Result, ok, revert,
}
use paraspace_core.Timelock.Contract.{
  mark, queue_transaction, cancel_transaction, execute_transaction,
}
use paraspace_core.Timelock.Tasks.{finished, operate, queue_loop, queue_buffered}

-- What an accepted operation does to the queue.
abbrev pub queues : TimeLockOperation → Bool
queues queue = true
queues _ = false

pub mark_self : (k : String) (b : Bool) (q : String → Bool) → mark k b q k ≡ b
mark_self k b q = rw (eq_refl k)

mark_keeps : (h k : String) (q : String → Bool) → q k ≡ true → mark h true q k ≡ true
mark_keeps h k q e = elim (Bool-cases (str_eq h k)) [ inl t ↦ rw t | inr t ↦ rw t e ]

pub mark_clears : (h k : String) (q : String → Bool) → q k ≡ false → mark h false q k ≡ false
mark_clears h k q e = elim (Bool-cases (str_eq h k)) [ inl t ↦ rw t | inr t ↦ rw t e ]

pub mark_other :
    (h k : String) (b : Bool) (q : String → Bool) → str_eq h k ≡ false → mark h b q k ≡ q k
mark_other h k b q e = rw e

pub finished-injective : {w v : World} → finished w ≡ finished v → w ≡ v
finished-injective h = cc

module _ (codec : Codec) (config : Config) (succeeds : Action → Bool) where
  pub operate-queued :
      (op : TimeLockOperation) (a : Action) (w : World) (e : Executor)
      → operate codec config succeeds op a w ≡ ok e
      → e.queued ≡ mark (codec.hash a) (queues op) w.executor.queued
  unfolding operate queue_transaction cancel_transaction execute_transaction
  operate-queued queue a w e h = ground arith
  operate-queued execute a w e h = ground arith
  operate-queued cancel a w e h = ground arith

  pub Result-cases :
      (r : Result Executor) → ((x : Error) × (r ≡ revert x)) ⊎ ((e : Executor) × (r ≡ ok e))
  Result-cases (ok e) = inr (e, refl)
  Result-cases (revert x) = inl (x, refl)

  -- Every entry was made by `get_time_lock_data`, so its hash is that of its action.
  abbrev pub IsHashed : TimeLockData → Type 0
  IsHashed d = d.action_hash ≡ codec.hash d.action

  -- One round of the loop that queues: passed over, or queued and marked.
  data Round (d : TimeLockData) (ds : List TimeLockData) (w v : World) : Type 0 where
    passed :
        w.executor.queued d.action_hash ≡ true
        → queue_loop codec config succeeds ds w ≡ finished v
        → Round d ds w v
    queued :
        (e : Executor)
        → e.queued ≡ mark (codec.hash d.action) true w.executor.queued
        → queue_loop codec config succeeds ds (record w { executor = e; now = w.clock w.now })
          ≡ finished v
        → Round d ds w v

  Round-queue_loop :
      (d : TimeLockData) (ds : List TimeLockData) (w v : World)
      → queue_loop codec config succeeds (d ∷ ds) w ≡ finished v
      → Round d ds w v
  unfolding queue_loop
  Round-queue_loop d ds w v h = elim (Bool-cases (w.executor.queued d.action_hash)) [
    | inl q ↦ passed q (rw q at h)
    | inr q ↦ elim (Result-cases (operate codec config succeeds queue d.action w)) [
      | inl (x, r) ↦ let h' = rw (q, r) at h in cc
      | inr (e, r) ↦ queued e (operate-queued queue d.action w e r) (rw (q, r) at h)
    ]
  ]

  queue_loop-keeps :
      (ds : List TimeLockData) (w v : World) (k : String)
      → queue_loop codec config succeeds ds w ≡ finished v
      → w.executor.queued k ≡ true
      → v.executor.queued k ≡ true
  unfolding queue_loop
  queue_loop-keeps [] w v k h q = rw (← finished-injective h) q
  queue_loop-keeps (d ∷ ds) w v k h q = elim (Round-queue_loop d ds w v h) [
    | passed _ next ↦ queue_loop-keeps ds w v k next q
    | queued e m next ↦
        queue_loop-keeps ds (record w { executor = e; now = w.clock w.now }) v k next
          (rw m (mark_keeps (codec.hash d.action) k w.executor.queued q))
  ]

  queue_loop-queued :
      (ds : List TimeLockData) (w v : World)
      → All IsHashed ds
      → queue_loop codec config succeeds ds w ≡ finished v
      → All (λ d. v.executor.queued d.action_hash ≡ true) ds
  queue_loop-queued [] w v p h = tt
  queue_loop-queued (d ∷ ds) w v (p, ps) h = elim (Round-queue_loop d ds w v h) [
    | passed q next ↦
        (queue_loop-keeps ds w v d.action_hash next q, queue_loop-queued ds w v ps next)
    | queued e m next ↦ (
      queue_loop-keeps ds (record w { executor = e; now = w.clock w.now }) v d.action_hash next
          (rw (m, p) (mark_self (codec.hash d.action) true w.executor.queued)),
      queue_loop-queued ds (record w { executor = e; now = w.clock w.now }) v ps next,
    )
  ]

  queue_loop-buffer :
      (ds : List TimeLockData) (w v : World)
      → queue_loop codec config succeeds ds w ≡ finished v
      → v.buffer ≡ w.buffer
  unfolding queue_loop
  queue_loop-buffer [] w v h = rw (← finished-injective h)
  queue_loop-buffer (d ∷ ds) w v h = elim (Round-queue_loop d ds w v h) [
    | passed _ next ↦ queue_loop-buffer ds w v next
    | queued e m next ↦ queue_loop-buffer ds (record w { executor = e; now = w.clock w.now }) v next
  ]

  queue_loop-idle :
      (ds : List TimeLockData) (w : World)
      → All (λ d. w.executor.queued d.action_hash ≡ true) ds
      → queue_loop codec config succeeds ds w ≡ finished w
  unfolding queue_loop
  queue_loop-idle [] w p = refl
  queue_loop-idle (d ∷ ds) w (p, ps) = rw p (queue_loop-idle ds w ps)

  -- If `queue-buffered-txs` ends without an exception, every buffered call is queued in the time
  -- lock, the buffer is as it was, and the task run once more ends at once and changes nothing.
  -- Every entry of the buffer has the hash of its action.
  pub queue_buffered-queued :
      (w v : World)
      → All IsHashed w.buffer
      → queue_buffered codec config succeeds w ≡ finished v
      → All (λ d. v.executor.queued d.action_hash ≡ true) v.buffer
        × (v.buffer ≡ w.buffer)
        × (queue_buffered codec config succeeds v ≡ finished v)
  unfolding queue_buffered
  queue_buffered-queued w v p h =
      let same = queue_loop-buffer w.buffer w v h in
      let all : All (λ d. v.executor.queued d.action_hash ≡ true) v.buffer =
        rw same (queue_loop-queued w.buffer w v p h) in
      (all, same, queue_loop-idle v.buffer v all)
