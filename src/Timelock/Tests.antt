-- ===== src/Timelock/Tests.antt =====
-- Runs of the tasks on a small time lock, and the theorems there.
use paraspace_core.Prelude.{
  All, ℕ, ◌+◌, ◌≤◌, ◌≤ℤ◌, sub_ℕ, String, str_eq, Bool, true, false, none, some, [], ◌∷◌, ◌≡◌, ◌↔◌,
  refl, arith, map, concat, ◌++◌, List,
}
use paraspace_core.Timelock.{
  Action, queued_action, executed_action, cancelled_action, Executor, TimeLockData, time_lock,
  queue, execute, Config, Codec, World, MetaTransaction,
}
use paraspace_core.Timelock.Contract.{
  mark, queue_transaction, cancel_transaction, execute_transaction,
}
use paraspace_core.Timelock.Buffer.{get_time_lock_data, propose_multi}
use paraspace_core.Timelock.Tasks.{
  finished, operate, queue_loop, unqueue_loop, queue_buffered, execute_buffered, cancel_buffered,
  renew_buffered,
}
use paraspace_core.Timelock.Window.{Succeeds, planned, queue-until_expiry, execute-in_window}
use paraspace_core.Timelock.Queueing.{queue_buffered-queued}
use paraspace_core.Chunk.Laws.{IsChunk}
use paraspace_core.Timelock.Proposing.{numbered, propose_multi-numbered}
use paraspace_core.Timelock.Renewal.{call_of, renew_buffered-queues}
use paraspace_core.Timelock.Draining.{cancel_buffered-drained, execute_buffered-drained}

abbrev codec : Codec
codec = record { hash = λ a. a.data_hex; encode = λ op a. a.data_hex; encode_multi = λ l. "multi" }

abbrev config : Config
config = record {
  dry_run = time_lock;
  buffering_time = 3600;
  default_operation = queue;
  multi_sig_nonce = none;
  chunk_size = 30;
  multisend = "multisend";
}

abbrev succeeds : Action → Bool
succeeds a = true

abbrev lock : Executor
lock = record {
  grace_period = 1000;
  minimum_delay = 10;
  maximum_delay = 5000;
  admin = "multisig";
  pending_admin = "0x0";
  delay = 100;
  queued = λ h. str_eq h "0x99";
  events = [];
}

abbrev action_of : String → Action
action_of data_hex = record {
  target = "pool";
  value = 0;
  signature = "";
  data_hex = data_hex;
  execution_time = 500;
  with_delegatecall = false;
}

abbrev entry : String → TimeLockData
entry data_hex = record {
  action = action_of data_hex;
  action_hash = data_hex;
  queue_data = data_hex;
  execute_data = data_hex;
  cancel_data = data_hex;
  execute_time = 600;
  queue_expire_time = sub_ℕ 500 100;
  execute_expire_time = 1500;
}

abbrev world_at : ℕ → Executor → World
world_at now e = record {
  now = now;
  clock = λ n. n + 12;
  signer = "multisig";
  lock_address = "lock";
  executor = e;
  in_db = true;
  buffer = entry "0x01" ∷ entry "0x02" ∷ [];
  proposals = [];
  sent = [];
  printed = [];
}

-- The entries are those that the tooling makes.
entry_test :
    get_time_lock_data codec config "pool" "0x01" (some 500) (world_at 0 lock) ≡ entry "0x01"
unfolding get_time_lock_data
entry_test = refl

queue-until_expiry_example :
    Succeeds (
      operate codec config succeeds queue
        (planned codec config succeeds "pool" "0x01" (some 500) (world_at 0 lock)).action
        (world_at 300 lock))
    ↔ (300
        ≤ℤ (planned codec config succeeds "pool" "0x01"
            (some 500)
            (world_at 0 lock)).queue_expire_time)
queue-until_expiry_example =
    queue-until_expiry codec config succeeds "pool" "0x01" (some 500) (world_at 0 lock)
      (world_at 300 lock) refl refl (omega arith)

abbrev queued_lock : Executor
queued_lock = record lock { queued = λ h. true }

execute-in_window_example :
    Succeeds (
      operate codec config succeeds execute
        (planned codec config succeeds "pool" "0x01" (some 500) (world_at 0 lock)).action
        (world_at 500 queued_lock))
    ↔ (500 ≤ 500) × (500 ≤ 1500)
unfolding get_time_lock_data
execute-in_window_example =
    execute-in_window codec config succeeds "pool" "0x01" (some 500) (world_at 0 lock)
      (world_at 500 queued_lock) refl refl refl refl (omega arith)

abbrev after_queue : World
after_queue = world_at 324 (record lock {
  queued = mark "0x02" true (mark "0x01" true lock.queued);
  events = queued_action (action_of "0x01") ∷ queued_action (action_of "0x02") ∷ [];
})

queue_buffered_test :
    queue_buffered codec config succeeds (world_at 300 lock) ≡ finished after_queue
unfolding queue_buffered queue_loop operate queue_transaction
queue_buffered_test = refl

queue_buffered-queued_example :
    All (λ d. after_queue.executor.queued d.action_hash ≡ true) after_queue.buffer
    × (after_queue.buffer ≡ (world_at 300 lock).buffer)
    × (queue_buffered codec config succeeds after_queue ≡ finished after_queue)
queue_buffered-queued_example =
    queue_buffered-queued codec config succeeds (world_at 300 lock) after_queue (refl, (refl, tt))
      queue_buffered_test

abbrev after_cancel : World
after_cancel = world_at 324 (record queued_lock {
  queued = mark "0x02" false (mark "0x01" false queued_lock.queued);
  events = cancelled_action (action_of "0x01") ∷ cancelled_action (action_of "0x02") ∷ [];
})

cancel_buffered_test :
    cancel_buffered codec config succeeds (world_at 300 queued_lock) ≡ finished after_cancel
unfolding cancel_buffered unqueue_loop operate cancel_transaction
cancel_buffered_test = refl

cancel_buffered-drained_example :
    All (λ d. after_cancel.executor.queued d.action_hash ≡ false) (world_at 300 queued_lock).buffer
    × (after_cancel.executor.queued "0x99" ≡ queued_lock.queued "0x99")
cancel_buffered-drained_example =
    cancel_buffered-drained codec config succeeds (world_at 300 queued_lock) after_cancel "0x99"
      (refl, (refl, tt)) (refl, (refl, tt)) cancel_buffered_test

abbrev after_execute : World
after_execute = world_at 524 (record queued_lock {
  queued = mark "0x02" false (mark "0x01" false queued_lock.queued);
  events = executed_action (action_of "0x01") ∷ executed_action (action_of "0x02") ∷ [];
})

execute_buffered_test :
    execute_buffered codec config succeeds (world_at 500 queued_lock) ≡ finished after_execute
unfolding execute_buffered unqueue_loop operate execute_transaction
execute_buffered_test = refl

execute_buffered-drained_example :
    All (λ d. after_execute.executor.queued d.action_hash ≡ false) (world_at 500 queued_lock).buffer
    × (after_execute.executor.queued "0x99" ≡ queued_lock.queued "0x99")
execute_buffered-drained_example =
    execute_buffered-drained codec config succeeds (world_at 500 queued_lock) after_execute "0x99"
      (refl, (refl, tt)) (refl, (refl, tt)) execute_buffered_test

-- Renewed at 300 to be executed at 3900, and queued from 600 on.
renew_buffered-queues_example :
    (map call_of (renew_buffered codec config succeeds (world_at 300 lock)).buffer
      ≡ map call_of (world_at 300 lock).buffer)
    × (v : World) × (queue_buffered codec config succeeds
          (record (renew_buffered codec config succeeds (world_at 300 lock)) { now = 600 })
        ≡ finished v)
    × All (λ d. v.executor.queued d.action_hash ≡ true) v.buffer
renew_buffered-queues_example =
    renew_buffered-queues codec config succeeds (world_at 300 lock) 600 12 refl refl refl
      (λ n. omega arith) (omega arith) (omega arith)

abbrev safe_config : Config
safe_config = record config { multi_sig_nonce = some 7; chunk_size = 2 }

abbrev transactions : List MetaTransaction
transactions =
    record { to = "a"; data_hex = "0x01" }
    ∷ record { to = "b"; data_hex = "0x02" }
    ∷ record { to = "c"; data_hex = "0x03" }
    ∷ []

propose_multi-numbered_example :
    (cs : List (List MetaTransaction)) × (concat cs ≡ transactions)
    × All (IsChunk 2) cs
    × (propose_multi codec safe_config transactions (world_at 0 lock)
        ≡ record (world_at 0 lock) { proposals = [] ++ numbered codec safe_config 7 0 cs })
propose_multi-numbered_example =
    propose_multi-numbered codec safe_config 7 transactions (world_at 0 lock) refl (omega arith)
