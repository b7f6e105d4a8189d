-- ===== src/Timelock/Buffer.antt =====
-- The buffer of planned calls and the ways of a dry run: helpers/contracts-helpers.ts.
-- A raw transaction is recorded as sent; what the called contract does with it is not modelled.
use paraspace_core.Prelude.{
  ◌==◌, if◌then◌else◌, ℕ, ◌+◌, sub_ℕ, String, false, Option, none, some, List, [], ◌∷◌, ◌++◌, map,
}
use paraspace_core.Chunk.{chunk}
use paraspace_core.Timelock.{
  Action, TimeLockData, time_lock, safe, safe_with_time_lock, run, no_dry_run, queue, execute,
  cancel, OperationType, call, delegate_call, MetaTransaction, Proposal, Config, Codec, World,
}

-- `getExecutionTime`
abbrev pub next_execution_time : Config → World → ℕ
next_execution_time c w = w.now + c.buffering_time

-- `a || b` for a value that may be absent
abbrev pub or_else {ℓ} : {A : Type ℓ} → Option A → A → A
or_else none b = b
or_else (some a) b = a

module _ (codec : Codec) (config : Config) where
  -- `getTimeLockData`, without the pair `newTarget`, `newData`, which is `redirect` below
  unfoldable pub get_time_lock_data : String → String → Option ℕ → World → TimeLockData
  get_time_lock_data target data_hex execution_time w =
      let time = or_else execution_time (next_execution_time config w) in
      let action : Action = record {
        target = target;
        value = 0;
        signature = "";
        data_hex = data_hex;
        execution_time = time;
        with_delegatecall = false;
      } in
      record {
        action = action;
        action_hash = codec.hash action;
        queue_data = codec.encode queue action;
        execute_data = codec.encode execute action;
        cancel_data = codec.encode cancel action;
        execute_time = time + w.executor.delay;
        queue_expire_time = sub_ℕ time w.executor.delay;
        execute_expire_time = time + w.executor.grace_period;
      }

  abbrev pub default_data : TimeLockData → String
  default_data d = elim config.default_operation [
    | execute ↦ d.execute_data
    | cancel ↦ d.cancel_data
    | queue ↦ d.queue_data
  ]

  -- `newTarget` and `newData`
  abbrev pub redirect : String → String → Option ℕ → World → MetaTransaction
  redirect target data_hex execution_time w = record {
    to = w.lock_address;
    data_hex = default_data (get_time_lock_data target data_hex execution_time w);
  }

  unfoldable pub insert_time_lock_data : TimeLockData → World → World
  insert_time_lock_data d w = record w { buffer = w.buffer ++ d ∷ [] }

  unfoldable pub clear_time_lock_data : World → World
  clear_time_lock_data w = record w { buffer = [] }

  -- `nonce || MULTI_SIG_NONCE`, where a nonce of 0 counts as absent
  abbrev pub static_nonce : Option ℕ → Option ℕ
  static_nonce none = config.multi_sig_nonce
  static_nonce (some n) = if n == 0 then config.multi_sig_nonce else some n

  abbrev pub shift : Option ℕ → ℕ → Option ℕ
  shift none i = none
  shift (some n) i = some (n + i)

  -- `proposeSafeTransaction` with `withTimeLock` false, its default
  unfoldable pub propose_safe_transaction :
      MetaTransaction → Option ℕ → ℕ → OperationType → World → World
  propose_safe_transaction t nonce idx operation w =
      let proposal : Proposal = record {
        to = t.to;
        data_hex = t.data_hex;
        nonce = shift (static_nonce nonce) idx;
        operation = operation;
      } in
      record w { proposals = w.proposals ++ proposal ∷ [] }

  -- The loop of `proposeMultiSafeTransactions` over the chunks from number `i` on.
  unfoldable pub propose_chunks :
      OperationType → Option ℕ → ℕ → List (List MetaTransaction) → World → World
  propose_chunks operation given i [] w = w
  propose_chunks operation given i (c ∷ cs) w = propose_chunks operation given (i + 1) cs (
      propose_safe_transaction (record { to = config.multisend; data_hex = codec.encode_multi c })
        given i operation w)

  unfoldable pub propose_multi : List MetaTransaction → World → World
  propose_multi transactions w =
      propose_chunks delegate_call none 0 (chunk transactions config.chunk_size) w

  abbrev pub print : String → String → World → World
  print target data_hex w = record w { printed = w.printed ++ (target, data_hex) ∷ [] }

  abbrev pub send_raw : String → String → World → World
  send_raw target data_hex w = record w { sent = w.sent ++ (target, data_hex) ∷ [] }

  unfoldable pub dry_run_encoded_data : String → String → Option ℕ → World → World
  dry_run_encoded_data target data_hex time w = elim config.dry_run [
    | time_lock ↦
        if w.in_db
        then insert_time_lock_data (get_time_lock_data target data_hex time w) w
        else print target data_hex w
    | safe_with_time_lock ↦ propose_safe_transaction (redirect target data_hex time w) none 0 call w
    | safe ↦ propose_safe_transaction (record { to = target; data_hex = data_hex }) none 0 call w
    | run ↦ send_raw target data_hex w
    | no_dry_run ↦ print target data_hex w
  ]

  -- The loops of `dryRunMultipleEncodedData` over pairs of a target and its data. An execution time
  -- that is missing in the third array is absent.
  abbrev pub first_time : List (Option ℕ) → Option ℕ
  first_time [] = none
  first_time (t ∷ ts) = t

  abbrev pub other_times : List (Option ℕ) → List (Option ℕ)
  other_times [] = []
  other_times (t ∷ ts) = ts

  unfoldable pub insert_all : List (String × String) → List (Option ℕ) → World → World
  insert_all [] times w = w
  insert_all ((target, data_hex) ∷ rest) times w =
      insert_all rest (other_times times)
        (insert_time_lock_data (get_time_lock_data target data_hex (first_time times) w) w)

  unfoldable pub redirect_all :
      List (String × String) → List (Option ℕ) → World → List MetaTransaction
  redirect_all [] times w = []
  redirect_all ((target, data_hex) ∷ rest) times w =
      redirect target data_hex (first_time times) w ∷ redirect_all rest (other_times times) w

  unfoldable pub send_raw_all : List (String × String) → World → World
  send_raw_all [] w = w
  send_raw_all ((target, data_hex) ∷ rest) w = send_raw_all rest (send_raw target data_hex w)

  abbrev pub plain : String × String → MetaTransaction
  plain p = record { to = p.0; data_hex = p.1 }

  unfoldable pub dry_run_multiple : List (String × String) → List (Option ℕ) → World → World
  dry_run_multiple calls times w = elim config.dry_run [
    | time_lock ↦
        if w.in_db then insert_all calls times w else record w { printed = w.printed ++ calls }
    | safe_with_time_lock ↦ propose_multi (redirect_all calls times w) w
    | safe ↦ propose_multi (map plain calls) w
    | run ↦ send_raw_all calls w
    | no_dry_run ↦ record w { printed = w.printed ++ calls }
  ]
