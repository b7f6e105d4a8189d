-- ===== src/Timelock/Renewal.antt =====
-- Renewing the buffered calls, and that they can be queued then.
use paraspace_core.Prelude.{
  le→leb, lt→ltb, if◌then◌else◌, All, ℕ, ◌+◌, ◌≤◌, ◌<◌, String, eq_iff, Bool, true, none, List, [],
  ◌∷◌, ◌++◌, map, ◌≡◌, inl, inr, refl, ap, ◌∙◌, arith, Bool-cases, append-nil, append_assoc,
}
use paraspace_core.Timelock.{
  Action, queued_action, TimeLockData, DryRunExecutor, time_lock, safe, safe_with_time_lock, run,
  no_dry_run, Config, Codec, World,
}
use paraspace_core.Timelock.Contract.{uint256_mod, mark, queue_transaction}
use paraspace_core.Timelock.Buffer.{
  get_time_lock_data, insert_time_lock_data, clear_time_lock_data, insert_all, dry_run_multiple,
}
use paraspace_core.Timelock.Tasks.{finished, operate, queue_loop, queue_buffered, renew_buffered}
use paraspace_core.Timelock.Queueing.{IsHashed, queue_buffered-queued}

-- The call that an entry plans.
abbrev pub call_of : TimeLockData → String × String
call_of d = (d.action.target, d.action.data_hex)

-- Of the ways of a dry run, the one that buffers.
buffering :
    (mode : DryRunExecutor) (in_db : Bool) (a b p q r t : World)
    → mode ≡ time_lock
    → in_db ≡ true
    → (elim mode [
      | time_lock ↦ if in_db then a else b
      | safe_with_time_lock ↦ p
      | safe ↦ q
      | run ↦ r
      | no_dry_run ↦ t
    ])
      ≡ a
buffering mode in_db a b p q r t d e = rw (d, e) refl

module _ (codec : Codec) (config : Config) (succeeds : Action → Bool) where
  -- The entry for a call that is planned now.
  abbrev entry : World → String × String → TimeLockData
  entry w c = get_time_lock_data codec config c.0 c.1 none w

  insert_all-append :
      (calls : List (String × String)) (w : World)
      → insert_all codec config calls [] w ≡ record w { buffer = w.buffer ++ map (entry w) calls }
  unfolding insert_all insert_time_lock_data get_time_lock_data
  insert_all-append [] w = rw (append-nil w.buffer) refl
  insert_all-append ((target, data_hex) ∷ rest) w =
      let next : World = record w { buffer = w.buffer ++ entry w (target, data_hex) ∷ [] } in
      insert_all-append rest next
      ∙ ap (λ b. record w { buffer = b })
          (append_assoc w.buffer (entry w (target, data_hex) ∷ []) (map (entry w) rest))

  dry_run_multiple-buffers :
      (calls : List (String × String)) (w : World)
      → config.dry_run ≡ time_lock
      → w.in_db ≡ true
      → dry_run_multiple codec config calls [] w ≡ insert_all codec config calls [] w
  unfolding dry_run_multiple
  dry_run_multiple-buffers calls w d e = buffering config.dry_run w.in_db _ _ _ _ _ _ d e

  renew_buffered-eq :
      (w : World)
      → config.dry_run ≡ time_lock
      → w.in_db ≡ true
      → renew_buffered codec config succeeds w
        ≡ record w { buffer = map (entry w) (map call_of w.buffer) }
  unfolding renew_buffered clear_time_lock_data get_time_lock_data
  renew_buffered-eq w d e =
      dry_run_multiple-buffers (map call_of w.buffer) (clear_time_lock_data codec config w) d e
      ∙ insert_all-append (map call_of w.buffer) (clear_time_lock_data codec config w)

  -- An entry that the time lock lets the administrator queue up to a time.
  abbrev IsTimely : ℕ → TimeLockData → Type 0
  IsTimely time d = time ≤ d.action.execution_time

  -- The seconds that the blocks of the transactions take, at most `gap` each.
  abbrev pub span : ℕ → List TimeLockData → ℕ
  span gap [] = 0
  span gap (d ∷ ds) = gap + span gap ds

  queue_loop-finishes :
      (ds : List TimeLockData) (w : World) (gap deadline : ℕ)
      → w.signer ≡ w.executor.admin
      → ((n : ℕ) → w.clock n ≤ n + gap)
      → w.now + span gap ds + w.executor.delay ≤ deadline
      → deadline < uint256_mod
      → All (IsTimely deadline) ds
      → (v : World) × (queue_loop codec config succeeds ds w ≡ finished v)
  unfolding queue_loop operate queue_transaction
  queue_loop-finishes [] w gap deadline s c l f p = (w, refl)
  queue_loop-finishes (d ∷ ds) w gap deadline s c l f (p, ps) =
      elim (Bool-cases (w.executor.queued d.action_hash)) [
        | inl q ↦ rw q (queue_loop-finishes ds w gap deadline s c (omega arith) f ps)
        | inr q ↦
            rw
              (
                q,
                (eq_iff w.signer w.executor.admin).1 s,
                lt→ltb (w.now + w.executor.delay) uint256_mod (omega arith),
                le→leb (w.now + w.executor.delay) d.action.execution_time (omega arith),
              )
              (queue_loop-finishes ds
                (record w {
                  executor = record w.executor {
                    queued = mark (codec.hash d.action) true w.executor.queued;
                    events = w.executor.events ++ queued_action d.action ∷ [];
                  };
                  now = w.clock w.now;
                })
                gap deadline s c (omega (arith, c w.now)) f ps)
      ]

  entries-IsHashed :
      (w : World) (calls : List (String × String))
      → All (IsHashed codec config succeeds) (map (entry w) calls)
  unfolding get_time_lock_data
  entries-IsHashed w [] = tt
  entries-IsHashed w (c ∷ rest) = (refl, entries-IsHashed w rest)

  entries-IsTimely :
      (w : World) (calls : List (String × String))
      → All (IsTimely (w.now + config.buffering_time)) (map (entry w) calls)
  unfolding get_time_lock_data
  entries-IsTimely w [] = tt
  entries-IsTimely w (c ∷ rest) = (omega arith, entries-IsTimely w rest)

  span-entries :
      (gap : ℕ) (w : World) (ds : List TimeLockData)
      → span gap (map (entry w) (map call_of ds)) ≡ span gap ds
  span-entries gap w [] = refl
  span-entries gap w (d ∷ ds) = ap (λ n. gap + n) (span-entries gap w ds)

  calls_of-entries :
      (w : World) (calls : List (String × String)) → map call_of (map (entry w) calls) ≡ calls
  unfolding get_time_lock_data
  calls_of-entries w [] = refl
  calls_of-entries w (c ∷ rest) = ap (λ l. c ∷ l) (calls_of-entries w rest)

  -- In the mode that buffers, with the data base, `renew-buffered-txs` leaves a buffer of the same
  -- targets and data in the same order. `queue-buffered-txs`, run by the administrator from the block of
  -- time `later` on, each of its transactions moving the time on by at most `gap`, ends without an
  -- exception and with every entry queued. It is asked that one such gap for every entry and the delay of the
  -- time lock, counted from `later`, are over by the execution time of the renewed entries, which
  -- is the time of the renewal and the buffering time, and fits in 256 bits.
  pub renew_buffered-queues :
      (w : World) (later gap : ℕ)
      → config.dry_run ≡ time_lock
      → w.in_db ≡ true
      → w.signer ≡ w.executor.admin
      → ((n : ℕ) → w.clock n ≤ n + gap)
      → later + span gap w.buffer + w.executor.delay ≤ w.now + config.buffering_time
      → w.now + config.buffering_time < uint256_mod
      → (map call_of (renew_buffered codec config succeeds w).buffer ≡ map call_of w.buffer)
        × (v : World) × (queue_buffered codec config succeeds
              (record (renew_buffered codec config succeeds w) { now = later })
            ≡ finished v)
        × All (λ d. v.executor.queued d.action_hash ≡ true) v.buffer
  unfolding queue_buffered
  renew_buffered-queues w later gap d i s c l f =
      let calls = map call_of w.buffer in
      let renewed : World = record w { buffer = map (entry w) calls; now = later } in
      let (v, ends) =
        queue_loop-finishes renewed.buffer renewed gap (w.now + config.buffering_time) s c
          (rw (span-entries gap w w.buffer) l) f (entries-IsTimely w calls) in
      rw (renew_buffered-eq w d i) (
        calls_of-entries w calls,
        v,
        ends,
        (queue_buffered-queued codec config succeeds renewed v (entries-IsHashed w calls) ends).0,
      )
