-- ===== src/Consumer/Pending.antt =====
-- Which parts of the consumer leave the pending delivery alone (server/consumer.py): all that handle
-- single messages, crash recovery, and batches up to the task that they start.
pub mod Intact
pub mod Stuck
use coda_node.Prelude.{
  ℕ, zero, suc, String, Bool, true, false, Option, none, some, List, [], ◌∷◌, ℤ,
}
use coda_node.Exec.{Exn, connection, job_cancelled, other, Result, ok, err, pure, ◌>>=◌}
use coda_node.Exec.Keeps.{Keeps, Keeps-modify, Keeps-bind, Keeps-if, keeps_rules}
use coda_node.Ir.{NativeGateIr}
use coda_node.Consumer.World.{
  ExecutionResult, Fields, Message, Call, Item, Delivery, World, Config, Consumer, M, perform,
}
use coda_node.Consumer.Redis.{
  now, unless_connected, safe_hset, get_job_status, has_cancel_signal, safe_xack,
  mark_job_cancelled, unless_busy, setup,
}
use coda_node.Consumer.Job.{
  request_runner_cancel, cancel_run, abandon, poll, run_job_with_cancellation, deliver, attempt,
  fail, recover, release, mark_executing, execute, process_job, dispatch, process_message,
}
use coda_node.Consumer.Batch.{
  Parsed, drop, keep, screen_job, screen, screen_all, mark_all_executing, process_each, begin,
  dispatch_results, outcome, run_batch, process_batch,
}
use coda_node.Consumer.Loop.{recover_first, recover_each, recover_pending, recheck, back_off}

module _ (Q : Option Delivery → Type 0) where
  -- `Q` holds of the pending delivery.
  abbrev pub Rests : Consumer → Type 0
  Rests s = Q s.pending_batch_delivery

  abbrev pub L : {A : Type 0} → M A → Type 0
  L = Keeps Rests

  pub perform-Rests : {A : Type 0} (c : Call) (answer : List Call → Result A) → L (perform c answer)
  unfolding perform
  perform-Rests c answer = record { at = λ s h. h }

  module _ (w : World) where
    unless_connected-Rests : (e : Exn) → L (unless_connected w e)
    unfolding unless_connected
    unless_connected-Rests (connection e) = search keeps_rules
    unless_connected-Rests _ = search keeps_rules

    safe_hset-Rests : (key : String) (m : List (String × String)) → L (safe_hset w key m)
    unfolding safe_hset
    safe_hset-Rests key m = search (keeps_rules, perform-Rests, unless_connected-Rests)

    now-Rests : L (now w)
    unfolding now
    now-Rests = search keeps_rules

    get_job_status-Rests : (job_id : String) → L (get_job_status w job_id)
    unfolding get_job_status
    get_job_status-Rests job_id = search (keeps_rules, perform-Rests)

    has_cancel_signal-Rests : (job_id : String) → L (has_cancel_signal w job_id)
    unfolding has_cancel_signal
    has_cancel_signal-Rests job_id = search (keeps_rules, perform-Rests)

    ruleset rests_rules = (
      keeps_rules, perform-Rests, safe_hset-Rests, now-Rests, get_job_status-Rests,
      has_cancel_signal-Rests,
    )

    request_runner_cancel-Rests : L (request_runner_cancel w)
    unfolding request_runner_cancel
    request_runner_cancel-Rests = search rests_rules

    cancel_run-Rests : L (cancel_run w)
    unfolding cancel_run
    cancel_run-Rests = search (rests_rules, request_runner_cancel-Rests)

    abandon-Rests : (e : Exn) → L (abandon w e)
    unfolding abandon
    abandon-Rests e = search rests_rules

    poll-Rests : (job_id : String) (n : ℕ) → L (poll w job_id n)
    unfolding poll
    poll-Rests job_id zero = search rests_rules
    poll-Rests job_id (suc n) = Keeps-bind _ _ (search rests_rules) λ _.
        Keeps-bind _ _ (search (rests_rules, abandon-Rests))
          λ b. Keeps-if b _ _ (search (rests_rules, cancel_run-Rests)) (poll-Rests job_id n)

    module _ (c : Config) where
      safe_xack-Rests : (id : String) → L (safe_xack w c id)
      unfolding safe_xack
      safe_xack-Rests id = search (keeps_rules, perform-Rests, unless_connected-Rests)

      mark_job_cancelled-Rests : (job_id id : String) → L (mark_job_cancelled w c job_id id)
      unfolding mark_job_cancelled
      mark_job_cancelled-Rests job_id id = search rests_rules

      ruleset job_rules = (rests_rules, safe_xack-Rests, mark_job_cancelled-Rests)

      module _ (message_id job_id url : String) where
        deliver-Rests : (r : ExecutionResult) → L (deliver w c message_id job_id url r)
        unfolding deliver
        deliver-Rests r = search (rests_rules, Keeps-modify) depth 9

        attempt-Rests :
            (fields : List (String × String)) → L (attempt w c message_id job_id url fields)
        unfolding attempt run_job_with_cancellation
        attempt-Rests fields = search (rests_rules, poll-Rests, deliver-Rests) depth 10

        fail-Rests : (e : Exn) → L (fail w c message_id job_id url e)
        unfolding fail
        fail-Rests e = search job_rules depth 9

        recover-Rests : (e : Exn) → L (recover w c message_id job_id url e)
        unfolding recover
        recover-Rests job_cancelled = search job_rules
        recover-Rests (connection e) = fail-Rests (connection e)
        recover-Rests (other e) = fail-Rests (other e)

        release-Rests : L (release w c message_id job_id url)
        unfolding release
        release-Rests = search (job_rules, Keeps-modify)

        mark_executing-Rests : L (mark_executing w c message_id job_id url)
        unfolding mark_executing
        mark_executing-Rests = search (job_rules, Keeps-modify) depth 9

        execute-Rests :
            (fields : List (String × String)) → L (execute w c message_id job_id url fields)
        unfolding execute
        execute-Rests fields = search (keeps_rules, attempt-Rests, recover-Rests, release-Rests)

        process_job-Rests :
            (fields : List (String × String)) → L (process_job w c message_id job_id url fields)
        unfolding process_job
        process_job-Rests fields = search (job_rules, mark_executing-Rests, execute-Rests) depth 9

      dispatch-Rests :
          (id : String) (decoded : List (String × String)) (r : Result (String × String))
          → L (dispatch w c id decoded r)
      unfolding dispatch
      dispatch-Rests id decoded (ok (job_id, url)) = process_job-Rests id job_id url decoded
      dispatch-Rests id decoded (err e) = search job_rules

      pub process_message-Rests :
          (id : String) (fields : Fields) → L (process_message w c id fields)
      unfolding process_message
      process_message-Rests id fields = search (keeps_rules, dispatch-Rests)

      drop-Rests : (id : String) → L (drop w c id)
      unfolding drop
      drop-Rests id = search job_rules

      keep-Rests :
          (id job_id url : String) (r : Result (NativeGateIr × ℤ)) → L (keep w c id job_id url r)
      unfolding keep
      keep-Rests id job_id url (ok (ir, shots)) = search keeps_rules
      keep-Rests id job_id url (err e) = drop-Rests id

      screen_job-Rests :
          (id : String) (decoded : List (String × String)) (r : Result (String × String))
          → L (screen_job w c id decoded r)
      unfolding screen_job
      screen_job-Rests id decoded (err e) = drop-Rests id
      screen_job-Rests id decoded (ok (job_id, url)) =
          search (job_rules, drop-Rests, keep-Rests) depth 8

      screen-Rests : (m : Message) → L (screen w c m)
      unfolding screen
      screen-Rests (id, fields) = search (keeps_rules, screen_job-Rests)

      screen_all-Rests : (ms : List Message) → L (screen_all w c ms)
      unfolding screen_all
      screen_all-Rests [] = search keeps_rules
      screen_all-Rests (m ∷ ms) =
          Keeps-bind _ _ (screen-Rests m)
            λ p. Keeps-bind _ _ (screen_all-Rests ms) (λ ps. search keeps_rules)

      mark_all_executing-Rests : (ps : List Parsed) → L (mark_all_executing w c ps)
      unfolding mark_all_executing
      mark_all_executing-Rests [] = search keeps_rules
      mark_all_executing-Rests (p ∷ ps) =
          Keeps-bind _ _ (search rests_rules)
            λ at. Keeps-bind _ _ (search rests_rules) (λ _. mark_all_executing-Rests ps)

      pub process_each-Rests : (ms : List Message) → L (process_each w c ms)
      unfolding process_each
      process_each-Rests [] = search keeps_rules
      process_each-Rests ((id, fields) ∷ ms) =
          Keeps-bind _ _ (process_message-Rests id fields) (λ _. process_each-Rests ms)

      begin-Rests : (at : String) (r : Result (List Item)) → L (begin w c at r)
      unfolding begin
      begin-Rests at (ok is) = search keeps_rules
      begin-Rests at (err e) = search (keeps_rules, Keeps-modify)

      dispatch_results-Rests :
          (ms : List Message) (ps : List Parsed) (r : Result (List ExecutionResult))
          → L (dispatch_results w c ms ps r)
      unfolding dispatch_results
      dispatch_results-Rests ms ps (err e) = search (keeps_rules, process_each-Rests)
      dispatch_results-Rests ms ps (ok rs) = search (rests_rules, begin-Rests)

      outcome-Rests : (m : M (List ExecutionResult)) → L m → L (outcome w c m)
      outcome-Rests m k = record { at = λ s h. k.at s h }

      run_batch-Rests : (ms : List Message) (ps : List Parsed) → L (run_batch w c ms ps)
      unfolding run_batch
      run_batch-Rests ms ps =
          search
            (
              keeps_rules, perform-Rests, Keeps-modify, mark_all_executing-Rests, outcome-Rests,
              dispatch_results-Rests, process_each-Rests,
            )
            depth 9

      pub process_batch-Rests : (ms : List Message) → L (process_batch w c ms)
      unfolding process_batch
      process_batch-Rests ms = search (keeps_rules, screen_all-Rests, run_batch-Rests)

      recover_first-Rests : (id : String) (ms : List Message) → L (recover_first w c id ms)
      unfolding recover_first
      recover_first-Rests id [] = search keeps_rules
      recover_first-Rests id ((_, fields) ∷ ms) = search (keeps_rules, process_message-Rests)

      recover_each-Rests : (ids : List String) → L (recover_each w c ids)
      unfolding recover_each
      recover_each-Rests [] = search keeps_rules
      recover_each-Rests (id ∷ ids) = Keeps-bind _ _ (search (keeps_rules, perform-Rests)) λ ms.
          Keeps-bind _ _ (recover_first-Rests id ms)
            λ n. Keeps-bind _ _ (recover_each-Rests ids) (λ m. search keeps_rules)

      pub recover_pending-Rests : L (recover_pending w c)
      unfolding recover_pending
      recover_pending-Rests = search (keeps_rules, perform-Rests, recover_each-Rests)

      pub recheck-Rests : L (recheck w c)
      unfolding recheck
      recheck-Rests = search (keeps_rules, Keeps-modify, recover_pending-Rests) depth 8

      pub back_off-Rests : (e : Exn) → L (back_off w c e)
      unfolding back_off
      back_off-Rests (connection e) = search (rests_rules, Keeps-modify) depth 9
      back_off-Rests _ = search rests_rules

      unless_busy-Rests : (busy : String → Bool) (e : Exn) → L (unless_busy w c busy e)
      unfolding unless_busy
      unless_busy-Rests busy (other e) = search keeps_rules
      unless_busy-Rests busy _ = search keeps_rules

      pub setup-Rests : (busy : String → Bool) → L (setup w c busy)
      unfolding setup
      setup-Rests busy = search (keeps_rules, perform-Rests, unless_busy-Rests)
