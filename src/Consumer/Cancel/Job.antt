-- ===== src/Consumer/Cancel/Job.antt =====
-- What `_process_message` may send.
use coda_node.Prelude.{none, ℕ, zero, suc, ◌≡◌, String, List, ℤ}
use coda_node.Exec.{Exn, connection, job_cancelled, other, Result, ok, err}
use coda_node.Exec.Keeps.{Keeps, Keeps-modify, Keeps-bind, Keeps-if, keeps_rules}
use coda_node.Ir.{NativeGateIr}
use coda_node.Consumer.World.{ExecutionResult, Fields, World, Config, Consumer}
use coda_node.Consumer.Job.{
  completed_payload, request_runner_cancel, cancel_run, abandon, poll, run_job_with_cancellation,
  deliver, attempt, fail, recover, release, mark_executing, execute, process_job, dispatch,
  process_message,
}
use coda_node.Consumer.Trace.{Fresh, AllCleared}
use coda_node.Consumer.Cancel.{
  fresh, Clearance, Safe, Keeps-look, Keeps-send, Keeps-send_caught, Keeps-now, Keeps-status,
  mark_job_cancelled-Safe, safe_rules,
}

module _ (w : World) (k : Clearance w) where
  open k use {by_look}

  request_runner_cancel-Safe : Keeps (Safe w k) (request_runner_cancel w)
  unfolding request_runner_cancel
  request_runner_cancel-Safe = search safe_rules

  cancel_run-Safe : Keeps (Safe w k) (cancel_run w)
  unfolding cancel_run
  cancel_run-Safe = search (safe_rules, request_runner_cancel-Safe)

  abandon-Safe : (e : Exn) → Keeps (Safe w k) (abandon w e)
  unfolding abandon
  abandon-Safe e = search safe_rules

  poll-Safe : (job_id : String) (n : ℕ) → Keeps (Safe w k) (poll w job_id n)
  unfolding poll
  poll-Safe job_id zero = search safe_rules
  poll-Safe job_id (suc n) = Keeps-bind _ _ (search safe_rules) λ _.
      Keeps-bind _ _ (search (safe_rules, abandon-Safe))
        λ b. Keeps-if b _ _ (search (safe_rules, cancel_run-Safe)) (poll-Safe job_id n)

  run_job_with_cancellation-Safe :
      (job_id : String) (ir : NativeGateIr) (shots : ℤ)
      → Keeps (Safe w k) (run_job_with_cancellation w job_id ir shots)
  unfolding run_job_with_cancellation
  run_job_with_cancellation-Safe job_id ir shots = search (safe_rules, poll-Safe)

  module _ (c : Config) (message_id job_id url : String) where
    deliver-Safe : (r : ExecutionResult) → Keeps (Safe w k) (deliver w c message_id job_id url r)
    unfolding deliver
    deliver-Safe r = Keeps-look w k job_id _ (search keeps_rules) λ s l h.
        Keeps-send w k url (completed_payload w job_id r) _ s (by_look job_id _ l) h
          (λ _. search (safe_rules, Keeps-modify))

    fail-Safe : (e : Exn) → Keeps (Safe w k) (fail w c message_id job_id url e)
    unfolding fail
    fail-Safe e = Keeps-look w k job_id _ (search (safe_rules, mark_job_cancelled-Safe)) (λ s l h.
        Keeps-now w k _ s (
          Keeps-status w k _ _ _ s l h
            (λ b t c ht. Keeps-send_caught w k url _ _ t c ht (λ e. search keeps_rules))))

    recover-Safe : (e : Exn) → Keeps (Safe w k) (recover w c message_id job_id url e)
    unfolding recover
    recover-Safe job_cancelled = search (safe_rules, mark_job_cancelled-Safe)
    recover-Safe (connection e) = fail-Safe (connection e)
    recover-Safe (other e) = fail-Safe (other e)

    release-Safe : Keeps (Safe w k) (release w c message_id job_id url)
    unfolding release
    release-Safe = search (safe_rules, Keeps-modify)

    mark_executing-Safe : Keeps (Safe w k) (mark_executing w c message_id job_id url)
    unfolding mark_executing
    mark_executing-Safe = search (safe_rules, Keeps-modify)

    attempt-Safe :
        (fields : List (String × String))
        → Keeps (Safe w k) (attempt w c message_id job_id url fields)
    unfolding attempt
    attempt-Safe fields = search (safe_rules, run_job_with_cancellation-Safe, deliver-Safe) depth 9

    execute-Safe :
        (fields : List (String × String))
        → Keeps (Safe w k) (execute w c message_id job_id url fields)
    unfolding execute
    execute-Safe fields = search (safe_rules, attempt-Safe, recover-Safe, release-Safe)

    process_job-Safe :
        (fields : List (String × String))
        → Keeps (Safe w k) (process_job w c message_id job_id url fields)
    unfolding process_job
    process_job-Safe fields =
        search (safe_rules, mark_job_cancelled-Safe, mark_executing-Safe, execute-Safe) depth 8

  dispatch-Safe :
      (c : Config) (message_id : String) (decoded : List (String × String))
      (r : Result (String × String))
      → Keeps (Safe w k) (dispatch w c message_id decoded r)
  unfolding dispatch
  dispatch-Safe c message_id decoded (ok (job_id, url)) =
      process_job-Safe c message_id job_id url decoded
  dispatch-Safe c message_id decoded (err e) = search safe_rules

  pub process_message-Safe :
      (c : Config) (message_id : String) (fields : Fields)
      → Keeps (Safe w k) (process_message w c message_id fields)
  unfolding process_message
  process_message-Safe c message_id fields = search (safe_rules, dispatch-Safe)

-- While one message is processed, each webhook, of a result or of an error, directly follows a look
-- at the job's cancel flag that found no flag, with at most the write of one status in between.
pub process_message_cleared :
    (w : World) (c : Config) (message_id : String) (fields : Fields) (s : Consumer)
    → s.pending_batch_delivery ≡ none
    → AllCleared w (Fresh w) s.calls
    → AllCleared w (Fresh w) (process_message w c message_id fields s).1.calls
process_message_cleared w c message_id fields s p h =
    ((process_message-Safe w (fresh w) c message_id fields).at s (h, rw p tt)).0
