-- ===== src/Consumer/Job.antt =====
-- One job from the stream: `_process_message` and `_run_job_with_cancellation` of
-- server/consumer.py.
use coda_node.Prelude.{
  ℕ, zero, suc, String, ◌<>◌, Bool, true, false, none, some, List, [], ◌∷◌, if◌then◌else◌, lookup,
  ℤ, codes, take_chars, parse_int,
}
use coda_node.Exec.{
  Exn, job_cancelled, other, message, Result, ok, err, pure, raise, lift, gets, modify, ◌>>=◌, ◌>>◌,
  catching, finally,
}
use coda_node.Ir.{NativeGateIr, Validated, valid, invalid, validate}
use coda_node.Webhook.{WebhookPayload, failed_payload}
use coda_node.Consumer.World.{
  ExecutionResult, Fields, run, wait, finish, cancel_current_job, cancel_task, send, World, Config,
  M, perform,
}
use coda_node.Consumer.Redis.{
  decode_fields, now, safe_hset, safe_xack, get_job_status, has_cancel_signal, mark_job_cancelled,
  status_key, is_finished,
}

-- `decoded[key]`; `str` of the `KeyError` is the quoted key.
unfoldable pub item : String → List (String × String) → Result String
item key fields = elim (lookup key fields) [
  | some v ↦ ok v
  | none ↦ err (other ("'" <> key <> "'"))
]

module _ (w : World) where
  checked : Validated → Result NativeGateIr
  checked (valid ir) = ok ir
  checked (invalid es) = err (other (w.describe es))

  -- NativeGateIR.from_json
  unfoldable pub from_json : String → Result NativeGateIr
  unfolding checked
  from_json text = elim (w.decode_json text) [ err e ↦ err e | ok ir ↦ checked (validate ir) ]

  int : String → Result ℤ
  int text = elim (parse_int (codes text)) [
    | some n ↦ ok n
    | none ↦ err (other ("invalid literal for int() with base 10: '" <> text <> "'"))
  ]

  -- `NativeGateIR.from_json(fields["ir_json"])` and `int(fields["shots"])`
  unfoldable pub parse_job : List (String × String) → Result (NativeGateIr × ℤ)
  unfolding from_json int item
  parse_job fields = elim (item "ir_json" fields) [
    | err e ↦ err e
    | ok text ↦ elim (from_json text) [
      | err e ↦ err e
      | ok ir ↦ elim (item "shots" fields) [
        | err e ↦ err e
        | ok digits ↦ elim (int digits) [ err e ↦ err e | ok shots ↦ ok (ir, shots) ]
      ]
    ]
  ]

  abbrev pub ignore : Exn → M (Unit {0})
  ignore e = pure tt

  -- RedisConsumer._request_runner_cancel
  unfoldable pub request_runner_cancel : M (Unit {0})
  request_runner_cancel = do
    callable ← gets (λ s. w.has_cancel_hook s.calls)
    if callable then catching (perform cancel_current_job w.cancel_hook) ignore else pure tt

  -- The task is cancelled, and whatever it ends with is dropped.
  unfoldable pub cancel_run : M (Unit {0})
  cancel_run = do
    request_runner_cancel
    perform cancel_task (λ _. ok tt)
    catching (do perform finish w.finish; pure tt) ignore

  -- An exception leaves the loop while the task runs: the `finally` cancels the task.
  unfoldable pub abandon : Exn → M Bool
  abandon e = do perform cancel_task (λ _. ok tt); raise e

  -- The `while True` loop, where the task needs `n` more rounds.
  unfoldable pub poll : String → ℕ → M ExecutionResult
  poll job_id zero = do
    result ← perform finish w.finish
    cancelled ← has_cancel_signal w job_id
    if cancelled then raise job_cancelled else pure result
  poll job_id (suc n) =
      let rest = poll job_id n in
      do
        perform wait (λ _. ok tt)
        cancelled ← catching (has_cancel_signal w job_id) abandon
        if cancelled then (do cancel_run; raise job_cancelled) else rest

  -- RedisConsumer._run_job_with_cancellation
  unfoldable pub run_job_with_cancellation : String → NativeGateIr → ℤ → M ExecutionResult
  run_job_with_cancellation job_id ir shots = do
    perform (run ir shots) (λ _. ok tt)
    rounds ← gets (λ s. w.timeouts s.calls)
    poll job_id rounds

  -- The payload of a finished job.
  abbrev pub completed_payload : String → ExecutionResult → WebhookPayload
  completed_payload job_id r = record {
    job_id = job_id;
    status = "completed";
    counts = some r.counts;
    execution_time_ms = some r.execution_time_ms;
    shots_completed = some r.shots_completed;
    error = none;
  }

  module _ (c : Config) (message_id job_id callback_url : String) where
    -- The end of the `try` block: the last look at the cancel flag, and the webhook.
    unfoldable pub deliver : ExecutionResult → M (Unit {0})
    deliver result = do
      cancelled ← has_cancel_signal w job_id
      if cancelled then raise job_cancelled else do
        perform (send callback_url (completed_payload job_id result)) w.send
        at ← now w
        modify (λ s. record s { last_job_at = some at })

    -- The `try` block.
    unfoldable pub attempt : List (String × String) → M (Unit {0})
    attempt fields = do
      (ir, shots) ← lift (parse_job fields)
      result ← run_job_with_cancellation job_id ir shots
      cancelled ← has_cancel_signal w job_id
      if cancelled then raise job_cancelled else do
        at ← now w
        safe_hset w (status_key job_id) (("state", "completed") ∷ ("completed_at", at) ∷ [])
        deliver result

    -- `except Exception as exc`
    unfoldable pub fail : Exn → M (Unit {0})
    fail e = do
      cancelled ← has_cancel_signal w job_id
      if cancelled then mark_job_cancelled w c job_id message_id else do
        at ← now w
        safe_hset w (status_key job_id)
            (("state", "failed") ∷ ("error", take_chars 500 (message e)) ∷ ("failed_at", at) ∷ [])
        catching
            (perform (send callback_url (failed_payload job_id (take_chars 500 (message e))))
              w.send)
            ignore

    unfoldable pub recover : Exn → M (Unit {0})
    recover job_cancelled = mark_job_cancelled w c job_id message_id
    recover e = fail e

    -- The `finally` block.
    unfoldable pub release : M (Unit {0})
    release = do
      safe_xack w c message_id
      modify (λ s. record s { current_job_id = none; idle = true })

    unfoldable pub mark_executing : M (Unit {0})
    mark_executing = do
      modify (λ s. record s { idle = false; current_job_id = some job_id })
      at ← now w
      safe_hset w (status_key job_id) (
          ("state", "executing")
          ∷ ("started_at", at)
          ∷ ("message_id", message_id)
          ∷ ("qpu_id", c.qpu_id)
          ∷ [])
      pure tt

    -- The `try` statement.
    unfoldable pub execute : List (String × String) → M (Unit {0})
    execute fields = finally (catching (attempt fields) recover) release

    abbrev pub acknowledge : M (Unit {0})
    acknowledge = do safe_xack w c message_id; pure tt

    -- The job was cancelled while it was queued.
    abbrev pub skip_cancelled : M (Unit {0})
    skip_cancelled = do mark_job_cancelled w c job_id message_id; acknowledge

    abbrev pub start : List (String × String) → M (Unit {0})
    start fields = do mark_executing; execute fields

    unfoldable pub process_job : List (String × String) → M (Unit {0})
    process_job fields = do
      status ← get_job_status w job_id
      if is_finished status then acknowledge else do
        cancelled ← has_cancel_signal w job_id
        if cancelled then skip_cancelled else start fields

  -- The two fields that a message must have.
  unfoldable pub address : List (String × String) → Result (String × String)
  unfolding item
  address fields = elim (item "job_id" fields) [
    | err e ↦ err e
    | ok job_id ↦ elim (item "callback_url" fields) [ err e ↦ err e | ok url ↦ ok (job_id, url) ]
  ]

  -- A message without them is dropped.
  unfoldable pub dispatch :
      Config → String → List (String × String) → Result (String × String) → M (Unit {0})
  dispatch c message_id decoded (ok (job_id, callback_url)) =
      process_job c message_id job_id callback_url decoded
  dispatch c message_id decoded (err e) = do safe_xack w c message_id; pure tt

  -- RedisConsumer._process_message
  unfoldable pub process_message : Config → String → Fields → M (Unit {0})
  process_message c message_id fields = do
    decoded ← lift (decode_fields w fields)
    dispatch c message_id decoded (address decoded)
