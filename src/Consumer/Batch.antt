-- ===== src/Consumer/Batch.antt =====
-- A batch of jobs: `_process_batch` of server/consumer.py. What it returns is the task that
-- `Delivery` models.
use coda_node.Prelude.{
  String, true, false, Option, none, some, List, [], ◌∷◌, if◌then◌else◌, map, is_empty, ℤ,
}
use coda_node.Exec.{other, Result, ok, err, pure, lift, gets, modify, ◌>>=◌, ◌>>◌}
use coda_node.Ir.{NativeGateIr}
use coda_node.Consumer.World.{
  ExecutionResult, Message, batch_run, checking, Item, in_flight, crashed, Delivery, World, Config,
  M, perform,
}
use coda_node.Consumer.Redis.{
  decode_fields, now, safe_hset, safe_xack, get_job_status, has_cancel_signal, mark_job_cancelled,
  status_key, is_finished,
}
use coda_node.Consumer.Job.{address, parse_job, process_message}

-- A message of the batch that is to be run.
pub record Parsed : Type 0 where
  pub message_id : String
  pub job_id : String
  pub callback_url : String
  pub ir : NativeGateIr
  pub shots : ℤ

module _ (w : World) (c : Config) where
  -- `await self._safe_xack(message_id); continue`
  unfoldable pub drop : String → M (Option Parsed)
  drop message_id = do safe_xack w c message_id; pure none

  unfoldable pub keep : String → String → String → Result (NativeGateIr × ℤ) → M (Option Parsed)
  keep message_id job_id url (ok (ir, shots)) = pure (
      some (record {
        message_id = message_id;
        job_id = job_id;
        callback_url = url;
        ir = ir;
        shots = shots;
      }))
  keep message_id job_id url (err e) = drop message_id

  unfoldable pub screen_job :
      String → List (String × String) → Result (String × String) → M (Option Parsed)
  screen_job message_id decoded (err e) = drop message_id
  screen_job message_id decoded (ok (job_id, url)) = do
    status ← get_job_status w job_id
    if is_finished status then drop message_id else do
      cancelled ← has_cancel_signal w job_id
      if cancelled
          then (do mark_job_cancelled w c job_id message_id; drop message_id)
          else keep message_id job_id url (parse_job w decoded)

  -- The body of the first loop, for one message.
  unfoldable pub screen : Message → M (Option Parsed)
  screen (message_id, fields) = do
    decoded ← lift (decode_fields w fields)
    screen_job message_id decoded (address w decoded)

  abbrev pub add : Option Parsed → List Parsed → List Parsed
  add none ps = ps
  add (some p) ps = p ∷ ps

  unfoldable pub screen_all : List Message → M (List Parsed)
  screen_all [] = pure []
  screen_all (m ∷ ms) = let rest = screen_all ms in do p ← screen m; ps ← rest; pure (add p ps)

  unfoldable pub mark_all_executing : List Parsed → M (Unit {0})
  mark_all_executing [] = pure tt
  mark_all_executing (p ∷ ps) =
      let rest = mark_all_executing ps in
      do
        at ← now w
        safe_hset w (status_key p.job_id)
            (("state", "executing") ∷ ("started_at", at) ∷ ("qpu_id", c.qpu_id) ∷ [])
        rest

  -- Falling back: every message of the batch by itself.
  unfoldable pub process_each : List Message → M (Unit {0})
  process_each [] = pure tt
  process_each ((message_id, fields) ∷ ms) =
      let rest = process_each ms in do process_message w c message_id fields; rest

  abbrev pub fall_back : List Message → M (Option Delivery)
  fall_back ms = do process_each ms; pure none

  -- `zip(parsed, results, strict=True)`
  unfoldable pub pair : List Parsed → List ExecutionResult → Result (List Item)
  pair [] [] = ok []
  pair (p ∷ ps) (r ∷ rs) = elim (pair ps rs) [
    | err e ↦ err e
    | ok is ↦ ok (
        record {
          message_id = p.message_id;
          job_id = p.job_id;
          callback_url = p.callback_url;
          result = r;
          phase = checking;
        }
        ∷ is)
  ]
  pair [] (r ∷ rs) = err (other "zip() argument 2 is longer than argument 1")
  pair (p ∷ ps) [] = err (other "zip() argument 2 is shorter than argument 1")

  -- The task as it starts. A mismatch ends it before any delivery runs, and `finally` sets the
  -- idle event.
  unfoldable pub begin : String → Result (List Item) → M (Option Delivery)
  begin at (ok is) = pure (some (record { items = is; completed_at = at; progress = in_flight }))
  begin at (err e) = do
    modify (λ s. record s { idle = true })
    pure (some (record { items = []; completed_at = at; progress = crashed e }))

  abbrev pub job : Parsed → NativeGateIr × ℤ
  job p = (p.ir, p.shots)

  -- Where the batch came back, its delivery; where it failed, one message after the other.
  unfoldable pub dispatch_results :
      List Message → List Parsed → Result (List ExecutionResult) → M (Option Delivery)
  dispatch_results ms ps (err e) = fall_back ms
  dispatch_results ms ps (ok results) = do at ← now w; begin at (pair ps results)

  -- `try: results = await batch_run(jobs)`, with its outcome as a value.
  abbrev pub outcome : M (List ExecutionResult) → M (Result (List ExecutionResult))
  outcome m s = let (r, s') = m s in (ok r, s')

  unfoldable pub run_batch : List Message → List Parsed → M (Option Delivery)
  run_batch ms ps = do
    modify (λ s. record s { idle = false })
    mark_all_executing ps
    callable ← gets (λ s. w.has_batch_run s.calls)
    if callable
        then (do
          r ← outcome (perform (batch_run (map job ps)) w.batch_run)
          dispatch_results ms ps r)
        else fall_back ms

  -- RedisConsumer._process_batch
  unfoldable pub process_batch : List Message → M (Option Delivery)
  process_batch ms = do ps ← screen_all ms; if is_empty ps then pure none else run_batch ms ps
