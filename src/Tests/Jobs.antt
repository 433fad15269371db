-- ===== src/Tests/Jobs.antt =====
-- A consumer and its services (server/consumer.py).
use coda_node.Prelude.{
  suc, ◌≡◌, parse_int, inl, refl, ap, ◌∙◌, String, true, false, none, some, List, [], ◌∷◌, pos,
  float_zero, ltb, length,
}
use coda_node.Exec.{connection, other, ok, err}
use coda_node.Ir.{
  validate, field_errors, validate_target, validate_gate_shape, validate_consistency, check_gates,
  check_qubits, check_measurements,
}
use coda_node.Exec.Runs.{>>=-ok, lift-ok}
use coda_node.Tests.Circuits.{bell}
use coda_node.Consumer.World.{
  ExecutionResult, str, Fields, xack, checking, sending, Item, in_flight, crashed, Delivery, World,
  Config, Consumer, initial,
}
use coda_node.Consumer.Redis.{stream, group, decode_fields}
use coda_node.Consumer.Job.{
  parse_job, from_json, item, address, dispatch, execute, process_job, process_message,
}
use coda_node.Consumer.Loop.{await_delivery, iteration, rounds, consume_loop}
use coda_node.Consumer.Trace.{Fresh, Rechecked, AllCleared}
use coda_node.Consumer.Ack.{LastCall, ack, Done, execute_acks, process_message_acks}
use coda_node.Consumer.Cancel.Job.{process_message_cleared}
use coda_node.Consumer.Cancel.Loop.{consume_loop_cleared}
use coda_node.Consumer.Outcome.{
  IsSmooth, with_calls, status_read, process_job_finished, process_job_completes, accepted, started,
  ran, look, completed, reported,
}
use coda_node.Consumer.Awaited.{IsIntact, Awaited, await_delivery_ends}
use coda_node.Consumer.Delivery.{work, until_ended}
use coda_node.Consumer.Pending.Stuck.{IsStuck, runs, rounds-IsStuck}
use coda_node.Consumer.Backoff.{Retried, iteration_disconnected}

abbrev counted : ExecutionResult
counted = record {
  counts = ("00", pos 51) ∷ ("11", pos 49) ∷ [];
  execution_time_ms = float_zero;
  shots_completed = pos 100;
}

abbrev fields : List (String × String)
fields =
    ("job_id", "j1") ∷ ("callback_url", "https://c/w") ∷ ("ir_json", "{}") ∷ ("shots", "100") ∷ []

abbrev raw_fields : Fields
raw_fields =
    (str "job_id", str "j1")
    ∷ (str "callback_url", str "https://c/w")
    ∷ (str "ir_json", str "{}")
    ∷ (str "shots", str "100")
    ∷ []

-- Services that never fail: the stream holds two jobs, and the executor needs one time-out each.
abbrev calm : World
calm = record {
  now = λ cs. "2026-01-01T00:00:00Z";
  monotonic = length;
  utf8 = λ bs. ok "";
  decode_json = λ text. ok bell;
  describe = λ es. "";
  xgroup_create = λ cs. ok tt;
  xpending_range = λ cs. ok ("1-0" ∷ []);
  xrange = λ cs. ok (("1-0", raw_fields) ∷ []);
  xreadgroup = λ cs. ok (("qpu:q:jobs", ("2-0", raw_fields) ∷ ("3-0", raw_fields) ∷ []) ∷ []);
  xack = λ cs. ok tt;
  hset = λ cs. ok tt;
  hget = λ cs. ok none;
  get = λ cs. ok none;
  timeouts = λ cs. 1;
  finish = λ cs. ok counted;
  has_cancel_hook = λ cs. true;
  cancel_hook = λ cs. ok tt;
  has_batch_run = λ cs. true;
  batch_run = λ cs. ok (counted ∷ counted ∷ []);
  send = λ cs. ok tt;
  pick = λ cs. length cs;
  moves = λ cs. 3;
  stopped = λ cs. ltb 60 (length cs);
}

abbrev config : Config
config = record { qpu_id = "q"; consumer_name = "w1"; can_batch = true }

calm_smooth : IsSmooth calm
calm_smooth = record {
  unfinished = λ cs. inl refl;
  no_cancel = λ cs. refl;
  hset_ok = λ cs. refl;
  xack_ok = λ cs. refl;
  send_ok = λ cs. refl;
}

parsed : parse_job calm fields ≡ ok (bell, pos 100)
unfolding parse_job from_json item validate field_errors validate_target validate_gate_shape
    validate_consistency check_gates check_qubits check_measurements parse_int
parsed = refl

process_job_completes_example :
    let begun =
      started calm calm_smooth config "2-0" "j1" "https://c/w"
        (accepted calm calm_smooth config "2-0" "j1" "https://c/w" []) in
    let cs = reported calm calm_smooth config "2-0" "j1" "https://c/w" counted (
      look calm calm_smooth config "2-0" "j1" "https://c/w" (
        completed calm calm_smooth config "2-0" "j1" "https://c/w" (
          look calm calm_smooth config "2-0" "j1" "https://c/w"
            (ran calm calm_smooth config "2-0" "j1" "https://c/w" bell (pos 100) begun)))) in
    process_job calm config "2-0" "j1" "https://c/w" fields initial ≡ (
      ok tt,
      record initial {
        idle = true;
        current_job_id = none;
        last_job_at = some "2026-01-01T00:00:00Z";
        calls = xack (stream config) (group config) "2-0" ∷ cs;
      },
    )
process_job_completes_example =
    process_job_completes calm calm_smooth config "2-0" "j1" "https://c/w" fields bell (pos 100)
      counted parsed (λ cs. refl) initial

-- Redis says that the job was completed before.
abbrev finished : World
finished = record calm { hget = λ cs. ok (some (str "completed")) }

process_job_finished_example :
    (process_job finished config "2-0" "j1" "https://c/w" fields initial).1
    ≡ with_calls initial (
        xack (stream config) (group config) "2-0"
        ∷ status_read finished config "2-0" "j1" "https://c/w" fields [])
process_job_finished_example =
    process_job_finished finished config "2-0" "j1" "https://c/w" fields "completed" initial
      (inl refl) refl

-- Redis refuses all writes, and the webhook's host is unreachable.
abbrev failing : World
failing = record calm {
  hset = λ cs. err (connection "refused");
  xack = λ cs. err (connection "refused");
  send = λ cs. err (other "unreachable");
}

execute_acks_example :
    LastCall
      (ack failing config "2-0")
      (execute failing config "2-0" "j1" "https://c/w" fields initial).1.calls
execute_acks_example = execute_acks failing config "2-0" "j1" "https://c/w" fields initial

decoded : decode_fields calm raw_fields ≡ ok fields
unfolding decode_fields
decoded = refl

processed : (process_message calm config "2-0" raw_fields initial).0 ≡ ok tt
unfolding process_message dispatch address item
processed =
    ap (λ r. r.0)
      (>>=-ok _ _ (lift-ok _ initial decoded)
        ∙ process_job_completes calm calm_smooth config "2-0" "j1" "https://c/w" fields bell
            (pos 100) counted parsed (λ cs. refl) initial)

process_message_acks_example :
    Done calm config "2-0" (process_message calm config "2-0" raw_fields initial).1
process_message_acks_example =
    process_message_acks calm config "2-0" raw_fields initial (refl, refl) processed

process_message_cleared_example :
    AllCleared calm (Fresh calm) (process_message calm config "2-0" raw_fields initial).1.calls
process_message_cleared_example =
    process_message_cleared calm config "2-0" raw_fields initial refl tt

consume_loop_cleared_example :
    AllCleared calm (Rechecked calm) (consume_loop calm config (λ e. false) 3 initial).1.calls
consume_loop_cleared_example = consume_loop_cleared calm config (λ e. false) 3

abbrev sent : Item
sent = record {
  message_id = "2-0";
  job_id = "j1";
  callback_url = "https://c/w";
  result = counted;
  phase = checking;
}

abbrev batch : Delivery
batch = record {
  items = sent ∷ record sent { message_id = "3-0"; phase = sending } ∷ [];
  completed_at = "2026-01-01T00:00:00Z";
  progress = in_flight;
}

abbrev waits : Consumer
waits = record initial { pending_batch_delivery = some batch }

batch-IsIntact : IsIntact batch
batch-IsIntact e = refl

await_delivery_ends_example :
    let (d', t) = until_ended calm config (suc (work batch.items)) batch waits in
    Awaited calm config d' t (await_delivery calm config waits)
await_delivery_ends_example = await_delivery_ends calm config waits batch refl batch-IsIntact

abbrev stuck : Consumer
stuck = record initial {
  running = true;
  pending_batch_delivery = some (record batch { progress = crashed (other "reset") });
}

rounds-IsStuck_example :
    let t = (rounds calm config 5 stuck).1 in IsStuck (other "reset") t × (runs t.calls ≡ 0)
rounds-IsStuck_example =
    rounds-IsStuck calm config (other "reset") stuck 5
      (record batch { progress = crashed (other "reset") }, refl, refl)

-- Redis is gone.
abbrev offline : World
offline = record calm { xreadgroup = λ cs. err (connection "refused") }

iteration_disconnected_example : Retried offline config 1 initial (iteration offline config initial)
iteration_disconnected_example = iteration_disconnected offline config "refused" initial refl refl
