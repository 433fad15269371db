-- ===== src/Consumer/World.antt =====
-- The consumer's state and the services around it. Redis, the executor, the webhook client, the
-- clock and the JSON decoder are not implemented by consumer.py: a `World` answers each call from
-- all calls that were made before, so a theorem for every world covers every behaviour of theirs, a
-- cancellation that arrives at any moment among them.
use coda_node.Prelude.{ℕ, String, Bool, true, false, Option, none, List, [], ◌∷◌, ℤ, Float}
use coda_node.Exec.{Exn, Exec, Result}
use coda_node.Ir.{NativeGateIr, IrError}
use coda_node.Webhook.{WebhookPayload}

-- ExecutionResult of executor.py
pub record ExecutionResult : Type 0 where
  pub counts : List (String × ℤ)
  pub execution_time_ms : Float
  pub shots_completed : ℤ

-- Redis returns text or bytes, as `decode_responses` says.
pub data Raw : Type 0 where
  str : String → Raw
  bytes : List ℕ → Raw

abbrev pub Fields : Type 0
Fields = List (Raw × Raw)

abbrev pub Message : Type 0
Message = String × Fields

-- A call to the outside, with its arguments.
pub data Call : Type 0 where
  xgroup_create : String → String → Call
  xpending_range : String → String → String → ℕ → Call
  xrange : String → String → Call
  xreadgroup : String → String → String → ℕ → Call
  xack : String → String → String → Call
  hset : String → List (String × String) → Call
  hget : String → String → Call
  get : String → Call
  -- `create_task(runner.run(ir, shots))`, one `asyncio.wait` that timed out, and the task's end
  run : NativeGateIr → ℤ → Call
  wait : Call
  finish : Call
  cancel_current_job : Call
  cancel_task : Call
  batch_run : List (NativeGateIr × ℤ) → Call
  -- WebhookClient.send_result
  send : String → WebhookPayload → Call
  sleep : ℕ → Call

pub record World : Type 0 where
  pub now : List Call → String
  pub monotonic : List Call → ℕ
  pub utf8 : List ℕ → Result String
  pub decode_json : String → Result NativeGateIr
  pub describe : List IrError → String
  pub xgroup_create : List Call → Result (Unit {0})
  pub xpending_range : List Call → Result (List String)
  pub xrange : List Call → Result (List Message)
  pub xreadgroup : List Call → Result (List (String × List Message))
  pub xack : List Call → Result (Unit {0})
  pub hset : List Call → Result (Unit {0})
  pub hget : List Call → Result (Option Raw)
  pub get : List Call → Result (Option Raw)
  -- how often `asyncio.wait` times out before the executor's task ends; every task is taken to end
  pub timeouts : List Call → ℕ
  pub finish : List Call → Result ExecutionResult
  pub has_cancel_hook : List Call → Bool
  pub cancel_hook : List Call → Result (Unit {0})
  pub has_batch_run : List Call → Bool
  pub batch_run : List Call → Result (List ExecutionResult)
  pub send : List Call → Result (Unit {0})
  -- the event loop: which delivery of a batch moves next, and how many moves pass during XREADGROUP
  pub pick : List Call → ℕ
  pub moves : List Call → ℕ
  -- whether `stop` has been called
  pub stopped : List Call → Bool

-- One delivery of a batch, `_deliver_single_batch_result`: which await it stands before.
pub data Phase : Type 0 where
  -- the first look at the cancel flag, the write of "completed", the second look, the webhook
  checking completing rechecking sending : Phase
  -- the write of "cancelled", and the XACK
  cancelling acking : Phase
  done failed : Phase

pub record Item : Type 0 where
  pub message_id : String
  pub job_id : String
  pub callback_url : String
  pub result : ExecutionResult
  pub phase : Phase

-- The task of `_deliver_batch_results`: still running, ended, or ended by an exception.
pub data Progress : Type 0 where
  in_flight succeeded : Progress
  crashed : Exn → Progress

pub record Delivery : Type 0 where
  pub items : List Item
  pub completed_at : String
  pub progress : Progress

-- RedisConsumer: what `__init__` fixes.
pub record Config : Type 0 where
  pub qpu_id : String
  pub consumer_name : String
  pub can_batch : Bool

-- RedisConsumer: what its methods change, and the calls made so far, newest first.
pub record Consumer : Type 0 where
  pub running : Bool
  pub idle : Bool
  pub current_job_id : Option String
  pub last_job_at : Option String
  pub redis_healthy : Bool
  pub pending_batch_delivery : Option Delivery
  -- the variables of `consume_loop`
  pub consecutive_failures : ℕ
  pub last_pending_check : ℕ
  pub calls : List Call

-- The state that `__init__` sets up.
abbrev pub initial : Consumer
initial = record {
  running = false;
  idle = true;
  current_job_id = none;
  last_job_at = none;
  redis_healthy = true;
  pending_batch_delivery = none;
  consecutive_failures = 0;
  last_pending_check = 0;
  calls = [];
}

-- A method of the consumer, up to its next state.
abbrev pub M : Type 0 → Type 0
M A = Exec Consumer A

-- Make a call and read the world's answer.
unfoldable pub perform : {A : Type 0} → Call → (List Call → Result A) → M A
perform c answer s = let calls = c ∷ s.calls in (answer calls, record s { calls = calls })
