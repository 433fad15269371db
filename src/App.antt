-- ===== src/App.antt =====
-- The application (server/app.py): what its lifespan starts and tears down, and the readiness probe.
pub mod Startup
pub mod Shutdown
pub mod Serving
pub mod Boot
pub mod Order
pub mod Teardown
use coda_node.Prelude.{
  ℕ, String, ◌<>◌, Bool, true, false, not, ◌&&◌, Option, none, some, List, [], ◌∷◌, is_empty, ℤ,
  pos, negsuc, codes, if◌then◌else◌,
}
use coda_node.Exec.{Exn, Result, ok, err, Exec}
use coda_node.Exec.Part.{part}
use coda_node.Executor.{Object}
use coda_node.Consumer.World.{Consumer}
use coda_node.Consumer.Drain.{Waits}
use coda_node.Vpn.Node.{Settings, Call, Node}
use coda_node.Vpn.Guard.{ServiceState, VpnGuard, is_ready}

-- The three background tasks: `guard.watch`, `consumer.consume_loop` and `heartbeat.run`.
pub data Task : Type 0 where
  watch consume_loop heartbeat : Task

-- What the lifespan asks of the event loop, of Redis and of the clients.
pub data Event : Type 0 where
  from_url : String → Event
  create_task cancel await : Task → Event
  stop_guard close_heartbeat drain_consumer close_webhook close_redis : Event

pub record World : Type 0 where
  pub node : coda_node.Vpn.Node.World
  -- the guard's surroundings, as provisioning leaves them
  pub guard : List Call → coda_node.Vpn.Guard.World
  pub executor : coda_node.Executor.World
  -- `spec.directed_edges`, or None; and `spec.logical_edges`
  pub directed_edges : Object → Option (List (List ℕ))
  pub logical_edges : Object → Result (List (List ℕ))
  pub from_url : String → Result (Unit {0})
  -- an awaited task: it has ended, by its cancellation or before, or its exception
  pub await : Task → List Event → Result (Unit {0})
  pub close_heartbeat : List Event → Result (Unit {0})
  pub drain : List Event → Waits
  pub close_webhook : List Event → Result (Unit {0})
  pub close_redis : List Event → Result (Unit {0})

-- The settings that only the application reads.
pub record Options : Type 0 where
  pub allow_degraded_startup : Bool
  pub executor_factory : List ℕ
  pub heartbeat_interval_sec : ℤ

-- The node with its settings, as `Settings()` has returned them at first, the guard, the consumer, and
-- the events so far, newest first.
pub record Lifespan : Type 0 where
  pub node : Node
  pub guard : VpnGuard
  pub consumer : Consumer
  pub events : List Event

abbrev pub M : Type 0 → Type 0
M A = Exec Lifespan A

unfoldable pub perform : {A : Type 0} → Event → (List Event → Result A) → M A
perform e answer s = let events = e ∷ s.events in (answer events, record s { events = events })

abbrev pub on_node : {A : Type 0} → coda_node.Vpn.Node.M A → M A
on_node = part (λ s. s.node) (λ n s. record s { node = n })

abbrev pub on_guard : {A : Type 0} → coda_node.Vpn.Guard.M A → M A
on_guard = part (λ s. s.guard) (λ g s. record s { guard = g })

abbrev pub on_consumer : {A : Type 0} → coda_node.Consumer.World.M A → M A
on_consumer = part (λ s. s.consumer) (λ c s. record s { consumer = c })

-- Settings.heartbeat_url
abbrev pub heartbeat_url : Settings → String
heartbeat_url s = s.webapp_url <> s.heartbeat_path

-- Settings.vpn_probe_urls
abbrev pub vpn_probe_urls : Settings → List String
vpn_probe_urls s =
    if not (is_empty s.vpn_probe_targets)
    then s.vpn_probe_targets
    else if not s.vpn_required
    then []
    else (s.webapp_url <> "/api/internal/qpu/health") ∷ []

-- `asyncio.sleep` does not wait for a negative time.
abbrev pub seconds : ℤ → ℕ
seconds (pos n) = n
seconds (negsuc n) = 0

-- _check_readiness
pub record Readiness : Type 0 where
  pub ready : Bool
  pub vpn_state : ServiceState
  pub redis_healthy : Bool
  pub current_job : Option String

abbrev pub check_readiness : Lifespan → Readiness
check_readiness s = record {
  ready = is_ready s.guard && s.consumer.redis_healthy;
  vpn_state = s.guard.state;
  redis_healthy = s.consumer.redis_healthy;
  current_job = s.consumer.current_job_id;
}

-- The status code of `ready`, whose check does not wait for anything.
unfoldable pub ready : Lifespan → ℕ
ready s = if (check_readiness s).ready then 200 else 503
