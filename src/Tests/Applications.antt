-- ===== src/Tests/Applications.antt =====
-- An application with a node, an executor and its clients (server/app.py and server/executor.py).
use coda_node.Prelude.{
  ◌≡◌, ◌⊎◌, ◌==◌, if◌then◌else◌, refl, true, false, none, some, [], ◌∷◌, codes, pos,
}
use coda_node.Exec.{Exn, ok, err, other}
use coda_node.Exec.Leads.{After}
use coda_node.Json.{Members, last, member, text}
use coda_node.Executor.{
  World, found, loaded, load_attr, instantiate_factory, discover_executor_factories, is_candidate,
  candidates, runner, choose, load_executor,
}
use coda_node.Executor.Resolution.{Resolves, load_executor-Resolves}
use coda_node.Consumer.World.{initial}
use coda_node.Consumer.Drain.{crashed}
use coda_node.Vpn.Node.{success}
use coda_node.App.{Task, watch, Options, Lifespan}
use coda_node.App.Startup.{startup}
use coda_node.App.Shutdown.{shutdown}
use coda_node.App.Serving.{Serves, Idle}
use coda_node.App.Boot.{startup-Serves}
use coda_node.App.Teardown.{Early, Whole, shutdown-teardown}
use coda_node.Tests.Nodes.{cloud, node, services}

-- One package offers a factory, object 2, which makes object 3.
abbrev interpreter : World
interpreter = record {
  import_module = λ path. ok 1;
  getattr = λ o name. ok 2;
  getattr_or_none = λ o name. if o == 1 then some 2 else none;
  has_run = λ o. o == 3;
  is_callable = λ o. o == 2;
  has_parameters = λ o. ok true;
  call = λ o given. ok 3;
  packages = some (codes "_distutils" ∷ codes "lab" ∷ codes "coda_node" ∷ []);
  find_spec = λ path. found;
}

load_lab : load_executor interpreter [] ≡ ok (loaded 3)
unfolding load_executor discover_executor_factories candidates is_candidate choose
    instantiate_factory load_attr runner
load_lab = refl

load_executor-Resolves_example : Resolves interpreter [] (loaded 3)
load_executor-Resolves_example = load_executor-Resolves interpreter [] load_lab

abbrev bundle : Members
bundle = member "qpu_id" (text "q") (
    member "native_gate_set" (text "cz") (
      member "redis_url" (text "redis://r")
        (member "webapp_url" (text "https://coda.example") last)))

abbrev host : coda_node.App.World
host = record {
  node = record cloud { post = λ cs. success (ok bundle) };
  guard = λ cs. services;
  executor = interpreter;
  directed_edges = λ o. none;
  logical_edges = λ o. ok ((0 ∷ 1 ∷ []) ∷ []);
  from_url = λ url. ok tt;
  await = λ task es. ok tt;
  close_heartbeat = λ es. ok tt;
  drain = λ es. record {
    idle = true;
    until_idle = λ c. c;
    delivery = crashed (other "HTTP 404");
    until_delivered = λ c. c;
  };
  close_webhook = λ es. ok tt;
  close_redis = λ es. ok tt;
}

abbrev options : Options
options = record {
  allow_degraded_startup = false;
  executor_factory = [];
  heartbeat_interval_sec = pos 30;
}

abbrev fresh : Lifespan
fresh = record { node = node; guard = coda_node.Vpn.Guard.initial; consumer = initial; events = [] }

startup-Serves_example :
    After
      (λ clients t. Serves host options [] node.settings none clients t t.node.settings)
      (Idle host options [])
      (startup host options none fresh)
startup-Serves_example = startup-Serves host options none fresh refl

shutdown-teardown_example :
    After
      (λ b t. Whole host node [] (ok b) t)
      (λ t. Early host node [] t ⊎ ((e : Exn) × Whole host node [] (err e) t))
      (shutdown host fresh)
shutdown-teardown_example = shutdown-teardown host fresh
