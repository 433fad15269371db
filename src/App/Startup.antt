-- ===== src/App/Startup.antt =====
-- What the lifespan does before the application serves (`create_app` of server/app.py), and the
-- topology that it reports (server/device_topology.py).
use coda_node.Prelude.{
  ℕ, String, ◌<>◌, true, not, ◌&&◌, Option, none, some, List, [], ◌∷◌, pos, codes, if◌then◌else◌,
}
use coda_node.Exec.{other, Result, ok, err, pure, raise, lift, gets, modify, ◌>>=◌, ◌>>◌}
use coda_node.Json.{Json, null, integer, array, Elements, end, element}
use coda_node.Executor.{Object, JobExecutor, noop, loaded, load_executor, is_factory}
use coda_node.Consumer.World.{Config, initial}
use coda_node.Vpn.Node.{Settings}
use coda_node.Vpn.Node.Openvpn.{codes_of}
use coda_node.Vpn.Node.Connect.{connect_settings}
use coda_node.Vpn.Guard.{GuardConfig, VpnStatus, preflight}
use coda_node.App.{
  from_url, create_task, Task, watch, consume_loop, heartbeat, World, Options, M, perform, on_node,
  on_guard, heartbeat_url, vpn_probe_urls, seconds,
}

-- Who signs the requests of a client.
pub record Signer : Type 0 where
  pub qpu_id : String
  pub jwt_private_key : String
  pub jwt_key_id : String

-- The clients that the lifespan builds.
pub record Clients : Type 0 where
  pub runner : JobExecutor
  pub webhook : coda_node.Webhook.WebhookClient
  pub webhook_signer : Signer
  pub consumer : Config
  pub heartbeat : coda_node.Heartbeat.HeartbeatClient
  pub heartbeat_signer : Signer

abbrev numbers : List ℕ → Elements
numbers [] = end
numbers (n ∷ ns) = element (integer (pos n)) (numbers ns)

abbrev edge_list : List (List ℕ) → Elements
edge_list [] = end
edge_list (e ∷ es) = element (array (numbers e)) (edge_list es)

-- The edges as JSON.
abbrev pub edges_json : Option (List (List ℕ)) → Json
edges_json none = null
edges_json (some es) = array (edge_list es)

abbrev pub signer_of : Settings → Signer
signer_of s = record {
  qpu_id = s.qpu_id;
  jwt_private_key = s.jwt_private_key;
  jwt_key_id = s.jwt_key_id;
}

-- VPNGuard(…)
abbrev pub guard_of : Settings → GuardConfig
guard_of s = record {
  probe_targets = vpn_probe_urls s;
  interface_hint = codes_of s.vpn_interface_hint;
  check_interval_sec = seconds s.vpn_check_interval_sec;
  vpn_required = s.vpn_required;
  extra_headers = s.node_connect_headers;
  has_callback = true;
}

module _ (w : World) where
  abbrev logical : Object → Result (Option (List (List ℕ)))
  logical device = elim (w.logical_edges device) [ ok es ↦ ok (some es) | err e ↦ err e ]

  -- resolve_connectivity_from_device_spec
  unfoldable pub resolve_connectivity_from_device_spec :
      Option Object → Result (Option (List (List ℕ)))
  resolve_connectivity_from_device_spec none = ok none
  resolve_connectivity_from_device_spec (some device) = elim (w.directed_edges device) [
    | some (e ∷ es) ↦ ok (some (e ∷ es))
    | some [] ↦ logical device
    | none ↦ logical device
  ]

  -- `getattr(runner, name, None)`
  abbrev pub attribute : String → JobExecutor → Option Object
  attribute name noop = none
  attribute name (loaded o) = w.executor.getattr_or_none o (codes name)

  abbrev pub runner_or : Options → Option JobExecutor → Result JobExecutor
  runner_or c (some executor) = ok executor
  runner_or c none = load_executor w.executor c.executor_factory

  abbrev topology_of : Result JobExecutor → Result (Option (List (List ℕ)))
  topology_of (ok runner) = resolve_connectivity_from_device_spec (attribute "device" runner)
  topology_of (err e) = err e

  abbrev or_none : Result (Option (List (List ℕ))) → Option (List (List ℕ))
  or_none (ok edges) = edges
  or_none (err e) = none

  -- _connectivity_payload_for_connect, whose executor is not the one that the application is given.
  unfoldable pub connectivity_payload_for_connect : Options → Option (List (List ℕ))
  connectivity_payload_for_connect c =
      or_none (topology_of (load_executor w.executor c.executor_factory))

  abbrev payload : Option (List (List ℕ)) → Option Json
  payload none = none
  payload (some edges) = some (edges_json (some edges))

  -- The node's surroundings, with the topology that the handshake reports.
  abbrev pub node_world : Options → coda_node.Vpn.Node.World
  node_world c = record w.node { connectivity = payload (connectivity_payload_for_connect c) }

  abbrev pub clients_of : Options → Settings → JobExecutor → Option (List (List ℕ)) → Clients
  clients_of c s runner connectivity = record {
    runner = runner;
    webhook = record { max_retries = 3; extra_headers = s.node_connect_headers };
    webhook_signer = signer_of s;
    consumer = record {
      qpu_id = s.qpu_id;
      consumer_name = "worker-0";
      can_batch = is_factory w.executor (attribute "batch_run" runner);
    };
    heartbeat = record {
      url = heartbeat_url s;
      interval = seconds c.heartbeat_interval_sec;
      connectivity = edges_json connectivity;
      extra_headers = s.node_connect_headers;
    };
    heartbeat_signer = signer_of s;
  }

  -- VPNGuard(…), and its preflight()
  abbrev pub check_vpn : Settings → M VpnStatus
  check_vpn settings = do
    modify (λ s. record s { guard = coda_node.Vpn.Guard.initial })
    world ← gets (λ s. w.guard s.node.calls)
    on_guard (preflight world (guard_of settings))

  abbrev pub start : Task → M (Unit {0})
  start task = perform (create_task task) (λ es. ok tt)

  -- Behind the check of the VPN: Redis, the executor, the clients and the tasks.
  unfoldable pub serve : Options → Option JobExecutor → Settings → M Clients
  serve c executor settings = do
    perform (from_url settings.redis_url) (λ es. w.from_url settings.redis_url)
    runner ← lift (runner_or c executor)
    connectivity ← lift (resolve_connectivity_from_device_spec (attribute "device" runner))
    modify (λ s. record s { consumer = initial })
    start watch
    start consume_loop
    start heartbeat
    pure (clients_of c settings runner connectivity)

  -- The lifespan up to its `yield`, from the settings on that `Settings()` has returned. A given
  -- executor counts as true.
  unfoldable pub startup : Options → Option JobExecutor → M Clients
  startup c executor = do
    on_node (connect_settings (node_world c))
    settings ← gets (λ s. s.node.settings)
    status ← check_vpn settings
    if not status.ok && (settings.vpn_required && not c.allow_degraded_startup)
        then raise (other ("VPN preflight failed: " <> status.reason))
        else serve c executor settings
