-- ===== src/Lib.antt =====
-- The coda node: a process beside a quantum computer that takes jobs from the Coda cloud over a Redis
-- stream, runs them on an executor, and reports the results by webhook. This library models how it
-- provisions itself, watches its VPN, validates a circuit, runs a job, and delivers what came out, and
-- how the application starts and stops all this.
--
-- The parts, and how they meet. A node first shakes hands with the cloud
-- (src/coda_node/vpn/service.py): it gets a bundle with its identity and credentials, and perhaps a
-- VPN profile, which it writes and starts. The guard (src/coda_node/vpn/guard.py) then checks the VPN.
-- The consumer (src/coda_node/server/consumer.py) reads jobs, parses each circuit with the validators
-- of src/coda_node/server/ir.py, and reports by the client of src/coda_node/server/webhook.py.
--
-- - Exec: actions that change a state and may raise; what was done before a raise stays done. Keeps
--   and Leads are the rules for invariants and for what an action leads to, Runs those for running.
-- - Json: values as `json.loads` returns them.
-- - Ir: NativeGateIR and GateOp with their validators. A fault is a value of IrError in place of the
--   message. Ir.Spec describes well-formed circuits without the tables of the code.
-- - Webhook: WebhookPayload.to_dict, WebhookClient._post_with_retry, send_result and send_error. The
--   signer and the HTTP client are an `Http`, which answers each request from the events before it.
-- - Consumer: RedisConsumer. Consumer.World has the state (the fields of the class that its methods
--   change, and the variables of consume_loop) and the services around it, which answer each call from
--   the list of all calls made before; so a theorem for every `World` covers every reply, and a
--   cancellation at any moment. Redis has the guarded Redis operations, Job has _process_message and
--   _run_job_with_cancellation, Batch has _process_batch, Delivery the task that _process_batch
--   returns, Loop has consume_loop and recover_pending.
-- - Vpn.Interface, Vpn.Guard and Vpn.Permissions: detect_tun_interface with its parsers, VPNGuard, and
--   validate_key_permissions.
-- - Vpn.Profile and Vpn.Node: _validate_vpn_profile; the settings, the OpenVPN daemon, and
--   apply_node_bundle, _post_connect and connect_settings.
-- - Regex: the regular expressions that the program uses, as matchers that go back like `re` does.
-- - Qasm: src/coda_node/server/qasm.py. Patterns has its regular expressions, Gates the tables of both
--   targets, Printer ir_to_openqasm, Parser openqasm_to_ir.
-- - Config: load_persisted_runtime_config and merge_persisted_runtime_config of
--   src/coda_node/server/config.py. The file system and `json.loads` are a `World`. Config.Device has
--   the scanner of the device file, and the validators that run behind the fields.
-- - Cli: src/coda_node/server/cli.py: `_reset`, start --daemon, stop, status and stop-vpn with their
--   exit statuses. Exists and unlink are those of a list of paths; paths are compared as texts.
--   Cli.Listed tells which paths a reset may remove without the code that lists them.
-- - Daemon: src/coda_node/server/daemon.py, with the text of the PID file in the state;
--   Daemon.Log has tail_daemon_log. A look at a PID never raises: that os.kill overflows at a PID of
--   more than 31 bits is left out.
-- - Heartbeat: src/coda_node/server/heartbeat.py.
-- - Auth: src/coda_node/server/auth.py, over PyJWT, whose documented behaviour is a hypothesis.
-- - Executor: src/coda_node/server/executor.py, which finds the execution backend. Python's import
--   system, and the objects that it yields, are a `World`.
-- - App: the lifespan of src/coda_node/server/app.py, which composes the parts above. Exec.Part runs a
--   component's action on its field of the state. Startup has what comes before the `yield`, with the
--   topology of src/coda_node/server/device_topology.py, and Shutdown what comes behind it. A created
--   task is an event: what it does is in its own component's model.
--
-- Bounds and fuel. `consume_loop` and `watch` are the first n rounds of their loops, for any n. The
-- deliveries of a batch run side by side: each stands before one of its awaits, and the world says
-- which one moves next, and how many moves pass while the loop waits in XREADGROUP. Awaiting the batch
-- has one move of fuel more than the awaits that are left, which is enough (see the results). The task
-- of a job needs some number of waits, which the world gives: every executor is taken to end. Waiting
-- for a tunnel polls as often as the world says that the time-out allows. The delay of the consume
-- loop is a float: its powers of two are exact up to 2.0 ** 1023, and raise above. Stopping the daemon
-- looks at the process as often as the world says that the time-out allows.
--
-- Not modelled: logging; decoding JSON into a circuit's fields, which is pydantic's; the clock, signing
-- and HTTP, which are parameters; text beyond ASCII in strip, lower, isspace and int. Settings are
-- taken to accept each assignment of the right type. Removing and writing the PID file are taken to
-- succeed. Of the command line, the parser, what is printed, the overrides of the environment, doctor
-- and logs are left out, and of FastAPI its routes. Of Python's floats, printing, reading and comparing
-- are parameters of Qasm. The limit of 4300 digits that int() has is left out.
pub mod Prelude
pub mod Exec
pub mod Json
pub mod Ir
pub mod Webhook
pub mod Consumer
pub mod Vpn
pub mod Daemon
pub mod Auth
pub mod App
pub mod Cli
pub mod Config
pub mod Regex
pub mod Qasm
pub mod Executor
pub mod Heartbeat
pub mod Tests
