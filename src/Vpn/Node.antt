-- ===== src/Vpn/Node.antt =====
-- A node that provisions itself (vpn/service.py): its settings, and the services around it, which
-- answer each call from all calls that were made before.
pub mod Openvpn
pub mod Bundle
pub mod Connect
pub mod Safety
pub mod Retry
use coda_node.Prelude.{ℕ, String, Bool, Option, List, [], ◌∷◌, ℤ}
use coda_node.Exec.{Exn, Exec, Result, other, raise}
use coda_node.Json.{Json, Members}
use coda_node.Vpn.Interface.{Shell}

-- Settings of server/config.py, as far as provisioning reads or writes them.
pub record Settings : Type 0 where
  pub qpu_id : String
  pub qpu_display_name : String
  pub native_gate_set : String
  pub num_qubits : ℤ
  pub redis_url : String
  pub jwt_private_key : String
  pub jwt_key_id : String
  pub webapp_url : String
  pub webhook_path : String
  pub connect_path : String
  pub heartbeat_path : String
  pub vpn_required : Bool
  pub vpn_check_interval_sec : ℤ
  pub vpn_probe_targets : List String
  pub vpn_interface_hint : Option String
  pub node_token : String
  pub node_machine_fingerprint : String
  pub node_auto_vpn : Bool
  pub node_vpn_profile_path : String
  pub node_connect_headers : List (String × String)
  pub node_connect_retries : ℕ

pub data Call : Type 0 where
  post : String → String → List (String × String) → Members → Call
  sleep : ℕ → Call
  detect : Option String → Call
  -- `_write_secure_text`, of a text, and of the runtime config
  write : String → String → Call
  write_config : Members → Call
  openvpn : String → Call
  kill : ℤ → Call
  taskkill : ℤ → Call
  unlink_pid_file : Call

-- A 2xx response with its parsed body, another status code with its text, a `TransportError`, or
-- any other exception.
pub data Reply : Type 0 where
  success : Result Members → Reply
  status_error : ℕ → String → Reply
  transport_error : String → Reply
  failure : Exn → Reply

-- What `os.kill` or `taskkill` ends with: `refused` stands for PermissionError, ProcessLookupError
-- and TimeoutExpired.
pub data Killed : Type 0 where
  signalled refused : Killed
  os_error : String → Killed

pub record World : Type 0 where
  pub is_windows : Bool
  pub shell : List Call → Shell
  pub post : List Call → Reply
  -- the text of the `HTTPStatusError` that `raise_for_status` raises
  pub status_text : ℕ → String
  pub machine_fingerprint : String
  pub sign_token : List Call → Result String
  -- the executor's topology, as `_connectivity_payload_for_connect` finds it
  pub connectivity : Option Json
  pub config_exists : List Call → Bool
  pub profile_exists : List Call → Bool
  pub write : List Call → Result (Unit {0})
  pub openvpn_binary : List Call → Option String
  -- the return code and the error output of `openvpn --daemon`; on Windows, of `Popen`
  pub openvpn : List Call → Result (ℤ × String)
  -- the OpenVPN PID file
  pub pid_file : List Call → Option (Result String)
  pub kill : List Call → Killed
  pub log_tail : List Call → String
  -- how many polls for the tunnel fit into the time-out
  pub polls : List Call → ℕ

-- The settings, and the calls made so far, newest first.
pub record Node : Type 0 where
  pub settings : Settings
  pub calls : List Call

abbrev pub M : Type 0 → Type 0
M A = Exec Node A

-- Make a call and read the world's answer.
unfoldable pub perform : {A : Type 0} → Call → (List Call → Result A) → M A
perform c answer s = let calls = c ∷ s.calls in (answer calls, record s { calls = calls })

-- `raise NodeError(…)`
abbrev pub node_error : {A : Type 0} → String → M A
node_error e = raise (other e)
