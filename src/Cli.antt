-- ===== src/Cli.antt =====
-- The command line (server/cli.py): what its commands do to the daemon, to the VPN and to the files, and
-- the status that the process exits with. What they print is left out.
pub mod Paths
pub mod Listed
pub mod Reset
use coda_node.Prelude.{
  ℕ, String, Bool, true, false, not, ◌&&◌, ◌||◌, Option, none, some, List, [], ◌∷◌, ◌++◌,
  if◌then◌else◌, str_eq, ◌==◌, contains, codes, split, ltb,
}
use coda_node.Exec.{
  Exn, other, Result, ok, err, Exec, pure, raise, lift, gets, modify, ◌>>=◌, ◌>>◌, catching,
}
use coda_node.Exec.Part.{part}
use coda_node.Json.{Json, text, object, Members, last, get}
use coda_node.Daemon.{
  Host, DaemonStatus, is_daemon_running, daemon_status, start_daemon, stop_daemon,
}
use coda_node.Vpn.Node.{Node}
use coda_node.Vpn.Node.Openvpn.{kill_openvpn_daemon}

-- What `json.loads` makes of the runtime config: `unreadable` stands for OSError and JSONDecodeError.
pub data Parsed : Type 0 where
  parsed : Json → Parsed
  unreadable : Parsed
  broken : Exn → Parsed

pub record World : Type 0 where
  pub daemon : coda_node.Daemon.World
  pub node : coda_node.Vpn.Node.World
  pub config : Parsed
  pub is_runtime_error : Exn → Bool
  -- `path.unlink()`
  pub unlink : String → Result (Unit {0})

-- The daemon, the node with its OpenVPN process, and the files that `reset` finds when both are
-- stopped, by their paths.
pub record Machine : Type 0 where
  pub host : Host
  pub node : Node
  pub files : List String

abbrev pub M : Type 0 → Type 0
M A = Exec Machine A

abbrev pub on_daemon : {A : Type 0} → coda_node.Daemon.M A → M A
on_daemon = part (λ s. s.host) (λ h s. record s { host = h })

abbrev pub on_node : {A : Type 0} → coda_node.Vpn.Node.M A → M A
on_node = part (λ s. s.node) (λ n s. record s { node = n })

abbrev pub config_path : String
config_path = "/tmp/coda.config"

-- PERSISTED_CONFIG_PATH, PERSISTED_PRIVATE_KEY_PATH and the other paths, below /tmp.
abbrev pub fixed_paths : List String
fixed_paths =
    config_path ∷ "/tmp/coda-private-key" ∷ "/tmp/coda-node-openvpn.pid"
    ∷ "/tmp/coda-node-openvpn.log" ∷ "/tmp/coda-node.pid" ∷ "/tmp/coda-node.log"
    ∷ "/tmp/coda-node.ovpn" ∷ []

-- `if isinstance(value, str) and value: paths.add(Path(value))`
abbrev pub path_at : Option Json → List String
path_at (some (text value)) = if str_eq value "" then [] else value ∷ []
path_at _ = []

abbrev pub paths_in : Json → List String
paths_in (object m) =
    path_at (get "jwt_private_key_path" m) ++ path_at (get "node_vpn_profile_path" m)
paths_in _ = []

abbrev pub named : Parsed → Result (List String)
named (parsed j) = ok (paths_in j)
named unreadable = ok []
named (broken e) = err e

-- Paths are ordered by their parts.
abbrev pub leb_codes : List ℕ → List ℕ → Bool
leb_codes [] t = true
leb_codes (c ∷ s) [] = false
leb_codes (c ∷ s) (d ∷ t) = if ltb c d then true else (if ltb d c then false else leb_codes s t)

abbrev pub same : List ℕ → List ℕ → Bool
same [] [] = true
same (c ∷ s) (d ∷ t) = c == d && same s t
same _ _ = false

abbrev pub leb_parts : List (List ℕ) → List (List ℕ) → Bool
leb_parts [] ts = true
leb_parts (s ∷ ss) [] = false
leb_parts (s ∷ ss) (t ∷ ts) = if same s t then leb_parts ss ts else leb_codes s t

abbrev pub leb_path : String → String → Bool
leb_path p q = leb_parts (split b'/' (codes p)) (split b'/' (codes q))

abbrev pub place : String → List String → List String
place p [] = p ∷ []
place p (q ∷ ps) = if leb_path p q then p ∷ q ∷ ps else q ∷ place p ps

-- `sorted` of the set of these paths.
unfoldable pub sort : List String → List String
sort [] = []
sort (p ∷ ps) = let rest = sort ps in if contains p ps then rest else place p rest

abbrev pub without : String → List String → List String
without p [] = []
without p (q ∷ qs) = if str_eq q p then without p qs else q ∷ without p qs

module _ (w : World) where
  abbrev pub named_if : Bool → Result (List String)
  named_if true = named w.config
  named_if false = ok []

  -- _read_reset_paths
  unfoldable pub read_reset_paths : M (List String)
  read_reset_paths = do
    files ← gets (λ s. s.files)
    more ← lift (named_if (contains config_path files))
    pure (sort (fixed_paths ++ more))

  abbrev pub remove : String → M (Unit {0})
  remove path = do lift (w.unlink path); modify (λ s. record s { files = without path s.files })

  -- The loop over the paths.
  unfoldable pub remove_all : List String → M (Unit {0})
  remove_all [] = pure tt
  remove_all (path ∷ paths) =
      let rest = remove_all paths in
      do files ← gets (λ s. s.files); if contains path files then remove path else pure tt; rest

  -- _reset
  unfoldable pub reset : M ℕ
  reset = do
    on_daemon (stop_daemon w.daemon)
    on_node (kill_openvpn_daemon w.node)
    paths ← read_reset_paths
    remove_all paths
    pure 0

  -- The exit statuses of the commands.
  abbrev pub status_of : Bool → ℕ
  status_of true = 0
  status_of false = 1

  -- `except RuntimeError`
  abbrev pub failed_start : Exn → M ℕ
  failed_start e = if w.is_runtime_error e then pure 1 else raise e

  -- `coda start --daemon`, with the settings that it reads
  unfoldable pub start : String → ℕ → String → M ℕ
  start host port token = do
    running ← on_daemon (is_daemon_running w.daemon)
    if running
        then (do on_daemon (daemon_status w.daemon); pure 1)
        else catching (do on_daemon (start_daemon w.daemon host port token); pure 0) failed_start

  -- `coda stop`
  unfoldable pub stop : M ℕ
  stop = do
    running ← on_daemon (is_daemon_running w.daemon)
    if not running then pure 1 else do
      on_daemon (daemon_status w.daemon)
      stopped ← on_daemon (stop_daemon w.daemon)
      pure (status_of stopped)

  -- `coda status`, up to the VPN interface, which is only shown
  unfoldable pub status : M ℕ
  status = do s ← on_daemon (daemon_status w.daemon); pure (status_of s.running)

  -- `coda stop-vpn`
  unfoldable pub stop_vpn : M ℕ
  stop_vpn = do killed ← on_node (kill_openvpn_daemon w.node); pure (status_of killed)
