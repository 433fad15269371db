-- ===== src/Daemon.antt =====
-- The background daemon and its PID file (server/daemon.py). The operating system is a `World` that
-- answers each call from all calls that were made before; the PID file is part of the state.
pub mod Lifecycle
pub mod Stopping
pub mod Log
use coda_node.Prelude.{
  ℕ, zero, suc, String, ◌<>◌, Bool, true, false, not, ◌&&◌, Option, none, some, List, [], ◌∷◌,
  if◌then◌else◌, str_eq, ℤ, pos, negsuc, codes, parse_int, decimal, insert,
}
use coda_node.Exec.{
  Exn, other, Result, ok, err, Exec, pure, raise, lift, gets, modify, ◌>>=◌, ◌>>◌, catching,
}

pub data Call : Type 0 where
  -- `os.kill(pid, 0)`
  probe : ℤ → Call
  open_log : Call
  -- the command, and the environment
  popen : List String → List (String × String) → Call
  sigterm sigkill taskkill : ℤ → Call
  sleep_ms : ℕ → Call

-- How a signal ends: `refused` stands for PermissionError, ProcessLookupError and TimeoutExpired.
pub data Signalled : Type 0 where
  delivered refused : Signalled
  failed : Exn → Signalled

pub record World : Type 0 where
  pub is_windows : Bool
  pub environ : List (String × String)
  pub executable : String
  -- whether the PID file can be read
  pub readable : List Call → Bool
  pub alive : List Call → Bool
  pub open_log : List Call → Result (Unit {0})
  -- the PID of the new process
  pub popen : List Call → Result ℕ
  pub signal : List Call → Signalled
  -- how many looks at the process fit into the time-out
  pub looks : List Call → ℕ
  pub log_exists : List Call → Bool

-- The text of the PID file, if it exists, and the calls made so far, newest first.
pub record Host : Type 0 where
  pub pid_file : Option String
  pub calls : List Call

abbrev pub M : Type 0 → Type 0
M A = Exec Host A

unfoldable pub perform : {A : Type 0} → Call → (List Call → Result A) → M A
perform c answer s = let calls = c ∷ s.calls in (answer calls, record s { calls = calls })

abbrev pub int_of : Bool → String → Option ℤ
int_of readable text = if readable then parse_int (codes text) else none

abbrev pub pid_in : Bool → Option String → Option ℤ
pid_in readable none = none
pid_in readable (some text) = int_of readable text

-- DaemonStatus: the dictionary of `daemon_status`, without the two fixed paths.
pub record DaemonStatus : Type 0 where
  pub running : Bool
  pub pid : Option ℤ
  pub log_exists : Bool

-- `str(pid)`
abbrev pub show : Option ℤ → String
show none = "None"
show (some (pos n)) = decimal n
show (some (negsuc n)) = "-" <> decimal (suc n)

module _ (w : World) where
  -- read_daemon_pid
  unfoldable pub read_daemon_pid : M (Option ℤ)
  read_daemon_pid = gets (λ s. pid_in (w.readable s.calls) s.pid_file)

  -- _process_exists
  unfoldable pub process_exists : ℤ → M Bool
  process_exists pid = perform (probe pid) (λ cs. ok (w.alive cs))

  abbrev pub running_as : Option ℤ → M Bool
  running_as none = pure false
  running_as (some pid) = process_exists pid

  -- is_daemon_running
  unfoldable pub is_daemon_running : M Bool
  is_daemon_running = do pid ← read_daemon_pid; running_as pid

  -- daemon_status
  unfoldable pub daemon_status : M DaemonStatus
  daemon_status = do
    pid ← read_daemon_pid
    running ← running_as pid
    log ← gets (λ s. w.log_exists s.calls)
    pure (record { running = running; pid = if running then pid else none; log_exists = log })

  abbrev with_token : String → List (String × String) → List (String × String)
  with_token token env = if str_eq token "" then env else insert "CODA_NODE_TOKEN" token env

  abbrev pub environment : String → ℕ → String → List (String × String)
  environment host port token =
      with_token token (insert "CODA_PORT" (decimal port) (insert "CODA_HOST" host w.environ))

  abbrev pub command : String → ℕ → List String
  command host port =
      w.executable
      ∷ "-m"
      ∷ "uvicorn"
      ∷ "coda_node.server.app:app"
      ∷ "--host"
      ∷ host
      ∷ "--port"
      ∷ decimal port
      ∷ "--log-level"
      ∷ "warning"
      ∷ []

  -- start_daemon; no token counts as an empty one.
  unfoldable pub start_daemon : String → ℕ → String → M ℕ
  start_daemon host port token = do
    running ← is_daemon_running
    if running
        then (do
          pid ← read_daemon_pid
          raise (other ("Daemon already running (PID " <> (show pid <> ")"))))
        else (do
          modify (λ s. record s { pid_file = none })
          perform open_log w.open_log
          pid ← perform (popen (command host port) (environment host port token)) w.popen
          modify (λ s. record s { pid_file = some (decimal pid <> "\n") })
          pure pid)

  abbrev pub unlink : M (Unit {0})
  unlink = modify (λ s. record s { pid_file = none })

  -- An exception of the `try` block that its `except` clause takes is `none`.
  abbrev pub heard : Signalled → M Bool
  heard delivered = pure true
  heard refused = pure false
  heard (failed e) = raise e

  unfoldable pub signal : Call → M Bool
  signal call = do r ← perform call (λ cs. ok (w.signal cs)); heard r

  -- The `while` loop with its `else`, where `n` more looks fit into the time-out: whether the kill, if
  -- one was needed, went through.
  unfoldable pub await_exit : ℤ → ℕ → M Bool
  await_exit pid zero = do
    sent ← signal (sigkill pid)
    if sent then (do perform (sleep_ms 500) (λ cs. ok tt); pure true) else pure false
  await_exit pid (suc n) =
      let rest = await_exit pid n in
      do
        alive ← process_exists pid
        if alive then perform (sleep_ms 100) (λ cs. ok tt) >> rest else pure true

  -- The `try` block up to the unlinking.
  abbrev pub terminate : ℤ → M Bool
  terminate pid = if w.is_windows then signal (taskkill pid) else do
    sent ← signal (sigterm pid)
    looks ← gets (λ s. w.looks s.calls)
    if sent then await_exit pid looks else pure false

  abbrev pub stop_pid : ℤ → M Bool
  stop_pid pid = do
    alive ← process_exists pid
    if alive then (do stopped ← terminate pid; unlink; pure stopped) else (do unlink; pure false)

  abbrev pub stop_read : Option ℤ → M Bool
  stop_read none = pure false
  stop_read (some pid) = stop_pid pid

  -- stop_daemon
  unfoldable pub stop_daemon : M Bool
  stop_daemon = do pid ← read_daemon_pid; stop_read pid
