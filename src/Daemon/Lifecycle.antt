-- ===== src/Daemon/Lifecycle.antt =====
-- What starting the daemon leaves behind (`start_daemon` of server/daemon.py).
use coda_node.Prelude.{
  ℕ, suc, ◌≡◌, refl, sym, ap, subst, ◌⊎◌, inl, inr, String, ◌<>◌, Bool, false, Option, none, some,
  List, [], ◌∷◌, ℤ, decimal,
}
use coda_node.Exec.{Result, ok, err, ◌>>=◌}
use coda_node.Exec.Keeps.{Keeps, keeps_rules}
use coda_node.Exec.Leads.{
  After, Leads, Leads-pure, Leads-if, Leads-raise, Leads-modify, Leads-Keeps, Leads-bind,
  Leads-adapt, Leads-fact,
}
use coda_node.Daemon.{
  Call, probe, popen, open_log, World, Host, perform, pid_in, read_daemon_pid, process_exists,
  running_as, is_daemon_running, start_daemon,
}

-- How many processes were started.
abbrev pub starts : List Call → ℕ
starts [] = 0
starts (popen cmd env ∷ cs) = suc (starts cs)
starts (_ ∷ cs) = starts cs

module _ (w : World) (s : Host) where
  -- No daemon runs: the file holds no PID that can be read, or one of no process.
  abbrev pub NoDaemon : Type 0
  NoDaemon =
      (pid_in (w.readable s.calls) s.pid_file ≡ none)
      ⊎ ((pid : ℤ) × (pid_in (w.readable s.calls) s.pid_file ≡ some pid)
          × (w.alive (probe pid ∷ s.calls) ≡ false))

  -- The file and the number of starts, as they were.
  abbrev pub Was : Option String → ℕ → Host → Type 0
  Was o n t = (t.pid_file ≡ o) × (starts t.calls ≡ n)

  -- With a new process, which `Popen` has given its PID, and the PID in the file.
  abbrev pub Started : ℕ → Host → Type 0
  Started pid t =
      NoDaemon
      × (w.popen t.calls ≡ ok pid)
      × (t.pid_file ≡ some (decimal pid <> "\n"))
      × (starts t.calls ≡ suc (starts s.calls))

  -- By an exception: nothing was started, and the file is as it was; or no daemon ran, the file is
  -- gone, and a process was started at most.
  abbrev pub NotStarted : Host → Type 0
  NotStarted t =
      Was s.pid_file (starts s.calls) t
      ⊎ (NoDaemon
          × (t.pid_file ≡ none)
          × ((starts t.calls ≡ starts s.calls) ⊎ (starts t.calls ≡ suc (starts s.calls))))

  abbrev Same : Host → Type 0
  Same t = t ≡ s

  abbrev Idle : Host → Type 0
  Idle = Was s.pid_file (starts s.calls)

  abbrev Found : Bool → Host → Type 0
  Found running t = (running ≡ false → NoDaemon) × Idle t

  looks : Leads Same Found NotStarted (is_daemon_running w)
  unfolding is_daemon_running read_daemon_pid process_exists perform ◌>>=◌
  looks = record {
    at = λ t e.
        subst (λ t. After Found NotStarted (is_daemon_running w t)) (sym e)
          (go (pid_in (w.readable s.calls) s.pid_file) refl);
  }
    where
      go :
          (p : Option ℤ)
          → pid_in (w.readable s.calls) s.pid_file ≡ p
          → After Found NotStarted (running_as w p s)
      go none e = ((λ _. inl e), (refl, refl))
      go (some pid) e = ((λ h. inr (pid, e, h)), (refl, refl))

  read-Idle : Keeps Idle (read_daemon_pid w)
  unfolding read_daemon_pid
  read-Idle = search keeps_rules

  -- From here on the file is gone.
  abbrev Cleared : Host → Type 0
  Cleared = Was none (starts s.calls)

  open_log-Cleared : Keeps Cleared (perform open_log w.open_log)
  unfolding perform
  open_log-Cleared = record { at = λ t h. h }

  abbrev Opened : ℕ → Host → Type 0
  Opened pid t = (w.popen t.calls ≡ ok pid) × Was none (suc (starts s.calls)) t

  popen-Leads :
      NoDaemon
      → (cmd : List String) (env : List (String × String))
      → Leads Cleared Opened NotStarted (perform (popen cmd env) w.popen)
  unfolding perform
  popen-Leads free cmd env = record { at = λ t h. go t h (w.popen (popen cmd env ∷ t.calls)) refl }
    where
      go :
          (t : Host)
          → Cleared t
          → (r : Result ℕ) → w.popen (popen cmd env ∷ t.calls) ≡ r
          → After Opened NotStarted (r, record t { calls = popen cmd env ∷ t.calls })
      go t h (ok pid) e = (e, (h.0, ap suc h.1))
      go t h (err x) e = inr (free, h.0, inr (ap suc h.1))

  start_daemon-Leads :
      (host : String) (port : ℕ) (token : String)
      → Leads Same Started NotStarted (start_daemon w host port token)
  unfolding start_daemon
  start_daemon-Leads host port token = Leads-bind _ _ looks λ running. Leads-fact _ λ free.
      Leads-if running _ _
        (λ e.
          Leads-bind {Q = λ _. Idle} _ _
            (Leads-adapt _ (λ t h. h) (λ t h. inl h) (Leads-Keeps _ read-Idle))
            λ pid. Leads-raise _ (λ t h. inl h))
        (λ e. Leads-bind _ _ (Leads-modify {Q = λ _. Cleared} _ (λ t h. (refl, h.1))) λ _.
          Leads-bind _ _
            (Leads-adapt _ (λ t h. h) (λ t h. inr (free e, h.0, inl h.1))
              (Leads-Keeps _ open_log-Cleared))
            λ _. Leads-bind _ _ (popen-Leads (free e) _ _) λ pid.
              Leads-bind _ _
                (Leads-modify {Q = λ _. Started pid} _ (λ t h. (free e, h.0, refl, h.1.1)))
                λ _. Leads-pure _ (λ t h. h))

-- A start that returns a PID found no running daemon and has started one process; `Popen` has given
-- this PID, which stands on a line of its own in the PID file. A start that raises either has not
-- called `Popen` and leaves the PID file as it was, or it found no running daemon, has removed the
-- file, and has called `Popen` once at most.
pub start_daemon_ends :
    (w : World) (host : String) (port : ℕ) (token : String) (s : Host)
    → After (Started w s) (NotStarted w s) (start_daemon w host port token s)
start_daemon_ends w host port token s = (start_daemon-Leads w s host port token).at s refl
