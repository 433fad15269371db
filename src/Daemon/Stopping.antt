-- ===== src/Daemon/Stopping.antt =====
-- What stopping the daemon comes to (`stop_daemon` of server/daemon.py).
use coda_node.Prelude.{
  ℕ, zero, suc, ◌≡◌, refl, sym, ap, ◌∙◌, subst, ◌⊎◌, inl, inr, String, Bool, true, false, Option,
  none, some, List, [], ◌∷◌, ℤ,
}
use coda_node.Exec.{Result, ok, err, ◌>>=◌}
use coda_node.Exec.Leads.{
  After, Leads, Leads-pure, Leads-if, Leads-modify, Leads-gets, Leads-bind, Leads-adapt, Leads-into,
  Leads-fact,
}
use coda_node.Daemon.{
  Call, probe, sigterm, sigkill, taskkill, sleep_ms, Signalled, delivered, refused, failed, heard,
  World, Host, perform, pid_in, read_daemon_pid, process_exists, signal, await_exit, terminate,
  stop_pid, stop_read, stop_daemon,
}

-- The calls are these, and later ones.
abbrev pub Extends : List Call → List Call → Type 0
Extends base [] = [] ≡ base
Extends base (c ∷ cs) = (c ∷ cs ≡ base) ⊎ Extends base cs

Extends-same : (base cs : List Call) → cs ≡ base → Extends base cs
Extends-same base [] e = e
Extends-same base (c ∷ cs) e = inl e

module _ (w : World) (pid : ℤ) where
  -- The last look found no such process; or SIGKILL was sent and delivered, and half a second passed.
  abbrev pub Gone : List Call → Type 0
  Gone cs =
      ((before : List Call) × (cs ≡ probe pid ∷ before) × (w.alive cs ≡ false))
      ⊎ ((before : List Call) × (cs ≡ sleep_ms 500 ∷ sigkill pid ∷ before)
          × (w.signal (sigkill pid ∷ before) ≡ delivered))

  -- How a process that was found alive was ended, where `base` are the calls up to the look that
  -- found it: by SIGTERM, and then it was seen to be gone or killed; on Windows by taskkill.
  abbrev pub Killed : List Call → List Call → Type 0
  Killed base cs =
      ((w.is_windows ≡ true)
        × (cs ≡ taskkill pid ∷ base)
        × (w.signal (taskkill pid ∷ base) ≡ delivered))
      ⊎ ((w.is_windows ≡ false)
          × (w.signal (sigterm pid ∷ base) ≡ delivered)
          × Extends (sigterm pid ∷ base) cs
          × Gone cs)

  abbrev File : Option String → Host → Type 0
  File o s = s.pid_file ≡ o

  abbrev At : Option String → List Call → Host → Type 0
  At o cs s = (s.pid_file ≡ o) × (s.calls ≡ cs)

  abbrev Past : Option String → List Call → Host → Type 0
  Past o base s = (s.pid_file ≡ o) × Extends base s.calls

  -- A signal that is heard was delivered.
  signal-Leads :
      {P : Host → Type 0} {o : Option String} (c : Call)
      → ((s : Host) → P s → s.pid_file ≡ o)
      → Leads P
          (λ b t.
            (s : Host) × P s
            × (t ≡ record s { calls = c ∷ s.calls })
            × (b ≡ true → w.signal (c ∷ s.calls) ≡ delivered))
          (File o)
          (signal w c)
  unfolding signal perform ◌>>=◌
  signal-Leads {P} {o} c file = record { at = λ s h. go s h (w.signal (c ∷ s.calls)) refl }
    where
      go :
          (s : Host)
          → P s
          → (r : Signalled) → w.signal (c ∷ s.calls) ≡ r
          → After
              (λ b t.
                (s : Host) × P s
                × (t ≡ record s { calls = c ∷ s.calls })
                × (b ≡ true → w.signal (c ∷ s.calls) ≡ delivered))
              (File o)
              (heard w r (record s { calls = c ∷ s.calls }))
      go s h delivered e = (s, h, refl, λ _. e)
      go s h refused e = (s, h, refl, λ p. absurd (clash p))
        where
          clash : false ≡ true → ⊥
          clash p = cc
      go s h (failed x) e = file s h

  abbrev Awaited : Option String → List Call → Bool → Host → Type 0
  Awaited o base b s = Past o base s × (b ≡ true → Gone s.calls)

  untrue : {X : Type 0} → false ≡ true → X
  untrue p = absurd (clash p)
    where
      clash : false ≡ true → ⊥
      clash p = cc

  slept :
      {o : Option String} {P : Host → Type 0} (n : ℕ) (Q : Host → Type 0)
      → ((s : Host) → P s → Q (record s { calls = sleep_ms n ∷ s.calls }))
      → Leads P (λ _. Q) (File o) (perform (sleep_ms n) (λ cs. ok tt))
  unfolding perform
  slept n Q h = record { at = λ s p. h s p }

  looked :
      {o : Option String} (base : List Call)
      → Leads
          (Past o base)
          (λ alive s.
            Past o base s
            × (before : List Call) × (s.calls ≡ probe pid ∷ before)
            × (alive ≡ w.alive s.calls))
          (File o)
          (process_exists w pid)
  unfolding process_exists perform
  looked base = record { at = λ s h. ((h.0, inr h.1), s.calls, refl, refl) }

  signal-At :
      {o : Option String} (base : List Call) (c : Call)
      → Leads
          (At o base)
          (λ b s. (b ≡ true → w.signal (c ∷ base) ≡ delivered) × At o (c ∷ base) s)
          (File o)
          (signal w c)
  signal-At {o} base c =
      Leads-into _
        (λ b t (s, h, e, d). (
          (λ p. subst (λ cs. w.signal (c ∷ cs) ≡ delivered) h.1 (d p)),
          subst (At o (c ∷ base)) (sym e) (h.0, ap (λ cs. c ∷ cs) h.1),
        ))
        (signal-Leads {P = At o base} c (λ s h. h.0))

  await_exit-Leads :
      {o : Option String} (base : List Call) (n : ℕ)
      → Leads (Past o base) (Awaited o base) (File o) (await_exit w pid n)
  unfolding await_exit
  await_exit-Leads {o} base zero =
      Leads-bind _ _ (signal-Leads {P = Past o base} (sigkill pid) (λ s h. h.0)) λ sent.
        Leads-if sent _ _
          (λ e.
            Leads-bind _ _
              (slept 500 (Awaited o base true) (λ t (s, h, q, d).
                subst (λ t. Awaited o base true (record t { calls = sleep_ms 500 ∷ t.calls }))
                  (sym q) ((h.0, inr (inr h.1)), (λ _. inr (s.calls, refl, d e)))))
              (λ _. Leads-pure true (λ s h. h)))
          (λ e.
            Leads-pure false
              (λ t (s, h, q, d). (subst (Past o base) (sym q) (h.0, inr h.1), (λ p. untrue p))))
  await_exit-Leads {o} base (suc n) = Leads-bind _ _ (looked base) λ alive.
      Leads-if alive _ _
        (λ e.
          Leads-bind _ _ (slept 100 (Past o base) (λ s h. (h.0.0, inr h.0.1)))
            (λ _. await_exit-Leads base n))
        (λ e. Leads-pure true (λ s h. (h.0, (λ _. inl (h.1, h.2, sym h.3 ∙ e)))))

  abbrev Ended : Option String → List Call → Bool → Host → Type 0
  Ended o base b t = (t.pid_file ≡ o) × (b ≡ true → Killed base t.calls)

  terminate-Leads :
      {o : Option String} (base : List Call)
      → Leads (At o base) (Ended o base) (File o) (terminate w pid)
  terminate-Leads {o} base =
      Leads-if w.is_windows _ _
        (λ e.
          Leads-into _ (λ b s h. (h.1.0, (λ p. inl (e, h.1.1, h.0 p))))
            (signal-At base (taskkill pid)))
        λ e. Leads-bind _ _ (signal-At base (sigterm pid)) λ sent. Leads-fact _ λ d.
          Leads-bind _ _ (Leads-gets {Q = λ _. At o (sigterm pid ∷ base)} _ (λ s h. h)) λ looks.
            Leads-if sent _ _
              (λ p.
                Leads-into _ (λ b s h. (h.0.0, (λ q. inr (e, d p, h.0.1, h.1 q))))
                  (Leads-adapt _ (λ s h. (h.0, Extends-same (sigterm pid ∷ base) s.calls h.1))
                    (λ s h. h) (await_exit-Leads (sigterm pid ∷ base) looks)))
              (λ p. Leads-pure false (λ s h. (h.0, (λ q. untrue q))))

  looked-At :
      {o : Option String} (cs : List Call)
      → Leads
          (At o cs)
          (λ alive s. (alive ≡ w.alive (probe pid ∷ cs)) × At o (probe pid ∷ cs) s)
          (File o)
          (process_exists w pid)
  unfolding process_exists perform
  looked-At cs = record {
    at = λ s h. (ap (λ cs. w.alive (probe pid ∷ cs)) h.1, (h.0, ap (λ cs. probe pid ∷ cs) h.1));
  }

  -- How a stop ends that found this PID in the file, behind the calls `cs`.
  abbrev pub StoppedPid : List Call → Bool → Host → Type 0
  StoppedPid cs b t =
      ((w.alive (probe pid ∷ cs) ≡ false)
        × (b ≡ false)
        × (t.pid_file ≡ none)
        × (t.calls ≡ probe pid ∷ cs))
      ⊎ ((w.alive (probe pid ∷ cs) ≡ true)
          × (t.pid_file ≡ none)
          × (b ≡ true → Killed (probe pid ∷ cs) t.calls))

  stop_pid-Leads :
      (o : Option String) (cs : List Call)
      → Leads (At o cs) (StoppedPid cs) (File o) (stop_pid w pid)
  stop_pid-Leads o cs = Leads-bind _ _ (looked-At cs) λ alive. Leads-fact _ λ q.
      Leads-if alive _ _
        (λ e. Leads-bind _ _ (terminate-Leads (probe pid ∷ cs)) λ stopped.
          Leads-bind _ _
            (Leads-modify {Q = λ _. StoppedPid cs stopped} _ (λ s h. inr (sym q ∙ e, refl, h.1)))
            (λ _. Leads-pure stopped (λ s h. h)))
        (λ e.
          Leads-bind _ _
            (Leads-modify {Q = λ _. StoppedPid cs false} _
              (λ s h. inl (sym q ∙ e, refl, refl, h.1)))
            (λ _. Leads-pure false (λ s h. h)))

module _ (w : World) where
  -- How a stop returns.
  abbrev pub Stopped : Host → Bool → Host → Type 0
  Stopped s b t =
      ((pid_in (w.readable s.calls) s.pid_file ≡ none) × (b ≡ false) × (t ≡ s))
      ⊎ ((pid : ℤ) × (pid_in (w.readable s.calls) s.pid_file ≡ some pid)
          × StoppedPid w pid s.calls b t)

  -- Where the file held no PID that could be read, a stop returns false and changes nothing. Where it
  -- held a PID and a look found no such process, it removes the file, returns false and has sent no
  -- signal. Where the look found the process, a stop that returns has removed the file, and returns
  -- true only if SIGTERM, or taskkill on Windows, was delivered to this PID and, but on Windows, the
  -- process was then seen to be gone or SIGKILL was delivered to it. A stop that raises leaves the
  -- file as it was.
  pub stop_daemon_ends :
      (s : Host) → After (Stopped s) (λ t. t.pid_file ≡ s.pid_file) (stop_daemon w s)
  unfolding stop_daemon read_daemon_pid ◌>>=◌
  stop_daemon_ends s = go (pid_in (w.readable s.calls) s.pid_file) refl
    where
      stopped :
          (pid : ℤ) (r : Result Bool) (t : Host)
          → pid_in (w.readable s.calls) s.pid_file ≡ some pid
          → After (StoppedPid w pid s.calls) (λ t. t.pid_file ≡ s.pid_file) (r, t)
          → After (Stopped s) (λ t. t.pid_file ≡ s.pid_file) (r, t)
      stopped pid (ok b) t e h = inr (pid, e, h)
      stopped pid (err x) t e h = h

      go :
          (p : Option ℤ)
          → pid_in (w.readable s.calls) s.pid_file ≡ p
          → After (Stopped s) (λ t. t.pid_file ≡ s.pid_file) (stop_read w p s)
      go none e = inl (e, refl, refl)
      go (some pid) e =
          stopped pid (stop_pid w pid s).0 (stop_pid w pid s).1 e
            ((stop_pid-Leads w pid s.pid_file s.calls).at s (refl, refl))
