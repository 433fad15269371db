-- ===== src/Consumer/Outcome.antt =====
-- What one job does, call by call, in the cases where its course is fixed.
use coda_node.Prelude.{
  ℕ, zero, suc, ◌≡◌, refl, ap, ◌∙◌, ◌≢◌, ◌⊎◌, inl, inr, String, Bool, true, false, str_eq, eq_iff,
  if◌then◌else◌, Option, none, some, List, [], ◌∷◌, arith, ℤ,
}
use coda_node.Exec.{Result, ok, ◌>>=◌, catching}
use coda_node.Exec.Runs.{>>=-ok, catching-ok, finally-ok, lift-ok, gets-ok, modify-ok}
use coda_node.Ir.{NativeGateIr}
use coda_node.Consumer.World.{
  ExecutionResult, Raw, str, Call, run, wait, finish, send, xack, hset, hget, get, World, Config,
  Consumer, perform,
}
use coda_node.Consumer.Redis.{
  stream, group, status_key, cancel_key, now, safe_hset, safe_xack, unless_connected,
  get_job_status, has_cancel_signal, is_finished,
}
use coda_node.Consumer.Job.{
  parse_job, poll, run_job_with_cancellation, deliver, attempt, release, mark_executing, execute,
  acknowledge, process_job, skip_cancelled, start,
}

-- A state with a longer record of calls.
abbrev pub with_calls : Consumer → List Call → Consumer
with_calls s cs = record s { calls = cs }

pub perform_runs :
    {A : Type 0} (c : Call) (answer : List Call → Result A) {r : Result A} (s : Consumer)
    → answer (c ∷ s.calls) ≡ r
    → perform c answer s ≡ (r, with_calls s (c ∷ s.calls))
unfolding perform
perform_runs c answer s h = rw h

module _ (w : World) where
  get_job_status_runs :
      (job_id : String) {status : String} (s : Consumer)
      → let cs = hget (status_key job_id) "state" ∷ s.calls in
        w.hget cs ≡ ok (some (str status))
        → get_job_status w job_id s ≡ (ok (some status), with_calls s cs)
  unfolding get_job_status perform ◌>>=◌
  get_job_status_runs job_id s h = rw h

  get_job_status_unset :
      (job_id : String) (s : Consumer)
      → let cs = hget (status_key job_id) "state" ∷ s.calls in
        w.hget cs ≡ ok none → get_job_status w job_id s ≡ (ok none, with_calls s cs)
  unfolding get_job_status perform ◌>>=◌
  get_job_status_unset job_id s h = rw h

  now_runs : (s : Consumer) → now w s ≡ (ok (w.now s.calls), s)
  unfolding now ◌>>=◌
  now_runs s = refl

  no_cancel_signal :
      (job_id : String) (s : Consumer)
      → let cs = get (cancel_key job_id) ∷ s.calls in
        w.get cs ≡ ok none → has_cancel_signal w job_id s ≡ (ok false, with_calls s cs)
  unfolding has_cancel_signal perform ◌>>=◌
  no_cancel_signal job_id s h = rw h

  safe_hset_runs :
      (key : String) (m : List (String × String)) (s : Consumer)
      → let cs = hset key m ∷ s.calls in
        w.hset cs ≡ ok tt → safe_hset w key m s ≡ (ok true, with_calls s cs)
  unfolding safe_hset perform catching ◌>>=◌
  safe_hset_runs key m s h = rw h

  safe_xack_runs :
      (c : Config) (id : String) (s : Consumer)
      → let cs = xack (stream c) (group c) id ∷ s.calls in
        w.xack cs ≡ ok tt → safe_xack w c id s ≡ (ok true, with_calls s cs)
  unfolding safe_xack perform catching ◌>>=◌
  safe_xack_runs c id s h = rw h

  safe_xack_state :
      (c : Config) (id : String) (s : Consumer)
      → (safe_xack w c id s).1 ≡ with_calls s (xack (stream c) (group c) id ∷ s.calls)
  unfolding safe_xack perform catching unless_connected ◌>>=◌
  safe_xack_state c id s = ground arith

  acknowledge_state :
      (c : Config) (id job_id url : String) (s : Consumer)
      → (acknowledge w c id job_id url s).1 ≡ with_calls s (xack (stream c) (group c) id ∷ s.calls)
  unfolding ◌>>=◌
  acknowledge_state c id job_id url s = ground (arith, safe_xack_state c id s)

module _ (w : World) (c : Config) (message_id job_id url : String)
    (fields : List (String × String)) where
  abbrev pub status_read : List Call → List Call
  status_read cs = hget (status_key job_id) "state" ∷ cs

  -- A job whose status in Redis is "completed" or "cancelled" is not run again: the status is read,
  -- the message is acknowledged, and nothing else is called or changed. This holds for whatever the
  -- acknowledgement comes to.
  pub process_job_finished :
      (status : String) (s : Consumer)
      → (status ≡ "completed") ⊎ (status ≡ "cancelled")
      → w.hget (status_read s.calls) ≡ ok (some (str status))
      → (process_job w c message_id job_id url fields s).1
        ≡ with_calls s (xack (stream c) (group c) message_id ∷ status_read s.calls)
  unfolding process_job
  process_job_finished status s f h =
      ap (λ r. r.1) (>>=-ok _ _ (get_job_status_runs w job_id s h))
      ∙ rw (finished status f) (acknowledge_state w c message_id job_id url _)
    where
      finished :
          (status : String)
          → (status ≡ "completed") ⊎ (status ≡ "cancelled")
          → is_finished (some status) ≡ true
      finished status (inl e) = ap (λ t. is_finished (some t)) e
      finished status (inr e) = ap (λ t. is_finished (some t)) e

-- No status is recorded, or one that is neither "completed" nor "cancelled".
abbrev pub Unfinished : Result (Option Raw) → Type 0
Unfinished r =
    (r ≡ ok none)
    ⊎ ((status : String) × (r ≡ ok (some (str status)))
        × (status ≢ "completed")
        × (status ≢ "cancelled"))

unequal : (a b : String) → a ≢ b → str_eq a b ≡ false
unequal a b h = go (str_eq a b) refl
  where
    go : (x : Bool) → str_eq a b ≡ x → x ≡ false
    go true e = absurd (h ((eq_iff a b).0 e))
    go false e = refl

-- A world in which no request fails and no job is cancelled or finished beforehand.
pub record IsSmooth (w : World) : Type 0 where
  pub unfinished : (cs : List Call) → Unfinished (w.hget cs)
  pub no_cancel : (cs : List Call) → w.get cs ≡ ok none
  pub hset_ok : (cs : List Call) → w.hset cs ≡ ok tt
  pub xack_ok : (cs : List Call) → w.xack cs ≡ ok tt
  pub send_ok : (cs : List Call) → w.send cs ≡ ok tt

module _ (w : World) (smooth : IsSmooth w) (c : Config) (message_id job_id url : String) where
  -- The calls of the polling loop, where the task ends after `n` time-outs.
  abbrev pub polled : ℕ → List Call → List Call
  polled zero cs = get (cancel_key job_id) ∷ finish ∷ cs
  polled (suc n) cs = polled n (get (cancel_key job_id) ∷ wait ∷ cs)

  poll_runs :
      (n : ℕ) (s : Consumer) (r : ExecutionResult)
      → ((cs : List Call) → w.finish cs ≡ ok r)
      → poll w job_id n s ≡ (ok r, with_calls s (polled n s.calls))
  unfolding poll
  poll_runs zero s r h =
      >>=-ok _ _ (perform_runs finish w.finish s (h _))
      ∙ >>=-ok _ _ (no_cancel_signal w job_id _ (smooth.no_cancel _))
      ∙ unfold ◌>>=◌ in refl
  poll_runs (suc n) s r h =
      >>=-ok _ _ (perform_runs wait _ s refl)
      ∙ >>=-ok _ _ (catching-ok _ _ (no_cancel_signal w job_id _ (smooth.no_cancel _)))
      ∙ poll_runs n _ r h

  -- The calls of a job that completes, newest last: each is the list of calls up to some point.
  abbrev pub executing_fields : List Call → List (String × String)
  executing_fields cs =
      ("state", "executing")
      ∷ ("started_at", w.now cs)
      ∷ ("message_id", message_id)
      ∷ ("qpu_id", c.qpu_id)
      ∷ []

  abbrev pub look : List Call → List Call
  look cs = get (cancel_key job_id) ∷ cs

  abbrev pub accepted : List Call → List Call
  accepted cs = look (hget (status_key job_id) "state" ∷ cs)

  abbrev pub started : List Call → List Call
  started cs = hset (status_key job_id) (executing_fields cs) ∷ cs

  abbrev pub ran : NativeGateIr → ℤ → List Call → List Call
  ran ir shots cs = let after = run ir shots ∷ cs in polled (w.timeouts after) after

  abbrev pub completed : List Call → List Call
  completed cs =
      hset (status_key job_id) (("state", "completed") ∷ ("completed_at", w.now cs) ∷ []) ∷ cs

  abbrev pub reported : ExecutionResult → List Call → List Call
  reported r cs =
      send url (record {
        job_id = job_id;
        status = "completed";
        counts = some r.counts;
        execution_time_ms = some r.execution_time_ms;
        shots_completed = some r.shots_completed;
        error = none;
      })
      ∷ cs

  release_runs :
      (s : Consumer)
      → release w c message_id job_id url s ≡ (
        ok tt,
        record s {
          idle = true;
          current_job_id = none;
          calls = xack (stream c) (group c) message_id ∷ s.calls;
        },
      )
  unfolding release
  release_runs s =
      >>=-ok _ _ (safe_xack_runs w c message_id s (smooth.xack_ok _)) ∙ unfold ◌>>=◌ in refl

  mark_executing_runs :
      (s : Consumer)
      → mark_executing w c message_id job_id url s
        ≡ (ok tt, record s { idle = false; current_job_id = some job_id; calls = started s.calls })
  unfolding mark_executing
  mark_executing_runs s =
      >>=-ok _ _ (modify-ok _ s)
      ∙ >>=-ok _ _ (now_runs w _)
      ∙ >>=-ok _ _ (safe_hset_runs w _ _ _ (smooth.hset_ok _))
      ∙ unfold ◌>>=◌ in refl

  module _ (fields : List (String × String)) (ir : NativeGateIr) (shots : ℤ) (r : ExecutionResult)
      (parsed : parse_job w fields ≡ ok (ir, shots))
      (ran_ok : (cs : List Call) → w.finish cs ≡ ok r) where
    run_job_runs :
        (s : Consumer)
        → run_job_with_cancellation w job_id ir shots s
          ≡ (ok r, with_calls s (ran ir shots s.calls))
    unfolding run_job_with_cancellation
    run_job_runs s =
        >>=-ok _ _ (perform_runs (run ir shots) _ s refl)
        ∙ >>=-ok _ _ (gets-ok _ _)
        ∙ poll_runs _ _ r ran_ok

    deliver_runs :
        (s : Consumer)
        → let cs = reported r (look s.calls) in
          deliver w c message_id job_id url r s
          ≡ (ok tt, record s { last_job_at = some (w.now cs); calls = cs })
    unfolding deliver
    deliver_runs s =
        >>=-ok _ _ (no_cancel_signal w job_id _ (smooth.no_cancel _))
        ∙ >>=-ok _ _ (perform_runs (send url _) _ _ (smooth.send_ok _))
        ∙ unfold now ◌>>=◌ in refl

    attempt_runs :
        (s : Consumer)
        → let cs = reported r (look (completed (look (ran ir shots s.calls)))) in
          attempt w c message_id job_id url fields s
          ≡ (ok tt, record s { last_job_at = some (w.now cs); calls = cs })
    unfolding attempt
    attempt_runs s =
        >>=-ok _ _ (lift-ok _ s parsed)
        ∙ >>=-ok _ _ (run_job_runs s)
        ∙ >>=-ok _ _ (no_cancel_signal w job_id _ (smooth.no_cancel _))
        ∙ >>=-ok _ _ (now_runs w _)
        ∙ >>=-ok _ _ (safe_hset_runs w _ _ _ (smooth.hset_ok _))
        ∙ deliver_runs _

    execute_runs :
        (s : Consumer)
        → let cs = reported r (look (completed (look (ran ir shots s.calls)))) in
          execute w c message_id job_id url fields s ≡ (
            ok tt,
            record s {
              idle = true;
              current_job_id = none;
              last_job_at = some (w.now cs);
              calls = xack (stream c) (group c) message_id ∷ cs;
            },
          )
    unfolding execute
    execute_runs s = finally-ok _ _ (catching-ok _ _ (attempt_runs s)) (release_runs _)

    -- The job goes on behind the look at its status.
    Unfinished-runs :
        (s : Consumer)
        → Unfinished (w.hget (hget (status_key job_id) "state" ∷ s.calls))
        → process_job w c message_id job_id url fields s
          ≡ (has_cancel_signal w job_id >>= λ cancelled.
                if cancelled
                then skip_cancelled w c message_id job_id url
                else start w c message_id job_id url fields)
              (with_calls s (hget (status_key job_id) "state" ∷ s.calls))
    unfolding process_job
    Unfinished-runs s (inl h) = >>=-ok _ _ (get_job_status_unset w job_id s h)
    Unfinished-runs s (inr h) =
        >>=-ok _ _ (get_job_status_runs w job_id s h.1)
        ∙ rw (unequal h.0 "completed" h.2, unequal h.0 "cancelled" h.3) refl

    -- If no request fails, the job has no status that says completed or cancelled and no cancel
    -- flag, and the executor returns a
    -- result, then the job is marked as executing, run with its parsed circuit and shots, marked as
    -- completed, reported once by webhook with its counts, its time and its shots, and acknowledged, in this order, with a
    -- look at the cancel flag before the first step, during and behind the run, and before the
    -- report. Nothing else is called, and the consumer is idle with the time of the report noted.
    pub process_job_completes :
        (s : Consumer)
        → let begun = started (accepted s.calls) in
          let cs = reported r (look (completed (look (ran ir shots begun)))) in
          process_job w c message_id job_id url fields s ≡ (
            ok tt,
            record s {
              idle = true;
              current_job_id = none;
              last_job_at = some (w.now cs);
              calls = xack (stream c) (group c) message_id ∷ cs;
            },
          )
    unfolding process_job
    process_job_completes s =
        Unfinished-runs s (smooth.unfinished _)
        ∙ >>=-ok _ _ (no_cancel_signal w job_id _ (smooth.no_cancel _))
        ∙ >>=-ok _ _ (mark_executing_runs _)
        ∙ execute_runs _
