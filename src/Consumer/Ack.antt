-- ===== src/Consumer/Ack.antt =====
-- Messages are acknowledged: what the last call of `_process_message` is, and which job the
-- consumer says that it runs.
use coda_node.Prelude.{
  ◌≡◌, refl, String, Bool, true, false, none, List, [], ◌∷◌, arith, if◌then◌else◌,
}
use coda_node.Exec.{Exn, connection, Result, ok, err, conclude, pure, ◌>>=◌, catching, finally}
use coda_node.Exec.Keeps.{Keeps, keeps_rules}
use coda_node.Consumer.World.{Fields, Call, xack, World, Config, Consumer, M, perform}
use coda_node.Consumer.Redis.{
  stream, group, now, safe_hset, safe_xack, unless_connected, get_job_status, has_cancel_signal,
  mark_job_cancelled,
}
use coda_node.Consumer.Job.{release, execute, acknowledge, process_job, dispatch, process_message}

-- The newest call.
abbrev pub LastCall : Call → List Call → Type 0
LastCall c [] = ⊥
LastCall c (d ∷ cs) = c ≡ d

-- No job is in flight.
abbrev pub IsIdle : Consumer → Type 0
IsIdle s = (s.idle ≡ true) × (s.current_job_id ≡ none)

-- `m` goes from `P` to `Q` where it returns.
record Returns {A : Type 0} (P Q : Consumer → Type 0) (m : M A) : Type 0 where
  at : (s : Consumer) (a : A) → P s → (m s).0 ≡ ok a → Q (m s).1

module _ {A B : Type 0} {P Q R : Consumer → Type 0} where
  Returns-bind :
      (m : M A) (f : A → M B)
      → Returns P Q m
      → ((a : A) → Returns Q R (f a))
      → Returns P R (m >>= f)
  unfolding ◌>>=◌
  Returns-bind m f km kf = record {
    at = λ s b h e. go (m s).0 (m s).1 s b (λ a p. km.at s a h p) e;
  }
    where
      go :
          (r : Result A) (t s : Consumer) (b : B)
          → ((a : A) → r ≡ ok a → Q t)
          → (((λ _. (r, t)) >>= f) s).0 ≡ ok b
          → R (((λ _. (r, t)) >>= f) s).1
      go (ok a) t s b q e = (kf a).at t b (q a refl) e
      go (err x) t s b q e = cc

module _ {A : Type 0} {P Q : Consumer → Type 0} where
  Returns-if :
      (b : Bool) (m n : M A) → Returns P Q m → Returns P Q n → Returns P Q (if b then m else n)
  Returns-if true m n km kn = km
  Returns-if false m n km kn = kn

  Returns-pure : (a : A) → ((s : Consumer) → P s → Q s) → Returns P Q (pure a)
  unfolding ◌>>=◌
  Returns-pure a h = record { at = λ s b p e. h s p }

Returns-Keeps : {A : Type 0} {P : Consumer → Type 0} {m : M A} → Keeps P m → Returns P P m
Returns-Keeps k = record { at = λ s a h e. k.at s h }

perform-IsIdle :
    {A : Type 0} (c : Call) (answer : List Call → Result A) → Keeps IsIdle (perform c answer)
unfolding perform
perform-IsIdle c answer = record { at = λ s h. h }

-- Anything may hold before.
abbrev Any : Consumer → Type 0
Any s = Unit

module _ (w : World) (c : Config) (message_id : String) where
  abbrev pub ack : Call
  ack = xack (stream c) (group c) message_id

  safe_xack_calls : (s : Consumer) → (safe_xack w c message_id s).1.calls ≡ ack ∷ s.calls
  unfolding safe_xack perform ◌>>=◌ catching unless_connected
  safe_xack_calls s = ground arith

  abbrev pub Done : Consumer → Type 0
  Done s = LastCall ack s.calls × IsIdle s

  unless_connected-IsIdle : (e : Exn) → Keeps IsIdle (unless_connected w e)
  unfolding unless_connected
  unless_connected-IsIdle (connection e) = search keeps_rules
  unless_connected-IsIdle _ = search keeps_rules

  safe_xack-IsIdle : Keeps IsIdle (safe_xack w c message_id)
  unfolding safe_xack
  safe_xack-IsIdle = search (keeps_rules, perform-IsIdle, unless_connected-IsIdle)

  safe_hset-IsIdle : (key : String) (m : List (String × String)) → Keeps IsIdle (safe_hset w key m)
  unfolding safe_hset
  safe_hset-IsIdle key m = search (keeps_rules, perform-IsIdle, unless_connected-IsIdle)

  now-IsIdle : Keeps IsIdle (now w)
  unfolding now
  now-IsIdle = search keeps_rules

  get_job_status-IsIdle : (job_id : String) → Keeps IsIdle (get_job_status w job_id)
  unfolding get_job_status
  get_job_status-IsIdle job_id = search (keeps_rules, perform-IsIdle)

  has_cancel_signal-IsIdle : (job_id : String) → Keeps IsIdle (has_cancel_signal w job_id)
  unfolding has_cancel_signal
  has_cancel_signal-IsIdle job_id = search (keeps_rules, perform-IsIdle)

  mark_job_cancelled-IsIdle : (job_id id : String) → Keeps IsIdle (mark_job_cancelled w c job_id id)
  unfolding mark_job_cancelled
  mark_job_cancelled-IsIdle job_id id = search (keeps_rules, now-IsIdle, safe_hset-IsIdle)

  ruleset idle_rules = (
    keeps_rules, get_job_status-IsIdle, has_cancel_signal-IsIdle, mark_job_cancelled-IsIdle,
    safe_xack-IsIdle,
  )

  safe_xack-Returns : Returns IsIdle Done (safe_xack w c message_id)
  safe_xack-Returns = record { at = λ s a h e. (rw (safe_xack_calls s), safe_xack-IsIdle.at s h) }

  module _ (job_id url : String) where
    release_calls : (s : Consumer) → (release w c message_id job_id url s).1.calls ≡ ack ∷ s.calls
    unfolding release ◌>>=◌
    release_calls s = ground (arith, safe_xack_calls s)

    release-IsIdle :
        (s : Consumer) (u : Unit {0})
        → (release w c message_id job_id url s).0 ≡ ok u
        → IsIdle (release w c message_id job_id url s).1
    unfolding release ◌>>=◌
    release-IsIdle s u h = ground arith

    -- Once a job is marked as executing, the last call is the XACK of its message, whatever the
    -- decoder, the executor, Redis and the webhook do.
    pub execute_acks :
        (fields : List (String × String)) (s : Consumer)
        → LastCall ack (execute w c message_id job_id url fields s).1.calls
    unfolding execute finally
    execute_acks fields s = rw (release_calls _)

    conclude-ok :
        {A : Type 0} (r : Result A) (q : Result (Unit {0})) {a : A}
        → conclude r q ≡ ok a
        → q ≡ ok tt
    conclude-ok r (ok u) h = refl
    conclude-ok r (err e) h = cc

    execute-Returns :
        (fields : List (String × String))
        → Returns Any Done (execute w c message_id job_id url fields)
    unfolding execute finally
    execute-Returns fields = record {
      at = λ s a h e. (
        unfold execute finally in execute_acks fields s,
        release-IsIdle _ tt (conclude-ok _ _ e),
      );
    }

    acknowledge-Returns : Returns IsIdle Done (acknowledge w c message_id job_id url)
    acknowledge-Returns = Returns-bind _ _ safe_xack-Returns λ _. Returns-pure tt (λ s h. h)

    process_job-Returns :
        (fields : List (String × String))
        → Returns IsIdle Done (process_job w c message_id job_id url fields)
    unfolding process_job
    process_job-Returns fields = Returns-bind _ _ (Returns-Keeps (search idle_rules)) λ status.
        Returns-if _ _ _ acknowledge-Returns (
          Returns-bind _ _ (Returns-Keeps (search idle_rules)) λ cancelled.
            Returns-if _ _ _
              (Returns-bind _ _ (Returns-Keeps (search idle_rules)) (λ _. acknowledge-Returns))
              (Returns-bind _ _ (record { at = λ s a h e. tt }) (λ _. execute-Returns fields)))

  dispatch-Returns :
      (decoded : List (String × String)) (r : Result (String × String))
      → Returns IsIdle Done (dispatch w c message_id decoded r)
  unfolding dispatch
  dispatch-Returns decoded (ok (job_id, url)) = process_job-Returns job_id url decoded
  dispatch-Returns decoded (err e) =
      Returns-bind _ _ safe_xack-Returns λ _. Returns-pure tt (λ s h. h)

  -- A message that is processed without an exception is acknowledged, as the last call, and the
  -- consumer is idle again, with no current job.
  pub process_message_acks :
      (fields : Fields) (s : Consumer)
      → IsIdle s
      → (process_message w c message_id fields s).0 ≡ ok tt
      → Done (process_message w c message_id fields s).1
  process_message_acks fields s h e = processed.at s tt h e
    where
      processed : Returns IsIdle Done (process_message w c message_id fields)
      processed =
          unfold process_message in
          Returns-bind _ _ (Returns-Keeps (search idle_rules)) (λ d. dispatch-Returns d _)
