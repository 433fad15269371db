-- ===== src/Consumer/Backoff.antt =====
-- What a lost Redis connection does to the consume loop (server/consumer.py): how long it backs off.
use native.Mathlib.Nat.{pow-le-pow_right}
use coda_node.Prelude.{
  ℕ, ◌+◌, ◌-◌, ◌^◌, ◌≤◌, ◌<◌, ◌≡◌, refl, sym, ap, subst, ◌∙◌, inl, inr, String, false, none, ◌∷◌,
  arith, ltb, leb, ltb→lt, if◌then◌else◌, Bool-cases,
}
use coda_node.Exec.{Exn, connection, other, Result, ok, err, ◌>>=◌}
use coda_node.Exec.Runs.{>>=-ok, >>=-err, catching-err}
use coda_node.Consumer.World.{Call, xreadgroup, sleep, World, Config, Consumer, perform}
use coda_node.Consumer.Redis.{stream, group}
use coda_node.Consumer.Outcome.{perform_runs}
use coda_node.Consumer.Loop.{backoff, background, back_off, read_and_process, iteration, read_count}

-- The delay behind `n` failures in a row: it doubles from one second on, and is a minute from the
-- seventh failure on.
abbrev pub delay : ℕ → ℕ
delay n = if ltb n 7 then 2 ^ (n - 1) else 60

abbrev pub overflow : Exn
overflow = other "(34, 'Numerical result out of range')"

abbrev pub Delay : ℕ → Result ℕ → Type 0
Delay n (ok d) = (n ≤ 1024) × (d ≡ delay n)
Delay n (err e) = (1024 < n) × (e ≡ overflow)

-- Up to 1024 failures in a row, the consumer computes a delay, the doubling one up to a minute;
-- beyond, the computation raises an `OverflowError`.
pub backoff-Delay : (n : ℕ) → Delay n (backoff n)
unfolding backoff
backoff-Delay n = elim (Bool-cases (leb 1024 (n - 1))) [
  | inl e ↦ rw e (ground arith, refl)
  | inr e ↦ rw e (
    ground arith,
    elim (Bool-cases (ltb n 7)) [
      | inl l ↦ ground (arith, small (ltb→lt n 7 l))
      | inr l ↦ ground (arith, large (ground arith))
    ],
  )
]
  where
    small : n < 7 → 2 ^ (n - 1) ≤ 2 ^ 5
    small h = pow-le-pow_right (omega arith) {i = n - 1} {j = 5} (omega arith)

    large : 7 ≤ n → 2 ^ 6 ≤ 2 ^ (n - 1)
    large h = pow-le-pow_right (omega arith) {i = 6} {j = n - 1} (omega arith)

module _ (w : World) (c : Config) where
  abbrev pub read : Call
  read = xreadgroup (group c) c.consumer_name (stream c) (read_count w c)

  -- The state after a read that lost the connection, before the delay.
  abbrev pub unhealthy : Consumer → Consumer
  unhealthy s = record s {
    redis_healthy = false;
    consecutive_failures = s.consecutive_failures + 1;
  }

  back_off-connection :
      (e : String) (s : Consumer) (d : ℕ)
      → backoff (s.consecutive_failures + 1) ≡ ok d
      → back_off w c (connection e) s
        ≡ (ok tt, let t = unhealthy s in record t { calls = sleep d ∷ s.calls })
  unfolding back_off perform ◌>>=◌
  back_off-connection e s d h = rw h refl

  back_off-overflow :
      (e : String) (s : Consumer) (x : Exn)
      → backoff (s.consecutive_failures + 1) ≡ err x
      → back_off w c (connection e) s ≡ (err x, unhealthy s)
  unfolding back_off ◌>>=◌
  back_off-overflow e s x h = rw h refl

  background-none : (s : Consumer) → s.pending_batch_delivery ≡ none → background w c s ≡ (ok tt, s)
  unfolding background
  background-none s h = ground arith

  read_fails :
      (e : Exn) (s : Consumer)
      → s.pending_batch_delivery ≡ none
      → w.xreadgroup (read ∷ s.calls) ≡ err e
      → read_and_process w c s ≡ (err e, record s { calls = read ∷ s.calls })
  unfolding read_and_process
  read_fails e s p h =
      >>=-ok _ _ (background-none s p) ∙ >>=-err _ _ (perform_runs read w.xreadgroup s h)

  -- What a round of the loop does if the connection is lost while it reads: it says so, counts the
  -- failure and sleeps for its delay, or, behind more than 1024 failures in a row, lets the
  -- `OverflowError` of the delay out of the loop.
  abbrev pub Retried : ℕ → Consumer → Result (Unit {0}) × Consumer → Type 0
  Retried n s (ok _, t) =
      (n ≤ 1024) × (t ≡ record (unhealthy s) { calls = sleep (delay n) ∷ read ∷ s.calls })
  Retried n s (err x, t) =
      (1024 < n) × (x ≡ overflow) × (t ≡ record (unhealthy s) { calls = read ∷ s.calls })

  -- Where no delivery is pending and the connection is lost during the read, a round of the consume
  -- loop marks Redis as unhealthy and counts the failure. Up to 1024 failures in a row, it then
  -- sleeps for 1, 2, 4, 8, 16 or 32 seconds, or for a minute from the seventh failure on, and the
  -- loop goes on; beyond, an `OverflowError` leaves the loop.
  pub iteration_disconnected :
      (e : String) (s : Consumer)
      → s.pending_batch_delivery ≡ none
      → w.xreadgroup (read ∷ s.calls) ≡ err (connection e)
      → Retried (s.consecutive_failures + 1) s (iteration w c s)
  unfolding iteration
  iteration_disconnected e s p h =
      subst (Retried n s) (sym (catching-err _ _ (read_fails (connection e) s p h)))
        (go (backoff n) refl (backoff-Delay n))
    where
      n : ℕ
      n = s.consecutive_failures + 1

      t : Consumer
      t = record s { calls = read ∷ s.calls }

      go : (r : Result ℕ) → backoff n ≡ r → Delay n r → Retried n s (back_off w c (connection e) t)
      go (ok d) b (l, k) =
          rw (back_off-connection e t d b)
            (l, ap (λ d. record (unhealthy s) { calls = sleep d ∷ read ∷ s.calls }) k)
      go (err x) b (l, k) = rw (back_off-overflow e t x b) (l, k, refl)
