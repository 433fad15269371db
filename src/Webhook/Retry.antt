-- ===== src/Webhook/Retry.antt =====
-- How often a delivery is tried, how long it waits, and how it ends.
use native.Mathlib.Nat.{pow-suc, pow-le-pow_right}
use native.Mathlib.Numerals.{add-one}
use coda_node.Prelude.{
  ℕ, zero, suc, ◌+◌, ◌*◌, ◌^◌, ◌≤◌, ◌<◌, ◌≡◌, refl, sym, ap, subst, ◌⊎◌, inl, inr, String, Option,
  none, some, List, [], ◌∷◌, arith,
}
use coda_node.Exec.{Exn, other, Result, ok, err}
use coda_node.Webhook.{
  Body, Event, post, sleep, Reply, response, transport_error, failure, Http, WebhookClient, Attempt,
  delivered, retry, give_up, classify, headers, attempts, post_with_retry,
}

-- How many POSTs were made, and how many seconds were slept.
abbrev pub posts : List Event → ℕ
posts [] = 0
posts (post u hs b ∷ es) = suc (posts es)
posts (sleep n ∷ es) = posts es

abbrev pub slept : List Event → ℕ
slept [] = 0
slept (post u hs b ∷ es) = slept es
slept (sleep n ∷ es) = n + slept es

Result-cases : {A : Type 0} (r : Result A) → ((a : A) × (r ≡ ok a)) ⊎ ((e : Exn) × (r ≡ err e))
Result-cases (ok a) = inl (a, refl)
Result-cases (err e) = inr (e, refl)

Attempt-cases :
    (a : Attempt) → (a ≡ delivered) ⊎ ((e : Exn) × (a ≡ retry e)) ⊎ ((e : Exn) × (a ≡ give_up e))
Attempt-cases delivered = inl refl
Attempt-cases (retry e) = inr (inl (e, refl))
Attempt-cases (give_up e) = inr (inr (e, refl))

double : (n : ℕ) → 2 ^ (n + 1) ≡ 2 ^ n * 2
double n = rw add-one (pow-suc 2 n)

shift : (n left : ℕ) → 2 ^ (n + suc left) ≡ 2 ^ (n + 1 + left)
shift n left = ap (λ k. 2 ^ k) (omega arith)

grows : (n k : ℕ) → 2 ^ n ≤ 2 ^ (n + k)
grows n k = pow-le-pow_right (omega arith) (omega arith)

module _ (http : Http) (client : WebhookClient) (url : String) (body : Body) where
  abbrev run : ℕ → ℕ → Option Exn → List Event → Result (Unit {0}) × List Event
  run = attempts http client url body

  abbrev pub posted : String → List Event → List Event
  posted token before = post url (headers http client url body token) body ∷ before

  attempts-retry :
      (left n : ℕ) (last : Option Exn) (before : List Event) (token : String) (e : Exn)
      → http.sign before ≡ ok token
      → classify http (http.answer (posted token before)) ≡ retry e
      → run (suc left) n last before
        ≡ run left (n + 1) (some e) (sleep (2 ^ n) ∷ posted token before)
  unfolding attempts
  attempts-retry left n last before token e signed again = ground arith

  attempts_bounds :
      (left n : ℕ) (last : Option Exn) (before : List Event)
      → let (_, after) = run left n last before in
        (posts after ≤ posts before + left) × (slept after + 2 ^ n ≤ slept before + 2 ^ (n + left))
  unfolding attempts
  attempts_bounds zero n none before = omega (arith, grows n 0)
  attempts_bounds zero n (some e) before = omega (arith, grows n 0)
  attempts_bounds (suc left) n last before = elim (Result-cases (http.sign before)) [
    | inr (e, p) ↦ ground (arith, grows n (suc left))
    | inl (token, p) ↦ elim (Attempt-cases (classify http (http.answer (posted token before)))) [
      | inl d ↦ ground (arith, grows n (suc left))
      | inr (inr (e, g)) ↦ ground (arith, grows n (suc left))
      | inr (inl (e, r)) ↦ ground (
        arith,
        double n,
        shift n left,
        attempts_bounds left (n + 1) (some e) (sleep (2 ^ n) ∷ posted token before),
      )
    ]
  ]

  attempts-unsigned :
      (left n : ℕ) (last : Option Exn) (before : List Event) (e : Exn)
      → http.sign before ≡ err e
      → run (suc left) n last before ≡ (err e, before)
  unfolding attempts
  attempts-unsigned left n last before e p = ground arith

  attempts-delivered :
      (left n : ℕ) (last : Option Exn) (before : List Event) (token : String)
      → http.sign before ≡ ok token
      → classify http (http.answer (posted token before)) ≡ delivered
      → run (suc left) n last before ≡ (ok tt, posted token before)
  unfolding attempts
  attempts-delivered left n last before token signed d = ground arith

  attempts-give_up :
      (left n : ℕ) (last : Option Exn) (before : List Event) (token : String) (e : Exn)
      → http.sign before ≡ ok token
      → classify http (http.answer (posted token before)) ≡ give_up e
      → run (suc left) n last before ≡ (err e, posted token before)
  unfolding attempts
  attempts-give_up left n last before token e signed d = ground arith

  -- A reply after which a delivery is tried again.
  abbrev pub Transient : Reply → Type 0
  Transient (response code) = 500 ≤ code
  Transient (transport_error e) = Unit
  Transient (failure e) = ⊥

  -- A reply that ends a delivery with an error.
  abbrev pub Final : Reply → Exn → Type 0
  Final (response code) e =
      ((code < 200) ⊎ ((300 ≤ code) × (code < 500))) × (e ≡ other (http.status_text code))
  Final (transport_error t) e = ⊥
  Final (failure t) e = e ≡ other t

  classify-delivered :
      (a : Reply)
      → classify http a ≡ delivered
      → (code : ℕ) × (a ≡ response code) × (200 ≤ code) × (code < 300)
  unfolding classify
  classify-delivered (response code) h = (code, refl, ground arith, ground arith)
  classify-delivered (transport_error e) h = cc
  classify-delivered (failure e) h = cc

  classify-retry : (a : Reply) (e : Exn) → classify http a ≡ retry e → Transient a
  unfolding classify
  classify-retry (response code) e h = ground arith
  classify-retry (transport_error t) e h = tt
  classify-retry (failure t) e h = cc

  classify-give_up : (a : Reply) (e : Exn) → classify http a ≡ give_up e → Final a e
  unfolding classify
  classify-give_up (response code) e h = (ground arith, ground arith)
  classify-give_up (transport_error t) e h = cc
  classify-give_up (failure t) e h = ground arith

  -- The POST with a token that was signed, behind `before`.
  abbrev pub Posted : List Event → List Event → Type 0
  Posted before after =
      (token : String) × (http.sign before ≡ ok token) × (after ≡ posted token before)

  -- `n` POSTs behind `start`: each got a reply after which a delivery is tried again, and the `k`th
  -- one, from 0, was followed by a pause of 2 ^ k seconds.
  abbrev pub Retried : List Event → ℕ → List Event → Type 0
  Retried start zero cs = cs ≡ start
  Retried start (suc n) cs =
      (before : List Event) × (after : List Event) × Retried start n before
      × Posted before after
      × Transient (http.answer after)
      × (cs ≡ sleep (2 ^ n) ∷ after)

  -- How a delivery ends behind `start`, where `max` POSTs are allowed: with a 2xx answer to the last
  -- POST; at a final answer to the last POST; at a token that could not be signed; or with all
  -- attempts made and all pauses slept. All POSTs before were to be tried again.
  pub data End (start : List Event) (max : ℕ) (r : Result (Unit {0})) (after : List Event)
      : Type 0 where
    answered :
        (n : ℕ) (before : List Event) (code : ℕ)
        → n < max
        → Retried start n before
        → Posted before after
        → http.answer after ≡ response code
        → 200 ≤ code
        → code < 300
        → r ≡ ok tt
        → End start max r after
    refused :
        (n : ℕ) (before : List Event) (e : Exn)
        → n < max
        → Retried start n before
        → Posted before after
        → Final (http.answer after) e
        → r ≡ err e
        → End start max r after
    unsigned :
        (n : ℕ) (e : Exn)
        → n < max
        → Retried start n after
        → http.sign after ≡ err e
        → r ≡ err e
        → End start max r after
    exhausted :
        (e : Exn)
        → Retried start max after
        → posts after ≡ posts start + max
        → slept after + 1 ≡ slept start + 2 ^ max
        → r ≡ err e
        → End start max r after

  Retried-counts :
      (start : List Event) (n : ℕ) (cs : List Event)
      → Retried start n cs
      → (posts cs ≡ posts start + n) × (slept cs + 1 ≡ slept start + 2 ^ n)
  Retried-counts start zero cs h = rw h (omega arith, omega arith)
  Retried-counts start (suc n) cs (before, after, h, (token, signed, e), again, p) =
      let (made, paused) = Retried-counts start n before h in
      rw (p, e, pow-suc 2 n) (omega arith, omega arith)

  attempts-End :
      (start : List Event) (max left n : ℕ) (e : Exn) (before : List Event)
      → max ≡ n + left
      → Retried start n before
      → End start max (run left n (some e) before).0 (run left n (some e) before).1
  unfolding attempts
  attempts-End start max zero n e before m h =
      let all : Retried start max before = subst (λ k. Retried start k before) (omega arith) h in
      let (made, paused) = Retried-counts start max before all in exhausted e all made paused refl
  attempts-End start max (suc left) n last before m h = elim (Result-cases (http.sign before)) [
    | inr (e, p) ↦
        rw (attempts-unsigned left n (some last) before e p) (unsigned n e (omega arith) h p refl)
    | inl (token, p) ↦ elim (Attempt-cases (classify http (http.answer (posted token before)))) [
      | inl d ↦
          let (code, a, low, high) = classify-delivered _ d in
          rw (attempts-delivered left n (some last) before token p d)
            (answered n before code (omega arith) h (token, p, refl) a low high refl)
      | inr (inr (e, g)) ↦
          rw (attempts-give_up left n (some last) before token e p g)
            (refused n before e (omega arith) h (token, p, refl) (classify-give_up _ e g) refl)
      | inr (inl (e, r)) ↦ rw (attempts-retry left n (some last) before token e p r) (
          attempts-End start max left (n + 1) e _ (omega arith) (
            subst (λ k. Retried start k (sleep (2 ^ n) ∷ posted token before)) (sym (add-one n))
              (before, posted token before, h, (token, p, refl), classify-retry _ e r, refl)))
    ]
  ]

  -- A delivery with at least one attempt allowed ends in one of four ways. It succeeds if its last
  -- POST is answered 2xx. It fails at once if its last POST is answered with any other code below
  -- 500 or by an exception that is no transport error, or if a token cannot be signed. Otherwise all
  -- attempts have been made, and it has slept 2 ^ max_retries - 1 seconds. Each POST before the last
  -- one, and in the last case the last one too, was answered with a code from 500 on or by a
  -- transport error, and the `k`th one, from 0, was followed by a pause of 2 ^ k seconds.
  pub post_with_retry-End :
      (before : List Event)
      → 0 < client.max_retries
      → let (r, after) = post_with_retry http client url body before in
        End before client.max_retries r after
  unfolding post_with_retry
  post_with_retry-End before h = go client.max_retries h
    where
      go : (n : ℕ) → 0 < n → End before n (run n 0 none before).0 (run n 0 none before).1
      go (suc n) h = attempts-End before (suc n) (suc n) 0 (other "") before (omega arith) refl
      go zero h = absurd (omega arith)

  -- Whatever is answered, a delivery makes at most max_retries POSTs and sleeps less than
  -- 2 ^ max_retries seconds.
  pub post_with_retry_bounds :
      (before : List Event)
      → let (_, after) = post_with_retry http client url body before in
        (posts after ≤ posts before + client.max_retries)
        × (slept after < slept before + 2 ^ client.max_retries)
  unfolding post_with_retry
  post_with_retry_bounds before = grind (arith, attempts_bounds client.max_retries 0 none before)
