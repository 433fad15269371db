-- ===== src/Heartbeat/Survival.antt =====
-- The heartbeat goes on, whatever a POST ends with (server/heartbeat.py).
use coda_node.Prelude.{ℕ, zero, suc, ◌≡◌, refl, ap, ◌+◌, String, true, false, List, [], ◌∷◌, arith}
use coda_node.Exec.{Result, ok, err, ◌>>=◌, catching}
use coda_node.Exec.Keeps.{Keeps, keeps_rules}
use coda_node.Exec.Leads.{
  After, Leads, Leads-pure, Leads-gets, Leads-fact, Leads-modify, Leads-bind,
}
use coda_node.Json.{Members}
use coda_node.Heartbeat.{
  Call, post, sleep, World, HeartbeatClient, State, M, perform, send, ignore, beat, beats, run,
}

-- How often the loop has slept, and how many POSTs it has made.
abbrev pub rests : List Call → ℕ
rests [] = 0
rests (sleep n ∷ cs) = suc (rests cs)
rests (post url m hs ∷ cs) = rests cs

abbrev Never : State → Type 0
Never s = ⊥

module _ (w : World) (c : HeartbeatClient) where
  abbrev Rested : ℕ → State → Type 0
  Rested k s = rests s.calls ≡ k

  post-Rested :
      {A : Type 0} {k : ℕ} (url : String) (m : Members) (hs : List (String × String))
      (answer : List Call → Result A)
      → Keeps (Rested k) (perform (post url m hs) answer)
  unfolding perform
  post-Rested url m hs answer = record { at = λ s h. h }

  send-Rested : {k : ℕ} → Keeps (Rested k) (send w c)
  unfolding send
  send-Rested = search (keeps_rules, post-Rested) depth 9

  swallow :
      {P : State → Type 0} (m : M (Unit {0}))
      → Keeps P m
      → Leads P (λ _. P) Never (catching m (ignore w c))
  unfolding catching ◌>>=◌
  swallow {P} m k = record { at = λ s h. go (m s).0 (m s).1 (k.at s h) }
    where
      go :
          (r : Result (Unit {0})) (t : State)
          → P t
          → After (λ (u : Unit {0}). P) Never (catching (λ (x : State). (r, t)) (ignore w c) t)
      go (ok u) t h = h
      go (err e) t h = h

  sleep-Leads :
      (k n : ℕ) → Leads (Rested k) (λ _. Rested (suc k)) Never (perform (sleep n) (λ cs. ok tt))
  unfolding perform
  sleep-Leads k n = record { at = λ s h. ap suc h }

  beat-Leads : (k : ℕ) → Leads (Rested k) (λ _. Rested (suc k)) Never (beat w c)
  unfolding beat
  beat-Leads k = Leads-bind _ _ (swallow _ send-Rested) (λ _. sleep-Leads k c.interval)

  beats-Leads :
      ((cs : List Call) → w.stopped cs ≡ false)
      → (n k : ℕ) → Leads (Rested k) (λ _. Rested (k + n)) Never (beats w c n)
  unfolding beats
  beats-Leads on zero k = Leads-pure _ (λ s h. omega (arith, h))
  beats-Leads on (suc n) k =
      Leads-bind _ _
        (Leads-modify {Q = λ _ s. (s.running ≡ true) × Rested k s} _
          (λ s h. (rw (on s.calls) refl, h)))
        λ _. Leads-bind _ _ (Leads-gets {Q = λ b s. (b ≡ true) × Rested k s} _ (λ s h. h)) λ b.
          Leads-fact _ λ e. rw e (
            Leads-bind _ _ (beat-Leads k) λ _. record {
              at = λ s h.
                  shifted (beats w c n s).0 (beats w c n s).1 ((beats-Leads on n (suc k)).at s h);
            })
    where
      shifted :
          (r : Result (Unit {0})) (t : State)
          → After (λ (u : Unit {0}). Rested (suc k + n)) Never (r, t)
          → After (λ (u : Unit {0}). Rested (k + suc n)) Never (r, t)
      shifted (ok u) t h = omega (arith, h)
      shifted (err e) t h = h

  -- How a run of `n` rounds ends: it returns, and has rested once in each round.
  abbrev pub Survived : ℕ → State → Result (Unit {0}) × State → Type 0
  Survived n s q = After (λ (u : Unit {0}) t. rests t.calls ≡ rests s.calls + n) Never q

  -- As long as nobody stops it, the heartbeat goes through any number of rounds without an exception,
  -- whatever the signer and the cloud do, and sleeps once in each.
  pub run_survives :
      ((cs : List Call) → w.stopped cs ≡ false) → (n : ℕ) (s : State) → Survived n s (run w c n s)
  unfolding run
  run_survives on n s =
      (Leads-bind _ _ (Leads-modify {Q = λ _. Rested (rests s.calls)} _ (λ t h. h))
          (λ _. beats-Leads on n (rests s.calls))).at
        s refl
