-- ===== src/Vpn/Guard/Watch.antt =====
-- Which changes the guard announces (vpn/guard.py).
use coda_node.Prelude.{ℕ, zero, suc, ◌≡◌, ◌≢◌, refl, Bool, true, false, List, [], ◌∷◌}
use coda_node.Exec.{Result, ok, err, pure}
use coda_node.Exec.Keeps.{Keeps, Keeps-bind, Keeps-if, Keeps-modify, keeps_rules}
use coda_node.Exec.Leads.{
  After, Leads, Leads-pure, Leads-fact, Leads-adapt, Keeps-Leads, Leads-gets, Leads-modify,
  Leads-Keeps, Leads-bind,
}
use coda_node.Vpn.Guard.{
  ServiceState, booting, vpn_unavailable, ready, degraded, Call, sleep, on_change, World,
  GuardConfig, VpnGuard, initial, perform, announce, react, check, checks, watch, preflight,
  VpnStatus,
}
use coda_node.Vpn.Guard.Preflight.{verdict, announced, Found, Same, preflight-Leads}

abbrev pub StartsOff : ServiceState → List ServiceState → Type 0
StartsOff σ [] = Unit
StartsOff σ (τ ∷ l) = σ ≢ τ

-- No state is announced twice in a row.
abbrev pub Alternates : List ServiceState → Type 0
Alternates [] = Unit
Alternates (σ ∷ l) = StartsOff σ l × Alternates l

-- What may have been announced last in a state.
abbrev Told : ServiceState → List ServiceState → Type 0
Told booting l = l ≡ []
Told ready l = StartsOff degraded l
Told _ l = StartsOff ready l

abbrev Sound : VpnGuard → Type 0
Sound s = Told s.state (announced s.calls) × Alternates (announced s.calls)

off : {σ τ : ServiceState} (l : List ServiceState) → σ ≢ τ → StartsOff σ (τ ∷ l)
off l h = h

module _ (w : World) (c : GuardConfig) (heard : c.has_callback ≡ true) where
  abbrev CanSay : ServiceState → VpnGuard → Type 0
  CanSay σ s = (s.state ≡ σ) × StartsOff σ (announced s.calls) × Alternates (announced s.calls)

  announce-Sound :
      (σ : ServiceState)
      → ((l : List ServiceState) → Told σ (σ ∷ l))
      → Leads (CanSay σ) (λ _. Sound) Sound (announce w c σ)
  unfolding announce perform
  announce-Sound σ t = record {
    at = λ s h. rw (heard, h.0) (said s (w.on_change (on_change σ ∷ s.calls)) h);
  }
    where
      said :
          (s : VpnGuard) (r : Result (Unit {0}))
          → CanSay σ s
          → After
              (λ (u : Unit {0}). Sound)
              Sound
              (r, record s { state = σ; calls = on_change σ ∷ s.calls })
      said s (ok u) h = (t (announced s.calls), (h.1, h.2))
      said s (err e) h = (t (announced s.calls), (h.1, h.2))

  -- Where a check that found `b` in state `σ` leaves the guard.
  abbrev Checked : ServiceState → Bool → List ServiceState → VpnGuard → Type 0
  Checked σ b told s = (s.state ≡ verdict b) × (announced s.calls ≡ told)

  react-Sound :
      (σ : ServiceState) (b : Bool) (told : List ServiceState)
      → Told σ told
      → Alternates told
      → Leads (Checked σ b told) (λ _. Sound) Sound (react w c σ b)
  unfolding react
  react-Sound vpn_unavailable true told t a = record {
    at = λ s h. (announce-Sound ready (λ l e. cc)).at s (h.0, rw h.1 t, rw h.1 a);
  }
  react-Sound degraded true told t a = record {
    at = λ s h. (announce-Sound ready (λ l e. cc)).at s (h.0, rw h.1 t, rw h.1 a);
  }
  react-Sound ready false told t a =
      Leads-bind _ _ (Leads-modify {Q = λ _. CanSay degraded} _ (λ s h. (refl, rw h.1 t, rw h.1 a)))
        (λ _. announce-Sound degraded (λ l e. cc))
  react-Sound booting true told t a = Leads-pure _ (λ s h. rw (h.0, h.1) (rw t (tt, tt)))
  react-Sound booting false told t a = Leads-pure _ (λ s h. rw (h.0, h.1) (rw t (tt, tt)))
  react-Sound ready true told t a = Leads-pure _ (λ s h. rw (h.0, h.1) (t, a))
  react-Sound vpn_unavailable false told t a = Leads-pure _ (λ s h. rw (h.0, h.1) (t, a))
  react-Sound degraded false told t a = Leads-pure _ (λ s h. rw (h.0, h.1) (t, a))

  sleep-Same :
      (σ : ServiceState) (told : List ServiceState) (n : ℕ) (answer : List Call → Result (Unit {0}))
      → Keeps (Same w c σ told) (perform (sleep n) answer)
  unfolding perform
  sleep-Same σ told n answer = record { at = λ s h. h }

  Same-Sound :
      (σ : ServiceState) (told : List ServiceState)
      → Told σ told
      → Alternates told
      → (s : VpnGuard) → Same w c σ told s
      → Sound s
  Same-Sound σ told t a s h = rw (h.0, h.1) (t, a)

  check-Leads :
      (σ : ServiceState) (told : List ServiceState)
      → Told σ told
      → Alternates told
      → Leads (Same w c σ told) (λ _. Sound) Sound (check w c)
  unfolding check
  check-Leads σ told t a =
      Leads-bind _ _
        (Leads-adapt _ (λ s h. h) (Same-Sound σ told t a) (Leads-Keeps _ (sleep-Same σ told _ _)))
        λ _.
          Leads-bind _ _ (Leads-gets {Q = λ p s. (p ≡ σ) × Same w c σ told s} _ (λ s h. (h.0, h)))
            λ previous. Leads-fact _ λ e.
              Leads-bind _ _
                (Leads-adapt _ (λ s h. h) (Same-Sound σ told t a) (preflight-Leads w c σ told))
                λ status. rw e (
                  Leads-adapt _ (λ s h. (h.0.0, h.1)) (λ s h. h) (react-Sound σ status.ok told t a))

  check-Sound : Keeps Sound (check w c)
  check-Sound =
      Keeps-Leads _ (λ s h. (check-Leads s.state (announced s.calls) h.0 h.1).at s (refl, refl))

  checks-Sound : (n : ℕ) → Keeps Sound (checks w c n)
  unfolding checks
  checks-Sound zero = search keeps_rules
  checks-Sound (suc n) = Keeps-bind _ _ (Keeps-modify _ (λ s h. h)) λ _.
      Keeps-bind _ _ (search keeps_rules) λ b.
        Keeps-if b _ (pure tt) (Keeps-bind _ _ check-Sound (λ _. checks-Sound n))
          (search keeps_rules)

  watch-Sound : (n : ℕ) → Keeps Sound (watch w c n)
  unfolding watch
  watch-Sound n = Keeps-bind _ _ (Keeps-modify _ (λ s h. h)) (λ _. checks-Sound n)

  preflight-Sound : Sound (preflight w c initial).1
  preflight-Sound =
      go (preflight w c initial).0 (preflight w c initial).1
        ((preflight-Leads w c booting []).at initial (refl, refl))
    where
      judged : (b : Bool) → Told (verdict b) [] × Alternates []
      judged true = (tt, tt)
      judged false = (tt, tt)

      go :
          (r : Result VpnStatus) (t : VpnGuard)
          → After (Found w c booting []) (Same w c booting []) (r, t)
          → Sound t
      go (ok status) t h = rw (h.0.0, h.1) (judged status.ok)
      go (err e) t h = rw (h.0, h.1) (refl, tt)

  -- A guard with a callback that has run its preflight from its initial state, whatever came of it,
  -- announces, over any number of checks and whatever they find or raise, no state twice in a row.
  pub watch-Alternates :
      (n : ℕ) → Alternates (announced (watch w c n (preflight w c initial).1).1.calls)
  watch-Alternates n = ((watch-Sound n).at (preflight w c initial).1 preflight-Sound).1
