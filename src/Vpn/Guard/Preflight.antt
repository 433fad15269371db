-- ===== src/Vpn/Guard/Preflight.antt =====
-- What a preflight check finds (vpn/guard.py).
use coda_node.Prelude.{
  ℕ, Float, ◌≡◌, refl, String, Bool, true, false, not, ◌&&◌, Option, none, some, List, [], ◌∷◌, map,
  arith, is_empty,
}
use coda_node.Exec.{Exn, connection, Result, ok, err}
use coda_node.Exec.Keeps.{Keeps, Keeps-bind, keeps_rules}
use coda_node.Exec.Leads.{
  After, Leads, Leads-pure, Leads-if, Leads-fact, Leads-modify, Leads-Keeps, Leads-bind,
}
use coda_node.Vpn.Interface.{Text}
use coda_node.Vpn.Guard.{
  ServiceState, vpn_unavailable, ready, ProbeResult, VpnStatus, Call, detect, getaddrinfo, head,
  on_change, World, GuardConfig, VpnGuard, M, perform, failed, is_some, probed, unresolved,
  resolve_host, outcome, probe_target, check_host, dns_failures, probe_all, unavailable, conclude,
  preflight,
}

-- The state that a status stands for.
abbrev pub verdict : Bool → ServiceState
verdict true = ready
verdict false = vpn_unavailable

-- What a status says: it stands for the new state; a refusal is one that the configuration asks for;
-- and a node that needs its VPN passes only with an interface and with each probe answered.
abbrev pub Judged : GuardConfig → VpnStatus → VpnGuard → Type 0
Judged c st s =
    (s.state ≡ verdict st.ok)
    × (st.ok ≡ false → c.vpn_required ≡ true)
    × (st.ok ≡ true
        → c.vpn_required ≡ true
        → (st.interface_found ≡ true)
          × (failed st.probes ≡ [])
          × (map (λ p. p.target) st.probes ≡ c.probe_targets))

-- The states that the guard has announced, newest first.
abbrev pub announced : List Call → List ServiceState
announced [] = []
announced (on_change σ ∷ cs) = σ ∷ announced cs
announced (_ ∷ cs) = announced cs

module _ (w : World) (c : GuardConfig) (σ : ServiceState) (told : List ServiceState) where
  abbrev pub Same : VpnGuard → Type 0
  Same s = (s.state ≡ σ) × (announced s.calls ≡ told)

  abbrev pub Found : VpnStatus → VpnGuard → Type 0
  Found st s = Judged c st s × (announced s.calls ≡ told)

  detect-Same :
      (o : Option Text) (answer : List Call → Result (Option Text))
      → Keeps Same (perform (detect o) answer)
  unfolding perform
  detect-Same o answer = record { at = λ s h. h }

  getaddrinfo-Same :
      (h : String) (answer : List Call → Result (Unit {0}))
      → Keeps Same (perform (getaddrinfo h) answer)
  unfolding perform
  getaddrinfo-Same h answer = record { at = λ s h. h }

  head-Same :
      (url : String) (hs : List (String × String)) (answer : List Call → Result ℕ)
      → Keeps Same (perform (head url hs) answer)
  unfolding perform
  head-Same url hs answer = record { at = λ s h. h }

  unresolved-Same : (e : Exn) → Keeps Same (unresolved w c e)
  unfolding unresolved
  unresolved-Same (connection e) = search keeps_rules
  unresolved-Same _ = search keeps_rules

  resolve_host-Same : (h : String) → Keeps Same (resolve_host w c h)
  unfolding resolve_host
  resolve_host-Same h = search (keeps_rules, getaddrinfo-Same, unresolved-Same)

  outcome-Same : (m : M ℕ) → Keeps Same m → Keeps Same (outcome w c m)
  outcome-Same m k = record { at = λ s h. k.at s h }

  probe_target-Same : (url : String) → Keeps Same (probe_target w c url)
  unfolding probe_target
  probe_target-Same url = search (keeps_rules, head-Same, outcome-Same)

  check_host-Same : (o : Option String) → Keeps Same (check_host w c o)
  check_host-Same none = search keeps_rules
  check_host-Same (some h) = search (keeps_rules, resolve_host-Same)

  dns_failures-Same : (ts : List String) → Keeps Same (dns_failures w c ts)
  unfolding dns_failures
  dns_failures-Same [] = search keeps_rules
  dns_failures-Same (t ∷ ts) = Keeps-bind _ _ (search keeps_rules) λ o.
      Keeps-bind _ _ (check_host-Same o)
        λ m. Keeps-bind _ _ (dns_failures-Same ts) (λ n. search keeps_rules)

  -- The probes of the targets, in their order.
  abbrev Probed : List String → List ProbeResult → VpnGuard → Type 0
  Probed ts ps s = (map (λ p. p.target) ps ≡ ts) × Same s

  probed-target : (url : String) (l : Float) (r : Result ℕ) → (probed url l r).target ≡ url
  probed-target url l (ok code) = refl
  probed-target url l (err e) = refl

  probe_target-Leads :
      (t : String) → Leads Same (λ p s. (p.target ≡ t) × Same s) Same (probe_target w c t)
  unfolding probe_target
  probe_target-Leads t = Leads-bind _ _ (Leads-Keeps _ (search (head-Same, outcome-Same))) λ r.
      Leads-bind _ _ (Leads-Keeps _ (search keeps_rules))
        λ l. Leads-pure _ (λ s h. (probed-target t l r, h))

  probe_all-Leads : (ts : List String) → Leads Same (Probed ts) Same (probe_all w c ts)
  unfolding probe_all
  probe_all-Leads [] = Leads-pure _ (λ s h. (refl, h))
  probe_all-Leads (t ∷ ts) = Leads-bind _ _ (probe_target-Leads t) λ p. Leads-fact _ λ e.
      Leads-bind _ _ (probe_all-Leads ts) λ ps. Leads-fact _ λ es. Leads-pure _ (λ s h. (cc, h))

  unavailable-Leads :
      (found : Bool) (ps : List ProbeResult) (reason : String)
      → c.vpn_required ≡ true
      → Leads Same Found Same (unavailable w c found ps reason)
  unavailable-Leads found ps reason r =
      Leads-bind _ _
        (Leads-modify {Q = λ _ s. (s.state ≡ vpn_unavailable) × (announced s.calls ≡ told)} _
          (λ s h. (refl, h.1)))
        λ _. Leads-pure _ (λ s h. ((h.0, λ _. r, λ k. absurd (cc)), h.1))

  conclude-Leads :
      (found : Bool) (ps : List ProbeResult)
      → (c.vpn_required ≡ true → found ≡ true)
      → map (λ p. p.target) ps ≡ c.probe_targets
      → Leads Same Found Same (conclude w c found ps)
  unfolding conclude
  conclude-Leads found ps f t =
      Leads-if (not (is_empty (failed ps)) && c.vpn_required) _ _
        (λ e. unavailable-Leads found ps _ (ground arith))
        λ e.
          Leads-bind _ _
            (Leads-modify {Q = λ _ s. (s.state ≡ ready) × (announced s.calls ≡ told)} _
              (λ s h. (refl, h.1)))
            λ _. Leads-pure _ (λ s h. (
              (h.0, λ k. absurd (cc), λ k r. (f r, is_empty-nil (failed ps) (ground arith), t)),
              h.1,
            ))
    where
      is_empty-nil : (xs : List ProbeResult) → is_empty xs ≡ true → xs ≡ []
      is_empty-nil [] h = refl
      is_empty-nil (x ∷ xs) h = absurd (cc)

  pub preflight-Leads : Leads Same Found Same (preflight w c)
  unfolding preflight
  preflight-Leads = Leads-bind _ _ (Leads-Keeps _ (search detect-Same)) λ iface.
      Leads-if (not (is_some iface) && c.vpn_required) _ _
        (λ e. unavailable-Leads _ _ _ (ground arith))
        λ e. Leads-bind _ _ (Leads-Keeps _ (dns_failures-Same c.probe_targets)) λ fs.
          Leads-if (not (is_empty fs) && c.vpn_required) _ _
            (λ d. unavailable-Leads _ _ _ (ground arith))
            λ d.
              Leads-bind _ _ (probe_all-Leads c.probe_targets)
                λ ps. Leads-fact _ λ t. conclude-Leads _ ps (λ r. ground arith) t

-- A preflight check that returns leaves the guard ready if its status is ok, and with the VPN
-- unavailable if not. It is ok whenever the VPN is not required; where it is required, an ok status
-- means that a tunnel interface was found and that all targets were probed, in order, without a
-- failure. A check that raises leaves the state as it was. Neither announces a change.
pub preflight_judged :
    (w : World) (c : GuardConfig) (s : VpnGuard)
    → let told = announced s.calls in
      After (Found w c s.state told) (Same w c s.state told) (preflight w c s)
preflight_judged w c s = (preflight-Leads w c s.state (announced s.calls)).at s (refl, refl)
