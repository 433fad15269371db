-- ===== src/Vpn/Guard.antt =====
-- The VPN guard (`VPNGuard` of vpn/guard.py). The resolver, the HTTP client, the URL parser and the
-- callback answer each call from all calls that were made before.
pub mod Preflight
pub mod Watch
use coda_node.Prelude.{
  ℕ, zero, suc, String, ◌<>◌, Bool, true, false, not, ◌&&◌, Option, none, some, List, [], ◌∷◌, ◌++◌,
  map, ltb, if◌then◌else◌, is_empty, str_eq, take_chars, Float,
}
use coda_node.Exec.{
  Exn, connection, message, Result, ok, err, Exec, pure, raise, lift, gets, modify, ◌>>=◌, ◌>>◌,
  catching,
}
use coda_node.Vpn.Interface.{Text, Shell, detect_tun_interface}

pub data ServiceState : Type 0 where
  booting vpn_unavailable ready degraded : ServiceState

pub record ProbeResult : Type 0 where
  pub target : String
  pub ok : Bool
  pub latency_ms : Option Float
  pub error : Option String

pub record VpnStatus : Type 0 where
  pub ok : Bool
  pub interface_found : Bool
  pub probes : List ProbeResult
  pub reason : String

pub data Call : Type 0 where
  detect : Option Text → Call
  getaddrinfo : String → Call
  head : String → List (String × String) → Call
  sleep : ℕ → Call
  on_change : ServiceState → Call

pub record World : Type 0 where
  pub shell : List Call → Shell
  -- `urlparse(target).hostname`
  pub hostname : String → Result (Option String)
  pub getaddrinfo : List Call → Result (Unit {0})
  -- the status code of a HEAD request, or its exception
  pub head : List Call → Result ℕ
  -- `round((time.monotonic() - started) * 1000, 1)`
  pub latency : List Call → Float
  pub on_change : List Call → Result (Unit {0})
  -- whether `stop` has been called
  pub stopped : List Call → Bool

-- VPNGuard: what `__init__` fixes.
pub record GuardConfig : Type 0 where
  pub probe_targets : List String
  pub interface_hint : Option Text
  pub check_interval_sec : ℕ
  pub vpn_required : Bool
  pub extra_headers : List (String × String)
  -- whether `watch` is given a callback
  pub has_callback : Bool

-- VPNGuard: what its methods change, and the calls made so far, newest first.
pub record VpnGuard : Type 0 where
  pub state : ServiceState
  pub running : Bool
  pub calls : List Call

-- The state that `__init__` sets up.
abbrev pub initial : VpnGuard
initial = record { state = booting; running = false; calls = [] }

-- VPNGuard.is_ready
abbrev pub is_ready : VpnGuard → Bool
is_ready g = elim g.state [ ready ↦ true | _ ↦ false ]

abbrev pub M : Type 0 → Type 0
M A = Exec VpnGuard A

unfoldable pub perform : {A : Type 0} → Call → (List Call → Result A) → M A
perform c answer s = let calls = c ∷ s.calls in (answer calls, record s { calls = calls })

abbrev pub join : String → List String → String
join sep [] = ""
join sep (s ∷ ss) = elim ss [ [] ↦ s | _ ∷ _ ↦ s <> (sep <> join sep ss) ]

-- `probe.error or 'unreachable'`
abbrev pub error_text : Option String → String
error_text none = "unreachable"
error_text (some e) = if str_eq e "" then "unreachable" else e

abbrev pub failure_text : ProbeResult → String
failure_text p = p.target <> (": " <> error_text p.error)

-- `[probe for probe in probes if not probe.ok]`
abbrev pub failed : List ProbeResult → List ProbeResult
failed [] = []
failed (p ∷ ps) = if p.ok then failed ps else p ∷ failed ps

abbrev pub is_some : {A : Type 0} → Option A → Bool
is_some none = false
is_some (some a) = true

abbrev pub probed : String → Float → Result ℕ → ProbeResult
probed url latency (ok code) = record {
  target = url;
  ok = ltb code 500;
  latency_ms = some latency;
  error = none;
}
probed url latency (err e) = record {
  target = url;
  ok = false;
  latency_ms = some latency;
  error = some (take_chars 200 (message e));
}

module _ (w : World) (c : GuardConfig) where
  unresolved : Exn → M Bool
  unresolved (connection e) = pure false
  unresolved e = raise e

  -- _resolve_host
  unfoldable pub resolve_host : String → M Bool
  unfolding unresolved
  resolve_host hostname =
      catching (do perform (getaddrinfo hostname) w.getaddrinfo; pure true) unresolved

  abbrev outcome : M ℕ → M (Result ℕ)
  outcome m s = let (r, s') = m s in (ok r, s')

  -- _probe_target
  unfoldable pub probe_target : String → M ProbeResult
  probe_target url = do
    response ← outcome (perform (head url c.extra_headers) w.head)
    latency ← gets (λ s. w.latency s.calls)
    pure (probed url latency response)

  abbrev pub check_host : Option String → M (List String)
  check_host none = pure []
  check_host (some hostname) =
      if str_eq hostname ""
      then pure []
      else do found ← resolve_host hostname; pure (if found then [] else hostname ∷ [])

  -- The first loop of `preflight`.
  unfoldable pub dns_failures : List String → M (List String)
  dns_failures [] = pure []
  dns_failures (target ∷ targets) =
      let rest = dns_failures targets in
      do
        hostname ← lift (w.hostname target)
        missing ← check_host hostname
        more ← rest
        pure (missing ++ more)

  -- The second loop.
  unfoldable pub probe_all : List String → M (List ProbeResult)
  probe_all [] = pure []
  probe_all (target ∷ targets) =
      let rest = probe_all targets in do p ← probe_target target; ps ← rest; pure (p ∷ ps)

  abbrev pub unavailable : Bool → List ProbeResult → String → M VpnStatus
  unavailable found probes reason = do
    modify (λ s. record s { state = vpn_unavailable })
    pure (record { ok = false; interface_found = found; probes = probes; reason = reason })

  -- The verdict on the probes.
  unfoldable pub conclude : Bool → List ProbeResult → M VpnStatus
  conclude found probes =
      if not (is_empty (failed probes)) && c.vpn_required
      then unavailable found probes
          ("Probe failures: " <> join "; " (map failure_text (failed probes)))
      else (do
        modify (λ s. record s { state = ready })
        pure (record { ok = true; interface_found = found; probes = probes; reason = "" }))

  -- VPNGuard.preflight
  unfoldable pub preflight : M VpnStatus
  preflight = do
    iface ←
        perform (detect c.interface_hint)
          (λ cs. ok (detect_tun_interface (w.shell cs) c.interface_hint))
    if not (is_some iface) && c.vpn_required
        then unavailable false [] "No VPN tunnel interface detected"
        else do
          failures ← dns_failures c.probe_targets
          if not (is_empty failures) && c.vpn_required
              then unavailable (is_some iface) []
                  ("DNS resolution failed for: " <> join ", " failures)
              else (do probes ← probe_all c.probe_targets; conclude (is_some iface) probes)

  unfoldable pub announce : ServiceState → M (Unit {0})
  announce state = if c.has_callback then perform (on_change state) w.on_change else pure tt

  -- What a check means, where `previous` was the state before it.
  unfoldable pub react : ServiceState → Bool → M (Unit {0})
  react vpn_unavailable true = announce ready
  react degraded true = announce ready
  react ready false = do modify (λ s. record s { state = degraded }); announce degraded
  react previous okay = pure tt

  -- The body of the loop of `watch`.
  unfoldable pub check : M (Unit {0})
  check = do
    perform (sleep c.check_interval_sec) (λ cs. ok tt)
    previous ← gets (λ s. s.state)
    status ← preflight
    react previous status.ok

  -- The first `n` rounds of `while self._running`.
  unfoldable pub checks : ℕ → M (Unit {0})
  checks zero = pure tt
  checks (suc n) =
      let rest = checks n in
      do
        modify (λ s. record s { running = not (w.stopped s.calls) })
        running ← gets (λ s. s.running)
        if running then (do check; rest) else pure tt

  -- VPNGuard.watch, up to its `n`th round
  unfoldable pub watch : ℕ → M (Unit {0})
  watch n = do modify (λ s. record s { running = true }); checks n
