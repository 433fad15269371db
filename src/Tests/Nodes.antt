-- ===== src/Tests/Nodes.antt =====
-- A node that provisions itself, and its VPN guard (vpn/service.py and vpn/guard.py).
use coda_node.Prelude.{
  ℕ, ◌≡◌, ◌≢◌, ◌<◌, ◌↔◌, refl, String, Bool, true, false, not, if◌then◌else◌, Option, none, some,
  List, [], ◌∷◌, ℤ, pos, float_zero, arith, codes, splitlines,
}
use coda_node.Exec.{ok, err, connection}
use coda_node.Exec.Leads.{After}
use coda_node.Json.{text, boolean, object, Members, last, member}
use coda_node.Vpn.Interface.{Shell, linux, completed, detect_tun_interface, scan_ip_link}
use coda_node.Vpn.Guard.{
  ServiceState, ready, degraded, Call, sleep, GuardConfig, VpnGuard, initial, preflight, watch,
  checks, check, react, announce, dns_failures, probe_all, conclude,
}
use coda_node.Vpn.Guard.Preflight.{announced, Found, Same, preflight_judged}
use coda_node.Vpn.Guard.Watch.{Alternates, watch-Alternates}
use coda_node.Vpn.Profile.{validate_vpn_profile, forbidden, dangerous}
use coda_node.Vpn.Profile.Accepted.{Harmless, validate_vpn_profile_iff}
use coda_node.Vpn.Node.{success, signalled, World, Node}
use coda_node.Vpn.Node.Connect.{post_connect, connect_settings}
use coda_node.Vpn.Node.Retry.{Ended, post_connect-Ended}
use coda_node.Vpn.Node.Safety.{HasKeys, AllPermitted}
use coda_node.Vpn.Node.Safety.Written.{Persisted, connect_settings_writes}
use coda_node.Vpn.Node.Bundle.{apply_node_bundle}
use coda_node.Vpn.Node.Safety.Complete.{Complete, apply_node_bundle-Complete}
use coda_node.Vpn.Node.Safety.Handshake.{connect_settings_keeps_keys}

-- A Linux host with a tunnel.
abbrev shell : Shell
shell = record {
  system = linux;
  run = λ c. completed (codes "3: tun0: <POINTOPOINT,UP>") (pos 0);
  loads = λ t. none;
}

detected : detect_tun_interface shell none ≡ some (codes "tun0")
unfolding detect_tun_interface scan_ip_link splitlines coda_node.Prelude.split
    coda_node.Prelude.strip
detected = refl

abbrev pub services : coda_node.Vpn.Guard.World
services = record {
  shell = λ cs. shell;
  hostname = λ url. ok (some "coda.example");
  getaddrinfo = λ cs. ok tt;
  head = λ cs. ok 200;
  latency = λ cs. float_zero;
  on_change = λ cs. ok tt;
  stopped = λ cs. false;
}

abbrev guarded : GuardConfig
guarded = record {
  probe_targets = "https://coda.example/health" ∷ [];
  interface_hint = none;
  check_interval_sec = 10;
  vpn_required = true;
  extra_headers = [];
  has_callback = true;
}

preflight_judged_example :
    After
      (Found services guarded coda_node.Vpn.Guard.booting [])
      (Same services guarded coda_node.Vpn.Guard.booting [])
      (preflight services guarded initial)
preflight_judged_example = preflight_judged services guarded initial

-- A service that can be reached at every other check.
abbrev reachable : List Call → Bool
reachable [] = true
reachable (sleep n ∷ cs) = not (reachable cs)
reachable (_ ∷ cs) = reachable cs

abbrev flapping : coda_node.Vpn.Guard.World
flapping = record services {
  head = λ cs. if reachable cs then ok 200 else err (connection "refused");
}

announces_changes :
    announced (watch flapping guarded 3 (preflight flapping guarded initial).1).1.calls
    ≡ degraded ∷ ready ∷ degraded ∷ []
unfolding watch checks check react announce preflight dns_failures probe_all conclude
    detect_tun_interface scan_ip_link splitlines coda_node.Prelude.split coda_node.Prelude.strip
    coda_node.Exec.◌>>=◌ coda_node.Exec.catching coda_node.Vpn.Guard.perform
    coda_node.Vpn.Guard.resolve_host coda_node.Vpn.Guard.probe_target
announces_changes = refl

watch-Alternates_example :
    Alternates (announced (watch flapping guarded 3 (preflight flapping guarded initial).1).1.calls)
watch-Alternates_example = watch-Alternates flapping guarded refl 3

-- A profile that would run a script.
abbrev evil : String
evil = "client\n  UP /bin/sh\n"

evil_refused :
    validate_vpn_profile evil ≡ some "Refusing OpenVPN profile: forbidden directive 'up' on line 2"
unfolding validate_vpn_profile forbidden dangerous splitlines coda_node.Prelude.strip
    coda_node.Prelude.lstrip coda_node.Prelude.rstrip coda_node.Prelude.decimal
evil_refused = refl

validate_vpn_profile_iff_example : (validate_vpn_profile evil ≡ none) ↔ Harmless evil
validate_vpn_profile_iff_example = validate_vpn_profile_iff evil

abbrev bundle : Members
bundle = member "qpu_id" (text "q") (
    member "native_gate_set" (text "cz") (
      member "redis_url" (text "redis://r") (
        member "webapp_url" (text "https://coda.example") (
          member "vpn"
            (object
              (member "required" (boolean true) (member "client_profile_ovpn" (text evil) last)))
            last))))

abbrev pub cloud : World
cloud = record {
  is_windows = false;
  shell = λ cs. shell;
  post = λ cs. success (ok bundle);
  status_text = λ code. "server error";
  machine_fingerprint = "host-1";
  sign_token = λ cs. ok "t";
  connectivity = none;
  config_exists = λ cs. true;
  profile_exists = λ cs. true;
  write = λ cs. ok tt;
  openvpn_binary = λ cs. some "/usr/sbin/openvpn";
  openvpn = λ cs. ok (pos 0, "");
  pid_file = λ cs. none;
  kill = λ cs. signalled;
  log_tail = λ cs. "";
  polls = λ cs. 30;
}

abbrev pub node : Node
node = record {
  settings = record {
    qpu_id = "q";
    qpu_display_name = "";
    native_gate_set = "cz";
    num_qubits = pos 5;
    redis_url = "";
    jwt_private_key = "pem";
    jwt_key_id = "k1";
    webapp_url = "https://coda.example";
    webhook_path = "/webhook";
    connect_path = "/connect";
    heartbeat_path = "/heartbeat";
    vpn_required = true;
    vpn_check_interval_sec = pos 10;
    vpn_probe_targets = [];
    vpn_interface_hint = none;
    node_token = "";
    node_machine_fingerprint = "";
    node_auto_vpn = true;
    node_vpn_profile_path = "/tmp/coda-node.ovpn";
    node_connect_headers = [];
    node_connect_retries = 3;
  };
  calls = [];
}

post_connect-Ended_example :
    Ended cloud "Bearer t" last 3 0 [] (post_connect cloud "Bearer t" last 3 node)
post_connect-Ended_example = post_connect-Ended cloud "Bearer t" last 3 node (omega arith)

has_keys : HasKeys node.settings
has_keys = (λ e. cc, λ e. cc)

connect_settings_keeps_keys_example : HasKeys (connect_settings cloud node).1.settings
connect_settings_keeps_keys_example = connect_settings_keeps_keys cloud node has_keys tt

-- A bundle without a tunnel. The node keeps the key that it has.
abbrev plain : Members
plain = member "qpu_id" (text "q") (
    member "native_gate_set" (text "cz") (
      member "redis_url" (text "redis://r")
        (member "webapp_url" (text "https://coda.example") (member "jwt_key_id" (text "k2") last))))

apply_node_bundle-Complete_example :
    After
      (λ _ t. Complete plain "pem" "k1" t.settings)
      (λ _. Unit)
      (apply_node_bundle cloud plain node)
apply_node_bundle-Complete_example = apply_node_bundle-Complete cloud plain node tt

connect_settings_writes_example :
    After
      (λ _. Persisted)
      (λ t. AllPermitted t.calls)
      (connect_settings (record cloud { post = λ cs. success (ok plain) }) node)
connect_settings_writes_example =
    connect_settings_writes (record cloud { post = λ cs. success (ok plain) }) node tt
