-- ===== src/Vpn/Node/Openvpn.antt =====
-- The managed OpenVPN daemon (vpn/service.py).
use coda_node.Prelude.{
  ℕ, zero, suc, String, ◌<>◌, Bool, true, false, Option, none, some, if◌then◌else◌, str_eq, ℤ, pos,
  codes, includes, parse_int, rstrip_text, strip_text,
}
use coda_node.Exec.{connection, Result, ok, err, pure, raise, gets, ◌>>=◌, ◌>>◌}
use coda_node.Vpn.Interface.{Text, detect_tun_interface}
use coda_node.Vpn.Profile.{validate_vpn_profile}
use coda_node.Vpn.Node.{
  sleep, detect, write, openvpn, kill, taskkill, unlink_pid_file, Killed, signalled, refused,
  os_error, World, M, perform, node_error,
}

abbrev pub codes_of : Option String → Option Text
codes_of none = none
codes_of (some s) = some (codes s)

-- `profile.rstrip() + "\\nreneg-sec 0\\n"` where the profile does not set it
abbrev pub completed : String → String
completed profile =
    if includes (codes "reneg-sec") (codes profile)
    then profile
    else rstrip_text profile <> "\nreneg-sec 0\n"

abbrev pub refuse_or : Option String → M (Unit {0}) → M (Unit {0})
refuse_or none m = m
refuse_or (some e) m = node_error e

module _ (w : World) where
  -- detect_tun_interface
  unfoldable pub find_interface : Option String → M (Option Text)
  find_interface hint =
      perform (detect hint) (λ cs. ok (detect_tun_interface (w.shell cs) (codes_of hint)))

  -- _write_secure_text
  unfoldable pub write_secure_text : String → String → M (Unit {0})
  write_secure_text path content = perform (write path content) w.write

  -- _write_vpn_profile
  unfoldable pub write_vpn_profile : String → String → M (Unit {0})
  write_vpn_profile path profile =
      refuse_or (validate_vpn_profile profile) (write_secure_text path (completed profile))

  -- `result.stderr.strip() or 'unknown openvpn error'`
  abbrev pub error_or_unknown : String → String
  error_or_unknown stderr =
      let e = strip_text stderr in if str_eq e "" then "unknown openvpn error" else e

  abbrev pub check_start : ℤ → String → M (Unit {0})
  check_start (pos zero) stderr = pure tt
  check_start code stderr = node_error ("Failed to start OpenVPN: " <> error_or_unknown stderr)

  abbrev pub launch : String → Option String → M (Unit {0})
  launch path none =
      node_error "openvpn binary not found. Install OpenVPN or disable node auto VPN."
  launch path (some bin) = do
    (code, stderr) ← perform (openvpn path) w.openvpn
    if w.is_windows then pure tt else check_start code stderr

  -- _start_openvpn
  unfoldable pub start_openvpn : String → M (Unit {0})
  start_openvpn path = do bin ← gets (λ s. w.openvpn_binary s.calls); launch path bin

  abbrev pub unlink : M (Unit {0})
  unlink = perform unlink_pid_file (λ cs. ok tt)

  abbrev pub after_kill : Killed → M Bool
  after_kill signalled = do unlink; pure true
  after_kill refused = do unlink; pure false
  after_kill (os_error e) = raise (connection e)

  abbrev pub kill_pid : Option ℤ → M Bool
  kill_pid none = do unlink; pure false
  kill_pid (some pid) = do
    r ← perform (if w.is_windows then taskkill pid else kill pid) (λ cs. ok (w.kill cs))
    after_kill r

  abbrev pub kill_by : Option (Result String) → M Bool
  kill_by none = pure false
  kill_by (some (err e)) = raise e
  kill_by (some (ok pid_text)) = kill_pid (parse_int (codes pid_text))

  -- kill_openvpn_daemon
  unfoldable pub kill_openvpn_daemon : M Bool
  kill_openvpn_daemon = do file ← gets (λ s. w.pid_file s.calls); kill_by file

  abbrev pub tail_text : String → String
  tail_text detail = if str_eq detail "" then "" else "\nOpenVPN log tail:\n" <> detail

  -- The loop, where `n` more polls fit into the time-out of 30 seconds.
  unfoldable pub poll_tunnel : Option String → ℕ → M Text
  poll_tunnel hint zero = do
    detail ← gets (λ s. w.log_tail s.calls)
    kill_openvpn_daemon
    node_error (
        "OpenVPN daemon started but no VPN tunnel interface appeared within 30.0s. "
        <> ("Check firewall rules and VPN endpoint connectivity." <> tail_text detail))
  poll_tunnel hint (suc n) =
      let rest = poll_tunnel hint n in
      let again = perform (sleep 1) (λ cs. ok tt) >> rest in
      do iface ← find_interface hint; elim iface [ some name ↦ pure name | none ↦ again ]

  -- _wait_for_tunnel
  unfoldable pub wait_for_tunnel : Option String → M Text
  wait_for_tunnel hint = do n ← gets (λ s. w.polls s.calls); poll_tunnel hint n

  -- Unless a tunnel is up: start OpenVPN and wait for one.
  abbrev pub bring_up : String → Option String → Option Text → M (Unit {0})
  bring_up path hint (some iface) = pure tt
  bring_up path hint none = do start_openvpn path; wait_for_tunnel hint; pure tt
