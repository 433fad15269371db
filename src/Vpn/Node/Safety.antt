-- ===== src/Vpn/Node/Safety.antt =====
-- What provisioning never does: lose its credentials, or write a profile that runs commands
-- (vpn/service.py).
pub mod Setters
pub mod Fetching
pub mod Handshake
pub mod Complete
pub mod Connected
pub mod Written
use coda_node.Prelude.{
  ℕ, zero, suc, ◌≡◌, ◌≢◌, ◌⊎◌, inl, inr, refl, String, Bool, true, false, not, ◌&&◌, Option, none,
  some, List, [], ◌∷◌, if◌then◌else◌, str_eq, ℤ, pos, negsuc, arith, Bool-cases, eq_iff,
}
use coda_node.Exec.{Exn, Result, ok, err, pure, modify, gets, ◌>>=◌, ◌>>◌}
use coda_node.Exec.Keeps.{Keeps, Keeps-bind, Keeps-if, Keeps-modify, Keeps-raise, keeps_rules}
use coda_node.Json.{Json, null, boolean, integer, real, text, array, object, Members, get}
use coda_node.Vpn.Profile.{validate_vpn_profile}
use coda_node.Vpn.Profile.Accepted.{Harmless, validate_vpn_profile_iff}
use coda_node.Vpn.Node.{
  Settings, Call, post, sleep, detect, write, write_config, openvpn, kill, taskkill,
  unlink_pid_file, Killed, signalled, refused, os_error, World, Node, M, perform, node_error,
}
use coda_node.Vpn.Node.Openvpn.{
  find_interface, completed, refuse_or, write_secure_text, write_vpn_profile, start_openvpn,
  check_start, launch, unlink, after_kill, kill_pid, kill_by, kill_openvpn_daemon, poll_tunnel,
  wait_for_tunnel, bring_up,
}
use coda_node.Vpn.Node.Bundle.{install}

abbrev pub HasKeys : Settings → Type 0
HasKeys s = (s.jwt_private_key ≢ "") × (s.jwt_key_id ≢ "")

-- A text was written to the path of the private key, or as a profile that starts no command.
abbrev pub Permitted : String → String → Type 0
Permitted path content =
    (path ≡ "/tmp/coda-private-key")
    ⊎ ((profile : String) × Harmless profile × (content ≡ completed profile))

-- All texts that were written are permitted.
abbrev pub AllPermitted : List Call → Type 0
AllPermitted [] = Unit
AllPermitted (write path content ∷ cs) = Permitted path content × AllPermitted cs
AllPermitted (_ ∷ cs) = AllPermitted cs

module _ (P : Settings → Type 0) where
  abbrev pub Sound : Node → Type 0
  Sound s = P s.settings × AllPermitted s.calls

  abbrev pub K : {A : Type 0} → M A → Type 0
  K = Keeps Sound

  module _ (w : World) where
    pub find_interface-Sound : (h : Option String) → K (find_interface w h)
    unfolding find_interface perform
    find_interface-Sound h = record { at = λ s p. p }

    write_vpn_profile-Sound : (path profile : String) → K (write_vpn_profile w path profile)
    unfolding write_vpn_profile write_secure_text perform
    write_vpn_profile-Sound path profile =
        go (validate_vpn_profile profile) (validate_vpn_profile_iff profile).0
      where
        go :
            (o : Option String)
            → (o ≡ none → Harmless profile)
            → K (refuse_or o (write_secure_text w path (completed profile)))
        go none h = record { at = λ s p. (p.0, (inr (profile, h refl, refl), p.1)) }
        go (some e) h = Keeps-raise _

    poke-Sound :
        (path : String) (answer : List Call → Result (ℤ × String))
        → K (perform (openvpn path) answer)
    unfolding perform
    poke-Sound path answer = record { at = λ s p. p }

    unlink-Sound : (answer : List Call → Result (Unit {0})) → K (perform unlink_pid_file answer)
    unfolding perform
    unlink-Sound answer = record { at = λ s p. p }

    sleep-Sound : (n : ℕ) (answer : List Call → Result (Unit {0})) → K (perform (sleep n) answer)
    unfolding perform
    sleep-Sound n answer = record { at = λ s p. p }

    kill-Sound :
        (b : Bool) (pid : ℤ) (answer : List Call → Result Killed)
        → K (perform (if b then taskkill pid else kill pid) answer)
    unfolding perform
    kill-Sound true pid answer = record { at = λ s p. p }
    kill-Sound false pid answer = record { at = λ s p. p }

    check_start-Sound : (code : ℤ) (stderr : String) → K (check_start w code stderr)
    check_start-Sound (pos zero) stderr = search keeps_rules
    check_start-Sound (pos (suc n)) stderr = search keeps_rules
    check_start-Sound (negsuc n) stderr = search keeps_rules

    launch-Sound : (path : String) (o : Option String) → K (launch w path o)
    launch-Sound path none = search keeps_rules
    launch-Sound path (some bin) =
        Keeps-bind _ _ (poke-Sound path _)
          (λ r. Keeps-if w.is_windows (pure tt) _ (search keeps_rules) (check_start-Sound r.0 r.1))

    start_openvpn-Sound : (path : String) → K (start_openvpn w path)
    unfolding start_openvpn
    start_openvpn-Sound path = search (keeps_rules, launch-Sound)

    after_kill-Sound : (k : Killed) → K (after_kill w k)
    after_kill-Sound signalled = search (keeps_rules, unlink-Sound)
    after_kill-Sound refused = search (keeps_rules, unlink-Sound)
    after_kill-Sound (os_error e) = search keeps_rules

    kill_pid-Sound : (o : Option ℤ) → K (kill_pid w o)
    kill_pid-Sound none = search (keeps_rules, unlink-Sound)
    kill_pid-Sound (some pid) =
        Keeps-bind _ _ (kill-Sound w.is_windows pid _) (λ k. after_kill-Sound k)

    kill_by-Sound : (o : Option (Result String)) → K (kill_by w o)
    kill_by-Sound none = search keeps_rules
    kill_by-Sound (some (err e)) = search keeps_rules
    kill_by-Sound (some (ok t)) = kill_pid-Sound _

    pub kill_openvpn_daemon-Sound : K (kill_openvpn_daemon w)
    unfolding kill_openvpn_daemon
    kill_openvpn_daemon-Sound = search (keeps_rules, kill_by-Sound)

    poll_tunnel-Sound : (hint : Option String) (n : ℕ) → K (poll_tunnel w hint n)
    unfolding poll_tunnel
    poll_tunnel-Sound hint zero = search (keeps_rules, kill_openvpn_daemon-Sound)
    poll_tunnel-Sound hint (suc n) =
        Keeps-bind _ _ (find_interface-Sound hint) λ iface. found iface (poll_tunnel-Sound hint n)
      where
        found :
            (o : Option (List ℕ))
            → K (poll_tunnel w hint n)
            → K (elim o [
              | some name ↦ pure name
              | none ↦ perform (sleep 1) (λ cs. ok tt) >> poll_tunnel w hint n
            ])
        found none k = Keeps-bind _ _ (sleep-Sound 1 _) (λ _. k)
        found (some name) k = search keeps_rules

    pub bring_up-Sound :
        (path : String) (hint : Option String) (o : Option (List ℕ)) → K (bring_up w path hint o)
    unfolding wait_for_tunnel
    bring_up-Sound path hint none = search (keeps_rules, start_openvpn-Sound, poll_tunnel-Sound)
    bring_up-Sound path hint (some iface) = search keeps_rules

    pub install-Sound : (o : Option String) → K (install w o)
    install-Sound none = search keeps_rules
    install-Sound (some profile) =
        search (keeps_rules, write_vpn_profile-Sound, find_interface-Sound, bring_up-Sound) depth 9
