-- ===== src/Vpn/Node/Safety/Fetching.antt =====
-- What fetching a bundle and persisting the settings keep (vpn/service.py).
use coda_node.Prelude.{ℕ, zero, suc, ◌+◌, inl, refl, String, Bool, true, false, List}
use coda_node.Exec.{Result}
use coda_node.Exec.Keeps.{Keeps-bind, keeps_rules}
use coda_node.Json.{Members}
use coda_node.Vpn.Node.{Settings, Call, post, write_config, Reply, World, M, perform}
use coda_node.Vpn.Node.Openvpn.{write_secure_text}
use coda_node.Vpn.Node.Connect.{
  Attempt, received, give_up, retry, attempt, pause, proceed, attempts, post_connect,
  resolve_machine_fingerprint, fetch_node_bundle, fetch_reconnect_bundle, ensure_persisted_vpn,
  private_key_path, persist_runtime_config, fetch,
}
use coda_node.Vpn.Node.Safety.{K, find_interface-Sound, bring_up-Sound}
use coda_node.Vpn.Node.Safety.Setters.{set-Sound}

module _ (P : Settings → Type 0)
    (fingerprinted : (s : Settings) (v : String)
      → P s
      → P (record s { node_machine_fingerprint = v })) where
  module _ (w : World) where
    post-Sound :
        (url auth : String) (hs : List (String × String)) (m : Members)
        (answer : List Call → Result Reply)
        → K P (perform (post url auth hs m) answer)
    unfolding perform
    post-Sound url auth hs m answer = record { at = λ s p. p }

    attempt-Sound : (auth : String) (m : Members) → K P (attempt w auth m)
    unfolding attempt
    attempt-Sound auth m = search (keeps_rules, post-Sound)

    pause-Sound : (left n : ℕ) → K P (pause w left n)
    unfolding perform
    pause-Sound zero n = search keeps_rules
    pause-Sound (suc left) n = record { at = λ s p. p }

    proceed-Sound :
        (left n : ℕ) (again : String → M Members) (a : Attempt)
        → ((e : String) → K P (again e))
        → K P (proceed w left n again a)
    proceed-Sound left n again (received b) k = search keeps_rules
    proceed-Sound left n again (give_up e) k = search keeps_rules
    proceed-Sound left n again (retry e) k = Keeps-bind _ _ (pause-Sound left n) (λ _. k e)

    attempts-Sound :
        (auth : String) (m : Members) (total left n : ℕ) (e : String)
        → K P (attempts w auth m total left n e)
    unfolding attempts
    attempts-Sound auth m total zero n e = search keeps_rules
    attempts-Sound auth m total (suc left) n e =
        Keeps-bind _ _ (attempt-Sound auth m)
          (λ a. proceed-Sound left n _ a (attempts-Sound auth m total left (n + 1)))

    post_connect-Sound : (auth : String) (m : Members) (n : ℕ) → K P (post_connect w auth m n)
    unfolding post_connect
    post_connect-Sound auth m n = attempts-Sound auth m n n 0 _

    pub resolve_machine_fingerprint-Sound : K P (resolve_machine_fingerprint w)
    unfolding resolve_machine_fingerprint
    resolve_machine_fingerprint-Sound =
        Keeps-bind _ _ (search keeps_rules) λ old.
          Keeps-bind _ _ (set-Sound P _ (λ s h. fingerprinted s _ h)) (λ _. search keeps_rules)

    pub fetch-Sound : (b : Bool) → K P (fetch w b)
    unfolding fetch_node_bundle fetch_reconnect_bundle ensure_persisted_vpn
    fetch-Sound true =
        Keeps-bind _ _ (search (keeps_rules, find_interface-Sound, bring_up-Sound) depth 10)
          λ _. search (keeps_rules, resolve_machine_fingerprint-Sound, post_connect-Sound) depth 8
    fetch-Sound false =
        search (keeps_rules, resolve_machine_fingerprint-Sound, post_connect-Sound) depth 8

    write_key-Sound : (key : String) → K P (write_secure_text w private_key_path key)
    unfolding write_secure_text perform
    write_key-Sound key = record { at = λ s p. (p.0, (inl refl, p.1)) }

    write_config-Sound : (m : Members) → K P (perform (write_config m) w.write)
    unfolding perform
    write_config-Sound m = record { at = λ s p. p }

    pub persist_runtime_config-Sound : K P (persist_runtime_config w)
    unfolding persist_runtime_config
    persist_runtime_config-Sound = search (keeps_rules, write_key-Sound, write_config-Sound)
