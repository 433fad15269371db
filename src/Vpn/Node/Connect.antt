-- ===== src/Vpn/Node/Connect.antt =====
-- The handshake with the cloud (vpn/service.py).
use coda_node.Prelude.{
  ℕ, zero, suc, ◌+◌, ◌^◌, String, ◌<>◌, Bool, true, false, not, Option, none, some, List, [], ◌∷◌,
  if◌then◌else◌, str_eq, ltb, insert, take_chars, decimal,
}
use coda_node.Exec.{Exn, other, Result, ok, err, pure, raise, lift, gets, ◌>>=◌, ◌>>◌, catching}
use coda_node.Json.{
  Json, null, boolean, integer, text, array, Elements, end, element, Members, last, member,
}
use coda_node.Vpn.Node.{
  Settings, post, sleep, write_config, Reply, success, status_error, transport_error, failure,
  World, M, perform, node_error,
}
use coda_node.Vpn.Node.Openvpn.{find_interface, bring_up, kill_openvpn_daemon, write_secure_text}
use coda_node.Vpn.Node.Bundle.{set, apply_node_bundle}

-- Settings.connect_url
abbrev pub connect_url : Settings → String
connect_url s = s.webapp_url <> s.connect_path

abbrev merge : List (String × String) → List (String × String) → List (String × String)
merge d [] = d
merge d ((k, v) ∷ more) = merge (insert k v d) more

-- What one attempt came to: the bundle, an exception that ends the loop, or one to try again after.
pub data Attempt : Type 0 where
  received : Members → Attempt
  give_up : Exn → Attempt
  retry : String → Attempt

abbrev received_or : Result Members → Attempt
received_or (ok bundle) = received bundle
received_or (err e) = give_up e

abbrev pub classify : (ℕ → String) → Reply → Attempt
classify status_text (success body) = received_or body
classify status_text (status_error code body) =
    if ltb code 500
    then give_up
        (other ("Node request failed (" <> (decimal code <> ("): " <> take_chars 400 body))))
    else retry (status_text code)
classify status_text (transport_error e) = retry e
classify status_text (failure e) = give_up e

abbrev elements : List String → Elements
elements [] = end
elements (s ∷ ss) = element (text s) (elements ss)

abbrev nullable : Option String → Json
nullable none = null
nullable (some s) = text s

-- The runtime config.
abbrev pub persisted : String → Settings → Members
persisted key_path s = member "qpu_id" (text s.qpu_id) (
    member "qpu_display_name" (text s.qpu_display_name) (
      member "native_gate_set" (text s.native_gate_set) (
        member "num_qubits" (integer s.num_qubits) (
          member "jwt_key_id" (text s.jwt_key_id) (
            member "jwt_private_key_path" (text key_path) (
              member "redis_url" (text s.redis_url) (
                member "webapp_url" (text s.webapp_url) (
                  member "connect_path" (text s.connect_path) (
                    member "heartbeat_path" (text s.heartbeat_path) (
                      member "webhook_path" (text s.webhook_path) (
                        member "vpn_required" (boolean s.vpn_required) (
                          member "vpn_check_interval_sec" (integer s.vpn_check_interval_sec) (
                            member "vpn_interface_hint" (nullable s.vpn_interface_hint) (
                              member "vpn_probe_targets" (array (elements s.vpn_probe_targets)) (
                                member "node_auto_vpn" (boolean s.node_auto_vpn) (
                                  member "node_vpn_profile_path" (text s.node_vpn_profile_path) (
                                    member "node_machine_fingerprint"
                                      (text s.node_machine_fingerprint) last)))))))))))))))))

-- PERSISTED_PRIVATE_KEY_PATH, below the directory for temporary files
abbrev pub private_key_path : String
private_key_path = "/tmp/coda-private-key"

abbrev pub failed_after : ℕ → String → String
failed_after max_retries e =
    "Node connect failed after " <> (decimal max_retries <> (" attempts: " <> e))

module _ (w : World) where
  abbrev pub headers : Settings → String → List (String × String)
  headers s auth = merge (("Authorization", auth) ∷ []) s.node_connect_headers

  -- The POST of one attempt.
  unfoldable pub attempt : String → Members → M Attempt
  attempt auth payload = do
    s ← gets (λ n. n.settings)
    reply ← perform (post (connect_url s) auth (headers s auth) payload) (λ cs. ok (w.post cs))
    pure (classify w.status_text reply)

  -- The pause behind attempt `n + 1`, unless it was the last one.
  abbrev pub pause : ℕ → ℕ → M (Unit {0})
  pause zero n = pure tt
  pause (suc left) n = perform (sleep (2 ^ n)) (λ cs. ok tt)

  -- What follows attempt `n + 1` with `left` more attempts: `again` is the loop from there on.
  abbrev pub proceed : ℕ → ℕ → (String → M Members) → Attempt → M Members
  proceed left n again (received bundle) = pure bundle
  proceed left n again (give_up e) = raise e
  proceed left n again (retry e) = do pause left n; again e

  -- The loop, with `left` attempts from attempt `n + 1` on, where `e` is the last exception.
  unfoldable pub attempts : String → Members → ℕ → ℕ → ℕ → String → M Members
  attempts auth payload total zero n e = node_error (failed_after total e)
  attempts auth payload total (suc left) n e =
      let again = attempts auth payload total left (n + 1) in
      do a ← attempt auth payload; proceed left n again a

  -- _post_connect
  unfoldable pub post_connect : String → Members → ℕ → M Members
  post_connect auth payload max_retries = attempts auth payload max_retries max_retries 0 "None"

  -- _resolve_machine_fingerprint
  unfoldable pub resolve_machine_fingerprint : M String
  resolve_machine_fingerprint = do
    old ← gets (λ s. s.settings.node_machine_fingerprint)
    let fingerprint = if str_eq old "" then w.machine_fingerprint else old
    set (λ s. record s { node_machine_fingerprint = fingerprint })
    pure fingerprint

  abbrev with_connectivity : Option Json → Members → Members
  with_connectivity none m = m
  with_connectivity (some j) m = member "connectivity" j m

  abbrev payload_of : String → Members
  payload_of fingerprint =
      member "machine_fingerprint" (text fingerprint) (with_connectivity w.connectivity last)

  -- fetch_node_bundle
  unfoldable pub fetch_node_bundle : M Members
  fetch_node_bundle = do
    s ← gets (λ n. n.settings)
    if str_eq s.node_token "" then node_error "node token is empty" else do
      fingerprint ← resolve_machine_fingerprint
      post_connect ("Bearer " <> s.node_token) (payload_of fingerprint) s.node_connect_retries

  -- fetch_reconnect_bundle
  unfoldable pub fetch_reconnect_bundle : M Members
  fetch_reconnect_bundle = do
    fingerprint ← resolve_machine_fingerprint
    signed ← gets (λ s. w.sign_token s.calls)
    token ← lift signed
    retries ← gets (λ s. s.settings.node_connect_retries)
    post_connect ("Bearer " <> token) (payload_of fingerprint) retries

  -- ensure_persisted_vpn
  unfoldable pub ensure_persisted_vpn : M (Unit {0})
  ensure_persisted_vpn = do
    config ← gets (λ s. w.config_exists s.calls)
    s ← gets (λ n. n.settings)
    profile ← gets (λ n. w.profile_exists n.calls)
    if not config
        then pure tt
        else if not s.node_auto_vpn
        then pure tt
        else if not profile
        then (if s.vpn_required
            then node_error
                "Persisted VPN profile not found. Re-run node provisioning with a new token."
            else pure tt)
        else (do
          iface ← find_interface w s.vpn_interface_hint
          bring_up w s.node_vpn_profile_path s.vpn_interface_hint iface)

  -- _persist_runtime_config
  unfoldable pub persist_runtime_config : M (Unit {0})
  persist_runtime_config = do
    s ← gets (λ n. n.settings)
    write_secure_text w private_key_path s.jwt_private_key
    perform (write_config (persisted private_key_path s)) w.write

  -- The `except` clause of `connect_settings`.
  unfoldable pub clean_up : Exn → M (Unit {0})
  clean_up e = do
    token ← gets (λ s. s.settings.node_token)
    if str_eq token "" then raise e else (do kill_openvpn_daemon w; raise e)

  abbrev pub fetch : Bool → M Members
  fetch true = do ensure_persisted_vpn; fetch_reconnect_bundle
  fetch false = fetch_node_bundle

  -- connect_settings
  unfoldable pub connect_settings : M (Unit {0})
  connect_settings = do
    resolve_machine_fingerprint
    token ← gets (λ s. s.settings.node_token)
    bundle ← fetch (str_eq token "")
    catching (do apply_node_bundle w bundle; persist_runtime_config) clean_up
