-- ===== src/Vpn/Node/Safety/Handshake.antt =====
-- What a handshake with the cloud never does (vpn/service.py).
use coda_node.Prelude.{◌≡◌, ◌≢◌, refl, String, Bool, true, Option, some}
use coda_node.Exec.{Exn}
use coda_node.Exec.Keeps.{Keeps-bind, keeps_rules}
use coda_node.Json.{Json, Members, get}
use coda_node.Vpn.Node.{Settings, World, Node}
use coda_node.Vpn.Node.Bundle.{
  set_private_key, set_key_id, apply_vpn_part, apply_identity, apply_addresses, apply_node_bundle,
}
use coda_node.Vpn.Node.Connect.{
  resolve_machine_fingerprint, persist_runtime_config, clean_up, fetch, connect_settings,
}
use coda_node.Vpn.Node.Safety.{HasKeys, AllPermitted, K, kill_openvpn_daemon-Sound}
use coda_node.Vpn.Node.Safety.Setters.{
  text_of-nonempty, IsStable, set-Sound, assign_text-Sound, set_some-Sound, set_or_keep-Sound,
  apply_vpn_part-Sound,
}
use coda_node.Vpn.Node.Safety.Fetching.{
  resolve_machine_fingerprint-Sound, fetch-Sound, persist_runtime_config-Sound,
}

abbrev KeysIf : Bool → Settings → Type 0
KeysIf keys s = keys ≡ true → HasKeys s

KeysIf-IsStable : (keys : Bool) → IsStable (KeysIf keys)
KeysIf-IsStable keys = record {
  required = λ s b h. h;
  hint = λ s o h. h;
  interval = λ s n h. h;
  targets = λ s ts h. h;
}

module _ (keys : Bool) where
  set_private_key-Sound :
      (o : Option String)
      → ((v : String) → o ≡ some v → v ≢ "")
      → K (KeysIf keys) (set_private_key o)
  unfolding set_private_key
  set_private_key-Sound o n =
      set_or_keep-Sound (KeysIf keys) "jwt_private_key" o (λ s. s.jwt_private_key)
        (λ v s. record s { jwt_private_key = v }) (λ v e s h k. (n v e, (h k).1))

  set_key_id-Sound :
      (o : Option String) → ((v : String) → o ≡ some v → v ≢ "") → K (KeysIf keys) (set_key_id o)
  unfolding set_key_id
  set_key_id-Sound o n =
      set_or_keep-Sound (KeysIf keys) "jwt_key_id" o (λ s. s.jwt_key_id)
        (λ v s. record s { jwt_key_id = v }) (λ v e s h k. ((h k).0, n v e))

  apply_identity-Sound : (bundle : Members) → K (KeysIf keys) (apply_identity bundle)
  unfolding apply_identity
  apply_identity-Sound bundle = Keeps-bind _ _ (search keeps_rules) λ qpu_id.
      Keeps-bind _ _ (set-Sound (KeysIf keys) _ (λ s h. h)) λ _.
        Keeps-bind _ _ (assign_text-Sound (KeysIf keys) _ _ (λ v s h. h)) λ _.
          Keeps-bind _ _ (search keeps_rules) λ gates.
            Keeps-bind _ _ (set-Sound (KeysIf keys) _ (λ s h. h)) λ _.
              Keeps-bind _ _ (search keeps_rules) λ old. Keeps-bind _ _ (search keeps_rules) λ n.
                Keeps-bind _ _ (set-Sound (KeysIf keys) _ (λ s h. h)) λ _.
                  Keeps-bind _ _
                    (set_private_key-Sound _ (λ v. text_of-nonempty (get "jwt_private_key" bundle)))
                    λ _. set_key_id-Sound _ (λ v. text_of-nonempty (get "jwt_key_id" bundle))

  apply_addresses-Sound : (bundle : Members) → K (KeysIf keys) (apply_addresses bundle)
  unfolding apply_addresses
  apply_addresses-Sound bundle = Keeps-bind _ _ (search keeps_rules) λ url.
      Keeps-bind _ _ (set-Sound (KeysIf keys) _ (λ s h. h)) λ _.
        Keeps-bind _ _ (search keeps_rules) λ webapp.
          Keeps-bind _ _ (set-Sound (KeysIf keys) _ (λ s h. h)) λ _.
            Keeps-bind _ _ (set_some-Sound (KeysIf keys) _ _ (λ v s h. h)) λ _.
              Keeps-bind _ _ (set_some-Sound (KeysIf keys) _ _ (λ v s h. h))
                (λ _. set_some-Sound (KeysIf keys) _ _ (λ v s h. h))

  module _ (w : World) where
    vpn_part-Sound : (o : Option Json) → K (KeysIf keys) (apply_vpn_part w o)
    vpn_part-Sound = apply_vpn_part-Sound (KeysIf keys) (KeysIf-IsStable keys) w

    apply_node_bundle-Sound : (bundle : Members) → K (KeysIf keys) (apply_node_bundle w bundle)
    unfolding apply_node_bundle
    apply_node_bundle-Sound bundle =
        search (keeps_rules, apply_identity-Sound, apply_addresses-Sound, vpn_part-Sound)

    renamed :
        (s : Settings) (v : String)
        → KeysIf keys s
        → KeysIf keys (record s { node_machine_fingerprint = v })
    renamed s v h = h

    clean_up-Sound : (e : Exn) → K (KeysIf keys) (clean_up w e)
    unfolding clean_up
    clean_up-Sound e = search (keeps_rules, kill_openvpn_daemon-Sound)

    resolved-Sound : K (KeysIf keys) (resolve_machine_fingerprint w)
    resolved-Sound = resolve_machine_fingerprint-Sound (KeysIf keys) renamed w

    fetched-Sound : (b : Bool) → K (KeysIf keys) (fetch w b)
    fetched-Sound = fetch-Sound (KeysIf keys) renamed w

    persisted-Sound : K (KeysIf keys) (persist_runtime_config w)
    persisted-Sound = persist_runtime_config-Sound (KeysIf keys) renamed w

    connect_settings-Sound : K (KeysIf keys) (connect_settings w)
    unfolding connect_settings
    connect_settings-Sound =
        search
          (
            keeps_rules, resolved-Sound, fetched-Sound, apply_node_bundle-Sound, persisted-Sound,
            clean_up-Sound,
          )
          depth 9

-- A node that has its JWT credentials has them after a handshake too, whatever the cloud sends and
-- wherever the handshake fails.
pub connect_settings_keeps_keys :
    (w : World) (s : Node)
    → HasKeys s.settings
    → AllPermitted s.calls
    → HasKeys (connect_settings w s).1.settings
connect_settings_keeps_keys w s h p = ((connect_settings-Sound true w).at s ((λ k. h), p)).0 refl
