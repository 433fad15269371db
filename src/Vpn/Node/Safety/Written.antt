-- ===== src/Vpn/Node/Safety/Written.antt =====
-- What a handshake writes (`connect_settings` of vpn/service.py).
use coda_node.Prelude.{◌≡◌, inl, refl, String, List, ◌∷◌, str_eq}
use coda_node.Exec.{Result, ok, err, ◌>>=◌}
use coda_node.Exec.Leads.{After, Leads, Leads-adapt, Leads-bind, Leads-gets, Leads-catching}
use coda_node.Vpn.Node.{Settings, Call, write, write_config, World, Node}
use coda_node.Vpn.Node.Openvpn.{write_secure_text}
use coda_node.Vpn.Node.Connect.{persisted, persist_runtime_config, clean_up, connect_settings}
use coda_node.Vpn.Node.Safety.{AllPermitted, Sound}
use coda_node.Vpn.Node.Safety.Complete.{applied-To}
use coda_node.Vpn.Node.Safety.Fetching.{resolve_machine_fingerprint-Sound, fetch-Sound}
use coda_node.Vpn.Node.Safety.Connected.{Keyed, Written, kept, clean_up-Leads}

-- The last two writes are the private key and the runtime config of the settings.
abbrev pub Persisted : Node → Type 0
Persisted t =
    (before : List Call) × (t.calls
      ≡ write_config (persisted "/tmp/coda-private-key" t.settings)
        ∷ write "/tmp/coda-private-key" t.settings.jwt_private_key
        ∷ before)
    × AllPermitted before

module _ (w : World) where
  persist-Leads : Leads Written (λ _. Persisted) Written (persist_runtime_config w)
  unfolding persist_runtime_config write_secure_text coda_node.Vpn.Node.perform ◌>>=◌
  persist-Leads = record {
    at = λ s h.
        go s h (w.write (write "/tmp/coda-private-key" s.settings.jwt_private_key ∷ s.calls)) refl;
  }
    where
      key : Node → Call
      key s = write "/tmp/coda-private-key" s.settings.jwt_private_key

      config : Node → Call
      config s = write_config (persisted "/tmp/coda-private-key" s.settings)

      second :
          (s : Node)
          → Written s
          → (r : Result (Unit {0}))
          → After
              (λ (u : Unit {0}). Persisted)
              Written
              (r, record s { calls = config s ∷ key s ∷ s.calls })
      second s h (ok u) = (s.calls, refl, h)
      second s h (err e) = (inl refl, h)

      go :
          (s : Node)
          → Written s
          → (r : Result (Unit {0})) → w.write (key s ∷ s.calls) ≡ r
          → After (λ (u : Unit {0}). Persisted) Written (persist_runtime_config w s)
      go s h (ok u) e = rw e (second s h (w.write (config s ∷ key s ∷ s.calls)))
      go s h (err x) e = rw e (inl refl, h)

  connect_settings-Persisted :
      (private key_id : String)
      → Leads (Sound (Keyed private key_id)) (λ _. Persisted) Written (connect_settings w)
  unfolding connect_settings
  connect_settings-Persisted private key_id =
      Leads-bind _ _
        (kept (Keyed private key_id) _
          (resolve_machine_fingerprint-Sound (Keyed private key_id) (λ s v h. h) w))
        λ _.
          Leads-bind _ _ (Leads-gets {Q = λ _. Sound (Keyed private key_id)} _ (λ s h. h)) λ token.
            Leads-bind _ _
              (kept (Keyed private key_id) _
                (fetch-Sound (Keyed private key_id) (λ s v h. h) w (str_eq token "")))
              λ bundle.
                Leads-catching _ (clean_up w)
                  (Leads-bind _ _ (applied-To bundle private key_id w).leads
                    (λ _. Leads-adapt _ (λ s h. h.1) (λ s h. h) persist-Leads))
                  (clean_up-Leads w)

-- Whatever the cloud sends, each text that a handshake writes to another path than that of the private
-- key is a VPN profile none of whose lines opens with a forbidden directive, with at most the line
-- `reneg-sec 0` added. A handshake that returns has written last, in this order, the private key of the
-- settings that it leaves to /tmp/coda-private-key, and the runtime config of these settings.
pub connect_settings_writes :
    (w : World) (s : Node)
    → AllPermitted s.calls
    → After (λ _. Persisted) (λ t. AllPermitted t.calls) (connect_settings w s)
connect_settings_writes w s p =
    (connect_settings-Persisted w s.settings.jwt_private_key s.settings.jwt_key_id).at s
      ((refl, refl), p)
