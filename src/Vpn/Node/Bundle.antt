-- ===== src/Vpn/Node/Bundle.antt =====
-- Applying a bundle to the settings (`apply_node_bundle` of vpn/service.py). An assignment of a value
-- of another type raises, as pydantic's `validate_assignment` does.
use coda_node.Prelude.{
  String, ◌<>◌, Bool, true, false, not, ◌&&◌, Option, none, some, List, [], ◌∷◌, if◌then◌else◌,
  str_eq, ℤ, pos, negsuc, ◌==◌,
}
use coda_node.Exec.{other, Result, ok, err, pure, raise, lift, gets, modify, ◌>>=◌, ◌>>◌}
use coda_node.Json.{
  Json, null, boolean, integer, real, text, array, object, Elements, end, element, Members, last,
  member, get,
}
use coda_node.Vpn.Node.{Settings, World, M, node_error}
use coda_node.Vpn.Node.Openvpn.{find_interface, write_vpn_profile, bring_up}

abbrev pub set : (Settings → Settings) → M (Unit {0})
set f = modify (λ s. record s { settings = f s.settings })

-- `isinstance(value, str) and value`
abbrev pub text_of : Option Json → Option String
text_of (some (text v)) = if str_eq v "" then none else some v
text_of _ = none

abbrev pub required_text : String → Option String → Result String
required_text key (some v) = ok v
required_text key none = err (other ("Node response missing valid '" <> (key <> "'")))

-- _as_str
abbrev pub as_str : Members → String → Result String
as_str bundle key = required_text key (text_of (get key bundle))

-- An `int`, which `True` and `False` are too.
abbrev pub int_of : Json → Option ℤ
int_of (integer n) = some n
int_of (boolean b) = some (if b then pos 1 else pos 0)
int_of _ = none

abbrev pub required_int : String → Option ℤ → Result ℤ
required_int key (some n) = ok n
required_int key none = err (other ("Node response has invalid '" <> (key <> "'")))

-- _as_int
abbrev pub as_int : Members → String → ℤ → Result ℤ
as_int bundle key default = elim (get key bundle) [
  | none ↦ ok default
  | some v ↦ required_int key (int_of v)
]

abbrev pub is_zero : ℤ → Bool
is_zero (pos n) = n == 0
is_zero (negsuc n) = false

-- The truth of a value. Both zeros of a float are false.
abbrev pub is_truthy : Json → Bool
is_truthy null = false
is_truthy (boolean b) = b
is_truthy (integer n) = not (is_zero n)
is_truthy (real f) = not (f.bits == 0) && not (f.bits == 0x8000000000000000)
is_truthy (text v) = not (str_eq v "")
is_truthy (array end) = false
is_truthy (array (element j js)) = true
is_truthy (object last) = false
is_truthy (object (member k j m)) = true

abbrev pub or_else : Option Json → Json → Json
or_else none j = j
or_else (some v) j = if is_truthy v then v else j

abbrev pub assign_text : Json → (String → Settings → Settings) → M (Unit {0})
assign_text (text v) f = set (f v)
assign_text _ f = raise (other "Input should be a valid string")

-- `if isinstance(value, str) and value: settings.… = value`
abbrev pub set_some : Option String → (String → Settings → Settings) → M (Unit {0})
set_some none f = pure tt
set_some (some v) f = set (f v)

-- The JWT fields: what the bundle lacks must be there already.
abbrev pub set_or_keep :
    String → Option String → (Settings → String) → (String → Settings → Settings) → M (Unit {0})
set_or_keep key (some v) read f = set (f v)
set_or_keep key none read f = do
  old ← gets (λ s. read s.settings)
  if str_eq old "" then node_error ("Node response missing valid '" <> (key <> "'")) else pure tt

unfoldable pub set_private_key : Option String → M (Unit {0})
set_private_key o =
    set_or_keep "jwt_private_key" o (λ s. s.jwt_private_key)
      (λ v s. record s { jwt_private_key = v })

unfoldable pub set_key_id : Option String → M (Unit {0})
set_key_id o = set_or_keep "jwt_key_id" o (λ s. s.jwt_key_id) (λ v s. record s { jwt_key_id = v })

abbrev pub is_present : Option Json → Bool
is_present none = false
is_present (some v) = true

abbrev pub webapp_key : Members → String
webapp_key bundle = if is_present (get "webapp_url" bundle) then "webapp_url" else "cloud_base_url"

abbrev pub set_required : Option Json → M (Unit {0})
set_required (some (boolean b)) = set (λ s. record s { vpn_required = b })
set_required _ = pure tt

abbrev pub set_hint : Option Json → M (Unit {0})
set_hint none = set (λ s. record s { vpn_interface_hint = none })
set_hint (some null) = set (λ s. record s { vpn_interface_hint = none })
set_hint (some (text v)) = set (λ s. record s { vpn_interface_hint = some v })
set_hint _ = pure tt

abbrev pub set_interval : Option ℤ → M (Unit {0})
set_interval none = pure tt
set_interval (some n) = set (λ s. record s { vpn_check_interval_sec = n })

abbrev pub int_of_some : Option Json → Option ℤ
int_of_some none = none
int_of_some (some v) = int_of v

abbrev pub add : Json → Option (List String) → Option (List String)
add (text v) (some vs) = some (v ∷ vs)
add _ _ = none

-- The elements, if all of them are texts.
abbrev pub texts : Elements → Option (List String)
texts end = some []
texts (element j js) = add j (texts js)

abbrev pub texts_of : Option Json → Option (List String)
texts_of (some (array js)) = texts js
texts_of _ = none

abbrev pub set_targets : Option (List String) → M (Unit {0})
set_targets (some (v ∷ vs)) = set (λ s. record s { vpn_probe_targets = v ∷ vs })
set_targets _ = pure tt

abbrev pub is_missing : Option String → Bool
is_missing none = true
is_missing (some v) = false

-- The identity and the credentials.
unfoldable pub apply_identity : Members → M (Unit {0})
apply_identity bundle = do
  qpu_id ← lift (as_str bundle "qpu_id")
  set (λ s. record s { qpu_id = qpu_id })
  assign_text (or_else (get "qpu_display_name" bundle) (or_else (get "qpu_label" bundle) (text "")))
      (λ v s. record s { qpu_display_name = v })
  native_gate_set ← lift (as_str bundle "native_gate_set")
  set (λ s. record s { native_gate_set = native_gate_set })
  old ← gets (λ s. s.settings.num_qubits)
  num_qubits ← lift (as_int bundle "num_qubits" old)
  set (λ s. record s { num_qubits = num_qubits })
  set_private_key (text_of (get "jwt_private_key" bundle))
  set_key_id (text_of (get "jwt_key_id" bundle))

-- The addresses.
unfoldable pub apply_addresses : Members → M (Unit {0})
apply_addresses bundle = do
  redis_url ← lift (as_str bundle "redis_url")
  set (λ s. record s { redis_url = redis_url })
  webapp_url ← lift (as_str bundle (webapp_key bundle))
  set (λ s. record s { webapp_url = webapp_url })
  set_some (text_of (get "connect_path" bundle)) (λ v s. record s { connect_path = v })
  set_some (text_of (get "heartbeat_path" bundle)) (λ v s. record s { heartbeat_path = v })
  set_some (text_of (get "webhook_path" bundle)) (λ v s. record s { webhook_path = v })

module _ (w : World) where
  abbrev pub install : Option String → M (Unit {0})
  install none = pure tt
  install (some profile) = do
    path ← gets (λ s. s.settings.node_vpn_profile_path)
    write_vpn_profile w path profile
    hint ← gets (λ s. s.settings.vpn_interface_hint)
    iface ← find_interface w hint
    bring_up w path hint iface

  -- The `vpn` part of a bundle.
  unfoldable pub apply_vpn : Members → M (Unit {0})
  apply_vpn vpn = do
    set_required (get "required" vpn)
    set_hint (get "interface_hint" vpn)
    set_interval (int_of_some (get "check_interval_sec" vpn))
    set_targets (texts_of (get "probe_targets" vpn))
    required ← gets (λ s. s.settings.vpn_required)
    if required && is_missing (text_of (get "client_profile_ovpn" vpn))
        then (node_error (
            "VPN is required but node response did not include a VPN profile. "
            <> "Check VPN infrastructure status in the coda admin panel."))
        else (do
          auto ← gets (λ s. s.settings.node_auto_vpn)
          if auto then install (text_of (get "client_profile_ovpn" vpn)) else pure tt)

  abbrev pub apply_vpn_part : Option Json → M (Unit {0})
  apply_vpn_part (some (object vpn)) = apply_vpn vpn
  apply_vpn_part _ = pure tt

  -- apply_node_bundle
  unfoldable pub apply_node_bundle : Members → M (Unit {0})
  apply_node_bundle bundle = do
    apply_identity bundle
    apply_addresses bundle
    apply_vpn_part (get "vpn" bundle)
