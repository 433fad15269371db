-- ===== src/Config.antt =====
-- The settings that an earlier run left on disk (server/config.py). The file system and `json.loads`
-- are a `World`, since nothing here writes.
pub mod Device
pub mod Dict
pub mod Loaded
pub mod Merge
pub mod Private
use coda_node.Prelude.{
  ℕ, String, ◌<>◌, Bool, true, false, not, Option, none, some, List, [], ◌∷◌, if◌then◌else◌, str_eq,
  ◌==◌, strip_text,
}
use coda_node.Exec.{Exn, other, Result, ok, err}
use coda_node.Json.{Json, null, text, array, object, end, Members, last, member, get}
use coda_node.Vpn.Node.Bundle.{is_truthy, or_else}

pub record World : Type 0 where
  pub is_windows : Bool
  pub exists : String → Bool
  -- `stat.S_IMODE(path.stat().st_mode)`
  pub mode : String → Result ℕ
  pub read : String → Result String
  pub loads : String → Result Json
  -- `str(value)` of a value that is not a text
  pub str : Json → String

abbrev pub and_then : {A B : Type 0} → Result A → (A → Result B) → Result B
and_then (ok a) f = f a
and_then (err e) f = err e

abbrev pub config_path : String
config_path = "/tmp/coda.config"

abbrev pub key_path : String
key_path = "/tmp/coda-private-key"

abbrev pub persisted_keys : List String
persisted_keys =
    "qpu_id" ∷ "qpu_display_name" ∷ "native_gate_set" ∷ "num_qubits" ∷ "jwt_key_id" ∷ "redis_url"
    ∷ "webapp_url" ∷ "connect_path" ∷ "heartbeat_path" ∷ "webhook_path" ∷ "vpn_required"
    ∷ "vpn_check_interval_sec" ∷ "vpn_interface_hint" ∷ "vpn_probe_targets" ∷ "node_auto_vpn"
    ∷ "node_vpn_profile_path" ∷ "node_machine_fingerprint" ∷ []

-- `d[key] = value`
abbrev pub put : String → Json → Members → Members
put key v last = member key v last
put key v (member k u m) = if str_eq k key then member k v m else member k u (put key v m)

abbrev pub keep : String → Option Json → Members → Members
keep key none m = m
keep key (some v) m = member key v m

-- The members of `values` that count, in the order of the keys.
abbrev pub collect : List String → Members → Members
collect [] values = last
collect (key ∷ keys) values = keep key (get key values) (collect keys values)

abbrev pub with_key : String → Members → Members
with_key key persisted =
    if str_eq key "" then persisted else put "jwt_private_key" (text key) persisted

-- `current in ("", None, [])`, or no member at all.
abbrev pub is_vacant : Option Json → Bool
is_vacant none = true
is_vacant (some null) = true
is_vacant (some (text v)) = str_eq v ""
is_vacant (some (array end)) = true
is_vacant (some _) = false

abbrev pub absorb : String → Json → Members → Members
absorb key v merged = if is_vacant (get key merged) then put key v merged else merged

-- The loop over `persisted.items()`.
abbrev pub absorb_all : Members → Members → Members
absorb_all merged last = merged
absorb_all merged (member key v persisted) = absorb_all (absorb key v merged) persisted

abbrev pub object_of : Json → Result Members
object_of (object m) = ok m
object_of _ = err (other (config_path <> " must contain a JSON object"))

abbrev pub is_given : Option Json → Bool
is_given none = false
is_given (some v) = is_truthy v

module _ (w : World) where
  abbrev pub path_of : Json → String
  path_of (text v) = v
  path_of j = w.str j

  abbrev pub checked : String → ℕ → Result String
  checked path mode =
      if mode == 0x180 then w.read path else err (other (path <> " must have permissions 0600"))

  -- _read_secure_text
  unfoldable pub read_secure_text : String → Result String
  read_secure_text path =
      if not (w.exists path)
      then ok ""
      else if w.is_windows
      then w.read path
      else and_then (w.mode path) (checked path)

  abbrev pub persisted_in : Members → Result Members
  persisted_in values =
      and_then
        (read_secure_text (path_of (or_else (get "jwt_private_key_path" values) (text key_path))))
        λ key. ok (with_key key (collect persisted_keys values))

  abbrev pub parsed : String → Result Members
  parsed raw =
      if str_eq (strip_text raw) ""
      then ok last
      else and_then (w.loads raw) λ j. and_then (object_of j) persisted_in

  -- load_persisted_runtime_config
  unfoldable pub load_persisted_runtime_config : Result Members
  load_persisted_runtime_config =
      if not (w.exists config_path) then ok last else and_then (read_secure_text config_path) parsed

  abbrev pub merge_members : Members → Result Json
  merge_members values =
      if is_given (get "node_token" values)
      then ok (object values)
      else and_then load_persisted_runtime_config
          λ persisted. ok (object (absorb_all values persisted))

  -- merge_persisted_runtime_config
  unfoldable pub merge_persisted_runtime_config : Json → Result Json
  merge_persisted_runtime_config (object values) = merge_members values
  merge_persisted_runtime_config j = ok j
