-- ===== src/Config/Device.antt =====
-- The executor that a device file names, and the validators that run behind the fields
-- (server/config.py).
pub mod Ends
pub mod Quoted
pub mod Validators
use coda_node.Prelude.{
  ℕ, String, Bool, true, false, not, ◌&&◌, ◌||◌, Option, none, some, List, [], ◌∷◌, if◌then◌else◌,
  ◌==◌, all, is_empty, is_space, codes, strip, rstrip, splitlines, str_eq,
}
use coda_node.Exec.{Exn, connection, other, Result, ok, err}
use coda_node.Regex.{lit, many, Then}

abbrev pub Text : Type 0
Text = List ℕ

abbrev pub lead_some : ℕ → Option Text → Option Text
lead_some c none = none
lead_some c (some s) = some (c ∷ s)

-- What stands before a comment, inside single or double quotes or outside of both.
abbrev pub before_comment : Bool → Bool → Text → Option Text
before_comment in_single in_double [] = none
before_comment in_single in_double (c ∷ s) =
    let single = c == b'\'' && not in_double in
    let double = c == b'"' && not in_single in
    let rest =
      before_comment (if single then not in_single else in_single)
        (if double then not in_double else in_double) s in
    if c == b'#' && (not in_single && not in_double) then some [] else lead_some c rest

abbrev pub stripped : Text → Option Text → Text
stripped value none = strip value
stripped value (some s) = rstrip s

-- _strip_inline_yaml_comment
unfoldable pub strip_inline_yaml_comment : Text → Text
strip_inline_yaml_comment value = stripped value (before_comment false false value)

-- `(.+?)\s*$`, the shortest group first
unfoldable pub shortest : Then Text
shortest [] = none
shortest (c ∷ s) =
    let rest = shortest s in
    if c == 10 then none else if all is_space s then some (c ∷ []) else lead_some c rest

-- `_EXECUTOR_FACTORY_RE.match`, with its group
unfoldable pub executor_factory_re : Text → Option Text
executor_factory_re =
    lit (codes "executor_factory")
      (many is_space (λ _. lit (codes ":") (many is_space (λ _. shortest))))

-- `value[1:-1]` and `value[-1]`, of what stands behind the first character
abbrev pub without_last : ℕ → Text → Text
without_last c [] = []
without_last c (d ∷ s) = c ∷ without_last d s

abbrev pub last_of : ℕ → Text → ℕ
last_of c [] = c
last_of c (d ∷ s) = last_of d s

abbrev pub inner : Text → Text
inner [] = []
inner (d ∷ s) = without_last d s

abbrev pub unquoted : Text → Text
unquoted [] = []
unquoted (c ∷ s) =
    if not (is_empty s) && (c == last_of c s && (c == b'\'' || c == b'"')) then inner s else c ∷ s

abbrev pub is_indented : Text → Bool
is_indented [] = false
is_indented (c ∷ s) = c == b' ' || c == 9

-- The value on a line.
abbrev pub value_on : Text → Option Text
value_on raw_line = if is_indented raw_line then none else executor_factory_re (strip raw_line)

abbrev pub first_or : Option Text → Text → Text
first_or none more = more
first_or (some group) more = strip (unquoted (strip_inline_yaml_comment group))

-- The loop over the lines.
unfoldable pub factory_in : List Text → Text
factory_in [] = []
factory_in (raw_line ∷ lines) = first_or (value_on raw_line) (factory_in lines)

-- _load_executor_factory_from_device_config, for what reading the file came to
unfoldable pub load_executor_factory_from_device_config : Result Text → Result Text
load_executor_factory_from_device_config (ok content) = ok (factory_in (splitlines content))
load_executor_factory_from_device_config (err (connection e)) = ok []
load_executor_factory_from_device_config (err e) = err e

-- The fields that the validators look at.
pub record Fields : Type 0 where
  pub executor_factory : Text
  pub device_config : Text
  pub node_token : String
  pub jwt_private_key : String
  pub jwt_key_id : String

pub record Files : Type 0 where
  -- whether `site/device.yaml` exists
  pub has_default : Bool
  -- `Path(path).read_text()`; an OSError is a `connection`
  pub read_text : Text → Result Text

module _ (w : Files) where
  -- Settings.apply_default_device_config
  unfoldable pub apply_default_device_config : Fields → Fields
  apply_default_device_config s =
      if is_empty s.device_config && w.has_default
      then record s { device_config = codes "site/device.yaml" }
      else s

  abbrev pub resolved : Fields → Result Text → Result Fields
  resolved s (ok path) = ok (if is_empty path then s else record s { executor_factory = path })
  resolved s (err e) = err e

  -- Settings.apply_device_config_executor_factory
  unfoldable pub apply_device_config_executor_factory : Fields → Result Fields
  apply_device_config_executor_factory s =
      if not (is_empty s.executor_factory) || is_empty s.device_config
      then ok s
      else resolved s (load_executor_factory_from_device_config (w.read_text s.device_config))

  abbrev pub value_error : String → Result Fields
  value_error e = err (other e)

  -- Settings.check_jwt_or_node_token
  unfoldable pub check_jwt_or_node_token : Fields → Result Fields
  check_jwt_or_node_token s =
      if not (str_eq s.node_token "")
      then ok s
      else if str_eq s.jwt_private_key ""
      then value_error
          "CODA_JWT_PRIVATE_KEY must be set (or provide CODA_NODE_TOKEN for auto-provisioning)"
      else if str_eq s.jwt_key_id ""
      then value_error
          "CODA_JWT_KEY_ID must be set (or provide CODA_NODE_TOKEN for auto-provisioning)"
      else ok s

  abbrev pub checked_next : Result Fields → Result Fields
  checked_next (ok s) = check_jwt_or_node_token s
  checked_next (err e) = err e

  -- The validators of Settings that run behind the fields, in their order. An assignment in one of
  -- them runs them all again, which changes nothing more.
  unfoldable pub validate_fields : Fields → Result Fields
  validate_fields s =
      checked_next (apply_device_config_executor_factory (apply_default_device_config s))
