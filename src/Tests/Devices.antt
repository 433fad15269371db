-- ===== src/Tests/Devices.antt =====
-- A device file that names its executor (server/config.py).
use coda_node.Prelude.{
  ◌≡◌, refl, true, [], ◌∷◌, codes, ◌++◌, none, splitlines, strip, lstrip, rstrip,
}
use coda_node.Exec.{ok}
use coda_node.Config.Device.{
  Text, Fields, Files, shortest, executor_factory_re, strip_inline_yaml_comment, factory_in,
  load_executor_factory_from_device_config, apply_default_device_config,
  apply_device_config_executor_factory, check_jwt_or_node_token, validate_fields,
}
use coda_node.Config.Device.Quoted.{comment, line, load_executor_factory-line}
use coda_node.Config.Device.Validators.{Resolved, validate_fields-Resolved}

abbrev factory : Text
factory = codes "lab#1:make"

abbrev device : Text
device =
    codes "name: lab\n  executor_factory: x\nexecutor_factory: \"lab#1:make\" # ours\nqubits: 5\n"

device_lines :
    splitlines device
    ≡ (codes "name: lab" ∷ codes "  executor_factory: x" ∷ [])
      ++ line factory (codes " # ours") ∷ codes "qubits: 5" ∷ []
unfolding splitlines
device_lines = refl

no_factory : executor_factory_re (strip (codes "name: lab")) ≡ none
unfolding executor_factory_re strip lstrip rstrip
no_factory = refl

solid : strip factory ≡ factory
unfolding strip lstrip rstrip
solid = refl

load_executor_factory-line_example :
    load_executor_factory_from_device_config (ok device) ≡ ok factory
load_executor_factory-line_example =
    load_executor_factory-line device (codes "name: lab" ∷ codes "  executor_factory: x" ∷ [])
      (codes "qubits: 5" ∷ []) factory (codes " # ours") device_lines (no_factory, (refl, tt))
      (refl, (refl, (refl, (refl, (refl, (refl, (refl, (refl, (refl, (refl, tt))))))))))
      (refl, (refl, (refl, (refl, (refl, (refl, (refl, (refl, (refl, (refl, tt)))))))))) solid
      (comment (codes " our") b's' (refl, (refl, (refl, (refl, tt)))) refl)

abbrev files : Files
files = record { has_default = true; read_text = λ path. ok device }

abbrev given : Fields
given = record {
  executor_factory = [];
  device_config = [];
  node_token = "";
  jwt_private_key = "pem";
  jwt_key_id = "k1";
}

abbrev found : Fields
found = record given { executor_factory = factory; device_config = codes "site/device.yaml" }

validated : validate_fields files given ≡ ok found
unfolding validate_fields apply_default_device_config apply_device_config_executor_factory
    check_jwt_or_node_token load_executor_factory_from_device_config factory_in executor_factory_re
    shortest strip_inline_yaml_comment splitlines strip lstrip rstrip
validated = refl

validate_fields-Resolved_example : Resolved files given found
validate_fields-Resolved_example = validate_fields-Resolved files given validated
