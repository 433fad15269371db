-- ===== src/Tests/Settings.antt =====
-- The settings that a restarted node finds on disk (server/config.py).
use coda_node.Prelude.{◌≡◌, refl, true, false, rstrip_text, lstrip_text}
use coda_node.Exec.{ok}
use coda_node.Json.{text, object, Members, last, member, get}
use coda_node.Config.{
  World, is_given, load_persisted_runtime_config, merge_persisted_runtime_config, read_secure_text,
}
use coda_node.Config.Private.{Secret, load_persisted_runtime_config-Secret}
use coda_node.Config.Merge.{Merged, merge_persisted_runtime_config_lem}

abbrev stored : Members
stored =
    member "redis_url" (text "redis://old")
      (member "qpu_id" (text "q") (member "webapp_token" (text "t") last))

-- Both files are there, for their owner only.
abbrev disk : World
disk = record {
  is_windows = false;
  exists = λ path. true;
  mode = λ path. ok 0x180;
  read = λ path. ok "pem";
  loads = λ t. ok (object stored);
  str = λ j. "";
}

abbrev given : Members
given = member "redis_url" (text "redis://new") (member "qpu_id" (text "") last)

merged :
    merge_persisted_runtime_config disk (object given)
    ≡ ok (
        object (
          member "redis_url"
            (text "redis://new")
            (member "qpu_id" (text "q") (member "jwt_private_key" (text "pem") last))))
unfolding merge_persisted_runtime_config load_persisted_runtime_config read_secure_text rstrip_text
    lstrip_text
merged = refl

merge_persisted_runtime_config_lem_example :
    Merged
      (is_given (get "node_token" given))
      given
      (load_persisted_runtime_config disk)
      (merge_persisted_runtime_config disk (object given))
merge_persisted_runtime_config_lem_example = merge_persisted_runtime_config_lem disk given

abbrev loaded : Members
loaded =
    member "qpu_id" (text "q")
      (member "redis_url" (text "redis://old") (member "jwt_private_key" (text "pem") last))

loads_key : load_persisted_runtime_config disk ≡ ok loaded
unfolding load_persisted_runtime_config read_secure_text rstrip_text lstrip_text
loads_key = refl

load_persisted_runtime_config-Secret_example : Secret disk (text "pem")
load_persisted_runtime_config-Secret_example =
    load_persisted_runtime_config-Secret disk loaded (text "pem") refl loads_key refl
