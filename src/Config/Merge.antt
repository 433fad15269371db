-- ===== src/Config/Merge.antt =====
-- How the persisted settings are merged into those that are given (server/config.py).
use coda_node.Prelude.{◌≡◌, refl, String, Bool, true, false, if◌then◌else◌}
use coda_node.Exec.{Result, ok, err}
use coda_node.Json.{Json, object, Members, get}
use coda_node.Config.{
  World, and_then, persisted_keys, collect, with_key, absorb_all, persisted_in,
  load_persisted_runtime_config, merge_persisted_runtime_config, is_given,
}
use coda_node.Config.Dict.{chosen, Unique, get-absorb_all, collected-Unique, with_key-Unique}
use coda_node.Config.Loaded.{All, All-ok, All-and_then, load-All}

persisted_in-Unique : (w : World) (values : Members) → All Unique (persisted_in w values)
persisted_in-Unique w values =
    All-and_then _ (λ key. ok (with_key key (collect persisted_keys values)))
      λ key e. All-ok _ (with_key-Unique key _ (collected-Unique values))

-- What becomes of the given `values`, with a node token or without one and with what is on disk.
abbrev pub Merged : Bool → Members → Result Members → Result Json → Type 0
Merged true values loaded r = r ≡ ok (object values)
Merged false values (err e) r = r ≡ err e
Merged false values (ok persisted) r =
    (merged : Members) × (r ≡ ok (object merged))
    × ((key : String) → get key merged ≡ chosen (get key values) (get key persisted))

-- With a node token, the settings stay what was given, and the disk does not matter. Without one, the
-- merge fails as loading the settings on disk fails; or each key has what it was given, unless that is
-- missing, null, an empty text or an empty list: then it has what is on disk, where the disk has it.
pub merge_persisted_runtime_config_lem :
    (w : World) (values : Members)
    → Merged
        (is_given (get "node_token" values))
        values
        (load_persisted_runtime_config w)
        (merge_persisted_runtime_config w (object values))
unfolding merge_persisted_runtime_config
merge_persisted_runtime_config_lem w values =
    go (is_given (get "node_token" values)) (load_persisted_runtime_config w)
      (load-All w tt (persisted_in-Unique w))
  where
    go :
        (b : Bool) (r : Result Members)
        → All Unique r
        → Merged b values r (
            if b
            then ok (object values)
            else and_then r λ persisted. ok (object (absorb_all values persisted)))
    go true r u = refl
    go false (err e) u = refl
    go false (ok persisted) u = (
      absorb_all values persisted,
      refl,
      λ key. get-absorb_all values persisted key (u.at persisted refl),
    )
