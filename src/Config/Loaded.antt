-- ===== src/Config/Loaded.antt =====
-- What holds of the settings on disk (server/config.py).
use coda_node.Prelude.{
  ◌≡◌, refl, String, Bool, true, false, not, if◌then◌else◌, str_eq, subst, strip_text,
}
use coda_node.Exec.{Exn, Result, ok, err}
use coda_node.Json.{Members, last}
use coda_node.Config.{
  World, and_then, persisted_in, parsed, load_persisted_runtime_config, object_of, config_path,
  read_secure_text,
}

-- What holds of a result, if there is one.
pub record All {A : Type 0} (P : A → Type 0) (r : Result A) : Type 0 where
  pub at : (a : A) → r ≡ ok a → P a

pub All-ok : {A : Type 0} {P : A → Type 0} (a : A) → P a → All P (ok a)
All-ok {A} {P} a p = record { at = λ b h. subst P (inj h) p }
  where
    inj : {a b : A} → ok a ≡ ok b → a ≡ b
    inj h = cc

pub All-and_then :
    {A B : Type 0} {P : B → Type 0} (r : Result A) (f : A → Result B)
    → ((a : A) → r ≡ ok a → All P (f a))
    → All P (and_then r f)
All-and_then {A} {B} (ok a) f h = h a refl
All-and_then {A} {B} (err e) f h = record { at = λ a h. absurd (clash h) }
  where
    clash : {e : Exn} {b : B} → err e ≡ ok b → ⊥
    clash h = cc

All-if :
    {A : Type 0} {P : A → Type 0} (b : Bool) (r s : Result A)
    → All P r
    → All P s
    → All P (if b then r else s)
All-if true r s h k = h
All-if false r s h k = k

module _ {P : Members → Type 0} (w : World) (p : P last)
    (k : (values : Members) → All P (persisted_in w values)) where
  parsed-All : (raw : String) → All P (parsed w raw)
  parsed-All raw = All-if (str_eq (strip_text raw) "") _ _ (All-ok last p) (
      All-and_then (w.loads raw) (λ j. and_then (object_of j) (persisted_in w))
        (λ j e. All-and_then (object_of j) (persisted_in w) (λ values e. k values)))

  -- Nothing is loaded, or what the key file and an object in the config file give.
  pub load-All : All P (load_persisted_runtime_config w)
  unfolding load_persisted_runtime_config
  load-All =
      All-if (not (w.exists config_path)) _ _ (All-ok last p)
        (All-and_then (read_secure_text w config_path) (parsed w) λ raw e. parsed-All raw)
