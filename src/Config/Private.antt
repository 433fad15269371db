-- ===== src/Config/Private.antt =====
-- Where a private key comes from that is loaded from disk (server/config.py).
use coda_node.Prelude.{
  ℕ, ◌≡◌, refl, sym, ap, ◌∙◌, String, Bool, true, false, not, none, some, if◌then◌else◌, str_eq,
  eq_refl, arith, Bool-cases, inl, inr, ◌==◌,
}
use coda_node.Exec.{Exn, Result, ok, err}
use coda_node.Json.{Json, text, Members, get}
use coda_node.Vpn.Node.Bundle.{or_else}
use coda_node.Config.{
  World, and_then, checked, persisted_keys, put, collect, with_key, persisted_in, path_of, key_path,
  load_persisted_runtime_config, read_secure_text,
}
use coda_node.Config.Dict.{get-put, get_key-collect}
use coda_node.Config.Loaded.{All, All-ok, All-and_then, load-All}

-- A value that is the text of a file that only its owner may read and write.
abbrev pub Secret : World → Json → Type 0
Secret w v =
    (path : String) × (key : String) × (v ≡ text key)
    × (w.mode path ≡ ok 0x180)
    × (w.read path ≡ ok key)

-- The private key among the settings, if there is one, is secret.
abbrev KeyIsSecret : World → Members → Type 0
KeyIsSecret w p = (v : Json) → get "jwt_private_key" p ≡ some v → Secret w v

clash : {A : Type 0} {e : Exn} {a : A} → err e ≡ ok a → ⊥
clash h = cc

injective : {A : Type 0} {a b : A} → ok a ≡ ok b → a ≡ b
injective h = cc

nonempty : (key : String) → str_eq key "" ≡ false → "" ≡ key → ⊥
nonempty key n h = absurd (apart (sym n ∙ ap (λ t. str_eq t "") (sym h) ∙ eq_refl ""))
  where
    apart : false ≡ true → ⊥
    apart e = cc

-- The mode is the right one if the test says so.
passed :
    (m : ℕ) (r : Result String) (x : Exn) {key : String}
    → (if m == 0x180 then r else err x) ≡ ok key
    → (m ≡ 0x180) × (r ≡ ok key)
passed m r x {key} h = elim (Bool-cases (m == 0x180)) [
  | inl e ↦ (ground arith, sym (ap (λ b. if b then r else err x) e) ∙ h)
  | inr e ↦ absurd (clash (sym (ap (λ b. if b then r else err x) e) ∙ h))
]

module _ (w : World) (posix : w.is_windows ≡ false) where
  owned :
      (there windows : Bool) (m : Result ℕ) (path : String) {key : String}
      → windows ≡ false
      → (if not there then ok "" else if windows then w.read path else and_then m (checked w path))
        ≡ ok key
      → str_eq key "" ≡ false
      → (m ≡ ok 0x180) × (w.read path ≡ ok key)
  owned false windows m path {key} p h n = absurd (nonempty key n (injective h))
  owned true true m path p h n = absurd (cc)
  owned true false (err e) path p h n = absurd (clash h)
  owned true false (ok m) path p h n =
      let parts = passed m (w.read path) _ h in (ap ok parts.0, parts.1)

  read_secure_text-owned :
      (path : String) {key : String}
      → read_secure_text w path ≡ ok key
      → str_eq key "" ≡ false
      → (w.mode path ≡ ok 0x180) × (w.read path ≡ ok key)
  unfolding read_secure_text
  read_secure_text-owned path h n = owned (w.exists path) w.is_windows (w.mode path) path posix h n

  with_key-KeyIsSecret :
      (path : String) (key : String) (values : Members)
      → read_secure_text w path ≡ ok key
      → KeyIsSecret w (with_key key (collect persisted_keys values))
  with_key-KeyIsSecret path key values h v = go (str_eq key "") refl
    where
      go :
          (b : Bool)
          → str_eq key "" ≡ b
          → get "jwt_private_key" (
              if b
              then collect persisted_keys values
              else put "jwt_private_key" (text key) (collect persisted_keys values))
            ≡ some v
          → Secret w v
      go true e g = absurd (none_some (sym (get_key-collect values) ∙ g))
        where
          none_some : none ≡ some v → ⊥
          none_some h = cc
      go false e g =
          let parts = read_secure_text-owned path h e in
          (
            path,
            key,
            sym (
                unwrap (
                  sym (
                    get-put "jwt_private_key" (text key) (collect persisted_keys values)
                      "jwt_private_key")
                  ∙ g)),
            parts.0,
            parts.1,
          )
        where
          unwrap : {a b : Json} → some a ≡ some b → a ≡ b
          unwrap h = cc

  persisted_in-KeyIsSecret : (values : Members) → All (KeyIsSecret w) (persisted_in w values)
  persisted_in-KeyIsSecret values =
      All-and_then
        (read_secure_text w
          (path_of w (or_else (get "jwt_private_key_path" values) (text key_path))))
        _ λ key e. All-ok _ (with_key-KeyIsSecret _ key values e)

-- On POSIX, a private key that is loaded from disk is the text of a file with the permissions 0600,
-- whatever the config file says its path or its settings are.
pub load_persisted_runtime_config-Secret :
    (w : World) (p : Members) (v : Json)
    → w.is_windows ≡ false
    → load_persisted_runtime_config w ≡ ok p
    → get "jwt_private_key" p ≡ some v
    → Secret w v
load_persisted_runtime_config-Secret w p v posix h g =
    (load-All w (λ v e. absurd (empty e)) (persisted_in-KeyIsSecret w posix)).at p h v g
  where
    empty : {v : Json} → none ≡ some v → ⊥
    empty e = cc
