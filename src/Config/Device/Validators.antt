-- ===== src/Config/Device/Validators.antt =====
-- What settings that pass their validators have (server/config.py).
use coda_node.Prelude.{
  ◌≡◌, ◌≢◌, ◌⊎◌, inl, inr, refl, sym, ap, ◌∙◌, subst, Bool, true, false, not, ◌&&◌, ◌||◌, [], ◌∷◌,
  if◌then◌else◌, is_empty, codes, str_eq,
}
use coda_node.Exec.{Exn, Result, ok, err}
use coda_node.Vpn.Node.Safety.Setters.{differs}
use coda_node.Config.Device.{
  Text, Fields, Files, load_executor_factory_from_device_config, apply_default_device_config,
  resolved, apply_device_config_executor_factory, check_jwt_or_node_token, checked_next,
  validate_fields, value_error,
}

-- The settings have a node token or both JWT credentials.
abbrev pub Credentials : Fields → Type 0
Credentials s = (s.node_token ≢ "") ⊎ ((s.jwt_private_key ≢ "") × (s.jwt_key_id ≢ ""))

abbrev pub SameCredentials : Fields → Fields → Type 0
SameCredentials s t =
    (t.node_token ≡ s.node_token)
    × (t.jwt_private_key ≡ s.jwt_private_key)
    × (t.jwt_key_id ≡ s.jwt_key_id)

ok-injective : {a b : Fields} → ok a ≡ ok b → a ≡ b
ok-injective e = cc

refused : {e : Exn} {a : Fields} → err e ≡ ok a → ⊥
refused e = cc

module _ (w : Files) where
  -- The executor that was set; without one and without a device file none; and what the device file
  -- names where none was set.
  abbrev pub FactoryOf : Fields → Fields → Type 0
  FactoryOf s t =
      ((s.executor_factory ≢ []) × (t.executor_factory ≡ s.executor_factory))
      ⊎ ((s.executor_factory ≡ []) × (t.device_config ≡ []) × (t.executor_factory ≡ []))
      ⊎ ((s.executor_factory ≡ [])
          × (t.device_config ≢ [])
          × (load_executor_factory_from_device_config (w.read_text t.device_config)
              ≡ ok t.executor_factory))

  -- The device file that was set; without one the default one where it exists, and none otherwise.
  abbrev pub DeviceOf : Fields → Fields → Type 0
  DeviceOf s t =
      ((s.device_config ≢ []) × (t.device_config ≡ s.device_config))
      ⊎ ((s.device_config ≡ []) × (w.has_default ≡ false) × (t.device_config ≡ []))
      ⊎ ((s.device_config ≡ [])
          × (w.has_default ≡ true)
          × (t.device_config ≡ codes "site/device.yaml"))

  check-Credentials :
      (s : Fields) {t : Fields} → check_jwt_or_node_token w s ≡ ok t → (s ≡ t) × Credentials s
  unfolding check_jwt_or_node_token
  check-Credentials s {t} h =
      go (str_eq s.node_token "") (str_eq s.jwt_private_key "") (str_eq s.jwt_key_id "") refl refl
        refl h
    where
      go :
          (a b c : Bool)
          → str_eq s.node_token "" ≡ a
          → str_eq s.jwt_private_key "" ≡ b
          → str_eq s.jwt_key_id "" ≡ c
          → (if not a
              then ok s
              else if b
              then value_error w
                  "CODA_JWT_PRIVATE_KEY must be set (or provide CODA_NODE_TOKEN for auto-provisioning)"
              else if c
              then value_error w
                  "CODA_JWT_KEY_ID must be set (or provide CODA_NODE_TOKEN for auto-provisioning)"
              else ok s)
            ≡ ok t
          → (s ≡ t) × Credentials s
      go false b c p q r e = (ok-injective e, inl (differs _ p))
      go true true c p q r e = absurd (refused e)
      go true false true p q r e = absurd (refused e)
      go true false false p q r e = (ok-injective e, inr (differs _ q, differs _ r))

  nil : (s : Text) → is_empty s ≡ true → s ≡ []
  nil [] h = refl
  nil (c ∷ s) h = absurd (cc)

  -- The second validator changes the executor alone.
  abbrev Second : Fields → Fields → Type 0
  Second s t = SameCredentials s t × FactoryOf s t × (t.device_config ≡ s.device_config)

  some_text : (s : Text) → is_empty s ≡ false → s ≢ []
  some_text [] h = absurd cc
  some_text (c ∷ s) h = λ e. cc

  from_file :
      (s : Fields) (r : Result Text) {t : Fields}
      → s.executor_factory ≡ []
      → s.device_config ≢ []
      → load_executor_factory_from_device_config (w.read_text s.device_config) ≡ r
      → resolved w s r ≡ ok t
      → Second s t
  from_file s (err e) n d k h = absurd (refused h)
  from_file s (ok []) n d k h =
      subst (Second s) (ok-injective h)
        ((refl, refl, refl), inr (inr (n, d, k ∙ ap ok (sym n))), refl)
  from_file s (ok (c ∷ p)) n d k h =
      subst (Second s) (ok-injective h) ((refl, refl, refl), inr (inr (n, d, k)), refl)

  device_factory-Second :
      (s : Fields) {t : Fields} → apply_device_config_executor_factory w s ≡ ok t → Second s t
  unfolding apply_device_config_executor_factory
  device_factory-Second s {t} h =
      go (is_empty s.executor_factory) (is_empty s.device_config) refl refl h
    where
      go :
          (a b : Bool)
          → is_empty s.executor_factory ≡ a
          → is_empty s.device_config ≡ b
          → (if not a || b
              then ok s
              else resolved w s
                  (load_executor_factory_from_device_config (w.read_text s.device_config)))
            ≡ ok t
          → Second s t
      go false b p q e =
          subst (Second s) (ok-injective e)
            ((refl, refl, refl), inl (some_text s.executor_factory p, refl), refl)
      go true true p q e =
          let n = nil s.executor_factory p in
          subst (Second s) (ok-injective e)
            ((refl, refl, refl), inr (inl (n, nil s.device_config q, n)), refl)
      go true false p q e =
          from_file s _ (nil s.executor_factory p) (some_text s.device_config q) refl e

  default-DeviceOf :
      (s : Fields)
      → let t = apply_default_device_config w s in
        SameCredentials s t × DeviceOf s t × (t.executor_factory ≡ s.executor_factory)
  unfolding apply_default_device_config
  default-DeviceOf s = go (is_empty s.device_config) w.has_default refl refl
    where
      go :
          (a b : Bool)
          → is_empty s.device_config ≡ a
          → w.has_default ≡ b
          → let t : Fields =
              if a && b then record s { device_config = codes "site/device.yaml" } else s in
            SameCredentials s t × DeviceOf s t × (t.executor_factory ≡ s.executor_factory)
      go true true p q = ((refl, refl, refl), inr (inr (nil s.device_config p, q, refl)), refl)
      go true false p q =
          let n = nil s.device_config p in ((refl, refl, refl), inr (inl (n, q, n)), refl)
      go false b p q = ((refl, refl, refl), inl (some_text s.device_config p, refl), refl)

  -- What settings that pass have of those that were given.
  abbrev pub Resolved : Fields → Fields → Type 0
  Resolved s t = Credentials t × SameCredentials s t × FactoryOf s t × DeviceOf s t

  moved-SameCredentials :
      (s a b : Fields) → SameCredentials s a → SameCredentials a b → SameCredentials s b
  moved-SameCredentials s a b h k = (k.0 ∙ h.0, k.1 ∙ h.1, k.2 ∙ h.2)

  moved-FactoryOf :
      (s a b : Fields) → a.executor_factory ≡ s.executor_factory → FactoryOf a b → FactoryOf s b
  moved-FactoryOf s a b e (inl h) = inl ((λ n. h.0 (e ∙ n)), h.1 ∙ e)
  moved-FactoryOf s a b e (inr (inl h)) = inr (inl (sym e ∙ h.0, h.1, h.2))
  moved-FactoryOf s a b e (inr (inr h)) = inr (inr (sym e ∙ h.0, h.1, h.2))

  moved-DeviceOf :
      (s a b : Fields) → b.device_config ≡ a.device_config → DeviceOf s a → DeviceOf s b
  moved-DeviceOf s a b e (inl h) = inl (h.0, e ∙ h.1)
  moved-DeviceOf s a b e (inr (inl h)) = inr (inl (h.0, h.1, e ∙ h.2))
  moved-DeviceOf s a b e (inr (inr h)) = inr (inr (h.0, h.1, e ∙ h.2))

  composed :
      (s a b : Fields)
      → SameCredentials s a × DeviceOf s a × (a.executor_factory ≡ s.executor_factory)
      → Second a b
      → Credentials b
      → Resolved s b
  composed s a b h k c = (
    c,
    moved-SameCredentials s a b h.0 k.0,
    moved-FactoryOf s a b h.2 k.1,
    moved-DeviceOf s a b k.2 h.1,
  )

-- Settings that pass the validators have a node token or both JWT credentials, and these are the
-- ones that were given. A device file that was given is kept; where none was given, it is the default
-- one if that exists, and none if not. An executor that was given is kept; where none was given, it
-- is none without a device file, and what the device file names, if any, with one.
pub validate_fields-Resolved :
    (w : Files) (s : Fields) {t : Fields} → validate_fields w s ≡ ok t → Resolved w s t
unfolding validate_fields
validate_fields-Resolved w s {t} h = go (apply_device_config_executor_factory w a) refl h
  where
    a : Fields
    a = apply_default_device_config w s

    go :
        (r : Result Fields)
        → apply_device_config_executor_factory w a ≡ r
        → checked_next w r ≡ ok t
        → Resolved w s t
    go (err e) p h = absurd (refused h)
    go (ok b) p h =
        let c = check-Credentials w b h in
        subst (Resolved w s) c.0
          (composed w s a b (default-DeviceOf w s) (device_factory-Second w a p) c.1)
