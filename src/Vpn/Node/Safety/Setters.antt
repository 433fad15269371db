-- ===== src/Vpn/Node/Safety/Setters.antt =====
-- What setters keep, and the `vpn` part of a bundle (vpn/service.py).
use coda_node.Prelude.{
  subst, ◌≡◌, ◌≢◌, inl, inr, refl, ap, sym, ◌∙◌, String, Bool, true, false, Option, none, some,
  List, [], ◌∷◌, str_eq, ℤ, arith, Bool-cases, eq_refl,
}
use coda_node.Exec.Keeps.{Keeps-modify, Keeps-raise, keeps_rules}
use coda_node.Json.{Json, null, boolean, text, object, Members}
use coda_node.Vpn.Node.{Settings, World}
use coda_node.Vpn.Node.Bundle.{
  set, text_of, assign_text, set_some, set_or_keep, set_required, set_hint, set_interval,
  set_targets, apply_vpn, apply_vpn_part,
}
use coda_node.Vpn.Node.Safety.{K, install-Sound}

pub differs : (v : String) → str_eq v "" ≡ false → v ≢ ""
differs v h e = absurd (clash (sym h ∙ ap (λ u. str_eq u "") e ∙ eq_refl ""))
  where
    clash : false ≡ true → ⊥
    clash p = cc

kept : (u : String) → str_eq u "" ≡ false → text_of (some (text u)) ≡ some u
kept u e = rw e refl

injective : {u v : String} → some u ≡ some v → u ≡ v
injective p = cc

-- What counts as a text is not empty.
pub text_of-nonempty : (o : Option Json) {v : String} → text_of o ≡ some v → v ≢ ""
text_of-nonempty (some (text u)) h = elim (Bool-cases (str_eq u "")) [
  | inl e ↦ absurd (ground arith)
  | inr e ↦ subst (λ t. t ≢ "") (injective (sym (kept u e) ∙ h)) (differs u e)
]
text_of-nonempty none h = absurd (cc)
text_of-nonempty (some _) h = absurd (cc)

-- What the `vpn` part of a bundle sets does not matter to `P`.
pub record IsStable (P : Settings → Type 0) : Type 0 where
  pub required : (s : Settings) (b : Bool) → P s → P (record s { vpn_required = b })
  pub hint : (s : Settings) (h : Option String) → P s → P (record s { vpn_interface_hint = h })
  pub interval : (s : Settings) (n : ℤ) → P s → P (record s { vpn_check_interval_sec = n })
  pub targets : (s : Settings) (ts : List String) → P s → P (record s { vpn_probe_targets = ts })

module _ (P : Settings → Type 0) where
  -- A setter that keeps `P`.
  abbrev pub IsSafe : (Settings → Settings) → Type 0
  IsSafe f = (s : Settings) → P s → P (f s)

  pub set-Sound : (f : Settings → Settings) → IsSafe f → K P (set f)
  set-Sound f h = Keeps-modify _ (λ s p. (h s.settings p.0, p.1))

  pub assign_text-Sound :
      (j : Json) (f : String → Settings → Settings)
      → ((v : String) → IsSafe (f v))
      → K P (assign_text j f)
  assign_text-Sound (text v) f h = set-Sound (f v) (h v)
  assign_text-Sound _ f h = Keeps-raise _

  pub set_some-Sound :
      (o : Option String) (f : String → Settings → Settings)
      → ((v : String) → IsSafe (f v))
      → K P (set_some o f)
  set_some-Sound none f h = search keeps_rules
  set_some-Sound (some v) f h = set-Sound (f v) (h v)

  pub set_or_keep-Sound :
      (key : String) (o : Option String) (read : Settings → String)
      (f : String → Settings → Settings)
      → ((v : String) → o ≡ some v → IsSafe (f v))
      → K P (set_or_keep key o read f)
  set_or_keep-Sound key none read f h = search keeps_rules
  set_or_keep-Sound key (some v) read f h = set-Sound (f v) (h v refl)

  module _ (stable : IsStable P) (w : World) where
    set_required-Sound : (o : Option Json) → K P (set_required o)
    set_required-Sound (some (boolean b)) = set-Sound _ (λ s h. stable.required s b h)
    set_required-Sound (some _) = search keeps_rules
    set_required-Sound none = search keeps_rules

    set_hint-Sound : (o : Option Json) → K P (set_hint o)
    set_hint-Sound none = set-Sound _ (λ s h. stable.hint s none h)
    set_hint-Sound (some null) = set-Sound _ (λ s h. stable.hint s none h)
    set_hint-Sound (some (text v)) = set-Sound _ (λ s h. stable.hint s (some v) h)
    set_hint-Sound (some _) = search keeps_rules

    set_interval-Sound : (o : Option ℤ) → K P (set_interval o)
    set_interval-Sound none = search keeps_rules
    set_interval-Sound (some n) = set-Sound _ (λ s h. stable.interval s n h)

    set_targets-Sound : (o : Option (List String)) → K P (set_targets o)
    set_targets-Sound none = search keeps_rules
    set_targets-Sound (some []) = search keeps_rules
    set_targets-Sound (some (v ∷ vs)) = set-Sound _ (λ s h. stable.targets s (v ∷ vs) h)

    apply_vpn-Sound : (vpn : Members) → K P (apply_vpn w vpn)
    unfolding apply_vpn
    apply_vpn-Sound vpn =
        search
          (
            keeps_rules, set_required-Sound, set_hint-Sound, set_interval-Sound, set_targets-Sound,
            install-Sound,
          )
          depth 12

    pub apply_vpn_part-Sound : (o : Option Json) → K P (apply_vpn_part w o)
    apply_vpn_part-Sound (some (object vpn)) = apply_vpn-Sound vpn
    apply_vpn_part-Sound (some _) = search keeps_rules
    apply_vpn_part-Sound none = search keeps_rules
