-- ===== src/Vpn/Profile/Accepted.antt =====
-- Which profiles are accepted (`_validate_vpn_profile` of vpn/service.py).
use coda_node.Prelude.{
  ℕ, ◌≡◌, ◌↔◌, refl, String, Bool, true, false, ◌&&◌, Option, none, some, List, [], ◌∷◌, All, codes,
  splitlines, arith,
}
use coda_node.Vpn.Profile.{
  same, dangerous_directives, directive, forbidden, report, validate_vpn_profile, IsHarmless,
  forbidden-none,
}
use coda_node.Vpn.Profile.Words.{Opens, is_word, directive-Opens, Opens-directive}

abbrev pub OpensNone : List ℕ → Type 0
OpensNone line =
    All (λ d. ¬ Opens (codes d) line)
      ("script-security" ∷ "up" ∷ "down" ∷ "client-connect" ∷ "client-disconnect" ∷ "learn-address"
        ∷ "auth-user-pass-verify" ∷ "tls-verify" ∷ "ipchange" ∷ "route-up" ∷ "route-pre-down"
        ∷ "plugin" ∷ [])

-- No line of the profile opens with a directive that would run a command.
abbrev pub Harmless : String → Type 0
Harmless profile = All OpensNone (splitlines (codes profile))

abbrev is_directive : List ℕ → Bool
is_directive [] = false
is_directive (c ∷ d) = is_word (c ∷ d)

abbrev all_directives : List String → Bool
all_directives [] = true
all_directives (d ∷ ds) = is_directive (codes d) && all_directives ds

opens : (d line : List ℕ) → is_directive d ≡ true → Opens d line → same d (directive line) ≡ true
opens [] line k o = absurd cc
opens (c ∷ d) line k o = Opens-directive c d line k o

apart : {b : Bool} → b ≡ true → b ≡ false → ⊥
apart p q = cc

same-Opens :
    (d line : List ℕ) → is_directive d ≡ true → (same d (directive line) ≡ false) ↔ (¬ Opens d line)
same-Opens d line k = (λ h o. apart (opens d line k o) h, λ n. go (same d (directive line)) refl n)
  where
    go : (b : Bool) → same d (directive line) ≡ b → ¬ Opens d line → b ≡ false
    go true e n = absurd (n (directive-Opens d line e))
    go false e n = refl

all-Opens :
    (ds : List String) (line : List ℕ)
    → all_directives ds ≡ true
    → All (λ d. same (codes d) (directive line) ≡ false) ds ↔ All (λ d. ¬ Opens (codes d) line) ds
all-Opens [] line k = (λ h. tt, λ h. tt)
all-Opens (d ∷ ds) line k =
    let (f, g) = same-Opens (codes d) line (ground arith) in
    let (p, q) = all-Opens ds line (ground arith) in (λ h. (f h.0, p h.1), λ h. (g h.0, q h.1))

IsHarmless-OpensNone : (line : List ℕ) → IsHarmless line ↔ OpensNone line
IsHarmless-OpensNone line = all-Opens dangerous_directives line refl

each : (ls : List (List ℕ)) → All IsHarmless ls ↔ All OpensNone ls
each [] = (λ h. tt, λ h. tt)
each (line ∷ ls) =
    let (f, g) = IsHarmless-OpensNone line in
    let (p, q) = each ls in (λ h. (f h.0, p h.1), λ h. (g h.0, q h.1))

report-none : (o : Option (String × ℕ)) → (report o ≡ none) ↔ (o ≡ none)
report-none none = (λ h. refl, λ h. refl)
report-none (some f) = (λ h. absurd cc, λ h. absurd cc)

-- A profile is accepted exactly if none of its lines is, behind spaces, one of the twelve forbidden
-- directives, in any case of its letters, followed by nothing or by a space.
pub validate_vpn_profile_iff :
    (profile : String) → (validate_vpn_profile profile ≡ none) ↔ Harmless profile
unfolding validate_vpn_profile
validate_vpn_profile_iff profile =
    let lines = splitlines (codes profile) in
    let (a, b) = report-none (forbidden 1 lines) in
    let (c, d) = forbidden-none 1 lines in
    let (e, f) = each lines in (λ h. e (c (a h)), λ h. b (d (f h)))
