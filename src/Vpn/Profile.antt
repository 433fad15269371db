-- ===== src/Vpn/Profile.antt =====
-- Which OpenVPN profiles are written (vpn/service.py).
pub mod Words
pub mod Accepted
use coda_node.Prelude.{
  ℕ, ◌+◌, ◌≡◌, ◌↔◌, inl, inr, refl, String, ◌<>◌, Bool, false, ◌&&◌, Option, none, some, List, [],
  ◌∷◌, if◌then◌else◌, All, codes, decimal, starts_with, is_space, strip, splitlines, lower, arith,
  Bool-cases,
}

-- `text == word` for lists of characters
abbrev pub same : List ℕ → List ℕ → Bool
same a b = starts_with a b && starts_with b a

-- _DANGEROUS_OVPN_DIRECTIVES
abbrev pub dangerous_directives : List String
dangerous_directives =
    "script-security" ∷ "up" ∷ "down" ∷ "client-connect" ∷ "client-disconnect" ∷ "learn-address"
    ∷ "auth-user-pass-verify" ∷ "tls-verify" ∷ "ipchange" ∷ "route-up" ∷ "route-pre-down" ∷ "plugin"
    ∷ []

-- The first word of a text that has no space in front.
abbrev pub word : List ℕ → List ℕ
word [] = []
word (c ∷ s) = if is_space c then [] else c ∷ word s

-- `line.strip().split()[0].lower() if line.strip() else ""`
abbrev pub directive : List ℕ → List ℕ
directive line = lower (word (strip line))

-- The directive of the set that `d` is.
abbrev pub find : List String → List ℕ → Option String
find [] d = none
find (x ∷ xs) d = if same (codes x) d then some x else find xs d

unfoldable pub dangerous : List ℕ → Option String
dangerous d = find dangerous_directives d

abbrev pub forbid : ℕ → Option String → Option (String × ℕ) → Option (String × ℕ)
forbid n (some d) rest = some (d, n)
forbid n none rest = rest

-- The first line with a forbidden directive, from line `n` on.
unfoldable pub forbidden : ℕ → List (List ℕ) → Option (String × ℕ)
forbidden n [] = none
forbidden n (line ∷ lines) =
    let rest = forbidden (n + 1) lines in forbid n (dangerous (directive line)) rest

abbrev pub refusal : String × ℕ → String
refusal (d, n) =
    "Refusing OpenVPN profile: forbidden directive '" <> (d <> ("' on line " <> decimal n))

abbrev pub report : Option (String × ℕ) → Option String
report none = none
report (some f) = some (refusal f)

-- _validate_vpn_profile: the message of its error, if it raises one.
unfoldable pub validate_vpn_profile : String → Option String
unfolding forbidden
validate_vpn_profile profile = report (forbidden 1 (splitlines (codes profile)))

-- No directive of the set is the line's.
abbrev pub IsHarmless : List ℕ → Type 0
IsHarmless line = All (λ d. same (codes d) (directive line) ≡ false) dangerous_directives

find-none :
    (ds : List String) (d : List ℕ) → (find ds d ≡ none) ↔ All (λ x. same (codes x) d ≡ false) ds
find-none [] d = (λ h. tt, λ h. refl)
find-none (x ∷ xs) d = elim (Bool-cases (same (codes x) d)) [
  | inl e ↦ (λ h. absurd (ground arith), λ h. absurd (cc))
  | inr e ↦ (λ h. (e, (find-none xs d).0 (ground arith)), λ h. rw h.0 ((find-none xs d).1 h.1))
]

dangerous-none : (line : List ℕ) → (dangerous (directive line) ≡ none) ↔ IsHarmless line
unfolding dangerous
dangerous-none line = find-none dangerous_directives (directive line)

pub forbidden-none : (n : ℕ) (ls : List (List ℕ)) → (forbidden n ls ≡ none) ↔ All IsHarmless ls
unfolding forbidden
forbidden-none n [] = (λ h. tt, λ h. refl)
forbidden-none n (line ∷ ls) =
    go (dangerous (directive line)) (dangerous-none line) (forbidden (n + 1) ls)
      (forbidden-none (n + 1) ls)
  where
    go :
        (o : Option String)
        → (o ≡ none) ↔ IsHarmless line
        → (rest : Option (String × ℕ)) → (rest ≡ none) ↔ All IsHarmless ls
        → (forbid n o rest ≡ none) ↔ (IsHarmless line × All IsHarmless ls)
    go none (h, k) rest (f, g) = (λ p. (h refl, f p), λ p. g p.1)
    go (some d) (h, k) rest (f, g) = (λ p. absurd (cc), λ p. absurd (clash (k p.0)))
      where
        clash : some d ≡ none → ⊥
        clash p = cc
