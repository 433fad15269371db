-- ===== src/Vpn/Profile/Words.antt =====
-- When a line of a profile opens with a directive, told without the code that reads it
-- (`_validate_vpn_profile` of vpn/service.py).
use coda_node.Prelude.{
  ℕ, ◌+◌, ◌≤◌, ◌<◌, ◌≡◌, ◌⊎◌, refl, sym, ap, ◌∙◌, subst, Bool, true, false, not, ◌&&◌, List, [],
  ◌∷◌, ◌++◌, if◌then◌else◌, All, starts_with, is_space, lstrip, rstrip, strip, lower, arith, leb,
  ltb, ◌||◌,
}
use coda_node.Vpn.Profile.{same, word, directive}

-- A character of a lower-case word, or that letter in upper case.
abbrev pub UpToCase : ℕ → ℕ → Type 0
UpToCase c x = (x ≡ c) ⊎ ((65 ≤ x) × (x ≤ 90) × (x + 32 ≡ c))

abbrev pub SameWord : List ℕ → List ℕ → Type 0
SameWord [] [] = Unit
SameWord (c ∷ d) (x ∷ h) = UpToCase c x × SameWord d h
SameWord _ _ = ⊥

abbrev pub Spaces : List ℕ → Type 0
Spaces s = All (λ c. is_space c ≡ true) s

-- Nothing, or something that a space stands in front of.
abbrev pub IsApart : List ℕ → Type 0
IsApart [] = Unit
IsApart (c ∷ s) = is_space c ≡ true

-- The line is spaces, the word in any case of its letters, and then nothing or a space.
abbrev pub Opens : List ℕ → List ℕ → Type 0
Opens d line =
    (spaces : List ℕ) × (head : List ℕ) × (rest : List ℕ) × (line ≡ spaces ++ (head ++ rest))
    × Spaces spaces
    × SameWord d head
    × IsApart rest

-- `str.lower` of one character.
abbrev low : ℕ → ℕ
low x = if leb 65 x && leb x 90 then x + 32 else x

low-UpToCase : (c x : ℕ) → low x ≡ c → UpToCase c x
low-UpToCase c x h = ground arith

UpToCase-low : (c x : ℕ) → (c < 65) ⊎ (90 < c) → UpToCase c x → low x ≡ c
UpToCase-low c x p h = ground arith

-- A letter in upper case is no space.
UpToCase-space : (c x : ℕ) → is_space c ≡ false → UpToCase c x → is_space x ≡ false
UpToCase-space c x h u = ground arith

same-eq : (a b : List ℕ) → same a b ≡ true → a ≡ b
same-eq [] [] h = refl
same-eq [] (y ∷ b) h = absurd cc
same-eq (x ∷ a) [] h = absurd cc
same-eq (x ∷ a) (y ∷ b) h =
    let p : x ≡ y = ground arith in
    let q : a ≡ b = same-eq a b (ground arith) in ap (λ z. z ∷ a) p ∙ ap (λ t. y ∷ t) q

starts_with-same : (a : List ℕ) → starts_with a a ≡ true
starts_with-same [] = refl
starts_with-same (x ∷ a) = let h = starts_with-same a in ground arith

eq-same : (a b : List ℕ) → a ≡ b → same a b ≡ true
eq-same a b e = subst (λ t. same a t ≡ true) e (rw (starts_with-same a) refl)

uncons : {x y : ℕ} {s t : List ℕ} → x ∷ s ≡ y ∷ t → (x ≡ y) × (s ≡ t)
uncons e = (cc, cc)

lower-SameWord : (d h : List ℕ) → lower h ≡ d → SameWord d h
lower-SameWord [] [] e = tt
lower-SameWord [] (x ∷ h) e = absurd cc
lower-SameWord (c ∷ d) [] e = absurd cc
lower-SameWord (c ∷ d) (x ∷ h) e =
    let (p, q) = uncons e in (low-UpToCase c x p, lower-SameWord d h q)

-- A character of a directive: no space, and no letter in upper case.
abbrev IsPlain : ℕ → Type 0
IsPlain c = (is_space c ≡ false) × ((c < 65) ⊎ (90 < c))

SameWord-lower : (d h : List ℕ) → All IsPlain d → SameWord d h → lower h ≡ d
SameWord-lower [] [] p w = refl
SameWord-lower [] (x ∷ h) p w = absurd w
SameWord-lower (c ∷ d) [] p w = absurd w
SameWord-lower (c ∷ d) (x ∷ h) p w =
    ap (λ z. z ∷ lower h) (UpToCase-low c x p.0.1 w.0)
    ∙ ap (λ t. c ∷ t) (SameWord-lower d h p.1 w.1)

SameWord-Solid : (d h : List ℕ) → All IsPlain d → SameWord d h → All (λ x. is_space x ≡ false) h
SameWord-Solid [] [] p w = tt
SameWord-Solid [] (x ∷ h) p w = absurd w
SameWord-Solid (c ∷ d) [] p w = absurd w
SameWord-Solid (c ∷ d) (x ∷ h) p w = (UpToCase-space c x p.0.0 w.0, SameWord-Solid d h p.1 w.1)

lstrip-splits : (s : List ℕ) → (pre : List ℕ) × (s ≡ pre ++ lstrip s) × Spaces pre
unfolding lstrip
lstrip-splits [] = ([], refl, tt)
lstrip-splits (c ∷ s) = go (is_space c) refl (lstrip-splits s)
  where
    go :
        (b : Bool)
        → is_space c ≡ b
        → (pre : List ℕ) × (s ≡ pre ++ lstrip s) × Spaces pre
        → (pre : List ℕ) × (c ∷ s ≡ pre ++ (if b then lstrip s else c ∷ s)) × Spaces pre
    go true e (pre, q, h) = (c ∷ pre, ap (λ t. c ∷ t) q, (e, h))
    go false e (pre, q, h) = ([], refl, tt)

word-splits : (s : List ℕ) → (rest : List ℕ) × (s ≡ word s ++ rest) × IsApart rest
word-splits [] = ([], refl, tt)
word-splits (c ∷ s) = go (is_space c) refl (word-splits s)
  where
    go :
        (b : Bool)
        → is_space c ≡ b
        → (rest : List ℕ) × (s ≡ word s ++ rest) × IsApart rest
        → (rest : List ℕ) × (c ∷ s ≡ (if b then [] else c ∷ word s) ++ rest) × IsApart rest
    go true e (rest, q, h) = (c ∷ s, refl, e)
    go false e (rest, q, h) = (rest, ap (λ t. c ∷ t) q, h)

-- Stripping at the end keeps the first word.
word-rstrip : (s : List ℕ) → word (rstrip s) ≡ word s
unfolding rstrip
word-rstrip [] = refl
word-rstrip (c ∷ s) = go (rstrip s) (word-rstrip s)
  where
    kept :
        (b : Bool) → is_space c ≡ b → word (if b then [] else c ∷ []) ≡ (if b then [] else c ∷ [])
    kept true e = refl
    kept false e = rw e refl

    nothing :
        (t : List ℕ)
        → [] ≡ t
        → (if is_space c then [] else c ∷ []) ≡ (if is_space c then [] else c ∷ t)
    nothing t e = ap (λ t. if is_space c then [] else c ∷ t) e

    go :
        (r : List ℕ)
        → word r ≡ word s
        → word (elim r [ [] ↦ if is_space c then [] else c ∷ [] | d ∷ t ↦ c ∷ d ∷ t ])
          ≡ (if is_space c then [] else c ∷ word s)
    go [] e = kept (is_space c) refl ∙ nothing (word s) e
    go (d ∷ t) e = ap (λ u. if is_space c then [] else c ∷ u) e

directive-word : (line : List ℕ) → directive line ≡ lower (word (lstrip line))
unfolding strip
directive-word line = ap lower (word-rstrip (lstrip line))

lstrip-Spaces : (pre s : List ℕ) → Spaces pre → lstrip (pre ++ s) ≡ lstrip s
unfolding lstrip
lstrip-Spaces [] s h = refl
lstrip-Spaces (c ∷ pre) s h = rw h.0 (lstrip-Spaces pre s h.1)

lstrip-Solid : (x : ℕ) (s : List ℕ) → is_space x ≡ false → lstrip (x ∷ s) ≡ x ∷ s
unfolding lstrip
lstrip-Solid x s e = rw e refl

word-Solid :
    (h rest : List ℕ) → All (λ x. is_space x ≡ false) h → IsApart rest → word (h ++ rest) ≡ h
word-Solid [] [] p a = refl
word-Solid [] (c ∷ rest) p a = rw a refl
word-Solid (x ∷ h) rest p a = rw p.0 (ap (λ t. x ∷ t) (word-Solid h rest p.1 a))

-- The directives are words of plain characters.
abbrev pub is_word : List ℕ → Bool
is_word [] = true
is_word (c ∷ d) = not (is_space c) && ((ltb c 65 || ltb 90 c) && is_word d)

is_word-IsPlain : (d : List ℕ) → is_word d ≡ true → All IsPlain d
is_word-IsPlain [] h = tt
is_word-IsPlain (c ∷ d) h = ((ground arith, ground arith), is_word-IsPlain d (ground arith))

pub directive-Opens : (d line : List ℕ) → same d (directive line) ≡ true → Opens d line
directive-Opens d line h =
    let (pre, p, spaces) = lstrip-splits line in
    let (rest, q, apart) = word-splits (lstrip line) in
    (
      pre,
      word (lstrip line),
      rest,
      p ∙ ap (λ t. pre ++ t) q,
      spaces,
      lower-SameWord d (word (lstrip line))
          (sym (directive-word line) ∙ sym (same-eq d (directive line) h)),
      apart,
    )

pub Opens-directive :
    (c : ℕ) (d line : List ℕ)
    → is_word (c ∷ d) ≡ true
    → Opens (c ∷ d) line
    → same (c ∷ d) (directive line) ≡ true
Opens-directive c d line k (pre, [], rest, p, spaces, w, apart) = absurd w
Opens-directive c d line k (pre, x ∷ h, rest, p, spaces, w, apart) =
    let plain = is_word-IsPlain (c ∷ d) k in
    let solid = SameWord-Solid (c ∷ d) (x ∷ h) plain w in
    eq-same (c ∷ d) (directive line) (
      sym (SameWord-lower (c ∷ d) (x ∷ h) plain w)
      ∙ ap lower (sym (word-Solid (x ∷ h) rest solid apart))
      ∙ ap (λ t. lower (word t)) (sym (lstrip-Solid x (h ++ rest) solid.0))
      ∙ ap (λ t. lower (word t)) (sym (lstrip-Spaces pre (x ∷ (h ++ rest)) spaces))
      ∙ ap (λ t. lower (word (lstrip t))) (sym p)
      ∙ sym (directive-word line))
