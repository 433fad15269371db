-- ===== src/Cli/Paths.antt =====
-- Which paths a reset lists (`_read_reset_paths` of server/cli.py).
use coda_node.Prelude.{
  ◌≡◌, refl, sym, ap, ◌∙◌, String, Bool, true, false, not, ◌&&◌, ◌||◌, List, [], ◌∷◌, if◌then◌else◌,
  str_eq, eq_iff, contains,
}
use coda_node.Cli.{leb_path, place, sort, without}

-- `str_eq` decides equality, so it can be moved along.
moved : (q p f : String) → str_eq f p ≡ true → str_eq q f ≡ str_eq q p
moved q p f h = ap (λ t. str_eq q t) ((eq_iff f p).0 h)

apart : (q p f : String) → str_eq f p ≡ false → str_eq q f ≡ true → str_eq q p ≡ true → ⊥
apart q p f h i j = clash (sym h ∙ (eq_iff f p).1 (sym ((eq_iff q f).0 i) ∙ (eq_iff q p).0 j))
  where
    clash : false ≡ true → ⊥
    clash e = cc

pub never : (b : Bool) → b && false ≡ false
never true = refl
never false = refl

pub always : (b : Bool) → b && true ≡ b
always true = refl
always false = refl

bools :
    (a b d c r : Bool)
    → (a ≡ true → b ≡ d)
    → (a ≡ false → b ≡ true → d ≡ true → ⊥)
    → r ≡ c && not d
    → (if a then r else b || r) ≡ (b || c) && not d
bools true true true c r h k e = e ∙ never c
bools true true false c r h k e = absurd (clash (h refl))
  where
    clash : true ≡ false → ⊥
    clash e = cc
bools true false d c r h k e = e
bools false true true c r h k e = absurd (k refl refl refl)
bools false true false c r h k e = refl
bools false false d c r h k e = e

pub contains-without :
    (q p : String) (fs : List String)
    → contains q (without p fs) ≡ contains q fs && not (str_eq q p)
contains-without q p [] = refl
contains-without q p (f ∷ fs) =
    spread (str_eq f p) (without p fs)
    ∙ bools (str_eq f p) (str_eq q f) (str_eq q p) (contains q fs) (contains q (without p fs))
        (moved q p f) (apart q p f) (contains-without q p fs)
  where
    spread :
        (a : Bool) (gs : List String)
        → contains q (if a then gs else f ∷ gs)
          ≡ (if a then contains q gs else str_eq q f || contains q gs)
    spread true gs = refl
    spread false gs = refl

contains-place :
    (q p : String) (ps : List String) → contains q (place p ps) ≡ str_eq q p || contains q ps
contains-place q p [] = refl
contains-place q p (r ∷ ps) = go (leb_path p r) (contains-place q p ps)
  where
    swap : (a b c : Bool) → a || (b || c) ≡ b || (a || c)
    swap true true c = refl
    swap true false c = refl
    swap false true c = refl
    swap false false c = refl

    go :
        (b : Bool)
        → contains q (place p ps) ≡ str_eq q p || contains q ps
        → contains q (if b then p ∷ r ∷ ps else r ∷ place p ps)
          ≡ str_eq q p || (str_eq q r || contains q ps)
    go true e = refl
    go false e = ap (λ c. str_eq q r || c) e ∙ swap (str_eq q r) (str_eq q p) (contains q ps)

-- A path that is there already can be left out.
absorbed :
    (q p : String) (ps : List String)
    → contains p ps ≡ true
    → contains q ps ≡ str_eq q p || contains q ps
absorbed q p ps h = go (str_eq q p) refl
  where
    go : (b : Bool) → str_eq q p ≡ b → contains q ps ≡ b || contains q ps
    go true e = ap (λ t. contains t ps) ((eq_iff q p).0 e) ∙ h
    go false e = refl

pub contains-sort : (q : String) (ps : List String) → contains q (sort ps) ≡ contains q ps
unfolding sort
contains-sort q [] = refl
contains-sort q (p ∷ ps) = go (contains p ps) refl (contains-sort q ps)
  where
    go :
        (b : Bool)
        → contains p ps ≡ b
        → contains q (sort ps) ≡ contains q ps
        → contains q (if b then sort ps else place p (sort ps)) ≡ str_eq q p || contains q ps
    go true e k = k ∙ absorbed q p ps e
    go false e k = contains-place q p (sort ps) ∙ ap (λ c. str_eq q p || c) k
