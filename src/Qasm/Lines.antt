-- ===== src/Qasm/Lines.antt =====
-- Joined lines are split again into the same lines (`qasm.strip().splitlines()` of server/qasm.py).
use mathlib.Core.List.{append_assoc}
use coda_node.Prelude.{
  ℕ, ◌≡◌, refl, sym, ap, subst, ◌∙◌, false, List, [], ◌∷◌, ◌++◌, All, is_space, is_line_break,
  splitlines, rstrip, strip, lstrip_stops, rstrip_stops, rstrip_drops,
}
use coda_node.Qasm.Printer.{joined}

abbrev pub Unbroken : List ℕ → Type 0
Unbroken = All (λ c. is_line_break c ≡ false)

-- A line that starts with no space and ends with a semicolon.
pub record IsLine (line : List ℕ) : Type 0 where
  pub first : ℕ
  pub middle : List ℕ
  pub form : line ≡ first ∷ (middle ++ b';' ∷ [])
  pub solid : is_space first ≡ false
  pub unbroken : Unbroken line

splitlines_break : (l s : List ℕ) → Unbroken l → splitlines (l ++ (10 ∷ s)) ≡ l ∷ splitlines s
unfolding splitlines
splitlines_break [] s h = refl
splitlines_break (c ∷ l) s (p, h) = rw p (rw (splitlines_break l s h) refl)

splitlines_last : (c : ℕ) (l : List ℕ) → Unbroken (c ∷ l) → splitlines (c ∷ l) ≡ (c ∷ l) ∷ []
unfolding splitlines
splitlines_last c [] (p, h) = rw p refl
splitlines_last c (d ∷ l) (p, h) = rw p (rw (splitlines_last d l h) refl)

splitlines_line : (l : List ℕ) → IsLine l → splitlines l ≡ l ∷ []
splitlines_line l h =
    subst (λ t. splitlines t ≡ t ∷ []) (sym h.form)
      (splitlines_last h.first (h.middle ++ b';' ∷ []) (subst Unbroken h.form h.unbroken))

splitlines-joined : (ls : List (List ℕ)) → All IsLine ls → splitlines (joined ls) ≡ ls
splitlines-joined [] h = unfold splitlines in refl
splitlines-joined (l ∷ []) (p, h) = splitlines_line l p
splitlines-joined (l ∷ m ∷ ls) (p, h) =
    splitlines_break l (joined (m ∷ ls)) p.unbroken ∙ ap (λ t. l ∷ t) (splitlines-joined (m ∷ ls) h)

-- Joined lines start and end as lines do.
joined_form :
    (l : List ℕ) (ls : List (List ℕ))
    → All IsLine (l ∷ ls)
    → (c : ℕ) × (m : List ℕ) × (joined (l ∷ ls) ≡ c ∷ (m ++ b';' ∷ [])) × (is_space c ≡ false)
joined_form l [] (p, h) = (p.first, p.middle, p.form, p.solid)
joined_form l (k ∷ ls) (p, h) =
    let (c, m, e, s) = joined_form k ls h in
    (
      p.first,
      p.middle ++ (b';' ∷ (10 ∷ (c ∷ m))),
      ap (λ t. t ++ (10 ∷ joined (k ∷ ls))) p.form
          ∙ ap (λ t. (p.first ∷ (p.middle ++ b';' ∷ [])) ++ (10 ∷ t)) e
          ∙ simp append_assoc,
      p.solid,
    )

strip_form :
    (c : ℕ) (m : List ℕ) → is_space c ≡ false → strip (c ∷ (m ++ b';' ∷ [])) ≡ c ∷ (m ++ b';' ∷ [])
unfolding strip
strip_form c m h = ap rstrip (lstrip_stops c (m ++ b';' ∷ []) h) ∙ rstrip_stops (c ∷ m) b';' refl

strip_newline :
    (c : ℕ) (m : List ℕ)
    → is_space c ≡ false
    → strip ((c ∷ (m ++ b';' ∷ [])) ++ 10 ∷ []) ≡ c ∷ (m ++ b';' ∷ [])
unfolding strip
strip_newline c m h =
    ap rstrip (lstrip_stops c ((m ++ b';' ∷ []) ++ 10 ∷ []) h)
    ∙ rstrip_drops (c ∷ (m ++ b';' ∷ [])) 10 refl
    ∙ rstrip_stops (c ∷ m) b';' refl

pub strip_line : (l : List ℕ) → IsLine l → strip l ≡ l
strip_line l h = subst (λ t. strip t ≡ t) (sym h.form) (strip_form h.first h.middle h.solid)

-- The lines of a text that was joined from lines.
pub lines-joined :
    (l : List ℕ) (ls : List (List ℕ))
    → All IsLine (l ∷ ls)
    → splitlines (strip (joined (l ∷ ls) ++ 10 ∷ [])) ≡ l ∷ ls
lines-joined l ls h =
    let (c, m, e, s) = joined_form l ls h in
    ap splitlines (ap (λ t. strip (t ++ 10 ∷ [])) e ∙ strip_newline c m s ∙ sym e)
    ∙ splitlines-joined (l ∷ ls) h

pub Unbroken-append : (s t : List ℕ) → Unbroken s → Unbroken t → Unbroken (s ++ t)
Unbroken-append [] t h k = k
Unbroken-append (c ∷ s) t (p, h) k = (p, Unbroken-append s t h k)
