-- ===== src/Config/Device/Ends.antt =====
-- Texts that end in no space, in the lines of a device file (server/config.py).
use coda_node.Prelude.{
  ℕ, ◌≡◌, refl, ap, ◌∙◌, Bool, true, false, ◌&&◌, some, [], ◌∷◌, ◌++◌, All, ◌==◌, all, is_space,
  strip, rstrip, lstrip_stops,
}
use coda_node.Config.Device.{Text, shortest}

-- A text whose last character is no space.
unfoldable pub Ends : Text → Type 0
Ends [] = ⊥
Ends (c ∷ []) = is_space c ≡ false
Ends (c ∷ d ∷ s) = Ends (d ∷ s)

pub Ends-append : (s t : Text) → Ends t → Ends (s ++ t)
unfolding Ends
Ends-append [] t h = h
Ends-append (c ∷ []) [] h = absurd h
Ends-append (c ∷ []) (d ∷ t) h = h
Ends-append (c ∷ d ∷ s) t h = Ends-append (d ∷ s) t h

pub rstrip-Ends : (s : Text) → Ends s → rstrip s ≡ s
unfolding Ends rstrip
rstrip-Ends [] h = absurd h
rstrip-Ends (c ∷ []) h = rw h refl
rstrip-Ends (c ∷ d ∷ s) h = rw (rstrip-Ends (d ∷ s) h) refl

pub strip-Ends : (c : ℕ) (s : Text) → is_space c ≡ false → Ends (c ∷ s) → strip (c ∷ s) ≡ c ∷ s
unfolding strip
strip-Ends c s p h = ap rstrip (lstrip_stops c s p) ∙ rstrip-Ends (c ∷ s) h

pub all-Ends : (s : Text) → Ends s → all is_space s ≡ false
unfolding Ends
all-Ends [] h = absurd h
all-Ends (c ∷ []) h = rw h refl
all-Ends (c ∷ d ∷ s) h = rw (all-Ends (d ∷ s) h) (go (is_space c))
  where
    go : (b : Bool) → b && false ≡ false
    go true = refl
    go false = refl

-- A text on one line.
abbrev pub OneLine : Text → Type 0
OneLine = All (λ c. (c == 10) ≡ false)

-- The group is all of a text that ends in no space.
pub shortest-Ends : (s : Text) → Ends s → OneLine s → shortest s ≡ some s
unfolding Ends shortest
shortest-Ends [] h n = absurd h
shortest-Ends (c ∷ []) h (n, _) = rw n refl
shortest-Ends (c ∷ d ∷ s) h (n, ns) = rw (n, all-Ends (d ∷ s) h, shortest-Ends (d ∷ s) h ns) refl
