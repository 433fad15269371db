-- ===== src/Regex/Runs.antt =====
-- Where a run of a class ends, the longest match is the one that `re` takes.
use coda_node.Prelude.{ℕ, ◌≡◌, ◌≢◌, refl, Bool, true, false, some, List, [], ◌∷◌, ◌++◌, All}
use coda_node.Regex.{Then, many, plus}

-- The text ends, or goes on with a character outside the class.
abbrev pub Ends : (ℕ → Bool) → List ℕ → Type 0
Ends p [] = Unit
Ends p (c ∷ s) = p c ≡ false

module _ {R : Type 0} where
  pub many_lem :
      (p : ℕ → Bool) (k : List ℕ → Then R) (run s : List ℕ) {r : R}
      → All (λ c. p c ≡ true) run
      → Ends p s
      → k run s ≡ some r
      → many p k (run ++ s) ≡ some r
  many_lem p k [] [] h e g = g
  many_lem p k [] (c ∷ s) h e g = rw e g
  many_lem p k (c ∷ run) s (pc, h) e g =
      rw pc (rw (many_lem p (λ more. k (c ∷ more)) run s h e g) refl)

  pub plus_lem :
      (p : ℕ → Bool) (k : List ℕ → Then R) (c : ℕ) (run s : List ℕ) {r : R}
      → All (λ c. p c ≡ true) (c ∷ run)
      → Ends p s
      → k (c ∷ run) s ≡ some r
      → plus p k (c ∷ run ++ s) ≡ some r
  plus_lem p k c run s (pc, h) e g = rw pc (many_lem p (λ more. k (c ∷ more)) run s h e g)

  -- The same for a run that is not taken apart.
  pub plus_run :
      (p : ℕ → Bool) (k : List ℕ → Then R) (run s : List ℕ) {r : R}
      → run ≢ []
      → All (λ c. p c ≡ true) run
      → Ends p s
      → k run s ≡ some r
      → plus p k (run ++ s) ≡ some r
  plus_run p k [] s n h e g = absurd (n refl)
  plus_run p k (c ∷ run) s n h e g = plus_lem p k c run s h e g
