-- ===== src/Exec/Keeps.antt =====
-- State predicates that an action keeps, whether it returns or raises: one rule for each way in
-- which the program builds its actions.
use coda_node.Prelude.{◌≡◌, refl, subst, Bool, true, false, if◌then◌else◌}
use coda_node.Exec.{
  Exn, Result, ok, err, Exec, pure, raise, lift, gets, modify, ◌>>=◌, catching, finally,
}

pub record Keeps {S A : Type 0} (P : S → Type 0) (m : Exec S A) : Type 0 where
  pub at : (s : S) → P s → P (m s).1

module _ {S A : Type 0} {P : S → Type 0} where
  pub Keeps-raise : (x : Exn) → Keeps P (raise {A = A} x)
  unfolding raise
  Keeps-raise x = record { at = λ t kept. kept }

  pub Keeps-catching :
      (m : Exec S A) (f : Exn → Exec S A)
      → Keeps P m
      → ((e : Exn) → Keeps P (f e))
      → Keeps P (catching m f)
  unfolding catching
  Keeps-catching m f km kf = record { at = λ s h. let (r, s') = m s in after r s' (km.at s h) }
    where
      after : (r : Result A) (s : S) → P s → P (catching (λ _. (r, s)) f s).1
      after (ok a) s h = h
      after (err e) s h = (kf e).at s h

  pub Keeps-gets : (x : S → A) → Keeps P (gets x)
  unfolding gets
  Keeps-gets x = record { at = λ t kept. kept }

  pub Keeps-if : (b : Bool) (m n : Exec S A) → Keeps P m → Keeps P n → Keeps P (if b then m else n)
  Keeps-if true m n km kn = km
  Keeps-if false m n km kn = kn

  pub Keeps-pure : (x : A) → Keeps P (pure x)
  unfolding pure
  Keeps-pure x = record { at = λ t kept. kept }

  pub Keeps-finally :
      (m : Exec S A) (fin : Exec S Unit) → Keeps P m → Keeps P fin → Keeps P (finally m fin)
  unfolding finally
  Keeps-finally m fin km kf = record { at = λ s h. kf.at (m s).1 (km.at s h) }

  pub Keeps-lift : (x : Result A) → Keeps P (lift x)
  unfolding lift
  Keeps-lift x = record { at = λ t kept. kept }

pub Keeps-modify :
    {S : Type 0} {P : S → Type 0} (f : S → S) → ((s : S) → P s → P (f s)) → Keeps P (modify f)
unfolding modify
Keeps-modify f h = record { at = h }

module _ {S A B : Type 0} {P : S → Type 0} where
  pub Keeps-bind :
      (first : Exec S A) (next : A → Exec S B)
      → Keeps P first
      → ((a : A) → Keeps P (next a))
      → Keeps P (first >>= next)
  unfolding ◌>>=◌
  Keeps-bind first next kept each = record {
    at = λ t h. onward (first t).0 (first t).1 (kept.at t h);
  }
    where
      onward : (r : Result A) (t : S) → P t → P (((λ (u : S). (r, t)) >>= next) t).1
      onward (ok a) t h = (each a).at t h
      onward (err e) t h = h

-- What holds of an action's result where it returns.
pub record Gives {S A : Type 0} (Q : A → Type 0) (m : Exec S A) : Type 0 where
  pub at : (s : S) (a : A) → (m s).0 ≡ ok a → Q a

module _ {S A : Type 0} {Q : A → Type 0} where
  pub Gives-pure : (a : A) → Q a → Gives Q (pure {S = S} a)
  unfolding pure
  Gives-pure a q = record { at = λ s b e. subst Q (ok-injective e) q }
    where
      ok-injective : {a b : A} → ok a ≡ ok b → a ≡ b
      ok-injective e = cc

  pub Gives-raise : (x : Exn) → Gives Q (raise {S = S} x)
  unfolding raise
  Gives-raise x = record { at = λ s b e. absurd cc }

  pub Gives-if : (b : Bool) (m n : Exec S A) → Gives Q m → Gives Q n → Gives Q (if b then m else n)
  Gives-if true m n gm gn = gm
  Gives-if false m n gm gn = gn

module _ {S A B : Type 0} where
  pub Gives-bind :
      {Q : B → Type 0} (m : Exec S A) (f : A → Exec S B)
      → ((a : A) → Gives Q (f a))
      → Gives Q (m >>= f)
  unfolding ◌>>=◌
  Gives-bind {Q} m f gf = record { at = λ s b e. go (m s).0 (m s).1 s b e }
    where
      go : (r : Result A) (t s : S) (b : B) → (((λ _. (r, t)) >>= f) s).0 ≡ ok b → Q b
      go (ok a) t s b e = (gf a).at t b e
      go (err x) t s b e = absurd (cc)

  -- Where what the first action gives matters to the second.
  pub Gives-chain :
      {P : A → Type 0} {Q : B → Type 0} (m : Exec S A) (f : A → Exec S B)
      → Gives P m
      → ((a : A) → P a → Gives Q (f a))
      → Gives Q (m >>= f)
  unfolding ◌>>=◌
  Gives-chain {P} {Q} m f gm gf = record {
    at = λ s b e. go (m s).0 (m s).1 s b (λ a p. gm.at s a p) e;
  }
    where
      go :
          (r : Result A) (t s : S) (b : B)
          → ((a : A) → r ≡ ok a → P a)
          → (((λ _. (r, t)) >>= f) s).0 ≡ ok b
          → Q b
      go (ok a) t s b h e = (gf a (h a refl)).at t b e
      go (err x) t s b h e = absurd (cc)

  pub Keeps-bind_Gives :
      {P : S → Type 0} {Q : A → Type 0} (m : Exec S A) (f : A → Exec S B)
      → Keeps P m
      → Gives Q m
      → ((a : A) → Q a → Keeps P (f a))
      → Keeps P (m >>= f)
  unfolding ◌>>=◌
  Keeps-bind_Gives {P} {Q} m f km gm kf = record {
    at = λ s h. go (m s).0 (m s).1 s (λ a e. gm.at s a e) (km.at s h);
  }
    where
      go :
          (r : Result A) (t s : S)
          → ((a : A) → r ≡ ok a → Q a)
          → P t
          → P (((λ _. (r, t)) >>= f) s).1
      go (ok a) t s q h = (kf a (q a refl)).at t h
      go (err e) t s q h = h

pub ruleset keeps_rules = (
  Keeps-pure, Keeps-raise, Keeps-lift, Keeps-gets, Keeps-if, Keeps-catching, Keeps-finally,
  Keeps-bind,
)
