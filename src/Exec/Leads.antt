-- ===== src/Exec/Leads.antt =====
-- What an action leads to, where it returns and where it raises: one rule for each way in which the
-- program builds its actions.
use coda_node.Prelude.{◌≡◌, refl, sym, ap, Bool, true, false, if◌then◌else◌}
use coda_node.Exec.{Exn, Result, ok, err, Exec, pure, raise, lift, gets, modify, ◌>>=◌, catching}
use coda_node.Exec.Keeps.{Keeps}

-- What holds behind an outcome.
abbrev pub After : {S A : Type 0} → (A → S → Type 0) → (S → Type 0) → Result A × S → Type 0
After Q E (ok a, t) = Q a t
After Q E (err e, t) = E t

-- From `P`, the action returns into `Q` or raises into `E`.
pub record Leads {S A : Type 0} (P : S → Type 0) (Q : A → S → Type 0) (E : S → Type 0)
    (m : Exec S A) : Type 0 where
  pub at : (s : S) → P s → After Q E (m s)

module _ {S A : Type 0} {P E : S → Type 0} {Q : A → S → Type 0} where
  pub Leads-pure : (a : A) → ((s : S) → P s → Q a s) → Leads P Q E (pure a)
  unfolding ◌>>=◌
  Leads-pure a h = record { at = h }

  pub Leads-if :
      (b : Bool) (m n : Exec S A)
      → (b ≡ true → Leads P Q E m)
      → (b ≡ false → Leads P Q E n)
      → Leads P Q E (if b then m else n)
  Leads-if true m n km kn = km refl
  Leads-if false m n km kn = kn refl

  pub Leads-raise : (x : Exn) → ((s : S) → P s → E s) → Leads P Q E (raise x)
  unfolding ◌>>=◌
  Leads-raise x h = record { at = h }

  pub Leads-lift :
      (r : Result A)
      → ((a : A) → r ≡ ok a → (s : S) → P s → Q a s)
      → ((s : S) → P s → E s)
      → Leads P Q E (lift r)
  unfolding ◌>>=◌
  Leads-lift (ok a) h k = record { at = h a refl }
  Leads-lift (err e) h k = record { at = k }

  -- A fact that does not speak of the state.
  pub Leads-fact : {F : Type 0} (m : Exec S A) → (F → Leads P Q E m) → Leads (λ s. F × P s) Q E m
  Leads-fact m k = record { at = λ s h. (k h.0).at s h.1 }

  pub Leads-gets : (f : S → A) → ((s : S) → P s → Q (f s) s) → Leads P Q E (gets f)
  unfolding ◌>>=◌
  Leads-gets f h = record { at = h }

pub Leads-modify :
    {S : Type 0} {P E : S → Type 0} {Q : Unit {0} → S → Type 0} (f : S → S)
    → ((s : S) → P s → Q tt (f s))
    → Leads P Q E (modify f)
unfolding ◌>>=◌
Leads-modify f h = record { at = h }

module _ {S A : Type 0} {P : S → Type 0} where
  -- An action that keeps `P` leads from `P` to `P`, either way.
  pub Leads-Keeps : (m : Exec S A) → Keeps P m → Leads P (λ a. P) P m
  Leads-Keeps m k = record { at = λ s h. go (m s).0 (m s).1 (k.at s h) }
    where
      go : (r : Result A) (t : S) → P t → After (λ (a : A). P) P (r, t)
      go (ok a) t h = h
      go (err e) t h = h

-- A weaker account of what a return leaves.
pub Leads-into :
    {S A : Type 0} {P E : S → Type 0} {Q Q' : A → S → Type 0} (m : Exec S A)
    → ((a : A) (s : S) → Q a s → Q' a s)
    → Leads P Q E m
    → Leads P Q' E m
Leads-into {S} {A} {P} {E} {Q} {Q'} m after k = record { at = λ s h. go (m s).0 (m s).1 (k.at s h) }
  where
    go : (r : Result A) (t : S) → After Q E (r, t) → After Q' E (r, t)
    go (ok a) t h = after a t h
    go (err e) t h = h

-- A stronger start, and a weaker account of what a raise leaves.
pub Leads-adapt :
    {S A : Type 0} {P P' E E' : S → Type 0} {Q : A → S → Type 0} (m : Exec S A)
    → ((s : S) → P' s → P s)
    → ((s : S) → E s → E' s)
    → Leads P Q E m
    → Leads P' Q E' m
Leads-adapt {S} {A} {P} {P'} {E} {E'} {Q} m before raised k = record {
  at = λ s h. go (m s).0 (m s).1 (k.at s (before s h));
}
  where
    go : (r : Result A) (t : S) → After Q E (r, t) → After Q E' (r, t)
    go (ok a) t h = h
    go (err e) t h = raised t h

-- What is kept, from what it leads to.
pub Keeps-Leads :
    {S A : Type 0} {P : S → Type 0} (m : Exec S A)
    → ((s : S) → P s → After (λ (a : A). P) P (m s))
    → Keeps P m
Keeps-Leads {S} {A} {P} m k = record { at = λ s h. go (m s).0 (m s).1 (k s h) }
  where
    go : (r : Result A) (t : S) → After (λ (a : A). P) P (r, t) → P t
    go (ok a) t h = h
    go (err e) t h = h

module _ {S A B : Type 0} {P E : S → Type 0} {Q : A → S → Type 0} {R : B → S → Type 0} where
  pub Leads-bind :
      (m : Exec S A) (f : A → Exec S B)
      → Leads P Q E m
      → ((a : A) → Leads (Q a) R E (f a))
      → Leads P R E (m >>= f)
  unfolding ◌>>=◌
  Leads-bind m f km kf = record { at = λ s h. go (m s).0 (m s).1 (km.at s h) }
    where
      go : (r : Result A) (t : S) → After Q E (r, t) → After R E (((λ (s : S). (r, t)) >>= f) t)
      go (ok a) t h = (kf a).at t h
      go (err e) t h = h

-- A handler starts where the action has raised.
pub Leads-catching :
    {S A : Type 0} {P E F : S → Type 0} {Q : A → S → Type 0} (m : Exec S A) (f : Exn → Exec S A)
    → Leads P Q E m
    → ((e : Exn) → Leads E Q F (f e))
    → Leads P Q F (catching m f)
unfolding catching
Leads-catching {S} {A} {P} {E} {F} {Q} m f km kf = record {
  at = λ s h. go (m s).0 (m s).1 (km.at s h);
}
  where
    go : (r : Result A) (t : S) → After Q E (r, t) → After Q F (catching (λ _. (r, t)) f t)
    go (ok a) t h = h
    go (err e) t h = (kf e).at t h

-- From a known state, an action leads to what it ends with there.
pub Leads-run :
    {S A : Type 0} (m : Exec S A) (s : S)
    → Leads (λ t. t ≡ s) (λ a t. m s ≡ (ok a, t)) (λ t. (e : Exn) × (m s ≡ (err e, t))) m
Leads-run {S} {A} m s = record { at = λ t e. go (m t).0 (m t).1 (ap m (sym e)) }
  where
    go :
        (r : Result A) (t : S)
        → m s ≡ (r, t)
        → After (λ a t. m s ≡ (ok a, t)) (λ t. (e : Exn) × (m s ≡ (err e, t))) (r, t)
    go (ok a) t h = h
    go (err e) t h = (e, h)
