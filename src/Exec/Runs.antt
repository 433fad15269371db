-- ===== src/Exec/Runs.antt =====
-- Running an action whose parts have known results.
use coda_node.Prelude.{◌≡◌, refl, ap}
use coda_node.Exec.{Exn, Result, ok, err, Exec, lift, gets, modify, ◌>>=◌, catching, finally}

module _ {S A B : Type 0} where
  pub >>=-ok :
      (m : Exec S A) (f : A → Exec S B) {a : A} {s t : S} → m s ≡ (ok a, t) → (m >>= f) s ≡ f a t
  unfolding ◌>>=◌
  >>=-ok m f h = rw h

  pub >>=-err :
      (m : Exec S A) (f : A → Exec S B) {e : Exn} {s t : S}
      → m s ≡ (err e, t)
      → (m >>= f) s ≡ (err e, t)
  unfolding ◌>>=◌
  >>=-err m f h = rw h

module _ {S A : Type 0} where
  pub catching-ok :
      (m : Exec S A) (f : Exn → Exec S A) {a : A} {s t : S}
      → m s ≡ (ok a, t)
      → catching m f s ≡ (ok a, t)
  unfolding catching
  catching-ok m f h = rw h

  pub catching-err :
      (m : Exec S A) (f : Exn → Exec S A) {e : Exn} {s t : S}
      → m s ≡ (err e, t)
      → catching m f s ≡ f e t
  unfolding catching
  catching-err m f h = rw h

  pub finally-ok :
      (m : Exec S A) (fin : Exec S (Unit {0})) {r : Result A} {s t u : S}
      → m s ≡ (r, t)
      → fin t ≡ (ok tt, u)
      → finally m fin s ≡ (r, u)
  unfolding finally
  finally-ok m fin h k = rw (h, k)

  pub lift-ok : (r : Result A) (s : S) {a : A} → r ≡ ok a → lift r s ≡ (ok a, s)
  unfolding ◌>>=◌
  lift-ok r s h = ap (λ q. (q, s)) h

  pub gets-ok : (f : S → A) (s : S) → gets f s ≡ (ok (f s), s)
  unfolding ◌>>=◌
  gets-ok f s = refl

pub modify-ok : {S : Type 0} (f : S → S) (s : S) → modify f s ≡ (ok tt, f s)
unfolding ◌>>=◌
modify-ok f s = refl
