-- ===== src/Exec.antt =====
-- Actions: coroutines and methods that change the state of a component, and end by a value or by an
-- exception. Either way the state as it then is comes back with the outcome.
pub mod Keeps
pub mod Leads
pub mod Part
pub mod Runs
use coda_node.Prelude.{String}

-- The exceptions that a handler of the program tells apart, and all others.
pub data Exn : Type 0 where
  -- ConnectionError, OSError, redis ConnectionError
  connection : String → Exn
  -- _JobCancelledWhileExecuting
  job_cancelled : Exn
  -- any other Exception, by its text
  other : String → Exn

-- `str(exc)`
abbrev pub message : Exn → String
message (connection s) = s
message job_cancelled = ""
message (other s) = s

pub data Result {ℓ} (A : Type ℓ) : Type ℓ where
  ok : A → Result A
  err : Exn → Result A

abbrev pub Exec : Type 0 → Type 0 → Type 0
Exec S A = S → Result A × S

module _ {S A : Type 0} where
  pub raise : Exn → Exec S A
  raise e now = (err e, now)

  pub gets : (S → A) → Exec S A
  gets read now = (ok (read now), now)

  pub pure : A → Exec S A
  pure a now = (ok a, now)

  pub lift : Result A → Exec S A
  lift outcome now = (outcome, now)

pub modify : {S : Type 0} → (S → S) → Exec S (Unit {0})
modify f s = (ok tt, f s)

module _ {S A B : Type 0} where
  abbrev continue : Result A → (A → Exec S B) → Exec S B
  continue (ok a) f s = f a s
  continue (err e) f s = (err e, s)

  infixl 5 ◌>>=◌ ◌>>◌
  -- Opening this opens the actions above too.
  unfoldable pub ◌>>=◌ : Exec S A → (A → Exec S B) → Exec S B
  unfolding pure raise lift gets modify
  ◌>>=◌ first next now = let (outcome, later) = first now in continue outcome next later

  abbrev pub ◌>>◌ : Exec S A → Exec S B → Exec S B
  first >> second = first >>= λ _. second

abbrev pub conclude : {A : Type 0} → Result A → Result (Unit {0}) → Result A
conclude r (ok _) = r
conclude r (err e) = err e

module _ {S A : Type 0} where
  abbrev handle : Result A → (Exn → Exec S A) → Exec S A
  handle (ok a) f s = (ok a, s)
  handle (err e) f s = f e s

  -- `try: m  except …: f`, where `f` raises again what no `except` clause takes.
  unfoldable pub catching : Exec S A → (Exn → Exec S A) → Exec S A
  catching m f s = let (r, s') = m s in handle r f s'

  -- `try: m  finally: fin`; an exception of `fin` replaces the one on its way.
  unfoldable pub finally : Exec S A → Exec S (Unit {0}) → Exec S A
  finally m fin s = let (r, s') = m s in let (q, s'') = fin s' in (conclude r q, s'')
