-- ===== src/Executor/Resolution.antt =====
-- Which executor a node loads (server/executor.py).
use coda_node.Prelude.{
  ◌≡◌, sym, refl, subst, Bool, true, false, List, [], ◌∷◌, not, if◌then◌else◌, is_empty,
}
use coda_node.Exec.{Result, ok, err}
use coda_node.Executor.{
  World, Text, Object, ◌>>=◌, load_attr, runner, instantiate_factory, discover_executor_factories,
  JobExecutor, noop, loaded, as_loaded, choose, load_executor, executor_error,
}

abbrev Of : {A : Type 0} → (A → Type 0) → Result A → Type 0
Of P (ok a) = P a
Of P (err e) = Unit

-- What holds of a value where there is one.
record Yields {A : Type 0} (P : A → Type 0) (r : Result A) : Type 0 where
  at : Of P r

value : {A : Type 0} {P : A → Type 0} {r : Result A} {a : A} → Yields P r → r ≡ ok a → P a
value {A} {P} y e = subst (Of P) e y.at

module _ {A : Type 0} {P : A → Type 0} where
  Yields-if :
      (b : Bool) (m n : Result A)
      → (b ≡ true → Yields P m)
      → (b ≡ false → Yields P n)
      → Yields P (if b then m else n)
  Yields-if true m n km kn = km refl
  Yields-if false m n km kn = kn refl

  Yields-bind :
      {B : Type 0} {Q : B → Type 0} (m : Result B) (f : B → Result A)
      → Yields Q m
      → ((b : B) → Q b → Yields P (f b))
      → Yields P (m >>= f)
  Yields-bind (ok b) f km kf = kf b km.at
  Yields-bind (err e) f km kf = record { at = tt }

  Yields-bind_any :
      {B : Type 0} (m : Result B) (f : B → Result A)
      → ((b : B) → m ≡ ok b → Yields P (f b))
      → Yields P (m >>= f)
  Yields-bind_any (ok b) f kf = kf b refl
  Yields-bind_any (err e) f kf = record { at = tt }

module _ (w : World) where
  abbrev pub IsRunner : Object → Type 0
  IsRunner o = w.has_run o ≡ true

  -- Where an executor comes from: the factory that the settings name; the only factory that is
  -- discovered; or none, where discovery finds no factory or several.
  pub data Resolves : Text → JobExecutor → Type 0 where
    configured :
        {path : Text} {o : Object}
        → is_empty path ≡ false
        → instantiate_factory w path ≡ ok o
        → IsRunner o
        → Resolves path (loaded o)
    discovered :
        {path : Text} {found : Text} {o : Object}
        → is_empty path ≡ true
        → discover_executor_factories w ≡ ok (found ∷ [])
        → instantiate_factory w found ≡ ok o
        → IsRunner o
        → Resolves path (loaded o)
    nothing_found :
        {path : Text}
        → is_empty path ≡ true
        → discover_executor_factories w ≡ ok []
        → Resolves path noop
    several_found :
        {path p q : Text} {ps : List Text}
        → is_empty path ≡ true
        → discover_executor_factories w ≡ ok (p ∷ q ∷ ps)
        → Resolves path noop

  runner-IsRunner : (o : Object) → Yields IsRunner (runner w o)
  unfolding runner
  runner-IsRunner o = go (w.has_run o) refl
    where
      go :
          (b : Bool)
          → w.has_run o ≡ b
          → Yields IsRunner
              (if not b then executor_error "the factory did not return a runner" else ok o)
      go true e = record { at = e }
      go false e = record { at = tt }

  instantiated : (path : Text) → Yields IsRunner (instantiate_factory w path)
  unfolding instantiate_factory
  instantiated path = Yields-bind_any (load_attr w path) _ λ target _.
      Yields-if (w.has_run target) _ _ (λ e. record { at = e })
        λ _.
          Yields-if (not (w.is_callable target)) _ _ (λ _. record { at = tt })
            λ _. Yields-bind_any (w.has_parameters target) _ λ parameters _.
              Yields-bind_any (w.call target parameters) _ λ executor _. runner-IsRunner executor

  resolved :
      (path found : Text)
      → ((o : Object) → instantiate_factory w found ≡ ok o → IsRunner o → Resolves path (loaded o))
      → Yields (Resolves path) (as_loaded w (instantiate_factory w found))
  resolved path found k =
      Yields-bind_any (instantiate_factory w found) _
        λ o e. record { at = k o e (value (instantiated found) e) }

  chosen :
      (path : Text)
      → is_empty path ≡ true
      → (found : List Text) → discover_executor_factories w ≡ ok found
      → Yields (Resolves path) (choose w found)
  unfolding choose
  chosen path h [] e = record { at = nothing_found h e }
  chosen path h (p ∷ []) e = resolved path p λ o. discovered h e
  chosen path h (p ∷ q ∷ ps) e = record { at = several_found h e }

  loading : (path : Text) → Yields (Resolves path) (load_executor w path)
  unfolding load_executor
  loading path =
      Yields-if (not (is_empty path)) _ _ (λ b. resolved path path λ o. configured (is_false _ b))
        λ b.
          Yields-bind_any (discover_executor_factories w) _
            λ found e. chosen path (is_true _ b) found e
    where
      is_false : (b : Bool) → not b ≡ true → b ≡ false
      is_false true e = sym e
      is_false false e = refl

      is_true : (b : Bool) → not b ≡ false → b ≡ true
      is_true true e = refl
      is_true false e = sym e

  -- An executor that is loaded comes from the factory in the settings, from the only factory that is
  -- discovered where the settings name none, or is the NoopExecutor where none or several are
  -- discovered. One that comes from a factory has a `run`.
  pub load_executor-Resolves :
      (path : Text) {executor : JobExecutor}
      → load_executor w path ≡ ok executor
      → Resolves path executor
  load_executor-Resolves path h = value (loading path) h
