-- ===== src/Executor.antt =====
-- Loading the execution backend (server/executor.py and server/device_topology.py). Python's import
-- system and the objects that it yields are a `World`; an object is known by a reference.
pub mod Resolution
use coda_node.Prelude.{
  ℕ, String, Bool, true, false, not, ◌||◌, Option, none, some, List, [], ◌∷◌, ◌++◌, if◌then◌else◌,
  ◌==◌, is_empty, length, replicate, includes, starts_with, codes, ℤ, float_zero,
}
use coda_node.Exec.{Exn, other, Result, ok, err}
use coda_node.Ir.{NativeGateIr}
use coda_node.Consumer.World.{ExecutionResult}

abbrev pub Text : Type 0
Text = List ℕ

-- A reference to a Python object.
abbrev pub Object : Type 0
Object = ℕ

-- How `importlib.util.find_spec` ends: `not_found` stands for ModuleNotFoundError and ValueError.
pub data Spec : Type 0 where
  found absent not_found : Spec
  broken : Exn → Spec

pub record World : Type 0 where
  pub import_module : Text → Result Object
  -- `getattr(o, name)`, and `getattr(o, name, None)`
  pub getattr : Object → Text → Result Object
  pub getattr_or_none : Object → Text → Option Object
  pub has_run : Object → Bool
  pub is_callable : Object → Bool
  -- whether `inspect.signature(o)` has parameters
  pub has_parameters : Object → Result Bool
  -- a call, with the settings or without
  pub call : Object → Bool → Result Object
  -- `packages_distributions()`; `none` if it cannot be imported
  pub packages : Option (List Text)
  pub find_spec : Text → Spec

infixl 5 ◌>>=◌
abbrev pub ◌>>=◌ : {A B : Type 0} → Result A → (A → Result B) → Result B
ok a >>= f = f a
err e >>= f = err e

-- `text.partition(":")`: what stands before the first colon, and what stands behind it.
abbrev pub before : Text → Text → Text × Option Text
before passed [] = (passed, none)
before passed (c ∷ s) =
    let more = before (passed ++ c ∷ []) s in if c == b':' then (passed, some s) else more

abbrev pub executor_error : {A : Type 0} → String → Result A
executor_error e = err (other e)

-- NoopExecutor, or a runner that was loaded
pub data JobExecutor : Type 0 where
  noop : JobExecutor
  loaded : Object → JobExecutor

module _ (w : World) where
  abbrev pub load_parts : Text × Option Text → Result Object
  load_parts (module_name, none) =
      executor_error "CODA_EXECUTOR_FACTORY must look like 'package.module:factory_name'"
  load_parts (module_name, some attr_name) =
      if is_empty module_name || is_empty attr_name
      then executor_error "CODA_EXECUTOR_FACTORY must look like 'package.module:factory_name'"
      else (do o ← w.import_module module_name; w.getattr o attr_name)

  -- _load_attr
  unfoldable pub load_attr : Text → Result Object
  load_attr import_path = load_parts (before [] import_path)

  unfoldable pub runner : Object → Result Object
  runner executor =
      if not (w.has_run executor)
      then executor_error "the factory did not return a runner"
      else ok executor

  -- _instantiate_factory
  unfoldable pub instantiate_factory : Text → Result Object
  instantiate_factory import_path = do
    target ← load_attr import_path
    if w.has_run target
        then ok target
        else if not (w.is_callable target)
        then executor_error "the target is not callable"
        else (do
          parameters ← w.has_parameters target
          executor ← w.call target parameters
          runner executor)

  abbrev pub module_name_of : Text → Text
  module_name_of pkg = pkg ++ codes ".executor_factory"

  abbrev pub is_factory : Option Object → Bool
  is_factory none = false
  is_factory (some o) = w.is_callable o

  -- The import of a candidate; one that fails is skipped.
  abbrev pub offers : Result Object → Bool
  offers (ok o) = is_factory (w.getattr_or_none o (codes "create_executor"))
  offers (err e) = false

  abbrev pub examine : Text → Spec → Result Bool
  examine pkg found = ok (offers (w.import_module (module_name_of pkg)))
  examine pkg absent = ok false
  examine pkg not_found = ok false
  examine pkg (broken e) = err e

  abbrev pub same : Text → Text → Bool
  same [] [] = true
  same (a ∷ s) (b ∷ t) = if a == b then same s t else false
  same _ _ = false

  abbrev pub is_passed_over : Text → Bool
  is_passed_over pkg =
      includes (codes ".") pkg || starts_with (codes "_") pkg || same pkg (codes "coda_node")

  -- The body of the loop: whether the package is a candidate.
  unfoldable pub is_candidate : Text → Result Bool
  is_candidate pkg =
      if is_passed_over pkg then ok false else examine pkg (w.find_spec (module_name_of pkg))

  unfoldable pub candidates : List Text → Result (List Text)
  candidates [] = ok []
  candidates (pkg ∷ pkgs) = do
    offered ← is_candidate pkg
    more ← candidates pkgs
    ok (if offered then (module_name_of pkg ++ codes ":create_executor") ∷ more else more)

  -- _discover_executor_factories
  unfoldable pub discover_executor_factories : Result (List Text)
  discover_executor_factories = elim w.packages [ none ↦ ok [] | some pkgs ↦ candidates pkgs ]

  abbrev pub as_loaded : Result Object → Result JobExecutor
  as_loaded r = do o ← r; ok (loaded o)

  unfoldable pub choose : List Text → Result JobExecutor
  choose (path ∷ []) = as_loaded (instantiate_factory path)
  choose _ = ok noop

  -- load_executor
  unfoldable pub load_executor : Text → Result JobExecutor
  load_executor executor_factory =
      if not (is_empty executor_factory)
      then as_loaded (instantiate_factory executor_factory)
      else (do discovered ← discover_executor_factories; choose discovered)

-- The counts of NoopExecutor.run; the bits are the digits of the bitstring.
unfoldable pub noop_run : NativeGateIr → ℤ → List (Text × ℤ)
noop_run ir shots = (replicate (length ir.measurements) b'0', shots) ∷ []
