-- ===== src/Cli/Listed.antt =====
-- The paths that a reset may remove, told without the code that lists them (`_reset` of
-- server/cli.py).
use coda_node.Prelude.{
  ◌≡◌, ◌≢◌, ◌⊎◌, inl, inr, refl, sym, ap, ◌∙◌, subst, String, Bool, true, false, ◌||◌, Option, some,
  List, [], ◌∷◌, ◌++◌, if◌then◌else◌, str_eq, eq_iff, contains,
}
use coda_node.Exec.{Exn, ok, err}
use coda_node.Json.{Json, text, object, Members, get}
use coda_node.Cli.{
  Parsed, parsed, unreadable, broken, World, fixed_paths, path_at, paths_in, named, named_if,
}

abbrev pub OneOf : String → List String → Type 0
OneOf q [] = ⊥
OneOf q (p ∷ ps) = (q ≡ p) ⊎ OneOf q ps

-- The member of the runtime config is this path.
abbrev pub Names : Members → String → String → Type 0
Names m key q = get key m ≡ some (text q)

module _ (w : World) (fs : List String) (q : String) where
  -- The runtime config exists, is an object, and names the path.
  abbrev pub Configured : Type 0
  Configured =
      (contains "/tmp/coda.config" fs ≡ true)
      × (q ≢ "")
      × (m : Members) × (w.config ≡ parsed (object m))
      × (Names m "jwt_private_key_path" q ⊎ Names m "node_vpn_profile_path" q)

  -- A file of the program, or one that the runtime config names.
  abbrev pub IsListed : Type 0
  IsListed =
      OneOf q (
        "/tmp/coda.config" ∷ "/tmp/coda-private-key" ∷ "/tmp/coda-node-openvpn.pid"
        ∷ "/tmp/coda-node-openvpn.log" ∷ "/tmp/coda-node.pid" ∷ "/tmp/coda-node.log"
        ∷ "/tmp/coda-node.ovpn" ∷ [])
      ⊎ Configured

contains-OneOf : (q : String) (ps : List String) → contains q ps ≡ true → OneOf q ps
contains-OneOf q [] h = absurd cc
contains-OneOf q (p ∷ ps) h = go (str_eq q p) refl h (contains-OneOf q ps)
  where
    go :
        (b : Bool)
        → str_eq q p ≡ b
        → b || contains q ps ≡ true
        → (contains q ps ≡ true → OneOf q ps)
        → (q ≡ p) ⊎ OneOf q ps
    go true e k rest = inl ((eq_iff q p).0 e)
    go false e k rest = inr (rest k)

OneOf-contains : (q : String) (ps : List String) → OneOf q ps → contains q ps ≡ true
OneOf-contains q [] h = absurd h
OneOf-contains q (p ∷ ps) (inl e) = ap (λ b. b || contains q ps) ((eq_iff q p).1 e)
OneOf-contains q (p ∷ ps) (inr h) = go (str_eq q p) (OneOf-contains q ps h)
  where
    go : (b : Bool) → contains q ps ≡ true → b || contains q ps ≡ true
    go true rest = refl
    go false rest = rest

split : (q : String) (ps qs : List String) → OneOf q (ps ++ qs) → OneOf q ps ⊎ OneOf q qs
split q [] qs h = inr h
split q (p ∷ ps) qs (inl e) = inl (inl e)
split q (p ∷ ps) qs (inr h) = elim (split q ps qs h) [ inl a ↦ inl (inr a) | inr b ↦ inr b ]

left : (q : String) (ps qs : List String) → OneOf q ps → OneOf q (ps ++ qs)
left q [] qs h = absurd h
left q (p ∷ ps) qs (inl e) = inl e
left q (p ∷ ps) qs (inr h) = inr (left q ps qs h)

right : (q : String) (ps qs : List String) → OneOf q qs → OneOf q (ps ++ qs)
right q [] qs h = h
right q (p ∷ ps) qs h = inr (right q ps qs h)

-- A path that a member gives is its text, and not empty.
path_at-OneOf :
    (q : String) (o : Option Json) → OneOf q (path_at o) → (o ≡ some (text q)) × (q ≢ "")
path_at-OneOf q (some (text v)) h = go (str_eq v "") refl h
  where
    go :
        (b : Bool)
        → str_eq v "" ≡ b
        → OneOf q (if b then [] else v ∷ [])
        → (some (text v) ≡ some (text q)) × (q ≢ "")
    go true e k = absurd k
    go false e (inl p) =
        (ap (λ t. some (text t)) (sym p), (λ n. clash (sym e ∙ (eq_iff v "").1 (sym p ∙ n))))
      where
        clash : false ≡ true → ⊥
        clash x = cc
    go false e (inr k) = absurd k
path_at-OneOf q _ h = absurd h

OneOf-path_at : (q : String) (o : Option Json) → o ≡ some (text q) → q ≢ "" → OneOf q (path_at o)
OneOf-path_at q o e n = subst (λ o. OneOf q (path_at o)) (sym e) (go (str_eq q "") refl)
  where
    go : (b : Bool) → str_eq q "" ≡ b → OneOf q (if b then [] else q ∷ [])
    go true p = absurd (n ((eq_iff q "").0 p))
    go false p = inl refl

module _ (w : World) (fs : List String) (q : String) where
  named-Configured :
      (b : Bool) (p : Parsed) (more : List String)
      → contains "/tmp/coda.config" fs ≡ b
      → w.config ≡ p
      → named_if w b ≡ ok more
      → OneOf q more
      → Configured w fs q
  named-Configured false p more x e n h = absurd (subst (OneOf q) (sym (inj n)) h)
    where
      inj : {a b : List String} → ok a ≡ ok b → a ≡ b
      inj k = cc
  named-Configured true p more x e n h = go p e (sym (ap named e) ∙ n)
    where
      inj : {a b : List String} → ok a ≡ ok b → a ≡ b
      inj k = cc

      clash : {x : Exn} {a : List String} → err x ≡ ok a → ⊥
      clash k = cc

      either :
          (m : Members)
          → w.config ≡ parsed (object m)
          → OneOf q (path_at (get "jwt_private_key_path" m))
            ⊎ OneOf q (path_at (get "node_vpn_profile_path" m))
          → Configured w fs q
      either m e (inl k) = let (a, b) = path_at-OneOf q _ k in (x, b, m, e, inl a)
      either m e (inr k) = let (a, b) = path_at-OneOf q _ k in (x, b, m, e, inr a)

      go : (p : Parsed) → w.config ≡ p → named p ≡ ok more → Configured w fs q
      go (parsed (object m)) e n =
          either m e
            (split q (path_at (get "jwt_private_key_path" m)) _ (subst (OneOf q) (sym (inj n)) h))
      go (parsed _) e n = absurd (subst (OneOf q) (sym (inj n)) h)
      go unreadable e n = absurd (subst (OneOf q) (sym (inj n)) h)
      go (broken x) e n = absurd (clash n)

  Configured-named :
      (more : List String)
      → named_if w (contains "/tmp/coda.config" fs) ≡ ok more
      → Configured w fs q
      → OneOf q more
  Configured-named more n (x, b, m, e, k) =
      subst (OneOf q) (inj (sym (ap (named_if w) x ∙ ap named e) ∙ n)) (found k)
    where
      inj : {a b : List String} → ok a ≡ ok b → a ≡ b
      inj k = cc

      found :
          Names m "jwt_private_key_path" q ⊎ Names m "node_vpn_profile_path" q
          → OneOf q (paths_in (object m))
      found (inl a) = left q (path_at (get "jwt_private_key_path" m)) _ (OneOf-path_at q _ a b)
      found (inr a) = right q (path_at (get "jwt_private_key_path" m)) _ (OneOf-path_at q _ a b)

  -- What the code lists is what is told above.
  pub contains-IsListed :
      (more : List String)
      → named_if w (contains "/tmp/coda.config" fs) ≡ ok more
      → contains q (fixed_paths ++ more) ≡ true
      → IsListed w fs q
  contains-IsListed more n h =
      elim (split q fixed_paths more (contains-OneOf q (fixed_paths ++ more) h)) [
        | inl a ↦ inl a
        | inr b ↦
            inr (named-Configured (contains "/tmp/coda.config" fs) w.config more refl refl n b)
      ]

  pub IsListed-contains :
      (more : List String)
      → named_if w (contains "/tmp/coda.config" fs) ≡ ok more
      → IsListed w fs q
      → contains q (fixed_paths ++ more) ≡ true
  IsListed-contains more n (inl h) =
      OneOf-contains q (fixed_paths ++ more) (left q fixed_paths more h)
  IsListed-contains more n (inr h) =
      OneOf-contains q (fixed_paths ++ more) (right q fixed_paths more (Configured-named more n h))
