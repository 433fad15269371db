-- ===== src/Cli/Reset.antt =====
-- What a reset removes (`_reset` of server/cli.py).
use coda_node.Prelude.{
  ℕ, ◌≡◌, ◌⊎◌, inl, inr, refl, sym, ap, ◌∙◌, subst, String, Bool, true, false, not, ◌&&◌, ◌||◌,
  List, [], ◌∷◌, ◌++◌, if◌then◌else◌, str_eq, eq_iff, contains,
}
use coda_node.Exec.{ok, pure, ◌>>◌}
use coda_node.Exec.Leads.{
  After, Leads, Leads-bind, Leads-fact, Leads-if, Leads-pure, Leads-gets, Leads-lift, Leads-modify,
  Leads-Keeps, Leads-adapt,
}
use coda_node.Exec.Part.{Leads-part}
use coda_node.Cli.{
  World, Machine, on_daemon, on_node, config_path, fixed_paths, named_if, read_reset_paths, remove,
  remove_all, reset,
}
use coda_node.Cli.Listed.{IsListed, contains-IsListed, IsListed-contains}
use coda_node.Cli.Paths.{contains-without, contains-sort, never, always}

module _ (w : World) (q : String) where
  -- Whether the file is there.
  There : Bool → Machine → Type 0
  There b s = contains q s.files ≡ b

  -- A removal that raises leaves the file, or it was one to be removed.
  abbrev Left : Bool → List String → Machine → Type 0
  Left b ps s = There b s ⊎ (contains q ps ≡ true)

  remove-There :
      (b : Bool) (p : String)
      → Leads (There b) (λ _. There (b && not (str_eq q p))) (There b) (remove w p)
  unfolding There
  remove-There b p =
      Leads-bind _ _ (Leads-lift {Q = λ _. There b} _ (λ a e s h. h) (λ s h. h)) λ _.
        Leads-modify _ (λ s h. contains-without q p s.files ∙ ap (λ c. c && not (str_eq q p)) h)

  -- A file that is not there need not be removed.
  absent :
      (b : Bool) (p : String) (fs : List String)
      → contains p fs ≡ false
      → contains q fs ≡ b
      → contains q fs ≡ b && not (str_eq q p)
  absent b p fs h k = go (str_eq q p) refl
    where
      go : (c : Bool) → str_eq q p ≡ c → contains q fs ≡ b && not c
      go true e = ap (λ t. contains t fs) ((eq_iff q p).0 e) ∙ h ∙ sym (never b)
      go false e = k ∙ sym (always b)

  merged : (b c d : Bool) → (b && not c) && not d ≡ b && not (c || d)
  merged true true d = refl
  merged true false d = refl
  merged false c d = refl

  widen :
      (b : Bool) (p : String) (ps : List String) (s : Machine)
      → Left (b && not (str_eq q p)) ps s
      → Left b (p ∷ ps) s
  unfolding There
  widen b p ps s h = go (str_eq q p) h
    where
      go :
          (c : Bool)
          → (contains q s.files ≡ b && not c) ⊎ (contains q ps ≡ true)
          → (contains q s.files ≡ b) ⊎ (c || contains q ps ≡ true)
      go true h = inr refl
      go false (inl h) = inl (h ∙ always b)
      go false (inr h) = inr h

  remove_all-There :
      (b : Bool) (ps : List String)
      → Leads (There b) (λ _. There (b && not (contains q ps))) (Left b ps) (remove_all w ps)
  unfolding remove_all There
  remove_all-There b [] = Leads-pure tt (λ s h. h ∙ sym (always b))
  remove_all-There b (p ∷ ps) =
      Leads-bind _ _
        (Leads-gets {Q = λ files s. (files ≡ s.files) × There b s} _ (λ s h. (refl, h)))
        λ files. Leads-bind _ _ (step files) λ _. rest (remove_all-There (b && not (str_eq q p)) ps)
    where
      step :
          (files : List String)
          → Leads
              (λ s. (files ≡ s.files) × There b s)
              (λ _. There (b && not (str_eq q p)))
              (Left b (p ∷ ps))
              (if contains p files then remove w p else pure tt)
      step files =
          Leads-if _ _ _ (λ e. Leads-adapt _ (λ s h. h.1) (λ s h. inl h) (remove-There b p))
            λ e. Leads-pure tt (λ s h. absent b p s.files (ap (contains p) (sym h.0) ∙ e) h.1)

      rest :
          Leads
            (There (b && not (str_eq q p)))
            (λ _. There ((b && not (str_eq q p)) && not (contains q ps)))
            (Left (b && not (str_eq q p)) ps)
            (remove_all w ps)
          → Leads
              (There (b && not (str_eq q p)))
              (λ _. There (b && not (contains q (p ∷ ps))))
              (Left b (p ∷ ps))
              (remove_all w ps)
      rest k =
          subst
            (λ c.
              Leads (There (b && not (str_eq q p))) (λ _. There c) (Left b (p ∷ ps))
                (remove_all w ps))
            (merged b (str_eq q p) (contains q ps)) (Leads-adapt _ (λ s h. h) (widen b p ps) k)

module _ (w : World) (q : String) (fs : List String) where
  -- The further paths that the runtime config names, where it exists.
  abbrev Named : List String → Type 0
  Named more = named_if w (contains config_path fs) ≡ ok more

  -- The file is there if it was before and is not listed.
  abbrev pub Removed : List String → Type 0
  Removed files =
      (IsListed w fs q → contains q files ≡ false)
      × (¬ IsListed w fs q → contains q files ≡ contains q fs)

  -- The file is there if it was before, or it is listed.
  abbrev pub Spared : List String → Type 0
  Spared files = (contains q files ≡ contains q fs) ⊎ IsListed w fs q

  removed :
      (more files : List String)
      → Named more
      → contains q files ≡ contains q fs && not (contains q (fixed_paths ++ more))
      → Removed files
  removed more files n h = (
    (λ l.
        h
        ∙ ap (λ c. contains q fs && not c) (IsListed-contains w fs q more n l)
        ∙ never (contains q fs)),
    (λ u. h ∙ go u (contains q (fixed_paths ++ more)) refl),
  )
    where
      go :
          ¬ IsListed w fs q
          → (c : Bool) → contains q (fixed_paths ++ more) ≡ c
          → contains q fs && not c ≡ contains q fs
      go u true e = absurd (u (contains-IsListed w fs q more n e))
      go u false e = always (contains q fs)

  abbrev Unchanged : Machine → Type 0
  Unchanged s = s.files ≡ fs

  Unchanged-Spared : (s : Machine) → Unchanged s → Spared s.files
  Unchanged-Spared s h = inl (ap (contains q) h)

  on_daemon-Unchanged :
      {A : Type 0} (m : coda_node.Daemon.M A)
      → Leads Unchanged (λ _. Unchanged) (λ s. Spared s.files) (on_daemon m)
  on_daemon-Unchanged m =
      Leads-part _ _ _ (Leads-Keeps {P = λ h. Unit {0}} m (record { at = λ s h. tt })) (λ s h. tt)
        (λ s h a t u. h) (λ s h t u. Unchanged-Spared s h)

  on_node-Unchanged :
      {A : Type 0} (m : coda_node.Vpn.Node.M A)
      → Leads Unchanged (λ _. Unchanged) (λ s. Spared s.files) (on_node m)
  on_node-Unchanged m =
      Leads-part _ _ _ (Leads-Keeps {P = λ h. Unit {0}} m (record { at = λ s h. tt })) (λ s h. tt)
        (λ s h a t u. h) (λ s h t u. Unchanged-Spared s h)

  -- The paths that are read are the listed ones.
  abbrev Listed : List String → Type 0
  Listed ps = (more : List String) × Named more × (contains q ps ≡ contains q (fixed_paths ++ more))

  read_reset_paths-Listed :
      Leads Unchanged (λ ps s. Listed ps × Unchanged s) (λ s. Spared s.files) (read_reset_paths w)
  unfolding read_reset_paths
  read_reset_paths-Listed =
      Leads-bind _ _ (Leads-gets {Q = λ files s. (files ≡ fs) × Unchanged s} _ (λ s h. (h, h)))
        λ files. Leads-fact _ λ same.
          Leads-bind _ _
            (Leads-lift {Q = λ more s. Named more × Unchanged s} _
              (λ more e s h. (ap (λ gs. named_if w (contains config_path gs)) (sym same) ∙ e, h))
              Unchanged-Spared)
            λ more.
              Leads-fact _
                λ n. Leads-pure _ (λ s h. ((more, n, contains-sort q (fixed_paths ++ more)), h))

  removes :
      (ps : List String)
      → Listed ps
      → Leads {A = ℕ} Unchanged
          (λ _ s. Removed s.files)
          (λ s. Spared s.files)
          (remove_all w ps >> pure 0)
  unfolding There
  removes ps l =
      Leads-bind _ _
        (Leads-adapt _ (λ s h. ap (contains q) h) spared (remove_all-There w q (contains q fs) ps))
        λ _.
          Leads-pure _ (λ s h. removed l.0 s.files l.1 (h ∙ ap (λ c. contains q fs && not c) l.2))
    where
      spared : (s : Machine) → Left w q (contains q fs) ps s → Spared s.files
      spared s (inl h) = inl h
      spared s (inr h) = inr (contains-IsListed w fs q l.0 l.1 (sym l.2 ∙ h))

  reset-Removed : Leads Unchanged (λ _ s. Removed s.files) (λ s. Spared s.files) (reset w)
  unfolding reset
  reset-Removed = Leads-bind _ _ (on_daemon-Unchanged _) λ _.
      Leads-bind _ _ (on_node-Unchanged _)
        λ _. Leads-bind _ _ read_reset_paths-Listed λ ps. Leads-fact _ λ l. removes ps l

-- A reset that returns has removed the seven files of the program, and those that the runtime config
-- names as its key or its VPN profile by a text that is not empty, where the config exists and is an
-- object; any other file is there if it was there before. A reset that raises has removed no other
-- file either.
pub reset_removes :
    (w : World) (q : String) (s : Machine)
    → After (λ _ t. Removed w q s.files t.files) (λ t. Spared w q s.files t.files) (reset w s)
reset_removes w q s = (reset-Removed w q s.files).at s refl
