-- ===== src/Exec/Part.antt =====
-- An action of one component, run as an action of the whole that the component is a part of.
use coda_node.Exec.{Result, ok, err, Exec}
use coda_node.Exec.Leads.{After, Leads}

module _ {S T A : Type 0} where
  unfoldable pub part : (S → T) → (T → S → S) → Exec T A → Exec S A
  part read write m s = let (r, t) = m (read s) in (r, write t s)

  -- What the component's action leads to, seen from the whole.
  pub Leads-part :
      {P' : T → Type 0} {Q' : A → T → Type 0} {E' : T → Type 0} {P E : S → Type 0}
      {Q : A → S → Type 0} (read : S → T) (write : T → S → S) (m : Exec T A)
      → Leads P' Q' E' m
      → ((s : S) → P s → P' (read s))
      → ((s : S) → P s → (a : A) (t : T) → Q' a t → Q a (write t s))
      → ((s : S) → P s → (t : T) → E' t → E (write t s))
      → Leads P Q E (part read write m)
  unfolding part
  Leads-part {P'} {Q'} {E'} {P} {E} {Q} read write m k before returned raised = record {
    at = λ s h. go s h (m (read s)).0 (m (read s)).1 (k.at (read s) (before s h));
  }
    where
      go : (s : S) → P s → (r : Result A) (t : T) → After Q' E' (r, t) → After Q E (r, write t s)
      go s h (ok a) t q = returned s h a t q
      go s h (err e) t q = raised s h t q
