-- ===== src/Consumer/Trace.antt =====
-- What the record of calls says about a job's cancel flag and about acknowledged messages.
use coda_node.Prelude.{◌≡◌, ◌⊎◌, String, none, List, [], ◌∷◌}
use coda_node.Exec.{ok}
use coda_node.Consumer.World.{Call, send, get, hset, xack, World, Config}
use coda_node.Consumer.Redis.{stream, group, cancel_key, status_key}

module _ (w : World) where
  -- The look at the job's cancel flag was the last call, and found no flag.
  pub data Looked (job_id : String) (cs : List Call) : Type 0 where
    looked :
        (before : List Call)
        → cs ≡ get (cancel_key job_id) ∷ before
        → w.get cs ≡ ok none
        → Looked job_id cs

  -- The status of the job was written as completed.
  abbrev pub Written : String → List Call → Type 0
  Written job_id [] = ⊥
  Written job_id (c ∷ cs) =
      ((at : String) × (c
          ≡ hset (status_key job_id) (("state", "completed") ∷ ("completed_at", at) ∷ [])))
      ⊎ Written job_id cs

  -- A look at the job's cancel flag, made after its status was written as completed, found no flag.
  abbrev pub Late : String → List Call → Type 0
  Late job_id [] = ⊥
  Late job_id (c ∷ cs) = (Looked job_id (c ∷ cs) × Written job_id cs) ⊎ Late job_id cs

  -- The look was the last call, but for at most one write of a status.
  pub data Fresh (job_id : String) (cs : List Call) : Type 0 where
    at_once : Looked job_id cs → Fresh job_id cs
    behind_status :
        (key : String) (fields : List (String × String)) (before : List Call)
        → cs ≡ hset key fields ∷ before
        → Looked job_id before
        → Fresh job_id cs

  abbrev pub Rechecked : String → List Call → Type 0
  Rechecked job_id cs = Fresh job_id cs ⊎ Late job_id cs

  -- Every webhook among the calls is cleared, in the sense of `P`.
  abbrev pub AllCleared : (String → List Call → Type 0) → List Call → Type 0
  AllCleared P [] = Unit
  AllCleared P (send url p ∷ cs) = P p.job_id cs × AllCleared P cs
  AllCleared P (_ ∷ cs) = AllCleared P cs

-- The message was acknowledged.
abbrev pub Acked : Config → String → List Call → Type 0
Acked c id [] = ⊥
Acked c id (d ∷ cs) = (d ≡ xack (stream c) (group c) id) ⊎ Acked c id cs
