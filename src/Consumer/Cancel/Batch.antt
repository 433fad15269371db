-- ===== src/Consumer/Cancel/Batch.antt =====
-- What a batch may send.
use coda_node.Prelude.{◌≡◌, refl, String, Option, none, some, List, [], ◌∷◌, ℤ}
use coda_node.Exec.{Result, ok, err}
use coda_node.Exec.Keeps.{Keeps, Keeps-modify, Keeps-bind, Gives, Gives-pure, Gives-if, Gives-bind}
use coda_node.Ir.{NativeGateIr}
use coda_node.Consumer.World.{
  ExecutionResult, Message, Call, checking, Item, Delivery, World, Config, M,
}
use coda_node.Consumer.Batch.{
  Parsed, drop, keep, screen_job, screen, screen_all, mark_all_executing, process_each, fall_back,
  pair, begin, dispatch_results, run_batch, process_batch, outcome,
}
use coda_node.Consumer.Cancel.{rechecked, AllItems, Safe, mark_job_cancelled-Safe, safe_rules}
use coda_node.Consumer.Cancel.Job.{process_message-Safe}

-- The deliveries of a new task have not begun.
abbrev pub AllNew : List Item → Type 0
AllNew [] = Unit
AllNew (i ∷ is) = (i.phase ≡ checking) × AllNew is

abbrev pub IsNew : Option Delivery → Type 0
IsNew none = Unit
IsNew (some d) = AllNew d.items

pub AllNew-AllItems : (w : World) (cs : List Call) (is : List Item) → AllNew is → AllItems w cs is
AllNew-AllItems w cs [] h = tt
AllNew-AllItems w cs (i ∷ is) (e, h) = (rw e tt, AllNew-AllItems w cs is h)

abbrev AllPaired : Result (List Item) → Type 0
AllPaired (ok is) = AllNew is
AllPaired (err e) = Unit

module _ (w : World) (c : Config) where
  abbrev pub K : {A : Type 0} → M A → Type 0
  K = Keeps (Safe w (rechecked w))

  drop-Safe : (id : String) → K (drop w c id)
  unfolding drop
  drop-Safe id = search safe_rules

  keep-Safe :
      (id job_id url : String) (r : Result (NativeGateIr × ℤ)) → K (keep w c id job_id url r)
  unfolding keep
  keep-Safe id job_id url (ok (ir, shots)) = search safe_rules
  keep-Safe id job_id url (err e) = drop-Safe id

  screen_job-Safe :
      (id : String) (decoded : List (String × String)) (r : Result (String × String))
      → K (screen_job w c id decoded r)
  unfolding screen_job
  screen_job-Safe id decoded (err e) = drop-Safe id
  screen_job-Safe id decoded (ok (job_id, url)) =
      search (safe_rules, drop-Safe, keep-Safe, mark_job_cancelled-Safe) depth 7

  screen-Safe : (m : Message) → K (screen w c m)
  unfolding screen
  screen-Safe (id, fields) = search (safe_rules, screen_job-Safe)

  screen_all-Safe : (ms : List Message) → K (screen_all w c ms)
  unfolding screen_all
  screen_all-Safe [] = search safe_rules
  screen_all-Safe (m ∷ ms) =
      Keeps-bind _ _ (screen-Safe m)
        λ p. Keeps-bind _ _ (screen_all-Safe ms) (λ ps. search safe_rules)

  mark_all_executing-Safe : (ps : List Parsed) → K (mark_all_executing w c ps)
  unfolding mark_all_executing
  mark_all_executing-Safe [] = search safe_rules
  mark_all_executing-Safe (p ∷ ps) =
      Keeps-bind _ _ (search safe_rules)
        λ at. Keeps-bind _ _ (search safe_rules) (λ _. mark_all_executing-Safe ps)

  pub process_each-Safe : (ms : List Message) → K (process_each w c ms)
  unfolding process_each
  process_each-Safe [] = search safe_rules
  process_each-Safe ((id, fields) ∷ ms) =
      Keeps-bind _ _ (process_message-Safe w (rechecked w) c id fields) (λ _. process_each-Safe ms)

  begin-Safe : (at : String) (r : Result (List Item)) → K (begin w c at r)
  unfolding begin
  begin-Safe at (ok is) = search safe_rules
  begin-Safe at (err e) = search (safe_rules, Keeps-modify)

  dispatch_results-Safe :
      (ms : List Message) (ps : List Parsed) (r : Result (List ExecutionResult))
      → K (dispatch_results w c ms ps r)
  unfolding dispatch_results
  dispatch_results-Safe ms ps (err e) = search (safe_rules, process_each-Safe)
  dispatch_results-Safe ms ps (ok rs) = search (safe_rules, begin-Safe)

  outcome-Safe : (m : M (List ExecutionResult)) → K m → K (outcome w c m)
  outcome-Safe m k = record { at = λ s h. k.at s h }

  run_batch-Safe : (ms : List Message) (ps : List Parsed) → K (run_batch w c ms ps)
  unfolding run_batch
  run_batch-Safe ms ps =
      search
        (
          safe_rules, Keeps-modify, mark_all_executing-Safe, outcome-Safe, dispatch_results-Safe,
          process_each-Safe,
        )
        depth 9

  pub process_batch-Safe : (ms : List Message) → K (process_batch w c ms)
  unfolding process_batch
  process_batch-Safe ms = search (safe_rules, screen_all-Safe, run_batch-Safe)

  pair-AllNew : (ps : List Parsed) (rs : List ExecutionResult) → AllPaired (pair w c ps rs)
  unfolding pair
  pair-AllNew [] [] = tt
  pair-AllNew [] (r ∷ rs) = tt
  pair-AllNew (p ∷ ps) [] = tt
  pair-AllNew (p ∷ ps) (r ∷ rs) = front (pair w c ps rs) (pair-AllNew ps rs)
    where
      front :
          (q : Result (List Item))
          → AllPaired q
          → AllPaired (elim q [
            | err e ↦ err e
            | ok is ↦ ok (
                record {
                  message_id = p.message_id;
                  job_id = p.job_id;
                  callback_url = p.callback_url;
                  result = r;
                  phase = checking;
                }
                ∷ is)
          ])
      front (ok is) h = (refl, h)
      front (err e) h = tt

  fall_back-IsNew : (ms : List Message) → Gives IsNew (fall_back w c ms)
  fall_back-IsNew ms = Gives-bind _ _ (λ _. Gives-pure none tt)

  begin-IsNew : (at : String) (q : Result (List Item)) → AllPaired q → Gives IsNew (begin w c at q)
  unfolding begin
  begin-IsNew at (ok is) h = Gives-pure _ h
  begin-IsNew at (err e) h = Gives-bind _ _ (λ _. Gives-pure _ tt)

  dispatch_results-IsNew :
      (ms : List Message) (ps : List Parsed) (r : Result (List ExecutionResult))
      → Gives IsNew (dispatch_results w c ms ps r)
  unfolding dispatch_results
  dispatch_results-IsNew ms ps (err e) = fall_back-IsNew ms
  dispatch_results-IsNew ms ps (ok rs) = Gives-bind _ _ (λ at. begin-IsNew at _ (pair-AllNew ps rs))

  pub process_batch-IsNew : (ms : List Message) → Gives IsNew (process_batch w c ms)
  unfolding process_batch run_batch
  process_batch-IsNew ms = Gives-bind _ _ λ ps. Gives-if _ _ _ (Gives-pure none tt) (
      Gives-bind _ _ λ _. Gives-bind _ _ λ _. Gives-bind _ _ λ b.
        Gives-if _ _ _ (Gives-bind _ _ (λ r. dispatch_results-IsNew ms ps r)) (fall_back-IsNew ms))
