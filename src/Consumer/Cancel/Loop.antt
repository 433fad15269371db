-- ===== src/Consumer/Cancel/Loop.antt =====
-- What the whole consumer may send: crash recovery, the loop, and its batches.
use coda_node.Prelude.{ℕ, zero, suc, String, Bool, Option, none, some, List, [], ◌∷◌}
use coda_node.Exec.{Exn, connection, other, Result, ok, err, pure}
use coda_node.Exec.Keeps.{Keeps-modify, Keeps-bind, Keeps-if, Keeps-bind_Gives}
use coda_node.Consumer.World.{Message, Delivery, World, Config, Consumer, initial}
use coda_node.Consumer.Redis.{unless_busy, setup}
use coda_node.Consumer.Delivery.{work, move_times, until_ended}
use coda_node.Consumer.Loop.{
  recover_first, recover_each, recover_pending, background, await_delivery, after_wait, awaited,
  recheck, note_delivery, process_streams, read_and_process, back_off, iteration, rounds,
  consume_loop,
}
use coda_node.Consumer.Trace.{Rechecked, AllCleared}
use coda_node.Consumer.Cancel.{rechecked, Pending, Safe, safe_rules}
use coda_node.Consumer.Cancel.Job.{process_message-Safe}
use coda_node.Consumer.Cancel.Moves.{Clean, move_times-Clean, until_ended-Clean}
use coda_node.Consumer.Cancel.Batch.{
  IsNew, AllNew-AllItems, K, process_each-Safe, process_batch-Safe, process_batch-IsNew,
}

module _ (w : World) (c : Config) where
  recover_first-Safe : (id : String) (ms : List Message) → K w c (recover_first w c id ms)
  unfolding recover_first
  recover_first-Safe id [] = search safe_rules
  recover_first-Safe id ((_, fields) ∷ ms) = search (safe_rules, process_message-Safe)

  recover_each-Safe : (ids : List String) → K w c (recover_each w c ids)
  unfolding recover_each
  recover_each-Safe [] = search safe_rules
  recover_each-Safe (id ∷ ids) = Keeps-bind _ _ (search safe_rules) λ ms.
      Keeps-bind _ _ (recover_first-Safe id ms)
        λ n. Keeps-bind _ _ (recover_each-Safe ids) (λ m. search safe_rules)

  recover_pending-Safe : K w c (recover_pending w c)
  unfolding recover_pending
  recover_pending-Safe = search (safe_rules, recover_each-Safe)

  background-Safe : K w c (background w c)
  unfolding background
  background-Safe = record { at = λ s h. go s s.pending_batch_delivery h.1 h }
    where
      go :
          (s : Consumer) (o : Option Delivery)
          → Pending w s.calls o
          → Safe w (rechecked w) s
          → Safe w
              (rechecked w)
              (let q : Result (Unit {0}) × Consumer = elim o [
                | none ↦ (ok tt, s)
                | some d ↦
                    let (d', s') = move_times w c (w.moves s.calls) d s in
                    (ok tt, record s' { pending_batch_delivery = some d' })
              ] in
                q).1
      go s none p h = h
      go s (some d) p h =
          let (safe, items) = move_times-Clean w c (w.moves s.calls) d s (h, p) in (safe.0, items)

  await_delivery-Safe : K w c (await_delivery w c)
  unfolding await_delivery
  await_delivery-Safe = record { at = λ s h. go s s.pending_batch_delivery h.1 h }
    where
      after :
          (d : Delivery) (s : Consumer)
          → Clean w c s d.items
          → Safe w (rechecked w) (after_wait w c d s).1
      after d s (safe, items) = forgotten (awaited w c d.progress)
        where
          forgotten :
              (r : Result (Unit {0}))
              → Safe w
                  (rechecked w)
                  (let q : Result (Unit {0}) × Consumer = elim r [
                    | ok _ ↦ (ok tt, record s { pending_batch_delivery = none })
                    | err e ↦ (err e, record s { pending_batch_delivery = some d })
                  ] in
                    q).1
          forgotten (ok u) = (safe.0, tt)
          forgotten (err e) = (safe.0, items)

      go :
          (s : Consumer) (o : Option Delivery)
          → Pending w s.calls o
          → Safe w (rechecked w) s
          → Safe w
              (rechecked w)
              (let q : Result (Unit {0}) × Consumer = elim o [
                | none ↦ (ok tt, s)
                | some d ↦
                    let (d', s') = until_ended w c (suc (work d.items)) d s in after_wait w c d' s'
              ] in
                q).1
      go s none p h = h
      go s (some d) p h = after _ _ (until_ended-Clean w c (suc (work d.items)) d s (h, p))

  recheck-Safe : K w c (recheck w c)
  unfolding recheck
  recheck-Safe = search (safe_rules, Keeps-modify, recover_pending-Safe) depth 8

  note_delivery-Safe : (o : Option Delivery) → IsNew o → K w c (note_delivery w c o)
  unfolding note_delivery
  note_delivery-Safe none h = search safe_rules
  note_delivery-Safe (some d) h = Keeps-modify _ (λ s p. (p.0, AllNew-AllItems w s.calls d.items h))

  process_streams-Safe : (ss : List (String × List Message)) → K w c (process_streams w c ss)
  unfolding process_streams
  process_streams-Safe [] = search safe_rules
  process_streams-Safe ((_, ms) ∷ more) =
      Keeps-bind _ _
        (Keeps-if _ _ _
          (Keeps-bind_Gives _ _ (process_batch-Safe w c ms) (process_batch-IsNew w c ms)
            note_delivery-Safe)
          (process_each-Safe w c ms))
        (λ _. process_streams-Safe more)

  read_and_process-Safe : K w c (read_and_process w c)
  unfolding read_and_process
  read_and_process-Safe =
      search
        (
          safe_rules, Keeps-modify, background-Safe, await_delivery-Safe, recheck-Safe,
          process_streams-Safe,
        )
        depth 9

  back_off-Safe : (e : Exn) → K w c (back_off w c e)
  unfolding back_off
  back_off-Safe (connection e) = search (safe_rules, Keeps-modify) depth 9
  back_off-Safe _ = search safe_rules

  pub iteration-Safe : K w c (iteration w c)
  unfolding iteration
  iteration-Safe = search (safe_rules, read_and_process-Safe, back_off-Safe)

  rounds-Safe : (n : ℕ) → K w c (rounds w c n)
  unfolding rounds
  rounds-Safe zero = search safe_rules
  rounds-Safe (suc n) = Keeps-bind _ _ (Keeps-modify _ (λ s h. h)) λ _.
      Keeps-bind _ _ (search safe_rules) λ b.
        Keeps-if b _ (pure tt) (Keeps-bind _ _ iteration-Safe (λ _. rounds-Safe n))
          (search safe_rules)

  unless_busy-Safe : (busy : String → Bool) (e : Exn) → K w c (unless_busy w c busy e)
  unfolding unless_busy
  unless_busy-Safe busy (other e) = search safe_rules
  unless_busy-Safe busy (connection e) = search safe_rules
  unless_busy-Safe busy _ = search safe_rules

  setup-Safe : (busy : String → Bool) → K w c (setup w c busy)
  unfolding setup
  setup-Safe busy = search (safe_rules, unless_busy-Safe)

  consume_loop-Safe : (busy : String → Bool) (n : ℕ) → K w c (consume_loop w c busy n)
  unfolding consume_loop
  consume_loop-Safe busy n =
      search (safe_rules, Keeps-modify, setup-Safe, recover_pending-Safe, rounds-Safe) depth 9

  -- Through any number of rounds of the consume loop, single jobs, batches, deliveries in any order
  -- and crash recovery included, each webhook that the consumer sends, of a result or of an error, is
  -- cleared in one of two ways. It stands directly behind a look at its job's cancel flag that found
  -- no flag, with at most one status write between. Or it stands behind such a look that was made
  -- after the status of its job was written as completed.
  pub consume_loop_cleared :
      (busy : String → Bool) (n : ℕ)
      → AllCleared w (Rechecked w) (consume_loop w c busy n initial).1.calls
  consume_loop_cleared busy n = ((consume_loop-Safe busy n).at initial (tt, tt)).0
