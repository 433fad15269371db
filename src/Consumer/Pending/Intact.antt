-- ===== src/Consumer/Pending/Intact.antt =====
-- The pending delivery of a running consumer: it has seen no exception as long as it runs, so that
-- awaiting it ends (`consume_loop` of server/consumer.py).
use coda_node.Prelude.{
  ℕ, zero, suc, ◌%◌, ◌≡◌, refl, inl, inr, String, Bool, true, false, Option, none, some, List, [],
  ◌∷◌, arith, Bool-cases,
}
use coda_node.Exec.{Result, ok, err, pure}
use coda_node.Exec.Keeps.{Keeps, Keeps-modify, Keeps-bind, Keeps-if, Keeps-bind_Gives, keeps_rules}
use coda_node.Consumer.World.{Message, Item, Delivery, World, Config, Consumer, initial, M}
use coda_node.Consumer.Delivery.{
  work, is_in_flight, Moved, waiting, move_nth, settle, move, move_times, until_ended,
}
use coda_node.Consumer.Loop.{
  background, await_delivery, after_wait, awaited, note_delivery, process_streams, read_and_process,
  iteration, rounds, consume_loop,
}
use coda_node.Consumer.Awaited.{none_failed, IsIntact, PendingIntact, move-Advances}
use coda_node.Consumer.Cancel.Batch.{AllNew, IsNew, process_batch-IsNew}
use coda_node.Consumer.Pending.{
  Rests, perform-Rests, process_each-Rests, process_batch-Rests, recover_pending-Rests,
  recheck-Rests, back_off-Rests, setup-Rests,
}

AllNew-none_failed : (is : List Item) → AllNew is → none_failed is ≡ true
AllNew-none_failed [] h = refl
AllNew-none_failed (i ∷ is) (e, h) = rw e (AllNew-none_failed is h)

module _ (w : World) (c : Config) where
  -- A task that has ended stays ended.
  settle-ended :
      (d : Delivery) (m : Moved) (s : Consumer)
      → is_in_flight d.progress ≡ false
      → is_in_flight (settle w c d m s).0.progress ≡ false
  unfolding settle
  settle-ended d m s h = ground arith

  move-ended :
      (d : Delivery) (s : Consumer)
      → is_in_flight d.progress ≡ false
      → is_in_flight (move w c d s).0.progress ≡ false
  unfolding move
  move-ended d s h = settle-ended d m.0 m.1 h
    where
      m : Moved × Consumer
      m = move_nth w c d.completed_at (w.pick s.calls % waiting d.items) d.items s

  ended-IsIntact : (d : Delivery) → is_in_flight d.progress ≡ false → IsIntact d
  ended-IsIntact d h p = absurd (cc)

  move-IsIntact : (d : Delivery) (s : Consumer) → IsIntact d → IsIntact (move w c d s).0
  move-IsIntact d s intact = elim (Bool-cases (is_in_flight d.progress)) [
    | inl e ↦ elim (move-Advances w c d s e intact) [
      | inl ended ↦ ended-IsIntact (move w c d s).0 ended
      | inr (l, k) ↦ k
    ]
    | inr e ↦ ended-IsIntact (move w c d s).0 (move-ended d s e)
  ]

  move_times-IsIntact :
      (n : ℕ) (d : Delivery) (s : Consumer) → IsIntact d → IsIntact (move_times w c n d s).0
  unfolding move_times
  move_times-IsIntact zero d s h = h
  move_times-IsIntact (suc n) d s h =
      move_times-IsIntact n (move w c d s).0 (move w c d s).1 (move-IsIntact d s h)

  until_ended-IsIntact :
      (n : ℕ) (d : Delivery) (s : Consumer) → IsIntact d → IsIntact (until_ended w c n d s).0
  unfolding until_ended
  until_ended-IsIntact zero d s h = h
  until_ended-IsIntact (suc n) d s h = elim (Bool-cases (is_in_flight d.progress)) [
    | inl e ↦ rw e (until_ended-IsIntact n (move w c d s).0 (move w c d s).1 (move-IsIntact d s h))
    | inr e ↦ rw e h
  ]

  abbrev Intact : Option Delivery → Type 0
  Intact = PendingIntact w c

  abbrev N : {A : Type 0} → M A → Type 0
  N = Keeps (Rests Intact)

  abbrev moved_on : Option Delivery → Consumer → Result (Unit {0}) × Consumer
  moved_on o s = background w c (record s { pending_batch_delivery = o })

  background-Intact : N (background w c)
  unfolding background
  background-Intact = record { at = λ s h. go s s.pending_batch_delivery h }
    where
      go :
          (s : Consumer) (o : Option Delivery)
          → Intact o
          → Rests Intact (background w c (record s { pending_batch_delivery = o })).1
      go s none h = h
      go s (some d) h =
          let t = record s { pending_batch_delivery = some d } in
          move_times-IsIntact (w.moves t.calls) d t h

  after_wait-Intact :
      (d : Delivery) (s : Consumer) → IsIntact d → Rests Intact (after_wait w c d s).1
  after_wait-Intact d s h = go (awaited w c d.progress)
    where
      go :
          (r : Result (Unit {0}))
          → Rests Intact
              (let q : Result (Unit {0}) × Consumer = elim r [
                | ok _ ↦ (ok tt, record s { pending_batch_delivery = none })
                | err e ↦ (err e, record s { pending_batch_delivery = some d })
              ] in
                q).1
      go (ok u) = tt
      go (err e) = h

  await_delivery-Intact : N (await_delivery w c)
  unfolding await_delivery
  await_delivery-Intact = record { at = λ s h. go s s.pending_batch_delivery h }
    where
      go :
          (s : Consumer) (o : Option Delivery)
          → Intact o
          → Rests Intact (await_delivery w c (record s { pending_batch_delivery = o })).1
      go s none h = h
      go s (some d) h =
          let t = record s { pending_batch_delivery = some d } in
          after_wait-Intact (until_ended w c (suc (work d.items)) d t).0
            (until_ended w c (suc (work d.items)) d t).1
            (until_ended-IsIntact (suc (work d.items)) d t h)

  note_delivery-Intact : (o : Option Delivery) → IsNew o → N (note_delivery w c o)
  unfolding note_delivery
  note_delivery-Intact none h = search keeps_rules
  note_delivery-Intact (some d) h = Keeps-modify _ (λ s p e. AllNew-none_failed d.items h)

  process_streams-Intact : (ss : List (String × List Message)) → N (process_streams w c ss)
  unfolding process_streams
  process_streams-Intact [] = search keeps_rules
  process_streams-Intact ((_, ms) ∷ more) =
      Keeps-bind _ _
        (Keeps-if _ _ _
          (Keeps-bind_Gives _ _ (process_batch-Rests Intact w c ms) (process_batch-IsNew w c ms)
            note_delivery-Intact)
          (process_each-Rests Intact w c ms))
        (λ _. process_streams-Intact more)

  read_and_process-Intact : N (read_and_process w c)
  unfolding read_and_process
  read_and_process-Intact =
      search
        (
          keeps_rules, Keeps-modify, perform-Rests, background-Intact, await_delivery-Intact,
          recheck-Rests, process_streams-Intact,
        )
        depth 9

  iteration-Intact : N (iteration w c)
  unfolding iteration
  iteration-Intact = search (keeps_rules, read_and_process-Intact, back_off-Rests)

  rounds-Intact : (n : ℕ) → N (rounds w c n)
  unfolding rounds
  rounds-Intact zero = search keeps_rules
  rounds-Intact (suc n) = Keeps-bind _ _ (Keeps-modify _ (λ s h. h)) λ _.
      Keeps-bind _ _ (search keeps_rules) λ b.
        Keeps-if b _ (pure tt) (Keeps-bind _ _ iteration-Intact (λ _. rounds-Intact n))
          (search keeps_rules)

  consume_loop-Intact : (busy : String → Bool) (n : ℕ) → N (consume_loop w c busy n)
  unfolding consume_loop
  consume_loop-Intact busy n =
      search (keeps_rules, Keeps-modify, setup-Rests, recover_pending-Rests, rounds-Intact) depth 9

  -- After any number of rounds of the consume loop, a pending delivery has seen no exception while it
  -- runs.
  consume_loop_intact :
      (busy : String → Bool) (n : ℕ)
      → PendingIntact w c (consume_loop w c busy n initial).1.pending_batch_delivery
  consume_loop_intact busy n = (consume_loop-Intact busy n).at initial tt
