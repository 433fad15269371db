-- ===== src/Consumer/Delivery.antt =====
-- The background task that reports a batch (`_deliver_batch_results` and
-- `_deliver_single_batch_result` of server/consumer.py). `asyncio.gather` runs the deliveries side by
-- side, so each stands before one of its awaits, and the world picks which one moves next.
use coda_node.Prelude.{
  ℕ, zero, suc, ◌+◌, ◌%◌, String, Bool, true, false, Option, none, some, List, [], ◌∷◌,
  if◌then◌else◌,
}
use coda_node.Exec.{Exn, Result, ok, err, pure, ◌>>=◌, ◌>>◌, catching}
use coda_node.Consumer.World.{
  send, Phase, checking, completing, rechecking, sending, cancelling, acking, done, failed, Item,
  Progress, in_flight, succeeded, crashed, Delivery, World, Config, Consumer, M, perform,
}
use coda_node.Consumer.Redis.{
  safe_hset, safe_xack, has_cancel_signal, mark_job_cancelled, status_key,
}
use coda_node.Consumer.Job.{completed_payload, ignore}

-- How many moves a delivery still has at most.
abbrev pub phase_work : Phase → ℕ
phase_work checking = 5
phase_work completing = 4
phase_work rechecking = 3
phase_work sending = 2
phase_work cancelling = 2
phase_work acking = 1
phase_work done = 0
phase_work failed = 0

abbrev pub work : List Item → ℕ
work [] = 0
work (i ∷ is) = phase_work i.phase + work is

abbrev pub has_ended : Phase → Bool
has_ended done = true
has_ended failed = true
has_ended _ = false

-- How many deliveries are still on their way.
abbrev pub waiting : List Item → ℕ
waiting [] = 0
waiting (i ∷ is) = if has_ended i.phase then waiting is else suc (waiting is)

abbrev pub all_done : List Item → Bool
all_done [] = true
all_done (i ∷ is) = elim i.phase [ done ↦ all_done is | _ ↦ false ]

-- The outcome of a move: the deliveries, and the exception that one of them raised.
pub record Moved : Type 0 where
  pub items : List Item
  pub raised : Option Exn

abbrev pub moved : Item → List Item → Result Phase → Moved
moved i is (ok p) = record { items = record i { phase = p } ∷ is; raised = none }
moved i is (err e) = record { items = record i { phase = failed } ∷ is; raised = some e }

abbrev pub behind : Item → Moved × Consumer → Moved × Consumer
behind i (m, s) = (record m { items = i ∷ m.items }, s)

abbrev pub is_in_flight : Progress → Bool
is_in_flight in_flight = true
is_in_flight _ = false

module _ (w : World) (c : Config) where
  -- One await of `_deliver_single_batch_result`, and where the delivery stands then.
  unfoldable pub advance : String → Item → Phase → M Phase
  advance at i checking = do
    cancelled ← has_cancel_signal w i.job_id
    pure (if cancelled then cancelling else completing)
  advance at i completing = do
    safe_hset w (status_key i.job_id) (("state", "completed") ∷ ("completed_at", at) ∷ [])
    pure rechecking
  advance at i rechecking = do
    cancelled ← has_cancel_signal w i.job_id
    pure (if cancelled then cancelling else sending)
  advance at i sending = do
    catching (perform (send i.callback_url (completed_payload w i.job_id i.result)) w.send)
        (ignore w)
    pure acking
  advance at i cancelling = do mark_job_cancelled w c i.job_id i.message_id; pure acking
  advance at i acking = do safe_xack w c i.message_id; pure done
  advance at i done = pure done
  advance at i failed = pure failed

  -- The `n`th delivery that has not ended moves.
  unfoldable pub move_nth : String → ℕ → List Item → Consumer → Moved × Consumer
  move_nth at n [] s = (record { items = []; raised = none }, s)
  move_nth at zero (i ∷ is) s =
      let (r, s') = advance at i i.phase s in
      let rest = behind i (move_nth at zero is s) in
      if has_ended i.phase then rest else (moved i is r, s')
  move_nth at (suc n) (i ∷ is) s =
      let passed = behind i (move_nth at (suc n) is s) in
      let next = behind i (move_nth at n is s) in if has_ended i.phase then passed else next

  -- What a move means for the task.
  unfoldable pub settle : Delivery → Moved → Consumer → Delivery × Consumer
  settle d m s = elim d.progress [
    | in_flight ↦ elim m.raised [
      | some e ↦ (record d { items = m.items; progress = crashed e }, record s { idle = true })
      | none ↦
          if all_done m.items
          then (
            record d { items = m.items; progress = succeeded },
            record s { idle = true; last_job_at = some d.completed_at },
          )
          else (record d { items = m.items }, s)
    ]
    | succeeded ↦ (record d { items = m.items }, s)
    | crashed e ↦ (record d { items = m.items }, s)
  ]

  unfoldable pub move : Delivery → Consumer → Delivery × Consumer
  unfolding move_nth settle
  move d s =
      let (m, s') = move_nth d.completed_at (w.pick s.calls % waiting d.items) d.items s in
      settle d m s'

  -- `n` moves of the event loop.
  unfoldable pub move_times : ℕ → Delivery → Consumer → Delivery × Consumer
  move_times zero d s = (d, s)
  move_times (suc n) d s = let (d', s') = move d s in move_times n d' s'

  -- `await self._pending_batch_delivery`: the loop goes on until the task has ended.
  unfoldable pub until_ended : ℕ → Delivery → Consumer → Delivery × Consumer
  until_ended zero d s = (d, s)
  until_ended (suc n) d s =
      let (d', s') = move d s in
      let rest = until_ended n d' s' in if is_in_flight d.progress then rest else (d, s)
