-- ===== src/Consumer/Cancel/Moves.antt =====
-- What the delivery of a batch may send, in whatever order its parts move.
use coda_node.Prelude.{
  ℕ, zero, suc, ◌%◌, ◌≡◌, refl, inl, inr, String, List, [], ◌∷◌, arith, Bool-cases,
}
use coda_node.Exec.{Result, ok, err, ◌>>=◌, catching}
use coda_node.Consumer.World.{
  Call, get, hset, xack, send, Phase, checking, completing, rechecking, sending, cancelling, acking,
  done, failed, Item, Delivery, World, Config, Consumer, perform,
}
use coda_node.Consumer.Redis.{
  stream, group, cancel_key, status_key, now, safe_hset, safe_xack, unless_connected,
  has_cancel_signal, mark_job_cancelled,
}
use coda_node.Consumer.Job.{completed_payload}
use coda_node.Consumer.Delivery.{
  Moved, advance, move_nth, settle, move, move_times, until_ended, is_in_flight, has_ended, moved,
  waiting,
}
use coda_node.Consumer.Trace.{looked}
use coda_node.Consumer.Cancel.{
  rechecked, IsCleared, AllItems, AllItems-cons, IsCleared-cons, Pending-cons, Safe,
}

module _ (w : World) (c : Config) where
  -- The calls after one await of a delivery.
  abbrev pub after_step : String → Item → Phase → List Call → List Call
  after_step at i checking cs = get (cancel_key i.job_id) ∷ cs
  after_step at i completing cs =
      hset (status_key i.job_id) (("state", "completed") ∷ ("completed_at", at) ∷ []) ∷ cs
  after_step at i rechecking cs = get (cancel_key i.job_id) ∷ cs
  after_step at i sending cs = send i.callback_url (completed_payload w i.job_id i.result) ∷ cs
  after_step at i cancelling cs =
      hset (status_key i.job_id) (
        ("state", "cancelled")
        ∷ ("cancelled_at", w.now cs)
        ∷ ("message_id", i.message_id)
        ∷ ("qpu_id", c.qpu_id)
        ∷ [])
      ∷ cs
  after_step at i acking cs = xack (stream c) (group c) i.message_id ∷ cs
  after_step at i done cs = cs
  after_step at i failed cs = cs

  pub advance_state :
      (at : String) (i : Item) (p : Phase) (s : Consumer)
      → (advance w c at i p s).1 ≡ record s { calls = after_step at i p s.calls }
  unfolding advance has_cancel_signal mark_job_cancelled now safe_hset safe_xack unless_connected
      perform catching ◌>>=◌
  advance_state at i checking s = ground arith
  advance_state at i _ s = ground arith

  abbrev pub Clean : Consumer → List Item → Type 0
  Clean s is = Safe w (rechecked w) s × AllItems w s.calls is

  -- What a delivery has seen stays seen.
  abbrev Mono : Consumer → Consumer → Type 0
  Mono s t = (i : Item) (p : Phase) → IsCleared w s.calls i p → IsCleared w t.calls i p

  step-Safe :
      (at : String) (i : Item) (p : Phase) (s : Consumer)
      → IsCleared w s.calls i p
      → Safe w (rechecked w) s
      → Safe w (rechecked w) (record s { calls = after_step at i p s.calls })
  step-Safe at i sending s l h =
      ((inr l, h.0), Pending-cons w _ s.calls s.pending_batch_delivery h.1)
  step-Safe at i done s l h = h
  step-Safe at i failed s l h = h
  step-Safe at i _ s l h = (h.0, Pending-cons w _ s.calls s.pending_batch_delivery h.1)

  step-Mono :
      (at : String) (i : Item) (p : Phase) (s : Consumer)
      → Mono s (record s { calls = after_step at i p s.calls })
  step-Mono at i done s j q h = h
  step-Mono at i failed s j q h = h
  step-Mono at i checking s j q h = IsCleared-cons w _ s.calls j q h
  step-Mono at i _ s j q h = IsCleared-cons w _ s.calls j q h

  AllItems-step :
      (at : String) (i : Item) (p : Phase) (s : Consumer) (is : List Item)
      → AllItems w s.calls is
      → AllItems w (after_step at i p s.calls) is
  AllItems-step at i done s is h = h
  AllItems-step at i failed s is h = h
  AllItems-step at i checking s is h = AllItems-cons w _ s.calls is h
  AllItems-step at i _ s is h = AllItems-cons w _ s.calls is h

  -- The phase that an await leads to.
  advance-IsCleared :
      (at : String) (i : Item) (p q : Phase) (s : Consumer)
      → IsCleared w s.calls i p
      → (advance w c at i p s).0 ≡ ok q
      → IsCleared w (after_step at i p s.calls) i q
  unfolding advance has_cancel_signal mark_job_cancelled now safe_hset safe_xack unless_connected
      perform catching ◌>>=◌
  advance-IsCleared at i p checking s l h = tt
  advance-IsCleared at i completing rechecking s l h = inl (at, refl)
  advance-IsCleared at i p rechecking s l h = absurd (ground arith)
  advance-IsCleared at i rechecking sending s l h = inl (looked s.calls refl (ground arith), l)
  advance-IsCleared at i p sending s l h = absurd (ground arith)
  advance-IsCleared at i p _ s l h = tt

  -- What holds after a move holds with a delivery in front that did not move.
  behind_Clean :
      (i : Item) (s : Consumer) (q : Moved × Consumer)
      → Clean q.1 q.0.items × Mono s q.1
      → IsCleared w s.calls i i.phase
      → Clean q.1 (i ∷ q.0.items) × Mono s q.1
  behind_Clean i s q (h, mono) l = ((h.0, (mono i i.phase l, h.1)), mono)

  moved-Clean :
      (at : String) (i : Item) (is : List Item) (r : Result Phase) (t s : Consumer)
      → t ≡ record s { calls = after_step at i i.phase s.calls }
      → ((q : Phase) → r ≡ ok q → IsCleared w (after_step at i i.phase s.calls) i q)
      → Safe w (rechecked w) s
      → IsCleared w s.calls i i.phase
      → AllItems w s.calls is
      → Clean t (moved i is r).items × Mono s t
  moved-Clean at i is r t s e q safe l rest = rw e (go r q)
    where
      u : Consumer
      u = record s { calls = after_step at i i.phase s.calls }

      items : AllItems w u.calls is
      items = AllItems-step at i i.phase s is rest

      go :
          (r : Result Phase)
          → ((q : Phase) → r ≡ ok q → IsCleared w u.calls i q)
          → Clean u (moved i is r).items × Mono s u
      go (ok p) q = ((step-Safe at i i.phase s l safe, (q p refl, items)), step-Mono at i i.phase s)
      go (err x) q = ((step-Safe at i i.phase s l safe, (tt, items)), step-Mono at i i.phase s)

  -- One move of the `n`th delivery on its way.
  move_nth-Clean :
      (at : String) (n : ℕ) (is : List Item) (s : Consumer)
      → Clean s is
      → let (m, t) = move_nth w c at n is s in Clean t m.items × Mono s t
  unfolding move_nth
  move_nth-Clean at n [] s h = (h, λ j q x. x)
  move_nth-Clean at zero (i ∷ is) s (safe, (l, rest)) = elim (Bool-cases (has_ended i.phase)) [
    | inl e ↦
        rw e (
          behind_Clean i s (move_nth w c at zero is s) (move_nth-Clean at zero is s (safe, rest)) l)
    | inr e ↦ rw e (
        moved-Clean at i is (advance w c at i i.phase s).0 (advance w c at i i.phase s).1 s
          (advance_state at i i.phase s) (λ q p. advance-IsCleared at i i.phase q s l p) safe l
          rest)
  ]
  move_nth-Clean at (suc n) (i ∷ is) s (safe, (l, rest)) = elim (Bool-cases (has_ended i.phase)) [
    | inl e ↦ rw e (
        behind_Clean i s (move_nth w c at (suc n) is s)
          (move_nth-Clean at (suc n) is s (safe, rest)) l)
    | inr e ↦
        rw e (behind_Clean i s (move_nth w c at n is s) (move_nth-Clean at n is s (safe, rest)) l)
  ]

  -- Settling the task changes no delivery and makes no call.
  settle_keeps :
      (d : Delivery) (m : Moved) (s : Consumer)
      → let (d', s') = settle w c d m s in
        (d'.items ≡ m.items)
        × (s'.calls ≡ s.calls)
        × (s'.pending_batch_delivery ≡ s.pending_batch_delivery)
  unfolding settle
  settle_keeps d m s = ground arith

  settle-Clean :
      (d : Delivery) (m : Moved) (s : Consumer)
      → Clean s m.items
      → let (d', s') = settle w c d m s in Clean s' d'.items
  settle-Clean d m s h =
      let (items, calls, pending) = settle_keeps d m s in rw (items, calls, pending) h

  move-Clean :
      (d : Delivery) (s : Consumer)
      → Clean s d.items
      → let (d', s') = move w c d s in Clean s' d'.items
  unfolding move
  move-Clean d s h =
      settle-Clean d _ _
        (move_nth-Clean d.completed_at (w.pick s.calls % waiting d.items) d.items s h).0

  pub move_times-Clean :
      (n : ℕ) (d : Delivery) (s : Consumer)
      → Clean s d.items
      → let (d', s') = move_times w c n d s in Clean s' d'.items
  unfolding move_times
  move_times-Clean zero d s h = h
  move_times-Clean (suc n) d s h = move_times-Clean n _ _ (move-Clean d s h)

  pub until_ended-Clean :
      (n : ℕ) (d : Delivery) (s : Consumer)
      → Clean s d.items
      → let (d', s') = until_ended w c n d s in Clean s' d'.items
  unfolding until_ended
  until_ended-Clean zero d s h = h
  until_ended-Clean (suc n) d s h = elim (Bool-cases (is_in_flight d.progress)) [
    | inl e ↦ rw e (until_ended-Clean n _ _ (move-Clean d s h))
    | inr e ↦ rw e h
  ]
