-- ===== src/Consumer/Pending/Stuck.antt =====
-- What becomes of a consumer whose background delivery was ended by an exception (`consume_loop` of
-- server/consumer.py).
use coda_node.Prelude.{
  ℕ, zero, suc, ◌%◌, ◌≡◌, refl, sym, ap, subst, ◌∙◌, inl, inr, String, Option, none, some, List, [],
  ◌∷◌, arith, Bool-cases,
}
use coda_node.Exec.{Exn, connection, Result, pure}
use coda_node.Exec.Keeps.{Keeps, Keeps-modify, Keeps-bind, Keeps-if, Keeps-catching, keeps_rules}
use coda_node.Exec.Leads.{After, Leads, Leads-bind, Keeps-Leads}
use coda_node.Consumer.World.{
  Call, run, batch_run, xreadgroup, sleep, Phase, checking, completing, rechecking, sending,
  cancelling, acking, done, failed, Item, crashed, Delivery, World, Config, Consumer, perform,
}
use coda_node.Consumer.Delivery.{
  has_ended, waiting, Moved, advance, move_nth, settle, move, move_times,
}
use coda_node.Consumer.Loop.{
  background, await_delivery, read_and_process, back_off, iteration, rounds,
}
use coda_node.Consumer.Awaited.{await_delivery_crashed}
use coda_node.Consumer.Cancel.Moves.{after_step, advance_state}

-- How many jobs and batches the executor was given.
abbrev pub runs : List Call → ℕ
runs [] = 0
runs (run ir shots ∷ cs) = suc (runs cs)
runs (batch_run jobs ∷ cs) = suc (runs cs)
runs (_ ∷ cs) = runs cs

-- The pending delivery was ended by `e`.
abbrev pub IsStuck : Exn → Consumer → Type 0
IsStuck e s = (d : Delivery) × (s.pending_batch_delivery ≡ some d) × (d.progress ≡ crashed e)

module _ (w : World) (c : Config) where
  after_step-runs :
      (at : String) (i : Item) (p : Phase) (cs : List Call)
      → runs (after_step w c at i p cs) ≡ runs cs
  after_step-runs at i checking cs = refl
  after_step-runs at i completing cs = refl
  after_step-runs at i rechecking cs = refl
  after_step-runs at i sending cs = refl
  after_step-runs at i cancelling cs = refl
  after_step-runs at i acking cs = refl
  after_step-runs at i done cs = refl
  after_step-runs at i failed cs = refl

  advance-runs :
      (at : String) (i : Item) (p : Phase) (s : Consumer)
      → runs (advance w c at i p s).1.calls ≡ runs s.calls
  advance-runs at i p s =
      ap (λ t. runs t.calls) (advance_state w c at i p s) ∙ after_step-runs at i p s.calls

  move_nth-runs :
      (at : String) (n : ℕ) (is : List Item) (s : Consumer)
      → runs (move_nth w c at n is s).1.calls ≡ runs s.calls
  unfolding move_nth
  move_nth-runs at n [] s = refl
  move_nth-runs at zero (i ∷ is) s = elim (Bool-cases (has_ended i.phase)) [
    | inl e ↦ rw e (move_nth-runs at zero is s)
    | inr e ↦ rw e (advance-runs at i i.phase s)
  ]
  move_nth-runs at (suc n) (i ∷ is) s = elim (Bool-cases (has_ended i.phase)) [
    | inl e ↦ rw e (move_nth-runs at (suc n) is s)
    | inr e ↦ rw e (move_nth-runs at n is s)
  ]

  settle-crashed :
      (d : Delivery) (m : Moved) (s : Consumer) (e : Exn)
      → d.progress ≡ crashed e
      → let (d', s') = settle w c d m s in (d'.progress ≡ crashed e) × (s'.calls ≡ s.calls)
  unfolding settle
  settle-crashed d m s e h = ground arith

  -- A move after the end: the task stays ended, and no job is run.
  move-crashed :
      (d : Delivery) (s : Consumer) (e : Exn)
      → d.progress ≡ crashed e
      → let (d', s') = move w c d s in (d'.progress ≡ crashed e) × (runs s'.calls ≡ runs s.calls)
  unfolding move
  move-crashed d s e h =
      let (p, q) = settle-crashed d m.0 m.1 e h in
      (p, ap runs q ∙ move_nth-runs d.completed_at n d.items s)
    where
      n : ℕ
      n = w.pick s.calls % waiting d.items

      m : Moved × Consumer
      m = move_nth w c d.completed_at n d.items s

  move_times-crashed :
      (n : ℕ) (d : Delivery) (s : Consumer) (e : Exn)
      → d.progress ≡ crashed e
      → let (d', s') = move_times w c n d s in
        (d'.progress ≡ crashed e) × (runs s'.calls ≡ runs s.calls)
  unfolding move_times
  move_times-crashed zero d s e h = (h, refl)
  move_times-crashed (suc n) d s e h =
      let (p, q) = move-crashed d s e h in
      let (p', q') = move_times-crashed n (move w c d s).0 (move w c d s).1 e p in (p', q' ∙ q)

  module _ (e : Exn) (n : ℕ) where
    -- Stuck, and behind `n` runs.
    abbrev W : Consumer → Type 0
    W s = IsStuck e s × (runs s.calls ≡ n)

    background-W : Keeps W (background w c)
    unfolding background
    background-W = record { at = λ s h. go s s.pending_batch_delivery h.0.0 h.0.1 h.0.2 h.1 }
      where
        go :
            (s : Consumer) (o : Option Delivery) (d : Delivery)
            → o ≡ some d
            → d.progress ≡ crashed e
            → runs s.calls ≡ n
            → W (background w c (record s { pending_batch_delivery = o })).1
        go s none d p h r = absurd (cc)
        go s (some b) d p h r =
            let t = record s { pending_batch_delivery = some b } in
            let (k, q) = move_times-crashed (w.moves t.calls) b t e (crash b d p h) in
            (((move_times w c (w.moves t.calls) b t).0, refl, k), q ∙ r)
          where
            crash :
                (b d : Delivery) → some b ≡ some d → d.progress ≡ crashed e → b.progress ≡ crashed e
            crash b d p h = cc

    xreadgroup-W :
        {A : Type 0} (g m s : String) (k : ℕ) (answer : List Call → Result A)
        → Keeps W (perform (xreadgroup g m s k) answer)
    unfolding perform
    xreadgroup-W g m s k answer = record { at = λ s h. h }

    sleep-W :
        {A : Type 0} (k : ℕ) (answer : List Call → Result A) → Keeps W (perform (sleep k) answer)
    unfolding perform
    sleep-W k answer = record { at = λ s h. h }

    -- The await never returns.
    await_delivery-W : Leads W (λ u s. ⊥) W (await_delivery w c)
    await_delivery-W = record {
      at = λ s h.
          subst (After (λ (u : Unit {0}) s. ⊥) W)
            (sym (await_delivery_crashed w c s h.0.0 e h.0.1 h.0.2)) h;
    }

    read_and_process-W : Keeps W (read_and_process w c)
    unfolding read_and_process
    read_and_process-W = Keeps-bind _ _ background-W λ _.
        Keeps-bind _ _ (xreadgroup-W _ _ _ _ _) λ ms.
          Keeps-bind _ _ (Keeps-modify _ (λ s h. h)) λ _. Keeps-Leads _ (λ s h.
            (Leads-bind _ _ await_delivery-W (λ u. record { at = λ t no. absurd no })).at s h)

    back_off-W : (x : Exn) → Keeps W (back_off w c x)
    unfolding back_off
    back_off-W (connection x) = search (keeps_rules, sleep-W, Keeps-modify) depth 9
    back_off-W _ = sleep-W 1 _

    iteration-W : Keeps W (iteration w c)
    unfolding iteration
    iteration-W = Keeps-catching _ _ read_and_process-W back_off-W

    rounds-W : (k : ℕ) → Keeps W (rounds w c k)
    unfolding rounds
    rounds-W zero = search keeps_rules
    rounds-W (suc k) = Keeps-bind _ _ (Keeps-modify _ (λ s h. h)) λ _.
        Keeps-bind _ _ (search keeps_rules) λ b.
          Keeps-if b _ (pure tt) (Keeps-bind _ _ iteration-W (λ _. rounds-W k)) (search keeps_rules)

  -- Once an exception has ended the pending delivery, no later round of the consume loop gives the
  -- executor a job or a batch, and the delivery stays the pending one.
  pub rounds-IsStuck :
      (e : Exn) (s : Consumer) (k : ℕ)
      → IsStuck e s
      → let t = (rounds w c k s).1 in IsStuck e t × (runs t.calls ≡ runs s.calls)
  rounds-IsStuck e s k h = (rounds-W e (runs s.calls) k).at s (h, refl)
