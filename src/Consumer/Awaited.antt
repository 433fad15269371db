-- ===== src/Consumer/Awaited.antt =====
-- Awaiting the background delivery of a batch (`consume_loop` of server/consumer.py): it comes to an
-- end, and a delivery that an exception ended stays the pending one.
use coda_node.Prelude.{
  ℕ, zero, suc, ◌%◌, ◌<◌, ◌≡◌, refl, sym, ap, ◌∙◌, subst, ◌⊎◌, inl, inr, String, Bool, true, false,
  Option, none, some, List, [], ◌∷◌, arith, if◌then◌else◌, Bool-cases, Option-cases,
}
use coda_node.Exec.{Exn, Result, ok, err}
use coda_node.Exec.Keeps.{Gives, Gives-pure, Gives-bind}
use coda_node.Consumer.World.{
  Phase, checking, completing, rechecking, sending, cancelling, acking, done, failed, Item,
  in_flight, succeeded, crashed, Progress, Delivery, World, Config, Consumer,
}
use coda_node.Consumer.Delivery.{
  phase_work, work, has_ended, waiting, all_done, Moved, moved, behind, is_in_flight, advance,
  move_nth, settle, move, until_ended,
}
use coda_node.Consumer.Loop.{await_delivery, after_wait}

abbrev has_failed : Phase → Bool
has_failed failed = true
has_failed _ = false

-- No delivery of the batch was ended by an exception.
abbrev pub none_failed : List Item → Bool
none_failed [] = true
none_failed (i ∷ is) = if has_failed i.phase then false else none_failed is

-- A task that still runs has seen no exception.
abbrev pub IsIntact : Delivery → Type 0
IsIntact d = is_in_flight d.progress ≡ true → none_failed d.items ≡ true

-- The phase that follows `p` is nearer to the end, and no failure.
abbrev Follows : Phase → Phase → Type 0
Follows p q = (phase_work q < phase_work p) × (has_failed q ≡ false)

Phase-cases : (p : Phase) → (p ≡ done) ⊎ (p ≡ failed) ⊎ (has_ended p ≡ false)
Phase-cases done = inl refl
Phase-cases failed = inr (inl refl)
Phase-cases _ = inr (inr refl)

-- Some delivery is still on its way in a batch that has not ended.
waiting-positive : (is : List Item) → none_failed is ≡ true → all_done is ≡ false → 0 < waiting is
waiting-positive [] n d = absurd (cc)
waiting-positive (i ∷ is) n d = elim (Phase-cases i.phase) [
  | inl e ↦ rw e (waiting-positive is (ground arith) (ground arith))
  | inr (inl e) ↦ absurd (ground arith)
  | inr (inr e) ↦ ground arith
]

Follows-if : (b : Bool) (p q r : Phase) → Follows p q → Follows p r → Follows p (if b then q else r)
Follows-if true p q r f g = f
Follows-if false p q r f g = g

Progress-cases : (p : Progress) → (p ≡ in_flight) ⊎ (p ≡ succeeded) ⊎ ((e : Exn) × (p ≡ crashed e))
Progress-cases in_flight = inl refl
Progress-cases succeeded = inr (inl refl)
Progress-cases (crashed e) = inr (inr (e, refl))

module _ (w : World) (c : Config) where
  advance-Follows :
      (at : String) (i : Item) (p : Phase)
      → has_ended p ≡ false
      → Gives (Follows p) (advance w c at i p)
  unfolding advance
  advance-Follows at i checking h =
      Gives-bind _ _ λ b.
        Gives-pure _ (Follows-if b checking cancelling _ (omega arith, refl) (omega arith, refl))
  advance-Follows at i completing h = Gives-bind _ _ λ b. Gives-pure _ (omega arith, refl)
  advance-Follows at i rechecking h = Gives-bind _ _ λ b.
      Gives-pure _ (Follows-if b rechecking cancelling _ (omega arith, refl) (omega arith, refl))
  advance-Follows at i sending h = Gives-bind _ _ λ b. Gives-pure _ (omega arith, refl)
  advance-Follows at i cancelling h = Gives-bind _ _ λ b. Gives-pure _ (omega arith, refl)
  advance-Follows at i acking h = Gives-bind _ _ λ b. Gives-pure _ (omega arith, refl)
  advance-Follows at i done h = absurd (cc)
  advance-Follows at i failed h = absurd (cc)

  -- A move brings the batch nearer to its end, and marks a failure only if it raises.
  abbrev Nearer : List Item → Moved → Type 0
  Nearer is m =
      (work m.items < work is)
      × (m.raised ≡ none → none_failed is ≡ true → none_failed m.items ≡ true)

  moved-Nearer :
      (i : Item) (is : List Item) (r : Result Phase)
      → has_ended i.phase ≡ false
      → ((q : Phase) → r ≡ ok q → Follows i.phase q)
      → Nearer (i ∷ is) (moved i is r)
  moved-Nearer i is (ok q) h f = (omega (arith, (f q refl).0), λ e n. ground (arith, (f q refl).1))
  moved-Nearer i is (err e) h f = (ground arith, λ e n. absurd (cc))

  behind-Nearer :
      (i : Item) (is : List Item) (q : Moved × Consumer)
      → Nearer is q.0
      → Nearer (i ∷ is) (behind i q).0
  behind-Nearer i is q (l, k) = (omega arith, λ e n. ground (arith, k e))

  move_nth-Nearer :
      (at : String) (n : ℕ) (is : List Item) (s : Consumer)
      → n < waiting is
      → Nearer is (move_nth w c at n is s).0
  unfolding move_nth
  move_nth-Nearer at n [] s h = absurd (omega arith)
  move_nth-Nearer at zero (i ∷ is) s h = elim (Bool-cases (has_ended i.phase)) [
    | inl e ↦ rw e (
        behind-Nearer i is (move_nth w c at zero is s)
          (move_nth-Nearer at zero is s (ground arith)))
    | inr e ↦
        rw e (
          moved-Nearer i is (advance w c at i i.phase s).0 e
            ((advance-Follows at i i.phase e).at s))
  ]
  move_nth-Nearer at (suc n) (i ∷ is) s h = elim (Bool-cases (has_ended i.phase)) [
    | inl e ↦ rw e (
        behind-Nearer i is (move_nth w c at (suc n) is s)
          (move_nth-Nearer at (suc n) is s (ground arith)))
    | inr e ↦
        rw e
          (behind-Nearer i is (move_nth w c at n is s) (move_nth-Nearer at n is s (ground arith)))
  ]

  -- In a batch that has ended, nothing moves.
  move_nth-all_done :
      (at : String) (n : ℕ) (is : List Item) (s : Consumer)
      → all_done is ≡ true
      → move_nth w c at n is s ≡ (record { items = is; raised = none }, s)
  unfolding move_nth
  move_nth-all_done at n [] s h = refl
  move_nth-all_done at zero (i ∷ is) s h = elim (Phase-cases i.phase) [
    | inl e ↦ rw (e, move_nth-all_done at zero is s (ground arith)) refl
    | inr (inl e) ↦ absurd (ground arith)
    | inr (inr e) ↦ absurd (ground arith)
  ]
  move_nth-all_done at (suc n) (i ∷ is) s h = elim (Phase-cases i.phase) [
    | inl e ↦ rw (e, move_nth-all_done at (suc n) is s (ground arith)) refl
    | inr (inl e) ↦ absurd (ground arith)
    | inr (inr e) ↦ absurd (ground arith)
  ]

  -- A task that runs ends with its next move, or comes nearer to its end.
  abbrev pub Advances : Delivery → Delivery → Type 0
  Advances d d' =
      (is_in_flight d'.progress ≡ false) ⊎ ((work d'.items < work d.items) × IsIntact d')

  settle-Advances :
      (d : Delivery) (m : Moved) (s : Consumer)
      → is_in_flight d.progress ≡ true
      → none_failed d.items ≡ true
      → (all_done m.items ≡ true) × (m.raised ≡ none) ⊎ Nearer d.items m
      → Advances d (settle w c d m s).0
  unfolding settle
  settle-Advances d m s p n (inl (a, r)) = inl (ground arith)
  settle-Advances d m s p n (inr (l, k)) = elim (Option-cases m.raised) [
    | inr (e, h) ↦ inl (ground arith)
    | inl h ↦ elim (Bool-cases (all_done m.items)) [
      | inl a ↦ inl (ground arith)
      | inr a ↦ inr (ground arith, λ _. ground (arith, k h n))
    ]
  ]

  pub move-Advances :
      (d : Delivery) (s : Consumer)
      → is_in_flight d.progress ≡ true
      → IsIntact d
      → Advances d (move w c d s).0
  unfolding move
  move-Advances d s p intact = elim (Bool-cases (all_done d.items)) [
    | inl a ↦
        settle-Advances d (m).0 (m).1 p (intact p)
          (inl (rw (move_nth-all_done d.completed_at n d.items s a) (a, refl)))
    | inr a ↦
        let positive = waiting-positive d.items (intact p) a in
        settle-Advances d (m).0 (m).1 p (intact p) (
          inr (
            move_nth-Nearer d.completed_at n d.items s
              (mod-lt (w.pick s.calls) (waiting d.items) positive)))
  ]
    where
      n : ℕ
      n = w.pick s.calls % waiting d.items

      m : Moved × Consumer
      m = move_nth w c d.completed_at n d.items s

      mod-lt : (a b : ℕ) → 0 < b → a % b < b
      mod-lt a b h = omega arith

  until_ended-ended :
      (n : ℕ) (d : Delivery) (s : Consumer)
      → is_in_flight d.progress ≡ false
      → until_ended w c n d s ≡ (d, s)
  unfolding until_ended
  until_ended-ended zero d s h = refl
  until_ended-ended (suc n) d s h = rw h refl

  -- The fuel of `await_delivery` is enough: more moves than `work` counts end the task.
  pub until_ended_ends :
      (n : ℕ) (d : Delivery) (s : Consumer)
      → IsIntact d
      → work d.items < n
      → is_in_flight (until_ended w c n d s).0.progress ≡ false
  unfolding until_ended
  until_ended_ends zero d s intact h = absurd (omega arith)
  until_ended_ends (suc n) d s intact h = elim (Bool-cases (is_in_flight d.progress)) [
    | inr e ↦ rw e e
    | inl e ↦ rw e (elim (move-Advances d s e intact) [
      | inl ended ↦ rw (until_ended-ended n (move w c d s).0 (move w c d s).1 ended) ended
      | inr (l, k) ↦ until_ended_ends n (move w c d s).0 (move w c d s).1 k (omega arith)
    ])
  ]

  after_wait-crashed :
      (d : Delivery) (s : Consumer) (e : Exn)
      → d.progress ≡ crashed e
      → after_wait w c d s ≡ (err e, record s { pending_batch_delivery = some d })
  after_wait-crashed d s e h = ground arith

  abbrev pub PendingIntact : Option Delivery → Type 0
  PendingIntact none = Unit
  PendingIntact (some d) = IsIntact d

  -- How awaiting ends, where the moves led to the delivery `d` in the state `t`: the delivery has
  -- succeeded and none is pending, or an exception has ended it, which is raised, and it stays the
  -- pending one.
  abbrev pub Awaited : Delivery → Consumer → Result (Unit {0}) × Consumer → Type 0
  Awaited d t q =
      ((d.progress ≡ succeeded) × (q ≡ (ok tt, record t { pending_batch_delivery = none })))
      ⊎ ((e : Exn) × (d.progress ≡ crashed e)
          × (q ≡ (err e, record t { pending_batch_delivery = some d })))

  awaits_pending :
      (s : Consumer) (d : Delivery)
      → s.pending_batch_delivery ≡ some d
      → await_delivery w c s
        ≡ after_wait w c
            (until_ended w c (suc (work d.items)) d s).0
            (until_ended w c (suc (work d.items)) d s).1
  unfolding await_delivery
  awaits_pending s d p =
      ap
        (λ o.
          let q : Result (Unit {0}) × Consumer = elim o [
            | none ↦ (ok tt, s)
            | some d ↦
                let (d', s') = until_ended w c (suc (work d.items)) d s in after_wait w c d' s'
          ] in
          q)
        p

  -- Awaiting a pending delivery that has seen no exception while it runs ends: by one move more than
  -- the awaits that its parts have left, in whatever order they move, either the delivery has
  -- succeeded, and none is pending any more; or an exception has ended it, which is raised, and the
  -- delivery stays the pending one.
  pub await_delivery_ends :
      (s : Consumer) (d : Delivery)
      → s.pending_batch_delivery ≡ some d
      → IsIntact d
      → let (d', t) = until_ended w c (suc (work d.items)) d s in
        Awaited d' t (await_delivery w c s)
  await_delivery_ends s d p intact =
      subst
        (Awaited (until_ended w c (suc (work d.items)) d s).0
          (until_ended w c (suc (work d.items)) d s).1)
        (sym (awaits_pending s d p))
        (waited (until_ended w c (suc (work d.items)) d s).0
          (until_ended w c (suc (work d.items)) d s).1
          (until_ended_ends (suc (work d.items)) d s intact (omega arith)))
    where
      waited :
          (d : Delivery) (t : Consumer)
          → is_in_flight d.progress ≡ false
          → Awaited d t (after_wait w c d t)
      waited d t h = elim (Progress-cases d.progress) [
        | inl e ↦ absurd (ground arith)
        | inr (inl e) ↦ inl (e, rw e refl)
        | inr (inr (x, e)) ↦ inr (x, e, after_wait-crashed d t x e)
      ]

  -- A delivery that an exception ended is never forgotten: awaiting it raises that exception again,
  -- changes nothing, and leaves it the pending one.
  pub await_delivery_crashed :
      (s : Consumer) (d : Delivery) (e : Exn)
      → s.pending_batch_delivery ≡ some d
      → d.progress ≡ crashed e
      → await_delivery w c s ≡ (err e, s)
  unfolding await_delivery
  await_delivery_crashed s d e p h =
      ap (λ o. await_delivery w c (record s { pending_batch_delivery = o })) p
      ∙ run
      ∙ ap (λ o. (err e, record s { pending_batch_delivery = o })) (sym p)
    where
      t : Consumer
      t = record s { pending_batch_delivery = some d }

      run : await_delivery w c t ≡ (err e, t)
      run =
          ap (λ q. after_wait w c q.0 q.1) (until_ended-ended (suc (work d.items)) d t (rw h refl))
          ∙ after_wait-crashed d t e h
