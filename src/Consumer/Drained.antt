-- ===== src/Consumer/Drained.antt =====
-- When draining the consumer raises (`drain` of server/consumer.py).
use coda_node.Prelude.{◌≡◌, refl, Option, none, some}
use coda_node.Exec.{Exn}
use coda_node.Exec.Leads.{
  Leads, Leads-bind, Leads-if, Leads-pure, Leads-raise, Leads-gets, Leads-modify,
}
use coda_node.Consumer.World.{Delivery}
use coda_node.Consumer.Drain.{
  Waited, in_time, late, crashed, Waits, stop, delivered, await_delivery, drain,
}

-- Only by the exception of the delivery that was pending.
pub drain-Leads :
    (waits : Waits)
    → Leads
        (λ s. Unit {0})
        (λ b s. Unit {0})
        (λ s. (e : Exn) × (waits.delivery ≡ crashed e))
        (drain waits)
unfolding drain stop
drain-Leads waits = Leads-bind _ _ (Leads-modify {Q = λ _ s. Unit} _ (λ s h. h)) λ _.
    Leads-bind _ _ (Leads-modify {Q = λ _ s. Unit} _ (λ s h. h)) λ _.
      Leads-if waits.idle _ _
        (λ i. Leads-bind _ _ (Leads-gets {Q = λ o s. Unit} _ (λ s h. h)) λ o. awaited o)
        (λ i. Leads-pure _ (λ s h. h))
  where
    ended :
        (r : Waited)
        → Leads (λ s. Unit {0}) (λ b s. Unit {0}) (λ s. (e : Exn) × (r ≡ crashed e)) (delivered r)
    ended in_time =
        Leads-bind _ _ (Leads-modify {Q = λ _ s. Unit} _ (λ s h. h)) λ _. Leads-pure _ (λ s h. h)
    ended late = Leads-pure _ (λ s h. h)
    ended (crashed e) = Leads-raise e (λ s h. (e, refl))

    awaited :
        (o : Option Delivery)
        → Leads
            (λ s. Unit {0})
            (λ b s. Unit {0})
            (λ s. (e : Exn) × (waits.delivery ≡ crashed e))
            (await_delivery waits o)
    awaited none = Leads-pure _ (λ s h. h)
    awaited (some d) =
        Leads-bind _ _ (Leads-modify {Q = λ _ s. Unit} _ (λ s h. h)) λ _. ended waits.delivery
