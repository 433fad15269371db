-- ===== src/App/Order.antt =====
-- The order of a shutdown, and what can end it early (server/app.py and `drain` of server/consumer.py).
use coda_node.Prelude.{◌≡◌, refl, List, [], ◌∷◌, ◌++◌}
use coda_node.Exec.{Exn, err}
use coda_node.Consumer.Drain.{crashed}
use coda_node.App.{
  Task, watch, consume_loop, heartbeat, Event, cancel, await, stop_guard, close_heartbeat,
  drain_consumer, close_webhook, close_redis, World,
}

-- The events of a shutdown, the first one first.
abbrev pub teardown : List Event
teardown =
    stop_guard
    ∷ cancel watch
    ∷ await watch
    ∷ close_heartbeat
    ∷ cancel heartbeat
    ∷ await heartbeat
    ∷ drain_consumer
    ∷ cancel consume_loop
    ∷ await consume_loop
    ∷ close_webhook
    ∷ close_redis
    ∷ []

-- The events that were before, and behind them `done`, newest first.
abbrev pub onto : List Event → List Event → List Event
onto [] before = before
onto (e ∷ done) before = onto done (e ∷ before)

-- The events are those from before and a first part of the shutdown's.
abbrev pub Cut : List Event → List Event → Type 0
Cut before events =
    (done : List Event) × (left : List Event) × (done ++ left ≡ teardown)
    × (events ≡ onto done before)

-- What ends a shutdown early, right behind its event: a task that had ended with an exception, the
-- delivery of a batch that did, or a client that cannot be closed.
pub data Fault (w : World) : List Event → Type 0 where
  failed_task :
      (task : Task) (es : List Event) {e : Exn}
      → w.await task (await task ∷ es) ≡ err e
      → Fault w (await task ∷ es)
  failed_heartbeat :
      (es : List Event) {e : Exn}
      → w.close_heartbeat (close_heartbeat ∷ es) ≡ err e
      → Fault w (close_heartbeat ∷ es)
  failed_delivery :
      (es : List Event) {e : Exn}
      → (w.drain (drain_consumer ∷ es)).delivery ≡ crashed e
      → Fault w (drain_consumer ∷ es)
  failed_webhook :
      (es : List Event) {e : Exn}
      → w.close_webhook (close_webhook ∷ es) ≡ err e
      → Fault w (close_webhook ∷ es)
  failed_redis :
      (es : List Event) {e : Exn}
      → w.close_redis (close_redis ∷ es) ≡ err e
      → Fault w (close_redis ∷ es)

pub onto-snoc :
    (done before : List Event) (e : Event) → onto (done ++ e ∷ []) before ≡ e ∷ onto done before
onto-snoc [] before e = refl
onto-snoc (d ∷ done) before e = onto-snoc done (d ∷ before) e
