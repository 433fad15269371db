-- ===== src/Consumer/Drain.antt =====
-- Stopping the consumer (`stop` and `drain` of server/consumer.py).
use coda_node.Prelude.{Bool, true, false, Option, none, some, if◌then◌else◌}
use coda_node.Exec.{Exn, pure, raise, gets, modify, ◌>>=◌, ◌>>◌}
use coda_node.Consumer.World.{Delivery, Consumer, M}

-- How `asyncio.wait_for` ends.
pub data Waited : Type 0 where
  in_time late : Waited
  crashed : Exn → Waited

-- The event loop during `drain`: whether the consumer becomes idle in time, how the delivery that is
-- still pending ends, and what the other tasks make of the consumer during each of the two waits.
pub record Waits : Type 0 where
  pub idle : Bool
  pub until_idle : Consumer → Consumer
  pub delivery : Waited
  pub until_delivered : Consumer → Consumer

-- RedisConsumer.stop
unfoldable pub stop : M (Unit {0})
stop = modify (λ s. record s { running = false })

abbrev pub delivered : Waited → M Bool
delivered in_time = do modify (λ s. record s { pending_batch_delivery = none }); pure true
delivered late = pure false
delivered (crashed e) = raise e

abbrev pub await_delivery : Waits → Option Delivery → M Bool
await_delivery w none = pure true
await_delivery w (some d) = do modify w.until_delivered; delivered w.delivery

-- RedisConsumer.drain
unfoldable pub drain : Waits → M Bool
drain w = do
  stop
  modify w.until_idle
  if w.idle
      then (do pending ← gets (λ s. s.pending_batch_delivery); await_delivery w pending)
      else pure false
