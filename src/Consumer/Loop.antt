-- ===== src/Consumer/Loop.antt =====
-- The consume loop and crash recovery (server/consumer.py).
use coda_node.Prelude.{
  ℕ, zero, suc, ◌+◌, ◌-◌, ◌*◌, ◌^◌, String, Bool, true, false, not, ◌&&◌, Option, none, some, List,
  [], ◌∷◌, ltb, leb, if◌then◌else◌, length, is_empty, min,
}
use coda_node.Exec.{
  Exn, connection, other, Result, ok, err, pure, lift, gets, modify, ◌>>=◌, ◌>>◌, catching,
}
use coda_node.Consumer.World.{
  Message, xpending_range, xrange, xreadgroup, sleep, in_flight, succeeded, crashed, Progress,
  Delivery, World, Config, Consumer, M, perform,
}
use coda_node.Consumer.Redis.{stream, group, setup}
use coda_node.Consumer.Job.{process_message}
use coda_node.Consumer.Delivery.{work, move_times, until_ended}
use coda_node.Consumer.Batch.{process_each, process_batch}

-- _BATCH_READ_COUNT, _PENDING_RECHECK_SECS and _BACKOFF_MAX
abbrev pub batch_read_count : ℕ
batch_read_count = 100

abbrev pub pending_recheck_secs : ℕ
pending_recheck_secs = 60

abbrev pub backoff_max : ℕ
backoff_max = 60

-- `min(_BACKOFF_BASE * (_BACKOFF_FACTOR ** (failures - 1)), _BACKOFF_MAX)` in floats, where
-- `2.0 ** 1024` and above raise an `OverflowError`.
unfoldable pub backoff : ℕ → Result ℕ
backoff failures =
    if leb 1024 (failures - 1)
    then err (other "(34, 'Numerical result out of range')")
    else ok (min (1 * 2 ^ (failures - 1)) backoff_max)

module _ (w : World) (c : Config) where
  -- One entry of the pending list: 1 if its message is still in the stream.
  unfoldable pub recover_first : String → List Message → M ℕ
  recover_first message_id [] = pure 0
  recover_first message_id ((_, fields) ∷ _) = do process_message w c message_id fields; pure 1

  unfoldable pub recover_each : List String → M ℕ
  recover_each [] = pure 0
  recover_each (message_id ∷ ids) =
      let rest = recover_each ids in
      do
        messages ← perform (xrange (stream c) message_id) w.xrange
        n ← recover_first message_id messages
        m ← rest
        pure (n + m)

  -- RedisConsumer.recover_pending
  unfoldable pub recover_pending : M ℕ
  recover_pending = do
    pending ← perform (xpending_range (stream c) (group c) c.consumer_name 100) w.xpending_range
    recover_each pending

  abbrev pub read_count : ℕ
  read_count = if c.can_batch then batch_read_count else 1

  -- The background delivery goes on while the loop waits in XREADGROUP.
  unfoldable pub background : M (Unit {0})
  background s = elim s.pending_batch_delivery [
    | none ↦ (ok tt, s)
    | some d ↦
        let (d', s') = move_times w c (w.moves s.calls) d s in
        (ok tt, record s' { pending_batch_delivery = some d' })
  ]

  -- What awaiting a task gives.
  abbrev pub awaited : Progress → Result (Unit {0})
  awaited in_flight = ok tt
  awaited succeeded = ok tt
  awaited (crashed e) = err e

  abbrev pub after_wait : Delivery → Consumer → Result (Unit {0}) × Consumer
  after_wait d s = elim (awaited d.progress) [
    | ok _ ↦ (ok tt, record s { pending_batch_delivery = none })
    | err e ↦ (err e, record s { pending_batch_delivery = some d })
  ]

  -- `if self._pending_batch_delivery is not None: await it; forget it`
  unfoldable pub await_delivery : M (Unit {0})
  await_delivery s = elim s.pending_batch_delivery [
    | none ↦ (ok tt, s)
    | some d ↦ let (d', s') = until_ended w c (suc (work d.items)) d s in after_wait d' s'
  ]

  -- Nothing was read: look at the pending list again, at most once a minute.
  unfoldable pub recheck : M (Unit {0})
  recheck = do
    now ← gets (λ s. w.monotonic s.calls)
    last ← gets (λ s. s.last_pending_check)
    if leb pending_recheck_secs (now - last)
        then (do recover_pending; modify (λ s. record s { last_pending_check = now }))
        else pure tt

  unfoldable pub note_delivery : Option Delivery → M (Unit {0})
  note_delivery none = pure tt
  note_delivery (some d) = modify (λ s. record s { pending_batch_delivery = some d })

  unfoldable pub process_streams : List (String × List Message) → M (Unit {0})
  process_streams [] = pure tt
  process_streams ((_, messages) ∷ more) =
      let rest = process_streams more in
      do
        if c.can_batch && ltb 1 (length messages)
            then (do d ← process_batch w c messages; note_delivery d)
            else process_each w c messages
        rest

  -- The `try` block of the loop.
  unfoldable pub read_and_process : M (Unit {0})
  read_and_process = do
    background
    messages ← perform (xreadgroup (group c) c.consumer_name (stream c) read_count) w.xreadgroup
    modify (λ s. record s { redis_healthy = true; consecutive_failures = 0 })
    await_delivery
    if is_empty messages then recheck else process_streams messages

  -- Its `except` clauses.
  unfoldable pub back_off : Exn → M (Unit {0})
  back_off (connection e) = do
    modify
        (λ s. record s { redis_healthy = false; consecutive_failures = s.consecutive_failures + 1 })
    failures ← gets (λ s. s.consecutive_failures)
    delay ← lift (backoff failures)
    perform (sleep delay) (λ _. ok tt)
  back_off e = perform (sleep 1) (λ _. ok tt)

  unfoldable pub iteration : M (Unit {0})
  iteration = catching read_and_process back_off

  -- The first `n` rounds of `while self._running`.
  unfoldable pub rounds : ℕ → M (Unit {0})
  rounds zero = pure tt
  rounds (suc n) =
      let rest = rounds n in
      do
        modify (λ s. record s { running = s.running && not (w.stopped s.calls) })
        running ← gets (λ s. s.running)
        if running then (do iteration; rest) else pure tt

  -- RedisConsumer.consume_loop, up to its `n`th round
  unfoldable pub consume_loop : (String → Bool) → ℕ → M (Unit {0})
  consume_loop busy n = do
    modify (λ s. record s { running = true })
    setup w c busy
    recover_pending
    modify (λ s. record s { consecutive_failures = 0; last_pending_check = w.monotonic s.calls })
    rounds n
