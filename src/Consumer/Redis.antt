-- ===== src/Consumer/Redis.antt =====
-- The consumer's guarded Redis operations (server/consumer.py).
use coda_node.Prelude.{
  String, ◌<>◌, Bool, true, false, Option, none, some, List, [], ◌∷◌, if◌then◌else◌, insert,
  contains,
}
use coda_node.Exec.{
  Exn, connection, other, Result, ok, err, pure, raise, lift, gets, ◌>>=◌, ◌>>◌, catching,
}
use coda_node.Consumer.World.{
  Raw, str, bytes, Fields, xgroup_create, xack, hset, hget, get, World, Config, M, perform,
}

abbrev pub stream : Config → String
stream c = "qpu:" <> c.qpu_id <> ":jobs"

abbrev pub group : Config → String
group c = "qpu:" <> c.qpu_id <> ":workers"

abbrev pub status_key : String → String
status_key job_id = "qpu:job:" <> job_id <> ":status"

abbrev pub cancel_key : String → String
cancel_key job_id = "qpu:job:cancelled:" <> job_id

module _ (w : World) where
  decode : Raw → Result String
  decode (str s) = ok s
  decode (bytes b) = w.utf8 b

  -- RedisConsumer._decode_fields; a later field with the same name wins.
  decode_onto : List (String × String) → Fields → Result (List (String × String))
  decode_onto d [] = ok d
  decode_onto d ((k, v) ∷ fields) = elim (decode k) [
    | err e ↦ err e
    | ok key ↦ elim (decode v) [ err e ↦ err e | ok text ↦ decode_onto (insert key text d) fields ]
  ]

  unfoldable pub decode_fields : Fields → Result (List (String × String))
  unfolding decode_onto decode
  decode_fields fields = decode_onto [] fields

  -- `datetime.now(UTC).isoformat()`
  unfoldable pub now : M String
  now = gets (λ s. w.now s.calls)

  -- The `except (ConnectionError, OSError, aioredis.ConnectionError)` of the safe operations.
  unfoldable pub unless_connected : Exn → M Bool
  unless_connected (connection e) = pure false
  unless_connected e = raise e

  -- RedisConsumer._safe_hset
  unfoldable pub safe_hset : String → List (String × String) → M Bool
  safe_hset key mapping =
      catching (do perform (hset key mapping) w.hset; pure true) unless_connected

  decode_status : Option Raw → Result (Option String)
  decode_status none = ok none
  decode_status (some raw) = elim (decode raw) [ ok s ↦ ok (some s) | err e ↦ err e ]

  -- RedisConsumer._get_job_status
  unfoldable pub get_job_status : String → M (Option String)
  unfolding decode_status decode
  get_job_status job_id = do
    status_raw ← perform (hget (status_key job_id) "state") w.hget
    lift (decode_status status_raw)

  -- `value is not None`
  abbrev pub is_some : {A : Type 0} → Option A → Bool
  is_some none = false
  is_some (some a) = true

  -- RedisConsumer._has_cancel_signal
  unfoldable pub has_cancel_signal : String → M Bool
  has_cancel_signal job_id = do
    cancel_raw ← perform (get (cancel_key job_id)) w.get
    pure (is_some cancel_raw)

  module _ (c : Config) where
    -- RedisConsumer._safe_xack
    unfoldable pub safe_xack : String → M Bool
    safe_xack message_id =
        catching (do perform (xack (stream c) (group c) message_id) w.xack; pure true)
          unless_connected

    -- RedisConsumer._mark_job_cancelled
    unfoldable pub mark_job_cancelled : String → String → M (Unit {0})
    mark_job_cancelled job_id message_id = do
      at ← now
      safe_hset (status_key job_id) (
          ("state", "cancelled")
          ∷ ("cancelled_at", at)
          ∷ ("message_id", message_id)
          ∷ ("qpu_id", c.qpu_id)
          ∷ [])
      pure tt

    -- `if "BUSYGROUP" not in str(exc): raise`. The client raises `ResponseError` for what the
    -- server refuses; a `World` says by `busy` whether its text names BUSYGROUP.
    unfoldable pub unless_busy : (String → Bool) → Exn → M (Unit {0})
    unless_busy busy (other e) = if busy e then pure tt else raise (other e)
    unless_busy busy e = raise e

    -- RedisConsumer.setup
    unfoldable pub setup : (String → Bool) → M (Unit {0})
    setup busy =
        catching (perform (xgroup_create (stream c) (group c)) w.xgroup_create) (unless_busy busy)

-- `status in {"completed", "cancelled"}`
abbrev pub is_finished : Option String → Bool
is_finished none = false
is_finished (some s) = contains s ("completed" ∷ "cancelled" ∷ [])
