-- ===== src/Webhook/Payload.antt =====
-- What the JSON of a payload holds.
use coda_node.Prelude.{◌≡◌, String, Option, none, some, arith, lookup}
use coda_node.Webhook.{WebhookPayload, WebhookPayloadValue, histogram, number, whole, text, to_dict}

-- The keys of a payload, as the cloud reads them.
pub data Key : Type 0 where
  job_id status counts execution_time_ms shots_completed error : Key

abbrev pub name : Key → String
name job_id = "job_id"
name status = "status"
name counts = "counts"
name execution_time_ms = "execution_time_ms"
name shots_completed = "shots_completed"
name error = "error"

abbrev wrap : {A : Type 0} → (A → WebhookPayloadValue) → Option A → Option WebhookPayloadValue
wrap f none = none
wrap f (some a) = some (f a)

abbrev pub field : WebhookPayload → Key → Option WebhookPayloadValue
field p job_id = some (text p.job_id)
field p status = some (text p.status)
field p counts = wrap histogram p.counts
field p execution_time_ms = wrap number p.execution_time_ms
field p shots_completed = wrap whole p.shots_completed
field p error = wrap text p.error

-- Each key of the serialized payload is there exactly if its field is not `None`, with its value.
pub lookup-to_dict : (p : WebhookPayload) (k : Key) → lookup (name k) (to_dict p) ≡ field p k
unfolding to_dict
lookup-to_dict p job_id = ground arith
lookup-to_dict p _ = ground arith
