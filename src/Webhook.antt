-- ===== src/Webhook.antt =====
-- Signed delivery of results with retry (server/webhook.py). Signing and HTTP belong to other
-- packages: an `Http` answers each signature and each POST from what was done before it.
pub mod Payload
pub mod Retry
use coda_node.Exec.{Exec, Exn, other, message, Result, ok, err, ◌>>=◌, ◌>>◌, pure, raise, gets}
use coda_node.Prelude.{
  ℕ, zero, suc, ◌+◌, ◌-◌, ◌^◌, String, ◌<>◌, Bool, true, false, ◌&&◌, Option, none, some, List, [],
  ◌∷◌, ◌++◌, ltb, leb, if◌then◌else◌, insert, ℤ, Float,
}

-- WebhookPayload
pub record WebhookPayload : Type 0 where
  pub job_id : String
  pub status : String
  pub counts : Option (List (String × ℤ))
  pub execution_time_ms : Option Float
  pub shots_completed : Option ℤ
  pub error : Option String

-- WebhookPayloadValue
pub data WebhookPayloadValue : Type 0 where
  histogram : List (String × ℤ) → WebhookPayloadValue
  number : Float → WebhookPayloadValue
  whole : ℤ → WebhookPayloadValue
  text : String → WebhookPayloadValue

abbrev pub Body : Type 0
Body = List (String × WebhookPayloadValue)

-- `if value is not None: result[key] = wrap(value)`
abbrev put_some : {A : Type 0} → String → (A → WebhookPayloadValue) → Option A → Body → Body
put_some key wrap none d = d
put_some key wrap (some a) d = insert key (wrap a) d

-- WebhookPayload.to_dict
unfoldable pub to_dict : WebhookPayload → Body
to_dict p =
    let result : Body = ("job_id", text p.job_id) ∷ ("status", text p.status) ∷ [] in
    let with_counts = put_some "counts" histogram p.counts result in
    let with_time = put_some "execution_time_ms" number p.execution_time_ms with_counts in
    let with_shots = put_some "shots_completed" whole p.shots_completed with_time in
    put_some "error" text p.error with_shots

-- What the client does to the outside, newest first.
pub data Event : Type 0 where
  post : String → List (String × String) → Body → Event
  sleep : ℕ → Event

-- An answered POST, a `httpx.TransportError`, or any other exception.
pub data Reply : Type 0 where
  response : ℕ → Reply
  transport_error : String → Reply
  failure : String → Reply

pub record Http : Type 0 where
  pub sign : List Event → Result String
  pub answer : List Event → Reply
  -- the text of the `HTTPStatusError` that `raise_for_status` raises
  pub status_text : ℕ → String

-- WebhookClient: what its methods read.
pub record WebhookClient : Type 0 where
  pub max_retries : ℕ
  pub extra_headers : List (String × String)

abbrev merge : List (String × String) → List (String × String) → List (String × String)
merge d [] = d
merge d ((k, v) ∷ more) = merge (insert k v d) more

-- `raise_for_status` passes 2xx alone.
abbrev pub is_success : ℕ → Bool
is_success code = leb 200 code && ltb code 300

pub data Attempt : Type 0 where
  delivered : Attempt
  retry : Exn → Attempt
  give_up : Exn → Attempt

-- The `try` block and its `except` clause, for one answer.
unfoldable pub classify : Http → Reply → Attempt
classify http (response code) =
    if is_success code
    then delivered
    else if ltb code 500
    then give_up (other (http.status_text code))
    else retry (other (http.status_text code))
classify http (transport_error e) = retry (other e)
classify http (failure e) = give_up (other e)

module _ (http : Http) (client : WebhookClient) (url : String) (body : Body) where
  pub headers : String → List (String × String)
  headers token = merge (("Authorization", "Bearer " <> token) ∷ []) client.extra_headers

  -- Sign, then POST.
  unfoldable pub attempt : Exec (List Event) Reply
  unfolding headers
  attempt before = elim (http.sign before) [
    | err e ↦ (err e, before)
    | ok token ↦
        let after = post url (headers token) body ∷ before in (ok (http.answer after), after)
  ]

  -- `last_exc` behind the loop: nothing to raise if no attempt was made.
  abbrev raise_last : Option Exn → Exec (List Event) (Unit {0})
  raise_last none before = (ok tt, before)
  raise_last (some e) before = (err e, before)

  -- The loop over the attempts that are left, from attempt `n + 1` on.
  unfoldable pub attempts : ℕ → ℕ → Option Exn → Exec (List Event) (Unit {0})
  unfolding attempt
  attempts zero n last before = raise_last last before
  attempts (suc left) n last before =
      let (r, after) = attempt before in
      elim r [
        | err e ↦ (err e, after)
        | ok reply ↦ elim (classify http reply) [
          | delivered ↦ (ok tt, after)
          | give_up e ↦ (err e, after)
          | retry e ↦ attempts left (n + 1) (some e) (sleep (2 ^ n) ∷ after)
        ]
      ]

  -- WebhookClient._post_with_retry
  unfoldable pub post_with_retry : Exec (List Event) (Unit {0})
  unfolding attempts
  post_with_retry = attempts client.max_retries 0 none

-- WebhookClient.send_result
unfoldable pub send_result :
    Http → WebhookClient → String → WebhookPayload → Exec (List Event) (Unit {0})
unfolding post_with_retry to_dict
send_result http client url p = post_with_retry http client url (to_dict p)

-- The payload of `send_error`.
abbrev pub failed_payload : String → String → WebhookPayload
failed_payload job_id error = record {
  job_id = job_id;
  status = "failed";
  counts = none;
  execution_time_ms = none;
  shots_completed = none;
  error = some error;
}

-- WebhookClient.send_error
unfoldable pub send_error :
    Http → WebhookClient → String → String → String → Exec (List Event) (Unit {0})
unfolding send_result
send_error http client url job_id error = send_result http client url (failed_payload job_id error)
