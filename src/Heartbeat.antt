-- ===== src/Heartbeat.antt =====
-- The heartbeat (server/heartbeat.py). The signer, the HTTP client and the consumer that it reports on
-- are a `World`, which answers each call from all calls that were made before.
pub mod Survival
use coda_node.Prelude.{
  ℕ, zero, suc, ◌≡◌, refl, ◌+◌, String, ◌<>◌, Bool, true, false, not, Option, none, some, List, [],
  ◌∷◌, if◌then◌else◌, str_eq, insert, take_chars, strip_text, decimal, arith, Bool-cases,
}
use coda_node.Exec.{
  Exn, other, Result, ok, err, Exec, pure, raise, lift, gets, modify, ◌>>=◌, ◌>>◌, catching,
}
use coda_node.Json.{Json, null, boolean, text, object, Members, last, member, get}

pub data Call : Type 0 where
  post : String → Members → List (String × String) → Call
  sleep : ℕ → Call

pub record Response : Type 0 where
  pub status_code : ℕ
  pub is_success : Bool
  -- `response.json()`, or an exception
  pub body : Result Json
  pub text : String
  pub reason_phrase : String

-- What the heartbeat reads of the consumer.
pub record Readiness : Type 0 where
  pub current_job_id : Option String
  pub last_job_at : Option String
  pub redis_healthy : Bool

pub record World : Type 0 where
  pub sign_token : List Call → Result String
  pub consumer : List Call → Readiness
  pub post : List Call → Result Response
  -- `str(value)` of a JSON value
  pub show : Json → String
  -- whether `stop` has been called
  pub stopped : List Call → Bool

-- HeartbeatClient: what `__init__` fixes.
pub record HeartbeatClient : Type 0 where
  pub url : String
  pub interval : ℕ
  pub connectivity : Json
  pub extra_headers : List (String × String)

pub record State : Type 0 where
  pub running : Bool
  pub calls : List Call

abbrev pub M : Type 0 → Type 0
M A = Exec State A

unfoldable pub perform : {A : Type 0} → Call → (List Call → Result A) → M A
perform c answer s = let calls = c ∷ s.calls in (answer calls, record s { calls = calls })

abbrev nullable : Option String → Json
nullable none = null
nullable (some s) = text s

abbrev merge : List (String × String) → List (String × String) → List (String × String)
merge d [] = d
merge d ((k, v) ∷ more) = merge (insert k v d) more

abbrev or_unknown : String → String
or_unknown s = if str_eq s "" then "unknown error" else s

-- The text of the response, or its reason.
abbrev plain : Response → String
plain r =
    let t = strip_text r.text in
    if str_eq t "" then or_unknown r.reason_phrase else take_chars 800 t

abbrev error_or : (Json → String) → Option Json → String → String
error_or show none t = t
error_or show (some e) t = show e

abbrev from_body : (Json → String) → Result Json → String → String
from_body show (ok (object m)) t = error_or show (get "error" m) t
from_body show _ t = t

-- _format_heartbeat_error_response
abbrev pub format_heartbeat_error_response : (Json → String) → Response → String
format_heartbeat_error_response show r = from_body show r.body (plain r)

module _ (w : World) (c : HeartbeatClient) where
  abbrev pub body : Readiness → Members
  body r = member "current_job" (nullable r.current_job_id) (
      member "last_job_at" (nullable r.last_job_at) (
        member "redis_healthy" (boolean r.redis_healthy)
          (member "connectivity" c.connectivity last)))

  -- HeartbeatClient._send
  unfoldable pub send : M (Unit {0})
  send = do
    signed ← gets (λ s. w.sign_token s.calls)
    token ← lift signed
    r ← gets (λ s. w.consumer s.calls)
    response ←
        perform
          (post c.url (body r) (merge (("Authorization", "Bearer " <> token) ∷ []) c.extra_headers))
          w.post
    if response.is_success
        then pure tt
        else raise (
            other (
              "HTTP "
              <> (decimal response.status_code
                  <> (" from heartbeat endpoint: "
                      <> format_heartbeat_error_response w.show response))))

  -- Both `except` clauses log and go on.
  abbrev pub ignore : Exn → M (Unit {0})
  ignore e = pure tt

  -- The body of the loop.
  unfoldable pub beat : M (Unit {0})
  beat = do catching send ignore; perform (sleep c.interval) (λ cs. ok tt)

  -- The first `n` rounds of `while self._running`.
  unfoldable pub beats : ℕ → M (Unit {0})
  beats zero = pure tt
  beats (suc n) =
      let rest = beats n in
      do
        modify (λ s. record s { running = not (w.stopped s.calls) })
        running ← gets (λ s. s.running)
        if running then (do beat; rest) else pure tt

  -- HeartbeatClient.run, up to its `n`th round
  unfoldable pub run : ℕ → M (Unit {0})
  run n = do modify (λ s. record s { running = true }); beats n
