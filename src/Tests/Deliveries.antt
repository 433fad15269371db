-- ===== src/Tests/Deliveries.antt =====
-- Webhooks against an HTTP service (server/webhook.py).
use coda_node.Prelude.{
  ◌≡◌, ◌≤◌, ◌<◌, ◌^◌, ◌+◌, refl, [], ◌∷◌, arith, some, lookup, ltb, if◌then◌else◌,
}
use coda_node.Exec.{ok}
use coda_node.Webhook.{
  text, response, transport_error, Http, WebhookClient, Body, failed_payload, to_dict,
  post_with_retry, attempts, attempt, classify,
}
use coda_node.Webhook.Payload.{error, lookup-to_dict}
use coda_node.Webhook.Retry.{posts, slept, End, post_with_retry-End, post_with_retry_bounds}

-- A service that is down for the first POST, answers 503 to the second, and takes the third.
abbrev flaky : Http
flaky = record {
  sign = λ es. ok "t";
  answer = λ es.
      if ltb (posts es) 2
      then transport_error "reset"
      else if ltb (posts es) 3
      then response 503
      else response 202;
  status_text = λ code. "server error";
}

abbrev client : WebhookClient
client = record { max_retries = 5; extra_headers = [] }

abbrev body : Body
body = ("job_id", text "j") ∷ []

-- Two failures: the third POST goes through, behind pauses of one and two seconds.
flaky_delivered :
    let (r, es) = post_with_retry flaky client "https://c/w" body [] in
    (r ≡ ok tt) × (posts es ≡ 3) × (slept es ≡ 3)
unfolding post_with_retry attempts attempt classify
flaky_delivered = (refl, refl, refl)

post_with_retry-End_example :
    let (r, after) = post_with_retry flaky client "https://c/w" body [] in
    End flaky client "https://c/w" body [] 5 r after
post_with_retry-End_example = post_with_retry-End flaky client "https://c/w" body [] (omega arith)

post_with_retry_bounds_example :
    let (_, after) = post_with_retry flaky client "https://c/w" body [] in
    (posts after ≤ 0 + 5) × (slept after < 0 + 2 ^ 5)
post_with_retry_bounds_example = post_with_retry_bounds flaky client "https://c/w" body []

lookup-to_dict_example :
    lookup "error" (to_dict (failed_payload "j" "no qubits")) ≡ some (text "no qubits")
lookup-to_dict_example = lookup-to_dict (failed_payload "j" "no qubits") error
