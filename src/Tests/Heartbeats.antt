-- ===== src/Tests/Heartbeats.antt =====
-- Heartbeats to a cloud that rejects them (server/heartbeat.py).
use coda_node.Prelude.{◌≡◌, refl, String, true, false, none, []}
use coda_node.Exec.{ok}
use coda_node.Json.{Json, null, text, object, member, last}
use coda_node.Heartbeat.{
  World, HeartbeatClient, State, Response, run, format_heartbeat_error_response,
}
use coda_node.Heartbeat.Survival.{Survived, run_survives}

abbrev rejection : Response
rejection = record {
  status_code = 422;
  is_success = false;
  body = ok (object (member "error" (text "wrong topology") last));
  text = "";
  reason_phrase = "Unprocessable Entity";
}

abbrev unwrap : Json → String
unwrap (text s) = s
unwrap _ = ""

rejection_text : format_heartbeat_error_response unwrap rejection ≡ "wrong topology"
rejection_text = refl

abbrev cloud : World
cloud = record {
  sign_token = λ cs. ok "t";
  consumer = λ cs. record { current_job_id = none; last_job_at = none; redis_healthy = true };
  post = λ cs. ok rejection;
  show = unwrap;
  stopped = λ cs. false;
}

abbrev client : HeartbeatClient
client = record {
  url = "https://c/heartbeat";
  interval = 30;
  connectivity = null;
  extra_headers = [];
}

abbrev fresh : State
fresh = record { running = false; calls = [] }

run_survives_example : Survived cloud client 3 fresh (run cloud client 3 fresh)
run_survives_example = run_survives cloud client (λ cs. refl) 3 fresh
