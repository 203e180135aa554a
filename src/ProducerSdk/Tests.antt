-- ===== src/ProducerSdk/Tests.antt =====
-- A health event of a producer, and the theorems at work on it.
use event_driven_data_platfo.Base.{
  ℕ, ◌≡◌, refl, Bool, not, String, none, some, [], ◌∷◌, ltb, eqb, if◌then◌else◌,
}
use event_driven_data_platfo.Base.Int.{pos}
use event_driven_data_platfo.Events.Types.{system_health}
use event_driven_data_platfo.Events.Values.{text, null, integer}
use event_driven_data_platfo.Events.Envelopes.{Datetime, Fresh}
use event_driven_data_platfo.Events.Identity.{idempotent_event_id}
use event_driven_data_platfo.ProducerSdk.{
  ProducerEvent, EventRequest, Attempt, response, transport_error, returned, status_error,
  request_with_retries,
}
use event_driven_data_platfo.ProducerSdk.Retries.{IsStopped, request_with_retries-IsStopped}

abbrev is_error : ℕ → Bool
is_error status = not (ltb status 400)

-- The first attempt does not reach the server, the second finds it unavailable, the third succeeds.
abbrev recovers : ℕ → Attempt
recovers n = if eqb n 1 then transport_error else if eqb n 2 then response 503 else response 202

abbrev refuses : ℕ → Attempt
refuses n = response 422

third_attempt :
    request_with_retries is_error 3 recovers
    ≡ record { answer = returned 202; requests = 3; waited = 3 }
unfolding request_with_retries
third_attempt = refl

one_attempt :
    request_with_retries is_error 3 refuses
    ≡ record { answer = status_error 422; requests = 1; waited = 0 }
unfolding request_with_retries
one_attempt = refl

request_with_retries-IsStopped_example :
    IsStopped is_error recovers 1 2 (request_with_retries is_error 3 recovers)
request_with_retries-IsStopped_example = request_with_retries-IsStopped is_error recovers 2

abbrev digest : String → String
digest s = "0123456789abcdef0123456789abcdef"

abbrev at : Datetime
at = record { wall = 5; offset = some (pos 0) }

abbrev health : ProducerEvent ℕ
health = record {
  tenant_id = "acme";
  event_type_text = "system.health";
  payload = ("service_name", text "shop") ∷ ("status", text "up") ∷ [];
  source_service = "shop";
  idempotency_key = "health-1";
  payload_version = pos 1;
  event_timestamp = some at;
  trace_id = none;
}

abbrev request : EventRequest ℕ
request = record {
  event_id = idempotent_event_id digest "acme" system_health "shop" "health-1";
  tenant_id = "acme";
  event_type_text = "system.health";
  source_service = "shop";
  idempotency_key = "health-1";
  payload_version = pos 1;
  event_timestamp = at;
  trace_id = none;
  payload =
      ("service_name", text "shop")
      ∷ ("status", text "up")
      ∷ ("latency_ms", null)
      ∷ ("error_count", integer (pos 0))
      ∷ ("throughput_per_minute", null)
      ∷ ("kafka_lag", null)
      ∷ ("cache_hit_rate", null)
      ∷ ("message", null)
      ∷ [];
}

abbrev fresh : Fresh
fresh = record { fresh_event_id = "e-9"; fresh_trace_id = "t-9"; now = at }
