-- ===== src/Ingestion/Tests.antt =====
-- A request that is sent twice, and the theorems at work on it.
use event_driven_data_platfo.Base.{
  ℕ, ◌≡◌, refl, String, Option, none, some, List, [], ◌∷◌, lookup, strip, code_points,
}
use event_driven_data_platfo.Base.Int.{pos}
use event_driven_data_platfo.Auth.{can_access, TenantPrincipal}
use event_driven_data_platfo.Events.Types.{system_alert, event_type}
use event_driven_data_platfo.Events.Values.{integer, text, null}
use event_driven_data_platfo.Events.Payloads.{validate_event_payload}
use event_driven_data_platfo.Events.Envelopes.{
  EventEnvelope, Fresh, build_envelope, validate_envelope,
}
use event_driven_data_platfo.Events.Samples.{floats, conversions}
use event_driven_data_platfo.Publishing.{Metadata}
use event_driven_data_platfo.Ingestion.{
  publish_envelope, ingest_event, IngestEventRequest, envelope_input, build_request_envelope,
  ingest_batch,
}
use event_driven_data_platfo.Ingestion.Batches.{HasHanded, count_accessible, ingest_batch-publishes}
use event_driven_data_platfo.Ingestion.Retried.{retried_request_id}

abbrev digest : String → String
digest s = "0123"

abbrev alert_request : IngestEventRequest ℕ
alert_request = record {
  tenant_id = "acme";
  kind = system_alert;
  payload = ("service_name", text "billing") ∷ ("status", text "down") ∷ [];
  source_service = "billing";
  payload_version = pos 1;
  event_timestamp = none;
  event_id = none;
  idempotency_key = some "key-0001";
  trace_id = none;
  correlation_id = none;
  causation_id = none;
}

abbrev first_try : Fresh
first_try = record {
  fresh_event_id = "e-1";
  fresh_trace_id = "t-1";
  now = record { wall = 5; offset = some (pos 0) };
}

abbrev second_try : Fresh
second_try = record {
  fresh_event_id = "e-2";
  fresh_trace_id = "t-2";
  now = record { wall = 9; offset = some (pos 0) };
}

abbrev alert_envelope : Fresh → EventEnvelope ℕ
alert_envelope fresh = record {
  event_id = "idem_0123";
  tenant_id = "acme";
  kind = system_alert;
  event_timestamp = fresh.now;
  source_service = "billing";
  payload_version = pos 1;
  payload =
      ("service_name", text "billing")
      ∷ ("status", text "down")
      ∷ ("latency_ms", null)
      ∷ ("error_count", integer (pos 0))
      ∷ ("throughput_per_minute", null)
      ∷ ("kafka_lag", null)
      ∷ ("cache_hit_rate", null)
      ∷ ("message", null)
      ∷ [];
  trace_id = fresh.fresh_trace_id;
  correlation_id = some fresh.fresh_trace_id;
  causation_id = none;
  idempotency_key = some "key-0001";
  schema_ref = none;
}

first_envelope :
    build_request_envelope floats conversions digest first_try alert_request
    ≡ some (alert_envelope first_try)
unfolding build_request_envelope envelope_input build_envelope validate_envelope event_type
    validate_event_payload lookup strip code_points
first_envelope = refl

second_envelope :
    build_request_envelope floats conversions digest second_try alert_request
    ≡ some (alert_envelope second_try)
unfolding build_request_envelope envelope_input build_envelope validate_envelope event_type
    validate_event_payload lookup strip code_points
second_envelope = refl

retried_request_id_example :
    (alert_envelope first_try).event_id ≡ (alert_envelope second_try).event_id
retried_request_id_example =
    retried_request_id ℕ floats conversions digest first_try second_try alert_request alert_request
      "key-0001" (alert_envelope first_try) (alert_envelope second_try) refl refl refl refl refl
      (refl, refl, refl) first_envelope second_envelope

abbrev analyst : TenantPrincipal
analyst = record { user_id = "u-1"; tenant_id = "acme"; role = "analyst"; scopes = [] }

abbrev broker : ℕ → EventEnvelope ℕ → Option Metadata
broker n v = some (record { topic = "platform.events.system"; partition = 0; offset = n })

abbrev requests : List (Fresh × IngestEventRequest ℕ)
requests =
    (first_try, alert_request) ∷ (second_try, record alert_request { tenant_id = "other" }) ∷ []

ingest_batch-publishes_example :
    HasHanded ℕ floats conversions digest broker analyst []
      (ingest_batch floats conversions digest broker analyst [] requests).0.accepted_count
      (count_accessible analyst requests)
      (ingest_batch floats conversions digest broker analyst [] requests).1
ingest_batch-publishes_example =
    ingest_batch-publishes ℕ floats conversions digest broker analyst [] requests

-- A principal whose tenant has a space behind its name publishes for the tenant without it.
abbrev spaced : TenantPrincipal
spaced = record analyst { tenant_id = "acme " }

published_for_acme :
    (ingest_batch floats conversions digest broker spaced []
      ((first_try, record alert_request { tenant_id = "acme " }) ∷ [])).1
    ≡ alert_envelope first_try ∷ []
unfolding ingest_batch ingest_event can_access publish_envelope build_request_envelope
    build_envelope event_type envelope_input code_points validate_event_payload lookup strip
published_for_acme = refl
