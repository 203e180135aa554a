-- ===== src/Events/Tests.antt =====
-- An alert event, and the theorems at work on it.
use event_driven_data_platfo.Base.{
  ℕ, ◌≡◌, refl, none, some, [], ◌∷◌, Dict, strip, code_points, lookup,
}
use event_driven_data_platfo.Base.Int.{pos}
use event_driven_data_platfo.Events.Types.{system_alert, event_type}
use event_driven_data_platfo.Events.Values.{Json, integer, text, null}
use event_driven_data_platfo.Events.Payloads.{validate_event_payload}
use event_driven_data_platfo.Events.Contracts.{validate_event_payload_again}
use event_driven_data_platfo.Events.Envelopes.{
  EnvelopeInput, EventEnvelope, Fresh, validate_envelope, completed, blank_tenant_accepted,
}
use event_driven_data_platfo.Events.Rereading.{IsReread, accepted-IsReread}
use event_driven_data_platfo.Events.Samples.{floats, conversions, conversion_laws}

abbrev alert : Dict (Json ℕ)
alert = ("service_name", text "billing") ∷ ("status", text "down") ∷ []

abbrev validated_alert : Dict (Json ℕ)
validated_alert =
    ("service_name", text "billing")
    ∷ ("status", text "down")
    ∷ ("latency_ms", null)
    ∷ ("error_count", integer (pos 0))
    ∷ ("throughput_per_minute", null)
    ∷ ("kafka_lag", null)
    ∷ ("cache_hit_rate", null)
    ∷ ("message", null)
    ∷ []

alert_validates :
    validate_event_payload floats conversions system_alert alert ≡ some validated_alert
unfolding validate_event_payload lookup
alert_validates = refl

validate_event_payload_again_example :
    (d : Dict (Json ℕ)) × (validate_event_payload floats conversions system_alert validated_alert
      ≡ some d)
validate_event_payload_again_example =
    validate_event_payload_again floats conversions conversion_laws system_alert alert
      validated_alert alert_validates

abbrev fresh : Fresh
fresh = record {
  fresh_event_id = "e-1";
  fresh_trace_id = "t-1";
  now = record { wall = 5; offset = some (pos 0) };
}

abbrev input : EnvelopeInput ℕ
input = record {
  event_id = none;
  tenant_id = " acme ";
  event_type_text = "system.alert";
  event_timestamp = none;
  source_service = "billing";
  payload_version = pos 1;
  payload = alert;
  trace_id = none;
  correlation_id = none;
  causation_id = none;
  idempotency_key = none;
  schema_ref = none;
}

accepted : EventEnvelope ℕ
accepted = completed floats conversions fresh input system_alert fresh.now validated_alert

input_validates : validate_envelope floats conversions fresh input ≡ some accepted
unfolding validate_envelope accepted code_points event_type validate_event_payload lookup
input_validates = refl

accepted_id : strip accepted.event_id ≡ accepted.event_id
unfolding accepted strip completed
accepted_id = refl

fresh_trace : strip fresh.fresh_trace_id ≡ fresh.fresh_trace_id
unfolding strip
fresh_trace = refl

accepted-IsReread_example : IsReread floats conversions conversion_laws fresh accepted
accepted-IsReread_example =
    accepted-IsReread floats conversions conversion_laws fresh fresh input accepted input_validates
      fresh_trace accepted_id

blank_tenant_accepted_example :
    (w : EventEnvelope ℕ) × (validate_envelope floats conversions fresh
        (record input { tenant_id = "  " })
      ≡ some w)
    × (w.tenant_id ≡ "")
unfolding code_points strip
blank_tenant_accepted_example =
    blank_tenant_accepted floats conversions fresh input accepted "  " input_validates refl refl
