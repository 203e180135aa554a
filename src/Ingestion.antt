-- ===== src/Ingestion.antt =====
-- services/ingestion-service/app/main.py: from a request to an envelope, its publication, and the
-- answers of POST /events and POST /events/batch. A request is read by pydantic, which tests the bounds
-- of its fields; the handlers get those that pass. What publish does with the n-th message of the
-- service is a parameter; a step hands on the messages that were handed to it.
pub mod Batches
pub mod Retried
mod Tests
use event_driven_data_platfo.Base.{
  ℕ, suc, String, Option, none, some, List, [], ◌∷◌, Dict, if◌then◌else◌, or_else, is_empty, not,
  keep_if, ◌++◌, length, Bool, true, ◌&&◌, leb, code_points,
}
use event_driven_data_platfo.Base.Int.{ℤ, pos, leb_ℤ}
use event_driven_data_platfo.Auth.{TenantPrincipal, can_access}
use event_driven_data_platfo.Events.Types.{EventType, event_value}
use event_driven_data_platfo.Events.Values.{Json, Floats, Conversions}
use event_driven_data_platfo.Events.Envelopes.{
  Datetime, TimestampInput, instance_of, length_within, EnvelopeInput, EventEnvelope, Fresh,
  build_envelope,
}
use event_driven_data_platfo.Events.Identity.{idempotent_event_id}
use event_driven_data_platfo.Publishing.{Metadata}

-- `IngestEventRequest`
pub record IngestEventRequest (F : Type 0) : Type 0 where
  pub tenant_id : String
  pub kind : EventType
  pub payload : Dict (Json F)
  pub source_service : String
  pub payload_version : ℤ
  pub event_timestamp : Option Datetime
  pub event_id : Option String
  pub idempotency_key : Option String
  pub trace_id : Option String
  pub correlation_id : Option String
  pub causation_id : Option String

-- `Field(default=None, min_length=…, max_length=…)`
unfoldable pub absent_or : (String → Bool) → Option String → Bool
absent_or test none = true
absent_or test (some s) = test s

-- The bounds that IngestEventRequest declares; a request outside of them is answered with 422.
unfoldable pub request_within_bounds : {F : Type 0} → IngestEventRequest F → Bool
request_within_bounds r =
    leb 2 (code_points r.tenant_id)
    && (leb 2 (code_points r.source_service)
        && (leb_ℤ (pos 1) r.payload_version
            && (absent_or (λ s. leb 8 (code_points s)) r.event_id
                && (absent_or (length_within 8 160) r.idempotency_key
                    && (absent_or (λ s. leb 8 (code_points s)) r.trace_id
                        && (absent_or (length_within 8 160) r.correlation_id
                            && absent_or (length_within 8 160) r.causation_id))))))

abbrev pub timestamp_input : Option Datetime → Option TimestampInput
timestamp_input none = none
timestamp_input (some d) = some (instance_of d)

-- `IngestEventResponse`
pub record IngestEventResponse : Type 0 where
  pub event_id : String
  pub tenant_id : String
  pub kind : EventType
  pub metadata : Metadata
  pub trace_id : String
  pub correlation_id : String
  pub causation_id : Option String
  pub idempotency_key : Option String

-- What a request comes to: 202, 403 for a `PermissionError`, 422 for a `ValueError`, or the
-- `RuntimeError` of a failed publication, which POST /events does not catch.
pub data Ingested : Type 0 where
  accepted : IngestEventResponse → Ingested
  forbidden : Ingested
  unprocessable : Ingested
  publish_failed : Ingested

-- `BatchIngestResponse`
pub record BatchIngestResponse : Type 0 where
  pub accepted_count : ℕ
  pub failed_count : ℕ
  pub results : List Ingested

-- One result more, in front of those of the requests that follow.
unfoldable pub add_result : Ingested → BatchIngestResponse → BatchIngestResponse
add_result (accepted response) b = record {
  accepted_count = suc b.accepted_count;
  failed_count = b.failed_count;
  results = accepted response ∷ b.results;
}
add_result failure b = record {
  accepted_count = b.accepted_count;
  failed_count = suc b.failed_count;
  results = failure ∷ b.results;
}

module _ {F : Type 0} (fl : Floats F) (cv : Conversions F) (digest : String → String) where
  abbrev id_of_key : IngestEventRequest F → Option String → Option String
  id_of_key r none = none
  id_of_key r (some key) = some (idempotent_event_id digest r.tenant_id r.kind r.source_service key)

  -- `request.event_id`, or else the id that the idempotency key stands for
  unfoldable pub request_event_id : IngestEventRequest F → Option String
  unfolding idempotent_event_id
  request_event_id r = elim r.event_id [
    | some id ↦ some id
    | none ↦ id_of_key r (keep_if (λ key. not (is_empty key)) r.idempotency_key)
  ]

  -- The keyword arguments of `build_envelope`
  unfoldable pub envelope_input : IngestEventRequest F → EnvelopeInput F
  unfolding request_event_id event_value
  envelope_input r = record {
    event_id = request_event_id r;
    tenant_id = r.tenant_id;
    event_type_text = event_value r.kind;
    event_timestamp = timestamp_input r.event_timestamp;
    source_service = r.source_service;
    payload_version = r.payload_version;
    payload = r.payload;
    trace_id = r.trace_id;
    correlation_id = r.correlation_id;
    causation_id = r.causation_id;
    idempotency_key = r.idempotency_key;
    schema_ref = none;
  }

  -- `_build_envelope`
  unfoldable pub build_request_envelope : Fresh → IngestEventRequest F → Option (EventEnvelope F)
  build_request_envelope fresh r = build_envelope fl cv fresh (envelope_input r)

  module _ (publisher : ℕ → EventEnvelope F → Option Metadata) where
    unfoldable pub response_of : EventEnvelope F → Option Metadata → Ingested
    response_of v none = publish_failed
    response_of v (some m) = accepted (record {
      event_id = v.event_id;
      tenant_id = v.tenant_id;
      kind = v.kind;
      metadata = m;
      trace_id = v.trace_id;
      correlation_id = or_else (keep_if (λ s. not (is_empty s)) v.correlation_id) v.trace_id;
      causation_id = v.causation_id;
      idempotency_key = v.idempotency_key;
    })

    -- `_publish` of what `_build_envelope` returned
    unfoldable pub publish_envelope :
        List (EventEnvelope F) → Option (EventEnvelope F) → Ingested × List (EventEnvelope F)
    unfolding response_of
    publish_envelope sent none = (unprocessable, sent)
    publish_envelope sent (some v) = (response_of v (publisher (length sent) v), sent ++ (v ∷ []))

    unfoldable pub ingest_event :
        TenantPrincipal
        → Fresh
        → List (EventEnvelope F)
        → IngestEventRequest F
        → Ingested × List (EventEnvelope F)
    ingest_event principal fresh sent r =
        if can_access principal r.tenant_id
        then publish_envelope sent (build_request_envelope fresh r)
        else (forbidden, sent)

    -- `ingest_batch`, with what the factories make for each request
    unfoldable pub ingest_batch :
        TenantPrincipal
        → List (EventEnvelope F)
        → List (Fresh × IngestEventRequest F)
        → BatchIngestResponse × List (EventEnvelope F)
    unfolding add_result
    ingest_batch principal sent [] =
        (record { accepted_count = 0; failed_count = 0; results = [] }, sent)
    ingest_batch principal sent ((fresh, r) ∷ rest) =
        let (result, next) = ingest_event principal fresh sent r in
        let (later, last) = ingest_batch principal next rest in (add_result result later, last)
