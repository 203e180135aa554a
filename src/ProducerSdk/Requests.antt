-- ===== src/ProducerSdk/Requests.antt =====
-- What the ingestion service makes of a request of the producers' client.
use event_driven_data_platfo.Base.{
  ◌≡◌, true, or_else, ◌&&◌, String, none, some, Dict, leb, code_points,
}
use event_driven_data_platfo.Base.Int.{pos, leb_ℤ}
use event_driven_data_platfo.Events.Types.{EventType, event_value}
use event_driven_data_platfo.Events.Values.{Json, Floats, Conversions, ConversionLaws}
use event_driven_data_platfo.Events.Envelopes.{Datetime, length_within}
use event_driven_data_platfo.Events.Identity.{idempotent_event_id}
use event_driven_data_platfo.Ingestion.{IngestEventRequest, absent_or}
use event_driven_data_platfo.ProducerSdk.{ProducerEvent, EventRequest}

-- The body of a request with an event type, as pydantic reads it where its bounds hold. The values are
-- taken to arrive as they were sent.
abbrev pub received : {F : Type 0} → EventType → EventRequest F → IngestEventRequest F
received kind q = record {
  tenant_id = q.tenant_id;
  kind = kind;
  payload = q.payload;
  source_service = q.source_service;
  payload_version = q.payload_version;
  event_timestamp = some q.event_timestamp;
  event_id = some q.event_id;
  idempotency_key = some q.idempotency_key;
  trace_id = q.trace_id;
  correlation_id = none;
  causation_id = none;
}

module _ (F : Type 0) (fl : Floats F) (cv : Conversions F) (laws : ConversionLaws F fl cv)
    (digest : String → String) where
  -- The bounds on what the client takes over from the event: those of the envelope, which are the
  -- narrower ones, on the tenant, the source and the version, and those of the service on the
  -- idempotency key and the trace id.
  abbrev pub IsWithinBounds : ProducerEvent F → Type 0
  IsWithinBounds e =
      ((length_within 2 80 e.tenant_id
          && (length_within 2 120 e.source_service && leb_ℤ (pos 1) e.payload_version))
        ≡ true)
      × (length_within 8 160 e.idempotency_key ≡ true)
      × (absent_or (λ s. leb 8 (code_points s)) e.trace_id ≡ true)

  abbrev request_of : ProducerEvent F → EventType → Dict (Json F) → Datetime → EventRequest F
  request_of e kind p now = record {
    event_id = idempotent_event_id digest e.tenant_id kind e.source_service e.idempotency_key;
    tenant_id = e.tenant_id;
    event_type_text = event_value kind;
    source_service = e.source_service;
    idempotency_key = e.idempotency_key;
    payload_version = e.payload_version;
    event_timestamp = or_else e.event_timestamp now;
    trace_id = e.trace_id;
    payload = p;
  }
