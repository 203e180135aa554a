-- ===== src/Ingestion/Retried.antt =====
-- The event id of a request that is sent again.
use text.Mathlib.TextLemmas.{cons-append}
use event_driven_data_platfo.Base.{
  ◌≡◌, refl, false, String, none, some, >>=-eq-some, some_inj, ap, ◌∙◌, sym, is_empty, or_else,
  Bool-cases, inl, inr,
}
use event_driven_data_platfo.Events.Types.{event_type}
use event_driven_data_platfo.Events.Values.{Floats, Conversions}
use event_driven_data_platfo.Events.Payloads.{validate_event_payload}
use event_driven_data_platfo.Events.Envelopes.{
  EnvelopeInput, EventEnvelope, Fresh, validate_envelope, build_envelope, within_bounds,
  timestamp_or_now, non_empty_text, instance_of,
}
use event_driven_data_platfo.Events.Identity.{idempotent_event_id}
use event_driven_data_platfo.Ingestion.{
  IngestEventRequest, request_event_id, envelope_input, build_request_envelope,
}

pub idempotent_event_id-is_empty :
    (digest : String → String) (tenant : String) (e : _) (source key : String)
    → is_empty (idempotent_event_id digest tenant e source key) ≡ false
unfolding idempotent_event_id
idempotent_event_id-is_empty digest tenant e source key = ap is_empty (cons-append _ "dem_" _)

module _ (F : Type 0) (fl : Floats F) (cv : Conversions F) where
  validate_envelope-event_id :
      (fresh : Fresh) (i : EnvelopeInput F) (v : EventEnvelope F)
      → validate_envelope fl cv fresh i ≡ some v
      → v.event_id ≡ or_else i.event_id fresh.fresh_event_id
  unfolding validate_envelope
  validate_envelope-event_id fresh i v h = elim (Bool-cases (within_bounds fl cv i)) [
    | inr out ↦ cc (rw out at h)
    | inl ok ↦
        let (e, pe, h₁) = >>=-eq-some (event_type i.event_type_text) _ (rw ok at h) in
        let (at, pa, h₂) = >>=-eq-some (timestamp_or_now fl cv fresh i.event_timestamp) _ h₁ in
        let (p, pp, h₃) = >>=-eq-some (validate_event_payload fl cv e i.payload) _ h₂ in
        ap EventEnvelope.event_id (sym (some_inj h₃))
  ]

  build_envelope-event_id :
      (fresh : Fresh) (i : EnvelopeInput F) (v : EventEnvelope F)
      → build_envelope fl cv fresh i ≡ some v
      → v.event_id ≡ or_else (non_empty_text fl cv i.event_id) fresh.fresh_event_id
  unfolding build_envelope
  build_envelope-event_id fresh i v h =
      let (e, pe, h₁) = >>=-eq-some (event_type i.event_type_text) _ h in
      validate_envelope-event_id fresh
        (record i {
          event_id = some (or_else (non_empty_text fl cv i.event_id) fresh.fresh_event_id);
          event_timestamp = some (or_else i.event_timestamp (instance_of fresh.now));
          trace_id = some (or_else (non_empty_text fl cv i.trace_id) fresh.fresh_trace_id);
        })
        v h₁

  -- A request without an event id and with an idempotency key has the id that the key stands for.
  request_id :
      (digest : String → String) (fresh : Fresh) (r : IngestEventRequest F) (key : String)
      (v : EventEnvelope F)
      → r.event_id ≡ none
      → r.idempotency_key ≡ some key
      → is_empty key ≡ false
      → build_request_envelope fl cv digest fresh r ≡ some v
      → v.event_id ≡ idempotent_event_id digest r.tenant_id r.kind r.source_service key
  unfolding build_request_envelope envelope_input request_event_id
  request_id digest fresh r key v no_id has_key filled h =
      let given = idempotent_event_id-is_empty digest r.tenant_id r.kind r.source_service key in
      build_envelope-event_id fresh (envelope_input fl cv digest r) v h
      ∙ (rw (no_id, has_key, filled, given) refl)

  -- Two requests without an event id that agree on the tenant, the event type, the source and a
  -- non-empty idempotency key become envelopes with the same event id, whatever their payloads are
  -- and whatever uuid4 and the clock give.
  pub retried_request_id :
      (digest : String → String) (fresh fresh' : Fresh) (r r' : IngestEventRequest F) (key : String)
      (v v' : EventEnvelope F)
      → r.event_id ≡ none
      → r'.event_id ≡ none
      → r.idempotency_key ≡ some key
      → r'.idempotency_key ≡ some key
      → is_empty key ≡ false
      → (r.tenant_id ≡ r'.tenant_id) × (r.kind ≡ r'.kind) × (r.source_service ≡ r'.source_service)
      → build_request_envelope fl cv digest fresh r ≡ some v
      → build_request_envelope fl cv digest fresh' r' ≡ some v'
      → v.event_id ≡ v'.event_id
  retried_request_id digest fresh fresh' r r' key v v' i i' k k' filled (t, e, s) h h' =
      request_id digest fresh r key v i k filled h
      ∙ (rw (t, e, s) (sym (request_id digest fresh' r' key v' i' k' filled h')))
