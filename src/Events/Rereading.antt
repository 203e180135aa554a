-- ===== src/Events/Rereading.antt =====
-- An envelope of services/shared/platform_shared/schemas.py that is validated a second time, from its
-- own fields, as a reader does that gives them to the model again.
use event_driven_data_platfo.Base.{
  ◌≡◌, ◌⊎◌, refl, inl, inr, false, String, Option, none, some, strip, strip-strip, or_else, Dict,
  Bool-cases, >>=-eq-some, some_inj, ap, subst, sym, ◌∙◌,
}
use event_driven_data_platfo.Events.Types.{
  EventType, event_type, event_value, event_type-event_value,
}
use event_driven_data_platfo.Events.Values.{Json, Floats, Conversions, ConversionLaws}
use event_driven_data_platfo.Events.Payloads.{validate_event_payload}
use event_driven_data_platfo.Events.Contracts.{validate_event_payload_again}
use event_driven_data_platfo.Events.Envelopes.{
  Datetime, EnvelopeInput, EventEnvelope, Fresh, written, strip_option, within_bounds, completed,
  timestamp_or_now, validate_envelope, validate_envelope_of, ensure_timezone,
}

-- The fields of an envelope as arguments of the constructor; its time is read from a text.
abbrev pub input_of : {F : Type 0} → EventEnvelope F → EnvelopeInput F
input_of v = record {
  event_id = some v.event_id;
  tenant_id = v.tenant_id;
  event_type_text = event_value v.kind;
  event_timestamp = some (written (some v.event_timestamp));
  source_service = v.source_service;
  payload_version = v.payload_version;
  payload = v.payload;
  trace_id = some v.trace_id;
  correlation_id = v.correlation_id;
  causation_id = v.causation_id;
  idempotency_key = v.idempotency_key;
  schema_ref = v.schema_ref;
}

-- A text that stands for an absent field is stripped once, as the given ones are.
strip-or_else :
    (o : Option String) (default : String)
    → strip default ≡ default
    → strip (or_else (strip_option o) default) ≡ or_else (strip_option o) default
strip-or_else none default h = h
strip-or_else (some s) default h = strip-strip s

strip_option_again : (o : Option String) → strip_option (strip_option o) ≡ strip_option o
strip_option_again none = refl
strip_option_again (some s) = ap some (strip-strip s)

module _ {F : Type 0} (fl : Floats F) (cv : Conversions F) where
  completed_again :
      (fresh again : Fresh) (i : EnvelopeInput F) (e : EventType) (at : Datetime)
      (p p' : Dict (Json F))
      → strip fresh.fresh_trace_id ≡ fresh.fresh_trace_id
      → strip (completed fl cv fresh i e at p).event_id ≡ (completed fl cv fresh i e at p).event_id
      → completed fl cv again (input_of (completed fl cv fresh i e at p)) e at p'
        ≡ record (completed fl cv fresh i e at p) { payload = p' }
  unfolding completed
  completed_again fresh again i e at p p' trace id n =
      let same_trace = strip-or_else i.trace_id fresh.fresh_trace_id trace in
      record (completed fl cv fresh i e at p) {
        tenant_id = strip-strip i.tenant_id n;
        source_service = strip-strip i.source_service n;
        payload = p';
        trace_id = same_trace n;
        correlation_id = some (strip-or_else i.correlation_id _ same_trace n);
        causation_id = strip_option_again i.causation_id n;
        idempotency_key = some (strip-or_else i.idempotency_key _ id n);
      }

  module _ (laws : ConversionLaws F fl cv) where
    -- What a second validation makes of an envelope.
    abbrev pub IsReread : Fresh → EventEnvelope F → Type 0
    IsReread again v =
        ((within_bounds fl cv (input_of v) ≡ false)
          × (validate_envelope fl cv again (input_of v) ≡ none))
        ⊎ ((payload : Dict (Json F)) × (validate_event_payload fl cv v.kind v.payload
              ≡ some payload)
            × (validate_envelope fl cv again (input_of v) ≡ some (record v { payload = payload })))

    completed_rereads :
        (fresh again : Fresh) (i : EnvelopeInput F) (e : EventType) (at : Datetime)
        (p : Dict (Json F))
        → validate_event_payload fl cv e i.payload ≡ some p
        → strip fresh.fresh_trace_id ≡ fresh.fresh_trace_id
        → strip (completed fl cv fresh i e at p).event_id
          ≡ (completed fl cv fresh i e at p).event_id
        → IsReread again (completed fl cv fresh i e at p)
    unfolding validate_envelope completed ensure_timezone
    completed_rereads fresh again i e at p valid trace id =
        let v = completed fl cv fresh i e at p in
        elim (Bool-cases (within_bounds fl cv (input_of v))) [
          | inr out ↦ inl (out, rw out refl)
          | inl ok ↦
              let (p', accepted) = validate_event_payload_again fl cv laws e i.payload p valid in
              inr (
                p',
                accepted,
                validate_envelope_of fl cv again (input_of v) e at p' ok (event_type-event_value e)
                      refl accepted
                    ∙ ap some (completed_again fresh again i e at p p' trace id),
              )
        ]

    -- An accepted envelope whose event id has no space around it is validated again from its own fields,
    -- its time being read from a text. The second validation refuses it where its tenant or its source,
    -- which the first has stripped, is now outside the bounds. Else it gives the same envelope, whatever
    -- the clock and the default factories give, with the payload validated again. Assumes that the trace
    -- ids that are made up have no space around them, and of conversions that they leave a value that
    -- has the wanted type as it is and turn a whole number into the float that it is.
    pub accepted-IsReread :
        (fresh again : Fresh) (i : EnvelopeInput F) (v : EventEnvelope F)
        → validate_envelope fl cv fresh i ≡ some v
        → strip fresh.fresh_trace_id ≡ fresh.fresh_trace_id
        → strip v.event_id ≡ v.event_id
        → IsReread again v
    unfolding validate_envelope
    accepted-IsReread fresh again i v h trace id = elim (Bool-cases (within_bounds fl cv i)) [
      | inr out ↦ cc (rw out at h)
      | inl ok ↦
          let (e, pe, h₁) = >>=-eq-some (event_type i.event_type_text) _ (rw ok at h) in
          let (at, pa, h₂) = >>=-eq-some (timestamp_or_now fl cv fresh i.event_timestamp) _ h₁ in
          let (p, pp, h₃) = >>=-eq-some (validate_event_payload fl cv e i.payload) _ h₂ in
          let same = some_inj h₃ in
          subst (IsReread again) same (
            completed_rereads fresh again i e at p pp trace
              (subst (λ w. strip w.event_id ≡ w.event_id) (sym same) id))
    ]
