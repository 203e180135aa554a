-- ===== src/Publishing/DeadLetters.antt =====
-- publish_dlq of KafkaEventProducer: the event that carries a message that could not be processed.
-- The JSON text of the failure is an argument.
use event_driven_data_platfo.Base.{
  ◌≡◌, ◌⊎◌, inl, inr, refl, true, false, String, none, some, [], ◌∷◌, Dict, lookup, strip,
  Bool-cases, and-eq-true,
}
use event_driven_data_platfo.Base.Int.{pos}
use event_driven_data_platfo.Events.Types.{system_alert, event_type-event_value}
use event_driven_data_platfo.Events.Values.{
  Json, null, integer, text, Floats, Conversions, ConversionLaws,
}
use event_driven_data_platfo.Events.Payloads.{validate_event_payload}
use event_driven_data_platfo.Events.Envelopes.{
  EventEnvelope, Fresh, length_within, within_bounds, completed, ensure_timezone, validate_envelope,
  validate_envelope_of,
}
use event_driven_data_platfo.Events.Rereading.{input_of}

module _ {F : Type 0} where
  unfoldable pub dlq_payload : String → String → Dict (Json F)
  dlq_payload failed_stage message =
      ("service_name", text failed_stage)
      ∷ ("status", text "dlq")
      ∷ ("error_count", integer (pos 1))
      ∷ ("message", text message)
      ∷ []

  -- The envelope that is published to the topic of dead letters.
  unfoldable pub dlq_envelope : EventEnvelope F → String → String → EventEnvelope F
  unfolding dlq_payload
  dlq_envelope v failed_stage message = record v {
    kind = system_alert;
    payload = dlq_payload failed_stage message;
    source_service = failed_stage;
  }

  -- What the payload model makes of the payload of a dead letter.
  abbrev read_payload : String → String → Dict (Json F)
  read_payload failed_stage message =
      ("service_name", text failed_stage)
      ∷ ("status", text "dlq")
      ∷ ("latency_ms", null)
      ∷ ("error_count", integer (pos 1))
      ∷ ("throughput_per_minute", null)
      ∷ ("kafka_lag", null)
      ∷ ("cache_hit_rate", null)
      ∷ ("message", text message)
      ∷ []

  message_lem :
      (failed_stage message : String)
      → lookup "message" (read_payload failed_stage message) ≡ some (text message)
  unfolding lookup
  message_lem failed_stage message = refl

  module _ (fl : Floats F) (cv : Conversions F) (laws : ConversionLaws F fl cv) where
    dlq_payload-validates :
        (failed_stage message : String)
        → validate_event_payload fl cv system_alert (dlq_payload failed_stage message)
          ≡ some (read_payload failed_stage message)
    unfolding dlq_payload validate_event_payload lookup
    dlq_payload-validates failed_stage message =
        rw
          (
            laws.text_same failed_stage,
            laws.text_same "dlq",
            laws.text_same message,
            laws.int_same (pos 1),
          )
          refl

    -- A reader that takes the envelope gets the id and the tenant of the event that failed, and the
    -- message.
    abbrev pub IsLetterOf : EventEnvelope F → String → String → EventEnvelope F → Type 0
    IsLetterOf v failed_stage message w =
        (w.event_id ≡ v.event_id)
        × (w.kind ≡ system_alert)
        × (w.tenant_id ≡ strip v.tenant_id)
        × (w.source_service ≡ strip failed_stage)
        × (w.event_timestamp ≡ v.event_timestamp)
        × (lookup "message" w.payload ≡ some (text message))

    -- The dead letter of an event is a copy that no validator has seen. Given to the envelope's model
    -- field by field, its time as a text, it is refused where the tenant, the failed stage or the version
    -- of the event is outside the bounds of an envelope, and else accepted, with the id, the tenant and
    -- the time of the event, the failed stage as its source, and the message. Assumes that conversions
    -- leave texts and whole numbers as they are.
    pub dlq_envelope-IsRead :
        (fresh : Fresh) (v : EventEnvelope F) (failed_stage message : String)
        → ((within_bounds fl cv (input_of (dlq_envelope v failed_stage message)) ≡ false)
            × (validate_envelope fl cv fresh (input_of (dlq_envelope v failed_stage message))
                ≡ none))
          ⊎ ((length_within 2 80 v.tenant_id ≡ true)
              × (length_within 2 120 failed_stage ≡ true)
              × (w : EventEnvelope F) × (validate_envelope fl cv fresh
                    (input_of (dlq_envelope v failed_stage message))
                  ≡ some w)
              × IsLetterOf v failed_stage message w)
    unfolding dlq_envelope validate_envelope completed within_bounds ensure_timezone
    dlq_envelope-IsRead fresh v failed_stage message =
        let letter = dlq_envelope v failed_stage message in
        elim (Bool-cases (within_bounds fl cv (input_of letter))) [
          | inr out ↦ inl (out, rw out refl)
          | inl ok ↦
              let (tenant, rest) = and-eq-true (length_within 2 80 v.tenant_id) _ ok in
              let (stage, _) = and-eq-true (length_within 2 120 failed_stage) _ rest in
              inr (
                tenant,
                stage,
                completed fl cv fresh (input_of letter) system_alert v.event_timestamp
                    (read_payload failed_stage message),
                validate_envelope_of fl cv fresh (input_of letter) system_alert v.event_timestamp
                    (read_payload failed_stage message) ok (event_type-event_value system_alert)
                    refl (dlq_payload-validates failed_stage message),
                (refl, refl, refl, refl, refl, message_lem failed_stage message),
              )
        ]
