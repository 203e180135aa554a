-- ===== src/Publishing/Tests.antt =====
-- A broker that answers the second attempt, and the theorems at work on it.
use event_driven_data_platfo.Base.{
  ℕ, false, ◌⊎◌, ◌+◌, ◌*◌, ◌≤◌, ◌≡◌, refl, true, none, some, is_some, arith, [], eqb, if◌then◌else◌,
}
use event_driven_data_platfo.Base.Int.{pos}
use event_driven_data_platfo.Events.Types.{system_health}
use event_driven_data_platfo.Events.Envelopes.{
  EventEnvelope, Fresh, length_within, within_bounds, validate_envelope,
}
use event_driven_data_platfo.Events.Samples.{floats, conversions, conversion_laws}
use event_driven_data_platfo.Publishing.{Metadata, Sends, publish, attempts}
use event_driven_data_platfo.Publishing.Retries.{publish-answers, publish_succeeds}
use event_driven_data_platfo.Publishing.DeadLetters.{dlq_envelope, IsLetterOf, dlq_envelope-IsRead}
use event_driven_data_platfo.Events.Rereading.{input_of}

abbrev stored : Metadata
stored = record { topic = "platform.events.orders"; partition = 3; offset = 7 }

abbrev second_only : Sends
second_only n = if eqb n 2 then some stored else none

second_answers : (publish 3 second_only).answer ≡ some (2, stored)
unfolding publish attempts
second_answers = refl

publish-answers_example :
    (1 ≤ 2)
    × (2 ≤ 3)
    × (second_only 2 ≡ some stored)
    × ((publish 3 second_only).waited + 20 ≤ 20 * 2)
publish-answers_example = publish-answers second_only 3 2 stored second_answers

publish_succeeds_example : is_some (publish 3 second_only).answer ≡ true
publish_succeeds_example = publish_succeeds second_only 3 2 (omega arith) (omega arith) refl

abbrev failed : EventEnvelope ℕ
failed = record {
  event_id = "e-1";
  tenant_id = "acme";
  kind = system_health;
  event_timestamp = record { wall = 0; offset = some (pos 0) };
  source_service = "shop";
  payload_version = pos 1;
  payload = [];
  trace_id = "t-1";
  correlation_id = none;
  causation_id = none;
  idempotency_key = none;
  schema_ref = none;
}

abbrev fresh : Fresh
fresh = record { fresh_event_id = "e-9"; fresh_trace_id = "t-9"; now = failed.event_timestamp }

dlq_envelope-IsRead_example :
    ((within_bounds floats conversions (input_of (dlq_envelope failed "processing" "x")) ≡ false)
      × (validate_envelope floats conversions fresh
            (input_of (dlq_envelope failed "processing" "x"))
          ≡ none))
    ⊎ ((length_within 2 80 "acme" ≡ true)
        × (length_within 2 120 "processing" ≡ true)
        × (w : EventEnvelope ℕ) × (validate_envelope floats conversions fresh
              (input_of (dlq_envelope failed "processing" "x"))
            ≡ some w)
        × IsLetterOf floats conversions conversion_laws failed "processing" "x" w)
dlq_envelope-IsRead_example =
    dlq_envelope-IsRead floats conversions conversion_laws fresh failed "processing" "x"
