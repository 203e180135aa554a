-- ===== src/DlqTool/Records.antt =====
-- extract_dlq_record of dlq_tool.py. What json.loads, str, envelope_from_json and
-- EventEnvelope.model_validate make of their arguments is a parameter; `none` is their ValueError.
use event_driven_data_platfo.Base.{ℕ, String, Option, none, some, ◌==◌, ◌>>=◌, if◌then◌else◌}
use event_driven_data_platfo.Events.Values.{
  Json, null, text, object, Fields, end, field, Floats, is_true,
}
use event_driven_data_platfo.Events.Envelopes.{EventEnvelope}
use event_driven_data_platfo.Processing.Rows.{get_item, shown}

pub record DlqRecord (F : Type 0) : Type 0 where
  pub envelope : EventEnvelope F
  pub original_event : Option (EventEnvelope F)
  pub error : Json F
  pub failed_stage : Json F
  pub topic : String
  pub partition : ℕ
  pub offset : ℕ

-- Where a message stands.
pub record Place : Type 0 where
  pub topic : String
  pub partition : ℕ
  pub offset : ℕ

pub record Readers (F : Type 0) : Type 0 where
  pub envelope_from_json : String → Option (EventEnvelope F)
  pub loads : String → Option (Json F)
  pub model_validate : Json F → Option (EventEnvelope F)
  pub str : Json F → String

-- `d.get(key)` of a JSON object
unfoldable pub item : {F : Type 0} → Fields F → String → Json F
item end key = null
item (field name v rest) key = let later = item rest key in if name == key then v else later

-- What the message of a dead letter tells: the original event, the error and the failed stage.
pub record Told (F : Type 0) : Type 0 where
  pub original : Option (EventEnvelope F)
  pub error : Json F
  pub stage : Json F

module _ {F : Type 0} (fl : Floats F) (readers : Readers F) where
  abbrev dlq_record : EventEnvelope F → Told F → Place → DlqRecord F
  dlq_record v told place = record {
    envelope = v;
    original_event = told.original;
    error = told.error;
    failed_stage = told.stage;
    topic = place.topic;
    partition = place.partition;
    offset = place.offset;
  }

  -- The shape of the streaming job: the raw envelope stands in `raw_value`.
  unfoldable pub spark_record : Json F → Place → Option (DlqRecord F)
  spark_record (object d) place =
      let reason = item d "rejection_reason" in
      let raw = item d "raw_value" in
      if is_true fl raw
      then (do
        original ← readers.envelope_from_json (shown readers.str raw)
        some (
            dlq_record original
              (record {
                original = some original;
                error = text (
                    if is_true fl reason
                    then shown readers.str reason
                    else "spark_stream_rejected");
                stage = text "spark-streaming";
              })
              place))
      else none
  spark_record _ place = none

  -- A ValueError of `model_validate` is caught, and the message becomes the error.
  unfoldable pub with_original : String → Json F → Json F → Option (EventEnvelope F) → Told F
  with_original message error stage none = record {
    original = none;
    error = text message;
    stage = stage;
  }
  with_original message error stage (some original) = record {
    original = some original;
    error = error;
    stage = stage;
  }

  -- `none` is the AttributeError of `get`, which is not caught.
  unfoldable pub read_parsed : String → Option (Json F) → Option (Told F)
  unfolding with_original
  read_parsed message none = some (record { original = none; error = text message; stage = null })
  read_parsed message (some (object d)) =
      let error = item d "error" in
      let stage = item d "failed_stage" in
      let original = item d "original_event" in
      some (
        if is_true fl original
        then with_original message error stage (readers.model_validate original)
        else record { original = none; error = error; stage = stage })
  read_parsed message (some _) = none

  unfoldable pub read_message : Json F → Option (Told F)
  unfolding read_parsed
  read_message message =
      let string = shown readers.str message in
      if is_true fl message
      then read_parsed string (readers.loads string)
      else some (record { original = none; error = null; stage = null })

  -- The payload's own `original_event`, where the message has told none.
  unfoldable pub from_payload : EventEnvelope F → Told F → Option (Told F)
  from_payload v told = elim told.original [
    | some original ↦ some told
    | none ↦
        let original = get_item v.payload "original_event" null in
        if is_true fl original
        then (do
          validated ← readers.model_validate original
          some (record told { original = some validated }))
        else some told
  ]

  unfoldable pub alert_record : EventEnvelope F → Place → Option (DlqRecord F)
  unfolding read_message from_payload
  alert_record v place = do
    told ← read_message (get_item v.payload "message" null)
    completed ← from_payload v told
    some (dlq_record v completed place)

  unfoldable pub record_of : String → Option (EventEnvelope F) → Place → Option (DlqRecord F)
  unfolding alert_record spark_record
  record_of raw_value (some v) place = alert_record v place
  record_of raw_value none place = do payload ← readers.loads raw_value; spark_record payload place

  -- `none` is an exception.
  unfoldable pub extract_dlq_record : String → Place → Option (DlqRecord F)
  unfolding record_of
  extract_dlq_record raw_value place =
      record_of raw_value (readers.envelope_from_json raw_value) place
