-- ===== src/DlqTool/Tests.antt =====
-- Two dead letters, how they are read and replayed, and the theorems at work on them.
use event_driven_data_platfo.Base.{
  lookup, ℕ, ◌+◌, ◌≡◌, ◌⊎◌, ◌<◌, refl, true, false, String, Option, none, some, List, [], ◌∷◌,
  arith, length, eqb, if◌then◌else◌,
}
use event_driven_data_platfo.Base.Int.{pos}
use event_driven_data_platfo.Events.Types.{order_created}
use event_driven_data_platfo.Events.Values.{is_true, Json, null}
use event_driven_data_platfo.Events.Samples.{floats}
use event_driven_data_platfo.Events.Envelopes.{Datetime, EventEnvelope}
use event_driven_data_platfo.Processing.Tables.{Numeric, empty_db}
use event_driven_data_platfo.Processing.Actions.{World, answered, refused}
use event_driven_data_platfo.Processing.Handler.{handle}
use event_driven_data_platfo.DlqTool.Records.{extract_dlq_record, DlqRecord, Place, Readers}
use event_driven_data_platfo.DlqTool.Reading.{Batches, read_dlq_records}
use event_driven_data_platfo.DlqTool.Bounds.{read_dlq_records-length}
use event_driven_data_platfo.DlqTool.Replay.{ReplayArgs, Session, complete, replay, corrected}
use event_driven_data_platfo.DlqTool.Audits.{recorded, audited_ids}
use event_driven_data_platfo.DlqTool.Completion.{replay-complete}
use event_driven_data_platfo.DlqTool.Skipped.{corrected_is_skipped}

abbrev at : Datetime
at = record { wall = 5; offset = some (pos 0) }

-- The envelope with an id; its payload has no message.
abbrev envelope : String → EventEnvelope ℕ
envelope id = record {
  event_id = id;
  tenant_id = "acme";
  kind = order_created;
  event_timestamp = at;
  source_service = "shop";
  payload_version = pos 1;
  payload = [];
  trace_id = "t-1";
  correlation_id = some "t-1";
  causation_id = none;
  idempotency_key = some id;
  schema_ref = none;
}

-- A message is the id of its envelope.
abbrev readers : Readers ℕ
readers = record {
  envelope_from_json = λ raw. some (envelope raw);
  loads = λ raw. none;
  model_validate = λ v. none;
  str = λ v. "?";
}

abbrev place : ℕ → Place
place partition = record { topic = "dlq-events"; partition = partition; offset = 0 }

-- A poll with one message, and one with a message of each of two partitions.
abbrev polls : List Batches
polls =
    ((("e-1", place 0) ∷ []) ∷ []) ∷ ((("e-2", place 0) ∷ []) ∷ (("e-3", place 1) ∷ []) ∷ []) ∷ []

abbrev letter : String → ℕ → Option (EventEnvelope ℕ) → DlqRecord ℕ
letter id partition original = record {
  envelope = envelope id;
  original_event = original;
  error = null;
  failed_stage = null;
  topic = "dlq-events";
  partition = partition;
  offset = 0;
}

abbrev three : List (DlqRecord ℕ)
three = letter "e-1" 0 none ∷ letter "e-2" 0 none ∷ letter "e-3" 1 none ∷ []

-- Two records are asked for, of each poll too, and three are read.
reads_three : read_dlq_records floats readers 2 none polls ≡ some three
unfolding read_dlq_records extract_dlq_record is_true lookup
reads_three = refl

read_dlq_records-length_example : length three < 2 + 2
read_dlq_records-length_example =
    read_dlq_records-length ℕ floats readers 2 none 2 polls three (omega arith)
      (omega arith, (omega arith, tt)) reads_three

abbrev args : ReplayArgs
args = record {
  target_topic = none;
  has_database = true;
  replayed_by = "operator";
  reason = "manual replay";
  dry_run = false;
  event_timestamp_now = true;
  new_event_id = none;
}

-- The producer answers no message but the first.
abbrev publisher : ℕ → EventEnvelope ℕ → String → Option String
publisher n v topic = if eqb n 0 then none else some "no broker"

abbrev later_letters : List (DlqRecord ℕ)
later_letters = letter "e-2" 1 (some (envelope "e-2")) ∷ letter "e-3" 1 none ∷ []

replay-complete_example :
    (done : Session ℕ) × (replay args at publisher
        (letter "d-1" 0 (some (envelope "e-1")) ∷ later_letters)
        []
      ≡ (complete done.replayed done.failed, done))
    × (done.replayed + done.failed
        ≡ length (letter "d-1" 0 (some (envelope "e-1")) ∷ later_letters))
    × (audited_ids done.audit
        ≡ recorded args (letter "d-1" 0 (some (envelope "e-1")) ∷ later_letters))
    × ((args.dry_run ≡ false) ⊎ (done.handed ≡ []))
replay-complete_example =
    replay-complete args at publisher (letter "d-1" 0 (some (envelope "e-1"))) later_letters

abbrev numeric : Numeric ℕ ℕ
numeric = record { of_float = λ n. n; plus = ◌+◌ }

abbrev python_str : Json ℕ → String
python_str _ = "?"

-- The second statement of the first attempt is refused.
abbrev broken : World ℕ ℕ
broken = record { db = empty_db; fates = answered ∷ refused ∷ [] }

corrected_is_skipped_example :
    handle floats numeric python_str
      (corrected args at (envelope "e-1"))
      (record { db = (handle floats numeric python_str (envelope "e-1") broken).1.db; fates = [] })
    ≡ (
      some tt,
      record { db = (handle floats numeric python_str (envelope "e-1") broken).1.db; fates = [] },
    )
corrected_is_skipped_example =
    corrected_is_skipped ℕ ℕ floats numeric python_str args at (envelope "e-1") broken refl refl
