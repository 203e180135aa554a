-- ===== src/Processing/Worker.antt =====
-- KafkaProcessingWorker of services/processing-service/app/worker.py: what start does with the
-- records of each poll. The consumer is kafka-python's: a poll moves its position past the records
-- that it returns, and `commit` stores the position. Of a record's value the model has what
-- envelope_from_json reads, `none` where that raises. A record's headers, which only continue its
-- trace, and the log are left out.
use event_driven_data_platfo.Base.{
  ℕ, ◌+◌, Bool, true, false, Option, none, some, List, [], ◌∷◌, String, length, ltb, if◌then◌else◌,
}
use event_driven_data_platfo.Base.Int.{ℤ, pos, ◌-ℤ◌}
use event_driven_data_platfo.Events.Types.{EventType}
use event_driven_data_platfo.Events.Values.{Json, Floats}
use event_driven_data_platfo.Events.Envelopes.{EventEnvelope}
use event_driven_data_platfo.Processing.Tables.{Numeric, greatest}
use event_driven_data_platfo.Processing.Actions.{Result, World, Action, evaluate, ◌>>=◌, ◌>>◌}
use event_driven_data_platfo.Processing.Repository.{update_watermark}
use event_driven_data_platfo.Processing.Handler.{handle}

pub record ConsumerRecord (F : Type 0) : Type 0 where
  pub topic : String
  pub offset : ℤ
  pub value : Option (EventEnvelope F)

-- The records of one poll, by partition, and whether a commit after them would be answered.
pub record Poll (F : Type 0) : Type 0 where
  pub batches : List (List (ConsumerRecord F))
  pub commit_answered : Bool

-- A sample of the counter of record_event_processed: the event type, `none` for "unknown", and
-- whether the status is "success".
pub record Sample : Type 0 where
  pub kind : Option EventType
  pub success : Bool

pub record WorkerState (F N : Type 0) : Type 0 where
  pub world : World F N
  pub records_processed : ℕ
  pub processed_since_commit : ℕ
  pub samples : List Sample
  pub position : ℕ
  pub committed : ℕ

abbrev kind_of : {F : Type 0} → Option (EventEnvelope F) → Option EventType
kind_of none = none
kind_of (some v) = some v.kind

unfoldable pub count_batches : {F : Type 0} → List (List (ConsumerRecord F)) → ℕ
count_batches [] = 0
count_batches (rs ∷ rest) = length rs + count_batches rest

module _ {F N : Type 0} (fl : Floats F) (sql : Numeric F N) (str : Json F → String) where
  -- The body of the `try`.
  unfoldable pub process_record : ConsumerRecord F → Action F N Unit
  process_record r = do
    envelope ← evaluate r.value
    handle fl sql str envelope
    update_watermark envelope r.topic r.offset "active"

  -- What follows it: the counters, or the `except`.
  unfoldable pub count_record :
      ConsumerRecord F → WorkerState F N → Result Unit × World F N → WorkerState F N
  count_record r s (some _, w) = record s {
    world = w;
    records_processed = s.records_processed + 1;
    processed_since_commit = s.processed_since_commit + 1;
    samples = record { kind = kind_of r.value; success = true } ∷ s.samples;
  }
  count_record r s (none, w) = record s {
    world = w;
    samples = record { kind = kind_of r.value; success = false } ∷ s.samples;
  }

  unfoldable pub consume_record : ConsumerRecord F → WorkerState F N → WorkerState F N
  unfolding count_record
  consume_record r s = count_record r s (process_record r s.world)

  unfoldable pub consume_records : List (ConsumerRecord F) → WorkerState F N → WorkerState F N
  consume_records [] s = s
  consume_records (r ∷ rs) s = consume_records rs (consume_record r s)

  unfoldable pub consume_batches :
      List (List (ConsumerRecord F)) → WorkerState F N → WorkerState F N
  consume_batches [] s = s
  consume_batches (rs ∷ rest) s = consume_batches rest (consume_records rs s)

  -- `if processed_since_commit: … commit`
  unfoldable pub commit_if_needed : Bool → WorkerState F N → WorkerState F N
  commit_if_needed answered s =
      if ltb 0 s.processed_since_commit
      then (if answered then record s { committed = s.position } else s)
      else s

  -- One turn of the loop.
  unfoldable pub poll_once : Poll F → WorkerState F N → WorkerState F N
  unfolding consume_batches commit_if_needed
  poll_once p s = commit_if_needed p.commit_answered (
      consume_batches p.batches
        (record s { processed_since_commit = 0; position = s.position + count_batches p.batches }))

  -- A commit that is needed and not answered raises and ends the loop.
  unfoldable pub stops : Poll F → WorkerState F N → Bool
  stops p s = if p.commit_answered then false else ltb 0 s.processed_since_commit

  -- The loop, for the polls that are made before `stop`.
  unfoldable pub run : List (Poll F) → WorkerState F N → WorkerState F N
  unfolding poll_once stops
  run [] s = s
  run (p ∷ ps) s =
      let next = poll_once p s in let rest = run ps next in if stops p next then next else rest

-- What _record_consumer_lag reports of a partition: nothing when the position or the broker's
-- high-water mark is not known.
unfoldable pub reported_lag : Option ℤ → Option ℤ → Option ℤ
unfolding greatest
reported_lag none high = none
reported_lag (some at) none = none
reported_lag (some at) (some high) = some (greatest (pos 0) (high -ℤ at))
