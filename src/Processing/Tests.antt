-- ===== src/Processing/Tests.antt =====
-- An order, an instance of the parameters, and the theorems at work on them.
use event_driven_data_platfo.Base.{
  ℕ, ◌+◌, ◌*◌, ◌≡◌, refl, true, String, none, some, List, [], ◌∷◌, ◌<◌, arith, lookup,
}
use event_driven_data_platfo.Base.Int.{pos}
use event_driven_data_platfo.Events.Types.{order_created}
use event_driven_data_platfo.Events.Values.{Json, integer, text}
use event_driven_data_platfo.Events.Samples.{floats}
use event_driven_data_platfo.Events.Envelopes.{EventEnvelope}
use event_driven_data_platfo.Processing.Rows.{hour, processed_order_row, metric_delta_for_event}
use event_driven_data_platfo.Processing.Tables.{Numeric, Db, empty_db, insert_new}
use event_driven_data_platfo.Processing.Actions.{Fate, answered, refused, unanswered, World}
use event_driven_data_platfo.Processing.Handler.{
  handle, handle_if, handle_new, write_state, handle_order,
}
use event_driven_data_platfo.Processing.Repository.{
  write_raw_event, insert_inbox, insert_raw_event, write_processed_order, write_metric_delta,
  mark_event_processed, update_watermark, raw_event_written, inbox_written,
}
use event_driven_data_platfo.Processing.Totals.{count_raw, events_total}
use event_driven_data_platfo.Processing.Accounting.{Accounts, handle-Accounts}
use event_driven_data_platfo.Processing.Conservation.{IsReconciled, failures, run-IsReconciled}
use event_driven_data_platfo.Processing.Delivery.{handle_again}
use event_driven_data_platfo.Processing.Commits.{poll_once-commits}
use event_driven_data_platfo.Processing.Worker.{
  ConsumerRecord, Poll, WorkerState, poll_once, count_batches, run, consume_records, consume_record,
  process_record,
}

abbrev numeric : Numeric ℕ ℕ
numeric = record { of_float = λ n. n; plus = ◌+◌ }

abbrev python_str : Json ℕ → String
python_str _ = "?"

abbrev order : EventEnvelope ℕ
order = record {
  event_id = "e-1";
  tenant_id = "acme";
  kind = order_created;
  event_timestamp = record { wall = 25 * hour + 7; offset = some (pos 0) };
  source_service = "shop";
  payload_version = pos 1;
  payload =
      ("order_id", text "o-1")
      ∷ ("customer_id", text "c-1")
      ∷ ("product_id", text "p-1")
      ∷ ("quantity", integer (pos 2))
      ∷ ("unit_price", integer (pos 10))
      ∷ [];
  trace_id = "t-1";
  correlation_id = some "t-1";
  causation_id = none;
  idempotency_key = some "e-1";
  schema_ref = none;
}

abbrev world_with : List Fate → World ℕ ℕ
world_with fates = record { db = empty_db; fates = fates }

-- The insert into the hourly metrics is refused: the raw event is there and the metrics are not.
half_done : Db ℕ ℕ
half_done =
    (handle floats numeric python_str order
      (world_with (answered ∷ answered ∷ answered ∷ refused ∷ []))).1.db

half_done_counts :
    (count_raw "acme" half_done.raw_events ≡ 1) × (events_total "acme" half_done.hourly ≡ 0)
unfolding half_done handle count_raw events_total write_raw_event insert_inbox insert_new
    insert_raw_event handle_if handle_new write_state handle_order processed_order_row lookup
    write_processed_order metric_delta_for_event write_metric_delta
half_done_counts = (refl, refl)

handle-Accounts_example :
    Accounts "acme" order empty_db
      (handle floats numeric python_str order
        (world_with (answered ∷ answered ∷ unanswered ∷ []))).0
      (handle floats numeric python_str order
        (world_with (answered ∷ answered ∷ unanswered ∷ []))).1.db
handle-Accounts_example =
    handle-Accounts ℕ ℕ "acme" floats numeric python_str order
      (world_with (answered ∷ answered ∷ unanswered ∷ []))

abbrev order_record : ConsumerRecord ℕ
order_record = record { topic = "order-events"; offset = pos 4; value = some order }

abbrev unreadable : ConsumerRecord ℕ
unreadable = record { topic = "order-events"; offset = pos 5; value = none }

abbrev poll : Poll ℕ
poll = record { batches = (order_record ∷ unreadable ∷ []) ∷ []; commit_answered = true }

abbrev unreadable_poll : Poll ℕ
unreadable_poll = record { batches = (unreadable ∷ []) ∷ []; commit_answered = true }

abbrev start : WorkerState ℕ ℕ
start = record {
  world = world_with [];
  records_processed = 0;
  processed_since_commit = 0;
  samples = [];
  position = 4;
  committed = 4;
}

empty-IsReconciled : IsReconciled "acme" (failures start.samples) start.world.db
unfolding count_raw events_total failures
empty-IsReconciled = record {
  daily_le = omega arith;
  hourly_le = omega arith;
  raw_le = omega arith;
}

run-IsReconciled_example :
    IsReconciled "acme"
      (failures (run floats numeric python_str (poll ∷ poll ∷ []) start).samples)
      (run floats numeric python_str (poll ∷ poll ∷ []) start).world.db
run-IsReconciled_example =
    run-IsReconciled ℕ ℕ "acme" floats numeric python_str (poll ∷ poll ∷ []) start
      empty-IsReconciled

handle_again_example :
    handle floats numeric python_str order (record { db = half_done; fates = [] })
    ≡ (some tt, record { db = half_done; fates = [] })
unfolding half_done
handle_again_example =
    handle_again ℕ ℕ floats numeric python_str order
      (world_with (answered ∷ answered ∷ answered ∷ refused ∷ [])) refl

poll_processed : (poll_once floats numeric python_str poll start).records_processed ≡ 1
unfolding poll_once consume_records consume_record process_record handle write_raw_event
    insert_inbox insert_new insert_raw_event handle_if handle_new write_state handle_order
    processed_order_row lookup write_processed_order metric_delta_for_event write_metric_delta
    mark_event_processed update_watermark raw_event_written inbox_written
poll_processed = refl

poll_processes : 0 < (poll_once floats numeric python_str poll start).records_processed
poll_processes = omega (arith, poll_processed)

poll_once-commits_example :
    ((poll_once floats numeric python_str poll start).committed ≡ 4 + count_batches poll.batches)
    × ((poll_once floats numeric python_str poll start).records_processed
          + failures (poll_once floats numeric python_str poll start).samples
        ≡ 0 + failures start.samples + count_batches poll.batches)
poll_once-commits_example =
    poll_once-commits ℕ ℕ floats numeric python_str poll start refl poll_processes

unreadable_not_processed :
    (poll_once floats numeric python_str unreadable_poll start).records_processed ≡ 0
unfolding poll_once consume_records consume_record process_record
unreadable_not_processed = refl
