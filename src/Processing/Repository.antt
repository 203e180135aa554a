-- ===== src/Processing/Repository.antt =====
-- ProcessingRepository of services/processing-service/app/repository.py.
use event_driven_data_platfo.Base.{
  ℕ, ◌/◌, ◌*◌, Bool, true, false, ◌&&◌, String, Option, none, some, List, ◌∷◌, ◌==◌, ◌++ₛ◌, or_else,
}
use event_driven_data_platfo.Base.Int.{ℤ, pos, negsuc, ◌+ℤ◌, ◌-ℤ◌, eqb_ℤ}
use event_driven_data_platfo.Events.Values.{Json, null, integer, text}
use event_driven_data_platfo.Events.Envelopes.{Datetime, EventEnvelope}
use event_driven_data_platfo.Processing.Rows.{
  OrderRow, PaymentRow, SessionRow, ProductRow, HealthRow, MetricDelta, hour, get_item, shown,
}
use event_driven_data_platfo.Processing.Tables.{
  processing, processed, duplicate, InboxRow, RawRow, MetricsRow, Numeric, Db, insert_new, upsert,
  update_where, greatest, add_metrics,
}
use event_driven_data_platfo.Processing.Actions.{
  Action, return, evaluate, execute_scoped, statement, ◌>>=◌, ◌>>◌,
}

-- `where consumer_name = 'processing-service' and event_id = $1 and tenant_id = $2`
abbrev pub inbox_row_of : {F : Type 0} → EventEnvelope F → InboxRow → Bool
inbox_row_of v r = (r.event_id == v.event_id) && (r.tenant_id == v.tenant_id)

abbrev pub new_inbox_row : {F : Type 0} → EventEnvelope F → InboxRow
new_inbox_row v = record {
  event_id = v.event_id;
  tenant_id = v.tenant_id;
  kind = v.kind;
  trace_id = v.trace_id;
  status = processing;
  error_message = none;
}

abbrev pub raw_row : {F : Type 0} → EventEnvelope F → RawRow F
raw_row v = record {
  event_id = v.event_id;
  tenant_id = v.tenant_id;
  kind = v.kind;
  event_timestamp = v.event_timestamp;
  source_service = v.source_service;
  payload_version = v.payload_version;
  payload = v.payload;
  trace_id = v.trace_id;
  correlation_id = v.correlation_id;
  causation_id = v.causation_id;
  idempotency_key = v.idempotency_key;
}

-- A value for a `text not null` column.
abbrev pub bound_text : {F : Type 0} → Json F → Option String
bound_text (text s) = some s
bound_text _ = none

-- A value for an `integer` column; the inner `none` is NULL.
abbrev pub bound_integer : {F : Type 0} → Json F → Option (Option ℤ)
bound_integer null = some none
bound_integer (integer z) = some (some z)
bound_integer _ = none

-- `greatest(…, 0)`, which passes over NULL
abbrev pub greatest_or_zero : Option ℤ → ℤ
greatest_or_zero none = pos 0
greatest_or_zero (some z) = greatest z (pos 0)

abbrev pub plus_bound : ℤ → Option ℤ → Option ℤ
plus_bound a none = none
plus_bound a (some b) = some (a +ℤ b)

-- `set status = 'processed', error_message = null`
abbrev pub set_processed : InboxRow → InboxRow
set_processed r = record r { status = processed; error_message = none }

-- `set status = 'duplicate', error_message = $3`
abbrev pub set_duplicate : String → InboxRow → InboxRow
set_duplicate reason r = record r { status = duplicate; error_message = some reason }

module _ {F N : Type 0} where
  unfoldable pub insert_inbox : EventEnvelope F → Db F N → Bool × Db F N
  insert_inbox v db =
      let (inserted, rows) =
        insert_new (λ r. r.event_id == v.event_id) (new_inbox_row v) db.inbox in
      (inserted, record db { inbox = rows })

  unfoldable pub insert_raw_event : EventEnvelope F → Db F N → Bool × Db F N
  insert_raw_event v db =
      let (inserted, rows) = insert_new (λ r. r.event_id == v.event_id) (raw_row v) db.raw_events in
      (inserted, record db { raw_events = rows })

  unfoldable pub update_inbox : EventEnvelope F → (InboxRow → InboxRow) → Db F N → Db F N
  unfolding update_where
  update_inbox v change db = record db { inbox = update_where (inbox_row_of v) change db.inbox }

  unfoldable pub mark_event_processed : EventEnvelope F → Action F N Unit
  unfolding update_inbox
  mark_event_processed v = statement (update_inbox v set_processed)

  unfoldable pub mark_event_duplicate : EventEnvelope F → String → Action F N Unit
  unfolding update_inbox
  mark_event_duplicate v reason = statement (update_inbox v (set_duplicate reason))

  unfoldable pub raw_event_written : EventEnvelope F → Bool → Action F N Bool
  raw_event_written v true = return true
  raw_event_written v false = do
    mark_event_duplicate v "raw_events already contained event_id"
    return false

  unfoldable pub inbox_written : EventEnvelope F → Bool → Action F N Bool
  unfolding raw_event_written
  inbox_written v false = return false
  inbox_written v true = do
    inserted ← execute_scoped (insert_raw_event v)
    raw_event_written v inserted

  unfoldable pub write_raw_event : EventEnvelope F → Action F N Bool
  unfolding inbox_written
  write_raw_event v = do received ← execute_scoped (insert_inbox v); inbox_written v received

  unfoldable pub write_processed_order : OrderRow F → Action F N Unit
  unfolding upsert
  write_processed_order row = do
    key ← evaluate (bound_text row.order_id)
    statement λ db. record db {
      orders =
          upsert (λ r. (r.1.tenant_id == row.tenant_id) && (r.0 == key))
            (λ r. (
              r.0,
              record r.1 {
                quantity = row.quantity;
                unit_price = row.unit_price;
                discount_amount = row.discount_amount;
                gross_revenue = row.gross_revenue;
                net_revenue = row.net_revenue;
                status = row.status;
                channel = row.channel;
                marketing_campaign_id = row.marketing_campaign_id;
                region = row.region;
                event_timestamp = row.event_timestamp;
              },
            ))
            (key, row) db.orders;
    }

  unfoldable pub write_processed_payment : PaymentRow F → Action F N Unit
  unfolding upsert
  write_processed_payment row = do
    key ← evaluate (bound_text row.payment_id)
    statement λ db. record db {
      payments =
          upsert (λ r. (r.1.tenant_id == row.tenant_id) && (r.0 == key))
            (λ r. (
              r.0,
              record r.1 {
                status = row.status;
                failure_code = row.failure_code;
                risk_score = row.risk_score;
                event_timestamp = row.event_timestamp;
              },
            ))
            (key, row) db.payments;
    }

  unfoldable pub write_user_session_event : SessionRow F → Action F N Unit
  unfolding insert_new
  write_user_session_event row = statement λ db. record db {
    sessions = (insert_new (λ r. r.event_id == row.event_id) row db.sessions).1;
  }

  unfoldable pub write_product_state : ProductRow F → Action F N Unit
  unfolding upsert greatest
  write_product_state row = do
    key ← evaluate (bound_text row.product_id)
    change ← evaluate (bound_integer row.inventory_delta)
    statement λ db. record db {
      products =
          upsert (λ r. (r.tenant_id == row.tenant_id) && (r.product_id == key))
            (λ r. record r {
              sku = row.sku;
              name = row.name;
              category = row.category;
              price = row.price;
              inventory_on_hand = greatest_or_zero (plus_bound r.inventory_on_hand change);
              active = row.active;
              last_event_id = row.event_id;
              updated_at = row.event_timestamp;
            })
            (record {
              tenant_id = row.tenant_id;
              product_id = key;
              sku = row.sku;
              name = row.name;
              category = row.category;
              price = row.price;
              inventory_on_hand = greatest_or_zero change;
              active = row.active;
              last_event_id = row.event_id;
              updated_at = row.event_timestamp;
            })
            db.products;
    }

  unfoldable pub write_service_health : HealthRow F → Action F N Unit
  unfolding insert_new
  write_service_health row =
      statement
        λ db. record db { health = (insert_new (λ r. r.event_id == row.event_id) row db.health).1 }

  unfoldable pub write_risk_alert : (Json F → String) → EventEnvelope F → Action F N Unit
  write_risk_alert str v = statement λ db. record db {
    alerts =
        record {
          tenant_id = v.tenant_id;
          alert_type = "payment_risk";
          severity = "high";
          status = "open";
          message =
              "High-risk payment failure for order "
              ++ₛ shown str (get_item v.payload "order_id" null);
          source_event_id = v.event_id;
        }
        ∷ db.alerts;
  }

  unfoldable pub log_pipeline_run : String → String → ℕ → Option String → Action F N Unit
  log_pipeline_run name status count error = statement λ db. record db {
    runs =
        record {
          pipeline_name = name;
          status = status;
          records_processed = count;
          error_message = error;
        }
        ∷ db.runs;
  }

  unfoldable pub update_watermark : EventEnvelope F → String → ℤ → String → Action F N Unit
  unfolding upsert greatest
  update_watermark v topic offset status = statement λ db. record db {
    watermarks =
        upsert (λ r. (r.tenant_id == v.tenant_id) && (r.source_topic == topic))
          (λ r. record r {
            last_processed_timestamp = v.event_timestamp;
            last_processed_offset =
                some (greatest (or_else r.last_processed_offset (negsuc 0)) offset);
            status = status;
            event_id = v.event_id;
            kind = v.kind;
            trace_id = v.trace_id;
          })
          (record {
            tenant_id = v.tenant_id;
            source_topic = topic;
            last_processed_timestamp = v.event_timestamp;
            last_processed_offset = some offset;
            status = status;
            event_id = v.event_id;
            kind = v.kind;
            trace_id = v.trace_id;
          })
          db.watermarks;
  }

-- `$2::date` of `delta.metric_ts.date()`: the day of the clock that the event was written on.
unfoldable pub metric_day : Datetime → ℤ
metric_day d = pos (d.wall / (24 * hour))

-- `delta.metric_ts.astimezone(timezone.utc)`, as microseconds
unfoldable pub instant : Datetime → ℤ
instant d = pos d.wall -ℤ or_else d.offset (pos 0)

module _ {F N : Type 0} (sql : Numeric F N) where
  unfoldable pub metrics_row : MetricDelta F → ℤ → MetricsRow N
  metrics_row delta bucket = record {
    tenant_id = delta.tenant_id;
    bucket = bucket;
    gross_revenue = sql.of_float delta.gross_revenue;
    net_revenue = sql.of_float delta.net_revenue;
    order_count = delta.order_count;
    units_sold = delta.units_sold;
    new_users = delta.new_users;
    active_users = delta.active_users;
    churn_signal_count = delta.churn_signal_count;
    payment_success_count = delta.payment_success_count;
    payment_failure_count = delta.payment_failure_count;
    marketing_spend = sql.of_float delta.marketing_spend;
    marketing_attributed_revenue = sql.of_float delta.marketing_attributed_revenue;
    events_processed = delta.events_processed;
  }

  -- `insert … on conflict (tenant_id, metric_hour) do update set …`, and the same for the day
  unfoldable pub accumulate : MetricsRow N → List (MetricsRow N) → List (MetricsRow N)
  unfolding upsert add_metrics
  accumulate new rows =
      upsert (λ r. (r.tenant_id == new.tenant_id) && eqb_ℤ r.bucket new.bucket)
        (add_metrics sql new) new rows

  unfoldable pub add_hourly : MetricDelta F → Db F N → Db F N
  unfolding accumulate metrics_row instant
  add_hourly delta db = record db {
    hourly = accumulate (metrics_row delta (instant delta.metric_ts)) db.hourly;
  }

  unfoldable pub add_daily : MetricDelta F → Db F N → Db F N
  unfolding accumulate metrics_row metric_day
  add_daily delta db = record db {
    daily = accumulate (metrics_row delta (metric_day delta.metric_ts)) db.daily;
  }

  unfoldable pub write_hourly : MetricDelta F → Action F N Unit
  unfolding add_hourly
  write_hourly delta = statement (add_hourly delta)

  unfoldable pub write_daily : MetricDelta F → Action F N Unit
  unfolding add_daily
  write_daily delta = statement (add_daily delta)

  unfoldable pub write_metric_delta : MetricDelta F → Action F N Unit
  unfolding write_hourly write_daily
  write_metric_delta delta = write_hourly delta >> write_daily delta
