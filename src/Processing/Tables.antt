-- ===== src/Processing/Tables.antt =====
-- The tables of database/init/001_schema.sql that the processing service writes, and what the
-- statements of repository.py do to their rows. Columns that hold `now()` are left out.
use event_driven_data_platfo.Base.{
  ℕ, ◌+◌, Bool, true, false, ◌||◌, String, Option, List, [], ◌∷◌, Dict, if◌then◌else◌,
}
use event_driven_data_platfo.Base.Int.{ℤ, ◌+ℤ◌, leb_ℤ}
use event_driven_data_platfo.Events.Types.{EventType}
use event_driven_data_platfo.Events.Values.{Json}
use event_driven_data_platfo.Events.Envelopes.{Datetime}
use event_driven_data_platfo.Processing.Rows.{OrderRow, PaymentRow, SessionRow, HealthRow}

pub data InboxStatus : Type 0 where
  processing : InboxStatus
  processed : InboxStatus
  duplicate : InboxStatus

-- `event_inbox`, the rows of the consumer 'processing-service'
pub record InboxRow : Type 0 where
  pub event_id : String
  pub tenant_id : String
  pub kind : EventType
  pub trace_id : String
  pub status : InboxStatus
  pub error_message : Option String

-- `raw_events`
pub record RawRow (F : Type 0) : Type 0 where
  pub event_id : String
  pub tenant_id : String
  pub kind : EventType
  pub event_timestamp : Datetime
  pub source_service : String
  pub payload_version : ℤ
  pub payload : Dict (Json F)
  pub trace_id : String
  pub correlation_id : Option String
  pub causation_id : Option String
  pub idempotency_key : Option String

-- `tenant_products`
pub record StoredProduct (F : Type 0) : Type 0 where
  pub tenant_id : String
  pub product_id : String
  pub sku : Json F
  pub name : Json F
  pub category : Json F
  pub price : Json F
  pub inventory_on_hand : ℤ
  pub active : Json F
  pub last_event_id : String
  pub updated_at : Datetime

-- A row of `tenant_metrics_hourly` or `tenant_metrics_daily`. The bucket is the instant in
-- microseconds UTC of the one and the day of the other.
pub record MetricsRow (N : Type 0) : Type 0 where
  pub tenant_id : String
  pub bucket : ℤ
  pub gross_revenue : N
  pub net_revenue : N
  pub order_count : ℕ
  pub units_sold : ℤ
  pub new_users : ℕ
  pub active_users : ℕ
  pub churn_signal_count : ℕ
  pub payment_success_count : ℕ
  pub payment_failure_count : ℕ
  pub marketing_spend : N
  pub marketing_attributed_revenue : N
  pub events_processed : ℕ

-- `alerts`
pub record AlertRow : Type 0 where
  pub tenant_id : String
  pub alert_type : String
  pub severity : String
  pub status : String
  pub message : String
  pub source_event_id : String

-- `pipeline_watermarks`, the rows of the pipeline 'processing-service'
pub record WatermarkRow : Type 0 where
  pub tenant_id : String
  pub source_topic : String
  pub last_processed_timestamp : Datetime
  pub last_processed_offset : Option ℤ
  pub status : String
  pub event_id : String
  pub kind : EventType
  pub trace_id : String

-- `pipeline_run_log`
pub record PipelineRun : Type 0 where
  pub pipeline_name : String
  pub status : String
  pub records_processed : ℕ
  pub error_message : Option String

-- PostgreSQL's `numeric` columns: the conversion of a float, and the sum.
pub record Numeric (F N : Type 0) : Type 0 where
  pub of_float : F → N
  pub plus : N → N → N

pub record Db (F N : Type 0) : Type 0 where
  pub inbox : List InboxRow
  pub raw_events : List (RawRow F)
  pub orders : List (String × OrderRow F)
  pub payments : List (String × PaymentRow F)
  pub sessions : List (SessionRow F)
  pub products : List (StoredProduct F)
  pub health : List (HealthRow F)
  pub hourly : List (MetricsRow N)
  pub daily : List (MetricsRow N)
  pub alerts : List AlertRow
  pub watermarks : List WatermarkRow
  pub runs : List PipelineRun

abbrev pub empty_db : {F N : Type 0} → Db F N
empty_db = record {
  inbox = [];
  raw_events = [];
  orders = [];
  payments = [];
  sessions = [];
  products = [];
  health = [];
  hourly = [];
  daily = [];
  alerts = [];
  watermarks = [];
  runs = [];
}

module _ {R : Type 0} where
  unfoldable pub any : (R → Bool) → List R → Bool
  any same [] = false
  any same (r ∷ rs) = same r || any same rs

  -- `on conflict (…) do nothing`, and whether a row was inserted
  unfoldable pub insert_new : (R → Bool) → R → List R → Bool × List R
  unfolding any
  insert_new same row rows = if any same rows then (false, rows) else (true, row ∷ rows)

  -- `on conflict (…) do update set …`: `change` is told the row that is there.
  unfoldable pub upsert : (R → Bool) → (R → R) → R → List R → List R
  upsert same change row [] = row ∷ []
  upsert same change row (r ∷ rs) =
      let rest = upsert same change row rs in if same r then change r ∷ rs else r ∷ rest

  -- `update … set … where …`
  unfoldable pub update_where : (R → Bool) → (R → R) → List R → List R
  update_where same change [] = []
  update_where same change (r ∷ rs) =
      let rest = update_where same change rs in (if same r then change r else r) ∷ rest

-- `greatest(…)`
unfoldable pub greatest : ℤ → ℤ → ℤ
greatest a b = if leb_ℤ a b then b else a

-- `set gross_revenue = tenant_metrics_hourly.gross_revenue + excluded.gross_revenue, …`
unfoldable pub add_metrics :
    {F N : Type 0} → Numeric F N → MetricsRow N → MetricsRow N → MetricsRow N
add_metrics sql new old = record {
  tenant_id = old.tenant_id;
  bucket = old.bucket;
  gross_revenue = sql.plus old.gross_revenue new.gross_revenue;
  net_revenue = sql.plus old.net_revenue new.net_revenue;
  order_count = old.order_count + new.order_count;
  units_sold = old.units_sold +ℤ new.units_sold;
  new_users = old.new_users + new.new_users;
  active_users = old.active_users + new.active_users;
  churn_signal_count = old.churn_signal_count + new.churn_signal_count;
  payment_success_count = old.payment_success_count + new.payment_success_count;
  payment_failure_count = old.payment_failure_count + new.payment_failure_count;
  marketing_spend = sql.plus old.marketing_spend new.marketing_spend;
  marketing_attributed_revenue =
      sql.plus old.marketing_attributed_revenue new.marketing_attributed_revenue;
  events_processed = old.events_processed + new.events_processed;
}
