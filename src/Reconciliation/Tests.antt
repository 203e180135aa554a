-- ===== src/Reconciliation/Tests.antt =====
-- A payment that is authorized and then captured, and the checks at work on small databases.
use event_driven_data_platfo.Base.{
  ℕ, ◌+◌, ◌*◌, ◌≡◌, ◌↔◌, refl, false, String, none, some, List, [], ◌∷◌, arith, lookup, Every, map,
}
use event_driven_data_platfo.Base.Int.{◌+ℤ◌, ◌-ℤ◌, ℤ, pos}
use event_driven_data_platfo.Events.Types.{EventType, payment_captured}
use event_driven_data_platfo.Events.Values.{Json, integer, text, null}
use event_driven_data_platfo.Events.Samples.{floats}
use event_driven_data_platfo.Events.Envelopes.{EventEnvelope}
use event_driven_data_platfo.Processing.Rows.{PaymentRow, hour, event_hour}
use event_driven_data_platfo.Processing.Tables.{any, Numeric, Db, MetricsRow, empty_db}
use event_driven_data_platfo.Processing.Actions.{refused, answered}
use event_driven_data_platfo.Processing.Handler.{handle}
use event_driven_data_platfo.Processing.Repository.{instant, metric_day}
use event_driven_data_platfo.Reconciliation.{
  payment_check, run_payment_reconciliation, run_reconciliation,
}
use event_driven_data_platfo.Reconciliation.Queries.{
  has_value, daily_row, day_of_instant, is_failure, count_where, days_from, payment_record, date_of,
  is_success, dates,
}
use event_driven_data_platfo.Reconciliation.Checks.{
  Status, passed, failed, Rounding, PaymentResult, RevenueResult, payment_result,
}
use event_driven_data_platfo.Reconciliation.Runs.{
  ReconciliationRequest, Ledger, finished, run_check,
}
use event_driven_data_platfo.Reconciliation.Verdicts.{HasRecorded, run_check-HasRecorded}
use event_driven_data_platfo.Reconciliation.Figures.{AreDays}
use event_driven_data_platfo.Reconciliation.Passes.{
  HasPayments, HasRevenue, run_payment_reconciliation-passes, run_reconciliation-passes,
}
use event_driven_data_platfo.Reconciliation.Drift.{handle-captured_drifts}

abbrev numeric : Numeric ℕ ℕ
numeric = record { of_float = λ n. n; plus = ◌+◌ }

abbrev rounding : Rounding ℕ ℕ
rounding = record { to_float = λ n. n; round_4 = λ x. x; absolute = λ x. x }

abbrev python_str : Json ℕ → String
python_str _ = "?"

-- Event `id` on payment p-1 with the status, of the second day.
abbrev payment : String → EventType → String → EventEnvelope ℕ
payment id kind status = record {
  event_id = id;
  tenant_id = "acme";
  kind = kind;
  event_timestamp = record { wall = 25 * hour + 7; offset = some (pos 0) };
  source_service = "payments";
  payload_version = pos 1;
  payload =
      ("payment_id", text "p-1")
      ∷ ("order_id", text "o-1")
      ∷ ("customer_id", text "c-1")
      ∷ ("amount", integer (pos 20))
      ∷ ("status", text status)
      ∷ [];
  trace_id = "t-1";
  correlation_id = some "t-1";
  causation_id = none;
  idempotency_key = some id;
  schema_ref = none;
}

abbrev captured : EventEnvelope ℕ
captured = payment "e-2" payment_captured "captured"

abbrev payment_row : PaymentRow ℕ
payment_row = record {
  tenant_id = "acme";
  event_id = "e-1";
  payment_id = text "p-1";
  order_id = text "o-1";
  customer_id = text "c-1";
  amount = integer (pos 20);
  currency = text "USD";
  status = text "authorized";
  payment_method = text "unknown";
  failure_code = null;
  risk_score = null;
  event_timestamp = record { wall = 25 * hour + 7; offset = some (pos 0) };
}

-- The metrics of the second day, with a number of payments that succeeded.
abbrev metrics : ℕ → MetricsRow ℕ
metrics count = record {
  tenant_id = "acme";
  bucket = pos 1;
  gross_revenue = 0;
  net_revenue = 0;
  order_count = 0;
  units_sold = pos 0;
  new_users = 0;
  active_users = 0;
  churn_signal_count = 0;
  payment_success_count = count;
  payment_failure_count = 0;
  marketing_spend = 0;
  marketing_attributed_revenue = 0;
  events_processed = count;
}

-- The payment has been authorized.
abbrev authorized_db : Db ℕ ℕ
authorized_db = record empty_db { payments = ("p-1", payment_row) ∷ []; daily = metrics 1 ∷ [] }

abbrev request : ReconciliationRequest ℕ
request = record {
  tenant_id = "acme";
  start_date = pos 0;
  end_date = pos 1;
  revenue_tolerance = 0;
  requested_by = "operator";
  dry_run = false;
}

abbrev empty_ledger : Ledger ℕ
empty_ledger = record { audit = []; lineage = []; fates = [] }

-- Two payments are in the metrics of the second day and one is in the table.
counted_twice_fails :
    (run_payment_reconciliation floats
      (record authorized_db { daily = metrics 2 ∷ [] })
      request
      "run-1"
      empty_ledger).0
    ≡ finished failed
        (record {
          tenant_id = "acme";
          metric_date = pos 0;
          status = passed;
          payment_success_count_delta = pos 0;
          payment_failure_count_delta = pos 0;
        }
          ∷ record {
            tenant_id = "acme";
            metric_date = pos 1;
            status = failed;
            payment_success_count_delta = pos 1;
            payment_failure_count_delta = pos 0;
          }
          ∷ [])
        1
unfolding run_payment_reconciliation dates days_from ◌-ℤ◌ payment_result payment_record count_where
    ◌+ℤ◌ is_success is_failure date_of day_of_instant instant daily_row has_value
counted_twice_fails = refl

abbrev results : List ℤ → List PaymentResult
results = map λ day. payment_result 0 (payment_record authorized_db "acme" day)

-- The second insert is refused.
abbrev failing_ledger : Ledger ℕ
failing_ledger = record { audit = []; lineage = []; fates = answered ∷ answered ∷ refused ∷ [] }

run_check-HasRecorded_example :
    HasRecorded
      (payment_check floats)
      request
      "run-1"
      (results (dates (pos 0) (pos 1)))
      failing_ledger
      (run_check (payment_check floats) request "run-1" results failing_ledger)
run_check-HasRecorded_example =
    run_check-HasRecorded (payment_check floats) request "run-1" results failing_ledger

run_payment_reconciliation-passes_example :
    (days : List ℤ) × AreDays (pos 0) (pos 1) days
    × (status : Status) × (results : List PaymentResult) × (failures : ℕ)
    × ((run_payment_reconciliation floats authorized_db request "run-1" empty_ledger).0
        ≡ finished status results failures)
    × ((status ≡ passed) ↔ Every (HasPayments authorized_db "acme") days)
run_payment_reconciliation-passes_example =
    run_payment_reconciliation-passes floats authorized_db request "run-1" empty_ledger
      (omega arith) refl refl

run_reconciliation-passes_example :
    (days : List ℤ) × AreDays (pos 0) (pos 1) days
    × (status : Status) × (results : List (RevenueResult ℕ)) × (failures : ℕ) × ((run_reconciliation
          floats authorized_db request numeric 0 rounding "run-1" empty_ledger).0
        ≡ finished status results failures)
    × ((status ≡ passed) ↔ Every (HasRevenue authorized_db "acme" numeric 0 floats rounding 0) days)
run_reconciliation-passes_example =
    run_reconciliation-passes floats authorized_db request numeric 0 rounding "run-1" empty_ledger
      (omega arith) refl refl

abbrev second_day : ℤ
second_day = date_of captured.event_timestamp

handle-captured_drifts_example :
    ((payment_record
        (handle floats numeric python_str captured (record { db = authorized_db; fates = [] })).1.db
        "acme"
        second_day).serving_payment_success_count
      ≡ (payment_record authorized_db "acme" second_day).serving_payment_success_count + 1)
    × ((payment_record
          (handle floats numeric python_str captured
            (record { db = authorized_db; fates = [] })).1.db
          "acme"
          second_day).recomputed_payment_success_count
        ≡ (payment_record authorized_db "acme" second_day).recomputed_payment_success_count)
unfolding lookup any date_of metric_day day_of_instant instant ◌-ℤ◌ event_hour is_success has_value
handle-captured_drifts_example =
    handle-captured_drifts floats numeric python_str captured "p-1"
      (record {
        is_kind = refl;
        order = text "o-1";
        customer = text "c-1";
        amount = integer (pos 20);
        has_payment = refl;
        has_order = refl;
        has_customer = refl;
        has_amount = refl;
        has_status = refl;
      })
      authorized_db refl refl refl refl ((λ h. refl), tt)
