-- ===== src/Reconciliation.antt =====
-- src/scripts/reconcile_metrics.py: the daily metrics are compared with the rows of the state tables.
pub mod Queries
pub mod Figures
pub mod Passes
pub mod Checks
pub mod Runs
pub mod Verdicts
pub mod Days
pub mod Drift
mod Tests
use event_driven_data_platfo.Base.{Bool, true, false, ◌||◌, if◌then◌else◌, String, [], ◌∷◌, map}
use event_driven_data_platfo.Base.Int.{ℤ, pos}
use event_driven_data_platfo.Events.Values.{Floats}
use event_driven_data_platfo.Processing.Tables.{Numeric, Db}
use event_driven_data_platfo.Reconciliation.Queries.{
  payment_record, activity_record, revenue_record,
}
use event_driven_data_platfo.Reconciliation.Checks.{
  Status, is_failed, status_of, PaymentResult, ActivityResult, RevenueResult, Rounding,
  payment_result, activity_result, revenue_result,
}
use event_driven_data_platfo.Reconciliation.Runs.{
  ReconciliationRequest, AuditRow, Details, of_payment, of_activity, of_revenue, Ledger, Check,
  RunOutcome, invalid_range, interrupted, finished, run_check,
}

-- What persist_check_result inserts for a check other than that of the revenue.
abbrev pub plain_row :
    {F : Type 0} → Floats F → String → String → ℤ → Status → Details F → String → AuditRow F
plain_row fl check_name tenant_id metric_date status details requested_by = record {
  tenant_id = tenant_id;
  metric_date = metric_date;
  check_name = check_name;
  status = status;
  revenue_delta = fl.of_int (pos 0);
  order_count_delta = pos 0;
  units_sold_delta = pos 0;
  details = details;
  checked_by = requested_by;
}

abbrev pub payment_check : {F : Type 0} → Floats F → Check F PaymentResult
payment_check fl = record {
  job_name = "reconciliation:payment_health";
  inputs = "tenant_metrics_daily" ∷ "processed_payments" ∷ [];
  outputs = "reconciliation_audit" ∷ [];
  status = λ r. r.status;
  audit_row = λ request r.
      plain_row fl "payment_reconciliation" r.tenant_id r.metric_date r.status (of_payment r)
        request.requested_by;
}

abbrev pub activity_check : {F : Type 0} → Floats F → Check F ActivityResult
activity_check fl = record {
  job_name = "reconciliation:customer_activity";
  inputs = "tenant_metrics_daily" ∷ "processed_user_sessions" ∷ [];
  outputs = "reconciliation_audit" ∷ [];
  status = λ r. r.status;
  audit_row = λ request r.
      plain_row fl "customer_activity_reconciliation" r.tenant_id r.metric_date r.status
        (of_activity r) request.requested_by;
}

-- What persist_reconciliation inserts.
abbrev pub revenue_check : {F : Type 0} → Check F (RevenueResult F)
revenue_check = record {
  job_name = "reconciliation:tenant_metrics_daily";
  inputs = "tenant_metrics_daily" ∷ "processed_orders" ∷ [];
  outputs = "reconciliation_audit" ∷ [];
  status = λ r. r.status;
  audit_row = λ request r. record {
    tenant_id = r.tenant_id;
    metric_date = r.metric_date;
    check_name = "tenant_metrics_daily_reconciliation";
    status = r.status;
    revenue_delta = r.revenue_delta;
    order_count_delta = r.order_count_delta;
    units_sold_delta = r.units_sold_delta;
    details = of_revenue r;
    checked_by = request.requested_by;
  };
}

-- What the runs of one request find.
pub data AllChecks (F : Type 0) : Type 0 where
  -- One of them has raised.
  raised : AllChecks F
  checks :
      Status
      → RunOutcome (RevenueResult F)
      → RunOutcome PaymentResult
      → RunOutcome ActivityResult
      → AllChecks F

-- `o.get("status") == "failed"`
abbrev pub outcome_failed : {R : Type 0} → RunOutcome R → Bool
outcome_failed (finished status _ _) = is_failed status
outcome_failed _ = false

-- An outcome that is an exception.
abbrev pub has_raised : {R : Type 0} → RunOutcome R → Bool
has_raised invalid_range = true
has_raised interrupted = true
has_raised _ = false

module _ {F N : Type 0} (fl : Floats F) (db : Db F N) (request : ReconciliationRequest F) where
  unfoldable pub run_payment_reconciliation :
      String → Ledger F → RunOutcome PaymentResult × Ledger F
  unfolding run_check
  run_payment_reconciliation run_id l =
      run_check (payment_check fl) request run_id
        (map λ day. payment_result 0 (payment_record db request.tenant_id day)) l

  unfoldable pub run_customer_activity_reconciliation :
      String → Ledger F → RunOutcome ActivityResult × Ledger F
  unfolding run_check
  run_customer_activity_reconciliation run_id l =
      run_check (activity_check fl) request run_id
        (map λ day. activity_result 0 (activity_record db request.tenant_id day)) l

  module _ (sql : Numeric F N) (no_revenue : N) (rounding : Rounding F N) where
    unfoldable pub run_reconciliation : String → Ledger F → RunOutcome (RevenueResult F) × Ledger F
    unfolding run_check
    run_reconciliation run_id l =
        run_check revenue_check request run_id
          (map λ day.
            revenue_result fl rounding request.revenue_tolerance
              (revenue_record db request.tenant_id sql no_revenue day))
          l

    abbrev pub all_found :
        RunOutcome (RevenueResult F)
        → RunOutcome PaymentResult
        → RunOutcome ActivityResult × Ledger F
        → AllChecks F × Ledger F
    all_found revenue payment (activity, l) = if has_raised activity then (raised, l) else (
      checks
          (status_of (outcome_failed revenue || outcome_failed payment || outcome_failed activity))
          revenue payment activity,
      l,
    )

    unfoldable pub after_payment :
        String
        → RunOutcome (RevenueResult F)
        → RunOutcome PaymentResult × Ledger F
        → AllChecks F × Ledger F
    unfolding run_customer_activity_reconciliation
    after_payment third revenue (payment, l) =
        if has_raised payment
        then (raised, l)
        else all_found revenue payment (run_customer_activity_reconciliation third l)

    unfoldable pub after_revenue :
        String → String → RunOutcome (RevenueResult F) × Ledger F → AllChecks F × Ledger F
    unfolding run_payment_reconciliation after_payment
    after_revenue second third (revenue, l) =
        if has_raised revenue
        then (raised, l)
        else after_payment third revenue (run_payment_reconciliation second l)

    -- The three runs in the order of CHECK_RUNNERS, each with its own run id.
    unfoldable pub run_all_checks : String → String → String → Ledger F → AllChecks F × Ledger F
    unfolding run_reconciliation after_revenue
    run_all_checks first second third l = after_revenue second third (run_reconciliation first l)
