-- ===== src/Reconciliation/Checks.antt =====
-- evaluate_reconciliation and the two functions beside it: the verdict on each day.
use event_driven_data_platfo.Base.{ℕ, Bool, true, false, ◌||◌, String, ltb}
use event_driven_data_platfo.Base.Int.{ℤ, pos_part, neg_part, sub_ℕ, ◌-ℤ◌}
use event_driven_data_platfo.Events.Values.{Floats}
use event_driven_data_platfo.Reconciliation.Queries.{PaymentRecord, ActivityRecord, RevenueRecord}

pub data Status : Type 0 where
  passed : Status
  failed : Status

abbrev pub is_failed : Status → Bool
is_failed passed = false
is_failed failed = true

abbrev pub status_of : Bool → Status
status_of true = failed
status_of false = passed

-- `abs(delta) > tolerance`
abbrev pub exceeds : ℤ → ℕ → Bool
exceeds delta tolerance = ltb tolerance (pos_part delta) || ltb tolerance (neg_part delta)

pub record PaymentResult : Type 0 where
  pub tenant_id : String
  pub metric_date : ℤ
  pub status : Status
  pub payment_success_count_delta : ℤ
  pub payment_failure_count_delta : ℤ

pub record ActivityResult : Type 0 where
  pub tenant_id : String
  pub metric_date : ℤ
  pub status : Status
  pub new_users_delta : ℤ
  pub active_users_delta : ℤ
  pub churn_signal_count_delta : ℤ

pub record RevenueResult (F : Type 0) : Type 0 where
  pub tenant_id : String
  pub metric_date : ℤ
  pub status : Status
  pub revenue_delta : F
  pub order_count_delta : ℤ
  pub units_sold_delta : ℤ
  pub serving_events_processed : ℕ

-- Of a numeric value, `float(…)`; of a float, `round(…, 4)` and `abs(…)`.
pub record Rounding (F N : Type 0) : Type 0 where
  pub to_float : N → F
  pub round_4 : F → F
  pub absolute : F → F

unfoldable pub payment_result : ℕ → PaymentRecord → PaymentResult
payment_result count_tolerance row =
    let success_delta =
      sub_ℕ row.serving_payment_success_count row.recomputed_payment_success_count in
    let failure_delta =
      sub_ℕ row.serving_payment_failure_count row.recomputed_payment_failure_count in
    record {
      tenant_id = row.tenant_id;
      metric_date = row.metric_date;
      status =
          status_of
            (exceeds success_delta count_tolerance || exceeds failure_delta count_tolerance);
      payment_success_count_delta = success_delta;
      payment_failure_count_delta = failure_delta;
    }

unfoldable pub activity_result : ℕ → ActivityRecord → ActivityResult
activity_result count_tolerance row =
    let new_users_delta = sub_ℕ row.serving_new_users row.recomputed_new_users in
    let active_users_delta = sub_ℕ row.serving_active_users row.recomputed_active_users in
    let churn_delta = sub_ℕ row.serving_churn_signal_count row.recomputed_churn_signal_count in
    record {
      tenant_id = row.tenant_id;
      metric_date = row.metric_date;
      status = status_of (
          exceeds new_users_delta count_tolerance
          || exceeds active_users_delta count_tolerance
          || exceeds churn_delta count_tolerance);
      new_users_delta = new_users_delta;
      active_users_delta = active_users_delta;
      churn_signal_count_delta = churn_delta;
    }

unfoldable pub revenue_result :
    {F N : Type 0} → Floats F → Rounding F N → F → RevenueRecord N → RevenueResult F
revenue_result fl rounding revenue_tolerance row =
    let serving_revenue = rounding.to_float row.serving_net_revenue in
    let recomputed_revenue = rounding.to_float row.recomputed_net_revenue in
    let revenue_delta = rounding.round_4 (fl.sub serving_revenue recomputed_revenue) in
    let order_delta = sub_ℕ row.serving_order_count row.recomputed_order_count in
    let units_delta = row.serving_units_sold -ℤ row.recomputed_units_sold in
    record {
      tenant_id = row.tenant_id;
      metric_date = row.metric_date;
      status = status_of (
          fl.lt revenue_tolerance (rounding.absolute revenue_delta)
          || exceeds order_delta 0
          || exceeds units_delta 0);
      revenue_delta = revenue_delta;
      order_count_delta = order_delta;
      units_sold_delta = units_delta;
      serving_events_processed = row.serving_events_processed;
    }
