-- ===== src/Reconciliation/Days.antt =====
-- When the checks of reconcile_metrics.py pass, in terms of what they compare of each day.
use event_driven_data_platfo.Base.{
  ℕ, Bool, true, false, ◌||◌, String, List, [], ◌∷◌, map, ◌≡◌, ◌↔◌, refl, arith, Every,
}
use event_driven_data_platfo.Base.Int.{ℤ, sub_ℕ, ◌≤ℤ◌, ◌-ℤ◌, -ℤ_parts, eq_of_parts}
use event_driven_data_platfo.Events.Values.{Floats}
use event_driven_data_platfo.Processing.Tables.{Db}
use event_driven_data_platfo.Reconciliation.{activity_check, run_customer_activity_reconciliation}
use event_driven_data_platfo.Reconciliation.Queries.{
  PaymentRecord, ActivityRecord, RevenueRecord, activity_record, dates,
}
use event_driven_data_platfo.Reconciliation.Checks.{
  Status, passed, status_of, exceeds, Rounding, ActivityResult, payment_result, activity_result,
  revenue_result,
}
use event_driven_data_platfo.Reconciliation.Runs.{
  ReconciliationRequest, Check, Ledger, finished, run_check,
}
use event_driven_data_platfo.Reconciliation.Verdicts.{run_check-passes}

-- What the check compares of a day agrees.
abbrev pub AgreesOnPayments : PaymentRecord → Type 0
AgreesOnPayments r =
    (r.serving_payment_success_count ≡ r.recomputed_payment_success_count)
    × (r.serving_payment_failure_count ≡ r.recomputed_payment_failure_count)

abbrev pub AgreesOnActivity : ActivityRecord → Type 0
AgreesOnActivity r =
    (r.serving_new_users ≡ r.recomputed_new_users)
    × (r.serving_active_users ≡ r.recomputed_active_users)
    × (r.serving_churn_signal_count ≡ r.recomputed_churn_signal_count)

abbrev pub AgreesOnRevenue : {F N : Type 0} → Floats F → Rounding F N → F → RevenueRecord N → Type 0
AgreesOnRevenue fl rounding tolerance r =
    (fl.lt tolerance (
        rounding.absolute (
          rounding.round_4 (
            fl.sub (rounding.to_float r.serving_net_revenue)
              (rounding.to_float r.recomputed_net_revenue))))
      ≡ false)
    × (r.serving_order_count ≡ r.recomputed_order_count)
    × (r.serving_units_sold ≡ r.recomputed_units_sold)

exceeds_zero : (a b : ℕ) → (exceeds (sub_ℕ a b) 0 ≡ false) ↔ (a ≡ b)
exceeds_zero a b = (λ e. ground arith, λ e. ground arith)

exceeds_zero_ℤ : (a b : ℤ) → (exceeds (a -ℤ b) 0 ≡ false) ↔ (a ≡ b)
exceeds_zero_ℤ a b =
    (λ e. ground (arith, -ℤ_parts a b, eq_of_parts a b), λ e. ground (arith, -ℤ_parts a b))

status-passed : (b : Bool) → (status_of b ≡ passed) ↔ (b ≡ false)
status-passed true = (λ e. cc, λ e. cc)
status-passed false = (λ e. refl, λ e. refl)

neither :
    {P Q : Type 0} (a b : Bool)
    → ((a ≡ false) ↔ P)
    → ((b ≡ false) ↔ Q)
    → (status_of (a || b) ≡ passed) ↔ (P × Q)
neither a b p q = (
  λ e. let no_failure = (status-passed (a || b)).0 e in (p.0 (ground arith), q.0 (ground arith)),
  λ (x, y).
      let no_a : a ≡ false = p.1 x in
      let no_b : b ≡ false = q.1 y in (status-passed (a || b)).1 (ground arith),
)

none_of :
    {P Q R : Type 0} (a b c : Bool)
    → ((a ≡ false) ↔ P)
    → ((b ≡ false) ↔ Q)
    → ((c ≡ false) ↔ R)
    → (status_of (a || b || c) ≡ passed) ↔ (P × Q × R)
none_of a b c p q r = (
  λ e.
      let no_failure = (status-passed (a || b || c)).0 e in
      (p.0 (ground arith), q.0 (ground arith), r.0 (ground arith)),
  λ (x, y, z).
      let no_a : a ≡ false = p.1 x in
      let no_b : b ≡ false = q.1 y in
      let no_c : c ≡ false = r.1 z in (status-passed (a || b || c)).1 (ground arith),
)

pub payment_result-passed :
    (r : PaymentRecord) → ((payment_result 0 r).status ≡ passed) ↔ AgreesOnPayments r
unfolding payment_result
payment_result-passed r =
    neither _ _ (exceeds_zero r.serving_payment_success_count r.recomputed_payment_success_count)
      (exceeds_zero r.serving_payment_failure_count r.recomputed_payment_failure_count)

activity_result-passed :
    (r : ActivityRecord) → ((activity_result 0 r).status ≡ passed) ↔ AgreesOnActivity r
unfolding activity_result
activity_result-passed r =
    none_of _ _ _ (exceeds_zero r.serving_new_users r.recomputed_new_users)
      (exceeds_zero r.serving_active_users r.recomputed_active_users)
      (exceeds_zero r.serving_churn_signal_count r.recomputed_churn_signal_count)

pub revenue_result-passed :
    {F N : Type 0} (fl : Floats F) (rounding : Rounding F N) (tolerance : F) (r : RevenueRecord N)
    → ((revenue_result fl rounding tolerance r).status ≡ passed)
      ↔ AgreesOnRevenue fl rounding tolerance r
unfolding revenue_result
revenue_result-passed fl rounding tolerance r =
    none_of _ _ _ (λ e. e, λ e. e) (exceeds_zero r.serving_order_count r.recomputed_order_count)
      (exceeds_zero_ℤ r.serving_units_sold r.recomputed_units_sold)

-- A verdict on the results of all days, as one on their figures.
Every-map :
    {D R : Type 0} (P : R → Type 0) (Q : D → Type 0) (result : D → R)
    → ((day : D) → P (result day) ↔ Q day)
    → (days : List D) → Every P (map result days) ↔ Every Q days
Every-map P Q result h [] = (λ e. tt, λ e. tt)
Every-map P Q result h (day ∷ days) =
    let rest = Every-map P Q result h days in
    (λ e. ((h day).0 e.0, rest.0 e.1), λ e. ((h day).1 e.0, rest.1 e.1))

-- A run passes exactly when the figures of its days have the property that the verdict decides.
pub map-passes :
    {F R : Type 0} (check : Check F R) (request : ReconciliationRequest F) (result : ℤ → R)
    (Q : ℤ → Type 0)
    → ((day : ℤ) → (check.status (result day) ≡ passed) ↔ Q day)
    → (run_id : String) (l : Ledger F) → request.start_date ≤ℤ request.end_date
    → request.dry_run ≡ false
    → l.fates ≡ []
    → (status : Status) × (results : List R) × (failures : ℕ) × ((run_check check request run_id
          (map result)
          l).0
        ≡ finished status results failures)
      × ((status ≡ passed) ↔ Every Q (dates request.start_date request.end_date))
map-passes check request result Q h run_id l valid wet answers =
    let days = dates request.start_date request.end_date in
    let (status, failures, ends, verdict) =
      run_check-passes check request run_id (map result) l valid wet answers in
    let each = Every-map (λ r. check.status r ≡ passed) Q result h days in
    (
      status,
      map result days,
      failures,
      ends,
      (λ e. each.0 (verdict.0 e), λ q. verdict.1 (each.1 q)),
    )

module _ {F N : Type 0} (fl : Floats F) (db : Db F N) (request : ReconciliationRequest F) where
  -- If every statement answers, the check of the customers' activity of a range of days ends, and
  -- passes exactly when the metrics of each day have the figures that the queries recompute:
  -- the users that signed up, those that were active, each once,
  -- and the signals of churn.
  pub run_customer_activity_reconciliation-passes :
      (run_id : String) (l : Ledger F)
      → request.start_date ≤ℤ request.end_date
      → request.dry_run ≡ false
      → l.fates ≡ []
      → (status : Status) × (results : List ActivityResult) × (failures : ℕ)
        × ((run_customer_activity_reconciliation fl db request run_id l).0
            ≡ finished status results failures)
        × ((status ≡ passed)
            ↔ Every
                (λ day. AgreesOnActivity (activity_record db request.tenant_id day))
                (dates request.start_date request.end_date))
  unfolding run_customer_activity_reconciliation
  run_customer_activity_reconciliation-passes =
      map-passes (activity_check fl) request
        (λ day. activity_result 0 (activity_record db request.tenant_id day))
        (λ day. AgreesOnActivity (activity_record db request.tenant_id day))
        (λ day. activity_result-passed (activity_record db request.tenant_id day))
