-- ===== src/Reconciliation/Passes.antt =====
-- When the checks of payments and of orders of reconcile_metrics.py pass, in terms of the rows of the
-- days.
use event_driven_data_platfo.Base.{
  ℕ, ◌≡◌, ◌⊎◌, ◌↔◌, sym, ◌∙◌, subst, false, Bool, String, List, [], Every,
}
use event_driven_data_platfo.Base.Int.{ℤ, pos, ◌≤ℤ◌, ◌+ℤ◌}
use event_driven_data_platfo.Events.Values.{text, Floats}
use event_driven_data_platfo.Processing.Rows.{PaymentRow, OrderRow}
use event_driven_data_platfo.Processing.Tables.{Numeric, Db, MetricsRow}
use event_driven_data_platfo.Reconciliation.{
  payment_check, revenue_check, run_payment_reconciliation, run_reconciliation,
}
use event_driven_data_platfo.Reconciliation.Queries.{
  payment_record, revenue_record, is_success, is_failure, is_of, count_where, daily_row, coalesce,
  integer_value, dates,
}
use event_driven_data_platfo.Reconciliation.Checks.{
  Status, passed, Rounding, PaymentResult, RevenueResult, payment_result, revenue_result,
}
use event_driven_data_platfo.Reconciliation.Runs.{ReconciliationRequest, Ledger, finished}
use event_driven_data_platfo.Reconciliation.Figures.{
  AreDays, IsRowOf, Counts, Sums, Serves, IsTestOf, and-IsTestOf, or-IsTestOf, is_of_iff,
  has_value_iff, dates-AreDays, count_where-Counts, Counts-count_where, sum_where-Sums,
  Sums-sum_where, daily_row-Serves, Serves-daily_row,
}
use event_driven_data_platfo.Reconciliation.Days.{
  payment_result-passed, revenue_result-passed, map-passes,
}

-- The figures with one property and those with another are one each, and are the same.
figure_iff :
    {C : Type 0} (S R : C → Type 0) (a b : C)
    → S a
    → ((x : C) → S x → x ≡ a)
    → R b
    → ((x : C) → R x → x ≡ b)
    → (a ≡ b) ↔ ((x : C) × S x × R x)
figure_iff S R a b sa s rb r =
    (λ e. (a, sa, subst R (sym e) rb), λ (x, sx, rx). sym (s x sx) ∙ r x rx)

both_iff : {A B C D : Type 0} → (A ↔ C) → (B ↔ D) → (A × B) ↔ (C × D)
both_iff f g = (λ (a, b). (f.0 a, g.0 b), λ (c, d). (f.1 c, g.1 d))

all_iff : {A B C D E G : Type 0} → (A ↔ D) → (B ↔ E) → (C ↔ G) → (A × B × C) ↔ (D × E × G)
all_iff f g h = (λ (a, b, c). (f.0 a, g.0 b, h.0 c), λ (d, e, k). (f.1 d, g.1 e, h.1 k))

-- Two figures, and what is asked of them.
within_iff :
    {C : Type 0} (T : C → C → Type 0) (S R : C → Type 0) (a b : C)
    → S a
    → ((x : C) → S x → x ≡ a)
    → R b
    → ((x : C) → R x → x ≡ b)
    → T a b ↔ ((x : C) × S x × (y : C) × R y × T x y)
within_iff T S R a b sa s rb r = (
  λ t. (a, sa, b, rb, t),
  λ (x, sx, y, ry, t). subst (T a) (r y ry) (subst (λ z. T z y) (s x sx) t),
)

then_iff : {A B C : Type 0} → (A ↔ B) → (B ↔ C) → A ↔ C
then_iff f g = (λ a. g.0 (f.0 a), λ c. f.1 (g.1 c))

module _ {F : Type 0} (tenant : String) (day : ℤ) where
  -- A payment of the tenant and the day that is authorized or captured, and one that has failed.
  abbrev pub IsSuccess : String × PaymentRow F → Type 0
  IsSuccess p =
      IsRowOf tenant day p.1.tenant_id p.1.event_timestamp
      × ((p.1.status ≡ text "authorized") ⊎ (p.1.status ≡ text "captured"))

  abbrev pub IsFailure : String × PaymentRow F → Type 0
  IsFailure p = IsRowOf tenant day p.1.tenant_id p.1.event_timestamp × (p.1.status ≡ text "failed")

  abbrev pub IsOrderOf : String × OrderRow F → Type 0
  IsOrderOf o = IsRowOf tenant day o.1.tenant_id o.1.event_timestamp

  is_success_iff : (p : String × PaymentRow F) → IsTestOf (is_success tenant day p) (IsSuccess p)
  unfolding is_success
  is_success_iff p = and-IsTestOf _ _ (is_of_iff tenant day p.1.tenant_id p.1.event_timestamp) (
      or-IsTestOf _ _ (has_value_iff "authorized" p.1.status) (has_value_iff "captured" p.1.status))

  is_failure_iff : (p : String × PaymentRow F) → IsTestOf (is_failure tenant day p) (IsFailure p)
  unfolding is_failure
  is_failure_iff p =
      and-IsTestOf _ _ (is_of_iff tenant day p.1.tenant_id p.1.event_timestamp)
        (has_value_iff "failed" p.1.status)

module _ {F N : Type 0} (db : Db F N) (tenant : String) where
  -- The metrics of the day have the number of its payments that succeeded and that of those that
  -- failed; where there is no row of metrics, both are 0.
  abbrev pub HasPayments : ℤ → Type 0
  HasPayments day =
      ((n : ℕ) × Serves tenant day (λ m. m.payment_success_count) 0 db.daily n
        × Counts (IsSuccess tenant day) db.payments n)
      × ((n : ℕ) × Serves tenant day (λ m. m.payment_failure_count) 0 db.daily n
          × Counts (IsFailure tenant day) db.payments n)

  count_iff :
      {R : Type 0} (day : ℤ) (column : MetricsRow N → ℕ) (test : R → Bool) (P : R → Type 0)
      (rows : List R)
      → ((r : R) → IsTestOf (test r) (P r))
      → (coalesce (daily_row tenant day db.daily) column 0 ≡ count_where test rows)
        ↔ ((n : ℕ) × Serves tenant day column 0 db.daily n × Counts P rows n)
  count_iff day column test P rows decides =
      figure_iff (Serves tenant day column 0 db.daily) (Counts P rows) _ _
        (daily_row-Serves tenant day column 0 db.daily)
        (Serves-daily_row tenant day column 0 db.daily) (count_where-Counts test P decides rows)
        (Counts-count_where test P decides rows)

  payments_iff :
      (day : ℤ)
      → ((payment_result 0 (payment_record db tenant day)).status ≡ passed) ↔ HasPayments day
  unfolding payment_record
  payments_iff day = then_iff (payment_result-passed (payment_record db tenant day)) (
      both_iff
        (count_iff day (λ m. m.payment_success_count) (is_success tenant day) (IsSuccess tenant day)
          db.payments (is_success_iff tenant day))
        (count_iff day (λ m. m.payment_failure_count) (is_failure tenant day) (IsFailure tenant day)
          db.payments (is_failure_iff tenant day)))

  module _ (sql : Numeric F N) (no_revenue : N) where
    -- The revenue of the orders of the day, and what the metrics say, are within the tolerance of one
    -- another, and the metrics have the number of the orders and of their units.
    abbrev pub HasRevenue : Floats F → Rounding F N → F → ℤ → Type 0
    HasRevenue fl rounding tolerance day =
        ((served : N) × Serves tenant day (λ m. m.net_revenue) no_revenue db.daily served
          × (recomputed : N) × Sums (IsOrderOf tenant day) sql.plus no_revenue
              (λ o. sql.of_float o.1.net_revenue) db.orders recomputed
          × (fl.lt tolerance (
                rounding.absolute (
                  rounding.round_4
                    (fl.sub (rounding.to_float served) (rounding.to_float recomputed))))
              ≡ false))
        × ((n : ℕ) × Serves tenant day (λ m. m.order_count) 0 db.daily n
            × Counts (IsOrderOf tenant day) db.orders n)
        × ((n : ℤ) × Serves tenant day (λ m. m.units_sold) (pos 0) db.daily n
            × Sums (IsOrderOf tenant day) (λ a b. a +ℤ b) (pos 0) (λ o. integer_value o.1.quantity)
                db.orders n)

    is_order : ℤ → String × OrderRow F → Bool
    is_order day o = is_of tenant day o.1.tenant_id o.1.event_timestamp

    is_order_iff :
        (day : ℤ) (o : String × OrderRow F) → IsTestOf (is_order day o) (IsOrderOf tenant day o)
    unfolding is_order
    is_order_iff day o = is_of_iff tenant day o.1.tenant_id o.1.event_timestamp

    revenue_iff :
        (fl : Floats F) (rounding : Rounding F N) (tolerance : F) (day : ℤ)
        → ((revenue_result fl rounding tolerance
              (revenue_record db tenant sql no_revenue day)).status
            ≡ passed)
          ↔ HasRevenue fl rounding tolerance day
    unfolding revenue_record is_order
    revenue_iff fl rounding tolerance day =
        then_iff
          (revenue_result-passed fl rounding tolerance
            (revenue_record db tenant sql no_revenue day))
          (all_iff
            (within_iff
              (λ served recomputed.
                fl.lt tolerance (
                  rounding.absolute (
                    rounding.round_4
                      (fl.sub (rounding.to_float served) (rounding.to_float recomputed))))
                ≡ false)
              (Serves tenant day (λ m. m.net_revenue) no_revenue db.daily)
              (Sums (IsOrderOf tenant day) sql.plus no_revenue (λ o. sql.of_float o.1.net_revenue)
                db.orders)
              _ _ (daily_row-Serves tenant day (λ m. m.net_revenue) no_revenue db.daily)
              (Serves-daily_row tenant day (λ m. m.net_revenue) no_revenue db.daily)
              (sum_where-Sums (is_order day) (IsOrderOf tenant day) (is_order_iff day) sql.plus
                no_revenue (λ o. sql.of_float o.1.net_revenue) db.orders)
              (Sums-sum_where (is_order day) (IsOrderOf tenant day) (is_order_iff day) sql.plus
                no_revenue (λ o. sql.of_float o.1.net_revenue) db.orders))
            (count_iff day (λ m. m.order_count) (is_order day) (IsOrderOf tenant day) db.orders
              (is_order_iff day))
            (figure_iff (Serves tenant day (λ m. m.units_sold) (pos 0) db.daily)
              (Sums (IsOrderOf tenant day) (λ a b. a +ℤ b) (pos 0) (λ o. integer_value o.1.quantity)
                db.orders)
              _ _ (daily_row-Serves tenant day (λ m. m.units_sold) (pos 0) db.daily)
              (Serves-daily_row tenant day (λ m. m.units_sold) (pos 0) db.daily)
              (sum_where-Sums (is_order day) (IsOrderOf tenant day) (is_order_iff day)
                (λ a b. a +ℤ b) (pos 0) (λ o. integer_value o.1.quantity) db.orders)
              (Sums-sum_where (is_order day) (IsOrderOf tenant day) (is_order_iff day)
                (λ a b. a +ℤ b) (pos 0) (λ o. integer_value o.1.quantity) db.orders)))

module _ {F N : Type 0} (fl : Floats F) (db : Db F N) (request : ReconciliationRequest F) where
  -- For a range whose first day is not after its last, in a run that is not dry and whose statements
  -- are all answered: the check of the payments ends, and it passes exactly when, for each day from the
  -- first to the last, the daily metrics have the number of the payments of the tenant with a time in
  -- that day that are authorized or captured, and of those that have failed. Where a day has no row of
  -- metrics, they count as 0.
  pub run_payment_reconciliation-passes :
      (run_id : String) (l : Ledger F)
      → request.start_date ≤ℤ request.end_date
      → request.dry_run ≡ false
      → l.fates ≡ []
      → (days : List ℤ) × AreDays request.start_date request.end_date days
        × (status : Status) × (results : List PaymentResult) × (failures : ℕ)
        × ((run_payment_reconciliation fl db request run_id l).0 ≡ finished status results failures)
        × ((status ≡ passed) ↔ Every (HasPayments db request.tenant_id) days)
  unfolding run_payment_reconciliation
  run_payment_reconciliation-passes run_id l valid wet answers =
      let (status, results, failures, ends, verdict) =
        map-passes (payment_check fl) request
          (λ day. payment_result 0 (payment_record db request.tenant_id day))
          (HasPayments db request.tenant_id) (payments_iff db request.tenant_id) run_id l valid wet
          answers in
      (
        dates request.start_date request.end_date,
        dates-AreDays request.start_date request.end_date valid,
        status,
        results,
        failures,
        ends,
        verdict,
      )

  -- For a range whose first day is not after its last, in a run that is not dry and whose statements
  -- are all answered: the check of the orders ends, and it passes exactly when, for each day from the
  -- first to the last, the daily metrics have the number and the units of the orders of the tenant with
  -- a time in that day, and a net revenue that differs from the sum of theirs by no more than the
  -- tolerance, the difference being rounded to four places.
  pub run_reconciliation-passes :
      (sql : Numeric F N) (no_revenue : N) (rounding : Rounding F N) (run_id : String)
      (l : Ledger F)
      → request.start_date ≤ℤ request.end_date
      → request.dry_run ≡ false
      → l.fates ≡ []
      → (days : List ℤ) × AreDays request.start_date request.end_date days
        × (status : Status) × (results : List (RevenueResult F)) × (failures : ℕ)
        × ((run_reconciliation fl db request sql no_revenue rounding run_id l).0
            ≡ finished status results failures)
        × ((status ≡ passed)
            ↔ Every
                (HasRevenue db request.tenant_id sql no_revenue fl rounding
                  request.revenue_tolerance)
                days)
  unfolding run_reconciliation
  run_reconciliation-passes sql no_revenue rounding run_id l valid wet answers =
      let (status, results, failures, ends, verdict) =
        map-passes revenue_check request
          (λ day.
            revenue_result fl rounding request.revenue_tolerance
              (revenue_record db request.tenant_id sql no_revenue day))
          (HasRevenue db request.tenant_id sql no_revenue fl rounding request.revenue_tolerance)
          (revenue_iff db request.tenant_id sql no_revenue fl rounding request.revenue_tolerance)
          run_id l valid wet answers in
      (
        dates request.start_date request.end_date,
        dates-AreDays request.start_date request.end_date valid,
        status,
        results,
        failures,
        ends,
        verdict,
      )
