-- ===== src/Reconciliation/Queries.antt =====
-- The queries of reconcile_metrics.py, over the tables that the processing service writes. The
-- database's session is in UTC, and the key of the daily metrics joins at most one row to a day.
use event_driven_data_platfo.Base.{
  ℕ, zero, suc, ◌/◌, ◌*◌, Bool, true, false, ◌&&◌, ◌||◌, String, Option, none, some, List, [], ◌∷◌,
  ◌==◌, if◌then◌else◌, sorted_set, length,
}
use event_driven_data_platfo.Base.Int.{ℤ, pos, negsuc, pos_part, ◌+ℤ◌, ◌-ℤ◌, leb_ℤ, eqb_ℤ}
use event_driven_data_platfo.Events.Values.{Json, integer, text}
use event_driven_data_platfo.Events.Envelopes.{Datetime}
use event_driven_data_platfo.Processing.Rows.{OrderRow, PaymentRow, SessionRow, hour}
use event_driven_data_platfo.Processing.Tables.{MetricsRow, Numeric, Db}
use event_driven_data_platfo.Processing.Repository.{instant}

unfoldable pub day_of_instant : ℤ → ℤ
day_of_instant (pos n) = pos (n / (24 * hour))
day_of_instant (negsuc n) = negsuc (n / (24 * hour))

-- `event_timestamp::date`
unfoldable pub date_of : Datetime → ℤ
date_of d = day_of_instant (instant d)

unfoldable pub days_from : ℕ → ℤ → List ℤ
days_from zero day = []
days_from (suc n) day = day ∷ days_from n (day +ℤ pos 1)

-- `generate_series($2::date, $3::date, interval '1 day')::date`
unfoldable pub dates : ℤ → ℤ → List ℤ
dates first last = if leb_ℤ first last then days_from (suc (pos_part (last -ℤ first))) first else []

module _ {R : Type 0} where
  -- `count(*) filter (where …)`
  unfoldable pub count_where : (R → Bool) → List R → ℕ
  count_where test [] = 0
  count_where test (r ∷ rs) = let rest = count_where test rs in if test r then suc rest else rest

  -- `sum(…)` of the rows where the test holds, 0 where there are none
  unfoldable pub sum_where : {N : Type 0} → (N → N → N) → N → (R → Bool) → (R → N) → List R → N
  sum_where plus zero_sum test column [] = zero_sum
  sum_where plus zero_sum test column (r ∷ rs) =
      let rest = sum_where plus zero_sum test column rs in
      if test r then plus (column r) rest else rest

-- `column = 'value'`
unfoldable pub has_value : {F : Type 0} → String → Json F → Bool
has_value value (text s) = s == value
has_value value _ = false

-- The row of the day in `tenant_metrics_daily`.
unfoldable pub daily_row : {N : Type 0} → String → ℤ → List (MetricsRow N) → Option (MetricsRow N)
daily_row tenant day [] = none
daily_row tenant day (r ∷ rs) =
    let rest = daily_row tenant day rs in
    if (r.tenant_id == tenant) && eqb_ℤ r.bucket day then some r else rest

-- `coalesce(m.column, default)` after the left join
abbrev pub coalesce : {N C : Type 0} → Option (MetricsRow N) → (MetricsRow N → C) → C → C
coalesce none column default = default
coalesce (some m) column default = column m

pub record PaymentRecord : Type 0 where
  pub tenant_id : String
  pub metric_date : ℤ
  pub serving_payment_success_count : ℕ
  pub recomputed_payment_success_count : ℕ
  pub serving_payment_failure_count : ℕ
  pub recomputed_payment_failure_count : ℕ

pub record ActivityRecord : Type 0 where
  pub tenant_id : String
  pub metric_date : ℤ
  pub serving_new_users : ℕ
  pub recomputed_new_users : ℕ
  pub serving_active_users : ℕ
  pub recomputed_active_users : ℕ
  pub serving_churn_signal_count : ℕ
  pub recomputed_churn_signal_count : ℕ

pub record RevenueRecord (N : Type 0) : Type 0 where
  pub tenant_id : String
  pub metric_date : ℤ
  pub serving_net_revenue : N
  pub recomputed_net_revenue : N
  pub serving_order_count : ℕ
  pub recomputed_order_count : ℕ
  pub serving_units_sold : ℤ
  pub recomputed_units_sold : ℤ
  pub serving_events_processed : ℕ

-- `tenant_id = $1 and event_timestamp::date = d.metric_date`
abbrev pub is_of : String → ℤ → String → Datetime → Bool
is_of tenant day row_tenant at = (row_tenant == tenant) && eqb_ℤ (date_of at) day

-- A value of an `integer` column.
abbrev pub integer_value : {F : Type 0} → Json F → ℤ
integer_value (integer n) = n
integer_value _ = pos 0

module _ {F : Type 0} where
  unfoldable pub is_success : String → ℤ → String × PaymentRow F → Bool
  is_success tenant day p =
      is_of tenant day p.1.tenant_id p.1.event_timestamp
      && (has_value "authorized" p.1.status || has_value "captured" p.1.status)

  unfoldable pub is_failure : String → ℤ → String × PaymentRow F → Bool
  is_failure tenant day p =
      is_of tenant day p.1.tenant_id p.1.event_timestamp && has_value "failed" p.1.status

  unfoldable pub has_action : String → ℤ → (Json F → Bool) → SessionRow F → Bool
  has_action tenant day test u = is_of tenant day u.tenant_id u.event_timestamp && test u.action

  -- The texts of `u.user_id` where the test holds.
  unfoldable pub user_ids : (SessionRow F → Bool) → List (SessionRow F) → List String
  user_ids test [] = []
  user_ids test (u ∷ us) =
      let rest = user_ids test us in
      if test u then elim u.user_id [ text s ↦ s ∷ rest | _ ↦ rest ] else rest

  -- `count(distinct u.user_id) filter (where …)`
  unfoldable pub count_users : (SessionRow F → Bool) → List (SessionRow F) → ℕ
  count_users test us = length (sorted_set (user_ids test us))

module _ {F N : Type 0} (db : Db F N) (tenant : String) where
  unfoldable pub payment_record : ℤ → PaymentRecord
  payment_record day =
      let m = daily_row tenant day db.daily in
      record {
        tenant_id = tenant;
        metric_date = day;
        serving_payment_success_count = coalesce m (λ r. r.payment_success_count) 0;
        recomputed_payment_success_count = count_where (is_success tenant day) db.payments;
        serving_payment_failure_count = coalesce m (λ r. r.payment_failure_count) 0;
        recomputed_payment_failure_count = count_where (is_failure tenant day) db.payments;
      }

  unfoldable pub activity_record : ℤ → ActivityRecord
  activity_record day =
      let m = daily_row tenant day db.daily in
      record {
        tenant_id = tenant;
        metric_date = day;
        serving_new_users = coalesce m (λ r. r.new_users) 0;
        recomputed_new_users =
            count_users (has_action tenant day (has_value "signed_up")) db.sessions;
        serving_active_users = coalesce m (λ r. r.active_users) 0;
        recomputed_active_users = count_users (has_action tenant day λ _. true) db.sessions;
        serving_churn_signal_count = coalesce m (λ r. r.churn_signal_count) 0;
        recomputed_churn_signal_count =
            count_where
              (has_action tenant day λ a. has_value "churn_signal" a || has_value "cancel_intent" a)
              db.sessions;
      }

  unfoldable pub revenue_record : Numeric F N → N → ℤ → RevenueRecord N
  revenue_record sql no_revenue day =
      let m = daily_row tenant day db.daily in
      let of_day =
        λ (o : String × OrderRow F). is_of tenant day o.1.tenant_id o.1.event_timestamp in
      record {
        tenant_id = tenant;
        metric_date = day;
        serving_net_revenue = coalesce m (λ r. r.net_revenue) no_revenue;
        recomputed_net_revenue =
            sum_where sql.plus no_revenue of_day (λ o. sql.of_float o.1.net_revenue) db.orders;
        serving_order_count = coalesce m (λ r. r.order_count) 0;
        recomputed_order_count = count_where of_day db.orders;
        serving_units_sold = coalesce m (λ r. r.units_sold) (pos 0);
        recomputed_units_sold =
            sum_where (λ a b. a +ℤ b) (pos 0) of_day (λ o. integer_value o.1.quantity) db.orders;
        serving_events_processed = coalesce m (λ r. r.events_processed) 0;
      }
