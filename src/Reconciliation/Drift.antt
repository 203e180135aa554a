-- ===== src/Reconciliation/Drift.antt =====
-- What the check of the payments finds after a payment has been authorized and captured.
use event_driven_data_platfo.Base.{
  ◌+◌, Bool, true, false, ◌&&◌, String, some, List, [], ◌∷◌, lookup, ◌==◌, eq_refl, ◌≡◌, refl,
  arith, Every, sym, Bool-cases, inl, inr,
}
use event_driven_data_platfo.Base.Int.{ℤ, eqb_ℤ}
use event_driven_data_platfo.Events.Types.{payment_captured}
use event_driven_data_platfo.Events.Values.{Json, text, null, Floats}
use event_driven_data_platfo.Events.Envelopes.{EventEnvelope}
use event_driven_data_platfo.Processing.Rows.{
  PaymentRow, MetricDelta, processed_payment_row, get_item, event_hour, empty_delta,
  metric_delta_for_event, should_raise_risk_alert,
}
use event_driven_data_platfo.Processing.Tables.{
  MetricsRow, Numeric, Db, any, insert_new, upsert, add_metrics,
}
use event_driven_data_platfo.Processing.Repository.{
  write_raw_event, insert_inbox, insert_raw_event, write_processed_payment, write_metric_delta,
  mark_event_processed, accumulate, metrics_row, metric_day,
}
use event_driven_data_platfo.Processing.Handler.{
  handle, handle_if, handle_new, write_state, handle_payment, alert_if,
}
use event_driven_data_platfo.Reconciliation.Queries.{
  date_of, count_where, is_success, daily_row, coalesce, payment_record, has_value,
}

eqb_ℤ-refl : (a : ℤ) → eqb_ℤ a a ≡ true
eqb_ℤ-refl a = ground arith

Every-weaken :
    {A : Type 0} (P Q : A → Type 0)
    → ((a : A) → P a → Q a)
    → (xs : List A) → Every P xs
    → Every Q xs
Every-weaken P Q h [] e = tt
Every-weaken P Q h (x ∷ xs) e = (h x e.0, Every-weaken P Q h xs e.1)

count_where-upsert :
    {R : Type 0} (same test : R → Bool) (change : R → R) (new : R) (rows : List R)
    → any same rows ≡ true
    → Every (λ r. same r ≡ true → test (change r) ≡ test r) rows
    → count_where test (upsert same change new rows) ≡ count_where test rows
unfolding any upsert count_where
count_where-upsert same test change new [] there keeps = cc
count_where-upsert same test change new (r ∷ rows) there keeps = elim (Bool-cases (same r)) [
  | inl here ↦ rw (here, keeps.0 here) refl
  | inr later ↦
      let rest = count_where-upsert same test change new rows (rw later at there) keeps.1 in
      rw (later, rest) refl
]

-- The payments of the day that succeeded, as its row of metrics has them.
success_count-accumulate :
    {F N : Type 0} (sql : Numeric F N) (new : MetricsRow N) (rows : List (MetricsRow N))
    → coalesce
        (daily_row new.tenant_id new.bucket (accumulate sql new rows))
        (λ r. r.payment_success_count)
        0
      ≡ coalesce (daily_row new.tenant_id new.bucket rows) (λ r. r.payment_success_count) 0
        + new.payment_success_count
unfolding daily_row accumulate upsert add_metrics
success_count-accumulate sql new [] =
    rw (eq_refl new.tenant_id, eqb_ℤ-refl new.bucket) (omega arith)
success_count-accumulate sql new (r ∷ rows) =
    elim (Bool-cases ((r.tenant_id == new.tenant_id) && eqb_ℤ r.bucket new.bucket)) [
      | inl here ↦ rw (here, here) refl
      | inr later ↦ rw (later, later) (success_count-accumulate sql new rows)
    ]

module _ {F N : Type 0} (fl : Floats F) (sql : Numeric F N) (str : Json F → String) where
  abbrev same_payment : EventEnvelope F → String → String × PaymentRow F → Bool
  same_payment v key p = (p.1.tenant_id == v.tenant_id) && (p.0 == key)

  -- The payload is that of the payment `key`, captured.
  pub record IsCaptured (v : EventEnvelope F) (key : String) : Type 0 where
    pub is_kind : v.kind ≡ payment_captured
    pub order : Json F
    pub customer : Json F
    pub amount : Json F
    pub has_payment : lookup "payment_id" v.payload ≡ some (text key)
    pub has_order : lookup "order_id" v.payload ≡ some order
    pub has_customer : lookup "customer_id" v.payload ≡ some customer
    pub has_amount : lookup "amount" v.payload ≡ some amount
    pub has_status : lookup "status" v.payload ≡ some (text "captured")

  abbrev captured_row : (v : EventEnvelope F) (key : String) → IsCaptured v key → PaymentRow F
  captured_row v key c = record {
    tenant_id = v.tenant_id;
    event_id = v.event_id;
    payment_id = text key;
    order_id = c.order;
    customer_id = c.customer;
    amount = c.amount;
    currency = get_item v.payload "currency" (text "USD");
    status = text "captured";
    payment_method = get_item v.payload "payment_method" (text "unknown");
    failure_code = get_item v.payload "failure_code" null;
    risk_score = get_item v.payload "risk_score" null;
    event_timestamp = v.event_timestamp;
  }

  -- What the row of a stored payment becomes.
  abbrev set_captured : EventEnvelope F → String × PaymentRow F → String × PaymentRow F
  set_captured v p = (
    p.0,
    record p.1 {
      status = text "captured";
      failure_code = get_item v.payload "failure_code" null;
      risk_score = get_item v.payload "risk_score" null;
      event_timestamp = v.event_timestamp;
    },
  )

  abbrev captured_delta : EventEnvelope F → MetricDelta F
  captured_delta v = record (empty_delta fl v) { payment_success_count = 1 }

  handle-captured :
      (v : EventEnvelope F) (key : String) (c : IsCaptured v key) (db : Db F N)
      → any (λ r. r.event_id == v.event_id) db.inbox ≡ false
      → any (λ r. r.event_id == v.event_id) db.raw_events ≡ false
      → ((handle fl sql str v (record { db = db; fates = [] })).1.db.payments
          ≡ upsert (same_payment v key) (set_captured v) (key, captured_row v key c) db.payments)
        × ((handle fl sql str v (record { db = db; fates = [] })).1.db.daily
            ≡ accumulate sql
                (metrics_row sql (captured_delta v) (metric_day (event_hour v.event_timestamp)))
                db.daily)
  unfolding handle write_raw_event insert_inbox insert_new insert_raw_event handle_if handle_new
      write_state handle_payment processed_payment_row upsert write_processed_payment
      should_raise_risk_alert alert_if metric_delta_for_event write_metric_delta
      mark_event_processed
  handle-captured v key c db new_inbox new_raw =
      rw
        (
          new_inbox, new_raw, c.is_kind, c.has_payment, c.has_order, c.has_customer, c.has_amount,
          c.has_status,
        )
        (refl, refl)

  captured-is_success :
      (v : EventEnvelope F) (key : String) (p : String × PaymentRow F)
      → same_payment v key p ≡ true
      → is_success v.tenant_id (date_of v.event_timestamp) p ≡ true
      → is_success v.tenant_id (date_of v.event_timestamp) (set_captured v p)
        ≡ is_success v.tenant_id (date_of v.event_timestamp) p
  unfolding is_success has_value
  captured-is_success v key p same counts = ground (arith, eqb_ℤ-refl (date_of v.event_timestamp))

  -- An event that captures a payment whose row counts already on its day adds one to that day's
  -- metrics and nothing to the payments that succeeded, so that the check finds one more than before.
  pub handle-captured_drifts :
      (v : EventEnvelope F) (key : String) (c : IsCaptured v key) (db : Db F N)
      → any (λ r. r.event_id == v.event_id) db.inbox ≡ false
      → any (λ r. r.event_id == v.event_id) db.raw_events ≡ false
      → metric_day (event_hour v.event_timestamp) ≡ date_of v.event_timestamp
      → any (same_payment v key) db.payments ≡ true
      → Every
          (λ p.
            same_payment v key p ≡ true
            → is_success v.tenant_id (date_of v.event_timestamp) p ≡ true)
          db.payments
      → ((payment_record
            (handle fl sql str v (record { db = db; fates = [] })).1.db
            v.tenant_id
            (date_of v.event_timestamp)).serving_payment_success_count
          ≡ (payment_record db v.tenant_id
              (date_of v.event_timestamp)).serving_payment_success_count
            + 1)
        × ((payment_record
              (handle fl sql str v (record { db = db; fates = [] })).1.db
              v.tenant_id
              (date_of v.event_timestamp)).recomputed_payment_success_count
            ≡ (payment_record db v.tenant_id
                (date_of v.event_timestamp)).recomputed_payment_success_count)
  unfolding payment_record metrics_row
  handle-captured_drifts v key c db new_inbox new_raw same_day stored counted =
      let day = date_of v.event_timestamp in
      let (payments, daily) = handle-captured v key c db new_inbox new_raw in
      (
        rw (daily, sym same_day)
            (success_count-accumulate sql
              (metrics_row sql (captured_delta v) (metric_day (event_hour v.event_timestamp)))
              db.daily),
        rw (payments) (
            count_where-upsert (same_payment v key) (is_success v.tenant_id day) (set_captured v)
              (key, captured_row v key c) db.payments stored
              (Every-weaken _ _ (λ p h same. captured-is_success v key p same (h same)) db.payments
                counted)),
      )
