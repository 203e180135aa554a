-- ===== src/Processing/Keeps.antt =====
-- The steps of the handler that leave the inbox, the raw events and the metrics of every tenant as
-- they are, and what the metric deltas count.
use event_driven_data_platfo.Base.{
  ◌≡◌, lookup, refl, Bool, true, false, String, Option, some, >>=-eq-some, some_inj, ap, sym,
}
use event_driven_data_platfo.Base.Int.{ℤ}
use event_driven_data_platfo.Events.Types.{
  EventType, order_created, order_updated, payment_authorized, payment_captured, payment_failed,
  user_signed_up, user_activity, user_churn_signal, product_upserted, product_inventory_changed,
  system_health, system_alert,
}
use event_driven_data_platfo.Events.Values.{Json, Floats, int_of}
use event_driven_data_platfo.Events.Envelopes.{EventEnvelope}
use event_driven_data_platfo.Processing.Rows.{
  OrderRow, PaymentRow, SessionRow, ProductRow, HealthRow, MetricDelta, metric_delta_for_kind,
  order_delta, net_order_revenue, gross_order_revenue, processed_order_row, processed_payment_row,
  processed_user_session_row, product_state_row, service_health_row, should_raise_risk_alert,
}
use event_driven_data_platfo.Processing.Tables.{Numeric, Db}
use event_driven_data_platfo.Processing.Actions.{
  World, Action, ◌>>=◌, statement, evaluate, execute_scoped,
}
use event_driven_data_platfo.Processing.Repository.{
  mark_event_duplicate, mark_event_processed, write_processed_order, write_processed_payment,
  set_processed, set_duplicate, update_inbox, write_user_session_event, write_product_state,
  write_service_health, write_risk_alert, update_watermark, bound_text, bound_integer,
}
use event_driven_data_platfo.Processing.Handler.{
  write_state, handle_order, handle_payment, handle_user, handle_product, handle_system, alert_if,
}
use event_driven_data_platfo.Processing.Ensures.{
  Ensures, Ensures-execute_scoped, Ensures-bind, Ensures-evaluate,
}

-- `after` has the inbox, the raw events and the metrics of `before`.
pub record IsFramed {F N : Type 0} (before after : Db F N) : Type 0 where
  pub same_inbox : after.inbox ≡ before.inbox
  pub same_raw : after.raw_events ≡ before.raw_events
  pub same_hourly : after.hourly ≡ before.hourly
  pub same_daily : after.daily ≡ before.daily

module _ (F N : Type 0) (Inv : Db F N → Type 0)
    (frame : (before after : Db F N) → IsFramed before after → Inv before → Inv after) where
  -- A step that leaves a property of the database as it is, whatever becomes of its statements.
  unfoldable pub Keeps : {A : Type 0} → Action F N A → Type 0
  Keeps {A} a = (w : World F N) → Inv w.db → Ensures (λ (o : Option A) db. Inv db) a w

  pub Keeps-bind :
      {A B : Type 0} (a : Action F N A) (f : A → Action F N B)
      → Keeps a
      → ((x : A) → Keeps (f x))
      → Keeps (a >>= f)
  unfolding Keeps
  Keeps-bind a f first next w i =
      Ensures-bind (λ o db. Inv db) (λ o db. Inv db) a f w (first w i) (λ x v j. next x v j)
        (λ db j. j)

  pub Keeps-evaluate : {A : Type 0} (o : Option A) → Keeps (evaluate o)
  unfolding Keeps
  Keeps-evaluate o w i = Ensures-evaluate (λ p db. Inv db) o w (λ x e. i) i

  pub Keeps-execute_scoped :
      {A : Type 0} (f : Db F N → A × Db F N)
      → ((db : Db F N) → Inv db → Inv (f db).1)
      → Keeps (execute_scoped f)
  unfolding Keeps
  Keeps-execute_scoped f closed w i =
      Ensures-execute_scoped (λ o db. Inv db) f w (closed w.db i) i (closed w.db i)

  -- A statement that writes to other tables.
  Keeps-statement :
      (f : Db F N → Db F N) → ((db : Db F N) → IsFramed db (f db)) → Keeps (statement f)
  Keeps-statement f framed =
      Keeps-execute_scoped (λ db. (tt, f db)) λ db i. frame db (f db) (framed db) i

  write_processed_order-Keeps : (row : OrderRow F) → Keeps (write_processed_order row)
  unfolding write_processed_order
  write_processed_order-Keeps row =
      Keeps-bind (evaluate (bound_text row.order_id)) _ (Keeps-evaluate _) λ key.
        Keeps-statement _ (λ db. record {
          same_inbox = refl;
          same_raw = refl;
          same_hourly = refl;
          same_daily = refl;
        })

  write_processed_payment-Keeps : (row : PaymentRow F) → Keeps (write_processed_payment row)
  unfolding write_processed_payment
  write_processed_payment-Keeps row =
      Keeps-bind (evaluate (bound_text row.payment_id)) _ (Keeps-evaluate _) λ key.
        Keeps-statement _ (λ db. record {
          same_inbox = refl;
          same_raw = refl;
          same_hourly = refl;
          same_daily = refl;
        })

  write_user_session_event-Keeps : (row : SessionRow F) → Keeps (write_user_session_event row)
  unfolding write_user_session_event
  write_user_session_event-Keeps row =
      Keeps-statement _
        (λ db. record { same_inbox = refl; same_raw = refl; same_hourly = refl; same_daily = refl })

  write_product_state-Keeps : (row : ProductRow F) → Keeps (write_product_state row)
  unfolding write_product_state
  write_product_state-Keeps row =
      Keeps-bind (evaluate (bound_text row.product_id)) _ (Keeps-evaluate _) λ key.
        Keeps-bind (evaluate (bound_integer row.inventory_delta)) _ (Keeps-evaluate _) λ change.
          Keeps-statement _ (λ db. record {
            same_inbox = refl;
            same_raw = refl;
            same_hourly = refl;
            same_daily = refl;
          })

  write_service_health-Keeps : (row : HealthRow F) → Keeps (write_service_health row)
  unfolding write_service_health
  write_service_health-Keeps row =
      Keeps-statement _
        (λ db. record { same_inbox = refl; same_raw = refl; same_hourly = refl; same_daily = refl })

  pub mark_event_processed-Keeps :
      (v : EventEnvelope F)
      → ((db : Db F N) → Inv db → Inv (update_inbox v set_processed db))
      → Keeps (mark_event_processed v)
  unfolding mark_event_processed
  mark_event_processed-Keeps v closed =
      Keeps-execute_scoped (λ db. (tt, update_inbox v set_processed db)) closed

  pub mark_event_duplicate-Keeps :
      (v : EventEnvelope F) (reason : String)
      → ((db : Db F N) → Inv db → Inv (update_inbox v (set_duplicate reason) db))
      → Keeps (mark_event_duplicate v reason)
  unfolding mark_event_duplicate
  mark_event_duplicate-Keeps v reason closed =
      Keeps-execute_scoped (λ db. (tt, update_inbox v (set_duplicate reason) db)) closed

  pub update_watermark-Keeps :
      (v : EventEnvelope F) (topic : String) (offset : ℤ) (status : String)
      → Keeps (update_watermark v topic offset status)
  unfolding update_watermark
  update_watermark-Keeps v topic offset status =
      Keeps-statement _
        (λ db. record { same_inbox = refl; same_raw = refl; same_hourly = refl; same_daily = refl })

  module _ (fl : Floats F) (sql : Numeric F N) (str : Json F → String) where
    alert_if-Keeps : (v : EventEnvelope F) (b : Bool) → Keeps (alert_if fl sql str v b)
    unfolding alert_if write_risk_alert Keeps
    alert_if-Keeps v true =
        Keeps-statement _ (λ db. record {
          same_inbox = refl;
          same_raw = refl;
          same_hourly = refl;
          same_daily = refl;
        })
    alert_if-Keeps v false = λ w i. i

    handle_order-Keeps : (v : EventEnvelope F) → Keeps (handle_order fl sql str v)
    unfolding handle_order
    handle_order-Keeps v =
        Keeps-bind (evaluate (processed_order_row fl v)) _ (Keeps-evaluate _)
          write_processed_order-Keeps

    handle_payment-Keeps : (v : EventEnvelope F) → Keeps (handle_payment fl sql str v)
    unfolding handle_payment
    handle_payment-Keeps v =
        Keeps-bind (evaluate (processed_payment_row fl v)) _ (Keeps-evaluate _) λ row.
          Keeps-bind (write_processed_payment row) _ (write_processed_payment-Keeps row) λ done.
            Keeps-bind (evaluate (should_raise_risk_alert fl v)) _ (Keeps-evaluate _)
              (alert_if-Keeps v)

    handle_user-Keeps : (v : EventEnvelope F) → Keeps (handle_user fl sql str v)
    unfolding handle_user
    handle_user-Keeps v =
        Keeps-bind (evaluate (processed_user_session_row fl str v)) _ (Keeps-evaluate _)
          write_user_session_event-Keeps

    handle_product-Keeps : (v : EventEnvelope F) → Keeps (handle_product fl sql str v)
    unfolding handle_product
    handle_product-Keeps v =
        Keeps-bind (evaluate (product_state_row fl v)) _ (Keeps-evaluate _)
          write_product_state-Keeps

    handle_system-Keeps : (v : EventEnvelope F) → Keeps (handle_system fl sql str v)
    unfolding handle_system
    handle_system-Keeps v =
        Keeps-bind (evaluate (service_health_row fl v)) _ (Keeps-evaluate _)
          write_service_health-Keeps

    pub write_state-Keeps :
        (e : EventType) (v : EventEnvelope F) → Keeps (write_state fl sql str e v)
    unfolding write_state
    write_state-Keeps order_created v = handle_order-Keeps v
    write_state-Keeps order_updated v = handle_order-Keeps v
    write_state-Keeps payment_authorized v = handle_payment-Keeps v
    write_state-Keeps payment_captured v = handle_payment-Keeps v
    write_state-Keeps payment_failed v = handle_payment-Keeps v
    write_state-Keeps user_signed_up v = handle_user-Keeps v
    write_state-Keeps user_activity v = handle_user-Keeps v
    write_state-Keeps user_churn_signal v = handle_user-Keeps v
    write_state-Keeps product_upserted v = handle_product-Keeps v
    write_state-Keeps product_inventory_changed v = handle_product-Keeps v
    write_state-Keeps system_health v = handle_system-Keeps v
    write_state-Keeps system_alert v = handle_system-Keeps v

module _ {F : Type 0} (fl : Floats F) where
  order_delta_counts :
      (v : EventEnvelope F) (delta : MetricDelta F)
      → order_delta fl v ≡ some delta
      → (delta.tenant_id ≡ v.tenant_id) × (delta.events_processed ≡ 1)
  unfolding order_delta
  order_delta_counts v delta h =
      let (net, pn, h₁) = >>=-eq-some (net_order_revenue fl v.payload) _ h in
      let (gross, pg, h₂) = >>=-eq-some (gross_order_revenue fl v.payload) _ h₁ in
      let (q, pq, h₃) = >>=-eq-some (lookup "quantity" v.payload) _ h₂ in
      let (units, pu, h₄) = >>=-eq-some (int_of fl q) _ h₃ in
      (
        sym (ap MetricDelta.tenant_id (some_inj h₄)),
        sym (ap MetricDelta.events_processed (some_inj h₄)),
      )

  -- Every delta is of the event's tenant and counts one event.
  pub delta_counts :
      (e : EventType) (v : EventEnvelope F) (delta : MetricDelta F)
      → metric_delta_for_kind fl e v ≡ some delta
      → (delta.tenant_id ≡ v.tenant_id) × (delta.events_processed ≡ 1)
  unfolding metric_delta_for_kind
  delta_counts order_created v delta h = order_delta_counts v delta h
  delta_counts order_updated v delta h = order_delta_counts v delta h
  delta_counts payment_authorized v delta h = (
    sym (ap MetricDelta.tenant_id (some_inj h)),
    sym (ap MetricDelta.events_processed (some_inj h)),
  )
  delta_counts payment_captured v delta h = (
    sym (ap MetricDelta.tenant_id (some_inj h)),
    sym (ap MetricDelta.events_processed (some_inj h)),
  )
  delta_counts payment_failed v delta h = (
    sym (ap MetricDelta.tenant_id (some_inj h)),
    sym (ap MetricDelta.events_processed (some_inj h)),
  )
  delta_counts user_signed_up v delta h = (
    sym (ap MetricDelta.tenant_id (some_inj h)),
    sym (ap MetricDelta.events_processed (some_inj h)),
  )
  delta_counts _ v delta h = (
    sym (ap MetricDelta.tenant_id (some_inj h)),
    sym (ap MetricDelta.events_processed (some_inj h)),
  )
