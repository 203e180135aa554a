-- ===== src/Processing/Handler.antt =====
-- EventProcessor.handle of services/processing-service/app/worker.py.
use event_driven_data_platfo.Base.{Bool, true, false, String}
use event_driven_data_platfo.Events.Types.{
  EventType, order_created, order_updated, payment_authorized, payment_captured, payment_failed,
  user_signed_up, user_activity, user_churn_signal, product_upserted, product_inventory_changed,
  system_health, system_alert,
}
use event_driven_data_platfo.Events.Values.{Json, Floats}
use event_driven_data_platfo.Events.Envelopes.{EventEnvelope}
use event_driven_data_platfo.Processing.Rows.{
  processed_order_row, processed_payment_row, processed_user_session_row, product_state_row,
  service_health_row, metric_delta_for_event, should_raise_risk_alert,
}
use event_driven_data_platfo.Processing.Tables.{Numeric}
use event_driven_data_platfo.Processing.Actions.{Action, return, evaluate, ◌>>=◌, ◌>>◌}
use event_driven_data_platfo.Processing.Repository.{
  write_raw_event, write_processed_order, write_processed_payment, write_risk_alert,
  write_user_session_event, write_product_state, write_service_health, write_metric_delta,
  mark_event_processed,
}

module _ {F N : Type 0} (fl : Floats F) (sql : Numeric F N) (str : Json F → String) where
  unfoldable pub alert_if : EventEnvelope F → Bool → Action F N Unit
  alert_if v true = write_risk_alert str v
  alert_if v false = return tt

  unfoldable pub handle_payment : EventEnvelope F → Action F N Unit
  handle_payment v = do
    row ← evaluate (processed_payment_row fl v)
    write_processed_payment row
    risky ← evaluate (should_raise_risk_alert fl v)
    alert_if v risky

  unfoldable pub handle_user : EventEnvelope F → Action F N Unit
  handle_user v = do
    row ← evaluate (processed_user_session_row fl str v)
    write_user_session_event row

  unfoldable pub handle_order : EventEnvelope F → Action F N Unit
  handle_order v = do row ← evaluate (processed_order_row fl v); write_processed_order row

  unfoldable pub handle_product : EventEnvelope F → Action F N Unit
  handle_product v = do row ← evaluate (product_state_row fl v); write_product_state row

  unfoldable pub handle_system : EventEnvelope F → Action F N Unit
  handle_system v = do row ← evaluate (service_health_row fl v); write_service_health row

  -- The branches on the event type.
  unfoldable pub write_state : EventType → EventEnvelope F → Action F N Unit
  write_state order_created v = handle_order v
  write_state order_updated v = handle_order v
  write_state payment_authorized v = handle_payment v
  write_state payment_captured v = handle_payment v
  write_state payment_failed v = handle_payment v
  write_state user_signed_up v = handle_user v
  write_state user_activity v = handle_user v
  write_state user_churn_signal v = handle_user v
  write_state product_upserted v = handle_product v
  write_state product_inventory_changed v = handle_product v
  write_state system_health v = handle_system v
  write_state system_alert v = handle_system v

  unfoldable pub handle_new : EventEnvelope F → Action F N Unit
  handle_new v = do
    write_state v.kind v
    delta ← evaluate (metric_delta_for_event fl v)
    write_metric_delta sql delta
    mark_event_processed v

  unfoldable pub handle_if : EventEnvelope F → Bool → Action F N Unit
  handle_if v false = return tt
  handle_if v true = handle_new v

  unfoldable pub handle : EventEnvelope F → Action F N Unit
  handle v = do raw_inserted ← write_raw_event v; handle_if v raw_inserted
