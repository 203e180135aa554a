-- ===== src/Processing/Rows.antt =====
-- services/processing-service/app/processors.py: the row that each event becomes. `none` is the
-- `KeyError`, `TypeError` or `ValueError` of a payload that lacks what the row needs.
use event_driven_data_platfo.Base.{
  ◌>>=◌, ℕ, ◌-◌, ◌%◌, Bool, true, false, String, Option, some, or_else, if◌then◌else◌, Dict, lookup,
  ◌++ₛ◌,
}
use event_driven_data_platfo.Base.Int.{ℤ, pos}
use event_driven_data_platfo.Events.Types.{
  EventType, order_created, order_updated, payment_authorized, payment_captured, payment_failed,
  user_signed_up, user_activity, user_churn_signal,
}
use event_driven_data_platfo.Events.Values.{
  Json, null, boolean, integer, text, Floats, float_of, int_of, is_true,
}
use event_driven_data_platfo.Events.Envelopes.{Datetime, in_utc, EventEnvelope}

pub record MetricDelta (F : Type 0) : Type 0 where
  pub tenant_id : String
  pub metric_ts : Datetime
  pub gross_revenue : F
  pub net_revenue : F
  pub order_count : ℕ
  pub units_sold : ℤ
  pub new_users : ℕ
  pub active_users : ℕ
  pub churn_signal_count : ℕ
  pub payment_success_count : ℕ
  pub payment_failure_count : ℕ
  pub marketing_spend : F
  pub marketing_attributed_revenue : F
  pub events_processed : ℕ

-- One hour in microseconds, the unit of `Datetime.wall`.
abbrev pub hour : ℕ
hour = 3600000000

-- `event_hour`
unfoldable pub event_hour : Datetime → Datetime
event_hour d = record d { wall = d.wall - d.wall % hour; offset = (in_utc d).offset }

pub record OrderRow (F : Type 0) : Type 0 where
  pub tenant_id : String
  pub event_id : String
  pub order_id : Json F
  pub customer_id : Json F
  pub product_id : Json F
  pub quantity : Json F
  pub unit_price : Json F
  pub discount_amount : Json F
  pub gross_revenue : F
  pub net_revenue : F
  pub currency : Json F
  pub status : Json F
  pub channel : Json F
  pub marketing_campaign_id : Json F
  pub region : Json F
  pub event_timestamp : Datetime

pub record PaymentRow (F : Type 0) : Type 0 where
  pub tenant_id : String
  pub event_id : String
  pub payment_id : Json F
  pub order_id : Json F
  pub customer_id : Json F
  pub amount : Json F
  pub currency : Json F
  pub status : Json F
  pub payment_method : Json F
  pub failure_code : Json F
  pub risk_score : Json F
  pub event_timestamp : Datetime

pub record SessionRow (F : Type 0) : Type 0 where
  pub tenant_id : String
  pub event_id : String
  pub user_id : Json F
  pub session_id : Json F
  pub action : Json F
  pub page : Json F
  pub referrer : Json F
  pub duration_seconds : Json F
  pub plan : Json F
  pub marketing_campaign_id : Json F
  pub event_timestamp : Datetime

pub record ProductRow (F : Type 0) : Type 0 where
  pub tenant_id : String
  pub event_id : String
  pub product_id : Json F
  pub sku : Json F
  pub name : Json F
  pub category : Json F
  pub price : Json F
  pub inventory_delta : Json F
  pub active : Json F
  pub event_timestamp : Datetime

pub record HealthRow (F : Type 0) : Type 0 where
  pub tenant_id : String
  pub event_id : String
  pub service_name : Json F
  pub status : Json F
  pub latency_ms : Json F
  pub error_count : Json F
  pub throughput_per_minute : Json F
  pub kafka_lag : Json F
  pub cache_hit_rate : Json F
  pub message : Json F
  pub event_timestamp : Datetime

module _ {F : Type 0} where
  -- `payload.get(key, default)`
  abbrev pub get_item : Dict (Json F) → String → Json F → Json F
  get_item payload key default = or_else (lookup key payload) default

  -- An f-string shows a text as it is; how Python shows other values is a parameter.
  abbrev pub shown : (Json F → String) → Json F → String
  shown str (text s) = s
  shown str v = str v

module _ {F : Type 0} (fl : Floats F) where
  unfoldable pub gross_order_revenue : Dict (Json F) → Option F
  unfolding float_of
  gross_order_revenue payload = do
    q ← lookup "quantity" payload
    quantity ← float_of fl q
    p ← lookup "unit_price" payload
    price ← float_of fl p
    some (fl.mul quantity price)

  -- `max(x, 0)`
  abbrev pub at_least_zero : F → F
  at_least_zero x = if fl.lt x (fl.of_int (pos 0)) then fl.of_int (pos 0) else x

  unfoldable pub net_order_revenue : Dict (Json F) → Option F
  unfolding gross_order_revenue
  net_order_revenue payload = do
    gross ← gross_order_revenue payload
    discount ← float_of fl (get_item payload "discount_amount" (integer (pos 0)))
    some (at_least_zero (fl.sub gross discount))

  unfoldable pub processed_order_row : EventEnvelope F → Option (OrderRow F)
  unfolding net_order_revenue
  processed_order_row v = do
    order_id ← lookup "order_id" v.payload
    customer_id ← lookup "customer_id" v.payload
    product_id ← lookup "product_id" v.payload
    quantity ← lookup "quantity" v.payload
    unit_price ← lookup "unit_price" v.payload
    gross ← gross_order_revenue v.payload
    net ← net_order_revenue v.payload
    some (record {
      tenant_id = v.tenant_id;
      event_id = v.event_id;
      order_id = order_id;
      customer_id = customer_id;
      product_id = product_id;
      quantity = quantity;
      unit_price = unit_price;
      discount_amount = get_item v.payload "discount_amount" (integer (pos 0));
      gross_revenue = gross;
      net_revenue = net;
      currency = get_item v.payload "currency" (text "USD");
      status = get_item v.payload "status" (text "created");
      channel = get_item v.payload "channel" (text "unknown");
      marketing_campaign_id = get_item v.payload "marketing_campaign_id" null;
      region = get_item v.payload "region" null;
      event_timestamp = v.event_timestamp;
    })

  unfoldable pub processed_payment_row : EventEnvelope F → Option (PaymentRow F)
  processed_payment_row v = do
    payment_id ← lookup "payment_id" v.payload
    order_id ← lookup "order_id" v.payload
    customer_id ← lookup "customer_id" v.payload
    amount ← lookup "amount" v.payload
    status ← lookup "status" v.payload
    some (record {
      tenant_id = v.tenant_id;
      event_id = v.event_id;
      payment_id = payment_id;
      order_id = order_id;
      customer_id = customer_id;
      amount = amount;
      currency = get_item v.payload "currency" (text "USD");
      status = status;
      payment_method = get_item v.payload "payment_method" (text "unknown");
      failure_code = get_item v.payload "failure_code" null;
      risk_score = get_item v.payload "risk_score" null;
      event_timestamp = v.event_timestamp;
    })

  unfoldable pub processed_user_session_row :
      (Json F → String) → EventEnvelope F → Option (SessionRow F)
  unfolding is_true
  processed_user_session_row str v = do
    user_id ← lookup "user_id" v.payload
    action ← lookup "action" v.payload
    let given = get_item v.payload "session_id" null
    some (record {
      tenant_id = v.tenant_id;
      event_id = v.event_id;
      user_id = user_id;
      session_id = if is_true fl given then given else text ("sessionless:" ++ₛ shown str user_id);
      action = action;
      page = get_item v.payload "page" null;
      referrer = get_item v.payload "referrer" null;
      duration_seconds = get_item v.payload "duration_seconds" (integer (pos 0));
      plan = get_item v.payload "plan" null;
      marketing_campaign_id = get_item v.payload "marketing_campaign_id" null;
      event_timestamp = v.event_timestamp;
    })

  unfoldable pub product_state_row : EventEnvelope F → Option (ProductRow F)
  product_state_row v = do
    product_id ← lookup "product_id" v.payload
    sku ← lookup "sku" v.payload
    name ← lookup "name" v.payload
    category ← lookup "category" v.payload
    price ← lookup "price" v.payload
    some (record {
      tenant_id = v.tenant_id;
      event_id = v.event_id;
      product_id = product_id;
      sku = sku;
      name = name;
      category = category;
      price = price;
      inventory_delta = get_item v.payload "inventory_delta" (integer (pos 0));
      active = get_item v.payload "active" (boolean true);
      event_timestamp = v.event_timestamp;
    })

  unfoldable pub service_health_row : EventEnvelope F → Option (HealthRow F)
  service_health_row v = do
    service_name ← lookup "service_name" v.payload
    status ← lookup "status" v.payload
    some (record {
      tenant_id = v.tenant_id;
      event_id = v.event_id;
      service_name = service_name;
      status = status;
      latency_ms = get_item v.payload "latency_ms" null;
      error_count = get_item v.payload "error_count" (integer (pos 0));
      throughput_per_minute = get_item v.payload "throughput_per_minute" null;
      kafka_lag = get_item v.payload "kafka_lag" null;
      cache_hit_rate = get_item v.payload "cache_hit_rate" null;
      message = get_item v.payload "message" null;
      event_timestamp = v.event_timestamp;
    })

  -- `MetricDelta(tenant_id=…, metric_ts=…)` with the defaults of the other fields
  abbrev pub empty_delta : EventEnvelope F → MetricDelta F
  empty_delta v = record {
    tenant_id = v.tenant_id;
    metric_ts = event_hour v.event_timestamp;
    gross_revenue = fl.of_int (pos 0);
    net_revenue = fl.of_int (pos 0);
    order_count = 0;
    units_sold = pos 0;
    new_users = 0;
    active_users = 0;
    churn_signal_count = 0;
    payment_success_count = 0;
    payment_failure_count = 0;
    marketing_spend = fl.of_int (pos 0);
    marketing_attributed_revenue = fl.of_int (pos 0);
    events_processed = 1;
  }

  unfoldable pub order_delta : EventEnvelope F → Option (MetricDelta F)
  unfolding net_order_revenue is_true int_of
  order_delta v = do
    net ← net_order_revenue v.payload
    gross ← gross_order_revenue v.payload
    q ← lookup "quantity" v.payload
    units ← int_of fl q
    let campaign = is_true fl (get_item v.payload "marketing_campaign_id" null)
    some (record (empty_delta v) {
      gross_revenue = gross;
      net_revenue = net;
      order_count = 1;
      units_sold = units;
      marketing_spend = if campaign then fl.literal 350 2 else fl.of_int (pos 0);
      marketing_attributed_revenue = if campaign then net else fl.of_int (pos 0);
    })

  unfoldable pub metric_delta_for_kind : EventType → EventEnvelope F → Option (MetricDelta F)
  unfolding order_delta
  metric_delta_for_kind order_created v = order_delta v
  metric_delta_for_kind order_updated v = order_delta v
  metric_delta_for_kind payment_captured v =
      some (record (empty_delta v) { payment_success_count = 1 })
  metric_delta_for_kind payment_authorized v =
      some (record (empty_delta v) { payment_success_count = 1 })
  metric_delta_for_kind payment_failed v =
      some (record (empty_delta v) { payment_failure_count = 1 })
  metric_delta_for_kind user_signed_up v =
      some (record (empty_delta v) { new_users = 1; active_users = 1 })
  metric_delta_for_kind user_activity v = some (record (empty_delta v) { active_users = 1 })
  metric_delta_for_kind user_churn_signal v =
      some (record (empty_delta v) { churn_signal_count = 1 })
  metric_delta_for_kind _ v = some (empty_delta v)

  unfoldable pub metric_delta_for_event : EventEnvelope F → Option (MetricDelta F)
  unfolding metric_delta_for_kind
  metric_delta_for_event v = metric_delta_for_kind v.kind v

  -- `risk_score is not None and float(risk_score) >= 0.85`
  unfoldable pub is_high_risk : Json F → Option Bool
  unfolding float_of
  is_high_risk null = some false
  is_high_risk v = do score ← float_of fl v; some (fl.le (fl.literal 85 2) score)

  unfoldable pub should_raise_risk_alert : EventEnvelope F → Option Bool
  unfolding is_high_risk
  should_raise_risk_alert v = elim v.kind [
    | payment_failed ↦ is_high_risk (get_item v.payload "risk_score" null)
    | _ ↦ some false
  ]
