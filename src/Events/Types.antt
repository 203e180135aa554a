-- ===== src/Events/Types.antt =====
-- EventType, EVENT_DOMAIN and TopicNames of services/shared/platform_shared/schemas.py.
use event_driven_data_platfo.Base.{◌≡◌, refl, String, Option, none, some, ◌==◌, if◌then◌else◌}

pub data EventType : Type 0 where
  order_created : EventType
  order_updated : EventType
  payment_authorized : EventType
  payment_captured : EventType
  payment_failed : EventType
  user_signed_up : EventType
  user_activity : EventType
  user_churn_signal : EventType
  product_upserted : EventType
  product_inventory_changed : EventType
  system_health : EventType
  system_alert : EventType

-- `event_type.value`
unfoldable pub event_value : EventType → String
event_value order_created = "order.created"
event_value order_updated = "order.updated"
event_value payment_authorized = "payment.authorized"
event_value payment_captured = "payment.captured"
event_value payment_failed = "payment.failed"
event_value user_signed_up = "user.signed_up"
event_value user_activity = "user.activity"
event_value user_churn_signal = "user.churn_signal"
event_value product_upserted = "product.upserted"
event_value product_inventory_changed = "product.inventory_changed"
event_value system_health = "system.health"
event_value system_alert = "system.alert"

-- `EventType(text)`; `none` is the `ValueError`.
unfoldable pub event_type : String → Option EventType
event_type s =
    if s == "order.created"
    then some order_created
    else if s == "order.updated"
    then some order_updated
    else if s == "payment.authorized"
    then some payment_authorized
    else if s == "payment.captured"
    then some payment_captured
    else if s == "payment.failed"
    then some payment_failed
    else if s == "user.signed_up"
    then some user_signed_up
    else if s == "user.activity"
    then some user_activity
    else if s == "user.churn_signal"
    then some user_churn_signal
    else if s == "product.upserted"
    then some product_upserted
    else if s == "product.inventory_changed"
    then some product_inventory_changed
    else if s == "system.health"
    then some system_health
    else if s == "system.alert"
    then some system_alert
    else none

-- EVENT_DOMAIN
unfoldable pub event_domain : EventType → String
event_domain order_created = "orders"
event_domain order_updated = "orders"
event_domain payment_authorized = "payments"
event_domain payment_captured = "payments"
event_domain payment_failed = "payments"
event_domain user_signed_up = "users"
event_domain user_activity = "users"
event_domain user_churn_signal = "users"
event_domain product_upserted = "products"
event_domain product_inventory_changed = "products"
event_domain system_health = "system"
event_domain system_alert = "system"

abbrev pub order_events : String
order_events = "platform.events.orders"

abbrev pub payment_events : String
payment_events = "platform.events.payments"

abbrev pub user_events : String
user_events = "platform.events.users"

abbrev pub product_events : String
product_events = "platform.events.products"

abbrev pub system_events : String
system_events = "platform.events.system"

abbrev pub retry_events : String
retry_events = "platform.events.retry"

abbrev pub dlq_events : String
dlq_events = "platform.events.dlq"

-- Reading back what an event type is written as gives that event type.
pub event_type-event_value : (e : EventType) → event_type (event_value e) ≡ some e
unfolding event_type event_value
event_type-event_value order_created = refl
event_type-event_value order_updated = refl
event_type-event_value payment_authorized = refl
event_type-event_value payment_captured = refl
event_type-event_value payment_failed = refl
event_type-event_value user_signed_up = refl
event_type-event_value user_activity = refl
event_type-event_value user_churn_signal = refl
event_type-event_value product_upserted = refl
event_type-event_value product_inventory_changed = refl
event_type-event_value system_health = refl
event_type-event_value system_alert = refl
