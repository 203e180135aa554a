-- ===== src/Publishing.antt =====
-- services/shared/platform_shared/kafka.py: TopicRouter, and publish and publish_dlq of
-- KafkaEventProducer. kafka-python's producer is a parameter: what each attempt to send comes to,
-- by its number. Trace headers are left out.
pub mod Retries
pub mod DeadLetters
mod Tests
use event_driven_data_platfo.Base.{
  ℕ, zero, suc, ◌+◌, ◌^◌, ◌≡◌, refl, true, String, Option, none, some, List, [], ◌∷◌, contains,
  ◌++ₛ◌, ◌==◌, if◌then◌else◌, leb,
}
use event_driven_data_platfo.Events.Types.{
  EventType, event_domain, order_created, order_updated, payment_authorized, payment_captured,
  payment_failed, user_signed_up, user_activity, user_churn_signal, product_upserted,
  product_inventory_changed, system_health, system_alert, order_events, payment_events, user_events,
  product_events, system_events, retry_events,
}
use event_driven_data_platfo.Events.Values.{Json, null, text, Floats, is_true}
use event_driven_data_platfo.Events.Envelopes.{EventEnvelope}
use event_driven_data_platfo.Processing.Rows.{get_item, shown}

-- The dict of `TopicRouter.route`; `none` is the `KeyError`.
unfoldable pub topic_of_domain : String → Option String
topic_of_domain d =
    if d == "orders"
    then some order_events
    else if d == "payments"
    then some payment_events
    else if d == "users"
    then some user_events
    else if d == "products"
    then some product_events
    else if d == "system"
    then some system_events
    else none

unfoldable pub route : EventType → Option String
unfolding topic_of_domain event_domain
route e = topic_of_domain (event_domain e)

-- PROCESSING_TOPICS of services/processing-service/app/worker.py
unfoldable pub processing_topics : List String
processing_topics =
    order_events ∷ payment_events ∷ user_events ∷ product_events ∷ system_events ∷ retry_events ∷ []

-- The payload field that names the entity of a domain.
unfoldable pub business_field : String → Option String
business_field d =
    if d == "orders"
    then some "order_id"
    else if d == "payments"
    then some "payment_id"
    else if d == "users"
    then some "user_id"
    else if d == "products"
    then some "product_id"
    else if d == "system"
    then some "service_name"
    else none

module _ {F : Type 0} (fl : Floats F) (str : Json F → String) where
  unfoldable pub business_id : EventEnvelope F → Option String → Json F
  unfolding is_true
  business_id v none = text v.event_id
  business_id v (some field) =
      let id = get_item v.payload field null in if is_true fl id then id else text v.event_id

  -- `partition_key`, before it is encoded
  unfoldable pub partition_key : EventEnvelope F → String
  unfolding business_field business_id event_domain
  partition_key v =
      v.tenant_id ++ₛ (":" ++ₛ shown str (business_id v (business_field (event_domain v.kind))))

-- What the broker answers to a message.
pub record Metadata : Type 0 where
  pub topic : String
  pub partition : ℕ
  pub offset : ℕ

-- What becomes of the attempt with a number; `none` is an exception, a timeout among them.
abbrev pub Sends : Type 0
Sends = ℕ → Option Metadata

-- The result of `publish`: the answer with the attempt's number, `none` for the `RuntimeError`, and
-- the time slept before, in tenths of a second.
pub record Published : Type 0 where
  pub answer : Option (ℕ × Metadata)
  pub waited : ℕ

-- `min(2**attempt * 0.1, 2.0)`, in tenths of a second
unfoldable pub backoff : ℕ → ℕ
backoff attempt = let w = 2 ^ attempt in if leb w 20 then w else 20

unfoldable pub after_send : ℕ → Option Metadata → Published → Published
unfolding backoff
after_send attempt (some m) later = record { answer = some (attempt, m); waited = 0 }
after_send attempt none later = record later { waited = backoff attempt + later.waited }

-- The loop from the attempt with a number on, for as many attempts as are left.
unfoldable pub attempts : Sends → ℕ → ℕ → Published
unfolding after_send
attempts send zero attempt = record { answer = none; waited = 0 }
attempts send (suc left) attempt =
    after_send attempt (send attempt) (attempts send left (suc attempt))

-- `publish`, for the number of retries that the producer was made with
unfoldable pub publish : ℕ → Sends → Published
unfolding attempts
publish retries send = attempts send retries 1

-- Every event type is routed to a topic that the processing service consumes.
pub route_is_consumed :
    (e : EventType) → (t : String) × (route e ≡ some t) × (contains processing_topics t ≡ true)
unfolding route contains processing_topics
route_is_consumed order_created = (order_events, refl, refl)
route_is_consumed order_updated = (order_events, refl, refl)
route_is_consumed payment_authorized = (payment_events, refl, refl)
route_is_consumed payment_captured = (payment_events, refl, refl)
route_is_consumed payment_failed = (payment_events, refl, refl)
route_is_consumed user_signed_up = (user_events, refl, refl)
route_is_consumed user_activity = (user_events, refl, refl)
route_is_consumed user_churn_signal = (user_events, refl, refl)
route_is_consumed product_upserted = (product_events, refl, refl)
route_is_consumed product_inventory_changed = (product_events, refl, refl)
route_is_consumed system_health = (system_events, refl, refl)
route_is_consumed system_alert = (system_events, refl, refl)
