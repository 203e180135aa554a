-- ===== src/Events/Payloads.antt =====
-- The payload models of services/shared/platform_shared/schemas.py and validate_event_payload. A
-- model is the list of its fields with their constraints, as the class declares them; what pydantic
-- does with a declaration is validate_model.
use event_driven_data_platfo.Base.{
  ℕ, Bool, true, false, ◌&&◌, String, Option, none, some, List, [], ◌∷◌, Dict, lookup, code_points,
  leb, if◌then◌else◌,
}
use event_driven_data_platfo.Base.Int.{pos, leb_ℤ}
use event_driven_data_platfo.Events.Types.{
  EventType, order_created, order_updated, payment_authorized, payment_captured, payment_failed,
  user_signed_up, user_activity, user_churn_signal, product_upserted, product_inventory_changed,
  system_health, system_alert,
}
use event_driven_data_platfo.Events.Values.{
  Json, null, boolean, integer, number, text, Floats, Conversions,
}

pub data Kind : Type 0 where
  text_kind : Kind
  int_kind : Kind
  float_kind : Kind
  bool_kind : Kind

-- `ge=…`, `le=…`, `min_length=…` and `max_length=…` of a `Field`
pub data Constraint : Type 0 where
  at_least : ℕ → Constraint
  at_most : ℕ → Constraint
  min_length : ℕ → Constraint
  max_length : ℕ → Constraint

pub record FieldSpec (F : Type 0) : Type 0 where
  pub name : String
  pub kind : Kind
  pub nullable : Bool
  -- `none` for a required field
  pub default : Option (Json F)
  pub constraints : List Constraint

module _ {F : Type 0} where
  abbrev pub required : String → Kind → List Constraint → FieldSpec F
  required n k cs = record {
    name = n;
    kind = k;
    nullable = false;
    default = none;
    constraints = cs;
  }

  abbrev pub optional : String → Kind → List Constraint → FieldSpec F
  optional n k cs = record {
    name = n;
    kind = k;
    nullable = true;
    default = some null;
    constraints = cs;
  }

  abbrev pub defaulted : String → Kind → Json F → List Constraint → FieldSpec F
  defaulted n k d cs = record {
    name = n;
    kind = k;
    nullable = false;
    default = some d;
    constraints = cs;
  }

  unfoldable pub order_payload : List (FieldSpec F)
  order_payload =
      required "order_id" text_kind []
      ∷ required "customer_id" text_kind []
      ∷ required "product_id" text_kind []
      ∷ required "quantity" int_kind (at_least 1 ∷ [])
      ∷ required "unit_price" float_kind (at_least 0 ∷ [])
      ∷ defaulted "discount_amount" float_kind (integer (pos 0)) (at_least 0 ∷ [])
      ∷ defaulted "currency" text_kind (text "USD") (min_length 3 ∷ max_length 3 ∷ [])
      ∷ defaulted "status" text_kind (text "created") []
      ∷ defaulted "channel" text_kind (text "web") []
      ∷ optional "marketing_campaign_id" text_kind []
      ∷ optional "region" text_kind []
      ∷ []

  unfoldable pub payment_payload : List (FieldSpec F)
  payment_payload =
      required "payment_id" text_kind []
      ∷ required "order_id" text_kind []
      ∷ required "customer_id" text_kind []
      ∷ required "amount" float_kind (at_least 0 ∷ [])
      ∷ defaulted "currency" text_kind (text "USD") (min_length 3 ∷ max_length 3 ∷ [])
      ∷ required "status" text_kind []
      ∷ defaulted "payment_method" text_kind (text "card") []
      ∷ optional "failure_code" text_kind []
      ∷ optional "risk_score" float_kind (at_least 0 ∷ at_most 1 ∷ [])
      ∷ []

  unfoldable pub user_payload : List (FieldSpec F)
  user_payload =
      required "user_id" text_kind []
      ∷ required "action" text_kind []
      ∷ optional "session_id" text_kind []
      ∷ optional "page" text_kind []
      ∷ optional "referrer" text_kind []
      ∷ defaulted "duration_seconds" int_kind (integer (pos 0)) (at_least 0 ∷ [])
      ∷ optional "plan" text_kind []
      ∷ optional "marketing_campaign_id" text_kind []
      ∷ []

  unfoldable pub product_payload : List (FieldSpec F)
  product_payload =
      required "product_id" text_kind []
      ∷ required "sku" text_kind []
      ∷ required "name" text_kind []
      ∷ required "category" text_kind []
      ∷ required "price" float_kind (at_least 0 ∷ [])
      ∷ defaulted "inventory_delta" int_kind (integer (pos 0)) []
      ∷ defaulted "active" bool_kind (boolean true) []
      ∷ []

  unfoldable pub system_payload : List (FieldSpec F)
  system_payload =
      required "service_name" text_kind []
      ∷ required "status" text_kind []
      ∷ optional "latency_ms" float_kind (at_least 0 ∷ [])
      ∷ defaulted "error_count" int_kind (integer (pos 0)) (at_least 0 ∷ [])
      ∷ optional "throughput_per_minute" float_kind (at_least 0 ∷ [])
      ∷ optional "kafka_lag" int_kind (at_least 0 ∷ [])
      ∷ optional "cache_hit_rate" float_kind (at_least 0 ∷ at_most 1 ∷ [])
      ∷ optional "message" text_kind []
      ∷ []

  -- PAYLOAD_MODELS
  unfoldable pub payload_model : EventType → List (FieldSpec F)
  unfolding order_payload payment_payload user_payload product_payload system_payload
  payload_model order_created = order_payload
  payload_model order_updated = order_payload
  payload_model payment_authorized = payment_payload
  payload_model payment_captured = payment_payload
  payload_model payment_failed = payment_payload
  payload_model user_signed_up = user_payload
  payload_model user_activity = user_payload
  payload_model user_churn_signal = user_payload
  payload_model product_upserted = product_payload
  payload_model product_inventory_changed = product_payload
  payload_model system_health = system_payload
  payload_model system_alert = system_payload

  abbrev pub map_json {ℓ} : {A : Type ℓ} → (A → Json F) → Option A → Option (Json F)
  map_json f none = none
  map_json f (some a) = some (f a)

  abbrev pub is_null : Json F → Bool
  is_null null = true
  is_null _ = false

  abbrev pub add_field : String → Option (Json F) → Option (Dict (Json F)) → Option (Dict (Json F))
  add_field n none rest = none
  add_field n (some v) none = none
  add_field n (some v) (some d) = some ((n, v) ∷ d)

module _ {F : Type 0} (fl : Floats F) (cv : Conversions F) where
  unfoldable pub meets : Constraint → Json F → Bool
  meets (at_least n) (integer z) = leb_ℤ (pos n) z
  meets (at_least n) (number x) = fl.le (fl.of_int (pos n)) x
  meets (at_most n) (integer z) = leb_ℤ z (pos n)
  meets (at_most n) (number x) = fl.le x (fl.of_int (pos n))
  meets (min_length n) (text s) = leb n (code_points s)
  meets (max_length n) (text s) = leb (code_points s) n
  meets _ _ = true

  unfoldable pub meets_all : List Constraint → Json F → Bool
  unfolding meets
  meets_all [] v = true
  meets_all (c ∷ cs) v = meets c v && meets_all cs v

  unfoldable pub convert : Kind → Json F → Option (Json F)
  convert text_kind v = map_json text (cv.to_text v)
  convert int_kind v = map_json integer (cv.to_int v)
  convert float_kind v = map_json number (cv.to_float v)
  convert bool_kind v = map_json boolean (cv.to_bool v)

  abbrev pub checked : List Constraint → Option (Json F) → Option (Json F)
  checked cs none = none
  checked cs (some v) = if meets_all cs v then some v else none

  -- A value that is given for a field.
  unfoldable pub validate_value : FieldSpec F → Json F → Option (Json F)
  unfolding convert meets_all
  validate_value spec v =
      if spec.nullable && is_null v
      then some null
      else checked spec.constraints (convert spec.kind v)

  -- A missing field takes its default, which pydantic does not check.
  unfoldable pub validate_field : FieldSpec F → Option (Json F) → Option (Json F)
  unfolding validate_value
  validate_field spec none = spec.default
  validate_field spec (some v) = validate_value spec v

  -- `payload_model(**payload).model_dump()`; `none` is the `ValidationError`. Fields that the model
  -- does not declare are dropped.
  unfoldable pub validate_model : List (FieldSpec F) → Dict (Json F) → Option (Dict (Json F))
  unfolding validate_field
  validate_model [] payload = some []
  validate_model (spec ∷ specs) payload =
      add_field spec.name (validate_field spec (lookup spec.name payload))
        (validate_model specs payload)

  unfoldable pub validate_event_payload : EventType → Dict (Json F) → Option (Dict (Json F))
  unfolding validate_model payload_model
  validate_event_payload e payload = validate_model (payload_model e) payload
