-- ===== src/Onboarding/Samples.antt =====
-- The sample events of tenant_onboarding.py. The number of an event is written with four digits, and the number
-- of events asked for is not negative.
use event_driven_data_platfo.Base.{
  ℕ, zero, suc, ◌+◌, ◌*◌, String, Option, none, some, List, [], ◌∷◌, true, ◌++ₛ◌, ◌>>=◌, Dict,
  insert, lookup, or_else,
}
use event_driven_data_platfo.Base.Int.{pos}
use event_driven_data_platfo.Events.Types.{
  EventType, event_value, order_created, payment_captured, user_activity, product_inventory_changed,
  system_health,
}
use event_driven_data_platfo.Events.Values.{Json, text, integer, boolean, Floats, Conversions}
use event_driven_data_platfo.Events.Envelopes.{
  Datetime, EventEnvelope, Fresh, instance_of, build_envelope,
}
use event_driven_data_platfo.Events.Identity.{idempotent_event_id}
use event_driven_data_platfo.Processing.Rows.{hour}

-- `datetime(2026, 6, 1, 12, 0, tzinfo=timezone.utc)`, 739767 days and a half after the beginning of year 1
abbrev pub at_seed : Datetime
at_seed = record { wall = (739767 * 24 + 12) * hour; offset = some (pos 0) }

pub record Definition (F : Type 0) : Type 0 where
  pub number : String
  pub kind : EventType
  pub key : String
  pub payload : Dict (Json F)
  pub causation_key : Option String

module _ {F : Type 0} (fl : Floats F) where
  unfoldable pub definitions : List (Definition F)
  definitions =
      record {
        number = "0001";
        kind = order_created;
        key = "ord_seed_0001:created";
        payload =
            ("order_id", text "ord_seed_0001")
            ∷ ("customer_id", text "cust_seed_0001")
            ∷ ("product_id", text "prod_seed_0001")
            ∷ ("quantity", integer (pos 2))
            ∷ ("unit_price", Json.number (fl.literal 1250 1))
            ∷ ("discount_amount", Json.number (fl.literal 100 1))
            ∷ ("currency", text "USD")
            ∷ ("status", text "created")
            ∷ ("channel", text "web")
            ∷ ("marketing_campaign_id", text "tenant-onboarding")
            ∷ ("region", text "na")
            ∷ [];
        causation_key = none;
      }
      ∷ record {
        number = "0002";
        kind = payment_captured;
        key = "pay_seed_0001:captured";
        payload =
            ("payment_id", text "pay_seed_0001")
            ∷ ("order_id", text "ord_seed_0001")
            ∷ ("customer_id", text "cust_seed_0001")
            ∷ ("amount", Json.number (fl.literal 2400 1))
            ∷ ("currency", text "USD")
            ∷ ("status", text "captured")
            ∷ ("payment_method", text "card")
            ∷ ("risk_score", Json.number (fl.literal 8 2))
            ∷ [];
        causation_key = some "ord_seed_0001:created";
      }
      ∷ record {
        number = "0003";
        kind = user_activity;
        key = "cust_seed_0001:activity";
        payload =
            ("user_id", text "cust_seed_0001")
            ∷ ("action", text "checkout_started")
            ∷ ("session_id", text "sess_seed_0001")
            ∷ ("page", text "/checkout")
            ∷ ("referrer", text "tenant-onboarding")
            ∷ ("duration_seconds", integer (pos 180))
            ∷ ("plan", text "growth")
            ∷ ("marketing_campaign_id", text "tenant-onboarding")
            ∷ [];
        causation_key = none;
      }
      ∷ record {
        number = "0004";
        kind = product_inventory_changed;
        key = "prod_seed_0001:inventory_changed";
        payload =
            ("product_id", text "prod_seed_0001")
            ∷ ("sku", text "PROD_SEED_0001")
            ∷ ("name", text "Onboarding Seed Product")
            ∷ ("category", text "growth")
            ∷ ("price", Json.number (fl.literal 1250 1))
            ∷ ("inventory_delta", integer (pos 20))
            ∷ ("active", boolean true)
            ∷ [];
        causation_key = none;
      }
      ∷ record {
        number = "0005";
        kind = system_health;
        key = "metadata-service:health";
        payload =
            ("service_name", text "metadata-service")
            ∷ ("status", text "healthy")
            ∷ ("latency_ms", Json.number (fl.literal 350 1))
            ∷ ("error_count", integer (pos 0))
            ∷ ("throughput_per_minute", Json.number (fl.literal 6000 1))
            ∷ ("kafka_lag", integer (pos 0))
            ∷ ("cache_hit_rate", Json.number (fl.literal 9 1))
            ∷ ("message", text "tenant onboarding readiness heartbeat")
            ∷ [];
        causation_key = none;
      }
      ∷ []

-- `definitions[:count]`
unfoldable pub first_of : {A : Type 0} → ℕ → List A → List A
first_of zero xs = []
first_of (suc n) [] = []
first_of (suc n) (x ∷ xs) = x ∷ first_of n xs

module _ {F : Type 0} (fl : Floats F) (cv : Conversions F) (digest : String → String)
    (fresh : Fresh) (tenant_id : String) where
  unfoldable pub stable_event_id : EventType → String → String
  stable_event_id kind business_key =
      idempotent_event_id digest tenant_id kind "tenant-onboarding" business_key

  -- The event of a definition, with the ids of the keys so far, its own among them.
  unfoldable pub sample_event : Definition F → Dict String → Option (EventEnvelope F)
  sample_event d event_ids_by_key = build_envelope fl cv fresh (record {
    event_id = some (stable_event_id d.kind d.key);
    tenant_id = tenant_id;
    event_type_text = event_value d.kind;
    event_timestamp = some (instance_of at_seed);
    source_service = "tenant-onboarding";
    payload_version = pos 1;
    payload = d.payload;
    trace_id = some ("onboard-trace-" ++ₛ (tenant_id ++ₛ ("-" ++ₛ d.number)));
    correlation_id = some ("onboard-" ++ₛ (tenant_id ++ₛ "-0001"));
    causation_id = lookup (or_else d.causation_key "") event_ids_by_key;
    idempotency_key = some ("tenant-onboarding:" ++ₛ d.key);
    schema_ref = some "contracts/schemas/v1/event-envelope.schema.json";
  })

  unfoldable pub build_samples : List (Definition F) → Dict String → Option (List (EventEnvelope F))
  build_samples [] ids = some []
  build_samples (d ∷ rest) ids = do
    let known = insert d.key (stable_event_id d.kind d.key) ids
    v ← sample_event d known
    others ← build_samples rest known
    some (v ∷ others)

  unfoldable pub sample_events : ℕ → Option (List (EventEnvelope F))
  sample_events count = build_samples (first_of count (definitions fl)) []
