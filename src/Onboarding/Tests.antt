-- ===== src/Onboarding/Tests.antt =====
-- A tenant that is taken in with one sample event, and the theorems at work on it.
use event_driven_data_platfo.Base.{
  strip, code_points, lookup, insert, ◌+◌, ◌≡◌, ℕ, refl, true, false, String, none, some, [], ◌∷◌,
}
use event_driven_data_platfo.Base.Int.{pos}
use event_driven_data_platfo.Events.Types.{event_value, order_created, event_type}
use event_driven_data_platfo.Events.Values.{Json, text, integer}
use event_driven_data_platfo.Events.Payloads.{validate_event_payload}
use event_driven_data_platfo.Events.Samples.{floats, conversions}
use event_driven_data_platfo.Events.Identity.{idempotent_event_id}
use event_driven_data_platfo.Events.Envelopes.{EventEnvelope, Fresh, build_envelope}
use event_driven_data_platfo.Processing.Tables.{any, upsert, Numeric, empty_db}
use event_driven_data_platfo.Onboarding.{
  write_product, write_samples, write_metrics, write_tenant, write_user, default_users, write_users,
  write_onboarding, count_rows, TenantOnboardingRequest, Tables, apply_onboarding, readiness,
  is_ready,
}
use event_driven_data_platfo.Onboarding.Samples.{
  at_seed, sample_events, stable_event_id, sample_event, build_samples, definitions, first_of,
}
use event_driven_data_platfo.Onboarding.Ready.{apply_onboarding-is_ready}

abbrev digest : String → String
digest s = "0123"

abbrev fresh : Fresh
fresh = record { fresh_event_id = "e-1"; fresh_trace_id = "t-1"; now = at_seed }

abbrev numeric : Numeric ℕ ℕ
numeric = record { of_float = λ n. n; plus = ◌+◌ }

abbrev request : TenantOnboardingRequest
request = record {
  tenant_id = "acme";
  tenant_name = "Acme";
  plan = "growth";
  region = "us";
  requested_by = "ops";
  sample_event_count = 1;
}

abbrev no_rows : Tables ℕ ℕ
no_rows = record { core = empty_db; tenants = []; users = [] }

abbrev order_sample : EventEnvelope ℕ
order_sample = record {
  event_id = "idem_0123";
  tenant_id = "acme";
  kind = order_created;
  event_timestamp = at_seed;
  source_service = "tenant-onboarding";
  payload_version = pos 1;
  payload =
      ("order_id", text "ord_seed_0001")
      ∷ ("customer_id", text "cust_seed_0001")
      ∷ ("product_id", text "prod_seed_0001")
      ∷ ("quantity", integer (pos 2))
      ∷ ("unit_price", Json.number 1250)
      ∷ ("discount_amount", Json.number 100)
      ∷ ("currency", text "USD")
      ∷ ("status", text "created")
      ∷ ("channel", text "web")
      ∷ ("marketing_campaign_id", text "tenant-onboarding")
      ∷ ("region", text "na")
      ∷ [];
  trace_id = "onboard-trace-acme-0001";
  correlation_id = some "onboard-acme-0001";
  causation_id = none;
  idempotency_key = some "tenant-onboarding:ord_seed_0001:created";
  schema_ref = some "contracts/schemas/v1/event-envelope.schema.json";
}

one_sample : sample_events floats conversions digest fresh "acme" 1 ≡ some (order_sample ∷ [])
unfolding sample_events build_samples first_of definitions sample_event build_envelope event_type
    event_value code_points validate_event_payload lookup stable_event_id strip insert
    idempotent_event_id
one_sample = refl

strip-acme : strip "acme" ≡ "acme"
unfolding strip
strip-acme = refl

-- No sample event: the tenant is not ready.
not_ready :
    (t' : Tables ℕ ℕ) × (apply_onboarding floats numeric conversions digest
        (record request { sample_event_count = 0 })
        (pos 20605)
        at_seed
        fresh
        no_rows
      ≡ some t')
    × (is_ready (readiness "acme" t') ≡ false)
unfolding apply_onboarding is_ready sample_events build_samples first_of readiness count_rows
    write_onboarding write_users default_users write_user write_tenant upsert write_metrics
    write_samples write_product
not_ready = (_, refl, refl)

apply_onboarding-is_ready_example :
    (t' : Tables ℕ ℕ) × (apply_onboarding floats numeric conversions digest request
        (pos 20605)
        at_seed
        fresh
        no_rows
      ≡ some t')
    × (is_ready (readiness "acme" t') ≡ true)
unfolding any
apply_onboarding-is_ready_example =
    apply_onboarding-is_ready floats numeric conversions digest request (pos 20605) at_seed fresh
      no_rows order_sample [] strip-acme one_sample refl
