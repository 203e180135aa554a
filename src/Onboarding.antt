-- ===== src/Onboarding.antt =====
-- platform_cli/tenant_onboarding.py: a tenant with its users, a product, sample events and a day of
-- metrics. Every statement is answered; the access token, the file of sample events and the columns
-- that hold now() are left out, but the product's, which is a parameter.
pub mod Samples
pub mod Ready
mod Tests
use event_driven_data_platfo.Base.{
  ℕ, suc, Bool, true, ◌&&◌, String, Option, some, List, [], ◌∷◌, ◌==◌, ◌++ₛ◌, ◌>>=◌, Dict, insert,
  if◌then◌else◌, is_some, length, ltb,
}
use event_driven_data_platfo.Base.Int.{ℤ, pos, eqb_ℤ}
use event_driven_data_platfo.Events.Values.{text, boolean, number, Floats, Conversions}
use event_driven_data_platfo.Events.Envelopes.{Datetime, EventEnvelope, Fresh}
use event_driven_data_platfo.Processing.Tables.{MetricsRow, Numeric, Db, insert_new, upsert}
use event_driven_data_platfo.Processing.Repository.{raw_row}
use event_driven_data_platfo.Onboarding.Samples.{sample_events}

pub record TenantUserSpec : Type 0 where
  pub user_id : String
  pub email : String
  pub role : String
  pub scopes : List String

pub record TenantOnboardingRequest : Type 0 where
  pub tenant_id : String
  pub tenant_name : String
  pub plan : String
  pub region : String
  pub requested_by : String
  pub sample_event_count : ℕ

unfoldable pub default_users : String → List TenantUserSpec
default_users tenant_id =
    record {
      user_id = tenant_id ++ₛ "_admin";
      email = "admin@" ++ₛ (tenant_id ++ₛ ".example.com");
      role = "tenant_admin";
      scopes = "metrics:read" ∷ "tenant:write" ∷ "events:write" ∷ [];
    }
    ∷ record {
      user_id = tenant_id ++ₛ "_analyst";
      email = "analyst@" ++ₛ (tenant_id ++ₛ ".example.com");
      role = "analyst";
      scopes = "metrics:read" ∷ [];
    }
    ∷ record {
      user_id = tenant_id ++ₛ "_viewer";
      email = "viewer@" ++ₛ (tenant_id ++ₛ ".example.com");
      role = "viewer";
      scopes = "metrics:read" ∷ [];
    }
    ∷ record {
      user_id = tenant_id ++ₛ "_svc_ingestion";
      email = "svc-ingestion@" ++ₛ (tenant_id ++ₛ ".example.com");
      role = "service_account";
      scopes = "events:write" ∷ "metrics:read" ∷ [];
    }
    ∷ []

-- `tenant_config`
pub record TenantRow : Type 0 where
  pub tenant_id : String
  pub tenant_name : String
  pub plan : String
  pub region : String
  pub is_active : Bool
  pub config : Dict String

-- `tenant_users`
pub record UserRow : Type 0 where
  pub tenant_id : String
  pub user_id : String
  pub email : String
  pub role : String
  pub is_active : Bool

-- The tables: those of the processing service, and those of the tenants.
pub record Tables (F N : Type 0) : Type 0 where
  pub core : Db F N
  pub tenants : List TenantRow
  pub users : List UserRow

module _ {R : Type 0} where
  -- `select count(*) … where …`
  unfoldable pub count_rows : (R → Bool) → List R → ℕ
  count_rows test [] = 0
  count_rows test (r ∷ rs) = let rest = count_rows test rs in if test r then suc rest else rest

module _ {F N : Type 0} where
  -- `insert into tenant_config … on conflict (tenant_id) do update …`; `||` puts the new keys of the
  -- configuration over the old.
  unfoldable pub write_tenant : TenantOnboardingRequest → Tables F N → Tables F N
  write_tenant request t =
      let row : TenantRow = record {
        tenant_id = request.tenant_id;
        tenant_name = request.tenant_name;
        plan = request.plan;
        region = request.region;
        is_active = true;
        config = ("onboarded_by", request.requested_by) ∷ ("onboarding_mode", "platform_cli") ∷ [];
      } in
      record t {
        tenants =
            upsert (λ (r : TenantRow). r.tenant_id == request.tenant_id)
              (λ r. record r {
                tenant_name = request.tenant_name;
                plan = request.plan;
                region = request.region;
                is_active = true;
                config =
                    insert "onboarding_mode" "platform_cli"
                      (insert "onboarded_by" request.requested_by r.config);
              })
              row t.tenants;
      }

  unfoldable pub write_user : String → TenantUserSpec → Tables F N → Tables F N
  write_user tenant_id user t = record t {
    users =
        upsert (λ (r : UserRow). (r.tenant_id == tenant_id) && (r.user_id == user.user_id))
          (λ r. record r { email = user.email; role = user.role; is_active = true })
          (record {
            tenant_id = tenant_id;
            user_id = user.user_id;
            email = user.email;
            role = user.role;
            is_active = true;
          })
          t.users;
  }

  unfoldable pub write_users : String → List TenantUserSpec → Tables F N → Tables F N
  write_users tenant_id [] t = t
  write_users tenant_id (user ∷ rest) t = write_users tenant_id rest (write_user tenant_id user t)

  unfoldable pub write_sample : EventEnvelope F → Db F N → Db F N
  write_sample v db = record db {
    raw_events = (insert_new (λ r. r.event_id == v.event_id) (raw_row v) db.raw_events).1;
  }

  unfoldable pub write_samples : List (EventEnvelope F) → Db F N → Db F N
  write_samples [] db = db
  write_samples (v ∷ rest) db = write_samples rest (write_sample v db)

  module _ (fl : Floats F) (sql : Numeric F N) where
    unfoldable pub write_product : String → Datetime → Db F N → Db F N
    write_product tenant_id now db = record db {
      products =
          upsert (λ r. (r.tenant_id == tenant_id) && (r.product_id == "prod_seed_0001"))
            (λ r. record r { inventory_on_hand = pos 20; active = boolean true; updated_at = now })
            (record {
              tenant_id = tenant_id;
              product_id = "prod_seed_0001";
              sku = text "PROD_SEED_0001";
              name = text "Onboarding Seed Product";
              category = text "growth";
              price = number (fl.literal 12500 2);
              inventory_on_hand = pos 20;
              active = boolean true;
              last_event_id = "tenant-onboarding";
              updated_at = now;
            })
            db.products;
    }

    -- The row of metrics that the tenant gets for the day.
    abbrev pub seed_metrics : String → ℤ → ℕ → MetricsRow N
    seed_metrics tenant_id today events = record {
      tenant_id = tenant_id;
      bucket = today;
      gross_revenue = sql.of_float (fl.literal 25000 2);
      net_revenue = sql.of_float (fl.literal 24000 2);
      order_count = 1;
      units_sold = pos 2;
      new_users = 0;
      active_users = 1;
      churn_signal_count = 0;
      payment_success_count = 1;
      payment_failure_count = 0;
      marketing_spend = sql.of_float (fl.literal 350 2);
      marketing_attributed_revenue = sql.of_float (fl.literal 24000 2);
      events_processed = events;
    }

    -- `on conflict (tenant_id, metric_date) do update set …`
    unfoldable pub write_metrics : String → ℤ → ℕ → Db F N → Db F N
    write_metrics tenant_id today events db =
        let seed = seed_metrics tenant_id today events in
        record db {
          daily =
              upsert (λ r. (r.tenant_id == tenant_id) && eqb_ℤ r.bucket today)
                (λ r. record r {
                  gross_revenue = seed.gross_revenue;
                  net_revenue = seed.net_revenue;
                  order_count = seed.order_count;
                  units_sold = seed.units_sold;
                  active_users = seed.active_users;
                  payment_success_count = seed.payment_success_count;
                  events_processed = events;
                })
                seed db.daily;
        }

    -- The statements of apply_onboarding, when it has the sample events.
    unfoldable pub write_onboarding :
        TenantOnboardingRequest → ℤ → Datetime → List (EventEnvelope F) → Tables F N → Tables F N
    write_onboarding request today now events t =
        let seeded =
          write_users request.tenant_id (default_users request.tenant_id)
            (write_tenant request t) in
        record seeded {
          core =
              write_metrics request.tenant_id today (length events)
                (write_samples events (write_product request.tenant_id now seeded.core));
        }

    module _ (cv : Conversions F) (digest : String → String) where
      -- `none` is an exception of an event that cannot be built.
      unfoldable pub apply_onboarding :
          TenantOnboardingRequest → ℤ → Datetime → Fresh → Tables F N → Option (Tables F N)
      apply_onboarding request today now fresh t = do
        events ← sample_events fl cv digest fresh request.tenant_id request.sample_event_count
        some (write_onboarding request today now events t)

-- The four counts of readiness_check_sql.
pub record Readiness : Type 0 where
  pub tenant_config_exists : ℕ
  pub tenant_users_seeded : ℕ
  pub serving_metrics_seeded : ℕ
  pub raw_events_traceable : ℕ

unfoldable pub readiness : {F N : Type 0} → String → Tables F N → Readiness
readiness tenant_id t = record {
  tenant_config_exists =
      count_rows (λ (r : TenantRow). (r.tenant_id == tenant_id) && r.is_active) t.tenants;
  tenant_users_seeded =
      count_rows (λ (r : UserRow). (r.tenant_id == tenant_id) && r.is_active) t.users;
  serving_metrics_seeded = count_rows (λ r. r.tenant_id == tenant_id) t.core.daily;
  raw_events_traceable =
      count_rows (λ r. (r.tenant_id == tenant_id) && is_some r.correlation_id) t.core.raw_events;
}

-- Whether validate_tenant_readiness says "passed".
unfoldable pub is_ready : Readiness → Bool
is_ready r =
    ltb 0 r.tenant_config_exists
    && ltb 0 r.tenant_users_seeded
    && ltb 0 r.serving_metrics_seeded
    && ltb 0 r.raw_events_traceable
