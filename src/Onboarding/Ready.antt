-- ===== src/Onboarding/Ready.antt =====
-- The readiness of a tenant that tenant_onboarding.py has written.
use event_driven_data_platfo.Base.{
  ℕ, suc, Bool, true, false, ◌&&◌, ◌≡◌, refl, ◌∙◌, subst, String, some, List, [], ◌∷◌, ◌==◌,
  Bool-cases, inl, inr, arith, ltb, is_some, and-eq-true, strip, eq_refl, >>=-eq-some, insert, Dict,
}
use event_driven_data_platfo.Base.Int.{ℤ}
use event_driven_data_platfo.Events.Values.{Floats, Conversions}
use event_driven_data_platfo.Events.Envelopes.{
  Datetime, EventEnvelope, Fresh, build_envelope-IsAccepted,
}
use event_driven_data_platfo.Processing.Tables.{Db, RawRow, Numeric, upsert, insert_new, any}
use event_driven_data_platfo.Processing.Repository.{raw_row}
use event_driven_data_platfo.Onboarding.{
  TenantOnboardingRequest, TenantUserSpec, TenantRow, UserRow, Tables, count_rows, write_tenant,
  write_user, write_users, write_sample, write_samples, write_product, write_metrics,
  write_onboarding, default_users, apply_onboarding, readiness, is_ready, Readiness,
}
use event_driven_data_platfo.Onboarding.Samples.{
  Definition, sample_events, sample_event, build_samples, stable_event_id,
}

ltb-suc : (n : ℕ) → ltb 0 (suc n) ≡ true
ltb-suc n = ground arith

module _ {R : Type 0} (test : R → Bool) where
  count_rows-first : (r : R) (rs : List R) → test r ≡ true → ltb 0 (count_rows test (r ∷ rs)) ≡ true
  unfolding count_rows
  count_rows-first r rs e = rw e (ltb-suc (count_rows test rs))

  count_rows-rest :
      (r : R) (rs : List R)
      → ltb 0 (count_rows test rs) ≡ true
      → ltb 0 (count_rows test (r ∷ rs)) ≡ true
  unfolding count_rows
  count_rows-rest r rs e = elim (Bool-cases (test r)) [
    | inl hit ↦ count_rows-first r rs hit
    | inr miss ↦ rw miss e
  ]

  -- A row that passes is counted after the statement, whether it is inserted or changed.
  count_rows-upsert :
      (same : R → Bool) (change : R → R) (row : R)
      → test row ≡ true
      → ((r : R) → same r ≡ true → test (change r) ≡ true)
      → (rows : List R) → ltb 0 (count_rows test (upsert same change row rows)) ≡ true
  unfolding upsert
  count_rows-upsert same change row e f [] = count_rows-first row [] e
  count_rows-upsert same change row e f (r ∷ rs) = elim (Bool-cases (same r)) [
    | inl hit ↦ rw hit (count_rows-first (change r) rs (f r hit))
    | inr miss ↦
        rw miss
          (count_rows-rest r (upsert same change row rs) (count_rows-upsert same change row e f rs))
  ]

  count_rows-insert_new :
      (same : R → Bool) (row : R) (rows : List R)
      → ltb 0 (count_rows test rows) ≡ true
      → ltb 0 (count_rows test (insert_new same row rows).1) ≡ true
  unfolding insert_new
  count_rows-insert_new same row rows e = elim (Bool-cases (any same rows)) [
    | inl hit ↦ rw hit e
    | inr miss ↦ rw miss (count_rows-rest row rows e)
  ]

abbrev is_traced : {F : Type 0} → String → RawRow F → Bool
is_traced tenant_id r = (r.tenant_id == tenant_id) && is_some r.correlation_id

module _ {F N : Type 0} (tenant_id : String) where
  write_samples-keeps :
      (events : List (EventEnvelope F)) (db : Db F N)
      → ltb 0 (count_rows (is_traced tenant_id) db.raw_events) ≡ true
      → ltb 0 (count_rows (is_traced tenant_id) (write_samples events db).raw_events) ≡ true
  unfolding write_samples write_sample
  write_samples-keeps [] db e = e
  write_samples-keeps (v ∷ rest) db e = write_samples-keeps rest (write_sample v db) (
      count_rows-insert_new (is_traced tenant_id) (λ r. r.event_id == v.event_id) (raw_row v)
        db.raw_events e)

  write_samples-first :
      (v : EventEnvelope F) (rest : List (EventEnvelope F)) (db : Db F N)
      → is_traced tenant_id (raw_row v) ≡ true
      → any (λ r. r.event_id == v.event_id) db.raw_events ≡ false
      → ltb 0 (count_rows (is_traced tenant_id) (write_samples (v ∷ rest) db).raw_events) ≡ true
  unfolding write_samples write_sample insert_new
  write_samples-first v rest db e new =
      write_samples-keeps rest (write_sample v db)
        (rw new (count_rows-first (is_traced tenant_id) (raw_row v) db.raw_events e))

raw_row-is_traced :
    {F : Type 0} (tenant_id : String) (v : EventEnvelope F)
    → v.tenant_id ≡ tenant_id
    → is_some v.correlation_id ≡ true
    → is_traced tenant_id (raw_row v) ≡ true
raw_row-is_traced tenant_id v here correlated = rw here (rw (eq_refl tenant_id) correlated)

module _ {F : Type 0} (fl : Floats F) (cv : Conversions F) where
  module _ (digest : String → String) (fresh : Fresh) (tenant_id : String) where
    build_samples-first :
        (ds : List (Definition F)) (ids : Dict String) (v : EventEnvelope F)
        (vs : List (EventEnvelope F))
        → strip tenant_id ≡ tenant_id
        → build_samples fl cv digest fresh tenant_id ds ids ≡ some (v ∷ vs)
        → is_traced tenant_id (raw_row v) ≡ true
    unfolding build_samples sample_event
    build_samples-first [] ids v vs stripped h = cc
    build_samples-first (d ∷ rest) ids v vs stripped h =
        let known = insert d.key (stable_event_id fl cv digest fresh tenant_id d.kind d.key) ids in
        let (v', made, h₁) = >>=-eq-some (sample_event fl cv digest fresh tenant_id d known) _ h in
        let (others, _, h₂) =
          >>=-eq-some (build_samples fl cv digest fresh tenant_id rest known) _ h₁ in
        let same : v' ≡ v = cc in
        let (tenant, correlated) = build_envelope-IsAccepted fl cv fresh _ v' made in
        subst (λ w. is_traced tenant_id (raw_row w) ≡ true) same
          (raw_row-is_traced tenant_id v' (tenant ∙ stripped) correlated)

module _ {F N : Type 0} (request : TenantOnboardingRequest) (t : Tables F N) where
  core-write_tenant : (write_tenant request t).core ≡ t.core
  unfolding write_tenant
  core-write_tenant = refl

  tenant_config-exists :
      ltb 0 (readiness request.tenant_id (write_tenant request t)).tenant_config_exists ≡ true
  unfolding readiness write_tenant
  tenant_config-exists =
      count_rows-upsert (λ (r : TenantRow). (r.tenant_id == request.tenant_id) && r.is_active) _ _ _
        (rw (eq_refl request.tenant_id) refl) (λ r same. rw same refl) t.tenants

module _ {F N : Type 0} where
  user-seeded :
      (tenant_id : String) (user : TenantUserSpec) (u : Tables F N)
      → ltb 0 (readiness tenant_id (write_user tenant_id user u)).tenant_users_seeded ≡ true
  unfolding readiness write_user
  user-seeded tenant_id user u =
      count_rows-upsert (λ (r : UserRow). (r.tenant_id == tenant_id) && r.is_active)
        (λ r. (r.tenant_id == tenant_id) && (r.user_id == user.user_id))
        (λ r. record r { email = user.email; role = user.role; is_active = true }) _
        (rw (eq_refl tenant_id) refl)
        (λ r same.
          let (here, _) = and-eq-true (r.tenant_id == tenant_id) (r.user_id == user.user_id) same in
          rw here refl)
        u.users

  users-seeded :
      (tenant_id : String) (first : TenantUserSpec) (rest : List TenantUserSpec) (u : Tables F N)
      → ltb 0 (readiness tenant_id (write_users tenant_id (first ∷ rest) u)).tenant_users_seeded
        ≡ true
  unfolding write_users
  users-seeded tenant_id first [] u = user-seeded tenant_id first u
  users-seeded tenant_id first (next ∷ rest) u =
      users-seeded tenant_id next rest (write_user tenant_id first u)

module _ {F N : Type 0} (fl : Floats F) (sql : Numeric F N) (tenant_id : String) where
  metrics-seeded :
      (today : ℤ) (events : ℕ) (db : Db F N)
      → ltb 0 (
          count_rows
            (λ r. r.tenant_id == tenant_id)
            (write_metrics fl sql tenant_id today events db).daily)
        ≡ true
  unfolding write_metrics
  metrics-seeded today events db =
      count_rows-upsert (λ r. r.tenant_id == tenant_id) _ _ _ (eq_refl tenant_id)
        (λ r same. (and-eq-true _ _ same).0) db.daily

default_users-seeded :
    {F N : Type 0} (tenant_id : String) (u : Tables F N)
    → ltb 0
        (readiness tenant_id
          (write_users tenant_id (default_users tenant_id) u)).tenant_users_seeded
      ≡ true
unfolding default_users
default_users-seeded tenant_id u = users-seeded tenant_id _ _ u

all-four :
    (r : Readiness)
    → ltb 0 r.tenant_config_exists ≡ true
    → ltb 0 r.tenant_users_seeded ≡ true
    → ltb 0 r.serving_metrics_seeded ≡ true
    → ltb 0 r.raw_events_traceable ≡ true
    → is_ready r ≡ true
unfolding is_ready
all-four r a b c d = rw a (rw b (rw c d))

module _ {F N : Type 0} (fl : Floats F) (sql : Numeric F N) where
  write_onboarding-is_ready :
      (request : TenantOnboardingRequest) (today : ℤ) (now : Datetime) (v : EventEnvelope F)
      (others : List (EventEnvelope F)) (t : Tables F N)
      → is_traced request.tenant_id (raw_row v) ≡ true
      → any (λ r. r.event_id == v.event_id) t.core.raw_events ≡ false
      → is_ready
          (readiness request.tenant_id (write_onboarding fl sql request today now (v ∷ others) t))
        ≡ true
  unfolding write_onboarding readiness write_users write_user write_product write_metrics
      default_users
  write_onboarding-is_ready request today now v others t traced new =
      let id = request.tenant_id in
      let seeded = write_users id (default_users id) (write_tenant request t) in
      all-four (readiness id (write_onboarding fl sql request today now (v ∷ others) t))
        (tenant_config-exists request t) (default_users-seeded id (write_tenant request t))
        (metrics-seeded fl sql id today _
          (write_samples (v ∷ others) (write_product fl sql id now seeded.core)))
        (write_samples-first id v others (write_product fl sql id now seeded.core) traced
          (rw (core-write_tenant request t) new))

module _ {F N : Type 0} (fl : Floats F) (sql : Numeric F N) (cv : Conversions F)
    (digest : String → String) where
  -- When the space around the tenant's name is none, at least one sample event is asked for, it can be
  -- built, and no raw event has the id of the first, then apply_onboarding answers and every check of
  -- the tenant's readiness passes, whatever the tables held.
  pub apply_onboarding-is_ready :
      (request : TenantOnboardingRequest) (today : ℤ) (now : Datetime) (fresh : Fresh)
      (t : Tables F N) (v : EventEnvelope F) (others : List (EventEnvelope F))
      → strip request.tenant_id ≡ request.tenant_id
      → sample_events fl cv digest fresh request.tenant_id request.sample_event_count
        ≡ some (v ∷ others)
      → any (λ r. r.event_id == v.event_id) t.core.raw_events ≡ false
      → (t' : Tables F N) × (apply_onboarding fl sql cv digest request today now fresh t ≡ some t')
        × (is_ready (readiness request.tenant_id t') ≡ true)
  unfolding apply_onboarding sample_events
  apply_onboarding-is_ready request today now fresh t v others stripped built new = (
    write_onboarding fl sql request today now (v ∷ others) t,
    rw built refl,
    write_onboarding-is_ready fl sql request today now v others t
        (build_samples-first fl cv digest fresh request.tenant_id _ _ v others stripped built) new,
  )
