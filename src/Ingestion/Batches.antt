-- ===== src/Ingestion/Batches.antt =====
-- What a batch counts and publishes.
use event_driven_data_platfo.Base.{
  ℕ, ◌+◌, ◌≤◌, ◌≡◌, String, Option, none, some, List, [], ◌∷◌, length, if◌then◌else◌, arith,
  Bool-cases, inl, inr, true, sym, refl, ap, ◌∙◌, strip, ◌++◌, append-nil, append_assoc, Every,
  Every-append, length-append,
}
use event_driven_data_platfo.Auth.{TenantPrincipal, can_access}
use event_driven_data_platfo.Events.Values.{Floats, Conversions}
use event_driven_data_platfo.Events.Envelopes.{EventEnvelope, Fresh, build_envelope-IsAccepted}
use event_driven_data_platfo.Publishing.{Metadata}
use event_driven_data_platfo.Ingestion.{
  IngestEventRequest, Ingested, accepted, forbidden, unprocessable, publish_failed,
  BatchIngestResponse, add_result, envelope_input, build_request_envelope, response_of,
  publish_envelope, ingest_event, ingest_batch,
}

-- The requests for a tenant that the principal can access.
unfoldable pub count_accessible :
    {F : Type 0} → TenantPrincipal → List (Fresh × IngestEventRequest F) → ℕ
count_accessible principal [] = 0
count_accessible principal ((fresh, r) ∷ rest) =
    (if can_access principal r.tenant_id then 1 else 0) + count_accessible principal rest

abbrev pub accepted_one : Ingested → ℕ
accepted_one (accepted _) = 1
accepted_one _ = 0

add_result-counts :
    (i : Ingested) (b : BatchIngestResponse)
    → ((add_result i b).accepted_count ≡ accepted_one i + b.accepted_count)
      × ((add_result i b).accepted_count + (add_result i b).failed_count
          ≡ 1 + (b.accepted_count + b.failed_count))
      × (length (add_result i b).results ≡ 1 + length b.results)
unfolding add_result
add_result-counts (accepted r) b = (omega arith, omega arith, omega arith)
add_result-counts forbidden b = (omega arith, omega arith, omega arith)
add_result-counts unprocessable b = (omega arith, omega arith, omega arith)
add_result-counts publish_failed b = (omega arith, omega arith, omega arith)

build_request_envelope-tenant :
    {F : Type 0} (fl : Floats F) (cv : Conversions F) (digest : String → String) (fresh : Fresh)
    (r : IngestEventRequest F) (v : EventEnvelope F)
    → build_request_envelope fl cv digest fresh r ≡ some v
    → v.tenant_id ≡ strip r.tenant_id
unfolding build_request_envelope envelope_input
build_request_envelope-tenant fl cv digest fresh r v h =
    (build_envelope-IsAccepted fl cv fresh (envelope_input fl cv digest r) v h).0

module _ (F : Type 0) (fl : Floats F) (cv : Conversions F) (digest : String → String)
    (publisher : ℕ → EventEnvelope F → Option Metadata) where
  -- An envelope for a tenant that the principal can access, without the space around its name.
  abbrev pub IsForOwn : TenantPrincipal → EventEnvelope F → Type 0
  IsForOwn principal v =
      (tenant : String) × (can_access principal tenant ≡ true) × (v.tenant_id ≡ strip tenant)

  -- The messages that a step adds: all for tenants of the principal, and as many as the bounds say.
  abbrev pub HasHanded :
      TenantPrincipal → List (EventEnvelope F) → ℕ → ℕ → List (EventEnvelope F) → Type 0
  HasHanded principal sent least most after =
      (messages : List (EventEnvelope F)) × (after ≡ sent ++ messages)
      × Every (IsForOwn principal) messages
      × (least ≤ length messages)
      × (length messages ≤ most)

  response-accepted_one :
      (v : EventEnvelope F) (m : Option Metadata)
      → accepted_one (response_of fl cv digest publisher v m) ≤ 1
  unfolding response_of
  response-accepted_one v none = omega arith
  response-accepted_one v (some m) = omega arith

  publish_envelope-HasHanded :
      (principal : TenantPrincipal) (sent : List (EventEnvelope F)) (o : Option (EventEnvelope F))
      (tenant : String)
      → can_access principal tenant ≡ true
      → ((v : EventEnvelope F) → o ≡ some v → v.tenant_id ≡ strip tenant)
      → HasHanded principal sent
          (accepted_one (publish_envelope fl cv digest publisher sent o).0)
          1
          (publish_envelope fl cv digest publisher sent o).1
  unfolding publish_envelope
  publish_envelope-HasHanded principal sent none tenant own same =
      ([], sym (append-nil sent), tt, omega arith, omega arith)
  publish_envelope-HasHanded principal sent (some v) tenant own same = (
    v ∷ [],
    refl,
    ((tenant, own, same v refl), tt),
    response-accepted_one v (publisher (length sent) v),
    omega arith,
  )

  ingest_event-HasHanded :
      (principal : TenantPrincipal) (fresh : Fresh) (sent : List (EventEnvelope F))
      (r : IngestEventRequest F)
      → HasHanded principal sent
          (accepted_one (ingest_event fl cv digest publisher principal fresh sent r).0)
          (if can_access principal r.tenant_id then 1 else 0)
          (ingest_event fl cv digest publisher principal fresh sent r).1
  unfolding ingest_event
  ingest_event-HasHanded principal fresh sent r =
      elim (Bool-cases (can_access principal r.tenant_id)) [
        | inl own ↦ rw own (
            publish_envelope-HasHanded principal sent (build_request_envelope fl cv digest fresh r)
              r.tenant_id own (build_request_envelope-tenant fl cv digest fresh r))
        | inr foreign ↦ rw foreign ([], sym (append-nil sent), tt, omega arith, omega arith)
      ]

  -- Each request of a batch has one result and is counted once, as accepted or as failed.
  pub ingest_batch-counts :
      (principal : TenantPrincipal) (sent : List (EventEnvelope F))
      (requests : List (Fresh × IngestEventRequest F))
      → ((ingest_batch fl cv digest publisher principal sent requests).0.accepted_count
            + (ingest_batch fl cv digest publisher principal sent requests).0.failed_count
          ≡ length requests)
        × (length (ingest_batch fl cv digest publisher principal sent requests).0.results
            ≡ length requests)
  unfolding ingest_batch
  ingest_batch-counts principal sent [] = (omega arith, omega arith)
  ingest_batch-counts principal sent ((fresh, r) ∷ rest) =
      let step = ingest_event fl cv digest publisher principal fresh sent r in
      let (counted, answered) = ingest_batch-counts principal step.1 rest in
      let (one, both, more) =
        add_result-counts step.0 (ingest_batch fl cv digest publisher principal step.1 rest).0 in
      (omega (arith, both, counted), omega (arith, more, answered))

  -- The messages that a batch hands to the broker are all for tenants that the principal can access,
  -- without the space around the tenant's name. There are at least as many as requests that the batch
  -- accepts, and at most as many as its requests for such tenants.
  pub ingest_batch-publishes :
      (principal : TenantPrincipal) (sent : List (EventEnvelope F))
      (requests : List (Fresh × IngestEventRequest F))
      → HasHanded principal sent
          (ingest_batch fl cv digest publisher principal sent requests).0.accepted_count
          (count_accessible principal requests)
          (ingest_batch fl cv digest publisher principal sent requests).1
  unfolding ingest_batch count_accessible
  ingest_batch-publishes principal sent [] =
      ([], sym (append-nil sent), tt, omega arith, omega arith)
  ingest_batch-publishes principal sent ((fresh, r) ∷ rest) =
      let step = ingest_event fl cv digest publisher principal fresh sent r in
      let (first, handed, own, at_least, at_most) = ingest_event-HasHanded principal fresh sent r in
      let (later, handed_later, own_later, more, less) =
        ingest_batch-publishes principal step.1 rest in
      let (one, both, results) =
        add_result-counts step.0 (ingest_batch fl cv digest publisher principal step.1 rest).0 in
      (
        first ++ later,
        handed_later ∙ (ap (λ m. m ++ later) handed ∙ append_assoc sent first later),
        Every-append (IsForOwn principal) first later own own_later,
        omega (arith, one, at_least, more, length-append first later),
        omega (arith, at_most, less, length-append first later),
      )
