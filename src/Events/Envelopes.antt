-- ===== src/Events/Envelopes.antt =====
-- EventEnvelope and build_envelope of services/shared/platform_shared/schemas.py. What Python makes
-- up (uuid4, the clock) is an argument.
use event_driven_data_platfo.Base.{
  ◌>>=◌, ℕ, ◌≡◌, refl, Bool, true, ◌&&◌, String, Option, none, some, strip, code_points, leb,
  is_some, or_else, if◌then◌else◌, Dict, is_empty, >>=-eq-some, keep_if, not, Bool-cases, inl, inr,
  some_inj, subst, strip-strip, and-eq-true,
}
use event_driven_data_platfo.Base.Int.{ℤ, pos, leb_ℤ}
use event_driven_data_platfo.Events.Types.{EventType, event_type}
use event_driven_data_platfo.Events.Values.{Json, Floats, Conversions}
use event_driven_data_platfo.Events.Payloads.{validate_event_payload}

-- A `datetime`: microseconds on its own clock since the beginning of year 1, and how far that clock
-- is ahead of UTC, `none` for a naive one.
pub record Datetime : Type 0 where
  pub wall : ℕ
  pub offset : Option ℤ

-- `value.replace(tzinfo=timezone.utc)` where there is no time zone
abbrev pub in_utc : Datetime → Datetime
in_utc d = record d { offset = some (or_else d.offset (pos 0)) }

-- The validator that runs before pydantic's own sees a `datetime` or a text; only the first it
-- completes. Of a text it is given what pydantic reads from it.
pub data TimestampInput : Type 0 where
  instance_of : Datetime → TimestampInput
  written : Option Datetime → TimestampInput

unfoldable pub ensure_timezone : TimestampInput → Option Datetime
ensure_timezone (instance_of d) = some (in_utc d)
ensure_timezone (written o) = o

-- The arguments of the constructor; `none` is a field left out and, of the four fields that allow it,
-- None. An explicit None for event_id, trace_id or event_timestamp, which pydantic refuses, is no such
-- input.
pub record EnvelopeInput (F : Type 0) : Type 0 where
  pub event_id : Option String
  pub tenant_id : String
  pub event_type_text : String
  pub event_timestamp : Option TimestampInput
  pub source_service : String
  pub payload_version : ℤ
  pub payload : Dict (Json F)
  pub trace_id : Option String
  pub correlation_id : Option String
  pub causation_id : Option String
  pub idempotency_key : Option String
  pub schema_ref : Option String

-- A validated envelope.
pub record EventEnvelope (F : Type 0) : Type 0 where
  pub event_id : String
  pub tenant_id : String
  pub kind : EventType
  pub event_timestamp : Datetime
  pub source_service : String
  pub payload_version : ℤ
  pub payload : Dict (Json F)
  pub trace_id : String
  pub correlation_id : Option String
  pub causation_id : Option String
  pub idempotency_key : Option String
  pub schema_ref : Option String

-- What the default factories make.
pub record Fresh : Type 0 where
  pub fresh_event_id : String
  pub fresh_trace_id : String
  pub now : Datetime

abbrev pub strip_option : Option String → Option String
strip_option none = none
strip_option (some s) = some (strip s)

abbrev pub length_within : ℕ → ℕ → String → Bool
length_within lo hi s = leb lo (code_points s) && leb (code_points s) hi

module _ {F : Type 0} (fl : Floats F) (cv : Conversions F) where
  -- The declared bounds of the fields. They are tested before the fields are stripped.
  unfoldable pub within_bounds : EnvelopeInput F → Bool
  within_bounds i =
      length_within 2 80 i.tenant_id
      && (length_within 2 120 i.source_service && leb_ℤ (pos 1) i.payload_version)

  -- `strip_identity_fields` and `validate_payload_contract`
  unfoldable pub completed :
      Fresh → EnvelopeInput F → EventType → Datetime → Dict (Json F) → EventEnvelope F
  completed fresh i e at payload =
      let id = or_else i.event_id fresh.fresh_event_id in
      let trace = or_else (strip_option i.trace_id) fresh.fresh_trace_id in
      record {
        event_id = id;
        tenant_id = strip i.tenant_id;
        kind = e;
        event_timestamp = at;
        source_service = strip i.source_service;
        payload_version = i.payload_version;
        payload = payload;
        trace_id = trace;
        correlation_id = some (or_else (strip_option i.correlation_id) trace);
        causation_id = strip_option i.causation_id;
        idempotency_key = some (or_else (strip_option i.idempotency_key) id);
        schema_ref = i.schema_ref;
      }

  abbrev pub timestamp_or_now : Fresh → Option TimestampInput → Option Datetime
  timestamp_or_now fresh none = some fresh.now
  timestamp_or_now fresh (some t) = ensure_timezone t

  -- `EventEnvelope(…)`; `none` is the `ValidationError`.
  unfoldable pub validate_envelope : Fresh → EnvelopeInput F → Option (EventEnvelope F)
  unfolding within_bounds completed ensure_timezone
  validate_envelope fresh i =
      if within_bounds i
      then (do
        e ← event_type i.event_type_text
        at ← timestamp_or_now fresh i.event_timestamp
        payload ← validate_event_payload fl cv e i.payload
        some (completed fresh i e at payload))
      else none

  abbrev pub non_empty_text : Option String → Option String
  non_empty_text = keep_if (λ s. not (is_empty s))

  -- `build_envelope(…)`: an empty id counts as none.
  unfoldable pub build_envelope : Fresh → EnvelopeInput F → Option (EventEnvelope F)
  unfolding validate_envelope
  build_envelope fresh i = do
    e ← event_type i.event_type_text
    validate_envelope fresh (record i {
      event_id = some (or_else (non_empty_text i.event_id) fresh.fresh_event_id);
      event_timestamp = some (or_else i.event_timestamp (instance_of fresh.now));
      trace_id = some (or_else (non_empty_text i.trace_id) fresh.fresh_trace_id);
    })

  -- What an accepted envelope is: its identity fields are those that were given, without the space
  -- around them, its payload is the validated payload of its event type, and it has a correlation id
  -- and an idempotency key.
  pub record IsAccepted (i : EnvelopeInput F) (v : EventEnvelope F) : Type 0 where
    pub same_kind : event_type i.event_type_text ≡ some v.kind
    pub tenant : v.tenant_id ≡ strip i.tenant_id
    pub tenant_stripped : strip v.tenant_id ≡ v.tenant_id
    pub source : v.source_service ≡ strip i.source_service
    pub version : leb_ℤ (pos 1) v.payload_version ≡ true
    pub contract : validate_event_payload fl cv v.kind i.payload ≡ some v.payload
    pub has_correlation : is_some v.correlation_id ≡ true
    pub has_key : is_some v.idempotency_key ≡ true

  -- An envelope that is accepted is IsAccepted, and its input was within the declared bounds.
  pub validate_envelope-IsAccepted :
      (fresh : Fresh) (i : EnvelopeInput F) (v : EventEnvelope F)
      → validate_envelope fresh i ≡ some v
      → (within_bounds i ≡ true) × IsAccepted i v
  unfolding validate_envelope
  validate_envelope-IsAccepted fresh i v h = elim (Bool-cases (within_bounds i)) [
    | inr out ↦ cc (rw out at h)
    | inl ok ↦
        let (e, pe, h₁) = >>=-eq-some (event_type i.event_type_text) _ (rw ok at h) in
        let (at, pa, h₂) = >>=-eq-some (timestamp_or_now fresh i.event_timestamp) _ h₁ in
        let (p, pp, h₃) = >>=-eq-some (validate_event_payload fl cv e i.payload) _ h₂ in
        (
          ok,
          subst (IsAccepted i) (some_inj h₃) (record {
            same_kind = pe;
            tenant = refl;
            tenant_stripped = strip-strip i.tenant_id;
            source = refl;
            version = (and-eq-true _ _ (and-eq-true _ _ ok).1).1;
            contract = pp;
            has_correlation = refl;
            has_key = refl;
          }),
        )
  ]

  -- build_envelope gives the tenant without the space around it, and a correlation id.
  pub build_envelope-IsAccepted :
      (fresh : Fresh) (i : EnvelopeInput F) (v : EventEnvelope F)
      → build_envelope fresh i ≡ some v
      → (v.tenant_id ≡ strip i.tenant_id) × (is_some v.correlation_id ≡ true)
  unfolding build_envelope
  build_envelope-IsAccepted fresh i v h =
      let (e, _, h₁) = >>=-eq-some (event_type i.event_type_text) _ h in
      let (_, accepted) =
        validate_envelope-IsAccepted fresh
          (record i {
            event_id = some (or_else (non_empty_text i.event_id) fresh.fresh_event_id);
            event_timestamp = some (or_else i.event_timestamp (instance_of fresh.now));
            trace_id = some (or_else (non_empty_text i.trace_id) fresh.fresh_trace_id);
          })
          v h₁ in
      (accepted.tenant, accepted.has_correlation)

  pub validate_envelope_of :
      (fresh : Fresh) (i : EnvelopeInput F) (e : EventType) (at : Datetime) (p : Dict (Json F))
      → within_bounds i ≡ true
      → event_type i.event_type_text ≡ some e
      → timestamp_or_now fresh i.event_timestamp ≡ some at
      → validate_event_payload fl cv e i.payload ≡ some p
      → validate_envelope fresh i ≡ some (completed fresh i e at p)
  unfolding validate_envelope
  validate_envelope_of fresh i e at p ok pe pa pp = rw (ok, pe, pa, pp)

  -- The bounds on the tenant are tested on the text as given: a tenant of 2 to 80 spaces passes, and
  -- the envelope then has the empty tenant. For every accepted envelope, putting such a text for
  -- the tenant gives an accepted envelope of the empty tenant.
  pub blank_tenant_accepted :
      (fresh : Fresh) (i : EnvelopeInput F) (v : EventEnvelope F) (blank : String)
      → validate_envelope fresh i ≡ some v
      → length_within 2 80 blank ≡ true
      → strip blank ≡ ""
      → (w : EventEnvelope F) × (validate_envelope fresh (record i { tenant_id = blank }) ≡ some w)
        × (w.tenant_id ≡ "")
  unfolding validate_envelope
  blank_tenant_accepted fresh i v blank h long blank_is_blank =
      elim (Bool-cases (within_bounds i)) [
        | inr out ↦ cc (rw out at h)
        | inl ok ↦
            let (e, pe, h₁) = >>=-eq-some (event_type i.event_type_text) _ (rw ok at h) in
            let (at, pa, h₂) = >>=-eq-some (timestamp_or_now fresh i.event_timestamp) _ h₁ in
            let (p, pp, h₃) = >>=-eq-some (validate_event_payload fl cv e i.payload) _ h₂ in
            let j : EnvelopeInput F = record i { tenant_id = blank } in
            let rest =
              (and-eq-true (length_within 2 80 i.tenant_id)
                (length_within 2 120 i.source_service && leb_ℤ (pos 1) i.payload_version) ok).1 in
            (
              completed fresh j e at p,
              validate_envelope_of fresh j e at p (rw (long, rest)) pe pa pp,
              blank_is_blank,
            )
      ]
