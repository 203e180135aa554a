-- ===== src/ProducerSdk.antt =====
-- src/sdk/python/platform_producer/client.py: requests of the producers and their retries. What the
-- HTTP client does with the n-th attempt is a parameter.
pub mod Retries
pub mod Requests
mod Tests
use event_driven_data_platfo.Base.{
  ℕ, zero, suc, ◌+◌, Bool, true, false, not, String, Option, none, some, List, [], ◌∷◌, ◌++ₛ◌, Dict,
  ◌>>=◌, if◌then◌else◌, or_else, ltb, eqb, is_empty, strip,
}
use event_driven_data_platfo.Base.Int.{ℤ}
use event_driven_data_platfo.Events.Types.{event_type, event_value}
use event_driven_data_platfo.Events.Values.{Json, Floats, Conversions}
use event_driven_data_platfo.Events.Payloads.{validate_event_payload}
use event_driven_data_platfo.Events.Identity.{idempotent_event_id}
use event_driven_data_platfo.Events.Envelopes.{Datetime}

-- `str.lower` is a parameter.
unfoldable pub derive_business_idempotency_key :
    (String → String) → String → String → String → String
derive_business_idempotency_key lower source entity_id action =
    lower (strip (source ++ₛ (":" ++ₛ (entity_id ++ₛ (":" ++ₛ action)))))

-- The event type is the text of an EventType or another text.
pub record ProducerEvent (F : Type 0) : Type 0 where
  pub tenant_id : String
  pub event_type_text : String
  pub payload : Dict (Json F)
  pub source_service : String
  pub idempotency_key : String
  pub payload_version : ℤ
  pub event_timestamp : Option Datetime
  pub trace_id : Option String

-- The body of a request.
pub record EventRequest (F : Type 0) : Type 0 where
  pub event_id : String
  pub tenant_id : String
  pub event_type_text : String
  pub source_service : String
  pub idempotency_key : String
  pub payload_version : ℤ
  pub event_timestamp : Datetime
  pub trace_id : Option String
  pub payload : Dict (Json F)

module _ {F : Type 0} (fl : Floats F) (cv : Conversions F) (digest : String → String) where
  -- `to_request`, at the time `now`; `none` is the `ValueError`.
  unfoldable pub to_request : Datetime → ProducerEvent F → Option (EventRequest F)
  to_request now e = do
    kind ← event_type e.event_type_text
    validated_payload ← validate_event_payload fl cv kind e.payload
    some (record {
      event_id = idempotent_event_id digest e.tenant_id kind e.source_service e.idempotency_key;
      tenant_id = e.tenant_id;
      event_type_text = event_value kind;
      source_service = e.source_service;
      idempotency_key = e.idempotency_key;
      payload_version = e.payload_version;
      event_timestamp = or_else e.event_timestamp now;
      trace_id = e.trace_id;
      payload = validated_payload;
    })

  -- `[event.to_request() for event in events]`, each with the time at which it is made
  unfoldable pub to_requests : List (Datetime × ProducerEvent F) → Option (List (EventRequest F))
  to_requests [] = some []
  to_requests ((now, e) ∷ rest) = do
    first ← to_request now e
    others ← to_requests rest
    some (first ∷ others)

-- `_headers`
unfoldable pub headers : Option String → String → String → Dict String
headers none tenant_id user_id = ("X-Tenant-ID", tenant_id) ∷ ("X-User-ID", user_id) ∷ []
headers (some jwt_token) tenant_id user_id =
    if is_empty jwt_token
    then ("X-Tenant-ID", tenant_id) ∷ ("X-User-ID", user_id) ∷ []
    else ("Authorization", "Bearer " ++ₛ jwt_token) ∷ []

-- What becomes of one attempt: a response with its status, or a `TransportError`.
pub data Attempt : Type 0 where
  response : ℕ → Attempt
  transport_error : Attempt

-- What `_request_with_retries` returns or raises; `no_attempt` is the `AssertionError`.
pub data Answer : Type 0 where
  returned : ℕ → Answer
  status_error : ℕ → Answer
  no_transport : Answer
  no_attempt : Answer

-- The answer, the number of requests that were sent, and the time slept in units of
-- `backoff_seconds`.
pub record Called : Type 0 where
  pub answer : Answer
  pub requests : ℕ
  pub waited : ℕ

-- Whether `raise_for_status` raises at a status is a parameter.
module _ (is_error : ℕ → Bool) where
  -- An attempt that the loop may make again.
  unfoldable pub is_retried : Attempt → Bool
  is_retried (response status) = if is_error status then not (ltb status 500) else false
  is_retried transport_error = true

  -- What an attempt comes to when it is the last.
  unfoldable pub answer_of : Attempt → Answer
  answer_of (response status) = if is_error status then status_error status else returned status
  answer_of transport_error = no_transport

  -- After the attempt with a number: a further one if there is one left and this one failed in a
  -- way that may pass.
  unfoldable pub after_attempt : ℕ → ℕ → Attempt → Called → Called
  unfolding is_retried answer_of
  after_attempt attempt zero a later = record {
    answer = answer_of a;
    requests = attempt;
    waited = 0;
  }
  after_attempt attempt (suc left) a later =
      if is_retried a
      then record later { waited = attempt + later.waited }
      else record { answer = answer_of a; requests = attempt; waited = 0 }

  unfoldable pub request_attempts : (ℕ → Attempt) → ℕ → ℕ → Called
  unfolding after_attempt
  request_attempts send zero attempt = record { answer = no_attempt; requests = 0; waited = 0 }
  request_attempts send (suc left) attempt =
      after_attempt attempt left (send attempt) (request_attempts send left (suc attempt))

  unfoldable pub request_with_retries : ℕ → (ℕ → Attempt) → Called
  unfolding request_attempts
  request_with_retries max_retries send = request_attempts send max_retries 1

module _ {F : Type 0} (fl : Floats F) (cv : Conversions F) (digest : String → String) where
  module _ (is_error : ℕ → Bool) (max_retries : ℕ) where
    -- `publish`: nothing is sent of an event that makes no request.
    unfoldable pub publish_event :
        (EventRequest F → ℕ → Attempt) → Datetime → ProducerEvent F → Option Called
    unfolding to_request request_with_retries
    publish_event post now e = do
      request ← to_request fl cv digest now e
      some (request_with_retries is_error max_retries (post request))

    -- `publish_batch`, up to the response: one event that makes no request keeps the others back.
    unfoldable pub publish_batch :
        (List (EventRequest F) → ℕ → Attempt) → List (Datetime × ProducerEvent F) → Option Called
    unfolding to_requests request_with_retries
    publish_batch post events = do
      requests ← to_requests fl cv digest events
      some (request_with_retries is_error max_retries (post requests))

-- `IngestionResult`, without the results themselves
pub record IngestionResult : Type 0 where
  pub accepted : ℕ
  pub failed : ℕ

unfoldable pub ok : IngestionResult → Bool
ok r = eqb r.failed 0
