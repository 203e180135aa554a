-- ===== src/Events/Contracts.antt =====
-- validate_event_payload, event type by event type.
use event_driven_data_platfo.Base.{◌≡◌, refl, true, some, Dict, code_points}
use event_driven_data_platfo.Base.Int.{pos}
use event_driven_data_platfo.Events.Types.{
  EventType, order_created, order_updated, payment_authorized, payment_captured, payment_failed,
  user_signed_up, user_activity, user_churn_signal, product_upserted, product_inventory_changed,
  system_health, system_alert,
}
use event_driven_data_platfo.Events.Values.{
  Json, null, boolean, integer, number, text, Floats, Conversions, ConversionLaws,
}
use event_driven_data_platfo.Events.Payloads.{
  payload_model, validate_value, validate_event_payload, order_payload, payment_payload,
  user_payload, product_payload, system_payload,
}
use event_driven_data_platfo.Events.Validation.{
  HasDistinctNames-of_test, distinct_names, AllFields, ComesFrom, DefaultsAreAccepted,
  validate_model-AllFields, validate_model_total, revalidate_fields,
}

payload_model_distinct :
    (F : Type 0) (e : EventType) → distinct_names (payload_model {F = F} e) ≡ true
unfolding payload_model distinct_names
payload_model_distinct F order_created = refl
payload_model_distinct F order_updated = refl
payload_model_distinct F payment_authorized = refl
payload_model_distinct F payment_captured = refl
payload_model_distinct F payment_failed = refl
payload_model_distinct F user_signed_up = refl
payload_model_distinct F user_activity = refl
payload_model_distinct F user_churn_signal = refl
payload_model_distinct F product_upserted = refl
payload_model_distinct F product_inventory_changed = refl
payload_model_distinct F system_health = refl
payload_model_distinct F system_alert = refl

module _ {F : Type 0} (fl : Floats F) (cv : Conversions F) where
  -- The accepted payload holds every field of the model of its event type.
  pub payload-AllFields :
      (e : EventType) (payload d : Dict (Json F))
      → validate_event_payload fl cv e payload ≡ some d
      → AllFields (ComesFrom fl cv payload) (payload_model e) d
  unfolding validate_event_payload
  payload-AllFields e payload d h =
      validate_model-AllFields fl cv (payload_model e) payload d
        (HasDistinctNames-of_test (payload_model e) (payload_model_distinct F e)) h

  module _ (laws : ConversionLaws F fl cv) where
    order_defaults : DefaultsAreAccepted fl cv order_payload
    unfolding order_payload validate_value code_points
    order_defaults = (
      tt,
      (
        tt,
        (
          tt,
          (
            tt,
            (
              tt,
              (
                (number (fl.of_int (pos 0)), rw (laws.float_of_int, laws.zero_le_zero)),
                (
                  (text "USD", rw laws.text_same),
                  (
                    (text "created", rw laws.text_same),
                    ((text "web", rw laws.text_same), ((null, refl), ((null, refl), tt))),
                  ),
                ),
              ),
            ),
          ),
        ),
      ),
    )

    payment_defaults : DefaultsAreAccepted fl cv payment_payload
    unfolding payment_payload validate_value code_points
    payment_defaults = (
      tt,
      (
        tt,
        (
          tt,
          (
            tt,
            (
              (text "USD", rw laws.text_same),
              (tt, ((text "card", rw laws.text_same), ((null, refl), ((null, refl), tt)))),
            ),
          ),
        ),
      ),
    )

    user_defaults : DefaultsAreAccepted fl cv user_payload
    unfolding user_payload validate_value code_points
    user_defaults = (
      tt,
      (
        tt,
        (
          (null, refl),
          (
            (null, refl),
            (
              (null, refl),
              ((integer (pos 0), rw laws.int_same), ((null, refl), ((null, refl), tt))),
            ),
          ),
        ),
      ),
    )

    product_defaults : DefaultsAreAccepted fl cv product_payload
    unfolding product_payload validate_value code_points
    product_defaults = (
      tt,
      (
        tt,
        (
          tt,
          (
            tt,
            (tt, ((integer (pos 0), rw laws.int_same), ((boolean true, rw laws.bool_same), tt))),
          ),
        ),
      ),
    )

    system_defaults : DefaultsAreAccepted fl cv system_payload
    unfolding system_payload validate_value code_points
    system_defaults = (
      tt,
      (
        tt,
        (
          (null, refl),
          (
            (integer (pos 0), rw laws.int_same),
            ((null, refl), ((null, refl), ((null, refl), ((null, refl), tt)))),
          ),
        ),
      ),
    )

    payload_defaults : (e : EventType) → DefaultsAreAccepted fl cv (payload_model e)
    unfolding payload_model
    payload_defaults order_created = order_defaults
    payload_defaults order_updated = order_defaults
    payload_defaults payment_authorized = payment_defaults
    payload_defaults payment_captured = payment_defaults
    payload_defaults payment_failed = payment_defaults
    payload_defaults user_signed_up = user_defaults
    payload_defaults user_activity = user_defaults
    payload_defaults user_churn_signal = user_defaults
    payload_defaults product_upserted = product_defaults
    payload_defaults product_inventory_changed = product_defaults
    payload_defaults system_health = system_defaults
    payload_defaults system_alert = system_defaults

    -- The payload that a validation returns is accepted by the model of the same event type: a second
    -- validation of it does not fail. Nothing is said of the JSON text between two services. Assumes
    -- that a conversion leaves a value that has the wanted type as it is and turns a whole number into
    -- the float that it is.
    pub validate_event_payload_again :
        (e : EventType) (payload d : Dict (Json F))
        → validate_event_payload fl cv e payload ≡ some d
        → (d' : Dict (Json F)) × (validate_event_payload fl cv e d ≡ some d')
    unfolding validate_event_payload
    validate_event_payload_again e payload d h =
        validate_model_total fl cv laws (payload_model e) d (
          revalidate_fields fl cv laws (payload_model e) payload d (payload_defaults e)
            (payload-AllFields e payload d h))
