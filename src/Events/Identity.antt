-- ===== src/Events/Identity.antt =====
-- idempotent_event_id of services/shared/platform_shared/schemas.py: the id that a producer's
-- idempotency key stands for. The digest, `hashlib.sha256(…).hexdigest()[:32]`, is a parameter.
use Prim.Native.String.{[], ◌∷◌, ◌++◌}
use Prim.Native.Char.{Char, code}
use text.Mathlib.TextLemmas.{
  cons-append, nil-append, head-eq_of_cons-eq, tail-eq_of_cons-eq, append_cancel_left, cons-eq-cons,
}
use event_driven_data_platfo.Base.{
  ◌≡◌, refl, ap, sym, ◌∙◌, Bool, true, ◌&&◌, not, String, strip, eqb, and-eq-true, some_inj, subst,
}
use event_driven_data_platfo.Events.Types.{
  EventType, event_value, event_type, event_type-event_value, order_created, order_updated,
  payment_authorized, payment_captured, payment_failed, user_signed_up, user_activity,
  user_churn_signal, product_upserted, product_inventory_changed, system_health, system_alert,
}

-- `"|".join([tenant_id.strip(), event_type.value, source_service.strip(), idempotency_key.strip()])`
unfoldable pub raw_key : String → EventType → String → String → String
raw_key tenant e source key =
    strip tenant ++ ("|" ++ (event_value e ++ ("|" ++ (strip source ++ ("|" ++ strip key)))))

unfoldable pub idempotent_event_id :
    (String → String) → String → EventType → String → String → String
unfolding raw_key
idempotent_event_id digest tenant e source key = "idem_" ++ digest (raw_key tenant e source key)

-- No "|" in the text.
unfoldable pub has_no_bar : String → Bool
has_no_bar [] = true
has_no_bar (c ∷ s) = not (eqb (code c) b'|') && has_no_bar s

abbrev bar : Char
bar = "|"

bar-append : (x : String) → "|" ++ x ≡ bar ∷ x
bar-append x = cons-append bar [] x ∙ ap (λ s. bar ∷ s) (nil-append x)

no_bar_first : (d : Char) (t : String) → has_no_bar (d ∷ t) ≡ true → bar ≡ d → ⊥
unfolding has_no_bar
no_bar_first d t q e = cc (subst (λ c. (not (eqb (code c) b'|') && has_no_bar t) ≡ true) (sym e) q)

-- Texts without a bar are told from what follows the first bar.
split_at_bar :
    (s t x y : String)
    → has_no_bar s ≡ true
    → has_no_bar t ≡ true
    → s ++ ("|" ++ x) ≡ t ++ ("|" ++ y)
    → (s ≡ t) × (x ≡ y)
unfolding has_no_bar
split_at_bar [] [] x y p q h =
    (refl, append_cancel_left "|" x y (sym (nil-append ("|" ++ x)) ∙ (h ∙ nil-append ("|" ++ y))))
split_at_bar [] (d ∷ t) x y p q h = absurd (
    no_bar_first d t q (
      head-eq_of_cons-eq
        (sym (bar-append x) ∙ (sym (nil-append ("|" ++ x)) ∙ (h ∙ cons-append d t ("|" ++ y))))))
split_at_bar (c ∷ s) [] x y p q h = absurd (
    no_bar_first c s p (
      head-eq_of_cons-eq (
        sym (bar-append y) ∙ (sym (nil-append ("|" ++ y)) ∙ (sym h ∙ cons-append c s ("|" ++ x))))))
split_at_bar (c ∷ s) (d ∷ t) x y p q h =
    let e = sym (cons-append c s ("|" ++ x)) ∙ (h ∙ cons-append d t ("|" ++ y)) in
    let (a, b) =
      split_at_bar s t x y (and-eq-true (not (eqb (code c) b'|')) (has_no_bar s) p).1
        (and-eq-true (not (eqb (code d) b'|')) (has_no_bar t) q).1 (tail-eq_of_cons-eq e) in
    (cons-eq-cons.1 (head-eq_of_cons-eq e, a), b)

event_value_no_bar : (e : EventType) → has_no_bar (event_value e) ≡ true
unfolding has_no_bar event_value
event_value_no_bar order_created = refl
event_value_no_bar order_updated = refl
event_value_no_bar payment_authorized = refl
event_value_no_bar payment_captured = refl
event_value_no_bar payment_failed = refl
event_value_no_bar user_signed_up = refl
event_value_no_bar user_activity = refl
event_value_no_bar user_churn_signal = refl
event_value_no_bar product_upserted = refl
event_value_no_bar product_inventory_changed = refl
event_value_no_bar system_health = refl
event_value_no_bar system_alert = refl

event_value_inj : (d e : EventType) → event_value d ≡ event_value e → d ≡ e
event_value_inj d e h =
    some_inj (sym (event_type-event_value d) ∙ (ap event_type h ∙ event_type-event_value e))

-- Two events with the same raw key have the same tenant, type, source and idempotency key, up to
-- the space around them, if no tenant and no source has a "|" in it.
pub raw_key_inj :
    (tenant tenant' source source' key key' : String) (e e' : EventType)
    → has_no_bar (strip tenant) ≡ true
    → has_no_bar (strip tenant') ≡ true
    → has_no_bar (strip source) ≡ true
    → has_no_bar (strip source') ≡ true
    → raw_key tenant e source key ≡ raw_key tenant' e' source' key'
    → (strip tenant ≡ strip tenant')
      × (e ≡ e')
      × (strip source ≡ strip source')
      × (strip key ≡ strip key')
unfolding raw_key
raw_key_inj t t' s s' k k' e e' bt bt' bs bs' h =
    let (same_tenant, h₁) = split_at_bar (strip t) (strip t') _ _ bt bt' h in
    let (same_type, h₂) =
      split_at_bar (event_value e) (event_value e') _ _ (event_value_no_bar e)
        (event_value_no_bar e') h₁ in
    let (same_source, same_key) =
      split_at_bar (strip s) (strip s') (strip k) (strip k') bs bs' h₂ in
    (same_tenant, event_value_inj e e' same_type, same_source, same_key)
