-- ===== src/Events/Validation.antt =====
-- What validate_model and validate_event_payload return.
use event_driven_data_platfo.Base.{
  ◌≡◌, refl, sym, subst, ◌⊎◌, inl, inr, Bool, true, false, ◌&&◌, not, String, Option, none, some,
  List, [], ◌∷◌, ◌==◌, eq_refl, arith, Dict, lookup, if◌then◌else◌, Bool-cases, some_inj,
}
use event_driven_data_platfo.Base.Int.{ℤ}
use event_driven_data_platfo.Events.Values.{
  Json, null, boolean, integer, number, text, Floats, Conversions, ConversionLaws,
}
use event_driven_data_platfo.Events.Payloads.{
  Kind, text_kind, int_kind, float_kind, bool_kind, FieldSpec, meets_all, convert, checked, is_null,
  map_json, validate_value, validate_field, add_field, validate_model,
}

-- A value of the Python type that a kind of field holds.
abbrev pub HasKind : {F : Type 0} → Kind → Json F → Type 0
HasKind text_kind v = (s : String) × (v ≡ text s)
HasKind int_kind v = (z : ℤ) × (v ≡ integer z)
HasKind {F} float_kind v = (x : F) × (v ≡ number x)
HasKind bool_kind v = (b : Bool) × (v ≡ boolean b)

-- The names of the fields are distinct.
abbrev pub IsFresh : {F : Type 0} → String → List (FieldSpec F) → Type 0
IsFresh n [] = Unit
IsFresh n (spec ∷ specs) = ((n == spec.name) ≡ false) × IsFresh n specs

abbrev pub HasDistinctNames : {F : Type 0} → List (FieldSpec F) → Type 0
HasDistinctNames [] = Unit
HasDistinctNames (spec ∷ specs) = IsFresh spec.name specs × HasDistinctNames specs

-- The same as a test, which runs on a model.
unfoldable pub is_fresh : {F : Type 0} → String → List (FieldSpec F) → Bool
is_fresh n [] = true
is_fresh n (spec ∷ specs) = not (n == spec.name) && is_fresh n specs

unfoldable pub distinct_names : {F : Type 0} → List (FieldSpec F) → Bool
unfolding is_fresh
distinct_names [] = true
distinct_names (spec ∷ specs) = is_fresh spec.name specs && distinct_names specs

IsFresh-of_test :
    {F : Type 0} (n : String) (specs : List (FieldSpec F))
    → is_fresh n specs ≡ true
    → IsFresh n specs
unfolding is_fresh
IsFresh-of_test n [] h = tt
IsFresh-of_test n (spec ∷ specs) h = (ground arith, IsFresh-of_test n specs (ground arith))

pub HasDistinctNames-of_test :
    {F : Type 0} (specs : List (FieldSpec F)) → distinct_names specs ≡ true → HasDistinctNames specs
unfolding distinct_names
HasDistinctNames-of_test [] h = tt
HasDistinctNames-of_test (spec ∷ specs) h =
    (IsFresh-of_test spec.name specs (ground arith), HasDistinctNames-of_test specs (ground arith))

-- Every field of the model is there, with a property of its value.
abbrev pub AllFields :
    {F : Type 0} → (FieldSpec F → Json F → Type 0) → List (FieldSpec F) → Dict (Json F) → Type 0
AllFields P [] d = Unit
AllFields {F} P (spec ∷ specs) d =
    ((v : Json F) × (lookup spec.name d ≡ some v) × P spec v) × AllFields P specs d

module _ {F : Type 0} (P : FieldSpec F → Json F → Type 0) where
  AllFields-cons :
      (n : String) (w : Json F) (specs : List (FieldSpec F)) (d : Dict (Json F))
      → IsFresh n specs
      → AllFields P specs d
      → AllFields P specs ((n, w) ∷ d)
  unfolding lookup
  AllFields-cons n w [] d fresh h = tt
  AllFields-cons n w (spec ∷ specs) d fresh h =
      let ((v, e, p), rest) = h in ((v, rw fresh.0 e, p), AllFields-cons n w specs d fresh.1 rest)

map_json_inv :
    {F A : Type 0} (f : A → Json F) (o : Option A) {w : Json F}
    → map_json f o ≡ some w
    → (a : A) × (w ≡ f a)
map_json_inv f none e = cc
map_json_inv f (some a) e = (a, sym (some_inj e))

module _ {F : Type 0} (fl : Floats F) (cv : Conversions F) where
  -- The value of a field, as a function of the payload it was read from.
  abbrev pub ComesFrom : Dict (Json F) → FieldSpec F → Json F → Type 0
  ComesFrom payload spec v = validate_field fl cv spec (lookup spec.name payload) ≡ some v

  -- An accepted payload holds each field of its model, with the validated value.
  pub validate_model-AllFields :
      (specs : List (FieldSpec F)) (payload d : Dict (Json F))
      → HasDistinctNames specs
      → validate_model fl cv specs payload ≡ some d
      → AllFields (ComesFrom payload) specs d
  unfolding validate_model
  validate_model-AllFields [] payload d distinct e = tt
  validate_model-AllFields (spec ∷ specs) payload d distinct e =
      go (validate_field fl cv spec (lookup spec.name payload)) (validate_model fl cv specs payload)
        d refl refl e (λ r. validate_model-AllFields specs payload r distinct.1)
    where
      go :
          (o : Option (Json F)) (rest : Option (Dict (Json F))) (d : Dict (Json F))
          → validate_field fl cv spec (lookup spec.name payload) ≡ o
          → validate_model fl cv specs payload ≡ rest
          → add_field spec.name o rest ≡ some d
          → ((r : Dict (Json F))
              → validate_model fl cv specs payload ≡ some r
              → AllFields (ComesFrom payload) specs r)
          → AllFields (ComesFrom payload) (spec ∷ specs) d
      go none rest d p q e ih = cc
      go (some v) none d p q e ih = cc
      go (some v) (some r) d p q e ih =
          subst (λ d. AllFields (ComesFrom payload) (spec ∷ specs) d) (some_inj e)
            (
              (v, unfold lookup in (rw (eq_refl spec.name) refl), p),
              AllFields-cons (ComesFrom payload) spec.name v specs r distinct.0 (ih r q),
            )

  -- A default is a value that the field accepts, if it does not stay as it is.
  abbrev pub DefaultIsAccepted : FieldSpec F → Option (Json F) → Type 0
  DefaultIsAccepted spec none = Unit
  DefaultIsAccepted spec (some d) = (w : Json F) × (validate_value fl cv spec d ≡ some w)

  abbrev pub DefaultsAreAccepted : List (FieldSpec F) → Type 0
  DefaultsAreAccepted [] = Unit
  DefaultsAreAccepted (spec ∷ specs) =
      DefaultIsAccepted spec spec.default × DefaultsAreAccepted specs

  default_accepted :
      (spec : FieldSpec F) (o : Option (Json F)) (d : Json F)
      → DefaultIsAccepted spec o
      → o ≡ some d
      → (w : Json F) × (validate_value fl cv spec d ≡ some w)
  default_accepted spec none d h e = cc
  default_accepted spec (some c) d h e =
      subst (λ x. (w : Json F) × (validate_value fl cv spec x ≡ some w)) (some_inj e) h

  convert_kind : (k : Kind) (v w : Json F) → convert fl cv k v ≡ some w → HasKind k w
  unfolding convert
  convert_kind text_kind v w e = map_json_inv text (cv.to_text v) e
  convert_kind int_kind v w e = map_json_inv integer (cv.to_int v) e
  convert_kind float_kind v w e = map_json_inv number (cv.to_float v) e
  convert_kind bool_kind v w e = map_json_inv boolean (cv.to_bool v) e

  -- A given value is accepted as null, where the field allows it, or with the type and within the
  -- constraints of the field.
  pub validate_value_cases :
      (spec : FieldSpec F) (v w : Json F)
      → validate_value fl cv spec v ≡ some w
      → ((spec.nullable ≡ true) × (w ≡ null))
        ⊎ (HasKind spec.kind w × (meets_all fl cv spec.constraints w ≡ true))
  unfolding validate_value
  validate_value_cases spec v w e = go (spec.nullable && is_null v) refl e
    where
      accepted :
          (o : Option (Json F))
          → convert fl cv spec.kind v ≡ o
          → checked fl cv spec.constraints o ≡ some w
          → HasKind spec.kind w × (meets_all fl cv spec.constraints w ≡ true)
      accepted none c e = cc
      accepted (some u) c e = elim (Bool-cases (meets_all fl cv spec.constraints u)) [
        | inl m ↦
            let u_is_w : u ≡ w = some_inj (rw m at e) in
            (
              subst (HasKind spec.kind) u_is_w (convert_kind spec.kind v u c),
              subst (λ x. meets_all fl cv spec.constraints x ≡ true) u_is_w m,
            )
        | inr bad ↦ cc (rw bad at e)
      ]

      go :
          (b : Bool)
          → (spec.nullable && is_null v) ≡ b
          → (if b then some null else checked fl cv spec.constraints (convert fl cv spec.kind v))
            ≡ some w
          → ((spec.nullable ≡ true) × (w ≡ null))
            ⊎ (HasKind spec.kind w × (meets_all fl cv spec.constraints w ≡ true))
      go true n e = inl (ground (arith, n), sym (some_inj e))
      go false n e = inr (accepted (convert fl cv spec.kind v) refl e)

  module _ (laws : ConversionLaws F fl cv) where
    convert-HasKind : (k : Kind) (w : Json F) → HasKind k w → convert fl cv k w ≡ some w
    unfolding convert
    convert-HasKind text_kind w (s, e) = rw (e, laws.text_same)
    convert-HasKind int_kind w (z, e) = rw (e, laws.int_same)
    convert-HasKind float_kind w (x, e) = rw (e, laws.float_same)
    convert-HasKind bool_kind w (b, e) = rw (e, laws.bool_same)

    HasKind-is_null : (k : Kind) (w : Json F) → HasKind k w → is_null w ≡ false
    HasKind-is_null text_kind w (s, e) = rw e
    HasKind-is_null int_kind w (z, e) = rw e
    HasKind-is_null float_kind w (x, e) = rw e
    HasKind-is_null bool_kind w (b, e) = rw e

    -- What was accepted once is accepted again, unchanged.
    validate_value_idem :
        (spec : FieldSpec F) (v w : Json F)
        → validate_value fl cv spec v ≡ some w
        → validate_value fl cv spec w ≡ some w
    unfolding validate_value
    validate_value_idem spec v w e = elim (validate_value_cases spec v w e) [
      | inl (n, e') ↦ rw (e', n)
      | inr (k, m) ↦
          rw (HasKind-is_null spec.kind w k, convert-HasKind spec.kind w k) (ground (arith, m))
    ]

    revalidate_field :
        (spec : FieldSpec F) (o : Option (Json F)) (v : Json F)
        → DefaultIsAccepted spec spec.default
        → validate_field fl cv spec o ≡ some v
        → (w : Json F) × (validate_value fl cv spec v ≡ some w)
    unfolding validate_field
    revalidate_field spec none v ok e = default_accepted spec spec.default v ok e
    revalidate_field spec (some u) v ok e = (v, validate_value_idem spec u v e)

    -- A payload that holds every field, each of them acceptable, is accepted.
    pub validate_model_total :
        (specs : List (FieldSpec F)) (payload : Dict (Json F))
        → AllFields (λ spec v. (w : Json F) × (validate_value fl cv spec v ≡ some w)) specs payload
        → (d : Dict (Json F)) × (validate_model fl cv specs payload ≡ some d)
    unfolding validate_model validate_field
    validate_model_total [] payload h = ([], refl)
    validate_model_total (spec ∷ specs) payload h =
        let ((v, e, (w, r)), rest) = h in
        let (d, q) = validate_model_total specs payload rest in
        ((spec.name, w) ∷ d, rw (e, r, q) refl)

    pub revalidate_fields :
        (specs : List (FieldSpec F)) (payload d : Dict (Json F))
        → DefaultsAreAccepted specs
        → AllFields (ComesFrom payload) specs d
        → AllFields (λ spec v. (w : Json F) × (validate_value fl cv spec v ≡ some w)) specs d
    revalidate_fields [] payload d ok h = tt
    revalidate_fields (spec ∷ specs) payload d ok h =
        let ((v, e, c), rest) = h in
        (
          (v, e, revalidate_field spec (lookup spec.name payload) v ok.0 c),
          revalidate_fields specs payload d ok.1 rest,
        )
