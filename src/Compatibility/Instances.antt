-- ===== src/Compatibility/Instances.antt =====
-- What a compatibility verdict means for data. An instance is a JSON object, a dict from field names
-- to values. What the comparison reads is written out: required fields, which property a field has to
-- meet, and additional properties. What the keywords mean that it does not read (`enum`, `minimum`, …)
-- is a parameter: whether a value meets a property with all its keywords or a schema under
-- `additionalProperties`, and whether an instance meets the other keywords of a document.
use event_driven_data_platfo.Base.{
  ◌≡◌, refl, subst, inl, inr, Bool, true, false, ◌&&◌, String, Option, none, some, List, [], ◌∷◌,
  arith, ◌==◌, eq_iff, eq_refl, Dict, lookup, contains, keys, is_some, Option-cases, and-eq-true,
  Bool-cases, Every, ◌⊎◌, some_inj,
}
use event_driven_data_platfo.Compatibility.{
  Schema, Property, Additional, unsaid, allowed, denied, by_schema, required_of, properties_of,
  is_open, is_closed, compare_backward_compatible,
}
use event_driven_data_platfo.Compatibility.Spec.{IsBackward, IsBackward-of_no_report}
use event_driven_data_platfo.Compatibility.Modes.{IsPlain, same_type_iff}

unfoldable pub all_in : List String → List String → Bool
all_in [] ys = true
all_in (x ∷ xs) ys = contains ys x && all_in xs ys

all_in-contains :
    (xs ys : List String) (f : String)
    → all_in xs ys ≡ true
    → contains xs f ≡ true
    → contains ys f ≡ true
unfolding all_in contains
all_in-contains [] ys f h m = cc
all_in-contains (x ∷ xs) ys f h m =
    let (here, later) = and-eq-true (contains ys x) (all_in xs ys) h in
    elim (Bool-cases (x == f)) [
      | inl e ↦ rw (← (eq_iff x f).0 e) here
      | inr other ↦ all_in-contains xs ys f later (ground arith)
    ]

all_in_of :
    (xs ys : List String)
    → ((f : String) → contains xs f ≡ true → contains ys f ≡ true)
    → all_in xs ys ≡ true
unfolding all_in contains
all_in_of [] ys h = refl
all_in_of (x ∷ xs) ys h = ground (arith, h x, eq_refl x, all_in_of xs ys λ f m. h f (ground arith))

same_property :
    (p q : Property) → p.type_keyword ≡ q.type_keyword → p.other_keywords ≡ q.other_keywords → p ≡ q
same_property p q e f i = record { type_keyword = e i; other_keywords = f i }

-- The properties that both schemas declare have the same keywords beside `type`.
abbrev pub HasKeywordsOf : Property → Option Property → Type 0
HasKeywordsOf p none = Unit
HasKeywordsOf p (some q) = p.other_keywords ≡ q.other_keywords

abbrev pub KeepsKeywords : Schema → Schema → Type 0
KeepsKeywords old new =
    Every (λ entry. HasKeywordsOf entry.1 (lookup entry.0 (properties_of new))) (properties_of old)

Every-lookup :
    (P : String × Property → Type 0) (d : Dict Property) (k : String) (p : Property)
    → Every P d
    → lookup k d ≡ some p
    → P (k, p)
unfolding lookup
Every-lookup P [] k p h e = cc
Every-lookup P ((j, q) ∷ d) k p h e = elim (Bool-cases (j == k)) [
  | inl same ↦
      subst (λ n. P (n, p)) ((eq_iff j k).0 same)
        (subst (λ r. P (j, r)) (some_inj (rw same at e)) h.0)
  | inr other ↦ Every-lookup P d k p h.1 (rw other at e)
]

module _ {V : Type 0} (meets_property : Property → V → Bool) (meets : String → V → Bool)
    (meets_rest : Dict String → Dict V → Bool) where
  unfoldable pub extra_ok : Additional → V → Bool
  extra_ok unsaid v = true
  extra_ok allowed v = true
  extra_ok denied v = false
  extra_ok (by_schema t) v = meets t v

  unfoldable pub value_ok : Additional → Option Property → V → Bool
  unfolding extra_ok
  value_ok a none v = extra_ok a v
  value_ok a (some p) v = meets_property p v

  unfoldable pub values_ok : Schema → Dict V → Bool
  unfolding value_ok
  values_ok s [] = true
  values_ok s ((k, v) ∷ i) = value_ok s.additional (lookup k (properties_of s)) v && values_ok s i

  -- The instance is valid: every required field is there, every field is allowed and meets its
  -- property, and the other keywords of the document are met.
  unfoldable pub accepts : Schema → Dict V → Bool
  unfolding values_ok all_in
  accepts s i = (all_in (required_of s) (keys i) && values_ok s i) && meets_rest s.other_keywords i

  -- Every field of the instance that the new schema declares was declared by the old one.
  abbrev pub UsesOldFields : Schema → Schema → Dict V → Type 0
  UsesOldFields old new i =
      Every
        (λ field.
          (is_some (lookup field.0 (properties_of new)) ≡ false)
          ⊎ (is_some (lookup field.0 (properties_of old)) ≡ true))
        i

  extra_ok-new :
      (a b : Additional) (v : V)
      → IsPlain a
      → IsPlain b
      → (is_open a ≡ true → is_closed b ≡ false)
      → extra_ok a v ≡ true
      → extra_ok b v ≡ true
  unfolding extra_ok
  extra_ok-new denied b v p q h e = cc
  extra_ok-new (by_schema t) b v p q h e = absurd p
  extra_ok-new unsaid b v p q h e = open_ok b q (h refl)
    where
      open_ok : (b : Additional) → IsPlain b → is_closed b ≡ false → extra_ok b v ≡ true
      open_ok unsaid q c = refl
      open_ok allowed q c = refl
      open_ok denied q c = cc
      open_ok (by_schema t) q c = absurd q
  extra_ok-new allowed b v p q h e = open_ok b q (h refl)
    where
      open_ok : (b : Additional) → IsPlain b → is_closed b ≡ false → extra_ok b v ≡ true
      open_ok unsaid q c = refl
      open_ok allowed q c = refl
      open_ok denied q c = cc
      open_ok (by_schema t) q c = absurd q

  module _ (old new : Schema) (plain_old : IsPlain old.additional)
      (plain_new : IsPlain new.additional) (h : IsBackward old new)
      (kept_keywords : KeepsKeywords old new) where
    value_ok-new :
        (k : String) (v : V)
        → (is_some (lookup k (properties_of new)) ≡ false)
          ⊎ (is_some (lookup k (properties_of old)) ≡ true)
        → value_ok old.additional (lookup k (properties_of old)) v ≡ true
        → value_ok new.additional (lookup k (properties_of new)) v ≡ true
    unfolding value_ok
    value_ok-new k v declared e = elim (Option-cases (lookup k (properties_of new))) [
      | inl gone ↦ elim (Option-cases (lookup k (properties_of old))) [
        | inl never ↦ rw gone (
            extra_ok-new old.additional new.additional v plain_old plain_new h.stays_open
              (rw never at e))
        | inr (p, there) ↦ ground (arith, h.keeps_properties k)
      ]
      | inr (q, kept) ↦ elim (Option-cases (lookup k (properties_of old))) [
        | inl never ↦ ground arith
        | inr (p, there) ↦
            let same : p ≡ q =
              same_property p q
                ((same_type_iff p.type_keyword q.type_keyword).0 (h.keeps_types k p q there kept))
                (rw kept at (
                  Every-lookup (λ entry. HasKeywordsOf entry.1 (lookup entry.0 (properties_of new)))
                    (properties_of old) k p kept_keywords there)) in
            rw kept (subst (λ r. meets_property r v ≡ true) same (rw there at e))
      ]
    ]

    values_ok-new :
        (i : Dict V) → UsesOldFields old new i → values_ok old i ≡ true → values_ok new i ≡ true
    unfolding values_ok
    values_ok-new [] u e = refl
    values_ok-new ((k, v) ∷ i) u e =
        let (here, later) =
          and-eq-true (value_ok old.additional (lookup k (properties_of old)) v) (values_ok old i)
            e in
        ground (arith, value_ok-new k v u.0 here, values_ok-new i u.1 later)

  -- Data written against the old schema is valid under the new one, whatever the keywords mean that
  -- the comparison does not read, if compare_backward_compatible reports nothing, those keywords are
  -- the same in both documents and in each property that both declare, neither schema has a schema
  -- under `additionalProperties`, and the data has no field that only the new schema declares.
  pub accepts-new :
      (old new : Schema) (i : Dict V)
      → compare_backward_compatible old new ≡ []
      → KeepsKeywords old new
      → old.other_keywords ≡ new.other_keywords
      → IsPlain old.additional
      → IsPlain new.additional
      → UsesOldFields old new i
      → accepts old i ≡ true
      → accepts new i ≡ true
  unfolding accepts
  accepts-new old new i none_reported kept same p q u e =
      let h = IsBackward-of_no_report old new none_reported in
      let (read, rest) =
        and-eq-true (all_in (required_of old) (keys i) && values_ok old i)
          (meets_rest old.other_keywords i) e in
      let (fields, values) =
        and-eq-true (all_in (required_of old) (keys i)) (values_ok old i) read in
      ground (
        arith,
        subst (λ k. meets_rest k i ≡ true) same rest,
        values_ok-new old new p q h kept i u values,
        all_in_of (required_of new) (keys i)
            λ f m. all_in-contains (required_of old) (keys i) f fields (rw h.same_required m),
      )
