-- ===== src/Compatibility/Modes.antt =====
-- The modes FORWARD and FULL, and chains of changes.
use event_driven_data_platfo.Base.{
  ◌≡◌, refl, ◌∙◌, ◌↔◌, ◌⊎◌, true, false, String, none, some, List, [], ◌∷◌, ◌++◌, arith, eq_iff,
  IsDict, lookup, Option-cases, inl, inr,
}
use event_driven_data_platfo.Compatibility.{
  Schema, Property, TypeKeyword, untyped, named, one_of, Additional, unsaid, allowed, denied,
  by_schema, Incompatibility, properties_of, same_type, same_names, is_open, is_closed,
  compare_backward_compatible, compare_full_compatible, forward_messages,
}
use event_driven_data_platfo.Compatibility.Spec.{IsBackward, compare_backward_compatible_iff}

same_names_iff : (xs ys : List String) → (same_names xs ys ≡ true) ↔ (xs ≡ ys)
unfolding same_names
same_names_iff [] [] = (λ _. refl, λ _. refl)
same_names_iff [] (y ∷ ys) = (λ h. cc, λ h. cc)
same_names_iff (x ∷ xs) [] = (λ h. cc, λ h. cc)
same_names_iff (x ∷ xs) (y ∷ ys) = ground (arith, eq_iff x y, same_names_iff xs ys)

-- The comparison of `type` keywords is equality.
pub same_type_iff : (s t : TypeKeyword) → (same_type s t ≡ true) ↔ (s ≡ t)
unfolding same_type
same_type_iff untyped untyped = (λ _. refl, λ _. refl)
same_type_iff (named s) (named t) = ground (arith, eq_iff s t)
same_type_iff (one_of xs) (one_of ys) = ground (arith, same_names_iff xs ys)
same_type_iff untyped (named t) = (λ h. cc, λ h. cc)
same_type_iff untyped (one_of t) = (λ h. cc, λ h. cc)
same_type_iff (named s) untyped = (λ h. cc, λ h. cc)
same_type_iff (named s) (one_of t) = (λ h. cc, λ h. cc)
same_type_iff (one_of s) untyped = (λ h. cc, λ h. cc)
same_type_iff (one_of s) (named t) = (λ h. cc, λ h. cc)

-- Every schema is a backward compatible change of itself.
pub IsBackward-refl : (s : Schema) → IsBackward s s
IsBackward-refl s = record {
  stays_open = λ h. stays s.additional h;
  same_required = λ f. refl;
  keeps_properties = λ f h. h;
  keeps_types = λ f p q h k. (same_type_iff p.type_keyword q.type_keyword).1 (ground (arith, h, k));
}
  where
    stays : (a : Additional) → is_open a ≡ true → is_closed a ≡ false
    stays unsaid h = refl
    stays allowed h = refl
    stays denied h = cc
    stays (by_schema t) h = refl

-- A schema whose `additionalProperties` is no schema of its own.
abbrev pub IsPlain : Additional → Type 0
IsPlain (by_schema _) = ⊥
IsPlain _ = Unit

still_open : (a : Additional) → IsPlain a → is_closed a ≡ false → is_open a ≡ true
still_open unsaid h k = refl
still_open allowed h k = refl
still_open denied h k = cc
still_open (by_schema t) h k = absurd h

-- Two backward compatible changes in a row are one, if the schema between them says of additional
-- properties no more than whether they are allowed.
pub IsBackward-trans :
    (a b c : Schema) → IsPlain b.additional → IsBackward a b → IsBackward b c → IsBackward a c
IsBackward-trans a b c plain h k = record {
  stays_open = λ o. k.stays_open (still_open b.additional plain (h.stays_open o));
  same_required = λ f. h.same_required f ∙ k.same_required f;
  keeps_properties = λ f m. k.keeps_properties f (h.keeps_properties f m);
  keeps_types = λ f p r hp hr. middle f p r hp hr (Option-cases (lookup f (properties_of b)));
}
  where
    middle :
        (f : String) (p r : Property)
        → lookup f (properties_of a) ≡ some p
        → lookup f (properties_of c) ≡ some r
        → (lookup f (properties_of b) ≡ none)
          ⊎ ((q : Property) × (lookup f (properties_of b) ≡ some q))
        → same_type p.type_keyword r.type_keyword ≡ true
    middle f p r hp hr (inl e) = ground (arith, h.keeps_properties f, e, hp)
    middle f p r hp hr (inr (q, e)) = (same_type_iff p.type_keyword r.type_keyword).1 (
        (same_type_iff p.type_keyword q.type_keyword).0 (h.keeps_types f p q hp e)
        ∙ (same_type_iff q.type_keyword r.type_keyword).0 (k.keeps_types f q r e hr))

forward_messages-nil : (es : List Incompatibility) → (forward_messages [] es ≡ []) ↔ (es ≡ [])
unfolding forward_messages
forward_messages-nil [] = (λ _. refl, λ _. refl)
forward_messages-nil (e ∷ es) = (λ h. cc, λ h. cc)

-- compare_full_compatible reports nothing exactly when neither direction reports anything.
pub compare_full-eq-nil :
    (old new : Schema)
    → (compare_full_compatible old new ≡ [])
      ↔ ((compare_backward_compatible old new ≡ []) × (compare_backward_compatible new old ≡ []))
unfolding compare_full_compatible compare_backward_compatible
compare_full-eq-nil old new =
    full (compare_backward_compatible old new) (compare_backward_compatible new old)
  where
    full :
        (xs ys : List Incompatibility)
        → (xs ++ forward_messages xs ys ≡ []) ↔ ((xs ≡ []) × (ys ≡ []))
    full [] ys = (λ h. (refl, (forward_messages-nil ys).0 h), λ h. (forward_messages-nil ys).1 h.1)
    full (x ∷ xs) ys = (λ h. cc, λ h. cc (h.0))

-- compare_full_compatible reports nothing exactly when the change is backward compatible in both
-- directions, for two schemas in which no property occurs twice.
pub compare_full_compatible_iff :
    (old new : Schema)
    → IsDict (properties_of old)
    → IsDict (properties_of new)
    → (compare_full_compatible old new ≡ []) ↔ (IsBackward old new × IsBackward new old)
compare_full_compatible_iff old new d e = (
  λ h.
      let (a, b) = (compare_full-eq-nil old new).0 h in
      (
        (compare_backward_compatible_iff old new d).0 a,
        (compare_backward_compatible_iff new old e).0 b,
      ),
  λ h. (compare_full-eq-nil old new).1 (
    (compare_backward_compatible_iff old new d).1 (h.0),
    (compare_backward_compatible_iff new old e).1 (h.1),
  ),
)
