-- ===== src/Compatibility/Spec.antt =====
-- compare_backward_compatible: when it reports nothing.
use event_driven_data_platfo.Base.{
  ◌≡◌, refl, ◌↔◌, true, false, String, Option, none, some, List, [], ◌∷◌, ◌++◌, arith, ◌==◌, eq_iff,
  eq_refl, difference-eq-nil, Dict, lookup, keys, contains, difference, is_some, contains-keys,
  IsDict, Bool-cases, inl, inr,
}
use event_driven_data_platfo.Compatibility.{
  Property, Additional, Schema, Incompatibility, required_of, properties_of, required_removed,
  required_added, properties_removed, is_open, is_closed, same_type, report, report_tightened,
  report_type, type_changes, compare_backward_compatible,
}

-- What a backward compatible change may not do, keyword by keyword.
pub record IsBackward (old new : Schema) : Type 0 where
  pub stays_open : is_open old.additional ≡ true → is_closed new.additional ≡ false
  pub same_required : (f : String) → contains (required_of old) f ≡ contains (required_of new) f
  pub keeps_properties :
      (f : String)
      → is_some (lookup f (properties_of old)) ≡ true
      → is_some (lookup f (properties_of new)) ≡ true
  pub keeps_types :
      (f : String) (p q : Property)
      → lookup f (properties_of old) ≡ some p
      → lookup f (properties_of new) ≡ some q
      → same_type p.type_keyword q.type_keyword ≡ true

append-eq-nil {ℓ} : {A : Type ℓ} (xs ys : List A) → xs ++ ys ≡ [] → (xs ≡ []) × (ys ≡ [])
append-eq-nil [] ys h = (refl, h)
append-eq-nil (x ∷ xs) ys h = cc

report-eq-nil :
    (m : List String → Incompatibility) (xs : List String) → (report m xs ≡ []) ↔ (xs ≡ [])
unfolding report
report-eq-nil m [] = (λ _. refl, λ _. refl)
report-eq-nil m (x ∷ xs) = (λ e. cc, λ e. cc)

report_tightened-eq-nil :
    (a b : Additional) → (report_tightened a b ≡ []) ↔ (is_open a ≡ true → is_closed b ≡ false)
unfolding report_tightened
report_tightened-eq-nil a b = ground arith

report_type-eq-nil :
    (f : String) (p : Property) (o : Option Property)
    → (report_type f p o ≡ [])
      ↔ ((q : Property) → o ≡ some q → same_type p.type_keyword q.type_keyword ≡ true)
unfolding report_type
report_type-eq-nil f p none = (λ e q h. cc, λ h. refl)
report_type-eq-nil f p (some r) = (λ e q h. ground arith, λ h. ground (arith, h r refl))

SameTypes : Dict Property → Dict Property → Type 0
SameTypes old new =
    (f : String) (p q : Property)
    → lookup f old ≡ some p
    → lookup f new ≡ some q
    → same_type p.type_keyword q.type_keyword ≡ true

type_changes-eq-nil : (old new : Dict Property) → type_changes old new ≡ [] → SameTypes old new
unfolding type_changes lookup SameTypes
type_changes-eq-nil [] new e f p q h k = cc
type_changes-eq-nil ((name, r) ∷ old) new e f p q h k =
    let (here, later) =
      append-eq-nil (report_type name r (lookup name new)) (type_changes old new) e in
    elim (Bool-cases (name == f)) [
      | inl same ↦
          ground (arith, eq_iff name f, (report_type-eq-nil name r (lookup name new)).0 here q)
      | inr other ↦ type_changes-eq-nil old new later f p q (ground arith) k
    ]

-- The loop looks at each entry, the predicate at each key: they agree where no key occurs twice.
type_changes-eq-nil_of :
    (old new : Dict Property) → IsDict old → SameTypes old new → type_changes old new ≡ []
unfolding type_changes lookup SameTypes
type_changes-eq-nil_of [] new d h = refl
type_changes-eq-nil_of ((name, r) ∷ old) new (fresh, d) h = ground (
  arith,
  (report_type-eq-nil name r (lookup name new)).1 (λ q. h name r q (rw eq_refl refl)),
  type_changes-eq-nil_of old new d λ f p q k. h f p q (ground (arith, eq_iff name f)),
)

sub-of-eq-nil :
    (m : List String → Incompatibility) (xs ys : List String)
    → report m (difference xs ys) ≡ []
    → (s : String) → contains xs s ≡ true
    → contains ys s ≡ true
sub-of-eq-nil m xs ys e = (difference-eq-nil xs ys).0 ((report-eq-nil m (difference xs ys)).0 e)

five-eq-nil {ℓ} :
    {A : Type ℓ} (a b c d e : List A)
    → (a ++ (b ++ (c ++ (d ++ e))) ≡ []) ↔ ((a ≡ []) × (b ≡ []) × (c ≡ []) × (d ≡ []) × (e ≡ []))
five-eq-nil [] [] [] [] e = (λ h. (refl, refl, refl, refl, h), λ h. h.4)
five-eq-nil (x ∷ a) b c d e = (λ h. cc, λ h. cc (h.0))
five-eq-nil [] (x ∷ b) c d e = (λ h. cc, λ h. cc (h.1))
five-eq-nil [] [] (x ∷ c) d e = (λ h. cc, λ h. cc (h.2))
five-eq-nil [] [] [] (x ∷ d) e = (λ h. cc, λ h. cc (h.3))

module _ (old new : Schema) where
  report_parts : (compare_backward_compatible old new ≡ []) ↔ (
      (report_tightened old.additional new.additional ≡ [])
      × (report required_removed (difference (required_of old) (required_of new)) ≡ [])
      × (report required_added (difference (required_of new) (required_of old)) ≡ [])
      × (report properties_removed
            (difference (keys (properties_of old)) (keys (properties_of new)))
          ≡ [])
      × (type_changes (properties_of old) (properties_of new) ≡ []))
  unfolding compare_backward_compatible
  report_parts =
      five-eq-nil (report_tightened old.additional new.additional)
        (report required_removed (difference (required_of old) (required_of new)))
        (report required_added (difference (required_of new) (required_of old)))
        (report properties_removed
          (difference (keys (properties_of old)) (keys (properties_of new))))
        (type_changes (properties_of old) (properties_of new))

  pub IsBackward-of_no_report : compare_backward_compatible old new ≡ [] → IsBackward old new
  unfolding SameTypes
  IsBackward-of_no_report e =
      let parts = report_parts.0 e in
      record {
        stays_open = (report_tightened-eq-nil old.additional new.additional).0 parts.0;
        same_required = λ f. ground (
          arith,
          sub-of-eq-nil required_removed (required_of old) (required_of new) parts.1 f,
          sub-of-eq-nil required_added (required_of new) (required_of old) parts.2 f,
        );
        keeps_properties = λ f. ground (
          arith,
          contains-keys (properties_of old) f,
          contains-keys (properties_of new) f,
          sub-of-eq-nil properties_removed (keys (properties_of old)) (keys (properties_of new))
              parts.3 f,
        );
        keeps_types = type_changes-eq-nil (properties_of old) (properties_of new) parts.4;
      }

  no_report_of_IsBackward :
      IsDict (properties_of old) → IsBackward old new → compare_backward_compatible old new ≡ []
  unfolding SameTypes
  no_report_of_IsBackward d h = report_parts.1 (
    (report_tightened-eq-nil old.additional new.additional).1 h.stays_open,
    (report-eq-nil required_removed _).1 (
        (difference-eq-nil (required_of old) (required_of new)).1
          (λ f m. rw (← h.same_required f) m)),
    (report-eq-nil required_added _).1 (
        (difference-eq-nil (required_of new) (required_of old)).1
          (λ f m. rw (h.same_required f) m)),
    (report-eq-nil properties_removed _).1 (
        (difference-eq-nil (keys (properties_of old)) (keys (properties_of new))).1
          (λ f m. rw contains-keys (h.keeps_properties f (rw contains-keys at m)))),
    type_changes-eq-nil_of (properties_of old) (properties_of new) d h.keeps_types,
  )

-- compare_backward_compatible reports nothing exactly when the change is backward compatible:
-- additional properties are not closed off, the required fields are the same, every property stays
-- and keeps its type. (The properties of the old schema are a dict: no name occurs twice.)
pub compare_backward_compatible_iff :
    (old new : Schema)
    → IsDict (properties_of old)
    → (compare_backward_compatible old new ≡ []) ↔ IsBackward old new
compare_backward_compatible_iff old new d =
    (IsBackward-of_no_report old new, no_report_of_IsBackward old new d)
