-- ===== src/Compatibility/Tests.antt =====
-- The comparison at concrete schemas.
use event_driven_data_platfo.Base.{
  inl, inr, ◌≡◌, refl, ◌↔◌, Bool, true, false, String, none, some, [], ◌∷◌, ◌==◌, Dict, IsDict,
  difference, contains, keys, lookup, sorted_set, strip, upper_is,
}
use event_driven_data_platfo.Compatibility.{
  same_type, properties_of, TypeKeyword, named, Property, Schema, denied, allowed, unsaid,
  type_changed, required_added, additional_tightened, compare_backward_compatible,
  check_compatibility,
}
use event_driven_data_platfo.Compatibility.Spec.{IsBackward, compare_backward_compatible_iff}
use event_driven_data_platfo.Compatibility.Instances.{accepts, accepts-new}

abbrev typed : String → Property
typed t = record { type_keyword = named t; other_keywords = [] }

abbrev order_v1 : Schema
order_v1 = record {
  required = some ("order_id" ∷ []);
  properties = some (("order_id", typed "string") ∷ ("quantity", typed "integer") ∷ []);
  additional = unsaid;
  other_keywords = [];
}

-- One optional field more.
abbrev order_v2 : Schema
order_v2 = record {
  required = some ("order_id" ∷ []);
  properties = some (
      ("order_id", typed "string")
      ∷ ("quantity", typed "integer")
      ∷ ("region", typed "string")
      ∷ []);
  additional = allowed;
  other_keywords = [];
}

abbrev order_v3 : Schema
order_v3 = record {
  required = some ("quantity" ∷ "order_id" ∷ []);
  properties = some (("order_id", typed "integer") ∷ ("quantity", typed "integer") ∷ []);
  additional = denied;
  other_keywords = [];
}

order_v1-IsDict : IsDict (properties_of order_v1)
unfolding lookup
order_v1-IsDict = (refl, (refl, tt))

order_v2-IsDict : IsDict (properties_of order_v2)
unfolding lookup
order_v2-IsDict = (refl, (refl, (refl, tt)))

compare_v1_v2 : compare_backward_compatible order_v1 order_v2 ≡ []
unfolding compare_backward_compatible difference contains keys lookup same_type
compare_v1_v2 = refl

compare_v1_v3 :
    check_compatibility order_v1 order_v3 " Backward\n"
    ≡ some (
        additional_tightened
        ∷ required_added ("quantity" ∷ [])
        ∷ type_changed "order_id" (named "string") (named "integer")
        ∷ [])
unfolding check_compatibility compare_backward_compatible difference contains keys lookup same_type
    sorted_set strip upper_is
compare_v1_v3 = refl

unsupported_mode : check_compatibility order_v1 order_v2 "NONE" ≡ none
unfolding check_compatibility strip upper_is
unsupported_mode = refl

compare_backward_compatible_iff_example :
    (compare_backward_compatible order_v1 order_v2 ≡ []) ↔ IsBackward order_v1 order_v2
compare_backward_compatible_iff_example =
    compare_backward_compatible_iff order_v1 order_v2 order_v1-IsDict

IsBackward-v1_v2 : IsBackward order_v1 order_v2
IsBackward-v1_v2 =
    (compare_backward_compatible_iff order_v1 order_v2 order_v1-IsDict).0 compare_v1_v2

compare_v2_v2 : compare_backward_compatible order_v2 order_v2 ≡ []
unfolding compare_backward_compatible difference contains keys lookup same_type
compare_v2_v2 = refl

-- Values that are known by the name of their type.
abbrev has_type : TypeKeyword → String → Bool
has_type (named t) v = t == v
has_type _ v = true

abbrev named_type : Property → String → Bool
named_type p v = has_type p.type_keyword v

abbrev meets_none : String → String → Bool
meets_none t v = false

abbrev any_rest : Dict String → Dict String → Bool
any_rest keywords i = true

abbrev order : Dict String
order = ("order_id", "string") ∷ ("quantity", "integer") ∷ ("note", "string") ∷ []

accepts-order : accepts named_type meets_none any_rest order_v1 order ≡ true
unfolding accepts contains keys lookup
accepts-order = refl

accepts-new_example : accepts named_type meets_none any_rest order_v2 order ≡ true
unfolding lookup
accepts-new_example =
    accepts-new named_type meets_none any_rest order_v1 order_v2 order compare_v1_v2
      (refl, (refl, tt)) refl tt tt (inr refl, (inr refl, (inl refl, tt))) accepts-order

-- A field that the old schema left open and the new one declares may hold what the new type forbids:
-- the comparison reports nothing, and data of the old schema is refused by the new one.
abbrev open_order : Dict String
open_order = ("order_id", "string") ∷ ("region", "integer") ∷ []

declared_later :
    (compare_backward_compatible order_v1 order_v2 ≡ [])
    × (accepts named_type meets_none any_rest order_v1 open_order ≡ true)
    × (accepts named_type meets_none any_rest order_v2 open_order ≡ false)
unfolding accepts contains keys lookup
declared_later = (compare_v1_v2, refl, refl)
