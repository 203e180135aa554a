-- ===== src/Compatibility.antt =====
-- services/shared/platform_shared/schema_compatibility.py: the comparison of two JSON Schema
-- documents that both the registry service and the offline governance script run. A document is
-- the record of the keywords that the comparison reads; all other keywords are kept as text, which
-- only the equality of documents reads. Documents on which the Python code raises have no such record: a
-- property schema that is a Boolean, and `required` or `properties` of another type than their own.
pub mod Spec
pub mod Modes
pub mod Instances
mod Tests
use event_driven_data_platfo.Base.{
  Bool, true, false, ◌&&◌, ◌||◌, String, Option, none, some, List, [], ◌∷◌, ◌++◌, ◌==◌, Dict,
  lookup, keys, difference, sorted_set, or_else, if◌then◌else◌, strip, upper_is,
}

-- The keyword `type` of a property: absent, a name, or a list of names.
pub data TypeKeyword : Type 0 where
  untyped : TypeKeyword
  named : String → TypeKeyword
  one_of : List String → TypeKeyword

pub record Property : Type 0 where
  pub type_keyword : TypeKeyword
  pub other_keywords : Dict String

-- The keyword `additionalProperties`: absent, a Boolean, or a schema.
pub data Additional : Type 0 where
  unsaid : Additional
  allowed : Additional
  denied : Additional
  by_schema : String → Additional

pub record Schema : Type 0 where
  pub required : Option (List String)
  pub properties : Option (Dict Property)
  pub additional : Additional
  pub other_keywords : Dict String

-- `schema.get("required", [])` and `schema.get("properties", {})`
abbrev pub required_of : Schema → List String
required_of s = or_else s.required []

abbrev pub properties_of : Schema → Dict Property
properties_of s = or_else s.properties []

-- `schema.get("additionalProperties", True) is True`, and the same with `is False`
abbrev pub is_open : Additional → Bool
is_open unsaid = true
is_open allowed = true
is_open denied = false
is_open (by_schema _) = false

abbrev pub is_closed : Additional → Bool
is_closed denied = true
is_closed _ = false

unfoldable pub same_names : List String → List String → Bool
same_names [] [] = true
same_names [] (_ ∷ _) = false
same_names (_ ∷ _) [] = false
same_names (x ∷ xs) (y ∷ ys) = (x == y) && same_names xs ys

-- `old_type == new_type`
unfoldable pub same_type : TypeKeyword → TypeKeyword → Bool
unfolding same_names
same_type untyped untyped = true
same_type (named s) (named t) = s == t
same_type (one_of xs) (one_of ys) = same_names xs ys
same_type _ _ = false

-- The messages, each by what it reports. `forward e` is the message `e` behind "(forward) ".
pub data Incompatibility : Type 0 where
  additional_tightened : Incompatibility
  required_removed : List String → Incompatibility
  required_added : List String → Incompatibility
  properties_removed : List String → Incompatibility
  type_changed : String → TypeKeyword → TypeKeyword → Incompatibility
  forward : Incompatibility → Incompatibility

unfoldable pub same_message : Incompatibility → Incompatibility → Bool
unfolding same_names same_type
same_message additional_tightened additional_tightened = true
same_message (required_removed xs) (required_removed ys) = same_names xs ys
same_message (required_added xs) (required_added ys) = same_names xs ys
same_message (properties_removed xs) (properties_removed ys) = same_names xs ys
same_message (type_changed m s t) (type_changed n u v) = (m == n) && same_type s u && same_type t v
same_message (forward e) (forward f) = same_message e f
same_message _ _ = false

-- One message where the set of fields is not empty.
unfoldable pub report : (List String → Incompatibility) → List String → List Incompatibility
report message [] = []
report message (x ∷ xs) = message (sorted_set (x ∷ xs)) ∷ []

unfoldable pub report_tightened : Additional → Additional → List Incompatibility
report_tightened old new = if is_open old && is_closed new then additional_tightened ∷ [] else []

unfoldable pub report_type : String → Property → Option Property → List Incompatibility
report_type name old none = []
report_type name old (some new) =
    if same_type old.type_keyword new.type_keyword
    then []
    else type_changed name old.type_keyword new.type_keyword ∷ []

-- The loop over `old_properties.items()`.
unfoldable pub type_changes : Dict Property → Dict Property → List Incompatibility
type_changes [] new = []
type_changes ((name, old) ∷ rest) new =
    report_type name old (lookup name new) ++ type_changes rest new

unfoldable pub compare_backward_compatible : Schema → Schema → List Incompatibility
unfolding report report_tightened report_type type_changes
compare_backward_compatible old new =
    report_tightened old.additional new.additional
    ++ (report required_removed (difference (required_of old) (required_of new))
        ++ (report required_added (difference (required_of new) (required_of old))
            ++ (report properties_removed
                  (difference (keys (properties_of old)) (keys (properties_of new)))
                ++ type_changes (properties_of old) (properties_of new))))

unfoldable pub compare_forward_compatible : Schema → Schema → List Incompatibility
unfolding compare_backward_compatible
compare_forward_compatible old new = compare_backward_compatible new old

unfoldable pub reported : List Incompatibility → Incompatibility → Bool
unfolding same_message
reported [] e = false
reported (x ∷ xs) e = same_message x e || reported xs e

-- `[f"(forward) {e}" for e in … if f"(forward) {e}" not in errors]`
unfoldable pub forward_messages : List Incompatibility → List Incompatibility → List Incompatibility
unfolding reported
forward_messages errors [] = []
forward_messages errors (e ∷ es) =
    let rest = forward_messages errors es in
    if reported errors (forward e) then rest else forward e ∷ rest

unfoldable pub compare_full_compatible : Schema → Schema → List Incompatibility
unfolding compare_forward_compatible forward_messages
compare_full_compatible old new =
    let errors = compare_backward_compatible old new in
    errors ++ forward_messages errors (compare_forward_compatible old new)

-- `none` is the `ValueError` for a mode that is no key of `COMPATIBILITY_CHECKERS`.
unfoldable pub check_compatibility : Schema → Schema → String → Option (List Incompatibility)
unfolding compare_full_compatible
check_compatibility old new mode =
    let word = strip mode in
    if upper_is word "BACKWARD"
    then some (compare_backward_compatible old new)
    else if upper_is word "FORWARD"
    then some (compare_forward_compatible old new)
    else if upper_is word "FULL"
    then some (compare_full_compatible old new)
    else none
