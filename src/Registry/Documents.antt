-- ===== src/Registry/Documents.antt =====
-- Python's `==` on two schema documents: dicts are compared whatever the order of their keys, lists
-- in order.
use event_driven_data_platfo.Base.{
  Bool, true, false, ◌&&◌, Option, none, some, [], ◌∷◌, ◌==◌, Dict, lookup,
}
use event_driven_data_platfo.Compatibility.{
  Property, Additional, unsaid, allowed, denied, by_schema, Schema, same_names, same_type,
}

abbrev pub same_option {ℓ} : {A : Type ℓ} → (A → A → Bool) → Option A → Option A → Bool
same_option same none none = true
same_option same none (some _) = false
same_option same (some _) none = false
same_option same (some a) (some b) = same a b

abbrev found {ℓ} : {V : Type ℓ} → (V → V → Bool) → V → Option V → Bool
found same v none = false
found same v (some w) = same v w

-- Every entry of the first dict stands in the second.
unfoldable pub entries_in {ℓ} : {V : Type ℓ} → (V → V → Bool) → Dict V → Dict V → Bool
entries_in same [] e = true
entries_in same ((k, v) ∷ d) e = found same v (lookup k e) && entries_in same d e

unfoldable pub same_dict {ℓ} : {V : Type ℓ} → (V → V → Bool) → Dict V → Dict V → Bool
unfolding entries_in
same_dict same d e = entries_in same d e && entries_in same e d

unfoldable pub same_property : Property → Property → Bool
unfolding same_dict same_type
same_property p q =
    same_type p.type_keyword q.type_keyword && same_dict ◌==◌ p.other_keywords q.other_keywords

unfoldable pub same_additional : Additional → Additional → Bool
same_additional unsaid unsaid = true
same_additional allowed allowed = true
same_additional denied denied = true
same_additional (by_schema s) (by_schema t) = s == t
same_additional _ _ = false

-- `existing_latest["schema_json"] == request.schema_json`
unfoldable pub same_schema : Schema → Schema → Bool
unfolding same_property same_additional same_names
same_schema s t =
    same_option same_names s.required t.required
    && (same_option (same_dict same_property) s.properties t.properties
        && (same_additional s.additional t.additional
            && same_dict ◌==◌ s.other_keywords t.other_keywords))
