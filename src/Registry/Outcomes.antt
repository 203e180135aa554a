-- ===== src/Registry/Outcomes.antt =====
-- The ways in which register_schema can end, each with what was computed on the way.
use event_driven_data_platfo.Base.{
  ℕ, ◌+◌, ◌≡◌, refl, Bool, true, false, String, Option, none, some, if◌then◌else◌, or_else,
}
use event_driven_data_platfo.Compatibility.{Schema}
use event_driven_data_platfo.Registry.{
  VersionRow, Tables, CompatibilityResult, Reply, success, conflict, server_error, ensure_subject,
  latest_version, default_compatibility, register_version, record_compatibility_check,
  evaluate_compatibility, as_check, store_candidate, register_schema, unchanged, inserted,
  or_not_found,
}
use event_driven_data_platfo.Registry.Documents.{same_schema}

module _ (t : Tables) (s : String) (schema : Schema) (by : Option String) where
  abbrev pub with_subject : Tables
  with_subject = ensure_subject t s default_compatibility

  abbrev pub with_check : CompatibilityResult → Tables
  with_check result = record_compatibility_check with_subject (as_check result false)

  abbrev pub next_version : CompatibilityResult → ℕ
  next_version result = or_else result.checked_against_version 0 + 1

  pub data Outcome (x : Tables × Reply VersionRow) : Type 0 where
    same_as_latest :
        (row : VersionRow)
        → latest_version with_subject s ≡ some row
        → same_schema row.schema_json schema ≡ true
        → x ≡ (with_subject, success 200 row)
        → Outcome x
    bad_mode :
        evaluate_compatibility with_subject s schema ≡ none
        → x ≡ (with_subject, server_error)
        → Outcome x
    refused :
        (result : CompatibilityResult)
        → evaluate_compatibility with_subject s schema ≡ some result
        → result.is_compatible ≡ false
        → x ≡ (with_check result, conflict result.compatibility_mode result.errors)
        → Outcome x
    taken :
        (result : CompatibilityResult)
        → evaluate_compatibility with_subject s schema ≡ some result
        → result.is_compatible ≡ true
        → register_version (with_check result) s (next_version result) schema by ≡ none
        → x ≡ (with_check result, server_error)
        → Outcome x
    stored :
        (result : CompatibilityResult) (t' : Tables) (row : VersionRow)
        → evaluate_compatibility with_subject s schema ≡ some result
        → result.is_compatible ≡ true
        → register_version (with_check result) s (next_version result) schema by ≡ some (t', row)
        → x ≡ (t', success 201 row)
        → Outcome x

  module _ (result : CompatibilityResult)
      (e : evaluate_compatibility with_subject s schema ≡ some result) where
    inserted-Outcome :
        (o : Option (Tables × VersionRow))
        → result.is_compatible ≡ true
        → register_version (with_check result) s (next_version result) schema by ≡ o
        → Outcome (inserted (with_check result) o)
    inserted-Outcome none ok r = taken result e ok r refl
    inserted-Outcome (some (t', row)) ok r = stored result t' row e ok r refl

    insert-Outcome :
        (b : Bool)
        → result.is_compatible ≡ b
        → Outcome (
            if b
            then inserted
                (with_check result)
                (register_version (with_check result) s (next_version result) schema by)
            else (with_check result, conflict result.compatibility_mode result.errors))
    insert-Outcome true ok =
        inserted-Outcome (register_version (with_check result) s (next_version result) schema by) ok
          refl
    insert-Outcome false bad = refused result e bad refl

  store-Outcome :
      (o : Option CompatibilityResult)
      → evaluate_compatibility with_subject s schema ≡ o
      → Outcome (store_candidate with_subject s schema by o)
  unfolding store_candidate
  store-Outcome none e = bad_mode e refl
  store-Outcome (some result) e = insert-Outcome result e result.is_compatible refl

  latest-Outcome :
      (o : Option VersionRow)
      → latest_version with_subject s ≡ o
      → Outcome (
          if unchanged o schema
          then (with_subject, or_not_found o)
          else store_candidate with_subject s schema by
              (evaluate_compatibility with_subject s schema))
  latest-Outcome none e = store-Outcome (evaluate_compatibility with_subject s schema) refl
  latest-Outcome (some row) e = go (same_schema row.schema_json schema) refl
    where
      go :
          (b : Bool)
          → same_schema row.schema_json schema ≡ b
          → Outcome (
              if b
              then (with_subject, or_not_found (some row))
              else store_candidate with_subject s schema by
                  (evaluate_compatibility with_subject s schema))
      go true same = same_as_latest row e same refl
      go false other = store-Outcome (evaluate_compatibility with_subject s schema) refl

  pub register_schema-Outcome : Outcome (register_schema t s schema by)
  unfolding register_schema
  register_schema-Outcome = latest-Outcome (latest_version with_subject s) refl
