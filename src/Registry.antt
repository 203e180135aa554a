-- ===== src/Registry.antt =====
-- services/schema-registry-service/app: the tables of the runtime schema registry, the repository's
-- queries and the handlers of main.py. Identifiers and times that the database makes up
-- (`schema_id`, `registered_at`, `checked_at`) are left out; the order of rows stands for time.
pub mod Documents
pub mod Queries
pub mod History
pub mod Interleaving
pub mod Handlers
mod Outcomes
pub mod Answers
mod Tests
use event_driven_data_platfo.Base.{
  ℕ, ◌+◌, Bool, true, false, not, ◌&&◌, String, Option, none, some, List, [], ◌∷◌, ◌==◌, eqb, ltb,
  or_else, non_empty, if◌then◌else◌, insert_sorted, zero, suc,
}
use event_driven_data_platfo.Compatibility.{Schema, Incompatibility, check_compatibility}
use event_driven_data_platfo.Registry.Documents.{same_schema}

pub record SubjectRow : Type 0 where
  pub subject : String
  pub compatibility_mode : String

pub record VersionRow : Type 0 where
  pub subject : String
  pub version : ℕ
  pub schema_json : Schema
  pub registered_by : Option String

pub record CheckRow : Type 0 where
  pub subject : String
  pub compatibility_mode : String
  pub is_compatible : Bool
  pub errors : List Incompatibility
  pub dry_run : Bool

-- The three tables, newest row first.
pub record Tables : Type 0 where
  pub subjects : List SubjectRow
  pub versions : List VersionRow
  pub checks : List CheckRow

abbrev pub default_compatibility : String
default_compatibility = "BACKWARD"

-- select subject … order by subject
unfoldable pub sorted_subjects : List SubjectRow → List String
sorted_subjects [] = []
sorted_subjects (r ∷ rs) = insert_sorted r.subject (sorted_subjects rs)

unfoldable pub list_subjects : Tables → List String
unfolding sorted_subjects
list_subjects t = sorted_subjects t.subjects

unfoldable pub find_subject : String → List SubjectRow → Option SubjectRow
find_subject s [] = none
find_subject s (r ∷ rs) = if r.subject == s then some r else find_subject s rs

unfoldable pub get_subject : Tables → String → Option SubjectRow
unfolding find_subject
get_subject t s = find_subject s t.subjects

-- insert … on conflict (subject) do nothing
unfoldable pub ensure_subject : Tables → String → String → Tables
unfolding get_subject
ensure_subject t s mode = elim (get_subject t s) [
  | some _ ↦ t
  | none ↦ record t { subjects = record { subject = s; compatibility_mode = mode } ∷ t.subjects }
]

abbrev newer : VersionRow → Option VersionRow → Option VersionRow
newer r none = some r
newer r (some q) = if ltb r.version q.version then some q else some r

-- where subject = $1 order by version desc limit 1
unfoldable pub newest : String → List VersionRow → Option VersionRow
newest s [] = none
newest s (r ∷ rs) = if r.subject == s then newer r (newest s rs) else newest s rs

unfoldable pub latest_version : Tables → String → Option VersionRow
unfolding newest
latest_version t s = newest s t.versions

-- where subject = $1 and version = $2
unfoldable pub find_version : String → ℕ → List VersionRow → Option VersionRow
find_version s v [] = none
find_version s v (r ∷ rs) =
    if (r.subject == s) && eqb r.version v then some r else find_version s v rs

unfoldable pub get_version : Tables → String → ℕ → Option VersionRow
unfolding find_version
get_version t s v = find_version s v t.versions

-- One number more in an ascending list.
unfoldable pub insert_ascending : ℕ → List ℕ → List ℕ
insert_ascending v [] = v ∷ []
insert_ascending v (w ∷ ws) =
    let rest = insert_ascending v ws in if ltb w v then w ∷ rest else v ∷ w ∷ ws

-- select version … where subject = $1 order by version
unfoldable pub versions_of : String → List VersionRow → List ℕ
unfolding insert_ascending
versions_of s [] = []
versions_of s (r ∷ rs) =
    let rest = versions_of s rs in if r.subject == s then insert_ascending r.version rest else rest

unfoldable pub list_versions : Tables → String → List ℕ
unfolding versions_of
list_versions t s = versions_of s t.versions

-- insert … returning: `none` is the violation of the primary key (subject, version).
unfoldable pub register_version :
    Tables → String → ℕ → Schema → Option String → Option (Tables × VersionRow)
unfolding get_version
register_version t s v schema by =
    let row : VersionRow = record {
      subject = s;
      version = v;
      schema_json = schema;
      registered_by = by;
    } in
    elim (get_version t s v) [
      | some _ ↦ none
      | none ↦ some (record t { versions = row ∷ t.versions }, row)
    ]

unfoldable pub record_compatibility_check : Tables → CheckRow → Tables
record_compatibility_check t c = record t { checks = c ∷ t.checks }

-- where subject = $1 order by checked_at desc limit $2
unfoldable pub newest_checks : String → List CheckRow → ℕ → List CheckRow
newest_checks s [] n = []
newest_checks s (c ∷ cs) zero = []
newest_checks s (c ∷ cs) (suc n) =
    let here = newest_checks s cs n in
    let later = newest_checks s cs (suc n) in if c.subject == s then c ∷ here else later

unfoldable pub recent_compatibility_checks : Tables → String → ℕ → List CheckRow
unfolding newest_checks
recent_compatibility_checks t s limit = newest_checks s t.checks limit

pub record CompatibilityResult : Type 0 where
  pub subject : String
  pub compatibility_mode : String
  pub is_compatible : Bool
  pub errors : List Incompatibility
  pub checked_against_version : Option ℕ

abbrev pub mode_or_default : Option SubjectRow → String
mode_or_default none = default_compatibility
mode_or_default (some r) = r.compatibility_mode

-- `_evaluate_compatibility`; `none` is the `ValueError` of an unsupported mode.
unfoldable pub evaluate_compatibility : Tables → String → Schema → Option CompatibilityResult
unfolding get_subject latest_version check_compatibility
evaluate_compatibility t s candidate =
    let mode = mode_or_default (get_subject t s) in
    elim (latest_version t s) [
      | none ↦ some (record {
        subject = s;
        compatibility_mode = mode;
        is_compatible = true;
        errors = [];
        checked_against_version = none;
      })
      | some latest ↦ elim (check_compatibility latest.schema_json candidate mode) [
        | none ↦ none
        | some errors ↦ some (record {
          subject = s;
          compatibility_mode = mode;
          is_compatible = not (non_empty errors);
          errors = errors;
          checked_against_version = some latest.version;
        })
      ]
    ]

-- What a handler answers: a value under a status, an `HTTPException`, or an exception that no
-- handler catches (a 500).
pub data Reply {ℓ} (A : Type ℓ) : Type ℓ where
  success : ℕ → A → Reply A
  not_found : Reply A
  conflict : String → List Incompatibility → Reply A
  server_error : Reply A

abbrev pub or_not_found {ℓ} : {A : Type ℓ} → Option A → Reply A
or_not_found none = not_found
or_not_found (some a) = success 200 a

unfoldable pub get_subject_config : Tables → String → Reply String
unfolding get_subject
get_subject_config t s = elim (get_subject t s) [
  | none ↦ not_found
  | some r ↦ success 200 r.compatibility_mode
]

unfoldable pub list_versions_handler : Tables → String → Reply (List ℕ)
unfolding get_subject list_versions
list_versions_handler t s = elim (get_subject t s) [
  | none ↦ not_found
  | some _ ↦ success 200 (list_versions t s)
]

unfoldable pub get_latest_version : Tables → String → Reply VersionRow
unfolding latest_version
get_latest_version t s = or_not_found (latest_version t s)

unfoldable pub get_version_handler : Tables → String → ℕ → Reply VersionRow
unfolding get_version
get_version_handler t s v = or_not_found (get_version t s v)

abbrev pub as_check : CompatibilityResult → Bool → CheckRow
as_check result dry_run = record {
  subject = result.subject;
  compatibility_mode = result.compatibility_mode;
  is_compatible = result.is_compatible;
  errors = result.errors;
  dry_run = dry_run;
}

unfoldable pub check_compatibility_endpoint :
    Tables → String → Schema → Tables × Reply CompatibilityResult
unfolding evaluate_compatibility record_compatibility_check
check_compatibility_endpoint t s schema = elim (evaluate_compatibility t s schema) [
  | none ↦ (t, server_error)
  | some result ↦ (record_compatibility_check t (as_check result true), success 200 result)
]

abbrev pub inserted : Tables → Option (Tables × VersionRow) → Tables × Reply VersionRow
inserted t none = (t, server_error)
inserted t (some (t', row)) = (t', success 201 row)

-- `register_schema` once the check is recorded.
unfoldable pub insert_candidate :
    Tables → String → Schema → Option String → CompatibilityResult → Tables × Reply VersionRow
unfolding register_version
insert_candidate t s schema by result =
    if result.is_compatible
    then inserted t (register_version t s (or_else result.checked_against_version 0 + 1) schema by)
    else (t, conflict result.compatibility_mode result.errors)

-- `register_schema` once `_evaluate_compatibility` has answered.
unfoldable pub store_candidate :
    Tables
    → String
    → Schema
    → Option String
    → Option CompatibilityResult
    → Tables × Reply VersionRow
unfolding record_compatibility_check insert_candidate
store_candidate t s schema by none = (t, server_error)
store_candidate t s schema by (some result) =
    insert_candidate (record_compatibility_check t (as_check result false)) s schema by result

abbrev pub unchanged : Option VersionRow → Schema → Bool
unchanged none schema = false
unchanged (some r) schema = same_schema r.schema_json schema

unfoldable pub register_schema :
    Tables → String → Schema → Option String → Tables × Reply VersionRow
register_schema t s schema by =
    let t' = ensure_subject t s default_compatibility in
    if unchanged (latest_version t' s) schema
    then (t', or_not_found (latest_version t' s))
    else store_candidate t' s schema by (evaluate_compatibility t' s schema)
