-- ===== src/Registry/Tests.antt =====
-- The registry at concrete requests.
use event_driven_data_platfo.Base.{
  List, ◌≡◌, ◌≢◌, refl, true, String, none, some, [], ◌∷◌, eq_iff, arith, lookup, length,
}
use event_driven_data_platfo.Compatibility.{Incompatibility, Schema, unsaid, named, type_changed}
use event_driven_data_platfo.Registry.{
  Tables, VersionRow, Reply, success, register_schema, ensure_subject, latest_version, get_version,
  evaluate_compatibility, store_candidate,
}
use event_driven_data_platfo.Registry.Documents.{same_schema}
use event_driven_data_platfo.Registry.History.{IsWellFormed, of_subject}
use event_driven_data_platfo.Registry.Queries.{history}
use event_driven_data_platfo.Registry.Handlers.{register_schema-IsWellFormed}
use event_driven_data_platfo.Registry.Answers.{
  get_version-register, get_version-created, register_again,
}
use event_driven_data_platfo.Registry.Interleaving.{
  Server, here, next, skip, IsConsistent, Reach-IsConsistent,
}

abbrev with_type : String → Schema
with_type t = record {
  required = some ("id" ∷ []);
  properties = some (("id", record { type_keyword = named t; other_keywords = [] }) ∷ []);
  additional = unsaid;
  other_keywords = ("title", t) ∷ [];
}

abbrev no_tables : Tables
no_tables = record { subjects = []; versions = []; checks = [] }

no_tables-IsWellFormed : IsWellFormed no_tables
unfolding history
no_tables-IsWellFormed = record { numbered = λ s. tt; checked = λ s. tt }

abbrev first : Tables × Reply VersionRow
first = register_schema no_tables "orders" (with_type "string") none

abbrev first_row : VersionRow
first_row = record {
  subject = "orders";
  version = 1;
  schema_json = with_type "string";
  registered_by = none;
}

first_created : first.1 ≡ success 201 first_row
unfolding register_schema ensure_subject latest_version evaluate_compatibility store_candidate
first_created = refl

first-IsWellFormed : IsWellFormed first.0
first-IsWellFormed =
    register_schema-IsWellFormed no_tables "orders" (with_type "string") none no_tables-IsWellFormed

register_schema-IsWellFormed_example :
    IsWellFormed (register_schema first.0 "orders" (with_type "integer") none).0
register_schema-IsWellFormed_example =
    register_schema-IsWellFormed first.0 "orders" (with_type "integer") none first-IsWellFormed

first_found : get_version first.0 "orders" 1 ≡ some first_row
unfolding register_schema ensure_subject latest_version evaluate_compatibility store_candidate
    get_version
first_found = refl

get_version-register_example :
    get_version (register_schema first.0 "orders" (with_type "integer") none).0 "orders" 1
    ≡ some first_row
get_version-register_example =
    get_version-register first.0 "orders" (with_type "integer") none "orders" 1 first_row
      first_found

get_version-created_example :
    (with_type "string" ≡ with_type "string")
    × (get_version no_tables "orders" 1 ≡ none)
    × (get_version first.0 "orders" 1 ≡ some first_row)
    × (latest_version first.0 "orders" ≡ some first_row)
    × (1 ≡ length (of_subject first.0 "orders"))
get_version-created_example =
    get_version-created no_tables "orders" (with_type "string") none first_row
      no_tables-IsWellFormed first_created

orders_not_users : ◌≢◌ {A = String} "orders" "users"
orders_not_users = ground (arith, eq_iff "orders" "users")

same_string : same_schema (with_type "string") (with_type "string") ≡ true
unfolding same_schema lookup
same_string = refl

register_again_example :
    ((register_schema first.0 "orders" (with_type "string") (some "ci")).1 ≡ success 200 first_row)
    × ((register_schema first.0 "orders" (with_type "string") (some "ci")).0.versions
        ≡ first.0.versions)
    × ((register_schema first.0 "orders" (with_type "string") (some "ci")).0.checks
        ≡ first.0.checks)
register_again_example =
    register_again no_tables "orders" (with_type "string") none first_row (with_type "string")
      (some "ci") no_tables-IsWellFormed first_created same_string

abbrev start : Server
start = record { tables = no_tables; pending = [] }

start-IsConsistent : IsConsistent start
start-IsConsistent = record { well_formed = no_tables-IsWellFormed; justified = tt }

Reach-IsConsistent_example :
    IsConsistent (record { tables = ensure_subject no_tables "orders" "BACKWARD"; pending = [] })
Reach-IsConsistent_example = Reach-IsConsistent start-IsConsistent (next here (skip "orders"))

abbrev refusal : List Incompatibility
refusal = type_changed "id" (named "string") (named "integer") ∷ []
