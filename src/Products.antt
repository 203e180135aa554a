-- ===== src/Products.antt =====
-- data_products/validator.py, validate_traceability (validate_requirements is in Requirements), with the dictionaries of data_products/registry.py.
-- The YAML files are read by the library; a field that is left out is `none` or the empty list.
pub mod Traces
pub mod Requirements
pub mod Distinct
mod Tests
use event_driven_data_platfo.Base.{
  Bool, true, false, not, ◌==◌, String, Option, none, some, List, [], ◌∷◌, ◌++◌, Dict, insert,
  lookup, contains, is_some, is_empty, if◌then◌else◌,
}

pub record Consumer : Type 0 where
  pub consumer_id : String

pub record Product : Type 0 where
  pub product_id : String
  pub modeled_consumers : List String

pub record Requirement : Type 0 where
  pub requirement_id : String
  pub status : Option String
  pub consumer_id : Option String
  pub product_id : Option String
  pub source_event : Option String
  pub processing_logic : Option String
  pub serving_table : Option String
  pub api_endpoint : Option String
  pub validation_rule : Option String
  pub acceptance_criteria : List String
  pub business_question : Option String
  pub metric : Option String
  pub slo_reference : Option String
  pub test_reference : Option String

-- `{key(x): x for x in xs}`, put into a dictionary that is there
unfoldable pub by_id : {A : Type 0} → (A → String) → List A → Dict A → Dict A
by_id key [] d = d
by_id key (x ∷ xs) d = by_id key xs (insert (key x) x d)

unfoldable pub products_by_id : List Product → Dict Product
products_by_id products = by_id (λ p. p.product_id) products []

unfoldable pub consumers_by_id : List Consumer → Dict Consumer
consumers_by_id consumers = by_id (λ c. c.consumer_id) consumers []

unfoldable pub requirements_by_id : List Requirement → Dict Requirement
requirements_by_id requirements = by_id (λ r. r.requirement_id) requirements []

-- `d.get(key)`
unfoldable pub found : {A : Type 0} → Dict A → Option String → Option A
found d none = none
found d (some k) = lookup k d

-- `bool(req.get(…))` of a text and of a list
unfoldable pub is_given : Option String → Bool
is_given none = false
is_given (some s) = not (is_empty s)

unfoldable pub has_any : List String → Bool
has_any [] = false
has_any (_ ∷ _) = true

unfoldable pub is_listed : Option String → Product → Bool
is_listed none p = false
is_listed (some consumer) p = contains p.modeled_consumers consumer

unfoldable pub is_active : Requirement → Bool
is_active r = is_text r.status
  where
    is_text : Option String → Bool
    is_text none = false
    is_text (some s) = s == "active"

pub data TraceError : Type 0 where
  not_listed : String → Option String → Option String → TraceError
  chain_broken : String → List String → TraceError

unfoldable pub chain : Dict Consumer → Dict Product → Requirement → List (String × Bool)
chain consumers products r =
    ("consumer", is_some (found consumers r.consumer_id))
    ∷ ("product", is_some (found products r.product_id))
    ∷ ("source_event", is_given r.source_event)
    ∷ ("processing_logic", is_given r.processing_logic)
    ∷ ("serving_table", is_given r.serving_table)
    ∷ ("api_endpoint", is_given r.api_endpoint)
    ∷ ("validation_rule", is_given r.validation_rule)
    ∷ ("acceptance_criteria", has_any r.acceptance_criteria)
    ∷ []

-- `[name for name, ok in chain if not ok]`
unfoldable pub broken : List (String × Bool) → List String
broken [] = []
broken ((name, true) ∷ rest) = broken rest
broken ((name, false) ∷ rest) = name ∷ broken rest

unfoldable pub report_unlisted : Requirement → Option Product → List TraceError
report_unlisted r none = []
report_unlisted r (some p) =
    if is_listed r.consumer_id p
    then []
    else not_listed r.requirement_id r.consumer_id r.product_id ∷ []

unfoldable pub report_broken : String → List String → List TraceError
report_broken req_id [] = []
report_broken req_id (name ∷ names) = chain_broken req_id (name ∷ names) ∷ []

unfoldable pub trace_errors : Dict Consumer → Dict Product → Requirement → List TraceError
trace_errors consumers products r =
    report_unlisted r (found products r.product_id)
    ++ report_broken r.requirement_id (broken (chain consumers products r))

-- The loop over the requirements.
unfoldable pub validate_all_traces :
    Dict Consumer → Dict Product → Dict Requirement → List TraceError
validate_all_traces consumers products [] = []
validate_all_traces consumers products ((_, r) ∷ rest) =
    let later = validate_all_traces consumers products rest in
    if is_active r then trace_errors consumers products r ++ later else later

unfoldable pub validate_traceability :
    List Product → List Consumer → List Requirement → List TraceError
validate_traceability products consumers requirements =
    validate_all_traces (consumers_by_id consumers) (products_by_id products)
      (requirements_by_id requirements)
