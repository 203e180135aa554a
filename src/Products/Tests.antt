-- ===== src/Products/Tests.antt =====
-- Two requirements with one id, and the theorem at work on them.
use event_driven_data_platfo.Base.{
  ◌≡◌, none, true, ◌↔◌, refl, some, List, [], ◌∷◌, Every, insert, lookup, contains,
}
use event_driven_data_platfo.Products.{
  Consumer, Product, Requirement, not_listed, validate_traceability, products_by_id,
  consumers_by_id, requirements_by_id, validate_all_traces, by_id, is_active, trace_errors,
  report_unlisted, found, is_listed, report_broken, broken, chain, is_given, has_any,
}
use event_driven_data_platfo.Products.Requirements.{
  validate_requirements, check_requirements, requirement_errors, field_errors, report_unless,
  is_known,
}
use event_driven_data_platfo.Products.Distinct.{all_requirements_traced}
use event_driven_data_platfo.Products.Traces.{IsTracedIfActive, validate_traceability-eq-nil}

abbrev consumers : List Consumer
consumers = record { consumer_id = "finance" } ∷ record { consumer_id = "risk" } ∷ []

abbrev products : List Product
products = record { product_id = "revenue"; modeled_consumers = "finance" ∷ [] } ∷ []

-- Its event type is none that the platform knows.
abbrev fin_001 : Requirement
fin_001 = record {
  requirement_id = "FIN-001";
  status = some "active";
  consumer_id = some "finance";
  product_id = some "revenue";
  source_event = some "no.such_event";
  processing_logic = some "order handler";
  serving_table = some "no_such_table";
  api_endpoint = some "/metrics/revenue";
  validation_rule = some "ranges";
  acceptance_criteria = "Tenant scoped." ∷ [];
  business_question = some "What is the revenue?";
  metric = some "revenue";
  slo_reference = none;
  test_reference = some "tests/test_revenue.py";
}

abbrev for_risk : Requirement
for_risk = record fin_001 { consumer_id = some "risk" }

unlisted :
    validate_traceability products consumers (for_risk ∷ [])
    ≡ not_listed "FIN-001" (some "risk") (some "revenue") ∷ []
unfolding validate_traceability validate_all_traces requirements_by_id by_id insert is_active
    trace_errors report_unlisted found lookup products_by_id is_listed contains report_broken broken
    chain consumers_by_id is_given has_any
unlisted = refl

-- The second requirement takes the place of the first, which is not looked at.
nothing_found : validate_traceability products consumers (for_risk ∷ fin_001 ∷ []) ≡ []
unfolding validate_traceability validate_all_traces requirements_by_id by_id insert is_active
    trace_errors report_unlisted found lookup products_by_id is_listed contains report_broken broken
    chain consumers_by_id is_given has_any
nothing_found = refl

validate_traceability-eq-nil_example :
    (validate_traceability products consumers (for_risk ∷ fin_001 ∷ []) ≡ [])
    ↔ Every
        (IsTracedIfActive (consumers_by_id consumers) (products_by_id products))
        (requirements_by_id (for_risk ∷ fin_001 ∷ []))
validate_traceability-eq-nil_example =
    validate_traceability-eq-nil products consumers (for_risk ∷ fin_001 ∷ [])

unreported :
    validate_requirements (λ id. true) ("finance" ∷ []) ("revenue" ∷ []) [] (fin_001 ∷ []) [] ≡ []
unfolding validate_requirements check_requirements requirement_errors report_unless contains
    field_errors is_given has_any is_known
unreported = refl

untraced_none : validate_traceability products consumers (fin_001 ∷ []) ≡ []
unfolding validate_traceability validate_all_traces requirements_by_id by_id insert is_active
    trace_errors report_unlisted found lookup products_by_id is_listed contains report_broken broken
    chain consumers_by_id is_given has_any
untraced_none = refl

all_requirements_traced_example :
    Every
      (λ r.
        IsTracedIfActive
          (consumers_by_id consumers)
          (products_by_id products)
          (r.requirement_id, r))
      (fin_001 ∷ [])
all_requirements_traced_example =
    all_requirements_traced (λ id. true) ("finance" ∷ []) ("revenue" ∷ []) [] [] products consumers
      (fin_001 ∷ []) unreported untraced_none
