-- ===== src/Products/Requirements.antt =====
-- data_products/validator.py, validate_requirements. The pattern of an id is a regular expression, and
-- what the run of pytest over the test references reports is an argument.
use event_driven_data_platfo.Base.{
  Bool, true, false, not, ◌||◌, String, Option, none, some, List, [], ◌∷◌, ◌++◌, contains, is_empty,
  if◌then◌else◌,
}
use event_driven_data_platfo.Products.{Requirement, is_given, has_any}

pub data RequirementError : Type 0 where
  missing_id : RequirementError
  invalid_format : String → RequirementError
  duplicate_id : String → RequirementError
  missing_field : String → String → RequirementError
  unknown_reference : String → String → Option String → RequirementError
  not_collected : String → RequirementError

unfoldable pub report_unless : Bool → RequirementError → List RequirementError
report_unless true e = []
report_unless false e = e ∷ []

-- `not req.get(…) or req[…] in names`
unfoldable pub is_known : List String → Option String → Bool
is_known names none = true
is_known names (some s) = is_empty s || contains names s

-- `seen_ids.add(req_id)`, which `continue` passes over
unfoldable pub seen_after : List String → Requirement → List String
seen_after seen r = if is_empty r.requirement_id then seen else r.requirement_id ∷ seen

module _ (matches : String → Bool) (consumer_ids product_ids slo_names : List String) where
  unfoldable pub field_errors : Requirement → List RequirementError
  field_errors r =
      let id = r.requirement_id in
      report_unless (is_given r.consumer_id) (missing_field id "consumer_id")
      ++ report_unless (is_given r.business_question) (missing_field id "business_question")
      ++ report_unless (is_given r.product_id) (missing_field id "product_id")
      ++ report_unless (is_given r.metric) (missing_field id "metric")
      ++ report_unless (has_any r.acceptance_criteria) (missing_field id "acceptance_criteria")
      ++ report_unless (is_known consumer_ids r.consumer_id)
          (unknown_reference id "consumer_id" r.consumer_id)
      ++ report_unless (is_known product_ids r.product_id)
          (unknown_reference id "product_id" r.product_id)
      ++ report_unless (is_known slo_names r.slo_reference)
          (unknown_reference id "slo_reference" r.slo_reference)
      ++ report_unless (has_any r.acceptance_criteria) (missing_field id "acceptance_criteria")
      ++ report_unless (is_given r.test_reference) (missing_field id "test_reference")

  -- The body of the loop, given the ids so far.
  unfoldable pub requirement_errors : List String → Requirement → List RequirementError
  requirement_errors seen r =
      if is_empty r.requirement_id
      then missing_id ∷ []
      else report_unless (matches r.requirement_id) (invalid_format r.requirement_id)
        ++ report_unless (not (contains seen r.requirement_id)) (duplicate_id r.requirement_id)
        ++ field_errors r

  unfoldable pub check_requirements : List String → List Requirement → List RequirementError
  check_requirements seen [] = []
  check_requirements seen (r ∷ rs) =
      requirement_errors seen r ++ check_requirements (seen_after seen r) rs

  unfoldable pub validate_requirements :
      List Requirement → List RequirementError → List RequirementError
  validate_requirements reqs collect_errors = check_requirements [] reqs ++ collect_errors
