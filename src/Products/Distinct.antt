-- ===== src/Products/Distinct.antt =====
-- The two checks of data_products/validator.py on the requirements together: what
-- validate_requirements passes has distinct ids, so that validate_traceability sees all of it.
use event_driven_data_platfo.Base.{
  ◌≡◌, refl, ◌∙◌, Bool, true, false, not, ◌||◌, ◌==◌, String, List, [], ◌∷◌, ◌++◌, Dict, keys,
  insert, contains, contains-keys, lookup-insert, is_empty, arith, append-eq-nil, Bool-cases, inl,
  inr, Every,
}
use event_driven_data_platfo.Products.{
  Consumer, Product, Requirement, by_id, requirements_by_id, consumers_by_id, products_by_id,
  validate_traceability,
}
use event_driven_data_platfo.Products.Traces.{IsTracedIfActive, validate_traceability-eq-nil}
use event_driven_data_platfo.Products.Requirements.{
  RequirementError, invalid_format, duplicate_id, field_errors, report_unless, requirement_errors,
  check_requirements, validate_requirements, seen_after,
}

module _ (P : String × Requirement → Type 0) where
  Every-insert :
      (k : String) (r : Requirement) (d : Dict Requirement)
      → contains (keys d) k ≡ false
      → Every P (insert k r d)
      → Every P d × P (k, r)
  unfolding contains keys insert
  Every-insert k r [] fresh h = (tt, h.0)
  Every-insert k r ((j, w) ∷ d) fresh h = elim (Bool-cases (j == k)) [
    | inl same ↦ cc (rw same at fresh)
    | inr other ↦
        let h' : P (j, w) × Every P (insert k r d) = rw other at h in
        let (here, there) = Every-insert k r d (rw other at fresh) h'.1 in ((h'.0, here), there)
  ]

keys-insert :
    (k j : String) (r : Requirement) (d : Dict Requirement)
    → contains (keys (insert k r d)) j ≡ ((k == j) || contains (keys d) j)
keys-insert k j r d =
    ground (arith, contains-keys (insert k r d) j, lookup-insert k j r d, contains-keys d j)

contains-insert :
    (seen : List String) (r : Requirement) (d : Dict Requirement)
    → ((j : String) → contains (keys d) j ≡ contains seen j)
    → (j : String)
    → contains (keys (insert r.requirement_id r d)) j ≡ contains (r.requirement_id ∷ seen) j
unfolding contains
contains-insert seen r d same j = rw (same j) at (keys-insert r.requirement_id j r d)

report_unless-eq-nil : (b : Bool) (e : RequirementError) → report_unless (not b) e ≡ [] → b ≡ false
unfolding report_unless
report_unless-eq-nil true e h = cc
report_unless-eq-nil false e h = refl

module _ (matches : String → Bool) (consumer_ids product_ids slo_names : List String) where
  requirement_errors-fresh :
      (seen : List String) (r : Requirement)
      → requirement_errors matches consumer_ids product_ids slo_names seen r ≡ []
      → (is_empty r.requirement_id ≡ false) × (contains seen r.requirement_id ≡ false)
  unfolding requirement_errors
  requirement_errors-fresh seen r e = elim (Bool-cases (is_empty r.requirement_id)) [
    | inl missing ↦ cc (rw missing at e)
    | inr given ↦
        let unnamed = report_unless (matches r.requirement_id) (invalid_format r.requirement_id) in
        let twice =
          report_unless (not (contains seen r.requirement_id)) (duplicate_id r.requirement_id) in
        let (earlier, _) =
          append-eq-nil (unnamed ++ twice)
            (field_errors matches consumer_ids product_ids slo_names r) (rw given at e) in
        let (_, distinct) = append-eq-nil unnamed twice earlier in
        (given, report_unless-eq-nil (contains seen r.requirement_id) _ distinct)
  ]

  module _ (P : String × Requirement → Type 0) where
    Every-by_id :
        (seen : List String) (rs : List Requirement) (d : Dict Requirement)
        → ((j : String) → contains (keys d) j ≡ contains seen j)
        → check_requirements matches consumer_ids product_ids slo_names seen rs ≡ []
        → Every P (by_id (λ r. r.requirement_id) rs d)
        → Every P d × Every (λ r. P (r.requirement_id, r)) rs
    unfolding check_requirements by_id seen_after
    Every-by_id seen [] d same e h = (h, tt)
    Every-by_id seen (r ∷ rs) d same e h =
        let (here, later) =
          append-eq-nil (requirement_errors matches consumer_ids product_ids slo_names seen r) _
            e in
        let (given, fresh) = requirement_errors-fresh seen r here in
        let (hd, hrs) =
          Every-by_id (r.requirement_id ∷ seen) rs (insert r.requirement_id r d)
            (contains-insert seen r d same) (rw given at later) h in
        let (there, mine) =
          Every-insert P r.requirement_id r d (same r.requirement_id ∙ fresh) hd in
        (there, (mine, hrs))

-- When validate_requirements reports nothing and validate_traceability finds nothing, then each
-- requirement of the file is not active or is traced.
pub all_requirements_traced :
    (matches : String → Bool) (consumer_ids product_ids slo_names : List String)
    (collect_errors : List RequirementError) (products : List Product) (consumers : List Consumer)
    (requirements : List Requirement)
    → validate_requirements matches consumer_ids product_ids slo_names requirements collect_errors
      ≡ []
    → validate_traceability products consumers requirements ≡ []
    → Every
        (λ r.
          IsTracedIfActive
            (consumers_by_id consumers)
            (products_by_id products)
            (r.requirement_id, r))
        requirements
unfolding validate_requirements requirements_by_id keys
all_requirements_traced matches consumer_ids product_ids slo_names collect_errors products consumers
      requirements e f =
    let (unreported, _) = append-eq-nil _ collect_errors e in
    let (_, traced) =
      Every-by_id matches consumer_ids product_ids slo_names
        (IsTracedIfActive (consumers_by_id consumers) (products_by_id products)) [] requirements []
        (λ j. refl) unreported
        ((validate_traceability-eq-nil products consumers requirements).0 f) in
    traced
