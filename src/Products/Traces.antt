-- ===== src/Products/Traces.antt =====
-- What it means that validate_traceability of data_products/validator.py finds nothing.
use event_driven_data_platfo.Base.{
  ◌≡◌, ◌⊎◌, ◌↔◌, inl, inr, refl, Bool, true, false, String, Option, none, some, List, [], ◌∷◌, Dict,
  Every, append-eq-nil, Bool-cases, is_some,
}
use event_driven_data_platfo.Products.{
  Consumer, Product, Requirement, found, is_given, has_any, is_listed, is_active, chain, broken,
  report_unlisted, report_broken, trace_errors, validate_all_traces, validate_traceability,
  products_by_id, consumers_by_id, requirements_by_id,
}

-- A requirement whose chain resolves: its consumer and its product are there, the product lists the
-- consumer, and each other link is given.
pub record IsTraced (consumers : Dict Consumer) (products : Dict Product) (r : Requirement)
    : Type 0 where
  pub consumer : is_some (found consumers r.consumer_id) ≡ true
  pub product :
      (p : Product) × (found products r.product_id ≡ some p) × (is_listed r.consumer_id p ≡ true)
  pub source_event : is_given r.source_event ≡ true
  pub processing_logic : is_given r.processing_logic ≡ true
  pub serving_table : is_given r.serving_table ≡ true
  pub api_endpoint : is_given r.api_endpoint ≡ true
  pub validation_rule : is_given r.validation_rule ≡ true
  pub acceptance_criteria : has_any r.acceptance_criteria ≡ true

broken-eq-nil :
    (links : List (String × Bool)) → broken links ≡ [] → Every (λ link. link.1 ≡ true) links
unfolding broken
broken-eq-nil [] e = tt
broken-eq-nil ((name, true) ∷ rest) e = (refl, broken-eq-nil rest e)
broken-eq-nil ((name, false) ∷ rest) e = cc

nil-broken :
    (links : List (String × Bool)) → Every (λ link. link.1 ≡ true) links → broken links ≡ []
unfolding broken
nil-broken [] h = refl
nil-broken ((name, true) ∷ rest) h = nil-broken rest h.1
nil-broken ((name, false) ∷ rest) h = cc (h.0)

report_broken-eq-nil :
    (req_id : String) (names : List String) → report_broken req_id names ≡ [] → names ≡ []
unfolding report_broken
report_broken-eq-nil req_id [] e = refl
report_broken-eq-nil req_id (name ∷ names) e = cc

report_unlisted-eq-nil :
    (r : Requirement) (o : Option Product)
    → report_unlisted r o ≡ []
    → is_some o ≡ true
    → (p : Product) × (o ≡ some p) × (is_listed r.consumer_id p ≡ true)
unfolding report_unlisted
report_unlisted-eq-nil r none e h = cc
report_unlisted-eq-nil r (some p) e h = elim (Bool-cases (is_listed r.consumer_id p)) [
  | inl listed ↦ (p, refl, listed)
  | inr out ↦ cc (rw out at e)
]

module _ (consumers : Dict Consumer) (products : Dict Product) where
  trace_errors-IsTraced :
      (r : Requirement) → trace_errors consumers products r ≡ [] → IsTraced consumers products r
  unfolding trace_errors chain
  trace_errors-IsTraced r e =
      let (unlisted, unbroken) = append-eq-nil _ _ e in
      let (c, (p, (s, (l, (t, (a, (v, (k, _)))))))) =
        broken-eq-nil (chain consumers products r)
          (report_broken-eq-nil r.requirement_id _ unbroken) in
      record {
        consumer = c;
        product = report_unlisted-eq-nil r _ unlisted p;
        source_event = s;
        processing_logic = l;
        serving_table = t;
        api_endpoint = a;
        validation_rule = v;
        acceptance_criteria = k;
      }

  IsTraced-trace_errors :
      (r : Requirement) → IsTraced consumers products r → trace_errors consumers products r ≡ []
  unfolding trace_errors chain report_unlisted report_broken
  IsTraced-trace_errors r h =
      let (p, here, listed) = h.product in
      let links : broken (chain consumers products r) ≡ [] =
        nil-broken (chain consumers products r) (
          h.consumer,
          (
            rw here refl,
            (
              h.source_event,
              (
                h.processing_logic,
                (
                  h.serving_table,
                  (h.api_endpoint, (h.validation_rule, (h.acceptance_criteria, tt))),
                ),
              ),
            ),
          ),
        ) in
      let unlisted : report_unlisted r (found products r.product_id) ≡ [] =
        rw here (rw listed refl) in
      rw unlisted (rw links refl)

  -- Only the active requirements are looked at.
  abbrev pub IsTracedIfActive : String × Requirement → Type 0
  IsTracedIfActive entry = (is_active entry.1 ≡ false) ⊎ IsTraced consumers products entry.1

  validate_all-eq-nil :
      (rs : Dict Requirement)
      → validate_all_traces consumers products rs ≡ []
      → Every IsTracedIfActive rs
  unfolding validate_all_traces
  validate_all-eq-nil [] e = tt
  validate_all-eq-nil ((id, r) ∷ rest) e = elim (Bool-cases (is_active r)) [
    | inl active ↦
        let (here, later) = append-eq-nil (trace_errors consumers products r) _ (rw active at e) in
        (inr (trace_errors-IsTraced r here), validate_all-eq-nil rest later)
    | inr idle ↦ (inl idle, validate_all-eq-nil rest (rw idle at e))
  ]

  nil-validate_all :
      (rs : Dict Requirement)
      → Every IsTracedIfActive rs
      → validate_all_traces consumers products rs ≡ []
  unfolding validate_all_traces
  nil-validate_all [] h = refl
  nil-validate_all ((id, r) ∷ rest) (inl idle, later) = rw idle (nil-validate_all rest later)
  nil-validate_all ((id, r) ∷ rest) (inr traced, later) = elim (Bool-cases (is_active r)) [
    | inl active ↦ rw active (rw (IsTraced-trace_errors r traced) (nil-validate_all rest later))
    | inr idle ↦ rw idle (nil-validate_all rest later)
  ]

-- validate_traceability finds nothing exactly when each requirement that requirements_by_id keeps is
-- not active or is traced: its consumer and product are there, the product lists the consumer, and the
-- six further links are given.
pub validate_traceability-eq-nil :
    (products : List Product) (consumers : List Consumer) (requirements : List Requirement)
    → (validate_traceability products consumers requirements ≡ [])
      ↔ Every
          (IsTracedIfActive (consumers_by_id consumers) (products_by_id products))
          (requirements_by_id requirements)
unfolding validate_traceability
validate_traceability-eq-nil products consumers requirements = (
  validate_all-eq-nil _ _ (requirements_by_id requirements),
  nil-validate_all _ _ (requirements_by_id requirements),
)
