-- ===== src/Registry/Answers.antt =====
-- What register_schema answers, and what later queries see.
use event_driven_data_platfo.Base.{
  ℕ, ◌+◌, ◌≡◌, ap, subst, ◌∙◌, ◌≢◌, ◌⊎◌, true, false, String, Option, none, some, ◌∷◌, arith,
  eq_iff, is_some, length, inl, inr, or_else,
}
use event_driven_data_platfo.Compatibility.{Schema, check_compatibility}
use event_driven_data_platfo.Registry.{
  VersionRow, Tables, Reply, success, not_found, server_error, ensure_subject, latest_version,
  get_version, find_version, default_compatibility, record_compatibility_check, as_check,
  register_schema,
}
use event_driven_data_platfo.Registry.Documents.{same_schema}
use event_driven_data_platfo.Registry.Queries.{head_of, history}
use event_driven_data_platfo.Registry.History.{
  record_check-IsWellFormed, checks-ensure_subject, IsWellFormed, of_subject, mode_of,
  register_version_inv, mode_of-ensure_subject, versions-ensure_subject,
  ensure_subject-IsWellFormed,
}
use event_driven_data_platfo.Registry.Handlers.{
  evaluate_free, evaluate-record_check, evaluate_total, latest_version-head,
  register_schema-IsWellFormed,
}
use event_driven_data_platfo.Registry.Outcomes.{
  Outcome, same_as_latest, bad_mode, refused, taken, stored, register_schema-Outcome, with_check,
}

module _ (t : Tables) (s : String) (schema : Schema) (by : Option String) where
  abbrev after : Tables
  after = (register_schema t s schema by).0

  abbrev answer : Reply VersionRow
  answer = (register_schema t s schema by).1

  -- The row that a registration adds.
  record IsAdded (row : VersionRow) : Type 0 where
    grown : after.versions ≡ row ∷ t.versions
    created : answer ≡ success 201 row
    of_this : row.subject ≡ s
    of_schema : row.schema_json ≡ schema
    was_free : find_version s row.version t.versions ≡ none

  -- What the versions table is after a registration: as before, or with one row more.
  versions_after :
      ((after.versions ≡ t.versions) × ((row : VersionRow) → answer ≢ success 201 row))
      ⊎ ((row : VersionRow) × IsAdded row)
  unfolding record_compatibility_check
  versions_after = go (register_schema-Outcome t s schema by)
    where
      old : (ensure_subject t s default_compatibility).versions ≡ t.versions
      old = versions-ensure_subject t s default_compatibility

      rows :
          {x : Tables × Reply VersionRow}
          → register_schema t s schema by ≡ x
          → after.versions ≡ x.0.versions
      rows e = ap (λ (x : Tables × Reply VersionRow). x.0.versions) e

      says : {x : Tables × Reply VersionRow} → register_schema t s schema by ≡ x → answer ≡ x.1
      says e = ap (λ (x : Tables × Reply VersionRow). x.1) e

      go :
          Outcome t s schema by (register_schema t s schema by)
          → ((after.versions ≡ t.versions) × ((row : VersionRow) → answer ≢ success 201 row))
            ⊎ ((row : VersionRow) × IsAdded row)
      go (same_as_latest row l same e) = inl (rows e ∙ old, λ r a. ground (arith, says e, a))
      go (bad_mode b e) = inl (rows e ∙ old, λ r a. ground (arith, says e, a))
      go (refused r ev bad e) = inl (rows e ∙ old, λ q a. ground (arith, says e, a))
      go (taken r ev ok f e) = inl (rows e ∙ old, λ q a. ground (arith, says e, a))
      go (stored r u row ev ok f e) =
          let (made, grown, free) =
            register_version_inv (with_check t s schema by r) s
              (or_else r.checked_against_version 0 + 1) schema by f in
          inr (
            row,
            record {
              grown = rows e ∙ (ap (λ (v : Tables). v.versions) grown ∙ ap (λ rs. row ∷ rs) old);
              created = says e;
              of_this = ap (λ (q : VersionRow). q.subject) made;
              of_schema = ap (λ (q : VersionRow). q.schema_json) made;
              was_free = cc (free, old, ap (λ (q : VersionRow). q.version) made);
            },
          )

  -- A registered version is never changed nor removed: what get_version found before a registration,
  -- of any subject, it finds after it.
  pub get_version-register :
      (j : String) (v : ℕ) (r : VersionRow)
      → get_version t j v ≡ some r
      → get_version after j v ≡ some r
  unfolding get_version
  get_version-register j v r found = elim versions_after [
    | inl (same, _) ↦ rw same found
    | inr (row, a) ↦
        rw (a.grown, find_version)
          (ground (arith, found, a.of_this, a.was_free, eq_iff row.subject j))
  ]

  created-IsAdded : (row : VersionRow) → answer ≡ success 201 row → IsAdded row
  created-IsAdded row said = elim versions_after [
    | inl (same, never) ↦ absurd (never row said)
    | inr (q, a) ↦ subst IsAdded (cc (a.created, said)) a
  ]

  history-grown : (row : VersionRow) → IsAdded row → of_subject after s ≡ row ∷ of_subject t s
  unfolding history
  history-grown row a = rw (a.grown, history) (ground (arith, a.of_this, eq_iff row.subject s))

  -- A registration that answers 201 with a row stores the schema of the request under a version of
  -- the subject that was free; get_version and latest_version then return that row, and its number
  -- is the number of versions that the subject now has.
  pub get_version-created :
      (row : VersionRow)
      → IsWellFormed t
      → answer ≡ success 201 row
      → (row.schema_json ≡ schema)
        × (get_version t s row.version ≡ none)
        × (get_version after s row.version ≡ some row)
        × (latest_version after s ≡ some row)
        × (row.version ≡ length (of_subject after s))
  unfolding get_version
  get_version-created row h said =
      let a : IsAdded row = created-IsAdded row said in
      let w : IsWellFormed after = register_schema-IsWellFormed t s schema by h in
      let e : of_subject after s ≡ row ∷ of_subject t s = history-grown row a in
      (
        a.of_schema,
        a.was_free,
        rw (a.grown, find_version) (ground (arith, a.of_this, eq_iff row.subject s)),
        latest_version-head after s w ∙ ap head_of e,
        omega (arith, (rw e at (w.numbered s)).0, ap length e),
      )

  -- A registration for one subject leaves the versions of every other subject alone.
  pub of_subject-register_ne : (j : String) → s ≢ j → of_subject after j ≡ of_subject t j
  unfolding history
  of_subject-register_ne j ne = elim versions_after [
    | inl (same, _) ↦ rw same
    | inr (row, a) ↦ rw (a.grown, history) (ground (arith, a.of_this, eq_iff row.subject j))
  ]

  -- From a well-formed registry, with a supported mode for the subject, the registration of a document
  -- that has a Schema record, among versions that have one, answers 200, 201 or 409. Documents on which
  -- the comparison raises have none.
  pub register_schema-answers :
      IsWellFormed t
      → ((old : Schema) → is_some (check_compatibility old schema (mode_of t s)) ≡ true)
      → (answer ≢ server_error) × (answer ≢ not_found)
  register_schema-answers h supported = go (register_schema-Outcome t s schema by)
    where
      u : Tables
      u = ensure_subject t s default_compatibility

      w : IsWellFormed u
      w = ensure_subject-IsWellFormed t s h

      go :
          Outcome t s schema by (register_schema t s schema by)
          → (answer ≢ server_error) × (answer ≢ not_found)
      go (same_as_latest row l same e) =
          let says = ap (λ (x : Tables × Reply VersionRow). x.1) e in
          (λ a. cc (a, says), λ a. cc (a, says))
      go (bad_mode b e) =
          absurd (evaluate_total u s schema (λ old. rw mode_of-ensure_subject (supported old)) b)
      go (refused r ev bad e) =
          let says = ap (λ (x : Tables × Reply VersionRow). x.1) e in
          (λ a. cc (a, says), λ a. cc (a, says))
      go (taken r ev ok f e) =
          let c = as_check r false in
          absurd (
            evaluate_free (record_compatibility_check u c) s schema by r
              (record_check-IsWellFormed u c w) (evaluate-record_check u s schema c ∙ ev) f)
      go (stored r v row ev ok f e) =
          let says = ap (λ (x : Tables × Reply VersionRow). x.1) e in
          (λ a. cc (a, says), λ a. cc (a, says))

  -- Where the latest version has the schema of the request, nothing is checked or stored.
  register_same :
      (row : VersionRow)
      → latest_version (ensure_subject t s default_compatibility) s ≡ some row
      → same_schema row.schema_json schema ≡ true
      → register_schema t s schema by ≡ (ensure_subject t s default_compatibility, success 200 row)
  unfolding register_schema
  register_same row l same = rw (l, same)

module _ (t : Tables) (s : String) (schema : Schema) (by : Option String) where
  -- Registering again the schema that was just created answers 200 with the same row, whoever asks,
  -- and changes neither the versions nor the log of checks.
  pub register_again :
      (row : VersionRow) (again : Schema) (by' : Option String)
      → IsWellFormed t
      → answer t s schema by ≡ success 201 row
      → same_schema schema again ≡ true
      → ((register_schema (after t s schema by) s again by').1 ≡ success 200 row)
        × ((register_schema (after t s schema by) s again by').0.versions
            ≡ (after t s schema by).versions)
        × ((register_schema (after t s schema by) s again by').0.checks
            ≡ (after t s schema by).checks)
  register_again row again by' h said same =
      let u : Tables = after t s schema by in
      let (kept, _, _, latest, _) = get_version-created t s schema by row h said in
      let e : register_schema u s again by'
          ≡ (ensure_subject u s default_compatibility, success 200 row) =
        register_same u s again by' row
          (unfold latest_version in (rw (versions-ensure_subject u s default_compatibility) latest))
          (rw kept same) in
      (
        ap (λ (x : Tables × Reply VersionRow). x.1) e,
        ap (λ (x : Tables × Reply VersionRow). x.0.versions) e
            ∙ versions-ensure_subject u s default_compatibility,
        ap (λ (x : Tables × Reply VersionRow). x.0.checks) e
            ∙ checks-ensure_subject u s default_compatibility,
      )
