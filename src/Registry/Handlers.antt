-- ===== src/Registry/Handlers.antt =====
-- The handlers of the registry, from a well-formed state.
use event_driven_data_platfo.Base.{
  ◌+◌, ◌≡◌, refl, sym, subst, ◌∙◌, ◌≢◌, true, false, String, Option, none, some, List, [], ◌∷◌,
  arith, is_some, length, Option-cases, inl, inr, or_else,
}
use event_driven_data_platfo.Compatibility.{Schema, check_compatibility}
use event_driven_data_platfo.Registry.{
  VersionRow, Tables, CheckRow, CompatibilityResult, Reply, ensure_subject, latest_version,
  default_compatibility, register_version, record_compatibility_check, evaluate_compatibility,
  as_check, register_schema,
}
use event_driven_data_platfo.Registry.Outcomes.{
  Outcome, same_as_latest, bad_mode, refused, taken, stored, register_schema-Outcome,
}
use event_driven_data_platfo.Registry.Queries.{
  IsNumbered, newest-IsNumbered, head_of, find_version-none,
}
use event_driven_data_platfo.Registry.History.{
  IsWellFormed, IsJustified, of_subject, mode_of, ensure_subject-IsWellFormed,
  record_check-IsWellFormed, register_version-IsWellFormed,
}

-- The latest version is the row registered last.
pub latest_version-head :
    (t : Tables) (s : String) → IsWellFormed t → latest_version t s ≡ head_of (of_subject t s)
unfolding latest_version
latest_version-head t s h = newest-IsNumbered s t.versions (h.numbered s)

module _ (t : Tables) (s : String) (schema : Schema) where
  -- A candidate that was found compatible may be inserted behind the version it was checked against.
  pub evaluate-IsJustified :
      (result : CompatibilityResult)
      → IsWellFormed t
      → evaluate_compatibility t s schema ≡ some result
      → result.is_compatible ≡ true
      → IsJustified t s (or_else result.checked_against_version 0 + 1) schema
  unfolding evaluate_compatibility
  evaluate-IsJustified result h e ok = go (of_subject t s) refl (h.numbered s)
    where
      go :
          (rows : List VersionRow)
          → of_subject t s ≡ rows
          → IsNumbered rows
          → IsJustified t s (or_else result.checked_against_version 0 + 1) schema
      go [] at n = record {
        more = [];
        old = [];
        since = at;
        next = ground (arith, latest_version-head t s h, at);
        follows = tt;
      }
      go (r ∷ rs) at n = record {
        more = [];
        old = r ∷ rs;
        since = at;
        next = ground (arith, latest_version-head t s h, at);
        follows = ground (arith, latest_version-head t s h, at);
      }

  -- The version that a check was made against is the number of versions there were.
  evaluate_next :
      (result : CompatibilityResult)
      → IsWellFormed t
      → evaluate_compatibility t s schema ≡ some result
      → or_else result.checked_against_version 0 ≡ length (of_subject t s)
  unfolding evaluate_compatibility
  evaluate_next result h e = go (of_subject t s) refl (h.numbered s)
    where
      go :
          (rows : List VersionRow)
          → of_subject t s ≡ rows
          → IsNumbered rows
          → or_else result.checked_against_version 0 ≡ length (of_subject t s)
      go [] at n = rw at (ground (arith, latest_version-head t s h, at))
      go (r ∷ rs) at n = rw at (ground (arith, latest_version-head t s h, at))

  -- Right after a check the next number is free.
  pub evaluate_free :
      (by : Option String) (result : CompatibilityResult)
      → IsWellFormed t
      → evaluate_compatibility t s schema ≡ some result
      → register_version t s (or_else result.checked_against_version 0 + 1) schema by ≢ none
  unfolding register_version
  evaluate_free by result h e = ground (
    arith,
    find_version-none s (or_else result.checked_against_version 0 + 1) t.versions (h.numbered s)
        (omega (arith, evaluate_next result h e)),
  )

  -- What an unfavourable check says.
  pub evaluate_incompatible :
      (result : CompatibilityResult)
      → evaluate_compatibility t s schema ≡ some result
      → result.is_compatible ≡ false
      → (result.compatibility_mode ≡ mode_of t s)
        × (result.errors ≢ [])
        × ((row : VersionRow) × (latest_version t s ≡ some row)
            × (check_compatibility row.schema_json schema (mode_of t s) ≡ some result.errors))
  unfolding evaluate_compatibility
  evaluate_incompatible result e bad = elim (Option-cases (latest_version t s)) [
    | inl first ↦ absurd (ground (arith, first))
    | inr (row, latest) ↦
        (ground (arith, latest), ground (arith, latest), (row, latest, ground (arith, latest)))
  ]

  -- With a supported mode a check always has a result.
  pub evaluate_total :
      ((old : Schema) → is_some (check_compatibility old schema (mode_of t s)) ≡ true)
      → evaluate_compatibility t s schema ≢ none
  unfolding evaluate_compatibility
  evaluate_total supported e = elim (Option-cases (latest_version t s)) [
    | inl first ↦ ground (arith, first)
    | inr (row, latest) ↦ ground (arith, latest, supported row.schema_json)
  ]

  pub evaluate-record_check :
      (c : CheckRow)
      → evaluate_compatibility (record_compatibility_check t c) s schema
        ≡ evaluate_compatibility t s schema
  unfolding evaluate_compatibility record_compatibility_check
  evaluate-record_check c = refl

Outcome-IsWellFormed :
    (t : Tables) (s : String) (schema : Schema) (by : Option String) (x : Tables × Reply VersionRow)
    → IsWellFormed t
    → Outcome t s schema by x
    → IsWellFormed x.0
Outcome-IsWellFormed t s schema by x h o = go o
  where
    t' : Tables
    t' = ensure_subject t s default_compatibility

    h' : IsWellFormed t'
    h' = ensure_subject-IsWellFormed t s h

    checked :
        (r : CompatibilityResult) → IsWellFormed (record_compatibility_check t' (as_check r false))
    checked r = record_check-IsWellFormed t' (as_check r false) h'

    moved : {y : Tables × Reply VersionRow} → x ≡ y → IsWellFormed y.0 → IsWellFormed x.0
    moved e w = subst (λ (y : Tables × Reply VersionRow). IsWellFormed y.0) (sym e) w

    go : Outcome t s schema by x → IsWellFormed x.0
    go (same_as_latest row l same e) = moved e h'
    go (bad_mode b e) = moved e h'
    go (refused r ev bad e) = moved e (checked r)
    go (taken r ev ok f e) = moved e (checked r)
    go (stored r u row ev ok f e) =
        let c = as_check r false in
        moved e (
          register_version-IsWellFormed (record_compatibility_check t' c) s
            (or_else r.checked_against_version 0 + 1) schema by (checked r)
            (evaluate-IsJustified (record_compatibility_check t' c) s schema r (checked r)
              (evaluate-record_check t' s schema c ∙ ev) ok)
            f)

-- Every registration, whatever it answers, keeps the registry well formed: the versions of each
-- subject are numbered from one without a gap, and each is compatible with the one before it.
pub register_schema-IsWellFormed :
    (t : Tables) (s : String) (schema : Schema) (by : Option String)
    → IsWellFormed t
    → IsWellFormed (register_schema t s schema by).0
register_schema-IsWellFormed t s schema by h =
    Outcome-IsWellFormed t s schema by (register_schema t s schema by) h
      (register_schema-Outcome t s schema by)
