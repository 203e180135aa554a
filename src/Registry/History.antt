-- ===== src/Registry/History.antt =====
-- The invariant of the registry: the versions of each subject are numbered from one without a gap,
-- and each was found compatible with the one before it, under the subject's mode.
use event_driven_data_platfo.Base.{
  ℕ, ◌+◌, ◌≡◌, ap, subst, ◌∙◌, false, String, Option, none, some, List, [], ◌∷◌, ◌++◌, arith,
  eq_iff, eq_refl, ◌==◌, if◌then◌else◌, length, length-append, Bool-cases, inl, inr,
}
use event_driven_data_platfo.Compatibility.{Schema, check_compatibility}
use event_driven_data_platfo.Registry.{
  VersionRow, Tables, CheckRow, get_subject, find_subject, ensure_subject, default_compatibility,
  mode_or_default, register_version, record_compatibility_check, find_version,
}
use event_driven_data_platfo.Registry.Queries.{history, IsNumbered, find_version-some}

-- The mode under which candidates for a subject are checked.
abbrev pub mode_of : Tables → String → String
mode_of t s = mode_or_default (get_subject t s)

abbrev pub Follows : String → List VersionRow → Schema → Type 0
Follows mode [] schema = Unit
Follows mode (q ∷ _) schema = check_compatibility q.schema_json schema mode ≡ some []

abbrev pub IsChecked : String → List VersionRow → Type 0
IsChecked mode [] = Unit
IsChecked mode (r ∷ rs) = Follows mode rs r.schema_json × IsChecked mode rs

abbrev pub of_subject : Tables → String → List VersionRow
of_subject t s = history s t.versions

pub record IsWellFormed (t : Tables) : Type 0 where
  pub numbered : (s : String) → IsNumbered (of_subject t s)
  pub checked : (s : String) → IsChecked (mode_of t s) (of_subject t s)

-- A subject that is made with the default mode had that mode before.
pub mode_of-ensure_subject :
    (t : Tables) (s j : String) → mode_of (ensure_subject t s default_compatibility) j ≡ mode_of t j
unfolding ensure_subject find_subject
mode_of-ensure_subject t s j = ground (arith, eq_iff s j)

pub versions-ensure_subject :
    (t : Tables) (s mode : String) → (ensure_subject t s mode).versions ≡ t.versions
unfolding ensure_subject
versions-ensure_subject t s mode = ground arith

pub checks-ensure_subject :
    (t : Tables) (s mode : String) → (ensure_subject t s mode).checks ≡ t.checks
unfolding ensure_subject
checks-ensure_subject t s mode = ground arith

pub ensure_subject-IsWellFormed :
    (t : Tables) (s : String)
    → IsWellFormed t
    → IsWellFormed (ensure_subject t s default_compatibility)
ensure_subject-IsWellFormed t s h = record {
  numbered = λ j. rw versions-ensure_subject (h.numbered j);
  checked = λ j. rw (mode_of-ensure_subject, versions-ensure_subject) (h.checked j);
}

pub record_check-IsWellFormed :
    (t : Tables) (c : CheckRow) → IsWellFormed t → IsWellFormed (record_compatibility_check t c)
unfolding record_compatibility_check get_subject
record_check-IsWellFormed t c h = record { numbered = h.numbered; checked = h.checked }

-- A candidate that was checked when `old` was the history of its subject. Rows may have come since.
pub record IsJustified (t : Tables) (s : String) (v : ℕ) (schema : Schema) : Type 0 where
  pub more : List VersionRow
  pub old : List VersionRow
  pub since : of_subject t s ≡ more ++ old
  pub next : v ≡ length old + 1
  pub follows : Follows (mode_of t s) old schema

module _ (t : Tables) (s : String) (v : ℕ) (schema : Schema) (by : Option String) where
  -- A successful insert adds the row and nothing else.
  pub register_version_inv :
      {t' : Tables} {row : VersionRow}
      → register_version t s v schema by ≡ some (t', row)
      → (row ≡ record { subject = s; version = v; schema_json = schema; registered_by = by })
        × (t' ≡ record t { versions = row ∷ t.versions })
        × (find_version s v t.versions ≡ none)
  unfolding register_version
  register_version_inv e = ground arith

  -- Where rows have come since the check, the number is taken and the insert fails.
  pub register_version-taken :
      IsWellFormed t
      → (more old : List VersionRow) (q : VersionRow) → of_subject t s ≡ (q ∷ more) ++ old
      → v ≡ length old + 1
      → register_version t s v schema by ≡ none
  unfolding register_version
  register_version-taken h more old q e n = ground (
    arith,
    find_version-some s v t.versions (h.numbered s) (omega arith)
        (omega (arith, ap length e, length-append {0} more old)),
  )

  pub history-register :
      (j : String) {t' : Tables} {row : VersionRow}
      → register_version t s v schema by ≡ some (t', row)
      → (of_subject t' j ≡ (if s == j then row ∷ of_subject t j else of_subject t j))
        × (mode_of t' j ≡ mode_of t j)
  unfolding register_version history get_subject
  history-register j e = ground arith

  module _ {t' : Tables} {row : VersionRow}
      (e : register_version t s v schema by ≡ some (t', row)) where
    history_here : of_subject t' s ≡ row ∷ of_subject t s
    history_here = (history-register s e).0 ∙ (rw (eq_refl s))

    schema_here : row.schema_json ≡ schema
    schema_here = ap (λ (r : VersionRow). r.schema_json) (register_version_inv e).0

    version_here : row.version ≡ v
    version_here = ap (λ (r : VersionRow). r.version) (register_version_inv e).0

    -- The invariant of a history, as far as one subject goes.
    abbrev IsGood : Tables → String → Type 0
    IsGood u k = IsNumbered (of_subject u k) × IsChecked (mode_of u k) (of_subject u k)

    IsGood-here :
        IsWellFormed t
        → v ≡ length (of_subject t s) + 1
        → Follows (mode_of t s) (of_subject t s) schema
        → IsGood t' s
    IsGood-here h n f =
        rw ((history-register s e).1, history_here)
          ((version_here ∙ n, h.numbered s), (rw schema_here f, h.checked s))

    IsGood-there : (j : String) → IsWellFormed t → (s == j) ≡ false → IsGood t' j
    IsGood-there j h other =
        rw ((history-register j e).1, (history-register j e).0, other) (h.numbered j, h.checked j)

    good :
        (j : String)
        → IsWellFormed t
        → v ≡ length (of_subject t s) + 1
        → Follows (mode_of t s) (of_subject t s) schema
        → IsGood t' j
    good j h n f = elim (Bool-cases (s == j)) [
      | inl same ↦ subst (IsGood t') ((eq_iff s j).0 same) (IsGood-here h n f)
      | inr other ↦ IsGood-there j h other
    ]

  -- An insert of a justified candidate keeps the invariant, whatever came since its check.
  pub register_version-IsWellFormed :
      {t' : Tables} {row : VersionRow}
      → IsWellFormed t
      → IsJustified t s v schema
      → register_version t s v schema by ≡ some (t', row)
      → IsWellFormed t'
  register_version-IsWellFormed {t'} {row} h just e =
      go just.more just.old just.since just.next just.follows
    where
      go :
          (more old : List VersionRow)
          → of_subject t s ≡ more ++ old
          → v ≡ length old + 1
          → Follows (mode_of t s) old schema
          → IsWellFormed t'
      go (q ∷ more) old since n f = cc (e, register_version-taken h more old q since n)
      go [] old since n f =
          let n' : v ≡ length (of_subject t s) + 1 = rw since n in
          let f' : Follows (mode_of t s) (of_subject t s) schema = rw since f in
          record { numbered = λ j. (good e j h n' f').0; checked = λ j. (good e j h n' f').1 }
