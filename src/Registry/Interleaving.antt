-- ===== src/Registry/Interleaving.antt =====
-- Registrations that run at the same time. A request reads the latest version and checks its
-- candidate, and inserts it later; in between other requests run. The mode of a subject never
-- changes once it is stored, and is the default until then, so that the reads of one check count as
-- made when the latest version is read.
use event_driven_data_platfo.Base.{
  ℕ, ◌+◌, ◌≡◌, refl, ap, sym, ◌∙◌, Bool, true, false, String, Option, none, some, List, [], ◌∷◌,
  ◌++◌, ◌==◌, if◌then◌else◌, or_else, append_assoc,
}
use event_driven_data_platfo.Compatibility.{Schema}
use event_driven_data_platfo.Registry.{
  VersionRow, Tables, CompatibilityResult, ensure_subject, default_compatibility, register_version,
  record_compatibility_check, evaluate_compatibility, as_check, inserted,
}
use event_driven_data_platfo.Registry.History.{
  IsWellFormed, IsJustified, of_subject, mode_of, mode_of-ensure_subject, versions-ensure_subject,
  ensure_subject-IsWellFormed, record_check-IsWellFormed, register_version-IsWellFormed,
  history-register,
}
use event_driven_data_platfo.Registry.Handlers.{evaluate-IsJustified, evaluate-record_check}

-- A request between its check and its insert.
pub record Pending : Type 0 where
  pub subject : String
  pub next_version : ℕ
  pub schema_json : Schema
  pub registered_by : Option String

pub record Server : Type 0 where
  pub tables : Tables
  pub pending : List Pending

-- The tables once a request has made the subject and recorded its check.
abbrev pub checked_tables : Tables → String → CompatibilityResult → Tables
checked_tables t s result =
    record_compatibility_check (ensure_subject t s default_compatibility) (as_check result false)

abbrev pub insert_pending : Tables → Pending → Option (Tables × VersionRow)
insert_pending t p = register_version t p.subject p.next_version p.schema_json p.registered_by

pub data Step (v : Server) : Server → Type 0 where
  -- a request whose candidate is compatible goes on to insert it
  accept :
      (s : String) (schema : Schema) (by : Option String) (result : CompatibilityResult)
      → evaluate_compatibility (ensure_subject v.tables s default_compatibility) s schema
        ≡ some result
      → result.is_compatible ≡ true
      → Step v (record {
        tables = checked_tables v.tables s result;
        pending =
            record {
              subject = s;
              next_version = or_else result.checked_against_version 0 + 1;
              schema_json = schema;
              registered_by = by;
            }
            ∷ v.pending;
      })
  -- a request whose candidate is refused ends
  refuse :
      (s : String) (schema : Schema) (result : CompatibilityResult)
      → evaluate_compatibility (ensure_subject v.tables s default_compatibility) s schema
        ≡ some result
      → result.is_compatible ≡ false
      → Step v (record { tables = checked_tables v.tables s result; pending = v.pending })
  -- a request that has nothing to store ends
  skip :
      (s : String)
      → Step v
          (record { tables = ensure_subject v.tables s default_compatibility; pending = v.pending })
  -- a pending request inserts its row, or meets the primary key and fails
  insert :
      (before after : List Pending) (p : Pending)
      → v.pending ≡ before ++ p ∷ after
      → Step v (record {
        tables = (inserted v.tables (insert_pending v.tables p)).0;
        pending = before ++ after;
      })

pub data Reach (v : Server) : Server → Type 0 where
  here : Reach v v
  next : {w u : Server} → Reach v w → Step w u → Reach v u

abbrev Justified : Tables → Pending → Type 0
Justified t p = IsJustified t p.subject p.next_version p.schema_json

abbrev AllJustified : Tables → List Pending → Type 0
AllJustified t [] = Unit
AllJustified t (p ∷ ps) = Justified t p × AllJustified t ps

-- Versions are only added, and modes stay.
record Grows (t u : Tables) : Type 0 where
  rows : (s : String) → (more : List VersionRow) × (of_subject u s ≡ more ++ of_subject t s)
  modes : (s : String) → mode_of u s ≡ mode_of t s

Justified-Grows : {t u : Tables} (p : Pending) → Grows t u → Justified t p → Justified u p
Justified-Grows p g j =
    let (more, e) = g.rows p.subject in
    record {
      more = more ++ j.more;
      old = j.old;
      since = e ∙ (ap (λ rows. more ++ rows) j.since ∙ sym (append_assoc more j.more j.old));
      next = j.next;
      follows = rw (g.modes p.subject) j.follows;
    }

AllJustified-Grows :
    {t u : Tables} (ps : List Pending) → Grows t u → AllJustified t ps → AllJustified u ps
AllJustified-Grows [] g h = tt
AllJustified-Grows (p ∷ ps) g h = (Justified-Grows p g h.0, AllJustified-Grows ps g h.1)

Grows-ensure : (t : Tables) (s : String) → Grows t (ensure_subject t s default_compatibility)
Grows-ensure t s = record {
  rows = λ j. ([], rw (versions-ensure_subject t s default_compatibility) refl);
  modes = mode_of-ensure_subject t s;
}

Grows-checked :
    (t : Tables) (s : String) (result : CompatibilityResult) → Grows t (checked_tables t s result)
unfolding record_compatibility_check ensure_subject
Grows-checked t s result = let g = Grows-ensure t s in record { rows = g.rows; modes = g.modes }

Grows-inserted :
    (t : Tables) (p : Pending) (o : Option (Tables × VersionRow))
    → insert_pending t p ≡ o
    → Grows t (inserted t o).0
Grows-inserted t p none e = record { rows = λ s. ([], refl); modes = λ s. refl }
Grows-inserted t p (some (u, row)) e = record {
  rows = λ j. more j (p.subject == j) (made j).0;
  modes = λ j. (made j).1;
}
  where
    made :
        (j : String)
        → (of_subject u j ≡ (if p.subject == j then row ∷ of_subject t j else of_subject t j))
          × (mode_of u j ≡ mode_of t j)
    made j = history-register t p.subject p.next_version p.schema_json p.registered_by j e

    more :
        (j : String) (b : Bool)
        → of_subject u j ≡ (if b then row ∷ of_subject t j else of_subject t j)
        → (m : List VersionRow) × (of_subject u j ≡ m ++ of_subject t j)
    more j true q = (row ∷ [], q)
    more j false q = ([], q)

pub record IsConsistent (v : Server) : Type 0 where
  pub well_formed : IsWellFormed v.tables
  pub justified : AllJustified v.tables v.pending

AllJustified-split :
    (t : Tables) (before after : List Pending) (p : Pending)
    → AllJustified t (before ++ p ∷ after)
    → Justified t p × AllJustified t (before ++ after)
AllJustified-split t [] after p h = h
AllJustified-split t (q ∷ before) after p h =
    let (j, rest) = AllJustified-split t before after p h.1 in (j, (h.0, rest))

inserted-IsWellFormed :
    (t : Tables) (p : Pending) (o : Option (Tables × VersionRow))
    → IsWellFormed t
    → Justified t p
    → insert_pending t p ≡ o
    → IsWellFormed (inserted t o).0
inserted-IsWellFormed t p none h j e = h
inserted-IsWellFormed t p (some (u, row)) h j e =
    register_version-IsWellFormed t p.subject p.next_version p.schema_json p.registered_by h j e

checked-IsWellFormed :
    (t : Tables) (s : String) (r : CompatibilityResult)
    → IsWellFormed t
    → IsWellFormed (checked_tables t s r)
checked-IsWellFormed t s r h =
    record_check-IsWellFormed (ensure_subject t s default_compatibility) (as_check r false)
      (ensure_subject-IsWellFormed t s h)

Step-IsConsistent : {v w : Server} → Step v w → IsConsistent v → IsConsistent w
Step-IsConsistent {v} (accept s schema by r e ok) c =
    let w = checked-IsWellFormed v.tables s r c.well_formed in
    record {
      well_formed = w;
      justified = (
        evaluate-IsJustified (checked_tables v.tables s r) s schema r w
            (evaluate-record_check (ensure_subject v.tables s default_compatibility) s schema
                (as_check r false)
              ∙ e)
            ok,
        AllJustified-Grows v.pending (Grows-checked v.tables s r) c.justified,
      );
    }
Step-IsConsistent {v} (refuse s schema r e bad) c = record {
  well_formed = checked-IsWellFormed v.tables s r c.well_formed;
  justified = AllJustified-Grows v.pending (Grows-checked v.tables s r) c.justified;
}
Step-IsConsistent {v} (skip s) c = record {
  well_formed = ensure_subject-IsWellFormed v.tables s c.well_formed;
  justified = AllJustified-Grows v.pending (Grows-ensure v.tables s) c.justified;
}
Step-IsConsistent {v} (insert before after p e) c =
    let (j, rest) = AllJustified-split v.tables before after p (rw e at c.justified) in
    record {
      well_formed =
          inserted-IsWellFormed v.tables p (insert_pending v.tables p) c.well_formed j refl;
      justified =
          AllJustified-Grows (before ++ after)
            (Grows-inserted v.tables p (insert_pending v.tables p) refl) rest;
    }

-- However the steps of concurrent registrations interleave, the registry stays well formed: no
-- version is stored that was not checked against the version before it, none is stored twice.
pub Reach-IsConsistent : {v w : Server} → IsConsistent v → Reach v w → IsConsistent w
Reach-IsConsistent c here = c
Reach-IsConsistent c (next r st) = Step-IsConsistent st (Reach-IsConsistent c r)
