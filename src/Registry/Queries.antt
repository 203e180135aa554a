-- ===== src/Registry/Queries.antt =====
-- The queries of the repository over the rows of one subject.
use event_driven_data_platfo.Base.{
  ℕ, ◌+◌, ◌≤◌, ◌<◌, ◌≡◌, refl, true, String, Option, none, some, List, [], ◌∷◌, arith, ◌==◌,
  is_some, if◌then◌else◌, length, ◌∙◌, eqb,
}
use event_driven_data_platfo.Registry.{VersionRow, newest, newer, find_version}

-- The versions of a subject, newest row first.
unfoldable pub history : String → List VersionRow → List VersionRow
history s [] = []
history s (r ∷ rs) = let rest = history s rs in if r.subject == s then r ∷ rest else rest

-- Numbered from one without a gap, in the order of registration.
abbrev pub IsNumbered : List VersionRow → Type 0
IsNumbered [] = Unit
IsNumbered (r ∷ rs) = (r.version ≡ length rs + 1) × IsNumbered rs

abbrev pub head_of : List VersionRow → Option VersionRow
head_of [] = none
head_of (r ∷ _) = some r

newest_of : List VersionRow → Option VersionRow
newest_of [] = none
newest_of (r ∷ rs) = newer r (newest_of rs)

newest-history : (s : String) (rows : List VersionRow) → newest s rows ≡ newest_of (history s rows)
unfolding newest history newest_of
newest-history s [] = refl
newest-history s (r ∷ rs) = ground (arith, newest-history s rs)

newest_of-IsNumbered : (rs : List VersionRow) → IsNumbered rs → newest_of rs ≡ head_of rs
unfolding newest_of
newest_of-IsNumbered [] h = refl
newest_of-IsNumbered (r ∷ []) h = refl
newest_of-IsNumbered (r ∷ q ∷ rs) h = ground (arith, newest_of-IsNumbered (q ∷ rs) h.1)

-- In a numbered history the highest version is the row registered last.
pub newest-IsNumbered :
    (s : String) (rows : List VersionRow)
    → IsNumbered (history s rows)
    → newest s rows ≡ head_of (history s rows)
newest-IsNumbered s rows h = newest-history s rows ∙ newest_of-IsNumbered (history s rows) h

find_of : ℕ → List VersionRow → Option VersionRow
find_of v [] = none
find_of v (r ∷ rs) = if eqb r.version v then some r else find_of v rs

find_version-history :
    (s : String) (v : ℕ) (rows : List VersionRow)
    → find_version s v rows ≡ find_of v (history s rows)
unfolding find_version history find_of
find_version-history s v [] = refl
find_version-history s v (r ∷ rs) = ground (arith, find_version-history s v rs)

find_of-none : (v : ℕ) (rs : List VersionRow) → IsNumbered rs → length rs < v → find_of v rs ≡ none
unfolding find_of
find_of-none v [] h lt = refl
find_of-none v (r ∷ rs) h lt = ground (arith, find_of-none v rs h.1)

find_of-some :
    (v : ℕ) (rs : List VersionRow)
    → IsNumbered rs
    → 1 ≤ v
    → v ≤ length rs
    → is_some (find_of v rs) ≡ true
unfolding find_of
find_of-some v [] h lo hi = absurd (omega arith)
find_of-some v (r ∷ rs) h lo hi = ground (arith, find_of-some v rs h.1)

-- A version number is taken exactly when it is at most the number of versions.
pub find_version-none :
    (s : String) (v : ℕ) (rows : List VersionRow)
    → IsNumbered (history s rows)
    → length (history s rows) < v
    → find_version s v rows ≡ none
find_version-none s v rows h lt =
    find_version-history s v rows ∙ find_of-none v (history s rows) h lt

pub find_version-some :
    (s : String) (v : ℕ) (rows : List VersionRow)
    → IsNumbered (history s rows)
    → 1 ≤ v
    → v ≤ length (history s rows)
    → is_some (find_version s v rows) ≡ true
find_version-some s v rows h lo hi =
    rw find_version-history (find_of-some v (history s rows) h lo hi)
