-- ===== src/Base/Dicts.antt =====
-- Python's `dict` and `set` with text keys. A dict is an association list in insertion order.
use Prim.Native.Nat.{Ordering}
use Prim.Native.String.{String, compare}
use mathlib.Core.Path.{◌≡◌, refl, sym, subst}
use mathlib.Core.Logic.{◌↔◌}
use mathlib.Core.Bool.{Bool, true, false, not, ◌&&◌, ◌||◌}
use mathlib.Core.Option.{Option, none, some}
use mathlib.Core.List.{List, [], ◌∷◌, ◌++◌}
use native.Mathlib.Omega.{arith}
use text.Mathlib.Text.{◌==◌}
use text.Mathlib.TextEquality.{eq_iff}
use text.Mathlib.TextPositions.{eq_refl}
use event_driven_data_platfo.Base.Tests.{if◌then◌else◌, is_some}

abbrev pub Dict {ℓ} : Type ℓ → Type ℓ
Dict V = List (String × V)

module _ {ℓ} {V : Type ℓ} where
  -- `d.get(k)`
  unfoldable pub lookup : String → Dict V → Option V
  lookup k [] = none
  lookup k ((j, v) ∷ d) = if j == k then some v else lookup k d

  -- `d[k] = v`
  unfoldable pub insert : String → V → Dict V → Dict V
  insert k v [] = (k, v) ∷ []
  insert k v ((j, w) ∷ d) = if j == k then (k, v) ∷ d else (j, w) ∷ insert k v d

  unfoldable pub keys : Dict V → List String
  keys [] = []
  keys ((j, _) ∷ d) = j ∷ keys d

  pub lookup-insert :
      (k j : String) (v : V) (d : Dict V)
      → lookup j (insert k v d) ≡ (if k == j then some v else lookup j d)
  unfolding lookup insert
  lookup-insert k j v [] = refl
  lookup-insert k j v ((i, w) ∷ d) =
      ground (arith, eq_iff k j, eq_iff i k, eq_iff i j, lookup-insert k j v d)

-- `s in xs`
unfoldable pub contains : List String → String → Bool
contains [] s = false
contains (x ∷ xs) s = (x == s) || contains xs s

pub contains-append :
    (xs ys : List String) (s : String) → contains (xs ++ ys) s ≡ (contains xs s || contains ys s)
unfolding contains
contains-append [] ys s = refl
contains-append (x ∷ xs) ys s = ground (arith, contains-append xs ys s)

pub contains-keys {ℓ} :
    {V : Type ℓ} (d : Dict V) (s : String) → contains (keys d) s ≡ is_some (lookup s d)
unfolding contains keys lookup
contains-keys [] s = refl
contains-keys ((j, v) ∷ d) s = ground (arith, contains-keys d s)

-- `set(xs) - set(ys)`, as a list
unfoldable pub difference : List String → List String → List String
difference [] ys = []
difference (x ∷ xs) ys = let rest = difference xs ys in if contains ys x then rest else x ∷ rest

pub contains-difference :
    (xs ys : List String) (s : String)
    → contains (difference xs ys) s ≡ (contains xs s && not (contains ys s))
unfolding contains difference
contains-difference [] ys s = refl
contains-difference (x ∷ xs) ys s = ground (arith, eq_iff x s, contains-difference xs ys s)

pub eq-nil-of_contains : (xs : List String) → ((s : String) → contains xs s ≡ false) → xs ≡ []
unfolding contains
eq-nil-of_contains [] h = refl
eq-nil-of_contains (x ∷ xs) h = ground (arith, h x, eq_refl x)

-- A difference is empty exactly when every member of the one list is in the other.
pub difference-eq-nil :
    (xs ys : List String)
    → (difference xs ys ≡ []) ↔ ((s : String) → contains xs s ≡ true → contains ys s ≡ true)
difference-eq-nil xs ys = (
  λ e s h. ground (
    arith,
    contains-difference xs ys s,
    subst (λ zs. contains zs s ≡ false) (sym e) (unfold contains in refl),
  ),
  λ h. eq-nil-of_contains (difference xs ys) λ s. ground (arith, contains-difference xs ys s, h s),
)

-- One member more in a sorted list without duplicates. Texts are ordered by code point.
unfoldable pub insert_sorted : String → List String → List String
insert_sorted s [] = s ∷ []
insert_sorted s (x ∷ xs) =
    let rest = insert_sorted s xs in
    elim (compare s x) [ Ordering.lt ↦ s ∷ x ∷ xs | Ordering.eq ↦ x ∷ xs | Ordering.gt ↦ x ∷ rest ]

-- `sorted(set(xs))`
unfoldable pub sorted_set : List String → List String
unfolding insert_sorted
sorted_set [] = []
sorted_set (x ∷ xs) = insert_sorted x (sorted_set xs)

-- `xs` as a truth value
abbrev pub non_empty {ℓ} : {A : Type ℓ} → List A → Bool
non_empty [] = false
non_empty (_ ∷ _) = true

-- No key occurs twice: the lists that stand for a dict.
abbrev pub IsDict {ℓ} : {V : Type ℓ} → Dict V → Type ℓ
IsDict [] = Unit
IsDict ((k, v) ∷ d) = (lookup k d ≡ none) × IsDict d

contains-insert_sorted :
    (s : String) (xs : List String) (t : String)
    → contains (insert_sorted s xs) t ≡ ((s == t) || contains xs t)
unfolding contains insert_sorted
contains-insert_sorted s [] t = refl
contains-insert_sorted s (x ∷ xs) t = ground (arith, eq_iff s x, contains-insert_sorted s xs t)

pub contains-sorted_set :
    (xs : List String) (s : String) → contains (sorted_set xs) s ≡ contains xs s
unfolding contains sorted_set
contains-sorted_set [] s = refl
contains-sorted_set (x ∷ xs) s =
    ground (arith, contains-insert_sorted x (sorted_set xs) s, contains-sorted_set xs s)
