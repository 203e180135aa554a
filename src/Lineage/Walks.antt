-- ===== src/Lineage/Walks.antt =====
-- Walks along the neighbours of nodes, which the search of find_cycles looks for.
use mathlib.Core.WellFounded.{Acc}
use event_driven_data_platfo.Base.{
  String, List, [], ◌∷◌, ◌++◌, true, contains, ◌≡◌, refl, arith, ap, ◌==◌, eq_iff, some, Bool-cases,
  inl, inr,
}
use event_driven_data_platfo.Lineage.Search.{from_index, pop}

module _ (neighbours : String → List String) where
  abbrev pub IsEdge : String → String → Type 0
  IsEdge x y = contains (neighbours x) y ≡ true

  -- Each node of the list is followed by a neighbour of it.
  abbrev pub IsWalk : List String → Type 0
  IsWalk [] = Unit
  IsWalk (x ∷ []) = Unit
  IsWalk (x ∷ y ∷ rest) = IsEdge x y × IsWalk (y ∷ rest)

  -- A walk of at least one edge that ends where it starts.
  abbrev pub IsCycle : List String → Type 0
  IsCycle c = (x : String) × (path : List String) × (c ≡ x ∷ (path ++ (x ∷ []))) × IsWalk c

  pub IsWalk-extend :
      (path : List String) (x y : String)
      → IsWalk (path ++ (x ∷ []))
      → IsEdge x y
      → IsWalk ((path ++ (x ∷ [])) ++ (y ∷ []))
  IsWalk-extend [] x y w e = (e, tt)
  IsWalk-extend (p ∷ []) x y w e = (w.0, (e, tt))
  IsWalk-extend (p ∷ q ∷ path) x y w e = (w.0, IsWalk-extend (q ∷ path) x y w.1 e)

  pub IsWalk-suffix : (prefix path : List String) → IsWalk (prefix ++ path) → IsWalk path
  IsWalk-suffix [] path w = w
  IsWalk-suffix (p ∷ []) [] w = tt
  IsWalk-suffix (p ∷ []) (x ∷ path) w = w.1
  IsWalk-suffix (p ∷ q ∷ prefix) path w = IsWalk-suffix (q ∷ prefix) path w.1

  -- From a node that is reached backwards from no infinite walk.
  abbrev pub Ends : String → Type 0
  Ends x = Acc (λ y z. IsEdge z y) x

  pub not_on_cycle :
      {x : String} → Ends x → (path : List String) → ¬ IsWalk (x ∷ (path ++ (x ∷ [])))
  not_on_cycle (Acc.intro x h) [] w = not_on_cycle (h x w.0) [] w
  not_on_cycle (Acc.intro x h) (y ∷ path) w =
      not_on_cycle (h y w.0) (path ++ (x ∷ [])) (IsWalk-extend (y ∷ path) x y w.1 w.0)

pub from_index-suffix :
    (x : String) (xs : List String)
    → contains xs x ≡ true
    → (prefix path : List String) × (from_index x xs ≡ some (x ∷ path))
      × (xs ≡ prefix ++ (x ∷ path))
unfolding contains from_index
from_index-suffix x [] h = cc
from_index-suffix x (y ∷ ys) h = elim (Bool-cases (y == x)) [
  | inl e ↦ ([], ys, rw (e, (eq_iff y x).0 e) refl, rw ((eq_iff y x).0 e) refl)
  | inr e ↦
      let (prefix, path, found, split) = from_index-suffix x ys (ground (arith)) in
      (y ∷ prefix, path, rw (e) found, ap (λ l. y ∷ l) split)
]

pub pop-append : (xs : List String) (x : String) → pop (xs ++ (x ∷ [])) ≡ xs
unfolding pop
pop-append [] x = refl
pop-append (y ∷ []) x = refl
pop-append (y ∷ z ∷ xs) x = ap (λ l. y ∷ l) (pop-append (z ∷ xs) x)
