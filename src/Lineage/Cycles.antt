-- ===== src/Lineage/Cycles.antt =====
-- find_cycles ends, and finds a cycle exactly when the declared edges have one.
use mathlib.Core.WellFounded.{Acc}
use event_driven_data_platfo.Base.{
  suc, ◌≤◌, String, List, [], ◌∷◌, true, false, contains, ◌≡◌, refl, arith, some, some_inj, Dict,
  lookup, keys, contains-keys, inl, inr, Bool-cases, subst, sym, ap, ◌∙◌, ◌↔◌, length, difference,
}
use event_driven_data_platfo.Lineage.{Catalog, build_edges, neighbours, add_edges, find_cycles}
use event_driven_data_platfo.Lineage.Edges.{targets, neighbours-add_edges}
use event_driven_data_platfo.Lineage.Search.{Search, dfs, start_at_all, no_search}
use event_driven_data_platfo.Lineage.Walks.{IsWalk, IsCycle, Ends, not_on_cycle}
use event_driven_data_platfo.Lineage.Invariant.{AreCycles, IsSound}
use event_driven_data_platfo.Lineage.Exploration.{start_at_all-Goes, dfs-Searches}

no_edge : (y : String) → contains [] y ≡ true → ⊥
unfolding contains
no_edge y h = cc

length-difference_le : (xs ys : List String) → length (difference xs ys) ≤ length xs
unfolding difference
length-difference_le [] ys = omega arith
length-difference_le (x ∷ xs) ys = ground (arith, length-difference_le xs ys)

module _ (adjacency : Dict (List String)) where
  without_key : (n : String) → contains (keys adjacency) n ≡ false → neighbours adjacency n ≡ []
  unfolding neighbours
  without_key n out = ground (arith, contains-keys adjacency n)

  no_search-IsSound : IsSound (neighbours adjacency) no_search
  no_search-IsSound = record {
    on_stack_same = λ x. refl;
    on_visited = λ x e. unfold contains in (cc);
    path = tt;
    closed = tt;
    ended = λ e x v off. unfold contains in (cc);
  }

  -- The search of a graph ends, with cycles only, and with none only if no walk is infinite.
  search_lem :
      (t : Search) × (start_at_all
          (dfs (neighbours adjacency) (suc (length (keys adjacency))))
          (keys adjacency)
          no_search
        ≡ some t)
      × AreCycles (neighbours adjacency) t.cycles
      × (t.cycles ≡ [] → (n : String) → Ends (neighbours adjacency) n)
  search_lem =
      let nodes = keys adjacency in
      let next = neighbours adjacency in
      let fuel = suc (length nodes) in
      let (t, went, a, seen, ends) =
        start_at_all-Goes next nodes fuel (dfs next fuel) (dfs-Searches next nodes fuel without_key)
          nodes no_search no_search-IsSound refl (omega (arith, length-difference_le nodes [])) in
      (
        t,
        went,
        a.sound.closed,
        λ e n. elim (Bool-cases (contains nodes n)) [
          | inl inside ↦ ends e n inside
          | inr out ↦ Acc.intro n λ y k. absurd (no_edge y (rw (without_key n out) at k))
        ],
      )

-- The neighbours that the search is given are the targets of the catalog's edges.
neighbours-build_edges :
    (c : Catalog) → neighbours (add_edges (build_edges c) []) ≡ targets (build_edges c)
unfolding neighbours lookup
neighbours-build_edges c = λ i x. neighbours-add_edges (build_edges c) [] x i

find_cycles_lem :
    (c : Catalog)
    → (cycles : List (List String)) × (find_cycles c ≡ some cycles)
      × AreCycles (targets (build_edges c)) cycles
      × (cycles ≡ [] → (n : String) → Ends (targets (build_edges c)) n)
unfolding find_cycles
find_cycles_lem c =
    let (t, went, cycles, ends) = search_lem (add_edges (build_edges c) []) in
    (
      t.cycles,
      rw went refl,
      subst (λ next. AreCycles next t.cycles) (neighbours-build_edges c) cycles,
      subst (λ next. t.cycles ≡ [] → (n : String) → Ends next n) (neighbours-build_edges c) ends,
    )

-- find_cycles ends without an exception, and each list that it returns is a walk along declared
-- edges that comes back to where it starts.
pub find_cycles-AreCycles :
    (c : Catalog)
    → (cycles : List (List String)) × (find_cycles c ≡ some cycles)
      × AreCycles (targets (build_edges c)) cycles
find_cycles-AreCycles c = let (cycles, found, are, ends) = find_cycles_lem c in (cycles, found, are)

nil-of_acyclic :
    (next : String → List String) (cycles : List (List String))
    → AreCycles next cycles
    → ((path : List String) → ¬ IsCycle next path)
    → cycles ≡ []
nil-of_acyclic next [] are acyclic = refl
nil-of_acyclic next (c ∷ cs) are acyclic = absurd (acyclic c are.0)

-- find_cycles returns nothing exactly when no walk along declared edges comes back to where it
-- starts.
pub find_cycles-eq-nil :
    (c : Catalog)
    → (find_cycles c ≡ some []) ↔ ((path : List String) → ¬ IsCycle (targets (build_edges c)) path)
find_cycles-eq-nil c =
    let (cycles, found, are, ends) = find_cycles_lem c in
    (
      λ none_found (path : List String) (x, rest, e, walk).
          not_on_cycle (targets (build_edges c)) (ends (some_inj (sym found ∙ none_found)) x) rest
            (subst (λ l. IsWalk (targets (build_edges c)) l) e walk),
      λ acyclic. found ∙ ap some (nil-of_acyclic (targets (build_edges c)) cycles are acyclic),
    )
