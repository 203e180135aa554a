-- ===== src/Lineage.antt =====
-- src/lineage/graph.py: the lineage graph of the data catalog, its edges and its cycles.
pub mod Search
pub mod Walks
pub mod Invariant
pub mod Exploration
pub mod Edges
pub mod Cycles
pub mod Nodes
pub mod Reports
mod Tests
use event_driven_data_platfo.Base.{
  String, List, [], ◌∷◌, ◌++◌, Dict, lookup, insert, or_else, Option, some, ◌>>=◌, keys, length,
  suc,
}
use event_driven_data_platfo.Lineage.Search.{dfs, start_at_all, no_search}

-- An entry of the catalog's tables; a list that the entry does not have is empty.
pub record Table : Type 0 where
  pub name : String
  pub upstream : List String
  pub downstream : List String

abbrev pub Catalog : Type 0
Catalog = List Table

abbrev pub Edge : Type 0
Edge = String × String

-- The edges into a table, from each of its upstream nodes.
unfoldable pub edges_into : String → List String → List Edge
edges_into name [] = []
edges_into name (upstream ∷ rest) = (upstream, name) ∷ edges_into name rest

-- The edges out of a table, to each of its downstream nodes.
unfoldable pub edges_from : String → List String → List Edge
edges_from name [] = []
edges_from name (downstream ∷ rest) = (name, downstream) ∷ edges_from name rest

unfoldable pub build_edges : Catalog → List Edge
unfolding edges_into edges_from
build_edges [] = []
build_edges (t ∷ rest) =
    edges_into t.name t.upstream ++ (edges_from t.name t.downstream ++ build_edges rest)

-- `adjacency.get(node, [])`
unfoldable pub neighbours : Dict (List String) → String → List String
unfolding lookup
neighbours adjacency node = or_else (lookup node adjacency) []

-- `adjacency.setdefault(src, []).append(dst)` for each edge, after those in `adjacency`
unfoldable pub add_edges : List Edge → Dict (List String) → Dict (List String)
unfolding neighbours insert
add_edges [] adjacency = adjacency
add_edges ((src, dst) ∷ rest) adjacency =
    add_edges rest (insert src (neighbours adjacency src ++ (dst ∷ [])) adjacency)

-- `none` when an exception is raised or a recursion is deeper than there are nodes with edges out.
unfoldable pub find_cycles : Catalog → Option (List (List String))
unfolding build_edges add_edges neighbours dfs start_at_all
find_cycles catalog =
    let adjacency = add_edges (build_edges catalog) [] in
    start_at_all (dfs (neighbours adjacency) (suc (length (keys adjacency)))) (keys adjacency)
      no_search
    >>= λ s. some s.cycles
