-- ===== src/Lineage/Edges.antt =====
-- build_edges and the adjacency of find_cycles have the edges that the catalog's entries declare.
use event_driven_data_platfo.Base.{
  String, List, [], ◌∷◌, ◌++◌, false, contains, contains-append, ◌≡◌, refl, arith, Bool, ◌||◌, ◌&&◌,
  append_assoc, append-nil, Dict, insert, lookup-insert, inl, inr, Bool-cases, sym, eq_iff, ◌==◌,
  if◌then◌else◌,
}
use event_driven_data_platfo.Lineage.{
  Catalog, Edge, edges_into, edges_from, build_edges, neighbours, add_edges,
}

-- The nodes that the edges lead to from `x`.
unfoldable pub targets : List Edge → String → List String
targets [] x = []
targets ((src, dst) ∷ rest) x = let more = targets rest x in if src == x then dst ∷ more else more

-- Some entry of the catalog declares an edge from `x` to `y`, on one of its two sides.
unfoldable pub declares : Catalog → String → String → Bool
unfolding contains
declares [] x y = false
declares (t ∷ rest) x y =
    ((t.name == y) && contains t.upstream x)
    || ((t.name == x) && contains t.downstream y)
    || declares rest x y

targets-append :
    (es fs : List Edge) (x : String) → targets (es ++ fs) x ≡ targets es x ++ targets fs x
unfolding targets
targets-append [] fs x = refl
targets-append ((src, dst) ∷ es) fs x = elim (Bool-cases (src == x)) [
  | inl e ↦ rw (e, targets-append es fs x) refl
  | inr e ↦ rw (e, targets-append es fs x) refl
]

targets-edges_into :
    (name : String) (ups : List String) (x y : String)
    → contains (targets (edges_into name ups) x) y ≡ ((name == y) && contains ups x)
unfolding targets edges_into contains
targets-edges_into name [] x y = ground arith
targets-edges_into name (u ∷ ups) x y = ground (arith, targets-edges_into name ups x y)

targets-edges_from :
    (name : String) (downs : List String) (x y : String)
    → contains (targets (edges_from name downs) x) y ≡ ((name == x) && contains downs y)
unfolding targets edges_from contains
targets-edges_from name [] x y = ground arith
targets-edges_from name (d ∷ downs) x y = ground (arith, targets-edges_from name downs x y)

-- The edges of the graph are those that the entries declare.
pub targets-build_edges :
    (c : Catalog) (x y : String) → contains (targets (build_edges c) x) y ≡ declares c x y
unfolding build_edges declares contains
targets-build_edges [] x y = unfold targets in refl
targets-build_edges (t ∷ rest) x y =
    let into = edges_into t.name t.upstream in
    let out = edges_from t.name t.downstream in
    rw (targets-append into (out ++ build_edges rest) x, targets-append out (build_edges rest) x)
      (ground (
        arith,
        contains-append (targets into x) (targets out x ++ targets (build_edges rest) x) y,
        contains-append (targets out x) (targets (build_edges rest) x) y,
        targets-edges_into t.name t.upstream x y,
        targets-edges_from t.name t.downstream x y,
        targets-build_edges rest x y,
      ))

neighbours-insert :
    (src x : String) (ns : List String) (d : Dict (List String))
    → neighbours (insert src ns d) x ≡ (if src == x then ns else neighbours d x)
unfolding neighbours
neighbours-insert src x ns d = ground (arith, lookup-insert src x ns d)

pub neighbours-add_edges :
    (es : List Edge) (d : Dict (List String)) (x : String)
    → neighbours (add_edges es d) x ≡ neighbours d x ++ targets es x
unfolding add_edges targets
neighbours-add_edges [] d x = sym (append-nil (neighbours d x))
neighbours-add_edges ((src, dst) ∷ es) d x =
    rw
      (
        neighbours-add_edges es (insert src (neighbours d src ++ (dst ∷ [])) d) x,
        neighbours-insert src x (neighbours d src ++ (dst ∷ [])) d,
      )
      (elim (Bool-cases (src == x)) [
        | inl e ↦
            rw (e, (eq_iff src x).0 e) (append_assoc (neighbours d x) (dst ∷ []) (targets es x))
        | inr e ↦ rw (e) refl
      ])
