-- ===== src/Lineage/Reports.antt =====
-- What validate_graph reports, against what the catalog declares.
use event_driven_data_platfo.Base.{String, [], ◌++◌, true, ◌||◌, contains, ◌≡◌, ◌≢◌}
use event_driven_data_platfo.Lineage.{Table, Catalog}
use event_driven_data_platfo.Lineage.Nodes.{
  Files, table_names, sources_verify, node_sources, all_nodes, is_recognized,
}

-- The table has an edge.
abbrev pub IsConnected : Table → Type 0
IsConnected t = t.upstream ++ t.downstream ≢ []

-- The sources of each node that can be checked have the table's name.
abbrev pub IsVerified : Files → Table → Type 0
IsVerified files t =
    (node : String)
    → contains (t.upstream ++ t.downstream) node ≡ true
    → sources_verify files t.name (node_sources node) ≡ true

-- Each node is a table or is recognized.
abbrev pub HasKnownNodes : Catalog → Type 0
HasKnownNodes c =
    (node : String)
    → contains (all_nodes c) node ≡ true
    → (contains (table_names c) node || is_recognized node) ≡ true
