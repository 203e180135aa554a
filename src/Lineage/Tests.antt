-- ===== src/Lineage/Tests.antt =====
-- Runs of graph.py on small catalogs, and the theorems about it at those inputs.
use event_driven_data_platfo.Base.{
  String, List, [], ◌∷◌, true, some, keys, sorted_set, ◌≡◌, ◌↔◌, refl,
}
use event_driven_data_platfo.Lineage.{Table, Catalog, build_edges, find_cycles}
use event_driven_data_platfo.Lineage.Walks.{IsCycle}
use event_driven_data_platfo.Lineage.Invariant.{AreCycles}
use event_driven_data_platfo.Lineage.Edges.{targets}
use event_driven_data_platfo.Lineage.Cycles.{find_cycles-AreCycles, find_cycles-eq-nil}
use event_driven_data_platfo.Lineage.Nodes.{
  Files, validate_graph, sources_verify, node_sources, verify_checkable_edges, graph_report,
  find_orphan_tables, verify_all_external_nodes_recognized, is_orphan, verify_nodes, unrecognized,
  all_nodes, table_names, verifiable_node_sources, is_recognized, some_source_contains,
  has_generic_prefix, file_or_dbt_refs_contain, content_or_refs_contain, occurs,
}

abbrev raw_events : Table
raw_events = record {
  name = "raw_events";
  upstream = "kafka.domain_topics" ∷ [];
  downstream = "hourly_metrics" ∷ "processing-service" ∷ [];
}

abbrev hourly_metrics : Table
hourly_metrics = record {
  name = "hourly_metrics";
  upstream = "raw_events" ∷ [];
  downstream = "analytics.metrics_api" ∷ [];
}

-- It names the table that it is made from as one that it feeds.
abbrev daily_metrics : Table
daily_metrics = record {
  name = "daily_metrics";
  upstream = "hourly_metrics" ∷ [];
  downstream = "raw_events" ∷ "daily_metrics" ∷ [];
}

abbrev lineage : Catalog
lineage = raw_events ∷ hourly_metrics ∷ []

abbrev looped : Catalog
looped = raw_events ∷ hourly_metrics ∷ daily_metrics ∷ []

-- Every file holds the names of both tables.
abbrev files : Files
files = record {
  read_text = λ path. some "insert into raw_events; select from hourly_metrics";
  is_sql = λ path. true;
  findall = λ content. "stg_events" ∷ [];
  staging = λ path ref_model. ref_model;
}

finds_two_cycles :
    find_cycles looped
    ≡ some (
        ("raw_events" ∷ "hourly_metrics" ∷ "daily_metrics" ∷ "raw_events" ∷ [])
        ∷ ("daily_metrics" ∷ "daily_metrics" ∷ [])
        ∷ [])
unfolding find_cycles keys
finds_two_cycles = refl

clean_report :
    validate_graph files lineage
    ≡ some
        record { cycles = []; orphan_tables = []; unverified_edges = []; unrecognized_nodes = [] }
unfolding validate_graph find_cycles keys graph_report find_orphan_tables verify_checkable_edges
    verify_all_external_nodes_recognized is_orphan verify_nodes unrecognized sorted_set
    sources_verify all_nodes node_sources table_names verifiable_node_sources is_recognized
    some_source_contains has_generic_prefix file_or_dbt_refs_contain content_or_refs_contain occurs
clean_report = refl

find_cycles-AreCycles_example :
    (cycles : List (List String)) × (find_cycles looped ≡ some cycles)
    × AreCycles (targets (build_edges looped)) cycles
find_cycles-AreCycles_example = find_cycles-AreCycles looped

find_cycles-eq-nil_example :
    (find_cycles lineage ≡ some [])
    ↔ ((path : List String) → ¬ IsCycle (targets (build_edges lineage)) path)
find_cycles-eq-nil_example = find_cycles-eq-nil lineage
