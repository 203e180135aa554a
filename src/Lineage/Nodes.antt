-- ===== src/Lineage/Nodes.antt =====
-- The checks of graph.py on the nodes of the lineage graph. A path is the text from the project's
-- root; what the files are and what pathlib and the pattern of dbt's references make of them is a
-- parameter. Messages are data, not text.
use text.Mathlib.Text.{starts_with, find?}
use event_driven_data_platfo.Base.{
  String, List, [], ◌∷◌, ◌++◌, Bool, true, false, ◌&&◌, ◌||◌, not, Option, some, none, is_some,
  Dict, lookup, contains, difference, sorted_set, if◌then◌else◌, non_empty, ◌>>=◌, map, ◌++ₛ◌,
}
use event_driven_data_platfo.Lineage.{Table, Catalog, find_cycles}

abbrev pub generic_node_prefixes : List String
generic_node_prefixes =
    "docs." ∷ "platform." ∷ "governance." ∷ "slo." ∷ "ops." ∷ "sql." ∷ "system." ∷ "source."
    ∷ "kafka." ∷ []

abbrev pub generic_nodes : List String
generic_nodes = "dbt.jobs" ∷ "spark.jobs" ∷ []

unfoldable pub verifiable_node_sources : Dict (List String)
verifiable_node_sources =
    (
      "analytics.metrics_api",
      "services/analytics-service/app/repository.py" ∷ "services/analytics-service/app/main.py"
          ∷ [],
    )
    ∷ (
      "analytics.alerts_api",
      "services/analytics-service/app/repository.py" ∷ "services/analytics-service/app/main.py"
          ∷ [],
    )
    ∷ (
      "analytics.tenant_health_score_api",
      "services/analytics-service/app/repository.py" ∷ "services/analytics-service/app/main.py"
          ∷ [],
    )
    ∷ (
      "app.ops_console",
      "services/ops-console/app/main.py" ∷ "services/ops-console/app/observability.py" ∷ [],
    )
    ∷ ("app.demo_dashboard", "services/demo-dashboard/app/main.py" ∷ [])
    ∷ ("platform_cli.ops_watermarks", "platform_cli/__main__.py" ∷ [])
    ∷ (
      "spark.streaming.streaming_job",
      "spark/streaming/streaming_job.py" ∷ "spark/streaming/sinks.py" ∷ [],
    )
    ∷ ("spark.batch_revenue_aggregates", "spark/jobs/batch_revenue_aggregates.py" ∷ [])
    ∷ ("spark.tenant_user_session_summary_stage", "spark/jobs/sessionization_job.py" ∷ [])
    ∷ ("dbt.fct_tenant_daily_metrics", "dbt/models/marts/fct_tenant_daily_metrics.sql" ∷ [])
    ∷ ("dbt.fct_product_performance", "dbt/models/marts/fct_product_performance.sql" ∷ [])
    ∷ ("reliability.late_event_exercise", "reliability/scenarios/late_event.py" ∷ [])
    ∷ (
      "reliability.incident_artifacts",
      "reliability/evidence.py" ∷ "reliability/scenarios/db_outage.py"
          ∷ "reliability/scenarios/poison_event.py" ∷ [],
    )
    ∷ ("reliability.runner", "reliability/runner.py" ∷ [])
    ∷ (
      "services.schema_registry_service",
      "services/schema-registry-service/app/main.py"
          ∷ "services/schema-registry-service/app/repository.py" ∷ [],
    )
    ∷ ("scripts.validate_schema_registry", "scripts/validate_schema_registry.py" ∷ [])
    ∷ ("scripts.backfill_metrics", "scripts/backfill_metrics.py" ∷ [])
    ∷ ("processing-service", "services/processing-service/app/repository.py" ∷ [])
    ∷ []

pub record Files : Type 0 where
  -- `path.read_text()`, where `path.exists()`
  pub read_text : String → Option String
  -- `path.suffix == ".sql"`
  pub is_sql : String → Bool
  -- `_DBT_REF_PATTERN.findall(content)`
  pub findall : String → List String
  -- `path.parent.parent / "staging" / f"{ref_model}.sql"`
  pub staging : String → String → String

unfoldable pub table_names : Catalog → List String
table_names [] = []
table_names (t ∷ rest) = t.name ∷ table_names rest

unfoldable pub is_orphan : Table → Bool
is_orphan t = not (non_empty t.upstream) && not (non_empty t.downstream)

unfoldable pub find_orphan_tables : Catalog → List String
find_orphan_tables [] = []
find_orphan_tables (t ∷ rest) =
    let more = find_orphan_tables rest in if is_orphan t then t.name ∷ more else more

-- `text in content`, of a file that may not exist
unfoldable pub occurs : String → Option String → Bool
occurs text none = false
occurs text (some content) = is_some (find? content text)

unfoldable pub some_ref_contains : Files → String → String → List String → Bool
some_ref_contains files table_name path [] = false
some_ref_contains files table_name path (ref_model ∷ rest) =
    occurs table_name (files.read_text (files.staging path ref_model))
    || some_ref_contains files table_name path rest

unfoldable pub content_or_refs_contain : Files → String → String → Option String → Bool
content_or_refs_contain files table_name path none = false
content_or_refs_contain files table_name path (some content) =
    occurs table_name (some content)
    || (files.is_sql path && some_ref_contains files table_name path (files.findall content))

unfoldable pub file_or_dbt_refs_contain : Files → String → String → Bool
file_or_dbt_refs_contain files table_name path =
    content_or_refs_contain files table_name path (files.read_text path)

unfoldable pub some_source_contains : Files → String → List String → Bool
some_source_contains files name [] = false
some_source_contains files name (path ∷ rest) =
    file_or_dbt_refs_contain files name path || some_source_contains files name rest

-- "catalog claims an edge between table '{name}' and '{node}', but '{name}' does not appear in any
-- of {sources}"
pub record Unverified : Type 0 where
  pub name : String
  pub node : String
  pub sources : List String

-- `VERIFIABLE_NODE_SOURCES.get(node)`
unfoldable pub node_sources : String → Option (List String)
node_sources node = lookup node verifiable_node_sources

-- Whether the sources of a node, if it is one that can be checked, have the table's name.
unfoldable pub sources_verify : Files → String → Option (List String) → Bool
sources_verify files name none = true
sources_verify files name (some sources) = some_source_contains files name sources

abbrev pub unverified : String → String → Option (List String) → Unverified
unverified name node none = record { name = name; node = node; sources = [] }
unverified name node (some sources) = record { name = name; node = node; sources = sources }

-- The body of the loop over the nodes of a table.
unfoldable pub verify_nodes : Files → String → List String → List Unverified
verify_nodes files name [] = []
verify_nodes files name (node ∷ rest) =
    let more = verify_nodes files name rest in
    let sources = node_sources node in
    if sources_verify files name sources then more else unverified name node sources ∷ more

-- The set of a table's nodes is gone through in the order of their texts.
unfoldable pub verify_checkable_edges : Files → Catalog → List Unverified
verify_checkable_edges files [] = []
verify_checkable_edges files (t ∷ rest) =
    verify_nodes files t.name (sorted_set (t.upstream ++ t.downstream))
    ++ verify_checkable_edges files rest

unfoldable pub all_nodes : Catalog → List String
all_nodes [] = []
all_nodes (t ∷ rest) = t.upstream ++ (t.downstream ++ all_nodes rest)

unfoldable pub has_generic_prefix : List String → String → Bool
has_generic_prefix [] node = false
has_generic_prefix (prefix ∷ rest) node = starts_with node prefix || has_generic_prefix rest node

unfoldable pub is_recognized : String → Bool
is_recognized node =
    is_some (node_sources node)
    || contains generic_nodes node
    || has_generic_prefix generic_node_prefixes node

unfoldable pub unrecognized : List String → List String
unrecognized [] = []
unrecognized (node ∷ rest) =
    let more = unrecognized rest in if is_recognized node then more else node ∷ more

unfoldable pub verify_all_external_nodes_recognized : Catalog → List String
verify_all_external_nodes_recognized c =
    unrecognized (difference (sorted_set (all_nodes c)) (table_names c))

-- `" -> ".join(cycle)`
unfoldable pub arrows : List String → String
arrows [] = ""
arrows (x ∷ []) = x
arrows (x ∷ y ∷ rest) = x ++ₛ (" -> " ++ₛ arrows (y ∷ rest))

pub record GraphReport : Type 0 where
  pub cycles : List String
  pub orphan_tables : List String
  pub unverified_edges : List Unverified
  pub unrecognized_nodes : List String

-- The report when the cycles have been found.
unfoldable pub graph_report : Files → Catalog → List (List String) → GraphReport
graph_report files c cycles = record {
  cycles = map arrows cycles;
  orphan_tables = find_orphan_tables c;
  unverified_edges = verify_checkable_edges files c;
  unrecognized_nodes = verify_all_external_nodes_recognized c;
}

unfoldable pub validate_graph : Files → Catalog → Option GraphReport
validate_graph files c = do cycles ← find_cycles c; some (graph_report files c cycles)
