-- ===== src/Lib.antt =====
-- A model of the event-driven data platform's core: what an event is, how the versions of its schema
-- are kept compatible, and how it becomes rows and metrics.
--
-- The program. Producers send events of twelve types. An event is validated by
-- services/shared/platform_shared/schemas.py and published to Kafka. The schema registry
-- (services/schema-registry-service) keeps the versions of each subject's JSON schema and accepts a
-- new one only if services/shared/platform_shared/schema_compatibility.py finds it compatible. The
-- processing service (services/processing-service) polls Kafka, records each event in an inbox and
-- in a table of raw events, updates the state tables and adds to hourly and daily metrics.
--
-- The files.
--   Base: tests, options, texts (Python's str.strip), dicts as association lists, signed integers.
--   Compatibility: schema_compatibility.py, compare_backward_compatible, compare_forward_compatible,
--     compare_full_compatible and check_compatibility; messages are data, not text. Spec and Modes
--     describe the relation they decide, Instances the data that a schema accepts.
--   Registry: repository.py and main.py of the schema registry. The tables are lists of rows, newest
--     first; each query and each handler is a function on them, with the HTTP answer as a value.
--     History has the invariant of the versions, Outcomes and Handlers what registration does,
--     Answers what clients see, Interleaving the steps of concurrent registrations.
--   Events: schemas.py. Types has EventType and EVENT_DOMAIN, Payloads the five payload models and
--     validate_event_payload, Envelopes EventEnvelope with its validators and build_envelope,
--     Identity idempotent_event_id. Validation and Contracts describe accepted payloads,
--     Rereading an envelope that is validated again.
--   Processing: Rows is processors.py, Tables the rows of database/init/001_schema.sql that are
--     written, Actions the execute_scoped of database.py, Repository is repository.py, Handler and
--     Worker are EventProcessor.handle and KafkaProcessingWorker of worker.py. Ensures and Keeps are
--     rules for steps, Totals, Accounting and Conservation count events, Delivery is about repeated
--     deliveries, Commits about the consumer's position.
--   Auth: auth.py, TenantPrincipal, principal_from_authorization and what it calls, and in Oidc the
--     key cache and the claims of oidc.py.
--   Publishing: kafka.py, TopicRouter, publish with its retries and publish_dlq.
--   Ingestion: services/ingestion-service/app/main.py, the bounds of a request, _build_envelope, _publish,
--     ingest_event and ingest_batch, which use Auth, Events and Publishing.
--   Lineage: lineage/graph.py. The parent has the catalog, its edges and find_cycles, Search the
--     depth-first search, Nodes the checks on the nodes and validate_graph. Walks, Invariant and
--     Exploration are about the search, Edges and Cycles about the whole, Reports about the report.
--   Reconciliation: scripts/reconcile_metrics.py over the tables of Processing. Queries has its SQL,
--     Checks the evaluation of a day, Runs what the three runs share and the audit, the parent the
--     runs. Figures says what the rows of a day are and amount to, without the queries; Verdicts, Days
--     and Passes tell when a run passes, Drift what a captured payment does to the check.
--   ProducerSdk: sdk/python/platform_producer/client.py, to_request and _request_with_retries, and what
--     Ingestion makes of such a request.
--   DlqTool: scripts/dlq_tool.py. Records is extract_dlq_record, Reading is read_dlq_records, Replay is
--     replay with audit_replay; Bounds, Audits, Completion and Skipped are about them.
--   Onboarding: platform_cli/tenant_onboarding.py over the tables of Processing and two of its own.
--     Samples has the sample events, the parent the statements and the checks, Ready is about them.
--   Products: data_products/validator.py, validate_traceability, and the dictionaries by id of
--     data_products/registry.py; Requirements is validate_requirements, Traces and Distinct are about
--     what the checks find.
--   Cache: cache.py, RedisCache, and enforce_rate_limit and cached_metric of
--     services/analytics-service/app/main.py.
--
-- Conventions. An exception is `none`, in a step with the state that it leaves. Each statement is a
-- transaction of its own, and in Processing and Reconciliation its fate is an argument: answered,
-- refused, or carried out without an answer. The statements of Registry and Onboarding are all
-- answered. A schema document is a record: those on which the comparison raises, with a property
-- schema that is a Boolean or a `required` that is no list, have none. A theorem about steps is for all fates unless it names those that it is about. Python's
-- floats, the numeric columns of PostgreSQL, pydantic's conversions, the SHA-256 digest, Python's
-- str, the token library and what the broker answers are parameters; where a theorem needs a law of
-- theirs, the law is a hypothesis with an instance in Events/Samples. The clock and uuid4 are
-- arguments. Integers are unbounded, as Python's are; the width of the integer columns is not
-- modelled. Loops are recursions on lists of records, of polls or of steps, or on a number of retries.
-- Only the search of find_cycles takes fuel: one more than there are nodes with edges out, since each
-- call visits a node for the first time; Python's own limit on the depth of calls is not modelled.
--
-- Not modelled: start-up wiring, logging, traces and Prometheus output, columns that hold now(),
-- row-level security, the JSON text of events and of audit details, Kafka and its broker, files, the
-- command lines of the scripts, and the platform's other services, jobs and scripts.
pub mod Base
pub mod Compatibility
pub mod Registry
pub mod Events
pub mod Processing
pub mod Auth
pub mod Publishing
pub mod Ingestion
pub mod Cache
pub mod Lineage
pub mod Reconciliation
pub mod ProducerSdk
pub mod DlqTool
pub mod Onboarding
pub mod Products
