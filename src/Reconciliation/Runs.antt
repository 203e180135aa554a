-- ===== src/Reconciliation/Runs.antt =====
-- The three runs of reconcile_metrics.py and run_all_checks. The audit is a table in the order of its
-- inserts; each statement has its fate, as in Processing.Actions, and all rows are read before the
-- first insert.
use event_driven_data_platfo.Base.{
  ℕ, Bool, true, false, String, List, [], ◌∷◌, ◌++◌, map, if◌then◌else◌, length, non_empty,
}
use event_driven_data_platfo.Base.Int.{ℤ, leb_ℤ}
use event_driven_data_platfo.Processing.Actions.{Fate, answered, refused, unanswered}
use event_driven_data_platfo.Reconciliation.Queries.{dates}
use event_driven_data_platfo.Reconciliation.Checks.{
  Status, is_failed, status_of, PaymentResult, ActivityResult, RevenueResult,
}

pub record ReconciliationRequest (F : Type 0) : Type 0 where
  pub tenant_id : String
  pub start_date : ℤ
  pub end_date : ℤ
  pub revenue_tolerance : F
  pub requested_by : String
  pub dry_run : Bool

-- `json.dumps(result)`
pub data Details (F : Type 0) : Type 0 where
  of_payment : PaymentResult → Details F
  of_activity : ActivityResult → Details F
  of_revenue : RevenueResult F → Details F

-- `reconciliation_audit`
pub record AuditRow (F : Type 0) : Type 0 where
  pub tenant_id : String
  pub metric_date : ℤ
  pub check_name : String
  pub status : Status
  pub revenue_delta : F
  pub order_count_delta : ℤ
  pub units_sold_delta : ℤ
  pub details : Details F
  pub checked_by : String

-- The event that emit_pipeline_lineage writes.
pub record LineageEvent : Type 0 where
  pub job_name : String
  pub run_id : String
  pub tenant_id : String
  pub inputs : List String
  pub outputs : List String
  pub status : String
  pub checked_count : ℕ
  pub failed_count : ℕ

pub record Ledger (F : Type 0) : Type 0 where
  pub audit : List (AuditRow F)
  pub lineage : List LineageEvent
  pub fates : List Fate

-- One check: its name in the pipeline, its tables, and what it makes of its results.
pub record Check (F R : Type 0) : Type 0 where
  pub job_name : String
  pub inputs : List String
  pub outputs : List String
  pub status : R → Status
  pub audit_row : ReconciliationRequest F → R → AuditRow F

pub data RunOutcome (R : Type 0) : Type 0 where
  -- `ValueError("start-date must be before or equal to end-date")`
  invalid_range : RunOutcome R
  -- The SQL and its parameters.
  dry : String → ℤ → ℤ → RunOutcome R
  -- The exception of a statement.
  interrupted : RunOutcome R
  -- The status, the results and the number of those that failed.
  finished : Status → List R → ℕ → RunOutcome R

abbrev pub is_finished : {R : Type 0} → RunOutcome R → Bool
is_finished (finished _ _ _) = true
is_finished _ = false

module _ {F : Type 0} where
  -- `await postgres.execute("insert into reconciliation_audit …")`, and whether it answers
  unfoldable pub insert_audit_with : AuditRow F → Ledger F → List Fate → Bool × Ledger F
  insert_audit_with row l [] = (true, record l { audit = l.audit ++ (row ∷ []) })
  insert_audit_with row l (answered ∷ fates) =
      (true, record l { audit = l.audit ++ (row ∷ []); fates = fates })
  insert_audit_with row l (refused ∷ fates) = (false, record l { fates = fates })
  insert_audit_with row l (unanswered ∷ fates) =
      (false, record l { audit = l.audit ++ (row ∷ []); fates = fates })

  unfoldable pub insert_audit : AuditRow F → Ledger F → Bool × Ledger F
  unfolding insert_audit_with
  insert_audit row l = insert_audit_with row l l.fates

  abbrev pub when_answered : (Ledger F → Bool × Ledger F) → Bool × Ledger F → Bool × Ledger F
  when_answered next (true, l) = next l
  when_answered next (false, l) = (false, l)

  -- The loop of persist_reconciliation, and those that call persist_check_result.
  unfoldable pub persist_all : List (AuditRow F) → Ledger F → Bool × Ledger F
  unfolding insert_audit
  persist_all [] l = (true, l)
  persist_all (row ∷ rest) l = when_answered (persist_all rest) (insert_audit row l)

  -- emit_pipeline_lineage raises nothing.
  unfoldable pub emit_with : LineageEvent → Ledger F → List Fate → Ledger F
  emit_with event l [] = record l { lineage = event ∷ l.lineage }
  emit_with event l (answered ∷ fates) = record l { lineage = event ∷ l.lineage; fates = fates }
  emit_with event l (refused ∷ fates) = record l { fates = fates }
  emit_with event l (unanswered ∷ fates) = record l { lineage = event ∷ l.lineage; fates = fates }

  unfoldable pub emit_pipeline_lineage : LineageEvent → Ledger F → Ledger F
  unfolding emit_with
  emit_pipeline_lineage event l = emit_with event l l.fates

  -- `await postgres.fetch(…)`: whether it answers.
  unfoldable pub fetch_with : Ledger F → List Fate → Bool × Ledger F
  fetch_with l [] = (true, l)
  fetch_with l (answered ∷ fates) = (true, record l { fates = fates })
  fetch_with l (_ ∷ fates) = (false, record l { fates = fates })

module _ {F R : Type 0} (check : Check F R) (request : ReconciliationRequest F)
    (run_id : String) where
  -- `[result for result in results if result["status"] == "failed"]`
  unfoldable pub failed_results : List R → List R
  failed_results [] = []
  failed_results (r ∷ rs) =
      let rest = failed_results rs in if is_failed (check.status r) then r ∷ rest else rest

  abbrev pub lineage_event : List R → LineageEvent
  lineage_event results = record {
    job_name = check.job_name;
    run_id = run_id;
    tenant_id = request.tenant_id;
    inputs = check.inputs;
    outputs = check.outputs;
    status = if non_empty (failed_results results) then "failed" else "succeeded";
    checked_count = length results;
    failed_count = length (failed_results results);
  }

  unfoldable pub persisted : List R → Bool × Ledger F → RunOutcome R × Ledger F
  unfolding failed_results emit_pipeline_lineage
  persisted results (false, l) = (interrupted, l)
  persisted results (true, l) =
      let bad = failed_results results in
      (
        finished (status_of (non_empty bad)) results (length bad),
        emit_pipeline_lineage (lineage_event results) l,
      )

  unfoldable pub fetched : List R → Bool × Ledger F → RunOutcome R × Ledger F
  unfolding persist_all persisted
  fetched results (false, l) = (interrupted, l)
  fetched results (true, l) =
      persisted results (persist_all (map (check.audit_row request) results) l)

  -- With whether validate_request lets the range pass, and with the option of a dry run.
  unfoldable pub run_unless : Bool → Bool → List R → Ledger F → RunOutcome R × Ledger F
  unfolding fetched fetch_with
  run_unless false dry_run results l = (invalid_range, l)
  run_unless true true results l = (dry request.tenant_id request.start_date request.end_date, l)
  run_unless true false results l = fetched results (fetch_with l l.fates)

  -- The body that the three runs share; `results` is what the evaluation makes of the rows.
  unfoldable pub run_check : (List ℤ → List R) → Ledger F → RunOutcome R × Ledger F
  unfolding run_unless
  run_check results l =
      run_unless (leb_ℤ request.start_date request.end_date) request.dry_run
        (results (dates request.start_date request.end_date)) l
