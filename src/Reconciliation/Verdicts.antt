-- ===== src/Reconciliation/Verdicts.antt =====
-- What a run of reconcile_metrics.py concludes and records.
use event_driven_data_platfo.Base.{
  ℕ, Bool, true, false, String, List, [], ◌∷◌, ◌++◌, map, if◌then◌else◌, length, non_empty,
  append-nil, append_assoc, ◌≡◌, ◌↔◌, ◌⊎◌, refl, arith, false_or, Every, sym, ◌∙◌, ap, false≢true,
}
use event_driven_data_platfo.Base.Int.{ℤ, leb_ℤ, ◌≤ℤ◌}
use event_driven_data_platfo.Processing.Actions.{Fate, answered, refused, unanswered}
use event_driven_data_platfo.Reconciliation.Queries.{dates}
use event_driven_data_platfo.Reconciliation.Checks.{Status, passed, failed, is_failed, status_of}
use event_driven_data_platfo.Reconciliation.Runs.{
  ReconciliationRequest, AuditRow, LineageEvent, when_answered, Ledger, Check, RunOutcome,
  invalid_range, dry, interrupted, finished, is_finished, run_check, run_unless, fetched,
  fetch_with, persisted, persist_all, insert_audit, insert_audit_with, emit_pipeline_lineage,
  emit_with, failed_results,
}

-- Of the rows to insert, those up to some place have been, in their order, and all of them if every
-- statement has answered.
abbrev pub HasAdded : {F : Type 0} → List (AuditRow F) → Ledger F → Bool × Ledger F → Type 0
HasAdded {F} rows l p =
    (done : List (AuditRow F)) × (rest : List (AuditRow F)) × (rows ≡ done ++ rest)
    × (p.1.audit ≡ l.audit ++ done)
    × (p.0 ≡ true → rest ≡ [])

module _ {F : Type 0} where
  insert_audit_with-HasAdded :
      (row : AuditRow F) (l : Ledger F) (fates : List Fate)
      → HasAdded (row ∷ []) l (insert_audit_with row l fates)
  unfolding insert_audit_with
  insert_audit_with-HasAdded row l [] = (row ∷ [], [], refl, refl, λ e. refl)
  insert_audit_with-HasAdded row l (answered ∷ fates) = (row ∷ [], [], refl, refl, λ e. refl)
  insert_audit_with-HasAdded row l (refused ∷ fates) =
      ([], row ∷ [], refl, sym (append-nil l.audit), λ e. cc)
  insert_audit_with-HasAdded row l (unanswered ∷ fates) = (row ∷ [], [], refl, refl, λ e. refl)

  when_answered-HasAdded :
      (row : AuditRow F) (rows : List (AuditRow F)) (l : Ledger F)
      (next : Ledger F → Bool × Ledger F) (p : Bool × Ledger F)
      → HasAdded (row ∷ []) l p
      → ((m : Ledger F) → HasAdded rows m (next m))
      → HasAdded (row ∷ rows) l (when_answered next p)
  when_answered-HasAdded row rows l next (true, m) (done, rest, whole, added, all) later =
      let (done_later, rest_later, whole_later, added_later, all_later) = later m in
      let single : done ≡ row ∷ [] = sym (append-nil done) ∙ sym (rw (all refl) at whole) in
      let here : m.audit ≡ l.audit ++ (row ∷ []) = added ∙ ap (λ d. l.audit ++ d) single in
      (
        row ∷ done_later,
        rest_later,
        ap (λ l. row ∷ l) whole_later,
        added_later ∙ (ap (λ a. a ++ done_later) here ∙ append_assoc l.audit (row ∷ []) done_later),
        all_later,
      )
  when_answered-HasAdded row rows l next (false, m) (done, rest, whole, added, all) later =
      (done, rest ++ rows, ap (λ l. l ++ rows) whole ∙ append_assoc done rest rows, added, λ e. cc)

  persist_all-HasAdded :
      (rows : List (AuditRow F)) (l : Ledger F) → HasAdded rows l (persist_all rows l)
  unfolding persist_all insert_audit
  persist_all-HasAdded [] l = ([], [], refl, sym (append-nil l.audit), λ e. refl)
  persist_all-HasAdded (row ∷ rows) l =
      when_answered-HasAdded row rows l (persist_all rows) (insert_audit_with row l l.fates)
        (insert_audit_with-HasAdded row l l.fates) (persist_all-HasAdded rows)

  emit-audit :
      (event : LineageEvent) (l : Ledger F) (fates : List Fate)
      → (emit_with event l fates).audit ≡ l.audit
  unfolding emit_with
  emit-audit event l [] = refl
  emit-audit event l (answered ∷ fates) = refl
  emit-audit event l (refused ∷ fates) = refl
  emit-audit event l (unanswered ∷ fates) = refl

pass_step :
    {R P : Type 0} (r : R) (s : Status) (more : List R)
    → ((more ≡ []) ↔ P)
    → ((if is_failed s then r ∷ more else more) ≡ []) ↔ ((s ≡ passed) × P)
pass_step r passed more h = (λ e. (refl, h.0 e), λ p. h.1 p.1)
pass_step r failed more h = (λ e. cc, λ p. cc)

module _ {F R : Type 0} (check : Check F R) (request : ReconciliationRequest F)
    (run_id : String) where
  abbrev pub HasPersisted : List R → Ledger F → RunOutcome R × Ledger F → Type 0
  HasPersisted results l p =
      HasAdded (map (check.audit_row request) results) l (is_finished p.0, p.1)

  nothing_recorded :
      (results : List R) (l : Ledger F) (outcome : RunOutcome R)
      → is_finished outcome ≡ false
      → (m : Ledger F) → m.audit ≡ l.audit
      → HasPersisted results l (outcome, m)
  nothing_recorded results l outcome unfinished m same = (
    [],
    map (check.audit_row request) results,
    refl,
    same ∙ sym (append-nil l.audit),
    λ e. absurd (false≢true (sym unfinished ∙ e)),
  )

  persisted-HasPersisted :
      (results : List R) (l : Ledger F) (p : Bool × Ledger F)
      → HasAdded (map (check.audit_row request) results) l p
      → HasPersisted results l (persisted check request run_id results p)
  unfolding persisted emit_pipeline_lineage
  persisted-HasPersisted results l (true, m) (done, rest, whole, added, all) =
      (done, rest, whole, emit-audit _ m m.fates ∙ added, all)
  persisted-HasPersisted results l (false, m) h = h

  fetched-HasPersisted :
      (results : List R) (l : Ledger F) (fates : List Fate)
      → HasPersisted results l (fetched check request run_id results (fetch_with l fates))
  unfolding fetched fetch_with
  fetched-HasPersisted results l [] = persisted-HasPersisted results l _ (persist_all-HasAdded _ l)
  fetched-HasPersisted results l (answered ∷ fates) =
      persisted-HasPersisted results l _ (persist_all-HasAdded _ (record l { fates = fates }))
  fetched-HasPersisted results l (refused ∷ fates) =
      nothing_recorded results l interrupted refl l refl
  fetched-HasPersisted results l (unanswered ∷ fates) =
      nothing_recorded results l interrupted refl l refl

  run_unless-HasPersisted :
      (valid dry_run : Bool) (results : List R) (l : Ledger F)
      → HasPersisted results l (run_unless check request run_id valid dry_run results l)
  unfolding run_unless
  run_unless-HasPersisted false dry_run results l =
      nothing_recorded results l invalid_range refl l refl
  run_unless-HasPersisted true true results l =
      nothing_recorded results l (dry request.tenant_id request.start_date request.end_date) refl l
        refl
  run_unless-HasPersisted true false results l = fetched-HasPersisted results l l.fates

  -- What the audit has after a run: the rows of the results up to some place, in the order of the
  -- days, and all of them unless the run has not ended.
  abbrev pub HasRecorded : List R → Ledger F → RunOutcome R × Ledger F → Type 0
  HasRecorded results l p =
      (done : List (AuditRow F)) × (rest : List (AuditRow F)) × (map (check.audit_row request)
          results
        ≡ done ++ rest)
      × (p.1.audit ≡ l.audit ++ done)
      × ((is_finished p.0 ≡ false) ⊎ (rest ≡ []))

  -- Whatever becomes of its statements, a run adds to the audit the rows of its results up to some
  -- place, in the order of the days, and all of them unless it has not ended.
  pub run_check-HasRecorded :
      (results : List ℤ → List R) (l : Ledger F)
      → HasRecorded
          (results (dates request.start_date request.end_date))
          l
          (run_check check request run_id results l)
  unfolding run_check
  run_check-HasRecorded results l =
      let (done, rest, whole, added, all) =
        run_unless-HasPersisted (leb_ℤ request.start_date request.end_date) request.dry_run
          (results (dates request.start_date request.end_date)) l in
      (done, rest, whole, added, false_or _ all)

  all_passed :
      (rs : List R)
      → (failed_results check request run_id rs ≡ []) ↔ Every (λ r. check.status r ≡ passed) rs
  unfolding failed_results
  all_passed [] = (λ e. tt, λ e. refl)
  all_passed (r ∷ rs) =
      pass_step r (check.status r) (failed_results check request run_id rs) (all_passed rs)

  persist_all_answered :
      (rows : List (AuditRow F)) (l : Ledger F) → l.fates ≡ [] → (persist_all rows l).0 ≡ true
  unfolding persist_all insert_audit
  persist_all_answered [] l e = refl
  persist_all_answered (row ∷ rows) l e =
      rw e (persist_all_answered rows (record l { audit = l.audit ++ (row ∷ []); fates = [] }) refl)

  status_of_results : (rs : List R) → (status_of (non_empty rs) ≡ passed) ↔ (rs ≡ [])
  status_of_results [] = (λ e. refl, λ e. refl)
  status_of_results (r ∷ rs) = (λ e. cc, λ e. cc)

  persisted_ends :
      (rs : List R) (p : Bool × Ledger F)
      → p.0 ≡ true
      → (persisted check request run_id rs p).0
        ≡ finished
            (status_of (non_empty (failed_results check request run_id rs)))
            rs
            (length (failed_results check request run_id rs))
  unfolding persisted
  persisted_ends rs (true, m) e = refl
  persisted_ends rs (false, m) e = cc

  fetched_ends :
      (rs : List R) (l : Ledger F)
      → l.fates ≡ []
      → (fetched check request run_id rs (fetch_with l l.fates)).0
        ≡ finished
            (status_of (non_empty (failed_results check request run_id rs)))
            rs
            (length (failed_results check request run_id rs))
  unfolding fetched fetch_with
  fetched_ends rs l e = rw e (
      persisted_ends rs (persist_all (map (check.audit_row request) rs) (record l { fates = [] }))
        (persist_all_answered (map (check.audit_row request) rs) (record l { fates = [] }) refl))

  run_ends :
      (valid dry_run : Bool) (rs : List R) (l : Ledger F)
      → valid ≡ true
      → dry_run ≡ false
      → l.fates ≡ []
      → (run_unless check request run_id valid dry_run rs l).0
        ≡ finished
            (status_of (non_empty (failed_results check request run_id rs)))
            rs
            (length (failed_results check request run_id rs))
  unfolding run_unless
  run_ends true false rs l v d e = fetched_ends rs l e
  run_ends true true rs l v d e = cc
  run_ends false dry_run rs l v d e = cc

  -- If every statement answers, a run over a range of days that is no dry run ends, with the results
  -- of the days, and has passed exactly when each of them has.
  pub run_check-passes :
      (results : List ℤ → List R) (l : Ledger F)
      → request.start_date ≤ℤ request.end_date
      → request.dry_run ≡ false
      → l.fates ≡ []
      → (status : Status) × (failures : ℕ) × ((run_check check request run_id results l).0
          ≡ finished status (results (dates request.start_date request.end_date)) failures)
        × ((status ≡ passed)
            ↔ Every
                (λ r. check.status r ≡ passed)
                (results (dates request.start_date request.end_date)))
  unfolding run_check run_unless
  run_check-passes results l valid wet answers =
      let rs = results (dates request.start_date request.end_date) in
      let bad = failed_results check request run_id rs in
      let verdict = status_of_results bad in
      let days = all_passed rs in
      let in_order : leb_ℤ request.start_date request.end_date ≡ true = ground arith in
      (
        status_of (non_empty bad),
        length bad,
        run_ends _ _ rs l in_order wet answers,
        (λ e. days.0 (verdict.0 e), λ all. verdict.1 (days.1 all)),
      )
