-- ===== src/Processing/Conservation.antt =====
-- The metrics and the raw events of a tenant over the runs of the consumer loop.
use event_driven_data_platfo.Base.{
  ℕ, ◌+◌, ◌≤◌, suc, Bool, true, false, none, some, List, [], ◌∷◌, String, if◌then◌else◌, is_some,
  arith, ap, subst, ltb, Bool-cases, inl, inr,
}
use event_driven_data_platfo.Events.Values.{Json, Floats}
use event_driven_data_platfo.Processing.Tables.{Numeric, Db}
use event_driven_data_platfo.Processing.Actions.{Result, World}
use event_driven_data_platfo.Processing.Repository.{update_watermark}
use event_driven_data_platfo.Processing.Handler.{handle}
use event_driven_data_platfo.Processing.Ensures.{
  Ensures, Ensures-bind, Ensures-bind-evaluate, Ensures-map,
}
use event_driven_data_platfo.Processing.Totals.{count_raw, events_total}
use event_driven_data_platfo.Processing.Keeps.{IsFramed, Keeps, update_watermark-Keeps}
use event_driven_data_platfo.Processing.Accounting.{Accounts, handle-Accounts}
use event_driven_data_platfo.Processing.Worker.{
  ConsumerRecord, Poll, Sample, WorkerState, process_record, count_record, consume_record,
  consume_records, consume_batches, commit_if_needed, poll_once, stops, run,
}

-- The tenant's daily metrics count no event that the hourly ones do not, these count no event that is
-- not a raw event, and at most `failed` raw events are missing from the daily metrics.
pub record IsReconciled {F N : Type 0} (t : String) (failed : ℕ) (db : Db F N) : Type 0 where
  pub daily_le : events_total t db.daily ≤ events_total t db.hourly
  pub hourly_le : events_total t db.hourly ≤ count_raw t db.raw_events
  pub raw_le : count_raw t db.raw_events ≤ events_total t db.daily + failed

-- The records that were counted as "failed".
unfoldable pub failures : List Sample → ℕ
failures [] = 0
failures (s ∷ rest) = (if s.success then 0 else 1) + failures rest

module _ (F N : Type 0) (t : String) (fl : Floats F) (sql : Numeric F N)
    (str : Json F → String) where
  IsReconciled-frame :
      (k : ℕ) (before after : Db F N)
      → IsFramed before after
      → IsReconciled t k before
      → IsReconciled t k after
  IsReconciled-frame k before after f i =
      let raw = ap (count_raw t) f.same_raw in
      let hourly = ap (events_total t) f.same_hourly in
      let daily = ap (events_total t) f.same_daily in
      record {
        daily_le = grind (arith, i.daily_le, daily, hourly);
        hourly_le = grind (arith, i.hourly_le, hourly, raw);
        raw_le = grind (arith, i.raw_le, raw, daily);
      }

  Accounts-IsReconciled :
      (v : _) (k : ℕ) (before after : Db F N) (o : Result Unit)
      → IsReconciled t k before
      → Accounts t v before o after
      → IsReconciled t (if is_some o then k else suc k) after
  Accounts-IsReconciled v k before after none i a =
      let b = a.booked in
      record {
        daily_le = omega (arith, i.daily_le, b.daily, b.hourly, a.daily_le);
        hourly_le = omega (arith, i.hourly_le, b.hourly, b.raw, a.hourly_le);
        raw_le = ground (arith, i.raw_le, b.raw, b.daily, a.raw_le);
      }
  Accounts-IsReconciled v k before after (some _) i a =
      let b = a.booked in
      record {
        daily_le = omega (arith, i.daily_le, b.daily, b.hourly, a.daily_le);
        hourly_le = omega (arith, i.hourly_le, b.hourly, b.raw, a.hourly_le);
        raw_le = omega (arith, i.raw_le, b.raw, b.daily, a.whole);
      }

  IsReconciled-suc : (k : ℕ) (db : Db F N) → IsReconciled t k db → IsReconciled t (suc k) db
  IsReconciled-suc k db i = record {
    daily_le = i.daily_le;
    hourly_le = i.hourly_le;
    raw_le = omega (arith, i.raw_le);
  }

  process_record-IsReconciled :
      (r : ConsumerRecord F) (k : ℕ) (w : World F N)
      → IsReconciled t k w.db
      → Ensures
          (λ o db. IsReconciled t (if is_some o then k else suc k) db)
          (process_record fl sql str r)
          w
  unfolding process_record Keeps
  process_record-IsReconciled r k w i =
      let Q : Result Unit → Db F N → Type 0 =
        λ o db. IsReconciled t (if is_some o then k else suc k) db in
      Ensures-bind-evaluate Q r.value _ w
        (λ v known.
          Ensures-bind (Accounts t v w.db) Q (handle fl sql str v) _ w
            (handle-Accounts F N t fl sql str v w)
            (λ done u a.
              Ensures-map (λ o db. IsReconciled t k db) Q
                (λ o db j. elim o as (λ p. Q p db) [ none ↦ IsReconciled-suc k db j | some _ ↦ j ])
                (update_watermark v r.topic r.offset "active") u
                (update_watermark-Keeps F N (IsReconciled t k) (IsReconciled-frame k) v r.topic
                  r.offset "active" u (Accounts-IsReconciled v k w.db u.db (some tt) i a)))
            (λ db a. Accounts-IsReconciled v k w.db db none i a))
        (IsReconciled-suc k w.db i)

  -- The state of the worker is reconciled up to the records that it counted as failed.
  IsSound : WorkerState F N → Type 0
  IsSound s = IsReconciled t (failures s.samples) s.world.db

  count_record-IsSound :
      (r : ConsumerRecord F) (s : WorkerState F N) (p : Result Unit × World F N)
      → IsReconciled t (if is_some p.0 then failures s.samples else suc (failures s.samples)) p.1.db
      → IsSound (count_record fl sql str r s p)
  unfolding IsSound count_record failures
  count_record-IsSound r s (some _, w) i = subst (λ k. IsReconciled t k w.db) (omega arith) i
  count_record-IsSound r s (none, w) i = subst (λ k. IsReconciled t k w.db) (omega arith) i

  consume_records-IsSound :
      (rs : List (ConsumerRecord F)) (s : WorkerState F N)
      → IsSound s
      → IsSound (consume_records fl sql str rs s)
  unfolding IsSound consume_records consume_record
  consume_records-IsSound [] s i = i
  consume_records-IsSound (r ∷ rs) s i = consume_records-IsSound rs _ (
      count_record-IsSound r s (process_record fl sql str r s.world)
        (process_record-IsReconciled r (failures s.samples) s.world i))

  consume_batches-IsSound :
      (batches : List (List (ConsumerRecord F))) (s : WorkerState F N)
      → IsSound s
      → IsSound (consume_batches fl sql str batches s)
  unfolding consume_batches
  consume_batches-IsSound [] s i = i
  consume_batches-IsSound (rs ∷ rest) s i =
      consume_batches-IsSound rest _ (consume_records-IsSound rs s i)

  commit_if_needed-IsSound :
      (answered : Bool) (s : WorkerState F N)
      → IsSound s
      → IsSound (commit_if_needed fl sql str answered s)
  unfolding IsSound commit_if_needed
  commit_if_needed-IsSound true s i = elim (Bool-cases (ltb 0 s.processed_since_commit)) [
    | inr no_success ↦ rw no_success i
    | inl some_success ↦ rw some_success i
  ]
  commit_if_needed-IsSound false s i = elim (Bool-cases (ltb 0 s.processed_since_commit)) [
    | inr no_success ↦ rw no_success i
    | inl some_success ↦ rw some_success i
  ]

  -- In every run of the consumer loop, over any polls and with any fates of the statements, each
  -- tenant's daily metrics count no event that the hourly ones do not, these count no event that is
  -- not a raw event, and no more raw events are missing from the daily metrics than records were
  -- counted as failed. The state to begin with must be such.
  pub run-IsReconciled :
      (polls : List (Poll F)) (s : WorkerState F N)
      → IsReconciled t (failures s.samples) s.world.db
      → IsReconciled t (failures (run fl sql str polls s).samples) (run fl sql str polls s).world.db
  unfolding IsSound run poll_once
  run-IsReconciled [] s i = i
  run-IsReconciled (p ∷ ps) s i =
      let j = commit_if_needed-IsSound p.commit_answered _ (
        consume_batches-IsSound p.batches (record s { processed_since_commit = 0; position = _ })
          i) in
      elim (Bool-cases (stops fl sql str p (poll_once fl sql str p s))) [
        | inl last ↦ rw last j
        | inr more ↦ rw more (run-IsReconciled ps _ j)
      ]
