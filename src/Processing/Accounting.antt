-- ===== src/Processing/Accounting.antt =====
-- What one delivery of an event adds to the raw events and to the metrics of a tenant.
use event_driven_data_platfo.Base.{
  ℕ, ◌≤◌, ◌≡◌, refl, Bool, true, false, String, none, some, ◌==◌, if◌then◌else◌, arith, ap, ◌∙◌,
  subst, sym, is_some,
}
use event_driven_data_platfo.Events.Values.{Json, Floats}
use event_driven_data_platfo.Events.Envelopes.{EventEnvelope}
use event_driven_data_platfo.Processing.Rows.{MetricDelta, metric_delta_for_event}
use event_driven_data_platfo.Processing.Tables.{InboxRow, Numeric, Db}
use event_driven_data_platfo.Processing.Actions.{Result, World, execute_scoped}
use event_driven_data_platfo.Processing.Repository.{
  update_inbox, raw_row, insert_inbox, insert_raw_event, inbox_written, raw_event_written,
  write_raw_event, mark_event_duplicate, mark_event_processed, add_hourly, add_daily, write_hourly,
  write_daily, write_metric_delta, accumulate, metrics_row, instant, metric_day,
}
use event_driven_data_platfo.Processing.Handler.{handle, handle_if, handle_new, write_state}
use event_driven_data_platfo.Processing.Ensures.{
  Ensures, Ensures-map, Ensures-execute_scoped, Ensures-bind, Ensures-bind-evaluate,
}
use event_driven_data_platfo.Processing.Totals.{
  weight, count_raw, events_total, events_total-accumulate, count_raw-insert_new, Booked,
}
use event_driven_data_platfo.Processing.Keeps.{
  Keeps, IsFramed, mark_event_processed-Keeps, mark_event_duplicate-Keeps, write_state-Keeps,
  delta_counts,
}

-- What a delivery of the event `v` with the result `o` has added for the tenant `t`: at most one raw
-- event, and that only if the event is the tenant's, at most as many events to the hourly metrics as
-- raw events and to the daily metrics as to the hourly ones, and as many to both when no exception
-- was raised.
pub record Accounts {F N : Type 0} (t : String) (v : EventEnvelope F) (before : Db F N)
    (o : Result Unit) (after : Db F N) : Type 0 where
  pub raw_added : ℕ
  pub hourly_added : ℕ
  pub daily_added : ℕ
  pub booked : Booked t before after raw_added hourly_added daily_added
  pub daily_le : daily_added ≤ hourly_added
  pub hourly_le : hourly_added ≤ raw_added
  pub raw_le : raw_added ≤ weight t v.tenant_id
  pub whole : (if is_some o then daily_added else raw_added) ≡ raw_added

module _ (F N : Type 0) (t : String) (fl : Floats F) (sql : Numeric F N)
    (str : Json F → String) where
  -- `h` of the `r` new raw events are in the hourly metrics and `d` in the daily ones.
  record Progress (before : Db F N) (r : ℕ) (o : Result Unit) (db : Db F N) : Type 0 where
    hours : ℕ
    booked : Booked t before db r hours 0
    hours_le : hours ≤ r
    whole : is_some o ≡ true → hours ≡ r

  write_hourly_lem :
      (delta : MetricDelta F) (w : World F N) (before : Db F N) (r : ℕ)
      → Booked t before w.db r 0 0
      → (if delta.tenant_id == t then delta.events_processed else 0) ≡ r
      → Ensures (Progress before r) (write_hourly sql delta) w
  unfolding write_hourly add_hourly metrics_row
  write_hourly_lem delta w before r b e =
      let new = metrics_row sql delta (instant delta.metric_ts) in
      let added = events_total-accumulate sql t new w.db.hourly in
      let after = record w.db { hourly = accumulate sql new w.db.hourly } in
      let c : Booked t before after r r 0 = record {
        raw = b.raw;
        hourly = grind (arith, added, e, b.hourly);
        daily = b.daily;
      } in
      Ensures-execute_scoped (Progress before r) (λ db. (tt, add_hourly sql delta db)) w
        (record { hours = r; booked = c; hours_le = omega arith; whole = λ _. refl })
        (record { hours = 0; booked = b; hours_le = omega arith; whole = λ h. cc })
        (record { hours = r; booked = c; hours_le = omega arith; whole = λ h. cc })

  write_daily_lem :
      (v : EventEnvelope F) (delta : MetricDelta F) (w : World F N) (before : Db F N) (r : ℕ)
      → Booked t before w.db r r 0
      → r ≤ weight t v.tenant_id
      → (if delta.tenant_id == t then delta.events_processed else 0) ≡ r
      → Ensures (Accounts t v before) (write_daily sql delta) w
  unfolding write_daily add_daily metrics_row
  write_daily_lem v delta w before r b le e =
      let new = metrics_row sql delta (metric_day delta.metric_ts) in
      let added = events_total-accumulate sql t new w.db.daily in
      let after = record w.db { daily = accumulate sql new w.db.daily } in
      let c : Booked t before after r r r = record {
        raw = b.raw;
        hourly = b.hourly;
        daily = grind (arith, added, e, b.daily);
      } in
      let full : (o : Result Unit) → Accounts t v before o after = λ o. record {
        raw_added = r;
        hourly_added = r;
        daily_added = r;
        booked = c;
        daily_le = omega arith;
        hourly_le = omega arith;
        raw_le = le;
        whole = ground arith;
      } in
      Ensures-execute_scoped (Accounts t v before) (λ db. (tt, add_daily sql delta db)) w
        (full (some tt))
        (record {
          raw_added = r;
          hourly_added = r;
          daily_added = 0;
          booked = b;
          daily_le = omega arith;
          hourly_le = omega arith;
          raw_le = le;
          whole = refl;
        })
        (full none)

  -- The handling has stopped with the raw event written, or not written, and a part of the metrics.
  Progress-stopped :
      (v : EventEnvelope F) (before db : Db F N) (r : ℕ)
      → r ≤ weight t v.tenant_id
      → Progress before r none db
      → Accounts t v before none db
  Progress-stopped v before db r le p = record {
    raw_added = r;
    hourly_added = p.hours;
    daily_added = 0;
    booked = p.booked;
    daily_le = omega arith;
    hourly_le = p.hours_le;
    raw_le = le;
    whole = refl;
  }

  write_metric_delta_lem :
      (v : EventEnvelope F) (delta : MetricDelta F) (w : World F N) (before : Db F N) (r : ℕ)
      → Booked t before w.db r 0 0
      → r ≤ weight t v.tenant_id
      → (if delta.tenant_id == t then delta.events_processed else 0) ≡ r
      → Ensures (Accounts t v before) (write_metric_delta sql delta) w
  unfolding write_metric_delta
  write_metric_delta_lem v delta w before r b le e =
      Ensures-bind (Progress before r) (Accounts t v before) (write_hourly sql delta) _ w
        (write_hourly_lem delta w before r b e)
        (λ done u p.
          write_daily_lem v delta u before r
            (subst (λ h. Booked t before u.db r h 0) (p.whole refl) p.booked) le e)
        (λ db p. Progress-stopped v before db r le p)

  Booked-frame :
      (start : Db F N) (r h d : ℕ) (before after : Db F N)
      → IsFramed before after
      → Booked t start before r h d
      → Booked t start after r h d
  Booked-frame start r h d before after f b = record {
    raw = ap (count_raw t) f.same_raw ∙ b.raw;
    hourly = ap (events_total t) f.same_hourly ∙ b.hourly;
    daily = ap (events_total t) f.same_daily ∙ b.daily;
  }

  update_inbox-Booked :
      (v : EventEnvelope F) (change : InboxRow → InboxRow) (start db : Db F N) (r h d : ℕ)
      → Booked t start db r h d
      → Booked t start (update_inbox v change db) r h d
  unfolding update_inbox
  update_inbox-Booked v change start db r h d b = record {
    raw = b.raw;
    hourly = b.hourly;
    daily = b.daily;
  }

  mark_lem :
      (v : EventEnvelope F) (w : World F N) (before : Db F N)
      → Accounts t v before (some tt) w.db
      → Ensures (Accounts t v before) (mark_event_processed v) w
  unfolding Keeps
  mark_lem v w before a =
      Ensures-map (λ o db. Booked t before db a.raw_added a.hourly_added a.daily_added)
        (Accounts t v before)
        (λ o db b. record {
          raw_added = a.raw_added;
          hourly_added = a.hourly_added;
          daily_added = a.daily_added;
          booked = b;
          daily_le = a.daily_le;
          hourly_le = a.hourly_le;
          raw_le = a.raw_le;
          whole = ground (arith, a.whole);
        })
        (mark_event_processed v) w
        (mark_event_processed-Keeps F N
          (λ db. Booked t before db a.raw_added a.hourly_added a.daily_added)
          (Booked-frame before _ _ _) v (λ db. update_inbox-Booked v _ before db _ _ _) w a.booked)

  handle_new_lem :
      (v : EventEnvelope F) (w : World F N) (before : Db F N) (r : ℕ)
      → Booked t before w.db r 0 0
      → r ≡ weight t v.tenant_id
      → Ensures (Accounts t v before) (handle_new fl sql str v) w
  unfolding Keeps handle_new metric_delta_for_event
  handle_new_lem v w before r b e =
      let stopped : (db : Db F N) → Booked t before db r 0 0 → Accounts t v before none db = λ db c.
        Progress-stopped v before db r (omega arith)
          (record { hours = 0; booked = c; hours_le = omega arith; whole = λ h. cc }) in
      Ensures-bind (λ o db. Booked t before db r 0 0) (Accounts t v before)
        (write_state fl sql str v.kind v) _ w
        (write_state-Keeps F N (λ db. Booked t before db r 0 0) (Booked-frame before r 0 0) fl sql
          str v.kind v w b)
        (λ done u c.
          Ensures-bind-evaluate (Accounts t v before) (metric_delta_for_event fl v) _ u
            (λ delta known.
              let (tenant, one) = delta_counts fl v.kind v delta known in
              Ensures-bind (Accounts t v before) (Accounts t v before)
                (write_metric_delta sql delta) _ u
                (write_metric_delta_lem v delta u before r c (omega arith) (rw (tenant, one, e)))
                (λ done y a. mark_lem v y before a) (λ db a. a))
            (stopped u.db c))
        stopped

  -- A raw event is written and counts for its tenant, or it is not written.
  record Received (v : EventEnvelope F) (before : Db F N) (o : Result Bool) (db : Db F N)
      : Type 0 where
    written : ℕ
    booked : Booked t before db written 0 0
    written_le : written ≤ weight t v.tenant_id
    if_new : o ≡ some true → written ≡ weight t v.tenant_id
    if_known : o ≡ some false → written ≡ 0

  Received-Accounts :
      (v : EventEnvelope F) (before : Db F N) (o : Result Bool) (p : Result Unit) (db : Db F N)
      → Received v before o db
      → (is_some p ≡ true → o ≡ some false)
      → Accounts t v before p db
  Received-Accounts v before o none db r known = record {
    raw_added = r.written;
    hourly_added = 0;
    daily_added = 0;
    booked = r.booked;
    daily_le = omega arith;
    hourly_le = omega arith;
    raw_le = r.written_le;
    whole = refl;
  }
  Received-Accounts v before o (some _) db r known = record {
    raw_added = r.written;
    hourly_added = 0;
    daily_added = 0;
    booked = r.booked;
    daily_le = omega arith;
    hourly_le = omega arith;
    raw_le = r.written_le;
    whole = sym (r.if_known (known refl));
  }

  raw_event_written_lem :
      (v : EventEnvelope F) (inserted : Bool) (w : World F N) (before : Db F N)
      → Booked t before w.db (if inserted then weight t v.tenant_id else 0) 0 0
      → Ensures (Received v before) (raw_event_written v inserted) w
  unfolding raw_event_written Keeps
  raw_event_written_lem v true w before b = record {
    written = weight t v.tenant_id;
    booked = b;
    written_le = omega arith;
    if_new = λ _. refl;
    if_known = λ h. cc;
  }
  raw_event_written_lem v false w before b =
      let none_written : (o : Result Bool) (db : Db F N)
          → Booked t before db 0 0 0
          → (o ≡ some true → 0 ≡ weight t v.tenant_id)
          → Received v before o db =
        λ o db c old. record {
          written = 0;
          booked = c;
          written_le = omega arith;
          if_new = old;
          if_known = λ _. refl;
        } in
      Ensures-bind (λ o db. Booked t before db 0 0 0) (Received v before)
        (mark_event_duplicate v "raw_events already contained event_id") _ w
        (mark_event_duplicate-Keeps F N (λ db. Booked t before db 0 0 0) (Booked-frame before 0 0 0)
          v _ (λ db. update_inbox-Booked v _ before db 0 0 0) w b)
        (λ done u c. none_written (some false) u.db c λ h. cc)
        (λ db c. none_written none db c λ h. cc)

  inbox_written_lem :
      (v : EventEnvelope F) (received : Bool) (w : World F N) (before : Db F N)
      → Booked t before w.db 0 0 0
      → Ensures (Received v before) (inbox_written v received) w
  unfolding inbox_written insert_raw_event
  inbox_written_lem v false w before b = record {
    written = 0;
    booked = b;
    written_le = omega arith;
    if_new = λ h. cc;
    if_known = λ _. refl;
  }
  inbox_written_lem v true w before b =
      let added =
        count_raw-insert_new t (λ r. r.event_id == v.event_id) (raw_row v) w.db.raw_events in
      let P : Result Bool → Db F N → Type 0 = λ o db. elim o [
        | some new ↦ Booked t before db (if new then weight t v.tenant_id else 0) 0 0
        | none ↦ Received v before none db
      ] in
      Ensures-bind P (Received v before) (execute_scoped (insert_raw_event v)) _ w
        (Ensures-execute_scoped P (insert_raw_event v) w
          (record { raw = grind (arith, added, b.raw); hourly = b.hourly; daily = b.daily })
          (record {
            written = 0;
            booked = b;
            written_le = omega arith;
            if_new = λ h. cc;
            if_known = λ _. refl;
          })
          (record {
            written = (if (insert_raw_event v w.db).0 then weight t v.tenant_id else 0);
            booked = record {
              raw = grind (arith, added, b.raw);
              hourly = b.hourly;
              daily = b.daily;
            };
            written_le = ground arith;
            if_new = λ h. cc;
            if_known = λ h. cc;
          }))
        (λ new u c. raw_event_written_lem v new u before c) (λ db c. c)

  write_raw_event_lem :
      (v : EventEnvelope F) (w : World F N) → Ensures (Received v w.db) (write_raw_event v) w
  unfolding write_raw_event insert_inbox
  write_raw_event_lem v w =
      let same : Booked t w.db w.db 0 0 0 = record {
        raw = omega arith;
        hourly = omega arith;
        daily = omega arith;
      } in
      let stored : Booked t w.db (insert_inbox v w.db).1 0 0 0 = record {
        raw = omega arith;
        hourly = omega arith;
        daily = omega arith;
      } in
      let stopped : (db : Db F N) → Booked t w.db db 0 0 0 → Received v w.db none db = λ db c.
        record {
          written = 0;
          booked = c;
          written_le = omega arith;
          if_new = λ h. cc;
          if_known = λ _. refl;
        } in
      Ensures-bind (λ o db. Booked t w.db db 0 0 0) (Received v w.db)
        (execute_scoped (insert_inbox v)) _ w
        (Ensures-execute_scoped (λ o db. Booked t w.db db 0 0 0) (insert_inbox v) w stored same
          stored)
        (λ new u c. inbox_written_lem v new u w.db c) stopped

  handle_if_lem :
      (v : EventEnvelope F) (new : Bool) (w : World F N) (before : Db F N)
      → Received v before (some new) w.db
      → Ensures (Accounts t v before) (handle_if fl sql str v new) w
  unfolding handle_if
  handle_if_lem v false w before r =
      Received-Accounts v before (some false) (some tt) w.db r λ _. refl
  handle_if_lem v true w before r = handle_new_lem v w before r.written r.booked (r.if_new refl)

  -- Whatever becomes of its statements, handling an event adds at most one raw event, of the event's
  -- own tenant, counts no event in the hourly metrics that is not a raw event, and none in the daily
  -- metrics that is not in the hourly ones. When it raises no exception, the raw events and both
  -- metrics of every tenant grow by the same number.
  pub handle-Accounts :
      (v : EventEnvelope F) (w : World F N)
      → Accounts t v w.db (handle fl sql str v w).0 (handle fl sql str v w).1.db
  unfolding handle
  handle-Accounts v w =
      Ensures-bind (Received v w.db) (Accounts t v w.db) (write_raw_event v) _ w
        (write_raw_event_lem v w) (λ new u r. handle_if_lem v new u w.db r)
        (λ db r. Received-Accounts v w.db none none db r λ h. cc)
