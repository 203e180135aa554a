-- ===== src/Processing/Totals.antt =====
-- The raw events of a tenant and the events that its hourly and its daily metrics count.
use event_driven_data_platfo.Base.{
  ℕ, ◌+◌, ◌≡◌, refl, Bool, String, List, [], ◌∷◌, ◌==◌, if◌then◌else◌, arith, eq_iff,
}
use event_driven_data_platfo.Processing.Tables.{
  RawRow, MetricsRow, Numeric, Db, insert_new, upsert, add_metrics,
}
use event_driven_data_platfo.Processing.Repository.{accumulate}

-- One if the two tenants are the same.
abbrev pub weight : String → String → ℕ
weight t u = if u == t then 1 else 0

unfoldable pub count_raw : {F : Type 0} → String → List (RawRow F) → ℕ
count_raw t [] = 0
count_raw t (r ∷ rs) = weight t r.tenant_id + count_raw t rs

unfoldable pub events_total : {N : Type 0} → String → List (MetricsRow N) → ℕ
events_total t [] = 0
events_total t (r ∷ rs) = (if r.tenant_id == t then r.events_processed else 0) + events_total t rs

pub count_raw-insert_new :
    {F : Type 0} (t : String) (same : RawRow F → Bool) (row : RawRow F) (rows : List (RawRow F))
    → count_raw t (insert_new same row rows).1
      ≡ (if (insert_new same row rows).0 then weight t row.tenant_id else 0) + count_raw t rows
unfolding insert_new count_raw
count_raw-insert_new t same row rows = ground arith

module _ {F N : Type 0} where
  -- What is counted into the metrics is what the new row counts.
  pub events_total-accumulate :
      (sql : Numeric F N) (t : String) (new : MetricsRow N) (rows : List (MetricsRow N))
      → events_total t (accumulate sql new rows)
        ≡ (if new.tenant_id == t then new.events_processed else 0) + events_total t rows
  unfolding events_total accumulate upsert add_metrics
  events_total-accumulate sql t new [] = refl
  events_total-accumulate sql t new (r ∷ rs) =
      ground (arith, eq_iff r.tenant_id new.tenant_id, events_total-accumulate sql t new rs)

  -- `before` and `after` differ by `r` raw events of the tenant, and by `h` events and `d` events in
  -- its hourly and daily metrics.
  pub record Booked (t : String) (before after : Db F N) (r h d : ℕ) : Type 0 where
    pub raw : count_raw t after.raw_events ≡ r + count_raw t before.raw_events
    pub hourly : events_total t after.hourly ≡ h + events_total t before.hourly
    pub daily : events_total t after.daily ≡ d + events_total t before.daily
