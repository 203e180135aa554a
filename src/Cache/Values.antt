-- ===== src/Cache/Values.antt =====
-- Cached metrics.
use event_driven_data_platfo.Base.{◌≡◌, refl, Bool, true, false, String, Option, none, some, lookup}
use event_driven_data_platfo.Cache.{
  CacheState, count_lookup, get_json, load_metric, cached_metric, record_unavailable,
}

module _ (V : Type 0) (key : String) where
  -- What is cached under the key, or the data that are loaded if nothing is.
  abbrev pub expected : V → Option V → V
  expected loaded none = loaded
  expected loaded (some v) = v

  load_metric_lem :
      (set_reaches : Bool) (loaded : V) (o : Option V) (s : CacheState V)
      → (load_metric set_reaches key loaded (o, s)).0.0 ≡ expected loaded o
  unfolding load_metric
  load_metric_lem set_reaches loaded none s = refl
  load_metric_lem set_reaches loaded (some v) s = refl

  counted_lem :
      (set_reaches : Bool) (loaded : V) (o : Option V) (s : CacheState V)
      → (load_metric set_reaches key loaded (count_lookup o s)).0.0 ≡ expected loaded o
  unfolding count_lookup
  counted_lem set_reaches loaded none s = load_metric_lem set_reaches loaded none _
  counted_lem set_reaches loaded (some v) s = load_metric_lem set_reaches loaded (some v) _

  -- An outage does not reach the caller: when Redis is not reached for the lookup, the data are those
  -- that were loaded, and when it is, they are what is cached under the key, or else those that were
  -- loaded.
  pub cached_metric-answers :
      (set_reaches : Bool) (loaded : V) (s : CacheState V)
      → ((cached_metric false set_reaches key loaded s).0.0 ≡ loaded)
        × ((cached_metric true set_reaches key loaded s).0.0
            ≡ expected loaded (lookup key s.values))
  unfolding cached_metric get_json
  cached_metric-answers set_reaches loaded s = (
    load_metric_lem set_reaches loaded none (record_unavailable s),
    counted_lem set_reaches loaded (lookup key s.values) s,
  )
