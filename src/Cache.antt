-- ===== src/Cache.antt =====
-- services/shared/platform_shared/cache.py, and enforce_rate_limit and cached_metric of
-- services/analytics-service/app/main.py. Whether a call reaches Redis is an argument. A rate limit's
-- counter is modelled by itself, for one key and within one window; that a failed call of it is counted
-- as unavailable is left out, as is the JSON text of values.
pub mod Limits
pub mod Values
mod Tests
use event_driven_data_platfo.Base.{
  ℕ, ◌+◌, Bool, true, false, String, Option, none, some, List, [], ◌∷◌, Dict, lookup, insert, eqb,
  leb, if◌then◌else◌,
}

-- A counter, and whether it has a time to live.
pub record Counter : Type 0 where
  pub count : ℕ
  pub has_ttl : Bool

-- How far a call of incr_rate_limit gets: to its end, not to Redis, to an `incr` that is carried
-- out and not answered, or to an `incr` that is answered and an `expire` that fails.
pub data Reach : Type 0 where
  reached : Reach
  unreachable : Reach
  incr_unanswered : Reach
  expire_failed : Reach

-- `stats`
pub record CacheStats : Type 0 where
  pub hits : ℕ
  pub misses : ℕ
  pub unavailable_count : ℕ

-- The values in Redis, and the counts of the `RedisCache`.
pub record CacheState (V : Type 0) : Type 0 where
  pub values : Dict V
  pub stats : CacheStats

module _ {V : Type 0} where
  -- `_record_unavailable`
  unfoldable pub record_unavailable : CacheState V → CacheState V
  record_unavailable s = record s {
    stats = record s.stats { unavailable_count = s.stats.unavailable_count + 1 };
  }

  -- What `get_json` makes of what Redis returns.
  unfoldable pub count_lookup : Option V → CacheState V → Option V × CacheState V
  count_lookup none s = (none, record s { stats = record s.stats { misses = s.stats.misses + 1 } })
  count_lookup (some v) s =
      (some v, record s { stats = record s.stats { hits = s.stats.hits + 1 } })

  -- `get_json`; the Boolean tells whether Redis is reached.
  unfoldable pub get_json : Bool → String → CacheState V → Option V × CacheState V
  unfolding record_unavailable
  get_json false key s = (none, record_unavailable s)
  get_json true key s = count_lookup (lookup key s.values) s

  -- `set_json`
  unfoldable pub set_json : Bool → String → V → CacheState V → CacheState V
  unfolding record_unavailable insert
  set_json false key v s = record_unavailable s
  set_json true key v s = record s { values = insert key v s.values }

  -- `cached_metric`: the data and whether they are cached. The two calls of the cache may differ in
  -- whether they reach Redis.
  unfoldable pub load_metric :
      Bool → String → V → Option V × CacheState V → (V × Bool) × CacheState V
  unfolding set_json
  load_metric set_reaches key loaded (some v, s) = ((v, true), s)
  load_metric set_reaches key loaded (none, s) =
      ((loaded, false), set_json set_reaches key loaded s)

  unfoldable pub cached_metric : Bool → Bool → String → V → CacheState V → (V × Bool) × CacheState V
  unfolding get_json load_metric
  cached_metric get_reaches set_reaches key loaded s =
      load_metric set_reaches key loaded (get_json get_reaches key s)

-- Redis' `incr`: a key that is not there counts from 0 and has no time to live.
unfoldable pub incr : Option Counter → Counter
incr none = record { count = 1; has_ttl = false }
incr (some c) = record c { count = c.count + 1 }

-- What incr_rate_limit leaves of the counter and returns, `none` for RATE_LIMIT_UNKNOWN.
unfoldable pub incr_rate_limit : Reach → Option Counter → Option ℕ × Option Counter
unfolding incr
incr_rate_limit unreachable c = (none, c)
incr_rate_limit incr_unanswered c = (none, some (incr c))
incr_rate_limit expire_failed c =
    let next = incr c in
    if eqb next.count 1 then (none, some next) else (some next.count, some next)
incr_rate_limit reached c =
    let next = incr c in
    (some next.count, some (if eqb next.count 1 then record next { has_ttl = true } else next))

-- `enforce_rate_limit`: whether the request goes on, which it does when the count is not known.
unfoldable pub is_allowed : ℕ → Option ℕ → Bool
is_allowed limit none = true
is_allowed limit (some current) = leb current limit

-- The requests of one user for one path, and how many of them go on.
unfoldable pub allowed_requests : ℕ → List Reach → Option Counter → ℕ × Option Counter
unfolding incr_rate_limit is_allowed
allowed_requests limit [] c = (0, c)
allowed_requests limit (r ∷ rs) c =
    let (current, next) = incr_rate_limit r c in
    let (later, last) = allowed_requests limit rs next in
    ((if is_allowed limit current then 1 else 0) + later, last)
