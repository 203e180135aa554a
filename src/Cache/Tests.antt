-- ===== src/Cache/Tests.antt =====
-- Small windows and caches, and the theorems at work on them.
use event_driven_data_platfo.Base.{ℕ, ◌-◌, ◌≡◌, false, none, some, [], ◌∷◌}
use event_driven_data_platfo.Cache.{Counter, reached, expire_failed, CacheState, allowed_requests}
use event_driven_data_platfo.Cache.Limits.{
  all_reached, smaller, count_of, allowed_requests-exact, no_ttl_for_good,
}

allowed_requests-exact_example :
    (allowed_requests 2 (all_reached 3) none).0 ≡ smaller 3 (2 - count_of none)
allowed_requests-exact_example = allowed_requests-exact 2 3 none

no_ttl_for_good_example :
    (d : Counter) × ((allowed_requests 2 (expire_failed ∷ reached ∷ reached ∷ []) none).1 ≡ some d)
    × (d.has_ttl ≡ false)
no_ttl_for_good_example = no_ttl_for_good 2 (reached ∷ reached ∷ [])

abbrev cache : CacheState ℕ
cache = record {
  values = ("metrics:revenue", 5) ∷ [];
  stats = record { hits = 0; misses = 0; unavailable_count = 0 };
}
