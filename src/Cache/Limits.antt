-- ===== src/Cache/Limits.antt =====
-- The rate limit of one user and path.
use event_driven_data_platfo.Base.{
  ℕ, zero, ◌+◌, ◌-◌, ◌≤◌, suc, ◌≡◌, refl, false, Option, none, some, List, [], ◌∷◌, arith, ap, ◌∙◌,
  leb, if◌then◌else◌,
}
use event_driven_data_platfo.Cache.{
  Counter, Reach, reached, unreachable, incr_unanswered, expire_failed, incr, incr_rate_limit,
  is_allowed, allowed_requests,
}

abbrev pub count_of : Option Counter → ℕ
count_of none = 0
count_of (some c) = c.count

abbrev pub all_reached : ℕ → List Reach
all_reached zero = []
all_reached (suc n) = reached ∷ all_reached n

unfoldable pub smaller : ℕ → ℕ → ℕ
smaller a b = if leb a b then a else b

reached-count :
    (c : Option Counter)
    → ((incr_rate_limit reached c).0 ≡ some (count_of c + 1))
      × (count_of (incr_rate_limit reached c).1 ≡ count_of c + 1)
unfolding incr_rate_limit incr
reached-count none = (refl, refl)
reached-count (some c) = (refl, ground arith)

-- While Redis is reached, of the next requests in a window exactly as many go on as the limit leaves
-- beyond those that were counted already, or all of them if they are fewer.
pub allowed_requests-exact :
    (limit n : ℕ) (c : Option Counter)
    → (allowed_requests limit (all_reached n) c).0 ≡ smaller n (limit - count_of c)
unfolding allowed_requests smaller is_allowed
allowed_requests-exact limit zero c = ground arith
allowed_requests-exact limit (suc n) c =
    let next = incr_rate_limit reached c in
    let (current, counted) = reached-count c in
    let later = allowed_requests-exact limit n next.1 in
    let here : is_allowed limit next.0 ≡ leb (count_of c + 1) limit =
      ap (is_allowed limit) current in
    ground (arith, here, counted, later)

step_has_ttl :
    (r : Reach) (c : Counter)
    → 1 ≤ c.count
    → (d : Counter) × ((incr_rate_limit r (some c)).1 ≡ some d)
      × (1 ≤ d.count)
      × (d.has_ttl ≡ c.has_ttl)
unfolding incr_rate_limit incr
step_has_ttl unreachable c h = (c, refl, h, refl)
step_has_ttl incr_unanswered c h = (record c { count = c.count + 1 }, refl, omega arith, refl)
step_has_ttl expire_failed c h = (record c { count = c.count + 1 }, ground arith, omega arith, refl)
step_has_ttl reached c h = (record c { count = c.count + 1 }, ground arith, omega arith, refl)

allowed_requests-keeps_ttl :
    (limit : ℕ) (rs : List Reach) (c : Counter)
    → 1 ≤ c.count
    → (d : Counter) × ((allowed_requests limit rs (some c)).1 ≡ some d) × (d.has_ttl ≡ c.has_ttl)
unfolding allowed_requests
allowed_requests-keeps_ttl limit [] c h = (c, refl, refl)
allowed_requests-keeps_ttl limit (r ∷ rs) c h =
    let (d, stepped, positive, same) = step_has_ttl r c h in
    let (e, ran, kept) = allowed_requests-keeps_ttl limit rs d positive in
    (e, ap (λ o. (allowed_requests limit rs o).1) stepped ∙ ran, kept ∙ same)

-- If the `expire` of the first request fails, the counter never gets a time to live, whatever
-- requests follow.
pub no_ttl_for_good :
    (limit : ℕ) (rs : List Reach)
    → (d : Counter) × ((allowed_requests limit (expire_failed ∷ rs) none).1 ≡ some d)
      × (d.has_ttl ≡ false)
unfolding allowed_requests incr_rate_limit incr
no_ttl_for_good limit rs =
    allowed_requests-keeps_ttl limit rs (record { count = 1; has_ttl = false }) (omega arith)
