-- ===== src/Reconciliation/Figures.antt =====
-- What the figures of a day are, told without the queries of reconcile_metrics.py: which rows are of a
-- day, how many there are, what they add up to, and what the daily metrics say.
use event_driven_data_platfo.Base.{
  ℕ, zero, suc, ◌+◌, ◌*◌, ◌≤◌, ◌<◌, ◌≡◌, ◌⊎◌, ◌↔◌, inl, inr, refl, sym, ◌∙◌, ap, Bool, true, false,
  ◌&&◌, ◌||◌, false≢true, String, List, [], ◌∷◌, ◌==◌, arith, eq_iff, Bool-cases, and-eq-true,
}
use event_driven_data_platfo.Base.Int.{
  ℤ, pos, negsuc, pos_part, neg_part, ◌+ℤ◌, ◌-ℤ◌, ◌≤ℤ◌, leb_ℤ, eqb_ℤ, +ℤ_parts, eq_of_parts,
}
use event_driven_data_platfo.Events.Values.{
  Json, text, null, boolean, integer, number, array, object,
}
use event_driven_data_platfo.Events.Envelopes.{Datetime}
use event_driven_data_platfo.Processing.Rows.{hour}
use event_driven_data_platfo.Processing.Tables.{MetricsRow}
use event_driven_data_platfo.Processing.Repository.{instant}
use event_driven_data_platfo.Reconciliation.Queries.{
  day_of_instant, date_of, days_from, dates, count_where, sum_where, has_value, daily_row, coalesce,
  is_of,
}

-- The days from the first to the last, in their order.
abbrev pub AreDays : ℤ → ℤ → List ℤ → Type 0
AreDays first last [] = ⊥
AreDays first last (day ∷ []) = (day ≡ first) × (day ≡ last)
AreDays first last (day ∷ next ∷ days) = (day ≡ first) × AreDays (first +ℤ pos 1) last (next ∷ days)

-- The instant, in microseconds, is in the day; days and instants are counted from the same one.
abbrev pub IsIn : ℤ → ℤ → Type 0
IsIn (pos day) (pos at) = (day * (24 * hour) ≤ at) × (at < (day + 1) * (24 * hour))
IsIn (negsuc day) (negsuc at) = (day * (24 * hour) ≤ at) × (at < (day + 1) * (24 * hour))
IsIn (pos day) (negsuc at) = ⊥
IsIn (negsuc day) (pos at) = ⊥

-- A row of the tenant with a time in the day.
abbrev pub IsRowOf : String → ℤ → String → Datetime → Type 0
IsRowOf tenant day row_tenant at = (row_tenant ≡ tenant) × IsIn day (instant at)

module _ {R : Type 0} (P : R → Type 0) where
  -- As many of the rows have the property.
  abbrev pub Counts : List R → ℕ → Type 0
  Counts [] n = n ≡ 0
  Counts (r ∷ rs) n = (P r × (m : ℕ) × (n ≡ suc m) × Counts rs m) ⊎ ((P r → ⊥) × Counts rs n)

  -- The rows with the property add up to the total.
  abbrev pub Sums : {N : Type 0} → (N → N → N) → N → (R → N) → List R → N → Type 0
  Sums plus zero_sum column [] total = total ≡ zero_sum
  Sums {N} plus zero_sum column (r ∷ rs) total =
      (P r × (rest : N) × (total ≡ plus (column r) rest) × Sums plus zero_sum column rs rest)
      ⊎ ((P r → ⊥) × Sums plus zero_sum column rs total)

-- The row of the day says so, or there is none and it is the default.
abbrev pub Serves :
    {N C : Type 0} → String → ℤ → (MetricsRow N → C) → C → List (MetricsRow N) → C → Type 0
Serves tenant day column default [] figure = figure ≡ default
Serves tenant day column default (r ∷ rs) figure =
    (((r.tenant_id ≡ tenant) × (r.bucket ≡ day)) × (figure ≡ column r))
    ⊎ ((((r.tenant_id ≡ tenant) × (r.bucket ≡ day)) → ⊥)
        × Serves tenant day column default rs figure)

days_from-AreDays :
    (n : ℕ) (first last : ℤ)
    → pos_part first + n + neg_part last ≡ pos_part last + neg_part first
    → AreDays first last (days_from (suc n) first)
unfolding days_from
days_from-AreDays zero first last e = (refl, eq_of_parts first last (omega (arith, e)))
days_from-AreDays (suc n) first last e =
    (refl, days_from-AreDays n (first +ℤ pos 1) last (omega (arith, e, +ℤ_parts first (pos 1))))

difference_lem :
    (first last : ℤ)
    → first ≤ℤ last
    → pos_part first + pos_part (last -ℤ first) + neg_part last ≡ pos_part last + neg_part first
unfolding ◌-ℤ◌
difference_lem first last h = ground (arith, h)

pub dates-AreDays : (first last : ℤ) → first ≤ℤ last → AreDays first last (dates first last)
unfolding dates
dates-AreDays first last h =
    let ordered : leb_ℤ first last ≡ true = ground (arith, h) in
    rw ordered
      (days_from-AreDays (pos_part (last -ℤ first)) first last (difference_lem first last h))

day_of_instant_iff : (day at : ℤ) → (eqb_ℤ (day_of_instant at) day ≡ true) ↔ IsIn day at
unfolding day_of_instant
day_of_instant_iff (pos day) (pos at) = (λ e. ground arith, λ e. ground arith)
day_of_instant_iff (negsuc day) (negsuc at) = (λ e. ground arith, λ e. ground arith)
day_of_instant_iff (pos day) (negsuc at) = (λ e. ground arith, λ e. absurd e)
day_of_instant_iff (negsuc day) (pos at) = (λ e. ground arith, λ e. absurd e)

-- The Boolean is true exactly when the property holds.
abbrev pub IsTestOf : Bool → Type 0 → Type 0
IsTestOf b P = (b ≡ true) ↔ P

pub and-IsTestOf :
    {P Q : Type 0} (a b : Bool) → IsTestOf a P → IsTestOf b Q → IsTestOf (a && b) (P × Q)
and-IsTestOf a b p q =
    (λ e. let (x, y) = and-eq-true a b e in (p.0 x, q.0 y), λ (x, y). rw (p.1 x, q.1 y) refl)

pub is_of_iff :
    (tenant : String) (day : ℤ) (row_tenant : String) (at : Datetime)
    → IsTestOf (is_of tenant day row_tenant at) (IsRowOf tenant day row_tenant at)
unfolding date_of
is_of_iff tenant day row_tenant at =
    and-IsTestOf _ _ (eq_iff row_tenant tenant) (day_of_instant_iff day (instant at))

text_inj : {F : Type 0} {a b : String} → ◌≡◌ {A = Json F} (text a) (text b) → a ≡ b
text_inj {F} {a} {b} h = cc

pub has_value_iff :
    {F : Type 0} (value : String) (j : Json F) → IsTestOf (has_value value j) (j ≡ text value)
unfolding has_value
has_value_iff value (text s) =
    (λ e. ap text ((eq_iff s value).0 e), λ e. (eq_iff s value).1 (text_inj e))
has_value_iff value null = (λ e. cc, λ e. cc)
has_value_iff value (boolean b) = (λ e. cc, λ e. cc)
has_value_iff value (integer n) = (λ e. cc, λ e. cc)
has_value_iff value (number x) = (λ e. cc, λ e. cc)
has_value_iff value (array xs) = (λ e. cc, λ e. cc)
has_value_iff value (object d) = (λ e. cc, λ e. cc)

pub or-IsTestOf :
    {P Q : Type 0} (a b : Bool) → IsTestOf a P → IsTestOf b Q → IsTestOf (a || b) (P ⊎ Q)
or-IsTestOf true b p q = (λ e. inl (p.0 refl), λ e. refl)
or-IsTestOf false b p q =
    (λ e. inr (q.0 e), λ e. elim e [ inl x ↦ absurd (false≢true (p.1 x)) | inr y ↦ q.1 y ])

untested : {P : Type 0} (b : Bool) → IsTestOf b P → b ≡ false → P → ⊥
untested b t miss p = false≢true (sym miss ∙ t.1 p)

module _ {R : Type 0} (test : R → Bool) (P : R → Type 0)
    (decides : (r : R) → IsTestOf (test r) (P r)) where
  pub count_where-Counts : (rs : List R) → Counts P rs (count_where test rs)
  unfolding count_where
  count_where-Counts [] = refl
  count_where-Counts (r ∷ rs) = elim (Bool-cases (test r)) [
    | inl hit ↦ rw hit (inl ((decides r).0 hit, count_where test rs, refl, count_where-Counts rs))
    | inr miss ↦ rw miss (inr (untested _ (decides r) miss, count_where-Counts rs))
  ]

  pub Counts-count_where : (rs : List R) (n : ℕ) → Counts P rs n → n ≡ count_where test rs
  unfolding count_where
  Counts-count_where [] n c = c
  Counts-count_where (r ∷ rs) n (inl (p, m, e, c)) =
      rw ((decides r).1 p) (e ∙ ap suc (Counts-count_where rs m c))
  Counts-count_where (r ∷ rs) n (inr (q, c)) = elim (Bool-cases (test r)) [
    | inl hit ↦ absurd (q ((decides r).0 hit))
    | inr miss ↦ rw miss (Counts-count_where rs n c)
  ]

  module _ {N : Type 0} (plus : N → N → N) (zero_sum : N) (column : R → N) where
    pub sum_where-Sums :
        (rs : List R) → Sums P plus zero_sum column rs (sum_where plus zero_sum test column rs)
    unfolding sum_where
    sum_where-Sums [] = refl
    sum_where-Sums (r ∷ rs) = elim (Bool-cases (test r)) [
      | inl hit ↦
          rw hit (
            inl
              ((decides r).0 hit, sum_where plus zero_sum test column rs, refl, sum_where-Sums rs))
      | inr miss ↦ rw miss (inr (untested _ (decides r) miss, sum_where-Sums rs))
    ]

    pub Sums-sum_where :
        (rs : List R) (total : N)
        → Sums P plus zero_sum column rs total
        → total ≡ sum_where plus zero_sum test column rs
    unfolding sum_where
    Sums-sum_where [] total c = c
    Sums-sum_where (r ∷ rs) total (inl (p, m, e, c)) =
        rw ((decides r).1 p) (e ∙ ap (plus (column r)) (Sums-sum_where rs m c))
    Sums-sum_where (r ∷ rs) total (inr (q, c)) = elim (Bool-cases (test r)) [
      | inl hit ↦ absurd (q ((decides r).0 hit))
      | inr miss ↦ rw miss (Sums-sum_where rs total c)
    ]

eqb_ℤ_iff : (a b : ℤ) → IsTestOf (eqb_ℤ a b) (a ≡ b)
eqb_ℤ_iff a b = (λ e. eq_of_parts a b (ground (arith, e)), λ e. rw e (ground arith))

module _ {N C : Type 0} (tenant : String) (day : ℤ) (column : MetricsRow N → C) (default : C) where
  key_iff :
      (r : MetricsRow N)
      → IsTestOf
          ((r.tenant_id == tenant) && eqb_ℤ r.bucket day)
          ((r.tenant_id ≡ tenant) × (r.bucket ≡ day))
  key_iff r = and-IsTestOf _ _ (eq_iff r.tenant_id tenant) (eqb_ℤ_iff r.bucket day)

  pub daily_row-Serves :
      (rs : List (MetricsRow N))
      → Serves tenant day column default rs (coalesce (daily_row tenant day rs) column default)
  unfolding daily_row
  daily_row-Serves [] = refl
  daily_row-Serves (r ∷ rs) = elim (Bool-cases ((r.tenant_id == tenant) && eqb_ℤ r.bucket day)) [
    | inl hit ↦ rw hit (inl ((key_iff r).0 hit, refl))
    | inr miss ↦ rw miss (inr (untested _ (key_iff r) miss, daily_row-Serves rs))
  ]

  pub Serves-daily_row :
      (rs : List (MetricsRow N)) (figure : C)
      → Serves tenant day column default rs figure
      → figure ≡ coalesce (daily_row tenant day rs) column default
  unfolding daily_row
  Serves-daily_row [] figure s = s
  Serves-daily_row (r ∷ rs) figure (inl (key, e)) = rw ((key_iff r).1 key) e
  Serves-daily_row (r ∷ rs) figure (inr (other, s)) =
      elim (Bool-cases ((r.tenant_id == tenant) && eqb_ℤ r.bucket day)) [
        | inl hit ↦ absurd (other ((key_iff r).0 hit))
        | inr miss ↦ rw miss (Serves-daily_row rs figure s)
      ]
