-- ===== src/ProducerSdk/Retries.antt =====
-- When _request_with_retries of the producers' client stops.
use event_driven_data_platfo.Base.{
  ℕ, zero, suc, ◌+◌, ◌≤◌, ◌<◌, Bool, true, false, ◌≡◌, refl, arith, Bool-cases, inl, inr, ◌⊎◌,
  subst,
}
use event_driven_data_platfo.ProducerSdk.{
  Attempt, Called, is_retried, answer_of, after_attempt, request_attempts, request_with_retries,
}

-- 1 + … + (n - 1)
unfoldable pub sum_below : ℕ → ℕ
sum_below zero = 0
sum_below (suc n) = n + sum_below n

same_or_later : (i j : ℕ) → i ≤ j → (i ≡ j) ⊎ (suc i ≤ j)
same_or_later i j h = ground arith

module _ (is_error : ℕ → Bool) (send : ℕ → Attempt) where
  -- The calls from the attempt `first` on, of which `left` more may follow.
  pub record IsStopped (first left : ℕ) (c : Called) : Type 0 where
    pub from_first : first ≤ c.requests
    pub in_time : c.requests ≤ first + left
    pub is_answer : c.answer ≡ answer_of is_error (send c.requests)
    pub retried : (j : ℕ) → first ≤ j → j < c.requests → is_retried is_error (send j) ≡ true
    pub for_good : (c.requests ≡ first + left) ⊎ (is_retried is_error (send c.requests) ≡ false)
    pub slept : c.waited + sum_below first ≡ sum_below c.requests

  stop_at :
      (first left : ℕ)
      → (first ≡ first + left) ⊎ (is_retried is_error (send first) ≡ false)
      → IsStopped first left
          (record { answer = answer_of is_error (send first); requests = first; waited = 0 })
  stop_at first left final = record {
    from_first = omega arith;
    in_time = omega arith;
    is_answer = refl;
    retried = λ j low high. ground arith;
    for_good = final;
    slept = omega arith;
  }

  try_again :
      (first left : ℕ) (later : Called)
      → is_retried is_error (send first) ≡ true
      → IsStopped (suc first) left later
      → IsStopped first (suc left) (record later { waited = first + later.waited })
  unfolding sum_below
  try_again first left later again h = record {
    from_first = omega (arith, h.from_first);
    in_time = omega (arith, h.in_time);
    is_answer = h.is_answer;
    retried = λ j low high. elim (same_or_later first j low) [
      | inl same ↦ subst (λ k. is_retried is_error (send k) ≡ true) same again
      | inr more ↦ h.retried j more high
    ];
    for_good = elim h.for_good [ inl last ↦ inl (omega (arith, last)) | inr final ↦ inr final ];
    slept = omega (arith, h.slept);
  }

  request_attempts-IsStopped :
      (left first : ℕ) → IsStopped first left (request_attempts is_error send (suc left) first)
  unfolding request_attempts after_attempt
  request_attempts-IsStopped zero first = stop_at first zero (inl (omega arith))
  request_attempts-IsStopped (suc left) first =
      elim (Bool-cases (is_retried is_error (send first))) [
        | inl again ↦
            rw again (try_again first left _ again (request_attempts-IsStopped left (suc first)))
        | inr final ↦ rw final (stop_at first (suc left) (inr final))
      ]

  -- A call with at least one attempt answers what the attempt that it stops at comes to. It makes at
  -- most as many attempts as it may, goes on only after errors from the server and of the transport,
  -- stops before the last attempt only at a success or at another error, and sleeps for as many units
  -- before each further attempt as it has made.
  pub request_with_retries-IsStopped :
      (max_retries : ℕ)
      → IsStopped 1 max_retries (request_with_retries is_error (suc max_retries) send)
  unfolding request_with_retries
  request_with_retries-IsStopped max_retries = request_attempts-IsStopped max_retries 1
