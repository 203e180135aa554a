-- ===== src/Publishing/Retries.antt =====
-- The retries of KafkaEventProducer.publish.
use event_driven_data_platfo.Base.{
  ℕ, zero, suc, ◌+◌, ◌*◌, ◌≤◌, ◌<◌, ◌≡◌, refl, true, Option, none, some, is_some, arith, inl, inr,
  some_inj, ap, sym, ◌⊎◌, ◌∙◌,
}
use event_driven_data_platfo.Publishing.{
  Metadata, Sends, Published, backoff, after_send, attempts, publish,
}

backoff_le : (attempt : ℕ) → backoff attempt ≤ 20
unfolding backoff
backoff_le attempt = ground arith

first_or_later : (i j : ℕ) → i ≤ j → (j ≡ i) ⊎ (suc i ≤ j)
first_or_later i j le = ground arith

module _ (send : Sends) where
  -- The attempts that an answer comes after, from the attempt `first` on.
  record IsAnswer (first left : ℕ) (p : Published) (k : ℕ) (m : Metadata) : Type 0 where
    from_first : first ≤ k
    in_time : k < first + left
    is_sent : send k ≡ some m
    waited_le : p.waited + 20 * first ≤ 20 * k

  after_send-IsAnswer :
      (left first k : ℕ) (m : Metadata) (o : Option Metadata) (later : Published)
      → send first ≡ o
      → (later.answer ≡ some (k, m) → IsAnswer (suc first) left later k m)
      → (after_send first o later).answer ≡ some (k, m)
      → IsAnswer first (suc left) (after_send first o later) k m
  unfolding after_send
  after_send-IsAnswer left first k m (some n) later e next h =
      let same_attempt : first ≡ k = ap (λ p. p.0) (some_inj h) in
      let same_answer : n ≡ m = ap (λ p. p.1) (some_inj h) in
      record {
        from_first = omega (arith, same_attempt);
        in_time = omega (arith, same_attempt);
        is_sent = ap send (sym same_attempt) ∙ (e ∙ ap some same_answer);
        waited_le = omega (arith, same_attempt);
      }
  after_send-IsAnswer left first k m none later e next h =
      let a = next h in
      record {
        from_first = omega (arith, a.from_first);
        in_time = omega (arith, a.in_time);
        is_sent = a.is_sent;
        waited_le = omega (arith, a.waited_le, backoff_le first);
      }

  attempts-IsAnswer :
      (left first k : ℕ) (m : Metadata)
      → (attempts send left first).answer ≡ some (k, m)
      → IsAnswer first left (attempts send left first) k m
  unfolding attempts
  attempts-IsAnswer zero first k m h = cc
  attempts-IsAnswer (suc left) first k m h =
      after_send-IsAnswer left first k m (send first) _ refl
        (attempts-IsAnswer left (suc first) k m) h

  -- What publish returns is the answer to one of its attempts, which are at most as many as its
  -- retries, and it has slept at most two seconds before each further one.
  pub publish-answers :
      (retries k : ℕ) (m : Metadata)
      → (publish retries send).answer ≡ some (k, m)
      → (1 ≤ k) × (k ≤ retries) × (send k ≡ some m) × ((publish retries send).waited + 20 ≤ 20 * k)
  unfolding publish
  publish-answers retries k m h =
      let a = attempts-IsAnswer retries 1 k m h in
      (a.from_first, omega (arith, a.in_time), a.is_sent, omega (arith, a.waited_le))

  after_send_succeeds :
      (first k : ℕ) (o : Option Metadata) (later : Published)
      → send first ≡ o
      → first ≤ k
      → is_some (send k) ≡ true
      → (suc first ≤ k → is_some later.answer ≡ true)
      → is_some (after_send first o later).answer ≡ true
  unfolding after_send
  after_send_succeeds first k (some n) later e low h next = refl
  after_send_succeeds first k none later e low h next = elim (first_or_later first k low) [
    | inl same ↦ cc (rw (same, e) at h)
    | inr more ↦ next more
  ]

  attempts_succeed :
      (left first k : ℕ)
      → first ≤ k
      → k < first + left
      → is_some (send k) ≡ true
      → is_some (attempts send left first).answer ≡ true
  unfolding attempts
  attempts_succeed zero first k low high h = ground arith
  attempts_succeed (suc left) first k low high h =
      after_send_succeeds first k (send first) _ refl low h
        λ more. attempts_succeed left (suc first) k more (omega arith) h

  -- If one of the attempts that publish may make is answered, publish succeeds.
  pub publish_succeeds :
      (retries k : ℕ)
      → 1 ≤ k
      → k ≤ retries
      → is_some (send k) ≡ true
      → is_some (publish retries send).answer ≡ true
  unfolding publish
  publish_succeeds retries k low high h = attempts_succeed retries 1 k low (omega arith) h
