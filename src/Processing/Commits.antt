-- ===== src/Processing/Commits.antt =====
-- The counters, the position and the committed position of the consumer loop.
use event_driven_data_platfo.Base.{
  ℕ, ◌+◌, ◌<◌, ◌≡◌, Bool, true, false, none, some, List, [], ◌∷◌, arith, ltb, Bool-cases, inl, inr,
  refl, length, String,
}
use event_driven_data_platfo.Events.Values.{Json, Floats}
use event_driven_data_platfo.Processing.Tables.{Numeric}
use event_driven_data_platfo.Processing.Actions.{Result, World}
use event_driven_data_platfo.Processing.Conservation.{failures}
use event_driven_data_platfo.Processing.Worker.{
  ConsumerRecord, Poll, WorkerState, process_record, count_record, consume_record, consume_records,
  consume_batches, count_batches, commit_if_needed, poll_once,
}

-- From `before` to `after`, `n` records were counted, as processed or as failed.
pub record Counts {F N : Type 0} (n : ℕ) (before after : WorkerState F N) : Type 0 where
  pub counted :
      after.records_processed + failures after.samples
      ≡ before.records_processed + failures before.samples + n
  pub in_step :
      after.processed_since_commit + before.records_processed
      ≡ before.processed_since_commit + after.records_processed
  pub same_position : after.position ≡ before.position
  pub same_committed : after.committed ≡ before.committed

module _ (F N : Type 0) (fl : Floats F) (sql : Numeric F N) (str : Json F → String) where
  count_record-Counts :
      (r : ConsumerRecord F) (s : WorkerState F N) (p : Result Unit × World F N)
      → Counts 1 s (count_record fl sql str r s p)
  unfolding count_record failures
  count_record-Counts r s (none, w) = record {
    counted = omega arith;
    in_step = omega arith;
    same_position = refl;
    same_committed = refl;
  }
  count_record-Counts r s (some _, w) = record {
    counted = omega arith;
    in_step = omega arith;
    same_position = refl;
    same_committed = refl;
  }

  Counts-trans :
      (a b c : WorkerState F N) (m n k : ℕ) → Counts m a b → Counts n b c → k ≡ m + n → Counts k a c
  Counts-trans a b c m n k p q e = record {
    counted = omega (arith, p.counted, q.counted, e);
    in_step = omega (arith, p.in_step, q.in_step);
    same_position = omega (arith, p.same_position, q.same_position);
    same_committed = omega (arith, p.same_committed, q.same_committed);
  }

  Counts-refl : (s : WorkerState F N) → Counts 0 s s
  Counts-refl s = record {
    counted = omega arith;
    in_step = omega arith;
    same_position = refl;
    same_committed = refl;
  }

  consume_records-Counts :
      (rs : List (ConsumerRecord F)) (s : WorkerState F N)
      → Counts (length rs) s (consume_records fl sql str rs s)
  unfolding consume_records consume_record
  consume_records-Counts [] s = Counts-refl s
  consume_records-Counts (r ∷ rs) s =
      Counts-trans s _ _ 1 (length rs) _
        (count_record-Counts r s (process_record fl sql str r s.world))
        (consume_records-Counts rs _) (omega arith)

  consume_batches-Counts :
      (batches : List (List (ConsumerRecord F))) (s : WorkerState F N)
      → Counts (count_batches batches) s (consume_batches fl sql str batches s)
  unfolding consume_batches count_batches
  consume_batches-Counts [] s = Counts-refl s
  consume_batches-Counts (rs ∷ rest) s =
      Counts-trans s _ _ (length rs) (count_batches rest) _ (consume_records-Counts rs s)
        (consume_batches-Counts rest _) refl

  commit_if_needed-records :
      (answered : Bool) (s : WorkerState F N)
      → (commit_if_needed fl sql str answered s).records_processed ≡ s.records_processed
  unfolding commit_if_needed
  commit_if_needed-records true s = ground arith
  commit_if_needed-records false s = ground arith

  -- A poll of which at least one record was processed commits the position behind all its records
  -- when the commit is answered, and each of these records was counted as processed or as failed:
  -- the failed ones are committed with the others.
  pub poll_once-commits :
      (p : Poll F) (s : WorkerState F N)
      → p.commit_answered ≡ true
      → s.records_processed < (poll_once fl sql str p s).records_processed
      → ((poll_once fl sql str p s).committed ≡ s.position + count_batches p.batches)
        × ((poll_once fl sql str p s).records_processed
              + failures (poll_once fl sql str p s).samples
            ≡ s.records_processed + failures s.samples + count_batches p.batches)
  unfolding poll_once
  poll_once-commits p s answered more =
      let start = record s {
        processed_since_commit = 0;
        position = s.position + count_batches p.batches;
      } in
      let c = consume_batches-Counts p.batches start in
      let same =
        commit_if_needed-records p.commit_answered (consume_batches fl sql str p.batches start) in
      elim (Bool-cases
        (ltb 0 (consume_batches fl sql str p.batches start).processed_since_commit)) [
          | inr no_success ↦ ground (arith, no_success, same, c.in_step, more)
          | inl some_success ↦ rw (some_success, answered) (c.same_position, c.counted)
        ]

  -- A poll of which no record was processed leaves the committed position where it was.
  pub poll_once-keeps_committed :
      (p : Poll F) (s : WorkerState F N)
      → (poll_once fl sql str p s).records_processed ≡ s.records_processed
      → (poll_once fl sql str p s).committed ≡ s.committed
  unfolding poll_once commit_if_needed
  poll_once-keeps_committed p s none_more =
      let start = record s {
        processed_since_commit = 0;
        position = s.position + count_batches p.batches;
      } in
      let c = consume_batches-Counts p.batches start in
      let same =
        commit_if_needed-records p.commit_answered (consume_batches fl sql str p.batches start) in
      elim (Bool-cases
        (ltb 0 (consume_batches fl sql str p.batches start).processed_since_commit)) [
          | inr no_success ↦ rw no_success c.same_committed
          | inl some_success ↦ ground (arith, some_success, same, c.in_step, none_more)
        ]
