-- ===== src/DlqTool/Bounds.antt =====
-- How many dead letters read_dlq_records reads.
use event_driven_data_platfo.Base.{
  ℕ, suc, ◌+◌, ◌≤◌, ◌<◌, ◌&&◌, String, Option, some, List, [], ◌∷◌, ◌++◌, ◌≡◌, arith, length,
  length-append, Every, leb, ltb, Bool-cases, inl, inr, >>=-eq-some, some_inj, ap,
}
use event_driven_data_platfo.Events.Values.{Floats}
use event_driven_data_platfo.DlqTool.Records.{DlqRecord, Readers, extract_dlq_record}
use event_driven_data_platfo.DlqTool.Reading.{
  Message, Batches, is_wanted_by, after_record, read_messages, read_batches, after_poll, read_polls,
  read_dlq_records,
}

module _ (F : Type 0) (fl : Floats F) (readers : Readers F) (max_records : ℕ)
    (event_id : Option String) where
  -- A partition adds no record, or fills the list up to its bound at most, or adds one to a full list.
  read_messages-length :
      (messages : List Message) (records out : List (DlqRecord F)) (bound : ℕ)
      → max_records ≤ bound
      → length records < bound
      → read_messages fl readers max_records event_id messages records ≡ some out
      → length out ≤ bound
  unfolding read_messages after_record
  read_messages-length [] records out bound max h e = omega (arith, ap length (some_inj e))
  read_messages-length ((value, place) ∷ rest) records out bound max h e =
      let (r, found, next) = >>=-eq-some (extract_dlq_record fl readers value place) _ e in
      elim (Bool-cases (is_wanted_by event_id r)) [
        | inr passed ↦ read_messages-length rest records out bound max h (rw passed at next)
        | inl wanted ↦ elim (Bool-cases (leb max_records (suc (length records)))) [
          | inl full ↦
              let same = some_inj (rw (wanted, full) at next) in
              omega (arith, ap length same, length-append records (r ∷ []))
          | inr room ↦
              let more = records ++ (r ∷ []) in
              read_messages-length rest more out bound max
                (ground (arith, length-append records (r ∷ []))) (rw (wanted, room) at next)
        ]
      ]

  read_batches-length :
      (batches : Batches) (records out : List (DlqRecord F)) (bound : ℕ)
      → max_records ≤ bound
      → length records < bound
      → read_batches fl readers max_records event_id batches records ≡ some out
      → length out < bound + length batches
  unfolding read_batches
  read_batches-length [] records out bound max h e = omega (arith, ap length (some_inj e))
  read_batches-length (messages ∷ rest) records out bound max h e =
      let (more, read, next) =
        >>=-eq-some (read_messages fl readers max_records event_id messages records) _ e in
      let few = read_messages-length messages records more bound max h read in
      let last =
        read_batches-length rest more out (suc bound) (omega arith) (omega (arith, few)) next in
      omega (arith, last)

  read_polls-length :
      (partitions : ℕ) (polls : List Batches) (empty_polls : ℕ) (records out : List (DlqRecord F))
      → Every (λ batches. length batches ≤ partitions) polls
      → length records < max_records + partitions
      → read_polls fl readers max_records event_id polls empty_polls records ≡ some out
      → length out < max_records + partitions
  unfolding read_polls after_poll
  read_polls-length partitions [] empty_polls records out few h e =
      omega (arith, ap length (some_inj e))
  read_polls-length partitions ([] ∷ polls) empty_polls records out few h e =
      elim (Bool-cases (ltb (length records) max_records && ltb empty_polls 3)) [
        | inl go ↦
            read_polls-length partitions polls (suc empty_polls) records out few.1 h (rw go at e)
        | inr stop ↦ omega (arith, ap length (some_inj (rw stop at e)))
      ]
  read_polls-length partitions ((messages ∷ rest) ∷ polls) empty_polls records out few h e =
      elim (Bool-cases (ltb (length records) max_records && ltb empty_polls 3)) [
        | inl go ↦
            let (more, read, next) =
              >>=-eq-some (read_batches fl readers max_records event_id (messages ∷ rest) records) _
                (rw go at e) in
            let added =
              read_batches-length (messages ∷ rest) records more max_records (omega arith)
                (ground arith) read in
            read_polls-length partitions polls 0 more out few.1 (omega (arith, added, few.0)) next
        | inr stop ↦ omega (arith, ap length (some_inj (rw stop at e)))
      ]

  -- If no poll has messages of more than `partitions` partitions, the list that is read has fewer than
  -- max_records + partitions records: with one partition the bound is kept, and each further one may
  -- put one record more into a list that is full.
  pub read_dlq_records-length :
      (partitions : ℕ) (polls : List Batches) (out : List (DlqRecord F))
      → 1 ≤ max_records
      → Every (λ batches. length batches ≤ partitions) polls
      → read_dlq_records fl readers max_records event_id polls ≡ some out
      → length out < max_records + partitions
  unfolding read_dlq_records
  read_dlq_records-length partitions polls out some_wanted few e =
      read_polls-length partitions polls 0 [] out few (omega arith) e
