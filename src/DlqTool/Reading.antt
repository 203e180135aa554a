-- ===== src/DlqTool/Reading.antt =====
-- read_dlq_records of dlq_tool.py. The polls are the answers of the consumer, in their order; past the
-- end of the list every poll is empty. That the consumer hands over at most max_records messages in a
-- poll is not used: lists with longer polls are read too.
use event_driven_data_platfo.Base.{
  ℕ, suc, Bool, true, false, ◌||◌, ◌&&◌, String, Option, none, some, List, [], ◌∷◌, ◌++◌, ◌==◌,
  ◌>>=◌, if◌then◌else◌, leb, ltb, length, is_empty,
}
use event_driven_data_platfo.Events.Values.{Floats}
use event_driven_data_platfo.Events.Envelopes.{EventEnvelope}
use event_driven_data_platfo.DlqTool.Records.{DlqRecord, Place, Readers, extract_dlq_record}

-- A message: its value and where it stands.
abbrev pub Message : Type 0
Message = String × Place

-- The messages of the partitions of one poll.
abbrev pub Batches : Type 0
Batches = List (List Message)

module _ {F : Type 0} where
  unfoldable pub original_has_id : String → Option (EventEnvelope F) → Bool
  original_has_id id none = false
  original_has_id id (some v) = v.event_id == id

  -- Whether the record is wanted; an empty id asks for all.
  unfoldable pub is_wanted_by : Option String → DlqRecord F → Bool
  unfolding original_has_id
  is_wanted_by none r = true
  is_wanted_by (some id) r =
      is_empty id || (r.envelope.event_id == id) || original_has_id id r.original_event

module _ {F : Type 0} (fl : Floats F) (readers : Readers F) (max_records : ℕ)
    (event_id : Option String) where
  -- After a record: the loop is left when a wanted one has filled the list.
  unfoldable pub after_record :
      (List (DlqRecord F) → Option (List (DlqRecord F)))
      → List (DlqRecord F)
      → DlqRecord F
      → Option (List (DlqRecord F))
  unfolding is_wanted_by
  after_record later records r =
      if is_wanted_by event_id r
      then (if leb max_records (suc (length records))
          then some (records ++ (r ∷ []))
          else later (records ++ (r ∷ [])))
      else later records

  -- The loop over the messages of a partition.
  unfoldable pub read_messages : List Message → List (DlqRecord F) → Option (List (DlqRecord F))
  unfolding after_record
  read_messages [] records = some records
  read_messages ((value, place) ∷ rest) records =
      extract_dlq_record fl readers value place >>= after_record (read_messages rest) records

  -- The loop over the partitions, which goes on after the inner loop has been left.
  unfoldable pub read_batches : Batches → List (DlqRecord F) → Option (List (DlqRecord F))
  unfolding read_messages
  read_batches [] records = some records
  read_batches (messages ∷ rest) records = do
    more ← read_messages messages records
    read_batches rest more

  -- After a poll: the number of empty polls in a row and the records go into the next round.
  unfoldable pub after_poll :
      (ℕ → List (DlqRecord F) → Option (List (DlqRecord F)))
      → Batches
      → ℕ
      → List (DlqRecord F)
      → Option (List (DlqRecord F))
  unfolding read_batches
  after_poll next [] empty_polls records = next (suc empty_polls) records
  after_poll next (messages ∷ rest) empty_polls records =
      read_batches (messages ∷ rest) records >>= next 0

  -- The loop over the polls, of which `empty_polls` in a row were empty.
  unfoldable pub read_polls : List Batches → ℕ → List (DlqRecord F) → Option (List (DlqRecord F))
  unfolding after_poll
  read_polls [] empty_polls records = some records
  read_polls (batches ∷ polls) empty_polls records =
      if ltb (length records) max_records && ltb empty_polls 3
      then after_poll (read_polls polls) batches empty_polls records
      else some records

  unfoldable pub read_dlq_records : List Batches → Option (List (DlqRecord F))
  unfolding read_polls
  read_dlq_records polls = read_polls polls 0 []
