-- ===== src/Processing/Delivery.antt =====
-- The second delivery of an event, after a first that went well or failed.
use event_driven_data_platfo.Base.{
  ◌≡◌, refl, Bool, true, false, some, List, [], ◌∷◌, String, ◌==◌, arith, ap, ◌∙◌, eq_refl,
}
use event_driven_data_platfo.Events.Values.{Json, Floats}
use event_driven_data_platfo.Events.Envelopes.{EventEnvelope}
use event_driven_data_platfo.Processing.Rows.{metric_delta_for_event}
use event_driven_data_platfo.Processing.Tables.{
  InboxRow, Numeric, Db, any, insert_new, update_where,
}
use event_driven_data_platfo.Processing.Actions.{
  Fate, answered, refused, unanswered, World, evaluate, execute_scoped, execute_with,
}
use event_driven_data_platfo.Processing.Repository.{
  inbox_row_of, new_inbox_row, update_inbox, set_processed, set_duplicate, insert_inbox,
  insert_raw_event, inbox_written, raw_event_written, write_raw_event, mark_event_duplicate,
  add_hourly, add_daily, write_hourly, write_daily, write_metric_delta,
}
use event_driven_data_platfo.Processing.Handler.{handle, handle_if, handle_new, write_state}
use event_driven_data_platfo.Processing.Ensures.{Ensures-bind}
use event_driven_data_platfo.Processing.Keeps.{
  IsFramed, Keeps, Keeps-bind, Keeps-evaluate, Keeps-execute_scoped, mark_event_processed-Keeps,
  mark_event_duplicate-Keeps, write_state-Keeps,
}

-- The first statement is carried out, with or without an answer.
abbrev pub is_reached : List Fate → Bool
is_reached (refused ∷ _) = false
is_reached _ = true

unfoldable pub has_id : String → InboxRow → Bool
has_id id r = r.event_id == id

any-insert_new :
    {R : Type 0} (same : R → Bool) (row : R) (rows : List R)
    → same row ≡ true
    → any same (insert_new same row rows).1 ≡ true
unfolding any insert_new
any-insert_new same row rows h = ground arith

any-update_where :
    {R : Type 0} (same chosen : R → Bool) (change : R → R) (rows : List R)
    → ((r : R) → same (change r) ≡ same r)
    → any same (update_where chosen change rows) ≡ any same rows
unfolding any update_where
any-update_where same chosen change [] h = refl
any-update_where same chosen change (r ∷ rs) h =
    ground (arith, h r, any-update_where same chosen change rs h)

module _ (F N : Type 0) (fl : Floats F) (sql : Numeric F N) (str : Json F → String)
    (v : EventEnvelope F) where
  -- The inbox has the event's id.
  unfoldable pub IsReceived : Db F N → Type 0
  unfolding has_id any
  IsReceived db = any (has_id v.event_id) db.inbox ≡ true

  IsReceived-frame :
      (before after : Db F N) → IsFramed before after → IsReceived before → IsReceived after
  unfolding IsReceived
  IsReceived-frame before after f i = ap (any (has_id v.event_id)) f.same_inbox ∙ i

  update_inbox-IsReceived :
      (change : InboxRow → InboxRow)
      → ((r : InboxRow) → (change r).event_id ≡ r.event_id)
      → (db : Db F N) → IsReceived db
      → IsReceived (update_inbox v change db)
  unfolding IsReceived update_inbox has_id
  update_inbox-IsReceived change same db i =
      any-update_where (has_id v.event_id) (inbox_row_of v) change db.inbox
        (λ r. ap (λ s. s == v.event_id) (same r))
      ∙ i

  handle_new-IsReceived : Keeps F N IsReceived IsReceived-frame (handle_new fl sql str v)
  unfolding handle_new write_metric_delta write_hourly write_daily add_hourly add_daily IsReceived
  handle_new-IsReceived =
      Keeps-bind F N IsReceived IsReceived-frame (write_state fl sql str v.kind v) _
        (write_state-Keeps F N IsReceived IsReceived-frame fl sql str v.kind v)
        λ _.
          Keeps-bind F N IsReceived IsReceived-frame (evaluate (metric_delta_for_event fl v)) _
            (Keeps-evaluate F N IsReceived IsReceived-frame _)
            λ delta.
              Keeps-bind F N IsReceived IsReceived-frame (write_metric_delta sql delta) _
                (Keeps-bind F N IsReceived IsReceived-frame (write_hourly sql delta) _
                  (Keeps-execute_scoped F N IsReceived IsReceived-frame
                    (λ db. (tt, add_hourly sql delta db)) λ db i. i)
                  λ _.
                    Keeps-execute_scoped F N IsReceived IsReceived-frame
                      (λ db. (tt, add_daily sql delta db)) λ db i. i)
                λ _.
                  mark_event_processed-Keeps F N IsReceived IsReceived-frame v
                    (update_inbox-IsReceived set_processed λ r. refl)

  raw_event_written-IsReceived :
      (b : Bool) → Keeps F N IsReceived IsReceived-frame (raw_event_written v b)
  unfolding raw_event_written Keeps
  raw_event_written-IsReceived true = λ w i. i
  raw_event_written-IsReceived false =
      Keeps-bind F N IsReceived IsReceived-frame (mark_event_duplicate v _) _
        (mark_event_duplicate-Keeps F N IsReceived IsReceived-frame v _
          (update_inbox-IsReceived (set_duplicate _) λ r. refl))
        λ _ w i. i

  inbox_written-IsReceived : (b : Bool) → Keeps F N IsReceived IsReceived-frame (inbox_written v b)
  unfolding inbox_written Keeps IsReceived insert_raw_event
  inbox_written-IsReceived false = λ w i. i
  inbox_written-IsReceived true =
      Keeps-bind F N IsReceived IsReceived-frame (execute_scoped (insert_raw_event v)) _
        (Keeps-execute_scoped F N IsReceived IsReceived-frame (insert_raw_event v) λ db i. i)
        raw_event_written-IsReceived

  handle_if-IsReceived :
      (b : Bool) → Keeps F N IsReceived IsReceived-frame (handle_if fl sql str v b)
  unfolding handle_if Keeps
  handle_if-IsReceived false = λ w i. i
  handle_if-IsReceived true = handle_new-IsReceived

  insert_inbox-IsReceived : (db : Db F N) → IsReceived (insert_inbox v db).1
  unfolding IsReceived insert_inbox has_id
  insert_inbox-IsReceived db =
      any-insert_new (has_id v.event_id) (new_inbox_row v) db.inbox (eq_refl v.event_id)

  inserted :
      (db : Db F N) (fates : List Fate)
      → is_reached fates ≡ true
      → IsReceived (execute_with (insert_inbox v) db fates).1.db
  inserted db [] h = insert_inbox-IsReceived db
  inserted db (answered ∷ _) h = insert_inbox-IsReceived db
  inserted db (refused ∷ _) h = cc
  inserted db (unanswered ∷ _) h = insert_inbox-IsReceived db

  pub handle-IsReceived :
      (w : World F N) → is_reached w.fates ≡ true → IsReceived (handle fl sql str v w).1.db
  unfolding handle write_raw_event Keeps
  handle-IsReceived w h =
      Ensures-bind (λ o db. IsReceived db) (λ o db. IsReceived db) (write_raw_event v) _ w
        (Ensures-bind (λ o db. IsReceived db) (λ o db. IsReceived db)
          (execute_scoped (insert_inbox v)) _ w (inserted w.db w.fates h)
          (λ b u i. inbox_written-IsReceived b u i) (λ db i. i))
        (λ b u i. handle_if-IsReceived b u i) (λ db i. i)

  -- An event whose id is in the inbox is passed over: with all statements answered, the handler
  -- returns and the database is as it was.
  pub handle-IsReceived_skips :
      (db : Db F N)
      → IsReceived db
      → handle fl sql str v (record { db = db; fates = [] })
        ≡ (some tt, record { db = db; fates = [] })
  unfolding IsReceived handle write_raw_event insert_inbox insert_new inbox_written handle_if has_id
  handle-IsReceived_skips db i = rw i refl

  -- Once the first statement of an attempt to handle an event has been carried out, a later attempt
  -- with all statements answered returns and changes nothing, whatever became of the other
  -- statements of the first. What these have not written is not written any more.
  pub handle_again :
      (w : World F N)
      → is_reached w.fates ≡ true
      → handle fl sql str v (record { db = (handle fl sql str v w).1.db; fates = [] })
        ≡ (some tt, record { db = (handle fl sql str v w).1.db; fates = [] })
  handle_again w h = handle-IsReceived_skips _ (handle-IsReceived w h)
