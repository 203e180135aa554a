-- ===== src/DlqTool/Skipped.antt =====
-- What the processing service does with an event that is replayed under its own id.
use event_driven_data_platfo.Base.{true, String, none, some, [], ◌≡◌, refl, Bool-cases, inl, inr}
use event_driven_data_platfo.Events.Values.{Json, Floats}
use event_driven_data_platfo.Events.Envelopes.{Datetime, EventEnvelope}
use event_driven_data_platfo.Processing.Tables.{Numeric}
use event_driven_data_platfo.Processing.Actions.{World}
use event_driven_data_platfo.Processing.Handler.{handle}
use event_driven_data_platfo.Processing.Delivery.{
  is_reached, IsReceived, handle-IsReceived, handle-IsReceived_skips,
}
use event_driven_data_platfo.DlqTool.Replay.{ReplayArgs, given, corrected}

module _ (F N : Type 0) (fl : Floats F) (sql : Numeric F N) (str : Json F → String) where
  corrected-event_id :
      (args : ReplayArgs) (now : Datetime) (v : EventEnvelope F)
      → given args.new_event_id ≡ none
      → (corrected args now v).event_id ≡ v.event_id
  unfolding corrected
  corrected-event_id args now v kept =
      rw kept (elim (Bool-cases args.event_timestamp_now) [ inl e ↦ rw e refl | inr e ↦ rw e refl ])

  -- A replay that gives no new event id changes nothing: once an attempt to handle the event has
  -- carried out its first statement, the processing service passes over what is published in its
  -- place, also if that attempt failed later and this is why the event is a dead letter.
  pub corrected_is_skipped :
      (args : ReplayArgs) (now : Datetime) (v : EventEnvelope F) (w : World F N)
      → given args.new_event_id ≡ none
      → is_reached w.fates ≡ true
      → handle fl sql str
          (corrected args now v)
          (record { db = (handle fl sql str v w).1.db; fates = [] })
        ≡ (some tt, record { db = (handle fl sql str v w).1.db; fates = [] })
  unfolding IsReceived
  corrected_is_skipped args now v w kept reached =
      handle-IsReceived_skips F N fl sql str (corrected args now v) _
        (rw (corrected-event_id args now v kept) (handle-IsReceived F N fl sql str v w reached))
