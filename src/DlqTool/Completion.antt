-- ===== src/DlqTool/Completion.antt =====
-- A replay ends when every insert into its audit is answered.
use event_driven_data_platfo.Base.{
  ℕ, ◌+◌, Bool, true, false, String, Option, none, some, List, [], ◌∷◌, ◌≡◌, ◌⊎◌, refl, arith,
  false_or, length, ap,
}
use event_driven_data_platfo.Events.Envelopes.{Datetime, EventEnvelope}
use event_driven_data_platfo.Publishing.{route_is_consumed}
use event_driven_data_platfo.DlqTool.Records.{DlqRecord}
use event_driven_data_platfo.DlqTool.Replay.{
  ReplayArgs, ReplayAudit, Session, complete, insert_with, insert_if, publish_unless, audit_replay,
  skip_record, published, replay_to, replay_original, topic_for, corrected, given, outcome_of,
  and_then, replay_records, replay, new_session,
}
use event_driven_data_platfo.DlqTool.Audits.{recorded, audited_ids, replay_records-IsReplayed}

-- A step that raises nothing and leaves every insert answered.
abbrev GoesOn : {F : Type 0} → Bool × Session F → Type 0
GoesOn p = (p.0 ≡ true) × (p.1.fates ≡ [])

module _ {F : Type 0} (args : ReplayArgs) (now : Datetime)
    (publisher : ℕ → EventEnvelope F → String → Option String) where
  insert_if-GoesOn :
      (on : Bool) (row : ReplayAudit) (s : Session F) → s.fates ≡ [] → GoesOn (insert_if on row s)
  unfolding insert_if insert_with
  insert_if-GoesOn true row s e = rw e (refl, refl)
  insert_if-GoesOn false row s e = (refl, e)

  audit_replay-GoesOn :
      (r : DlqRecord F) (status : String) (topic error : Option String) (s : Session F)
      → s.fates ≡ []
      → GoesOn (audit_replay args now publisher r status topic error s)
  unfolding audit_replay
  audit_replay-GoesOn r status topic error s e = insert_if-GoesOn args.has_database _ s e

  published-GoesOn :
      (r : DlqRecord F) (topic : String) (answer : Option String) (s : Session F)
      → s.fates ≡ []
      → GoesOn (published args now publisher r topic answer s)
  unfolding published
  published-GoesOn r topic none s e = audit_replay-GoesOn r _ _ _ _ e
  published-GoesOn r topic (some error) s e = audit_replay-GoesOn r _ _ _ _ e

  publish_unless-GoesOn :
      (dry : Bool) (r : DlqRecord F) (v : EventEnvelope F) (topic : String) (s : Session F)
      → s.fates ≡ []
      → GoesOn (publish_unless args now publisher dry r v topic s)
  unfolding publish_unless
  publish_unless-GoesOn true r v topic s e = audit_replay-GoesOn r _ _ _ _ e
  publish_unless-GoesOn false r v topic s e = published-GoesOn r topic _ _ e

  -- The router knows every event type.
  replay_to-GoesOn :
      (r : DlqRecord F) (v : EventEnvelope F) (chosen : Option String) (s : Session F)
      → s.fates ≡ []
      → GoesOn (replay_to args now publisher r v (topic_for args now publisher v chosen) s)
  unfolding replay_to topic_for
  replay_to-GoesOn r v (some topic) s e = publish_unless-GoesOn args.dry_run r v topic s e
  replay_to-GoesOn r v none s e =
      let (topic, routed, consumed) = route_is_consumed v.kind in
      rw routed (publish_unless-GoesOn args.dry_run r v topic s e)

  replay_original-GoesOn :
      (r : DlqRecord F) (original : Option (EventEnvelope F)) (s : Session F)
      → s.fates ≡ []
      → GoesOn (replay_original args now publisher r original s)
  unfolding replay_original skip_record
  replay_original-GoesOn r none s e = audit_replay-GoesOn r _ _ _ _ e
  replay_original-GoesOn r (some v) s e =
      replay_to-GoesOn r (corrected args now v) (given args.target_topic) s e

  and_then-GoesOn :
      (next : Session F → Bool × Session F) (p : Bool × Session F)
      → GoesOn p
      → ((s : Session F) → s.fates ≡ [] → GoesOn (next s))
      → GoesOn (and_then args now publisher next p)
  and_then-GoesOn next (true, s) h goes = goes s h.1
  and_then-GoesOn next (false, s) h goes = cc

  replay_records-GoesOn :
      (rs : List (DlqRecord F)) (s : Session F)
      → s.fates ≡ []
      → GoesOn (replay_records args now publisher rs s)
  unfolding replay_records
  replay_records-GoesOn [] s e = (refl, e)
  replay_records-GoesOn (r ∷ rs) s e =
      and_then-GoesOn (replay_records args now publisher rs) _
        (replay_original-GoesOn r r.original_event s e) (replay_records-GoesOn rs)

  outcome_of-complete :
      (p : Bool × Session F)
      → p.0 ≡ true
      → outcome_of args now publisher p ≡ complete p.1.replayed p.1.failed
  outcome_of-complete (true, s) e = refl
  outcome_of-complete (false, s) e = cc

  -- If every insert into the audit is answered, a replay of at least one record is complete: the
  -- records that it counts as replayed and as failed are all records, whatever the producer answers; if
  -- there is a database, the audit is about each record once, in order; a dry run hands nothing to the
  -- producer.
  pub replay-complete :
      (r : DlqRecord F) (rest : List (DlqRecord F))
      → (done : Session F) × (replay args now publisher (r ∷ rest) []
          ≡ (complete done.replayed done.failed, done))
        × (done.replayed + done.failed ≡ length (r ∷ rest))
        × (audited_ids done.audit ≡ recorded args (r ∷ rest))
        × ((args.dry_run ≡ false) ⊎ (done.handed ≡ []))
  unfolding replay
  replay-complete r rest =
      let p = replay_records args now publisher (r ∷ rest) (new_session args now publisher []) in
      let (ends, answers) =
        replay_records-GoesOn (r ∷ rest) (new_session args now publisher []) refl in
      let h =
        replay_records-IsReplayed args now publisher (r ∷ rest) (new_session args now publisher [])
          ends in
      (
        p.1,
        ap (λ o. (o, p.1)) (outcome_of-complete p ends),
        omega (arith, h.counted),
        h.audited,
        false_or _ h.withheld,
      )
