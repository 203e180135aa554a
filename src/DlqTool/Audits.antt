-- ===== src/DlqTool/Audits.antt =====
-- What a replay counts, records and publishes.
use event_driven_data_platfo.Base.{
  ℕ, ◌+◌, Bool, true, false, false≢true, String, Option, none, some, List, [], ◌∷◌, ◌++◌, map, ◌≡◌,
  refl, arith, length, if◌then◌else◌, append_assoc, append-nil, Bool-cases, inl, inr, sym, ◌∙◌, ap,
}
use event_driven_data_platfo.Events.Envelopes.{Datetime, EventEnvelope}
use event_driven_data_platfo.Processing.Actions.{Fate, answered, refused, unanswered}
use event_driven_data_platfo.DlqTool.Records.{DlqRecord}
use event_driven_data_platfo.DlqTool.Replay.{
  ReplayArgs, ReplayAudit, Session, audited_event, insert_with, insert_if, publish_unless,
  audit_replay, skip_record, published, replay_to, replay_original, hand_over, and_then,
  replay_records,
}

-- The ids of the events that rows of the audit are about.
abbrev pub audited_ids : List ReplayAudit → List String
audited_ids = map λ a. a.original_event_id

audited_ids-append :
    (rows : List ReplayAudit) (a : ReplayAudit)
    → audited_ids (rows ++ (a ∷ [])) ≡ audited_ids rows ++ (a.original_event_id ∷ [])
audited_ids-append [] a = refl
audited_ids-append (b ∷ rows) a = ap (λ l. b.original_event_id ∷ l) (audited_ids-append rows a)

module _ {F : Type 0} (args : ReplayArgs) where
  -- The ids that the audit gets for records.
  abbrev pub recorded : List (DlqRecord F) → List String
  recorded rs = if args.has_database then map (λ r. (audited_event r).event_id) rs else []

  recorded-cons :
      (r : DlqRecord F) (rs : List (DlqRecord F))
      → recorded (r ∷ rs) ≡ recorded (r ∷ []) ++ recorded rs
  recorded-cons r rs = elim (Bool-cases args.has_database) [
    | inl on ↦ rw on refl
    | inr off ↦ rw off refl
  ]

  -- Each record is counted once, as replayed or as failed, and audited once if there is a database,
  -- in its order; a dry run hands no message to the producer.
  pub record IsReplayed (rs : List (DlqRecord F)) (s t : Session F) : Type 0 where
    pub counted : t.replayed + t.failed ≡ s.replayed + s.failed + length rs
    pub audited : audited_ids t.audit ≡ audited_ids s.audit ++ recorded rs
    pub withheld : args.dry_run ≡ true → t.handed ≡ s.handed

  -- The audit of one record, which changes nothing else but the fates to come.
  record IsAudited (r : DlqRecord F) (s t : Session F) : Type 0 where
    same_replayed : t.replayed ≡ s.replayed
    same_failed : t.failed ≡ s.failed
    same_handed : t.handed ≡ s.handed
    in_audit : audited_ids t.audit ≡ audited_ids s.audit ++ recorded (r ∷ [])

  module _ (now : Datetime) (publisher : ℕ → EventEnvelope F → String → Option String) where
    insert_with-IsAudited :
        (r : DlqRecord F) (row : ReplayAudit) (s : Session F) (fates : List Fate)
        → row.original_event_id ≡ (audited_event r).event_id
        → args.has_database ≡ true
        → (insert_with row s fates).0 ≡ true
        → IsAudited r s (insert_with row s fates).1
    unfolding insert_with
    insert_with-IsAudited r row s [] same on e = record {
      same_replayed = refl;
      same_failed = refl;
      same_handed = refl;
      in_audit =
          rw on (audited_ids-append s.audit row ∙ ap (λ id. audited_ids s.audit ++ (id ∷ [])) same);
    }
    insert_with-IsAudited r row s (answered ∷ fates) same on e = record {
      same_replayed = refl;
      same_failed = refl;
      same_handed = refl;
      in_audit =
          rw on (audited_ids-append s.audit row ∙ ap (λ id. audited_ids s.audit ++ (id ∷ [])) same);
    }
    insert_with-IsAudited r row s (refused ∷ fates) same on e = cc
    insert_with-IsAudited r row s (unanswered ∷ fates) same on e = cc

    insert_if-IsAudited :
        (on : Bool) (r : DlqRecord F) (row : ReplayAudit) (s : Session F)
        → args.has_database ≡ on
        → row.original_event_id ≡ (audited_event r).event_id
        → (insert_if on row s).0 ≡ true
        → IsAudited r s (insert_if on row s).1
    unfolding insert_if
    insert_if-IsAudited true r row s on same e = insert_with-IsAudited r row s s.fates same on e
    insert_if-IsAudited false r row s off same e = record {
      same_replayed = refl;
      same_failed = refl;
      same_handed = refl;
      in_audit = rw off (sym (append-nil (audited_ids s.audit)));
    }

    audit_replay-IsAudited :
        (r : DlqRecord F) (status : String) (topic error : Option String) (s : Session F)
        → (audit_replay args now publisher r status topic error s).0 ≡ true
        → IsAudited r s (audit_replay args now publisher r status topic error s).1
    unfolding audit_replay
    audit_replay-IsAudited r status topic error s e =
        insert_if-IsAudited args.has_database r _ s refl refl e

    -- One record, counted and then audited.
    counted_then_audited :
        (r : DlqRecord F) (s counted t : Session F)
        → counted.replayed + counted.failed ≡ s.replayed + s.failed + 1
        → counted.audit ≡ s.audit
        → (args.dry_run ≡ true → counted.handed ≡ s.handed)
        → IsAudited r counted t
        → IsReplayed (r ∷ []) s t
    counted_then_audited r s counted t count same withheld a = record {
      counted = omega (arith, count, a.same_replayed, a.same_failed);
      audited = a.in_audit ∙ ap (λ rows. audited_ids rows ++ recorded (r ∷ [])) same;
      withheld = λ dry. a.same_handed ∙ withheld dry;
    }

    published-IsReplayed :
        (r : DlqRecord F) (v : EventEnvelope F) (topic : String) (answer : Option String)
        (s : Session F)
        → args.dry_run ≡ false
        → (published args now publisher r topic answer (hand_over args now publisher v topic s)).0
          ≡ true
        → IsReplayed
            (r ∷ [])
            s
            (published args now publisher r topic answer (hand_over args now publisher v topic s)).1
    unfolding published
    published-IsReplayed r v topic none s wet e =
        counted_then_audited r s _ _ (omega arith) refl (λ dry. absurd (false≢true (sym wet ∙ dry)))
          (audit_replay-IsAudited r _ _ _ _ e)
    published-IsReplayed r v topic (some error) s wet e =
        counted_then_audited r s _ _ (omega arith) refl (λ dry. absurd (false≢true (sym wet ∙ dry)))
          (audit_replay-IsAudited r _ _ _ _ e)

    publish_unless-IsReplayed :
        (dry : Bool) (r : DlqRecord F) (v : EventEnvelope F) (topic : String) (s : Session F)
        → args.dry_run ≡ dry
        → (publish_unless args now publisher dry r v topic s).0 ≡ true
        → IsReplayed (r ∷ []) s (publish_unless args now publisher dry r v topic s).1
    unfolding publish_unless
    publish_unless-IsReplayed true r v topic s is_dry e =
        counted_then_audited r s _ _ (omega arith) refl (λ d. refl)
          (audit_replay-IsAudited r _ _ _ _ e)
    publish_unless-IsReplayed false r v topic s wet e =
        published-IsReplayed r v topic (publisher s.calls v topic) s wet e

    replay_to-IsReplayed :
        (r : DlqRecord F) (v : EventEnvelope F) (topic : Option String) (s : Session F)
        → (replay_to args now publisher r v topic s).0 ≡ true
        → IsReplayed (r ∷ []) s (replay_to args now publisher r v topic s).1
    unfolding replay_to
    replay_to-IsReplayed r v none s e = cc
    replay_to-IsReplayed r v (some topic) s e =
        publish_unless-IsReplayed args.dry_run r v topic s refl e

    replay_original-IsReplayed :
        (r : DlqRecord F) (original : Option (EventEnvelope F)) (s : Session F)
        → (replay_original args now publisher r original s).0 ≡ true
        → IsReplayed (r ∷ []) s (replay_original args now publisher r original s).1
    unfolding replay_original skip_record
    replay_original-IsReplayed r none s e =
        counted_then_audited r s _ _ (omega arith) refl (λ dry. refl)
          (audit_replay-IsAudited r _ _ _ _ e)
    replay_original-IsReplayed r (some v) s e = replay_to-IsReplayed r _ _ s e

    IsReplayed-cons :
        (r : DlqRecord F) (rs : List (DlqRecord F)) (s t u : Session F)
        → IsReplayed (r ∷ []) s t
        → IsReplayed rs t u
        → IsReplayed (r ∷ rs) s u
    IsReplayed-cons r rs s t u a b = record {
      counted = omega (arith, a.counted, b.counted);
      audited =
          b.audited
          ∙ (ap (λ ids. ids ++ recorded rs) a.audited
              ∙ (append_assoc (audited_ids s.audit) (recorded (r ∷ [])) (recorded rs)
                  ∙ ap (λ ids. audited_ids s.audit ++ ids) (sym (recorded-cons r rs))));
      withheld = λ dry. b.withheld dry ∙ a.withheld dry;
    }

    and_then-IsReplayed :
        (r : DlqRecord F) (rs : List (DlqRecord F)) (s : Session F) (p : Bool × Session F)
        → (p.0 ≡ true → IsReplayed (r ∷ []) s p.1)
        → ((t : Session F)
            → (replay_records args now publisher rs t).0 ≡ true
            → IsReplayed rs t (replay_records args now publisher rs t).1)
        → (and_then args now publisher (replay_records args now publisher rs) p).0 ≡ true
        → IsReplayed
            (r ∷ rs)
            s
            (and_then args now publisher (replay_records args now publisher rs) p).1
    and_then-IsReplayed r rs s (true, t) first later e =
        IsReplayed-cons r rs s t _ (first refl) (later t e)
    and_then-IsReplayed r rs s (false, t) first later e = cc

    -- A replay of records that ends without an exception has counted each once, as replayed or as
    -- failed, and audited each once in its order if there is a database; a dry run hands no message to
    -- the producer.
    pub replay_records-IsReplayed :
        (rs : List (DlqRecord F)) (s : Session F)
        → (replay_records args now publisher rs s).0 ≡ true
        → IsReplayed rs s (replay_records args now publisher rs s).1
    unfolding replay_records
    replay_records-IsReplayed [] s e = record {
      counted = omega arith;
      audited = elim (Bool-cases args.has_database) [
        | inl on ↦ rw on (sym (append-nil (audited_ids s.audit)))
        | inr off ↦ rw off (sym (append-nil (audited_ids s.audit)))
      ];
      withheld = λ dry. refl;
    }
    replay_records-IsReplayed (r ∷ rs) s e =
        and_then-IsReplayed r rs s (replay_original args now publisher r r.original_event s)
          (replay_original-IsReplayed r r.original_event s) (replay_records-IsReplayed rs) e
