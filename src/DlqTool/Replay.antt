-- ===== src/DlqTool/Replay.antt =====
-- The replay of dlq_tool.py. The producer's answer to the n-th message that it is handed is a
-- parameter, with the text of the exception where there is one; each insert has its fate, as in
-- Processing.Actions.
use event_driven_data_platfo.Base.{
  ℕ, suc, Bool, true, false, not, String, Option, none, some, List, [], ◌∷◌, ◌++◌, if◌then◌else◌,
  or_else, keep_if, is_empty,
}
use event_driven_data_platfo.Events.Envelopes.{Datetime, EventEnvelope}
use event_driven_data_platfo.Publishing.{route}
use event_driven_data_platfo.Processing.Actions.{Fate, answered, refused, unanswered}
use event_driven_data_platfo.DlqTool.Records.{DlqRecord}

-- The options of the command, with whether there is a database URL.
pub record ReplayArgs : Type 0 where
  pub target_topic : Option String
  pub has_database : Bool
  pub replayed_by : String
  pub reason : String
  pub dry_run : Bool
  pub event_timestamp_now : Bool
  pub new_event_id : Option String

-- `dlq_replay_audit`
pub record ReplayAudit : Type 0 where
  pub original_event_id : String
  pub tenant_id : String
  pub source_topic : String
  pub target_topic : Option String
  pub replay_status : String
  pub replay_reason : String
  pub replayed_by : String
  pub error_message : Option String

-- The messages handed to the producer, the rows of the audit, and the two counters.
pub record Session (F : Type 0) : Type 0 where
  pub handed : List (EventEnvelope F × String)
  pub calls : ℕ
  pub audit : List ReplayAudit
  pub replayed : ℕ
  pub failed : ℕ
  pub fates : List Fate

pub data ReplayOutcome : Type 0 where
  no_records : ReplayOutcome
  complete : ℕ → ℕ → ReplayOutcome
  -- An exception that the loop does not catch.
  interrupted : ReplayOutcome

-- An option that is a text, where an empty one counts as none.
abbrev pub given : Option String → Option String
given = keep_if λ s. not (is_empty s)

module _ {F : Type 0} where
  -- The event that an audit row is about.
  abbrev pub audited_event : DlqRecord F → EventEnvelope F
  audited_event r = or_else r.original_event r.envelope

  unfoldable pub with_id : Option String → EventEnvelope F → EventEnvelope F
  with_id none v = v
  with_id (some id) v = record v {
    event_id = id;
    idempotency_key = some id;
    causation_id = some v.event_id;
  }

  -- The event that is published in place of the original, at the time `now`.
  unfoldable pub corrected : ReplayArgs → Datetime → EventEnvelope F → EventEnvelope F
  unfolding with_id
  corrected args now v =
      with_id (given args.new_event_id)
        (if args.event_timestamp_now then record v { event_timestamp = now } else v)

  unfoldable pub insert_with : ReplayAudit → Session F → List Fate → Bool × Session F
  insert_with row s [] = (true, record s { audit = s.audit ++ (row ∷ []) })
  insert_with row s (answered ∷ fates) =
      (true, record s { audit = s.audit ++ (row ∷ []); fates = fates })
  insert_with row s (refused ∷ fates) = (false, record s { fates = fates })
  insert_with row s (unanswered ∷ fates) =
      (false, record s { audit = s.audit ++ (row ∷ []); fates = fates })

  -- `if database_url: …`
  unfoldable pub insert_if : Bool → ReplayAudit → Session F → Bool × Session F
  unfolding insert_with
  insert_if true row s = insert_with row s s.fates
  insert_if false row s = (true, s)

module _ {F : Type 0} (args : ReplayArgs) (now : Datetime)
    (publisher : ℕ → EventEnvelope F → String → Option String) where
  -- `if database_url: await audit_replay(…)`, and whether no exception is raised
  unfoldable pub audit_replay :
      DlqRecord F → String → Option String → Option String → Session F → Bool × Session F
  unfolding insert_if
  audit_replay r status topic error s =
      insert_if args.has_database
        (record {
          original_event_id = (audited_event r).event_id;
          tenant_id = (audited_event r).tenant_id;
          source_topic = r.topic;
          target_topic = topic;
          replay_status = status;
          replay_reason = args.reason;
          replayed_by = args.replayed_by;
          error_message = error;
        })
        s

  abbrev pub count_failed : Session F → Session F
  count_failed s = record s { failed = suc s.failed }

  abbrev pub count_replayed : Session F → Session F
  count_replayed s = record s { replayed = suc s.replayed }

  unfoldable pub skip_record : DlqRecord F → Session F → Bool × Session F
  unfolding audit_replay
  skip_record r s =
      audit_replay r "skipped" none (some "No original_event was found in DLQ payload.")
        (count_failed s)

  -- After the producer's answer.
  unfoldable pub published : DlqRecord F → String → Option String → Session F → Bool × Session F
  unfolding audit_replay
  published r topic none s = audit_replay r "replayed" (some topic) none (count_replayed s)
  published r topic (some error) s =
      audit_replay r "failed" (some topic) (some error) (count_failed s)

  abbrev pub hand_over : EventEnvelope F → String → Session F → Session F
  hand_over v topic s = record s { handed = s.handed ++ ((v, topic) ∷ []); calls = suc s.calls }

  -- With whether it is a dry run.
  unfoldable pub publish_unless :
      Bool → DlqRecord F → EventEnvelope F → String → Session F → Bool × Session F
  unfolding published audit_replay
  publish_unless true r v topic s = audit_replay r "dry_run" (some topic) none (count_replayed s)
  publish_unless false r v topic s =
      published r topic (publisher s.calls v topic) (hand_over v topic s)

  -- With the topic; `none` is the router's exception.
  unfoldable pub replay_to :
      DlqRecord F → EventEnvelope F → Option String → Session F → Bool × Session F
  unfolding publish_unless
  replay_to r v none s = (false, s)
  replay_to r v (some topic) s = publish_unless args.dry_run r v topic s

  -- `args.target_topic or router.route(original_event.event_type)`
  unfoldable pub topic_for : EventEnvelope F → Option String → Option String
  topic_for v (some topic) = some topic
  topic_for v none = route v.kind

  -- The body of the loop: the flag tells that no exception is raised.
  unfoldable pub replay_original :
      DlqRecord F → Option (EventEnvelope F) → Session F → Bool × Session F
  unfolding skip_record replay_to corrected topic_for
  replay_original r none s = skip_record r s
  replay_original r (some original) s =
      let v = corrected args now original in replay_to r v (topic_for v (given args.target_topic)) s

  abbrev pub and_then : (Session F → Bool × Session F) → Bool × Session F → Bool × Session F
  and_then next (true, s) = next s
  and_then next (false, s) = (false, s)

  unfoldable pub replay_records : List (DlqRecord F) → Session F → Bool × Session F
  unfolding replay_original
  replay_records [] s = (true, s)
  replay_records (r ∷ rest) s =
      and_then (replay_records rest) (replay_original r r.original_event s)

  abbrev pub outcome_of : Bool × Session F → ReplayOutcome
  outcome_of (true, s) = complete s.replayed s.failed
  outcome_of (false, s) = interrupted

  abbrev pub new_session : List Fate → Session F
  new_session fates = record {
    handed = [];
    calls = 0;
    audit = [];
    replayed = 0;
    failed = 0;
    fates = fates;
  }

  unfoldable pub replay : List (DlqRecord F) → List Fate → ReplayOutcome × Session F
  unfolding replay_records
  replay [] fates = (no_records, new_session fates)
  replay (r ∷ rest) fates =
      let done = replay_records (r ∷ rest) (new_session fates) in (outcome_of done, done.1)
