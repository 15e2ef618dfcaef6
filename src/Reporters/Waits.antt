-- ===== src/Reporters/Waits.antt =====
-- The open waits of a run: `#applyOpenWaitReporterEvent` of apps/daemon/src/store.ts, and what
-- `revokeReporterAuthority` does to them. The events for clients are not part of it.
use nanasa.Prelude.{
  ℕ, String, ◌==◌, Bool, true, false, not, ◌&&◌, Option, none, some, List, [], ◌∷◌, ◌++◌, map,
  if◌then◌else◌, nat_eq, find, or_option, lookup, same,
}
use nanasa.Status.Enums.{WaitKind, ReplyChannel, EventKind}
use nanasa.Status.Types.{ReducerState}
use nanasa.Actions.Types.{Target}
use nanasa.Reporters.Types.{
  Session, Event, Run, OpenWait, WaitState, Fault, Answer, done, failed, refuse_if, ◌>>◌,
}

unfoldable pub WaitKind-discrete : Discrete WaitKind
WaitKind-discrete = hlevel

unfoldable pub ReplyChannel-discrete : Discrete ReplyChannel
ReplyChannel-discrete = hlevel

abbrev same_text : Option String → Option String → Bool
same_text none none = true
same_text (some a) (some b) = a == b
same_text _ _ = false

-- `state IN ('open', 'replying')`
abbrev pub is_pending : OpenWait → Bool
is_pending w = elim w.state [
  | WaitState.opened ↦ true
  | WaitState.replying ↦ true
  | WaitState.answered ↦ false
  | WaitState.expired ↦ false
  | WaitState.cancelled ↦ false
  | WaitState.superseded ↦ false
]

-- `UPDATE open_waits SET state = 'superseded'`
unfoldable pub supersede_waits : String → ℕ → ℕ → List OpenWait → List OpenWait
supersede_waits run_id generation now waits =
    map
      (λ w.
        if w.run_id == run_id && (nat_eq w.generation generation && is_pending w)
        then record w { state = WaitState.superseded; updated_at = now }
        else w)
      waits

-- UNIQUE (run_id, generation, reporter_epoch, provider_request_id)
abbrev pub asks_for : Run → Session → String → OpenWait → Bool
asks_for run s request w =
    w.run_id == run.id
    && (nat_eq w.generation run.generation
        && (w.reporter_epoch == s.reporter_epoch && w.provider_request_id == request))

abbrev is_exact : Run → Session → Target → Bool
is_exact run s target =
    target.run_id == run.id
    && (nat_eq target.generation run.generation
        && (target.reporter_session_id == s.id && target.reporter_epoch == s.reporter_epoch))

unfoldable pub check_target : Run → Session → Option Target → Answer (Unit {0})
check_target run s none = failed Fault.agent_action_not_found
check_target run s (some target) =
    refuse_if (not (is_exact run s target)) Fault.open_wait_action_mismatch

-- The action that an event names, if it names one.
unfoldable pub check_action :
    Run → Session → List (String × Target) → Option String → Answer (Unit {0})
unfolding check_target
check_action run s actions none = done tt
check_action run s actions (some id) = check_target run s (lookup id actions)

-- What a new wait says besides its request.
pub record Question : Type 0 where
  pub kind : WaitKind
  pub summary : String
  pub reply_channel : ReplyChannel

abbrev pub question_of : Option WaitKind → Option String → Option ReplyChannel → Option Question
question_of (some k) (some t) (some c) = some (record { kind = k; summary = t; reply_channel = c })
question_of _ _ _ = none

abbrev native_of : Event → Session → Option String
native_of e s = or_option e.native_session_id s.native_session_id

abbrev is_same_wait : Event → Session → Question → OpenWait → Bool
is_same_wait e s q w =
    same_text w.action_id e.action_id
    && (w.reporter_session_id == s.id
        && (w.reporter_id == s.reporter_id
            && (same_text w.native_session_id (native_of e s)
                && (same WaitKind-discrete w.kind q.kind
                    && (w.summary == q.summary
                        && same ReplyChannel-discrete w.reply_channel q.reply_channel)))))

abbrev new_wait : Event → Run → Session → ReducerState → ℕ → String → Question → OpenWait
new_wait e run s next now request q = record {
  action_id = e.action_id;
  group_id = run.group_id;
  member_id = run.member_id;
  run_id = run.id;
  generation = run.generation;
  reporter_session_id = s.id;
  reporter_id = s.reporter_id;
  reporter_epoch = s.reporter_epoch;
  native_session_id = native_of e s;
  provider_request_id = request;
  kind = q.kind;
  summary = q.summary;
  reply_channel = q.reply_channel;
  opened_status_revision = next.status_revision;
  state = WaitState.opened;
  opened_at = now;
  updated_at = now;
  answered_at = none;
}

-- The insertion, unless the request is known.
unfoldable pub put_wait :
    Event
    → Run
    → Session
    → ReducerState
    → ℕ
    → String
    → Question
    → List OpenWait
    → Option OpenWait
    → Answer (List OpenWait)
unfolding WaitKind-discrete ReplyChannel-discrete
put_wait e run s next now request q waits none =
    done (waits ++ new_wait e run s next now request q ∷ [])
put_wait e run s next now request q waits (some w) =
    refuse_if (not (is_same_wait e s q w)) Fault.open_wait_identity_mismatch >> done waits

unfoldable pub open_wait :
    Event
    → Run
    → Session
    → ReducerState
    → ℕ
    → List (String × Target)
    → List OpenWait
    → Option String
    → Option Question
    → Answer (List OpenWait)
unfolding check_action put_wait
open_wait e run s next now actions waits (some request) (some q) =
    check_action run s actions e.action_id
    >> put_wait e run s next now request q waits (find (asks_for run s request) waits)
open_wait e run s next now actions waits _ _ = failed Fault.open_wait_report_invalid

unfoldable pub close_wait :
    Run → Session → ℕ → List OpenWait → Option String → Answer (List OpenWait)
close_wait run s now waits none = failed Fault.open_wait_report_invalid
close_wait run s now waits (some request) = done (
    map
      (λ w.
        if asks_for run s request w && is_pending w
        then record w { state = WaitState.answered; answered_at = some now; updated_at = now }
        else w)
      waits)

-- `#applyOpenWaitReporterEvent`, by the kind of the event
unfoldable pub apply_open_wait :
    Event
    → Run
    → Session
    → ReducerState
    → ℕ
    → List (String × Target)
    → List OpenWait
    → EventKind
    → Answer (List OpenWait)
unfolding open_wait close_wait
apply_open_wait e run s next now actions waits EventKind.wait_opened =
    let asked = e.input.details in
    open_wait e run s next now actions waits e.input.request_id
      (question_of asked.wait_kind asked.summary asked.reply_channel)
apply_open_wait e run s next now actions waits EventKind.wait_closed =
    close_wait run s now waits e.input.request_id
apply_open_wait e run s next now actions waits _ = done waits
