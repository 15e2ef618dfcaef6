-- ===== src/Status/Reporter.antt =====
-- The branch of `reduceAgentStatus` for an event of the agent's reporter
-- (apps/daemon/src/agent-status-reducer.ts).
-- The schema of the events refuses a tool event with no `operationId` and a wait event with no
-- `requestId`; where the code reads such a field through `!`, an absent one changes nothing here.
use nanasa.Prelude.{
  ℕ, ◌+◌, ltb, nat_eq, String, ◌==◌, Bool, true, false, not, ◌&&◌, ◌||◌, Option, none, some, List,
  [], ◌∷◌, ◌++◌, if◌then◌else◌, keep, any, is_empty, to_set, some_and, none_or, or_else,
}
use nanasa.Status.Enums.{
  State, Phase, Outcome, Confidence, Attention, EventKind, AuthorityKind, ProcessState,
  EvidenceSource, WaitKind, ReplyChannel,
}
use nanasa.Status.Types.{Wait, Summary, EventInput, ReporterAuthority, ReducerState}
use nanasa.Status.Steps.{
  semantic_lease_ms, wait_phase, wait_attention, with_evidence, resume_after_wait,
}

-- What the schema's `superRefine` asks of an event.
unfoldable pub is_complete : EventInput → Bool
is_complete input = elim input.event [
  | EventKind.tool_started ↦ some_and input.operation_id (λ _. true)
  | EventKind.tool_finished ↦ some_and input.operation_id (λ _. true)
  | EventKind.tool_failed ↦ some_and input.operation_id (λ _. true)
  | EventKind.wait_opened ↦
      some_and input.request_id (λ _. true)
      && (some_and input.details.wait_kind (λ _. true)
          && (some_and input.details.summary (λ _. true)
              && some_and input.details.reply_channel (λ _. true)))
  | EventKind.wait_closed ↦ some_and input.request_id (λ _. true)
  | _ ↦ true
]

abbrev pub event_name : EventKind → String
event_name EventKind.reporter_ready = "reporter.ready"
event_name EventKind.session_ready = "session.ready"
event_name EventKind.turn_started = "turn.started"
event_name EventKind.turn_waiting = "turn.waiting"
event_name EventKind.turn_settled = "turn.settled"
event_name EventKind.tool_started = "tool.started"
event_name EventKind.tool_finished = "tool.finished"
event_name EventKind.tool_failed = "tool.failed"
event_name EventKind.wait_opened = "wait.opened"
event_name EventKind.wait_closed = "wait.closed"
event_name EventKind.compaction_started = "compaction.started"
event_name EventKind.compaction_finished = "compaction.finished"
event_name EventKind.retry_observed = "retry.observed"
event_name EventKind.failure_observed = "failure.observed"
event_name EventKind.session_ended = "session.ended"
event_name EventKind.heartbeat = "heartbeat"

abbrev summary_text : Option String → Option Summary
summary_text none = none
summary_text (some s) = some (Summary.text s)

-- The authority, the evidence and the activity that every event of a reporter leaves.
unfoldable pub admit_event : ℕ → EventInput → ReporterAuthority → ReducerState → ReducerState
admit_event observed_at input authority current =
    let next = record current {
      observed_at = observed_at;
      authority_kind = AuthorityKind.reporter;
      authority_id = some authority.session_id;
      reporter_epoch = some authority.reporter_epoch;
      reporter_lease_expires_at = some authority.lease_expires_at;
      readiness_coverage = some authority.readiness_coverage;
      stale_authority = false;
    } in
    with_evidence
      (elim input.event [
        | EventKind.heartbeat ↦ next
        | _ ↦ record next {
          last_activity_at = some observed_at;
          last_activity_kind = some (event_name input.event);
          stale_probe_count = 0;
        }
      ])
      (record {
        source = EvidenceSource.reporter;
        kind = event_name input.event;
        observed_at = observed_at;
        confidence = Confidence.high;
        summary = summary_text input.details.summary;
      })

-- `toolId !== input.operationId`
abbrev differs_from : Option String → String → Bool
differs_from id other = none_or id (λ i. not (other == i))

abbrev pub without_wait : Option String → List Wait → List Wait
without_wait id = keep (λ wait. differs_from id wait.request_id)

abbrev pub has_wait : Option String → List Wait → Bool
has_wait id = any (λ wait. some_and id (λ i. wait.request_id == i))

unfoldable pub start_tool : ℕ → EventInput → ReducerState → ReducerState
start_tool observed_at input next = record next {
  state = State.working;
  phase = Phase.tool;
  confidence = Confidence.high;
  attention = Attention.none;
  clean_end_seen = false;
  open_tools = elim input.operation_id [
    | none ↦ next.open_tools
    | some id ↦ to_set (next.open_tools ++ id ∷ [])
  ];
  semantic_lease_expires_at = some (observed_at + semantic_lease_ms);
}

unfoldable pub finish_tool : ℕ → EventInput → ReducerState → ReducerState
finish_tool observed_at input next = resume_after_wait (record next {
  open_tools = keep (differs_from input.operation_id) next.open_tools;
  open_waits = without_wait input.operation_id next.open_waits;
  semantic_lease_expires_at = some (observed_at + semantic_lease_ms);
})

abbrev pub wait_of : ℕ → String → WaitKind → String → ReplyChannel → Wait
wait_of observed_at id kind summary channel = record {
  request_id = id;
  kind = kind;
  summary = summary;
  reply_channel = channel;
  opened_at = observed_at;
}

abbrev pub add_wait : Wait → ReducerState → ReducerState
add_wait wait next = record next {
  state = State.blocked;
  phase = wait_phase wait;
  confidence = Confidence.high;
  attention = wait_attention wait;
  open_waits = without_wait (some wait.request_id) next.open_waits ++ wait ∷ [];
  semantic_lease_expires_at = none;
}

abbrev pub open_wait_from :
    ℕ
    → Option String
    → Option WaitKind
    → Option String
    → Option ReplyChannel
    → ReducerState
    → ReducerState
open_wait_from observed_at (some id) (some kind) (some summary) (some channel) next =
    add_wait (wait_of observed_at id kind summary channel) next
open_wait_from _ _ _ _ _ next = next

unfoldable pub open_wait : ℕ → EventInput → ReducerState → ReducerState
open_wait observed_at input next =
    open_wait_from observed_at input.request_id input.details.wait_kind input.details.summary
      input.details.reply_channel next

unfoldable pub close_wait : ℕ → EventInput → ReducerState → ReducerState
close_wait observed_at input next =
    if has_wait input.request_id next.open_waits
    then resume_after_wait (record next {
      open_waits = without_wait input.request_id next.open_waits;
      semantic_lease_expires_at = some (observed_at + semantic_lease_ms);
    })
    else next

unfoldable pub observe_failure : EventInput → ReducerState → ReducerState
observe_failure input next =
    if some_and input.details.fatal (λ b. b)
    then record next {
      state = State.failed;
      phase = Phase.settled;
      outcome = Outcome.failed;
      attention = Attention.process_failed;
    }
    else record next { attention = Attention.none }

abbrev settled : ReducerState → ReducerState
settled next = record next {
  state = State.idle;
  phase = Phase.settled;
  confidence = Confidence.high;
  attention = Attention.none;
  semantic_lease_expires_at = none;
}

abbrev settle_open : ℕ → EventInput → ReducerState → ReducerState
settle_open observed_at input next =
    if not (is_empty next.open_waits)
    then resume_after_wait next
    else if ltb 0 (or_else input.details.active_count 0) || not (is_empty next.open_tools)
    then record next {
      state = State.working;
      phase = if is_empty next.open_tools then Phase.model else Phase.tool;
      semantic_lease_expires_at = some (observed_at + semantic_lease_ms);
    }
    else settled next

unfoldable pub settle_turn : ℕ → EventInput → ReducerState → ReducerState
settle_turn observed_at input next = settle_open observed_at input (
    if some_and input.details.active_count (λ n. nat_eq n 0)
    then record next { open_tools = [] }
    else next)

-- The `switch` on the event's name.
unfoldable pub apply_event : EventKind → ℕ → EventInput → ReducerState → ReducerState
apply_event EventKind.reporter_ready observed_at input next = next
apply_event EventKind.session_ready observed_at input next = record (settled next) {
  clean_end_seen = false;
  interactive_ready = elim next.process_state [ ProcessState.present ↦ true | _ ↦ false ];
}
apply_event EventKind.turn_waiting observed_at input next = record next {
  state = State.waiting;
  phase = Phase.model;
  confidence = Confidence.high;
  attention = Attention.none;
  semantic_lease_expires_at = some (observed_at + semantic_lease_ms);
}
apply_event EventKind.turn_started observed_at input next = record next {
  state = State.working;
  phase = Phase.model;
  confidence = Confidence.high;
  attention = Attention.none;
  clean_end_seen = false;
  semantic_lease_expires_at = some (observed_at + semantic_lease_ms);
}
apply_event EventKind.tool_started observed_at input next = start_tool observed_at input next
apply_event EventKind.tool_finished observed_at input next = finish_tool observed_at input next
apply_event EventKind.tool_failed observed_at input next = finish_tool observed_at input next
apply_event EventKind.wait_opened observed_at input next = open_wait observed_at input next
apply_event EventKind.wait_closed observed_at input next = close_wait observed_at input next
apply_event EventKind.compaction_started observed_at input next = record next {
  state = State.working;
  phase = Phase.compaction;
  attention = Attention.none;
  semantic_lease_expires_at = some (observed_at + semantic_lease_ms);
}
apply_event EventKind.compaction_finished observed_at input next = record next {
  state = State.working;
  phase = Phase.model;
  semantic_lease_expires_at = some (observed_at + semantic_lease_ms);
}
apply_event EventKind.retry_observed observed_at input next = record next {
  state = State.working;
  phase = Phase.retry;
  attention = Attention.none;
  semantic_lease_expires_at =
      some (or_else input.details.retry_at (observed_at + semantic_lease_ms));
}
apply_event EventKind.failure_observed observed_at input next = observe_failure input next
apply_event EventKind.turn_settled observed_at input next = settle_turn observed_at input next
apply_event EventKind.session_ended observed_at input next = record (settled next) {
  clean_end_seen = true;
  open_tools = [];
  open_waits = [];
}
apply_event EventKind.heartbeat observed_at input next = next

-- The events after which an open wait does not take the state back to `blocked`.
unfoldable pub bypasses_wait : EventInput → Bool
bypasses_wait input = elim input.event [
  | EventKind.wait_closed ↦ true
  | EventKind.session_ended ↦ true
  | EventKind.failure_observed ↦ some_and input.details.fatal (λ b. b)
  | _ ↦ false
]

abbrev is_settled_event : EventKind → Bool
is_settled_event EventKind.turn_settled = true
is_settled_event _ = false

abbrev was_busy : State → Bool
was_busy State.working = true
was_busy State.suspected_stuck = true
was_busy _ = false

abbrev is_idle : State → Bool
is_idle State.idle = true
is_idle _ = false

-- `completed`: a working run settles.
unfoldable pub completes : EventInput → ReducerState → ReducerState → Bool
completes input current next =
    is_settled_event input.event && (was_busy current.state && is_idle next.state)

-- The state that an event asks for, before `transition` counts it.
unfoldable pub reporter_event : ℕ → EventInput → ReporterAuthority → ReducerState → ReducerState
reporter_event observed_at input authority current =
    let next =
      apply_event input.event observed_at input (admit_event observed_at input authority current) in
    if not (is_empty next.open_waits) && not (bypasses_wait input)
    then resume_after_wait next
    else next
