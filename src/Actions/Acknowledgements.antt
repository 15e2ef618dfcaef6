-- ===== src/Actions/Acknowledgements.antt =====
-- `recordAgentActionAcknowledgement` of apps/daemon/src/store.ts: a provider's word on an action.
use nanasa.Prelude.{
  String, ◌==◌, Bool, true, false, not, ◌&&◌, Option, none, some, [], ◌∷◌, ◌++◌, if◌then◌else◌, ltb,
  leb, nat_eq, some_and, none_or,
}
use nanasa.Actions.Types.{
  ActionState, AttemptState, AckKind, Target, Action, Attempt, Acknowledgement, ReporterSession,
  Agents, Tables, ActionError, Outcome, done, throws,
}
use nanasa.Actions.Rows.{find_action, update_action, find_attempt, current_reporter, set_sequence}

-- `["submitted", "accepted", "started", "blocked"].includes(state)`
abbrev pub is_awaiting : ActionState → Bool
is_awaiting ActionState.submitted = true
is_awaiting ActionState.accepted = true
is_awaiting ActionState.started = true
is_awaiting ActionState.blocked = true
is_awaiting _ = false

abbrev is_submitted : AttemptState → Bool
is_submitted AttemptState.submitted = true
is_submitted _ = false

-- The state that an acknowledgement of a kind leads to.
abbrev pub acknowledged : AckKind → ActionState
acknowledged AckKind.accepted = ActionState.accepted
acknowledged AckKind.started = ActionState.started
acknowledged AckKind.blocked = ActionState.blocked
acknowledged AckKind.completed = ActionState.completed
acknowledged AckKind.settled_unverified = ActionState.settled_unverified
acknowledged AckKind.failed = ActionState.failed
acknowledged AckKind.cancelled = ActionState.cancelled

abbrev is_acceptance : AckKind → Bool
is_acceptance AckKind.accepted = true
is_acceptance _ = false

abbrev has_result : AckKind → Bool
has_result AckKind.completed = true
has_result AckKind.settled_unverified = true
has_result _ = false

abbrev is_failure : AckKind → Bool
is_failure AckKind.failed = true
is_failure _ = false

abbrev pub is_completion : AckKind → Bool
is_completion AckKind.completed = true
is_completion _ = false

-- The acknowledgement names the exact target of the action.
abbrev pub is_about : Target → Acknowledgement → Bool
is_about target ack =
    ack.run_id == target.run_id
    && (nat_eq ack.generation target.generation
        && (ack.reporter_session_id == target.reporter_session_id
            && (ack.reporter_id == target.reporter_id
                && ack.reporter_epoch == target.reporter_epoch)))

-- It comes from the reporter session that is current, and after all that this one has sent.
abbrev pub is_next : Acknowledgement → Option ReporterSession → Bool
is_next ack reporter = some_and reporter (λ r.
    r.id == ack.reporter_session_id
    && (r.reporter_epoch == ack.reporter_epoch && ltb r.source_sequence ack.source_sequence))

-- `expected === undefined || actual === expected`
abbrev pub agrees_with : Option String → Option String → Bool
agrees_with expected actual = none_or expected (λ e. some_and actual (λ a. a == e))

unfoldable pub is_unfenced : Acknowledgement → Action → Option Attempt → Tables → Bool
is_unfenced ack action attempt t =
    some_and attempt (λ a. is_submitted a.state)
    && (is_awaiting action.state
        && (is_about action.target ack
            && (is_next ack (current_reporter ack.run_id ack.generation t.reporters)
                && agrees_with action.target.native_session_id ack.native_session_id)))

-- The `UPDATE actions` of the acknowledgement.
abbrev pub acknowledge : Acknowledgement → Action → Action
acknowledge ack a = record a {
  state = acknowledged ack.kind;
  accepted_provider_turn_id =
      if is_acceptance ack.kind then ack.provider_turn_id else a.accepted_provider_turn_id;
  accepted_provider_request_id =
      if is_acceptance ack.kind then ack.provider_request_id else a.accepted_provider_request_id;
  result = if has_result ack.kind then some ack.result else a.result;
  error = if is_failure ack.kind then some "provider_failed" else a.error;
  updated_at = ack.acknowledged_at;
}

abbrev completes_late : Acknowledgement → Option Attempt → Bool
completes_late ack attempt =
    is_completion ack.kind
    && none_or attempt (λ a. leb ack.completion_revision a.baseline_completion_revision)

-- `recordAgentActionAcknowledgement`
unfoldable pub record_acknowledgement : Agents → Acknowledgement → Tables → Outcome Tables
record_acknowledgement agents ack t = elim (find_action ack.action_id t.actions) [
  | none ↦ throws ActionError.agent_action_not_found
  | some action ↦
      let attempt = find_attempt ack.attempt_id action.id t.attempts in
      let status = agents.status action.target.group_id action.target.member_id in
      if not (is_unfenced ack action attempt t)
      then throws ActionError.agent_action_ack_fenced
      else if not (agrees_with action.accepted_provider_turn_id ack.provider_turn_id)
      then throws ActionError.agent_action_ack_correlation_mismatch
      else if completes_late ack attempt
      then throws ActionError.agent_action_completion_revision_stale
      else if ltb status.completion_revision ack.completion_revision
      then throws ActionError.agent_action_completion_revision_future
      else done (record t {
        acknowledgements = t.acknowledgements ++ ack ∷ [];
        reporters = set_sequence ack.reporter_session_id ack.source_sequence t.reporters;
        actions = update_action ack.action_id (acknowledge ack) t.actions;
      })
]
