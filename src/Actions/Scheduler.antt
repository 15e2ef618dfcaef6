-- ===== src/Actions/Scheduler.antt =====
-- `AgentActionScheduler` of apps/daemon/src/actions/agent-action-scheduler.ts: `#schedule`,
-- `#consider` up to the attempt, and what becomes of the attempt. The write into the terminal is
-- its outcome.
use nanasa.Prelude.{
  ℕ, ◌+◌, String, Bool, true, false, not, ◌&&◌, ◌||◌, Option, none, some, [], ◌∷◌, if◌then◌else◌,
  leb, some_and,
}
use nanasa.Actions.Types.{
  ActionState, AttemptState, PrincipalKind, Action, Attempt, StatusDetail, Agents, Tables,
  ActionError, Outcome, done, throws,
}
use nanasa.Actions.Readiness.{Decision, Rejection, action_readiness}
use nanasa.Actions.Rows.{find_action, attempts_of, current_reporter}
use nanasa.Actions.Attempts.{
  is_target_run, is_target_reporter, begin_attempt, mark_submitted, FailedState,
  fail_action_attempt, abandon_attempt,
}
use nanasa.Actions.Transitions.{TransitionOptions, with_error, transition_action}

infixl 5 ◌>>=◌
abbrev ◌>>=◌ {ℓ κ} : {A : Type ℓ} {B : Type κ} → Outcome A → (A → Outcome B) → Outcome B
done a >>= f = f a
throws e >>= f = throws e

abbrev needs_goal : PrincipalKind → Bool
needs_goal PrincipalKind.foreman = true
needs_goal PrincipalKind.foreman_conversation = true
needs_goal _ = false

-- The answer of `authorizeDelegatedAction`, where the scheduler has one: an error code refuses.
abbrev pub Authorize : Type 0
Authorize = Option (Action → Option String)

-- The error that stops an action whose goal no longer authorizes it.
unfoldable pub refusal : Authorize → Action → Option String
refusal none action = if needs_goal action.principal then some "goal_dispatch_forbidden" else none
refusal (some authorize) action = authorize action

-- `no_options` of a call without them.
abbrev no_options : TransitionOptions
no_options = record {
  error = none;
  result = none;
  accepted_provider_turn_id = none;
  accepted_provider_request_id = none;
}

abbrev move : Action → ActionState → String → ℕ → Tables → Outcome Tables
move action state code now =
    transition_action action.id (action.state ∷ []) state (with_error code) now

abbrev pub code_of : Rejection → String
code_of Rejection.target_identity_mismatch = "target_identity_mismatch"
code_of Rejection.target_failed = "target_failed"
code_of Rejection.target_stopped = "target_stopped"
code_of Rejection.target_process_indeterminate = "target_process_indeterminate"
code_of Rejection.target_process_unavailable = "target_process_unavailable"
code_of Rejection.target_blocked = "target_blocked"
code_of Rejection.target_unknown = "target_unknown"
code_of Rejection.target_reporter_stale = "target_reporter_stale"
code_of Rejection.target_not_interactive_ready = "target_not_interactive_ready"
code_of Rejection.target_working_override_required = "target_working_override_required"
code_of Rejection.target_not_idle = "target_not_idle"

abbrev attempt_lease_ms : ℕ
attempt_lease_ms = 30000

-- The attempt that `#consider` makes, with its new id.
abbrev pub new_attempt : (id owner binding : String) → ℕ → Action → StatusDetail → Tables → Attempt
new_attempt id owner binding now action status t = record {
  id = id;
  action_id = action.id;
  attempt = attempts_of action.id t.attempts + 1;
  state = AttemptState.submitting;
  daemon_epoch = action.target.daemon_epoch;
  run_id = action.target.run_id;
  generation = action.target.generation;
  reporter_session_id = action.target.reporter_session_id;
  reporter_id = action.target.reporter_id;
  reporter_epoch = action.target.reporter_epoch;
  baseline_status_revision = status.status_revision;
  baseline_completion_revision = status.completion_revision;
  terminal_binding = binding;
  lease_owner = owner;
  lease_expires_at = now + attempt_lease_ms;
  updated_at = now;
  submitted_at = none;
  failure_code = none;
}

abbrev is_deferred : ActionState → Bool
is_deferred ActionState.deferred = true
is_deferred _ = false

-- What `#consider` does, by the decision. The result tells whether an attempt has begun. That the
-- run is there was tested before.
unfoldable pub decide :
    Decision → (id owner : String) → ℕ → Agents → Action → Tables → Outcome (Tables × Bool)
decide Decision.defer id owner now agents action t =
    if is_deferred action.state
    then done (t, false)
    else transition_action action.id (action.state ∷ []) ActionState.deferred no_options now t
      >>= λ t'. done (t', false)
decide (Decision.reject r) id owner now agents action t =
    move action ActionState.rejected (code_of r) now t >>= λ t'. done (t', false)
decide Decision.dispatch id owner now agents action t =
    elim (agents.active_run action.target.group_id action.target.member_id) [
      | none ↦ throws ActionError.agent_action_not_found
      | some run ↦ elim run.terminal [
        | none ↦ move action ActionState.rejected "target_terminal_unavailable" now t >>= λ t'.
            done (t', false)
        | some binding ↦
            begin_attempt agents
              (new_attempt id owner binding now action
                (agents.status action.target.group_id action.target.member_id) t)
              t
            >>= λ t'. done (t', true)
      ]
    ]

-- `#consider`, up to the attempt.
unfoldable pub consider :
    Authorize → (id owner : String) → ℕ → Agents → Action → Tables → Outcome (Tables × Bool)
consider authorize id owner now agents action t =
    let target = action.target in
    elim (refusal authorize action) [
      | some code ↦ move action ActionState.cancelled code now t >>= λ t'. done (t', false)
      | none ↦
          if leb action.queue_deadline_at now
          then (move action ActionState.expired "agent_action_queue_expired" now t >>= λ t'.
              done (t', false))
          else if not (is_target_run target (agents.active_run target.group_id target.member_id))
              || not (
                  is_target_reporter target
                    (current_reporter target.run_id target.generation t.reporters))
          then (move action ActionState.superseded "run_replaced" now t >>= λ t'. done (t', false))
          else decide (action_readiness action (agents.status target.group_id target.member_id) now)
              id owner now agents action t
    ]

-- The outcome of the block that `#consider` tries: the prompt was written, or an error was thrown
-- before that. `replaced` tells that the error's code speaks of a replaced or mismatched target.
pub data Submission : Type 0 where
  written : Submission
  refused : (code : String) (replaced : Bool) → Submission

-- The states in which the `catch` block abandons the attempt.
abbrev pub is_final : ActionState → Bool
is_final ActionState.completed = true
is_final ActionState.settled_unverified = true
is_final ActionState.failed = true
is_final ActionState.stalled = true
is_final ActionState.timed_out = true
is_final ActionState.cancelled = true
is_final ActionState.expired = true
is_final ActionState.superseded = true
is_final ActionState.rejected = true
is_final _ = false

-- The `catch` block of `#consider`.
unfoldable pub caught :
    (id attempt owner code : String) (write_completed replaced : Bool) → ℕ → Tables → Outcome Tables
caught id attempt owner code write_completed replaced now t = elim (find_action id t.actions) [
  | none ↦ throws ActionError.agent_action_not_found
  | some current ↦
      if is_final current.state
      then abandon_attempt id attempt owner code now t
      else if write_completed
      then fail_action_attempt id attempt owner FailedState.stalled
          "submission_commit_indeterminate" now t
        >>= transition_action id (ActionState.stalled ∷ []) ActionState.settled_unverified
            (with_error "submission_commit_indeterminate") now
      else fail_action_attempt id attempt owner
          (if replaced then FailedState.superseded else FailedState.failed) code now t
]

-- The code of an error that `markAgentActionSubmitted` throws.
abbrev pub error_code : ActionError → String
error_code ActionError.agent_action_attempt_fenced = "agent_action_attempt_fenced"
error_code ActionError.agent_action_state_changed = "agent_action_state_changed"
error_code ActionError.agent_action_target_replaced = "agent_action_target_replaced"
error_code _ = "agent_action_not_found"

-- The end of `#consider`, after the write or an error.
unfoldable pub conclude :
    (id attempt owner : String) → Submission → ℕ → Agents → Tables → Outcome Tables
conclude id attempt owner Submission.written now agents t =
    elim (mark_submitted id attempt owner now agents t) [
      | done t' ↦ done t'
      | throws e ↦ caught id attempt owner (error_code e) true false now t
    ]
conclude id attempt owner (Submission.refused code replaced) now agents t =
    caught id attempt owner code false replaced now t

abbrev has_passed : ℕ → Option ℕ → Bool
has_passed now deadline = some_and deadline (λ d. leb d now)

abbrev is_submitted : ActionState → Bool
is_submitted ActionState.submitted = true
is_submitted _ = false

abbrev is_running : ActionState → Bool
is_running ActionState.accepted = true
is_running ActionState.started = true
is_running ActionState.blocked = true
is_running _ = false

-- The deadlines that `#schedule` watches of an action that it has listed.
unfoldable pub watch : ℕ → Action → Tables → Outcome Tables
watch now action t =
    if is_submitted action.state && has_passed now action.acceptance_deadline_at
    then transition_action action.id (ActionState.submitted ∷ []) ActionState.stalled
        (with_error "agent_prompt_stalled") now t
    else if is_running action.state && has_passed now action.completion_deadline_at
    then move action ActionState.timed_out "agent_action_timed_out" now t
    else done t
