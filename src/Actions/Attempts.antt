-- ===== src/Actions/Attempts.antt =====
-- The operations on the attempts of actions of apps/daemon/src/store.ts. The time of a call is an
-- argument.
use nanasa.Prelude.{
  ℕ, String, ◌==◌, Bool, not, ◌&&◌, Option, none, some, List, [], ◌∷◌, ◌++◌, if◌then◌else◌, nat_eq,
  some_and,
}
use nanasa.Actions.Types.{
  ActionState, AttemptState, Target, Action, Attempt, TargetRun, StatusDetail, ReporterSession,
  Agents, Tables, ActionError, Outcome, done, throws,
}
use nanasa.Actions.Rows.{
  is_open, is_submitting, find_action, update_action, is_attempt, find_attempt, update_attempts,
  has_submitting, current_reporter,
}

unfoldable pub find_request : (group key : String) → List Action → Option Action
find_request group key [] = none
find_request group key (a ∷ as') =
    if a.target.group_id == group && a.idempotency_key == key
    then some a
    else find_request group key as'

-- `createAgentAction`
unfoldable pub create_action : Action → Tables → Outcome (Tables × Action)
create_action action t =
    elim (find_request action.target.group_id action.idempotency_key t.actions) [
      | none ↦ done (record t { actions = t.actions ++ action ∷ [] }, action)
      | some existing ↦
          if existing.request_digest == action.request_digest
          then done (t, existing)
          else throws ActionError.action_idempotency_conflict
    ]

-- The run is the one of an action's target.
abbrev pub is_target_run : Target → Option TargetRun → Bool
is_target_run target run =
    some_and run (λ r. r.id == target.run_id && nat_eq r.generation target.generation)

abbrev pub is_target_reporter : Target → Option ReporterSession → Bool
is_target_reporter target reporter =
    some_and reporter
      (λ r. r.id == target.reporter_session_id && r.reporter_epoch == target.reporter_epoch)

abbrev pub has_binding : String → Option TargetRun → Bool
has_binding binding run = some_and run (λ r. some_and r.terminal (λ b. b == binding))

-- The attempt is made for the target of its action.
abbrev pub is_for : Target → Attempt → Bool
is_for target attempt =
    attempt.run_id == target.run_id
    && (nat_eq attempt.generation target.generation
        && (nat_eq attempt.daemon_epoch target.daemon_epoch
            && (attempt.reporter_session_id == target.reporter_session_id
                && (attempt.reporter_id == target.reporter_id
                    && attempt.reporter_epoch == target.reporter_epoch))))

abbrev pub has_baselines : Attempt → StatusDetail → Bool
has_baselines attempt status =
    nat_eq attempt.baseline_status_revision status.status_revision
    && nat_eq attempt.baseline_completion_revision status.completion_revision

-- The guard of `beginAgentActionAttempt` on the target.
unfoldable pub may_begin : Agents → Attempt → Action → Tables → Bool
may_begin agents attempt action t =
    let target = action.target in
    let run = agents.active_run target.group_id target.member_id in
    is_open action.state
    && (is_target_run target run
        && (is_for target attempt
            && (is_target_reporter target
                  (current_reporter target.run_id target.generation t.reporters)
                && (has_binding attempt.terminal_binding run
                    && has_baselines attempt (agents.status target.group_id target.member_id)))))

-- `beginAgentActionAttempt`
unfoldable pub begin_attempt : Agents → Attempt → Tables → Outcome Tables
begin_attempt agents attempt t = elim (find_action attempt.action_id t.actions) [
  | none ↦ throws ActionError.agent_action_not_found
  | some action ↦
      if not (may_begin agents attempt action t)
      then throws ActionError.agent_action_target_replaced
      else if has_submitting attempt.action_id t.attempts
      then throws ActionError.agent_action_ambiguous_attempt
      else done (record t { attempts = t.attempts ++ attempt ∷ [] })
]

-- The attempt is still being submitted, by this owner.
abbrev pub is_owned : String → Option Attempt → Bool
is_owned owner attempt = some_and attempt (λ a. is_submitting a.state && a.lease_owner == owner)

-- The run of the target is still the one of the attempt.
abbrev pub is_run_of : Option Attempt → Option TargetRun → Bool
is_run_of attempt run = some_and attempt (λ a.
    some_and run (λ r. r.id == a.run_id && nat_eq r.generation a.generation)
    && has_binding a.terminal_binding run)

abbrev pub submit : ℕ → Attempt → Attempt
submit now a = record a {
  state = AttemptState.submitted;
  submitted_at = some now;
  updated_at = now;
}

abbrev pub set_attempts : (String × (Attempt → Attempt)) → List Attempt → List Attempt
set_attempts (id, f) = update_attempts (λ a. a.id == id) f

-- `markAgentActionSubmitted`
unfoldable pub mark_submitted :
    (action attempt owner : String) → ℕ → Agents → Tables → Outcome Tables
mark_submitted id attempt_id owner now agents t =
    let attempt = find_attempt attempt_id id t.attempts in
    if not (is_owned owner attempt)
    then throws ActionError.agent_action_attempt_fenced
    else elim (find_action id t.actions) [
      | none ↦ throws ActionError.agent_action_not_found
      | some action ↦
          if not (is_open action.state)
          then throws ActionError.agent_action_state_changed
          else if not
              (is_run_of attempt (agents.active_run action.target.group_id action.target.member_id))
          then throws ActionError.agent_action_target_replaced
          else done (record t {
            attempts = set_attempts (attempt_id, submit now) t.attempts;
            actions =
                update_action id (λ a. record a { state = ActionState.submitted; updated_at = now })
                  t.actions;
          })
    ]

-- The states that `failAgentActionAttempt` takes.
pub data FailedState : Type 0 where
  failed stalled superseded rejected : FailedState

abbrev pub attempt_state : FailedState → AttemptState
attempt_state FailedState.failed = AttemptState.failed
attempt_state FailedState.stalled = AttemptState.stalled
attempt_state FailedState.superseded = AttemptState.superseded
attempt_state FailedState.rejected = AttemptState.rejected

abbrev pub action_state : FailedState → ActionState
action_state FailedState.failed = ActionState.failed
action_state FailedState.stalled = ActionState.stalled
action_state FailedState.superseded = ActionState.superseded
action_state FailedState.rejected = ActionState.rejected

abbrev pub end_attempt : FailedState → String → ℕ → Attempt → Attempt
end_attempt state code now a = record a {
  state = attempt_state state;
  failure_code = some code;
  updated_at = now;
}

abbrev pub end_action : FailedState → String → ℕ → Action → Action
end_action state code now a = record a {
  state = action_state state;
  error = some code;
  updated_at = now;
}

-- `failAgentActionAttempt`
unfoldable pub fail_action_attempt :
    (action attempt owner : String) → FailedState → String → ℕ → Tables → Outcome Tables
fail_action_attempt id attempt_id owner state code now t =
    if not (is_owned owner (find_attempt attempt_id id t.attempts))
    then throws ActionError.agent_action_attempt_fenced
    else elim (find_action id t.actions) [
      | none ↦ throws ActionError.agent_action_not_found
      | some action ↦ done (record t {
        attempts = set_attempts (attempt_id, end_attempt state code now) t.attempts;
        actions = update_action id (end_action state code now) t.actions;
      })
    ]

-- `abandonAgentActionAttempt`
unfoldable pub abandon_attempt :
    (action attempt owner : String) → String → ℕ → Tables → Outcome Tables
abandon_attempt id attempt_id owner code now t = elim (find_action id t.actions) [
  | none ↦ throws ActionError.agent_action_not_found
  | some action ↦ done (record t {
    attempts =
        update_attempts
          (λ a. is_attempt attempt_id id a && (is_submitting a.state && a.lease_owner == owner))
          (end_attempt FailedState.superseded code now) t.attempts;
  })
]
