-- ===== src/Actions/Transitions.antt =====
-- The operations of apps/daemon/src/store.ts that move actions on: transitions, the recovery of
-- ambiguous attempts, and runs that end or are replaced.
use nanasa.Prelude.{
  ℕ, String, ◌==◌, Bool, not, ◌&&◌, Option, none, some, List, [], ◌∷◌, if◌then◌else◌, leb, any,
  or_option, same,
}
use nanasa.Actions.Types.{
  ActionState, ActionState-discrete, Action, Attempt, Tables, ActionError, Outcome, done, throws,
}
use nanasa.Actions.Rows.{
  is_open, is_live, is_submitting, find_action, update_actions, update_action,
}
use nanasa.Actions.Attempts.{FailedState, end_action}

-- The options of `transitionAgentAction`.
pub record TransitionOptions : Type 0 where
  pub error : Option String
  pub result : Option String
  pub accepted_provider_turn_id : Option String
  pub accepted_provider_request_id : Option String

abbrev pub with_error : String → TransitionOptions
with_error code = record {
  error = some code;
  result = none;
  accepted_provider_turn_id = none;
  accepted_provider_request_id = none;
}

abbrev pub includes : List ActionState → ActionState → Bool
includes xs s = any (λ x. same ActionState-discrete x s) xs

-- `transitionAgentAction`
unfoldable pub transition_action :
    String → List ActionState → ActionState → TransitionOptions → ℕ → Tables → Outcome Tables
transition_action id expected state options now t = elim (find_action id t.actions) [
  | none ↦ throws ActionError.agent_action_not_found
  | some current ↦
      if not (includes expected current.state)
      then throws ActionError.agent_action_state_conflict
      else done (record t {
        actions =
            update_action id
              (λ a. record a {
                state = state;
                error = options.error;
                result = options.result;
                accepted_provider_turn_id =
                    or_option options.accepted_provider_turn_id a.accepted_provider_turn_id;
                accepted_provider_request_id =
                    or_option options.accepted_provider_request_id a.accepted_provider_request_id;
                updated_at = now;
              })
              t.actions;
      })
]

-- The `SELECT` of `recoverAmbiguousActionAttempts`, for one action.
abbrev pub is_ambiguous : ℕ → List Attempt → Action → Bool
is_ambiguous now attempts a =
    is_open a.state
    && any (λ x. x.action_id == a.id && (is_submitting x.state && leb x.lease_expires_at now))
        attempts

-- The loop of `recoverAmbiguousActionAttempts` over the rows that it selected.
unfoldable pub recover_rows : ℕ → List Attempt → List Action → Tables → Outcome Tables
recover_rows now attempts [] t = done t
recover_rows now attempts (a ∷ as') t =
    let skip = recover_rows now attempts as' t in
    if is_ambiguous now attempts a
    then elim (transition_action a.id (ActionState.created ∷ ActionState.deferred ∷ [])
        ActionState.settled_unverified (with_error "submission_crash_window") now t) [
          | throws e ↦ throws e
          | done t' ↦ recover_rows now attempts as' t'
        ]
    else skip

-- `recoverAmbiguousActionAttempts`
unfoldable pub recover_attempts : ℕ → Tables → Outcome Tables
recover_attempts now t = recover_rows now t.attempts t.actions t

-- The `UPDATE actions` of `createRun`: a new run of a member replaces the others.
unfoldable pub replace_runs : (group member run : String) → ℕ → Tables → Tables
replace_runs group member run now t = record t {
  actions =
      update_actions
        (λ a.
          (a.target.group_id == group
            && (a.target.member_id == member && not (a.target.run_id == run)))
          && is_live a.state)
        (end_action FailedState.superseded "run_replaced" now) t.actions;
}

-- The `UPDATE actions` of `updateRunStatus`, for a run that stopped or failed.
unfoldable pub end_run : String → Bool → ℕ → Tables → Tables
end_run run stopped now t = record t {
  actions =
      update_actions (λ a. a.target.run_id == run && is_live a.state)
        (end_action (if stopped then FailedState.superseded else FailedState.failed)
          (if stopped then "run_stopped" else "run_failed") now)
        t.actions;
}
