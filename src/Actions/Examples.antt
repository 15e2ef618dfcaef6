-- ===== src/Actions/Examples.antt =====
-- One prompt on its way to one agent.
use nanasa.Prelude.{String, ◌≤◌, ◌<◌, true, false, ◌≡◌, refl, ◌⊎◌, none, some, [], ◌∷◌, arith}
use nanasa.Status.Enums.{State, State-discrete, ProcessState, AuthorityKind}
use nanasa.Delivery.Types.{RunStatus, RunStatus-discrete}
use nanasa.Actions.Types.{
  ActionState, ActionState-discrete, AttemptState, AckKind, PrincipalKind, Target, Action, Attempt,
  Acknowledgement, ReporterSession, StatusDetail, Agents, Tables, ActionError, done, throws,
}
use nanasa.Actions.Readiness.{
  action_readiness, ready_by_process, ready_by_state, IsEligible, dispatch-IsEligible,
}
use nanasa.Actions.Rows.{
  find_action, update_actions, find_attempt, update_attempts, attempts_of, has_submitting,
  current_reporter, set_sequence,
}
use nanasa.Actions.Attempts.{
  find_request, create_action, may_begin, begin_attempt, mark_submitted, fail_action_attempt,
  abandon_attempt,
}
use nanasa.Actions.Transitions.{transition_action, recover_rows, recover_attempts}
use nanasa.Actions.Acknowledgements.{record_acknowledgement, is_unfenced, acknowledge}
use nanasa.Actions.Scheduler.{refusal, decide, consider, new_attempt, Submission, caught, conclude}
use nanasa.Actions.Once.{is_open_action}
use nanasa.Actions.Reach.{Step, Reach, empty, typed_once}
use nanasa.Actions.Begins.{MayDispatch, IsReached}
use nanasa.Actions.Settles.{consider_begins, IsConcluded, conclude_ends}
use nanasa.Actions.Replays.{acknowledgement_fences, Awaits, ComesFrom, acknowledged_once}

program : Unit {0}
unfolding action_readiness ready_by_process ready_by_state find_action update_actions find_attempt
    update_attempts attempts_of has_submitting current_reporter set_sequence find_request
    create_action may_begin begin_attempt mark_submitted fail_action_attempt abandon_attempt
    transition_action recover_rows recover_attempts record_acknowledgement is_unfenced refusal
    decide consider caught conclude RunStatus-discrete State-discrete ActionState-discrete
program = tt

abbrev target : Target
target = record {
  group_id = "g";
  member_id = "ada";
  run_id = "r1";
  generation = 3;
  daemon_epoch = 1;
  reporter_session_id = "rs1";
  reporter_id = "hook";
  reporter_epoch = "e1";
  native_session_id = none;
}

abbrev action : Action
action = record {
  id = "a1";
  principal = PrincipalKind.operator;
  target = target;
  idempotency_key = "k1";
  request_digest = "d1";
  allow_working = false;
  state = ActionState.created;
  queue_deadline_at = 1000;
  acceptance_deadline_at = some 2000;
  completion_deadline_at = none;
  accepted_provider_turn_id = none;
  accepted_provider_request_id = none;
  result = none;
  error = none;
  updated_at = 0;
}

abbrev status : StatusDetail
status = record {
  run_id = some "r1";
  generation = some 3;
  run_status = some RunStatus.running;
  state = State.idle;
  process_state = ProcessState.present;
  process_fingerprint = some "p";
  stale_authority = false;
  authority_kind = AuthorityKind.reporter;
  reporter_epoch = some "e1";
  reporter_lease_expires_at = some 500;
  transport_lease_expires_at = some 500;
  interactive_ready = true;
  status_revision = 7;
  completion_revision = 2;
}

abbrev agents : Agents
agents = record {
  active_run = λ group member. some (record { id = "r1"; generation = 3; terminal = some "tty" });
  status = λ group member. status;
}

-- The status after the agent has settled once more.
abbrev later_agents : Agents
later_agents = record agents { status = λ group member. record status { completion_revision = 3 } }

abbrev session : ReporterSession
session = record {
  id = "rs1";
  run_id = "r1";
  generation = 3;
  reporter_epoch = "e1";
  source_sequence = 4;
  process_fingerprint = some "p";
  opened_at = 1;
  is_open = true;
}

abbrev attempt : Attempt
attempt = new_attempt "t1" "owner" "tty" 100 action status empty

abbrev reported : Tables
reported = record empty { reporters = session ∷ [] }

abbrev created : Tables
created = record reported { actions = action ∷ [] }

abbrev submitting : Tables
submitting = record created { attempts = attempt ∷ [] }

abbrev submitted : Tables
submitted = record submitting {
  actions = record action { state = ActionState.submitted; updated_at = 150 } ∷ [];
  attempts =
      record attempt { state = AttemptState.submitted; submitted_at = some 150; updated_at = 150 }
      ∷ [];
}

create-Step : Step reported created
unfolding program
create-Step = Step.creates action action refl refl

begin-Step : Step created submitting
unfolding program
begin-Step = Step.begins agents attempt refl refl refl

attempts_reached : Reach empty submitting
attempts_reached =
    Reach.next (Reach.next (Reach.next Reach.here (Step.reports (session ∷ []))) create-Step)
      begin-Step

typed_once_example :
    (attempts_of "a1" submitting.attempts ≤ 1)
    × ((is_open_action "a1" submitting.actions ≡ false)
        ⊎ ((has_submitting "a1" submitting.attempts ≡ true)
            ⊎ (attempts_of "a1" submitting.attempts ≡ 0)))
typed_once_example = typed_once "a1" attempts_reached

dispatch-IsEligible_example : IsEligible action status 100
dispatch-IsEligible_example = dispatch-IsEligible action status 100 (unfold program in refl)

consider_begins_example :
    MayDispatch none action
    × (100 < action.queue_deadline_at)
    × IsReached action.target agents created
    × IsEligible action status 100
consider_begins_example =
    consider_begins none "t1" "owner" 100 agents action created submitting (unfold program in refl)

conclude_ends_example :
    IsConcluded "a1" "t1" "owner"
      (conclude "a1" "t1" "owner" Submission.written 150 agents submitting)
conclude_ends_example =
    conclude_ends "a1" "t1" "owner" Submission.written 150 agents submitting action
      (unfold program in refl) (unfold program in refl)

concluded : conclude "a1" "t1" "owner" Submission.written 150 agents submitting ≡ done submitted
unfolding program
concluded = refl

abbrev completion : Acknowledgement
completion = record {
  id = "k1";
  action_id = "a1";
  attempt_id = "t1";
  kind = AckKind.completed;
  run_id = "r1";
  generation = 3;
  reporter_session_id = "rs1";
  reporter_id = "hook";
  reporter_epoch = "e1";
  source_sequence = 5;
  native_session_id = none;
  provider_turn_id = none;
  provider_request_id = none;
  completion_revision = 3;
  acknowledged_at = 300;
  result = "{}";
}

abbrev waiting : Action
waiting = record action { state = ActionState.submitted; updated_at = 150 }

abbrev completed : Tables
completed = record submitted {
  actions = acknowledge completion waiting ∷ [];
  acknowledgements = completion ∷ [];
  reporters = record session { source_sequence = 5 } ∷ [];
}

acknowledgement_fences_example :
    ((att : Attempt) × (find_attempt "t1" "a1" submitted.attempts ≡ some att)
      × (att.state ≡ AttemptState.submitted)
      × (completion.kind ≡ AckKind.completed → att.baseline_completion_revision < 3))
    × Awaits ActionState.submitted
    × (completion.run_id ≡ target.run_id)
    × (completion.generation ≡ target.generation)
    × (completion.reporter_session_id ≡ target.reporter_session_id)
    × (completion.reporter_id ≡ target.reporter_id)
    × (completion.reporter_epoch ≡ target.reporter_epoch)
    × ((n : String) → target.native_session_id ≡ some n → completion.native_session_id ≡ some n)
    × ComesFrom completion (current_reporter "r1" 3 submitted.reporters)
    × ((n : String)
        → waiting.accepted_provider_turn_id ≡ some n
        → completion.provider_turn_id ≡ some n)
    × (3 ≤ (later_agents.status "g" "ada").completion_revision)
    × ((after : Action) × (find_action "a1" completed.actions ≡ some after)
        × (after.state ≡ ActionState.completed))
acknowledgement_fences_example =
    acknowledgement_fences later_agents completion submitted completed waiting
      (unfold program in refl) (unfold program in refl)

acknowledged_once_example :
    record_acknowledgement later_agents completion completed
    ≡ throws ActionError.agent_action_ack_fenced
acknowledged_once_example =
    acknowledged_once later_agents later_agents completion completion submitted completed
      (acknowledge completion waiting) (unfold program in refl) (unfold program in refl) refl refl
      (omega arith)
