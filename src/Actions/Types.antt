-- ===== src/Actions/Types.antt =====
-- The records of actions (packages/contracts/src/actions.ts) and the tables that hold them
-- (apps/daemon/src/persistence/schema.ts), with the fields that decide what happens to an action.
-- A timestamp is its number of milliseconds.
use nanasa.Prelude.{ℕ, String, Bool, Option, List}
use nanasa.Status.Enums.{State, ProcessState, AuthorityKind}
use nanasa.Delivery.Types.{RunStatus}

-- AgentActionStateSchema
pub data ActionState : Type 0 where
  created deferred submitted accepted started blocked completed settled_unverified : ActionState
  failed stalled timed_out cancelled expired superseded rejected : ActionState

unfoldable pub ActionState-discrete : Discrete ActionState
ActionState-discrete = hlevel

-- AgentActionAttemptStateSchema
pub data AttemptState : Type 0 where
  submitting submitted failed stalled cancelled superseded rejected : AttemptState

unfoldable pub AttemptState-discrete : Discrete AttemptState
AttemptState-discrete = hlevel

-- AgentActionAcknowledgementKindSchema
pub data AckKind : Type 0 where
  accepted started blocked completed settled_unverified failed cancelled : AckKind

-- AgentActionPrincipalSchema, by its `kind`
pub data PrincipalKind : Type 0 where
  operator foreman_conversation foreman agent : PrincipalKind

-- AgentActionTargetSchema
pub record Target : Type 0 where
  pub group_id : String
  pub member_id : String
  pub run_id : String
  pub generation : ℕ
  pub daemon_epoch : ℕ
  pub reporter_session_id : String
  pub reporter_id : String
  pub reporter_epoch : String
  pub native_session_id : Option String

-- AgentActionSchema; an error is its code, a result its text.
pub record Action : Type 0 where
  pub id : String
  pub principal : PrincipalKind
  pub target : Target
  pub idempotency_key : String
  pub request_digest : String
  pub allow_working : Bool
  pub state : ActionState
  pub queue_deadline_at : ℕ
  pub acceptance_deadline_at : Option ℕ
  pub completion_deadline_at : Option ℕ
  pub accepted_provider_turn_id : Option String
  pub accepted_provider_request_id : Option String
  pub result : Option String
  pub error : Option String
  pub updated_at : ℕ

-- AgentActionAttemptSchema
pub record Attempt : Type 0 where
  pub id : String
  pub action_id : String
  pub attempt : ℕ
  pub state : AttemptState
  pub daemon_epoch : ℕ
  pub run_id : String
  pub generation : ℕ
  pub reporter_session_id : String
  pub reporter_id : String
  pub reporter_epoch : String
  pub baseline_status_revision : ℕ
  pub baseline_completion_revision : ℕ
  pub terminal_binding : String
  pub lease_owner : String
  pub lease_expires_at : ℕ
  pub updated_at : ℕ
  pub submitted_at : Option ℕ
  pub failure_code : Option String

-- AgentActionAcknowledgementSchema
pub record Acknowledgement : Type 0 where
  pub id : String
  pub action_id : String
  pub attempt_id : String
  pub kind : AckKind
  pub run_id : String
  pub generation : ℕ
  pub reporter_session_id : String
  pub reporter_id : String
  pub reporter_epoch : String
  pub source_sequence : ℕ
  pub native_session_id : Option String
  pub provider_turn_id : Option String
  pub provider_request_id : Option String
  pub completion_revision : ℕ
  pub acknowledged_at : ℕ
  pub result : String

-- ReporterSessionSchema, the fields that the operations on actions read
pub record ReporterSession : Type 0 where
  pub id : String
  pub run_id : String
  pub generation : ℕ
  pub reporter_epoch : String
  pub source_sequence : ℕ
  pub process_fingerprint : Option String
  pub opened_at : ℕ
  pub is_open : Bool

-- A run, with its terminal binding as JSON.
pub record TargetRun : Type 0 where
  pub id : String
  pub generation : ℕ
  pub terminal : Option String

-- AgentStatusDetailSchema, the fields that the operations on actions read
pub record StatusDetail : Type 0 where
  pub run_id : Option String
  pub generation : Option ℕ
  pub run_status : Option RunStatus
  pub state : State
  pub process_state : ProcessState
  pub process_fingerprint : Option String
  pub stale_authority : Bool
  pub authority_kind : AuthorityKind
  pub reporter_epoch : Option String
  pub reporter_lease_expires_at : Option ℕ
  pub transport_lease_expires_at : Option ℕ
  pub interactive_ready : Bool
  pub status_revision : ℕ
  pub completion_revision : ℕ

-- What `getActiveRun` and `getAgentStatus` answer, by group and member, at the moment of a call.
pub record Agents : Type 0 where
  pub active_run : String → String → Option TargetRun
  pub status : String → String → StatusDetail

pub record Tables : Type 0 where
  pub actions : List Action
  pub attempts : List Attempt
  pub acknowledgements : List Acknowledgement
  pub reporters : List ReporterSession

-- The codes of the errors that the operations on actions throw.
pub data ActionError : Type 0 where
  agent_action_not_found action_idempotency_conflict agent_action_target_replaced : ActionError
  agent_action_ambiguous_attempt agent_action_attempt_fenced : ActionError
  agent_action_state_changed agent_action_state_conflict : ActionError
  agent_action_ack_fenced agent_action_ack_correlation_mismatch : ActionError
  agent_action_completion_revision_stale agent_action_completion_revision_future : ActionError

-- An operation throws, and its transaction is rolled back, or it leaves new tables.
pub data Outcome {ℓ} (A : Type ℓ) : Type ℓ where
  done : A → Outcome A
  throws : ActionError → Outcome A
