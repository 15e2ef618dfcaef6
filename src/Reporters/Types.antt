-- ===== src/Reporters/Types.antt =====
-- The tables of reporters (apps/daemon/src/persistence/schema.ts) and their records
-- (packages/contracts/src/status.ts). A timestamp is its number of milliseconds.
use nanasa.Prelude.{
  ℕ, String, ◌==◌, Bool, true, false, ◌&&◌, Option, List, map, nat_eq, is_none, if◌then◌else◌,
}
use nanasa.Status.Enums.{ReadinessCoverage, WaitKind, ReplyChannel}
use nanasa.Status.Types.{EventInput, ReducerState}
use nanasa.Delivery.Types.{RunStatus, Membership}
use nanasa.Actions.Types.{Target}

-- ReporterSessionSchema
pub record Session : Type 0 where
  pub id : String
  pub provider_id : String
  pub adapter_id : String
  pub reporter_id : String
  pub source : String
  pub protocol_version : ℕ
  pub reporter_version : String
  pub run_id : String
  pub generation : ℕ
  pub reporter_epoch : String
  pub source_sequence : ℕ
  pub native_session_id : Option String
  pub readiness_coverage : ReadinessCoverage
  pub process_fingerprint : Option String
  pub opened_at : ℕ
  pub lease_expires_at : ℕ
  pub revoked_at : Option ℕ
  pub closed_at : Option ℕ

-- AgentStatusEventInputSchema
pub record Event : Type 0 where
  pub event_id : String
  pub provider_id : String
  pub adapter_id : String
  pub reporter_id : String
  pub source : String
  pub protocol_version : ℕ
  pub reporter_version : String
  pub run_id : String
  pub generation : ℕ
  pub reporter_epoch : String
  pub source_sequence : ℕ
  pub native_session_id : Option String
  pub action_id : Option String
  pub input : EventInput

-- A row of `runs`, with the agent type of its profile
pub record Run : Type 0 where
  pub id : String
  pub group_id : String
  pub member_id : String
  pub generation : ℕ
  pub status : RunStatus
  pub desires_running : Bool
  pub agent_type : String
  pub started_at : ℕ

-- The kernel's identity of a process
pub record Kernel : Type 0 where
  pub foreground_pgid : ℕ
  pub leader_pid : ℕ
  pub pid_start_identity : String

-- A row of `runtime_observations`; `kernel` is in the payload of a 'process.alive' of the process.
pub record Observed : Type 0 where
  pub event_id : String
  pub run_id : String
  pub generation : ℕ
  pub kernel : Option Kernel

-- A row of `reporter_rejections`
pub record Rejection : Type 0 where
  pub run_id : Option String
  pub generation : Option ℕ
  pub reporter_epoch : Option String
  pub source_sequence : Option ℕ
  pub code : String
  pub rejected_at : ℕ

pub data WaitState : Type 0 where
  opened replying answered expired cancelled superseded : WaitState

-- A row of `open_waits`, found by its run, generation, epoch and request
pub record OpenWait : Type 0 where
  pub action_id : Option String
  pub group_id : String
  pub member_id : String
  pub run_id : String
  pub generation : ℕ
  pub reporter_session_id : String
  pub reporter_id : String
  pub reporter_epoch : String
  pub native_session_id : Option String
  pub provider_request_id : String
  pub kind : WaitKind
  pub summary : String
  pub reply_channel : ReplyChannel
  pub opened_status_revision : ℕ
  pub state : WaitState
  pub opened_at : ℕ
  pub updated_at : ℕ
  pub answered_at : Option ℕ

pub record Database : Type 0 where
  pub runs : List Run
  pub memberships : List Membership
  pub sessions : List Session
  -- `status_revisions`, by the id of the run
  pub states : List (String × ReducerState)
  pub observations : List Observed
  pub rejections : List Rejection
  pub open_waits : List OpenWait
  -- the targets of the rows of `actions`, by their id
  pub actions : List (String × Target)

pub data Fault : Type 0 where
  run_not_found generation_fenced identity_fenced process_unverified : Fault
  sequence_reordered native_session_fenced event_duplicate fingerprint_changed : Fault
  agent_action_not_found open_wait_report_invalid open_wait_action_mismatch : Fault
  open_wait_identity_mismatch : Fault
  -- a constraint of the database
  not_unique : Fault

pub data Answer {ℓ} (A : Type ℓ) : Type ℓ where
  done : A → Answer A
  failed : Fault → Answer A

infixl 5 ◌>>=◌ ◌>>◌
abbrev pub ◌>>=◌ {ℓ κ} : {A : Type ℓ} {B : Type κ} → Answer A → (A → Answer B) → Answer B
done a >>= f = f a
failed e >>= f = failed e

abbrev pub ◌>>◌ {ℓ} : {B : Type ℓ} → Answer (Unit {0}) → Answer B → Answer B
m >> k = m >>= λ _. k

-- `if (b) throw …`
abbrev pub refuse_if : Bool → Fault → Answer (Unit {0})
refuse_if true e = failed e
refuse_if false e = done tt

-- The run and generation of a session.
abbrev pub is_of : String → ℕ → Session → Bool
is_of run_id generation s = s.run_id == run_id && nat_eq s.generation generation

-- UNIQUE (run_id, generation, reporter_epoch)
abbrev pub has_epoch : String → ℕ → String → Session → Bool
has_epoch run_id generation epoch s = is_of run_id generation s && s.reporter_epoch == epoch

-- `revoked_at IS NULL AND closed_at IS NULL`
abbrev pub is_open : Session → Bool
is_open s = is_none s.revoked_at && is_none s.closed_at

abbrev pub update_row : (Session → Bool) → (Session → Session) → Session → Session
update_row p f s = if p s then f s else s

-- `UPDATE reporter_sessions SET f WHERE p`
unfoldable pub update_sessions :
    (Session → Bool) → (Session → Session) → List Session → List Session
update_sessions p f sessions = map (update_row p f) sessions
