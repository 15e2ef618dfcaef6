-- ===== src/Status/Types.antt =====
-- The records of packages/contracts/src/status.ts that the reducer reads and writes, and the
-- observations and the state of apps/daemon/src/agent-status-reducer.ts.
-- A timestamp is the number of milliseconds that `Date.parse` gives for it.
use nanasa.Prelude.{ℕ, String, Bool, Option, List}
use nanasa.Status.Enums.{
  State, Phase, Outcome, Confidence, Attention, EventKind, WaitKind, ReplyChannel,
  ReadinessCoverage, AuthorityKind, ProcessState, ScreenClassification, EvidenceSource,
  ProviderMatch,
}

-- AgentStatusWaitSchema
pub record Wait : Type 0 where
  pub request_id : String
  pub kind : WaitKind
  pub summary : String
  pub reply_channel : ReplyChannel
  pub opened_at : ℕ

-- A summary is a text, or the template `exit ${code}`.
pub data Summary : Type 0 where
  text : String → Summary
  exit : ℕ → Summary

-- AgentStatusEvidenceSchema
pub record Evidence : Type 0 where
  pub source : EvidenceSource
  pub kind : String
  pub observed_at : ℕ
  pub confidence : Confidence
  pub summary : Option Summary

-- AgentStatusTransitionSchema
pub record Transition : Type 0 where
  pub from : State
  pub to : State
  pub phase : Phase
  pub attention : Attention
  pub occurred_at : ℕ

-- AgentStatusEventDataSchema: the fields that the reducer reads
pub record EventData : Type 0 where
  pub wait_kind : Option WaitKind
  pub summary : Option String
  pub reply_channel : Option ReplyChannel
  pub retry_at : Option ℕ
  pub active_count : Option ℕ
  pub fatal : Option Bool

-- AgentStatusEventInputSchema: the fields that the reducer reads
pub record EventInput : Type 0 where
  pub event : EventKind
  pub operation_id : Option String
  pub request_id : Option String
  pub details : EventData

-- AgentProgressReportCommandSchema, after its transformation of `blocker`
pub record ProgressReport : Type 0 where
  pub stage : String
  pub summary : String
  pub next_step : Option String
  pub blocker : Option String
  pub outcome : Option Outcome

-- `process` of RuntimeObservationSchema: the fields that the reducer reads
pub record ProcessIdentity : Type 0 where
  pub process_fingerprint : String
  pub expected_provider_match : ProviderMatch

-- ScreenObservationSchema: the fields that the reducer reads
pub record ScreenObservation : Type 0 where
  pub capture_hash : String
  pub rule_id : Option String
  pub classification : ScreenClassification
  pub confidence : Confidence
  pub visible_blocker : Bool

-- ReporterAuthority
pub record ReporterAuthority : Type 0 where
  pub session_id : String
  pub reporter_epoch : String
  pub readiness_coverage : ReadinessCoverage
  pub lease_expires_at : ℕ

-- AgentStatusObservation, with `eventId` and what else the reducer reads; the first argument of
-- each is `observedAt`
pub data Observation : Type 0 where
  reporter_event : ℕ → EventInput → ReporterAuthority → Observation
  process_alive :
      ℕ
      → (event_id : String) (process : Option ProcessIdentity) (authority_invalid : Option Bool)
      → Observation
  process_missing : ℕ → (event_id : String) → Observation
  process_indeterminate : ℕ → (event_id : String) → Observation
  process_exited :
      ℕ
      → (event_id : String) (exit_code : Option ℕ) (signal : Option String)
        (operator_stopped : Option Bool)
      → Observation
  lease_probed : ℕ → (event_id : String) → Observation
  progress_reported : ℕ → (event_id : String) → ProgressReport → Observation
  screen_classified : ℕ → (event_id : String) → ScreenObservation → Observation

-- AgentStatusReducerState
pub record ReducerState : Type 0 where
  pub run_id : String
  pub generation : ℕ
  pub state : State
  pub phase : Phase
  pub outcome : Outcome
  pub confidence : Confidence
  pub attention : Attention
  pub observed_at : ℕ
  pub state_changed_at : ℕ
  pub last_activity_at : Option ℕ
  pub last_activity_kind : Option String
  pub semantic_lease_expires_at : Option ℕ
  pub transport_lease_expires_at : Option ℕ
  pub last_progress_summary : Option String
  pub progress_stage : Option String
  pub next_step : Option String
  pub blocker : Option String
  pub process_exit_code : Option ℕ
  pub process_signal : Option String
  pub clean_end_seen : Bool
  pub open_tools : List String
  pub open_waits : List Wait
  pub stale_probe_count : ℕ
  pub evidence : List Evidence
  pub recent_transitions : List Transition
  pub status_revision : ℕ
  pub completion_revision : ℕ
  pub interactive_ready : Bool
  pub stale_authority : Bool
  pub authority_kind : AuthorityKind
  pub authority_id : Option String
  pub process_state : ProcessState
  pub process_fingerprint : Option String
  pub reporter_epoch : Option String
  pub reporter_lease_expires_at : Option ℕ
  pub readiness_coverage : Option ReadinessCoverage
  pub last_screen_observation : Option ScreenObservation
