-- ===== src/Status/Enums.antt =====
-- The enumerations of packages/contracts/src/status.ts, with the equality that `===` tests.

-- AgentStatusStateSchema
pub data State : Type 0 where
  starting idle working waiting blocked suspected_stuck stopped failed unknown : State

unfoldable pub State-discrete : Discrete State
State-discrete = hlevel

-- AgentStatusPhaseSchema
pub data Phase : Type 0 where
  startup model tool retry compaction permission question plan_approval settled exited : Phase

unfoldable pub Phase-discrete : Discrete Phase
Phase-discrete = hlevel

-- AgentStatusOutcomeSchema
pub data Outcome : Type 0 where
  unknown succeeded failed cancelled : Outcome

unfoldable pub Outcome-discrete : Discrete Outcome
Outcome-discrete = hlevel

-- AgentStatusConfidenceSchema
pub data Confidence : Type 0 where
  high medium low : Confidence

-- AgentStatusAttentionSchema
pub data Attention : Type 0 where
  none input_required decision_required reporter_stale progress_stale process_failed : Attention

unfoldable pub Attention-discrete : Discrete Attention
Attention-discrete = hlevel

-- AgentStatusEventKindSchema
pub data EventKind : Type 0 where
  reporter_ready session_ready turn_started turn_waiting turn_settled : EventKind
  tool_started tool_finished tool_failed wait_opened wait_closed : EventKind
  compaction_started compaction_finished retry_observed failure_observed : EventKind
  session_ended heartbeat : EventKind

-- AgentWaitKindSchema
pub data WaitKind : Type 0 where
  permission question elicitation plan_approval : WaitKind

-- AgentReplyChannelSchema
pub data ReplyChannel : Type 0 where
  terminal hook rpc acp api : ReplyChannel

-- ReporterReadinessCoverageSchema
pub data ReadinessCoverage : Type 0 where
  full partial session_only : ReadinessCoverage

-- StatusAuthorityKindSchema
pub data AuthorityKind : Type 0 where
  process reporter screen none : AuthorityKind

-- ProcessStateSchema
pub data ProcessState : Type 0 where
  present dead missing indeterminate : ProcessState

-- ScreenClassificationSchema
pub data ScreenClassification : Type 0 where
  blocked working_hint idle_hint unknown skip : ScreenClassification

-- `source` of AgentStatusEvidenceSchema
pub data EvidenceSource : Type 0 where
  scheduler process reporter screen status_api : EvidenceSource

-- `expectedProviderMatch` of RuntimeObservationSchema
pub data ProviderMatch : Type 0 where
  match mismatch unknown : ProviderMatch
