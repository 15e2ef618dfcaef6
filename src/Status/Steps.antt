-- ===== src/Status/Steps.antt =====
-- The helpers of apps/daemon/src/agent-status-reducer.ts and the initial state.
use nanasa.Prelude.{
  ℕ, ◌+◌, String, Bool, true, false, ◌&&◌, none, List, [], ◌∷◌, ◌++◌, if◌then◌else◌, slice_last,
  same,
}
use nanasa.Status.Enums.{
  State, Phase, Outcome, Confidence, Attention, WaitKind, AuthorityKind, ProcessState,
  EvidenceSource, State-discrete, Phase-discrete, Outcome-discrete, Attention-discrete,
}
use nanasa.Status.Types.{Wait, Evidence, Transition, ReducerState}

abbrev pub semantic_lease_ms : ℕ
semantic_lease_ms = 45000

abbrev pub transport_lease_ms : ℕ
transport_lease_ms = 45000

abbrev pub max_history : ℕ
max_history = 20

unfoldable pub append_limited {ℓ} : {A : Type ℓ} → List A → A → List A
append_limited items item = slice_last max_history (items ++ item ∷ [])

unfoldable pub wait_phase : Wait → Phase
wait_phase wait = elim wait.kind [
  | WaitKind.elicitation ↦ Phase.question
  | WaitKind.permission ↦ Phase.permission
  | WaitKind.question ↦ Phase.question
  | WaitKind.plan_approval ↦ Phase.plan_approval
]

unfoldable pub wait_attention : Wait → Attention
wait_attention wait = elim wait.kind [
  | WaitKind.permission ↦ Attention.decision_required
  | WaitKind.plan_approval ↦ Attention.decision_required
  | _ ↦ Attention.input_required
]

-- The four fields whose change makes an entry of the history.
unfoldable pub same_status : ReducerState → ReducerState → Bool
same_status a b =
    same State-discrete a.state b.state
    && (same Phase-discrete a.phase b.phase
        && (same Attention-discrete a.attention b.attention
            && same Outcome-discrete a.outcome b.outcome))

-- The entry that `transition` appends.
abbrev pub entry : State → ReducerState → Transition
entry from revised = record {
  from = from;
  to = revised.state;
  phase = revised.phase;
  attention = revised.attention;
  occurred_at = revised.observed_at;
}

unfoldable pub transition : ReducerState → ReducerState → Bool → ReducerState
transition current next completion =
    let revised = record next {
      status_revision = current.status_revision + 1;
      completion_revision = current.completion_revision + (if completion then 1 else 0);
    } in
    if same_status current revised then revised else record revised {
      state_changed_at = revised.observed_at;
      recent_transitions = append_limited revised.recent_transitions (entry current.state revised);
    }

unfoldable pub with_evidence : ReducerState → Evidence → ReducerState
with_evidence current item = record current { evidence = append_limited current.evidence item }

abbrev blocked_by : ReducerState → Wait → ReducerState
blocked_by current wait = record current {
  state = State.blocked;
  phase = wait_phase wait;
  attention = wait_attention wait;
  confidence = Confidence.high;
}

abbrev working_again : ReducerState → ReducerState
working_again current = record current {
  state = State.working;
  phase = elim current.open_tools [ [] ↦ Phase.model | x ∷ xs ↦ Phase.tool ];
  attention = Attention.none;
  confidence = Confidence.high;
}

unfoldable pub resume_after_wait : ReducerState → ReducerState
resume_after_wait current = elim current.open_waits [
  | [] ↦ working_again current
  | wait ∷ waits ↦ blocked_by current wait
]

unfoldable pub create_state : String → ℕ → ℕ → ReducerState
create_state run_id generation observed_at = record {
  run_id = run_id;
  generation = generation;
  state = State.starting;
  phase = Phase.startup;
  outcome = Outcome.unknown;
  confidence = Confidence.low;
  attention = Attention.none;
  observed_at = observed_at;
  state_changed_at = observed_at;
  last_activity_at = none;
  last_activity_kind = none;
  semantic_lease_expires_at = none;
  transport_lease_expires_at = none;
  last_progress_summary = none;
  progress_stage = none;
  next_step = none;
  blocker = none;
  process_exit_code = none;
  process_signal = none;
  clean_end_seen = false;
  open_tools = [];
  open_waits = [];
  stale_probe_count = 0;
  evidence =
      record {
        source = EvidenceSource.scheduler;
        kind = "spawn.requested";
        observed_at = observed_at;
        confidence = Confidence.high;
        summary = none;
      }
      ∷ [];
  recent_transitions = [];
  status_revision = 0;
  completion_revision = 0;
  interactive_ready = false;
  stale_authority = true;
  authority_kind = AuthorityKind.none;
  authority_id = none;
  process_state = ProcessState.indeterminate;
  process_fingerprint = none;
  reporter_epoch = none;
  reporter_lease_expires_at = none;
  readiness_coverage = none;
  last_screen_observation = none;
}
