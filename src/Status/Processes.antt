-- ===== src/Status/Processes.antt =====
-- The branches of `reduceAgentStatus` (apps/daemon/src/agent-status-reducer.ts) for what is observed
-- of the process of a run.
use nanasa.Prelude.{
  ℕ, ◌+◌, ltb, String, Bool, true, false, not, ◌&&◌, ◌||◌, Option, none, some, [], if◌then◌else◌,
  is_empty, none_or, some_and,
}
use nanasa.Status.Enums.{
  State, Phase, Outcome, Confidence, Attention, AuthorityKind, ProcessState, EvidenceSource,
  ProviderMatch,
}
use nanasa.Status.Types.{Summary, Evidence, ProcessIdentity, ReducerState}
use nanasa.Status.Steps.{transport_lease_ms, with_evidence}

abbrev pub process_evidence : String → ℕ → Confidence → Option Summary → Evidence
process_evidence kind observed_at confidence summary = record {
  source = EvidenceSource.process;
  kind = kind;
  observed_at = observed_at;
  confidence = confidence;
  summary = summary;
}

-- The provider's process is seen, and nothing better is known of the run.
unfoldable pub process_fallback : Option ProcessIdentity → Bool → ReducerState → Bool
process_fallback process invalid current =
    some_and process
      (λ p. elim p.expected_provider_match [ ProviderMatch.match ↦ true | _ ↦ false ])
    && (not invalid
        && (is_empty current.open_waits
            && elim current.state [ State.starting ↦ true | State.unknown ↦ true | _ ↦ false ]))

-- The fields that a lost reporter takes with it.
unfoldable pub invalidate_reporter : ReducerState → ReducerState
invalidate_reporter next = record next {
  state = State.unknown;
  phase = Phase.startup;
  outcome = Outcome.unknown;
  confidence = Confidence.low;
  attention = Attention.reporter_stale;
  authority_kind = AuthorityKind.none;
  authority_id = none;
  stale_authority = true;
  interactive_ready = false;
  reporter_epoch = none;
  reporter_lease_expires_at = none;
  readiness_coverage = none;
  semantic_lease_expires_at = none;
  last_activity_at = none;
  last_activity_kind = none;
  last_progress_summary = none;
  progress_stage = none;
  next_step = none;
  blocker = none;
  clean_end_seen = false;
  open_tools = [];
  open_waits = [];
  stale_probe_count = 0;
}

abbrev pub idle_by_process : String → ReducerState → ReducerState
idle_by_process event_id next = record next {
  state = State.idle;
  phase = Phase.settled;
  confidence = Confidence.low;
  attention = Attention.none;
  authority_kind = AuthorityKind.process;
  authority_id = some event_id;
  stale_authority = false;
  interactive_ready = true;
}

abbrev pub fingerprint_of : Option ProcessIdentity → Option String
fingerprint_of none = none
fingerprint_of (some p) = some p.process_fingerprint

unfoldable pub process_alive :
    ℕ → String → Option ProcessIdentity → Option Bool → ReducerState → ReducerState
process_alive observed_at event_id process authority_invalid current =
    let invalid = some_and authority_invalid (λ b. b) in
    let seen = record current {
      observed_at = observed_at;
      process_state = ProcessState.present;
      process_fingerprint = fingerprint_of process;
      transport_lease_expires_at = some (observed_at + transport_lease_ms);
    } in
    let fallen =
      if process_fallback process invalid current then idle_by_process event_id seen else seen in
    let next = if invalid then invalidate_reporter fallen else fallen in
    with_evidence next (process_evidence "process.alive" observed_at Confidence.high none)

unfoldable pub process_indeterminate : ℕ → ReducerState → ReducerState
process_indeterminate observed_at current =
    let next = record current {
      observed_at = observed_at;
      process_state = ProcessState.indeterminate;
      interactive_ready = false;
    } in
    with_evidence
      (if none_or current.reporter_lease_expires_at (λ t. ltb t observed_at)
        then record next {
          state = State.unknown;
          authority_kind = AuthorityKind.none;
          stale_authority = true;
          attention = Attention.reporter_stale;
        }
        else next)
      (process_evidence "process.indeterminate" observed_at Confidence.low none)

abbrev pub exit_summary : Option String → Option ℕ → Option Summary
exit_summary (some signal) code = some (Summary.text signal)
exit_summary none none = none
exit_summary none (some code) = some (Summary.exit code)

unfoldable pub process_exited :
    ℕ → String → Option ℕ → Option String → Option Bool → ReducerState → ReducerState
process_exited observed_at event_id exit_code signal operator_stopped current =
    let by_operator = some_and operator_stopped (λ b. b) in
    let stopped = by_operator || current.clean_end_seen in
    with_evidence
      (record current {
        observed_at = observed_at;
        state = if stopped then State.stopped else State.failed;
        phase = Phase.exited;
        outcome =
            if by_operator
            then Outcome.cancelled
            else if stopped
            then current.outcome
            else Outcome.failed;
        confidence = Confidence.high;
        authority_kind = AuthorityKind.process;
        authority_id = some event_id;
        process_state = ProcessState.dead;
        interactive_ready = false;
        stale_authority = false;
        attention = if stopped then Attention.none else Attention.process_failed;
        process_exit_code = exit_code;
        process_signal = signal;
        open_tools = [];
        open_waits = [];
        stale_probe_count = 0;
      })
      (process_evidence "process.exited" observed_at Confidence.high
        (exit_summary signal exit_code))

unfoldable pub process_missing : ℕ → String → ReducerState → ReducerState
process_missing observed_at event_id current =
    with_evidence
      (record current {
        observed_at = observed_at;
        state = State.failed;
        phase = Phase.exited;
        outcome = Outcome.failed;
        confidence = Confidence.medium;
        authority_kind = AuthorityKind.process;
        authority_id = some event_id;
        process_state = ProcessState.missing;
        interactive_ready = false;
        stale_authority = false;
        attention = Attention.process_failed;
        open_tools = [];
        open_waits = [];
        stale_probe_count = 0;
      })
      (process_evidence "process.missing" observed_at Confidence.medium none)
