-- ===== src/Status/Reducer.antt =====
-- `reduceAgentStatus` of apps/daemon/src/agent-status-reducer.ts: a function for each other kind of
-- observation, and the reducer that chooses among them.
use nanasa.Prelude.{
  ℕ, ◌+◌, ltb, leb, String, Bool, true, false, not, ◌&&◌, ◌||◌, none, some, List, [], ◌∷◌,
  if◌then◌else◌, is_empty, is_none, none_or, some_and, or_else,
}
use nanasa.Status.Enums.{
  State, Phase, Confidence, Attention, AuthorityKind, EvidenceSource, ReadinessCoverage,
  ScreenClassification,
}
use nanasa.Status.Types.{Summary, ProgressReport, ScreenObservation, Observation, ReducerState}
use nanasa.Status.Steps.{semantic_lease_ms, transition, with_evidence, resume_after_wait}
use nanasa.Status.Reporter.{completes, reporter_event}
use nanasa.Status.Processes.{process_alive, process_indeterminate, process_exited, process_missing}

abbrev pub is_working : State → Bool
is_working State.working = true
is_working _ = false

unfoldable pub lease_probed : ℕ → ReducerState → ReducerState
lease_probed observed_at current =
    let next = record current { observed_at = observed_at } in
    let expired = some_and current.semantic_lease_expires_at (λ t. ltb t observed_at) in
    let count = current.stale_probe_count + 1 in
    let probed = record next { stale_probe_count = count } in
    if not (is_empty current.open_waits)
    then next
    else if is_working current.state && expired
    then (if leb 2 count
        then record probed {
          state = State.suspected_stuck;
          attention = Attention.progress_stale;
          confidence = Confidence.low;
        }
        else probed)
    else next

unfoldable pub progress_reported : ℕ → ProgressReport → ReducerState → ReducerState
progress_reported observed_at report current =
    let next =
      with_evidence
        (record current {
          observed_at = observed_at;
          state =
              if not (is_none report.blocker)
              then State.blocked
              else if is_none report.outcome
              then State.working
              else State.idle;
          phase = if is_none report.outcome then Phase.model else Phase.settled;
          outcome = or_else report.outcome current.outcome;
          confidence = Confidence.high;
          authority_kind = AuthorityKind.reporter;
          authority_id = some "status-api";
          stale_authority = false;
          attention = if is_none report.blocker then Attention.none else Attention.input_required;
          last_activity_at = some observed_at;
          last_activity_kind = some "progress.reported";
          semantic_lease_expires_at = some (observed_at + semantic_lease_ms);
          last_progress_summary = some report.summary;
          progress_stage = some report.stage;
          next_step = report.next_step;
          blocker = report.blocker;
          clean_end_seen = false;
          stale_probe_count = 0;
        })
        (record {
          source = EvidenceSource.status_api;
          kind = "progress.reported";
          observed_at = observed_at;
          confidence = Confidence.high;
          summary = some (Summary.text report.summary);
        }) in
    if is_empty current.open_waits then next else resume_after_wait next

abbrev pub screen_kind : ScreenClassification → String
screen_kind ScreenClassification.blocked = "screen.blocked"
screen_kind ScreenClassification.working_hint = "screen.working_hint"
screen_kind ScreenClassification.idle_hint = "screen.idle_hint"
screen_kind ScreenClassification.unknown = "screen.unknown"
screen_kind ScreenClassification.skip = "screen.skip"

-- A screen may block a run only where no reporter with full coverage speaks for it.
unfoldable pub can_block : ScreenObservation → ReducerState → Bool
can_block seen current =
    elim seen.classification [ ScreenClassification.blocked ↦ true | _ ↦ false ]
    && (seen.visible_blocker
        && (current.stale_authority
            || none_or current.readiness_coverage
                (λ c. elim c [ ReadinessCoverage.full ↦ false | _ ↦ true ])))

unfoldable pub screen_classified : ℕ → ScreenObservation → ReducerState → ReducerState
screen_classified observed_at seen current =
    let next = record current { observed_at = observed_at; last_screen_observation = some seen } in
    with_evidence
      (if can_block seen current
        then record next {
          state = State.blocked;
          authority_kind = AuthorityKind.screen;
          authority_id = seen.rule_id;
          confidence = Confidence.medium;
          attention = Attention.input_required;
          stale_authority = false;
        }
        else next)
      (record {
        source = EvidenceSource.screen;
        kind = screen_kind seen.classification;
        observed_at = observed_at;
        confidence = seen.confidence;
        summary = none;
      })

-- The `next` that a branch hands to `transition`.
unfoldable pub observe : ReducerState → Observation → ReducerState
observe current (Observation.reporter_event t input authority) =
    reporter_event t input authority current
observe current (Observation.process_alive t id process invalid) =
    process_alive t id process invalid current
observe current (Observation.process_missing t id) = process_missing t id current
observe current (Observation.process_indeterminate t id) = process_indeterminate t current
observe current (Observation.process_exited t id code signal stopped) =
    process_exited t id code signal stopped current
observe current (Observation.lease_probed t id) = lease_probed t current
observe current (Observation.progress_reported t id report) = progress_reported t report current
observe current (Observation.screen_classified t id seen) = screen_classified t seen current

-- Only the branch of the reporter's events passes a `completed` to `transition`.
unfoldable pub completed : Observation → ReducerState → ReducerState → Bool
completed (Observation.reporter_event t input authority) current next = completes input current next
completed _ current next = false

-- Every `return` of `reduceAgentStatus` is a `transition(current, next)`.
unfoldable pub reduce : ReducerState → Observation → ReducerState
reduce current o =
    let next = observe current o in transition current next (completed o current next)

-- The observations of a run, in the order in which the daemon feeds them to the reducer.
unfoldable pub replay : ReducerState → List Observation → ReducerState
replay current [] = current
replay current (o ∷ os) = replay (reduce current o) os
