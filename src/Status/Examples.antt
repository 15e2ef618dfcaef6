-- ===== src/Status/Examples.antt =====
-- A run that asks for a permission, works on and settles, and runs that misbehave.
use nanasa.Prelude.{ℕ, ◌+◌, true, false, ◌≡◌, refl, none, some, List, [], ◌∷◌, length}
use nanasa.Status.Enums.{
  State, EventKind, WaitKind, ReplyChannel, ReadinessCoverage, ScreenClassification, Confidence,
  ProviderMatch, State-discrete, Phase-discrete, Attention-discrete, Outcome-discrete,
}
use nanasa.Status.Types.{
  EventInput, EventData, ReporterAuthority, Observation, ReducerState, ScreenObservation,
  ProcessIdentity,
}
use nanasa.Status.Steps.{
  append_limited, wait_phase, wait_attention, same_status, transition, with_evidence,
  resume_after_wait, create_state,
}
use nanasa.Status.Reporter.{
  admit_event, apply_event, bypasses_wait, completes, reporter_event, start_tool, finish_tool,
  open_wait, close_wait, observe_failure, settle_turn,
}
use nanasa.Status.Reducer.{
  lease_probed, progress_reported, can_block, screen_classified, observe, completed, reduce, replay,
}
use nanasa.Status.Processes.{
  process_fallback, invalidate_reporter, process_alive, process_indeterminate, process_exited,
  process_missing,
}
use nanasa.Status.Waits.{HoldsWaits, replay-HoldsWaits}
use nanasa.Status.Ready.{ReadyOnlyIfPresent, replay-ReadyOnlyIfPresent}
use nanasa.Status.History.{IsBounded, replay-IsBounded, IsConnected, replay-IsConnected}
use nanasa.Status.Completions.{IsCompletion, reduce_counts}
use nanasa.Status.Stuck.{IsStale, reduce_stuck, screen_defers}
use nanasa.Status.Distinct.{HasDistinct, replay-HasDistinct}

-- All that the reducer runs.
pub program : Unit {0}
unfolding append_limited wait_phase wait_attention same_status transition with_evidence
    resume_after_wait create_state admit_event apply_event bypasses_wait completes reporter_event
    start_tool finish_tool open_wait close_wait observe_failure settle_turn process_fallback
    invalidate_reporter process_alive process_indeterminate process_exited process_missing
    lease_probed progress_reported can_block screen_classified observe completed reduce replay
    State-discrete Phase-discrete Attention-discrete Outcome-discrete
program = tt

abbrev pub no_data : EventData
no_data = record {
  wait_kind = none;
  summary = none;
  reply_channel = none;
  retry_at = none;
  active_count = none;
  fatal = none;
}

abbrev pub event : EventKind → EventInput
event kind = record {
  event = kind;
  operation_id = some "tool";
  request_id = some "ask";
  details = no_data;
}

abbrev pub asks : EventInput
asks = record {
  event = EventKind.wait_opened;
  operation_id = none;
  request_id = some "ask";
  details = record no_data {
    wait_kind = some WaitKind.permission;
    summary = some "may I?";
    reply_channel = some ReplyChannel.terminal;
  };
}

abbrev pub authority : ReporterAuthority
authority = record {
  session_id = "session";
  reporter_epoch = "epoch";
  readiness_coverage = ReadinessCoverage.full;
  lease_expires_at = 50000;
}

abbrev pub says : ℕ → EventInput → Observation
says t input = Observation.reporter_event t input authority

abbrev pub process : ProcessIdentity
process = record { process_fingerprint = "print"; expected_provider_match = ProviderMatch.match }

abbrev pub working_run : List Observation
working_run =
    Observation.process_alive 10 "e1" (some process) none
    ∷ says 20 (event EventKind.session_ready)
    ∷ says 30 (event EventKind.turn_started)
    ∷ says 40 (event EventKind.tool_started)
    ∷ says 45 (event EventKind.tool_started)
    ∷ says 50 asks
    ∷ says 60 (event EventKind.wait_closed)
    ∷ says 70 (event EventKind.tool_finished)
    ∷ []

abbrev pub start : ReducerState
start = create_state "run" 1 0

working_run_works :
    let s = replay start working_run in
    (s.state ≡ State.working)
    × (s.open_tools ≡ [])
    × (s.open_waits ≡ [])
    × (s.interactive_ready ≡ true)
    × (length s.recent_transitions ≡ 6)
unfolding program
working_run_works = (refl, refl, refl, refl, refl)

abbrev pub waiting_run : List Observation
waiting_run =
    Observation.process_alive 10 "e1" (some process) none
    ∷ says 30 (event EventKind.turn_started)
    ∷ says 50 asks
    ∷ says 60 (event EventKind.turn_settled)
    ∷ []

waiting_run_waits :
    let s = replay start waiting_run in (s.state ≡ State.blocked) × (length s.open_waits ≡ 1)
unfolding program
waiting_run_waits = (refl, refl)

replay-HoldsWaits_example : HoldsWaits (replay (create_state "run" 1 0) waiting_run)
replay-HoldsWaits_example = replay-HoldsWaits "run" 1 0 waiting_run

replay-ReadyOnlyIfPresent_example : ReadyOnlyIfPresent (replay (create_state "run" 1 0) working_run)
replay-ReadyOnlyIfPresent_example = replay-ReadyOnlyIfPresent "run" 1 0 working_run

replay-IsBounded_example : IsBounded (replay (create_state "run" 1 0) working_run)
replay-IsBounded_example = replay-IsBounded "run" 1 0 working_run

replay-IsConnected_example : IsConnected (replay (create_state "run" 1 0) working_run)
replay-IsConnected_example = replay-IsConnected "run" 1 0 working_run

replay-HasDistinct_example : HasDistinct (replay (create_state "run" 1 0) waiting_run)
replay-HasDistinct_example = replay-HasDistinct "run" 1 0 waiting_run

abbrev busy : ReducerState
busy = record start { state = State.working; semantic_lease_expires_at = some 100 }

settles_once : (reduce busy (says 90 (event EventKind.turn_settled))).completion_revision ≡ 1
unfolding program
settles_once = refl

reduce_counts_example :
    let o = says 60 (event EventKind.turn_settled) in
    ((reduce busy o).status_revision ≡ busy.status_revision + 1)
    × (IsCompletion busy o
        → ((reduce busy o).completion_revision ≡ busy.completion_revision + 1)
          × ((reduce busy o).open_waits ≡ [])
          × ((reduce busy o).open_tools ≡ []))
    × (¬ IsCompletion busy o → (reduce busy o).completion_revision ≡ busy.completion_revision)
reduce_counts_example = reduce_counts busy (says 60 (event EventKind.turn_settled))

abbrev probed_once : ReducerState
probed_once = record busy { stale_probe_count = 1 }

reduce_stuck_example : IsStale probed_once (Observation.lease_probed 101 "p")
unfolding program
reduce_stuck_example = reduce_stuck probed_once (Observation.lease_probed 101 "p") (λ e. cc) refl

abbrev seen : ScreenObservation
seen = record {
  capture_hash = "hash";
  rule_id = some "rule";
  classification = ScreenClassification.blocked;
  confidence = Confidence.medium;
  visible_blocker = true;
}

abbrev reported : ReducerState
reported = record busy { stale_authority = false; readiness_coverage = some ReadinessCoverage.full }

screen_defers_example :
    let r = reduce reported (Observation.screen_classified 80 "s" seen) in
    (r.state ≡ State.working)
    × (r.authority_kind ≡ reported.authority_kind)
    × (r.authority_id ≡ reported.authority_id)
    × (r.recent_transitions ≡ reported.recent_transitions)
screen_defers_example = screen_defers reported 80 "s" seen refl refl
