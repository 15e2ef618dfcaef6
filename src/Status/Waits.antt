-- ===== src/Status/Waits.antt =====
-- Open waits of the status reducer: what state a run may be in while it waits for an answer.
use nanasa.Prelude.{ℕ, String, Bool, true, false, ◌≡◌, refl, List, [], arith, inl, ◌⊎◌}
use nanasa.Status.Enums.{State}
use nanasa.Status.Types.{EventInput, ReporterAuthority, Observation, ReducerState}
use nanasa.Status.Steps.{with_evidence, resume_after_wait, create_state}
use nanasa.Status.Reporter.{
  apply_event, admit_event, reporter_event, bypasses_wait, observe_failure, close_wait,
}
use nanasa.Status.Reducer.{
  lease_probed, progress_reported, screen_classified, observe, completed, reduce, replay,
}
use nanasa.Status.Processes.{
  process_alive, process_indeterminate, process_exited, process_missing, process_fallback,
  invalidate_reporter,
}
use nanasa.Status.Keeps.{transition-state, transition-open_waits, replay_ind}

-- The states of a run that has an open wait.
abbrev pub may_hold_wait : State → Bool
may_hold_wait State.blocked = true
may_hold_wait State.failed = true
may_hold_wait State.unknown = true
may_hold_wait _ = false

abbrev pub HoldsWaits : ReducerState → Type 0
HoldsWaits s = (s.open_waits ≡ []) ⊎ (may_hold_wait s.state ≡ true)

resume_after_wait-HoldsWaits : (s : ReducerState) → HoldsWaits (resume_after_wait s)
unfolding resume_after_wait
resume_after_wait-HoldsWaits s = ground arith

module _ (t : ℕ) (input : EventInput) (authority : ReporterAuthority) (s : ReducerState) where
  admit_event-state : (admit_event t input authority s).state ≡ s.state
  unfolding admit_event with_evidence
  admit_event-state = ground arith

  admit_event-open_waits : (admit_event t input authority s).open_waits ≡ s.open_waits
  unfolding admit_event with_evidence
  admit_event-open_waits = ground arith

-- An event after which the code does not resume the wait keeps the property by itself.
apply_event-HoldsWaits :
    (t : ℕ) (input : EventInput) (n : ReducerState)
    → bypasses_wait input ≡ true
    → HoldsWaits n
    → HoldsWaits (apply_event input.event t input n)
unfolding apply_event bypasses_wait observe_failure close_wait resume_after_wait
apply_event-HoldsWaits t input n bypass held = ground arith

reporter_event-HoldsWaits :
    (t : ℕ) (input : EventInput) (authority : ReporterAuthority) (s : ReducerState)
    → HoldsWaits s
    → HoldsWaits (reporter_event t input authority s)
unfolding reporter_event
reporter_event-HoldsWaits t input authority s held = ground (
  arith,
  admit_event-state t input authority s,
  admit_event-open_waits t input authority s,
  apply_event-HoldsWaits t input (admit_event t input authority s),
  resume_after_wait-HoldsWaits (apply_event input.event t input (admit_event t input authority s)),
)

observe-HoldsWaits : (s : ReducerState) (o : Observation) → HoldsWaits s → HoldsWaits (observe s o)
unfolding observe process_alive process_indeterminate process_exited process_missing lease_probed
    progress_reported screen_classified process_fallback invalidate_reporter with_evidence
    resume_after_wait
observe-HoldsWaits s (Observation.reporter_event t input authority) held =
    reporter_event-HoldsWaits t input authority s held
observe-HoldsWaits s (Observation.process_alive t id p invalid) held = ground arith
observe-HoldsWaits s (Observation.process_missing t id) held = ground arith
observe-HoldsWaits s (Observation.process_indeterminate t id) held = ground arith
observe-HoldsWaits s (Observation.process_exited t id code signal stopped) held = ground arith
observe-HoldsWaits s (Observation.lease_probed t id) held = ground arith
observe-HoldsWaits s (Observation.progress_reported t id report) held = ground arith
observe-HoldsWaits s (Observation.screen_classified t id seen) held = ground arith

reduce-HoldsWaits : (s : ReducerState) (o : Observation) → HoldsWaits s → HoldsWaits (reduce s o)
unfolding reduce
reduce-HoldsWaits s o held =
    let n = observe s o in
    let c = completed o s n in
    ground (arith, transition-state s n c, transition-open_waits s n c, observe-HoldsWaits s o held)

-- Whatever is observed of a run from its start, in whatever order: while the run has an open
-- wait, its state is `blocked`, `failed` or `unknown`.
pub replay-HoldsWaits :
    (run_id : String) (generation t : ℕ) (os : List Observation)
    → HoldsWaits (replay (create_state run_id generation t) os)
replay-HoldsWaits run_id generation t os =
    replay_ind HoldsWaits reduce-HoldsWaits (create_state run_id generation t) os
      (unfold create_state in inl refl)
