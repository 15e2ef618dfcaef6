-- ===== src/Status/Ready.antt =====
-- When the status reducer calls a run ready for input.
use nanasa.Prelude.{ℕ, String, false, ◌≡◌, refl, List, arith, inl, ◌⊎◌}
use nanasa.Status.Enums.{ProcessState, EventKind}
use nanasa.Status.Types.{EventInput, ReporterAuthority, Observation, ReducerState}
use nanasa.Status.Steps.{with_evidence, resume_after_wait, create_state}
use nanasa.Status.Reporter.{
  apply_event, admit_event, reporter_event, observe_failure, close_wait, start_tool, finish_tool,
  open_wait, settle_turn,
}
use nanasa.Status.Reducer.{
  lease_probed, progress_reported, screen_classified, observe, completed, reduce, replay,
}
use nanasa.Status.Processes.{
  process_alive, process_indeterminate, process_exited, process_missing, process_fallback,
  invalidate_reporter,
}
use nanasa.Status.Keeps.{transition-interactive_ready, transition-process_state, replay_ind}

-- The process must be seen before a run may be called ready for input.
abbrev pub ReadyOnlyIfPresent : ReducerState → Type 0
ReadyOnlyIfPresent s = (s.interactive_ready ≡ false) ⊎ (s.process_state ≡ ProcessState.present)

resume_after_wait-interactive_ready :
    (s : ReducerState) → (resume_after_wait s).interactive_ready ≡ s.interactive_ready
unfolding resume_after_wait
resume_after_wait-interactive_ready s = ground arith

resume_after_wait-process_state :
    (s : ReducerState) → (resume_after_wait s).process_state ≡ s.process_state
unfolding resume_after_wait
resume_after_wait-process_state s = ground arith

apply_event-ReadyOnlyIfPresent :
    (e : EventKind) (t : ℕ) (input : EventInput) (n : ReducerState)
    → ReadyOnlyIfPresent n
    → ReadyOnlyIfPresent (apply_event e t input n)
unfolding apply_event start_tool finish_tool open_wait close_wait observe_failure settle_turn
    resume_after_wait
apply_event-ReadyOnlyIfPresent e t input n k = ground arith

module _ (t : ℕ) (input : EventInput) (authority : ReporterAuthority) (s : ReducerState) where
  admit_event-interactive_ready :
      (admit_event t input authority s).interactive_ready ≡ s.interactive_ready
  unfolding admit_event with_evidence
  admit_event-interactive_ready = ground arith

  admit_event-process_state : (admit_event t input authority s).process_state ≡ s.process_state
  unfolding admit_event with_evidence
  admit_event-process_state = ground arith

  reporter_event-ReadyOnlyIfPresent :
      ReadyOnlyIfPresent s → ReadyOnlyIfPresent (reporter_event t input authority s)
  unfolding reporter_event
  reporter_event-ReadyOnlyIfPresent k =
      let a = admit_event t input authority s in
      let e = apply_event input.event t input a in
      ground (
        arith,
        admit_event-interactive_ready,
        admit_event-process_state,
        apply_event-ReadyOnlyIfPresent input.event t input a,
        resume_after_wait-interactive_ready e,
        resume_after_wait-process_state e,
      )

observe-ReadyOnlyIfPresent :
    (s : ReducerState) (o : Observation) → ReadyOnlyIfPresent s → ReadyOnlyIfPresent (observe s o)
unfolding observe process_alive process_indeterminate process_exited process_missing lease_probed
    progress_reported screen_classified process_fallback invalidate_reporter with_evidence
    resume_after_wait
observe-ReadyOnlyIfPresent s (Observation.reporter_event t input authority) k =
    reporter_event-ReadyOnlyIfPresent t input authority s k
observe-ReadyOnlyIfPresent s _ k = ground arith

reduce-ReadyOnlyIfPresent :
    (s : ReducerState) (o : Observation) → ReadyOnlyIfPresent s → ReadyOnlyIfPresent (reduce s o)
unfolding reduce
reduce-ReadyOnlyIfPresent s o k =
    let n = observe s o in
    let c = completed o s n in
    ground (
      arith,
      transition-interactive_ready s n c,
      transition-process_state s n c,
      observe-ReadyOnlyIfPresent s o k,
    )

-- Whatever is observed of a run from its start: it is called ready for input only while its
-- process is present.
pub replay-ReadyOnlyIfPresent :
    (run_id : String) (generation t : ℕ) (os : List Observation)
    → ReadyOnlyIfPresent (replay (create_state run_id generation t) os)
replay-ReadyOnlyIfPresent run_id generation t os =
    replay_ind ReadyOnlyIfPresent reduce-ReadyOnlyIfPresent (create_state run_id generation t) os
      (unfold create_state in inl refl)
