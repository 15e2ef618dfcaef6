-- ===== src/Status/Stuck.antt =====
-- How the status reducer comes to suspect that a run is stuck, and which evidence it trusts.
use nanasa.Prelude.{
  ℕ, ◌≤◌, ◌<◌, String, false, ◌≡◌, ◌≢◌, refl, sym, ◌∙◌, some, [], arith, ◌⊎◌, inl, inr,
  Option-cases,
}
use nanasa.Status.Enums.{State, EventKind, ReadinessCoverage}
use nanasa.Status.Types.{
  EventInput, ReporterAuthority, Observation, ReducerState, ScreenObservation,
}
use nanasa.Status.Steps.{with_evidence, resume_after_wait}
use nanasa.Status.Reporter.{
  apply_event, admit_event, reporter_event, bypasses_wait, completes, settle_turn, start_tool,
  finish_tool, open_wait, close_wait, observe_failure,
}
use nanasa.Status.Reducer.{
  lease_probed, progress_reported, screen_classified, can_block, observe, completed, reduce,
}
use nanasa.Status.Processes.{
  process_alive, process_indeterminate, process_exited, process_missing, invalidate_reporter,
}
use nanasa.Status.Keeps.{
  transition-state, transition-authority_kind, transition-authority_id, transition_same,
  transition-semantic_lease_expires_at, transition-stale_probe_count,
}

-- A probe at `t` finds the run working, with no open wait, past its semantic lease, and not for
-- the first time.
pub record IsStale (s : ReducerState) (o : Observation) : Type 0 where
  pub at : ℕ
  pub id : String
  pub probed : o ≡ Observation.lease_probed at id
  pub working : s.state ≡ State.working
  pub no_waits : s.open_waits ≡ []
  pub expiry : ℕ
  pub lease : s.semantic_lease_expires_at ≡ some expiry
  pub expired : expiry < at
  pub again : 1 ≤ s.stale_probe_count

apply_event_unstuck :
    (e : EventKind) (t : ℕ) (input : EventInput) (n : ReducerState)
    → n.state ≢ State.suspected_stuck
    → (apply_event e t input n).state ≢ State.suspected_stuck
unfolding apply_event start_tool finish_tool open_wait close_wait observe_failure settle_turn
    resume_after_wait
apply_event_unstuck e t input n h q = ground arith

admit_event-state :
    (t : ℕ) (input : EventInput) (a : ReporterAuthority) (s : ReducerState)
    → (admit_event t input a s).state ≡ s.state
unfolding admit_event with_evidence
admit_event-state t input a s = ground arith

reporter_event_unstuck :
    (t : ℕ) (input : EventInput) (a : ReporterAuthority) (s : ReducerState)
    → s.state ≢ State.suspected_stuck
    → (reporter_event t input a s).state ≢ State.suspected_stuck
unfolding reporter_event resume_after_wait
reporter_event_unstuck t input a s h q = ground (
  arith,
  admit_event-state t input a s,
  apply_event_unstuck input.event t input (admit_event t input a s),
)

lease_probed-IsStale :
    (t : ℕ) (id : String) (s : ReducerState)
    → s.state ≢ State.suspected_stuck
    → (lease_probed t s).state ≡ State.suspected_stuck
    → IsStale s (Observation.lease_probed t id)
unfolding lease_probed
lease_probed-IsStale t id s h q = elim (Option-cases s.semantic_lease_expires_at) [
  | inl e ↦ absurd (ground arith)
  | inr (x, e) ↦ record {
    at = t;
    id = id;
    probed = refl;
    working = ground arith;
    no_waits = ground arith;
    expiry = x;
    lease = e;
    expired = ground arith;
    again = ground arith;
  }
]

observe_stuck :
    (s : ReducerState) (o : Observation)
    → s.state ≢ State.suspected_stuck
    → (observe s o).state ≡ State.suspected_stuck
    → IsStale s o
unfolding observe process_alive process_indeterminate process_exited process_missing
    progress_reported screen_classified invalidate_reporter with_evidence resume_after_wait
observe_stuck s (Observation.reporter_event t input a) h q =
    absurd (reporter_event_unstuck t input a s h q)
observe_stuck s (Observation.lease_probed t id) h q = lease_probed-IsStale t id s h q
observe_stuck s (Observation.process_alive t id p invalid) h q = absurd (ground arith)
observe_stuck s (Observation.process_missing t id) h q = absurd (ground arith)
observe_stuck s (Observation.process_indeterminate t id) h q = absurd (ground arith)
observe_stuck s (Observation.process_exited t id c g st) h q = absurd (ground arith)
observe_stuck s (Observation.progress_reported t id report) h q = absurd (ground arith)
observe_stuck s (Observation.screen_classified t id seen) h q = absurd (ground arith)

-- A run that was not suspected of being stuck is suspected only by a probe of a working run with
-- no open wait, whose semantic lease is over, and that an earlier probe found stale already.
pub reduce_stuck :
    (s : ReducerState) (o : Observation)
    → s.state ≢ State.suspected_stuck
    → (reduce s o).state ≡ State.suspected_stuck
    → IsStale s o
unfolding reduce
reduce_stuck s o h q =
    let n = observe s o in observe_stuck s o h (sym (transition-state s n (completed o s n)) ∙ q)

-- While a reporter of full coverage speaks for the run, a screen changes neither its state nor
-- who has the authority over it, and leaves no transition.
pub screen_defers :
    (s : ReducerState) (t : ℕ) (id : String) (seen : ScreenObservation)
    → s.stale_authority ≡ false
    → s.readiness_coverage ≡ some ReadinessCoverage.full
    → let r = reduce s (Observation.screen_classified t id seen) in
      (r.state ≡ s.state)
      × (r.authority_kind ≡ s.authority_kind)
      × (r.authority_id ≡ s.authority_id)
      × (r.recent_transitions ≡ s.recent_transitions)
unfolding reduce observe completed screen_classified can_block with_evidence
screen_defers s t id seen fresh full =
    let n = observe s (Observation.screen_classified t id seen) in
    (
      ground (arith, transition-state s n false),
      ground (arith, transition-authority_kind s n false),
      ground (arith, transition-authority_id s n false),
      ground (arith, transition_same s n false),
    )

-- A heartbeat is no sign of progress: it renews neither the semantic lease nor the count of stale
-- probes, and moves a run only back to `blocked`, where it waits for an answer.
pub heartbeat_defers :
    (s : ReducerState) (t : ℕ) (input : EventInput) (a : ReporterAuthority)
    → input.event ≡ EventKind.heartbeat
    → let r = reduce s (Observation.reporter_event t input a) in
      (r.semantic_lease_expires_at ≡ s.semantic_lease_expires_at)
      × (r.stale_probe_count ≡ s.stale_probe_count)
      × ((r.state ≡ s.state) ⊎ ((r.state ≡ State.blocked) × (s.open_waits ≢ [])))
unfolding reduce observe completed reporter_event admit_event with_evidence apply_event
    resume_after_wait bypasses_wait
heartbeat_defers s t input a e =
    let n = observe s (Observation.reporter_event t input a) in
    let c = completes input s n in
    (
      ground (arith, transition-semantic_lease_expires_at s n c),
      ground (arith, transition-stale_probe_count s n c),
      ground (arith, transition-state s n c),
    )
