-- ===== src/Status/Completions.antt =====
-- The two revision counters of the status reducer.
use nanasa.Prelude.{ℕ, ◌+◌, true, ◌≡◌, sym, ◌∙◌, [], arith, ◌⊎◌, Bool-cases, inl, inr}
use nanasa.Status.Enums.{State, EventKind}
use nanasa.Status.Types.{EventInput, ReporterAuthority, Observation, ReducerState}
use nanasa.Status.Steps.{resume_after_wait}
use nanasa.Status.Reporter.{
  apply_event, admit_event, reporter_event, bypasses_wait, completes, settle_turn,
}
use nanasa.Status.Reducer.{observe, completed, reduce}
use nanasa.Status.Keeps.{
  transition-state, transition-open_waits, transition-open_tools, transition-status_revision,
  transition-completion_revision,
}

-- `o` is a reporter's `turn.settled`.
abbrev pub IsSettled : Observation → Type 0
IsSettled (Observation.reporter_event t input a) = input.event ≡ EventKind.turn_settled
IsSettled _ = ⊥

-- The observation `o` completes the work that the state `s` shows.
abbrev pub IsCompletion : ReducerState → Observation → Type 0
IsCompletion s o =
    IsSettled o
    × ((s.state ≡ State.working) ⊎ (s.state ≡ State.suspected_stuck))
    × ((reduce s o).state ≡ State.idle)

-- A run that `turn.settled` leaves idle has nothing open.
settle_turn-idle :
    (t : ℕ) (input : EventInput) (n : ReducerState)
    → (settle_turn t input n).state ≡ State.idle
    → ((settle_turn t input n).open_waits ≡ []) × ((settle_turn t input n).open_tools ≡ [])
unfolding settle_turn resume_after_wait
settle_turn-idle t input n h = ground arith

reporter_event-idle :
    (t : ℕ) (input : EventInput) (a : ReporterAuthority) (s : ReducerState)
    → input.event ≡ EventKind.turn_settled
    → (reporter_event t input a s).state ≡ State.idle
    → ((reporter_event t input a s).open_waits ≡ [])
      × ((reporter_event t input a s).open_tools ≡ [])
unfolding reporter_event bypasses_wait apply_event resume_after_wait
reporter_event-idle t input a s e h =
    ground (arith, settle_turn-idle t input (admit_event t input a s))

-- What `completed` finds out.
completed_sound :
    (s : ReducerState) (o : Observation)
    → completed o s (observe s o) ≡ true
    → IsSettled o
      × ((s.state ≡ State.working) ⊎ (s.state ≡ State.suspected_stuck))
      × ((observe s o).state ≡ State.idle)
      × ((observe s o).open_waits ≡ [])
      × ((observe s o).open_tools ≡ [])
unfolding completed completes observe
completed_sound s (Observation.reporter_event t input a) h =
    ground (arith, reporter_event-idle t input a s)
completed_sound s _ h = cc

completes_lem :
    (input : EventInput) (s n : ReducerState)
    → input.event ≡ EventKind.turn_settled
    → (s.state ≡ State.working) ⊎ (s.state ≡ State.suspected_stuck)
    → n.state ≡ State.idle
    → completes input s n ≡ true
unfolding completes
completes_lem input s n e busy idle = ground arith

completed_complete :
    (s : ReducerState) (o : Observation)
    → IsSettled o
    → (s.state ≡ State.working) ⊎ (s.state ≡ State.suspected_stuck)
    → (observe s o).state ≡ State.idle
    → completed o s (observe s o) ≡ true
unfolding completed
completed_complete s (Observation.reporter_event t input a) e busy idle =
    completes_lem input s (observe s (Observation.reporter_event t input a)) e busy idle
completed_complete s _ e busy idle = absurd e

-- An observation counts as a completion exactly when the reporter settles the turn of a run that is
-- working or suspected to be stuck and the run is idle after it; then the run has no open wait and
-- no open tool, and the count of completions grows by one. Otherwise the count stays. The status
-- revision grows by one in any case.
pub reduce_counts :
    (s : ReducerState) (o : Observation)
    → ((reduce s o).status_revision ≡ s.status_revision + 1)
      × (IsCompletion s o
          → ((reduce s o).completion_revision ≡ s.completion_revision + 1)
            × ((reduce s o).open_waits ≡ [])
            × ((reduce s o).open_tools ≡ []))
      × (¬ IsCompletion s o → (reduce s o).completion_revision ≡ s.completion_revision)
unfolding reduce
reduce_counts s o =
    let n = observe s o in
    let kept = transition-state s n (completed o s n) in
    (
      transition-status_revision s n (completed o s n),
      λ (settled, busy, idle).
          let q = completed_complete s o settled busy (sym kept ∙ idle) in
          let (_, _, _, waits, tools) = completed_sound s o q in
          (
            ground (arith, transition-completion_revision s n (completed o s n)),
            transition-open_waits s n (completed o s n) ∙ waits,
            transition-open_tools s n (completed o s n) ∙ tools,
          ),
      λ other. elim (Bool-cases (completed o s n)) [
        | inr q ↦ ground (arith, transition-completion_revision s n (completed o s n))
        | inl q ↦
            let (settled, busy, idle, _, _) = completed_sound s o q in
            absurd (other (settled, busy, kept ∙ idle))
      ],
    )
