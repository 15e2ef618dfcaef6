-- ===== src/Status/History.antt =====
-- The two histories of the status reducer, its evidence and its transitions.
use nanasa.Prelude.{
  ℕ, ◌+◌, ◌≤◌, String, Bool, true, ◌≡◌, refl, sym, ◌∙◌, List, [], ◌∷◌, ◌++◌, arith, drop, length,
  length-slice_last, if◌then◌else◌, Bool-cases, inl, inr, same_sound, ◌-◌, zero, suc,
}
use nanasa.Status.Enums.{State, EventKind, State-discrete}
use nanasa.Status.Types.{
  Evidence, Transition, EventInput, ReporterAuthority, Observation, ReducerState,
}
use nanasa.Status.Steps.{
  max_history, append_limited, entry, same_status, transition, with_evidence, resume_after_wait,
  create_state,
}
use nanasa.Status.Reporter.{
  apply_event, admit_event, reporter_event, observe_failure, close_wait, start_tool, finish_tool,
  open_wait, settle_turn,
}
use nanasa.Status.Reducer.{
  lease_probed, progress_reported, screen_classified, observe, completed, reduce, replay,
}
use nanasa.Status.Processes.{
  process_alive, process_indeterminate, process_exited, process_missing, invalidate_reporter,
}
use nanasa.Status.Keeps.{transition-evidence, replay_ind}

length-append_limited {ℓ} :
    {A : Type ℓ} (xs : List A) (x : A) → length (append_limited xs x) ≤ max_history
unfolding append_limited
length-append_limited xs x = length-slice_last max_history (xs ++ x ∷ [])

with_evidence-evidence :
    (s : ReducerState) (e : Evidence) → length (with_evidence s e).evidence ≤ max_history
unfolding with_evidence
with_evidence-evidence s e = length-append_limited s.evidence e

module _ (s : ReducerState) where
  resume_after_wait-recent_transitions :
      (resume_after_wait s).recent_transitions ≡ s.recent_transitions
  unfolding resume_after_wait
  resume_after_wait-recent_transitions = ground arith

  resume_after_wait-evidence : (resume_after_wait s).evidence ≡ s.evidence
  unfolding resume_after_wait
  resume_after_wait-evidence = ground arith

module _ (t : ℕ) (input : EventInput) (s : ReducerState) where
  apply_event-recent_transitions :
      (e : EventKind) → (apply_event e t input s).recent_transitions ≡ s.recent_transitions
  unfolding apply_event start_tool finish_tool open_wait close_wait observe_failure settle_turn
      resume_after_wait
  apply_event-recent_transitions e = ground arith

  apply_event-evidence : (e : EventKind) → (apply_event e t input s).evidence ≡ s.evidence
  unfolding apply_event start_tool finish_tool open_wait close_wait observe_failure settle_turn
      resume_after_wait
  apply_event-evidence e = ground arith

  admit_event-recent_transitions :
      (a : ReporterAuthority) → (admit_event t input a s).recent_transitions ≡ s.recent_transitions
  unfolding admit_event with_evidence
  admit_event-recent_transitions a = ground arith

  admit_event-evidence :
      (a : ReporterAuthority) → length (admit_event t input a s).evidence ≤ max_history
  unfolding admit_event
  admit_event-evidence a = grind (arith, with_evidence-evidence)

observe-recent_transitions :
    (s : ReducerState) (o : Observation) → (observe s o).recent_transitions ≡ s.recent_transitions
unfolding observe reporter_event process_alive process_indeterminate process_exited process_missing
    lease_probed progress_reported screen_classified invalidate_reporter with_evidence
    resume_after_wait
observe-recent_transitions s (Observation.reporter_event t input a) =
    let n = admit_event t input a s in
    ground (
      arith,
      admit_event-recent_transitions t input s a,
      apply_event-recent_transitions t input n input.event,
      resume_after_wait-recent_transitions (apply_event input.event t input n),
    )
observe-recent_transitions s _ = ground arith

observe-evidence :
    (s : ReducerState) (o : Observation)
    → length s.evidence ≤ max_history
    → length (observe s o).evidence ≤ max_history
unfolding observe reporter_event process_alive process_indeterminate process_exited process_missing
    lease_probed progress_reported screen_classified
observe-evidence s (Observation.reporter_event t input a) h =
    let n = admit_event t input a s in
    ground (
      arith,
      admit_event-evidence t input s a,
      apply_event-evidence t input n input.event,
      resume_after_wait-evidence (apply_event input.event t input n),
    )
observe-evidence s (Observation.process_alive t id p invalid) h =
    grind (arith, with_evidence-evidence)
observe-evidence s (Observation.process_missing t id) h = grind (arith, with_evidence-evidence)
observe-evidence s (Observation.process_indeterminate t id) h =
    grind (arith, with_evidence-evidence)
observe-evidence s (Observation.process_exited t id c g st) h =
    grind (arith, with_evidence-evidence)
observe-evidence s (Observation.lease_probed t id) h = ground arith
observe-evidence s (Observation.progress_reported t id report) h =
    grind (arith, with_evidence-evidence, resume_after_wait-evidence)
observe-evidence s (Observation.screen_classified t id seen) h =
    grind (arith, with_evidence-evidence)

-- Both histories stay within `MAX_HISTORY` entries.
pub record IsBounded (s : ReducerState) : Type 0 where
  pub evidence_bounded : length s.evidence ≤ max_history
  pub transitions_bounded : length s.recent_transitions ≤ max_history

transition-recent_transitions :
    (s n : ReducerState) (b : Bool)
    → length n.recent_transitions ≤ max_history
    → length (transition s n b).recent_transitions ≤ max_history
unfolding transition
transition-recent_transitions s n b h = grind (arith, length-append_limited)

reduce-IsBounded : (s : ReducerState) (o : Observation) → IsBounded s → IsBounded (reduce s o)
unfolding reduce
reduce-IsBounded s o h =
    let n = observe s o in
    let c = completed o s n in
    record {
      evidence_bounded = rw (transition-evidence s n c) (observe-evidence s o h.evidence_bounded);
      transitions_bounded =
          transition-recent_transitions s n c
            (rw (observe-recent_transitions s o) h.transitions_bounded);
    }

-- Whatever is observed of a run from its start: neither its evidence nor its transitions ever
-- exceed 20 entries.
pub replay-IsBounded :
    (run_id : String) (generation t : ℕ) (os : List Observation)
    → IsBounded (replay (create_state run_id generation t) os)
replay-IsBounded run_id generation t os =
    replay_ind IsBounded reduce-IsBounded (create_state run_id generation t) os
      (unfold create_state in omega arith)

-- Each entry leaves the state that the one before it reached, from `a` to `b`.
abbrev pub IsPath : State → List Transition → State → Type 0
IsPath a [] b = a ≡ b
IsPath a (x ∷ xs) b = (x.from ≡ a) × IsPath x.to xs b

-- The transitions that are kept lead, without a gap, to the state that the run is in.
abbrev pub IsConnected : ReducerState → Type 0
IsConnected s = (a : State) × IsPath a s.recent_transitions s.state

IsPath-append :
    (a b : State) (xs : List Transition) (x : Transition)
    → IsPath a xs b
    → x.from ≡ b
    → IsPath a (xs ++ x ∷ []) x.to
IsPath-append a b [] x h e = (e ∙ sym h, refl)
IsPath-append a b (y ∷ xs) x h e = (h.0, IsPath-append y.to b xs x h.1 e)

IsPath-drop :
    (n : ℕ) (a b : State) (xs : List Transition)
    → IsPath a xs b
    → (c : State) × IsPath c (drop n xs) b
IsPath-drop zero a b xs h = (a, h)
IsPath-drop (suc n) a b [] h = (a, h)
IsPath-drop (suc n) a b (x ∷ xs) h = IsPath-drop n x.to b xs h.1

append_limited-IsPath :
    (a b : State) (xs : List Transition) (x : Transition)
    → IsPath a xs b
    → x.from ≡ b
    → (c : State) × IsPath c (append_limited xs x) x.to
unfolding append_limited
append_limited-IsPath a b xs x h e =
    IsPath-drop (length (xs ++ x ∷ []) - max_history) a x.to (xs ++ x ∷ [])
      (IsPath-append a b xs x h e)

same_status-state : (a b : ReducerState) → same_status a b ≡ true → a.state ≡ b.state
unfolding same_status
same_status-state a b h = same_sound State-discrete a.state b.state (ground arith)

transition-IsConnected :
    (s n : ReducerState) (b : Bool)
    → IsConnected s
    → n.recent_transitions ≡ s.recent_transitions
    → IsConnected (transition s n b)
unfolding transition
transition-IsConnected s n b (a, h) e =
    let revised = record n {
      status_revision = s.status_revision + 1;
      completion_revision = s.completion_revision + (if b then 1 else 0);
    } in
    elim (Bool-cases (same_status s revised)) [
      | inl q ↦ rw q (a, rw (e, ← same_status-state s revised q) h)
      | inr q ↦
          rw (q, e)
            (append_limited-IsPath a s.state s.recent_transitions (entry s.state revised) h refl)
    ]

reduce-IsConnected : (s : ReducerState) (o : Observation) → IsConnected s → IsConnected (reduce s o)
unfolding reduce
reduce-IsConnected s o h =
    let n = observe s o in
    transition-IsConnected s n (completed o s n) h (observe-recent_transitions s o)

-- Whatever is observed of a run from its start: each kept transition starts in the state that
-- the one before it reached, and the last one reached the run's present state.
pub replay-IsConnected :
    (run_id : String) (generation t : ℕ) (os : List Observation)
    → IsConnected (replay (create_state run_id generation t) os)
replay-IsConnected run_id generation t os =
    replay_ind IsConnected reduce-IsConnected (create_state run_id generation t) os
      (unfold create_state in (State.starting, refl))
