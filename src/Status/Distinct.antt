-- ===== src/Status/Distinct.antt =====
-- The tools and the waits that the status reducer keeps open are sets.
use nanasa.Prelude.{
  ℕ, String, eq_iff, Bool, false, not, ◌≡◌, refl, Option, none, some, List, [], ◌∷◌, ◌++◌, arith,
  contains, names, IsDistinct, IsDistinct-append_one, to_set, IsDistinct-to_set, ◌&&◌, ◌⊎◌,
  IsDistinct-keep, IsDistinct-names-keep, names-append, Bool-cases, inl, inr, is_empty, some_and,
}
use nanasa.Status.Enums.{EventKind, WaitKind, ReplyChannel}
use nanasa.Status.Types.{
  EventInput, ReporterAuthority, Observation, ReducerState, Wait, ProcessIdentity,
}
use nanasa.Status.Steps.{with_evidence, resume_after_wait, create_state}
use nanasa.Status.Reporter.{
  apply_event, admit_event, reporter_event, bypasses_wait, settle_turn, start_tool, finish_tool,
  open_wait, close_wait, observe_failure, without_wait, has_wait, open_wait_from, wait_of,
}
use nanasa.Status.Reducer.{
  lease_probed, progress_reported, screen_classified, observe, completed, reduce, replay,
}
use nanasa.Status.Processes.{
  process_alive, process_indeterminate, process_exited, process_missing, invalidate_reporter,
}
use nanasa.Status.Keeps.{transition-open_waits, transition-open_tools, replay_ind}

abbrev pub wait_ids : List Wait → List String
wait_ids = names (λ (w : Wait). w.request_id)

-- No tool is open twice, and no request is waited for twice.
pub record HasDistinct (s : ReducerState) : Type 0 where
  pub tools : IsDistinct s.open_tools
  pub waits : IsDistinct (wait_ids s.open_waits)

not-contains-without_wait :
    (id : String) (ws : List Wait) → contains id (wait_ids (without_wait (some id) ws)) ≡ false
not-contains-without_wait id [] = refl
not-contains-without_wait id (w ∷ ws) =
    ground (arith, not-contains-without_wait id ws, eq_iff id w.request_id, eq_iff w.request_id id)

IsDistinct-reopen :
    (w : Wait) (ws : List Wait)
    → IsDistinct (wait_ids ws)
    → IsDistinct (wait_ids (without_wait (some w.request_id) ws ++ w ∷ []))
IsDistinct-reopen w ws h = rw names-append (
    IsDistinct-append_one _ w.request_id (IsDistinct-names-keep _ _ ws h)
      (not-contains-without_wait w.request_id ws))

HasDistinct-same :
    (s n : ReducerState)
    → n.open_tools ≡ s.open_tools
    → n.open_waits ≡ s.open_waits
    → HasDistinct s
    → HasDistinct n
HasDistinct-same s n p q h = record { tools = rw p h.tools; waits = rw q h.waits }

resume_after_wait-HasDistinct :
    (n : ReducerState) → HasDistinct n → HasDistinct (resume_after_wait n)
unfolding resume_after_wait
resume_after_wait-HasDistinct n h =
    HasDistinct-same n (resume_after_wait n) (ground arith) (ground arith) h

admit_event-HasDistinct :
    (t : ℕ) (input : EventInput) (a : ReporterAuthority) (s : ReducerState)
    → HasDistinct s
    → HasDistinct (admit_event t input a s)
unfolding admit_event with_evidence
admit_event-HasDistinct t input a s h =
    HasDistinct-same s (admit_event t input a s) (ground arith) (ground arith) h

finish_tool-HasDistinct :
    (t : ℕ) (input : EventInput) (n : ReducerState)
    → HasDistinct n
    → HasDistinct (finish_tool t input n)
unfolding finish_tool
finish_tool-HasDistinct t input n h = resume_after_wait-HasDistinct _ (record {
  tools = IsDistinct-keep _ n.open_tools h.tools;
  waits = IsDistinct-names-keep (λ (w : Wait). w.request_id) _ n.open_waits h.waits;
})

close_wait-HasDistinct :
    (t : ℕ) (input : EventInput) (n : ReducerState)
    → HasDistinct n
    → HasDistinct (close_wait t input n)
unfolding close_wait
close_wait-HasDistinct t input n h = elim (Bool-cases (has_wait input.request_id n.open_waits)) [
  | inl e ↦ rw e (
      resume_after_wait-HasDistinct _ (record {
        tools = h.tools;
        waits = IsDistinct-names-keep (λ (w : Wait). w.request_id) _ n.open_waits h.waits;
      }))
  | inr e ↦ rw e h
]

settle_turn-HasDistinct :
    (t : ℕ) (input : EventInput) (n : ReducerState)
    → HasDistinct n
    → HasDistinct (settle_turn t input n)
unfolding settle_turn resume_after_wait
settle_turn-HasDistinct t input n h = record {
  tools = elim (tools_kept) [ inl e ↦ rw e h.tools | inr e ↦ rw e tt ];
  waits = rw waits_kept h.waits;
}
  where
    tools_kept :
        ((settle_turn t input n).open_tools ≡ n.open_tools)
        ⊎ ((settle_turn t input n).open_tools ≡ [])
    tools_kept = ground arith

    waits_kept : (settle_turn t input n).open_waits ≡ n.open_waits
    waits_kept = ground arith

open_wait-HasDistinct :
    (t : ℕ) (input : EventInput) (n : ReducerState)
    → HasDistinct n
    → HasDistinct (open_wait t input n)
unfolding open_wait
open_wait-HasDistinct t input n h =
    opened input.request_id input.details.wait_kind input.details.summary
      input.details.reply_channel
  where
    opened :
        (id : Option String) (k : Option WaitKind) (m : Option String) (c : Option ReplyChannel)
        → HasDistinct (open_wait_from t id k m c n)
    opened (some id) (some k) (some m) (some c) = record {
      tools = h.tools;
      waits = IsDistinct-reopen (wait_of t id k m c) n.open_waits h.waits;
    }
    opened _ _ _ _ = h

start_tool-HasDistinct :
    (t : ℕ) (input : EventInput) (n : ReducerState)
    → HasDistinct n
    → HasDistinct (start_tool t input n)
unfolding start_tool
start_tool-HasDistinct t input n h = record { tools = added input.operation_id; waits = h.waits }
  where
    added :
        (id : Option String)
        → IsDistinct (elim id [ none ↦ n.open_tools | some i ↦ to_set (n.open_tools ++ i ∷ []) ])
    added none = h.tools
    added (some i) = IsDistinct-to_set (n.open_tools ++ i ∷ [])

apply_event-HasDistinct :
    (e : EventKind) (t : ℕ) (input : EventInput) (n : ReducerState)
    → HasDistinct n
    → HasDistinct (apply_event e t input n)
unfolding apply_event observe_failure
apply_event-HasDistinct EventKind.tool_started t input n h = start_tool-HasDistinct t input n h
apply_event-HasDistinct EventKind.tool_finished t input n h = finish_tool-HasDistinct t input n h
apply_event-HasDistinct EventKind.tool_failed t input n h = finish_tool-HasDistinct t input n h
apply_event-HasDistinct EventKind.wait_opened t input n h = open_wait-HasDistinct t input n h
apply_event-HasDistinct EventKind.wait_closed t input n h = close_wait-HasDistinct t input n h
apply_event-HasDistinct EventKind.turn_settled t input n h = settle_turn-HasDistinct t input n h
apply_event-HasDistinct EventKind.session_ended t input n h = record { tools = tt; waits = tt }
apply_event-HasDistinct EventKind.failure_observed t input n h =
    HasDistinct-same n (observe_failure input n) (ground arith) (ground arith) h
apply_event-HasDistinct _ t input n h = record { tools = h.tools; waits = h.waits }

reporter_event-HasDistinct :
    (t : ℕ) (input : EventInput) (a : ReporterAuthority) (s : ReducerState)
    → HasDistinct s
    → HasDistinct (reporter_event t input a s)
unfolding reporter_event
reporter_event-HasDistinct t input a s h =
    let n = apply_event input.event t input (admit_event t input a s) in
    let k =
      apply_event-HasDistinct input.event t input (admit_event t input a s)
        (admit_event-HasDistinct t input a s h) in
    elim (Bool-cases (not (is_empty n.open_waits) && not (bypasses_wait input))) [
      | inl e ↦ rw e (resume_after_wait-HasDistinct n k)
      | inr e ↦ rw e k
    ]

HasDistinct-empty : (n : ReducerState) → n.open_tools ≡ [] → n.open_waits ≡ [] → HasDistinct n
HasDistinct-empty n p q = record { tools = rw p tt; waits = rw q tt }

process_alive-HasDistinct :
    (t : ℕ) (id : String) (p : Option ProcessIdentity) (invalid : Option Bool) (s : ReducerState)
    → HasDistinct s
    → HasDistinct (process_alive t id p invalid s)
unfolding process_alive invalidate_reporter with_evidence
process_alive-HasDistinct t id p invalid s h = elim (Bool-cases (some_and invalid (λ b. b))) [
  | inl e ↦ HasDistinct-empty (process_alive t id p invalid s) (ground arith) (ground arith)
  | inr e ↦ HasDistinct-same s (process_alive t id p invalid s) (ground arith) (ground arith) h
]

-- Each other observation keeps both lists, or empties both.
observe_lists : (s : ReducerState) (o : Observation) → HasDistinct s → HasDistinct (observe s o)
unfolding observe process_alive process_indeterminate process_exited process_missing lease_probed
    progress_reported screen_classified invalidate_reporter with_evidence resume_after_wait
observe_lists s (Observation.reporter_event t input a) h = reporter_event-HasDistinct t input a s h
observe_lists s (Observation.process_exited t id c g st) h = record { tools = tt; waits = tt }
observe_lists s (Observation.process_missing t id) h = record { tools = tt; waits = tt }
observe_lists s (Observation.process_alive t id p invalid) h =
    process_alive-HasDistinct t id p invalid s h
observe_lists s (Observation.process_indeterminate t id) h =
    HasDistinct-same s _ (ground arith) (ground arith) h
observe_lists s (Observation.lease_probed t id) h =
    HasDistinct-same s _ (ground arith) (ground arith) h
observe_lists s (Observation.progress_reported t id report) h =
    HasDistinct-same s _ (ground arith) (ground arith) h
observe_lists s (Observation.screen_classified t id seen) h =
    HasDistinct-same s _ (ground arith) (ground arith) h

reduce-HasDistinct : (s : ReducerState) (o : Observation) → HasDistinct s → HasDistinct (reduce s o)
unfolding reduce
reduce-HasDistinct s o h =
    let n = observe s o in
    let c = completed o s n in
    HasDistinct-same n (reduce s o) (transition-open_tools s n c) (transition-open_waits s n c)
      (observe_lists s o h)

-- Whatever is observed of a run from its start: no tool is open twice, and no request is waited
-- for twice.
pub replay-HasDistinct :
    (run_id : String) (generation t : ℕ) (os : List Observation)
    → HasDistinct (replay (create_state run_id generation t) os)
replay-HasDistinct run_id generation t os =
    replay_ind HasDistinct reduce-HasDistinct (create_state run_id generation t) os
      (unfold create_state in record { tools = tt; waits = tt })
