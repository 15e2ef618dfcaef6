-- ===== src/Actions/Moves.antt =====
-- The operations that move an action on keep the tables safe, and so does every sequence of
-- operations: the prompt of an action is typed once at most.
use nanasa.Prelude.{
  ℕ, String, ◌==◌, eq_iff, Bool, true, false, not, ◌&&◌, ◌||◌, ◌≡◌, refl, inl, inr, List, [], ◌∷◌,
  arith, if◌then◌else◌, Bool-cases, Option-cases, subst, same, same_sound, or_option,
}
use nanasa.Actions.Types.{
  ActionState, ActionState-discrete, Action, Attempt, Tables, Agents, Acknowledgement, Outcome,
  done, throws, AckKind,
}
use nanasa.Actions.Rows.{is_open, find_action, update_actions, update_action}
use nanasa.Actions.Attempts.{FailedState, end_action, action_state}
use nanasa.Actions.Transitions.{
  TransitionOptions, with_error, transition_action, includes, is_ambiguous, recover_rows,
  recover_attempts, replace_runs, end_run,
}
use nanasa.Actions.Acknowledgements.{record_acknowledgement, acknowledge, acknowledged}
use nanasa.Actions.Once.{is_open_action, IsOnce, update_actions-IsOnce}
use nanasa.Actions.Safe.{IsSafe, find_action-update}

updated-IsSafe :
    (p : Action → Bool) (f : Action → Action) (t : Tables)
    → ((a : Action) → (f a).id ≡ a.id)
    → ((a : Action) → is_open (f a).state ≡ false)
    → IsSafe t
    → IsSafe (record t { actions = update_actions p f t.actions })
updated-IsSafe p f t same_id shut h = record {
  distinct = h.distinct;
  once =
      λ id. update_actions-IsOnce p f same_id (λ a k q. shut a) id t.actions t.attempts (h.once id);
}

-- All states that a caller expects are those of an action that may be typed.
abbrev pub all_open : List ActionState → Bool
all_open [] = true
all_open (s ∷ ss) = is_open s && all_open ss

-- No caller reopens an action.
abbrev pub reopens_none : List ActionState → ActionState → Bool
reopens_none expected state = not (is_open state) || all_open expected

includes-open :
    (xs : List ActionState) (s : ActionState)
    → all_open xs ≡ true
    → includes xs s ≡ true
    → is_open s ≡ true
includes-open [] s h k = cc
includes-open (x ∷ xs) s h k = elim (Bool-cases (same ActionState-discrete x s)) [
  | inl e ↦ subst (λ y. is_open y ≡ true) (same_sound ActionState-discrete x s e) (ground arith)
  | inr e ↦ includes-open xs s (ground arith) (rw e at k)
]

abbrev pub moved : ActionState → TransitionOptions → ℕ → Action → Action
moved state options now a = record a {
  state = state;
  error = options.error;
  result = options.result;
  accepted_provider_turn_id =
      or_option options.accepted_provider_turn_id a.accepted_provider_turn_id;
  accepted_provider_request_id =
      or_option options.accepted_provider_request_id a.accepted_provider_request_id;
  updated_at = now;
}

move-IsOnce :
    (action id : String) (f : Action → Action) (xs : List Action) (ys : List Attempt)
    → ((a : Action) → (f a).id ≡ a.id)
    → is_open_action action xs ≡ true
    → IsOnce id xs ys
    → IsOnce id (update_action action f xs) ys
move-IsOnce action id f xs ys same_id may h =
    let at = find_action-update action f same_id id xs in
    record {
      one = h.one;
      settled = ground (arith, h, at, eq_iff action id);
      known = ground (arith, h, at);
    }

pub transition_action-IsSafe :
    (id : String) (expected : List ActionState) (state : ActionState) (options : TransitionOptions)
    (now : ℕ) (t u : Tables)
    → reopens_none expected state ≡ true
    → transition_action id expected state options now t ≡ done u
    → IsSafe t
    → IsSafe u
unfolding transition_action
transition_action-IsSafe id expected state options now t u allowed e h =
    let f = moved state options now in
    let at : record t { actions = update_action id f t.actions } ≡ u = ground arith in
    elim (Bool-cases (is_open state)) [
      | inr shut ↦ subst IsSafe at (updated-IsSafe (λ a. a.id == id) f t (λ a. refl) (λ a. shut) h)
      | inl opens ↦ elim (Option-cases (find_action id t.actions)) [
        | inl q ↦ absurd (ground arith)
        | inr (a, q) ↦
            let may = includes-open expected a.state (ground arith) (ground arith) in
            subst IsSafe at (record {
              distinct = h.distinct;
              once = λ other.
                  move-IsOnce id other f t.actions t.attempts (λ b. refl) (ground arith)
                    (h.once other);
            })
      ]
    ]

recover_rows-IsSafe :
    (now : ℕ) (attempts : List Attempt) (rows : List Action) (t u : Tables)
    → recover_rows now attempts rows t ≡ done u
    → IsSafe t
    → IsSafe u
unfolding recover_rows
recover_rows-IsSafe now attempts [] t u e h = let at : t ≡ u = ground arith in subst IsSafe at h
recover_rows-IsSafe now attempts (a ∷ rows) t u e h =
    let open_states : List ActionState = ActionState.created ∷ ActionState.deferred ∷ [] in
    elim (Bool-cases (is_ambiguous now attempts a)) [
      | inr q ↦ recover_rows-IsSafe now attempts rows t u (rw q at e) h
      | inl q ↦
          recovered
            (transition_action a.id open_states ActionState.settled_unverified
              (with_error "submission_crash_window") now t)
            (λ v k.
              transition_action-IsSafe a.id open_states ActionState.settled_unverified
                (with_error "submission_crash_window") now t v refl k h)
            (λ v k. recover_rows-IsSafe now attempts rows v u k) (rw q at e)
    ]
  where
    recovered :
        (o : Outcome Tables)
        → ((v : Tables) → o ≡ done v → IsSafe v)
        → ((v : Tables) → recover_rows now attempts rows v ≡ done u → IsSafe v → IsSafe u)
        → elim o [ throws x ↦ throws x | done v ↦ recover_rows now attempts rows v ] ≡ done u
        → IsSafe u
    recovered (done v) safe rest k = rest v k (safe v refl)
    recovered (throws x) safe rest k = cc

pub recover_attempts-IsSafe :
    (now : ℕ) (t u : Tables) → recover_attempts now t ≡ done u → IsSafe t → IsSafe u
unfolding recover_attempts
recover_attempts-IsSafe now t u e h = recover_rows-IsSafe now t.attempts t.actions t u e h

failed_shut : (state : FailedState) → is_open (action_state state) ≡ false
failed_shut state = ground arith

pub replace_runs-IsSafe :
    (group member run : String) (now : ℕ) (t : Tables)
    → IsSafe t
    → IsSafe (replace_runs group member run now t)
unfolding replace_runs
replace_runs-IsSafe group member run now t h =
    updated-IsSafe _ (end_action FailedState.superseded "run_replaced" now) t (λ a. refl)
      (λ a. refl) h

pub end_run-IsSafe :
    (run : String) (stopped : Bool) (now : ℕ) (t : Tables)
    → IsSafe t
    → IsSafe (end_run run stopped now t)
unfolding end_run
end_run-IsSafe run stopped now t h =
    updated-IsSafe _ _ t (λ a. refl)
      (λ a. failed_shut (if stopped then FailedState.superseded else FailedState.failed)) h

acknowledged_shut : (kind : AckKind) → is_open (acknowledged kind) ≡ false
acknowledged_shut kind = ground arith

pub record_acknowledgement-IsSafe :
    (agents : Agents) (ack : Acknowledgement) (t u : Tables)
    → record_acknowledgement agents ack t ≡ done u
    → IsSafe t
    → IsSafe u
unfolding record_acknowledgement
record_acknowledgement-IsSafe agents ack t u e h =
    let safe =
      updated-IsSafe (λ a. a.id == ack.action_id) (acknowledge ack) t (λ a. refl)
        (λ a. acknowledged_shut ack.kind) h in
    let actions : u.actions ≡ update_action ack.action_id (acknowledge ack) t.actions =
      ground arith in
    let attempts : u.attempts ≡ t.attempts = ground arith in
    record { distinct = rw attempts h.distinct; once = λ id. rw (actions, attempts) (safe.once id) }
