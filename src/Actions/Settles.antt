-- ===== src/Actions/Settles.antt =====
-- The scheduler on one action: when it begins an attempt, and how every attempt ends.
use nanasa.Prelude.{
  ℕ, ◌<◌, String, ◌==◌, eq_refl, Bool, true, false, ◌&&◌, ◌≡◌, refl, inl, inr, some, List, [], ◌∷◌,
  arith, if◌then◌else◌, Bool-cases, same_refl,
}
use nanasa.Actions.Types.{
  ActionState, ActionState-discrete, Action, Attempt, Tables, Agents, Outcome, done, throws,
}
use nanasa.Actions.Readiness.{action_readiness, IsEligible, dispatch-IsEligible}
use nanasa.Actions.Rows.{
  current_reporter, is_open, is_submitting, find_action, update_action, is_attempt, find_attempt,
  update_attempts,
}
use nanasa.Actions.Attempts.{
  mark_submitted, FailedState, fail_action_attempt, abandon_attempt, is_owned, end_action,
  end_attempt, submit, action_state, attempt_state,
}
use nanasa.Actions.Transitions.{transition_action, with_error}
use nanasa.Actions.Scheduler.{
  Authorize, consider, Submission, is_final, caught, conclude, error_code,
}
use nanasa.Actions.Begins.{
  MayDispatch, refusal-MayDispatch, IsReached, target_run, target_reporter, decide_begins,
}
use nanasa.Actions.Once.{is_open_action, update_action-shut}
use nanasa.Actions.Moves.{moved}
use nanasa.Actions.Safe.{find_action-update}

-- `#consider` begins an attempt only on an action whose goal does not forbid it, before its queue
-- deadline, while the run and the reporter session that it was made for are the current ones, and
-- whose target is eligible by all that is known of it at that moment.
pub consider_begins :
    (authorize : Authorize) (id owner : String) (now : ℕ) (agents : Agents) (action : Action)
    (t u : Tables)
    → consider authorize id owner now agents action t ≡ done (u, true)
    → MayDispatch authorize action
      × (now < action.queue_deadline_at)
      × IsReached action.target agents t
      × IsEligible action (agents.status action.target.group_id action.target.member_id) now
unfolding consider transition_action
consider_begins authorize id owner now agents action t u e =
    let target = action.target in
    let status = agents.status target.group_id target.member_id in
    let d = action_readiness action status now in
    let run = agents.active_run target.group_id target.member_id in
    let reporter = current_reporter target.run_id target.generation t.reporters in
    (
      refusal-MayDispatch authorize action (ground arith),
      ground arith,
      (target_run target run (ground arith), target_reporter target reporter (ground arith)),
      dispatch-IsEligible action status now
          (ground (arith, decide_begins d id owner now agents action t u)),
    )

-- After an update that reaches every attempt of an owner, none is left that it owns.
update-unowned :
    (attempt action owner : String) (p : Attempt → Bool) (g : Attempt → Attempt)
    → ((a : Attempt) → (g a).id ≡ a.id)
    → ((a : Attempt) → (g a).action_id ≡ a.action_id)
    → ((a : Attempt) → is_submitting (g a).state ≡ false)
    → ((a : Attempt)
        → is_attempt attempt action a ≡ true
        → is_owned owner (some a) ≡ true
        → p a ≡ true)
    → (xs : List Attempt)
    → is_owned owner (find_attempt attempt action (update_attempts p g xs)) ≡ false
unfolding find_attempt update_attempts
update-unowned attempt action owner p g same_id same_action ended reached [] = refl
update-unowned attempt action owner p g same_id same_action ended reached (a ∷ xs) = ground (
  arith,
  same_id a,
  same_action a,
  ended a,
  reached a,
  update-unowned attempt action owner p g same_id same_action ended reached xs,
)

-- The attempt has ended, and its action is not to be typed any more.
abbrev pub IsConcluded : (id attempt owner : String) → Outcome Tables → Type 0
IsConcluded id attempt owner (throws e) = ⊥
IsConcluded id attempt owner (done u) =
    (is_open_action id u.actions ≡ false)
    × (is_owned owner (find_attempt attempt id u.attempts) ≡ false)

settled :
    (id attempt owner code : String) (now : ℕ) (t : Tables) (action : Action)
    → find_action id t.actions ≡ some action
    → action.state ≡ ActionState.stalled
    → is_owned owner (find_attempt attempt id t.attempts) ≡ false
    → IsConcluded id attempt owner (
        transition_action id
          (ActionState.stalled ∷ [])
          ActionState.settled_unverified
          (with_error code)
          now
          t)
unfolding transition_action
settled id attempt owner code now t action e stalled unowned =
    let unopen =
      update_action-shut id (moved ActionState.settled_unverified (with_error code) now) (λ a. refl)
        (λ a. refl) t.actions in
    ground (arith, unopen, same_refl ActionState-discrete ActionState.stalled)

module _ (id attempt owner : String) (now : ℕ) (t : Tables) where
  marked :
      (agents : Agents) (u : Tables)
      → mark_submitted id attempt owner now agents t ≡ done u
      → IsConcluded id attempt owner (done u)
  unfolding mark_submitted
  marked agents u e =
      let f = λ (a : Action). record a { state = ActionState.submitted; updated_at = now } in
      let unopen = update_action-shut id f (λ a. refl) (λ a. refl) t.actions in
      let unowned =
        update-unowned attempt id owner (λ a. a.id == attempt) (submit now) (λ a. refl) (λ a. refl)
          (λ a. refl) (λ a p q. ground arith) t.attempts in
      ground (arith, unopen, unowned)

  abandoned :
      (code : String) (action : Action)
      → find_action id t.actions ≡ some action
      → is_open action.state ≡ false
      → IsConcluded id attempt owner (abandon_attempt id attempt owner code now t)
  unfolding abandon_attempt
  abandoned code action e shut =
      let p = λ (a : Attempt).
        is_attempt attempt id a && (is_submitting a.state && a.lease_owner == owner) in
      let unowned =
        update-unowned attempt id owner p (end_attempt FailedState.superseded code now) (λ a. refl)
          (λ a. refl) (λ a. refl) (λ a k q. ground arith) t.attempts in
      ground (arith, unowned)

  failed_shut : (state : FailedState) → is_open (action_state state) ≡ false
  failed_shut state = ground arith

  failed_ended : (state : FailedState) → is_submitting (attempt_state state) ≡ false
  failed_ended state = ground arith

  failed :
      (state : FailedState) (code : String) (action : Action)
      → find_action id t.actions ≡ some action
      → is_owned owner (find_attempt attempt id t.attempts) ≡ true
      → IsConcluded id attempt owner (fail_action_attempt id attempt owner state code now t)
  unfolding fail_action_attempt
  failed state code action e owned =
      let unopen =
        update_action-shut id (end_action state code now) (λ a. refl) (λ a. failed_shut state)
          t.actions in
      let unowned =
        update-unowned attempt id owner (λ a. a.id == attempt) (end_attempt state code now)
          (λ a. refl) (λ a. refl) (λ a. failed_ended state) (λ a k q. ground arith) t.attempts in
      ground (arith, unopen, unowned)

  indeterminate :
      (code : String) (action : Action)
      → find_action id t.actions ≡ some action
      → is_owned owner (find_attempt attempt id t.attempts) ≡ true
      → is_final action.state ≡ false
      → IsConcluded id attempt owner (caught id attempt owner code true false now t)
  unfolding caught fail_action_attempt
  indeterminate code action e owned open_yet =
      let f = end_action FailedState.stalled "submission_commit_indeterminate" now in
      let g = end_attempt FailedState.stalled "submission_commit_indeterminate" now in
      let unowned =
        update-unowned attempt id owner (λ a. a.id == attempt) g (λ a. refl) (λ a. refl) (λ a. refl)
          (λ a k q. ground arith) t.attempts in
      let found : find_action id (update_action id f t.actions) ≡ some (f action) =
        ground (arith, find_action-update id f (λ a. refl) id t.actions, eq_refl id) in
      let ends =
        settled id attempt owner "submission_commit_indeterminate" now
          (record t {
            attempts = update_attempts (λ a. a.id == attempt) g t.attempts;
            actions = update_action id f t.actions;
          })
          (f action) found refl unowned in
      ground (arith, ends)

  final_shut : (s : ActionState) → is_final s ≡ true → is_open s ≡ false
  final_shut s h = ground arith

  refused_concludes :
      (code : String) (replaced : Bool) (action : Action)
      → find_action id t.actions ≡ some action
      → is_owned owner (find_attempt attempt id t.attempts) ≡ true
      → IsConcluded id attempt owner (caught id attempt owner code false replaced now t)
  unfolding caught
  refused_concludes code replaced action e owned =
      let state = if replaced then FailedState.superseded else FailedState.failed in
      let given_up = abandoned code action e in
      let lost = failed state code action e owned in
      elim (Bool-cases (is_final action.state)) [
        | inl q ↦ let given = given_up (final_shut action.state q) in ground (arith, given)
        | inr q ↦ ground (arith, lost)
      ]

  written_concludes :
      (code : String) (action : Action)
      → find_action id t.actions ≡ some action
      → is_owned owner (find_attempt attempt id t.attempts) ≡ true
      → IsConcluded id attempt owner (caught id attempt owner code true false now t)
  unfolding caught
  written_concludes code action e owned = elim (Bool-cases (is_final action.state)) [
    | inl q ↦
        let given = abandoned code action e (final_shut action.state q) in ground (arith, given)
    | inr q ↦ indeterminate code action e owned q
  ]

-- However the submission of an attempt goes that its owner still holds, on an action that is
-- stored: `#consider` ends it without an error of its own, and afterwards the owner holds no such
-- attempt, and the action is neither `created` nor `deferred`, so that it is not typed again.
pub conclude_ends :
    (id attempt owner : String) (s : Submission) (now : ℕ) (agents : Agents) (t : Tables)
    (action : Action)
    → find_action id t.actions ≡ some action
    → is_owned owner (find_attempt attempt id t.attempts) ≡ true
    → IsConcluded id attempt owner (conclude id attempt owner s now agents t)
unfolding conclude
conclude_ends id attempt owner Submission.written now agents t action e owned =
    ended (mark_submitted id attempt owner now agents t)
      (λ u k. marked id attempt owner now t agents u k)
  where
    ended :
        (o : Outcome Tables)
        → ((u : Tables) → o ≡ done u → IsConcluded id attempt owner (done u))
        → IsConcluded id attempt owner (elim o [
          | done u ↦ done u
          | throws x ↦ caught id attempt owner (error_code x) true false now t
        ])
    ended (done u) k = k u refl
    ended (throws x) k = written_concludes id attempt owner now t (error_code x) action e owned
conclude_ends id attempt owner (Submission.refused code replaced) now agents t action e owned =
    refused_concludes id attempt owner now t code replaced action e owned
