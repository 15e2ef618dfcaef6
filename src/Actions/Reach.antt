-- ===== src/Actions/Reach.antt =====
-- Every sequence of operations on the action tables, by whichever scheduler, service or daemon.
use nanasa.Prelude.{
  ℕ, ◌≤◌, String, Bool, true, false, ◌≡◌, refl, ◌⊎◌, inr, List, [], arith, is_none, contains,
}
use nanasa.Actions.Types.{
  ActionState, AttemptState, Action, Attempt, Tables, Agents, Acknowledgement, ReporterSession,
  done,
}
use nanasa.Actions.Rows.{find_action, attempts_of, has_submitting}
use nanasa.Actions.Attempts.{
  create_action, begin_attempt, mark_submitted, FailedState, fail_action_attempt, abandon_attempt,
}
use nanasa.Actions.Transitions.{
  TransitionOptions, transition_action, recover_attempts, replace_runs, end_run,
}
use nanasa.Actions.Acknowledgements.{record_acknowledgement}
use nanasa.Actions.Once.{is_open_action, attempt_ids}
use nanasa.Actions.Safe.{IsSafe, create_action-IsSafe, begin_attempt-IsSafe}
use nanasa.Actions.Ends.{mark_submitted-IsSafe, fail_action_attempt-IsSafe, abandon_attempt-IsSafe}
use nanasa.Actions.Moves.{
  reopens_none, transition_action-IsSafe, recover_attempts-IsSafe, replace_runs-IsSafe,
  end_run-IsSafe, record_acknowledgement-IsSafe,
}

-- One operation that does not throw. New ids are none of those stored (they are primary keys), an
-- attempt is begun as `submitting` and abandoned only where its action may no longer be typed, and
-- no transition reopens an action: so all callers of these operations have it.
pub data Step : Tables → Tables → Type 0 where
  creates :
      {t u : Tables} (action r : Action)
      → is_none (find_action action.id t.actions) ≡ true
      → create_action action t ≡ done (u, r)
      → Step t u
  begins :
      {t u : Tables} (agents : Agents) (attempt : Attempt)
      → contains attempt.id (attempt_ids t.attempts) ≡ false
      → attempt.state ≡ AttemptState.submitting
      → begin_attempt agents attempt t ≡ done u
      → Step t u
  submits :
      {t u : Tables} (action attempt owner : String) (now : ℕ) (agents : Agents)
      → mark_submitted action attempt owner now agents t ≡ done u
      → Step t u
  fails :
      {t u : Tables} (action attempt owner : String) (state : FailedState) (code : String) (now : ℕ)
      → fail_action_attempt action attempt owner state code now t ≡ done u
      → Step t u
  abandons :
      {t u : Tables} (action attempt owner code : String) (now : ℕ)
      → is_open_action action t.actions ≡ false
      → abandon_attempt action attempt owner code now t ≡ done u
      → Step t u
  transitions :
      {t u : Tables} (id : String) (expected : List ActionState) (state : ActionState)
      (options : TransitionOptions) (now : ℕ)
      → reopens_none expected state ≡ true
      → transition_action id expected state options now t ≡ done u
      → Step t u
  recovers : {t u : Tables} (now : ℕ) → recover_attempts now t ≡ done u → Step t u
  acknowledges :
      {t u : Tables} (agents : Agents) (ack : Acknowledgement)
      → record_acknowledgement agents ack t ≡ done u
      → Step t u
  replaces :
      {t : Tables} (group member run : String) (now : ℕ)
      → Step t (replace_runs group member run now t)
  run_ends :
      {t : Tables} (run : String) (stopped : Bool) (now : ℕ) → Step t (end_run run stopped now t)
  -- Reporter sessions are opened and closed by other operations.
  reports : {t : Tables} (rs : List ReporterSession) → Step t (record t { reporters = rs })

pub data Reach (t : Tables) : Tables → Type 0 where
  here : Reach t t
  next : {u v : Tables} → Reach t u → Step u v → Reach t v

Step-IsSafe : {t u : Tables} → Step t u → IsSafe t → IsSafe u
Step-IsSafe (creates {t} {u} action r fresh e) h = create_action-IsSafe action t u r fresh e h
Step-IsSafe (begins {t} {u} agents attempt fresh s e) h =
    begin_attempt-IsSafe agents attempt t u fresh s e h
Step-IsSafe (submits {t} {u} action attempt owner now agents e) h =
    mark_submitted-IsSafe action attempt owner now agents t u e h
Step-IsSafe (fails {t} {u} action attempt owner state code now e) h =
    fail_action_attempt-IsSafe action attempt owner state code now t u e h
Step-IsSafe (abandons {t} {u} action attempt owner code now shut e) h =
    abandon_attempt-IsSafe action attempt owner code now t u shut e h
Step-IsSafe (transitions {t} {u} id expected state options now allowed e) h =
    transition_action-IsSafe id expected state options now t u allowed e h
Step-IsSafe (recovers {t} {u} now e) h = recover_attempts-IsSafe now t u e h
Step-IsSafe (acknowledges {t} {u} agents ack e) h = record_acknowledgement-IsSafe agents ack t u e h
Step-IsSafe (replaces {t} group member run now) h = replace_runs-IsSafe group member run now t h
Step-IsSafe (run_ends {t} run stopped now) h = end_run-IsSafe run stopped now t h
Step-IsSafe (reports {t} rs) h = record { distinct = h.distinct; once = h.once }

Reach-IsSafe : {t u : Tables} → Reach t u → IsSafe t → IsSafe u
Reach-IsSafe here h = h
Reach-IsSafe (next r st) h = Step-IsSafe st (Reach-IsSafe r h)

abbrev pub empty : Tables
empty = record { actions = []; attempts = []; acknowledgements = []; reporters = [] }

empty-IsSafe : IsSafe empty
unfolding attempts_of
empty-IsSafe = record {
  distinct = tt;
  once = λ id. record { one = omega arith; settled = inr (inr refl); known = inr refl };
}

-- Whatever operations run on the action tables from the first, in whatever order: an action has
-- at most one attempt to type its prompt into a terminal, and once it has one, either the attempt
-- is still being submitted, which stops any further one, or the action is no longer `created` or
-- `deferred`, which stops it too.
pub typed_once :
    {t : Tables} (id : String)
    → Reach empty t
    → (attempts_of id t.attempts ≤ 1)
      × ((is_open_action id t.actions ≡ false)
          ⊎ ((has_submitting id t.attempts ≡ true) ⊎ (attempts_of id t.attempts ≡ 0)))
typed_once id r = let h = (Reach-IsSafe r empty-IsSafe).once id in (h.one, h.settled)
