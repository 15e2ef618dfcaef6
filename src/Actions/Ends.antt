-- ===== src/Actions/Ends.antt =====
-- The operations that end an attempt, or that move an action on, keep the tables safe.
use nanasa.Prelude.{
  ℕ, String, ◌==◌, eq_iff, Bool, true, false, ◌&&◌, ◌≡◌, refl, inl, inr, List, [], ◌∷◌, arith,
  Bool-cases, subst,
}
use nanasa.Actions.Types.{ActionState, Action, Attempt, Tables, Agents, done}
use nanasa.Actions.Rows.{
  is_open, is_submitting, update_action, is_attempt, find_attempt, update_attempts, has_submitting,
}
use nanasa.Actions.Attempts.{
  mark_submitted, FailedState, fail_action_attempt, abandon_attempt, end_action, end_attempt,
  submit, action_state, is_owned,
}
use nanasa.Actions.Once.{is_open_action, IsOnce, attempts_of-update, is_found}
use nanasa.Actions.Safe.{IsSafe, attempt_ids-update, end-IsOnce}

owned-found :
    (owner attempt action : String) (xs : List Attempt)
    → is_owned owner (find_attempt attempt action xs) ≡ true
    → is_found attempt action xs ≡ true
owned-found owner attempt action xs h = ground arith

ended-IsSafe :
    (action attempt : String) (f : Action → Action) (g : Attempt → Attempt) (t : Tables)
    → ((a : Action) → (f a).id ≡ a.id)
    → ((a : Action) → is_open (f a).state ≡ false)
    → ((a : Attempt) → (g a).action_id ≡ a.action_id)
    → ((a : Attempt) → (g a).id ≡ a.id)
    → is_found attempt action t.attempts ≡ true
    → IsSafe t
    → IsSafe (record t {
      attempts = update_attempts (λ a. a.id == attempt) g t.attempts;
      actions = update_action action f t.actions;
    })
ended-IsSafe action attempt f g t same_id shut same_action same_attempt found h = record {
  distinct = rw (attempt_ids-update (λ a. a.id == attempt) g same_attempt t.attempts) h.distinct;
  once = λ id.
      end-IsOnce id action attempt f g t.actions t.attempts same_id shut same_action h.distinct
        found (h.once id);
}

pub mark_submitted-IsSafe :
    (action attempt owner : String) (now : ℕ) (agents : Agents) (t u : Tables)
    → mark_submitted action attempt owner now agents t ≡ done u
    → IsSafe t
    → IsSafe u
unfolding mark_submitted
mark_submitted-IsSafe action attempt owner now agents t u e h =
    let f = λ (a : Action). record a { state = ActionState.submitted; updated_at = now } in
    let at : record t {
      attempts = update_attempts (λ a. a.id == attempt) (submit now) t.attempts;
      actions = update_action action f t.actions;
    }
        ≡ u =
      ground arith in
    subst IsSafe at (
      ended-IsSafe action attempt f (submit now) t (λ a. refl) (λ a. refl) (λ a. refl) (λ a. refl)
        (owned-found owner attempt action t.attempts (ground arith)) h)

failed_shut : (state : FailedState) → is_open (action_state state) ≡ false
failed_shut state = ground arith

pub fail_action_attempt-IsSafe :
    (action attempt owner : String) (state : FailedState) (code : String) (now : ℕ) (t u : Tables)
    → fail_action_attempt action attempt owner state code now t ≡ done u
    → IsSafe t
    → IsSafe u
unfolding fail_action_attempt
fail_action_attempt-IsSafe action attempt owner state code now t u e h =
    let f = end_action state code now in
    let g = end_attempt state code now in
    let at : record t {
      attempts = update_attempts (λ a. a.id == attempt) g t.attempts;
      actions = update_action action f t.actions;
    }
        ≡ u =
      ground arith in
    subst IsSafe at (
      ended-IsSafe action attempt f g t (λ a. refl) (λ a. failed_shut state) (λ a. refl) (λ a. refl)
        (owned-found owner attempt action t.attempts (ground arith)) h)

-- An update of attempts of one action leaves those of another alone.
has_submitting-off :
    (id action : String) (p : Attempt → Bool) (f : Attempt → Attempt)
    → ((a : Attempt) → p a ≡ true → (a.action_id == action) ≡ true)
    → ((a : Attempt) → (f a).action_id ≡ a.action_id)
    → (action == id) ≡ false
    → (xs : List Attempt) → has_submitting id (update_attempts p f xs) ≡ has_submitting id xs
unfolding has_submitting update_attempts
has_submitting-off id action p f only same_action other [] = refl
has_submitting-off id action p f only same_action other (a ∷ xs) = ground (
  arith,
  only a,
  same_action a,
  eq_iff a.action_id action,
  eq_iff a.action_id id,
  eq_iff action id,
  has_submitting-off id action p f only same_action other xs,
)

-- An attempt is abandoned where its action has ended in another way.
pub abandon_attempt-IsSafe :
    (action attempt owner code : String) (now : ℕ) (t u : Tables)
    → is_open_action action t.actions ≡ false
    → abandon_attempt action attempt owner code now t ≡ done u
    → IsSafe t
    → IsSafe u
unfolding abandon_attempt
abandon_attempt-IsSafe action attempt owner code now t u shut e h =
    let g = end_attempt FailedState.superseded code now in
    let p = λ (a : Attempt).
      is_attempt attempt action a && (is_submitting a.state && a.lease_owner == owner) in
    let at : record t { attempts = update_attempts p g t.attempts } ≡ u = ground arith in
    subst IsSafe at (record {
      distinct = rw (attempt_ids-update p g (λ a. refl) t.attempts) h.distinct;
      once = λ id. once id (h.once id);
    })
  where
    once :
        (id : String)
        → IsOnce id t.actions t.attempts
        → IsOnce id t.actions (
            update_attempts
              (λ a.
                is_attempt attempt action a && (is_submitting a.state && a.lease_owner == owner))
              (end_attempt FailedState.superseded code now)
              t.attempts)
    once id o =
        let g = end_attempt FailedState.superseded code now in
        let p = λ (a : Attempt).
          is_attempt attempt action a && (is_submitting a.state && a.lease_owner == owner) in
        let count = attempts_of-update id p g (λ a. refl) t.attempts in
        record {
          one = ground (arith, o, count);
          settled = elim (Bool-cases (action == id)) [
            | inl q ↦
                inl (subst (λ i. is_open_action i t.actions ≡ false) ((eq_iff action id).0 q) shut)
            | inr q ↦ ground (
              arith,
              o,
              count,
              has_submitting-off id action p g (λ a k. ground arith) (λ a. refl) q t.attempts,
            )
          ];
          known = ground (arith, o, count);
        }
