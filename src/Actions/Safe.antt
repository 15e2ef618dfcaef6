-- ===== src/Actions/Safe.antt =====
-- Each operation on actions keeps the tables safe: no action is typed into its target twice.
use nanasa.Prelude.{
  String, ◌==◌, eq_iff, Bool, true, false, ◌&&◌, ◌||◌, ◌≡◌, refl, inl, inr, none, some, List, [],
  ◌∷◌, ◌++◌, arith, if◌then◌else◌, is_none, contains, names-append, IsDistinct,
  IsDistinct-append_one, Bool-cases, Option-cases, subst,
}
use mathlib.Core.Option
use nanasa.Actions.Types.{AttemptState, Action, Attempt, Tables, Agents, done}
use nanasa.Actions.Rows.{
  is_open, is_submitting, find_action, update_actions, update_action, update_attempts,
  has_submitting,
}
use nanasa.Actions.Attempts.{find_request, create_action, may_begin, begin_attempt}
use nanasa.Actions.Once.{
  is_open_action, IsOnce, attempt_ids, attempts_of-update, attempts_of-append_one, is_found,
  has_submitting-update, update_action-shut,
}

pub record IsSafe (t : Tables) : Type 0 where
  pub distinct : IsDistinct (attempt_ids t.attempts)
  pub once : (id : String) → IsOnce id t.actions t.attempts

-- The first row of an id after an update of that id, or of another.
pub find_action-update :
    (id : String) (f : Action → Action)
    → ((a : Action) → (f a).id ≡ a.id)
    → (other : String) (xs : List Action)
    → find_action other (update_action id f xs)
      ≡ (if id == other then Option.map f (find_action other xs) else find_action other xs)
unfolding find_action update_actions
find_action-update id f same_id other [] = ground arith
find_action-update id f same_id other (a ∷ xs) = ground (
  arith,
  same_id a,
  find_action-update id f same_id other xs,
  eq_iff a.id id,
  eq_iff a.id other,
  eq_iff id other,
)

find_action-append_one :
    (id : String) (xs : List Action) (a : Action)
    → find_action id (xs ++ a ∷ []) ≡ (
        if is_none (find_action id xs)
        then (if a.id == id then some a else none)
        else find_action id xs)
unfolding find_action
find_action-append_one id [] a = refl
find_action-append_one id (x ∷ xs) a = ground (arith, find_action-append_one id xs a)

pub attempt_ids-update :
    (p : Attempt → Bool) (f : Attempt → Attempt)
    → ((a : Attempt) → (f a).id ≡ a.id)
    → (xs : List Attempt) → attempt_ids (update_attempts p f xs) ≡ attempt_ids xs
unfolding update_attempts
attempt_ids-update p f same_id [] = refl
attempt_ids-update p f same_id (a ∷ xs) =
    ground (arith, same_id a, attempt_ids-update p f same_id xs)

has_submitting-append_one :
    (id : String) (xs : List Attempt) (a : Attempt)
    → has_submitting id (xs ++ a ∷ [])
      ≡ (has_submitting id xs || (a.action_id == id && is_submitting a.state))
unfolding has_submitting
has_submitting-append_one id [] a = ground arith
has_submitting-append_one id (x ∷ xs) a = ground (arith, has_submitting-append_one id xs a)

-- A new action has no attempt.
create-IsOnce :
    (id : String) (xs : List Action) (ys : List Attempt) (a : Action)
    → is_none (find_action a.id xs) ≡ true
    → IsOnce id xs ys
    → IsOnce id (xs ++ a ∷ []) ys
create-IsOnce id xs ys a fresh h = record {
  one = h.one;
  settled = ground (arith, h, find_action-append_one id xs a, eq_iff a.id id);
  known = ground (arith, h, find_action-append_one id xs a);
}

pub create_action-IsSafe :
    (action : Action) (t u : Tables) (r : Action)
    → is_none (find_action action.id t.actions) ≡ true
    → create_action action t ≡ done (u, r)
    → IsSafe t
    → IsSafe u
unfolding create_action
create_action-IsSafe action t u r fresh e h =
    elim (Option-cases (find_request action.target.group_id action.idempotency_key t.actions)) [
      | inr (old, q) ↦ let at : t ≡ u = ground arith in subst IsSafe at h
      | inl q ↦
          let at : record t { actions = t.actions ++ action ∷ [] } ≡ u = ground arith in
          subst IsSafe at (record {
            distinct = h.distinct;
            once = λ id. create-IsOnce id t.actions t.attempts action fresh (h.once id);
          })
    ]

-- An attempt is begun only on an action that may be typed, and that has none.
begin-IsOnce :
    (id : String) (xs : List Action) (ys : List Attempt) (a : Attempt)
    → is_open_action a.action_id xs ≡ true
    → has_submitting a.action_id ys ≡ false
    → a.state ≡ AttemptState.submitting
    → IsOnce id xs ys
    → IsOnce id xs (ys ++ a ∷ [])
begin-IsOnce id xs ys a may none_yet submitting h = record {
  one = ground (arith, h, attempts_of-append_one id ys a, eq_iff a.action_id id);
  settled = ground (
    arith,
    h,
    attempts_of-append_one id ys a,
    has_submitting-append_one id ys a,
    eq_iff a.action_id id,
  );
  known = ground (arith, h, attempts_of-append_one id ys a, eq_iff a.action_id id);
}

pub begin_attempt-IsSafe :
    (agents : Agents) (attempt : Attempt) (t u : Tables)
    → contains attempt.id (attempt_ids t.attempts) ≡ false
    → attempt.state ≡ AttemptState.submitting
    → begin_attempt agents attempt t ≡ done u
    → IsSafe t
    → IsSafe u
unfolding begin_attempt may_begin
begin_attempt-IsSafe agents attempt t u fresh submitting e h =
    let at : record t { attempts = t.attempts ++ attempt ∷ [] } ≡ u = ground arith in
    subst IsSafe at (record {
      distinct =
          rw (names-append (λ (a : Attempt). a.id) t.attempts (attempt ∷ []))
            (IsDistinct-append_one (attempt_ids t.attempts) attempt.id h.distinct fresh);
      once = λ id.
          begin-IsOnce id t.actions t.attempts attempt (ground arith) (ground arith) submitting
            (h.once id);
    })

-- An attempt ends, and with it the time in which its action may be typed.
pub end-IsOnce :
    (id action attempt : String) (f : Action → Action) (g : Attempt → Attempt) (xs : List Action)
    (ys : List Attempt)
    → ((a : Action) → (f a).id ≡ a.id)
    → ((a : Action) → is_open (f a).state ≡ false)
    → ((a : Attempt) → (g a).action_id ≡ a.action_id)
    → IsDistinct (attempt_ids ys)
    → is_found attempt action ys ≡ true
    → IsOnce id xs ys
    → IsOnce id (update_action action f xs) (update_attempts (λ a. a.id == attempt) g ys)
end-IsOnce id action attempt f g xs ys same_id shut same_action d found h =
    let same_count = attempts_of-update id (λ a. a.id == attempt) g same_action ys in
    let at = find_action-update action f same_id id xs in
    elim (Bool-cases (action == id)) [
      | inl q ↦
          let is_id = (eq_iff action id).0 q in
          record {
            one = ground (arith, h, same_count);
            settled = inl (
                subst (λ i. is_open_action i (update_action action f xs) ≡ false) is_id
                  (update_action-shut action f same_id shut xs));
            known = ground (arith, h, same_count, at);
          }
      | inr q ↦
          let same_open = has_submitting-update id action attempt g same_action ys d found q in
          record {
            one = ground (arith, h, same_count);
            settled = ground (arith, h, same_count, at, same_open);
            known = ground (arith, h, same_count, at);
          }
    ]
