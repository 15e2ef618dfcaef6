-- ===== src/Actions/Once.antt =====
-- What keeps the prompt of an action from being typed twice, in each row operation.
use nanasa.Prelude.{
  ◌+◌, ◌≤◌, String, ◌==◌, eq_iff, eq_refl, Bool, true, false, not, ◌≡◌, refl, ◌⊎◌, inl, inr, List,
  [], ◌∷◌, ◌++◌, arith, if◌then◌else◌, is_none, some_and, contains, names, IsDistinct,
}
use nanasa.Actions.Types.{Action, Attempt}
use nanasa.Actions.Rows.{
  is_open, find_action, update_actions, update_action, find_attempt, update_attempts, attempts_of,
  has_submitting,
}

-- The action exists and may still be typed into its target.
abbrev pub is_open_action : String → List Action → Bool
is_open_action id actions = some_and (find_action id actions) (λ a. is_open a.state)

-- For one action: it has at most one attempt, and while it may still be typed, that attempt is
-- being submitted. An attempt belongs to an action that is stored.
pub record IsOnce (id : String) (actions : List Action) (attempts : List Attempt) : Type 0 where
  pub one : attempts_of id attempts ≤ 1
  pub settled :
      (is_open_action id actions ≡ false)
      ⊎ ((has_submitting id attempts ≡ true) ⊎ (attempts_of id attempts ≡ 0))
  pub known : (is_none (find_action id actions) ≡ false) ⊎ (attempts_of id attempts ≡ 0)

-- An update of actions that reopens none.
module _ (p : Action → Bool) (f : Action → Action) (same_id : (a : Action) → (f a).id ≡ a.id)
    (shut : (a : Action) → p a ≡ true → is_open a.state ≡ false → is_open (f a).state ≡ false) where
  pub update_actions-open :
      (id : String) (xs : List Action)
      → is_open_action id xs ≡ false
      → is_open_action id (update_actions p f xs) ≡ false
  unfolding find_action update_actions
  update_actions-open id [] h = h
  update_actions-open id (a ∷ xs) h = ground (arith, same_id a, shut a, update_actions-open id xs)

  pub update_actions-known :
      (id : String) (xs : List Action)
      → is_none (find_action id xs) ≡ false
      → is_none (find_action id (update_actions p f xs)) ≡ false
  unfolding find_action update_actions
  update_actions-known id [] h = h
  update_actions-known id (a ∷ xs) h = ground (arith, same_id a, update_actions-known id xs)

  pub update_actions-IsOnce :
      (id : String) (xs : List Action) (ys : List Attempt)
      → IsOnce id xs ys
      → IsOnce id (update_actions p f xs) ys
  update_actions-IsOnce id xs ys h = record {
    one = h.one;
    settled = elim h.settled [ inl e ↦ inl (update_actions-open id xs e) | inr e ↦ inr e ];
    known = elim h.known [ inl e ↦ inl (update_actions-known id xs e) | inr e ↦ inr e ];
  }

-- An update that shuts one action.
pub update_action-shut :
    (id : String) (f : Action → Action)
    → ((a : Action) → (f a).id ≡ a.id)
    → ((a : Action) → is_open (f a).state ≡ false)
    → (xs : List Action) → is_open_action id (update_action id f xs) ≡ false
unfolding find_action update_actions
update_action-shut id f same_id shut [] = refl
update_action-shut id f same_id shut (a ∷ xs) =
    ground (arith, same_id a, shut a, update_action-shut id f same_id shut xs, eq_refl id)

abbrev pub attempt_ids : List Attempt → List String
attempt_ids = names (λ (a : Attempt). a.id)

-- An update of attempts that belong to one action leaves those of another alone.
pub attempts_of-update :
    (id : String) (p : Attempt → Bool) (f : Attempt → Attempt)
    → ((a : Attempt) → (f a).action_id ≡ a.action_id)
    → (xs : List Attempt) → attempts_of id (update_attempts p f xs) ≡ attempts_of id xs
unfolding attempts_of update_attempts
attempts_of-update id p f same_action [] = refl
attempts_of-update id p f same_action (a ∷ xs) =
    ground (arith, same_action a, attempts_of-update id p f same_action xs)

pub attempts_of-append_one :
    (id : String) (xs : List Attempt) (a : Attempt)
    → attempts_of id (xs ++ a ∷ []) ≡ attempts_of id xs + (if a.action_id == id then 1 else 0)
unfolding attempts_of
attempts_of-append_one id [] a = omega arith
attempts_of-append_one id (x ∷ xs) a = ground (arith, attempts_of-append_one id xs a)

update_attempts-off :
    (attempt : String) (f : Attempt → Attempt) (xs : List Attempt)
    → contains attempt (attempt_ids xs) ≡ false
    → update_attempts (λ a. a.id == attempt) f xs ≡ xs
unfolding update_attempts
update_attempts-off attempt f [] h = refl
update_attempts-off attempt f (a ∷ xs) h = ground (arith, update_attempts-off attempt f xs)

abbrev pub is_found : (attempt action : String) → List Attempt → Bool
is_found attempt action xs = not (is_none (find_attempt attempt action xs))

find_attempt-contains :
    (attempt action : String) (xs : List Attempt)
    → is_found attempt action xs ≡ true
    → contains attempt (attempt_ids xs) ≡ true
unfolding find_attempt
find_attempt-contains attempt action [] h = cc
find_attempt-contains attempt action (a ∷ xs) h =
    ground (arith, find_attempt-contains attempt action xs)

-- Under distinct ids, an attempt of one action is none of another's.
pub has_submitting-update :
    (id action attempt : String) (f : Attempt → Attempt)
    → ((a : Attempt) → (f a).action_id ≡ a.action_id)
    → (xs : List Attempt) → IsDistinct (attempt_ids xs)
    → is_found attempt action xs ≡ true
    → (action == id) ≡ false
    → has_submitting id (update_attempts (λ a. a.id == attempt) f xs) ≡ has_submitting id xs
unfolding has_submitting find_attempt update_attempts
has_submitting-update id action attempt f same_action [] d found other = refl
has_submitting-update id action attempt f same_action (a ∷ xs) d found other = ground (
  arith,
  same_action a,
  update_attempts-off attempt f xs,
  find_attempt-contains attempt action xs,
  has_submitting-update id action attempt f same_action xs d.1,
  eq_iff a.id attempt,
  eq_iff a.action_id action,
  eq_iff a.action_id id,
  eq_iff action id,
)
