-- ===== src/Messages/Held.antt =====
-- A key that was used stays known (`idempotency_keys` under `submitMessage` and
-- `clearMessageHistory` of apps/daemon/src/store.ts).
use nanasa.Prelude.{
  ℕ, String, true, ◌≡◌, refl, sym, ap, subst, ◌⊎◌, inl, inr, Option, none, some, List, [], ◌∷◌,
  ◌++◌, map, arith, if_ind, find, keep, drop, is_empty, Bool-cases,
}
use nanasa.Messages.Types.{
  Command, Group, Submission, Cleared, Response, KeyRow, Tables, Fault, done, require_done,
  find_group, is_command,
}
use nanasa.Messages.Store.{
  Call, insert_message, prune, delete_messages, message_ids, newest_first, is_busy, in_group,
  submit_scope, clear_scope, clear_group, submit_to, invalidated,
}
use nanasa.Messages.Operations.{
  has_key, read_submission, read_cleared, submit_message, clear_messages,
}
use nanasa.Messages.Keyed.{SameRows, execute_idempotent_cases}
use nanasa.Messages.Submits.{Sent, submit_to-Sent}
use nanasa.Messages.Sequences.{Operated, here, submits, clears}

-- The row of a key has the submission as its response, or its response has expired.
abbrev pub Remembers : Submission → KeyRow → Type 0
Remembers s row =
    ((row.invalidated_at ≡ none) × (row.response ≡ Response.submitted s))
    ⊎ ((n : ℕ) × (row.invalidated_at ≡ some n))

module _ (scope key : String) (s : Submission) where
  -- The key is known, with the submission or expired.
  abbrev pub IsHeld : List KeyRow → Type 0
  IsHeld keys = (row : KeyRow) × (find (has_key scope key) keys ≡ some row) × Remembers s row

  find-append :
      (xs ys : List KeyRow) (row : KeyRow)
      → find (has_key scope key) xs ≡ some row
      → find (has_key scope key) (xs ++ ys) ≡ some row
  find-append [] ys row h = absurd (cc)
  find-append (x ∷ xs) ys row h = elim (Bool-cases (has_key scope key x)) [
    | inl e ↦ rw e (rw e at h)
    | inr e ↦ rw e (find-append xs ys row (rw e at h))
  ]

  find-invalidated :
      (sc : String) (ids : List String) (now : ℕ) (xs : List KeyRow) (row : KeyRow)
      → find (has_key scope key) xs ≡ some row
      → find (has_key scope key) (map (invalidated sc ids now) xs)
        ≡ some (invalidated sc ids now row)
  find-invalidated sc ids now [] row h = absurd (cc)
  find-invalidated sc ids now (x ∷ xs) row h =
      let same : has_key scope key (invalidated sc ids now x) ≡ has_key scope key x =
        if_ind (λ (y : KeyRow). has_key scope key y ≡ has_key scope key x) _ _ _ refl refl in
      rw same (elim (Bool-cases (has_key scope key x)) [
        | inl e ↦
            let found : some x ≡ some row = rw e at h in
            let is_it : x ≡ row = ground arith in
            rw e (ap (λ (y : KeyRow). some (invalidated sc ids now y)) is_it)
        | inr e ↦ rw e (find-invalidated sc ids now xs row (rw e at h))
      ])

  pub find-invalidated_none :
      (sc : String) (ids : List String) (now : ℕ) (xs : List KeyRow)
      → find (has_key scope key) xs ≡ none
      → find (has_key scope key) (map (invalidated sc ids now) xs) ≡ none
  find-invalidated_none sc ids now [] h = refl
  find-invalidated_none sc ids now (x ∷ xs) h =
      let same : has_key scope key (invalidated sc ids now x) ≡ has_key scope key x =
        if_ind (λ (y : KeyRow). has_key scope key y ≡ has_key scope key x) _ _ _ refl refl in
      rw same (elim (Bool-cases (has_key scope key x)) [
        | inl e ↦ let found : some x ≡ none = rw e at h in absurd (cc)
        | inr e ↦ rw e (find-invalidated_none sc ids now xs (rw e at h))
      ])

  pub find-append_none :
      (xs : List KeyRow) (row : KeyRow)
      → find (has_key scope key) xs ≡ none
      → has_key scope key row ≡ true
      → find (has_key scope key) (xs ++ row ∷ []) ≡ some row
  find-append_none [] row h k = rw k refl
  find-append_none (x ∷ xs) row h k = elim (Bool-cases (has_key scope key x)) [
    | inl e ↦ let found : some x ≡ none = rw e at h in absurd (cc)
    | inr e ↦ rw e (find-append_none xs row (rw e at h) k)
  ]

  invalidated-Remembers :
      (sc : String) (ids : List String) (now : ℕ) (row : KeyRow)
      → Remembers s row
      → Remembers s (invalidated sc ids now row)
  invalidated-Remembers sc ids now row h = if_ind (Remembers s) _ _ _ (inr (now, refl)) h

  IsHeld-invalidated :
      (sc : String) (ids : List String) (now : ℕ) (keys : List KeyRow)
      → IsHeld keys
      → IsHeld (map (invalidated sc ids now) keys)
  IsHeld-invalidated sc ids now keys (row, found, holds) = (
    invalidated sc ids now row,
    find-invalidated sc ids now keys row found,
    invalidated-Remembers sc ids now row holds,
  )

  IsHeld-SameRows : (t u : Tables) → SameRows t u → IsHeld t.keys → IsHeld u.keys
  IsHeld-SameRows t u (_, _, _, (more, e)) (row, found, holds) =
      subst IsHeld (sym e) (row, find-append t.keys more row found, holds)

-- Pruning leaves the keys, or invalidates some.
abbrev pub Pruned : String → ℕ → List KeyRow → List KeyRow → Type 0
Pruned group_id now keys after =
    (keys ≡ after)
    ⊎ ((ids : List String) × (map (invalidated (submit_scope group_id) ids now) keys ≡ after))

prune-Pruned :
    (group_id : String) (retain now : ℕ) (t : Tables) {after : Tables}
    → prune group_id retain now t ≡ done after
    → Pruned group_id now t.keys after.keys
unfolding prune delete_messages
prune-Pruned group_id retain now t {after} e =
    let victims = message_ids (drop retain (newest_first (keep (in_group group_id) t.messages))) in
    elim (Bool-cases (is_empty victims)) [
      | inl none_left ↦ inl (ground arith)
      | inr some_left ↦ elim (Bool-cases (is_busy victims now t.deliveries)) [
        | inl busy ↦ absurd (ground arith)
        | inr idle ↦ inr (victims, ground arith)
      ]
    ]

pub Sent-Pruned :
    (group_id : String) (c : Command) (call : Call) (t : Tables) (s : Submission) (after : Tables)
    → Sent group_id c call t s after
    → Pruned group_id call.now t.keys after.keys
unfolding insert_message
Sent-Pruned group_id c call t s after sent =
    prune-Pruned group_id call.retention call.now (insert_message s.message s.outcomes t)
      sent.pruned

clear_group-Pruned :
    (group_id : String) (now : ℕ) (t : Tables) (o : Option Group) {c : Cleared} {after : Tables}
    → clear_group group_id now t o ≡ done (c, after)
    → Pruned group_id now t.keys after.keys
unfolding clear_group delete_messages
clear_group-Pruned group_id now t none e = absurd (cc)
clear_group-Pruned group_id now t (some group) {c} {after} e =
    let ids = message_ids (keep (in_group group_id) t.messages) in
    elim (Bool-cases (is_busy ids now t.deliveries)) [
      | inl busy ↦ absurd (ground arith)
      | inr idle ↦ inr (ids, ground arith)
    ]

module _ (scope key : String) (s : Submission) where
  IsHeld-Pruned :
      (group_id : String) (now : ℕ) (keys after : List KeyRow)
      → Pruned group_id now keys after
      → IsHeld scope key s keys
      → IsHeld scope key s after
  IsHeld-Pruned group_id now keys after (inl e) h = subst (IsHeld scope key s) e h
  IsHeld-Pruned group_id now keys after (inr (ids, e)) h =
      subst (IsHeld scope key s) e
        (IsHeld-invalidated scope key s (submit_scope group_id) ids now keys h)

  submit_message-IsHeld :
      (group_id : String) (c : Command) (key' : Option String) (call : Call) (t : Tables)
      {s' : Submission} {after : Tables}
      → IsHeld scope key s t.keys
      → submit_message group_id c key' call t ≡ done (s', after)
      → IsHeld scope key s after.keys
  unfolding submit_message
  submit_message-IsHeld group_id c key' call t {s'} {after} h e =
      let (_, keyed) = require_done (is_command c) Fault.invalid _ e in
      elim (execute_idempotent_cases Response.submitted read_submission
        (λ t. submit_to group_id c call t (find_group group_id t.groups)) (submit_scope group_id)
        (some call.digest) t key' keyed) [
          | inl same ↦ subst (λ (u : Tables). IsHeld scope key s u.keys) same h
          | inr (stored, ran, rows) ↦ IsHeld-SameRows scope key s stored after rows (
              IsHeld-Pruned group_id call.now t.keys stored.keys
                (Sent-Pruned group_id c call t s' stored
                  (submit_to-Sent group_id c call t (find_group group_id t.groups) refl ran))
                h)
        ]

  clear_messages-IsHeld :
      (group_id : String) (key' : Option String) (call : Call) (t : Tables) {c : Cleared}
      {after : Tables}
      → IsHeld scope key s t.keys
      → clear_messages group_id key' call t ≡ done (c, after)
      → IsHeld scope key s after.keys
  unfolding clear_messages
  clear_messages-IsHeld group_id key' call t {c} {after} h e =
      elim (execute_idempotent_cases Response.cleared read_cleared
        (λ t. clear_group group_id call.now t (find_group group_id t.groups)) (clear_scope group_id)
        none t key' e) [
          | inl same ↦ subst (λ (u : Tables). IsHeld scope key s u.keys) same h
          | inr (stored, ran, rows) ↦ IsHeld-SameRows scope key s stored after rows (
              IsHeld-Pruned group_id call.now t.keys stored.keys
                (clear_group-Pruned group_id call.now t (find_group group_id t.groups) ran) h)
        ]

  pub Operated-IsHeld :
      {t u : Tables} → IsHeld scope key s t.keys → Operated t u → IsHeld scope key s u.keys
  Operated-IsHeld h here = h
  Operated-IsHeld h (submits before group_id c key' call s' e) =
      submit_message-IsHeld group_id c key' call _ (Operated-IsHeld h before) e
  Operated-IsHeld h (clears before group_id key' call c e) =
      clear_messages-IsHeld group_id key' call _ (Operated-IsHeld h before) e
