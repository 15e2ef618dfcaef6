-- ===== src/Messages/Sequences.antt =====
-- The messages of a group are in the order of their numbers, and its counter is not below the last
-- (`submitMessage`, `clearMessageHistory` of apps/daemon/src/store.ts).
use nanasa.Prelude.{
  ℕ, ◌+◌, String, ◌==◌, eq_iff, not, ◌≡◌, refl, sym, ap, ◌∙◌, subst, Option, none, some, List, [],
  ◌∷◌, arith, if◌then◌else◌, keep, contains, Bool-cases, inl, inr, is_empty, drop,
}
use nanasa.Delivery.Types.{Delivery}
use nanasa.Messages.Types.{
  Command, Group, Message, Submission, Cleared, Tables, Fault, Response, done, find_group,
  require_done, is_command,
}
use nanasa.Messages.Store.{
  Call, counted, count_message, in_group, insert_message, prune, delete_messages, message_ids,
  newest_first, is_busy, submit_scope, clear_scope, clear_group, submit_to,
}
use nanasa.Messages.Operations.{submit_message, clear_messages}
use nanasa.Messages.Submits.{Sent, submit_to-Sent}
use nanasa.Messages.Rising.{Rises, Rises-keep, Rises-map, Rises-append_next, Rises-append_other}
use nanasa.Messages.Keyed.{SameRows, execute_idempotent_cases}
use nanasa.Messages.Operations.{read_submission, read_cleared}

-- The counter of a group; a group without a row has no messages either.
abbrev pub counter_of : Option Group → ℕ
counter_of none = 0
counter_of (some g) = g.message_sequence

abbrev pub IsSequenced : Tables → Type 0
IsSequenced t =
    (group_id : String) → Rises group_id 0 (counter_of (find_group group_id t.groups)) t.messages

-- The group after its message is counted.
abbrev counted_of : Option Group → Option Group
counted_of none = none
counted_of (some g) = some (counted g)

find_group-count :
    (id g : String) (gs : List Group)
    → find_group g (count_message id gs)
      ≡ (if id == g then counted_of (find_group g gs) else find_group g gs)
unfolding find_group
find_group-count id g [] = ground arith
find_group-count id g (x ∷ gs) =
    ground (arith, find_group-count id g gs, eq_iff x.id id, eq_iff x.id g, eq_iff id g)

insert_message-IsSequenced :
    (m : Message) (outcomes : List Delivery) (t : Tables) (group : Group)
    → find_group m.group_id t.groups ≡ some group
    → m.group_seq ≡ group.message_sequence + 1
    → IsSequenced t
    → IsSequenced (insert_message m outcomes t)
unfolding insert_message
insert_message-IsSequenced m outcomes t group found next h g = elim (Bool-cases (m.group_id == g)) [
  | inl e ↦
      let same : m.group_id ≡ g = ground (arith, eq_iff m.group_id g) in
      let at : find_group g t.groups ≡ some group =
        subst (λ x. find_group x t.groups ≡ some group) same found in
      let before : Rises g 0 group.message_sequence t.messages =
        subst (λ o. Rises g 0 (counter_of o) t.messages) at (h g) in
      rw (find_group-count m.group_id g t.groups)
        (rw e (rw at (Rises-append_next g 0 group.message_sequence t.messages m before e next)))
  | inr e ↦
      rw (find_group-count m.group_id g t.groups)
        (rw e (Rises-append_other g 0 (counter_of (find_group g t.groups)) t.messages m (h g) e))
]

delete_messages-IsSequenced :
    (group_id : String) (ids : List String) (now : ℕ) (t : Tables)
    → IsSequenced t
    → IsSequenced (delete_messages group_id ids now t)
unfolding delete_messages
delete_messages-IsSequenced group_id ids now t h g =
    Rises-map g 0 _ ids _ (Rises-keep g 0 _ (λ m. not (contains m.id ids)) t.messages (h g))

prune-IsSequenced :
    (group_id : String) (retain now : ℕ) (t : Tables) {after : Tables}
    → IsSequenced t
    → prune group_id retain now t ≡ done after
    → IsSequenced after
unfolding prune
prune-IsSequenced group_id retain now t {after} h e =
    let victims = message_ids (drop retain (newest_first (keep (in_group group_id) t.messages))) in
    elim (Bool-cases (is_empty victims)) [
      | inl none_left ↦ let same : t ≡ after = ground arith in subst IsSequenced same h
      | inr some_left ↦ elim (Bool-cases (is_busy victims now t.deliveries)) [
        | inl busy ↦ absurd (ground arith)
        | inr idle ↦
            let same : delete_messages group_id victims now t ≡ after = ground arith in
            subst IsSequenced same (delete_messages-IsSequenced group_id victims now t h)
      ]
    ]

Sent-IsSequenced :
    (group_id : String) (c : Command) (call : Call) (t : Tables) (s : Submission) (after : Tables)
    → IsSequenced t
    → Sent group_id c call t s after
    → IsSequenced after
Sent-IsSequenced group_id c call t s after h sent =
    let in_it : s.message.group_id ≡ group_id = ap (λ (m : Message). m.group_id) sent.message in
    prune-IsSequenced group_id call.retention call.now (insert_message s.message s.outcomes t)
      (insert_message-IsSequenced s.message s.outcomes t sent.group
        (ap (λ g. find_group g t.groups) in_it ∙ sent.found)
        (ap (λ (m : Message). m.group_seq) sent.message) h)
      sent.pruned

SameRows-IsSequenced : (t u : Tables) → SameRows t u → IsSequenced t → IsSequenced u
SameRows-IsSequenced t u e h g =
    subst (λ ms. Rises g 0 (counter_of (find_group g u.groups)) ms) (sym e.0)
      (subst (λ gs. Rises g 0 (counter_of (find_group g gs)) t.messages) (sym e.1) (h g))

submit_message-IsSequenced :
    (group_id : String) (c : Command) (key : Option String) (call : Call) (t : Tables)
    {s : Submission} {after : Tables}
    → IsSequenced t
    → submit_message group_id c key call t ≡ done (s, after)
    → IsSequenced after
unfolding submit_message
submit_message-IsSequenced group_id c key call t {s} {after} h e =
    let (_, keyed) = require_done (is_command c) Fault.invalid _ e in
    elim (execute_idempotent_cases Response.submitted read_submission
      (λ t. submit_to group_id c call t (find_group group_id t.groups)) (submit_scope group_id)
      (some call.digest) t key keyed) [
        | inl same ↦ subst IsSequenced same h
        | inr (stored, ran, rows) ↦ SameRows-IsSequenced stored after rows (
            Sent-IsSequenced group_id c call t s stored h
              (submit_to-Sent group_id c call t (find_group group_id t.groups) refl ran))
      ]

clear_group-IsSequenced :
    (group_id : String) (now : ℕ) (t : Tables) (o : Option Group) {c : Cleared} {after : Tables}
    → IsSequenced t
    → clear_group group_id now t o ≡ done (c, after)
    → IsSequenced after
unfolding clear_group
clear_group-IsSequenced group_id now t none h e = absurd (cc)
clear_group-IsSequenced group_id now t (some group) {c} {after} h e =
    let ids = message_ids (keep (in_group group_id) t.messages) in
    elim (Bool-cases (is_busy ids now t.deliveries)) [
      | inl busy ↦ absurd (ground arith)
      | inr idle ↦
          let same : delete_messages group_id ids now t ≡ after = ground arith in
          subst IsSequenced same (delete_messages-IsSequenced group_id ids now t h)
    ]

clear_messages-IsSequenced :
    (group_id : String) (key : Option String) (call : Call) (t : Tables) {c : Cleared}
    {after : Tables}
    → IsSequenced t
    → clear_messages group_id key call t ≡ done (c, after)
    → IsSequenced after
unfolding clear_messages
clear_messages-IsSequenced group_id key call t {c} {after} h e =
    elim (execute_idempotent_cases Response.cleared read_cleared
      (λ t. clear_group group_id call.now t (find_group group_id t.groups)) (clear_scope group_id)
      none t key e) [
        | inl same ↦ subst IsSequenced same h
        | inr (stored, ran, rows) ↦
            SameRows-IsSequenced stored after rows
              (clear_group-IsSequenced group_id call.now t (find_group group_id t.groups) h ran)
      ]

-- The operations on messages that succeed, of any caller and in any order.
pub data Operated (start : Tables) : Tables → Type 0 where
  here : Operated start start
  submits :
      {t u : Tables}
      → Operated start t
      → (group_id : String) (c : Command) (key : Option String) (call : Call) (s : Submission)
      → submit_message group_id c key call t ≡ done (s, u)
      → Operated start u
  clears :
      {t u : Tables}
      → Operated start t
      → (group_id : String) (key : Option String) (call : Call) (c : Cleared)
      → clear_messages group_id key call t ≡ done (c, u)
      → Operated start u

-- From tables where this holds, as it does of empty ones, and whatever is submitted, cleared and
-- pruned: the messages of each group stand in the table in the order of their numbers, no number
-- twice, and the next number of the group is above all of them.
pub Operated-IsSequenced : {t u : Tables} → IsSequenced t → Operated t u → IsSequenced u
Operated-IsSequenced h here = h
Operated-IsSequenced h (submits before group_id c key call s e) =
    submit_message-IsSequenced group_id c key call _ (Operated-IsSequenced h before) e
Operated-IsSequenced h (clears before group_id key call c e) =
    clear_messages-IsSequenced group_id key call _ (Operated-IsSequenced h before) e
