-- ===== src/Messages/Audiences.antt =====
-- Who may send, and who receives: `#validateSender` and `#resolveRecipients` of
-- apps/daemon/src/store.ts.
use Prim.Native.String.{compare}
use Prim.Native.Nat.{Ordering}
use nanasa.Prelude.{
  String, ◌==◌, Bool, true, false, not, ◌&&◌, Option, none, some, List, [], ◌∷◌, if◌then◌else◌,
  nat_eq, any, find, keep,
}
use nanasa.Delivery.Types.{RunStatus, Membership, Run}
use nanasa.Delivery.Rows.{is_member}
use nanasa.Messages.Types.{Sender, Audience, Group, Fault, Answer, done, require, ◌>>◌}

abbrev is_live : RunStatus → Bool
is_live RunStatus.starting = true
is_live RunStatus.running = true
is_live _ = false

-- The run of an id is an active run of the member.
unfoldable pub is_sender_run : String → String → Option Run → Bool
is_sender_run group_id member_id none = false
is_sender_run group_id member_id (some run) =
    run.group_id == group_id && (run.member_id == member_id && is_live run.status)

-- `#validateSender`
unfoldable pub validate_sender : String → Sender → List Membership → List Run → Answer (Unit {0})
unfolding is_sender_run
validate_sender group_id (Sender.operator _) memberships runs = done tt
validate_sender group_id (Sender.agent member_id run_id) memberships runs =
    require (is_member group_id member_id memberships) Fault.sender_not_active
    >> require (is_sender_run group_id member_id (find (λ r. r.id == run_id) runs))
        Fault.invalid_sender_run

-- `ORDER BY` a text, and `sort()`: both by code points (a surrogate pair of JavaScript aside).
abbrev pub text_before : String → String → Bool
text_before a b = elim (compare a b) [ Ordering.lt ↦ true | _ ↦ false ]

unfoldable pub insert_text : String → List String → List String
insert_text a [] = a ∷ []
insert_text a (b ∷ bs) =
    let later = insert_text a bs in if text_before b a then b ∷ later else a ∷ b ∷ bs

unfoldable pub sort_texts : List String → List String
unfolding insert_text
sort_texts [] = []
sort_texts (a ∷ as') = insert_text a (sort_texts as')

-- The member ids of a group, without the order.
unfoldable pub member_ids : String → List Membership → List String
member_ids group_id [] = []
member_ids group_id (m ∷ ms) =
    let rest = member_ids group_id ms in
    if m.group_id == group_id && m.active then m.member_id ∷ rest else rest

abbrev pub is_sender : Sender → String → Bool
is_sender (Sender.agent member_id _) m = m == member_id
is_sender (Sender.operator _) m = false

unfoldable pub resolve_requested :
    String → Sender → List String → List Membership → Answer (List String)
resolve_requested group_id sender requested memberships =
    require (not (any (is_sender sender) requested)) Fault.self_recipient_forbidden
    >> require (not (any (λ m. not (is_member group_id m memberships)) requested))
        Fault.recipient_not_active
    >> done requested

-- `#resolveRecipients`
unfoldable pub resolve_recipients :
    Group → Sender → Audience → List Membership → Answer (List String)
unfolding resolve_requested sort_texts member_ids
resolve_recipients group sender (Audience.everyone revision) memberships =
    require (nat_eq revision group.membership_revision) Fault.membership_revision_mismatch
    >> done (keep (λ m. not (is_sender sender m)) (sort_texts (member_ids group.id memberships)))
resolve_recipients group sender (Audience.dm member_id) memberships =
    resolve_requested group.id sender (member_id ∷ []) memberships
resolve_recipients group sender (Audience.multicast ids) memberships =
    resolve_requested group.id sender ids memberships
