-- ===== src/Messages/Causation.antt =====
-- `#deriveMessageCausation` (apps/daemon/src/store.ts): where a message stands among those that it
-- replies to or is caused by. The walk up the chain takes fuel; its `visited` set is in the order
-- of the visits.
use nanasa.Prelude.{
  ℕ, zero, suc, ◌+◌, String, ◌==◌, Bool, true, false, not, ◌&&◌, ◌||◌, Option, none, some, List, [],
  ◌∷◌, max, if◌then◌else◌, ltb, leb, any, find, keep, contains, to_set, head?, or_else, or_option,
  some_and, length,
}
use nanasa.Delivery.Types.{Delivery}
use nanasa.Messages.Types.{
  Sender, Message, Command, Fault, Answer, done, failed, require, ◌>>=◌, ◌>>◌, find_message,
  max_message_causal_depth, max_automated_replies, is_agent, append_text,
}
use nanasa.Messages.Audiences.{sort_texts, is_sender}

-- `[…].filter(Boolean)`: what is there
abbrev pub present : List (Option String) → List String
present [] = []
present (none ∷ os) = present os
present (some a ∷ os) = a ∷ present os

-- `edgeIds`
abbrev pub edge_ids : Command → List String
edge_ids c = to_set (present (c.reply_to ∷ c.causation_id ∷ []))

-- The message is one that the sender received or sent.
unfoldable pub is_visible : Sender → Message → List Delivery → Bool
is_visible (Sender.operator _) m deliveries = true
is_visible (Sender.agent member_id run_id) m deliveries =
    any (λ d. d.message_id == m.id && d.recipient_member_id == member_id) deliveries
    || is_sender m.sender member_id

unfoldable pub parent_found : String → Sender → List Delivery → Option Message → Answer Message
unfolding is_visible
parent_found group_id sender deliveries none = failed Fault.message_causation_invalid
parent_found group_id sender deliveries (some m) =
    require (m.group_id == group_id) Fault.message_causation_invalid
    >> require (is_visible sender m deliveries) Fault.message_causation_forbidden
    >> done m

unfoldable pub find_parents :
    String → Sender → List Message → List Delivery → List String → Answer (List Message)
unfolding parent_found find_message
find_parents group_id sender messages deliveries [] = done []
find_parents group_id sender messages deliveries (id ∷ ids) =
    parent_found group_id sender deliveries (find_message id messages) >>= λ parent.
    find_parents group_id sender messages deliveries ids >>= λ parents. done (parent ∷ parents)

-- `conversationIds.size > 1` is not so.
unfoldable pub one_conversation : List Message → Bool
one_conversation [] = true
one_conversation (p ∷ ps) = not (any (λ q. not (q.conversation_id == p.conversation_id)) ps)

abbrev pub conversation_of : Option Message → Option String
conversation_of none = none
conversation_of (some m) = some m.conversation_id

-- `Math.max(…)` of hops, plus one
unfoldable pub next_hop : List Message → ℕ
next_hop [] = 0
next_hop (p ∷ ps) = max (p.hop + 1) (next_hop ps)

abbrev pub is_automated : String → String → Message → Bool
is_automated group_id conversation_id m =
    m.group_id == group_id && (m.conversation_id == conversation_id && is_agent m.sender)

abbrev pub join_texts : List String → String
join_texts [] = ""
join_texts (a ∷ []) = a
join_texts (a ∷ b ∷ rest) = append_text a (append_text "," (join_texts (b ∷ rest)))

abbrev pub actor_of : Sender → String
actor_of (Sender.agent member_id _) = append_text "agent:" member_id
actor_of (Sender.operator id) = append_text "operator:" id

-- `signature`, of a sender and sorted recipients
unfoldable pub signature_of : Sender → List String → String
signature_of sender recipients =
    append_text (actor_of sender) (append_text "->" (join_texts recipients))

unfoldable pub recipients_of : String → List Delivery → List String
recipients_of id [] = []
recipients_of id (d ∷ ds) =
    let rest = recipients_of id ds in
    if d.message_id == id then d.recipient_member_id ∷ rest else rest

-- How the walk up a causal chain ends; `exhausted` is out of fuel.
pub data Walk : Type 0 where
  free cycle exhausted : Walk

abbrev pub next_cursor : List Message → Option String → Option Message
next_cursor messages none = none
next_cursor messages (some id) = find_message id messages

-- The `while (cursor !== undefined)` loop
unfoldable pub walk :
    List Message → List Delivery → String → ℕ → List String → Option Message → Walk
unfolding signature_of recipients_of sort_texts
walk messages deliveries signature zero visited cursor = Walk.exhausted
walk messages deliveries signature (suc fuel) visited none = Walk.free
walk messages deliveries signature (suc fuel) visited (some m) =
    let rest =
      walk messages deliveries signature fuel (m.id ∷ visited)
        (next_cursor messages (or_option m.causation_id m.reply_to)) in
    if contains m.id visited
    then Walk.cycle
    else if signature_of m.sender (sort_texts (recipients_of m.id deliveries)) == signature
    then Walk.cycle
    else rest

-- The message at which the walk starts.
abbrev pub first_cursor : Option String → List Message → Option Message
first_cursor causation_id parents =
    or_option (find (λ p. some_and causation_id (λ id. p.id == id)) parents) (head? parents)

abbrev pub is_free : Walk → Bool
is_free Walk.free = true
is_free _ = false

pub record Causation : Type 0 where
  pub conversation_id : String
  pub root_id : Option String
  pub hop : ℕ

abbrev pub root_of : Option Message → Option String
root_of none = none
root_of (some m) = some (or_else m.root_id m.id)

abbrev pub agrees : Option String → Option String → Bool
agrees none asked = true
agrees (some inherited) none = true
agrees (some inherited) (some asked) = asked == inherited

unfoldable pub place :
    String
    → Command
    → List String
    → String
    → List Message
    → List Delivery
    → List Message
    → Answer Causation
unfolding next_hop one_conversation walk
place group_id c recipients fresh messages deliveries parents =
    let inherited = conversation_of (head? parents) in
    let conversation = or_else (or_option inherited c.conversation_id) fresh in
    let signature = signature_of c.sender (sort_texts recipients) in
    require (one_conversation parents) Fault.message_conversation_mismatch
    >> require (agrees inherited c.conversation_id) Fault.message_conversation_mismatch
    >> require (leb (next_hop parents) max_message_causal_depth) Fault.message_causal_depth_exceeded
    >> require
        (not (is_agent c.sender)
          || ltb (length (keep (is_automated group_id conversation) messages))
              max_automated_replies)
        Fault.message_automated_reply_budget_exhausted
    >> require
        (is_free (
          walk messages deliveries signature (suc (length messages)) []
            (first_cursor c.causation_id parents)))
        Fault.message_causal_cycle
    >> done (record {
      conversation_id = conversation;
      root_id = root_of (head? parents);
      hop = next_hop parents;
    })

-- `#deriveMessageCausation`; `fresh` is a new conversation id
unfoldable pub derive_causation :
    String → Command → List String → String → List Message → List Delivery → Answer Causation
unfolding find_parents place
derive_causation group_id c recipients fresh messages deliveries =
    find_parents group_id c.sender messages deliveries (edge_ids c) >>= λ parents.
    place group_id c recipients fresh messages deliveries parents
