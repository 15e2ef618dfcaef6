-- ===== src/Messages/Store.antt =====
-- `submitMessage`, `clearMessageHistory` and what they call (apps/daemon/src/store.ts). The time, the
-- digest of a request, new ids and the retention of the configuration are arguments. An operation
-- that fails leaves the tables as they were.
use nanasa.Prelude.{
  ℕ, ◌+◌, String, ◌==◌, Bool, true, false, not, ◌&&◌, Option, none, some, List, [], ◌∷◌, ◌++◌, map,
  if◌then◌else◌, ltb, leb, any, keep, drop, contains, length, is_empty, some_and,
}
use nanasa.Delivery.Types.{Delivery, DeliveryStatus}
use nanasa.Messages.Types.{
  Message, Command, Group, Submission, Cleared, Response, KeyRow, Tables, Fault, Answer, done,
  failed, require, ◌>>=◌, ◌>>◌, append_text, max_message_fan_out,
}
use nanasa.Messages.Audiences.{validate_sender, resolve_recipients}
use nanasa.Messages.Causation.{Causation, derive_causation}

-- The time and what the daemon draws for one call.
pub record Call : Type 0 where
  pub now : ℕ
  pub message_id : String
  pub conversation_id : String
  pub digest : String
  pub retention : ℕ

-- `#resolveDelivery`, as the row that `#insertDelivery` writes
abbrev pub queued : String → ℕ → String → Delivery
queued message_id now recipient = record {
  message_id = message_id;
  recipient_member_id = recipient;
  reason = none;
  status = DeliveryStatus.queued;
  attempts = 0;
  lease_owner = none;
  lease_expires_at = none;
  next_attempt_at = none;
  run_id = none;
  run_generation = none;
  updated_at = now;
}

-- `UPDATE groups SET message_sequence = message_sequence + 1`
abbrev pub counted : Group → Group
counted g = record g { message_sequence = g.message_sequence + 1 }

abbrev pub count_message : String → List Group → List Group
count_message id = map (λ g. if g.id == id then counted g else g)

abbrev pub in_group : String → Message → Bool
in_group group_id m = m.group_id == group_id

-- `ORDER BY group_seq DESC`
unfoldable pub insert_newest : Message → List Message → List Message
insert_newest m [] = m ∷ []
insert_newest m (n ∷ ns) =
    let later = insert_newest m ns in if ltb m.group_seq n.group_seq then n ∷ later else m ∷ n ∷ ns

unfoldable pub newest_first : List Message → List Message
unfolding insert_newest
newest_first [] = []
newest_first (m ∷ ms) = insert_newest m (newest_first ms)

abbrev pub message_ids : List Message → List String
message_ids [] = []
message_ids (m ∷ ms) = m.id ∷ message_ids ms

abbrev is_held : DeliveryStatus → Bool
is_held DeliveryStatus.received = true
is_held DeliveryStatus.delivering = true
is_held _ = false

-- A delivery of one of the messages is held under a lease.
unfoldable pub is_busy : List String → ℕ → List Delivery → Bool
is_busy ids now deliveries =
    any
      (λ d.
        contains d.message_id ids
        && (is_held d.status && some_and d.lease_expires_at (λ t. ltb now t)))
      deliveries

abbrev pub unless_deleted : List String → Option String → Option String
unless_deleted ids none = none
unless_deleted ids (some id) = if contains id ids then none else some id

-- `#nullMessageReferences`, in a message
abbrev pub without_references : List String → Message → Message
without_references ids m = record m {
  reply_to = unless_deleted ids m.reply_to;
  root_id = unless_deleted ids m.root_id;
  causation_id = unless_deleted ids m.causation_id;
}

unfoldable pub submit_scope : String → String
submit_scope group_id = append_text "group." (append_text group_id ".message.submit")

unfoldable pub clear_scope : String → String
clear_scope group_id = append_text "group." (append_text group_id ".messages.clear")

abbrev pub answers_for : List String → Response → Bool
answers_for ids (Response.submitted s) = contains s.message.id ids
answers_for ids _ = false

-- `#invalidateMessageIdempotency`
abbrev pub invalidated : String → List String → ℕ → KeyRow → KeyRow
invalidated scope ids now row =
    if row.scope == scope && answers_for ids row.response
    then record row { response = Response.null; invalidated_at = some now }
    else row

-- The tables without the messages of the ids.
unfoldable pub delete_messages : String → List String → ℕ → Tables → Tables
delete_messages group_id ids now t = record t {
  messages = map (without_references ids) (keep (λ m. not (contains m.id ids)) t.messages);
  deliveries = keep (λ d. not (contains d.message_id ids)) t.deliveries;
  keys = map (invalidated (submit_scope group_id) ids now) t.keys;
  action_messages = map (unless_deleted ids) t.action_messages;
}

-- `#pruneGroupMessages`
unfoldable pub prune : String → ℕ → ℕ → Tables → Answer Tables
unfolding newest_first is_busy delete_messages
prune group_id retain now t =
    let victims = message_ids (drop retain (newest_first (keep (in_group group_id) t.messages))) in
    if is_empty victims
    then done t
    else (require (not (is_busy victims now t.deliveries)) Fault.message_retention_busy
        >> done (delete_messages group_id victims now t))

-- The message that a command becomes.
abbrev pub message_of : String → Command → Call → Group → Causation → Message
message_of group_id c call group causation = record {
  id = call.message_id;
  group_id = group_id;
  group_seq = group.message_sequence + 1;
  conversation_id = causation.conversation_id;
  intent = c.intent;
  sender = c.sender;
  audience = c.audience;
  body = c.body;
  expires_at = c.expires_at;
  reply_to = c.reply_to;
  root_id = causation.root_id;
  causation_id = c.causation_id;
  hop = causation.hop;
  created_at = call.now;
}

-- The rows that a message adds.
unfoldable pub insert_message : Message → List Delivery → Tables → Tables
insert_message m outcomes t = record t {
  groups = count_message m.group_id t.groups;
  messages = t.messages ++ m ∷ [];
  deliveries = t.deliveries ++ outcomes;
}

-- The rows of a message with its recipients and its place.
unfoldable pub send_placed :
    String
    → Command
    → Call
    → Tables
    → Group
    → List String
    → Causation
    → Answer (Submission × Tables)
unfolding insert_message prune
send_placed group_id c call t group recipients causation =
    let m = message_of group_id c call group causation in
    let outcomes = map (queued call.message_id call.now) recipients in
    prune group_id call.retention call.now (insert_message m outcomes t) >>= λ after.
    done (record { message = m; outcomes = outcomes }, after)

unfoldable pub place_resolved : String → Command → Call → Tables → List String → Answer Causation
place_resolved group_id c call t recipients =
    require (not (is_empty recipients)) Fault.empty_audience
    >> require (leb (length recipients) max_message_fan_out) Fault.message_fan_out_exceeded
    >> derive_causation group_id c recipients call.conversation_id t.messages t.deliveries

unfoldable pub send_resolved :
    String → Command → Call → Tables → Group → List String → Answer (Submission × Tables)
unfolding send_placed place_resolved
send_resolved group_id c call t group recipients =
    place_resolved group_id c call t recipients >>= send_placed group_id c call t group recipients

-- The operation of `submitMessage`
unfoldable pub submit_to :
    String → Command → Call → Tables → Option Group → Answer (Submission × Tables)
unfolding send_resolved
submit_to group_id c call t none = failed Fault.group_not_found
submit_to group_id c call t (some group) =
    validate_sender group_id c.sender t.memberships t.runs
    >> resolve_recipients group c.sender c.audience t.memberships
    >>= send_resolved group_id c call t group

-- The operation of `clearMessageHistory`
unfoldable pub clear_group : String → ℕ → Tables → Option Group → Answer (Cleared × Tables)
unfolding is_busy delete_messages
clear_group group_id now t none = failed Fault.group_not_found
clear_group group_id now t (some group) =
    let ids = message_ids (keep (in_group group_id) t.messages) in
    require (not (is_busy ids now t.deliveries)) Fault.message_history_busy
    >> done (
      record {
        group_id = group_id;
        deleted_messages = length ids;
        deleted_deliveries = length (keep (λ d. contains d.message_id ids) t.deliveries);
      },
      delete_messages group_id ids now t,
    )
