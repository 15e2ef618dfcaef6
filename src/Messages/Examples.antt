-- ===== src/Messages/Examples.antt =====
-- An operator writes to everyone in a group, an agent answers, and the history is cleared.
use nanasa.Prelude.{ℕ, suc, String, true, ◌≡◌, ◌≢◌, refl, none, some, [], ◌∷◌, arith, length}
use nanasa.Delivery.Types.{RunStatus, Membership}
use nanasa.Delivery.Rows.{is_member}
use nanasa.Messages.Types.{
  Intent, Sender, Audience, Command, Submission, Tables, Answer, done, find_message, find_group,
  is_command,
}
use nanasa.Messages.Audiences.{
  is_sender_run, validate_sender, insert_text, sort_texts, member_ids, resolve_requested,
  resolve_recipients,
}
use nanasa.Messages.Causation.{
  Walk, walk, is_visible, parent_found, find_parents, one_conversation, next_hop, signature_of,
  recipients_of, place, derive_causation,
}
use nanasa.Messages.Store.{
  Call, insert_newest, newest_first, is_busy, submit_scope, clear_scope, delete_messages, prune,
  insert_message, send_placed, place_resolved, send_resolved, submit_to, clear_group,
}
use nanasa.Messages.Operations.{
  run_known, run_keyed, execute_idempotent, submit_message, clear_messages,
}
use nanasa.Messages.Walks.{walk_ends}
use nanasa.Messages.Sequences.{IsSequenced, here, submits, Operated-IsSequenced}
use nanasa.Messages.Once.{NotAgain, submitted_once}

program : Unit {0}
unfolding is_member find_message find_group is_command is_sender_run validate_sender insert_text
    sort_texts member_ids resolve_requested resolve_recipients walk is_visible parent_found
    find_parents one_conversation next_hop signature_of recipients_of place derive_causation
    insert_newest newest_first is_busy submit_scope clear_scope delete_messages prune insert_message
    send_placed place_resolved send_resolved submit_to clear_group run_known run_keyed
    execute_idempotent submit_message clear_messages
program = tt

abbrev member : String → Membership
member id = record { group_id = "g"; member_id = id; active = true }

abbrev start : Tables
start = record {
  groups = record { id = "g"; membership_revision = 3; message_sequence = 0 } ∷ [];
  memberships = member "bob" ∷ member "ada" ∷ [];
  runs =
      record {
        id = "r1";
        group_id = "g";
        member_id = "ada";
        generation = 1;
        status = RunStatus.running;
      }
      ∷ [];
  messages = [];
  deliveries = [];
  keys = [];
  action_messages = [];
}

abbrev hello : Command
hello = record {
  conversation_id = none;
  intent = Intent.request;
  sender = Sender.operator "op";
  audience = Audience.everyone 3;
  body = "hello";
  expires_at = none;
  reply_to = none;
  causation_id = none;
}

abbrev answer : Command
answer = record {
  conversation_id = none;
  intent = Intent.response;
  sender = Sender.agent "ada" "r1";
  audience = Audience.dm "bob";
  body = "hi";
  expires_at = none;
  reply_to = some "m1";
  causation_id = none;
}

abbrev call : ℕ → String → Call
call now id = record {
  now = now;
  message_id = id;
  conversation_id = "c1";
  digest = "d";
  retention = 10;
}

-- What a call is expected to succeed with.
abbrev result {ℓ} : {A : Type ℓ} → A → Answer A → A
result d (done a) = a
result d _ = d

abbrev nothing : Submission × Tables
nothing = (
  record {
    message = record {
      id = "";
      group_id = "";
      group_seq = 0;
      conversation_id = "";
      intent = Intent.inform;
      sender = Sender.operator "";
      audience = Audience.dm "";
      body = "";
      expires_at = none;
      reply_to = none;
      root_id = none;
      causation_id = none;
      hop = 0;
      created_at = 0;
    };
    outcomes = [];
  },
  start,
)

abbrev first : Submission × Tables
first = result nothing (submit_message "g" hello (some "k1") (call 100 "m1") start)

abbrev second : Submission × Tables
second = result nothing (submit_message "g" answer none (call 200 "m2") first.1)

second_hop : second.0.message.hop ≡ 1
unfolding program
second_hop = refl

start-IsSequenced : IsSequenced start
unfolding program
start-IsSequenced g = omega arith

first_accepted :
    submit_message "g" hello (some "k1") (call 100 "m1") start ≡ done (first.0, first.1)
unfolding program
first_accepted = refl

second_accepted : submit_message "g" answer none (call 200 "m2") first.1 ≡ done (second.0, second.1)
unfolding program
second_accepted = refl

walk_ends_example :
    walk second.1.messages second.1.deliveries "x"
      (suc (length second.1.messages))
      []
      (some second.0.message)
    ≢ Walk.exhausted
walk_ends_example =
    walk_ends second.1.messages second.1.deliveries "x" (some second.0.message)
      ("m2", unfold program in refl)

Operated-IsSequenced_example : IsSequenced second.1
Operated-IsSequenced_example = Operated-IsSequenced start-IsSequenced (
    submits (submits here "g" hello (some "k1") (call 100 "m1") first.0 first_accepted) "g" answer
      none (call 200 "m2") second.0 second_accepted)

submitted_once_example :
    NotAgain first.0 second.1 (submit_message "g" answer (some "k1") (call 300 "m3") second.1)
submitted_once_example =
    submitted_once "g" hello answer "k1" (call 100 "m1") (call 300 "m3") start first.1 second.1
      first.0 refl first_accepted
      (submits here "g" answer none (call 200 "m2") second.0 second_accepted)
