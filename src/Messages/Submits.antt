-- ===== src/Messages/Submits.antt =====
-- What a message that is accepted was tested for, and what it adds (`submitMessage` of
-- apps/daemon/src/store.ts).
use nanasa.Prelude.{
  ◌≤◌, String, ◌==◌, eq_iff, Bool, true, false, ◌≡◌, refl, sym, ap, ◌∙◌, subst, Option, none, some,
  List, [], ◌∷◌, map, arith, leb, find, length, is_empty, leb→le, Bool-cases, inl, inr,
}
use nanasa.Delivery.Types.{Delivery}
use nanasa.Messages.Types.{
  Message, Command, Group, Submission, Response, KeyRow, Tables, Fault, Answer, done, require, ◌>>◌,
  >>=_done, require_done, find_group, is_command, max_message_fan_out, max_message_causal_depth,
}
use nanasa.Messages.Audiences.{resolve_recipients, validate_sender}
use nanasa.Messages.Causation.{Causation, derive_causation, place, find_parents, next_hop, edge_ids}
use nanasa.Messages.Store.{
  Call, queued, message_of, insert_message, prune, submit_to, send_resolved, send_placed,
  place_resolved, submit_scope,
}
use nanasa.Messages.Operations.{
  submit_message, execute_idempotent, has_key, run_keyed, store_result,
}

-- What the operation of `submitMessage` goes through when it succeeds.
pub record Sent (group_id : String) (c : Command) (call : Call) (t : Tables) (s : Submission)
    (after : Tables) : Type 0 where
  pub group : Group
  pub recipients : List String
  pub causation : Causation
  pub found : find_group group_id t.groups ≡ some group
  pub resolved : resolve_recipients group c.sender c.audience t.memberships ≡ done recipients
  pub named : is_empty recipients ≡ false
  pub few : length recipients ≤ max_message_fan_out
  pub derived :
      derive_causation group_id c recipients call.conversation_id t.messages t.deliveries
      ≡ done causation
  pub message : s.message ≡ message_of group_id c call group causation
  pub outcomes : s.outcomes ≡ map (queued call.message_id call.now) recipients
  pub pruned :
      prune group_id call.retention call.now (insert_message s.message s.outcomes t) ≡ done after

place_resolved_done :
    (group_id : String) (c : Command) (call : Call) (t : Tables) (recipients : List String)
    {causation : Causation}
    → place_resolved group_id c call t recipients ≡ done causation
    → (is_empty recipients ≡ false)
      × (length recipients ≤ max_message_fan_out)
      × (derive_causation group_id c recipients call.conversation_id t.messages t.deliveries
          ≡ done causation)
unfolding place_resolved
place_resolved_done group_id c call t recipients h = elim (Bool-cases (is_empty recipients)) [
  | inl e ↦ absurd (ground arith)
  | inr e ↦ elim (Bool-cases (leb (length recipients) max_message_fan_out)) [
    | inl k ↦ (e, leb→le (length recipients) max_message_fan_out k, ground arith)
    | inr k ↦ absurd (ground arith)
  ]
]

pub submit_to-Sent :
    (group_id : String) (c : Command) (call : Call) (t : Tables) {s : Submission} {after : Tables}
    (o : Option Group)
    → find_group group_id t.groups ≡ o
    → submit_to group_id c call t o ≡ done (s, after)
    → Sent group_id c call t s after
unfolding submit_to send_resolved send_placed
submit_to-Sent group_id c call t none e h = absurd (cc)
submit_to-Sent group_id c call t {s} {after} (some group) e h =
    let valid = validate_sender group_id c.sender t.memberships t.runs in
    let resolve = resolve_recipients group c.sender c.audience t.memberships in
    let (recipients, r, h1) =
      >>=_done (valid >> resolve) (send_resolved group_id c call t group) h in
    let (_, _, resolved) = >>=_done valid (λ _. resolve) r in
    let (causation, p, h2) =
      >>=_done (place_resolved group_id c call t recipients)
        (send_placed group_id c call t group recipients) h1 in
    let (named, few, derived) = place_resolved_done group_id c call t recipients p in
    let m = message_of group_id c call group causation in
    let outcomes = map (queued call.message_id call.now) recipients in
    let (kept, pruned, h3) =
      >>=_done (prune group_id call.retention call.now (insert_message m outcomes t)) _ h2 in
    let same_message : m ≡ s.message = ground arith in
    let same_outcomes : outcomes ≡ s.outcomes = ground arith in
    let same_after : kept ≡ after = ground arith in
    record {
      group = group;
      recipients = recipients;
      causation = causation;
      found = e;
      resolved = resolved;
      named = named;
      few = few;
      derived = derived;
      message = sym same_message;
      outcomes = sym same_outcomes;
      pruned =
          ap
            (λ (x : Message).
              prune group_id call.retention call.now (insert_message x s.outcomes t))
            (sym same_message)
          ∙ ap
              (λ (x : List Delivery). prune group_id call.retention call.now (insert_message m x t))
              (sym same_outcomes)
          ∙ pruned
          ∙ ap done same_after;
    }

third_and_last {ℓ} :
    {A : Type ℓ} (a b c d e : Bool) (f1 f2 f3 f4 f5 : Fault) (k : Answer A) {x : A}
    → (require a f1 >> require b f2 >> require c f3 >> require d f4 >> require e f5 >> k) ≡ done x
    → (c ≡ true) × (k ≡ done x)
third_and_last true true true true true f1 f2 f3 f4 f5 k h = (refl, h)
third_and_last true true true true false f1 f2 f3 f4 f5 k h = absurd (cc)
third_and_last true true true false e f1 f2 f3 f4 f5 k h = absurd (cc)
third_and_last true true false d e f1 f2 f3 f4 f5 k h = absurd (cc)
third_and_last true false c d e f1 f2 f3 f4 f5 k h = absurd (cc)
third_and_last false b c d e f1 f2 f3 f4 f5 k h = absurd (cc)

place_hop :
    (group_id : String) (c : Command) (recipients : List String) (fresh : String)
    (messages : List Message) (deliveries : List Delivery) (parents : List Message)
    {causation : Causation}
    → place group_id c recipients fresh messages deliveries parents ≡ done causation
    → causation.hop ≤ max_message_causal_depth
unfolding place
place_hop group_id c recipients fresh messages deliveries parents h =
    let (bound, last) =
      third_and_last _ _ (leb (next_hop parents) max_message_causal_depth) _ _ _ _ _ _ _ _ h in
    let below : next_hop parents ≤ max_message_causal_depth =
      leb→le (next_hop parents) max_message_causal_depth bound in
    ground arith

pub derived_hop :
    (group_id : String) (c : Command) (recipients : List String) (fresh : String)
    (messages : List Message) (deliveries : List Delivery) {causation : Causation}
    → derive_causation group_id c recipients fresh messages deliveries ≡ done causation
    → causation.hop ≤ max_message_causal_depth
unfolding derive_causation
derived_hop group_id c recipients fresh messages deliveries h =
    let (parents, _, placed) =
      >>=_done (find_parents group_id c.sender messages deliveries (edge_ids c))
        (place group_id c recipients fresh messages deliveries) h in
    place_hop group_id c recipients fresh messages deliveries parents placed

pub find_group-id :
    (id : String) (gs : List Group) (g : Group) → find_group id gs ≡ some g → g.id ≡ id
unfolding find_group
find_group-id id [] g h = absurd (cc)
find_group-id id (x ∷ gs) g h = elim (Bool-cases (x.id == id)) [
  | inl e ↦ ground (arith, eq_iff x.id id)
  | inr e ↦ find_group-id id gs g (rw e at h)
]

-- The call has no key, or one that was not used for the scope.
abbrev pub IsFresh : String → Option String → List KeyRow → Type 0
IsFresh scope none keys = Unit
IsFresh scope (some key) keys = find (has_key scope key) keys ≡ none

stored_done :
    (scope key : String) (digest : Option String) (s' s : Submission) (stored after : Tables)
    → ◌≡◌ {A = Answer (Submission × Tables)}
        (done (store_result Response.submitted scope key digest (s', stored)))
        (done (s, after))
    → (s' ≡ s)
      × (after.messages ≡ stored.messages)
      × (after.deliveries ≡ stored.deliveries)
      × (after.groups ≡ stored.groups)
stored_done scope key digest s' s stored after h =
    (ground arith, ground arith, ground arith, ground arith)

-- The tables before the result is stored under the key.
pub submit_message-Sent :
    (group_id : String) (c : Command) (key : Option String) (call : Call) (t : Tables)
    {s : Submission} {after : Tables}
    → IsFresh (submit_scope group_id) key t.keys
    → submit_message group_id c key call t ≡ done (s, after)
    → (is_command c ≡ true)
      × ((stored : Tables) × Sent group_id c call t s stored
          × (after.messages ≡ stored.messages)
          × (after.deliveries ≡ stored.deliveries)
          × (after.groups ≡ stored.groups))
unfolding submit_message execute_idempotent run_keyed
submit_message-Sent group_id c none call t {after = after} fresh h =
    let (valid, sent) = require_done (is_command c) Fault.invalid _ h in
    (valid, (after, submit_to-Sent group_id c call t _ refl sent, refl, refl, refl))
submit_message-Sent group_id c (some key) call t {s} {after} fresh h =
    let operation : Answer (Submission × Tables) =
      submit_to group_id c call t (find_group group_id t.groups) in
    let (valid, keyed) = require_done (is_command c) Fault.invalid _ h in
    let ((s', stored), sent, result) = >>=_done operation _ (rw fresh at keyed) in
    let kept =
      stored_done (submit_scope group_id) key (some call.digest) s' s stored after result in
    (
      valid,
      (
        stored,
        subst (λ (x : Submission). Sent group_id c call t x stored) kept.0
            (submit_to-Sent group_id c call t _ refl sent),
        kept.1,
        kept.2,
        kept.3,
      ),
    )
