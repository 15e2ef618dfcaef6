-- ===== src/Delivery/Rows.antt =====
-- The SQL of the delivery tables: `UPDATE … WHERE`, `EXISTS`, `ORDER BY`, and the look-up by the
-- primary key (message_id, recipient_member_id).
use Prim.Native.String.{compare}
use Prim.Native.Nat.{Ordering}
use nanasa.Prelude.{
  ℕ, ◌+◌, String, ◌==◌, Bool, true, false, ◌&&◌, ◌||◌, Option, none, some, List, [], ◌∷◌,
  if◌then◌else◌, ltb, nat_eq, find, any,
}
use nanasa.Delivery.Types.{RunStatus, Delivery, Message, Membership, Run}

abbrev pub has_key : String → String → Delivery → Bool
has_key message recipient d = d.message_id == message && d.recipient_member_id == recipient

unfoldable pub get : String → String → List Delivery → Option Delivery
get message recipient [] = none
get message recipient (d ∷ ds) =
    if has_key message recipient d then some d else get message recipient ds

-- `UPDATE deliveries SET f WHERE p`
unfoldable pub update_where :
    (Delivery → Bool) → (Delivery → Delivery) → List Delivery → List Delivery
update_where p f [] = []
update_where p f (d ∷ ds) = (if p d then f d else d) ∷ update_where p f ds

-- The `changes` of that statement.
unfoldable pub changes : (Delivery → Bool) → List Delivery → ℕ
changes p [] = 0
changes p (d ∷ ds) = (if p d then 1 else 0) + changes p ds

-- `EXISTS (SELECT 1 FROM memberships WHERE … AND state = 'active')`
unfoldable pub is_member : String → String → List Membership → Bool
is_member group member = any (λ m. m.group_id == group && (m.member_id == member && m.active))

abbrev pub is_running : RunStatus → Bool
is_running RunStatus.running = true
is_running _ = false

abbrev pub is_active : RunStatus → Bool
is_active RunStatus.starting = true
is_active RunStatus.running = true
is_active RunStatus.stopping = true
is_active _ = false

-- `EXISTS (SELECT 1 FROM runs WHERE … AND status = 'running')`
unfoldable pub has_running : String → String → List Run → Bool
has_running group member =
    any (λ r. r.group_id == group && (r.member_id == member && is_running r.status))

unfoldable pub is_current : String → ℕ → List Run → Bool
is_current id generation =
    any (λ r. r.id == id && (nat_eq r.generation generation && is_running r.status))

abbrev later : Run → Option Run → Option Run
later r none = some r
later r (some best) = if ltb best.generation r.generation then some r else some best

-- `getActiveRun`: the active run of the highest generation
unfoldable pub active_run_from : Option Run → String → String → List Run → Option Run
active_run_from best group member [] = best
active_run_from best group member (r ∷ rs) =
    active_run_from
      (if r.group_id == group && (r.member_id == member && is_active r.status)
        then later r best
        else best)
      group member rs

unfoldable pub get_active_run : String → String → List Run → Option Run
unfolding active_run_from
get_active_run = active_run_from none

unfoldable pub find_message : String → List Message → Option Message
find_message id = find (λ m. m.id == id)

-- A delivery joined to its message.
pub record Joined : Type 0 where
  pub row : Delivery
  pub message : Message

-- `ORDER BY m.created_at, m.group_seq, d.recipient_member_id`
unfoldable pub comes_before : Joined → Joined → Bool
comes_before a b =
    ltb a.message.created_at b.message.created_at
    || nat_eq a.message.created_at b.message.created_at
      && (ltb a.message.group_seq b.message.group_seq
          || nat_eq a.message.group_seq b.message.group_seq
            && (elim (compare a.row.recipient_member_id b.row.recipient_member_id) [
              | Ordering.gt ↦ false
              | _ ↦ true
            ]))

unfoldable pub insert_row : Joined → List Joined → List Joined
unfolding comes_before
insert_row a [] = a ∷ []
insert_row a (b ∷ bs) = if comes_before a b then a ∷ b ∷ bs else b ∷ insert_row a bs

unfoldable pub order_rows : List Joined → List Joined
unfolding insert_row
order_rows [] = []
order_rows (a ∷ as') = insert_row a (order_rows as')
