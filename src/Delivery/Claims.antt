-- ===== src/Delivery/Claims.antt =====
-- The delivery operations of `NanasaStore` (apps/daemon/src/store.ts) up to the injection. An
-- operation takes the database and, where the code asks the clock, the time, and returns the
-- database it leaves.
use nanasa.Prelude.{
  ℕ, ◌+◌, String, ◌==◌, Bool, true, false, ◌&&◌, Option, none, some, List, [], ◌∷◌, ◌++◌,
  if◌then◌else◌, leb, nat_eq, none_or, some_and, take,
}
use nanasa.Delivery.Types.{
  DeliveryStatus, Delivery, Message, Run, StatusChanged, Database, DeliveryClaim,
}
use nanasa.Delivery.Rows.{
  has_key, update_where, changes, is_member, has_running, is_current, get_active_run, find_message,
  Joined, order_rows,
}

-- `status IN ('queued', 'retrying', 'received', 'delivering')`
abbrev pub is_open : DeliveryStatus → Bool
is_open DeliveryStatus.queued = true
is_open DeliveryStatus.retrying = true
is_open DeliveryStatus.received = true
is_open DeliveryStatus.delivering = true
is_open _ = false

-- `status IN ('received', 'delivering')`
abbrev pub is_claimed : DeliveryStatus → Bool
is_claimed DeliveryStatus.received = true
is_claimed DeliveryStatus.delivering = true
is_claimed _ = false

abbrev pub is_received : DeliveryStatus → Bool
is_received DeliveryStatus.received = true
is_received _ = false

abbrev pub is_delivering : DeliveryStatus → Bool
is_delivering DeliveryStatus.delivering = true
is_delivering _ = false

abbrev pub owned_by : String → Delivery → Bool
owned_by owner d = some_and d.lease_owner (λ o. o == owner)

-- ClaimDeliveriesOptions
pub record ClaimOptions : Type 0 where
  pub owner : String
  pub now : ℕ
  pub lease_ms : ℕ
  pub limit : ℕ

-- The `WHERE` of `claimDeliveries` that reads the delivery alone.
unfoldable pub is_due : ℕ → Delivery → Bool
is_due now d =
    is_open d.status
    && (none_or d.next_attempt_at (λ t. leb t now) && none_or d.lease_expires_at (λ t. leb t now))

abbrev pub can_receive : Database → Delivery → Message → Bool
can_receive db d m =
    is_member m.group_id d.recipient_member_id db.memberships
    && has_running m.group_id d.recipient_member_id db.runs

abbrev pub join_row : Database → Delivery → Option Message → List Joined → List Joined
join_row db d none rest = rest
join_row db d (some m) rest =
    if can_receive db d m then record { row = d; message = m } ∷ rest else rest

unfoldable pub select_rows : Database → ℕ → List Delivery → List Joined
select_rows db now [] = []
select_rows db now (d ∷ ds) =
    let rest = select_rows db now ds in
    if is_due now d then join_row db d (find_message d.message_id db.messages) rest else rest

-- The `UPDATE` of a claimed row.
abbrev pub claimed : ClaimOptions → Delivery → Delivery
claimed o d = record d {
  status = DeliveryStatus.received;
  attempts = d.attempts + 1;
  lease_owner = some o.owner;
  lease_expires_at = some (o.now + o.lease_ms);
  next_attempt_at = none;
  updated_at = o.now;
}

unfoldable pub claim_rows : ClaimOptions → List Joined → List Delivery → List Delivery
claim_rows o [] ds = ds
claim_rows o (r ∷ rs) ds =
    claim_rows o rs
      (update_where (has_key r.row.message_id r.row.recipient_member_id) (claimed o) ds)

-- The claim that is handed out for a row.
unfoldable pub claim_of : ClaimOptions → Database → Joined → DeliveryClaim
claim_of o db r = record {
  delivery = claimed o r.row;
  message = r.message;
  run = get_active_run r.message.group_id r.row.recipient_member_id db.runs;
  recipient_active = is_member r.message.group_id r.row.recipient_member_id db.memberships;
}

abbrev pub claims_of : ClaimOptions → Database → List Joined → List DeliveryClaim
claims_of o db [] = []
claims_of o db (r ∷ rs) = claim_of o db r ∷ claims_of o db rs

unfoldable pub claim_select : ClaimOptions → Database → List Joined
claim_select o db = take o.limit (order_rows (select_rows db o.now db.deliveries))

unfoldable pub claim_deliveries : ClaimOptions → Database → Database × List DeliveryClaim
claim_deliveries o db =
    let rows = claim_select o db in
    (record db { deliveries = claim_rows o rows db.deliveries }, claims_of o db rows)

abbrev pub claim_key : DeliveryClaim → Delivery → Bool
claim_key c = has_key c.message.id c.delivery.recipient_member_id

abbrev pub begun : Run → ℕ → Delivery → Delivery
begun run now d = record d {
  status = DeliveryStatus.delivering;
  reason = none;
  run_id = some run.id;
  run_generation = some run.generation;
  updated_at = now;
}

abbrev pub can_begin : DeliveryClaim → Run → String → Database → Delivery → Bool
can_begin c run owner db d =
    claim_key c d
    && (is_received d.status
        && (owned_by owner d
            && (is_member c.message.group_id c.delivery.recipient_member_id db.memberships
                && is_current run.id run.generation db.runs)))

abbrev pub begin_for : Option Run → DeliveryClaim → String → ℕ → Database → Database × Bool
begin_for none c owner now db = (db, false)
begin_for (some run) c owner now db = (
  record db { deliveries = update_where (can_begin c run owner db) (begun run now) db.deliveries },
  nat_eq (changes (can_begin c run owner db) db.deliveries) 1,
)

unfoldable pub begin_delivery : DeliveryClaim → String → ℕ → Database → Database × Bool
begin_delivery c = begin_for c.run c

abbrev pub event_of : DeliveryClaim → DeliveryStatus → Option String → Option ℕ → StatusChanged
event_of c status reason attempts = record {
  message_id = c.message.id;
  recipient_member_id = c.delivery.recipient_member_id;
  status = status;
  reason = reason;
  attempts = attempts;
}

-- `UPDATE …`, and the event if exactly one row changed: the answer is whether it did.
abbrev pub update_one :
    (Delivery → Bool) → (Delivery → Delivery) → StatusChanged → Database → Database × Bool
update_one p f event db =
    let rows = update_where p f db.deliveries in
    if nat_eq (changes p db.deliveries) 1
    then (record db { deliveries = rows; events = db.events ++ event ∷ [] }, true)
    else (record db { deliveries = rows }, false)

abbrev pub injected : ℕ → Delivery → Delivery
injected now d = record d {
  status = DeliveryStatus.terminal_injected;
  lease_owner = none;
  lease_expires_at = none;
  updated_at = now;
}

abbrev pub run_matches : Option Run → Delivery → Bool
run_matches none d = some_and d.run_id (λ i. i == "") && some_and d.run_generation (λ g. nat_eq g 0)
run_matches (some r) d =
    some_and d.run_id (λ i. i == r.id) && some_and d.run_generation (λ g. nat_eq g r.generation)

unfoldable pub mark_terminal_injected : DeliveryClaim → String → ℕ → Database → Database × Bool
mark_terminal_injected c owner now =
    update_one
      (λ d. claim_key c d && (is_delivering d.status && (owned_by owner d && run_matches c.run d)))
      (injected now) (event_of c DeliveryStatus.terminal_injected none none)
