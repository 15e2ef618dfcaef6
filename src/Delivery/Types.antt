-- ===== src/Delivery/Types.antt =====
-- The tables that the delivery of messages reads and writes
-- (apps/daemon/src/persistence/schema.ts, packages/contracts/src/actions.ts), a row as a record.
-- A column that may be NULL is an `Option`. A timestamp is its number of milliseconds.
use nanasa.Prelude.{ℕ, String, Bool, Option, List}

-- DeliveryStatusSchema
pub data DeliveryStatus : Type 0 where
  queued received delivering terminal_injected processed retrying dead_letter : DeliveryStatus
  revoked rejected failed : DeliveryStatus

-- The statuses of a run.
pub data RunStatus : Type 0 where
  starting running stopping stopped failed : RunStatus

unfoldable pub RunStatus-discrete : Discrete RunStatus
RunStatus-discrete = hlevel

pub record Delivery : Type 0 where
  pub message_id : String
  pub recipient_member_id : String
  pub reason : Option String
  pub status : DeliveryStatus
  pub attempts : ℕ
  pub lease_owner : Option String
  pub lease_expires_at : Option ℕ
  pub next_attempt_at : Option ℕ
  pub run_id : Option String
  pub run_generation : Option ℕ
  pub updated_at : ℕ

pub record Message : Type 0 where
  pub id : String
  pub group_id : String
  pub group_seq : ℕ
  pub created_at : ℕ
  pub expires_at : Option ℕ

pub record Membership : Type 0 where
  pub group_id : String
  pub member_id : String
  pub active : Bool

pub record Run : Type 0 where
  pub id : String
  pub group_id : String
  pub member_id : String
  pub generation : ℕ
  pub status : RunStatus

-- The payload of a `delivery.status-changed` event.
pub record StatusChanged : Type 0 where
  pub message_id : String
  pub recipient_member_id : String
  pub status : DeliveryStatus
  pub reason : Option String
  pub attempts : Option ℕ

pub record Database : Type 0 where
  pub deliveries : List Delivery
  pub messages : List Message
  pub memberships : List Membership
  pub runs : List Run
  pub events : List StatusChanged

-- DeliveryClaim, without what only the text of the terminal input shows
pub record DeliveryClaim : Type 0 where
  pub delivery : Delivery
  pub message : Message
  pub run : Option Run
  pub recipient_active : Bool
