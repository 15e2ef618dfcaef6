-- ===== src/Messages/Types.antt =====
-- The records of messages (packages/contracts/src/actions.ts) and the tables that the operations on
-- them read and write (apps/daemon/src/persistence/schema.ts). The text of a message is one field.
use Prim.Native.String.{String, [] as no_text, ◌∷◌ as ◌then_text◌}
use nanasa.Prelude.{
  ℕ, ◌==◌, Bool, true, false, ◌&&◌, Option, List, [], ◌∷◌, ◌≡◌, refl, find, leb, length, contains,
  not,
}
use nanasa.Delivery.Types.{Delivery, Membership, Run}

-- MessageIntentSchema
pub data Intent : Type 0 where
  inform request response control : Intent

-- MessageSenderSchema
pub data Sender : Type 0 where
  operator : String → Sender
  agent : String → String → Sender

-- AudienceSchema
pub data Audience : Type 0 where
  dm : String → Audience
  multicast : List String → Audience
  everyone : ℕ → Audience

-- SubmitMessageCommandSchema
pub record Command : Type 0 where
  pub conversation_id : Option String
  pub intent : Intent
  pub sender : Sender
  pub audience : Audience
  pub body : String
  pub expires_at : Option ℕ
  pub reply_to : Option String
  pub causation_id : Option String

-- MessageSchema
pub record Message : Type 0 where
  pub id : String
  pub group_id : String
  pub group_seq : ℕ
  pub conversation_id : String
  pub intent : Intent
  pub sender : Sender
  pub audience : Audience
  pub body : String
  pub expires_at : Option ℕ
  pub reply_to : Option String
  pub root_id : Option String
  pub causation_id : Option String
  pub hop : ℕ
  pub created_at : ℕ

pub record Group : Type 0 where
  pub id : String
  pub membership_revision : ℕ
  pub message_sequence : ℕ

-- MessageSubmissionResultSchema
pub record Submission : Type 0 where
  pub message : Message
  pub outcomes : List Delivery

-- ClearMessageHistoryResultSchema
pub record Cleared : Type 0 where
  pub group_id : String
  pub deleted_messages : ℕ
  pub deleted_deliveries : ℕ

pub data Response : Type 0 where
  null : Response
  submitted : Submission → Response
  cleared : Cleared → Response

-- A row of `idempotency_keys`
pub record KeyRow : Type 0 where
  pub scope : String
  pub key : String
  pub request_digest : Option String
  pub response : Response
  pub invalidated_at : Option ℕ

pub record Tables : Type 0 where
  pub groups : List Group
  pub memberships : List Membership
  pub runs : List Run
  pub messages : List Message
  pub deliveries : List Delivery
  pub keys : List KeyRow
  -- the column `message_id` of the actions
  pub action_messages : List (Option String)

pub data Fault : Type 0 where
  group_not_found sender_not_active invalid_sender_run : Fault
  membership_revision_mismatch self_recipient_forbidden recipient_not_active : Fault
  empty_audience message_fan_out_exceeded : Fault
  message_causation_invalid message_causation_forbidden message_conversation_mismatch : Fault
  message_causal_depth_exceeded message_automated_reply_budget_exhausted : Fault
  message_causal_cycle message_history_busy message_retention_busy : Fault
  idempotency_result_expired idempotency_request_conflict : Fault
  invalid_message_limit invalid_message_cursor : Fault
  -- what a schema or a constraint of the database refuses
  invalid : Fault

pub data Answer {ℓ} (A : Type ℓ) : Type ℓ where
  done : A → Answer A
  failed : Fault → Answer A

infixl 5 ◌>>=◌ ◌>>◌
abbrev pub ◌>>=◌ {ℓ κ} : {A : Type ℓ} {B : Type κ} → Answer A → (A → Answer B) → Answer B
done a >>= f = f a
failed e >>= f = failed e

abbrev pub ◌>>◌ {ℓ} : {B : Type ℓ} → Answer (Unit {0}) → Answer B → Answer B
m >> k = m >>= λ _. k

-- `if (!b) throw …`
abbrev pub require : Bool → Fault → Answer (Unit {0})
require true e = done tt
require false e = failed e

-- What a chain that succeeds went through.
pub >>=_done {ℓ κ} :
    {A : Type ℓ} {B : Type κ} (m : Answer A) (f : A → Answer B) {b : B}
    → (m >>= f) ≡ done b
    → (a : A) × (m ≡ done a) × (f a ≡ done b)
>>=_done (done a) f h = (a, refl, h)
>>=_done (failed e) f h = absurd (cc)

pub require_done {ℓ} :
    {B : Type ℓ} (b : Bool) (e : Fault) (k : Answer B) {x : B}
    → (require b e >> k) ≡ done x
    → (b ≡ true) × (k ≡ done x)
require_done true e k h = (refl, h)
require_done false e k h = absurd (cc)

-- MAX_MESSAGE_FAN_OUT
abbrev pub max_message_fan_out : ℕ
max_message_fan_out = 32

-- MAX_MESSAGE_CAUSAL_DEPTH
abbrev pub max_message_causal_depth : ℕ
max_message_causal_depth = 8

-- MAX_AUTOMATED_REPLIES_PER_CONVERSATION
abbrev pub max_automated_replies : ℕ
max_automated_replies = 16

abbrev pub is_control : Intent → Bool
is_control Intent.control = true
is_control _ = false

abbrev pub is_agent : Sender → Bool
is_agent (Sender.agent _ _) = true
is_agent (Sender.operator _) = false

abbrev pub all_distinct : List String → Bool
all_distinct [] = true
all_distinct (x ∷ xs) = not (contains x xs) && all_distinct xs

-- The refinement of AudienceSchema: a multicast has two recipients at least, none of them twice.
abbrev pub is_audience : Audience → Bool
is_audience (Audience.multicast ms) = leb 2 (length ms) && all_distinct ms
is_audience _ = true

-- What `SubmitMessageCommandSchema.parse` tests: only operators send control messages.
unfoldable pub is_command : Command → Bool
is_command c = not (is_control c.intent && is_agent c.sender) && is_audience c.audience

unfoldable pub find_message : String → List Message → Option Message
find_message id ms = find (λ m. m.id == id) ms

unfoldable pub find_group : String → List Group → Option Group
find_group id gs = find (λ g. g.id == id) gs

-- `${s}${t}`
abbrev pub append_text : String → String → String
append_text no_text t = t
append_text (c then_text s) t = c then_text append_text s t
