-- ===== src/Delivery/Operations.antt =====
-- The operations that a daemon applies to the delivery tables, as one type, and what each of them
-- may write and to which status it may move a row.
use nanasa.Prelude.{
  ℕ, String, Bool, true, false, not, ◌&&◌, ◌≡◌, refl, ap, Option, none, some, List, [], ◌∷◌, arith,
  Bool-cases, inl, inr, leb, some_and, or_else, nat_eq,
}
use nanasa.Delivery.Types.{DeliveryStatus, Delivery, Database, DeliveryClaim, StatusChanged, Run}
use nanasa.Delivery.Rows.{update_where, changes, is_member}
use nanasa.Delivery.Claims.{
  ClaimOptions, claim_deliveries, is_due, is_open, is_claimed, owned_by, update_one, begin_delivery,
  mark_terminal_injected, begin_for, is_received, is_delivering,
}
use nanasa.Delivery.Failures.{
  fail_attempt, complete_status, revoke_claim, reject_claim, removed, remove_membership,
  holds_claim,
}
use nanasa.Delivery.Dispatcher.{Dispatcher, retry, start, started, finish, run_is_running}
use nanasa.Delivery.Keys.{KeepsKey}

-- What the daemon may do to the tables, at the time of its first number.
pub data Operation : Type 0 where
  claim : ClaimOptions → Operation
  begin : ℕ → Dispatcher → DeliveryClaim → Operation
  end : ℕ → Dispatcher → DeliveryClaim → Option String → Operation
  remove : ℕ → (group member : String) → Operation

unfoldable pub apply : Operation → Database → Database
apply (claim o) db = (claim_deliveries o db).0
apply (begin now k c) db = (start k c now db).0
apply (end now k c answer) db = finish k c answer now db
apply (remove now group member) db = or_else (remove_membership group member now db) db

unfoldable pub apply_all : List Operation → Database → Database
apply_all [] db = db
apply_all (o ∷ os) db = apply_all os (apply o db)

-- The statuses to which an operation may move a delivery.
abbrev pub may_follow : DeliveryStatus → DeliveryStatus → Bool
may_follow from DeliveryStatus.received = is_open from
may_follow from DeliveryStatus.delivering = is_received from
may_follow from DeliveryStatus.terminal_injected = is_delivering from
may_follow from DeliveryStatus.retrying = is_claimed from
may_follow from DeliveryStatus.dead_letter = is_claimed from
may_follow from DeliveryStatus.rejected = is_claimed from
may_follow from DeliveryStatus.revoked = is_open from
may_follow from _ = false

-- The rows that an operation may write: a claim those that are due, a dispatcher those that it
-- holds, the end of a membership those that are open.
abbrev pub may_write : Operation → Delivery → Bool
may_write (claim o) d = is_due o.now d
may_write (begin now k c) d = is_claimed d.status && owned_by k.owner d
may_write (end now k c answer) d = is_claimed d.status && owned_by k.owner d
may_write (remove now group member) d = is_open d.status

started-database : (x : Database × Bool) → (started x).0 ≡ x.0
started-database (db, true) = refl
started-database (db, false) = refl

-- One `UPDATE` turned the rows `ds` into `ds'`, none but those of `allowed` among them.
pub record Writes (allowed : Delivery → Bool) (ds ds' : List Delivery) : Type 0 where
  pub named : Delivery → Bool
  pub written : Delivery → Delivery
  pub keeps : KeepsKey written
  pub update : ds' ≡ update_where named written ds
  pub only : (d : Delivery) → allowed d ≡ false → named d ≡ false
  pub moves : (d : Delivery) → named d ≡ true → may_follow d.status (written d).status ≡ true

pub update_where_never : (ds : List Delivery) → ds ≡ update_where (λ d. false) (λ d. d) ds
unfolding update_where
update_where_never [] = refl
update_where_never (d ∷ ds) = ap (λ xs. d ∷ xs) (update_where_never ds)

pub Writes-refl : (allowed : Delivery → Bool) (ds : List Delivery) → Writes allowed ds ds
Writes-refl allowed ds = record {
  named = λ d. false;
  written = λ d. d;
  keeps = λ d. (refl, refl);
  update = update_where_never ds;
  only = λ d e. refl;
  moves = λ d e. cc;
}

pub Writes-update_where :
    (allowed p : Delivery → Bool) (f : Delivery → Delivery) (ds : List Delivery)
    → KeepsKey f
    → ((d : Delivery) → allowed d ≡ false → p d ≡ false)
    → ((d : Delivery) → p d ≡ true → may_follow d.status (f d).status ≡ true)
    → Writes allowed ds (update_where p f ds)
Writes-update_where allowed p f ds k only moves = record {
  named = p;
  written = f;
  keeps = k;
  update = refl;
  only = only;
  moves = moves;
}

-- The rows that a dispatcher holds.
abbrev pub held_by : String → Delivery → Bool
held_by owner d = is_claimed d.status && owned_by owner d

abbrev pub WritesIn {ℓ} : {B : Type ℓ} → (Delivery → Bool) → Database → Database × B → Type 0
WritesIn allowed db x = Writes allowed db.deliveries x.0.deliveries

pub Writes-update_one :
    (allowed p : Delivery → Bool) (f : Delivery → Delivery) (ev : StatusChanged) (db : Database)
    → KeepsKey f
    → ((d : Delivery) → allowed d ≡ false → p d ≡ false)
    → ((d : Delivery) → p d ≡ true → may_follow d.status (f d).status ≡ true)
    → WritesIn allowed db (update_one p f ev db)
Writes-update_one allowed p f ev db k only moves =
    elim (Bool-cases (nat_eq (changes p db.deliveries) 1)) [
      | inl e ↦ rw e (Writes-update_where allowed p f db.deliveries k only moves)
      | inr e ↦ rw e (Writes-update_where allowed p f db.deliveries k only moves)
    ]

module _ (c : DeliveryClaim) (owner : String) (db : Database) where
  pub Writes-fail_attempt :
      (reason : String) (n retry_at now : ℕ)
      → WritesIn (held_by owner) db (fail_attempt c owner reason n retry_at now db)
  unfolding fail_attempt
  Writes-fail_attempt reason n retry_at now =
      Writes-update_one (held_by owner) (holds_claim c owner) _ _ db (λ x. (refl, refl))
        (λ d e. ground arith) (λ d e. ground arith)

  pub Writes-complete_status :
      (s : DeliveryStatus) (reason : String) (now : ℕ)
      → ((d : Delivery) → is_claimed d.status ≡ true → may_follow d.status s ≡ true)
      → WritesIn (held_by owner) db (complete_status s c owner reason now db)
  unfolding complete_status
  Writes-complete_status s reason now follows =
      Writes-update_one (held_by owner) (holds_claim c owner) _ _ db (λ x. (refl, refl))
        (λ d e. ground arith) (λ d e. ground (arith, follows d))

  pub Writes-begin_for :
      (run : Option Run) (now : ℕ) → WritesIn (held_by owner) db (begin_for run c owner now db)
  Writes-begin_for none now = Writes-refl (held_by owner) db.deliveries
  Writes-begin_for (some run) now =
      Writes-update_where (held_by owner) _ _ db.deliveries (λ x. (refl, refl))
        (λ d e. ground arith) (λ d e. ground arith)

  pub Writes-mark_terminal_injected :
      (now : ℕ) → WritesIn (held_by owner) db (mark_terminal_injected c owner now db)
  unfolding mark_terminal_injected
  Writes-mark_terminal_injected now =
      Writes-update_one (held_by owner) _ _ _ db (λ x. (refl, refl)) (λ d e. ground arith)
        (λ d e. ground arith)

pub Writes-start :
    (k : Dispatcher) (c : DeliveryClaim) (now : ℕ) (db : Database)
    → WritesIn (held_by k.owner) db (start k c now db)
unfolding start retry revoke_claim reject_claim begin_delivery
Writes-start k c now db = elim (Bool-cases (not c.recipient_active)) [
  | inl e ↦
      rw e (Writes-complete_status c k.owner db DeliveryStatus.revoked _ now (λ d h. ground arith))
  | inr e ↦ rw e (elim (Bool-cases (some_and c.message.expires_at (λ t. leb t now))) [
    | inl f ↦
        rw f
          (Writes-complete_status c k.owner db DeliveryStatus.rejected _ now (λ d h. ground arith))
    | inr f ↦ rw f (elim (Bool-cases (not (run_is_running c.run))) [
      | inl g ↦ rw g (Writes-fail_attempt c k.owner db _ _ _ now)
      | inr g ↦
          rw (g, started-database (begin_for c.run c k.owner now db))
            (Writes-begin_for c k.owner db c.run now)
    ])
  ])
]

pub Writes-remove_membership :
    (group member : String) (now : ℕ) (db : Database)
    → Writes
        (λ d. is_open d.status)
        db.deliveries
        (or_else (remove_membership group member now db) db).deliveries
unfolding remove_membership removed
Writes-remove_membership group member now db =
    elim (Bool-cases (is_member group member db.memberships)) [
      | inl e ↦ rw e (
          Writes-update_where _ _ _ db.deliveries (λ x. (refl, refl)) (λ d q. ground arith)
            (λ d q. ground arith))
      | inr e ↦ rw e (Writes-refl _ db.deliveries)
    ]
