-- ===== src/Delivery/Failures.antt =====
-- The delivery operations of `NanasaStore` (apps/daemon/src/store.ts) by which a delivery fails, is
-- revoked or rejected, or loses its recipient.
use nanasa.Prelude.{
  ℕ, String, ◌==◌, Bool, false, ◌&&◌, Option, none, some, List, [], ◌∷◌, if◌then◌else◌, leb,
}
use nanasa.Delivery.Types.{DeliveryStatus, Delivery, Message, Membership, Database, DeliveryClaim}
use nanasa.Delivery.Rows.{update_where, is_member, find_message}
use nanasa.Delivery.Claims.{is_open, is_claimed, owned_by, claim_key, event_of, update_one}

-- `DeliveryAttemptResult`
pub record AttemptResult : Type 0 where
  pub status : DeliveryStatus
  pub reason : String
  pub next_attempt_at : Option ℕ

abbrev pub holds_claim : DeliveryClaim → String → Delivery → Bool
holds_claim c owner d = claim_key c d && (is_claimed d.status && owned_by owner d)

abbrev pub released : DeliveryStatus → String → Option ℕ → ℕ → Delivery → Delivery
released status reason next_attempt_at now d = record d {
  status = status;
  reason = some reason;
  next_attempt_at = next_attempt_at;
  lease_owner = none;
  lease_expires_at = none;
  updated_at = now;
}

abbrev pub fail_status : DeliveryClaim → ℕ → DeliveryStatus
fail_status c max_attempts =
    if leb max_attempts c.delivery.attempts
    then DeliveryStatus.dead_letter
    else DeliveryStatus.retrying

abbrev pub fail_retry : DeliveryClaim → ℕ → ℕ → Option ℕ
fail_retry c max_attempts retry_at =
    if leb max_attempts c.delivery.attempts then none else some retry_at

unfoldable pub fail_attempt :
    DeliveryClaim → String → String → ℕ → ℕ → ℕ → Database → Database × AttemptResult
fail_attempt c owner reason max_attempts retry_at now db =
    let status = fail_status c max_attempts in
    let next = fail_retry c max_attempts retry_at in
    let (db', done) =
      update_one (holds_claim c owner) (released status reason next now)
        (event_of c status (some reason) (some c.delivery.attempts)) db in
    (
      db',
      if done then record { status = status; reason = reason; next_attempt_at = next } else record {
        status = DeliveryStatus.revoked;
        reason = "delivery_claim_lost";
        next_attempt_at = none;
      },
    )

-- `#completeDeliveryStatus`, which leaves `next_attempt_at` alone.
unfoldable pub complete_status :
    DeliveryStatus → DeliveryClaim → String → String → ℕ → Database → Database × Bool
complete_status status c owner reason now =
    update_one (holds_claim c owner) (λ d. released status reason d.next_attempt_at now d)
      (event_of c status (some reason) (some c.delivery.attempts))

unfoldable pub revoke_claim : DeliveryClaim → String → String → ℕ → Database → Database × Bool
unfolding complete_status
revoke_claim = complete_status DeliveryStatus.revoked

unfoldable pub reject_claim : DeliveryClaim → String → String → ℕ → Database → Database × Bool
unfolding complete_status
reject_claim = complete_status DeliveryStatus.rejected

abbrev pub in_group : String → Option Message → Bool
in_group group none = false
in_group group (some m) = m.group_id == group

abbrev pub remove_row : String → String → Membership → Membership
remove_row group member m =
    if m.group_id == group && m.member_id == member then record m { active = false } else m

abbrev pub remove_rows : String → String → List Membership → List Membership
remove_rows group member [] = []
remove_rows group member (m ∷ ms) = remove_row group member m ∷ remove_rows group member ms

-- What `removeMembership` does to the memberships and the deliveries; `none` is the error that the
-- member is not active.
unfoldable pub removed : String → String → ℕ → Database → Database
removed group member now db = record db {
  memberships = remove_rows group member db.memberships;
  deliveries =
      update_where
        (λ d.
          d.recipient_member_id == member
          && (is_open d.status && in_group group (find_message d.message_id db.messages)))
        (λ d. record d {
          status = DeliveryStatus.revoked;
          reason = some "membership_removed";
          lease_owner = none;
          lease_expires_at = none;
          updated_at = now;
        })
        db.deliveries;
}

unfoldable pub remove_membership : String → String → ℕ → Database → Option Database
remove_membership group member now db =
    if is_member group member db.memberships then some (removed group member now db) else none
