-- ===== src/Delivery/Examples.antt =====
-- One message on its way to one agent, by two dispatchers.
use mathlib.Core.Bool.{false≢true}
use nanasa.Prelude.{eq_iff, ◌≢◌, ℕ, String, true, ◌≡◌, refl, none, some, List, [], ◌∷◌, arith}
use nanasa.Delivery.Types.{
  DeliveryStatus, RunStatus, Delivery, Message, Run, Database, DeliveryClaim,
}
use nanasa.Delivery.Rows.{
  get, update_where, changes, is_member, has_running, is_current, get_active_run, find_message,
  order_rows,
}
use nanasa.Delivery.Claims.{
  ClaimOptions, claimed, is_due, select_rows, claim_rows, claim_of, claim_select, claim_deliveries,
  begin_delivery, mark_terminal_injected,
}
use nanasa.Delivery.Failures.{fail_attempt, revoke_claim, reject_claim, removed, remove_membership}
use nanasa.Delivery.Dispatcher.{default_dispatcher, retry_delay, retry, start, finish}
use nanasa.Delivery.Operations.{Operation, apply, apply_all}
use nanasa.Delivery.Fencing.{closed_stays, lease_excludes}
use nanasa.Delivery.Moves.{Moved, apply-Moved}
use nanasa.Delivery.Attempts.{after_failure, failed_attempt_waits, attempt_injects}

-- All that the delivery operations run.
program : Unit {0}
unfolding get update_where changes is_member has_running is_current get_active_run find_message
    order_rows is_due select_rows claim_rows claim_of claim_select claim_deliveries begin_delivery
    mark_terminal_injected fail_attempt revoke_claim reject_claim removed remove_membership
    retry_delay retry start finish apply apply_all
program = tt

abbrev message : Message
message = record { id = "m1"; group_id = "g"; group_seq = 1; created_at = 5; expires_at = some 500 }

abbrev queued : Delivery
queued = record {
  message_id = "m1";
  recipient_member_id = "ada";
  reason = none;
  status = DeliveryStatus.queued;
  attempts = 0;
  lease_owner = none;
  lease_expires_at = none;
  next_attempt_at = none;
  run_id = none;
  run_generation = none;
  updated_at = 5;
}

abbrev run : Run
run = record {
  id = "r1";
  group_id = "g";
  member_id = "ada";
  generation = 3;
  status = RunStatus.running;
}

abbrev tables : Delivery → Database
tables d = record {
  deliveries = d ∷ [];
  messages = message ∷ [];
  memberships = record { group_id = "g"; member_id = "ada"; active = true } ∷ [];
  runs = run ∷ [];
  events = [];
}

abbrev options : String → ℕ → ClaimOptions
options owner now = record { owner = owner; now = now; lease_ms = 30; limit = 32 }

abbrev received : Delivery
received = claimed (options "one" 10) queued

abbrev claim : DeliveryClaim
claim = record { delivery = received; message = message; run = some run; recipient_active = true }

claims_once :
    let (db, claims) = claim_deliveries (options "one" 10) (tables queued) in
    (claims ≡ claim ∷ []) × (db ≡ tables received)
unfolding program
claims_once = (refl, refl)

expires_claim :
    let db = apply (Operation.begin 600 (default_dispatcher "one") claim) (tables received) in
    get "m1" "ada" db.deliveries
    ≡ some (record received {
      status = DeliveryStatus.rejected;
      reason = some "delivery_expired";
      lease_owner = none;
      lease_expires_at = none;
      updated_at = 600;
    })
unfolding program
expires_claim = refl

abbrev dead : Delivery
dead = record received { status = DeliveryStatus.dead_letter; attempts = 5 }

abbrev later : List Operation
later =
    Operation.claim (options "two" 35)
    ∷ Operation.begin 36 (default_dispatcher "two") claim
    ∷ Operation.end 37 (default_dispatcher "two") claim (some "lost")
    ∷ []

closed_stays_example : get "m1" "ada" (apply_all later (tables dead)).deliveries ≡ some dead
unfolding program
closed_stays_example = closed_stays "m1" "ada" dead later (tables dead) (refl, tt) refl refl

two_ne_one : ◌≢◌ {A = String} "two" "one"
two_ne_one e = false≢true ((eq_iff "two" "one").1 e)

lease_excludes_example :
    get "m1" "ada" (apply_all later (tables received)).deliveries ≡ some received
unfolding program
lease_excludes_example =
    lease_excludes "m1" "ada" received "one" 40 later (tables received) (refl, tt) refl refl refl
      (omega arith, (two_ne_one, (two_ne_one, tt)))

apply-Moved_example :
    Moved "m1" "ada" queued (apply (Operation.claim (options "one" 10)) (tables queued)).deliveries
unfolding program
apply-Moved_example =
    apply-Moved "m1" "ada" queued (Operation.claim (options "one" 10)) (tables queued) (refl, tt)
      refl

failed_attempt_waits_example :
    let failed =
      apply (Operation.end 20 (default_dispatcher "one") claim (some "gone")) (tables received) in
    (get "m1" "ada" failed.deliveries
      ≡ some (after_failure (default_dispatcher "one") claim "gone" 20 received))
    × (get "m1" "ada" (apply (Operation.claim (options "two" 200)) failed).deliveries
        ≡ some (after_failure (default_dispatcher "one") claim "gone" 20 received))
unfolding program
failed_attempt_waits_example =
    failed_attempt_waits "m1" "ada" received (tables received) (refl, tt) refl
      (default_dispatcher "one") claim "gone" 20 (options "two" 200) refl (omega arith)

attempt_injects_example :
    let begun_db = apply (Operation.begin 20 (default_dispatcher "one") claim) (tables received) in
    let db = apply (Operation.end 30 (default_dispatcher "one") claim none) begun_db in
    (get "m1" "ada" begun_db.deliveries
      ≡ some (record received {
        status = DeliveryStatus.delivering;
        reason = none;
        run_id = some run.id;
        run_generation = some run.generation;
        updated_at = 20;
      }))
    × (get "m1" "ada" db.deliveries
        ≡ some (record received {
          status = DeliveryStatus.terminal_injected;
          reason = none;
          run_id = some run.id;
          run_generation = some run.generation;
          lease_owner = none;
          lease_expires_at = none;
          updated_at = 30;
        }))
unfolding program
attempt_injects_example =
    attempt_injects "m1" "ada" received (tables received) (refl, tt) refl (default_dispatcher "one")
      claim run 20 30 refl refl refl refl refl
