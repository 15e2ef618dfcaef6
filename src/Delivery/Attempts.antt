-- ===== src/Delivery/Attempts.antt =====
-- How a delivery attempt ends: injected, retried after a delay, or dead.
use native.Mathlib.Nat.{pow-suc, mul-le-mul_left}
use nanasa.Prelude.{
  ℕ, zero, suc, ◌+◌, ◌^◌, ◌<◌, ◌≤◌, String, eq_refl, Bool, true, ◌≡◌, refl, ◌∙◌, none, some, arith,
  if◌then◌else◌, leb, ltb, none_or,
}
use nanasa.Delivery.Types.{DeliveryStatus, Delivery, Database, DeliveryClaim, StatusChanged, Run}
use nanasa.Delivery.Rows.{get, is_running}
use nanasa.Delivery.Claims.{
  ClaimOptions, is_due, update_one, begin_delivery, mark_terminal_injected, can_begin, begun,
}
use nanasa.Delivery.Failures.{fail_attempt, released, holds_claim, fail_status, fail_retry}
use nanasa.Delivery.Dispatcher.{Dispatcher, retry_delay, retry, start, finish}
use nanasa.Delivery.Keys.{KeepsKey, HasKeys, get-update_where}
use nanasa.Delivery.Operations.{Operation, apply}
use nanasa.Delivery.Fencing.{HasKeys-apply, apply_untouched}

-- The delay of a retry never exceeds the maximum, and never falls from one attempt to the next.
pub retry_delay_grows :
    (k : Dispatcher) (n : ℕ)
    → (retry_delay k n ≤ k.retry_max_ms) × (retry_delay k n ≤ retry_delay k (suc n))
unfolding retry_delay
retry_delay_grows k zero = (omega arith, omega arith)
retry_delay_grows k (suc n) =
    (omega arith, grind (arith, pow-suc 2 n, mul-le-mul_left k.retry_base_ms (doubles n)))
  where
    doubles : (n : ℕ) → 2 ^ n ≤ 2 ^ suc n
    doubles n = rw pow-suc (omega arith)

update_one_row :
    (m r : String) (d : Delivery) (db : Database) (p : Delivery → Bool) (f : Delivery → Delivery)
    (ev : StatusChanged)
    → get m r db.deliveries ≡ some d
    → KeepsKey f
    → p d ≡ true
    → get m r (update_one p f ev db).0.deliveries ≡ some (f d)
update_one_row m r d db p f ev found k e =
    let row = get-update_where p f m r db.deliveries k in ground (arith, row)

begin_row :
    (m r : String) (d : Delivery) (db : Database) (k : Dispatcher) (c : DeliveryClaim) (run : Run)
    (t : ℕ)
    → get m r db.deliveries ≡ some d
    → c.recipient_active ≡ true
    → none_or c.message.expires_at (λ e. ltb t e) ≡ true
    → c.run ≡ some run
    → is_running run.status ≡ true
    → can_begin c run k.owner db d ≡ true
    → get m r (apply (Operation.begin t k c) db).deliveries ≡ some (begun run t d)
unfolding apply start begin_delivery
begin_row m r d db k c run t found active fresh has_run running can = ground (
  arith,
  get-update_where (can_begin c run k.owner db) (begun run t) m r db.deliveries (λ x. (refl, refl)),
)

-- What a failed attempt leaves: the last one is dead, any other waits for its delay, and in either
-- case nobody has the lease.
abbrev pub after_failure : Dispatcher → DeliveryClaim → String → ℕ → Delivery → Delivery
after_failure k c why now d =
    let dead = leb k.max_attempts c.delivery.attempts in
    record d {
      status = if dead then DeliveryStatus.dead_letter else DeliveryStatus.retrying;
      reason = some why;
      next_attempt_at = if dead then none else some (now + retry_delay k c.delivery.attempts);
      lease_owner = none;
      lease_expires_at = none;
      updated_at = now;
    }

module _ (m r : String) (d : Delivery) (db : Database) (keyed : HasKeys db.deliveries)
    (found : get m r db.deliveries ≡ some d) where
  fail_attempt_row :
      (c : DeliveryClaim) (owner reason : String) (n retry_at now : ℕ)
      → holds_claim c owner d ≡ true
      → get m r (fail_attempt c owner reason n retry_at now db).0.deliveries
        ≡ some (released (fail_status c n) reason (fail_retry c n retry_at) now d)
  unfolding fail_attempt
  fail_attempt_row c owner reason n retry_at now held =
      update_one_row m r d db (holds_claim c owner) _ _ found (λ x. (refl, refl)) held

  end_row :
      (k : Dispatcher) (c : DeliveryClaim) (reason : String) (now : ℕ)
      → holds_claim c k.owner d ≡ true
      → get m r (apply (Operation.end now k c (some reason)) db).deliveries
        ≡ some (after_failure k c reason now d)
  unfolding apply finish retry
  end_row k c reason now held =
      fail_attempt_row c k.owner reason k.max_attempts (now + retry_delay k c.delivery.attempts) now
        held
      ∙ ground arith

  -- After a failed attempt the delivery is dead if that was its last try, and otherwise free and
  -- retrying; no claim takes it before the delay of its attempt is over.
  pub failed_attempt_waits :
      (k : Dispatcher) (c : DeliveryClaim) (reason : String) (now : ℕ) (o : ClaimOptions)
      → holds_claim c k.owner d ≡ true
      → o.now < now + retry_delay k c.delivery.attempts
      → let failed = apply (Operation.end now k c (some reason)) db in
        (get m r failed.deliveries ≡ some (after_failure k c reason now d))
        × (get m r (apply (Operation.claim o) failed).deliveries
            ≡ some (after_failure k c reason now d))
  unfolding is_due
  failed_attempt_waits k c reason now o held early =
      let op = Operation.end now k c (some reason) in
      let row = end_row k c reason now held in
      (
        row,
        apply_untouched m r (after_failure k c reason now d) (Operation.claim o) (apply op db)
            (HasKeys-apply op db keyed) row (ground arith),
      )

  -- A received claim of an active member, whose run is current and whose message has not expired,
  -- is delivering in that run once it has begun, still under its lease; when the terminal takes
  -- the text, it is injected into that run, and nobody has its lease. All else of the row, its
  -- attempts too, stays.
  pub attempt_injects :
      (k : Dispatcher) (c : DeliveryClaim) (run : Run) (t u : ℕ)
      → c.recipient_active ≡ true
      → none_or c.message.expires_at (λ e. ltb t e) ≡ true
      → c.run ≡ some run
      → is_running run.status ≡ true
      → can_begin c run k.owner db d ≡ true
      → (get m r (apply (Operation.begin t k c) db).deliveries
          ≡ some (record d {
            status = DeliveryStatus.delivering;
            reason = none;
            run_id = some run.id;
            run_generation = some run.generation;
            updated_at = t;
          }))
        × (get m r (apply (Operation.end u k c none) (apply (Operation.begin t k c) db)).deliveries
            ≡ some (record d {
              status = DeliveryStatus.terminal_injected;
              reason = none;
              run_id = some run.id;
              run_generation = some run.generation;
              lease_owner = none;
              lease_expires_at = none;
              updated_at = u;
            }))
  unfolding apply finish mark_terminal_injected
  attempt_injects k c run t u active fresh has_run running can =
      let row = begin_row m r d db k c run t found active fresh has_run running can in
      (
        row,
        update_one_row m r (begun run t d) (apply (Operation.begin t k c) db) _ _ _ row
            (λ x. (refl, refl)) (ground (arith, eq_refl run.id)),
      )
