-- ===== src/Delivery/Dispatcher.antt =====
-- `DeliveryDispatcher` (apps/daemon/src/delivery-dispatcher.ts). A delivery waits for the terminal
-- between two steps, in which the claims of a batch may interleave: `start` runs up to the call of
-- the target and `finish` from its answer on. What the terminal answers is an argument.
use nanasa.Prelude.{
  ℕ, ◌+◌, ◌-◌, ◌*◌, ◌^◌, min, String, Bool, true, false, not, Option, none, some, if◌then◌else◌,
  leb, some_and,
}
use nanasa.Delivery.Types.{Run, Database, DeliveryClaim}
use nanasa.Delivery.Rows.{is_running}
use nanasa.Delivery.Claims.{begin_delivery, mark_terminal_injected}
use nanasa.Delivery.Failures.{fail_attempt, revoke_claim, reject_claim}

-- The options of the dispatcher that a delivery reads.
pub record Dispatcher : Type 0 where
  pub owner : String
  pub max_attempts : ℕ
  pub retry_base_ms : ℕ
  pub retry_max_ms : ℕ

-- The defaults of the constructor.
abbrev pub default_dispatcher : String → Dispatcher
default_dispatcher owner = record {
  owner = owner;
  max_attempts = 5;
  retry_base_ms = 250;
  retry_max_ms = 30000;
}

unfoldable pub retry_delay : Dispatcher → ℕ → ℕ
retry_delay k attempts = min k.retry_max_ms (k.retry_base_ms * 2 ^ (attempts - 1))

unfoldable pub retry : Dispatcher → DeliveryClaim → String → ℕ → Database → Database
retry k c reason now db =
    (fail_attempt c k.owner reason k.max_attempts (now + retry_delay k c.delivery.attempts) now
      db).0

-- Whether the delivery waits for the terminal now.
pub data Progress : Type 0 where
  done writing : Progress

abbrev pub run_is_running : Option Run → Bool
run_is_running r = some_and r (λ run. is_running run.status)

abbrev pub started : Database × Bool → Database × Progress
started (db, true) = (db, Progress.writing)
started (db, false) = (db, Progress.done)

unfoldable pub start : Dispatcher → DeliveryClaim → ℕ → Database → Database × Progress
start k c now db =
    if not c.recipient_active
    then ((revoke_claim c k.owner "membership_removed" now db).0, Progress.done)
    else if some_and c.message.expires_at (λ t. leb t now)
    then ((reject_claim c k.owner "delivery_expired" now db).0, Progress.done)
    else if not (run_is_running c.run)
    then (retry k c "active_run_unavailable" now db, Progress.done)
    else started (begin_delivery c k.owner now db)

-- `none` is a terminal that took the text, `some reason` the message of its error.
unfoldable pub finish : Dispatcher → DeliveryClaim → Option String → ℕ → Database → Database
finish k c none now db = (mark_terminal_injected c k.owner now db).0
finish k c (some reason) now db = retry k c reason now db
