-- ===== src/Terminal/Types.antt =====
-- The state of `TerminalControlService` (apps/daemon/src/terminal/terminal-control-service.ts).
-- A viewer's `close` callback, the audit trail and the callback of a takeover are a log.
use nanasa.Prelude.{ℕ, String, Bool, Option, List}

-- TERMINAL_LIMITS of apps/daemon/src/terminal/terminal-transport-limits.ts
abbrev pub max_viewers : ℕ
max_viewers = 4

abbrev pub max_observers : ℕ
max_observers = 3

abbrev pub lease_ms : ℕ
lease_ms = 15000

abbrev pub max_input_bytes : ℕ
max_input_bytes = 65536

abbrev pub max_paste_bytes : ℕ
max_paste_bytes = 196608

pub data Role : Type 0 where
  controller observer : Role

-- TerminalLease
pub record Lease : Type 0 where
  pub id : String
  pub run_id : String
  pub viewer_id : String
  pub run_generation : ℕ
  pub stream_generation : ℕ
  pub acquired_at : ℕ
  pub expires_at : ℕ

pub record Viewer : Type 0 where
  pub viewer_id : String
  pub stream_id : String
  pub stream_generation : ℕ
  pub role : Role
  pub lease : Option Lease
  pub heartbeat_at : ℕ

-- The run of a terminal binding: the fields that the service reads.
pub record RuntimeRun : Type 0 where
  pub id : String
  pub generation : ℕ
  pub has_terminal : Bool

-- `viewers` is the map from stream ids, in its order of insertion.
pub record RunControl : Type 0 where
  pub run : RuntimeRun
  pub stream_generation : ℕ
  pub viewers : List Viewer
  pub controller_stream_id : Option String

-- A call of `viewer.close(code, reason)`.
pub record Closed : Type 0 where
  pub stream_id : String
  pub code : ℕ
  pub reason : String

-- A call of `#audit`, with the viewer it names.
pub record Audit : Type 0 where
  pub kind : String
  pub run_id : String
  pub viewer_id : Option String

pub record Log : Type 0 where
  pub closed : List Closed
  pub audits : List Audit
  pub takeovers : List String

-- The codes of the errors that the service throws.
pub data Error : Type 0 where
  terminal_unavailable terminal_generation_stale terminal_viewer_limit : Error
  terminal_viewer_duplicate terminal_observer_limit terminal_lease_conflict : Error
  terminal_lease_stale terminal_stream_inactive terminal_controller_required : Error
  terminal_input_automation_active terminal_input_too_large : Error

pub data Result {ℓ} (A : Type ℓ) : Type ℓ where
  ok : A → Result A
  err : Error → Result A

pub record Service : Type 0 where
  pub runs : List (String × RunControl)
  pub log : Log
