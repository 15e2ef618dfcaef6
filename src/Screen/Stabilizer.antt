-- ===== src/Screen/Stabilizer.antt =====
-- `ProviderScreenStabilizer` (apps/daemon/src/providers/provider-observation-stabilizer.ts).
-- A difference of times that would be negative is 0 here; the code compares both with positive
-- limits alike.
use nanasa.Prelude.{
  ℕ, ◌+◌, ◌-◌, Bool, true, false, not, ◌&&◌, Option, none, some, List, [], ◌∷◌, if◌then◌else◌, ltb,
  leb, or_else, same,
}

-- ProviderScreenState
pub data ScreenState : Type 0 where
  idle working blocked unknown : ScreenState

unfoldable pub ScreenState-discrete : Discrete ScreenState
ScreenState-discrete = hlevel

-- ProviderScreenSignal
pub record Signal : Type 0 where
  pub state : ScreenState
  pub visible_idle : Bool
  pub visible_working : Bool
  pub visible_blocker : Bool

pub data Reason : Type 0 where
  startup_grace idle_confirmation idle_confirmed idle_cap changed unchanged : Reason

-- StabilizedScreenDecision
pub record ScreenDecision : Type 0 where
  pub publish : Bool
  pub signal : Signal
  pub reason : Reason

abbrev pub startup_grace_ms : ℕ
startup_grace_ms = 3000

abbrev pub confirmation_interval_ms : ℕ
confirmation_interval_ms = 100

abbrev pub idle_confirmations : ℕ
idle_confirmations = 3

abbrev pub confirmation_cap_ms : ℕ
confirmation_cap_ms = 700

pub record Stabilizer : Type 0 where
  pub process_started_at : ℕ
  pub published : Signal
  pub pending_idle_started_at : Option ℕ
  pub last_idle_confirmation_at : Option ℕ
  pub confirmations : ℕ

abbrev unknown_signal : Signal
unknown_signal = record {
  state = ScreenState.unknown;
  visible_idle = false;
  visible_working = false;
  visible_blocker = false;
}

-- `resetForProcess`
unfoldable pub reset_for_process : ℕ → Stabilizer
reset_for_process started = record {
  process_started_at = started;
  published = unknown_signal;
  pending_idle_started_at = none;
  last_idle_confirmation_at = none;
  confirmations = 0;
}

-- `#clearPendingIdle`
abbrev pub clear_pending_idle : Stabilizer → Stabilizer
clear_pending_idle s = record s {
  pending_idle_started_at = none;
  last_idle_confirmation_at = none;
  confirmations = 0;
}

abbrev pub is_working : ScreenState → Bool
is_working ScreenState.working = true
is_working _ = false

abbrev is_blocked : ScreenState → Bool
is_blocked ScreenState.blocked = true
is_blocked _ = false

abbrev pub is_idle : ScreenState → Bool
is_idle ScreenState.idle = true
is_idle _ = false

abbrev pub same_bool : Bool → Bool → Bool
same_bool true b = b
same_bool false b = not b

-- The four comparisons that `changed` negates.
abbrev pub same_signal : Signal → Signal → Bool
same_signal a b =
    same ScreenState-discrete a.state b.state
    && (same_bool a.visible_idle b.visible_idle
        && (same_bool a.visible_working b.visible_working
            && same_bool a.visible_blocker b.visible_blocker))

-- `plainIdle`
unfoldable pub is_plain_idle : Signal → Stabilizer → Bool
is_plain_idle signal s =
    is_working s.published.state
    && (is_idle signal.state && (not signal.visible_idle && not signal.visible_blocker))

abbrev pub in_grace : Signal → ℕ → Stabilizer → Bool
in_grace signal now s =
    ltb (now - s.process_started_at) startup_grace_ms
    && (not (is_working signal.state) && not (is_blocked signal.state))

abbrev pub held : Reason → Stabilizer → Stabilizer × ScreenDecision
held reason s = (s, record { publish = false; signal = s.published; reason = reason })

abbrev pub publishes : Signal → Reason → Stabilizer → Stabilizer × ScreenDecision
publishes signal reason s = (
  clear_pending_idle (record s { published = signal }),
  record { publish = true; signal = signal; reason = reason },
)

-- The branch of `observe` for a plain idle screen.
unfoldable pub observe_idle : Option ℕ → Signal → ℕ → Stabilizer → Stabilizer × ScreenDecision
observe_idle none signal now s = held Reason.idle_confirmation (record s {
  pending_idle_started_at = some now;
  last_idle_confirmation_at = some now;
  confirmations = 1;
})
observe_idle (some started) signal now s =
    let confirmed = record s {
      last_idle_confirmation_at = some now;
      confirmations = s.confirmations + 1;
    } in
    if leb confirmation_cap_ms (now - started)
    then publishes signal Reason.idle_cap s
    else if ltb (now - or_else s.last_idle_confirmation_at 0) confirmation_interval_ms
    then held Reason.idle_confirmation s
    else if ltb (s.confirmations + 1) idle_confirmations
    then held Reason.idle_confirmation confirmed
    else publishes signal Reason.idle_confirmed confirmed

-- The end of `observe`, with nothing pending.
unfoldable pub observe_change : Signal → Stabilizer → Stabilizer × ScreenDecision
observe_change signal s = if same_signal s.published signal then held Reason.unchanged s else (
  record s { published = signal },
  record { publish = true; signal = signal; reason = Reason.changed },
)

-- `observe`
unfoldable pub observe_screen : Signal → ℕ → Stabilizer → Stabilizer × ScreenDecision
observe_screen signal now s =
    if in_grace signal now s
    then held Reason.startup_grace (clear_pending_idle s)
    else if is_plain_idle signal s
    then observe_idle s.pending_idle_started_at signal now s
    else observe_change signal (clear_pending_idle s)

unfoldable pub observe_screens : Stabilizer → List (Signal × ℕ) → Stabilizer
observe_screens s [] = s
observe_screens s ((signal, now) ∷ seen) = observe_screens (observe_screen signal now s).0 seen
