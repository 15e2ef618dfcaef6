-- ===== src/Terminal/Arbiter.antt =====
-- `TerminalInputArbiter` (apps/daemon/src/terminal/terminal-input-arbiter.ts): the input of viewers
-- and of automated operations. A run's listeners are the log of what they are told. An operation
-- of `dispatchAutomated` is its two events: the call, and the moment its promise settles.
use nanasa.Prelude.{
  ℕ, ◌+◌, ◌-◌, String, Bool, List, [], ◌∷◌, ◌++◌, if◌then◌else◌, ltb, leb, or_else, lookup, insert,
  erase,
}
use nanasa.Terminal.Types.{
  Viewer, RunControl, Error, Result, ok, err, max_input_bytes, max_paste_bytes,
}
use nanasa.Terminal.Control.{is_controller}

pub data InputState : Type 0 where
  interactive automated : InputState

-- `#pending`, and the calls of the listeners, by run.
pub record Arbiter : Type 0 where
  pub pending : List (String × ℕ)
  pub told : List (String × InputState)

abbrev pub pending_of : String → Arbiter → ℕ
pending_of run a = or_else (lookup run a.pending) 0

-- `inputState`
unfoldable pub input_state : String → Arbiter → InputState
input_state run a =
    if ltb 0 (pending_of run a) then InputState.automated else InputState.interactive

-- `#emit`
abbrev pub emit : String → InputState → Arbiter → Arbiter
emit run state a = record a { told = a.told ++ (run, state) ∷ [] }

-- `#incrementPending`
unfoldable pub increment_pending : String → Arbiter → Arbiter
increment_pending run a =
    let n = pending_of run a in
    let counted = record a { pending = insert run (n + 1) a.pending } in
    if ltb 0 n then counted else emit run InputState.automated counted

-- `#decrementPending`
unfoldable pub decrement_pending : String → Arbiter → Arbiter
decrement_pending run a =
    let n = pending_of run a in
    if leb n 1
    then emit run InputState.interactive (record a { pending = erase run a.pending })
    else record a { pending = insert run (n - 1) a.pending }

-- A call of `dispatchAutomated`, and its `settle`.
pub data Event : Type 0 where
  starts settles : String → Event

abbrev pub run_of : Event → String
run_of (Event.starts run) = run
run_of (Event.settles run) = run

unfoldable pub arbitrate : Arbiter → Event → Arbiter
arbitrate a (Event.starts run) = increment_pending run a
arbitrate a (Event.settles run) = decrement_pending run a

unfoldable pub arbitrate_all : Arbiter → List Event → Arbiter
arbitrate_all a [] = a
arbitrate_all a (e ∷ es) = arbitrate_all (arbitrate a e) es

-- TerminalClientFrame, the frames that `dispatch` takes.
pub data Frame : Type 0 where
  input paste : (lease_id text : String) → Frame
  focus : (lease_id : String) → Bool → Frame
  resize : (lease_id : String) → (cols rows : ℕ) → Frame

abbrev pub lease_id_of : Frame → String
lease_id_of (Frame.input id text) = id
lease_id_of (Frame.paste id text) = id
lease_id_of (Frame.focus id focused) = id
lease_id_of (Frame.resize id cols rows) = id

-- What the pseudo-terminal is told. A focus is written as an escape sequence.
pub data PtyCall : Type 0 where
  writes : String → PtyCall
  focuses : Bool → PtyCall
  resizes : ℕ → ℕ → PtyCall

-- `byte_length` is `Buffer.byteLength(·, "utf8")`.
module _ (byte_length : String → ℕ) where
  unfoldable pub write_limited : ℕ → String → List PtyCall → List PtyCall × Result (Unit {0})
  write_limited limit text pty =
      if ltb limit (byte_length text)
      then (pty, err Error.terminal_input_too_large)
      else (pty ++ PtyCall.writes text ∷ [], ok tt)

  unfoldable pub pass_frame : Frame → List PtyCall → List PtyCall × Result (Unit {0})
  pass_frame (Frame.resize id cols rows) pty = (pty ++ PtyCall.resizes cols rows ∷ [], ok tt)
  pass_frame (Frame.focus id focused) pty = (pty ++ PtyCall.focuses focused ∷ [], ok tt)
  pass_frame (Frame.paste id text) pty = write_limited max_paste_bytes text pty
  pass_frame (Frame.input id text) pty = write_limited max_input_bytes text pty

  -- `dispatch`, for a viewer of the run.
  unfoldable pub dispatch :
      Arbiter → RunControl → Viewer → ℕ → Frame → List PtyCall → List PtyCall × Result (Unit {0})
  dispatch a control viewer now frame pty = elim (input_state control.run.id a) [
    | InputState.automated ↦ (pty, err Error.terminal_input_automation_active)
    | InputState.interactive ↦
        if is_controller viewer (lease_id_of frame) now control
        then pass_frame frame pty
        else (pty, err Error.terminal_controller_required)
  ]
