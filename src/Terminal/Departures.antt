-- ===== src/Terminal/Departures.antt =====
-- The operations of `TerminalControlService` by which viewers leave
-- (apps/daemon/src/terminal/terminal-control-service.ts).
use nanasa.Prelude.{
  ℕ, ◌-◌, String, ◌==◌, Bool, none, some, List, [], ◌∷◌, if◌then◌else◌, ltb, some_and,
}
use nanasa.Terminal.Types.{lease_ms, Viewer, RunControl, Log}
use nanasa.Terminal.Control.{remove_viewer, audit, close, lease_of}

-- `disconnect`, for a viewer of the run.
unfoldable pub disconnect : Viewer → RunControl → RunControl
disconnect viewer control = record control {
  viewers = remove_viewer viewer.stream_id control.viewers;
  controller_stream_id =
      if some_and control.controller_stream_id (λ id. id == viewer.stream_id)
      then none
      else control.controller_stream_id;
}

-- `hasController`
unfoldable pub has_controller : ℕ → RunControl → Bool
has_controller now control = some_and (lease_of control) (λ l. ltb now l.expires_at)

-- `now - viewer.heartbeatAt <= leaseMs` fails.
abbrev pub is_lapsed : ℕ → Viewer → Bool
is_lapsed now v = ltb lease_ms (now - v.heartbeat_at)

-- A round of the loop of `expire`, on the run and on the log.
unfoldable pub expire_viewer : ℕ → Viewer → RunControl → RunControl
expire_viewer now v control = if is_lapsed now v then disconnect v control else control

unfoldable pub expire_log : ℕ → Viewer → String → Log → Log
expire_log now v run log =
    if is_lapsed now v
    then audit "terminal.lease.expired" run (some v.viewer_id) (
        audit "terminal.viewer.disconnected" run (some v.viewer_id)
          (close v.stream_id 1008 "terminal_lease_expired" log))
    else log

-- The loop of `expire` over the viewers of a run.
unfoldable pub expire_from : ℕ → List Viewer → RunControl → Log → RunControl × Log
expire_from now [] control log = (control, log)
expire_from now (v ∷ vs) control log =
    expire_from now vs (expire_viewer now v control) (expire_log now v control.run.id log)

unfoldable pub expire : ℕ → RunControl → Log → RunControl × Log
unfolding expire_from
expire now control = expire_from now control.viewers control
