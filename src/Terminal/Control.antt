-- ===== src/Terminal/Control.antt =====
-- The operations of `TerminalControlService` on one run and the viewers that stay
-- (apps/daemon/src/terminal/terminal-control-service.ts). A new id (`randomUUID`) and the time are
-- arguments. The log goes through each operation.
use nanasa.Prelude.{
  ℕ, ◌+◌, String, ◌==◌, Bool, true, false, not, ◌&&◌, ◌||◌, Option, none, some, List, [], ◌∷◌, ◌++◌,
  if◌then◌else◌, ltb, leb, nat_eq, length, keep, any, is_none, some_and, none_or,
}
use nanasa.Terminal.Types.{
  max_viewers, max_observers, lease_ms, Role, Lease, Viewer, RunControl, Log, Error, Result, ok,
  err,
}

abbrev pub is_observer : Role → Bool
is_observer Role.observer = true
is_observer Role.controller = false

unfoldable pub find_viewer : String → List Viewer → Option Viewer
find_viewer id [] = none
find_viewer id (v ∷ vs) = if v.stream_id == id then some v else find_viewer id vs

-- A change of the viewer object that the map holds under `id`.
unfoldable pub update_viewer : String → (Viewer → Viewer) → List Viewer → List Viewer
update_viewer id f [] = []
update_viewer id f (v ∷ vs) = (if v.stream_id == id then f v else v) ∷ update_viewer id f vs

-- `viewers.delete(id)`
unfoldable pub remove_viewer : String → List Viewer → List Viewer
remove_viewer id = keep (λ v. not (v.stream_id == id))

abbrev pub demoted : Viewer → Viewer
demoted v = record v { role = Role.observer; lease = none }

abbrev pub new_lease : RunControl → String → ℕ → Viewer → Lease
new_lease control id now v = record {
  id = id;
  run_id = control.run.id;
  viewer_id = v.viewer_id;
  run_generation = control.run.generation;
  stream_generation = control.stream_generation;
  acquired_at = now;
  expires_at = now + lease_ms;
}

abbrev pub promoted : RunControl → String → ℕ → Viewer → Viewer
promoted control id now v = record v {
  role = Role.controller;
  lease = some (new_lease control id now v);
}

abbrev pub audit : String → String → Option String → Log → Log
audit kind run viewer log = record log {
  audits = log.audits ++ record { kind = kind; run_id = run; viewer_id = viewer } ∷ [];
}

abbrev pub close : String → ℕ → String → Log → Log
close stream code reason log = record log {
  closed = log.closed ++ record { stream_id = stream; code = code; reason = reason } ∷ [];
}

-- The viewer under `controller`, if it is another than the one under `stream`.
unfoldable pub previous_from : Option String → List Viewer → String → Option Viewer
previous_from controller viewers stream = elim controller [
  | none ↦ none
  | some id ↦ elim (find_viewer id viewers) [
    | none ↦ none
    | some v ↦ if v.stream_id == stream then none else some v
  ]
]

abbrev pub previous_of : RunControl → String → Option Viewer
previous_of control = previous_from control.controller_stream_id control.viewers

abbrev pub demote_previous : Option Viewer → List Viewer → List Viewer
demote_previous none vs = vs
demote_previous (some p) vs = update_viewer p.stream_id demoted vs

abbrev pub close_previous : Option Viewer → Log → Log
close_previous none log = log
close_previous (some p) log = close p.stream_id 4001 "terminal_controller_taken_over" log

-- `#grant`
unfoldable pub grant : String → ℕ → Bool → Viewer → RunControl → RunControl
grant lease_id now takeover viewer control = record control {
  viewers =
      update_viewer viewer.stream_id (promoted control lease_id now)
        (demote_previous (previous_of control viewer.stream_id) control.viewers);
  controller_stream_id = some viewer.stream_id;
}

unfoldable pub grant_log : Bool → Viewer → RunControl → Log → Log
grant_log takeover viewer control log =
    let called =
      if takeover then record log { takeovers = log.takeovers ++ control.run.id ∷ [] } else log in
    audit (if takeover then "terminal.lease.taken-over" else "terminal.lease.acquired")
      control.run.id (some viewer.viewer_id)
      (close_previous (previous_of control viewer.stream_id) called)

-- The argument of `connect`.
pub record ConnectInput : Type 0 where
  pub run_id : String
  pub run_generation : ℕ
  pub viewer_id : String
  pub requested_role : Role
  pub takeover : Bool

abbrev pub new_viewer : ConnectInput → String → ℕ → RunControl → Viewer
new_viewer input stream now control = record {
  viewer_id = input.viewer_id;
  stream_id = stream;
  stream_generation = control.stream_generation;
  role = Role.observer;
  lease = none;
  heartbeat_at = now;
}

abbrev pub observers : List Viewer → ℕ
observers [] = 0
observers (v ∷ vs) = (if is_observer v.role then 1 else 0) + observers vs

abbrev pub wants_control : ConnectInput → RunControl → Bool
wants_control input control =
    not (is_observer input.requested_role)
    && (is_none control.controller_stream_id || input.takeover)

abbrev pub with_viewer : Viewer → RunControl → RunControl
with_viewer v control = record control { viewers = control.viewers ++ v ∷ [] }

-- `connect`, from the guards on.
unfoldable pub connect :
    ConnectInput → (stream lease : String) → ℕ → RunControl → Log → RunControl × Log × Result Viewer
connect input stream lease now control log =
    let viewer = new_viewer input stream now control in
    let joined = with_viewer viewer control in
    let granted = grant lease now input.takeover viewer joined in
    let said = audit "terminal.viewer.connected" input.run_id (some input.viewer_id) in
    if not (nat_eq control.run.generation input.run_generation)
    then (control, log, err Error.terminal_generation_stale)
    else if leb max_viewers (length control.viewers)
    then (control, log, err Error.terminal_viewer_limit)
    else if any (λ v. v.viewer_id == input.viewer_id) control.viewers
    then (control, log, err Error.terminal_viewer_duplicate)
    else if wants_control input control
    then (
      granted,
      said (grant_log input.takeover viewer joined log),
      ok (promoted joined lease now viewer),
    )
    else if ltb max_observers (observers joined.viewers)
    then (
      record joined { viewers = remove_viewer stream joined.viewers },
      log,
      err Error.terminal_observer_limit,
    )
    else (joined, said log, ok viewer)

abbrev pub lease_of : RunControl → Option Lease
lease_of control = elim control.controller_stream_id [
  | none ↦ none
  | some id ↦ elim (find_viewer id control.viewers) [ none ↦ none | some v ↦ v.lease ]
]

-- `expectedLeaseId !== undefined && current?.lease?.id !== expectedLeaseId`
abbrev pub lease_conflicts : Option String → RunControl → Bool
lease_conflicts expected control =
    some_and expected (λ id. none_or (lease_of control) (λ l. not (l.id == id)))

-- `takeover`, for a viewer of the run.
unfoldable pub takeover :
    Viewer
    → Option String
    → (lease : String) → ℕ
    → RunControl
    → Log
    → RunControl × Log × Result Lease
takeover viewer expected lease now control log =
    if lease_conflicts expected control
    then (control, log, err Error.terminal_lease_conflict)
    else (
      grant lease now true viewer control,
      grant_log true viewer control log,
      ok (new_lease control lease now viewer),
    )

abbrev pub beaten : ℕ → Viewer → Viewer
beaten now v = record v { heartbeat_at = now }

abbrev pub renewed : ℕ → Lease → Lease
renewed now l = record l { expires_at = now + lease_ms }

-- `heartbeat`: the time of the beat stays noted also where the lease id is refused.
unfoldable pub heartbeat :
    Viewer → Option String → ℕ → RunControl → RunControl × Result (Option Lease)
heartbeat viewer lease_id now control =
    let noted = record control {
      viewers = update_viewer viewer.stream_id (beaten now) control.viewers;
    } in
    elim viewer.lease [
      | none ↦ (noted, ok none)
      | some l ↦
          if some_and lease_id (λ id. id == l.id)
          then (
            record control {
              viewers =
                  update_viewer viewer.stream_id
                    (λ v. record (beaten now v) { lease = some (renewed now l) }) control.viewers;
            },
            ok (some (renewed now l)),
          )
          else (noted, err Error.terminal_lease_stale)
    ]

-- The condition that `assertController` demands of a viewer.
unfoldable pub is_controller : Viewer → String → ℕ → RunControl → Bool
is_controller viewer lease_id now control =
    some_and control.controller_stream_id (λ id. id == viewer.stream_id)
    && (not (is_observer viewer.role)
        && some_and viewer.lease (λ l. l.id == lease_id && ltb now l.expires_at))

-- `release`, for a viewer of the run.
unfoldable pub release : Viewer → String → ℕ → RunControl → Log → RunControl × Log × Result Viewer
release viewer lease_id now control log =
    if is_controller viewer lease_id now control
    then (
      record control {
        viewers = update_viewer viewer.stream_id demoted control.viewers;
        controller_stream_id = none;
      },
      audit "terminal.lease.released" control.run.id (some viewer.viewer_id) log,
      ok (demoted viewer),
    )
    else (control, log, err Error.terminal_controller_required)
