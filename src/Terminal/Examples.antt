-- ===== src/Terminal/Examples.antt =====
-- A terminal with two viewers.
use nanasa.Prelude.{
  keep, map, not, ℕ, ◌+◌, ◌≤◌, String, ◌==◌, true, false, not, ◌&&◌, ◌≡◌, refl, Option, none, some,
  List, [], ◌∷◌, ◌++◌, length, if◌then◌else◌, ltb, lookup,
}
use nanasa.Terminal.Types.{
  Role, Lease, Viewer, RunControl, RuntimeRun, Log, Error, err, Service, lease_ms,
}
use nanasa.Terminal.Control.{
  find_viewer, update_viewer, remove_viewer, previous_from, grant, grant_log, ConnectInput, connect,
  takeover, heartbeat, release, is_controller,
}
use nanasa.Terminal.Departures.{
  disconnect, has_controller, expire, expire_from, expire_viewer, expire_log,
}
use nanasa.Terminal.Valid.{IsValid}
use nanasa.Terminal.Reach.{Step, Reach, fresh_control, controllers, one_controller}
use nanasa.Terminal.Expiry.{beats, lapse, expire_lem}
use nanasa.Terminal.Arbiter.{
  Arbiter, pending_of, input_state, increment_pending, decrement_pending, Event, arbitrate,
  arbitrate_all, Frame, PtyCall, write_limited, pass_frame, dispatch,
}
use nanasa.Terminal.Input.{
  takeover_fences, call_of, is_small, dispatch_lem, same_state, arbitrate_tells,
}
use nanasa.Terminal.Service.{
  viewer_of, close_all, unregister, rebind, register, unregister_all, close_service,
}
use nanasa.Terminal.Bindings.{removals, register_fences}

program : Unit {0}
unfolding find_viewer update_viewer remove_viewer previous_from grant grant_log connect takeover
    heartbeat release disconnect is_controller has_controller expire expire_from expire_viewer
    expire_log input_state increment_pending decrement_pending arbitrate arbitrate_all write_limited
    pass_frame dispatch viewer_of close_all unregister rebind register unregister_all close_service
program = tt

abbrev run : RuntimeRun
run = record { id = "run1"; generation = 1; has_terminal = true }

abbrev opened : RunControl
opened = fresh_control run 1

abbrev quiet : Log
quiet = record { closed = []; audits = []; takeovers = [] }

abbrev joins : String → ConnectInput
joins viewer = record {
  run_id = "run1";
  run_generation = 1;
  viewer_id = viewer;
  requested_role = Role.controller;
  takeover = false;
}

abbrev viewer : String → String → Role → Option Lease → Viewer
viewer id stream role lease = record {
  viewer_id = id;
  stream_id = stream;
  stream_generation = 1;
  role = role;
  lease = lease;
  heartbeat_at = 100;
}

abbrev lease : String → String → ℕ → Lease
lease id viewer_id now = record {
  id = id;
  run_id = "run1";
  viewer_id = viewer_id;
  run_generation = 1;
  stream_generation = 1;
  acquired_at = now;
  expires_at = now + lease_ms;
}

abbrev ada : Viewer
ada = viewer "ada" "s1" Role.controller (some (lease "l1" "ada" 100))

abbrev bob : Viewer
bob = viewer "bob" "s2" Role.observer none

-- Ada controls the terminal, and Bob watches.
abbrev both : RunControl
both = record opened { viewers = ada ∷ bob ∷ []; controller_stream_id = some "s1" }

first_connects : (connect (joins "ada") "s1" "l1" 100 opened quiet).0.viewers ≡ ada ∷ []
unfolding program
first_connects = refl

second_watches :
    (connect
      (joins "bob")
      "s2"
      "l2"
      100
      (connect (joins "ada") "s1" "l1" 100 opened quiet).0
      quiet).0
    ≡ both
unfolding program
second_watches = refl

both_reached : Reach opened both
unfolding program
both_reached =
    Reach.next (Reach.next Reach.here (Step.connects (joins "ada") "s1" "l1" 100 quiet refl))
      (Step.connects (joins "bob") "s2" "l2" 100 quiet refl)

one_controller_example : (length (controllers both.viewers) ≤ 1) × IsValid both
one_controller_example = one_controller run 1 both_reached

-- At 15101 both have been silent for longer than a lease lasts.
expire_lem_example :
    ((expire 15101 both quiet).0.viewers ≡ keep (beats 15101) both.viewers)
    × ((expire 15101 both quiet).1.closed
        ≡ quiet.closed ++ map lapse (keep (λ v. not (beats 15101 v)) both.viewers))
expire_lem_example = expire_lem 15101 both quiet (one_controller run 1 both_reached).1

-- Bob takes over with the lease that Ada has.
abbrev bob_controls : Viewer
bob_controls = viewer "bob" "s2" Role.controller (some (lease "l2" "bob" 150))

abbrev ada_watches : Viewer
ada_watches = viewer "ada" "s1" Role.observer none

taken_over :
    (takeover bob (some "l1") "l2" 150 both quiet).0.viewers ≡ ada_watches ∷ bob_controls ∷ []
unfolding program
taken_over = refl

takeover_fences_example :
    is_controller bob_controls "l2" 200 (takeover bob (some "l1") "l2" 150 both quiet).0
    ≡ (("s2" == "s2") && (("l2" == "l2") && ltb 200 (150 + lease_ms)))
unfolding find_viewer
takeover_fences_example =
    takeover_fences bob (some "l1") "l2" 150 both quiet bob_controls "l2" 200 refl
      (unfold program in refl)

abbrev idle : Arbiter
idle = record { pending = []; told = [] }

-- A length in the place of the encoder's.
abbrev bytes : String → ℕ
bytes text = 3

dispatch_lem_example : (dispatch bytes idle both ada 200 (Frame.input "l1" "ls\n") []).0 ≡ (
    if not (ltb 0 (pending_of both.run.id idle))
      && (is_controller ada "l1" 200 both && is_small bytes (Frame.input "l1" "ls\n"))
    then call_of (Frame.input "l1" "ls\n") ∷ []
    else [])
dispatch_lem_example = dispatch_lem bytes idle both ada 200 (Frame.input "l1" "ls\n") []

typed :
    (dispatch bytes idle both ada 200 (Frame.input "l1" "ls\n") []).0 ≡ PtyCall.writes "ls\n" ∷ []
unfolding program
typed = refl

arbitrate_tells_example :
    ((arbitrate idle (Event.starts "run1")).told ≡ (
      if same_state
        (input_state "run1" idle)
        (input_state "run1" (arbitrate idle (Event.starts "run1")))
      then idle.told
      else idle.told ++ ("run1", input_state "run1" (arbitrate idle (Event.starts "run1"))) ∷ []))
    × (input_state "run2" (arbitrate idle (Event.starts "run1")) ≡ input_state "run2" idle)
arbitrate_tells_example = arbitrate_tells (Event.starts "run1") idle "run2" refl refl

abbrev events : List Event
events = Event.starts "run1" ∷ Event.starts "run1" ∷ Event.settles "run1" ∷ []

abbrev again : RuntimeRun
again = record { id = "run1"; generation = 2; has_terminal = true }

abbrev service : Service
service = record { runs = ("run1", both) ∷ []; log = quiet }

abbrev rebound : Service
rebound = record {
  runs = ("run1", fresh_control again 2) ∷ [];
  log = record {
    closed =
        record { stream_id = "s1"; code = 1012; reason = "binding_changed" }
        ∷ record { stream_id = "s2"; code = 1012; reason = "binding_changed" }
        ∷ [];
    audits = record { kind = "terminal.endpoint.removed"; run_id = "run1"; viewer_id = none } ∷ [];
    takeovers = [];
  };
}

register_fences_example :
    (rebound.log.closed ≡ quiet.closed ++ removals "binding_changed" both.viewers)
    × ((c : RunControl) × (lookup "run1" rebound.runs ≡ some c)
        × (c.run ≡ again)
        × (c.stream_generation ≡ 2)
        × (c.viewers ≡ [])
        × (c.controller_stream_id ≡ none))
    × (viewer_of "run1" "s1" rebound ≡ err Error.terminal_stream_inactive)
    × ((other : String)
        → ("run1" == other) ≡ false
        → lookup other rebound.runs ≡ lookup other service.runs)
register_fences_example =
    register_fences again both service rebound "s1" refl refl (unfold program in refl)
