-- ===== src/Terminal/Service.antt =====
-- `TerminalControlService` over all runs: bindings come and go
-- (apps/daemon/src/terminal/terminal-control-service.ts).
use nanasa.Prelude.{
  ℕ, ◌+◌, String, Bool, Option, none, some, List, [], ◌∷◌, if◌then◌else◌, nat_eq, lookup, insert,
  erase,
}
use nanasa.Terminal.Types.{Viewer, RunControl, RuntimeRun, Log, Error, Result, ok, err, Service}
use nanasa.Terminal.Control.{find_viewer, audit, close, observers}

-- `#viewer`
unfoldable pub viewer_of : (run stream : String) → Service → Result (RunControl × Viewer)
viewer_of run stream s = elim (lookup run s.runs) [
  | none ↦ err Error.terminal_stream_inactive
  | some control ↦ elim (find_viewer stream control.viewers) [
    | none ↦ err Error.terminal_stream_inactive
    | some v ↦ ok (control, v)
  ]
]

unfoldable pub close_all : ℕ → String → List Viewer → Log → Log
close_all code reason [] log = log
close_all code reason (v ∷ vs) log = close_all code reason vs (close v.stream_id code reason log)

-- `unregister`
unfoldable pub unregister : String → String → Service → Service
unregister run reason s = elim (lookup run s.runs) [
  | none ↦ s
  | some control ↦ record {
    runs = erase run s.runs;
    log = audit "terminal.endpoint.removed" run none (close_all 1012 reason control.viewers s.log);
  }
]

abbrev pub bind : RuntimeRun → ℕ → Service → Service
bind run generation s = record s {
  runs =
      insert run.id
        (record {
          run = run;
          stream_generation = generation;
          viewers = [];
          controller_stream_id = none;
        })
        s.runs;
}

-- `register` of a run that may be bound already; a bound run of the same generation stays bound.
unfoldable pub rebind : RuntimeRun → RunControl → Service → Service
rebind run existing s =
    if nat_eq existing.run.generation run.generation
    then record s { runs = insert run.id (record existing { run = run }) s.runs }
    else bind run (existing.stream_generation + 1) (unregister run.id "binding_changed" s)

-- `register`; `none` is the error of a run without a terminal.
unfoldable pub register : RuntimeRun → Service → Option Service
register run s =
    if run.has_terminal
    then some (elim (lookup run.id s.runs) [
      | none ↦ bind run 1 s
      | some existing ↦ rebind run existing s
    ])
    else none

unfoldable pub unregister_all : String → List (String × RunControl) → Service → Service
unregister_all reason [] s = s
unregister_all reason ((run, c) ∷ runs) s = unregister_all reason runs (unregister run reason s)

-- `close`
unfoldable pub close_service : Service → Service
close_service s = unregister_all "server_restart" s.runs s

pub data EndpointState : Type 0 where
  stopped unavailable ready : EndpointState

pub record Endpoint : Type 0 where
  pub state : EndpointState
  pub controller_viewer_id : Option String
  pub observers : ℕ

-- `status`; `is_over` tells whether the stored run is stopped or failed.
unfoldable pub status : Bool → String → Service → Endpoint
status is_over run s = elim (lookup run s.runs) [
  | none ↦ record {
    state = if is_over then EndpointState.stopped else EndpointState.unavailable;
    controller_viewer_id = none;
    observers = 0;
  }
  | some control ↦ record {
    state = EndpointState.ready;
    controller_viewer_id = elim control.controller_stream_id [
      | none ↦ none
      | some id ↦ elim (find_viewer id control.viewers) [ none ↦ none | some v ↦ some v.viewer_id ]
    ];
    observers = observers control.viewers;
  }
]
