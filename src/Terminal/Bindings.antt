-- ===== src/Terminal/Bindings.antt =====
-- A terminal that is bound anew, or no longer bound: what becomes of its viewers.
use mathlib.Core.List.{append-nil, append_assoc}
use nanasa.Prelude.{
  ◌+◌, String, ◌==◌, eq_iff, eq_refl, true, false, ◌≡◌, refl, sym, ◌∙◌, none, some, List, [], ◌∷◌,
  ◌++◌, map, arith, if◌then◌else◌, nat_eq, lookup, insert, lookup-insert, lookup-erase, Bool-cases,
  inl, inr,
}
use nanasa.Terminal.Types.{Viewer, RunControl, RuntimeRun, Log, Closed, Error, err, Service}
use nanasa.Terminal.Control.{find_viewer, close}
use nanasa.Terminal.Service.{
  viewer_of, close_all, unregister, bind, rebind, register, unregister_all, close_service,
}

abbrev removal : String → Viewer → Closed
removal reason v = record { stream_id = v.stream_id; code = 1012; reason = reason }

abbrev pub removals : String → List Viewer → List Closed
removals reason = map (removal reason)

close_all-closed :
    (reason : String) (vs : List Viewer) (log : Log)
    → (close_all 1012 reason vs log).closed ≡ log.closed ++ removals reason vs
unfolding close_all
close_all-closed reason [] log = sym (append-nil log.closed)
close_all-closed reason (v ∷ vs) log =
    close_all-closed reason vs (close v.stream_id 1012 reason log)
    ∙ append_assoc log.closed (removal reason v ∷ []) (removals reason vs)

unregister-lookup :
    (run reason : String) (s : Service) (other : String)
    → lookup other (unregister run reason s).runs
      ≡ (if run == other then none else lookup other s.runs)
unfolding unregister
unregister-lookup run reason s other =
    ground (arith, lookup-erase run other s.runs, eq_iff run other)

unregister-closed :
    (run reason : String) (s : Service) (c : RunControl)
    → lookup run s.runs ≡ some c
    → (unregister run reason s).log.closed ≡ s.log.closed ++ removals reason c.viewers
unfolding unregister
unregister-closed run reason s c e = ground (arith, close_all-closed reason c.viewers s.log)

-- A terminal of a run that is bound is registered again, for another generation of the run: each
-- viewer of the old binding is closed once, in order, with code 1012, and no other viewer is. The
-- run then has a binding of the new generation, whose stream generation is greater by one, with no
-- viewer and nobody in control, so that every stream id is refused; and every other run has the
-- binding that it had, if any.
pub register_fences :
    (run : RuntimeRun) (c : RunControl) (s s' : Service) (stream : String)
    → lookup run.id s.runs ≡ some c
    → nat_eq c.run.generation run.generation ≡ false
    → register run s ≡ some s'
    → (s'.log.closed ≡ s.log.closed ++ removals "binding_changed" c.viewers)
      × ((c' : RunControl) × (lookup run.id s'.runs ≡ some c')
          × (c'.run ≡ run)
          × (c'.stream_generation ≡ c.stream_generation + 1)
          × (c'.viewers ≡ [])
          × (c'.controller_stream_id ≡ none))
      × (viewer_of run.id stream s' ≡ err Error.terminal_stream_inactive)
      × ((other : String) → (run.id == other) ≡ false → lookup other s'.runs ≡ lookup other s.runs)
unfolding register rebind viewer_of find_viewer
register_fences run c s s' stream known moved done =
    let removed = unregister run.id "binding_changed" s in
    let bound = bind run (c.stream_generation + 1) removed in
    let at : bound ≡ s' = ground (arith) in
    let fresh : RunControl = record {
      run = run;
      stream_generation = c.stream_generation + 1;
      viewers = [];
      controller_stream_id = none;
    } in
    let new : lookup run.id s'.runs ≡ some fresh =
      ground (arith, lookup-insert run.id run.id fresh removed.runs, eq_refl run.id, at) in
    (
      ground (arith, unregister-closed run.id "binding_changed" s c, at),
      (fresh, new, refl, refl, refl, refl),
      ground (arith, new),
      λ other apart. ground (
        arith,
        at,
        lookup-insert run.id other fresh removed.runs,
        unregister-lookup run.id "binding_changed" s other,
      ),
    )

-- A terminal that is registered again for the generation of the run that it has keeps each viewer,
-- found under the same stream id, and closes none.
pub register_keeps :
    (run : RuntimeRun) (c : RunControl) (s s' : Service) (stream : String)
    → lookup run.id s.runs ≡ some c
    → nat_eq c.run.generation run.generation ≡ true
    → register run s ≡ some s'
    → (s'.log ≡ s.log) × (lookup run.id s'.runs ≡ some (record c { run = run }))
unfolding register rebind
register_keeps run c s s' stream known same done =
    let kept : Service = record s { runs = insert run.id (record c { run = run }) s.runs } in
    let at : kept ≡ s' = ground arith in
    (
      ground (arith, at),
      ground
          (arith, lookup-insert run.id run.id (record c { run = run }) s.runs, eq_refl run.id, at),
    )

-- After `close` no run is bound.
unregister_all-lookup :
    (reason : String) (runs : List (String × RunControl)) (s : Service) (run : String)
    → lookup run s.runs ≡ none
    → lookup run (unregister_all reason runs s).runs ≡ none
unfolding unregister_all
unregister_all-lookup reason [] s run h = h
unregister_all-lookup reason ((r, c) ∷ runs) s run h =
    unregister_all-lookup reason runs (unregister r reason s) run
      (ground (arith, unregister-lookup r reason s run))

unregister_all-gone :
    (reason : String) (runs : List (String × RunControl)) (s : Service) (run : String)
    → lookup run s.runs ≡ lookup run runs
    → lookup run (unregister_all reason runs s).runs ≡ none
unfolding unregister_all
unregister_all-gone reason [] s run h = h
unregister_all-gone reason ((r, c) ∷ runs) s run h = elim (Bool-cases (r == run)) [
  | inl e ↦
      unregister_all-lookup reason runs (unregister r reason s) run
        (ground (arith, unregister-lookup r reason s run))
  | inr e ↦
      unregister_all-gone reason runs (unregister r reason s) run
        (ground (arith, unregister-lookup r reason s run))
]

-- After the service is closed, no stream of any run is served.
pub close_service_refuses :
    (s : Service) (run stream : String)
    → viewer_of run stream (close_service s) ≡ err Error.terminal_stream_inactive
unfolding close_service viewer_of
close_service_refuses s run stream =
    ground (arith, unregister_all-gone "server_restart" s.runs s run)
