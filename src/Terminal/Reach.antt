-- ===== src/Terminal/Reach.antt =====
-- Every sequence of operations on a run of `TerminalControlService`, in any order.
use nanasa.Prelude.{
  ℕ, ◌≤◌, String, eq_iff, false, not, ◌≡◌, refl, Option, none, some, List, [], ◌∷◌, arith, length,
  keep, All, contains, IsDistinct, some_and,
}
use nanasa.Terminal.Types.{Viewer, RunControl, RuntimeRun, Log}
use nanasa.Terminal.Control.{is_observer, ConnectInput, connect, takeover, heartbeat, release}
use nanasa.Terminal.Departures.{disconnect, expire}
use nanasa.Terminal.Valid.{stream_ids, Agrees, IsValid}
use nanasa.Terminal.Moves.{
  IsOf, connect-IsValid, takeover-IsValid, heartbeat-IsValid, release-IsValid,
}
use nanasa.Terminal.Leaves.{disconnect-IsValid, expire-IsValid}

-- One call. A stream id of `randomUUID` is none of those in use, and `#viewer` finds its viewer
-- in the map.
pub data Step : RunControl → RunControl → Type 0 where
  connects :
      {c : RunControl} (input : ConnectInput) (stream lease : String) (now : ℕ) (log : Log)
      → contains stream (stream_ids c.viewers) ≡ false
      → Step c (connect input stream lease now c log).0
  takes_over :
      {c : RunControl} (v : Viewer) (expected : Option String) (lease : String) (now : ℕ)
      (log : Log)
      → IsOf v c
      → Step c (takeover v expected lease now c log).0
  beats :
      {c : RunControl} (v : Viewer) (id : Option String) (now : ℕ)
      → IsOf v c
      → Step c (heartbeat v id now c).0
  releases :
      {c : RunControl} (v : Viewer) (id : String) (now : ℕ) (log : Log)
      → IsOf v c
      → Step c (release v id now c log).0
  disconnects : {c : RunControl} (v : Viewer) → Step c (disconnect v c)
  expires : {c : RunControl} (now : ℕ) (log : Log) → Step c (expire now c log).0

pub data Reach (c : RunControl) : RunControl → Type 0 where
  here : Reach c c
  next : {d e : RunControl} → Reach c d → Step d e → Reach c e

-- What `register` stores for a new binding of a run.
abbrev pub fresh_control : RuntimeRun → ℕ → RunControl
fresh_control run generation = record {
  run = run;
  stream_generation = generation;
  viewers = [];
  controller_stream_id = none;
}

Step-IsValid : {c d : RunControl} → Step c d → IsValid c → IsValid d
Step-IsValid (connects {c} input stream lease now log fresh) h =
    connect-IsValid input stream lease now c log h fresh
Step-IsValid (takes_over {c} v expected lease now log own) h =
    takeover-IsValid v expected lease now c log h own
Step-IsValid (beats {c} v id now own) h = heartbeat-IsValid v id now c h own
Step-IsValid (releases {c} v id now log own) h = release-IsValid v id now c log h own
Step-IsValid (disconnects {c} v) h = disconnect-IsValid v c h
Step-IsValid (expires {c} now log) h = expire-IsValid now c log h

pub Reach-IsValid : {c d : RunControl} → Reach c d → IsValid c → IsValid d
Reach-IsValid here h = h
Reach-IsValid (next r st) h = Step-IsValid st (Reach-IsValid r h)

fresh_control-IsValid : (run : RuntimeRun) (generation : ℕ) → IsValid (fresh_control run generation)
fresh_control-IsValid run generation = record {
  few = omega arith;
  distinct = tt;
  agree = tt;
  present = refl;
}

-- The viewers with the role of a controller.
abbrev pub controllers : List Viewer → List Viewer
controllers = keep (λ v. not (is_observer v.role))

controllers-none :
    (c : Option String) (vs : List Viewer)
    → All (Agrees c) vs
    → some_and c (λ i. contains i (stream_ids vs)) ≡ false
    → controllers vs ≡ []
controllers-none c [] h k = refl
controllers-none none (v ∷ vs) h k = ground (arith, controllers-none none vs h.1)
controllers-none (some i) (v ∷ vs) h k =
    ground (arith, controllers-none (some i) vs h.1, eq_iff i v.stream_id, eq_iff v.stream_id i)

controllers-le :
    (c : Option String) (vs : List Viewer)
    → All (Agrees c) vs
    → IsDistinct (stream_ids vs)
    → length (controllers vs) ≤ 1
controllers-le c [] h d = omega arith
controllers-le none (v ∷ vs) h d = ground (arith, controllers-le none vs h.1)
controllers-le (some i) (v ∷ vs) h d =
    ground (
      arith,
      controllers-le (some i) vs h.1,
      controllers-none (some i) vs h.1,
      eq_iff i v.stream_id,
    )

-- Whatever is called on a run from the registration of its terminal, in whatever order: it has
-- at most four viewers, at most one of them has the role of a controller, exactly the viewer
-- named by `controllerStreamId` has the role and a lease, and the viewer so named is there.
pub one_controller :
    {d : RunControl} (run : RuntimeRun) (generation : ℕ)
    → Reach (fresh_control run generation) d
    → (length (controllers d.viewers) ≤ 1) × IsValid d
one_controller {d} run generation r =
    let h = Reach-IsValid r (fresh_control-IsValid run generation) in
    (controllers-le d.controller_stream_id d.viewers h.agree h.distinct, h)
