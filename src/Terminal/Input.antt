-- ===== src/Terminal/Input.antt =====
-- Who may type into a terminal, and when: leases, limits and automated input.
use nanasa.Prelude.{
  ℕ, ◌+◌, ◌-◌, String, ◌==◌, eq_iff, eq_refl, Bool, true, false, not, ◌&&◌, ◌≡◌, refl, ap, ◌⊎◌, inl,
  inr, Option, some, List, [], ◌∷◌, ◌++◌, arith, if◌then◌else◌, ltb, leb, lookup-insert,
  lookup-erase, All,
}
use nanasa.Terminal.Types.{
  Role, Lease, Viewer, RunControl, Log, max_input_bytes, max_paste_bytes, lease_ms,
}
use nanasa.Terminal.Control.{
  find_viewer, promoted, demote_previous, previous_of, grant, takeover, lease_conflicts,
  is_controller,
}
use nanasa.Terminal.Valid.{All-update_viewer, All-find_viewer}
use nanasa.Terminal.Arbiter.{
  InputState, Arbiter, pending_of, input_state, increment_pending, decrement_pending, Event, run_of,
  arbitrate, arbitrate_all, Frame, lease_id_of, PtyCall, write_limited, pass_frame, dispatch,
}

-- A viewer under `stream` has the role and the lease that was granted under `lease` at `now`.
abbrev Holds : String → String → ℕ → Viewer → Type 0
Holds stream lease now v =
    ((v.stream_id == stream) ≡ false)
    ⊎ ((v.role ≡ Role.controller)
        × ((l : Lease) × (v.lease ≡ some l) × (l.id ≡ lease) × (l.expires_at ≡ now + lease_ms)))

All-any : (P : Viewer → Type 0) → ((v : Viewer) → P v) → (vs : List Viewer) → All P vs
All-any P h [] = tt
All-any P h (v ∷ vs) = (h v, All-any P h vs)

grant-Holds :
    (lease : String) (now : ℕ) (b : Bool) (v : Viewer) (control : RunControl)
    → All (Holds v.stream_id lease now) (grant lease now b v control).viewers
unfolding grant
grant-Holds lease now b v control =
    let vs = demote_previous (previous_of control v.stream_id) control.viewers in
    All-update_viewer (λ w. Unit {0}) (Holds v.stream_id lease now) v.stream_id
      (promoted control lease now) (λ w e u. inr (refl, (_, refl, refl, refl))) (λ w e u. inl e) vs
      (All-any (λ w. Unit {0}) (λ w. tt) vs)

-- After a takeover that no changed lease stops, `assertController` admits, of all viewers of the
-- run, with whatever lease id and at whatever time, exactly the one that took over, with the new
-- lease, before it expires; the viewer that was in control is refused from then on.
pub takeover_fences :
    (v : Viewer) (expected : Option String) (lease : String) (now : ℕ) (control : RunControl)
    (log : Log) (u : Viewer) (id : String) (t : ℕ)
    → lease_conflicts expected control ≡ false
    → find_viewer u.stream_id (takeover v expected lease now control log).0.viewers ≡ some u
    → is_controller u id t (takeover v expected lease now control log).0
      ≡ ((v.stream_id == u.stream_id) && ((lease == id) && ltb t (now + lease_ms)))
unfolding takeover is_controller
takeover_fences v expected lease now control log u id t free own =
    let after = grant lease now true v control in
    let named : after.controller_stream_id ≡ some v.stream_id = unfold grant in refl in
    let held =
      All-find_viewer (Holds v.stream_id lease now) u.stream_id after.viewers u
        (grant-Holds lease now true v control) (ground arith) in
    ground (arith, held, named, eq_iff v.stream_id u.stream_id, eq_iff u.stream_id v.stream_id)

-- What a frame asks of the pseudo-terminal, and the most bytes that it may carry.
abbrev pub call_of : Frame → PtyCall
call_of (Frame.input id text) = PtyCall.writes text
call_of (Frame.paste id text) = PtyCall.writes text
call_of (Frame.focus id focused) = PtyCall.focuses focused
call_of (Frame.resize id cols rows) = PtyCall.resizes cols rows

module _ (byte_length : String → ℕ) where
  abbrev pub is_small : Frame → Bool
  is_small (Frame.input id text) = leb (byte_length text) max_input_bytes
  is_small (Frame.paste id text) = leb (byte_length text) max_paste_bytes
  is_small (Frame.focus id focused) = true
  is_small (Frame.resize id cols rows) = true

  pass_frame_lem :
      (frame : Frame) (pty : List PtyCall)
      → (pass_frame byte_length frame pty).0
        ≡ (if is_small frame then pty ++ call_of frame ∷ [] else pty)
  unfolding pass_frame write_limited
  pass_frame_lem (Frame.input id text) pty = ground arith
  pass_frame_lem (Frame.paste id text) pty = ground arith
  pass_frame_lem (Frame.focus id focused) pty = refl
  pass_frame_lem (Frame.resize id cols rows) pty = refl

  -- `dispatch` passes a frame to the pseudo-terminal, once and unchanged, exactly when no
  -- automated input is pending for the run, the viewer holds the frame's lease as its controller,
  -- and the frame is within its limit; else the pseudo-terminal is told nothing.
  pub dispatch_lem :
      (a : Arbiter) (control : RunControl) (viewer : Viewer) (now : ℕ) (frame : Frame)
      (pty : List PtyCall)
      → (dispatch byte_length a control viewer now frame pty).0 ≡ (
          if not (ltb 0 (pending_of control.run.id a))
            && (is_controller viewer (lease_id_of frame) now control && is_small frame)
          then pty ++ call_of frame ∷ []
          else pty)
  unfolding dispatch input_state
  dispatch_lem a control viewer now frame pty = ground (arith, pass_frame_lem frame pty)

-- The operations that are started and not yet settled.
abbrev pub outstanding : String → ℕ → List Event → ℕ
outstanding run n [] = n
outstanding run n (Event.starts r ∷ es) = outstanding run (if r == run then n + 1 else n) es
outstanding run n (Event.settles r ∷ es) = outstanding run (if r == run then n - 1 else n) es

arbitrate-pending_of :
    (run : String) (a : Arbiter) (e : Event)
    → pending_of run (arbitrate a e) ≡ outstanding run (pending_of run a) (e ∷ [])
unfolding arbitrate increment_pending decrement_pending
arbitrate-pending_of run a (Event.starts r) =
    ground (arith, lookup-insert r run (pending_of r a + 1) a.pending, eq_iff r run)
arbitrate-pending_of run a (Event.settles r) = ground (
  arith,
  lookup-insert r run (pending_of r a - 1) a.pending,
  lookup-erase r run a.pending,
  eq_iff r run,
)

arbitrate_all-pending_of :
    (run : String) (a : Arbiter) (es : List Event)
    → pending_of run (arbitrate_all a es) ≡ outstanding run (pending_of run a) es
unfolding arbitrate_all
arbitrate_all-pending_of run a [] = refl
arbitrate_all-pending_of run a (Event.starts r ∷ es) =
    rw (← arbitrate-pending_of run a (Event.starts r))
      (arbitrate_all-pending_of run (arbitrate a (Event.starts r)) es)
arbitrate_all-pending_of run a (Event.settles r ∷ es) =
    rw (← arbitrate-pending_of run a (Event.settles r))
      (arbitrate_all-pending_of run (arbitrate a (Event.settles r)) es)

-- An operation is settled only after it was started.
abbrev pub is_due : Event → Arbiter → Bool
is_due (Event.starts run) a = true
is_due (Event.settles run) a = ltb 0 (pending_of run a)

abbrev pub same_state : InputState → InputState → Bool
same_state InputState.interactive InputState.interactive = true
same_state InputState.automated InputState.automated = true
same_state _ _ = false

-- A start, or a settling of an operation that was started, tells the listeners of its run the
-- new state of the input exactly when that state changes, and leaves every other run's state.
pub arbitrate_tells :
    (e : Event) (a : Arbiter) (other : String)
    → is_due e a ≡ true
    → (run_of e == other) ≡ false
    → ((arbitrate a e).told ≡ (
        if same_state (input_state (run_of e) a) (input_state (run_of e) (arbitrate a e))
        then a.told
        else a.told ++ (run_of e, input_state (run_of e) (arbitrate a e)) ∷ []))
      × (input_state other (arbitrate a e) ≡ input_state other a)
unfolding arbitrate increment_pending decrement_pending input_state
arbitrate_tells (Event.starts r) a other due q = ground (
  arith,
  arbitrate-pending_of r a (Event.starts r),
  arbitrate-pending_of other a (Event.starts r),
  eq_refl r,
)
arbitrate_tells (Event.settles r) a other due q = ground (
  arith,
  arbitrate-pending_of r a (Event.settles r),
  arbitrate-pending_of other a (Event.settles r),
  eq_refl r,
)

-- Whatever operations are started and settled from the start of the daemon, and in whatever
-- order: the input of a run is `automated` exactly while an operation of it is outstanding.
pub automated_while_outstanding :
    (run : String) (es : List Event)
    → input_state run (arbitrate_all (record { pending = []; told = [] }) es)
      ≡ (if ltb 0 (outstanding run 0 es) then InputState.automated else InputState.interactive)
unfolding input_state
automated_while_outstanding run es =
    ap (λ n. if ltb 0 n then InputState.automated else InputState.interactive)
      (arbitrate_all-pending_of run (record { pending = []; told = [] }) es)
