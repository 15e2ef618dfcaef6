-- ===== src/Terminal/Moves.antt =====
-- Every operation of `TerminalControlService` on a run keeps its viewers valid, and so does every
-- sequence of them.
use nanasa.Prelude.{
  ℕ, ◌≤◌, String, ◌==◌, eq_iff, eq_refl, Bool, true, false, not, ◌≡◌, refl, ap, Option, none, some,
  List, [], ◌∷◌, ◌++◌, arith, length, length-append, keep, All, All-append, contains,
  IsDistinct-append_one, names-append, contains-append, none_or, some_and, Bool-cases, inl, inr,
  Option-cases, subst, leb,
}
use nanasa.Terminal.Types.{Role, Lease, Viewer, RunControl, Log, max_viewers}
use nanasa.Terminal.Control.{
  find_viewer, update_viewer, remove_viewer, demoted, connect, takeover, heartbeat, release,
  is_controller, ConnectInput, new_viewer, with_viewer, beaten, renewed,
}
use nanasa.Terminal.Valid.{
  stream_ids, in_control, Agrees, IsValid, All-update_viewer, stream_ids-update_viewer,
  length-update_viewer, find_viewer-contains, All-find_viewer,
}
use nanasa.Terminal.Keeps.{grant-IsValid}

length-keep {ℓ} : {A : Type ℓ} (p : A → Bool) (xs : List A) → length (keep p xs) ≤ length xs
length-keep p [] = omega arith
length-keep p (x ∷ xs) = ground (arith, length-keep p xs)

-- What an operation on the viewers does, where the controller stays.
module _ (id : String) (f : Viewer → Viewer) (control : RunControl) (h : IsValid control)
    (kept : (v : Viewer) → (f v).stream_id ≡ v.stream_id)
    (agrees : (v : Viewer)
      → Agrees control.controller_stream_id v
      → v.stream_id ≡ id
      → Agrees control.controller_stream_id (f v)) where
  update-IsValid : IsValid (record control { viewers = update_viewer id f control.viewers })
  update-IsValid = record {
    few = omega (arith, h.few, length-update_viewer id f kept control.viewers);
    distinct = rw (stream_ids-update_viewer id f kept control.viewers) h.distinct;
    agree =
        All-update_viewer (Agrees control.controller_stream_id)
          (Agrees control.controller_stream_id) id f (λ v e a. agrees v a e) (λ v e a. a)
          control.viewers h.agree;
    present = rw (stream_ids-update_viewer id f kept control.viewers) h.present;
  }

-- A new viewer under a new stream id.
with_viewer-IsValid :
    (v : Viewer) (control : RunControl)
    → IsValid control
    → contains v.stream_id (stream_ids control.viewers) ≡ false
    → v.role ≡ Role.observer
    → v.lease ≡ none
    → leb max_viewers (length control.viewers) ≡ false
    → IsValid (with_viewer v control)
with_viewer-IsValid v control h fresh role lease room = record {
  few = ground (arith, length-append control.viewers (v ∷ []));
  distinct =
      rw (names-append (λ (v : Viewer). v.stream_id) control.viewers (v ∷ []))
        (IsDistinct-append_one (stream_ids control.viewers) v.stream_id h.distinct fresh);
  agree =
      All-append (Agrees control.controller_stream_id) control.viewers (v ∷ []) h.agree
        (joining control.controller_stream_id h.present, tt);
  present =
      rw (names-append (λ (v : Viewer). v.stream_id) control.viewers (v ∷ []))
        (known control.controller_stream_id h.present);
}
  where
    joining :
        (c : Option String)
        → none_or c (λ id. contains id (stream_ids control.viewers)) ≡ true
        → Agrees c v
    joining none k = ground arith
    joining (some id) k = ground (arith, eq_iff id v.stream_id)

    known :
        (c : Option String)
        → none_or c (λ id. contains id (stream_ids control.viewers)) ≡ true
        → none_or c (λ id. contains id (stream_ids control.viewers ++ v.stream_id ∷ [])) ≡ true
    known none k = refl
    known (some id) k =
        ground (arith, contains-append id (stream_ids control.viewers) (v.stream_id ∷ []))

contains-last : (xs : List String) (a : String) → contains a (xs ++ a ∷ []) ≡ true
contains-last xs a = ground (arith, contains-append a xs (a ∷ []), eq_refl a)

-- `connect` removes the viewer that it has just added.
remove_viewer-last :
    (vs : List Viewer) (v : Viewer)
    → contains v.stream_id (stream_ids vs) ≡ false
    → remove_viewer v.stream_id (vs ++ v ∷ []) ≡ vs
unfolding remove_viewer
remove_viewer-last [] v h = ground (arith, eq_refl v.stream_id)
remove_viewer-last (w ∷ vs) v h = ground (arith, remove_viewer-last vs v)

pub connect-IsValid :
    (input : ConnectInput) (stream lease : String) (now : ℕ) (control : RunControl) (log : Log)
    → IsValid control
    → contains stream (stream_ids control.viewers) ≡ false
    → IsValid (connect input stream lease now control log).0
unfolding connect
connect-IsValid input stream lease now control log h fresh =
    let v = new_viewer input stream now control in
    elim (Bool-cases (leb max_viewers (length control.viewers))) [
      | inl full ↦ ground (arith)
      | inr room ↦
          let joined = with_viewer-IsValid v control h fresh refl refl room in
          ground (
            arith,
            joined,
            remove_viewer-last control.viewers v,
            names-append (λ (v : Viewer). v.stream_id) control.viewers (v ∷ []),
            contains-last (stream_ids control.viewers) stream,
            grant-IsValid lease now input.takeover v (with_viewer v control),
          )
    ]

-- The viewers that `#viewer` finds are those of the map.
abbrev pub IsOf : Viewer → RunControl → Type 0
IsOf v control = find_viewer v.stream_id control.viewers ≡ some v

pub takeover-IsValid :
    (v : Viewer) (expected : Option String) (lease : String) (now : ℕ) (control : RunControl)
    (log : Log)
    → IsValid control
    → IsOf v control
    → IsValid (takeover v expected lease now control log).0
unfolding takeover
takeover-IsValid v expected lease now control log h own = ground (
  arith,
  find_viewer-contains v.stream_id control.viewers v own,
  grant-IsValid lease now true v control,
)

pub heartbeat-IsValid :
    (v : Viewer) (id : Option String) (now : ℕ) (control : RunControl)
    → IsValid control
    → IsOf v control
    → IsValid (heartbeat v id now control).0
unfolding heartbeat
heartbeat-IsValid v id now control h own =
    let agreed =
      All-find_viewer (Agrees control.controller_stream_id) v.stream_id control.viewers v h.agree
        own in
    let noted = update-IsValid v.stream_id (beaten now) control h (λ w. refl) (λ w a e. a) in
    elim (Option-cases v.lease) [
      | inl e ↦ ground (arith, noted)
      | inr (l, e) ↦
          let kept =
            update-IsValid v.stream_id (λ w. record (beaten now w) { lease = some (renewed now l) })
              control h (λ w. refl)
              (λ w a q. (a.0, holds control.controller_stream_id w l e agreed q)) in
          ground (arith, noted, kept)
    ]
  where
    holds :
        (c : Option String) (w : Viewer) (l : Lease)
        → v.lease ≡ some l
        → Agrees c v
        → w.stream_id ≡ v.stream_id
        → false ≡ not (in_control c w)
    holds c w l e a q = rw q (ground arith)

-- With the controller taken out of its role, and nobody named, nobody is in control.
release-agree :
    (id : String) (vs : List Viewer)
    → All (Agrees (some id)) vs
    → All (Agrees none) (update_viewer id demoted vs)
release-agree id vs h =
    All-update_viewer (Agrees (some id)) (Agrees none) id demoted (λ v e a. (refl, refl))
      (λ v e a. ground (arith, eq_iff id v.stream_id, eq_iff v.stream_id id)) vs h

pub release-IsValid :
    (v : Viewer) (id : String) (now : ℕ) (control : RunControl) (log : Log)
    → IsValid control
    → IsOf v control
    → IsValid (release v id now control log).0
unfolding release is_controller
release-IsValid v id now control log h own = elim (Bool-cases (is_controller v id now control)) [
  | inr e ↦ rw e h
  | inl e ↦ rw e (record {
    few =
        omega (arith, h.few, length-update_viewer v.stream_id demoted (λ w. refl) control.viewers);
    distinct =
        rw (stream_ids-update_viewer v.stream_id demoted (λ w. refl) control.viewers) h.distinct;
    agree = release-agree v.stream_id control.viewers (
        subst (λ c. All (Agrees c) control.viewers)
          (named control.controller_stream_id (ground arith)) h.agree);
    present = refl;
  })
]
  where
    named : (c : Option String) → some_and c (λ i. i == v.stream_id) ≡ true → c ≡ some v.stream_id
    named none q = cc
    named (some i) q = ap some ((eq_iff i v.stream_id).0 q)
