-- ===== src/Terminal/Keeps.antt =====
-- The operations of `TerminalControlService` keep its viewers valid.
use nanasa.Prelude.{
  if◌then◌else◌, ◌≢◌, ℕ, String, ◌==◌, eq_iff, Bool, true, false, ◌≡◌, refl, ◌∙◌, Option, none,
  some, List, [], ◌∷◌, arith, length, All, contains, none_or, Bool-cases, inl, inr, Option-cases,
}
use nanasa.Terminal.Types.{Viewer, RunControl}
use nanasa.Terminal.Control.{
  find_viewer, update_viewer, demoted, promoted, previous_of, previous_from, demote_previous, grant,
}
use nanasa.Terminal.Valid.{
  stream_ids, Agrees, IsValid, All-update_viewer, stream_ids-update_viewer, length-update_viewer,
  find_viewer-stream_id,
}

-- Who is left in control, if `stream` is about to be.
abbrev left_for : Option String → String → Option String
left_for none stream = none
left_for (some id) stream = if id == stream then some id else none

find_viewer-none :
    (id : String) (vs : List Viewer) → contains id (stream_ids vs) ≡ true → find_viewer id vs ≢ none
unfolding find_viewer
find_viewer-none id [] h = cc
find_viewer-none id (v ∷ vs) h = ground (arith, find_viewer-none id vs)

demote-agree :
    (p id : String) (vs : List Viewer)
    → All (Agrees (some id)) vs
    → p ≡ id
    → All (Agrees none) (update_viewer p demoted vs)
demote-agree p id vs h e =
    All-update_viewer (Agrees (some id)) (Agrees none) p demoted (λ v q a. (refl, refl))
      (λ v q a. ground (arith, eq_iff v.stream_id p, eq_iff id v.stream_id)) vs h

pub previous_from-eq :
    (id : String) (vs : List Viewer) (stream : String) (p : Viewer)
    → find_viewer id vs ≡ some p
    → previous_from (some id) vs stream ≡ (if id == stream then none else some p)
unfolding previous_from
previous_from-eq id vs stream p q = ground (arith, find_viewer-stream_id id vs p q)

-- Without the viewer that it demotes, nobody is in control but `stream`.
previous-agree :
    (c : Option String) (vs : List Viewer) (stream : String)
    → All (Agrees c) vs
    → none_or c (λ id. contains id (stream_ids vs)) ≡ true
    → All (Agrees (left_for c stream)) (demote_previous (previous_from c vs stream) vs)
previous-agree none vs stream h k = unfold previous_from in h
previous-agree (some id) vs stream h k = elim (Option-cases (find_viewer id vs)) [
  | inl q ↦ absurd (find_viewer-none id vs k q)
  | inr (p, q) ↦
      let at = find_viewer-stream_id id vs p q in
      elim (Bool-cases (id == stream)) [
        | inl e ↦ rw (previous_from-eq id vs stream p q) (rw e h)
        | inr e ↦
            rw (previous_from-eq id vs stream p q) (rw e (demote-agree p.stream_id id vs h at))
      ]
]

demote_previous-stream_ids :
    (p : Option Viewer) (vs : List Viewer) → stream_ids (demote_previous p vs) ≡ stream_ids vs
demote_previous-stream_ids none vs = refl
demote_previous-stream_ids (some p) vs = stream_ids-update_viewer p.stream_id demoted (λ v. refl) vs

demote_previous-length :
    (p : Option Viewer) (vs : List Viewer) → length (demote_previous p vs) ≡ length vs
demote_previous-length none vs = refl
demote_previous-length (some p) vs = length-update_viewer p.stream_id demoted (λ v. refl) vs

-- `#grant` to a viewer of the run.
pub grant-IsValid :
    (lease : String) (now : ℕ) (b : Bool) (viewer : Viewer) (control : RunControl)
    → IsValid control
    → contains viewer.stream_id (stream_ids control.viewers) ≡ true
    → IsValid (grant lease now b viewer control)
unfolding grant
grant-IsValid lease now b viewer control h k =
    let w = viewer.stream_id in
    let p = previous_of control w in
    let vs = demote_previous p control.viewers in
    let f = promoted control lease now in
    let ids : stream_ids (update_viewer w f vs) ≡ stream_ids control.viewers =
      stream_ids-update_viewer w f (λ v. refl) vs ∙ demote_previous-stream_ids p control.viewers in
    record {
      few = omega (
        arith,
        h.few,
        length-update_viewer w f (λ v. refl) vs,
        demote_previous-length p control.viewers,
      );
      distinct = rw ids h.distinct;
      agree =
          All-update_viewer (Agrees (left_for control.controller_stream_id w)) (Agrees (some w)) w f
            (λ v e a. ground (arith, eq_iff w v.stream_id))
            (λ v e a. off control.controller_stream_id v e a) vs
            (previous-agree control.controller_stream_id control.viewers w h.agree h.present);
      present = rw ids k;
    }
  where
    off :
        (c : Option String) (v : Viewer)
        → (v.stream_id == viewer.stream_id) ≡ false
        → Agrees (left_for c viewer.stream_id) v
        → Agrees (some viewer.stream_id) v
    off none v e a =
        ground (arith, eq_iff v.stream_id viewer.stream_id, eq_iff viewer.stream_id v.stream_id)
    off (some id) v e a = ground (
      arith,
      eq_iff v.stream_id viewer.stream_id,
      eq_iff viewer.stream_id v.stream_id,
      eq_iff id viewer.stream_id,
      eq_iff id v.stream_id,
    )
