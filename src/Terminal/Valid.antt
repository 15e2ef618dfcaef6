-- ===== src/Terminal/Valid.antt =====
-- What holds of the viewers of a run (apps/daemon/src/terminal/terminal-control-service.ts): one
-- viewer at most is in control, and it is the one that `controllerStreamId` names.
use nanasa.Prelude.{
  ◌≤◌, String, ◌==◌, eq_iff, Bool, true, false, not, ◌≡◌, refl, Option, some, List, [], ◌∷◌, arith,
  length, All, names, contains, IsDistinct, is_none, none_or, some_and, Bool-cases, inl, inr, subst,
}
use nanasa.Terminal.Types.{Viewer, RunControl, max_viewers}
use nanasa.Terminal.Control.{is_observer, find_viewer, update_viewer}

abbrev pub stream_ids : List Viewer → List String
stream_ids = names (λ (v : Viewer). v.stream_id)

abbrev pub in_control : Option String → Viewer → Bool
in_control controller v = some_and controller (λ id. id == v.stream_id)

-- The viewer named by `controllerStreamId` has the role and a lease, and no other has either.
abbrev pub Agrees : Option String → Viewer → Type 0
Agrees controller v =
    (is_observer v.role ≡ not (in_control controller v))
    × (is_none v.lease ≡ not (in_control controller v))

pub record IsValid (control : RunControl) : Type 0 where
  pub few : length control.viewers ≤ max_viewers
  pub distinct : IsDistinct (stream_ids control.viewers)
  pub agree : All (Agrees control.controller_stream_id) control.viewers
  pub present :
      none_or control.controller_stream_id (λ id. contains id (stream_ids control.viewers)) ≡ true

-- An update at one stream id, pointwise.
pub All-update_viewer {ℓ} :
    (P Q : Viewer → Type ℓ) (id : String) (f : Viewer → Viewer)
    → ((v : Viewer) → v.stream_id ≡ id → P v → Q (f v))
    → ((v : Viewer) → (v.stream_id == id) ≡ false → P v → Q v)
    → (vs : List Viewer) → All P vs
    → All Q (update_viewer id f vs)
unfolding update_viewer
All-update_viewer P Q id f at off [] h = tt
All-update_viewer P Q id f at off (v ∷ vs) h = elim (Bool-cases (v.stream_id == id)) [
  | inl e ↦ rw e (at v ((eq_iff v.stream_id id).0 e) h.0, All-update_viewer P Q id f at off vs h.1)
  | inr e ↦ rw e (off v e h.0, All-update_viewer P Q id f at off vs h.1)
]

-- An update that leaves the stream ids alone.
module _ (id : String) (f : Viewer → Viewer)
    (kept : (v : Viewer) → (f v).stream_id ≡ v.stream_id) where
  pub stream_ids-update_viewer :
      (vs : List Viewer) → stream_ids (update_viewer id f vs) ≡ stream_ids vs
  unfolding update_viewer
  stream_ids-update_viewer [] = refl
  stream_ids-update_viewer (v ∷ vs) = ground (arith, kept v, stream_ids-update_viewer vs)

  pub length-update_viewer : (vs : List Viewer) → length (update_viewer id f vs) ≡ length vs
  unfolding update_viewer
  length-update_viewer [] = refl
  length-update_viewer (v ∷ vs) = ground (arith, length-update_viewer vs)

-- What `viewers.get(id)` finds is under `id`, and is found only if `id` is a key.
pub find_viewer-stream_id :
    (id : String) (vs : List Viewer) (v : Viewer) → find_viewer id vs ≡ some v → v.stream_id ≡ id
unfolding find_viewer
find_viewer-stream_id id [] v h = cc
find_viewer-stream_id id (w ∷ vs) v h =
    ground (arith, eq_iff w.stream_id id, find_viewer-stream_id id vs v)

pub find_viewer-contains :
    (id : String) (vs : List Viewer) (v : Viewer)
    → find_viewer id vs ≡ some v
    → contains id (stream_ids vs) ≡ true
unfolding find_viewer
find_viewer-contains id [] v h = cc
find_viewer-contains id (w ∷ vs) v h = ground (arith, find_viewer-contains id vs v)

pub All-find_viewer {ℓ} :
    (P : Viewer → Type ℓ) (id : String) (vs : List Viewer) (v : Viewer)
    → All P vs
    → find_viewer id vs ≡ some v
    → P v
unfolding find_viewer
All-find_viewer P id [] v h e = cc
All-find_viewer P id (w ∷ vs) v h e = elim (Bool-cases (w.stream_id == id)) [
  | inl q ↦ subst P (cc q) h.0
  | inr q ↦ All-find_viewer P id vs v h.1 (rw q at e)
]
