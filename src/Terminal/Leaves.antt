-- ===== src/Terminal/Leaves.antt =====
-- A viewer that leaves, and the sweep over lapsed viewers.
use nanasa.Prelude.{
  ℕ, ◌≤◌, String, ◌==◌, eq_iff, Bool, true, false, not, ◌≡◌, refl, Option, none, some, List, [],
  ◌∷◌, ◌++◌, arith, length, keep, All, contains, IsDistinct-names-keep, none_or, some_and,
  Bool-cases, inl, inr, if◌then◌else◌,
}
use nanasa.Terminal.Types.{Viewer, RunControl, Log}
use nanasa.Terminal.Control.{remove_viewer}
use nanasa.Terminal.Departures.{disconnect, expire_from, expire_viewer, expire, is_lapsed}
use nanasa.Terminal.Valid.{stream_ids, Agrees, IsValid}

pub length-keep {ℓ} : {A : Type ℓ} (p : A → Bool) (xs : List A) → length (keep p xs) ≤ length xs
length-keep p [] = omega arith
length-keep p (x ∷ xs) = ground (arith, length-keep p xs)

abbrev left : String → Option String → Option String
left id c = if some_and c (λ i. i == id) then none else c

Agrees-left :
    (id : String) (c : Option String) (v : Viewer)
    → Agrees c v
    → (v.stream_id == id) ≡ false
    → Agrees (left id c) v
Agrees-left id none v a e = a
Agrees-left id (some i) v a e =
    ground (arith, eq_iff i id, eq_iff i v.stream_id, eq_iff v.stream_id id)

remove-agree :
    (id : String) (c : Option String) (vs : List Viewer)
    → All (Agrees c) vs
    → All (Agrees (left id c)) (remove_viewer id vs)
unfolding remove_viewer
remove-agree id c [] h = tt
remove-agree id c (v ∷ vs) h = elim (Bool-cases (v.stream_id == id)) [
  | inl e ↦ rw e (remove-agree id c vs h.1)
  | inr e ↦ rw e (Agrees-left id c v h.0 e, remove-agree id c vs h.1)
]

contains-remove :
    (id i : String) (vs : List Viewer)
    → contains i (stream_ids vs) ≡ true
    → (i == id) ≡ false
    → contains i (stream_ids (remove_viewer id vs)) ≡ true
unfolding remove_viewer
contains-remove id i [] h e = cc
contains-remove id i (v ∷ vs) h e =
    ground
      (arith, eq_iff v.stream_id i, eq_iff v.stream_id id, eq_iff i id, contains-remove id i vs)

remove-present :
    (id : String) (c : Option String) (vs : List Viewer)
    → none_or c (λ i. contains i (stream_ids vs)) ≡ true
    → none_or (left id c) (λ i. contains i (stream_ids (remove_viewer id vs))) ≡ true
remove-present id none vs h = refl
remove-present id (some i) vs h = elim (Bool-cases (i == id)) [
  | inl e ↦ rw e refl
  | inr e ↦ rw e (contains-remove id i vs h e)
]

pub disconnect-IsValid :
    (v : Viewer) (control : RunControl) → IsValid control → IsValid (disconnect v control)
unfolding disconnect
disconnect-IsValid v control h =
    let id = v.stream_id in
    record {
      few =
          unfold remove_viewer in
          omega (arith, h.few, length-keep (λ w. not (w.stream_id == id)) control.viewers);
      distinct =
          unfold remove_viewer in
          IsDistinct-names-keep (λ (w : Viewer). w.stream_id) (λ w. not (w.stream_id == id))
            control.viewers h.distinct;
      agree = remove-agree id control.controller_stream_id control.viewers h.agree;
      present = remove-present id control.controller_stream_id control.viewers h.present;
    }

expire_from-IsValid :
    (now : ℕ) (vs : List Viewer) (control : RunControl) (log : Log)
    → IsValid control
    → IsValid (expire_from now vs control log).0
unfolding expire_from expire_viewer
expire_from-IsValid now [] control log h = h
expire_from-IsValid now (v ∷ vs) control log h =
    expire_from-IsValid now vs _ _ (elim (Bool-cases (is_lapsed now v)) [
      | inl e ↦ rw e (disconnect-IsValid v control h)
      | inr e ↦ rw e h
    ])

pub expire-IsValid :
    (now : ℕ) (control : RunControl) (log : Log)
    → IsValid control
    → IsValid (expire now control log).0
unfolding expire
expire-IsValid now control log h = expire_from-IsValid now control.viewers control log h

keep-append_off {ℓ} :
    {A : Type ℓ} (p : A → Bool) (xs ys : List A) → keep p (xs ++ ys) ≡ keep p xs ++ keep p ys
keep-append_off p [] ys = refl
keep-append_off p (x ∷ xs) ys = ground (arith, keep-append_off p xs ys)

pub remove_viewer-off :
    (id : String) (vs : List Viewer)
    → contains id (stream_ids vs) ≡ false
    → remove_viewer id vs ≡ vs
unfolding remove_viewer
remove_viewer-off id [] h = refl
remove_viewer-off id (v ∷ vs) h = ground (arith, remove_viewer-off id vs)

pub remove_viewer-append :
    (id : String) (xs ys : List Viewer)
    → remove_viewer id (xs ++ ys) ≡ remove_viewer id xs ++ remove_viewer id ys
unfolding remove_viewer
remove_viewer-append id xs ys = keep-append_off (λ v. not (v.stream_id == id)) xs ys
