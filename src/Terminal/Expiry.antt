-- ===== src/Terminal/Expiry.antt =====
-- What the sweep over lapsed viewers, `expire`, removes and closes.
use mathlib.Core.List.{append-nil, append_assoc}
use nanasa.Prelude.{
  if◌then◌else◌, ℕ, ◌+◌, Bool, leb, String, eq_iff, eq_refl, false, not, ◌≡◌, refl, sym, ◌∙◌, List,
  [], ◌∷◌, ◌++◌, map, arith, keep, contains, contains-append, IsDistinct, names-append, Bool-cases,
  inl, inr, subst, ap,
}
use nanasa.Terminal.Types.{lease_ms, Viewer, RunControl, Log, Closed}
use nanasa.Terminal.Control.{remove_viewer}
use nanasa.Terminal.Departures.{
  disconnect, expire_from, expire, expire_viewer, expire_log, is_lapsed,
}
use nanasa.Terminal.Valid.{stream_ids, IsValid}
use nanasa.Terminal.Leaves.{remove_viewer-off, remove_viewer-append}

IsDistinct-middle :
    (xs : List String) (a : String) (ys : List String)
    → IsDistinct (xs ++ a ∷ ys)
    → (contains a xs ≡ false) × (contains a ys ≡ false) × IsDistinct (xs ++ ys)
IsDistinct-middle [] a ys h = (refl, h.0, h.1)
IsDistinct-middle (x ∷ xs) a ys h =
    let ih = IsDistinct-middle xs a ys h.1 in
    (
      ground (arith, ih, contains-append x xs (a ∷ ys), eq_iff x a, eq_iff a x),
      ih.1,
      (ground (arith, contains-append x xs (a ∷ ys), contains-append x xs ys), ih.2),
    )

-- The viewers that have not lapsed.
abbrev pub stay : ℕ → List Viewer → List Viewer
stay now = keep (λ v. not (is_lapsed now v))

remove-middle :
    (before : List Viewer) (v : Viewer) (vs : List Viewer)
    → IsDistinct (stream_ids (before ++ v ∷ vs))
    → (remove_viewer v.stream_id (before ++ v ∷ vs) ≡ before ++ vs)
      × IsDistinct (stream_ids (before ++ vs))
unfolding remove_viewer
remove-middle before v vs h =
    let id = v.stream_id in
    let name = λ (w : Viewer). w.stream_id in
    let d =
      IsDistinct-middle (stream_ids before) id (stream_ids vs)
        (subst IsDistinct (names-append name before (v ∷ vs)) h) in
    (
      ground (
        arith,
        remove_viewer-append id before (v ∷ vs),
        remove_viewer-off id before,
        remove_viewer-off id vs,
        eq_refl id,
      ),
      subst IsDistinct (sym (names-append name before vs)) d.2,
    )

-- A round at a viewer that has lapsed, and at one that has not.
expire_viewer-viewers :
    (now : ℕ) (v : Viewer) (control : RunControl)
    → (expire_viewer now v control).viewers
      ≡ (if is_lapsed now v then remove_viewer v.stream_id control.viewers else control.viewers)
unfolding expire_viewer disconnect
expire_viewer-viewers now v control = ground arith

expire_from-viewers :
    (now : ℕ) (before vs : List Viewer) (control : RunControl) (log : Log)
    → control.viewers ≡ before ++ vs
    → IsDistinct (stream_ids (before ++ vs))
    → (expire_from now vs control log).0.viewers ≡ before ++ stay now vs
unfolding expire_from
expire_from-viewers now before [] control log e h = e
expire_from-viewers now before (v ∷ vs) control log e h =
    let next = expire_viewer now v control in
    let said = expire_log now v control.run.id log in
    let at = expire_viewer-viewers now v control in
    elim (Bool-cases (is_lapsed now v)) [
      | inl q ↦
          let gone = remove-middle before v vs h in
          expire_from-viewers now before vs next said
            (at
              ∙ ap (λ b. if b then remove_viewer v.stream_id control.viewers else control.viewers) q
              ∙ ap (remove_viewer v.stream_id) e
              ∙ gone.0)
            gone.1
          ∙ ap (λ b. before ++ (if not b then v ∷ stay now vs else stay now vs)) (sym q)
      | inr q ↦
          let shift = append_assoc before (v ∷ []) vs in
          expire_from-viewers now (before ++ v ∷ []) vs next said
            (at
              ∙ ap (λ b. if b then remove_viewer v.stream_id control.viewers else control.viewers) q
              ∙ e
              ∙ sym shift)
            (subst (λ l. IsDistinct (stream_ids l)) (sym shift) h)
          ∙ append_assoc before (v ∷ []) (stay now vs)
          ∙ ap (λ b. before ++ (if not b then v ∷ stay now vs else stay now vs)) (sym q)
    ]

-- The call by which a lapsed viewer is closed.
abbrev pub lapse : Viewer → Closed
lapse v = record { stream_id = v.stream_id; code = 1008; reason = "terminal_lease_expired" }

abbrev pub lapses : ℕ → List Viewer → List Closed
lapses now vs = map lapse (keep (is_lapsed now) vs)

expire_log-closed :
    (now : ℕ) (v : Viewer) (run : String) (log : Log) (vs : List Viewer)
    → (expire_log now v run log).closed ++ lapses now vs ≡ log.closed ++ lapses now (v ∷ vs)
unfolding expire_log
expire_log-closed now v run log vs =
    ground (arith, append_assoc log.closed (lapse v ∷ []) (lapses now vs))

expire_from-closed :
    (now : ℕ) (vs : List Viewer) (control : RunControl) (log : Log)
    → (expire_from now vs control log).1.closed ≡ log.closed ++ lapses now vs
unfolding expire_from
expire_from-closed now [] control log = sym (append-nil log.closed)
expire_from-closed now (v ∷ vs) control log =
    expire_from-closed now vs (expire_viewer now v control) (expire_log now v control.run.id log)
    ∙ expire_log-closed now v control.run.id log vs

-- The last heartbeat of the viewer is at most `leaseMs` old.
abbrev pub beats : ℕ → Viewer → Bool
beats now v = leb now (v.heartbeat_at + lease_ms)

keep_same {ℓ} :
    {A : Type ℓ} (p q : A → Bool) (xs : List A) → ((x : A) → p x ≡ q x) → keep p xs ≡ keep q xs
keep_same p q [] h = refl
keep_same p q (x ∷ xs) h = rw (h x) (ap (λ ys. if q x then x ∷ ys else ys) (keep_same p q xs h))

-- In a run whose viewers are valid, the sweep keeps, in their order, exactly the viewers whose
-- last heartbeat is at most `leaseMs` old; the others it closes, each once and in order, with
-- code 1008, and it closes no other.
pub expire_lem :
    (now : ℕ) (control : RunControl) (log : Log)
    → IsValid control
    → ((expire now control log).0.viewers ≡ keep (beats now) control.viewers)
      × ((expire now control log).1.closed
          ≡ log.closed ++ map lapse (keep (λ v. not (beats now v)) control.viewers))
unfolding expire
expire_lem now control log h = (
  expire_from-viewers now [] control.viewers control log refl h.distinct
      ∙ keep_same _ (beats now) control.viewers (λ v. ground arith),
  expire_from-closed now control.viewers control log
      ∙ ap (λ vs. log.closed ++ map lapse vs)
          (keep_same (is_lapsed now) (λ v. not (beats now v)) control.viewers (λ v. ground arith)),
)
