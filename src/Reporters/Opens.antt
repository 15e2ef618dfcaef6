-- ===== src/Reporters/Opens.antt =====
-- The open sessions of a run (`registerReporterSession` of apps/daemon/src/store.ts).
use nanasa.Prelude.{
  ℕ, ◌+◌, ◌≤◌, String, eq_iff, Bool, true, false, ◌≡◌, refl, sym, subst, List, All, ◌∷◌, [], ◌++◌,
  arith, if◌then◌else◌, Bool-cases, inl, inr, length, keep, map,
}
use nanasa.Reporters.Types.{Session, Database, is_of, update_row, update_sessions}
use nanasa.Reporters.Sessions.{
  is_current, closed_session, with_fingerprint, with_lease, is_replaced, clashes,
}
use nanasa.Reporters.Ingestion.{advanced}
use nanasa.Reporters.Changes.{Reach, Stands, Reach-Stands}
use nanasa.Reporters.Owners.{Anything}

-- The number of sessions of the run that are neither revoked nor closed
unfoldable pub open_count : String → ℕ → List Session → ℕ
open_count run_id generation ss = length (keep (is_current run_id generation) ss)

-- What a registration leaves of the older sessions of the run is not open.
pub replaced_rows :
    (run_id : String) (generation : ℕ) (new : Session) (ss : List Session)
    → is_of run_id generation new ≡ true
    → All (λ s. clashes new s ≡ false) ss
    → All
        (λ s. is_current run_id generation s ≡ false)
        (update_sessions (is_replaced new) (closed_session new.opened_at) ss)
unfolding update_sessions
replaced_rows run_id generation new [] h c = tt
replaced_rows run_id generation new (s ∷ ss) h c = (
  ground (arith, eq_iff new.run_id run_id, eq_iff s.run_id run_id, eq_iff s.run_id new.run_id),
  replaced_rows run_id generation new ss h c.1,
)

module _ (run_id : String) (generation : ℕ) where
  open_count-one :
      (s : Session) (ss : List Session)
      → open_count run_id generation (s ∷ ss)
        ≡ (if is_current run_id generation s then 1 else 0) + open_count run_id generation ss
  unfolding open_count
  open_count-one s ss = ground arith

  open_count-empty : open_count run_id generation [] ≡ 0
  unfolding open_count
  open_count-empty = refl

  open_count-zero :
      (s : Session) (ss : List Session)
      → is_current run_id generation s ≡ false
      → open_count run_id generation ss ≡ 0
      → open_count run_id generation (s ∷ ss) ≡ 0
  open_count-zero s ss h k = let one = open_count-one s ss in ground arith

  open_count-le :
      (s t : Session) (ss ts : List Session)
      → (is_current run_id generation t ≡ true → is_current run_id generation s ≡ true)
      → open_count run_id generation ts ≤ open_count run_id generation ss
      → open_count run_id generation (t ∷ ts) ≤ open_count run_id generation (s ∷ ss)
  open_count-le s t ss ts h k =
      let old = open_count-one s ss in
      let new = open_count-one t ts in
      elim (Bool-cases (is_current run_id generation t)) [
        | inl e ↦ let still = h e in ground arith
        | inr e ↦ ground arith
      ]

  open_count-update :
      (p : Session → Bool) (f : Session → Session) (ss : List Session)
      → ((s : Session)
          → is_current run_id generation (f s) ≡ true
          → is_current run_id generation s ≡ true)
      → open_count run_id generation (update_sessions p f ss) ≤ open_count run_id generation ss
  unfolding update_sessions
  open_count-update p f [] k = omega arith
  open_count-update p f (s ∷ ss) k =
      open_count-le s (update_row p f s) ss (map (update_row p f) ss)
        (elim (Bool-cases (p s)) [ inl e ↦ rw e (k s) | inr e ↦ rw e (λ h. h) ])
        (open_count-update p f ss k)

  open_count-add :
      (new : Session) (ss : List Session)
      → open_count run_id generation (ss ++ new ∷ [])
        ≡ open_count run_id generation ss + (if is_current run_id generation new then 1 else 0)
  open_count-add new [] =
      let none_open : open_count run_id generation [] ≡ 0 = open_count-empty in
      let one = open_count-one new [] in omega arith
  open_count-add new (s ∷ ss) =
      let rest = open_count-add new ss in
      let now = open_count-one s ss in let later = open_count-one s (ss ++ new ∷ []) in omega arith

  open_count-none :
      (ss : List Session)
      → All (λ s. is_current run_id generation s ≡ false) ss
      → open_count run_id generation ss ≡ 0
  open_count-none [] h = open_count-empty
  open_count-none (s ∷ ss) h = open_count-zero s ss h.0 (open_count-none ss h.1)

  closed_not : (now : ℕ) (s : Session) → is_current run_id generation (closed_session now s) ≡ false
  closed_not now s = ground arith

  abbrev OneOpen : List Session → Type 0
  OneOpen ss = open_count run_id generation ss ≤ 1

  kept_open :
      (p : Session → Bool) (f : Session → Session) (ss : List Session)
      → ((s : Session)
          → is_current run_id generation (f s) ≡ true
          → is_current run_id generation s ≡ true)
      → OneOpen ss
      → OneOpen (update_sessions p f ss)
  kept_open p f ss k h = let less = open_count-update p f ss k in omega arith

  closing :
      (p : Session → Bool) (now : ℕ) (ss : List Session)
      → OneOpen ss
      → OneOpen (update_sessions p (closed_session now) ss)
  closing p now ss =
      kept_open p (closed_session now) ss (λ s h. absurd (let no = closed_not now s in cc))

  registered_open :
      (new : Session) (ss : List Session)
      → All (λ s. clashes new s ≡ false) ss
      → OneOpen ss
      → OneOpen (update_sessions (is_replaced new) (closed_session new.opened_at) ss ++ new ∷ [])
  registered_open new ss c h =
      let rest = update_sessions (is_replaced new) (closed_session new.opened_at) ss in
      let added = open_count-add new rest in
      elim (Bool-cases (is_of run_id generation new)) [
        | inl e ↦
            let none_open = open_count-none rest (replaced_rows run_id generation new ss e c) in
            ground arith
        | inr e ↦
            let not_new : is_current run_id generation new ≡ false = ground arith in
            let less = closing (is_replaced new) new.opened_at ss h in ground arith
      ]

  OneOpen-Stands : Stands Anything OneOpen
  OneOpen-Stands = record {
    closes = closing;
    fingerprints = λ p f ss h. kept_open p (with_fingerprint f) ss (λ s k. k) h;
    leases = λ p t ss h. kept_open p (with_lease t) ss (λ s k. k) h;
    advances = λ e t run s ss c from rises h. kept_open _ (advanced e t) ss (λ x k. k) h;
    adds = λ new ss c q h. registered_open new ss c h;
  }

-- The tables start without sessions, and any operations are made on them. Then a run and generation
-- has one session at most that is neither revoked nor closed.
pub one_open :
    (run_id : String) (generation : ℕ) (start db : Database)
    → start.sessions ≡ []
    → Reach Anything start db
    → open_count run_id generation db.sessions ≤ 1
one_open run_id generation start db empty steps =
    let none_open = open_count-empty run_id generation in
    Reach-Stands (OneOpen-Stands run_id generation)
      (subst (OneOpen run_id generation) (sym empty) (omega arith)) steps
