-- ===== src/Reporters/Changes.antt =====
-- What the operations on reporters do to the rows of `reporter_sessions`, and runs of operations
-- (apps/daemon/src/store.ts).
use nanasa.Prelude.{
  ℕ, String, ◌<◌, ◌==◌, eq_iff, Bool, true, false, ◌≡◌, sym, ap, Option, none, some, List, All,
  All-append, ◌∷◌, [], ◌++◌, ◌+◌, arith, subst, Bool-cases, inl, inr, any, not, ◌&&◌, some_and,
}
use nanasa.Status.Types.{ReducerState}
use nanasa.Reporters.Types.{
  Session, Event, Run, Database, Fault, Answer, done, failed, has_epoch, update_sessions, Observed,
}
use nanasa.Reporters.Sessions.{
  Process, register_session, revoke_authority, bind_process, bind_session, refresh_lease,
  refresh_session, refresh_state, record_rejection, current_session, is_unclosed, closed_session,
  is_replaced, clashes, is_session, with_fingerprint, with_lease, fingerprint_of, same_kernel,
  find_run, status_state, is_current, previous_kernel, kernel_of,
}
use nanasa.Reporters.Ingestion.{
  Identity, check_event, advanced, apply_accepted, reporter_lease_ms, is_from,
}
use nanasa.Reporters.Rows.{All-update_sessions, current_session-All}
use nanasa.Reporters.Steps.{
  Step, registers, revokes, binds, refreshes, rejects, ingests, Accepted, ingest_event-Accepted,
}

-- A condition on the session that a step registers, where it registers one
abbrev pub Adds : (Session → Type 0) → {db u : Database} → Step db u → Type 0
Adds Q (registers s h) = Q s
Adds Q (revokes db run_id generation now) = Unit {0}
Adds Q (binds db run_id generation p now) = Unit {0}
Adds Q (refreshes db run_id generation lease) = Unit {0}
Adds Q (rejects db r) = Unit {0}
Adds Q (ingests i e now h) = Unit {0}

-- Any number of operations, which register only sessions of a kind.
pub data Reach (Q : Session → Type 0) (start : Database) : Database → Type 0 where
  here : Reach Q start start
  next : {b c : Database} → Reach Q start b → (st : Step b c) → Adds Q st → Reach Q start c

abbrev payload {ℓ} : {A : Type ℓ} → A → Answer A → A
payload a (done b) = b
payload a (failed e) = a

done_injective {ℓ} : {A : Type ℓ} {a b : A} → done a ≡ done b → a ≡ b
done_injective {a} h = ap (payload a) h

pub check_event-rises :
    (e : Event) (run : Run) (s : Session) (state : ReducerState) (now : ℕ) (os : List Observed)
    → check_event e run s state now os ≡ done tt
    → (is_from e run s ≡ true) × (s.source_sequence < e.source_sequence)
unfolding check_event
check_event-rises e run s state now os h = ground arith

pub is_from-epoch :
    (e : Event) (run : Run) (s : Session)
    → is_from e run s ≡ true
    → is_current run.id run.generation s ≡ true
    → has_epoch e.run_id e.generation e.reporter_epoch s ≡ true
unfolding is_from
is_from-epoch e run s h k = ground (
  arith,
  eq_iff e.run_id run.id,
  eq_iff e.reporter_epoch s.reporter_epoch,
  eq_iff s.run_id run.id,
  eq_iff s.run_id e.run_id,
  eq_iff s.reporter_epoch e.reporter_epoch,
)

pub register_session-adds :
    (new : Session) (db u : Database)
    → register_session new db ≡ done u
    → (any (clashes new) db.sessions ≡ false)
      × (u.sessions
          ≡ update_sessions (is_replaced new) (closed_session new.opened_at) db.sessions
            ++ new ∷ [])
unfolding register_session
register_session-adds new db u h = elim (Bool-cases (any (clashes new) db.sessions)) [
  | inl k ↦ absurd (let bad : failed Fault.not_unique ≡ done u = rw k at h in cc)
  | inr k ↦ (k, ap (λ (d : Database). d.sessions) (sym (done_injective (rw k at h))))
]

pub any-All :
    (p : Session → Bool) (ss : List Session) → any p ss ≡ false → All (λ s. p s ≡ false) ss
any-All p [] h = tt
any-All p (s ∷ ss) h =
    let parts : (p s ≡ false) × (any p ss ≡ false) = ground arith in (parts.0, any-All p ss parts.1)

-- What a property of the table needs to stand under every write; the new rows satisfy `Q`.
pub record Stands (Q : Session → Type 0) (L : List Session → Type 0) : Type 0 where
  pub closes :
      (p : Session → Bool) (now : ℕ) (ss : List Session)
      → L ss
      → L (update_sessions p (closed_session now) ss)
  pub fingerprints :
      (p : Session → Bool) (f : String) (ss : List Session)
      → L ss
      → L (update_sessions p (with_fingerprint f) ss)
  pub leases :
      (p : Session → Bool) (lease : ℕ) (ss : List Session)
      → L ss
      → L (update_sessions p (with_lease lease) ss)
  pub advances :
      (e : Event) (lease : ℕ) (run : Run) (s : Session) (ss : List Session)
      → current_session run.id run.generation ss ≡ some s
      → is_from e run s ≡ true
      → s.source_sequence < e.source_sequence
      → L ss
      → L (update_sessions (λ x. x.id == s.id) (advanced e lease) ss)
  pub adds :
      (new : Session) (ss : List Session)
      → All (λ s. clashes new s ≡ false) ss
      → Q new
      → L ss
      → L (update_sessions (is_replaced new) (closed_session new.opened_at) ss ++ new ∷ [])

module _ {Q : Session → Type 0} {L : List Session → Type 0} (stands : Stands Q L) where
  bind_session-Stands :
      (run_id : String) (generation : ℕ) (p : Process) (now : ℕ) (db : Database)
      (o : Option Session)
      → L db.sessions
      → L (bind_session run_id generation p now db o).0.sessions
  unfolding bind_session revoke_authority
  bind_session-Stands run_id generation p now db none h = h
  bind_session-Stands run_id generation p now db (some s) h =
      elim (Bool-cases (
        some_and s.process_fingerprint (λ f. not (f == fingerprint_of p))
        && not (same_kernel (previous_kernel run_id generation db.observations) (kernel_of p)))) [
          | inl k ↦ rw k (stands.closes (is_unclosed run_id generation) now db.sessions h)
          | inr k ↦ rw k (stands.fingerprints (is_session s.id) (fingerprint_of p) db.sessions h)
        ]

  refresh_state-sessions :
      (run : Run) (s : Session) (lease : ℕ) (db : Database)
      → (refresh_state run s lease db).sessions ≡ db.sessions
  unfolding refresh_state
  refresh_state-sessions run s lease db = ground arith

  refresh_session-Stands :
      (run_id : String) (lease : ℕ) (db : Database) (o : Option Session) (r : Option Run)
      → L db.sessions
      → L (refresh_session run_id lease db o r).0.sessions
  unfolding refresh_session
  refresh_session-Stands run_id lease db none r l = l
  refresh_session-Stands run_id lease db (some s) none l =
      stands.leases (is_session s.id) lease db.sessions l
  refresh_session-Stands run_id lease db (some s) (some run) l =
      subst L (sym (refresh_state-sessions run s lease _))
        (stands.leases (is_session s.id) lease db.sessions l)

  Accepted-Stands :
      (i : Identity) (e : Event) (now : ℕ) (db u : Database)
      → Accepted i e now db u
      → L db.sessions
      → L u.sessions
  unfolding apply_accepted
  Accepted-Stands i e now db u a l =
      let rises =
        check_event-rises e a.run a.session (status_state a.run db) now db.observations a.checked in
      subst (λ (v : Database). L v.sessions) (sym a.after)
        (stands.advances e (now + reporter_lease_ms) a.run a.session db.sessions a.current rises.0
          rises.1 l)

  -- The property stands after a step, where the row that the step adds satisfies `Q`.
  pub Step-Stands : {db u : Database} → (st : Step db u) → Adds Q st → L db.sessions → L u.sessions
  unfolding bind_process refresh_lease revoke_authority record_rejection
  Step-Stands {db} {u} (registers s h) new l =
      let added = register_session-adds s db u h in
      subst L (sym added.1)
        (stands.adds s db.sessions (any-All (clashes s) db.sessions added.0) new l)
  Step-Stands (revokes db run_id generation now) new l =
      stands.closes (is_unclosed run_id generation) now db.sessions l
  Step-Stands (binds db run_id generation p now) new l =
      bind_session-Stands run_id generation p now db (current_session run_id generation db.sessions)
        l
  Step-Stands (refreshes db run_id generation lease) new l =
      refresh_session-Stands run_id lease db (current_session run_id generation db.sessions)
        (find_run run_id db.runs) l
  Step-Stands (rejects db r) new l = l
  Step-Stands {db} {u} (ingests i e now h) new l =
      Accepted-Stands i e now db u (ingest_event-Accepted i e now db u h) l

  pub Reach-Stands : {db u : Database} → L db.sessions → Reach Q db u → L u.sessions
  Reach-Stands l here = l
  Reach-Stands l (next before st new) = Step-Stands st new (Reach-Stands l before)

-- A property of each row
pub All-Stands :
    {Q P : Session → Type 0}
    → ((now : ℕ) (s : Session) → P s → P (closed_session now s))
    → ((f : String) (s : Session) → P s → P (with_fingerprint f s))
    → ((lease : ℕ) (s : Session) → P s → P (with_lease lease s))
    → ((e : Event) (lease : ℕ) (s x : Session)
        → s.source_sequence < e.source_sequence
        → x.id == s.id ≡ true
        → P s
        → P x
        → P (advanced e lease x))
    → ((new : Session) → Q new → P new)
    → Stands Q (All P)
All-Stands {Q} {P} c f l a n = record {
  closes = λ p now ss h. All-update_sessions P p (closed_session now) ss (λ s k. c now s) h;
  fingerprints = λ p g ss h. All-update_sessions P p (with_fingerprint g) ss (λ s k. f g s) h;
  leases = λ p t ss h. All-update_sessions P p (with_lease t) ss (λ s k. l t s) h;
  advances = λ e lease run s ss k from rises h.
      All-update_sessions P _ (advanced e lease) ss
        (λ x same. a e lease s x rises same (current_session-All P run.id run.generation ss h k).0)
        h;
  adds = λ new ss k q h.
      All-append P _ (new ∷ [])
        (All-update_sessions P (is_replaced new) (closed_session new.opened_at) ss
          (λ s e. c new.opened_at s) h)
        (n new q, tt);
}
