-- ===== src/Reporters/Fences.antt =====
-- A run whose reporters were revoked takes no event (`revokeReporterAuthority` and
-- `ingestAgentStatusEvent` of apps/daemon/src/store.ts).
use nanasa.Prelude.{
  ℕ, String, ◌==◌, eq_iff, nat_eq, true, false, ◌≡◌, refl, Option, none, some, List, All, ◌∷◌, [],
  arith, Bool-cases, inl, inr, ◌⊎◌,
}
use nanasa.Reporters.Types.{
  Session, Event, Run, Database, Fault, Answer, failed, ◌>>=◌, is_of, update_sessions,
}
use nanasa.Reporters.Sessions.{
  revoke_authority, current_session, is_unclosed, closed_session, find_run, is_current,
}
use nanasa.Reporters.Ingestion.{
  Identity, ingest_event, ingest_run, ingest_for, require_current_run, require_found,
  is_authoritative, active_run,
}
use nanasa.Delivery.Types.{Membership}
use nanasa.Reporters.Rows.{current_session-none}
use nanasa.Reporters.Changes.{Reach, Stands, All-Stands, Reach-Stands}

abbrev pub IsUnregistered : String → ℕ → Session → Type 0
IsUnregistered run_id generation s = is_of run_id generation s ≡ false

revoked_rows :
    (run_id : String) (generation now : ℕ) (ss : List Session)
    → All
        (λ s. is_current run_id generation s ≡ false)
        (update_sessions (is_unclosed run_id generation) (closed_session now) ss)
unfolding update_sessions
revoked_rows run_id generation now [] = tt
revoked_rows run_id generation now (s ∷ ss) = (ground arith, revoked_rows run_id generation now ss)

not_current-Stands :
    (run_id : String) (generation : ℕ)
    → Stands (IsUnregistered run_id generation) (All (λ s. is_current run_id generation s ≡ false))
not_current-Stands run_id generation =
    All-Stands (λ now s h. ground arith) (λ f s h. h) (λ lease s h. h) (λ e lease s x r k hs h. h)
      (λ new q. ground arith)

find_run-id : (id : String) (runs : List Run) {r : Run} → find_run id runs ≡ some r → r.id ≡ id
unfolding find_run
find_run-id id [] h = absurd (cc)
find_run-id id (r ∷ rs) {r = x} h = elim (Bool-cases (r.id == id)) [
  | inl e ↦ let same : some r ≡ some x = rw e at h in ground (arith, eq_iff r.id id)
  | inr e ↦ find_run-id id rs (rw e at h)
]

-- What an event of the run meets: no run of that id, a run that is not current, or no session.
abbrev pub IsRefused {ℓ} : {A : Type ℓ} → Answer A → Type ℓ
IsRefused a =
    (a ≡ failed Fault.run_not_found)
    ⊎ ((a ≡ failed Fault.generation_fenced) ⊎ (a ≡ failed Fault.identity_fenced))

authoritative_run :
    (i : Identity) (db : Database) (run : Run)
    → find_run i.run_id db.runs ≡ some run
    → nat_eq run.generation i.generation ≡ true
    → current_session i.run_id i.generation db.sessions ≡ none
    → current_session run.id run.generation db.sessions ≡ none
authoritative_run i db run f g h = ground (arith, find_run-id i.run_id db.runs f)

authoritative_generation :
    (i : Identity) (run : Run) (ms : List Membership) (active : Option Run)
    → is_authoritative i run ms active ≡ true
    → nat_eq run.generation i.generation ≡ true
unfolding is_authoritative
authoritative_generation i run ms active h = ground arith

found-IsRefused :
    (i : Identity) (e : Event) (now : ℕ) (db : Database) (o : Option Run)
    → find_run i.run_id db.runs ≡ o
    → current_session i.run_id i.generation db.sessions ≡ none
    → IsRefused (require_found i db o >>= ingest_run e now db)
unfolding require_found ingest_run ingest_for
found-IsRefused i e now db none f h = inl refl
found-IsRefused i e now db (some run) f h =
    elim (Bool-cases
      (is_authoritative i run db.memberships (active_run i.group_id i.member_id db.runs))) [
        | inr e ↦ rw e (inr (inl refl))
        | inl e ↦
            let closed = authoritative_run i db run f (authoritative_generation i run _ _ e) h in
            rw e (rw closed (inr (inr refl)))
      ]

-- After the authority of the reporters of a run and generation was revoked, and after any further
-- operations of which none registers a session for it, the run has no current session, and each of
-- its events is refused: as one of no run, of a run that is not current, or of no session.
pub revoked_fenced :
    (i : Identity) (now : ℕ) (db v : Database)
    → Reach (IsUnregistered i.run_id i.generation) (revoke_authority i.run_id i.generation now db) v
    → (e : Event) (later : ℕ)
    → (current_session i.run_id i.generation v.sessions ≡ none)
      × IsRefused (ingest_event i e later v)
unfolding ingest_event require_current_run revoke_authority
revoked_fenced i now db v steps e later =
    let fenced =
      Reach-Stands (not_current-Stands i.run_id i.generation)
        (revoked_rows i.run_id i.generation now db.sessions) steps in
    let closed = current_session-none i.run_id i.generation v.sessions fenced in
    (closed, found-IsRefused i e later v (find_run i.run_id v.runs) refl closed)
