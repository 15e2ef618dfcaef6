-- ===== src/Reporters/Sequences.antt =====
-- The sequence numbers of an epoch rise (`registerReporterSession` and `ingestAgentStatusEvent` of
-- apps/daemon/src/store.ts).
use nanasa.Prelude.{
  ℕ, eq_iff, true, false, ◌≡◌, ◌≤◌, ◌<◌, ◌≢◌, refl, sym, All, [], ◌+◌, arith, subst, inl, inr,
}
use nanasa.Reporters.Types.{Session, Event, Database, done}
use nanasa.Reporters.Sessions.{status_state}
use nanasa.Reporters.Ingestion.{
  Identity, ingest_event, advanced, is_from, apply_accepted, reporter_lease_ms,
}
use nanasa.Reporters.Rows.{All-updated, current_session-All}
use nanasa.Reporters.Steps.{Accepted, ingest_event-Accepted}
use nanasa.Reporters.Changes.{Reach, Reach-Stands, is_from-epoch, check_event-rises}
use nanasa.Reporters.Owners.{
  Key, has_key, has_id, Owned, IsOwned, IsHeld, Anything, owned-update_sessions, IsOwned-Stands,
  IsHeld-Stands,
}

-- The run, generation and epoch of an event
abbrev pub epoch_of : Event → Key
epoch_of e = (e.run_id, (e.generation, e.reporter_epoch))

module _ (i : Identity) (e : Event) (now : ℕ) (db u : Database) (a : Accepted i e now db u) where
  accepted_rises :
      (is_from e a.run a.session ≡ true) × (a.session.source_sequence < e.source_sequence)
  accepted_rises =
      check_event-rises e a.run a.session (status_state a.run db) now db.observations a.checked

  -- The session of an accepted event is a row of its epoch.
  accepted_session :
      (P : Session → Type 0)
      → All P db.sessions
      → P a.session × (has_key (epoch_of e) a.session ≡ true)
  accepted_session P h =
      let current = current_session-All P a.run.id a.run.generation db.sessions h a.current in
      (current.0, is_from-epoch e a.run a.session accepted_rises.0 current.1)

  raised :
      (o : IsOwned (epoch_of e) 0 db.sessions) → IsOwned (epoch_of e) e.source_sequence u.sessions
  unfolding apply_accepted
  raised o =
      let own = accepted_session (Owned (epoch_of e) o.id 0) o.rows in
      let same : a.session.id ≡ o.id = (own.0.0 own.1).0 in
      subst (λ (v : Database). IsOwned (epoch_of e) e.source_sequence v.sessions) (sym a.after)
        (owned-update_sessions (epoch_of e) 0 e.source_sequence (has_id a.session.id)
          (advanced e (now + reporter_lease_ms)) db.sessions o (λ x. refl)
          (All-updated (Owned (epoch_of e) o.id 0) (Owned (epoch_of e) o.id e.source_sequence) _ _
            db.sessions (λ x k ox. ((λ h. ((ox.0 h).0, omega arith)), ox.1))
            (λ x k ox. (
              (λ h. absurd (let own_id = (ox.0 h).0 in ground (arith, eq_iff x.id a.session.id))),
              ox.1,
            ))
            o.rows))

  accepted-IsOwned :
      IsHeld (epoch_of e) db.sessions → IsOwned (epoch_of e) e.source_sequence u.sessions
  accepted-IsOwned (inl absent) =
      absurd (let own = accepted_session (λ s. has_key (epoch_of e) s ≡ false) absent in cc)
  accepted-IsOwned (inr o) = raised o

  -- An accepted event is above a number that the rows of its epoch have reached.
  accepted_above : (n : ℕ) → IsOwned (epoch_of e) n db.sessions → n < e.source_sequence
  accepted_above n o =
      let own = accepted_session (Owned (epoch_of e) o.id n) o.rows in
      let above : n ≤ a.session.source_sequence = (own.0.0 own.1).1 in
      let rises = accepted_rises.1 in omega arith

-- The tables start without sessions, and any operations are made on them. When an event has been
-- accepted, and any further operations were made, then no event of the same run, generation and
-- epoch is accepted whose sequence number is not above that of the first event.
pub accepted_once :
    (start db u v : Database)
    → start.sessions ≡ []
    → Reach Anything start db
    → (i : Identity) (e : Event) (now : ℕ) → ingest_event i e now db ≡ done u
    → Reach Anything u v
    → (j : Identity) (f : Event) (later : ℕ) → epoch_of f ≡ epoch_of e
    → f.source_sequence ≤ e.source_sequence
    → (w : Database) → ingest_event j f later v ≢ done w
accepted_once start db u v empty before i e now h steps j f later same low w k =
    let held =
      Reach-Stands (IsHeld-Stands (epoch_of e)) (subst (IsHeld (epoch_of e)) (sym empty) (inl tt))
        before in
    let owned = accepted-IsOwned i e now db u (ingest_event-Accepted i e now db u h) held in
    let kept = Reach-Stands (IsOwned-Stands (epoch_of e) e.source_sequence) owned steps in
    let above =
      accepted_above j f later v w (ingest_event-Accepted j f later v w k) e.source_sequence
        (subst (λ key. IsOwned key e.source_sequence v.sessions) (sym same) kept) in
    omega arith
