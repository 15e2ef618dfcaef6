-- ===== src/Reporters/Steps.antt =====
-- The operations on reporters, of any caller and in any order (apps/daemon/src/store.ts).
use nanasa.Prelude.{List, ℕ, String, ◌≡◌, refl, Option, none, some, arith}
use nanasa.Reporters.Types.{
  Session, Event, Run, OpenWait, Rejection, Database, Answer, done, failed, ◌>>=◌, ◌>>◌,
}
use nanasa.Reporters.Sessions.{
  Process, register_session, revoke_authority, bind_process, refresh_lease, record_rejection,
  current_session, status_state,
}
use nanasa.Reporters.Ingestion.{
  Identity, ingest_event, ingest_run, ingest_for, require_current_run, check_event, apply_accepted,
  report_wait,
}

-- One operation; an operation of one transaction that throws leaves the tables.
pub data Step : Database → Database → Type 0 where
  registers : {db u : Database} → (s : Session) → register_session s db ≡ done u → Step db u
  revokes :
      (db : Database) (run_id : String) (generation now : ℕ)
      → Step db (revoke_authority run_id generation now db)
  binds :
      (db : Database) (run_id : String) (generation : ℕ) (p : Process) (now : ℕ)
      → Step db (bind_process run_id generation p now db).0
  refreshes :
      (db : Database) (run_id : String) (generation lease : ℕ)
      → Step db (refresh_lease run_id generation lease db).0
  rejects : (db : Database) (r : Rejection) → Step db (record_rejection r db)
  ingests :
      {db u : Database}
      → (i : Identity) (e : Event) (now : ℕ) → ingest_event i e now db ≡ done u
      → Step db u

-- What an accepted event was checked for.
pub record Accepted (i : Identity) (e : Event) (now : ℕ) (db u : Database) : Type 0 where
  pub run : Run
  pub session : Session
  pub found : require_current_run i db ≡ done run
  pub current : current_session run.id run.generation db.sessions ≡ some session
  pub checked : check_event e run session (status_state run db) now db.observations ≡ done tt
  pub waits : List OpenWait
  pub after : u ≡ apply_accepted e run session (status_state run db) now waits db

pub ingest_event-Accepted :
    (i : Identity) (e : Event) (now : ℕ) (db u : Database)
    → ingest_event i e now db ≡ done u
    → Accepted i e now db u
unfolding ingest_event ingest_run ingest_for
ingest_event-Accepted i e now db u h = go (require_current_run i db) refl h
  where
    checked :
        (run : Run) (s : Session) (c : Answer (Unit {0})) (w : Answer (List OpenWait))
        → require_current_run i db ≡ done run
        → current_session run.id run.generation db.sessions ≡ some s
        → check_event e run s (status_state run db) now db.observations ≡ c
        → (c >> w >>= λ waits. done (apply_accepted e run s (status_state run db) now waits db))
          ≡ done u
        → Accepted i e now db u
    checked run s (done tt) (done waits) f c k h = record {
      run = run;
      session = s;
      found = f;
      current = c;
      checked = k;
      waits = waits;
      after = ground arith;
    }
    checked run s (done tt) (failed x) f c k h = absurd (cc)
    checked run s (failed x) w f c k h = absurd (cc)

    open_session :
        (run : Run) (o : Option Session)
        → require_current_run i db ≡ done run
        → current_session run.id run.generation db.sessions ≡ o
        → ingest_for e now db run o ≡ done u
        → Accepted i e now db u
    open_session run none f c h = absurd (cc)
    open_session run (some s) f c h =
        checked run s (check_event e run s (status_state run db) now db.observations)
          (report_wait e run s (status_state run db) now db) f c refl h

    go :
        (a : Answer Run)
        → require_current_run i db ≡ a
        → (a >>= ingest_run e now db) ≡ done u
        → Accepted i e now db u
    go (failed x) f h = absurd (cc)
    go (done run) f h =
        open_session run (current_session run.id run.generation db.sessions) f refl h
