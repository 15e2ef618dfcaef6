-- ===== src/Reporters/Ingestion.antt =====
-- `ingestAgentStatusEvent` of apps/daemon/src/store.ts: the checks of an event of a reporter, and what
-- an accepted event writes. What it does to the open waits of the run, and the events for clients,
-- are not part of it.
use nanasa.Prelude.{
  ℕ, ◌+◌, ◌-◌, String, ◌==◌, Bool, true, false, not, ◌&&◌, Option, none, some, List, [], ◌∷◌, ◌++◌,
  if◌then◌else◌, ltb, leb, nat_eq, any, is_none, some_and, none_or, or_option, insert, length, keep,
}
use nanasa.Status.Enums.{ProcessState}
use nanasa.Status.Types.{ReducerState, ReporterAuthority, Observation}
use nanasa.Status.Reducer.{reduce}
use nanasa.Delivery.Types.{RunStatus, Membership}
use nanasa.Delivery.Rows.{is_member, is_active}
use nanasa.Reporters.Types.{
  Session, Event, Run, Observed, OpenWait, Database, Fault, Answer, done, failed, refuse_if, ◌>>=◌,
  ◌>>◌, update_sessions,
}
use nanasa.Reporters.Waits.{apply_open_wait}
use nanasa.Reporters.Sessions.{current_session, status_state, find_run}

-- AgentStatusIdentity
pub record Identity : Type 0 where
  pub group_id : String
  pub member_id : String
  pub run_id : String
  pub generation : ℕ

-- REPORTER_LEASE_MS
abbrev pub reporter_lease_ms : ℕ
reporter_lease_ms = 45000

abbrev is_live : RunStatus → Bool
is_live RunStatus.starting = true
is_live RunStatus.running = true
is_live _ = false

abbrev newest : Run → Option Run → Option Run
newest r none = some r
newest r (some s) = if ltb r.generation s.generation then some s else some r

-- `getActiveRun`
unfoldable pub active_run : String → String → List Run → Option Run
active_run group_id member_id [] = none
active_run group_id member_id (r ∷ rs) =
    let rest = active_run group_id member_id rs in
    if r.group_id == group_id && (r.member_id == member_id && is_active r.status)
    then newest r rest
    else rest

-- The test of `#requireCurrentAgentStatusRun`
unfoldable pub is_authoritative : Identity → Run → List Membership → Option Run → Bool
is_authoritative i run memberships active =
    run.group_id == i.group_id
    && (run.member_id == i.member_id
        && (nat_eq run.generation i.generation
            && (run.desires_running
                && (is_live run.status
                    && (is_member i.group_id i.member_id memberships
                        && some_and active
                            (λ a. a.id == run.id && nat_eq a.generation run.generation))))))

unfoldable pub require_found : Identity → Database → Option Run → Answer Run
unfolding is_authoritative active_run
require_found i db none = failed Fault.run_not_found
require_found i db (some run) =
    refuse_if
      (not (is_authoritative i run db.memberships (active_run i.group_id i.member_id db.runs)))
      Fault.generation_fenced
    >> done run

-- `#requireCurrentAgentStatusRun`
unfoldable pub require_current_run : Identity → Database → Answer Run
unfolding require_found find_run
require_current_run i db = require_found i db (find_run i.run_id db.runs)

-- The negation of `wrongIdentity`, for a session
unfoldable pub is_from : Event → Run → Session → Bool
is_from e run s =
    e.run_id == run.id
    && (nat_eq e.generation run.generation
        && (e.provider_id == run.agent_type
            && (e.provider_id == s.provider_id
                && (e.adapter_id == s.adapter_id
                    && (e.reporter_id == s.reporter_id
                        && (e.source == s.source
                            && (nat_eq e.protocol_version s.protocol_version
                                && (e.reporter_version == s.reporter_version
                                    && e.reporter_epoch == s.reporter_epoch))))))))

abbrev is_present : ProcessState → Bool
is_present ProcessState.present = true
is_present _ = false

-- The process of the session is the one that is observed, and its lease has not run out.
unfoldable pub is_verified : ReducerState → Session → ℕ → Bool
is_verified state s now =
    is_present state.process_state
    && (some_and s.process_fingerprint (λ f. some_and state.process_fingerprint (λ g. g == f))
        && some_and state.transport_lease_expires_at (λ t. leb now t))

abbrev pub same_native : Event → Session → Bool
same_native e s = none_or s.native_session_id (λ n. some_and e.native_session_id (λ m. m == n))

abbrev pub is_observation : String → ℕ → Observed → Bool
is_observation run_id generation o = o.run_id == run_id && nat_eq o.generation generation

-- The checks of the event against the session, in their order.
unfoldable pub check_event :
    Event → Run → Session → ReducerState → ℕ → List Observed → Answer (Unit {0})
unfolding is_from is_verified
check_event e run s state now observations =
    refuse_if (not (is_from e run s)) Fault.identity_fenced
    >> refuse_if (is_none s.process_fingerprint) Fault.process_unverified
    >> refuse_if (not (is_verified state s now)) Fault.process_unverified
    >> refuse_if (leb e.source_sequence s.source_sequence) Fault.sequence_reordered
    >> refuse_if (not (same_native e s)) Fault.native_session_fenced
    >> refuse_if
        (any (λ o. is_observation run.id run.generation o && o.event_id == e.event_id) observations)
        Fault.event_duplicate

-- The session after the event.
abbrev pub advanced : Event → ℕ → Session → Session
advanced e lease s = record s {
  source_sequence = e.source_sequence;
  native_session_id = or_option s.native_session_id e.native_session_id;
  lease_expires_at = lease;
}

abbrev authority_of : Session → ℕ → ReporterAuthority
authority_of s lease = record {
  session_id = s.id;
  reporter_epoch = s.reporter_epoch;
  readiness_coverage = s.readiness_coverage;
  lease_expires_at = lease;
}

-- The first rows of the run are deleted, as many as there are above a limit.
unfoldable pub drop_first : String → ℕ → ℕ → List Observed → List Observed
drop_first run_id generation excess [] = []
drop_first run_id generation excess (o ∷ os) =
    let rest =
      drop_first run_id generation
        (if is_observation run_id generation o then excess - 1 else excess) os in
    if is_observation run_id generation o && ltb 0 excess then rest else o ∷ rest

-- `#trimAgentStatusEvents`
unfoldable pub trim_observations : String → ℕ → List Observed → List Observed
unfolding drop_first
trim_observations run_id generation os =
    drop_first run_id generation (length (keep (is_observation run_id generation) os) - 256) os

-- The status of the run after the event.
unfoldable pub next_state : Event → Session → ReducerState → ℕ → ReducerState
next_state e s state now =
    reduce state (Observation.reporter_event now e.input (authority_of s (now + reporter_lease_ms)))

-- What an accepted event writes, with the open waits after it.
unfoldable pub apply_accepted :
    Event → Run → Session → ReducerState → ℕ → List OpenWait → Database → Database
unfolding update_sessions trim_observations next_state
apply_accepted e run s state now waits db =
    let row : Observed = record {
      event_id = e.event_id;
      run_id = run.id;
      generation = run.generation;
      kernel = none;
    } in
    record db {
      sessions =
          update_sessions (λ x. x.id == s.id) (advanced e (now + reporter_lease_ms)) db.sessions;
      observations = trim_observations run.id run.generation (db.observations ++ row ∷ []);
      states = insert run.id (next_state e s state now) db.states;
      open_waits = waits;
    }

-- The open waits after an event, or what they refuse it for.
unfoldable pub report_wait :
    Event → Run → Session → ReducerState → ℕ → Database → Answer (List OpenWait)
unfolding apply_open_wait next_state
report_wait e run s state now db =
    apply_open_wait e run s (next_state e s state now) now db.actions db.open_waits e.input.event

unfoldable pub ingest_for : Event → ℕ → Database → Run → Option Session → Answer Database
unfolding check_event apply_accepted report_wait status_state
ingest_for e now db run none = failed Fault.identity_fenced
ingest_for e now db run (some s) =
    check_event e run s (status_state run db) now db.observations
    >> report_wait e run s (status_state run db) now db
    >>= λ waits. done (apply_accepted e run s (status_state run db) now waits db)

unfoldable pub ingest_run : Event → ℕ → Database → Run → Answer Database
unfolding ingest_for current_session
ingest_run e now db run =
    ingest_for e now db run (current_session run.id run.generation db.sessions)

-- `ingestAgentStatusEvent`
unfoldable pub ingest_event : Identity → Event → ℕ → Database → Answer Database
unfolding require_current_run ingest_run
ingest_event i e now db = require_current_run i db >>= ingest_run e now db
