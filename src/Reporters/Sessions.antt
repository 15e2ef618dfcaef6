-- ===== src/Reporters/Sessions.antt =====
-- The operations on reporter sessions: `registerReporterSession`, `getCurrentReporterSession`,
-- `bindReporterProcess`, `refreshReporterLease`, `revokeReporterAuthority` and
-- `recordReporterRejection` of apps/daemon/src/store.ts.
use nanasa.Prelude.{
  ℕ, String, ◌==◌, Bool, false, not, ◌&&◌, ◌||◌, Option, none, some, List, [], ◌∷◌, ◌++◌,
  if◌then◌else◌, ltb, nat_eq, any, find, is_none, some_and, or_option, lookup, insert, or_else,
  slice_last,
}
use nanasa.Status.Types.{ReducerState}
use nanasa.Status.Steps.{create_state}
use nanasa.Reporters.Types.{
  Session, Run, Kernel, Observed, Rejection, Database, Fault, Answer, done, failed, is_of,
  has_epoch, is_open, update_sessions,
}
use nanasa.Reporters.Waits.{supersede_waits}

-- `closed_at IS NULL`, and `COALESCE(…_at, now)`
abbrev pub is_unclosed : String → ℕ → Session → Bool
is_unclosed run_id generation s = is_of run_id generation s && is_none s.closed_at

abbrev pub closed_session : ℕ → Session → Session
closed_session now s = record s {
  revoked_at = or_option s.revoked_at (some now);
  closed_at = or_option s.closed_at (some now);
}

-- The sessions of another epoch that a registration closes
abbrev pub is_replaced : Session → Session → Bool
is_replaced new s =
    is_unclosed new.run_id new.generation s && not (s.reporter_epoch == new.reporter_epoch)

-- A row that shares the id, or the run, generation and epoch, of a new one
abbrev pub clashes : Session → Session → Bool
clashes new s = has_epoch new.run_id new.generation new.reporter_epoch s || s.id == new.id

-- `registerReporterSession`
unfoldable pub register_session : Session → Database → Answer Database
unfolding update_sessions
register_session new db =
    if any (clashes new) db.sessions
    then failed Fault.not_unique
    else done (record db {
      sessions =
          update_sessions (is_replaced new) (closed_session new.opened_at) db.sessions ++ new ∷ [];
    })

abbrev pub is_current : String → ℕ → Session → Bool
is_current run_id generation s = is_of run_id generation s && is_open s

abbrev pub latest : Session → Option Session → Option Session
latest s none = some s
latest s (some t) = if ltb s.opened_at t.opened_at then some t else some s

-- `getCurrentReporterSession`
unfoldable pub current_session : String → ℕ → List Session → Option Session
current_session run_id generation [] = none
current_session run_id generation (s ∷ ss) =
    let rest = current_session run_id generation ss in
    if is_current run_id generation s then latest s rest else rest

-- `revokeReporterAuthority`
unfoldable pub revoke_authority : String → ℕ → ℕ → Database → Database
unfolding update_sessions supersede_waits
revoke_authority run_id generation now db = record db {
  sessions = update_sessions (is_unclosed run_id generation) (closed_session now) db.sessions;
  open_waits = supersede_waits run_id generation now db.open_waits;
}

-- The process of a session: its fingerprint, or what was observed of it.
pub data Process : Type 0 where
  fingerprint : String → Process
  observed : String → Option Kernel → Process

abbrev pub fingerprint_of : Process → String
fingerprint_of (Process.fingerprint f) = f
fingerprint_of (Process.observed f _) = f

abbrev pub kernel_of : Process → Option Kernel
kernel_of (Process.fingerprint f) = none
kernel_of (Process.observed _ k) = k

-- The kernel identity that was observed last.
unfoldable pub previous_kernel : String → ℕ → List Observed → Option Kernel
previous_kernel run_id generation [] = none
previous_kernel run_id generation (o ∷ os) =
    or_option (previous_kernel run_id generation os)
      (if o.run_id == run_id && nat_eq o.generation generation then o.kernel else none)

abbrev pub same_kernel : Option Kernel → Option Kernel → Bool
same_kernel (some a) (some b) =
    nat_eq a.foreground_pgid b.foreground_pgid
    && (nat_eq a.leader_pid b.leader_pid && a.pid_start_identity == b.pid_start_identity)
same_kernel _ _ = false

abbrev pub is_session : String → Session → Bool
is_session id s = s.id == id && is_open s

abbrev pub with_fingerprint : String → Session → Session
with_fingerprint f s = record s { process_fingerprint = some f }

-- `bindReporterProcess` for the session: what it throws comes with the tables, since the revocation
-- stands.
unfoldable pub bind_session :
    String → ℕ → Process → ℕ → Database → Option Session → Database × Option Fault
unfolding previous_kernel revoke_authority update_sessions
bind_session run_id generation process now db none = (db, none)
bind_session run_id generation process now db (some s) =
    if some_and s.process_fingerprint (λ f. not (f == fingerprint_of process))
      && not (same_kernel (previous_kernel run_id generation db.observations) (kernel_of process))
    then (revoke_authority run_id generation now db, some Fault.fingerprint_changed)
    else (
      record db {
        sessions =
            update_sessions (is_session s.id) (with_fingerprint (fingerprint_of process))
              db.sessions;
      },
      none,
    )

unfoldable pub bind_process : String → ℕ → Process → ℕ → Database → Database × Option Fault
unfolding current_session bind_session
bind_process run_id generation process now db =
    bind_session run_id generation process now db (current_session run_id generation db.sessions)

-- `#agentStatusState`
unfoldable pub status_state : Run → Database → ReducerState
status_state run db =
    or_else (lookup run.id db.states) (create_state run.id run.generation run.started_at)

abbrev pub with_lease : ℕ → Session → Session
with_lease lease s = record s { lease_expires_at = lease }

unfoldable pub refresh_state : Run → Session → ℕ → Database → Database
unfolding status_state
refresh_state run s lease db =
    let state = status_state run db in
    if some_and state.reporter_epoch (λ e. e == s.reporter_epoch)
    then record db {
      states = insert run.id (record state { reporter_lease_expires_at = some lease }) db.states;
    }
    else db

unfoldable pub find_run : String → List Run → Option Run
find_run id runs = find (λ r. r.id == id) runs

-- `refreshReporterLease` for the session: where it has no run, the new lease stands.
unfoldable pub refresh_session :
    String → ℕ → Database → Option Session → Option Run → Database × Option Fault
unfolding refresh_state update_sessions
refresh_session run_id lease db none run = (db, none)
refresh_session run_id lease db (some s) run =
    let leased = record db {
      sessions = update_sessions (is_session s.id) (with_lease lease) db.sessions;
    } in
    elim run [
      | none ↦ (leased, some Fault.run_not_found)
      | some run ↦ (refresh_state run s lease leased, none)
    ]

-- `refreshReporterLease`
unfoldable pub refresh_lease : String → ℕ → ℕ → Database → Database × Option Fault
unfolding current_session find_run refresh_session
refresh_lease run_id generation lease db =
    refresh_session run_id lease db (current_session run_id generation db.sessions)
      (find_run run_id db.runs)

-- `recordReporterRejection`: the last 256 stay
unfoldable pub record_rejection : Rejection → Database → Database
record_rejection r db = record db { rejections = slice_last 256 (db.rejections ++ r ∷ []) }
