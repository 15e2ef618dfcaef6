-- ===== src/Reporters/Examples.antt =====
-- A reporter that registers, starts a turn, and is revoked.
use nanasa.Prelude.{◌≡◌, ◌≢◌, ◌≤◌, refl, true, none, some, [], ◌∷◌, arith}
use nanasa.Status.Enums.{
  EventKind, ReadinessCoverage, ProcessState, State-discrete, Phase-discrete, Attention-discrete,
  Outcome-discrete,
}
use nanasa.Status.Steps.{
  append_limited, wait_phase, wait_attention, same_status, transition, with_evidence,
  resume_after_wait, create_state,
}
use nanasa.Status.Reporter.{
  admit_event, apply_event, bypasses_wait, completes, reporter_event, start_tool, finish_tool,
  open_wait, close_wait, observe_failure, settle_turn,
}
use nanasa.Status.Reducer.{observe, completed, reduce}
use nanasa.Delivery.Types.{RunStatus}
use nanasa.Delivery.Rows.{is_member}
use nanasa.Reporters.Types.{Session, Event, Run, Database, Answer, done, failed, update_sessions}
use nanasa.Reporters.Waits.{apply_open_wait, supersede_waits}
use nanasa.Reporters.Sessions.{
  Process, current_session, register_session, bind_session, bind_process, revoke_authority,
  status_state, find_run, previous_kernel,
}
use nanasa.Reporters.Ingestion.{
  Identity, ingest_event, ingest_run, ingest_for, require_current_run, require_found, active_run,
  is_authoritative, is_from, is_verified, check_event, apply_accepted, report_wait, next_state,
  trim_observations, drop_first,
}
use nanasa.Reporters.Steps.{registers, binds, ingests}
use nanasa.Reporters.Changes.{Reach, here, next}
use nanasa.Reporters.Fences.{IsRefused, revoked_fenced}
use nanasa.Reporters.Sequences.{accepted_once}
use nanasa.Reporters.Opens.{open_count, one_open}
use nanasa.Reporters.Owners.{Anything}

program : Unit {0}
unfolding append_limited wait_phase wait_attention same_status transition with_evidence
    resume_after_wait create_state admit_event apply_event bypasses_wait completes reporter_event
    start_tool finish_tool open_wait close_wait observe_failure settle_turn observe completed reduce
    State-discrete Phase-discrete Attention-discrete Outcome-discrete update_sessions
    current_session register_session bind_session bind_process revoke_authority status_state
    find_run previous_kernel ingest_event ingest_run ingest_for require_current_run require_found
    active_run is_authoritative is_from is_verified check_event apply_accepted trim_observations
    drop_first open_count is_member apply_open_wait report_wait next_state supersede_waits
program = tt

abbrev anna : Identity
anna = record { group_id = "g"; member_id = "anna"; run_id = "r"; generation = 2 }

abbrev run : Run
run = record {
  id = "r";
  group_id = "g";
  member_id = "anna";
  generation = 2;
  status = RunStatus.running;
  desires_running = true;
  agent_type = "codex";
  started_at = 0;
}

abbrev start : Database
start = record {
  runs = run ∷ [];
  memberships = record { group_id = "g"; member_id = "anna"; active = true } ∷ [];
  sessions = [];
  states =
      (
        "r",
        record (create_state "r" 2 0) {
          process_state = ProcessState.present;
          process_fingerprint = some "print";
          transport_lease_expires_at = some 9000;
        },
      )
      ∷ [];
  observations = [];
  rejections = [];
  open_waits = [];
  actions = [];
}

abbrev session : Session
session = record {
  id = "s1";
  provider_id = "codex";
  adapter_id = "hooks";
  reporter_id = "anna";
  source = "hook";
  protocol_version = 2;
  reporter_version = "1";
  run_id = "r";
  generation = 2;
  reporter_epoch = "e1";
  source_sequence = 0;
  native_session_id = none;
  readiness_coverage = ReadinessCoverage.full;
  process_fingerprint = none;
  opened_at = 10;
  lease_expires_at = 20;
  revoked_at = none;
  closed_at = none;
}

abbrev begins : Event
begins = record {
  event_id = "v1";
  provider_id = "codex";
  adapter_id = "hooks";
  reporter_id = "anna";
  source = "hook";
  protocol_version = 2;
  reporter_version = "1";
  run_id = "r";
  generation = 2;
  reporter_epoch = "e1";
  source_sequence = 4;
  native_session_id = none;
  action_id = none;
  input = record {
    event = EventKind.turn_started;
    operation_id = none;
    request_id = none;
    details = record {
      wait_kind = none;
      summary = none;
      reply_channel = none;
      retry_at = none;
      active_count = none;
      fatal = none;
    };
  };
}

abbrev with_session : Database
with_session = record start { sessions = session ∷ [] }

registered : register_session session start ≡ done with_session
unfolding program
registered = refl

abbrev bound : Database
bound = (bind_process "r" 2 (Process.fingerprint "print") 12 with_session).0

abbrev taken : Answer Database → Database
taken (done db) = db
taken (failed e) = start

abbrev after : Database
after = taken (ingest_event anna begins 100 bound)

accepted : ingest_event anna begins 100 bound ≡ done after
unfolding program
accepted = refl

opened : Reach Anything start bound
opened =
    next (next here (registers session registered) tt)
      (binds with_session "r" 2 (Process.fingerprint "print") 12) tt

abbrev second : Session
second = record session { id = "s2"; reporter_epoch = "e2"; opened_at = 200 }

abbrev replaced : Database
replaced = taken (register_session second after)

replaces : register_session second after ≡ done replaced
unfolding program
replaces = refl

accepted_once_example :
    ingest_event anna (record begins { event_id = "v2"; source_sequence = 3 }) 300 replaced
    ≢ done replaced
accepted_once_example =
    accepted_once start bound after replaced refl opened anna begins 100 accepted
      (next here (registers second replaces) tt) anna
      (record begins { event_id = "v2"; source_sequence = 3 }) 300 refl (omega arith) replaced

abbrev revoked : Database
revoked = revoke_authority "r" 2 400 replaced

revoked_fenced_example :
    (current_session "r" 2 (bind_process "r" 2 (Process.fingerprint "other") 410 revoked).0.sessions
      ≡ none)
    × IsRefused (
        ingest_event anna begins 420
          (bind_process "r" 2 (Process.fingerprint "other") 410 revoked).0)
revoked_fenced_example =
    revoked_fenced anna 400 replaced _
      (next here (binds revoked "r" 2 (Process.fingerprint "other") 410) tt) begins 420

one_open_example : open_count "r" 2 replaced.sessions ≤ 1
one_open_example =
    one_open "r" 2 start replaced refl
      (next (next opened (ingests anna begins 100 accepted) tt) (registers second replaces) tt)
