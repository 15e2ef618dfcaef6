-- ===== src/Reporters/Handshakes.antt =====
-- A reporter that registers and whose process is bound is heard (`registerReporterSession`,
-- `bindReporterProcess` and `ingestAgentStatusEvent` of apps/daemon/src/store.ts).
use nanasa.Prelude.{ℕ, String, true, false, ◌≡◌, none, some, List, All, ◌∷◌, [], ◌++◌, find}
use nanasa.Status.Enums.{EventKind, WaitKind, ReplyChannel}
use nanasa.Reporters.Waits.{asks_for}
use nanasa.Reporters.Types.{Session, Event, Run, OpenWait}
use nanasa.Reporters.Sessions.{is_current}

-- The table ends with the only session of the run that is open.
record EndsWith (run_id : String) (generation : ℕ) (s : Session) (table : List Session)
    : Type 0 where
  before : List Session
  whole : table ≡ before ++ s ∷ []
  others : All (λ x. is_current run_id generation x ≡ false) before
  is_last : is_current run_id generation s ≡ true

-- What an event about a wait has to say, so that its wait is none that the table knows otherwise.
abbrev pub MayReport : Event → Run → Session → List OpenWait → EventKind → Type 0
MayReport e run s waits EventKind.wait_opened =
    (request : String) × (kind : WaitKind) × (summary : String) × (channel : ReplyChannel)
    × (e.input.request_id ≡ some request)
    × (e.input.details.wait_kind ≡ some kind)
    × (e.input.details.summary ≡ some summary)
    × (e.input.details.reply_channel ≡ some channel)
    × (e.action_id ≡ none)
    × (find (asks_for run s request) waits ≡ none)
MayReport e run s waits EventKind.wait_closed =
    (request : String) × (e.input.request_id ≡ some request)
MayReport e run s waits _ = Unit {0}
