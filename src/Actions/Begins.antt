-- ===== src/Actions/Begins.antt =====
-- When `#consider` of apps/daemon/src/actions/agent-action-scheduler.ts begins an attempt.
use nanasa.Prelude.{ℕ, String, eq_iff, true, ◌≡◌, ◌≢◌, refl, Option, none, some, arith}
use nanasa.Actions.Types.{
  PrincipalKind, Target, TargetRun, ReporterSession, Action, Tables, Agents, done,
}
use nanasa.Actions.Readiness.{Decision}
use nanasa.Actions.Rows.{current_reporter}
use nanasa.Actions.Attempts.{is_target_run, is_target_reporter}
use nanasa.Actions.Transitions.{transition_action}
use nanasa.Actions.Scheduler.{Authorize, refusal, decide}

pub decide_begins :
    (d : Decision) (id owner : String) (now : ℕ) (agents : Agents) (action : Action) (t u : Tables)
    → decide d id owner now agents action t ≡ done (u, true)
    → d ≡ Decision.dispatch
unfolding decide transition_action
decide_begins Decision.defer id owner now agents action t u e = ground arith
decide_begins (Decision.reject r) id owner now agents action t u e = ground arith
decide_begins Decision.dispatch id owner now agents action t u e = refl

-- Where the scheduler can ask whether the goal of an action still authorizes it, the answer names
-- no error; where it cannot, the action comes neither from a foreman nor from a conversation with one.
abbrev pub MayDispatch : Authorize → Action → Type 0
MayDispatch none action =
    (action.principal ≢ PrincipalKind.foreman)
    × (action.principal ≢ PrincipalKind.foreman_conversation)
MayDispatch (some authorize) action = authorize action ≡ none

pub refusal-MayDispatch :
    (authorize : Authorize) (action : Action)
    → refusal authorize action ≡ none
    → MayDispatch authorize action
unfolding refusal
refusal-MayDispatch none action h = (
  λ e. absurd (let no : some "goal_dispatch_forbidden" ≡ none = rw e at h in cc),
  λ e. absurd (let no : some "goal_dispatch_forbidden" ≡ none = rw e at h in cc),
)
refusal-MayDispatch (some authorize) action h = h

-- The run and the reporter session that an action was made for are the current ones.
abbrev pub IsReached : Target → Agents → Tables → Type 0
IsReached target agents t =
    ((run : TargetRun) × (agents.active_run target.group_id target.member_id ≡ some run)
      × (run.id ≡ target.run_id)
      × (run.generation ≡ target.generation))
    × ((r : ReporterSession) × (current_reporter target.run_id target.generation t.reporters
          ≡ some r)
        × (r.id ≡ target.reporter_session_id)
        × (r.reporter_epoch ≡ target.reporter_epoch))

pub target_run :
    (target : Target) (o : Option TargetRun)
    → is_target_run target o ≡ true
    → (run : TargetRun) × (o ≡ some run)
      × (run.id ≡ target.run_id)
      × (run.generation ≡ target.generation)
target_run target none h = absurd (cc)
target_run target (some r) h = (r, refl, ground (arith, eq_iff r.id target.run_id), ground arith)

pub target_reporter :
    (target : Target) (o : Option ReporterSession)
    → is_target_reporter target o ≡ true
    → (r : ReporterSession) × (o ≡ some r)
      × (r.id ≡ target.reporter_session_id)
      × (r.reporter_epoch ≡ target.reporter_epoch)
target_reporter target none h = absurd (cc)
target_reporter target (some r) h = (
  r,
  refl,
  ground (arith, eq_iff r.id target.reporter_session_id),
  ground (arith, eq_iff r.reporter_epoch target.reporter_epoch),
)
