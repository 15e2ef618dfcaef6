-- ===== src/Actions/Replays.antt =====
-- Which acknowledgements count, and that each counts once.
use nanasa.Prelude.{
  ℕ, ◌≤◌, ◌<◌, String, ◌==◌, eq_iff, eq_refl, true, false, ◌≡◌, refl, ◌⊎◌, inl, inr, Option, none,
  some, List, [], ◌∷◌, arith, if◌then◌else◌, Option-cases,
}
use mathlib.Core.Option
use nanasa.Actions.Types.{
  ActionState, AckKind, AttemptState, Action, Attempt, Acknowledgement, ReporterSession, Tables,
  Agents, done, throws, ActionError,
}
use nanasa.Actions.Rows.{find_action, find_attempt, current_reporter, set_sequence}
use nanasa.Actions.Acknowledgements.{
  is_awaiting, is_about, is_next, agrees_with, is_unfenced, acknowledge, record_acknowledgement,
  acknowledged,
}
use nanasa.Actions.Safe.{find_action-update}

-- The action was submitted, and has not ended.
abbrev pub Awaits : ActionState → Type 0
Awaits s =
    (s ≡ ActionState.submitted)
    ⊎ ((s ≡ ActionState.accepted) ⊎ ((s ≡ ActionState.started) ⊎ (s ≡ ActionState.blocked)))

-- What an acknowledgement tells of its action.
abbrev pub told : AckKind → ActionState
told AckKind.accepted = ActionState.accepted
told AckKind.started = ActionState.started
told AckKind.blocked = ActionState.blocked
told AckKind.completed = ActionState.completed
told AckKind.settled_unverified = ActionState.settled_unverified
told AckKind.failed = ActionState.failed
told AckKind.cancelled = ActionState.cancelled

-- The acknowledgement comes from a session, after all that this one has sent.
abbrev pub ComesFrom : Acknowledgement → Option ReporterSession → Type 0
ComesFrom ack o =
    (r : ReporterSession) × (o ≡ some r)
    × (r.id ≡ ack.reporter_session_id)
    × (r.reporter_epoch ≡ ack.reporter_epoch)
    × (r.source_sequence < ack.source_sequence)

awaiting_states : (s : ActionState) → is_awaiting s ≡ true → Awaits s
awaiting_states ActionState.submitted h = inl refl
awaiting_states ActionState.accepted h = inr (inl refl)
awaiting_states ActionState.started h = inr (inr (inl refl))
awaiting_states ActionState.blocked h = inr (inr (inr refl))
awaiting_states _ h = absurd (cc)

agrees_with-some :
    (expected actual : Option String) (n : String)
    → agrees_with expected actual ≡ true
    → expected ≡ some n
    → actual ≡ some n
agrees_with-some none actual n h e = absurd (cc)
agrees_with-some (some a) none n h e = absurd (cc)
agrees_with-some (some a) (some b) n h e = ground (arith, eq_iff b a)

is_next-ComesFrom :
    (ack : Acknowledgement) (o : Option ReporterSession) → is_next ack o ≡ true → ComesFrom ack o
is_next-ComesFrom ack none h = absurd (cc)
is_next-ComesFrom ack (some r) h = (
  r,
  refl,
  ground (arith, eq_iff r.id ack.reporter_session_id),
  ground (arith, eq_iff r.reporter_epoch ack.reporter_epoch),
  ground arith,
)

acknowledge-told : (ack : Acknowledgement) (a : Action) → (acknowledge ack a).state ≡ told ack.kind
acknowledge-told ack a = go ack.kind
  where
    go : (k : AckKind) → acknowledged k ≡ told k
    go AckKind.accepted = refl
    go AckKind.started = refl
    go AckKind.blocked = refl
    go AckKind.completed = refl
    go AckKind.settled_unverified = refl
    go AckKind.failed = refl
    go AckKind.cancelled = refl

-- The tests that an acknowledgement passed which is recorded.
recorded_tests :
    (agents : Agents) (ack : Acknowledgement) (t u : Tables) (action : Action)
    → find_action ack.action_id t.actions ≡ some action
    → record_acknowledgement agents ack t ≡ done u
    → ((att : Attempt) × (find_attempt ack.attempt_id action.id t.attempts ≡ some att)
        × (att.state ≡ AttemptState.submitted)
        × (ack.kind ≡ AckKind.completed
            → att.baseline_completion_revision < ack.completion_revision))
      × (is_awaiting action.state ≡ true)
      × (is_about action.target ack ≡ true)
      × (is_next ack (current_reporter ack.run_id ack.generation t.reporters) ≡ true)
      × (agrees_with action.target.native_session_id ack.native_session_id ≡ true)
      × (agrees_with action.accepted_provider_turn_id ack.provider_turn_id ≡ true)
      × (ack.completion_revision
          ≤ (agents.status action.target.group_id action.target.member_id).completion_revision)
      × (find_action ack.action_id u.actions ≡ some (acknowledge ack action))
unfolding record_acknowledgement is_unfenced
recorded_tests agents ack t u action known e =
    elim (Option-cases (find_attempt ack.attempt_id action.id t.attempts)) [
      | inl q ↦ absurd (ground arith)
      | inr (att, q) ↦
          let at =
            find_action-update ack.action_id (acknowledge ack) (λ a. refl) ack.action_id
              t.actions in
          (
            (att, q, ground arith, λ k. ground arith),
            ground arith,
            ground arith,
            ground arith,
            ground arith,
            ground arith,
            ground arith,
            ground (arith, at, eq_refl ack.action_id),
          )
    ]

-- An acknowledgement that is recorded belongs to a submitted attempt of an action that awaits its
-- end, and names the run, generation, session, reporter and epoch of the action's target, and its
-- native session where that is known. It comes from the session that is current for the run, with
-- a number above all that this one had sent, and agrees with the turn that was accepted, if any. A
-- completion is one that came after the attempt's baseline, and none is ahead of the agent's
-- status. The action moves to the state that is told.
pub acknowledgement_fences :
    (agents : Agents) (ack : Acknowledgement) (t u : Tables) (action : Action)
    → find_action ack.action_id t.actions ≡ some action
    → record_acknowledgement agents ack t ≡ done u
    → ((att : Attempt) × (find_attempt ack.attempt_id action.id t.attempts ≡ some att)
        × (att.state ≡ AttemptState.submitted)
        × (ack.kind ≡ AckKind.completed
            → att.baseline_completion_revision < ack.completion_revision))
      × Awaits action.state
      × (ack.run_id ≡ action.target.run_id)
      × (ack.generation ≡ action.target.generation)
      × (ack.reporter_session_id ≡ action.target.reporter_session_id)
      × (ack.reporter_id ≡ action.target.reporter_id)
      × (ack.reporter_epoch ≡ action.target.reporter_epoch)
      × ((n : String) → action.target.native_session_id ≡ some n → ack.native_session_id ≡ some n)
      × ComesFrom ack (current_reporter ack.run_id ack.generation t.reporters)
      × ((n : String) → action.accepted_provider_turn_id ≡ some n → ack.provider_turn_id ≡ some n)
      × (ack.completion_revision
          ≤ (agents.status action.target.group_id action.target.member_id).completion_revision)
      × ((after : Action) × (find_action ack.action_id u.actions ≡ some after)
          × (after.state ≡ told ack.kind))
acknowledgement_fences agents ack t u action known e =
    let (attempt, awaits, about, next, native, turn, ahead, moved) =
      recorded_tests agents ack t u action known e in
    let target = action.target in
    (
      attempt,
      awaiting_states action.state awaits,
      ground (arith, eq_iff ack.run_id target.run_id),
      ground arith,
      ground (arith, eq_iff ack.reporter_session_id target.reporter_session_id),
      ground (arith, eq_iff ack.reporter_id target.reporter_id),
      ground (arith, eq_iff ack.reporter_epoch target.reporter_epoch),
      λ n. agrees_with-some target.native_session_id ack.native_session_id n native,
      is_next-ComesFrom ack (current_reporter ack.run_id ack.generation t.reporters) next,
      λ n. agrees_with-some action.accepted_provider_turn_id ack.provider_turn_id n turn,
      ahead,
      (acknowledge ack action, moved, acknowledge-told ack action),
    )

abbrev sequenced : String → ℕ → ReporterSession → ReporterSession
sequenced id n r = if r.id == id then record r { source_sequence = n } else r

-- The current session stays the current one when a sequence number is stored.
current_reporter-set_sequence :
    (run : String) (generation : ℕ) (id : String) (n : ℕ) (rs : List ReporterSession)
    → current_reporter run generation (set_sequence id n rs)
      ≡ Option.map (sequenced id n) (current_reporter run generation rs)
unfolding current_reporter set_sequence
current_reporter-set_sequence run generation id n [] = refl
current_reporter-set_sequence run generation id n (r ∷ rs) =
    ground (arith, current_reporter-set_sequence run generation id n rs)

recorded_next :
    (agents : Agents) (ack : Acknowledgement) (t u : Tables)
    → record_acknowledgement agents ack t ≡ done u
    → is_next ack (current_reporter ack.run_id ack.generation t.reporters) ≡ true
unfolding record_acknowledgement is_unfenced
recorded_next agents ack t u e = ground arith

recorded_reporters :
    (agents : Agents) (ack : Acknowledgement) (t u : Tables)
    → record_acknowledgement agents ack t ≡ done u
    → u.reporters ≡ set_sequence ack.reporter_session_id ack.source_sequence t.reporters
unfolding record_acknowledgement
recorded_reporters agents ack t u e = ground arith

-- A sequence number is not the next one any more once it is stored.
not_next :
    (ack again : Acknowledgement) (r : Option ReporterSession)
    → is_next ack r ≡ true
    → again.source_sequence ≤ ack.source_sequence
    → is_next again (Option.map (sequenced ack.reporter_session_id ack.source_sequence) r) ≡ false
not_next ack again none h old = cc
not_next ack again (some r) h old = ground (arith, eq_iff r.id ack.reporter_session_id)

fenced :
    (later : Agents) (again : Acknowledgement) (u : Tables) (action : Action)
    → find_action again.action_id u.actions ≡ some action
    → is_next again (current_reporter again.run_id again.generation u.reporters) ≡ false
    → record_acknowledgement later again u ≡ throws ActionError.agent_action_ack_fenced
unfolding record_acknowledgement is_unfenced
fenced later again u action known stale = ground arith

-- An acknowledgement that was recorded is refused when it is sent again, and so is every other
-- one for the same generation of the run whose sequence number is no greater.
pub acknowledged_once :
    (agents later : Agents) (ack again : Acknowledgement) (t u : Tables) (action : Action)
    → record_acknowledgement agents ack t ≡ done u
    → find_action again.action_id u.actions ≡ some action
    → again.run_id ≡ ack.run_id
    → again.generation ≡ ack.generation
    → again.source_sequence ≤ ack.source_sequence
    → record_acknowledgement later again u ≡ throws ActionError.agent_action_ack_fenced
acknowledged_once agents later ack again t u action e known run generation old =
    let next = recorded_next agents ack t u e in
    let stored = recorded_reporters agents ack t u e in
    let r = current_reporter ack.run_id ack.generation t.reporters in
    let at =
      current_reporter-set_sequence ack.run_id ack.generation ack.reporter_session_id
        ack.source_sequence t.reporters in
    fenced later again u action known
      (rw (run, generation, stored, at) (not_next ack again r next old))
