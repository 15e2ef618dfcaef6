-- ===== src/Actions/Rows.antt =====
-- The rows of the action tables of apps/daemon/src/store.ts, and the statements that read and
-- write them. The first columns are primary keys.
use nanasa.Prelude.{
  ℕ, ◌+◌, String, ◌==◌, Bool, true, false, ◌&&◌, Option, none, some, List, [], ◌∷◌, if◌then◌else◌,
  ltb, nat_eq, any,
}
use nanasa.Actions.Types.{ActionState, AttemptState, Action, Attempt, ReporterSession}

-- `["created", "deferred"].includes(state)`
abbrev pub is_open : ActionState → Bool
is_open ActionState.created = true
is_open ActionState.deferred = true
is_open _ = false

-- The states that `markRunStatus` and `createRun` end: those of an action that may yet settle.
abbrev pub is_live : ActionState → Bool
is_live ActionState.created = true
is_live ActionState.deferred = true
is_live ActionState.submitted = true
is_live ActionState.accepted = true
is_live ActionState.started = true
is_live ActionState.blocked = true
is_live _ = false

abbrev pub is_submitting : AttemptState → Bool
is_submitting AttemptState.submitting = true
is_submitting _ = false

-- `SELECT * FROM actions WHERE id = ?`
unfoldable pub find_action : String → List Action → Option Action
find_action id [] = none
find_action id (a ∷ as') = if a.id == id then some a else find_action id as'

-- `UPDATE actions SET f WHERE p`
unfoldable pub update_actions : (Action → Bool) → (Action → Action) → List Action → List Action
update_actions p f [] = []
update_actions p f (a ∷ as') = (if p a then f a else a) ∷ update_actions p f as'

abbrev pub update_action : String → (Action → Action) → List Action → List Action
update_action id = update_actions (λ a. a.id == id)

abbrev pub is_attempt : (attempt action : String) → Attempt → Bool
is_attempt attempt action a = a.id == attempt && a.action_id == action

-- `SELECT * FROM action_attempts WHERE id = ? AND action_id = ?`
unfoldable pub find_attempt : (attempt action : String) → List Attempt → Option Attempt
find_attempt attempt action [] = none
find_attempt attempt action (a ∷ as') =
    if is_attempt attempt action a then some a else find_attempt attempt action as'

-- `UPDATE action_attempts SET f WHERE p`
unfoldable pub update_attempts :
    (Attempt → Bool) → (Attempt → Attempt) → List Attempt → List Attempt
update_attempts p f [] = []
update_attempts p f (a ∷ as') = (if p a then f a else a) ∷ update_attempts p f as'

-- `listActionAttempts(id).length`
unfoldable pub attempts_of : String → List Attempt → ℕ
attempts_of id [] = 0
attempts_of id (a ∷ as') = (if a.action_id == id then 1 else 0) + attempts_of id as'

-- `listActionAttempts(id).some((candidate) => candidate.state === "submitting")`
unfoldable pub has_submitting : String → List Attempt → Bool
has_submitting id = any (λ a. a.action_id == id && is_submitting a.state)

abbrev later : ReporterSession → Option ReporterSession → ReporterSession
later r none = r
later r (some best) = if ltb r.opened_at best.opened_at then best else r

-- `getCurrentReporterSession`: the open session of the run's generation that was opened last
unfoldable pub current_reporter : String → ℕ → List ReporterSession → Option ReporterSession
current_reporter run generation [] = none
current_reporter run generation (r ∷ rs) =
    let rest = current_reporter run generation rs in
    if r.run_id == run && (nat_eq r.generation generation && r.is_open)
    then some (later r rest)
    else rest

-- `UPDATE reporter_sessions SET source_sequence = ? WHERE id = ?`
unfoldable pub set_sequence : String → ℕ → List ReporterSession → List ReporterSession
set_sequence id n [] = []
set_sequence id n (r ∷ rs) =
    (if r.id == id then record r { source_sequence = n } else r) ∷ set_sequence id n rs
