-- ===== src/Actions/Readiness.antt =====
-- `actionReadiness` of apps/daemon/src/actions/agent-action-scheduler.ts: may the prompt of an
-- action be typed into its target?
use nanasa.Prelude.{
  ℕ, String, ◌==◌, eq_iff, Bool, true, false, not, ◌||◌, ◌≡◌, ◌⊎◌, Option, none, some, arith,
  if◌then◌else◌, ltb, leb, nat_eq, none_or, some_and, same,
}
use nanasa.Status.Enums.{State, State-discrete, ProcessState, AuthorityKind}
use nanasa.Delivery.Types.{RunStatus, RunStatus-discrete}
use nanasa.Actions.Types.{Action, StatusDetail}

pub data Rejection : Type 0 where
  target_identity_mismatch target_failed target_stopped target_process_indeterminate : Rejection
  target_process_unavailable target_blocked target_unknown target_reporter_stale : Rejection
  target_not_interactive_ready target_working_override_required target_not_idle : Rejection

-- ActionReadinessDecision
pub data Decision : Type 0 where
  dispatch defer : Decision
  reject : Rejection → Decision

-- `status.runStatus === … || status.state === …`
abbrev is_starting : StatusDetail → Bool
is_starting status =
    some_and status.run_status (λ r. same RunStatus-discrete r RunStatus.starting)
    || same State-discrete status.state State.starting

abbrev is_failed : StatusDetail → Bool
is_failed status =
    some_and status.run_status (λ r. same RunStatus-discrete r RunStatus.failed)
    || same State-discrete status.state State.failed

abbrev is_stopped : StatusDetail → Bool
is_stopped status =
    some_and status.run_status (λ r. same RunStatus-discrete r RunStatus.stopped)
    || same State-discrete status.state State.stopped

abbrev pub is_reporter : AuthorityKind → Bool
is_reporter AuthorityKind.reporter = true
is_reporter _ = false

-- The authority of the reporter is not what the action was made for, or it has run out.
abbrev pub is_reporter_stale : Action → StatusDetail → ℕ → Bool
is_reporter_stale action status now =
    status.stale_authority
    || (none_or status.reporter_epoch (λ e. not (e == action.target.reporter_epoch))
        || (not (is_reporter status.authority_kind)
            || (none_or status.reporter_lease_expires_at (λ t. leb t now)
                || none_or status.transport_lease_expires_at (λ t. leb t now))))

-- The end of `actionReadiness`, for a process that is present.
unfoldable pub ready_by_state : Action → StatusDetail → ℕ → State → Decision
ready_by_state action status now State.blocked = Decision.reject Rejection.target_blocked
ready_by_state action status now State.unknown = Decision.reject Rejection.target_unknown
ready_by_state action status now state =
    if is_reporter_stale action status now
    then Decision.reject Rejection.target_reporter_stale
    else if not status.interactive_ready
    then Decision.reject Rejection.target_not_interactive_ready
    else elim state [
      | State.working ↦
          if action.allow_working
          then Decision.dispatch
          else Decision.reject Rejection.target_working_override_required
      | State.idle ↦ Decision.dispatch
      | _ ↦ Decision.reject Rejection.target_not_idle
    ]

unfoldable pub ready_by_process : Action → StatusDetail → ℕ → ProcessState → Decision
ready_by_process action status now ProcessState.indeterminate =
    Decision.reject Rejection.target_process_indeterminate
ready_by_process action status now ProcessState.present =
    ready_by_state action status now status.state
ready_by_process action status now _ = Decision.reject Rejection.target_process_unavailable

unfoldable pub action_readiness : Action → StatusDetail → ℕ → Decision
action_readiness action status now =
    if none_or status.run_id (λ id. not (id == action.target.run_id))
      || none_or status.generation (λ g. not (nat_eq g action.target.generation))
    then Decision.reject Rejection.target_identity_mismatch
    else if is_starting status
    then Decision.defer
    else if is_failed status
    then Decision.reject Rejection.target_failed
    else if is_stopped status
    then Decision.reject Rejection.target_stopped
    else ready_by_process action status now status.process_state

-- All that is known of the target of an action that may be dispatched.
pub record IsEligible (action : Action) (status : StatusDetail) (now : ℕ) : Type 0 where
  pub same_run : status.run_id ≡ some action.target.run_id
  pub same_generation : status.generation ≡ some action.target.generation
  pub present : status.process_state ≡ ProcessState.present
  pub free :
      (status.state ≡ State.idle) ⊎ ((status.state ≡ State.working) × (action.allow_working ≡ true))
  pub authority : status.authority_kind ≡ AuthorityKind.reporter
  pub fresh : status.stale_authority ≡ false
  pub same_epoch : status.reporter_epoch ≡ some action.target.reporter_epoch
  pub reporter_lease : some_and status.reporter_lease_expires_at (λ t. ltb now t) ≡ true
  pub transport_lease : some_and status.transport_lease_expires_at (λ t. ltb now t) ≡ true
  pub interactive : status.interactive_ready ≡ true

named_run : (o : Option String) (id : String) → none_or o (λ i. not (i == id)) ≡ false → o ≡ some id
named_run none id h = cc
named_run (some i) id h = ground (arith, eq_iff i id)

numbered : (o : Option ℕ) (g : ℕ) → none_or o (λ i. not (nat_eq i g)) ≡ false → o ≡ some g
numbered none g h = cc
numbered (some i) g h = ground arith

leased :
    (o : Option ℕ) (now : ℕ)
    → none_or o (λ t. leb t now) ≡ false
    → some_and o (λ t. ltb now t) ≡ true
leased none now h = cc
leased (some t) now h = ground arith

module _ (action : Action) (status : StatusDetail) (now : ℕ) where
  eligible_by_state :
      (state : State)
      → ready_by_state action status now state ≡ Decision.dispatch
      → ((state ≡ State.idle) ⊎ ((state ≡ State.working) × (action.allow_working ≡ true)))
        × (is_reporter_stale action status now ≡ false)
        × (status.interactive_ready ≡ true)
  unfolding ready_by_state
  eligible_by_state State.blocked h = cc
  eligible_by_state State.unknown h = cc
  eligible_by_state state h = ground arith

  eligible_by_process :
      (p : ProcessState)
      → ready_by_process action status now p ≡ Decision.dispatch
      → (p ≡ ProcessState.present)
        × (ready_by_state action status now status.state ≡ Decision.dispatch)
  unfolding ready_by_process
  eligible_by_process p h = ground arith

  -- An action is dispatched only to a run that is, in everything that is known of it, the exact
  -- target: its process is present, its reporter has authority in the target's epoch under two
  -- leases that have not run out, it takes input, and it is idle, or working where the action
  -- allows that.
  pub dispatch-IsEligible :
      action_readiness action status now ≡ Decision.dispatch → IsEligible action status now
  unfolding action_readiness
  dispatch-IsEligible h =
      let p = eligible_by_process status.process_state (ground arith) in
      let s = eligible_by_state status.state p.1 in
      record {
        same_run = named_run status.run_id action.target.run_id (ground arith);
        same_generation = numbered status.generation action.target.generation (ground arith);
        present = p.0;
        free = s.0;
        authority = ground (arith);
        fresh = ground arith;
        same_epoch = named_run status.reporter_epoch action.target.reporter_epoch (ground arith);
        reporter_lease = leased status.reporter_lease_expires_at now (ground arith);
        transport_lease = leased status.transport_lease_expires_at now (ground arith);
        interactive = s.2;
      }
