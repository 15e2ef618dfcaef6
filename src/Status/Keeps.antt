-- ===== src/Status/Keeps.antt =====
-- What the helpers of the reducer leave alone, field by field, and induction over a replay.
use nanasa.Prelude.{
  ◌+◌, Bool, true, ◌≡◌, List, [], ◌∷◌, arith, if◌then◌else◌, Bool-cases, same_refl, inl, inr,
}
use nanasa.Status.Enums.{State-discrete, Phase-discrete, Attention-discrete, Outcome-discrete}
use nanasa.Status.Types.{Observation, ReducerState}
use nanasa.Status.Steps.{transition, same_status}
use nanasa.Status.Reducer.{reduce, replay}

module _ (c n : ReducerState) (b : Bool) where
  pub transition-state : (transition c n b).state ≡ n.state
  unfolding transition
  transition-state = ground arith

  pub transition-open_waits : (transition c n b).open_waits ≡ n.open_waits
  unfolding transition
  transition-open_waits = ground arith

  pub transition-open_tools : (transition c n b).open_tools ≡ n.open_tools
  unfolding transition
  transition-open_tools = ground arith

  pub transition-interactive_ready : (transition c n b).interactive_ready ≡ n.interactive_ready
  unfolding transition
  transition-interactive_ready = ground arith

  pub transition-process_state : (transition c n b).process_state ≡ n.process_state
  unfolding transition
  transition-process_state = ground arith

  pub transition-evidence : (transition c n b).evidence ≡ n.evidence
  unfolding transition
  transition-evidence = ground arith

  pub transition-authority_kind : (transition c n b).authority_kind ≡ n.authority_kind
  unfolding transition
  transition-authority_kind = ground arith

  pub transition-authority_id : (transition c n b).authority_id ≡ n.authority_id
  unfolding transition
  transition-authority_id = ground arith

  pub transition-semantic_lease_expires_at :
      (transition c n b).semantic_lease_expires_at ≡ n.semantic_lease_expires_at
  unfolding transition
  transition-semantic_lease_expires_at = ground arith

  pub transition-stale_probe_count : (transition c n b).stale_probe_count ≡ n.stale_probe_count
  unfolding transition
  transition-stale_probe_count = ground arith

  pub transition-status_revision : (transition c n b).status_revision ≡ c.status_revision + 1
  unfolding transition
  transition-status_revision = ground arith

  pub transition-completion_revision :
      (transition c n b).completion_revision ≡ c.completion_revision + (if b then 1 else 0)
  unfolding transition
  transition-completion_revision =
      elim (Bool-cases (
        same_status c (record n {
          status_revision = c.status_revision + 1;
          completion_revision = c.completion_revision + (if b then 1 else 0);
        }))) [ inl e ↦ rw e | inr e ↦ rw e ]

same_status_refl :
    (a b : ReducerState)
    → a.state ≡ b.state
    → a.phase ≡ b.phase
    → a.attention ≡ b.attention
    → a.outcome ≡ b.outcome
    → same_status a b ≡ true
unfolding same_status
same_status_refl a b p q r o =
    rw (← p, ← q, ← r, ← o)
      (simp (
        same_refl State-discrete,
        same_refl Phase-discrete,
        same_refl Attention-discrete,
        same_refl Outcome-discrete,
      ))

-- A transition that changes none of the four fields of the status is not recorded.
pub transition_same :
    (s n : ReducerState) (b : Bool)
    → s.state ≡ n.state
    → s.phase ≡ n.phase
    → s.attention ≡ n.attention
    → s.outcome ≡ n.outcome
    → (transition s n b).recent_transitions ≡ n.recent_transitions
unfolding transition
transition_same s n b p q r o =
    let revised = record n {
      status_revision = s.status_revision + 1;
      completion_revision = s.completion_revision + (if b then 1 else 0);
    } in
    rw (same_status_refl s revised p q r o)

-- A property that every observation keeps holds after any sequence of them.
pub replay_ind {ℓ} :
    (P : ReducerState → Type ℓ)
    → ((s : ReducerState) (o : Observation) → P s → P (reduce s o))
    → (s : ReducerState) (os : List Observation) → P s
    → P (replay s os)
unfolding replay
replay_ind P keep s [] h = h
replay_ind P keep s (o ∷ os) h = replay_ind P keep (reduce s o) os (keep s o h)
