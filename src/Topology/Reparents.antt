-- ===== src/Topology/Reparents.antt =====
-- What a move changes (`reparentAgent` of apps/daemon/src/topology-order-service.ts).
use nanasa.Prelude.{
  ℕ, String, ◌==◌, eq_iff, false, ◌≡◌, ◌≢◌, refl, sym, ap, ◌∙◌, Option, none, some, List, [], ◌∷◌,
  arith, if◌then◌else◌, IsDistinct, lookup, Bool-cases, inl, inr,
}
use mathlib.Core.Option
use nanasa.Topology.Entries.{Agent, Group, keys}
use nanasa.Topology.Reads.{unplaced_agent}
use nanasa.Topology.Lookups.{
  All-lookup, IsWellFormed, agent_at, agent_found, agent_at-normalize_group_order,
}
use nanasa.Topology.Service.{
  done, Groups, Membership, Rows, holds_member, move_agent, move_found, reparent_member,
  reparent_agent, agent_of, find_membership, is_busy,
}
use nanasa.Topology.Idles.{IsIdle, is_busy-IsIdle}
use nanasa.Topology.Places.{groups_after-IsWellFormed, agent_at-groups_after}

-- What an accepted move found.
abbrev Found : String → String → String → Groups → Groups → String → Type 0
Found source_id target_id agent_id groups groups' member_id =
    (source : Group) × (target : Group) × (agent : Agent) × (lookup source_id groups ≡ some source)
    × (lookup target_id groups ≡ some target)
    × (lookup agent_id source.agents ≡ some agent)
    × (holds_member agent.member_id target.agents ≡ false)
    × (groups' ≡ move_agent source_id target_id agent_id source target agent groups)
    × (member_id ≡ agent.member_id)

move_found_lem :
    (source_id target_id agent_id : String) (groups groups' : Groups) (member_id : String)
    → move_found source_id target_id agent_id groups
        (lookup source_id groups)
        (lookup target_id groups)
        (agent_of agent_id (lookup source_id groups))
      ≡ done (groups', member_id)
    → Found source_id target_id agent_id groups groups' member_id
unfolding move_found
move_found_lem source_id target_id agent_id groups groups' member_id =
    go (lookup source_id groups) refl (lookup target_id groups) refl
  where
    go :
        (s : Option Group)
        → lookup source_id groups ≡ s
        → (t : Option Group) → lookup target_id groups ≡ t
        → move_found source_id target_id agent_id groups s t (agent_of agent_id s)
          ≡ done (groups', member_id)
        → Found source_id target_id agent_id groups groups' member_id
    go none es t et h = absurd (cc)
    go (some source) es none et h = absurd (cc)
    go (some source) es (some target) et h = found (lookup agent_id source.agents) refl h
      where
        found :
            (a : Option Agent)
            → lookup agent_id source.agents ≡ a
            → move_found source_id target_id agent_id groups (some source) (some target) a
              ≡ done (groups', member_id)
            → Found source_id target_id agent_id groups groups' member_id
        found none ea h = absurd (cc)
        found (some agent) ea h = elim (Bool-cases (holds_member agent.member_id target.agents)) [
          | inl e ↦ absurd (ground arith)
          | inr e ↦ (source, target, agent, es, et, ea, e, ground arith, ground arith)
        ]

not_held :
    (b m s member_id : String) (agents : List (String × Agent))
    → holds_member member_id agents ≡ false
    → Option.map unplaced_agent (lookup b agents) ≡ some (m, s)
    → m ≢ member_id
unfolding holds_member
not_held b m s member_id [] h e = absurd (cc)
not_held b m s member_id ((k, agent) ∷ agents) h e = elim (Bool-cases (k == b)) [
  | inl f ↦ λ same. ground (arith, eq_iff agent.member_id member_id)
  | inr f ↦ not_held b m s member_id agents (ground arith) (rw f at e)
]

module _ (source_id target_id agent_id : String) (rows : Rows) (groups : Groups) {groups' : Groups}
    {member_id : String} where
  reparent_member_lem :
      (m : Membership)
      → reparent_member source_id target_id agent_id rows groups (some m)
        ≡ done (groups', member_id)
      → (is_busy source_id m.member_id rows.runs ≡ false)
        × ((source_id == target_id) ≡ false)
        × Found source_id target_id agent_id groups groups' member_id
  unfolding reparent_member
  reparent_member_lem m h = elim (Bool-cases (is_busy source_id m.member_id rows.runs)) [
    | inl b ↦ absurd (ground arith)
    | inr b ↦ elim (Bool-cases (source_id == target_id)) [
      | inl e ↦ absurd (ground arith)
      | inr e ↦ (
        b,
        e,
        move_found_lem source_id target_id agent_id groups groups' member_id (ground arith),
      )
    ]
  ]

  reparent_agent_lem :
      (expected : ℕ)
      → reparent_agent source_id target_id agent_id expected rows groups ≡ done (groups', member_id)
      → (rows.order_revision ≡ expected)
        × IsIdle source_id agent_id rows
        × ((source_id == target_id) ≡ false)
        × Found source_id target_id agent_id groups groups' member_id
  unfolding reparent_agent
  reparent_agent_lem expected h =
      let found = go (find_membership source_id agent_id rows.memberships) refl (ground arith) in
      (ground arith, found.0, found.1, found.2)
    where
      go :
          (o : Option Membership)
          → find_membership source_id agent_id rows.memberships ≡ o
          → reparent_member source_id target_id agent_id rows groups o ≡ done (groups', member_id)
          → IsIdle source_id agent_id rows
            × ((source_id == target_id) ≡ false)
            × Found source_id target_id agent_id groups groups' member_id
      go none e h = absurd (ground arith)
      go (some m) e h =
          let (idle, apart, found) = reparent_member_lem m h in
          (is_busy-IsIdle source_id agent_id rows m e idle, apart, found)

-- A move that is accepted found the order revision that it expects and the agent an active member
-- of the source group, with no run there that is active, and the latest one there, if any, not
-- wanted. In any group and under any id it leaves the agent that was there,
-- except that the source no longer has the moved agent and the target has it, with the member id
-- that is answered, which no agent of the target had.
pub reparent_agent_moves :
    (source_id target_id agent_id : String) (expected : ℕ) (rows : Rows) (groups groups' : Groups)
    (member_id : String)
    → IsWellFormed groups
    → reparent_agent source_id target_id agent_id expected rows groups ≡ done (groups', member_id)
    → (rows.order_revision ≡ expected)
      × IsIdle source_id agent_id rows
      × ((settings : String) × (agent_at source_id agent_id groups ≡ some (member_id, settings))
          × ((a m s : String) → agent_at target_id a groups ≡ some (m, s) → m ≢ member_id)
          × ((g a : String)
              → agent_at g a groups' ≡ (
                  if agent_id == a
                  then if target_id == g
                    then some (member_id, settings)
                    else if source_id == g
                    then none
                    else agent_at g a groups
                  else agent_at g a groups)))
unfolding move_agent
reparent_agent_moves source_id target_id agent_id expected rows groups groups' member_id w h =
    let (current, idle, apart, found) =
      reparent_agent_lem source_id target_id agent_id rows groups expected h in
    let (source, target, agent, s, t, a, free, became, member) = found in
    let distinct = λ (k : String) (x : Group) (e : lookup k groups ≡ some x).
      All-lookup (λ (y : Group). IsDistinct (keys y.agents)) k groups x w.1 e in
    (
      current,
      idle,
      (
        agent.settings,
        ap (agent_found agent_id) s
            ∙ ap (Option.map unplaced_agent) a
            ∙ ap (λ (n : String). some (n, agent.settings)) (sym member),
        λ b m x e.
            not_held b m x member_id target.agents
              (ap (λ x. holds_member x target.agents) member ∙ free)
              (sym (ap (agent_found b) t) ∙ e),
        λ g b.
            ap (agent_at g b) became
            ∙ agent_at-normalize_group_order g b _ (
                groups_after-IsWellFormed source_id target_id agent_id source target agent groups
                  (distinct source_id source s) (distinct target_id target t) w)
            ∙ agent_at-groups_after source_id target_id agent_id source target agent groups
                (distinct source_id source s) (distinct target_id target t) s t g b
            ∙ ap
                (λ (n : String).
                  if agent_id == b
                  then if target_id == g
                    then some (n, agent.settings)
                    else if source_id == g
                    then none
                    else agent_at g b groups
                  else agent_at g b groups)
                (sym member),
      ),
    )
