-- ===== src/Topology/Service.antt =====
-- `TopologyOrderService` (apps/daemon/src/topology-order-service.ts): each command gives the new
-- groups of the configuration and its result, or fails with the code of an error and changes
-- nothing. The configuration that the queued mutation loads is an argument, and so are the order
-- revision and the rows of the store that the command reads.
use nanasa.Prelude.{
  ℕ, String, ◌==◌, Bool, false, not, ◌&&◌, ◌||◌, Option, none, some, List, [], ◌∷◌, if◌then◌else◌,
  nat_eq, is_none, some_and, any, find, length, lookup, insert, erase, keep, ltb,
}
use nanasa.Topology.Entries.{
  Agent, Group, from_entries, numbered, place_agent, place_group, normalize_agent_order,
  normalize_group_order,
}

-- topology_order_stale, agent_not_found, active_run_reparent_refused, agent_already_in_group,
-- target_member_id_conflict
pub data Refusal : Type 0 where
  order_stale agent_not_found active_run already_in_group member_id_conflict : Refusal

pub data Answer {ℓ} (A : Type ℓ) : Type ℓ where
  done : A → Answer A
  refused : Refusal → Answer A

abbrev pub Groups : Type 0
Groups = List (String × Group)

-- The entries of the ids; what has no entry is not there.
module _ {ℓ} {A : Type ℓ} where
  unfoldable pub pick : List String → List (String × A) → List (String × A)
  pick [] m = []
  pick (id ∷ ids) m =
      let rest = pick ids m in elim (lookup id m) [ none ↦ rest | some item ↦ (id, item) ∷ rest ]

  abbrev pub is_missing : List (String × A) → String → Bool
  is_missing m id = is_none (lookup id m)

  -- The two tests of a list of ids against a record.
  unfoldable pub is_reordering : List String → List (String × A) → Bool
  is_reordering ids m = not (not (nat_eq (length ids) (length m)) || any (is_missing m) ids)

-- The mutation of `reorderGroups`
unfoldable pub reorder_groups : List String → ℕ → ℕ → Groups → Answer (Groups × List String)
unfolding is_reordering pick
reorder_groups ids expected revision groups =
    if not (nat_eq revision expected)
    then refused Refusal.order_stale
    else if not (is_reordering ids groups)
    then refused Refusal.order_stale
    else done (from_entries (numbered place_group 0 (pick ids groups)), ids)

unfoldable pub reorder_found :
    String → List String → Groups → Option Group → Answer (Groups × List String)
unfolding is_reordering pick
reorder_found group_id ids groups none = refused Refusal.order_stale
reorder_found group_id ids groups (some group) =
    if not (is_reordering ids group.agents)
    then refused Refusal.order_stale
    else done (
      insert group_id
          (record group { agents = from_entries (numbered place_agent 0 (pick ids group.agents)) })
          groups,
      ids,
    )

-- `reorderAgents`
unfoldable pub reorder_agents :
    String → List String → ℕ → ℕ → Groups → Answer (Groups × List String)
unfolding reorder_found
reorder_agents group_id ids expected revision groups =
    if not (nat_eq revision expected)
    then refused Refusal.order_stale
    else reorder_found group_id ids groups (lookup group_id groups)

-- The rows of `memberships` and `runs` that a move reads.
pub record Membership : Type 0 where
  pub id : String
  pub group_id : String
  pub member_id : String
  pub is_active : Bool

pub record Run : Type 0 where
  pub group_id : String
  pub member_id : String
  pub generation : ℕ
  -- its status is 'starting', 'running' or 'stopping'
  pub is_active : Bool
  -- its desired state is 'running'
  pub is_desired : Bool

pub record Rows : Type 0 where
  pub order_revision : ℕ
  pub memberships : List Membership
  pub runs : List Run

abbrev pub is_run_of : String → String → Run → Bool
is_run_of group_id member_id run = run.group_id == group_id && run.member_id == member_id

-- `getActiveRun` is there
unfoldable pub has_active_run : String → String → List Run → Bool
has_active_run group_id member_id runs =
    any (λ run. is_run_of group_id member_id run && run.is_active) runs

-- `getLatestRunForMembership`
unfoldable pub latest_run : List Run → Option Run
latest_run [] = none
latest_run (run ∷ runs) = elim (latest_run runs) [
  | none ↦ some run
  | some other ↦ some (if ltb run.generation other.generation then other else run)
]

-- `listActiveMemberships(sourceGroupId).find(…)`
unfoldable pub find_membership : String → String → List Membership → Option Membership
find_membership group_id agent_id memberships =
    find (λ m. m.id == agent_id) (keep (λ m. m.group_id == group_id && m.is_active) memberships)

unfoldable pub holds_member : String → List (String × Agent) → Bool
holds_member member_id [] = false
holds_member member_id ((id, agent) ∷ agents) =
    agent.member_id == member_id || holds_member member_id agents

-- The groups after the move.
unfoldable pub move_agent : String → String → String → Group → Group → Agent → Groups → Groups
move_agent source_id target_id agent_id source target agent groups = normalize_group_order (
    insert target_id
      (record target {
        agents =
            normalize_agent_order (
              insert agent_id (record agent { order = some (length target.agents) }) target.agents);
      })
      (insert source_id
        (record source { agents = normalize_agent_order (erase agent_id source.agents) }) groups))

unfoldable pub move_found :
    String
    → String
    → String
    → Groups
    → Option Group
    → Option Group
    → Option Agent
    → Answer (Groups × String)
unfolding holds_member move_agent
move_found source_id target_id agent_id groups (some source) (some target) (some agent) =
    if holds_member agent.member_id target.agents
    then refused Refusal.member_id_conflict
    else done (move_agent source_id target_id agent_id source target agent groups, agent.member_id)
move_found source_id target_id agent_id groups _ _ _ = refused Refusal.order_stale

abbrev pub agent_of : String → Option Group → Option Agent
agent_of agent_id none = none
agent_of agent_id (some group) = lookup agent_id group.agents

-- A run of the member is active or is to run.
unfoldable pub is_busy : String → String → List Run → Bool
unfolding has_active_run latest_run
is_busy group_id member_id runs =
    has_active_run group_id member_id runs
    || some_and (latest_run (keep (is_run_of group_id member_id) runs)) (λ run. run.is_desired)

unfoldable pub reparent_member :
    String → String → String → Rows → Groups → Option Membership → Answer (Groups × String)
unfolding is_busy move_found
reparent_member source_id target_id agent_id rows groups none = refused Refusal.agent_not_found
reparent_member source_id target_id agent_id rows groups (some m) =
    if is_busy source_id m.member_id rows.runs
    then refused Refusal.active_run
    else if source_id == target_id
    then refused Refusal.already_in_group
    else move_found source_id target_id agent_id groups (lookup source_id groups)
        (lookup target_id groups) (agent_of agent_id (lookup source_id groups))

-- `reparentAgent`
unfoldable pub reparent_agent :
    String → String → String → ℕ → Rows → Groups → Answer (Groups × String)
unfolding find_membership reparent_member
reparent_agent source_id target_id agent_id expected rows groups =
    if not (nat_eq rows.order_revision expected)
    then refused Refusal.order_stale
    else reparent_member source_id target_id agent_id rows groups
        (find_membership source_id agent_id rows.memberships)
