-- ===== src/Topology/Examples.antt =====
-- Two groups, one of which has never been ordered.
use nanasa.Prelude.{
  ℕ, String, ◌==◌, true, false, ◌≡◌, ◌≢◌, refl, Option, none, some, List, [], ◌∷◌, if◌then◌else◌,
  lookup,
}
use mathlib.Core.Option
use nanasa.Topology.Entries.{
  Agent, Group, insert_entry, sort_entries, keys, ordered_agent_entries, normalize_agent_order,
  ordered_group_entries, normalize_group_order,
}
use nanasa.Topology.Service.{
  Groups, Rows, pick, is_reordering, reorder_groups, reorder_found, reorder_agents, has_active_run,
  latest_run, find_membership, holds_member, move_agent, move_found, is_busy, reparent_member,
  reparent_agent,
}
use nanasa.Topology.Lookups.{agent_at}
use nanasa.Topology.Reads.{
  unplaced_agent, unplaced_group, reorder_groups_reads, normalize_agent_order_reads,
}
use nanasa.Topology.Idles.{IsIdle}
use nanasa.Topology.Reparents.{reparent_agent_moves}

program : Unit {0}
unfolding insert_entry sort_entries ordered_agent_entries normalize_agent_order
    ordered_group_entries normalize_group_order pick is_reordering reorder_groups reorder_found
    reorder_agents has_active_run latest_run find_membership holds_member move_agent move_found
    is_busy reparent_member reparent_agent
program = tt

abbrev agent : String → Option ℕ → Agent
agent member order = record { member_id = member; settings = "claude"; order = order }

abbrev front : Group
front = record {
  settings = "front";
  order = none;
  agents = ("ada", agent "a" (some 1)) ∷ ("bob", agent "b" (some 0)) ∷ [];
}

abbrev back : Group
back = record {
  settings = "back";
  order = none;
  agents = ("cyd", agent "c" none) ∷ ("dan", agent "d" none) ∷ [];
}

abbrev groups : Groups
groups = ("front", front) ∷ ("back", back) ∷ []

abbrev rows : Rows
rows = record {
  order_revision = 7;
  memberships = record { id = "ada"; group_id = "front"; member_id = "a"; is_active = true } ∷ [];
  runs =
      record {
        group_id = "front";
        member_id = "a";
        generation = 1;
        is_active = false;
        is_desired = false;
      }
      ∷ [];
}

abbrev reordered : Groups
reordered =
    ("back", record back { order = some 0 }) ∷ ("front", record front { order = some 1 }) ∷ []

abbrev back_first : List String
back_first = "back" ∷ "front" ∷ []

reorder_groups_reads_example :
    (back_first ≡ back_first)
    × (keys (ordered_group_entries reordered) ≡ back_first)
    × ((k : String)
        → Option.map unplaced_group (lookup k reordered)
          ≡ Option.map unplaced_group (lookup k groups))
reorder_groups_reads_example =
    reorder_groups_reads back_first 7 7 groups reordered back_first (refl, (refl, tt))
      (refl, (refl, tt)) (unfold program in refl)

normalize_agent_order_reads_example :
    (ordered_agent_entries (normalize_agent_order front.agents)
      ≡ normalize_agent_order front.agents)
    × (keys (normalize_agent_order front.agents) ≡ keys (ordered_agent_entries front.agents))
    × ((k : String)
        → Option.map unplaced_agent (lookup k (normalize_agent_order front.agents))
          ≡ Option.map unplaced_agent (lookup k front.agents))
normalize_agent_order_reads_example = normalize_agent_order_reads front.agents (refl, (refl, tt))

abbrev moved_groups : Groups
moved_groups =
    ("front", record front { order = some 0; agents = ("bob", agent "b" (some 0)) ∷ [] })
    ∷ (
      "back",
      record back {
        order = some 1;
        agents =
            ("ada", agent "a" (some 0))
            ∷ ("cyd", agent "c" (some 1))
            ∷ ("dan", agent "d" (some 2))
            ∷ [];
      },
    )
    ∷ []

reparent_agent_moves_example :
    (rows.order_revision ≡ 7)
    × IsIdle "front" "ada" rows
    × ((settings : String) × (agent_at "front" "ada" groups ≡ some ("a", settings))
        × ((a m s : String) → agent_at "back" a groups ≡ some (m, s) → m ≢ "a")
        × ((g a : String)
            → agent_at g a moved_groups ≡ (
                if "ada" == a
                then if "back" == g
                  then some ("a", settings)
                  else if "front" == g
                  then none
                  else agent_at g a groups
                else agent_at g a groups)))
reparent_agent_moves_example =
    reparent_agent_moves "front" "back" "ada" 7 rows groups moved_groups "a"
      ((refl, (refl, tt)), ((refl, (refl, tt)), ((refl, (refl, tt)), tt))) (unfold program in refl)

-- The moved agent is to be the last of its new group, and is the first of one whose agents have no
-- order yet.
moved_first :
    Option.map (λ (g : Group). keys (ordered_agent_entries g.agents)) (lookup "back" moved_groups)
    ≡ some ("ada" ∷ "cyd" ∷ "dan" ∷ [])
unfolding program
moved_first = refl
