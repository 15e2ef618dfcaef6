-- ===== src/Topology/Reads.antt =====
-- A new order is read back as it was commanded (`reorderGroups` and `reorderAgents` of
-- apps/daemon/src/topology-order-service.ts, `normalizeAgentOrder` of
-- apps/daemon/src/membership-order.ts).
use nanasa.Prelude.{
  ℕ, String, ◌≡◌, refl, sym, ap, ◌∙◌, subst, List, arith, IsDistinct, lookup, Bool-cases, inl, inr,
}
use mathlib.Core.Option
use nanasa.Topology.Entries.{
  Agent, Group, from_entries, numbered, keys, place_agent, place_group, agent_before,
  ordered_agent_entries, ordered_group_entries, normalize_agent_order,
}
use nanasa.Topology.Records.{from_entries_self, keys-numbered, IsDistinct-ordered, lookup_ordered}
use nanasa.Topology.Sorting.{ordered_agent_entries-numbered, ordered_group_entries-numbered}
use nanasa.Topology.Picks.{renumbered, numbered-lookup}
use nanasa.Topology.Service.{done, Groups, pick, is_reordering, reorder_groups}

-- All of an agent and of a group but its place.
abbrev pub unplaced_agent : Agent → String × String
unplaced_agent a = (a.member_id, a.settings)

abbrev pub unplaced_group : Group → String × List (String × Agent)
unplaced_group g = (g.settings, g.agents)

-- An accepted order of the groups is the order in which they are listed from then on, and no group
-- is lost, added or otherwise changed, when the command names no group twice and no two groups
-- have one id.
pub reorder_groups_reads :
    (ids : List String) (expected revision : ℕ) (groups groups' : Groups) (result : List String)
    → IsDistinct ids
    → IsDistinct (keys groups)
    → reorder_groups ids expected revision groups ≡ done (groups', result)
    → (result ≡ ids)
      × (keys (ordered_group_entries groups') ≡ ids)
      × ((k : String)
          → Option.map unplaced_group (lookup k groups')
            ≡ Option.map unplaced_group (lookup k groups))
unfolding reorder_groups
reorder_groups_reads ids expected revision groups groups' result d e h =
    elim (Bool-cases (is_reordering ids groups)) [
      | inr no_order ↦ absurd (ground arith)
      | inl order ↦
          let read = renumbered place_group unplaced_group (λ i a. refl) ids groups d e order in
          let became : groups' ≡ from_entries (numbered place_group 0 (pick ids groups)) =
            ground arith in
          (
            ground arith,
            ap (λ gs. keys (ordered_group_entries gs)) (became ∙ read.0)
                ∙ ap keys (ordered_group_entries-numbered (pick ids groups))
                ∙ read.1,
            λ k. ap (λ gs. Option.map unplaced_group (lookup k gs)) (became ∙ read.0) ∙ read.2 k,
          )
    ]

pub ordered_agent_entries-IsDistinct :
    (agents : List (String × Agent))
    → IsDistinct (keys agents)
    → IsDistinct (keys (ordered_agent_entries agents))
unfolding ordered_agent_entries
ordered_agent_entries-IsDistinct agents d = IsDistinct-ordered agent_before agents d

lookup-ordered_agent_entries :
    (k : String) (agents : List (String × Agent))
    → IsDistinct (keys agents)
    → lookup k (ordered_agent_entries agents) ≡ lookup k agents
unfolding ordered_agent_entries
lookup-ordered_agent_entries k agents d = lookup_ordered agent_before agents d k

-- Numbering the agents of a group keeps the order in which they are listed, and no agent is lost,
-- added or otherwise changed, when no two agents of the group have one id.
pub normalize_agent_order_reads :
    (agents : List (String × Agent))
    → IsDistinct (keys agents)
    → (ordered_agent_entries (normalize_agent_order agents) ≡ normalize_agent_order agents)
      × (keys (normalize_agent_order agents) ≡ keys (ordered_agent_entries agents))
      × ((k : String)
          → Option.map unplaced_agent (lookup k (normalize_agent_order agents))
            ≡ Option.map unplaced_agent (lookup k agents))
unfolding normalize_agent_order
normalize_agent_order_reads agents d =
    let ordered = ordered_agent_entries agents in
    let distinct : IsDistinct (keys ordered) = ordered_agent_entries-IsDistinct agents d in
    let keys_are = keys-numbered place_agent 0 ordered in
    let same : from_entries (numbered place_agent 0 ordered) ≡ numbered place_agent 0 ordered =
      from_entries_self _ (subst IsDistinct (sym keys_are) distinct) in
    (
      ap ordered_agent_entries same ∙ ordered_agent_entries-numbered ordered ∙ sym same,
      ap keys same ∙ keys_are,
      λ k.
          ap (λ xs. Option.map unplaced_agent (lookup k xs)) same
          ∙ numbered-lookup place_agent unplaced_agent (λ i a. refl) 0 k ordered
          ∙ ap (Option.map unplaced_agent) (lookup-ordered_agent_entries k agents d),
    )
