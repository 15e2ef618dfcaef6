-- ===== src/Topology/Places.antt =====
-- Where the agents are in the groups that `reparentAgent` writes
-- (apps/daemon/src/topology-order-service.ts).
use nanasa.Prelude.{
  String, ◌==◌, eq_iff, Bool, true, false, ◌≡◌, refl, sym, ap, ◌∙◌, subst, Option, none, some, List,
  arith, if◌then◌else◌, IsDistinct, lookup, length, insert, erase, lookup-insert, lookup-erase,
  Bool-cases, inl, inr,
}
use mathlib.Core.Option
use nanasa.Topology.Entries.{Agent, Group, keys, normalize_agent_order}
use nanasa.Topology.Picks.{IsDistinct-erase}
use nanasa.Topology.Reads.{
  unplaced_agent, normalize_agent_order_reads, ordered_agent_entries-IsDistinct,
}
use nanasa.Topology.Lookups.{
  All-insert, IsDistinct-insert, IsWellFormed, agent_in, agent_at, agent_found,
}
use nanasa.Topology.Service.{Groups}

normalize-IsDistinct :
    (agents : List (String × Agent))
    → IsDistinct (keys agents)
    → IsDistinct (keys (normalize_agent_order agents))
normalize-IsDistinct agents d =
    subst IsDistinct (sym (normalize_agent_order_reads agents d).1)
      (ordered_agent_entries-IsDistinct agents d)

if_same {ℓ} : {A : Type ℓ} (b : Bool) (x : A) → x ≡ (if b then x else x)
if_same true x = refl
if_same false x = refl

module _ (source_id target_id agent_id : String) (source target : Group) (agent : Agent)
    (groups : Groups) (source_distinct : IsDistinct (keys source.agents))
    (target_distinct : IsDistinct (keys target.agents)) where
  abbrev pub moved : Agent
  moved = record agent { order = some (length target.agents) }

  abbrev pub source_after : Group
  source_after = record source { agents = normalize_agent_order (erase agent_id source.agents) }

  abbrev pub target_after : Group
  target_after = record target {
    agents = normalize_agent_order (insert agent_id moved target.agents);
  }

  abbrev pub groups_after : Groups
  groups_after = insert target_id target_after (insert source_id source_after groups)

  pub groups_after-IsWellFormed : IsWellFormed groups → IsWellFormed groups_after
  groups_after-IsWellFormed w = (
    IsDistinct-insert target_id target_after _
        (IsDistinct-insert source_id source_after groups w.0),
    All-insert (λ (x : Group). IsDistinct (keys x.agents)) target_id target_after _
        (normalize-IsDistinct _ (IsDistinct-insert agent_id moved target.agents target_distinct))
        (All-insert (λ (x : Group). IsDistinct (keys x.agents)) source_id source_after groups
          (normalize-IsDistinct _ (IsDistinct-erase agent_id source.agents source_distinct)) w.1),
  )

  agent_in-source_after :
      (a : String) → agent_in a source_after ≡ (if agent_id == a then none else agent_in a source)
  agent_in-source_after a =
      (normalize_agent_order_reads (erase agent_id source.agents)
          (IsDistinct-erase agent_id source.agents source_distinct)).2
        a
      ∙ ap (Option.map unplaced_agent) (lookup-erase agent_id a source.agents)
      ∙ elim (Bool-cases (agent_id == a)) [ inl e ↦ rw e refl | inr e ↦ rw e refl ]

  agent_in-target_after :
      (a : String)
      → agent_in a target_after
        ≡ (if agent_id == a then some (unplaced_agent agent) else agent_in a target)
  agent_in-target_after a =
      (normalize_agent_order_reads (insert agent_id moved target.agents)
          (IsDistinct-insert agent_id moved target.agents target_distinct)).2
        a
      ∙ ap (Option.map unplaced_agent) (lookup-insert agent_id a moved target.agents)
      ∙ elim (Bool-cases (agent_id == a)) [ inl e ↦ rw e refl | inr e ↦ rw e refl ]

  -- Where each agent is after the move.
  abbrev pub after_move : String → String → Option (String × String)
  after_move g a =
      if agent_id == a
      then if target_id == g
        then some (unplaced_agent agent)
        else if source_id == g
        then none
        else agent_at g a groups
      else agent_at g a groups

  pub agent_at-groups_after :
      lookup source_id groups ≡ some source
      → lookup target_id groups ≡ some target
      → (g a : String) → agent_at g a groups_after ≡ after_move g a
  agent_at-groups_after s t g a =
      ap (agent_found a) (
        lookup-insert target_id g target_after (insert source_id source_after groups)
        ∙ ap (λ o. if target_id == g then some target_after else o)
            (lookup-insert source_id g source_after groups))
      ∙ elim (Bool-cases (target_id == g)) [
        | inl e ↦
            let here : lookup g groups ≡ some target = ground (arith, eq_iff target_id g) in
            rw e (
              agent_in-target_after a ∙ elim (Bool-cases (agent_id == a)) [
                | inl k ↦ rw k refl
                | inr k ↦ rw k (sym (ap (agent_found a) here))
              ])
        | inr e ↦ rw e (elim (Bool-cases (source_id == g)) [
          | inl f ↦
              let here : lookup g groups ≡ some source = ground (arith, eq_iff source_id g) in
              rw f (
                agent_in-source_after a ∙ elim (Bool-cases (agent_id == a)) [
                  | inl k ↦ rw k refl
                  | inr k ↦ rw k (sym (ap (agent_found a) here))
                ])
          | inr f ↦ rw f (if_same (agent_id == a) (agent_at g a groups))
        ])
      ]
