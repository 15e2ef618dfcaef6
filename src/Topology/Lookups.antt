-- ===== src/Topology/Lookups.antt =====
-- Which agent an id finds in a group, under writes and numbering (`normalizeGroupOrder` of
-- apps/daemon/src/topology-order-service.ts).
use nanasa.Prelude.{
  ℕ, suc, String, ◌==◌, eq_iff, ◌||◌, ◌≡◌, refl, sym, ap, ◌∙◌, subst, Option, none, some, List, [],
  ◌∷◌, arith, contains, IsDistinct, lookup, insert, Bool-cases, Option-cases, inl, inr, All,
}
use mathlib.Core.Option
use nanasa.Topology.Entries.{
  Group, numbered, normalize_group, group_before, keys, normalize_group_order,
  ordered_group_entries,
}
use nanasa.Topology.Records.{from_entries_self, keys-numbered, IsDistinct-ordered, lookup_ordered}
use nanasa.Topology.Reads.{unplaced_agent, normalize_agent_order_reads}
use nanasa.Topology.Service.{Groups}

module _ {ℓ} {A : Type ℓ} where
  pub All-lookup {κ} :
      (P : A → Type κ) (k : String) (m : List (String × A)) (v : A)
      → All (λ e. P e.1) m
      → lookup k m ≡ some v
      → P v
  All-lookup P k [] v h e = absurd (cc)
  All-lookup P k ((j, w) ∷ m) v h e = elim (Bool-cases (j == k)) [
    | inl s ↦ subst P (ground arith) h.0
    | inr s ↦ All-lookup P k m v h.1 (ground arith)
  ]

  pub All-insert {κ} :
      (P : A → Type κ) (k : String) (v : A) (m : List (String × A))
      → P v
      → All (λ e. P e.1) m
      → All (λ e. P e.1) (insert k v m)
  All-insert P k v [] p h = (p, tt)
  All-insert P k v ((j, w) ∷ m) p h = elim (Bool-cases (j == k)) [
    | inl s ↦ rw s (p, h.1)
    | inr s ↦ rw s (h.0, All-insert P k v m p h.1)
  ]

  contains-insert :
      (j k : String) (v : A) (m : List (String × A))
      → contains j (keys (insert k v m)) ≡ (k == j || contains j (keys m))
  contains-insert j k v [] = refl
  contains-insert j k v ((i, w) ∷ m) = ground (arith, contains-insert j k v m, eq_iff i k)

  pub IsDistinct-insert :
      (k : String) (v : A) (m : List (String × A))
      → IsDistinct (keys m)
      → IsDistinct (keys (insert k v m))
  IsDistinct-insert k v [] h = (refl, tt)
  IsDistinct-insert k v ((i, w) ∷ m) h = elim (Bool-cases (i == k)) [
    | inl s ↦ rw s h
    | inr s ↦ rw s (
      ground (arith, contains-insert i k v m, eq_iff i k, eq_iff k i),
      IsDistinct-insert k v m h.1,
    )
  ]

  -- Numbering an entry leaves it where it is found.
  numbered-found :
      (f : ℕ → A → A) (n : ℕ) (k : String) (m : List (String × A)) (v : A)
      → lookup k m ≡ some v
      → (i : ℕ) × (lookup k (numbered f n m) ≡ some (f i v))
  numbered-found f n k [] v e = absurd (cc)
  numbered-found f n k ((j, w) ∷ m) v e = elim (Bool-cases (j == k)) [
    | inl s ↦ (n, rw s (ground arith))
    | inr s ↦ let (i, found) = numbered-found f (suc n) k m v (ground arith) in (i, rw s found)
  ]

  numbered-none :
      (f : ℕ → A → A) (n : ℕ) (k : String) (m : List (String × A))
      → lookup k m ≡ none
      → lookup k (numbered f n m) ≡ none
  numbered-none f n k [] e = refl
  numbered-none f n k ((j, w) ∷ m) e = ground (arith, numbered-none f (suc n) k m)

-- No id twice, of the groups and of the agents of each group.
abbrev pub IsWellFormed : Groups → Type 0
IsWellFormed groups = IsDistinct (keys groups) × All (λ e. IsDistinct (keys e.1.agents)) groups

-- The agent of an id in a group, but for its place.
abbrev pub agent_in : String → Group → Option (String × String)
agent_in a group = Option.map unplaced_agent (lookup a group.agents)

abbrev pub agent_found : String → Option Group → Option (String × String)
agent_found a none = none
agent_found a (some group) = agent_in a group

abbrev pub agent_at : String → String → Groups → Option (String × String)
agent_at g a groups = agent_found a (lookup g groups)

normalize_group_order_lem :
    (groups : Groups)
    → IsDistinct (keys groups)
    → normalize_group_order groups ≡ numbered normalize_group 0 (ordered_group_entries groups)
unfolding normalize_group_order ordered_group_entries
normalize_group_order_lem groups d = from_entries_self _ (
    subst IsDistinct (sym (keys-numbered normalize_group 0 (ordered_group_entries groups)))
      (IsDistinct-ordered group_before groups d))

lookup-ordered_group_entries :
    (k : String) (groups : Groups)
    → IsDistinct (keys groups)
    → lookup k (ordered_group_entries groups) ≡ lookup k groups
unfolding ordered_group_entries
lookup-ordered_group_entries k groups d = lookup_ordered group_before groups d k

pub agent_at-normalize_group_order :
    (g a : String) (groups : Groups)
    → IsWellFormed groups
    → agent_at g a (normalize_group_order groups) ≡ agent_at g a groups
agent_at-normalize_group_order g a groups w =
    ap (λ gs. agent_at g a gs) (normalize_group_order_lem groups w.0)
    ∙ elim (Option-cases (lookup g groups)) [
      | inl e ↦ ap (agent_found a) (
          numbered-none normalize_group 0 g (ordered_group_entries groups)
            (lookup-ordered_group_entries g groups w.0 ∙ e)
          ∙ sym e)
      | inr (group, e) ↦
          let (i, found) =
            numbered-found normalize_group 0 g (ordered_group_entries groups) group
              (lookup-ordered_group_entries g groups w.0 ∙ e) in
          ap (agent_found a) found
          ∙ (normalize_agent_order_reads group.agents
                (All-lookup (λ (x : Group). IsDistinct (keys x.agents)) g groups group w.1 e)).2
              a
          ∙ sym (ap (agent_found a) e)
    ]
