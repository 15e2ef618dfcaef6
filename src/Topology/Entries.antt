-- ===== src/Topology/Entries.antt =====
-- `orderedAgentEntries` and `normalizeAgentOrder` (apps/daemon/src/membership-order.ts),
-- `orderedGroupEntries` and `normalizeGroupOrder` (apps/daemon/src/topology-order-service.ts). A
-- record of the configuration is the list of its entries, no id twice; ids that JavaScript takes for
-- array indices, and lists first, are left out. The settings of an agent or a group that these
-- functions only copy are one text.
use nanasa.Prelude.{
  ℕ, suc, String, Bool, true, false, Option, none, some, List, [], ◌∷◌, if◌then◌else◌, ltb, nat_eq,
  ◌&&◌, ◌||◌, or_else, insert,
}

-- ConfiguredAgent
pub record Agent : Type 0 where
  pub member_id : String
  pub settings : String
  pub order : Option ℕ

-- ConfiguredGroup
pub record Group : Type 0 where
  pub settings : String
  pub order : Option ℕ
  pub agents : List (String × Agent)

-- An entry with its place in the source.
pub record Entry {ℓ} (A : Type ℓ) : Type ℓ where
  pub source_index : ℕ
  pub id : String
  pub item : A

module _ {ℓ} {A : Type ℓ} where
  abbrev pub entries_from : ℕ → List (String × A) → List (Entry A)
  entries_from n [] = []
  entries_from n ((id, item) ∷ xs) =
      record { source_index = n; id = id; item = item } ∷ entries_from (suc n) xs

  -- `sort` with a comparison that never finds two entries equal, since their places differ
  unfoldable pub insert_entry :
      (Entry A → Entry A → Bool) → Entry A → List (Entry A) → List (Entry A)
  insert_entry before x [] = x ∷ []
  insert_entry before x (y ∷ ys) =
      let later = insert_entry before x ys in if before x y then x ∷ y ∷ ys else y ∷ later

  unfoldable pub sort_entries : (Entry A → Entry A → Bool) → List (Entry A) → List (Entry A)
  unfolding insert_entry
  sort_entries before [] = []
  sort_entries before (x ∷ xs) = insert_entry before x (sort_entries before xs)

  abbrev pub plain_entries : List (Entry A) → List (String × A)
  plain_entries [] = []
  plain_entries (x ∷ xs) = (x.id, x.item) ∷ plain_entries xs

  -- `Object.fromEntries`: of two entries with one id the later gives the value
  abbrev pub from_entries_from : List (String × A) → List (String × A) → List (String × A)
  from_entries_from made [] = made
  from_entries_from made ((id, item) ∷ xs) = from_entries_from (insert id item made) xs

  abbrev pub from_entries : List (String × A) → List (String × A)
  from_entries = from_entries_from []

  -- `Object.keys`
  abbrev pub keys : List (String × A) → List String
  keys [] = []
  keys ((id, item) ∷ xs) = id ∷ keys xs

  -- `map((…, order) => …)`
  abbrev pub numbered : (ℕ → A → A) → ℕ → List (String × A) → List (String × A)
  numbered f n [] = []
  numbered f n ((id, item) ∷ xs) = (id, f n item) ∷ numbered f (suc n) xs

abbrev pub lex_before : ℕ → ℕ → ℕ → ℕ → Bool
lex_before a b i j = ltb a b || (nat_eq a b && ltb i j)

-- The sign of the comparison of two agents, by their orders and places.
abbrev pub order_before : Option ℕ → Option ℕ → ℕ → ℕ → Bool
order_before (some a) (some b) i j = lex_before a b i j
order_before (some a) none i j = true
order_before none (some b) i j = false
order_before none none i j = ltb i j

abbrev pub agent_before : Entry Agent → Entry Agent → Bool
agent_before x y = order_before x.item.order y.item.order x.source_index y.source_index

abbrev pub group_before : Entry Group → Entry Group → Bool
group_before x y =
    lex_before (or_else x.item.order x.source_index) (or_else y.item.order y.source_index)
      x.source_index y.source_index

-- `orderedAgentEntries`
unfoldable pub ordered_agent_entries : List (String × Agent) → List (String × Agent)
unfolding sort_entries
ordered_agent_entries agents = plain_entries (sort_entries agent_before (entries_from 0 agents))

abbrev pub place_agent : ℕ → Agent → Agent
place_agent n agent = record agent { order = some n }

-- `normalizeAgentOrder`
unfoldable pub normalize_agent_order : List (String × Agent) → List (String × Agent)
unfolding ordered_agent_entries
normalize_agent_order agents = from_entries (numbered place_agent 0 (ordered_agent_entries agents))

-- `orderedGroupEntries`
unfoldable pub ordered_group_entries : List (String × Group) → List (String × Group)
unfolding sort_entries
ordered_group_entries groups = plain_entries (sort_entries group_before (entries_from 0 groups))

abbrev pub place_group : ℕ → Group → Group
place_group n group = record group { order = some n }

abbrev pub normalize_group : ℕ → Group → Group
normalize_group n group = record group {
  order = some n;
  agents = normalize_agent_order group.agents;
}

-- `normalizeGroupOrder`
unfoldable pub normalize_group_order : List (String × Group) → List (String × Group)
unfolding ordered_group_entries normalize_agent_order
normalize_group_order groups =
    from_entries (numbered normalize_group 0 (ordered_group_entries groups))
