-- ===== src/Topology/Sorting.antt =====
-- A record whose entries are numbered is in its order (apps/daemon/src/membership-order.ts).
use nanasa.Prelude.{ℕ, suc, String, Bool, true, ◌≡◌, refl, ap, ◌∙◌, List, [], ◌∷◌, arith}
use nanasa.Topology.Entries.{
  Entry, Agent, Group, entries_from, sort_entries, plain_entries, numbered, agent_before,
  group_before, place_agent, place_group, ordered_agent_entries, ordered_group_entries,
}
use nanasa.Topology.Records.{plain-entries_from}

module _ {ℓ} {A : Type ℓ} (before : Entry A → Entry A → Bool) where
  -- Each entry comes before the next.
  abbrev pub IsChain : List (Entry A) → Type 0
  IsChain [] = Unit
  IsChain (x ∷ []) = Unit
  IsChain (x ∷ y ∷ ys) = (before x y ≡ true) × IsChain (y ∷ ys)

  sort_entries_self : (xs : List (Entry A)) → IsChain xs → sort_entries before xs ≡ xs
  unfolding sort_entries
  sort_entries_self [] h = refl
  sort_entries_self (x ∷ []) h = refl
  sort_entries_self (x ∷ y ∷ ys) h = rw (sort_entries_self (y ∷ ys) h.1) (rw h.0 refl)

  -- `f` numbers an entry such that it comes before the next.
  abbrev pub Numbers : (ℕ → A → A) → Type ℓ
  Numbers f =
      (n : ℕ) (i j : String) (a b : A)
      → before (record { source_index = n; id = i; item = f n a })
          (record { source_index = suc n; id = j; item = f (suc n) b })
        ≡ true

  numbered-IsChain :
      (f : ℕ → A → A) (n : ℕ) (xs : List (String × A))
      → Numbers f
      → IsChain (entries_from n (numbered f n xs))
  numbered-IsChain f n [] h = tt
  numbered-IsChain f n (x ∷ []) h = tt
  numbered-IsChain f n ((i, a) ∷ (j, b) ∷ xs) h =
      (h n i j a b, numbered-IsChain f (suc n) ((j, b) ∷ xs) h)

  pub sort-numbered :
      (f : ℕ → A → A) (n : ℕ) (xs : List (String × A))
      → Numbers f
      → plain_entries (sort_entries before (entries_from n (numbered f n xs))) ≡ numbered f n xs
  sort-numbered f n xs h =
      ap plain_entries
        (sort_entries_self (entries_from n (numbered f n xs)) (numbered-IsChain f n xs h))
      ∙ plain-entries_from n (numbered f n xs)

pub place_agent-Numbers : Numbers agent_before place_agent
place_agent-Numbers n i j a b = ground arith

pub place_group-Numbers : Numbers group_before place_group
place_group-Numbers n i j a b = ground arith

pub ordered_agent_entries-numbered :
    (xs : List (String × Agent))
    → ordered_agent_entries (numbered place_agent 0 xs) ≡ numbered place_agent 0 xs
unfolding ordered_agent_entries
ordered_agent_entries-numbered xs = sort-numbered agent_before place_agent 0 xs place_agent-Numbers

pub ordered_group_entries-numbered :
    (xs : List (String × Group))
    → ordered_group_entries (numbered place_group 0 xs) ≡ numbered place_group 0 xs
unfolding ordered_group_entries
ordered_group_entries-numbered xs = sort-numbered group_before place_group 0 xs place_group-Numbers
