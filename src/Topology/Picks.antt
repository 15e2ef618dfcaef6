-- ===== src/Topology/Picks.antt =====
-- The entries that a list of ids picks from a record (`reorderGroups` and `reorderAgents` of
-- apps/daemon/src/topology-order-service.ts).
use nanasa.Prelude.{
  ℕ, suc, String, ◌==◌, eq_iff, true, false, ◌≡◌, refl, sym, ap, ◌∙◌, subst, none, List, [], ◌∷◌,
  arith, if◌then◌else◌, any, length, contains, IsDistinct, lookup, erase, lookup-erase, Bool-cases,
  inl, inr, All,
}
use mathlib.Core.Option
use nanasa.Topology.Entries.{from_entries, numbered, keys}
use nanasa.Topology.Records.{from_entries_self, keys-numbered, lookup-numbered}
use nanasa.Topology.Service.{pick, is_missing, is_reordering}

module _ {ℓ} {A : Type ℓ} where
  pub contains-erase :
      (k j : String) (m : List (String × A))
      → contains j (keys (erase k m)) ≡ (if k == j then false else contains j (keys m))
  contains-erase k j [] = ground arith
  contains-erase k j ((i, v) ∷ m) =
      ground (arith, contains-erase k j m, eq_iff i k, eq_iff i j, eq_iff k j)

  pub IsDistinct-erase :
      (k : String) (m : List (String × A)) → IsDistinct (keys m) → IsDistinct (keys (erase k m))
  IsDistinct-erase k [] h = tt
  IsDistinct-erase k ((i, v) ∷ m) h = elim (Bool-cases (i == k)) [
    | inl e ↦ rw e (IsDistinct-erase k m h.1)
    | inr e ↦ rw e (ground (arith, contains-erase k i m), IsDistinct-erase k m h.1)
  ]

  erase_none : (k : String) (m : List (String × A)) → contains k (keys m) ≡ false → erase k m ≡ m
  erase_none k [] h = refl
  erase_none k ((i, v) ∷ m) h = ground (arith, erase_none k m)

  length-erase :
      (k : String) (m : List (String × A))
      → IsDistinct (keys m)
      → is_missing m k ≡ false
      → length m ≡ suc (length (erase k m))
  length-erase k [] d h = cc
  length-erase k ((i, v) ∷ m) d h = elim (Bool-cases (i == k)) [
    | inl e ↦ rw e (ap suc (ap length (sym (erase_none k m (ground (arith, eq_iff i k))))))
    | inr e ↦ rw e (ap suc (length-erase k m d.1 (ground arith)))
  ]

  missing-erase :
      (k : String) (ids : List String) (m : List (String × A))
      → contains k ids ≡ false
      → any (is_missing (erase k m)) ids ≡ any (is_missing m) ids
  missing-erase k [] m h = refl
  missing-erase k (i ∷ ids) m h =
      ground (arith, missing-erase k ids m, lookup-erase k i m, eq_iff i k, eq_iff k i)

  -- As many distinct ids as entries, each of an entry: all of them.
  pub covers :
      (k : String) (ids : List String) (m : List (String × A))
      → IsDistinct ids
      → IsDistinct (keys m)
      → any (is_missing m) ids ≡ false
      → length ids ≡ length m
      → contains k (keys m) ≡ true
      → contains k ids ≡ true
  covers k [] [] d e a l h = h
  covers k [] (x ∷ m) d e a l h = absurd (omega arith)
  covers k (i ∷ ids) m d e a l h = elim (Bool-cases (i == k)) [
    | inl s ↦ rw s refl
    | inr s ↦ rw s (
        covers k ids (erase i m) d.1 (IsDistinct-erase i m e)
          (missing-erase i ids m d.0 ∙ ground arith)
          (omega (arith, length-erase i m e (ground arith))) (ground (arith, contains-erase i k m)))
  ]

  pub keys-pick :
      (ids : List String) (m : List (String × A))
      → any (is_missing m) ids ≡ false
      → keys (pick ids m) ≡ ids
  unfolding pick
  keys-pick [] m h = refl
  keys-pick (i ∷ ids) m h = ground (arith, keys-pick ids m)

  pub lookup-pick :
      (k : String) (ids : List String) (m : List (String × A))
      → any (is_missing m) ids ≡ false
      → lookup k (pick ids m) ≡ (if contains k ids then lookup k m else none)
  unfolding pick
  lookup-pick k [] m h = refl
  lookup-pick k (i ∷ ids) m h = ground (arith, lookup-pick k ids m, eq_iff i k)

  pub lookup_none :
      (k : String) (m : List (String × A)) → contains k (keys m) ≡ false → lookup k m ≡ none
  lookup_none k [] h = refl
  lookup_none k ((i, v) ∷ m) h = ground (arith, lookup_none k m)

All-pure {ℓ κ} : {A : Type ℓ} (P : A → Type κ) → ((a : A) → P a) → (xs : List A) → All P xs
All-pure P h [] = tt
All-pure P h (x ∷ xs) = (h x, All-pure P h xs)

-- `p` reads what numbering an entry leaves.
module _ {ℓ κ} {A : Type ℓ} {B : Type κ} (f : ℕ → A → A) (p : A → B)
    (kept : (i : ℕ) (a : A) → p (f i a) ≡ p a) where
  pub numbered-lookup :
      (n : ℕ) (k : String) (xs : List (String × A))
      → Option.map p (lookup k (numbered f n xs)) ≡ Option.map p (lookup k xs)
  numbered-lookup n k xs =
      lookup-numbered p f n k xs
        (All-pure (λ (e : String × A). (i : ℕ) → p (f i e.1) ≡ p e.1) (λ e i. kept i e.1) xs)

  pub renumbered :
      (ids : List String) (m : List (String × A))
      → IsDistinct ids
      → IsDistinct (keys m)
      → is_reordering ids m ≡ true
      → (from_entries (numbered f 0 (pick ids m)) ≡ numbered f 0 (pick ids m))
        × (keys (numbered f 0 (pick ids m)) ≡ ids)
        × ((k : String)
            → Option.map p (lookup k (numbered f 0 (pick ids m))) ≡ Option.map p (lookup k m))
  unfolding is_reordering
  renumbered ids m d e h = (
    from_entries_self (numbered f 0 (pick ids m)) (subst IsDistinct (sym keys_are) d),
    keys_are,
    same_entry,
  )
    where
      known : any (is_missing m) ids ≡ false
      known = ground arith

      as_many : length ids ≡ length m
      as_many = ground arith

      keys_are : keys (numbered f 0 (pick ids m)) ≡ ids
      keys_are = keys-numbered f 0 (pick ids m) ∙ keys-pick ids m known

      same_entry :
          (k : String)
          → Option.map p (lookup k (numbered f 0 (pick ids m))) ≡ Option.map p (lookup k m)
      same_entry k =
          numbered-lookup 0 k (pick ids m)
          ∙ ap (Option.map p) (elim (Bool-cases (contains k ids)) [
            | inl e' ↦ lookup-pick k ids m known ∙ rw e' refl
            | inr e' ↦
                lookup-pick k ids m known
                ∙ rw e' (elim (Bool-cases (contains k (keys m))) [
                  | inl e2 ↦ ground (arith, covers k ids m d e known as_many e2)
                  | inr e2 ↦ sym (lookup_none k m e2)
                ])
          ])
