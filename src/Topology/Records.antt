-- ===== src/Topology/Records.antt =====
-- Records of the configuration as lists of entries: sorting and numbering keep what an id finds.
use nanasa.Prelude.{
  ℕ, suc, String, ◌==◌, eq_iff, Bool, false, ◌||◌, ◌≡◌, refl, sym, ap, ◌∙◌, subst, some, List, [],
  ◌∷◌, ◌++◌, arith, if◌then◌else◌, contains, contains-append, IsDistinct, lookup, insert,
  Bool-cases, inl, inr, All,
}
use mathlib.Core.List.{append-nil, append_assoc}
use mathlib.Core.Option
use nanasa.Topology.Entries.{
  Entry, entries_from, insert_entry, sort_entries, plain_entries, from_entries_from, from_entries,
  numbered, keys,
}

IsDistinct-middle :
    (xs : List String) (k : String) (ys : List String)
    → IsDistinct (xs ++ k ∷ ys)
    → contains k xs ≡ false
IsDistinct-middle [] k ys h = refl
IsDistinct-middle (x ∷ xs) k ys h =
    ground
      (arith, IsDistinct-middle xs k ys h.1, contains-append x xs (k ∷ ys), eq_iff x k, eq_iff k x)

module _ {ℓ} {A : Type ℓ} where
  abbrev pub ids : List (Entry A) → List String
  ids xs = keys (plain_entries xs)

  contains-insert_entry :
      (before : Entry A → Entry A → Bool) (k : String) (x : Entry A) (ys : List (Entry A))
      → contains k (ids (insert_entry before x ys)) ≡ (x.id == k || contains k (ids ys))
  unfolding insert_entry
  contains-insert_entry before k x [] = refl
  contains-insert_entry before k x (y ∷ ys) = elim (Bool-cases (before x y)) [
    | inl e ↦ rw e refl
    | inr e ↦ rw e (ground (arith, contains-insert_entry before k x ys))
  ]

  IsDistinct-insert_entry :
      (before : Entry A → Entry A → Bool) (x : Entry A) (ys : List (Entry A))
      → contains x.id (ids ys) ≡ false
      → IsDistinct (ids ys)
      → IsDistinct (ids (insert_entry before x ys))
  unfolding insert_entry
  IsDistinct-insert_entry before x [] h k = (refl, tt)
  IsDistinct-insert_entry before x (y ∷ ys) h k = elim (Bool-cases (before x y)) [
    | inl e ↦ rw e (h, k)
    | inr e ↦ rw e (
      ground (arith, contains-insert_entry before y.id x ys, eq_iff x.id y.id, eq_iff y.id x.id),
      IsDistinct-insert_entry before x ys (ground arith) k.1,
    )
  ]

  lookup-insert_entry :
      (before : Entry A → Entry A → Bool) (k : String) (x : Entry A) (ys : List (Entry A))
      → contains x.id (ids ys) ≡ false
      → lookup k (plain_entries (insert_entry before x ys))
        ≡ (if x.id == k then some x.item else lookup k (plain_entries ys))
  unfolding insert_entry
  lookup-insert_entry before k x [] h = refl
  lookup-insert_entry before k x (y ∷ ys) h = elim (Bool-cases (before x y)) [
    | inl e ↦ rw e refl
    | inr e ↦ rw e (
        ground (
          arith,
          lookup-insert_entry before k x ys,
          eq_iff x.id k,
          eq_iff y.id k,
          eq_iff y.id x.id,
        ))
  ]

  contains-sort_entries :
      (before : Entry A → Entry A → Bool) (k : String) (xs : List (Entry A))
      → contains k (ids (sort_entries before xs)) ≡ contains k (ids xs)
  unfolding sort_entries
  contains-sort_entries before k [] = refl
  contains-sort_entries before k (x ∷ xs) = ground (
    arith,
    contains-insert_entry before k x (sort_entries before xs),
    contains-sort_entries before k xs,
  )

  pub IsDistinct-sort_entries :
      (before : Entry A → Entry A → Bool) (xs : List (Entry A))
      → IsDistinct (ids xs)
      → IsDistinct (ids (sort_entries before xs))
  unfolding sort_entries
  IsDistinct-sort_entries before [] h = tt
  IsDistinct-sort_entries before (x ∷ xs) h =
      IsDistinct-insert_entry before x (sort_entries before xs)
        (contains-sort_entries before x.id xs ∙ h.0) (IsDistinct-sort_entries before xs h.1)

  pub lookup-sort_entries :
      (before : Entry A → Entry A → Bool) (k : String) (xs : List (Entry A))
      → IsDistinct (ids xs)
      → lookup k (plain_entries (sort_entries before xs)) ≡ lookup k (plain_entries xs)
  unfolding sort_entries
  lookup-sort_entries before k [] h = refl
  lookup-sort_entries before k (x ∷ xs) h = ground (
    arith,
    lookup-insert_entry before k x (sort_entries before xs),
    contains-sort_entries before x.id xs,
    lookup-sort_entries before k xs h.1,
  )

  pub plain-entries_from : (n : ℕ) (xs : List (String × A)) → plain_entries (entries_from n xs) ≡ xs
  plain-entries_from n [] = refl
  plain-entries_from n ((k, v) ∷ xs) = ap (◌∷◌ (k, v)) (plain-entries_from (suc n) xs)

  keys-append : (xs ys : List (String × A)) → keys (xs ++ ys) ≡ keys xs ++ keys ys
  keys-append [] ys = refl
  keys-append ((k, v) ∷ xs) ys = ap (◌∷◌ k) (keys-append xs ys)

  insert_new :
      (k : String) (v : A) (m : List (String × A))
      → contains k (keys m) ≡ false
      → insert k v m ≡ m ++ (k, v) ∷ []
  insert_new k v [] h = refl
  insert_new k v ((j, w) ∷ m) h = ground (arith, insert_new k v m)

  from_entries_from_self :
      (made xs : List (String × A))
      → IsDistinct (keys made ++ keys xs)
      → from_entries_from made xs ≡ made ++ xs
  from_entries_from_self made [] h = sym (append-nil made)
  from_entries_from_self made ((k, v) ∷ xs) h =
      rw (insert_new k v made (IsDistinct-middle (keys made) k (keys xs) h)) (
        from_entries_from_self (made ++ (k, v) ∷ []) xs (simp (keys-append, append_assoc) h)
        ∙ append_assoc made ((k, v) ∷ []) xs)

  -- No id twice: the record is its list of entries.
  pub from_entries_self : (xs : List (String × A)) → IsDistinct (keys xs) → from_entries xs ≡ xs
  from_entries_self xs h = from_entries_from_self [] xs h

  pub keys-numbered :
      (f : ℕ → A → A) (n : ℕ) (xs : List (String × A)) → keys (numbered f n xs) ≡ keys xs
  keys-numbered f n [] = refl
  keys-numbered f n ((k, v) ∷ xs) = ap (◌∷◌ k) (keys-numbered f (suc n) xs)

  pub lookup-numbered {κ} :
      {B : Type κ} (p : A → B) (f : ℕ → A → A) (n : ℕ) (k : String) (xs : List (String × A))
      → All (λ e. (i : ℕ) → p (f i e.1) ≡ p e.1) xs
      → Option.map p (lookup k (numbered f n xs)) ≡ Option.map p (lookup k xs)
  lookup-numbered p f n k [] h = refl
  lookup-numbered p f n k ((j, v) ∷ xs) h = elim (Bool-cases (j == k)) [
    | inl e ↦ rw e (ap some (h.0 n))
    | inr e ↦ rw e (lookup-numbered p f (suc n) k xs h.1)
  ]

-- In terms of the records: sorting the entries of a record by any comparison.
module _ {ℓ} {A : Type ℓ} (before : Entry A → Entry A → Bool) (xs : List (String × A))
    (d : IsDistinct (keys xs)) where
  ids_are : IsDistinct (keys (plain_entries (entries_from 0 xs)))
  ids_are = subst (λ ys. IsDistinct (keys ys)) (sym (plain-entries_from 0 xs)) d

  pub IsDistinct-ordered :
      IsDistinct (keys (plain_entries (sort_entries before (entries_from 0 xs))))
  IsDistinct-ordered = IsDistinct-sort_entries before (entries_from 0 xs) ids_are

  pub lookup_ordered :
      (k : String)
      → lookup k (plain_entries (sort_entries before (entries_from 0 xs))) ≡ lookup k xs
  lookup_ordered k =
      lookup-sort_entries before k (entries_from 0 xs) ids_are
      ∙ ap (lookup k) (plain-entries_from 0 xs)
