-- ===== src/Prelude/Lists.antt =====
-- Lists measured by native numbers, under the library's names, and lists of texts as sets.
use Prim.Native.Nat.{ℕ, zero, suc, ◌+◌, ◌-◌, ◌≤◌}
use Prim.Native.String.{String}
use text.Mathlib.Text.{◌==◌}
use text.Mathlib.TextEquality.{eq_iff}
use mathlib.Core.Path.{◌≡◌, refl}
use mathlib.Core.Bool.{Bool, true, false, ◌||◌}
use mathlib.Core.Option.{Option, none, some}
use mathlib.Core.List.{List, [], ◌∷◌, ◌++◌}
use native.Mathlib.Omega.{arith}
use nanasa.Prelude.Tests.{if◌then◌else◌, Bool-cases}
use mathlib.Core.Logic.{inl, inr}

module _ {ℓ} {A : Type ℓ} where
  abbrev pub length : List A → ℕ
  length [] = 0
  length (x ∷ xs) = suc (length xs)

  abbrev pub drop : ℕ → List A → List A
  drop zero xs = xs
  drop (suc n) [] = []
  drop (suc n) (x ∷ xs) = drop n xs

  abbrev pub take : ℕ → List A → List A
  take zero xs = []
  take (suc n) [] = []
  take (suc n) (x ∷ xs) = x ∷ take n xs

  -- `xs.slice(-n)` at a positive n
  abbrev pub slice_last : ℕ → List A → List A
  slice_last n xs = drop (length xs - n) xs

  -- `xs[0]`
  abbrev pub head? : List A → Option A
  head? [] = none
  head? (x ∷ xs) = some x

  -- `xs.filter(p)`
  abbrev pub keep : (A → Bool) → List A → List A
  keep p [] = []
  keep p (x ∷ xs) = let rest = keep p xs in if p x then x ∷ rest else rest

  -- `xs.some(p)`
  abbrev pub any : (A → Bool) → List A → Bool
  any p [] = false
  any p (x ∷ xs) = p x || any p xs

  -- `xs.find(p)`
  abbrev pub find : (A → Bool) → List A → Option A
  find p [] = none
  find p (x ∷ xs) = if p x then some x else find p xs

  -- `xs.length === 0`
  abbrev pub is_empty : List A → Bool
  is_empty [] = true
  is_empty (x ∷ xs) = false

  abbrev pub All {κ} : (A → Type κ) → List A → Type κ
  All P [] = Unit
  All P (x ∷ xs) = P x × All P xs

  pub length-append : (xs ys : List A) → length (xs ++ ys) ≡ length xs + length ys
  length-append [] ys = omega arith
  length-append (x ∷ xs) ys = omega (arith, length-append xs ys)

  pub length-drop : (n : ℕ) (xs : List A) → length (drop n xs) ≡ length xs - n
  length-drop zero xs = omega arith
  length-drop (suc n) [] = omega arith
  length-drop (suc n) (x ∷ xs) = omega (arith, length-drop n xs)

  pub length-slice_last : (n : ℕ) (xs : List A) → length (slice_last n xs) ≤ n
  length-slice_last n xs = omega (arith, length-drop (length xs - n) xs)

  pub All-keep {κ} : (P : A → Type κ) (p : A → Bool) (xs : List A) → All P xs → All P (keep p xs)
  All-keep P p [] h = tt
  All-keep P p (x ∷ xs) h = ground (arith, All-keep P p xs h.1)

  pub All-append {κ} : (P : A → Type κ) (xs ys : List A) → All P xs → All P ys → All P (xs ++ ys)
  All-append P [] ys h k = k
  All-append P (x ∷ xs) ys h k = (h.0, All-append P xs ys h.1 k)

pub All-imp {ℓ κ μ} :
    {A : Type ℓ} (P : A → Type κ) (Q : A → Type μ) (xs : List A)
    → ((a : A) → P a → Q a)
    → All P xs
    → All Q xs
All-imp P Q [] f h = tt
All-imp P Q (x ∷ xs) f h = (f x h.0, All-imp P Q xs f h.1)

-- `xs.includes(x)`
abbrev pub contains : String → List String → Bool
contains a [] = false
contains a (x ∷ xs) = x == a || contains a xs

-- No text occurs twice.
abbrev pub IsDistinct : List String → Type 0
IsDistinct [] = Unit
IsDistinct (x ∷ xs) = (contains x xs ≡ false) × IsDistinct xs

-- `set.add(a)`, the set in its order of insertion
abbrev pub add_to_set : String → List String → List String
add_to_set a xs = if contains a xs then xs else xs ++ a ∷ []

abbrev pub to_set_from : List String → List String → List String
to_set_from acc [] = acc
to_set_from acc (x ∷ xs) = to_set_from (add_to_set x acc) xs

-- `[...new Set(xs)]`
abbrev pub to_set : List String → List String
to_set = to_set_from []

pub contains-append :
    (a : String) (xs ys : List String) → contains a (xs ++ ys) ≡ (contains a xs || contains a ys)
contains-append a [] ys = refl
contains-append a (x ∷ xs) ys = ground (arith, contains-append a xs ys)

pub IsDistinct-append_one :
    (xs : List String) (a : String)
    → IsDistinct xs
    → contains a xs ≡ false
    → IsDistinct (xs ++ a ∷ [])
IsDistinct-append_one [] a h n = (refl, tt)
IsDistinct-append_one (x ∷ xs) a h n = (
  ground (arith, contains-append x xs (a ∷ []), eq_iff x a, eq_iff a x),
  IsDistinct-append_one xs a h.1 (ground arith),
)

IsDistinct-to_set_from : (acc xs : List String) → IsDistinct acc → IsDistinct (to_set_from acc xs)
IsDistinct-to_set_from acc [] h = h
IsDistinct-to_set_from acc (x ∷ xs) h =
    IsDistinct-to_set_from (add_to_set x acc) xs (elim (Bool-cases (contains x acc)) [
      | inl e ↦ rw e h
      | inr e ↦ rw e (IsDistinct-append_one acc x h e)
    ])

pub IsDistinct-to_set : (xs : List String) → IsDistinct (to_set xs)
IsDistinct-to_set xs = IsDistinct-to_set_from [] xs tt

-- `xs.map(f)`, for the names of a list's items.
module _ {ℓ} {A : Type ℓ} (name : A → String) where
  abbrev pub names : List A → List String
  names [] = []
  names (x ∷ xs) = name x ∷ names xs

  pub contains-names-keep :
      (p : A → Bool) (a : String) (xs : List A)
      → contains a (names xs) ≡ false
      → contains a (names (keep p xs)) ≡ false
  contains-names-keep p a [] h = refl
  contains-names-keep p a (x ∷ xs) h = ground (arith, contains-names-keep p a xs)

  pub IsDistinct-names-keep :
      (p : A → Bool) (xs : List A) → IsDistinct (names xs) → IsDistinct (names (keep p xs))
  IsDistinct-names-keep p [] h = tt
  IsDistinct-names-keep p (x ∷ xs) h = elim (Bool-cases (p x)) [
    | inl e ↦ rw e (contains-names-keep p (name x) xs h.0, IsDistinct-names-keep p xs h.1)
    | inr e ↦ rw e (IsDistinct-names-keep p xs h.1)
  ]

  pub names-append : (xs ys : List A) → names (xs ++ ys) ≡ names xs ++ names ys
  names-append [] ys = refl
  names-append (x ∷ xs) ys = rw (names-append xs ys)

pub IsDistinct-keep :
    (p : String → Bool) (xs : List String) → IsDistinct xs → IsDistinct (keep p xs)
IsDistinct-keep p xs h =
    rw (names_self (keep p xs)) at
      (IsDistinct-names-keep (λ (s : String). s) p xs (rw (← names_self xs) at h))
  where
    names_self : (xs : List String) → names (λ (s : String). s) xs ≡ xs
    names_self [] = refl
    names_self (x ∷ xs) = rw (names_self xs)
