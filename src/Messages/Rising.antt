-- ===== src/Messages/Rising.antt =====
-- Lists of messages whose numbers rise within a group (the table `messages` of
-- apps/daemon/src/persistence/schema.ts).
use nanasa.Prelude.{
  ℕ, ◌+◌, ◌≤◌, ◌<◌, String, Bool, true, false, ◌≡◌, List, [], ◌∷◌, ◌++◌, map, arith, if◌then◌else◌,
  keep, Bool-cases, inl, inr,
}
use nanasa.Messages.Types.{Message}
use nanasa.Messages.Store.{in_group, without_references}

-- The numbers of the group's messages rise from above `low` to `high` at most.
abbrev pub Rises : String → ℕ → ℕ → List Message → Type 0
Rises group_id low high [] = low ≤ high
Rises group_id low high (m ∷ ms) =
    if in_group group_id m
    then (low < m.group_seq) × Rises group_id m.group_seq high ms
    else Rises group_id low high ms

pub Rises-le :
    (group_id : String) (low high : ℕ) (ms : List Message) → Rises group_id low high ms → low ≤ high
Rises-le group_id low high [] h = h
Rises-le group_id low high (m ∷ ms) h = elim (Bool-cases (in_group group_id m)) [
  | inl e ↦ let k = rw e at h in omega (arith, Rises-le group_id m.group_seq high ms k.1)
  | inr e ↦ Rises-le group_id low high ms (rw e at h)
]

pub Rises-lower :
    (group_id : String) (low low' high : ℕ) (ms : List Message)
    → low' ≤ low
    → Rises group_id low high ms
    → Rises group_id low' high ms
Rises-lower group_id low low' high [] l h = omega arith
Rises-lower group_id low low' high (m ∷ ms) l h = elim (Bool-cases (in_group group_id m)) [
  | inl e ↦ let k = rw e at h in rw e (omega arith, k.1)
  | inr e ↦ rw e (Rises-lower group_id low low' high ms l (rw e at h))
]

pub Rises-keep :
    (group_id : String) (low high : ℕ) (p : Message → Bool) (ms : List Message)
    → Rises group_id low high ms
    → Rises group_id low high (keep p ms)
Rises-keep group_id low high p [] h = h
Rises-keep group_id low high p (m ∷ ms) h = elim (Bool-cases (in_group group_id m)) [
  | inl e ↦
      let k = rw e at h in
      elim (Bool-cases (p m)) [
        | inl f ↦ rw f (rw e (k.0, Rises-keep group_id m.group_seq high p ms k.1))
        | inr f ↦ rw f (
            Rises-lower group_id m.group_seq low high (keep p ms) (omega (arith, k.0))
              (Rises-keep group_id m.group_seq high p ms k.1))
      ]
  | inr e ↦
      let k = Rises-keep group_id low high p ms (rw e at h) in
      elim (Bool-cases (p m)) [ inl f ↦ rw f (rw e k) | inr f ↦ rw f k ]
]

pub Rises-map :
    (group_id : String) (low high : ℕ) (ids : List String) (ms : List Message)
    → Rises group_id low high ms
    → Rises group_id low high (map (without_references ids) ms)
Rises-map group_id low high ids [] h = h
Rises-map group_id low high ids (m ∷ ms) h = elim (Bool-cases (in_group group_id m)) [
  | inl e ↦ let k = rw e at h in rw e (k.0, Rises-map group_id m.group_seq high ids ms k.1)
  | inr e ↦ rw e (Rises-map group_id low high ids ms (rw e at h))
]

-- The next number goes to the end.
pub Rises-append_next :
    (group_id : String) (low high : ℕ) (ms : List Message) (m : Message)
    → Rises group_id low high ms
    → in_group group_id m ≡ true
    → m.group_seq ≡ high + 1
    → Rises group_id low (high + 1) (ms ++ m ∷ [])
Rises-append_next group_id low high [] m h e s = rw e (omega arith, omega arith)
Rises-append_next group_id low high (n ∷ ms) m h e s = elim (Bool-cases (in_group group_id n)) [
  | inl f ↦
      let k = rw f at h in rw f (k.0, Rises-append_next group_id n.group_seq high ms m k.1 e s)
  | inr f ↦ rw f (Rises-append_next group_id low high ms m (rw f at h) e s)
]

pub Rises-append_other :
    (group_id : String) (low high : ℕ) (ms : List Message) (m : Message)
    → Rises group_id low high ms
    → in_group group_id m ≡ false
    → Rises group_id low high (ms ++ m ∷ [])
Rises-append_other group_id low high [] m h e = rw e h
Rises-append_other group_id low high (n ∷ ms) m h e = elim (Bool-cases (in_group group_id n)) [
  | inl f ↦ let k = rw f at h in rw f (k.0, Rises-append_other group_id n.group_seq high ms m k.1 e)
  | inr f ↦ rw f (Rises-append_other group_id low high ms m (rw f at h) e)
]
