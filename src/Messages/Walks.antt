-- ===== src/Messages/Walks.antt =====
-- The walk up a causal chain ends (`#deriveMessageCausation` of apps/daemon/src/store.ts).
use nanasa.Prelude.{
  ℕ, zero, suc, ◌≤◌, ◌<◌, String, ◌==◌, eq_refl, false, not, ◌≡◌, ◌≢◌, refl, Option, none, some,
  List, [], ◌∷◌, arith, keep, contains, length, or_option, Bool-cases, Option-cases, inl, inr,
}
use nanasa.Delivery.Types.{Delivery}
use nanasa.Messages.Types.{Message, find_message}
use nanasa.Messages.Audiences.{sort_texts}
use nanasa.Messages.Causation.{Walk, walk, next_cursor, signature_of, recipients_of}

-- The messages that the walk has not visited.
abbrev unvisited : List String → List Message → ℕ
unvisited visited ms = length (keep (λ m. not (contains m.id visited)) ms)

unvisited-le :
    (visited : List String) (id : String) (ms : List Message)
    → unvisited (id ∷ visited) ms ≤ unvisited visited ms
unvisited-le visited id [] = omega arith
unvisited-le visited id (m ∷ ms) = ground (arith, unvisited-le visited id ms)

unvisited-lt :
    (visited : List String) (m : Message) (id : String) (ms : List Message)
    → find_message id ms ≡ some m
    → contains m.id visited ≡ false
    → unvisited (m.id ∷ visited) ms < unvisited visited ms
unfolding find_message
unvisited-lt visited m id [] found new = absurd (cc)
unvisited-lt visited m id (n ∷ ms) found new = elim (Bool-cases (n.id == id)) [
  | inl e ↦
      let same : n ≡ m = ground arith in
      ground (arith, unvisited-le visited m.id ms, same, eq_refl m.id)
  | inr e ↦
      let rest = unvisited-lt visited m id ms (rw e at found) new in
      elim (Bool-cases (contains n.id visited)) [
        | inl k ↦ ground arith
        | inr k ↦ ground (arith, unvisited-le visited m.id (n ∷ []))
      ]
]

unvisited_all : (ms : List Message) → unvisited [] ms ≡ length ms
unvisited_all [] = refl
unvisited_all (m ∷ ms) = omega (arith, unvisited_all ms)

-- The cursor is a message of the table, or none.
abbrev pub IsRow : List Message → Option Message → Type 0
IsRow ms none = Unit
IsRow ms (some m) = (id : String) × (find_message id ms ≡ some m)

next_cursor-IsRow : (ms : List Message) (o : Option String) → IsRow ms (next_cursor ms o)
next_cursor-IsRow ms none = tt
next_cursor-IsRow ms (some id) = elim (Option-cases (find_message id ms)) [
  | inl e ↦ rw e tt
  | inr (m, e) ↦ rw e (id, e)
]

walk_fuelled :
    (ms : List Message) (deliveries : List Delivery) (signature : String) (fuel : ℕ)
    (visited : List String) (cursor : Option Message)
    → IsRow ms cursor
    → unvisited visited ms < fuel
    → walk ms deliveries signature fuel visited cursor ≢ Walk.exhausted
unfolding walk
walk_fuelled ms deliveries signature zero visited cursor row h = absurd (omega arith)
walk_fuelled ms deliveries signature (suc fuel) visited none row h = cc
walk_fuelled ms deliveries signature (suc fuel) visited (some m) row h =
    elim (Bool-cases (contains m.id visited)) [
      | inl e ↦ rw e (cc)
      | inr e ↦
          let on = next_cursor ms (or_option m.causation_id m.reply_to) in
          let rest =
            walk_fuelled ms deliveries signature fuel (m.id ∷ visited) on
              (next_cursor-IsRow ms (or_option m.causation_id m.reply_to))
              (omega (arith, unvisited-lt visited m row.0 ms row.1 e)) in
          rw e
            (elim (Bool-cases
              (signature_of m.sender (sort_texts (recipients_of m.id deliveries)) == signature)) [
                | inl s ↦ rw s (cc)
                | inr s ↦ rw s rest
              ])
    ]

-- From any message of the table the walk up its causes ends with an answer, whatever cycle the
-- rows have: it visits each message once at most, so that the fuel it is given suffices.
pub walk_ends :
    (ms : List Message) (deliveries : List Delivery) (signature : String) (cursor : Option Message)
    → IsRow ms cursor
    → walk ms deliveries signature (suc (length ms)) [] cursor ≢ Walk.exhausted
walk_ends ms deliveries signature cursor row =
    walk_fuelled ms deliveries signature (suc (length ms)) [] cursor row
      (omega (arith, unvisited_all ms))
