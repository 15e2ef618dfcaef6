-- ===== src/Delivery/Keys.antt =====
-- The primary key of the delivery rows under `UPDATE … WHERE` and under the selection of claims.
use nanasa.Prelude.{
  ℕ, zero, suc, String, Bool, true, false, ◌≡◌, refl, Option, none, some, List, [], ◌∷◌, arith,
  if◌then◌else◌, All, take, Bool-cases, inl, inr,
}
use nanasa.Delivery.Types.{Delivery, Message, Database}
use nanasa.Delivery.Rows.{
  get, update_where, Joined, insert_row, order_rows, find_message, comes_before,
}
use nanasa.Delivery.Claims.{
  ClaimOptions, claimed, claim_rows, is_due, select_rows, claim_select, join_row, can_receive,
}

-- `f` does not write the key.
abbrev pub KeepsKey : (Delivery → Delivery) → Type 0
KeepsKey f =
    (d : Delivery)
    → ((f d).message_id ≡ d.message_id) × ((f d).recipient_member_id ≡ d.recipient_member_id)

abbrev pub updated : (Delivery → Bool) → (Delivery → Delivery) → Option Delivery → Option Delivery
updated p f none = none
updated p f (some d) = some (if p d then f d else d)

pub get-update_where :
    (p : Delivery → Bool) (f : Delivery → Delivery) (m r : String) (ds : List Delivery)
    → KeepsKey f
    → get m r (update_where p f ds) ≡ updated p f (get m r ds)
unfolding get update_where
get-update_where p f m r [] k = refl
get-update_where p f m r (d ∷ ds) k =
    ground (arith, get-update_where p f m r ds k, (k d).0, (k d).1)

abbrev pub KeyedIn : List Delivery → List Delivery → Type 0
KeyedIn all = All (λ d. get d.message_id d.recipient_member_id all ≡ some d)

-- PRIMARY KEY (message_id, recipient_member_id): each row is the one that its key finds.
abbrev pub HasKeys : List Delivery → Type 0
HasKeys ds = KeyedIn ds ds

KeyedIn-update_where :
    (p : Delivery → Bool) (f : Delivery → Delivery) (all ds : List Delivery)
    → KeepsKey f
    → KeyedIn all ds
    → KeyedIn (update_where p f all) (update_where p f ds)
unfolding update_where
KeyedIn-update_where p f all [] k h = tt
KeyedIn-update_where p f all (d ∷ ds) k h = (
  ground
      (arith, (k d).0, (k d).1, get-update_where p f d.message_id d.recipient_member_id all k, h.0),
  KeyedIn-update_where p f all ds k h.1,
)

pub HasKeys-update_where :
    (p : Delivery → Bool) (f : Delivery → Delivery) (ds : List Delivery)
    → KeepsKey f
    → HasKeys ds
    → HasKeys (update_where p f ds)
HasKeys-update_where p f ds = KeyedIn-update_where p f ds ds

-- A row that the `WHERE` does not name stays as it is.
pub get-update_where_ne :
    (p : Delivery → Bool) (f : Delivery → Delivery) (m r : String) (ds : List Delivery)
    (d : Delivery)
    → KeepsKey f
    → get m r ds ≡ some d
    → p d ≡ false
    → get m r (update_where p f ds) ≡ some d
get-update_where_ne p f m r ds d k h e = ground (arith, get-update_where p f m r ds k)

pub claimed-KeepsKey : (o : ClaimOptions) → KeepsKey (claimed o)
claimed-KeepsKey o d = (refl, refl)

pub HasKeys-claim_rows :
    (o : ClaimOptions) (rs : List Joined) (ds : List Delivery)
    → HasKeys ds
    → HasKeys (claim_rows o rs ds)
unfolding claim_rows
HasKeys-claim_rows o [] ds h = h
HasKeys-claim_rows o (r ∷ rs) ds h =
    HasKeys-claim_rows o rs _ (HasKeys-update_where _ (claimed o) ds (claimed-KeepsKey o) h)

-- A selected row is a row of the table, and due.
abbrev pub IsDueRow : ℕ → List Delivery → Joined → Type 0
IsDueRow now all r =
    (get r.row.message_id r.row.recipient_member_id all ≡ some r.row) × (is_due now r.row ≡ true)

select_rows-IsDueRow :
    (db : Database) (now : ℕ) (all ds : List Delivery)
    → KeyedIn all ds
    → All (IsDueRow now all) (select_rows db now ds)
unfolding select_rows
select_rows-IsDueRow db now all [] h = tt
select_rows-IsDueRow db now all (d ∷ ds) h =
    let rest = select_rows-IsDueRow db now all ds h.1 in
    elim (Bool-cases (is_due now d)) [
      | inr e ↦ rw e rest
      | inl e ↦ rw e (joined e rest (find_message d.message_id db.messages))
    ]
  where
    joined :
        is_due now d ≡ true
        → All (IsDueRow now all) (select_rows db now ds)
        → (m : Option Message) → All (IsDueRow now all) (join_row db d m (select_rows db now ds))
    joined e rest none = rest
    joined e rest (some m) = elim (Bool-cases (can_receive db d m)) [
      | inl c ↦ rw c ((h.0, e), rest)
      | inr c ↦ rw c rest
    ]

module _ {ℓ} (P : Joined → Type ℓ) where
  insert_row-All : (a : Joined) (rs : List Joined) → P a → All P rs → All P (insert_row a rs)
  unfolding insert_row
  insert_row-All a [] h k = (h, tt)
  insert_row-All a (r ∷ rs) h k = elim (Bool-cases (comes_before a r)) [
    | inl e ↦ rw e (h, k)
    | inr e ↦ rw e (k.0, insert_row-All a rs h k.1)
  ]

  order_rows-All : (rs : List Joined) → All P rs → All P (order_rows rs)
  unfolding order_rows
  order_rows-All [] k = tt
  order_rows-All (r ∷ rs) k = insert_row-All r (order_rows rs) k.0 (order_rows-All rs k.1)

  take-All : (n : ℕ) (rs : List Joined) → All P rs → All P (take n rs)
  take-All zero rs k = tt
  take-All (suc n) [] k = tt
  take-All (suc n) (r ∷ rs) k = (k.0, take-All n rs k.1)

pub claim_select-IsDueRow :
    (o : ClaimOptions) (db : Database)
    → HasKeys db.deliveries
    → All (IsDueRow o.now db.deliveries) (claim_select o db)
unfolding claim_select
claim_select-IsDueRow o db h =
    take-All _ o.limit _ (order_rows-All _ _ (select_rows-IsDueRow db o.now _ db.deliveries h))
