-- ===== src/Delivery/Fencing.antt =====
-- Which delivery rows an operation may write, over any sequence of operations by any number of
-- dispatchers, memberships that end included.
use nanasa.Prelude.{
  ℕ, ◌<◌, String, eq_iff, Bool, false, ◌≡◌, ◌≢◌, sym, subst, none, some, List, [], ◌∷◌, arith, All,
  Bool-cases, inl, inr,
}
use nanasa.Delivery.Types.{Delivery, Database}
use nanasa.Delivery.Rows.{has_key, get, Joined}
use nanasa.Delivery.Claims.{ClaimOptions, claimed, claim_rows, claim_deliveries, is_due, is_open}
use nanasa.Delivery.Dispatcher.{retry, finish}
use nanasa.Delivery.Keys.{
  HasKeys, IsDueRow, HasKeys-update_where, HasKeys-claim_rows, get-update_where_ne,
  claimed-KeepsKey, claim_select-IsDueRow,
}
use nanasa.Delivery.Operations.{
  Operation, apply, apply_all, may_write, Writes, Writes-start, Writes-fail_attempt,
  Writes-mark_terminal_injected, Writes-remove_membership,
}

get-has_key :
    (m r : String) (ds : List Delivery) (d : Delivery)
    → get m r ds ≡ some d
    → (d.message_id ≡ m) × (d.recipient_member_id ≡ r)
unfolding get
get-has_key m r [] d h = cc
get-has_key m r (x ∷ xs) d h =
    ground (arith, get-has_key m r xs d, eq_iff x.message_id m, eq_iff x.recipient_member_id r)

module _ (m r : String) (d : Delivery) where
  -- A row that is not due is none of the selected ones.
  selected_ne :
      (now : ℕ) (all : List Delivery) (x : Joined)
      → get m r all ≡ some d
      → is_due now d ≡ false
      → IsDueRow now all x
      → has_key x.row.message_id x.row.recipient_member_id d ≡ false
  selected_ne now all x h idle due =
      let (p, q) = get-has_key m r all d h in
      elim (Bool-cases (has_key x.row.message_id x.row.recipient_member_id d)) [
        | inr e ↦ e
        | inl e ↦ ground (
          arith,
          eq_iff d.message_id x.row.message_id,
          eq_iff d.recipient_member_id x.row.recipient_member_id,
          due.0,
          due.1,
        )
      ]

  claim_rows_untouched :
      (o : ClaimOptions) (rs : List Joined) (ds : List Delivery)
      → All (λ x. has_key x.row.message_id x.row.recipient_member_id d ≡ false) rs
      → get m r ds ≡ some d
      → get m r (claim_rows o rs ds) ≡ some d
  unfolding claim_rows
  claim_rows_untouched o [] ds n h = h
  claim_rows_untouched o (x ∷ xs) ds n h =
      claim_rows_untouched o xs _ n.1
        (get-update_where_ne _ (claimed o) m r ds d (claimed-KeepsKey o) h n.0)

  All-selected_ne :
      (now : ℕ) (all : List Delivery) (xs : List Joined)
      → get m r all ≡ some d
      → is_due now d ≡ false
      → All (IsDueRow now all) xs
      → All (λ x. has_key x.row.message_id x.row.recipient_member_id d ≡ false) xs
  All-selected_ne now all [] h idle k = tt
  All-selected_ne now all (x ∷ xs) h idle k =
      (selected_ne now all x h idle k.0, All-selected_ne now all xs h idle k.1)

Writes-HasKeys :
    {allowed : Delivery → Bool} {ds ds' : List Delivery}
    → Writes allowed ds ds'
    → HasKeys ds
    → HasKeys ds'
Writes-HasKeys {ds = ds} w h =
    subst HasKeys (sym w.update) (HasKeys-update_where w.named w.written ds w.keeps h)

Writes-untouched :
    {allowed : Delivery → Bool} {ds ds' : List Delivery} (m r : String) (d : Delivery)
    → Writes allowed ds ds'
    → get m r ds ≡ some d
    → allowed d ≡ false
    → get m r ds' ≡ some d
Writes-untouched {ds = ds} m r d w h e =
    rw w.update (get-update_where_ne w.named w.written m r ds d w.keeps h (w.only d e))

-- Every operation keeps the primary key.
pub HasKeys-apply :
    (o : Operation) (db : Database) → HasKeys db.deliveries → HasKeys (apply o db).deliveries
unfolding apply finish claim_deliveries retry
HasKeys-apply (Operation.claim o) db h = HasKeys-claim_rows o _ db.deliveries h
HasKeys-apply (Operation.begin now k c) db h = Writes-HasKeys (Writes-start k c now db) h
HasKeys-apply (Operation.end now k c none) db h =
    Writes-HasKeys (Writes-mark_terminal_injected c k.owner db now) h
HasKeys-apply (Operation.end now k c (some reason)) db h =
    Writes-HasKeys (Writes-fail_attempt c k.owner db reason _ _ now) h
HasKeys-apply (Operation.remove now group member) db h =
    Writes-HasKeys (Writes-remove_membership group member now db) h

-- An operation leaves each row that it may not write.
pub apply_untouched :
    (m r : String) (d : Delivery) (o : Operation) (db : Database)
    → HasKeys db.deliveries
    → get m r db.deliveries ≡ some d
    → may_write o d ≡ false
    → get m r (apply o db).deliveries ≡ some d
unfolding apply finish claim_deliveries retry
apply_untouched m r d (Operation.claim o) db k h e =
    claim_rows_untouched m r d o _ db.deliveries
      (All-selected_ne m r d o.now db.deliveries _ h e (claim_select-IsDueRow o db k)) h
apply_untouched m r d (Operation.begin now k c) db _ h e =
    Writes-untouched m r d (Writes-start k c now db) h e
apply_untouched m r d (Operation.end now k c none) db _ h e =
    Writes-untouched m r d (Writes-mark_terminal_injected c k.owner db now) h e
apply_untouched m r d (Operation.end now k c (some reason)) db _ h e =
    Writes-untouched m r d (Writes-fail_attempt c k.owner db reason _ _ now) h e
apply_untouched m r d (Operation.remove now group member) db _ h e =
    Writes-untouched m r d (Writes-remove_membership group member now db) h e

-- Along a sequence of operations that may not write it, a row stays as it is.
apply_all_untouched :
    (m r : String) (d : Delivery) (os : List Operation) (db : Database)
    → HasKeys db.deliveries
    → get m r db.deliveries ≡ some d
    → All (λ o. may_write o d ≡ false) os
    → get m r (apply_all os db).deliveries ≡ some d
unfolding apply_all
apply_all_untouched m r d [] db k h n = h
apply_all_untouched m r d (o ∷ os) db k h n =
    apply_all_untouched m r d os (apply o db) (HasKeys-apply o db k)
      (apply_untouched m r d o db k h n.0) n.1

closed_may_not_write :
    (d : Delivery)
    → is_open d.status ≡ false
    → (os : List Operation) → All (λ o. may_write o d ≡ false) os
unfolding is_due
closed_may_not_write d h [] = tt
closed_may_not_write d h (Operation.claim o ∷ os) = (ground arith, closed_may_not_write d h os)
closed_may_not_write d h (Operation.begin t k c ∷ os) = (ground arith, closed_may_not_write d h os)
closed_may_not_write d h (Operation.end t k c a ∷ os) = (ground arith, closed_may_not_write d h os)
closed_may_not_write d h (Operation.remove t g m ∷ os) = (h, closed_may_not_write d h os)

-- A delivery that is injected, dead, revoked, rejected or otherwise closed stays exactly as it
-- is: no claim, no dispatcher, whatever claim it still holds, and no end of a membership writes
-- it again.
pub closed_stays :
    (m r : String) (d : Delivery) (os : List Operation) (db : Database)
    → HasKeys db.deliveries
    → get m r db.deliveries ≡ some d
    → is_open d.status ≡ false
    → get m r (apply_all os db).deliveries ≡ some d
closed_stays m r d os db k h e = apply_all_untouched m r d os db k h (closed_may_not_write d e os)

-- An operation of another dispatcher than `owner`, or a claim before the lease is over.
abbrev pub IsForeign : String → ℕ → Operation → Type 0
IsForeign owner expiry (Operation.claim o) = o.now < expiry
IsForeign owner expiry (Operation.begin t k c) = k.owner ≢ owner
IsForeign owner expiry (Operation.end t k c a) = k.owner ≢ owner
IsForeign owner expiry (Operation.remove t g m) = ⊥

foreign_may_not_write :
    (d : Delivery) (owner : String) (expiry : ℕ)
    → d.lease_owner ≡ some owner
    → d.lease_expires_at ≡ some expiry
    → (os : List Operation) → All (IsForeign owner expiry) os
    → All (λ o. may_write o d ≡ false) os
unfolding is_due
foreign_may_not_write d owner expiry p q [] h = tt
foreign_may_not_write d owner expiry p q (Operation.claim o ∷ os) h =
    (ground arith, foreign_may_not_write d owner expiry p q os h.1)
foreign_may_not_write d owner expiry p q (Operation.begin t k c ∷ os) h =
    (ground (arith, eq_iff owner k.owner, h.0), foreign_may_not_write d owner expiry p q os h.1)
foreign_may_not_write d owner expiry p q (Operation.end t k c a ∷ os) h =
    (ground (arith, eq_iff owner k.owner, h.0), foreign_may_not_write d owner expiry p q os h.1)
foreign_may_not_write d owner expiry p q (Operation.remove t g m ∷ os) h = absurd h.0

-- A leased delivery is its owner's alone: until the lease is over, no claim of anybody and no
-- step of another dispatcher, in whatever order they come, changes it.
pub lease_excludes :
    (m r : String) (d : Delivery) (owner : String) (expiry : ℕ) (os : List Operation)
    (db : Database)
    → HasKeys db.deliveries
    → get m r db.deliveries ≡ some d
    → d.lease_owner ≡ some owner
    → d.lease_expires_at ≡ some expiry
    → All (IsForeign owner expiry) os
    → get m r (apply_all os db).deliveries ≡ some d
lease_excludes m r d owner expiry os db k h p q f =
    apply_all_untouched m r d os db k h (foreign_may_not_write d owner expiry p q os f)
