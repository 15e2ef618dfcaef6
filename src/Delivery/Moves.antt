-- ===== src/Delivery/Moves.antt =====
-- The status of a delivery as a state machine.
use nanasa.Prelude.{
  ℕ, String, Bool, true, ◌≡◌, ◌⊎◌, refl, ◌∙◌, none, some, List, [], ◌∷◌, arith, Bool-cases, inl,
  inr,
}
use nanasa.Delivery.Types.{DeliveryStatus, Delivery, Database}
use nanasa.Delivery.Rows.{has_key, get, Joined}
use nanasa.Delivery.Claims.{ClaimOptions, claimed, claim_rows, claim_deliveries, is_due}
use nanasa.Delivery.Dispatcher.{retry, finish}
use nanasa.Delivery.Keys.{HasKeys, get-update_where, claimed-KeepsKey}
use nanasa.Delivery.Operations.{
  Operation, apply, may_follow, Writes, Writes-start, Writes-fail_attempt,
  Writes-mark_terminal_injected, Writes-remove_membership,
}
use nanasa.Delivery.Fencing.{apply_untouched}

-- The row of the key after an operation, and how its status came about.
pub record Moved (m r : String) (d : Delivery) (ds : List Delivery) : Type 0 where
  pub row : Delivery
  pub found : get m r ds ≡ some row
  pub follows : (row ≡ d) ⊎ (may_follow d.status row.status ≡ true)

Writes-Moved :
    {allowed : Delivery → Bool} {ds ds' : List Delivery} (m r : String) (d : Delivery)
    → Writes allowed ds ds'
    → get m r ds ≡ some d
    → Moved m r d ds'
Writes-Moved {ds = ds} m r d w h = elim (Bool-cases (w.named d)) [
  | inl e ↦ record {
    row = w.written d;
    found = rw (w.update, get-update_where w.named w.written m r ds w.keeps, h) (rw e);
    follows = inr (w.moves d e);
  }
  | inr e ↦ record {
    row = d;
    found = rw (w.update, get-update_where w.named w.written m r ds w.keeps, h) (rw e);
    follows = inl refl;
  }
]

-- A claim leaves a row, or leaves it received.
claim_rows-received :
    (m r : String) (o : ClaimOptions) (rs : List Joined) (ds : List Delivery) (d : Delivery)
    → get m r ds ≡ some d
    → (d' : Delivery) × (get m r (claim_rows o rs ds) ≡ some d')
      × ((d' ≡ d) ⊎ (d'.status ≡ DeliveryStatus.received))
unfolding claim_rows
claim_rows-received m r o [] ds d h = (d, h, inl refl)
claim_rows-received m r o (x ∷ xs) ds d h =
    let p = has_key x.row.message_id x.row.recipient_member_id in
    let step = get-update_where p (claimed o) m r ds (claimed-KeepsKey o) in
    elim (Bool-cases (p d)) [
      | inr e ↦ claim_rows-received m r o xs _ d (step ∙ rw h (rw e))
      | inl e ↦
          let (d', found, how) =
            claim_rows-received m r o xs _ (claimed o d) (step ∙ rw h (rw e)) in
          (d', found, inr (ground (arith, how)))
    ]

received_follows :
    (d d' : Delivery) (now : ℕ)
    → is_due now d ≡ true
    → (d' ≡ d) ⊎ (d'.status ≡ DeliveryStatus.received)
    → (d' ≡ d) ⊎ (may_follow d.status d'.status ≡ true)
unfolding is_due
received_follows d d' now e (inl p) = inl p
received_follows d d' now e (inr p) = inr (ground arith)

-- A delivery stays, or moves along an edge: an open one is received, a received one is
-- delivering, only a delivering one is injected, a received or delivering one is retried, dead or
-- rejected, and an open one is revoked.
pub apply-Moved :
    (m r : String) (d : Delivery) (o : Operation) (db : Database)
    → HasKeys db.deliveries
    → get m r db.deliveries ≡ some d
    → Moved m r d (apply o db).deliveries
unfolding apply finish claim_deliveries retry
apply-Moved m r d (Operation.claim o) db k h = elim (Bool-cases (is_due o.now d)) [
  | inr e ↦ record {
    row = d;
    found = apply_untouched m r d (Operation.claim o) db k h e;
    follows = inl refl;
  }
  | inl e ↦
      let (d', found, how) = claim_rows-received m r o _ db.deliveries d h in
      record { row = d'; found = found; follows = received_follows d d' o.now e how }
]
apply-Moved m r d (Operation.begin now k c) db _ h = Writes-Moved m r d (Writes-start k c now db) h
apply-Moved m r d (Operation.end now k c none) db _ h =
    Writes-Moved m r d (Writes-mark_terminal_injected c k.owner db now) h
apply-Moved m r d (Operation.end now k c (some reason)) db _ h =
    Writes-Moved m r d (Writes-fail_attempt c k.owner db reason _ _ now) h
apply-Moved m r d (Operation.remove now group member) db _ h =
    Writes-Moved m r d (Writes-remove_membership group member now db) h
