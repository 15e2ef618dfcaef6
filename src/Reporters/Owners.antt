-- ===== src/Reporters/Owners.antt =====
-- One session has the run, generation and epoch of a reporter (`registerReporterSession` and `ingestAgentStatusEvent` of
-- apps/daemon/src/store.ts).
use nanasa.Prelude.{
  ℕ, String, ◌==◌, eq_iff, eq_refl, Bool, true, false, ◌≡◌, ◌≤◌, ◌<◌, refl, ap, List, All,
  All-append, ◌∷◌, [], ◌++◌, any, arith, Bool-cases, inl, inr, ◌⊎◌, ◌||◌, ◌∙◌,
}
use nanasa.Reporters.Types.{Session, Event, has_epoch, update_sessions}
use nanasa.Reporters.Sessions.{closed_session, with_fingerprint, with_lease, is_replaced, clashes}
use nanasa.Reporters.Ingestion.{advanced}
use nanasa.Reporters.Rows.{All-update_sessions}
use nanasa.Reporters.Changes.{Stands, All-Stands}

abbrev pub Key : Type 0
Key = String × (ℕ × String)

abbrev pub has_key : Key → Session → Bool
has_key k s = has_epoch k.0 k.1.0 k.1.1 s

-- A row of the key has the id and a sequence number of `n` at least, and a row of the id has the key.
abbrev pub Owned : Key → String → ℕ → Session → Type 0
Owned k id n s =
    (has_key k s ≡ true → (s.id ≡ id) × (n ≤ s.source_sequence)) × (s.id ≡ id → has_key k s ≡ true)

abbrev pub has_id : String → Session → Bool
has_id id s = s.id == id

-- One session has the key.
pub record IsOwned (k : Key) (n : ℕ) (ss : List Session) : Type 0 where
  pub id : String
  pub exists : any (has_id id) ss ≡ true
  pub rows : All (Owned k id n) ss

abbrev pub IsHeld : Key → List Session → Type 0
IsHeld k ss = All (λ s. has_key k s ≡ false) ss ⊎ IsOwned k 0 ss

abbrev pub Anything : Session → Type 0
Anything s = Unit {0}

any-update_sessions :
    (q p : Session → Bool) (f : Session → Session) (ss : List Session)
    → ((s : Session) → q (f s) ≡ q s)
    → any q (update_sessions p f ss) ≡ any q ss
unfolding update_sessions
any-update_sessions q p f [] h = refl
any-update_sessions q p f (s ∷ ss) h = elim (Bool-cases (p s)) [
  | inl e ↦ rw e (rw (h s) (ap (λ b. q s || b) (any-update_sessions q p f ss h)))
  | inr e ↦ rw e (ap (λ b. q s || b) (any-update_sessions q p f ss h))
]

any-append_left :
    (q : Session → Bool) (ss ts : List Session) → any q ss ≡ true → any q (ss ++ ts) ≡ true
any-append_left q [] ts h = absurd (cc)
any-append_left q (s ∷ ss) ts h = ground (arith, any-append_left q ss ts)

any-append_one :
    (q : Session → Bool) (ss : List Session) (t : Session)
    → q t ≡ true
    → any q (ss ++ t ∷ []) ≡ true
any-append_one q [] t h = rw h refl
any-append_one q (s ∷ ss) t h = ground (arith, any-append_one q ss t)

same_key :
    (k : Key) (a b : Session)
    → has_key k a ≡ true
    → has_key k b ≡ true
    → has_epoch a.run_id a.generation a.reporter_epoch b ≡ true
same_key k a b h j = ground (
  arith,
  eq_iff a.run_id k.0,
  eq_iff b.run_id k.0,
  eq_iff b.run_id a.run_id,
  eq_iff a.reporter_epoch k.1.1,
  eq_iff b.reporter_epoch k.1.1,
  eq_iff b.reporter_epoch a.reporter_epoch,
)

not_clashing :
    (k : Key) (id : String) (n : ℕ) (new s : Session)
    → has_id id s ≡ true
    → Owned k id n s
    → clashes new s ≡ false
    → (has_key k new ≡ false) × (has_id id new ≡ false)
not_clashing k id n new s h o c =
    let has : has_key k s ≡ true = o.1 (ground (arith, eq_iff s.id id)) in
    (
      ground (arith, same_key k new s),
      ground (arith, eq_iff s.id id, eq_iff new.id id, eq_iff s.id new.id),
    )

owner_alone :
    (k : Key) (id : String) (n : ℕ) (new : Session) (ss : List Session)
    → any (has_id id) ss ≡ true
    → All (Owned k id n) ss
    → All (λ s. clashes new s ≡ false) ss
    → (has_key k new ≡ false) × (has_id id new ≡ false)
owner_alone k id n new [] h o c = absurd (cc)
owner_alone k id n new (s ∷ ss) h o c = elim (Bool-cases (has_id id s)) [
  | inl e ↦ not_clashing k id n new s e o.0 c.0
  | inr e ↦ owner_alone k id n new ss (rw e at h) o.1 c.1
]

advanced-Owned :
    (k : Key) (id : String) (n lease : ℕ) (e : Event) (s x : Session)
    → s.source_sequence < e.source_sequence
    → x.id == s.id ≡ true
    → Owned k id n s
    → Owned k id n x
    → Owned k id n (advanced e lease x)
advanced-Owned k id n lease e s x rises same os ox = (
  λ h.
      let owner : x.id ≡ id = (ox.0 h).0 in
      let owned : s.id ≡ id = ground (arith, eq_iff x.id s.id) in
      let above : n ≤ s.source_sequence = (os.0 (os.1 owned)).1 in (owner, omega arith),
  ox.1,
)

rows-Stands : (k : Key) (id : String) (n : ℕ) → Stands (λ s. Owned k id n s) (All (Owned k id n))
rows-Stands k id n =
    All-Stands (λ now s h. h) (λ f s h. h) (λ lease s h. h)
      (λ e lease s x rises same os ox. advanced-Owned k id n lease e s x rises same os ox)
      (λ new q. q)

pub owned-update_sessions :
    (k : Key) (n m : ℕ) (p : Session → Bool) (f : Session → Session) (ss : List Session)
    (o : IsOwned k n ss)
    → ((s : Session) → has_id o.id (f s) ≡ has_id o.id s)
    → All (Owned k o.id m) (update_sessions p f ss)
    → IsOwned k m (update_sessions p f ss)
owned-update_sessions k n m p f ss o same rows = record {
  id = o.id;
  exists = any-update_sessions (has_id o.id) p f ss same ∙ o.exists;
  rows = rows;
}

pub IsOwned-Stands : (k : Key) (n : ℕ) → Stands Anything (IsOwned k n)
IsOwned-Stands k n = record {
  closes = λ p now ss o.
      owned-update_sessions k n n p (closed_session now) ss o (λ s. refl)
        ((rows-Stands k o.id n).closes p now ss o.rows);
  fingerprints = λ p f ss o.
      owned-update_sessions k n n p (with_fingerprint f) ss o (λ s. refl)
        ((rows-Stands k o.id n).fingerprints p f ss o.rows);
  leases = λ p t ss o.
      owned-update_sessions k n n p (with_lease t) ss o (λ s. refl)
        ((rows-Stands k o.id n).leases p t ss o.rows);
  advances = λ e t run s ss c from rises o.
      owned-update_sessions k n n (has_id s.id) (advanced e t) ss o (λ x. refl)
        ((rows-Stands k o.id n).advances e t run s ss c from rises o.rows);
  adds = λ new ss clash q o.
      let alone = owner_alone k o.id n new ss o.exists o.rows clash in
      let closing = (rows-Stands k o.id n).adds new ss clash in
      record {
        id = o.id;
        exists = any-append_left (has_id o.id) _ (new ∷ []) (
            any-update_sessions (has_id o.id) (is_replaced new) (closed_session new.opened_at) ss
              (λ s. refl)
            ∙ o.exists);
        rows = closing (ground (arith, eq_iff new.id o.id)) o.rows;
      };
}

absent-Stands : (k : Key) → Stands (λ s. has_key k s ≡ false) (All (λ s. has_key k s ≡ false))
absent-Stands k =
    All-Stands (λ now s h. h) (λ f s h. h) (λ lease s h. h) (λ e lease s x r same hs h. h)
      (λ new q. q)

became-IsOwned :
    (k : Key) (new : Session) (ss : List Session)
    → has_key k new ≡ true
    → All (λ s. has_key k s ≡ false) ss
    → All (λ s. clashes new s ≡ false) ss
    → IsOwned k 0 (update_sessions (is_replaced new) (closed_session new.opened_at) ss ++ new ∷ [])
became-IsOwned k new ss h absent clash = record {
  id = new.id;
  exists = any-append_one (has_id new.id) _ new (eq_refl new.id);
  rows =
      All-append (Owned k new.id 0) _ (new ∷ [])
        (All-update_sessions (Owned k new.id 0) (is_replaced new) (closed_session new.opened_at) ss
          (λ s e o. o) (others ss absent clash))
        (((λ e. (refl, omega arith)), λ e. h), tt);
}
  where
    others :
        (ts : List Session)
        → All (λ s. has_key k s ≡ false) ts
        → All (λ s. clashes new s ≡ false) ts
        → All (Owned k new.id 0) ts
    others [] a c = tt
    others (t ∷ ts) a c = (
      (
        (λ e. absurd (let no = a.0 in cc)),
        λ e. absurd (let no = c.0 in ground (arith, eq_iff t.id new.id)),
      ),
      others ts a.1 c.1,
    )

pub IsHeld-Stands : (k : Key) → Stands Anything (IsHeld k)
IsHeld-Stands k = record {
  closes = λ p now ss o. elim o [
    | inl a ↦ inl ((absent-Stands k).closes p now ss a)
    | inr o ↦ inr ((IsOwned-Stands k 0).closes p now ss o)
  ];
  fingerprints = λ p f ss o. elim o [
    | inl a ↦ inl ((absent-Stands k).fingerprints p f ss a)
    | inr o ↦ inr ((IsOwned-Stands k 0).fingerprints p f ss o)
  ];
  leases = λ p t ss o. elim o [
    | inl a ↦ inl ((absent-Stands k).leases p t ss a)
    | inr o ↦ inr ((IsOwned-Stands k 0).leases p t ss o)
  ];
  advances = λ e t run s ss c from rises o. elim o [
    | inl a ↦ inl ((absent-Stands k).advances e t run s ss c from rises a)
    | inr o ↦ inr ((IsOwned-Stands k 0).advances e t run s ss c from rises o)
  ];
  adds = λ new ss clash q o. elim o [
    | inr o ↦ inr ((IsOwned-Stands k 0).adds new ss clash q o)
    | inl a ↦ elim (Bool-cases (has_key k new)) [
      | inl h ↦ inr (became-IsOwned k new ss h a clash)
      | inr h ↦ inl ((absent-Stands k).adds new ss clash h a)
    ]
  ];
}
