-- ===== src/Messages/Stored.antt =====
-- The deliveries that `submitMessage` of apps/daemon/src/store.ts leaves for its message.
use nanasa.Prelude.{
  ℕ, ◌+◌, ◌≤◌, ◌<◌, String, ◌==◌, eq_refl, Bool, true, false, not, ◌≡◌, refl, ap, subst, List, [],
  ◌∷◌, ◌++◌, map, arith, keep, contains, Bool-cases, inl, inr, is_empty, drop, All, All-imp,
  All-keep, ltb, zero, suc,
}
use nanasa.Delivery.Types.{Delivery}
use nanasa.Messages.Types.{Message, Tables, done}
use nanasa.Messages.Store.{
  queued, in_group, insert_message, prune, delete_messages, message_ids, newest_first,
  insert_newest, is_busy,
}
use nanasa.Messages.Rising.{Rises, Rises-le}

abbrev pub is_row_of : String → Delivery → Bool
is_row_of id d = d.message_id == id

abbrev IsOther : String → Message → Type 0
IsOther id m = m.id == id ≡ false

Rises-below :
    (g : String) (low high : ℕ) (ms : List Message)
    → Rises g low high ms
    → All (λ x. x.group_seq ≤ high) (keep (in_group g) ms)
Rises-below g low high [] h = tt
Rises-below g low high (m ∷ ms) h = elim (Bool-cases (in_group g m)) [
  | inl e ↦
      let k = rw e at h in
      rw e (Rises-le g m.group_seq high ms k.1, Rises-below g m.group_seq high ms k.1)
  | inr e ↦ rw e (Rises-below g low high ms (rw e at h))
]

keep-last :
    (g : String) (ms : List Message) (m : Message)
    → in_group g m ≡ true
    → keep (in_group g) (ms ++ m ∷ []) ≡ keep (in_group g) ms ++ m ∷ []
keep-last g [] m h = rw h refl
keep-last g (x ∷ ms) m h = elim (Bool-cases (in_group g x)) [
  | inl e ↦ rw e (ap (λ xs. x ∷ xs) (keep-last g ms m h))
  | inr e ↦ rw e (keep-last g ms m h)
]

newest_first-last :
    (xs : List Message) (m : Message)
    → All (λ x. x.group_seq < m.group_seq) xs
    → newest_first (xs ++ m ∷ []) ≡ m ∷ newest_first xs
unfolding newest_first insert_newest
newest_first-last [] m h = refl
newest_first-last (x ∷ xs) m h =
    let below : ltb x.group_seq m.group_seq ≡ true = ground (arith, h.0) in
    rw (newest_first-last xs m h.1) (rw below refl)

All-insert_newest :
    (P : Message → Type 0) (m : Message) (ms : List Message)
    → P m
    → All P ms
    → All P (insert_newest m ms)
unfolding insert_newest
All-insert_newest P m [] h k = (h, tt)
All-insert_newest P m (x ∷ ms) h k = elim (Bool-cases (ltb m.group_seq x.group_seq)) [
  | inl e ↦ rw e (k.0, All-insert_newest P m ms h k.1)
  | inr e ↦ rw e (h, k)
]

All-newest_first : (P : Message → Type 0) (ms : List Message) → All P ms → All P (newest_first ms)
unfolding newest_first
All-newest_first P [] h = tt
All-newest_first P (m ∷ ms) h =
    All-insert_newest P m (newest_first ms) h.0 (All-newest_first P ms h.1)

All-drop : (P : Message → Type 0) (n : ℕ) (ms : List Message) → All P ms → All P (drop n ms)
All-drop P zero ms h = h
All-drop P (suc n) [] h = tt
All-drop P (suc n) (m ∷ ms) h = All-drop P n ms h.1

not_among :
    (id : String) (ms : List Message) → All (IsOther id) ms → contains id (message_ids ms) ≡ false
not_among id [] h = refl
not_among id (m ∷ ms) h = ground (arith, not_among id ms h.1)

abbrev victims_of : String → ℕ → List Message → List String
victims_of group_id retain ms =
    message_ids (drop retain (newest_first (keep (in_group group_id) ms)))

-- The newest message of the group is not among those that a pruning deletes.
newest_stays :
    (group_id : String) (retain high : ℕ) (ms : List Message) (m : Message)
    → 1 ≤ retain
    → Rises group_id 0 high ms
    → All (IsOther m.id) ms
    → in_group group_id m ≡ true
    → m.group_seq ≡ high + 1
    → contains m.id (victims_of group_id retain (ms ++ m ∷ [])) ≡ false
newest_stays group_id zero high ms m some_kept rises others inside next = absurd (omega arith)
newest_stays group_id (suc retain) high ms m some_kept rises others inside next =
    let own = keep (in_group group_id) ms in
    let below =
      All-imp (λ (x : Message). x.group_seq ≤ high) (λ x. x.group_seq < m.group_seq) own
        (λ x k. omega arith) (Rises-below group_id 0 high ms rises) in
    rw (keep-last group_id ms m inside) (
      rw (newest_first-last own m below) (
        not_among m.id _ (
          All-drop (IsOther m.id) retain _
            (All-newest_first (IsOther m.id) own (All-keep _ (in_group group_id) ms others)))))

rows_kept :
    (id : String) (now : ℕ) (victims : List String) (old : List Delivery) (recipients : List String)
    → contains id victims ≡ false
    → All (λ d. is_row_of id d ≡ false) old
    → keep
        (is_row_of id)
        (keep (λ d. not (contains d.message_id victims)) (old ++ map (queued id now) recipients))
      ≡ map (queued id now) recipients
rows_kept id now victims [] [] stays h = refl
rows_kept id now victims [] (r ∷ rs) stays h =
    rw stays
      (rw (eq_refl id) (ap (λ ds. queued id now r ∷ ds) (rows_kept id now victims [] rs stays tt)))
rows_kept id now victims (d ∷ old) rs stays h =
    ground (arith, rows_kept id now victims old rs stays h.1)

rows_all :
    (id : String) (now : ℕ) (old : List Delivery) (recipients : List String)
    → All (λ d. is_row_of id d ≡ false) old
    → keep (is_row_of id) (old ++ map (queued id now) recipients) ≡ map (queued id now) recipients
rows_all id now [] [] h = refl
rows_all id now [] (r ∷ rs) h =
    rw (eq_refl id) (ap (λ ds. queued id now r ∷ ds) (rows_all id now [] rs tt))
rows_all id now (d ∷ old) rs h = rw h.0 (rows_all id now old rs h.1)

-- What is left of a message's rows by the pruning that follows its insertion.
pub pruned_rows :
    (group_id : String) (retain now high : ℕ) (m : Message) (recipients : List String)
    (t after : Tables)
    → 1 ≤ retain
    → Rises group_id 0 high t.messages
    → All (λ (x : Message). x.id == m.id ≡ false) t.messages
    → All (λ d. is_row_of m.id d ≡ false) t.deliveries
    → in_group group_id m ≡ true
    → m.group_seq ≡ high + 1
    → prune group_id retain now (insert_message m (map (queued m.id now) recipients) t) ≡ done after
    → keep (is_row_of m.id) after.deliveries ≡ map (queued m.id now) recipients
unfolding prune insert_message delete_messages
pruned_rows group_id retain now high m recipients t after some_kept rises others unused inside next
      e =
    let victims = victims_of group_id retain (t.messages ++ m ∷ []) in
    let outcomes = map (queued m.id now) recipients in
    let stays = newest_stays group_id retain high t.messages m some_kept rises others inside next in
    let stored = insert_message m outcomes t in
    elim (Bool-cases (is_empty victims)) [
      | inl none_left ↦
          let same : stored ≡ after = ground arith in
          subst (λ (u : Tables). keep (is_row_of m.id) u.deliveries ≡ outcomes) same
            (rows_all m.id now t.deliveries recipients unused)
      | inr some_left ↦ elim (Bool-cases (is_busy victims now (t.deliveries ++ outcomes))) [
        | inl busy ↦ absurd (ground arith)
        | inr idle ↦
            let same : delete_messages group_id victims now stored ≡ after = ground arith in
            subst (λ (u : Tables). keep (is_row_of m.id) u.deliveries ≡ outcomes) same
              (rows_kept m.id now victims t.deliveries recipients stays unused)
      ]
    ]
