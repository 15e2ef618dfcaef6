-- ===== src/Messages/Recipients.antt =====
-- Who receives a message (`#resolveRecipients` of apps/daemon/src/store.ts).
use nanasa.Prelude.{
  String, ◌==◌, eq_iff, eq_refl, Bool, true, false, not, ◌&&◌, ◌||◌, ◌≡◌, refl, sym, ap, ◌∙◌, subst,
  List, [], ◌∷◌, arith, keep, any, contains, Bool-cases, inl, inr, All, All-imp,
}
use nanasa.Delivery.Types.{Membership}
use nanasa.Delivery.Rows.{is_member}
use nanasa.Messages.Types.{Sender, Audience, Group, done}
use nanasa.Messages.Audiences.{
  is_sender, member_ids, sort_texts, insert_text, text_before, resolve_requested,
  resolve_recipients,
}

-- Each recipient is an active member of the group, and not the sender.
abbrev pub MayReceive : String → Sender → List Membership → String → Type 0
MayReceive group_id sender memberships m =
    (is_member group_id m memberships ≡ true) × (is_sender sender m ≡ false)

requested-MayReceive :
    (group_id : String) (sender : Sender) (ids : List String) (memberships : List Membership)
    → not (any (is_sender sender) ids) ≡ true
    → not (any (λ m. not (is_member group_id m memberships)) ids) ≡ true
    → All (MayReceive group_id sender memberships) ids
requested-MayReceive group_id sender [] memberships h k = tt
requested-MayReceive group_id sender (m ∷ ids) memberships h k = (
  (ground arith, ground arith),
  requested-MayReceive group_id sender ids memberships (ground arith) (ground arith),
)

resolve_requested-MayReceive :
    (group_id : String) (sender : Sender) (ids recipients : List String)
    (memberships : List Membership)
    → resolve_requested group_id sender ids memberships ≡ done recipients
    → All (MayReceive group_id sender memberships) recipients
unfolding resolve_requested
resolve_requested-MayReceive group_id sender ids recipients memberships h =
    let others : not (any (is_sender sender) ids) ≡ true = ground arith in
    let active : not (any (λ m. not (is_member group_id m memberships)) ids) ≡ true =
      ground arith in
    let same : ids ≡ recipients = ground arith in
    subst (All (MayReceive group_id sender memberships)) same
      (requested-MayReceive group_id sender ids memberships others active)

All-insert_text {ℓ} :
    (P : String → Type ℓ) (a : String) (bs : List String)
    → P a
    → All P bs
    → All P (insert_text a bs)
unfolding insert_text
All-insert_text P a [] p h = (p, tt)
All-insert_text P a (b ∷ bs) p h = elim (Bool-cases (text_before b a)) [
  | inl e ↦ rw e (h.0, All-insert_text P a bs p h.1)
  | inr e ↦ rw e (p, h)
]

All-sort_texts {ℓ} : (P : String → Type ℓ) (bs : List String) → All P bs → All P (sort_texts bs)
unfolding sort_texts
All-sort_texts P [] h = tt
All-sort_texts P (b ∷ bs) h = All-insert_text P b (sort_texts bs) h.0 (All-sort_texts P bs h.1)

-- A member stays one when rows are added before it.
is_member-cons :
    (group_id member : String) (m : Membership) (ms : List Membership)
    → is_member group_id member ms ≡ true
    → is_member group_id member (m ∷ ms) ≡ true
unfolding is_member
is_member-cons group_id member m ms h = ground arith

is_member-here :
    (group_id : String) (m : Membership) (ms : List Membership)
    → (m.group_id == group_id && m.active) ≡ true
    → is_member group_id m.member_id (m ∷ ms) ≡ true
unfolding is_member
is_member-here group_id m ms h = ground (arith, eq_refl m.member_id)

member_ids-are :
    (group_id : String) (ms : List Membership)
    → All (λ a. is_member group_id a ms ≡ true) (member_ids group_id ms)
unfolding member_ids
member_ids-are group_id [] = tt
member_ids-are group_id (m ∷ ms) =
    let rest =
      All-imp (λ a. is_member group_id a ms ≡ true) (λ a. is_member group_id a (m ∷ ms) ≡ true)
        (member_ids group_id ms) (λ a h. is_member-cons group_id a m ms h)
        (member_ids-are group_id ms) in
    elim (Bool-cases (m.group_id == group_id && m.active)) [
      | inl e ↦ rw e (is_member-here group_id m ms e, rest)
      | inr e ↦ rw e rest
    ]

All-keep_and {ℓ κ} :
    {A : Type ℓ} (P : A → Type κ) (p : A → Bool) (xs : List A)
    → All P xs
    → All (λ a. P a × (p a ≡ true)) (keep p xs)
All-keep_and P p [] h = tt
All-keep_and P p (x ∷ xs) h = elim (Bool-cases (p x)) [
  | inl e ↦ rw e ((h.0, e), All-keep_and P p xs h.1)
  | inr e ↦ rw e (All-keep_and P p xs h.1)
]

pub resolve_recipients-MayReceive :
    (group : Group) (sender : Sender) (audience : Audience) (memberships : List Membership)
    {recipients : List String}
    → resolve_recipients group sender audience memberships ≡ done recipients
    → All (MayReceive group.id sender memberships) recipients
unfolding resolve_recipients
resolve_recipients-MayReceive group sender (Audience.dm m) memberships h =
    resolve_requested-MayReceive group.id sender (m ∷ []) _ memberships h
resolve_recipients-MayReceive group sender (Audience.multicast ids) memberships h =
    resolve_requested-MayReceive group.id sender ids _ memberships h
resolve_recipients-MayReceive group sender (Audience.everyone revision) memberships {recipients} h =
    let all = sort_texts (member_ids group.id memberships) in
    let same : keep (λ m. not (is_sender sender m)) all ≡ recipients = ground arith in
    subst (All (MayReceive group.id sender memberships)) same (
      All-imp _ _ _ (λ m k. (k.0, ground arith))
        (All-keep_and (λ a. is_member group.id a memberships ≡ true) (λ m. not (is_sender sender m))
          all
          (All-sort_texts _ (member_ids group.id memberships)
            (member_ids-are group.id memberships))))

-- The members that an audience names.
abbrev pub is_addressed : String → Sender → Audience → List Membership → String → Bool
is_addressed group_id sender (Audience.dm a) memberships m = a == m
is_addressed group_id sender (Audience.multicast ids) memberships m = contains m ids
is_addressed group_id sender (Audience.everyone revision) memberships m =
    is_member group_id m memberships && not (is_sender sender m)

contains-keep :
    (p : String → Bool) (m : String) (xs : List String)
    → contains m (keep p xs) ≡ (contains m xs && p m)
contains-keep p m [] = refl
contains-keep p m (x ∷ xs) = ground (arith, contains-keep p m xs, eq_iff x m)

pub contains-insert_text :
    (m a : String) (bs : List String) → contains m (insert_text a bs) ≡ (a == m || contains m bs)
unfolding insert_text
contains-insert_text m a [] = refl
contains-insert_text m a (b ∷ bs) = elim (Bool-cases (text_before b a)) [
  | inl e ↦ rw e (ground (arith, contains-insert_text m a bs))
  | inr e ↦ rw e refl
]

pub contains-sort_texts :
    (m : String) (bs : List String) → contains m (sort_texts bs) ≡ contains m bs
unfolding sort_texts
contains-sort_texts m [] = refl
contains-sort_texts m (b ∷ bs) =
    ground (arith, contains-insert_text m b (sort_texts bs), contains-sort_texts m bs)

contains-member_ids :
    (group_id m : String) (ms : List Membership)
    → contains m (member_ids group_id ms) ≡ is_member group_id m ms
unfolding member_ids is_member
contains-member_ids group_id m [] = refl
contains-member_ids group_id m (x ∷ ms) = ground (arith, contains-member_ids group_id m ms)

pub resolve_recipients-addressed :
    (group : Group) (sender : Sender) (audience : Audience) (memberships : List Membership)
    {recipients : List String}
    → resolve_recipients group sender audience memberships ≡ done recipients
    → (m : String) → contains m recipients ≡ is_addressed group.id sender audience memberships m
unfolding resolve_recipients resolve_requested
resolve_recipients-addressed group sender (Audience.dm a) memberships {recipients} h m =
    let same : (a ∷ []) ≡ recipients = ground arith in ap (contains m) (sym same) ∙ ground arith
resolve_recipients-addressed group sender (Audience.multicast ids) memberships {recipients} h m =
    let same : ids ≡ recipients = ground arith in ap (contains m) (sym same)
resolve_recipients-addressed group sender (Audience.everyone revision) memberships {recipients} h
      m =
    let all = sort_texts (member_ids group.id memberships) in
    let same : keep (λ a. not (is_sender sender a)) all ≡ recipients = ground arith in
    ap (contains m) (sym same)
    ∙ contains-keep (λ a. not (is_sender sender a)) m all
    ∙ ap (λ b. b && not (is_sender sender m))
        (contains-sort_texts m (member_ids group.id memberships)
          ∙ contains-member_ids group.id m memberships)
