-- ===== src/Messages/Distinct.antt =====
-- No member receives a message twice (`#resolveRecipients` of apps/daemon/src/store.ts).
use nanasa.Prelude.{
  String, eq_iff, true, false, not, ◌≡◌, refl, subst, List, [], ◌∷◌, arith, keep, contains,
  Bool-cases, inl, inr, IsDistinct, IsDistinct-keep,
}
use nanasa.Delivery.Types.{Membership}
use nanasa.Messages.Types.{Sender, Audience, Group, done, all_distinct, is_audience}
use nanasa.Messages.Audiences.{
  is_sender, member_ids, sort_texts, insert_text, text_before, resolve_requested,
  resolve_recipients,
}
use nanasa.Messages.Recipients.{contains-insert_text}

all_distinct-IsDistinct : (xs : List String) → all_distinct xs ≡ true → IsDistinct xs
all_distinct-IsDistinct [] h = tt
all_distinct-IsDistinct (x ∷ xs) h = (ground arith, all_distinct-IsDistinct xs (ground arith))

insert_text-IsDistinct :
    (a : String) (bs : List String)
    → contains a bs ≡ false
    → IsDistinct bs
    → IsDistinct (insert_text a bs)
unfolding insert_text
insert_text-IsDistinct a [] h d = (refl, tt)
insert_text-IsDistinct a (b ∷ bs) h d = elim (Bool-cases (text_before b a)) [
  | inl e ↦
      let rest : contains a bs ≡ false = ground arith in
      rw e (
        ground (arith, contains-insert_text b a bs, eq_iff a b, eq_iff b a, d.0),
        insert_text-IsDistinct a bs rest d.1,
      )
  | inr e ↦ rw e (h, d)
]

contains-sorted :
    (m : String) (bs : List String) → contains m bs ≡ false → contains m (sort_texts bs) ≡ false
unfolding sort_texts
contains-sorted m [] h = refl
contains-sorted m (b ∷ bs) h =
    ground (arith, contains-insert_text m b (sort_texts bs), contains-sorted m bs)

sort_texts-IsDistinct : (bs : List String) → IsDistinct bs → IsDistinct (sort_texts bs)
unfolding sort_texts
sort_texts-IsDistinct [] d = tt
sort_texts-IsDistinct (b ∷ bs) d =
    insert_text-IsDistinct b (sort_texts bs) (contains-sorted b bs d.0)
      (sort_texts-IsDistinct bs d.1)

pub resolve_recipients-IsDistinct :
    (group : Group) (sender : Sender) (audience : Audience) (memberships : List Membership)
    {recipients : List String}
    → is_audience audience ≡ true
    → IsDistinct (member_ids group.id memberships)
    → resolve_recipients group sender audience memberships ≡ done recipients
    → IsDistinct recipients
unfolding resolve_recipients resolve_requested
resolve_recipients-IsDistinct group sender (Audience.dm a) memberships {recipients} valid d h =
    let same : (a ∷ []) ≡ recipients = ground arith in subst IsDistinct same (refl, tt)
resolve_recipients-IsDistinct group sender (Audience.multicast ids) memberships {recipients} valid d
      h =
    let same : ids ≡ recipients = ground arith in
    subst IsDistinct same (all_distinct-IsDistinct ids (ground arith))
resolve_recipients-IsDistinct group sender (Audience.everyone revision) memberships {recipients}
      valid d h =
    let all = sort_texts (member_ids group.id memberships) in
    let same : keep (λ a. not (is_sender sender a)) all ≡ recipients = ground arith in
    subst IsDistinct same (
      IsDistinct-keep (λ a. not (is_sender sender a)) all
        (sort_texts-IsDistinct (member_ids group.id memberships) d))
