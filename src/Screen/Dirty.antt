-- ===== src/Screen/Dirty.antt =====
-- `ProviderDirtySequence` (apps/daemon/src/providers/provider-observation-stabilizer.ts): is a
-- capture of a screen still good when it comes in?
use nanasa.Prelude.{
  ℕ, ◌+◌, ◌≤◌, String, ◌==◌, eq_iff, Bool, false, not, ◌&&◌, ◌≡◌, refl, List, [], ◌∷◌, arith,
  if◌then◌else◌, nat_eq, or_else, lookup, insert, erase, lookup-insert, contains, Bool-cases, inl,
  inr,
}

-- `#sequences`
abbrev pub Sequences : Type 0
Sequences = List (String × ℕ)

-- ProviderCaptureToken
pub record CaptureToken : Type 0 where
  pub key : String
  pub dirty_sequence : ℕ
  pub fence_digest : String

abbrev sequence_of : String → Sequences → ℕ
sequence_of key m = or_else (lookup key m) 0

-- `markDirty`
unfoldable pub mark_dirty : String → Sequences → Sequences
mark_dirty key m = insert key (sequence_of key m + 1) m

-- `beginCapture`
unfoldable pub begin_capture : String → String → Sequences → CaptureToken
begin_capture key digest m = record {
  key = key;
  dirty_sequence = sequence_of key m;
  fence_digest = digest;
}

-- `accepts`
unfoldable pub accepts : CaptureToken → String → Sequences → Bool
accepts token digest m =
    token.fence_digest == digest && nat_eq token.dirty_sequence (sequence_of token.key m)

-- `clear`
unfoldable pub clear_sequence : String → Sequences → Sequences
clear_sequence key m = erase key m

unfoldable pub mark_all : List String → Sequences → Sequences
mark_all [] m = m
mark_all (key ∷ keys) m = mark_all keys (mark_dirty key m)

sequence_of-mark_all :
    (key : String) (keys : List String) (m : Sequences)
    → (if contains key keys then 1 else 0) + sequence_of key m ≤ sequence_of key (mark_all keys m)
unfolding mark_all mark_dirty
sequence_of-mark_all key [] m = omega arith
sequence_of-mark_all key (k ∷ keys) m = ground (
  arith,
  sequence_of-mark_all key keys (mark_dirty k m),
  lookup-insert k key (sequence_of k m + 1) m,
  eq_iff k key,
)

sequence_of-mark_all_off :
    (key : String) (keys : List String) (m : Sequences)
    → contains key keys ≡ false
    → sequence_of key (mark_all keys m) ≡ sequence_of key m
unfolding mark_all mark_dirty
sequence_of-mark_all_off key [] m h = refl
sequence_of-mark_all_off key (k ∷ keys) m h = ground (
  arith,
  sequence_of-mark_all_off key keys (mark_dirty k m),
  lookup-insert k key (sequence_of k m + 1) m,
  eq_iff k key,
)

-- While no key is cleared, a capture is accepted exactly when its screen was not marked dirty
-- since the capture began and the fence is the one that it began under, whatever became of other
-- screens.
pub accepts_lem :
    (key digest current : String) (keys : List String) (m : Sequences)
    → accepts (begin_capture key digest m) current (mark_all keys m)
      ≡ (digest == current && not (contains key keys))
unfolding accepts begin_capture
accepts_lem key digest current keys m = elim (Bool-cases (contains key keys)) [
  | inl e ↦ ground (arith, sequence_of-mark_all key keys m)
  | inr e ↦ ground (arith, sequence_of-mark_all_off key keys m)
]
