-- ===== src/Reporters/Rows.antt =====
-- Lists of sessions under the writes of the store: what holds of each row.
use nanasa.Prelude.{
  ℕ, String, Bool, true, false, ◌≡◌, refl, subst, Option, none, some, List, [], ◌∷◌, arith, ltb,
  ◌⊎◌, All, Bool-cases, inl, inr,
}
use nanasa.Reporters.Types.{Session, update_sessions}
use nanasa.Reporters.Sessions.{current_session, latest, is_current}

pub All-updated {ℓ κ} :
    (P : Session → Type ℓ) (Q : Session → Type κ) (p : Session → Bool) (f : Session → Session)
    (ss : List Session)
    → ((s : Session) → p s ≡ true → P s → Q (f s))
    → ((s : Session) → p s ≡ false → P s → Q s)
    → All P ss
    → All Q (update_sessions p f ss)
unfolding update_sessions
All-updated P Q p f [] k j h = tt
All-updated P Q p f (s ∷ ss) k j h = (
  elim (Bool-cases (p s)) [ inl e ↦ rw e (k s e h.0) | inr e ↦ rw e (j s e h.0) ],
  All-updated P Q p f ss k j h.1,
)

pub All-update_sessions {ℓ} :
    (P : Session → Type ℓ) (p : Session → Bool) (f : Session → Session) (ss : List Session)
    → ((s : Session) → p s ≡ true → P s → P (f s))
    → All P ss
    → All P (update_sessions p f ss)
All-update_sessions P p f ss k h = All-updated P P p f ss k (λ s e x. x) h

latest_one : (x s : Session) (o : Option Session) → latest x o ≡ some s → (x ≡ s) ⊎ (o ≡ some s)
latest_one x s none h = inl (ground arith)
latest_one x s (some t) h = elim (Bool-cases (ltb x.opened_at t.opened_at)) [
  | inl e ↦ inr (rw e at h)
  | inr e ↦ let found : some x ≡ some s = rw e at h in inl (ground arith)
]

-- A row that is current is one of the table.
pub current_session-All {ℓ} :
    (P : Session → Type ℓ) (run_id : String) (generation : ℕ) (ss : List Session) {s : Session}
    → All P ss
    → current_session run_id generation ss ≡ some s
    → P s × (is_current run_id generation s ≡ true)
unfolding current_session
current_session-All P run_id generation [] h e = absurd (cc)
current_session-All P run_id generation (x ∷ ss) {s} h e =
    elim (Bool-cases (is_current run_id generation x)) [
      | inr k ↦ current_session-All P run_id generation ss h.1 (rw k at e)
      | inl k ↦ elim (latest_one x s (current_session run_id generation ss) (rw k at e)) [
        | inl same ↦ subst (λ y. P y × (is_current run_id generation y ≡ true)) same (h.0, k)
        | inr rest ↦ current_session-All P run_id generation ss h.1 rest
      ]
    ]

-- None is current where none is open.
pub current_session-none :
    (run_id : String) (generation : ℕ) (ss : List Session)
    → All (λ s. is_current run_id generation s ≡ false) ss
    → current_session run_id generation ss ≡ none
unfolding current_session
current_session-none run_id generation [] h = refl
current_session-none run_id generation (s ∷ ss) h =
    rw h.0 (current_session-none run_id generation ss h.1)
