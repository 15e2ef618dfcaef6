-- ===== src/Screen/Paced.antt =====
-- What the stabilizer publishes, and how long it holds an idle screen back.
use nanasa.Prelude.{
  ℕ, ◌+◌, ◌≤◌, true, false, not, ◌≡◌, refl, ◌⊎◌, inl, inr, Option, none, some, List, [], ◌∷◌, arith,
  same, same_sound, same_refl, Bool-cases, if_ind,
}
use nanasa.Screen.Stabilizer.{
  ScreenState, ScreenState-discrete, Signal, Reason, ScreenDecision, Stabilizer, reset_for_process,
  confirmation_interval_ms, clear_pending_idle, is_working, is_idle, same_signal, is_plain_idle,
  in_grace, held, observe_idle, observe_change, observe_screen, observe_screens,
}

same_signal_self : (a : Signal) → same_signal a a ≡ true
same_signal_self a = ground (arith, same_refl ScreenState-discrete a.state)

working_not_idle :
    (a b : Signal) → is_working a.state ≡ true → is_idle b.state ≡ true → same_signal a b ≡ false
working_not_idle a b w i = elim (Bool-cases (same ScreenState-discrete a.state b.state)) [
  | inl e ↦ let p = same_sound ScreenState-discrete a.state b.state e in absurd (ground arith)
  | inr e ↦ ground arith
]

-- What a decision says of what was published before.
abbrev Tells : Signal → Stabilizer × ScreenDecision → Type 0
Tells before (s, d) = (d.signal ≡ s.published) × (d.publish ≡ not (same_signal before s.published))

observe_idle-Tells :
    (pending : Option ℕ) (signal : Signal) (now : ℕ) (s : Stabilizer)
    → is_plain_idle signal s ≡ true
    → Tells s.published (observe_idle pending signal now s)
unfolding observe_idle is_plain_idle
observe_idle-Tells none signal now s plain = (refl, ground (arith, same_signal_self s.published))
observe_idle-Tells (some started) signal now s plain =
    ground (arith, same_signal_self s.published, working_not_idle s.published signal)

observe_change-Tells :
    (signal : Signal) (s : Stabilizer) → Tells s.published (observe_change signal s)
unfolding observe_change
observe_change-Tells signal s = elim (Bool-cases (same_signal s.published signal)) [
  | inl e ↦ rw e (refl, ground (arith, same_signal_self s.published))
  | inr e ↦ rw e (refl, ground arith)
]

-- The decision always hands out the signal that is published from then on, and tells to publish
-- it exactly when it differs from the one before.
pub observe_screen_publishes :
    (signal : Signal) (now : ℕ) (s : Stabilizer)
    → ((observe_screen signal now s).1.signal ≡ (observe_screen signal now s).0.published)
      × ((observe_screen signal now s).1.publish
          ≡ not (same_signal s.published (observe_screen signal now s).0.published))
unfolding observe_screen
observe_screen_publishes signal now s = elim (Bool-cases (in_grace signal now s)) [
  | inl g ↦ rw g (refl, ground (arith, same_signal_self s.published))
  | inr g ↦ elim (Bool-cases (is_plain_idle signal s)) [
    | inl i ↦ rw (g, i) (observe_idle-Tells s.pending_idle_started_at signal now s i)
    | inr i ↦ rw (g, i) (observe_change-Tells signal (clear_pending_idle s))
  ]
]

-- An idle screen that is held back was confirmed at most twice, each time a whole interval after
-- the time before.
abbrev pub Paced : Option ℕ → Option ℕ → ℕ → Type 0
Paced none last n = Unit
Paced (some p) none n = ⊥
Paced (some p) (some l) n = ((n ≡ 1) × (p ≤ l)) ⊎ ((n ≡ 2) × (p + confirmation_interval_ms ≤ l))

abbrev IsPaced : Stabilizer → Type 0
IsPaced s = Paced s.pending_idle_started_at s.last_idle_confirmation_at s.confirmations

observe_idle-IsPaced :
    (pending last : Option ℕ) (signal : Signal) (now : ℕ) (s : Stabilizer)
    → s.pending_idle_started_at ≡ pending
    → s.last_idle_confirmation_at ≡ last
    → Paced pending last s.confirmations
    → IsPaced (observe_idle pending signal now s).0
unfolding observe_idle
observe_idle-IsPaced none last signal now s e f h = inl (refl, omega arith)
observe_idle-IsPaced (some p) none signal now s e f h = absurd h
observe_idle-IsPaced (some p) (some l) signal now s e f h = ground arith

observe_screen-IsPaced :
    (signal : Signal) (now : ℕ) (s : Stabilizer)
    → IsPaced s
    → IsPaced (observe_screen signal now s).0
unfolding observe_screen observe_change
observe_screen-IsPaced signal now s h = elim (Bool-cases (in_grace signal now s)) [
  | inl g ↦ rw g tt
  | inr g ↦ elim (Bool-cases (is_plain_idle signal s)) [
    | inl i ↦
        rw (g, i)
          (observe_idle-IsPaced s.pending_idle_started_at s.last_idle_confirmation_at signal now s
            refl refl h)
    | inr i ↦
        rw (g, i)
          (if_ind (λ r. IsPaced r.0) (same_signal s.published signal)
            (held Reason.unchanged (clear_pending_idle s)) _ tt tt)
  ]
]

observe_screens-IsPaced :
    (s : Stabilizer) (seen : List (Signal × ℕ)) → IsPaced s → IsPaced (observe_screens s seen)
unfolding observe_screens
observe_screens-IsPaced s [] h = h
observe_screens-IsPaced s ((signal, now) ∷ seen) h =
    observe_screens-IsPaced (observe_screen signal now s).0 seen
      (observe_screen-IsPaced signal now s h)

-- The time since which the idle screen was held back.
abbrev pub HeldFor : ℕ → ℕ → Option ℕ → Type 0
HeldFor least now none = ⊥
HeldFor least now (some p) = p + least ≤ now

observe_idle_waits :
    (pending last : Option ℕ) (signal : Signal) (now : ℕ) (s : Stabilizer)
    → s.last_idle_confirmation_at ≡ last
    → Paced pending last s.confirmations
    → (observe_idle pending signal now s).1.publish ≡ true
    → HeldFor 200 now pending
unfolding observe_idle
observe_idle_waits none last signal now s f h e = cc
observe_idle_waits (some p) none signal now s f h e = absurd h
observe_idle_waits (some p) (some l) signal now s f h e = ground arith

shown_idle :
    (signal : Signal) (s : Stabilizer)
    → s.published.state ≡ ScreenState.working
    → signal.state ≡ ScreenState.idle
    → signal.visible_idle ≡ false
    → signal.visible_blocker ≡ false
    → is_plain_idle signal s ≡ true
unfolding is_plain_idle
shown_idle signal s w i p b = rw (w, i, p, b) refl

-- Whatever was seen of a process from its start: a working screen that turns idle, with neither a
-- prompt nor a blocker in sight, is published as idle only after it was held back for at least
-- 200 ms, two whole intervals of confirmation.
pub idle_waits :
    (started : ℕ) (seen : List (Signal × ℕ)) (signal : Signal) (now : ℕ)
    → (observe_screens (reset_for_process started) seen).published.state ≡ ScreenState.working
    → signal.state ≡ ScreenState.idle
    → signal.visible_idle ≡ false
    → signal.visible_blocker ≡ false
    → (observe_screen signal now (observe_screens (reset_for_process started) seen)).1.publish
      ≡ true
    → HeldFor 200 now (observe_screens (reset_for_process started) seen).pending_idle_started_at
unfolding observe_screen
idle_waits started seen signal now working idle unprompted unblocked published =
    let s = observe_screens (reset_for_process started) seen in
    let plain = shown_idle signal s working idle unprompted unblocked in
    let paced =
      observe_screens-IsPaced (reset_for_process started) seen (unfold reset_for_process in tt) in
    elim (Bool-cases (in_grace signal now s)) [
      | inl g ↦ absurd (held_back (rw g at published))
      | inr g ↦
          observe_idle_waits s.pending_idle_started_at s.last_idle_confirmation_at signal now s refl
            paced (rw (g, plain) at published)
    ]
  where
    held_back : false ≡ true → ⊥
    held_back e = cc
