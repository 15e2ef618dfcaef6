-- ===== src/Screen/Examples.antt =====
-- A screen that works, and turns idle.
use nanasa.Prelude.{ℕ, ◌==◌, true, false, not, ◌&&◌, ◌≡◌, refl, List, [], ◌∷◌, contains}
use nanasa.Screen.Stabilizer.{
  ScreenState, ScreenState-discrete, Signal, Reason, Stabilizer, reset_for_process, is_plain_idle,
  observe_idle, observe_change, observe_screen, observe_screens,
}
use nanasa.Screen.Paced.{HeldFor, idle_waits}
use nanasa.Screen.Dirty.{mark_dirty, begin_capture, accepts, mark_all, clear_sequence, accepts_lem}

program : Unit {0}
unfolding ScreenState-discrete reset_for_process is_plain_idle observe_idle observe_change
    observe_screen observe_screens mark_dirty begin_capture accepts mark_all clear_sequence
program = tt

abbrev working : Signal
working = record {
  state = ScreenState.working;
  visible_idle = false;
  visible_working = true;
  visible_blocker = false;
}

abbrev idle : Signal
idle = record {
  state = ScreenState.idle;
  visible_idle = false;
  visible_working = false;
  visible_blocker = false;
}

abbrev seen : List (Signal × ℕ)
seen = (working, 4000) ∷ (idle, 4100) ∷ (idle, 4150) ∷ (idle, 4200) ∷ []

abbrev after : Stabilizer
after = observe_screens (reset_for_process 1000) seen

third_confirms : (observe_screen idle 4300 after).1.reason ≡ Reason.idle_confirmed
unfolding program
third_confirms = refl

idle_waits_example : HeldFor 200 4300 after.pending_idle_started_at
idle_waits_example =
    idle_waits 1000 seen idle 4300 (unfold program in refl) refl refl refl (unfold program in refl)

accepts_lem_example :
    accepts (begin_capture "run1" "f" []) "f" (mark_all ("run2" ∷ []) [])
    ≡ ("f" == "f" && not (contains "run1" ("run2" ∷ [])))
accepts_lem_example = accepts_lem "run1" "f" "f" ("run2" ∷ []) []

-- A key that is cleared starts again, and an old capture is taken for a new one.
cleared_accepts :
    accepts (begin_capture "run1" "f" []) "f" (clear_sequence "run1" (mark_dirty "run1" [])) ≡ true
unfolding program
cleared_accepts = refl
