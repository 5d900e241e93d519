-- ===== src/Apps/Recovery.antt =====
-- Where the recovery of an app ends, by the state that it finds.
use rugix.Common.{ℕ, ◌≡◌, ◌≢◌, inl, inr, refl, true, false, Option, none, some}
use rugix.Apps.{
  Error, AppState, inactive, switching, active, starting, stopping, error, StateFile, absent,
  corrupt, holds, World, M, pure, attempt, continue_with, ◌>>=◌,
}
use rugix.Apps.Manager.{
  read_file, read_state, write_state, run_activate, run_start, run_stop, unwrap_or, fall_back,
  recover_state, recover_app,
}
use rugix.Apps.Triples.{
  Outcome, Triple, Silent, Silent-Triple, attempt-Triple, >>=-Triple, write_state-Triple,
}
use rugix.Apps.Switching.{Arrived, Stopped, switch_file, attempt-Silent, run_activate-Triple}
use rugix.Apps.Outcomes.{
  UnchangedOr, do_switch_to-Triple, do_switch_off-Triple, run_start-Silent, run_stop-Silent,
}

-- The state that a recovery leaves, by the one it found: a switch is completed or rolled back, an app
-- that was being started or stopped is active again, an app in the error state may be activated.
abbrev pub Recovered : StateFile → StateFile → Type 0
Recovered (holds (switching from (some to) r)) s = Arrived from to s
Recovered (holds (switching from none r)) s = s ≡ holds inactive
Recovered (holds (starting n)) s = s ≡ holds (active n)
Recovered (holds (stopping n)) s = s ≡ holds (active n)
Recovered (holds (error from to m)) s = UnchangedOr (Arrived from to) (holds (error from to m)) s
Recovered (holds inactive) s = s ≡ holds inactive
Recovered (holds (active n)) s = s ≡ holds (active n)
Recovered absent s = s ≡ absent
Recovered corrupt s = false ≡ true

-- After an error.
abbrev pub Refused : StateFile → StateFile → Type 0
Refused (holds (switching from (some to) r)) s =
    UnchangedOr (Stopped from to (switch_file from (some to) true))
      (holds (switching from (some to) r)) s
Refused (holds (switching from none r)) s =
    UnchangedOr (λ u. u ≡ switch_file from none true) (holds (switching from none r)) s
Refused s0 s = s ≡ s0

-- After a crash.
abbrev pub Cut : StateFile → StateFile → Type 0
Cut (holds (switching from to r)) s =
    UnchangedOr (λ u. u ≡ switch_file from to true) (holds (switching from to r)) s
Cut s0 s = s ≡ s0

module _ (s0 : StateFile) where
  abbrev At : StateFile → Type 0
  At s = s ≡ s0

  resume_serving-Triple :
      (run : M (Unit {0})) (n : ℕ)
      → Silent run
      → Triple At
          (attempt run >>= λ failure. write_state (active n))
          (λ a s. s ≡ holds (active n))
          At
          At
  resume_serving-Triple run n quiet =
      >>=-Triple At (λ a. At) (λ a s. s ≡ holds (active n)) At At (attempt run)
        (λ failure. write_state (active n))
        (Silent-Triple At (attempt run) (attempt-Silent run quiet))
        (λ a. write_state-Triple (active n) At (λ s. s ≡ holds (active n)) At refl (λ u h. h))

  -- An activation whose error is caught.
  abbrev Tried : ℕ → Option Error → StateFile → Type 0
  Tried n failure s = (failure ≡ none → s ≡ holds (active n)) × (failure ≢ none → At s)

  try_activate-Triple : (n : ℕ) → Triple At (attempt (run_activate n true)) (Tried n) At At
  try_activate-Triple n =
      attempt-Triple At (λ s. s ≡ holds (active n)) At At At (Tried n) (run_activate n true)
        (λ s h. ((λ p. h), λ p. absurd (p refl))) (λ e s h. ((λ p. cc), λ p. h))
        (run_activate-Triple At n true)

  fall_back-Triple :
      (from : Option ℕ) (to : ℕ) (failure : Option Error)
      → Triple
          (Tried (unwrap_or from to) failure)
          (fall_back from to failure)
          (λ a. UnchangedOr (Arrived from to) s0)
          At
          At
  unfolding fall_back
  fall_back-Triple none to none w (h, k) = inr (inl (h refl))
  fall_back-Triple (some prev) to none w (h, k) = inr (inr (prev, refl, h refl))
  fall_back-Triple none to (some e) w (h, k) = inl (k (λ p. cc))
  fall_back-Triple (some prev) to (some e) w (h, k) =
      >>=-Triple At (Tried to) (λ a. UnchangedOr (Arrived (some prev) to) s0) At At
        (attempt (run_activate to true)) (λ failure. pure tt) (try_activate-Triple to) by_failure w
        (k (λ p. cc))
    where
      by_failure :
          (failure : Option Error)
          → Triple (Tried to failure) (pure tt) (λ a. UnchangedOr (Arrived (some prev) to) s0) At At
      by_failure none v (f, g) = inr (inl (f refl))
      by_failure (some e') v (f, g) = inl (g (λ p. cc))

recover_state_ends :
    (s : AppState)
    → Triple
        (λ u. u ≡ holds s)
        (recover_state s)
        (λ a. Recovered (holds s))
        (Refused (holds s))
        (Cut (holds s))
unfolding recover_state
recover_state_ends (switching from (some to) r) w h =
    do_switch_to-Triple from to true (holds (switching from (some to) r)) w h
recover_state_ends (switching from none r) w h =
    do_switch_off-Triple from true (holds (switching from none r)) w h
recover_state_ends (starting n) w h =
    resume_serving-Triple (holds (starting n)) (run_start n true) n (run_start-Silent true n) w h
recover_state_ends (stopping n) w h =
    resume_serving-Triple (holds (stopping n)) (run_stop n true) n (run_stop-Silent true n) w h
recover_state_ends (error from to m) w h =
    >>=-Triple (At (holds (error from to m))) (Tried (holds (error from to m)) (unwrap_or from to))
      (λ a. UnchangedOr (Arrived from to) (holds (error from to m))) (At (holds (error from to m)))
      (At (holds (error from to m))) (attempt (run_activate (unwrap_or from to) true))
      (fall_back from to) (try_activate-Triple (holds (error from to m)) (unwrap_or from to))
      (fall_back-Triple (holds (error from to m)) from to) w h
recover_state_ends inactive w h = h
recover_state_ends (active n) w h = h

-- `recover_app`, for every schedule: once it succeeds, a switch has been completed or rolled back, an
-- app that was being started or stopped is active, an app in the error state is active at one of the
-- two generations or is still in that state, and any other state is as it was; after an error or a
-- crash the file is as it was, or the switch that it named is under way again or has failed.
pub recover_app_ends :
    (w : World) → Outcome (λ a. Recovered w.state) (Refused w.state) (Cut w.state) (recover_app w)
unfolding recover_app read_state recover_state
recover_app_ends w = by_file w.state refl
  where
    by_file :
        (u : StateFile)
        → w.state ≡ u
        → Outcome
            (λ a. Recovered u)
            (Refused u)
            (Cut u)
            (continue_with recover_state (read_file u w))
    by_file absent e = e
    by_file corrupt e = e
    by_file (holds s) e = recover_state_ends s w e
