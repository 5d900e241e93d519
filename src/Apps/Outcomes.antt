-- ===== src/Apps/Outcomes.antt =====
-- How the operations of the app manager end, for every schedule of failures and crashes.
use rugix.Common.{
  ℕ, ◌≡◌, ◌≢◌, ◌⊎◌, inl, inr, refl, sym, ap, ◌∙◌, Bool, false, Option, none, some, subst,
}
use rugix.Apps.{
  Error, AppState, inactive, switching, active, starting, stopping, error, StateFile, absent,
  corrupt, holds, World, M, pure, or_raise, attempt, continue_with, ◌>>=◌, ◌>>◌, ensure,
  find_generation, start, stop, no_active_generation, not_complete,
}
use rugix.Apps.Manager.{
  read_file, read_state, write_state, active_in, current_generation, is_complete, generation_dir,
  run_start, run_stop, activate_new, do_switch, activate_generation, deactivate_app, just_active,
  passed_on, start_app, stop_app,
}
use rugix.Apps.Steps.{active_file}
use rugix.Apps.Triples.{
  Outcome, Triple, Silent, Silent-Triple, >>=-Triple, ensure-Silent, write_state-Triple,
  weaken-Triple,
}
use rugix.Apps.Switching.{
  Arrived, Stopped, switch_file, switch_parts, activate_new-Triple, call_supported-Silent,
  attempt-Silent,
}

-- A run stopped before its first write, or behind it.
abbrev pub UnchangedOr : (StateFile → Type 0) → StateFile → StateFile → Type 0
UnchangedOr P s0 s = (s ≡ s0) ⊎ P s

pub do_switch_to-Triple :
    (from : Option ℕ) (to : ℕ) (r : Bool) (s0 : StateFile)
    → Triple
        (λ s. s ≡ s0)
        (do_switch from (some to) r)
        (λ a. Arrived from to)
        (UnchangedOr (Stopped from to (switch_file from (some to) r)) s0)
        (UnchangedOr (λ s. s ≡ switch_file from (some to) r) s0)
do_switch_to-Triple from to r s0 =
    switch_parts from (some to) r s0 (Arrived from to) _ _ (λ s h. (inl h, inl h))
      (λ s h. (inr (inl h), inr h))
      (weaken-Triple (λ s. s ≡ switch_file from (some to) r) (λ a. Arrived from to)
        (λ a. Arrived from to) _ _ _ _ _ (λ a s h. h) (λ s h. inr h) (λ s h. inr h)
        (activate_new-Triple from to (switch_file from (some to) r) r))

pub do_switch_off-Triple :
    (from : Option ℕ) (r : Bool) (s0 : StateFile)
    → Triple
        (λ s. s ≡ s0)
        (do_switch from none r)
        (λ a s. s ≡ holds inactive)
        (UnchangedOr (λ s. s ≡ switch_file from none r) s0)
        (UnchangedOr (λ s. s ≡ switch_file from none r) s0)
unfolding activate_new
do_switch_off-Triple from r s0 =
    switch_parts from none r s0 (λ s. s ≡ holds inactive) _ _ (λ s h. (inl h, inl h))
      (λ s h. (inr h, inr h))
      (write_state-Triple inactive (λ s. s ≡ switch_file from none r) (λ s. s ≡ holds inactive) _
        refl (λ u h. inr h))

-- The active generation is what the file says, where it can be read.
current_generation-Triple :
    (s0 : StateFile)
    → Triple
        (λ s. s ≡ s0)
        current_generation
        (λ from s. (from ≡ active_file s0) × (s ≡ s0))
        (λ s. s ≡ s0)
        (λ s. s ≡ s0)
unfolding current_generation read_state
current_generation-Triple s0 w h = by_file w.state refl
  where
    by_file :
        (u : StateFile)
        → w.state ≡ u
        → Outcome
            (λ from s. (from ≡ active_file s0) × (s ≡ s0))
            (λ s. s ≡ s0)
            (λ s. s ≡ s0)
            (continue_with (λ s. pure (active_in s)) (read_file u w))
    by_file absent e = (ap active_file (sym e ∙ h), h)
    by_file corrupt e = h
    by_file (holds s) e = (ap active_file (sym e ∙ h), h)

-- `activate_generation`: it succeeds with the state at the new generation or back at the old one;
-- after an error the file is as it was, or it says that the switch is under way or that it failed;
-- after a crash it is as it was, or it says that the switch is under way.
pub activate_generation_ends :
    (n : ℕ) (w : World)
    → Outcome
        (λ a. Arrived (active_file w.state) n)
        (UnchangedOr
          (Stopped (active_file w.state) n (switch_file (active_file w.state) (some n) false))
          w.state)
        (UnchangedOr (λ s. s ≡ switch_file (active_file w.state) (some n) false) w.state)
        (activate_generation n w)
unfolding activate_generation generation_dir
activate_generation_ends n w =
    let s0 = w.state in
    let At : StateFile → Type 0 = λ s. s ≡ s0 in
    let E =
      UnchangedOr (Stopped (active_file s0) n (switch_file (active_file s0) (some n) false)) s0 in
    let C = UnchangedOr (λ s. s ≡ switch_file (active_file s0) (some n) false) s0 in
    >>=-Triple At (λ a. At) (λ a. Arrived (active_file s0) n) E C
      (ensure (is_complete (find_generation n w.generations)) not_complete) _
      (weaken-Triple At (λ a. At) (λ a. At) At E At C
        (ensure (is_complete (find_generation n w.generations)) not_complete) (λ a s h. h)
        (λ s h. inl h) (λ s h. inl h)
        (Silent-Triple At (ensure (is_complete (find_generation n w.generations)) not_complete)
          (ensure-Silent (is_complete (find_generation n w.generations)) not_complete)))
      (λ a.
        >>=-Triple At (λ from s. (from ≡ active_file s0) × (s ≡ s0))
          (λ b. Arrived (active_file s0) n) E C current_generation
          (λ from. do_switch from (some n) false)
          (weaken-Triple At _ (λ from s. (from ≡ active_file s0) × (s ≡ s0)) At E At C
            current_generation (λ b s h. h) (λ s h. inl h) (λ s h. inl h)
            (current_generation-Triple s0))
          (λ from v (same, at).
            subst
              (λ f. Outcome (λ b. Arrived (active_file s0) n) E C (do_switch f (some n) false v))
              (sym same) (do_switch_to-Triple (active_file s0) n false s0 v at)))
      w refl

-- `deactivate`: it succeeds with the state inactive, and only where a generation was active; else the
-- file is as it was, or it says that the switch is under way.
pub deactivate_app_ends :
    (w : World)
    → Outcome
        (λ a s. (s ≡ holds inactive) × (active_file w.state ≢ none))
        (UnchangedOr (λ s. s ≡ switch_file (active_file w.state) none false) w.state)
        (UnchangedOr (λ s. s ≡ switch_file (active_file w.state) none false) w.state)
        (deactivate_app w)
unfolding deactivate_app current_generation read_state
deactivate_app_ends w = by_file w.state refl
  where
    switch_off :
        (n : ℕ) (s : AppState)
        → w.state ≡ holds s
        → active_in s ≡ some n
        → Outcome
            (λ a s. (s ≡ holds inactive) × (active_file w.state ≢ none))
            (UnchangedOr (λ s. s ≡ switch_file (active_file w.state) none false) w.state)
            (UnchangedOr (λ s. s ≡ switch_file (active_file w.state) none false) w.state)
            (do_switch (some n) none false w)
    switch_off n s e a =
        let same : active_file w.state ≡ some n = ap active_file e ∙ a in
        let C : StateFile → Type 0 =
          UnchangedOr (λ u. u ≡ switch_file (some n) none false) w.state in
        rw same (
          weaken-Triple (λ u. u ≡ w.state) (λ t u. u ≡ holds inactive)
            (λ t u. (u ≡ holds inactive) × (◌≢◌ {A = Option ℕ} (some n) none)) C C C C
            (do_switch (some n) none false) (λ t u h. (h, λ p. cc)) (λ u h. h) (λ u h. h)
            (do_switch_off-Triple (some n) false w.state) w refl)

    by_file :
        (u : StateFile)
        → w.state ≡ u
        → Outcome
            (λ a s. (s ≡ holds inactive) × (active_file w.state ≢ none))
            (UnchangedOr (λ s. s ≡ switch_file (active_file w.state) none false) w.state)
            (UnchangedOr (λ s. s ≡ switch_file (active_file w.state) none false) w.state)
            (continue_with
              (λ current.
                or_raise current no_active_generation >>= λ n. do_switch (some n) none false)
              (continue_with (λ s. pure (active_in s)) (read_file u w)))
    by_file absent e = inl refl
    by_file corrupt e = inl refl
    by_file (holds inactive) e = inl refl
    by_file (holds (switching f t r)) e = inl refl
    by_file (holds (active n)) e = switch_off n (active n) e refl
    by_file (holds (starting n)) e = switch_off n (starting n) e refl
    by_file (holds (stopping n)) e = switch_off n (stopping n) e refl
    by_file (holds (error f t m)) e = inl refl

-- The state is as it was, or the app was active and the state says what is being done.
abbrev pub Serving : (ℕ → AppState) → StateFile → StateFile → Type 0
Serving doing s0 s = (s ≡ s0) ⊎ ((n : ℕ) × (s0 ≡ holds (active n)) × (s ≡ holds (doing n)))

abbrev pub Served : StateFile → StateFile → Type 0
Served s0 s = (n : ℕ) × (s0 ≡ holds (active n)) × (s ≡ holds (active n))

-- The workload of the active generation is started, or stopped, in a state that says so.
module _ (doing : ℕ → AppState) (run : ℕ → M (Unit {0})) (quiet : (n : ℕ) → Silent (run n)) where
  -- What both operations do, behind the read of the state.
  abbrev pub serve : AppState → M (Unit {0})
  serve s = do
    n ← or_raise (just_active s) no_active_generation
    write_state (doing n)
    failure ← attempt (run n)
    write_state (active n)
    passed_on failure

  passed_on-Triple :
      (s0 : StateFile) (n : ℕ) (failure : Option Error)
      → s0 ≡ holds (active n)
      → Triple
          (λ s. s ≡ holds (active n))
          (passed_on failure)
          (λ a. Served s0)
          (Serving doing s0)
          (Serving doing s0)
  passed_on-Triple s0 n none e w h = (n, e, h)
  passed_on-Triple s0 n (some x) e w h = inl (h ∙ sym e)

  serve_active-Triple :
      (s0 : StateFile) (n : ℕ)
      → s0 ≡ holds (active n)
      → Triple
          (λ s. s ≡ s0)
          (serve (active n))
          (λ a. Served s0)
          (Serving doing s0)
          (Serving doing s0)
  serve_active-Triple s0 n e =
      let At : StateFile → Type 0 = λ s. s ≡ s0 in
      let Doing : StateFile → Type 0 = λ s. s ≡ holds (doing n) in
      let Done : StateFile → Type 0 = λ s. s ≡ holds (active n) in
      >>=-Triple At (λ a. Doing) (λ a. Served s0) (Serving doing s0) (Serving doing s0)
        (write_state (doing n))
        (λ a. attempt (run n) >>= λ failure. write_state (active n) >> passed_on failure)
        (write_state-Triple (doing n) At Doing (Serving doing s0) refl (λ u h. inl h))
        (λ a.
          >>=-Triple Doing (λ b. Doing) (λ b. Served s0) (Serving doing s0) (Serving doing s0)
            (attempt (run n)) (λ failure. write_state (active n) >> passed_on failure)
            (weaken-Triple Doing (λ b. Doing) (λ b. Doing) Doing (Serving doing s0) Doing
              (Serving doing s0) (attempt (run n)) (λ b s h. h) (λ s h. inr (n, e, h))
              (λ s h. inr (n, e, h))
              (Silent-Triple Doing (attempt (run n)) (attempt-Silent (run n) (quiet n))))
            (λ failure.
              >>=-Triple Doing (λ b. Done) (λ b. Served s0) (Serving doing s0) (Serving doing s0)
                (write_state (active n)) (λ b. passed_on failure)
                (write_state-Triple (active n) Doing Done (Serving doing s0) refl
                  (λ u h. inr (n, e, h)))
                (λ b. passed_on-Triple s0 n failure e)))

  pub serve_ends :
      (w : World) (u : StateFile)
      → w.state ≡ u
      → Outcome
          (λ a. Served w.state)
          (Serving doing w.state)
          (Serving doing w.state)
          (continue_with serve (read_file u w))
  serve_ends w absent e = inl refl
  serve_ends w corrupt e = inl refl
  serve_ends w (holds inactive) e = inl refl
  serve_ends w (holds (switching f t r)) e = inl refl
  serve_ends w (holds (active n)) e = serve_active-Triple w.state n e w refl
  serve_ends w (holds (starting n)) e = inl refl
  serve_ends w (holds (stopping n)) e = inl refl
  serve_ends w (holds (error f t m)) e = inl refl

pub run_start-Silent : (r : Bool) (n : ℕ) → Silent (run_start n r)
unfolding run_start
run_start-Silent r n = call_supported-Silent n (start n r)

pub run_stop-Silent : (r : Bool) (n : ℕ) → Silent (run_stop n r)
unfolding run_stop
run_stop-Silent r n = call_supported-Silent n (stop n r)

-- `start_app`: it succeeds only where a generation is active, which stays so; else the file is as it
-- was, or it says that the active generation is being started.
pub start_app_ends :
    (w : World)
    → Outcome
        (λ a. Served w.state)
        (Serving starting w.state)
        (Serving starting w.state)
        (start_app w)
unfolding start_app read_state
start_app_ends w =
    serve_ends starting (λ n. run_start n false) (run_start-Silent false) w w.state refl

pub stop_app_ends :
    (w : World)
    → Outcome
        (λ a. Served w.state)
        (Serving stopping w.state)
        (Serving stopping w.state)
        (stop_app w)
unfolding stop_app read_state
stop_app_ends w = serve_ends stopping (λ n. run_stop n false) (run_stop-Silent false) w w.state refl
