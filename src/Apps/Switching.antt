-- ===== src/Apps/Switching.antt =====
-- What each operation leaves in the state file, whatever fails and wherever it is interrupted.
use rugix.Common.{
  ℕ, ◌≡◌, ◌≢◌, ◌⊎◌, inl, inr, refl, Bool, true, false, Option, none, some, if◌then◌else◌,
}
use rugix.Common.Text.{Text}
use rugix.Apps.{
  Error, switching, active, error, Message, rollback_failed, activation_failed, StateFile, holds,
  World, Result, ok, err, crashed, M, pure, or_raise, caught, attempt, continue_with, ◌>>=◌, ◌>>◌,
  ensure, call, Call, activate, deactivate, AppGeneration, find_generation, manifest_unreadable,
  unsupported_orchestrator, metadata_unreadable,
}
use rugix.Apps.Manager.{
  write_state, exists, is_complete, generation_dir, manifest_of, supported, load_orchestrator,
  meta_of, record_activation, mark_activated, run_activate, run_deactivate, press_on,
  deactivate_old, give_up, after_rollback, roll_back, after_activation, activate_new, do_switch,
}
use rugix.Apps.Triples.{
  Outcome, Triple, Silent, Silent-Triple, attempt-Triple, >>=-Triple, >>=-Silent, perform-Silent,
  call-Silent, write_state-Triple, weaken-Triple,
}

pub load_orchestrator-Silent : (n : ℕ) → Silent (load_orchestrator n)
unfolding load_orchestrator generation_dir
load_orchestrator-Silent n w = by_manifest (manifest_of (find_generation n w.generations))
  where
    by_manifest :
        (o : Option Text)
        → (continue_with
            (λ name. ensure (supported name) unsupported_orchestrator)
            (or_raise o manifest_unreadable w)).1.state
          ≡ w.state
    by_manifest none = refl
    by_manifest (some name) = refl

record_activation-Silent : (n : ℕ) (meta : AppGeneration) → Silent (record_activation n meta)
unfolding record_activation
record_activation-Silent n meta = perform-Silent _ (λ v. refl)

mark_activated-Silent : (n : ℕ) → Silent (mark_activated n)
unfolding mark_activated generation_dir
mark_activated-Silent n w = by_meta (meta_of (find_generation n w.generations))
  where
    by_meta :
        (o : Option AppGeneration)
        → (continue_with (record_activation n) (or_raise o metadata_unreadable w)).1.state ≡ w.state
    by_meta none = refl
    by_meta (some meta) = record_activation-Silent n meta w

pub call_supported-Silent : (n : ℕ) (c : Call) → Silent (load_orchestrator n >> call c)
call_supported-Silent n c =
    >>=-Silent (load_orchestrator n) (λ _. call c) (load_orchestrator-Silent n) (λ _. call-Silent c)

run_deactivate-Silent : (n : ℕ) (r : Bool) → Silent (run_deactivate n r)
unfolding run_deactivate generation_dir
run_deactivate-Silent n r w = by_dir (exists (find_generation n w.generations))
  where
    by_dir :
        (b : Bool)
        → ((if b then (load_orchestrator n >> call (deactivate n r)) else pure tt) w).1.state
          ≡ w.state
    by_dir true = call_supported-Silent n (deactivate n r) w
    by_dir false = refl

-- Activation writes the state at last.
pub run_activate-Triple :
    (P : StateFile → Type 0) (n : ℕ) (r : Bool)
    → Triple P (run_activate n r) (λ a s. s ≡ holds (active n)) P P
unfolding run_activate
run_activate-Triple P n r =
    >>=-Triple P (λ a. P) _ P P (load_orchestrator n) _
      (Silent-Triple P _ (load_orchestrator-Silent n))
      (λ a.
        >>=-Triple P (λ b. P) _ P P (call (activate n r)) _ (Silent-Triple P _ (call-Silent _))
          (λ b.
            >>=-Triple P (λ c. P) _ P P (mark_activated n) _
              (Silent-Triple P _ (mark_activated-Silent n))
              (λ c. write_state-Triple (active n) P (λ s. s ≡ holds (active n)) P refl (λ u h. h))))

-- Where a switch to the generation `to` can end.
abbrev pub Arrived : Option ℕ → ℕ → StateFile → Type 0
Arrived from to s =
    (s ≡ holds (active to)) ⊎ ((prev : ℕ) × (from ≡ some prev) × (s ≡ holds (active prev)))

abbrev pub Broken : Option ℕ → ℕ → StateFile → Type 0
Broken from to s = (m : Message) × (s ≡ holds (error from to m))

module _ (from : Option ℕ) (to : ℕ) (sw : StateFile) where
  -- The file still says that the switch is under way, or says that it failed.
  abbrev pub Under : StateFile → Type 0
  Under s = s ≡ sw

  abbrev pub Stopped : StateFile → Type 0
  Stopped s = (s ≡ sw) ⊎ Broken from to s

  give_up-Triple :
      (e : Error) → Triple Under (give_up from to e) (λ a. Arrived from to) Stopped Under
  unfolding give_up
  give_up-Triple e =
      >>=-Triple Under (λ a. Broken from to) _ Stopped Under
        (write_state (error from to (activation_failed e))) _
        (weaken-Triple Under (λ a. Broken from to) _ Under Stopped Under Under
          (write_state (error from to (activation_failed e))) (λ a s h. h) (λ s h. inl h) (λ s h. h)
          (write_state-Triple (error from to (activation_failed e)) Under (Broken from to) Under
            (activation_failed e, refl) (λ u h. h)))
        (λ a w h. inr h)

  after_rollback-Triple :
      (prev : ℕ) (e : Error) (failure : Option Error)
      → from ≡ some prev
      → Triple
          (λ s. (failure ≡ none → s ≡ holds (active prev)) × (failure ≢ none → Under s))
          (after_rollback prev to e failure)
          (λ a. Arrived from to)
          Stopped
          Under
  unfolding after_rollback
  after_rollback-Triple prev e none same w (h, k) = inr (prev, same, h refl)
  after_rollback-Triple prev e (some e') same w (h, k) =
      >>=-Triple Under (λ a. Broken from to) (λ a. Arrived from to) Stopped Under
        (write_state (error (some prev) to (rollback_failed prev))) _
        (weaken-Triple Under (λ a. Broken from to) _ Under Stopped Under Under
          (write_state (error (some prev) to (rollback_failed prev))) (λ a s h. h) (λ s h. inl h)
          (λ s h. h)
          (write_state-Triple (error (some prev) to (rollback_failed prev)) Under (Broken from to)
            Under (rollback_failed prev, rw same refl) (λ u h. h)))
        (λ a w h. inr h) w (k (λ p. cc))

  roll_back_prev-Triple :
      (prev : ℕ) (e : Error)
      → from ≡ some prev
      → Triple Under
          (attempt (run_activate prev true) >>= after_rollback prev to e)
          (λ a. Arrived from to)
          Stopped
          Under
  roll_back_prev-Triple prev e same =
      >>=-Triple Under
        (λ failure s. (failure ≡ none → s ≡ holds (active prev)) × (failure ≢ none → Under s))
        (λ a. Arrived from to) Stopped Under (attempt (run_activate prev true))
        (after_rollback prev to e)
        (attempt-Triple Under (λ s. s ≡ holds (active prev)) Under Under Stopped _
          (run_activate prev true) (λ s h. ((λ p. h), λ p. absurd (p refl)))
          (λ e' s h. ((λ p. cc), λ p. h)) (run_activate-Triple Under prev true))
        (λ failure. after_rollback-Triple prev e failure same)

roll_back-Triple :
    (from : Option ℕ) (to : ℕ) (sw : StateFile) (e : Error)
    → Triple
        (Under from to sw)
        (roll_back from to e)
        (λ a. Arrived from to)
        (Stopped from to sw)
        (Under from to sw)
unfolding roll_back generation_dir
roll_back-Triple none to sw e w h = give_up-Triple none to sw e w h
roll_back-Triple (some prev) to sw e w h =
    by_complete (is_complete (find_generation prev w.generations))
  where
    by_complete :
        (b : Bool)
        → Outcome
            (λ a. Arrived (some prev) to)
            (Stopped (some prev) to sw)
            (Under (some prev) to sw)
            ((if b
                then (attempt (run_activate prev true) >>= after_rollback prev to e)
                else give_up (some prev) to e)
              w)
    by_complete true = roll_back_prev-Triple (some prev) to sw prev e refl w h
    by_complete false = give_up-Triple (some prev) to sw e w h

after_activation-Triple :
    (from : Option ℕ) (to : ℕ) (sw : StateFile) (failure : Option Error)
    → Triple
        (λ s. (failure ≡ none → s ≡ holds (active to)) × (failure ≢ none → s ≡ sw))
        (after_activation from to failure)
        (λ a. Arrived from to)
        (Stopped from to sw)
        (Under from to sw)
unfolding after_activation
after_activation-Triple from to sw none w (h, k) = inl (h refl)
after_activation-Triple from to sw (some e) w (h, k) =
    >>=-Triple (Under from to sw) (λ a. Under from to sw) (λ a. Arrived from to)
      (Stopped from to sw) (Under from to sw) (attempt (run_deactivate to true))
      (λ cleanup. roll_back from to e)
      (attempt-Triple (Under from to sw) (Under from to sw) (Under from to sw) (Under from to sw)
        (Stopped from to sw) (λ a. Under from to sw) (run_deactivate to true) (λ s p. p)
        (λ x s p. p)
        (Silent-Triple (Under from to sw) (run_deactivate to true) (run_deactivate-Silent to true)))
      (λ cleanup. roll_back-Triple from to sw e) w (k (λ p. cc))

pub activate_new-Triple :
    (from : Option ℕ) (to : ℕ) (sw : StateFile) (r : Bool)
    → Triple
        (Under from to sw)
        (activate_new from (some to) r)
        (λ a. Arrived from to)
        (Stopped from to sw)
        (Under from to sw)
unfolding activate_new
activate_new-Triple from to sw r =
    >>=-Triple (Under from to sw)
      (λ failure s. (failure ≡ none → s ≡ holds (active to)) × (failure ≢ none → s ≡ sw))
      (λ a. Arrived from to) (Stopped from to sw) (Under from to sw) (attempt (run_activate to r))
      (after_activation from to)
      (attempt-Triple (Under from to sw) (λ s. s ≡ holds (active to)) (Under from to sw)
        (Under from to sw) (Stopped from to sw) _ (run_activate to r)
        (λ s h. ((λ p. h), λ p. absurd (p refl))) (λ e' s h. ((λ p. cc), λ p. h))
        (run_activate-Triple (Under from to sw) to r))
      (after_activation-Triple from to sw)

press_on-Silent : (to : Option ℕ) (failure : Option Error) → Silent (press_on to failure)
unfolding press_on
press_on-Silent to none w = refl
press_on-Silent none (some e) w = refl
press_on-Silent (some n) (some e) w = refl

pub attempt-Silent : {A : Type 0} (m : M A) → Silent m → Silent (attempt m)
attempt-Silent {A} m h w = by_result (m w) (h w)
  where
    by_result : (r : Result A × World) → r.1.state ≡ w.state → (caught r).1.state ≡ w.state
    by_result (ok a, v) e = e
    by_result (err x, v) e = e
    by_result (crashed, v) e = e

deactivate_old-Silent : (from to : Option ℕ) (r : Bool) → Silent (deactivate_old from to r)
unfolding deactivate_old
deactivate_old-Silent none to r w = refl
deactivate_old-Silent (some n) to r w =
    >>=-Silent (attempt (run_deactivate n r)) (press_on to)
      (attempt-Silent (run_deactivate n r) (run_deactivate-Silent n r)) (press_on-Silent to) w

-- A switch that begins at the contents `s0` of the state file.
abbrev pub switch_file : Option ℕ → Option ℕ → Bool → StateFile
switch_file from to r = holds (switching from to (some r))

module _ (from to : Option ℕ) (r : Bool) (s0 : StateFile) where
  pub switch_parts :
      (Q : StateFile → Type 0) (E C : StateFile → Type 0)
      → ((s : StateFile) → s ≡ s0 → E s × C s)
      → ((s : StateFile) → s ≡ switch_file from to r → E s × C s)
      → Triple (λ s. s ≡ switch_file from to r) (activate_new from to r) (λ a. Q) E C
      → Triple (λ s. s ≡ s0) (do_switch from to r) (λ a. Q) E C
  unfolding do_switch
  switch_parts Q E C at_start under rest =
      let Sw : StateFile → Type 0 = λ s. s ≡ switch_file from to r in
      let At : StateFile → Type 0 = λ s. s ≡ s0 in
      >>=-Triple At (λ a. Sw) (λ a. Q) E C (write_state (switching from to (some r))) _
        (weaken-Triple At (λ a. Sw) (λ a. Sw) At E At C (write_state (switching from to (some r)))
          (λ a s h. h) (λ s h. (at_start s h).0) (λ s h. (at_start s h).1)
          (write_state-Triple (switching from to (some r)) At Sw At refl (λ u h. h)))
        (λ a.
          >>=-Triple Sw (λ b. Sw) (λ b. Q) E C (deactivate_old from to r) _
            (weaken-Triple Sw (λ b. Sw) (λ b. Sw) Sw E Sw C (deactivate_old from to r) (λ b s h. h)
              (λ s h. (under s h).0) (λ s h. (under s h).1)
              (Silent-Triple Sw (deactivate_old from to r) (deactivate_old-Silent from to r)))
            (λ b. rest))
