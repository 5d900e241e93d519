-- ===== src/Apps/Keeping.antt =====
-- A property of the world that the effects of the app manager keep is kept by an activation.
use rugix.Common.{ℕ, Bool, true, false, Option, none, some, if◌then◌else◌}
use rugix.Common.Text.{Text}
use rugix.Apps.{
  Error, AppState, inactive, switching, active, error, StateFile, absent, corrupt, holds,
  AppGeneration, World, pure, raise, or_raise, attempt, continue_with, ◌>>=◌, ◌>>◌, ensure, call,
  Call, activate, deactivate, find_generation, manifest_unreadable, unsupported_orchestrator,
  metadata_unreadable, not_complete, rollback_failed, activation_failed,
}
use rugix.Apps.Manager.{
  read_file, read_state, write_state, active_in, current_generation, exists, is_complete,
  generation_dir, manifest_of, supported, load_orchestrator, meta_of, record_activation,
  mark_activated, run_activate, run_deactivate, press_on, deactivate_old, give_up, after_rollback,
  roll_back, after_activation, activate_new, do_switch, activate_generation,
}
use rugix.Apps.Triples.{Keeps, >>=-Keeps, attempt-Keeps}

-- A property of the world that the effects keep is kept by a switch.
module _ (I : World → Type 0) (at_call : (c : Call) → Keeps I (call c))
    (at_write : (s : AppState) → Keeps I (write_state s))
    (at_record : (n : ℕ) (meta : AppGeneration) → Keeps I (record_activation n meta)) where
  load_orchestrator-Keeps : (n : ℕ) → Keeps I (load_orchestrator n)
  unfolding load_orchestrator generation_dir
  load_orchestrator-Keeps n w h = by_manifest (manifest_of (find_generation n w.generations))
    where
      by_manifest :
          (o : Option Text)
          → I
              (continue_with
                (λ name. ensure (supported name) unsupported_orchestrator)
                (or_raise o manifest_unreadable w)).1
      by_manifest none = h
      by_manifest (some name) = h

  mark_activated-Keeps : (n : ℕ) → Keeps I (mark_activated n)
  unfolding mark_activated generation_dir
  mark_activated-Keeps n w h = by_meta (meta_of (find_generation n w.generations))
    where
      by_meta :
          (o : Option AppGeneration)
          → I (continue_with (record_activation n) (or_raise o metadata_unreadable w)).1
      by_meta none = h
      by_meta (some meta) = at_record n meta w h

  run_activate-Keeps : (n : ℕ) (r : Bool) → Keeps I (run_activate n r)
  unfolding run_activate
  run_activate-Keeps n r =
      >>=-Keeps I (load_orchestrator n)
        (λ a. call (activate n r) >> (mark_activated n >> write_state (active n)))
        (load_orchestrator-Keeps n)
        (λ a.
          >>=-Keeps I (call (activate n r)) (λ b. mark_activated n >> write_state (active n))
            (at_call (activate n r))
            (λ b.
              >>=-Keeps I (mark_activated n) (λ c. write_state (active n)) (mark_activated-Keeps n)
                (λ c. at_write (active n))))

  pub run_deactivate-Keeps : (n : ℕ) (r : Bool) → Keeps I (run_deactivate n r)
  unfolding run_deactivate generation_dir
  run_deactivate-Keeps n r w h = by_dir (exists (find_generation n w.generations))
    where
      by_dir :
          (b : Bool)
          → I ((if b then (load_orchestrator n >> call (deactivate n r)) else pure tt) w).1
      by_dir true =
          >>=-Keeps I (load_orchestrator n) (λ a. call (deactivate n r)) (load_orchestrator-Keeps n)
            (λ a. at_call (deactivate n r)) w h
      by_dir false = h

  press_on-Keeps : (to : Option ℕ) (failure : Option Error) → Keeps I (press_on to failure)
  unfolding press_on
  press_on-Keeps to none w h = h
  press_on-Keeps none (some e) w h = h
  press_on-Keeps (some n) (some e) w h = h

  deactivate_old-Keeps : (from to : Option ℕ) (r : Bool) → Keeps I (deactivate_old from to r)
  unfolding deactivate_old
  deactivate_old-Keeps none to r w h = h
  deactivate_old-Keeps (some n) to r w h =
      >>=-Keeps I (attempt (run_deactivate n r)) (press_on to)
        (attempt-Keeps I (run_deactivate n r) (run_deactivate-Keeps n r)) (press_on-Keeps to) w h

  fail_with-Keeps : (s : AppState) (e : Error) → Keeps {A = Unit {0}} I (write_state s >> raise e)
  fail_with-Keeps s e = >>=-Keeps I (write_state s) (λ a. raise e) (at_write s) (λ a w h. h)

  after_rollback-Keeps :
      (prev to : ℕ) (e : Error) (failure : Option Error)
      → Keeps I (after_rollback prev to e failure)
  unfolding after_rollback
  after_rollback-Keeps prev to e none w h = h
  after_rollback-Keeps prev to e (some e') w h =
      fail_with-Keeps (error (some prev) to (rollback_failed prev)) e w h

  roll_back-Keeps : (from : Option ℕ) (to : ℕ) (e : Error) → Keeps I (roll_back from to e)
  unfolding roll_back generation_dir give_up
  roll_back-Keeps none to e w h = fail_with-Keeps (error none to (activation_failed e)) e w h
  roll_back-Keeps (some prev) to e w h =
      by_complete (is_complete (find_generation prev w.generations))
    where
      by_complete :
          (b : Bool)
          → I
              ((if b
                  then (attempt (run_activate prev true) >>= after_rollback prev to e)
                  else give_up (some prev) to e)
                w).1
      by_complete true =
          >>=-Keeps I (attempt (run_activate prev true)) (after_rollback prev to e)
            (attempt-Keeps I (run_activate prev true) (run_activate-Keeps prev true))
            (after_rollback-Keeps prev to e) w h
      by_complete false = fail_with-Keeps (error (some prev) to (activation_failed e)) e w h

  after_activation-Keeps :
      (from : Option ℕ) (to : ℕ) (failure : Option Error)
      → Keeps I (after_activation from to failure)
  unfolding after_activation
  after_activation-Keeps from to none w h = h
  after_activation-Keeps from to (some e) w h =
      >>=-Keeps I (attempt (run_deactivate to true)) (λ cleanup. roll_back from to e)
        (attempt-Keeps I (run_deactivate to true) (run_deactivate-Keeps to true))
        (λ a. roll_back-Keeps from to e) w h

  activate_new-Keeps : (from to : Option ℕ) (r : Bool) → Keeps I (activate_new from to r)
  unfolding activate_new
  activate_new-Keeps from none r w h = at_write inactive w h
  activate_new-Keeps from (some n) r w h =
      >>=-Keeps I (attempt (run_activate n r)) (after_activation from n)
        (attempt-Keeps I (run_activate n r) (run_activate-Keeps n r))
        (after_activation-Keeps from n) w h

  do_switch-Keeps : (from to : Option ℕ) (r : Bool) → Keeps I (do_switch from to r)
  unfolding do_switch
  do_switch-Keeps from to r =
      >>=-Keeps I (write_state (switching from to (some r)))
        (λ a. deactivate_old from to r >> activate_new from to r)
        (at_write (switching from to (some r)))
        (λ a.
          >>=-Keeps I (deactivate_old from to r) (λ b. activate_new from to r)
            (deactivate_old-Keeps from to r) (λ b. activate_new-Keeps from to r))

  pub activate_generation-Keeps : (n : ℕ) → Keeps I (activate_generation n)
  unfolding activate_generation generation_dir current_generation read_state
  activate_generation-Keeps n w h = by_complete (is_complete (find_generation n w.generations))
    where
      by_file :
          (u : StateFile)
          → I
              (continue_with
                (λ from. do_switch from (some n) false)
                (continue_with (λ s. pure (active_in s)) (read_file u w))).1
      by_file absent = do_switch-Keeps none (some n) false w h
      by_file corrupt = h
      by_file (holds s) = do_switch-Keeps (active_in s) (some n) false w h

      by_complete :
          (b : Bool)
          → I
              (continue_with
                (λ a. current_generation >>= λ from. do_switch from (some n) false)
                (ensure b not_complete w)).1
      by_complete true = by_file w.state
      by_complete false = h
