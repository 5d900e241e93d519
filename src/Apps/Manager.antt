-- ===== src/Apps/Manager.antt =====
-- crates/apps/rugix-ctrl/src/apps/manager.rs: `AppManager`, from reading the state to recovery.
use rugix.Common.{ℕ, ◌||◌, Bool, true, false, Option, none, some, if◌then◌else◌}
use rugix.Common.Text.{Text, text, text_eq}
use rugix.Apps.{
  Error, state_unreadable, manifest_unreadable, unsupported_orchestrator, metadata_unreadable,
  not_complete, no_active_generation, rollback_failed, activation_failed, AppState, inactive,
  switching, active, starting, stopping, error, StateFile, absent, corrupt, holds, AppGeneration,
  Generation, activate, deactivate, start, stop, M, pure, raise, gets, or_raise, attempt, ◌>>=◌,
  ◌>>◌, ensure, perform, call, find_generation, update_generation,
}

abbrev pub read_file : StateFile → M AppState
read_file absent = pure inactive
read_file corrupt = raise state_unreadable
read_file (holds s) = pure s

unfoldable pub read_state : M AppState
read_state w = read_file w.state w

unfoldable pub write_state : AppState → M (Unit {0})
write_state s = perform (λ w. record w { state = holds s })

-- The generation of a state in which one is active.
abbrev pub active_in : AppState → Option ℕ
active_in (active g) = some g
active_in (starting g) = some g
active_in (stopping g) = some g
active_in _ = none

unfoldable pub current_generation : M (Option ℕ)
current_generation = do s ← read_state; pure (active_in s)

abbrev pub exists : Option Generation → Bool
exists none = false
exists (some g) = true

-- `is_complete`
abbrev pub is_complete : Option Generation → Bool
is_complete none = false
is_complete (some g) = g.complete

unfoldable pub generation_dir : ℕ → M (Option Generation)
generation_dir n = gets (λ w. find_generation n w.generations)

abbrev pub manifest_of : Option Generation → Option Text
manifest_of none = none
manifest_of (some g) = g.manifest

-- `load_manifest`, and `orchestrators::get` on the name that it gives.
unfoldable pub supported : Text → Bool
supported name =
    text_eq name (text "docker-compose")
    || (text_eq name (text "binary") || text_eq name (text "generic"))

unfoldable pub load_orchestrator : ℕ → M (Unit {0})
load_orchestrator n = do
  dir ← generation_dir n
  name ← or_raise (manifest_of dir) manifest_unreadable
  ensure (supported name) unsupported_orchestrator

abbrev pub meta_of : Option Generation → Option AppGeneration
meta_of none = none
meta_of (some g) = g.meta

-- `mark_activated`, behind the metadata that were read.
unfoldable pub record_activation : ℕ → AppGeneration → M (Unit {0})
record_activation n meta = perform (λ w. record w {
  generations =
      update_generation
        (λ g. record g { meta = some (record meta { last_activated = some w.clock }) }) n
        w.generations;
})

unfoldable pub mark_activated : ℕ → M (Unit {0})
mark_activated n = do
  dir ← generation_dir n
  meta ← or_raise (meta_of dir) metadata_unreadable
  record_activation n meta

unfoldable pub run_activate : ℕ → Bool → M (Unit {0})
run_activate n recovery = do
  load_orchestrator n
  call (activate n recovery)
  mark_activated n
  write_state (active n)

unfoldable pub run_deactivate : ℕ → Bool → M (Unit {0})
run_deactivate n recovery = do
  dir ← generation_dir n
  (if exists dir then (do load_orchestrator n; call (deactivate n recovery)) else pure tt)

unfoldable pub run_start : ℕ → Bool → M (Unit {0})
run_start n recovery = do load_orchestrator n; call (start n recovery)

unfoldable pub run_stop : ℕ → Bool → M (Unit {0})
run_stop n recovery = do load_orchestrator n; call (stop n recovery)

-- The deactivation at the start of `do_switch`: without a target its error is passed on.
unfoldable pub press_on : Option ℕ → Option Error → M (Unit {0})
press_on to none = pure tt
press_on (some n) (some e) = pure tt
press_on none (some e) = raise e

unfoldable pub deactivate_old : Option ℕ → Option ℕ → Bool → M (Unit {0})
deactivate_old none to recovery = pure tt
deactivate_old (some n) to recovery = do
  failure ← attempt (run_deactivate n recovery)
  press_on to failure

-- No generation to go back to.
unfoldable pub give_up : Option ℕ → ℕ → Error → M (Unit {0})
give_up from to e = do write_state (error from to (activation_failed e)); raise e

unfoldable pub after_rollback : ℕ → ℕ → Error → Option Error → M (Unit {0})
after_rollback prev to e none = pure tt
after_rollback prev to e (some e') = do
  write_state (error (some prev) to (rollback_failed prev))
  raise e

unfoldable pub roll_back : Option ℕ → ℕ → Error → M (Unit {0})
roll_back none to e = give_up none to e
roll_back (some prev) to e = do
  dir ← generation_dir prev
  (if is_complete dir
      then (do failure ← attempt (run_activate prev true); after_rollback prev to e failure)
      else give_up (some prev) to e)

-- `do_switch` behind the activation of `to`.
unfoldable pub after_activation : Option ℕ → ℕ → Option Error → M (Unit {0})
after_activation from to none = pure tt
after_activation from to (some e) = do
  cleanup ← attempt (run_deactivate to true)
  roll_back from to e

unfoldable pub activate_new : Option ℕ → Option ℕ → Bool → M (Unit {0})
activate_new from none recovery = write_state inactive
activate_new from (some to) recovery = do
  failure ← attempt (run_activate to recovery)
  after_activation from to failure

unfoldable pub do_switch : Option ℕ → Option ℕ → Bool → M (Unit {0})
do_switch from to recovery = do
  write_state (switching from to (some recovery))
  deactivate_old from to recovery
  activate_new from to recovery

unfoldable pub activate_generation : ℕ → M (Unit {0})
activate_generation n = do
  dir ← generation_dir n
  ensure (is_complete dir) not_complete
  from ← current_generation
  do_switch from (some n) false

-- `deactivate`
unfoldable pub deactivate_app : M (Unit {0})
deactivate_app = do
  current ← current_generation
  n ← or_raise current no_active_generation
  do_switch (some n) none false

abbrev pub just_active : AppState → Option ℕ
just_active (active n) = some n
just_active _ = none

-- The error of the orchestrator, once the state is active again.
abbrev pub passed_on : Option Error → M (Unit {0})
passed_on none = pure tt
passed_on (some e) = raise e

unfoldable pub start_app : M (Unit {0})
start_app = do
  s ← read_state
  n ← or_raise (just_active s) no_active_generation
  write_state (starting n)
  failure ← attempt (run_start n false)
  write_state (active n)
  passed_on failure

unfoldable pub stop_app : M (Unit {0})
stop_app = do
  s ← read_state
  n ← or_raise (just_active s) no_active_generation
  write_state (stopping n)
  failure ← attempt (run_stop n false)
  write_state (active n)
  passed_on failure

abbrev pub unwrap_or : Option ℕ → ℕ → ℕ
unwrap_or none n = n
unwrap_or (some m) n = m

-- The recovery from the error state, behind the first activation.
unfoldable pub fall_back : Option ℕ → ℕ → Option Error → M (Unit {0})
fall_back from to none = pure tt
fall_back none to (some e) = pure tt
fall_back (some prev) to (some e) = do failure ← attempt (run_activate to true); pure tt

unfoldable pub recover_state : AppState → M (Unit {0})
recover_state (switching from to recovery) = do_switch from to true
recover_state (starting n) = do failure ← attempt (run_start n true); write_state (active n)
recover_state (stopping n) = do failure ← attempt (run_stop n true); write_state (active n)
recover_state (error from to message) = do
  failure ← attempt (run_activate (unwrap_or from to) true)
  fall_back from to failure
recover_state inactive = pure tt
recover_state (active n) = pure tt

unfoldable pub recover_app : M (Unit {0})
recover_app = do s ← read_state; recover_state s
