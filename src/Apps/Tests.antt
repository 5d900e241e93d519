-- ===== src/Apps/Tests.antt =====
-- An app with three generations, of which the second is active.
use rugix.Common.{◌≡◌, ◌⊎◌, refl, true, false, none, some, List, [], ◌∷◌, All, ltb, ◌&&◌, arith}
use rugix.Common.Text.{text}
use rugix.Apps.{
  AppState, switching, active, holds, AppGeneration, Generation, World, Turn, succeeds, fails,
  crashes, ok, err, crashed, no_rollback_target, perform, call, find_generation,
}
use rugix.Apps.Manager.{
  read_state, write_state, current_generation, generation_dir, supported, load_orchestrator,
  run_activate, run_deactivate, press_on, deactivate_old, activate_new, do_switch,
  activate_generation, recover_app,
}
use rugix.Apps.Triples.{Outcome}
use rugix.Apps.Switching.{Arrived, Stopped, switch_file}
use rugix.Apps.Outcomes.{UnchangedOr, activate_generation_ends}
use rugix.Apps.Recovery.{Recovered, Refused, Cut, recover_app_ends}
use rugix.Apps.Restart.{Ready, recover_app-activate_generation}
use rugix.Apps.Generations.{ResolvedGeneration, list_generations, is_some, rollback, gc}
use rugix.Apps.Rollback.{Best, rollback-Best}
use rugix.Apps.Collection.{gc-keeps}

abbrev meta_1 : AppGeneration
meta_1 = record { number = 1; created_at = text "a"; last_activated = some (text "b") }

abbrev meta_2 : AppGeneration
meta_2 = record { number = 2; created_at = text "c"; last_activated = some (text "d") }

abbrev meta_3 : AppGeneration
meta_3 = record { number = 3; created_at = text "e"; last_activated = none }

abbrev third : Generation
third = record { number = 3; complete = true; meta = some meta_3; manifest = some (text "generic") }

abbrev installed : List Generation
installed =
    third
    ∷ (record { number = 1; complete = true; meta = some meta_1; manifest = some (text "generic") })
    ∷ (record { number = 2; complete = true; meta = some meta_2; manifest = some (text "binary") })
    ∷ []

abbrev world : AppState → List Turn → World
world s turns = record {
  state = holds s;
  generations = installed;
  calls = [];
  schedule = turns;
  clock = text "f";
}

-- The activation of the third generation is interrupted behind the deactivation of the second.
abbrev interrupted : World
interrupted = world (active 2) (succeeds ∷ fails ∷ crashes ∷ [])

third-Ready : Ready 3 installed
unfolding find_generation supported
third-Ready = (third, text "generic", meta_3, refl, refl, refl, refl)

activation_crashes : (activate_generation 3 interrupted).0 ≡ crashed
unfolding activate_generation current_generation read_state generation_dir find_generation do_switch
    write_state perform deactivate_old run_deactivate load_orchestrator supported call press_on
    activate_new run_activate
activation_crashes = refl

recover_app-activate_generation_example :
    ((recover_app (record (activate_generation 3 interrupted).1 { schedule = [] })).0 ≡ ok tt)
    × (((activate_generation 3 interrupted).1.state ≡ holds (active 2))
          × ((recover_app (record (activate_generation 3 interrupted).1 { schedule = [] })).1.state
              ≡ holds (active 2))
        ⊎ ((activate_generation 3 interrupted).1.state
            ≡ holds (switching (some 2) (some 3) (some false)))
          × ((recover_app (record (activate_generation 3 interrupted).1 { schedule = [] })).1.state
              ≡ holds (active 3)))
recover_app-activate_generation_example =
    recover_app-activate_generation 2 3 interrupted refl third-Ready activation_crashes

activate_generation_ends_example :
    Outcome
      (λ a. Arrived (some 2) 3)
      (UnchangedOr (Stopped (some 2) 3 (switch_file (some 2) (some 3) false)) (holds (active 2)))
      (UnchangedOr (λ s. s ≡ switch_file (some 2) (some 3) false) (holds (active 2)))
      (activate_generation 3 interrupted)
activate_generation_ends_example = activate_generation_ends 3 interrupted

recover_app_ends_example :
    Outcome
      (λ a. Recovered (holds (switching (some 2) (some 3) none)))
      (Refused (holds (switching (some 2) (some 3) none)))
      (Cut (holds (switching (some 2) (some 3) none)))
      (recover_app (world (switching (some 2) (some 3) none) (succeeds ∷ fails ∷ [])))
recover_app_ends_example =
    recover_app_ends (world (switching (some 2) (some 3) none) (succeeds ∷ fails ∷ []))

rollback-Best_example :
    ((g : ResolvedGeneration) × (rollback (world (active 2) [])
        ≡ activate_generation g.meta.number (world (active 2) []))
      × Best 2 g (list_generations installed))
    ⊎ ((rollback (world (active 2) []) ≡ (err no_rollback_target, world (active 2) []))
        × All
            (λ g. (ltb g.meta.number 2 && is_some g.meta.last_activated) ≡ false)
            (list_generations installed))
rollback-Best_example = rollback-Best 2 (world (active 2) []) refl

gc-keeps_example :
    find_generation 2 (gc 0 (world (active 2) [])).1.generations ≡ find_generation 2 installed
gc-keeps_example =
    gc-keeps 0 2 (world (active 2) []) refl
      ((λ e. ground arith), ((λ e. ground arith), ((λ e. refl), tt)))

-- The orchestrator fails to deactivate the second generation.
abbrev failing : World
failing = world (active 2) (succeeds ∷ fails ∷ [])
