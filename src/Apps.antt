-- ===== src/Apps.antt =====
-- crates/apps/rugix-ctrl/src/apps/manager.rs: the files of one app, and the effects on them.
-- A run is interrupted, or an effect fails, as a schedule says; a write of a file is atomic, so that
-- a crash leaves it as it was. The lock of the app is held, and paths are the app's own.
pub mod Manager
pub mod Generations
pub mod Steps
pub mod Triples
pub mod Switching
pub mod Outcomes
pub mod Recovery
pub mod Keeping
pub mod Restart
pub mod Rollback
pub mod Collection
pub mod Removal
mod Tests
use rugix.Common.{ℕ, ◌==◌, Bool, true, false, Option, none, some, List, [], ◌∷◌, if◌then◌else◌}
use rugix.Common.Text.{Text}

pub data Error : Type 0 where
  io_failure : Error
  state_unreadable : Error
  manifest_unreadable : Error
  unsupported_orchestrator : Error
  metadata_unreadable : Error
  not_complete : Error
  no_active_generation : Error
  no_rollback_target : Error

-- What an error state says.
pub data Message : Type 0 where
  rollback_failed : ℕ → Message
  activation_failed : Error → Message

-- `AppState`
pub data AppState : Type 0 where
  inactive : AppState
  switching : Option ℕ → Option ℕ → Option Bool → AppState
  active : ℕ → AppState
  starting : ℕ → AppState
  stopping : ℕ → AppState
  error : Option ℕ → ℕ → Message → AppState

-- The state file.
pub data StateFile : Type 0 where
  absent : StateFile
  corrupt : StateFile
  holds : AppState → StateFile

-- `AppGeneration`; timestamps are texts.
pub record AppGeneration : Type 0 where
  pub number : ℕ
  pub created_at : Text
  pub last_activated : Option Text

-- A directory of a generation: its number, the marker of completeness, `generation.json` and the
-- orchestrator that `app.toml` names, where these files can be read.
pub record Generation : Type 0 where
  pub number : ℕ
  pub complete : Bool
  pub meta : Option AppGeneration
  pub manifest : Option Text

-- Calls of the orchestrator, with the flag `recovery`.
pub data Call : Type 0 where
  activate : ℕ → Bool → Call
  deactivate : ℕ → Bool → Call
  start : ℕ → Bool → Call
  stop : ℕ → Bool → Call

-- How an effect ends. An orchestrator may have acted when its call fails or is interrupted.
pub data Turn : Type 0 where
  succeeds : Turn
  fails : Turn
  crashes : Turn

-- The effects beyond the schedule succeed. The calls are listed with the latest first.
pub record World : Type 0 where
  pub state : StateFile
  pub generations : List Generation
  pub calls : List Call
  pub schedule : List Turn
  pub clock : Text

pub data Result (A : Type 0) : Type 0 where
  ok : A → Result A
  err : Error → Result A
  crashed : Result A

abbrev pub M : Type 0 → Type 0
M A = World → Result A × World

module _ {A : Type 0} where
  abbrev pub pure : A → M A
  pure a w = (ok a, w)

  abbrev pub raise : Error → M A
  raise e w = (err e, w)

  abbrev pub gets : (World → A) → M A
  gets f w = (ok (f w), w)

  abbrev pub or_raise : Option A → Error → M A
  or_raise none e = raise e
  or_raise (some a) e = pure a

  -- `if let Err(e) = ..`: an error becomes a value, a crash does not.
  abbrev pub caught : Result A × World → Result (Option Error) × World
  caught (ok a, w) = (ok none, w)
  caught (err e, w) = (ok (some e), w)
  caught (crashed, w) = (crashed, w)

  abbrev pub attempt : M A → M (Option Error)
  attempt m w = caught (m w)

abbrev pub continue_with : {A B : Type 0} → (A → M B) → Result A × World → Result B × World
continue_with f (ok a, w) = f a w
continue_with f (err e, w) = (err e, w)
continue_with f (crashed, w) = (crashed, w)

infixl 5 ◌>>=◌ ◌>>◌
abbrev pub ◌>>=◌ : {A B : Type 0} → M A → (A → M B) → M B
◌>>=◌ m f w = continue_with f (m w)

abbrev pub ◌>>◌ : {A B : Type 0} → M A → M B → M B
m >> k = m >>= λ _. k

abbrev pub ensure : Bool → Error → M (Unit {0})
ensure b e w = (if b then ok tt else err e, w)

-- An effect on the files, at the turn of the schedule.
abbrev pub take_turn : (World → World) → World → List Turn → Result (Unit {0}) × World
take_turn change w [] = (ok tt, change w)
take_turn change w (succeeds ∷ turns) = (ok tt, change (record w { schedule = turns }))
take_turn change w (fails ∷ turns) = (err io_failure, record w { schedule = turns })
take_turn change w (crashes ∷ turns) = (crashed, record w { schedule = turns })

unfoldable pub perform : (World → World) → M (Unit {0})
perform change w = take_turn change w w.schedule

-- A call of the orchestrator is made, however it ends.
unfoldable pub call : Call → M (Unit {0})
call c w = perform (λ v. v) (record w { calls = c ∷ w.calls })

-- The directory of a generation.
unfoldable pub find_generation : ℕ → List Generation → Option Generation
find_generation n [] = none
find_generation n (g ∷ gens) = if g.number == n then some g else find_generation n gens

-- The generations where those with the number `n` are changed.
unfoldable pub update_generation : (Generation → Generation) → ℕ → List Generation → List Generation
update_generation change n [] = []
update_generation change n (g ∷ gens) =
    (if g.number == n then change g else g) ∷ update_generation change n gens
