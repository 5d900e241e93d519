-- ===== src/BootFlow.antt =====
-- crates/apps/rugix-ctrl/src/system/boot_flows: errors, the environment of a boot loader, and the
-- flow over U-Boot's tools. A boot group is its index.
pub mod Storage
pub mod Contract
pub mod Rugix
pub mod MenderUboot
mod Tests
use rugix.Common.{ℕ, ◌≡◌, ◌≢◌, Bool, Option, none, some, List, [], ◌∷◌, if◌then◌else◌, All}
use rugix.Common.Result.{Result, ok, err, panic, out_of_fuel}
use rugix.Common.Text.{Text, text_eq, IsPlain}

-- The messages of `bail!` and `whatever`.
pub data FlowError : Type 0 where
  invalid_number_of_entries : FlowError
  boot_partition_not_set : FlowError
  update_flag_not_set : FlowError
  unable_to_read_environment : FlowError
  unable_to_set_environment : FlowError
  unable_to_get_slot : FlowError
  unable_to_read_file : FlowError
  unable_to_load_environment : FlowError
  unable_to_encode_environment : FlowError
  invalid_bootpart_environment : FlowError
  invalid_default_bootpart : FlowError
  unable_to_determine_partition_set : FlowError

abbrev pub FlowResult : Type 0 → Type 0
FlowResult A = Result FlowError A

-- `r.whatever(e)`
abbrev pub whatever {ℓ} : {E : Type ℓ} {A : Type 0} → Result E A → FlowError → FlowResult A
whatever (ok a) e = ok a
whatever (err _) e = err e
whatever panic e = panic
whatever out_of_fuel e = out_of_fuel

-- A `HashMap<String, String>`: a later entry of a key hides an earlier one, which stands behind it.
abbrev pub Env : Type 0
Env = List (Text × Text)

abbrev pub get : Text → Env → Option Text
get key [] = none
get key ((k, v) ∷ env) = if text_eq key k then some v else get key env

abbrev pub insert : Text → Text → Env → Env
insert key v env = (key, v) ∷ env

abbrev pub or_else : Option Text → Option Text → Option Text
or_else none o = o
or_else (some v) o = some v

-- The variables that `fw_printenv` and `fw_setenv` print and set, as `load_vars` and `set_vars` see
-- them: variables with plain names and values are set, and all others stay.
pub record UbootTools : Type 1 where
  pub State : Type 0
  pub load_vars : State → FlowResult Env
  pub set_vars : Env → State → FlowResult State
  pub load_vars-set_vars :
      (vars env : Env) (s s' : State)
      → All (λ entry. IsPlain entry.0 × IsPlain entry.1) vars
      → load_vars s ≡ ok env
      → set_vars vars s ≡ ok s'
      → (env' : Env) × (load_vars s' ≡ ok env')
        × ((key : Text) → get key env' ≡ or_else (get key vars) (get key env))
