-- ===== src/BootFlow/Rugix/RpiUboot.antt =====
-- crates/apps/rugix-ctrl/src/system/boot_flows/mod.rs: `RpiUboot`; crates/apps/rugix-
-- ctrl/src/boot/uboot.rs: the spare flag. The configuration partition is there, mounted and
-- writable.
pub mod Commits
use rugix.Common.{ℕ, Option, none, some, List, [], ◌∷◌, ◌==◌, if◌then◌else◌}
use rugix.Common.Text.{Text, text}
use rugix.Common.Result.{ok, err, ok_or, ◌>>=◌}
use rugix.GrubEnv.{insert}
use rugix.UbootEnv.{Encoding, to_bytes, from_bytes}
use rugix.BootFlow.{
  FlowResult, whatever, unable_to_read_file, unable_to_load_environment,
  invalid_bootpart_environment, Env, get,
}
use rugix.BootFlow.Contract.{BootFlow}
use rugix.BootFlow.Storage.{Files, FileOp, write, write_synced, rename}
use rugix.BootFlow.Rugix.{RugixBootFlow, for_active, entry_for, performed}

abbrev pub bootpart_env : Text
bootpart_env = text "bootpart.default.env"

abbrev pub bootpart_env_new : Text
bootpart_env_new = text "bootpart.default.env.new"

abbrev pub boot_spare_env : Text
boot_spare_env = text "boot_spare.env"

module _ (e : Encoding) where
  -- "1" in `set_spare_flag`, "0" in `clear_spare_flag`.
  abbrev pub save_spare_flag : Text → List FileOp
  save_spare_flag value =
      write boot_spare_env (to_bytes e (insert (text "boot_spare") value [])) ∷ []

  unfoldable pub get_env_default : RugixBootFlow → Files → FlowResult ℕ
  get_env_default flow files = do
    bytes ← ok_or (files bootpart_env) unable_to_read_file
    env ← whatever (from_bytes e bytes) unable_to_load_environment
    bootpart ← ok_or (get (text "bootpart") env) invalid_bootpart_environment
    entry_for flow bootpart

  unfoldable pub try_env : RugixBootFlow → ℕ → Files → FlowResult (List FileOp)
  try_env flow entry files = do
    default ← get_env_default flow files
    ok (if entry == default then save_spare_flag (text "0") else save_spare_flag (text "1"))

  unfoldable pub commit_env : RugixBootFlow → Option ℕ → FlowResult (List FileOp)
  commit_env flow active = do
    value ← for_active flow active (text "2") (text "3")
    ok (
        write_synced bootpart_env_new (to_bytes e (insert (text "bootpart") value []))
        ∷ rename bootpart_env_new bootpart_env
        ∷ [])

  -- The flow, when no operation is interrupted.
  abbrev pub rpi_uboot : RugixBootFlow → BootFlow
  rpi_uboot flow = record {
    State = Files;
    set_try_next = λ entry files. performed (try_env flow entry files) files;
    get_default = get_env_default flow;
    commit = λ active files. performed (commit_env flow active) files;
  }
