-- ===== src/BootFlow/Rugix/GrubEfi.antt =====
-- crates/apps/rugix-ctrl/src/system/boot_flows/mod.rs: `GrubEfi`; crates/apps/rugix-
-- ctrl/src/boot/grub.rs: the spare flag; crates/libs/rugix-common/src/boot/grub.rs:
-- `write_with_hash` and `load_grub_env`. The digest is that of the crate sha1, in hexadecimal
-- digits. The configuration partition is there, mounted and writable, and the blocks that are read
-- are valid UTF-8. An operation gives what it writes, in order.
pub mod Blocks
pub mod Commits
pub mod Calls
pub mod Twice
use rugix.Common.{ℕ, ◌≡◌, refl, Bool, Option, none, some, List, [], ◌∷◌, ◌++◌, ◌==◌, if◌then◌else◌}
use rugix.Common.Text.{Text, text, text_eq}
use rugix.Common.Result.{Result, ok, err, ok_or, ◌>>=◌}
use rugix.GrubEnv.{InvalidEnvblk, insert, grub_envblk_encode, grub_envblk_decode}
use rugix.BootFlow.{
  FlowResult, whatever, unable_to_read_file, unable_to_load_environment,
  unable_to_encode_environment, invalid_bootpart_environment, Env, get,
}
use rugix.BootFlow.Contract.{BootFlow}
use rugix.BootFlow.Storage.{Files, FileOp, write, write_synced, rename}
use rugix.BootFlow.Rugix.{RugixBootFlow, for_active, entry_for, performed}

abbrev pub rugix_bootpart : Text
rugix_bootpart = text "rugpi_bootpart"

abbrev pub rugix_boot_spare : Text
rugix_boot_spare = text "rugpi_boot_spare"

abbrev pub primary : Text
primary = text "rugpi/primary.grubenv"

abbrev pub secondary : Text
secondary = text "rugpi/secondary.grubenv"

abbrev pub primary_path : Text
primary_path = text "/rugpi/primary.grubenv"

abbrev pub secondary_path : Text
secondary_path = text "/rugpi/secondary.grubenv"

abbrev pub boot_spare : Text
boot_spare = text "rugpi/boot_spare.grubenv"

unfoldable pub load_grub_env : Text → Files → FlowResult Env
load_grub_env path files = do
  blk ← ok_or (files path) unable_to_read_file
  whatever (grub_envblk_decode blk) unable_to_load_environment

-- Writes `value` to the file of the spare flag: "true" in `set_spare_flag`, "false" in
-- `clear_spare_flag`.
unfoldable pub write_spare_flag : Text → FlowResult (List FileOp)
write_spare_flag value = do
  envblk ←
      whatever (grub_envblk_encode (insert rugix_boot_spare value [])) unable_to_encode_environment
  ok (write boot_spare envblk ∷ [])

unfoldable pub get_grub_default : RugixBootFlow → Files → FlowResult ℕ
get_grub_default flow files = do
  bootpart_env ← load_grub_env primary files
  bootpart ← ok_or (get rugix_bootpart bootpart_env) invalid_bootpart_environment
  entry_for flow bootpart

unfoldable pub try_grub : RugixBootFlow → ℕ → Files → FlowResult (List FileOp)
try_grub flow entry files = do
  default ← get_grub_default flow files
  if entry == default then write_spare_flag (text "false") else write_spare_flag (text "true")

module _ (sha1 : Text → Text) where
  abbrev pub digest_line : Text → Text → Text
  digest_line encoded abs_path = sha1 encoded ++ text "  " ++ abs_path

  unfoldable pub write_with_hash : Env → Text → Text → FlowResult (List FileOp)
  write_with_hash values path abs_path = do
    encoded ← whatever (grub_envblk_encode values) unable_to_encode_environment
    ok (
        write_synced (path ++ text ".new") encoded
        ∷ write (path ++ text ".sha1") (digest_line encoded abs_path)
        ∷ rename (path ++ text ".new") path
        ∷ [])

  unfoldable pub commit_grub : RugixBootFlow → Option ℕ → FlowResult (List FileOp)
  commit_grub flow active = do
    value ← for_active flow active (text "2") (text "3")
    let envblk = insert rugix_bootpart value []
    first ← write_with_hash envblk secondary secondary_path
    second ← write_with_hash envblk primary primary_path
    ok (first ++ second)

  unfoldable pub grub_write_defaults : FlowResult (List FileOp)
  grub_write_defaults = do
    let bootpart = insert rugix_bootpart (text "2") []
    first ← write_with_hash bootpart primary primary_path
    second ← write_with_hash bootpart secondary secondary_path
    envblk ←
        whatever (grub_envblk_encode (insert rugix_boot_spare (text "false") []))
          unable_to_encode_environment
    ok (first ++ second ++ write boot_spare envblk ∷ [])

  -- The flow, when no operation is interrupted.
  abbrev pub grub_efi : RugixBootFlow → BootFlow
  grub_efi flow = record {
    State = Files;
    set_try_next = λ entry files. performed (try_grub flow entry files) files;
    get_default = get_grub_default flow;
    commit = λ active files. performed (commit_grub flow active) files;
  }
