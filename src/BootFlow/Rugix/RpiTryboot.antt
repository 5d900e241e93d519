-- ===== src/BootFlow/Rugix/RpiTryboot.antt =====
-- crates/apps/rugix-ctrl/src/system/boot_flows/mod.rs: `RpiTryboot`; crates/libs/rugix-
-- common/src/boot/tryboot.rs. The flag of the firmware is on or off. The configuration partition is
-- there, mounted and writable, and the file that is read is valid UTF-8; a string is the list of
-- its bytes.
pub mod Commits
use rugix.Common.{
  ℕ, ◌≡◌, refl, Bool, true, false, ◌&&◌, Option, none, some, List, [], ◌∷◌, ◌++◌, ◌==◌,
  if◌then◌else◌,
}
use rugix.Common.Text.{Text, text, text_eq}
use rugix.Common.Result.{ok, err, ok_or, ◌>>=◌}
use rugix.GrubEnv.{newline, split}
use rugix.BootFlow.{FlowResult, unable_to_read_file, unable_to_determine_partition_set}
use rugix.BootFlow.Contract.{BootFlow}
use rugix.BootFlow.Storage.{Files, FileOp, write_synced, rename}
use rugix.BootFlow.Rugix.{RugixBootFlow, for_active, performed}

abbrev pub autoboot : Text
autoboot = text "autoboot.txt"

abbrev pub autoboot_new : Text
autoboot_new = text "autoboot.txt.new"

abbrev pub autoboot_a : Text
autoboot_a = text "[all]\ntryboot_a_b=1\nboot_partition=2\n[tryboot]\nboot_partition=3"

abbrev pub autoboot_b : Text
autoboot_b = text "[all]\ntryboot_a_b=1\nboot_partition=3\n[tryboot]\nboot_partition=2"

pub data AutobootSection : Type 0 where
  unknown : AutobootSection
  all : AutobootSection
  tryboot : AutobootSection

abbrev pub is_all : AutobootSection → Bool
is_all unknown = false
is_all all = true
is_all tryboot = false

-- `starts_with`
abbrev pub has_prefix : Text → Text → Bool
has_prefix [] s = true
has_prefix (c ∷ prefix) [] = false
has_prefix (c ∷ prefix) (d ∷ s) = c == d && has_prefix prefix s

-- `lines()`, less the carriage returns, which no test below depends on: an empty line behind the
-- last newline, which is no line of the iterator, passes the loop.
abbrev pub lines : Text → List Text
lines s = split newline s

unfoldable pub autoboot_default : RugixBootFlow → AutobootSection → List Text → FlowResult ℕ
autoboot_default flow section [] = err unable_to_determine_partition_set
autoboot_default flow section (line ∷ rest) =
    let in_all = autoboot_default flow all rest in
    let in_tryboot = autoboot_default flow tryboot rest in
    let in_unknown = autoboot_default flow unknown rest in
    let in_same = autoboot_default flow section rest in
    if has_prefix (text "[all]") line
    then in_all
    else if has_prefix (text "[tryboot]") line
    then in_tryboot
    else if has_prefix (text "[") line
    then in_unknown
    else if has_prefix (text "boot_partition=2") line && is_all section
    then ok flow.entry_a
    else if has_prefix (text "boot_partition=3") line && is_all section
    then ok flow.entry_b
    else in_same

unfoldable pub get_tryboot_default : RugixBootFlow → Files → FlowResult ℕ
get_tryboot_default flow files = do
  autoboot_txt ← ok_or (files autoboot) unable_to_read_file
  autoboot_default flow unknown (lines autoboot_txt)

-- `set_spare_flag` and `clear_spare_flag`
abbrev pub set_spare_flag : Bool → Bool
set_spare_flag flag = true

abbrev pub clear_spare_flag : Bool → Bool
clear_spare_flag flag = if flag then false else flag

unfoldable pub try_tryboot : RugixBootFlow → ℕ → Files → Bool → FlowResult Bool
try_tryboot flow entry files flag = do
  default ← get_tryboot_default flow files
  ok (if entry == default then clear_spare_flag flag else set_spare_flag flag)

unfoldable pub commit_tryboot : RugixBootFlow → Option ℕ → FlowResult (List FileOp)
commit_tryboot flow active = do
  contents ← for_active flow active autoboot_a autoboot_b
  ok (write_synced autoboot_new contents ∷ rename autoboot_new autoboot ∷ [])

abbrev pub try_tryboot_in : RugixBootFlow → ℕ → Files × Bool → FlowResult (Files × Bool)
try_tryboot_in flow entry (files, flag) = do
  flag' ← try_tryboot flow entry files flag
  ok (files, flag')

abbrev pub commit_tryboot_in : RugixBootFlow → Option ℕ → Files × Bool → FlowResult (Files × Bool)
commit_tryboot_in flow active (files, flag) = do
  files' ← performed (commit_tryboot flow active) files
  ok (files', flag)

-- The flow, when no operation is interrupted.
abbrev pub rpi_tryboot : RugixBootFlow → BootFlow
rpi_tryboot flow = record {
  State = Files × Bool;
  set_try_next = try_tryboot_in flow;
  get_default = λ s. get_tryboot_default flow s.0;
  commit = commit_tryboot_in flow;
}
