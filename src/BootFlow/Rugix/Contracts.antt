-- ===== src/BootFlow/Rugix/Contracts.antt =====
-- The four flows of Rugix over any sequence of calls: they fulfil the contract of the trait `BootFlow`.
use rugix.Common.{ℕ, ◌≡◌, List, All, Bool}
use rugix.Common.Text.{Text}
use rugix.Common.Result.{ok}
use rugix.UbootEnv.{Encoding}
use rugix.BootFlow.{UbootTools}
use rugix.BootFlow.Contract.{
  BootFlow, Contract, Succeeds, FlowCall, FromGroup, last_committed, call_all, call_all-get_default,
  call_all-ok,
}
use rugix.BootFlow.Storage.{Files}
use rugix.BootFlow.Rugix.{RugixBootFlow, IsEntry}
use rugix.BootFlow.Rugix.GrubEfi.{get_grub_default, grub_efi}
use rugix.BootFlow.Rugix.GrubEfi.Calls.{grub_efi-Contract, grub_efi-Succeeds}
use rugix.BootFlow.Rugix.RpiTryboot.{get_tryboot_default, rpi_tryboot}
use rugix.BootFlow.Rugix.RpiTryboot.Commits.{rpi_tryboot-Contract, rpi_tryboot-Succeeds}
use rugix.BootFlow.Rugix.RpiUboot.{get_env_default, rpi_uboot}
use rugix.BootFlow.Rugix.RpiUboot.Commits.{rpi_uboot-Contract, rpi_uboot-Succeeds}
use rugix.BootFlow.Rugix.Uboot.{get_vars_default, uboot, uboot-Contract}

module _ (flow : RugixBootFlow) (calls : List FlowCall) (default : ℕ)
    (g : All (FromGroup (IsEntry flow)) calls) where
  remembers :
      (boot_flow : BootFlow) (s : boot_flow.State)
      → Contract boot_flow (IsEntry flow)
      → Succeeds boot_flow (IsEntry flow)
      → boot_flow.get_default s ≡ ok default
      → (s' : boot_flow.State) × (call_all boot_flow calls s ≡ ok s')
        × (boot_flow.get_default s' ≡ ok (last_committed calls default))
  remembers boot_flow s contract total found =
      let (s', done) =
        call_all-ok boot_flow (IsEntry flow) contract total calls default s g found in
      (
        s',
        done,
        call_all-get_default boot_flow (IsEntry flow) contract calls default s s' g found done,
      )

  -- From files of the Grub flow that have a default, any sequence of calls, each of which tries
  -- any boot group next or commits one of the two boot groups, succeeds, and the default is then
  -- the boot group of the last commit, or the one of before when there was no commit.
  pub grub_efi-call_all :
      (sha1 : Text → Text) (files : Files)
      → get_grub_default flow files ≡ ok default
      → (left : Files) × (call_all (grub_efi sha1 flow) calls files ≡ ok left)
        × (get_grub_default flow left ≡ ok (last_committed calls default))
  grub_efi-call_all sha1 files found =
      remembers (grub_efi sha1 flow) files (grub_efi-Contract sha1 flow)
        (grub_efi-Succeeds sha1 flow) found

  -- From files of the tryboot flow that have a default, and any flag of the firmware, any sequence
  -- of calls, each of which tries any boot group next or commits one of the two boot groups,
  -- succeeds, and the default is then the boot group of the last commit, or the one of before when
  -- there was no commit.
  pub rpi_tryboot-call_all :
      (files : Files) (flag : Bool)
      → get_tryboot_default flow files ≡ ok default
      → (left : Files × Bool) × (call_all (rpi_tryboot flow) calls (files, flag) ≡ ok left)
        × (get_tryboot_default flow (left.0) ≡ ok (last_committed calls default))
  rpi_tryboot-call_all files flag found =
      remembers (rpi_tryboot flow) (files, flag) (rpi_tryboot-Contract flow)
        (rpi_tryboot-Succeeds flow) found

  -- From files of the flow over U-Boot on a Raspberry Pi that have a default, any sequence of
  -- calls, each of which tries any boot group next or commits one of the two boot groups,
  -- succeeds, and the default is then the boot group of the last commit, or the one of before when
  -- there was no commit.
  pub rpi_uboot-call_all :
      (e : Encoding) (files : Files)
      → get_env_default e flow files ≡ ok default
      → (left : Files) × (call_all (rpi_uboot e flow) calls files ≡ ok left)
        × (get_env_default e flow left ≡ ok (last_committed calls default))
  rpi_uboot-call_all e files found =
      remembers (rpi_uboot e flow) files (rpi_uboot-Contract e flow) (rpi_uboot-Succeeds e flow)
        found

  -- After a sequence of calls of the flow over variables of U-Boot, each of which tries any boot
  -- group next or commits one of the two boot groups, where all calls succeed and there was a
  -- default before, the default is the boot group of the last commit, or the one of before when
  -- there was no commit.
  pub uboot-call_all :
      (tools : UbootTools) (s s' : tools.State)
      → get_vars_default tools flow s ≡ ok default
      → call_all (uboot tools flow) calls s ≡ ok s'
      → get_vars_default tools flow s' ≡ ok (last_committed calls default)
  uboot-call_all tools s s' found done =
      call_all-get_default (uboot tools flow) (IsEntry flow) (uboot-Contract tools flow) calls
        default s s' g found done
