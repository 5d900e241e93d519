-- ===== src/BootFlow/Rugix/Tests.antt =====
-- A system with two boot groups, and its flows.
use rugix.Common.{◌%◌, ◌≡◌, ◌⊎◌, All, Bool, false, refl, inl, inr, none, some, List, [], ◌∷◌}
use rugix.Common.Text.{Text, text, trim, trim_start, trim_end, keep, is_whitespace}
use rugix.Common.Result.{ok}
use rugix.UbootEnv.{to_bytes}
use rugix.UbootEnv.Tests.{sum, ascii_only}
use rugix.GrubEnv.{insert, split}
use rugix.BootFlow.{Env}
use rugix.BootFlow.Contract.{FlowCall, FromGroup, try_next, commit_active, last_committed, call_all}
use rugix.BootFlow.Tests.{in_memory}
use rugix.BootFlow.Storage.{
  Files, FileOp, write_synced, rename, set_file, run, InOrder, InOrder-Interrupted, cut,
  run-Interrupted,
}
use rugix.BootFlow.Rugix.{RugixBootFlow, rugix_boot_flow, for_active, entry_for, IsEntry}
use rugix.BootFlow.Rugix.GrubEfi.{
  primary, secondary, primary_path, secondary_path, get_grub_default, commit_grub, grub_efi,
}
use rugix.BootFlow.Rugix.GrubEfi.Commits.{IsIntact, commit_grub-interrupted, commit_grub-IsIntact}
use rugix.BootFlow.Rugix.GrubEfi.Calls.{grub_write_defaults-run}
use rugix.BootFlow.Rugix.GrubEfi.Twice.{commit_grub-twice}
use rugix.BootFlow.Rugix.RpiTryboot.{
  autoboot, autoboot_new, autoboot_a, autoboot_b, get_tryboot_default, autoboot_default,
  commit_tryboot, rpi_tryboot,
}
use rugix.BootFlow.Rugix.RpiTryboot.Commits.{commit_tryboot-interrupted}
use rugix.BootFlow.Rugix.RpiUboot.{
  bootpart_env, bootpart_env_new, get_env_default, commit_env, rpi_uboot,
}
use rugix.BootFlow.Rugix.RpiUboot.Commits.{commit_env-run, commit_env-interrupted}
use rugix.BootFlow.Rugix.Uboot.{default_of_vars, get_vars_default, try_vars, commit_vars, uboot}
use rugix.BootFlow.Rugix.Contracts.{
  grub_efi-call_all, rpi_tryboot-call_all, rpi_uboot-call_all, uboot-call_all,
}

abbrev flow : RugixBootFlow
flow = record {
  entry_a = 0;
  entry_b = 1;
  boot_a = some 0;
  boot_b = some 1;
  system_a = 2;
  system_b = 3;
}

-- The flow of the groups `a` and `b`.
built_flow :
    rugix_boot_flow (
      record { index = 0; slots = (text "boot", 0) ∷ (text "system", 2) ∷ [] }
      ∷ record { index = 1; slots = (text "boot", 1) ∷ (text "system", 3) ∷ [] }
      ∷ [])
    ≡ ok flow
unfolding rugix_boot_flow
built_flow = refl

-- A stand-in for the digest.
abbrev digest : Text → Text
digest bytes = sum bytes % 256 ∷ []

abbrev empty : Files
empty path = none

-- The files of a system that was just built.
abbrev built : Files
built = (grub_write_defaults-run digest flow empty).0

built-IsIntact : IsIntact digest primary primary_path built
built-IsIntact = (grub_write_defaults-run digest flow empty).2

built_default : get_grub_default flow built ≡ ok 0
built_default = (grub_write_defaults-run digest flow empty).4

abbrev on_a : Files
on_a = set_file autoboot autoboot_a empty

abbrev calls : List FlowCall
calls = try_next 1 ∷ commit_active 1 ∷ try_next 0 ∷ []

-- Commits are of boot groups of the flow.
from_groups : All (FromGroup (IsEntry flow)) calls
from_groups = (tt, (inr refl, (tt, tt)))

grub_efi-call_all_example :
    (left : Files) × (call_all (grub_efi digest flow) calls built ≡ ok left)
    × (get_grub_default flow left ≡ ok 1)
unfolding last_committed
grub_efi-call_all_example = grub_efi-call_all flow calls 0 from_groups digest built built_default

tryboot_default : get_tryboot_default flow on_a ≡ ok 0
unfolding get_tryboot_default autoboot_default split
tryboot_default = refl

rpi_tryboot-call_all_example :
    (left : Files × Bool) × (call_all (rpi_tryboot flow) calls (on_a, false) ≡ ok left)
    × (get_tryboot_default flow (left.0) ≡ ok 1)
unfolding last_committed
rpi_tryboot-call_all_example =
    rpi_tryboot-call_all flow calls 0 from_groups on_a false tryboot_default

-- What a commit of the first boot group leaves.
abbrev saved_a : Files
saved_a = (commit_env-run ascii_only flow 0 empty (inl refl)).0

rpi_uboot-call_all_example :
    (left : Files) × (call_all (rpi_uboot ascii_only flow) calls saved_a ≡ ok left)
    × (get_env_default ascii_only flow left ≡ ok 1)
unfolding last_committed
rpi_uboot-call_all_example =
    rpi_uboot-call_all flow calls 0 from_groups ascii_only saved_a
      ((commit_env-run ascii_only flow 0 empty (inl refl)).2)

abbrev vars_a : Env
vars_a = (text "rugix_bootpart", text "2") ∷ []

abbrev vars_b : Env
vars_b =
    (text "rugix_boot_spare", text "1")
    ∷ (text "rugix_bootpart", text "3")
    ∷ (text "rugix_boot_spare", text "1")
    ∷ vars_a

vars_default : get_vars_default in_memory flow vars_a ≡ ok 0
unfolding get_vars_default default_of_vars entry_for trim trim_start trim_end keep is_whitespace
vars_default = refl

vars_called : call_all (uboot in_memory flow) calls vars_a ≡ ok vars_b
unfolding call_all try_vars commit_vars for_active get_vars_default default_of_vars entry_for trim
    trim_start trim_end keep is_whitespace
vars_called = refl

uboot-call_all_example : get_vars_default in_memory flow vars_b ≡ ok 1
unfolding last_committed
uboot-call_all_example =
    uboot-call_all flow calls 0 from_groups in_memory vars_a vars_b vars_default vars_called

abbrev Twice : Type 0
Twice =
    (ops : List FileOp) × (first second : Files) × (commit_grub digest flow (some 1) ≡ ok ops)
    × InOrder ops built first
    × InOrder ops first second
    × ¬ IsIntact digest primary primary_path second
    × ¬ IsIntact digest secondary secondary_path second

commit_grub-twice_example : Twice
commit_grub-twice_example = commit_grub-twice digest flow 1 built (inr refl)

-- A first commit that is interrupted.
first :
    (ops : List FileOp) × (left : Files) × (commit_grub digest flow (some 1) ≡ ok ops)
    × InOrder ops built left
first =
    let (ops, left, _, planned, i, _, _, _) = commit_grub-twice digest flow 1 built (inr refl) in
    (ops, left, planned, i)

commit_grub-interrupted_example :
    (get_grub_default flow (first.1) ≡ get_grub_default flow built)
    ⊎ (get_grub_default flow (first.1) ≡ ok 1)
commit_grub-interrupted_example =
    commit_grub-interrupted digest flow 1 (first.0) built (first.1) (inr refl) (first.2)
      (InOrder-Interrupted (first.0) built (first.1) (first.3))

commit_grub-IsIntact_example :
    IsIntact digest primary primary_path (first.1)
    ⊎ IsIntact digest secondary secondary_path (first.1)
commit_grub-IsIntact_example =
    commit_grub-IsIntact digest flow 1 (first.0) built (first.1) (inr refl) built-IsIntact (first.2)
      (first.3)

-- A commit that stops within its first line.
abbrev torn_line : Files
torn_line = set_file autoboot_new (text "[al") on_a

commit_tryboot-interrupted_example :
    (get_tryboot_default flow torn_line ≡ get_tryboot_default flow on_a)
    ⊎ (get_tryboot_default flow torn_line ≡ ok 1)
unfolding commit_tryboot for_active
commit_tryboot-interrupted_example =
    commit_tryboot-interrupted flow 1
      (write_synced autoboot_new autoboot_b ∷ rename autoboot_new autoboot ∷ []) on_a torn_line
      (inr refl) refl
      (cut autoboot_new (text "[al")
        (text "l]\ntryboot_a_b=1\nboot_partition=3\n[tryboot]\nboot_partition=2")
        (rename autoboot_new autoboot ∷ []) on_a)

abbrev ops_b : List FileOp
ops_b =
    write_synced bootpart_env_new (to_bytes ascii_only (insert (text "bootpart") (text "3") []))
    ∷ rename bootpart_env_new bootpart_env
    ∷ []

commit_env-interrupted_example :
    (get_env_default ascii_only flow (run ops_b empty) ≡ get_env_default ascii_only flow empty)
    ⊎ (get_env_default ascii_only flow (run ops_b empty) ≡ ok 1)
unfolding commit_env for_active
commit_env-interrupted_example =
    commit_env-interrupted ascii_only flow 1 ops_b empty (run ops_b empty) (inr refl) refl
      (run-Interrupted ops_b empty)
