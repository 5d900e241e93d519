-- ===== src/BootFlow/Rugix.antt =====
-- crates/apps/rugix-ctrl/src/system/boot_flows/mod.rs: `RugixBootFlow`, which the four flows of
-- Rugix share. A slot, and a boot group, is its index.
pub mod GrubEfi
pub mod RpiTryboot
pub mod RpiUboot
pub mod Uboot
pub mod Contracts
mod Tests
use rugix.Common.{
  ℕ, ◌≡◌, ◌⊎◌, inl, inr, refl, Option, none, some, List, [], ◌∷◌, ◌==◌, if◌then◌else◌, Bool-cases,
  arith,
}
use rugix.Common.Text.{Text, text, text_eq}
use rugix.Common.Result.{ok, err, panic, ok_or, ◌>>=◌}
use rugix.BootFlow.Storage.{Files, FileOp, run}
use rugix.BootFlow.{
  FlowResult, invalid_number_of_entries, unable_to_get_slot, invalid_default_bootpart,
}

pub record BootGroup : Type 0 where
  pub index : ℕ
  pub slots : List (Text × ℕ)

abbrev pub get_slot_in : List (Text × ℕ) → Text → Option ℕ
get_slot_in [] alias = none
get_slot_in ((name, slot) ∷ slots) alias =
    if text_eq name alias then some slot else get_slot_in slots alias

pub record RugixBootFlow : Type 0 where
  pub entry_a : ℕ
  pub entry_b : ℕ
  pub boot_a : Option ℕ
  pub boot_b : Option ℕ
  pub system_a : ℕ
  pub system_b : ℕ

unfoldable pub rugix_boot_flow : List BootGroup → FlowResult RugixBootFlow
rugix_boot_flow (a ∷ b ∷ _) = do
  system_a ← ok_or (get_slot_in a.slots (text "system")) unable_to_get_slot
  system_b ← ok_or (get_slot_in b.slots (text "system")) unable_to_get_slot
  ok (record {
    entry_a = a.index;
    entry_b = b.index;
    boot_a = get_slot_in a.slots (text "boot");
    boot_b = get_slot_in b.slots (text "boot");
    system_a = system_a;
    system_b = system_b;
  })
rugix_boot_flow _ = err invalid_number_of_entries

-- The chain of tests on `system.active_boot_entry()` in each `commit`, with what is written for
-- either entry.
unfoldable pub for_active : RugixBootFlow → Option ℕ → Text → Text → FlowResult Text
for_active flow none a b = panic
for_active flow (some active) a b =
    if active == flow.entry_a then ok a else (if active == flow.entry_b then ok b else panic)

-- The tests on the value of `bootpart` in `get_default`.
unfoldable pub entry_for : RugixBootFlow → Text → FlowResult ℕ
entry_for flow bootpart =
    if text_eq bootpart (text "2")
    then ok flow.entry_a
    else (if text_eq bootpart (text "3") then ok flow.entry_b else err invalid_default_bootpart)

abbrev pub IsEntry : RugixBootFlow → ℕ → Type 0
IsEntry flow group = (group ≡ flow.entry_a) ⊎ (group ≡ flow.entry_b)

-- Operations that are not interrupted.
abbrev pub performed : FlowResult (List FileOp) → Files → FlowResult Files
performed r files = do ops ← r; ok (run ops files)

-- What is written for an active boot group is one of the two values.
pub for_active-IsEntry :
    (flow : RugixBootFlow) (active : ℕ) (a b : Text)
    → IsEntry flow active
    → ((active ≡ flow.entry_a) × (for_active flow (some active) a b ≡ ok a))
      ⊎ ((active ≡ flow.entry_b) × (for_active flow (some active) a b ≡ ok b))
unfolding for_active
for_active-IsEntry flow active a b g = elim (Bool-cases (active == flow.entry_a)) [
  | inl e ↦ inl (ground arith, rw e refl)
  | inr e ↦ inr (ground arith, ground arith)
]
