-- ===== src/BootFlow/Rugix/GrubEfi/Calls.antt =====
-- What the operations of the flow leave when they are not interrupted.
use rugix.Common.{ℕ, ◌≡◌, refl, ap, sym, ◌∙◌, Bool-cases, ◌==◌, inl, inr, some, [], ◌∷◌, ◌++◌}
use rugix.Common.Text.{Text, text}
use rugix.Common.Result.{ok, ok_injective}
use rugix.BootFlow.Contract.{Contract, Succeeds}
use rugix.BootFlow.Storage.{Files, write, run}
use rugix.BootFlow.Storage.Interrupts.{run-Spared, run-append}
use rugix.BootFlow.Rugix.{RugixBootFlow, entry_for, IsEntry, performed}
use rugix.BootFlow.Rugix.GrubEfi.{
  primary, secondary, primary_path, secondary_path, boot_spare, write_spare_flag, get_grub_default,
  try_grub, write_with_hash, commit_grub, grub_efi, grub_write_defaults,
}
use rugix.BootFlow.Rugix.GrubEfi.Blocks.{
  bootpart_2, spare_true, spare_false, get_grub_default-same, get_grub_default-written,
}
use rugix.BootFlow.Rugix.GrubEfi.Commits.{IsIntact, replacing, commit_grub-ops}

module _ (sha1 : Text → Text) where
  commit_grub-run :
      (flow : RugixBootFlow) (active : ℕ) (files : Files)
      → IsEntry flow active
      → (left : Files) × (performed (commit_grub sha1 flow (some active)) files ≡ ok left)
        × (get_grub_default flow left ≡ ok active)
  commit_grub-run flow active files g =
      let (blk, value, planned, read, chosen) = commit_grub-ops sha1 flow active g in
      let first = replacing sha1 secondary secondary_path blk in
      let second = replacing sha1 primary primary_path blk in
      let new : run second (run first files) primary ≡ some blk = unfold run in refl in
      (
        run (first ++ second) files,
        rw planned refl,
        get_grub_default-written flow (run (first ++ second) files) blk value read
              (ap (λ f. f primary) (run-append first second files) ∙ new)
            ∙ chosen,
      )

  try_grub-run :
      (flow : RugixBootFlow) (entry default : ℕ) (files : Files)
      → get_grub_default flow files ≡ ok default
      → (blk : Text) × (try_grub flow entry files ≡ ok (write boot_spare blk ∷ []))
  unfolding try_grub write_spare_flag
  try_grub-run flow entry default files found = elim (Bool-cases (entry == default)) [
    | inl e ↦ let (blk, encoded, _) = spare_false in (blk, rw found (rw e (rw encoded refl)))
    | inr e ↦ let (blk, encoded, _) = spare_true in (blk, rw found (rw e (rw encoded refl)))
  ]

  -- The Grub flow keeps the default when a boot group is to be tried, and makes the active boot
  -- group, one of its two, the default when it commits.
  pub grub_efi-Contract : (flow : RugixBootFlow) → Contract (grub_efi sha1 flow) (IsEntry flow)
  grub_efi-Contract flow = record {
    set_try_next-keeps = λ group default s s' found done.
        let (blk, planned) = try_grub-run flow group default s found in
        let same : ok (run (write boot_spare blk ∷ []) s) ≡ ok s' = (rw planned at done) in
        get_grub_default-same flow s s' (
          ap (λ f. f primary) (ok_injective (sym same))
          ∙ run-Spared (write boot_spare blk ∷ []) primary s (refl, tt))
        ∙ found;
    commit-sets = λ active default s s' g found done.
        let (left, performed_ok, now) = commit_grub-run flow active s g in
        rw (ok_injective (sym done ∙ performed_ok)) now;
  }

  -- Where there is a default, the operations of the Grub flow succeed.
  pub grub_efi-Succeeds : (flow : RugixBootFlow) → Succeeds (grub_efi sha1 flow) (IsEntry flow)
  grub_efi-Succeeds flow = record {
    set_try_next-ok = λ group default s found.
        let (blk, planned) = try_grub-run flow group default s found in
        (run (write boot_spare blk ∷ []) s, rw planned refl);
    commit-ok = λ active default s g found.
        let (left, done, _) = commit_grub-run flow active s g in (left, done);
  }

  -- The files that are written when a system is built, in place of what was there: both blocks are
  -- intact, and the default is the first entry.
  pub grub_write_defaults-run :
      (flow : RugixBootFlow) (files : Files)
      → (left : Files) × (performed (grub_write_defaults sha1) files ≡ ok left)
        × IsIntact sha1 primary primary_path left
        × IsIntact sha1 secondary secondary_path left
        × (get_grub_default flow left ≡ ok flow.entry_a)
  unfolding grub_write_defaults write_with_hash entry_for
  grub_write_defaults-run flow files =
      let (blk, encoded, read) = bootpart_2 in
      let (spare, spare_encoded, _) = spare_false in
      let ops =
        replacing sha1 primary primary_path blk
        ++ replacing sha1 secondary secondary_path blk
        ++ write boot_spare spare ∷ [] in
      (
        run ops files,
        rw encoded (rw spare_encoded refl),
        unfold run in (blk, refl, refl),
        unfold run in (blk, refl, refl),
        get_grub_default-written flow (run ops files) blk (text "2") read (unfold run in refl),
      )
