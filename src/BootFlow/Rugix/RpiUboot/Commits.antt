-- ===== src/BootFlow/Rugix/RpiUboot/Commits.antt =====
-- What the operations of the flow leave, also a commit that is interrupted.
use rugix.Common.{
  ℕ, ◌≡◌, refl, ap, sym, subst, ◌∙◌, ◌⊎◌, Bool-cases, ◌==◌, inl, inr, some, List, [], ◌∷◌, ◌++◌,
  arith,
}
use rugix.Common.Text.{Text, text}
use rugix.Common.Result.{ok, ok_injective}
use rugix.GrubEnv.{insert, contains}
use rugix.UbootEnv.{Encoding, entry_bytes, to_bytes, from_bytes}
use rugix.UbootEnv.Roundtrip.{from_bytes-to_bytes}
use rugix.BootFlow.Contract.{Contract, Succeeds}
use rugix.BootFlow.Storage.{Files, FileOp, write, write_synced, rename, run, Interrupted}
use rugix.BootFlow.Storage.Interrupts.{Interrupted-replace, run-Spared}
use rugix.BootFlow.Rugix.{RugixBootFlow, entry_for, IsEntry, for_active-IsEntry, performed}
use rugix.BootFlow.Rugix.RpiUboot.{
  bootpart_env, bootpart_env_new, boot_spare_env, get_env_default, try_env, commit_env, rpi_uboot,
}

module _ (e : Encoding) where
  abbrev bytes_of : Text → Text
  bytes_of value = to_bytes e (insert (text "bootpart") value [])

  bytes_2 : from_bytes e (bytes_of (text "2")) ≡ ok ((text "bootpart", text "2") ∷ [])
  unfolding insert contains
  bytes_2 =
      from_bytes-to_bytes e ((text "bootpart", text "2") ∷ [])
        (
          (
            refl,
            refl,
            refl,
            e.from_utf8-ascii (entry_bytes (text "bootpart") (text "2")) (ground arith),
          ),
          tt,
        )
        (tt, tt)

  bytes_3 : from_bytes e (bytes_of (text "3")) ≡ ok ((text "bootpart", text "3") ∷ [])
  unfolding insert contains
  bytes_3 =
      from_bytes-to_bytes e ((text "bootpart", text "3") ∷ [])
        (
          (
            refl,
            refl,
            refl,
            e.from_utf8-ascii (entry_bytes (text "bootpart") (text "3")) (ground arith),
          ),
          tt,
        )
        (tt, tt)

  get_env_default-same :
      (flow : RugixBootFlow) (files left : Files)
      → left bootpart_env ≡ files bootpart_env
      → get_env_default e flow left ≡ get_env_default e flow files
  unfolding get_env_default
  get_env_default-same flow files left same = rw same refl

  get_env_default-written :
      (flow : RugixBootFlow) (left : Files) (value bytes : Text)
      → from_bytes e bytes ≡ ok ((text "bootpart", value) ∷ [])
      → left bootpart_env ≡ some bytes
      → get_env_default e flow left ≡ entry_for flow value
  unfolding get_env_default
  get_env_default-written flow left value bytes read written = rw (written, read) refl

  abbrev commit_ops : Text → List FileOp
  commit_ops bytes =
      (write_synced bootpart_env_new bytes ∷ []) ++ rename bootpart_env_new bootpart_env ∷ []

  commit_env-ops :
      (flow : RugixBootFlow) (active : ℕ)
      → IsEntry flow active
      → (bytes : Text) × (commit_env e flow (some active) ≡ ok (commit_ops bytes))
        × ((left : Files)
            → left bootpart_env ≡ some bytes
            → get_env_default e flow left ≡ ok active)
  unfolding commit_env entry_for
  commit_env-ops flow active g = elim (for_active-IsEntry flow active (text "2") (text "3") g) [
    | inl (same, chosen) ↦ (
      bytes_of (text "2"),
      rw chosen refl,
      λ left written.
          get_env_default-written flow left (text "2") (bytes_of (text "2")) bytes_2 written
          ∙ ap ok (sym same),
    )
    | inr (same, chosen) ↦ (
      bytes_of (text "3"),
      rw chosen refl,
      λ left written.
          get_env_default-written flow left (text "3") (bytes_of (text "3")) bytes_3 written
          ∙ ap ok (sym same),
    )
  ]

  -- When a commit of the flow over U-Boot on a Raspberry Pi, of one of its two boot groups, is
  -- interrupted at any point, where a rename may be missing on the disk and a write be done in
  -- part, the default is the one of before or the active boot group.
  pub commit_env-interrupted :
      (flow : RugixBootFlow) (active : ℕ) (ops : List FileOp) (files left : Files)
      → IsEntry flow active
      → commit_env e flow (some active) ≡ ok ops
      → Interrupted ops files left
      → (get_env_default e flow left ≡ get_env_default e flow files)
        ⊎ (get_env_default e flow left ≡ ok active)
  commit_env-interrupted flow active ops files left g done i =
      let (bytes, planned, read) = commit_env-ops flow active g in
      let same : ops ≡ commit_ops bytes = ok_injective (sym done ∙ planned) in
      elim (Interrupted-replace [] bootpart_env_new bootpart_env bytes files left refl tt tt refl
        refl (subst (λ o. Interrupted o files left) same i)) [
          | inl kept ↦ inl (get_env_default-same flow files left kept)
          | inr new ↦ inr (read left new)
        ]

  pub commit_env-run :
      (flow : RugixBootFlow) (active : ℕ) (files : Files)
      → IsEntry flow active
      → (left : Files) × (performed (commit_env e flow (some active)) files ≡ ok left)
        × (get_env_default e flow left ≡ ok active)
  commit_env-run flow active files g =
      let (bytes, planned, read) = commit_env-ops flow active g in
      let left = run (commit_ops bytes) files in
      let new : run (commit_ops bytes) files bootpart_env ≡ some bytes = unfold run in refl in
      (left, rw planned refl, read left new)

  abbrev spare_bytes : Text → Text
  spare_bytes value = to_bytes e (insert (text "boot_spare") value [])

  try_env-run :
      (flow : RugixBootFlow) (entry default : ℕ) (files : Files)
      → get_env_default e flow files ≡ ok default
      → (bytes : Text) × (performed (try_env e flow entry files) files
          ≡ ok (run (write boot_spare_env bytes ∷ []) files))
  unfolding try_env
  try_env-run flow entry default files found = elim (Bool-cases (entry == default)) [
    | inl same ↦ (spare_bytes (text "0"), rw found (rw same refl))
    | inr other ↦ (spare_bytes (text "1"), rw found (rw other refl))
  ]

  -- The flow over U-Boot on a Raspberry Pi keeps the default when a boot group is to be tried, and
  -- makes the active boot group, one of its two, the default when it commits.
  pub rpi_uboot-Contract : (flow : RugixBootFlow) → Contract (rpi_uboot e flow) (IsEntry flow)
  rpi_uboot-Contract flow = record {
    set_try_next-keeps = λ group default s s' found done.
        let (bytes, ran) = try_env-run flow group default s found in
        get_env_default-same flow s s' (
          ap (λ f. f bootpart_env) (ok_injective (sym done ∙ ran))
          ∙ run-Spared (write boot_spare_env bytes ∷ []) bootpart_env s (refl, tt))
        ∙ found;
    commit-sets = λ active default s s' g found done.
        let (left, ran, now) = commit_env-run flow active s g in
        rw (ok_injective (sym done ∙ ran)) now;
  }

  -- Where there is a default, the operations of the flow over U-Boot on a Raspberry Pi succeed.
  pub rpi_uboot-Succeeds : (flow : RugixBootFlow) → Succeeds (rpi_uboot e flow) (IsEntry flow)
  rpi_uboot-Succeeds flow = record {
    set_try_next-ok = λ group default s found.
        let (bytes, ran) = try_env-run flow group default s found in (_, ran);
    commit-ok = λ active default s g found.
        let (left, ran, _) = commit_env-run flow active s g in (left, ran);
  }
