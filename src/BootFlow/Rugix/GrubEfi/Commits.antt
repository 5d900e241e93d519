-- ===== src/BootFlow/Rugix/GrubEfi/Commits.antt =====
-- What a commit of the flow leaves when it is interrupted.
use rugix.Common.{ℕ, ◌≡◌, refl, ap, sym, subst, ◌∙◌, ◌⊎◌, inl, inr, some, List, [], ◌∷◌, ◌++◌}
use rugix.Common.Text.{Text, text}
use rugix.Common.Result.{ok, ok_injective}
use rugix.GrubEnv.{insert, grub_envblk_encode, grub_envblk_decode}
use rugix.BootFlow.Storage.{Files, FileOp, write, write_synced, rename, run, InOrder, Interrupted}
use rugix.BootFlow.Storage.Interrupts.{
  Spared, InOrder-Spared, InOrder-append, Interrupted-append, Interrupted-replace,
}
use rugix.BootFlow.Rugix.{RugixBootFlow, for_active, entry_for, IsEntry, for_active-IsEntry}
use rugix.BootFlow.Rugix.GrubEfi.{
  rugix_bootpart, primary, secondary, primary_path, secondary_path, get_grub_default, digest_line,
  write_with_hash, commit_grub,
}
use rugix.BootFlow.Rugix.GrubEfi.Blocks.{
  bootpart_2, bootpart_3, get_grub_default-same, get_grub_default-written,
}

module _ (sha1 : Text → Text) where
  -- The block is there, and the file beside it has its digest.
  abbrev pub IsIntact : Text → Text → Files → Type 0
  IsIntact path abs_path files =
      (blk : Text) × (files path ≡ some blk)
      × (files (path ++ text ".sha1") ≡ some (digest_line sha1 blk abs_path))

  abbrev pub writes_of : Text → Text → Text → List FileOp
  writes_of path abs_path blk =
      write_synced (path ++ text ".new") blk
      ∷ write (path ++ text ".sha1") (digest_line sha1 blk abs_path)
      ∷ []

  abbrev pub replacing : Text → Text → Text → List FileOp
  replacing path abs_path blk =
      writes_of path abs_path blk ++ rename (path ++ text ".new") path ∷ []

  abbrev pub commit_ops : Text → List FileOp
  commit_ops blk = replacing secondary secondary_path blk ++ replacing primary primary_path blk

  commit_grub-value :
      (flow : RugixBootFlow) (active : ℕ) (value blk : Text)
      → for_active flow (some active) (text "2") (text "3") ≡ ok value
      → grub_envblk_encode (insert rugix_bootpart value []) ≡ ok blk
      → commit_grub sha1 flow (some active) ≡ ok (commit_ops blk)
  unfolding commit_grub write_with_hash
  commit_grub-value flow active value blk chosen encoded = rw chosen (rw encoded refl)

  pub commit_grub-ops :
      (flow : RugixBootFlow) (active : ℕ)
      → IsEntry flow active
      → (blk value : Text) × (commit_grub sha1 flow (some active) ≡ ok (commit_ops blk))
        × (grub_envblk_decode blk ≡ ok ((rugix_bootpart, value) ∷ []))
        × (entry_for flow value ≡ ok active)
  unfolding entry_for
  commit_grub-ops flow active g = elim (for_active-IsEntry flow active (text "2") (text "3") g) [
    | inl (same, chosen) ↦
        let (blk, encoded, read) = bootpart_2 in
        (
          blk,
          text "2",
          commit_grub-value flow active (text "2") blk chosen encoded,
          read,
          ap ok (sym same),
        )
    | inr (same, chosen) ↦
        let (blk, encoded, read) = bootpart_3 in
        (
          blk,
          text "3",
          commit_grub-value flow active (text "3") blk chosen encoded,
          read,
          ap ok (sym same),
        )
  ]

  -- The secondary block, behind the first half of a commit.
  secondary_written :
      (files : Files) (blk : Text)
      → IsIntact secondary secondary_path (run (replacing secondary secondary_path blk) files)
  unfolding run
  secondary_written files blk = (blk, refl, refl)

  second_half :
      (flow : RugixBootFlow) (active : ℕ) (blk value : Text) (files left : Files)
      → grub_envblk_decode blk ≡ ok ((rugix_bootpart, value) ∷ [])
      → entry_for flow value ≡ ok active
      → Interrupted (replacing primary primary_path blk) files left
      → (get_grub_default flow left ≡ get_grub_default flow files)
        ⊎ (get_grub_default flow left ≡ ok active)
  second_half flow active blk value files left read chosen i =
      elim (Interrupted-replace
        (write (primary ++ text ".sha1") (digest_line sha1 blk primary_path) ∷ [])
        (primary ++ text ".new") primary blk files left refl (refl, tt) (refl, tt) refl refl i) [
          | inl kept ↦ inl (get_grub_default-same flow files left kept)
          | inr new ↦ inr (get_grub_default-written flow left blk value read new ∙ chosen)
        ]

  -- When a commit of the Grub flow, of one of its two boot groups, is interrupted at any point,
  -- where a write that is not synchronized, or a rename, may be missing on the disk although later
  -- operations are there, the default is the one of before or the active boot group.
  pub commit_grub-interrupted :
      (flow : RugixBootFlow) (active : ℕ) (ops : List FileOp) (files left : Files)
      → IsEntry flow active
      → commit_grub sha1 flow (some active) ≡ ok ops
      → Interrupted ops files left
      → (get_grub_default flow left ≡ get_grub_default flow files)
        ⊎ (get_grub_default flow left ≡ ok active)
  commit_grub-interrupted flow active ops files left g done i =
      let (blk, value, planned, read, chosen) = commit_grub-ops flow active g in
      let same : ops ≡ commit_ops blk = ok_injective (sym done ∙ planned) in
      elim (Interrupted-append primary (replacing secondary secondary_path blk)
        (replacing primary primary_path blk) files left (refl, (refl, (refl, tt)))
        (subst (λ o. Interrupted o files left) same i)) [
          | inl kept ↦ inl (get_grub_default-same flow files left kept)
          | inr (mid, kept, late) ↦
              elim (second_half flow active blk value mid left read chosen late) [
                | inl old ↦ inl (old ∙ get_grub_default-same flow files mid kept)
                | inr new ↦ inr new
              ]
        ]

  IsIntact-InOrder :
      (ops : List FileOp) (path abs_path : Text) {files left : Files}
      → Spared path ops
      → Spared (path ++ text ".sha1") ops
      → InOrder ops files left
      → IsIntact path abs_path files
      → IsIntact path abs_path left
  IsIntact-InOrder ops path abs_path same same_digest i (blk, there, digest) = (
    blk,
    InOrder-Spared path i same ∙ there,
    InOrder-Spared (path ++ text ".sha1") i same_digest ∙ digest,
  )

  -- When a commit of the Grub flow, of one of its two boot groups, is interrupted at any point,
  -- where each operation, the writes of the digest files included, is on the disk before the next
  -- one starts, and where the primary block was intact before, the primary or the secondary block
  -- is intact: it is there, with its digest beside it.
  pub commit_grub-IsIntact :
      (flow : RugixBootFlow) (active : ℕ) (ops : List FileOp) (files left : Files)
      → IsEntry flow active
      → IsIntact primary primary_path files
      → commit_grub sha1 flow (some active) ≡ ok ops
      → InOrder ops files left
      → IsIntact primary primary_path left ⊎ IsIntact secondary secondary_path left
  commit_grub-IsIntact flow active ops files left g intact done i =
      let (blk, value, planned, read, chosen) = commit_grub-ops flow active g in
      let same : ops ≡ commit_ops blk = ok_injective (sym done ∙ planned) in
      let first = replacing secondary secondary_path blk in
      let second = replacing primary primary_path blk in
      elim (InOrder-append first second (subst (λ o. InOrder o files left) same i)) [
        | inl early ↦ inl (
            IsIntact-InOrder first primary primary_path (refl, (refl, (refl, tt)))
              (refl, (refl, (refl, tt))) early intact)
        | inr late ↦ inr (
            IsIntact-InOrder second secondary secondary_path (refl, (refl, (refl, tt)))
              (refl, (refl, (refl, tt))) late (secondary_written files blk))
      ]
