-- ===== src/BootFlow/Rugix/GrubEfi/Blocks.antt =====
-- The blocks of the flow, and what the default is read from.
use rugix.Common.{◌≡◌, refl, some, [], ◌∷◌, arith}
use rugix.Common.Text.{Text, text}
use rugix.Common.Result.{ok}
use rugix.GrubEnv.{insert, grub_envblk_encode, grub_envblk_decode, contains, escape, entry_line}
use rugix.GrubEnv.Roundtrip.{lines_of, block_of, grub_envblk_decode-grub_envblk_encode}
use rugix.BootFlow.Storage.{Files}
use rugix.BootFlow.Rugix.{RugixBootFlow, entry_for}
use rugix.BootFlow.Rugix.GrubEfi.{
  rugix_bootpart, rugix_boot_spare, primary, load_grub_env, get_grub_default,
}

-- A block of one short entry is read back.
abbrev pub Readable : Text → Text → Type 0
Readable name value =
    (blk : Text) × (grub_envblk_encode (insert name value []) ≡ ok blk)
    × (grub_envblk_decode blk ≡ ok ((name, value) ∷ []))

pub bootpart_2 : Readable rugix_bootpart (text "2")
unfolding insert contains escape entry_line lines_of block_of
bootpart_2 =
    grub_envblk_decode-grub_envblk_encode ((rugix_bootpart, text "2") ∷ []) ((refl, refl, refl), tt)
      (refl, tt) (tt, tt) (omega arith)

pub bootpart_3 : Readable rugix_bootpart (text "3")
unfolding insert contains escape entry_line lines_of block_of
bootpart_3 =
    grub_envblk_decode-grub_envblk_encode ((rugix_bootpart, text "3") ∷ []) ((refl, refl, refl), tt)
      (refl, tt) (tt, tt) (omega arith)

pub spare_true : Readable rugix_boot_spare (text "true")
unfolding insert contains escape entry_line lines_of block_of
spare_true =
    grub_envblk_decode-grub_envblk_encode ((rugix_boot_spare, text "true") ∷ [])
      ((refl, refl, refl), tt) (refl, tt) (tt, tt) (omega arith)

pub spare_false : Readable rugix_boot_spare (text "false")
unfolding insert contains escape entry_line lines_of block_of
spare_false =
    grub_envblk_decode-grub_envblk_encode ((rugix_boot_spare, text "false") ∷ [])
      ((refl, refl, refl), tt) (refl, tt) (tt, tt) (omega arith)

-- Only the primary block is read for the default.
pub get_grub_default-same :
    (flow : RugixBootFlow) (files left : Files)
    → left primary ≡ files primary
    → get_grub_default flow left ≡ get_grub_default flow files
unfolding get_grub_default load_grub_env
get_grub_default-same flow files left same = rw same refl

pub get_grub_default-written :
    (flow : RugixBootFlow) (left : Files) (blk value : Text)
    → grub_envblk_decode blk ≡ ok ((rugix_bootpart, value) ∷ [])
    → left primary ≡ some blk
    → get_grub_default flow left ≡ entry_for flow value
unfolding get_grub_default load_grub_env
get_grub_default-written flow left blk value read written = rw (written, read) refl
