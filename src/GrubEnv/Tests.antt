-- ===== src/GrubEnv/Tests.antt =====
-- Environments of a boot flow.
use rugix.Common.{◌≡◌, refl, [], ◌∷◌, arith}
use rugix.Common.Text.{Text, text, split_once}
use rugix.Common.Result.{ok, err}
use rugix.GrubEnv.{
  invalid_entry, invalid_escaped, Env, newline, contains, escape, entry_line, grub_envblk_encode,
  grub_envblk_decode, decode_line,
}
use rugix.GrubEnv.Roundtrip.{
  multiline, lines_of, block_of, grub_envblk_decode-grub_envblk_encode,
  grub_envblk_decode-multiline,
}

abbrev env : Env
env = (text "rugpi_bootpart", text "2") ∷ (text "path", text "a\\b=c#") ∷ []

abbrev broken : Env
broken = (text "rugpi_bootpart", 50 ∷ newline ∷ 51 ∷ []) ∷ []

grub_envblk_decode-grub_envblk_encode_example :
    (blk : Text) × (grub_envblk_encode env ≡ ok blk) × (grub_envblk_decode blk ≡ ok env)
unfolding contains escape entry_line lines_of block_of
grub_envblk_decode-grub_envblk_encode_example =
    grub_envblk_decode-grub_envblk_encode env ((refl, refl, refl), ((refl, refl, refl), tt))
      (refl, (refl, tt)) ((refl, tt), (tt, tt)) (omega arith)

grub_envblk_decode-multiline_example :
    (blk : Text) × (grub_envblk_encode broken ≡ ok blk)
    × (grub_envblk_decode blk ≡ err invalid_escaped)
unfolding contains escape entry_line lines_of block_of multiline
grub_envblk_decode-multiline_example =
    grub_envblk_decode-multiline broken ((refl, refl, refl), tt) refl (omega arith)

-- A block that the entries fill to its last byte ends with an empty line, which is no entry.
empty_line : decode_line [] [] ≡ err invalid_entry
unfolding decode_line split_once
empty_line = refl
