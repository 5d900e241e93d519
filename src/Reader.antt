-- ===== src/Reader.antt =====
-- crates/libs/rugix-bundle/src/reader.rs, from `read_into_vec` on: finding the way in a stream of atoms.
-- The flags of tags.rs. Hints of the next chunk's size change nothing.
pub mod Copy
pub mod Ends
pub mod Passing
mod Tests
use rugix.Common.{
  ℕ, zero, suc, ◌+◌, ◌*◌, ◌/◌, ◌%◌, ◌^◌, ◌≡◌, Bool, true, false, not, Option, none, some, List, [],
  ◌∷◌, ◌++◌, ltb, ◌==◌, if◌then◌else◌, length,
}
use rugix.Common.Arith.{shr, low_bits}
use rugix.Common.Result.{ok, err, out_of_fuel, ◌>>=◌, ◌>>◌, guard, ok_or}
use rugix.Stlv.{
  Tag, tag_eq, AtomHead, value, start, end, Source, BundleResult, unexpected_end,
  unexpected_required_tag, unexpected_atom, value_too_long, unbalanced_segment_end, read_atom_head,
  write_atom_head, read_exact, skip, closes, u64_max,
}

-- `tags::is_required`
abbrev pub is_required : Tag → Bool
is_required t = shr t.b0 7 % 2 == 0

-- `AtomHead::tag`
abbrev pub tag : AtomHead → Tag
tag (value t n) = t
tag (start t) = t
tag (end t) = t

unfoldable pub expect_atom_head : Source → BundleResult (AtomHead × Source)
expect_atom_head s = do
  (next, s') ← read_atom_head s
  head ← ok_or next unexpected_end
  ok (head, s')

abbrev pub starts : Tag → AtomHead → Bool
starts t (start u) = tag_eq u t
starts t _ = false

abbrev pub ends_with : Tag → AtomHead → Bool
ends_with t (end u) = tag_eq u t
ends_with t _ = false

abbrev pub has_value : Tag → AtomHead → Bool
has_value t (value u n) = tag_eq u t
has_value t _ = false

abbrev pub length_of : AtomHead → ℕ
length_of (value t n) = n
length_of _ = 0

-- One round of the loops below at the head just read; `inner` is the loop.
unfoldable pub pass_atom :
    (AtomHead → Bool)
    → (Source → BundleResult (AtomHead × Source))
    → AtomHead
    → Source
    → BundleResult (AtomHead × Source)
pass_atom wanted inner head s = if wanted head then ok (head, s) else (do
  guard (not (is_required (tag head))) unexpected_required_tag
  s' ← skip head s
  inner s')

-- Every round reads a head.
unfoldable pub skip_until : (AtomHead → Bool) → ℕ → Source → BundleResult (AtomHead × Source)
skip_until wanted zero s = out_of_fuel
skip_until wanted (suc fuel) s = do
  (head, s') ← expect_atom_head s
  pass_atom wanted (skip_until wanted fuel) head s'

unfoldable pub skip_until_start : Tag → Source → BundleResult (AtomHead × Source)
skip_until_start t s = skip_until (starts t) (suc (length s)) s

unfoldable pub skip_until_end : Tag → Source → BundleResult Source
skip_until_end t s = do (head, s') ← skip_until (ends_with t) (suc (length s)) s; ok s'

unfoldable pub skip_until_value : Tag → Source → BundleResult (ℕ × Source)
skip_until_value t s = do
  (head, s') ← skip_until (has_value t) (suc (length s)) s
  ok (length_of head, s')

unfoldable pub expect_start : Tag → Source → BundleResult (AtomHead × Source)
expect_start t s = do
  (head, s') ← expect_atom_head s
  guard (starts t head) unexpected_atom
  ok (head, s')

unfoldable pub expect_value : Tag → Source → BundleResult (ℕ × Source)
expect_value t s = do
  (head, s') ← expect_atom_head s
  guard (has_value t head) unexpected_atom
  ok (length_of head, s')

-- What is left of a source behind a varint or a head, read or refused.
unfoldable pub varint_left : ℕ → Source → Source
varint_left integer [] = []
varint_left integer (byte ∷ s) =
    let integer' = integer * 2 ^ 7 % 2 ^ 64 + low_bits byte 7 in
    let rest = varint_left integer' s in
    if shr byte 7 % 2 == 0 then s else if integer' == 0 then s else rest

unfoldable pub head_left : Source → Source
head_left (b0 ∷ b1 ∷ b2 ∷ b3 ∷ indicator ∷ s) =
    if shr indicator 7 % 2 == 1
    then (if low_bits indicator 7 == 127 then varint_left 0 s else s)
    else s
head_left _ = []

-- `let _ = expect_start(source, tag)`: whatever comes of it, a head has been read.
abbrev pub ignore_start : Source → Source
ignore_start s = head_left s

-- `read_into_vec` of an atom behind its head; `inner` copies a segment that is open. The output comes
-- back with the source.
unfoldable pub copy_atom :
    (Tag → List ℕ → Source → BundleResult (List ℕ × Source))
    → ℕ
    → AtomHead
    → List ℕ
    → Source
    → BundleResult (List ℕ × Source)
copy_atom inner limit (value t n) output s = do
  head ← write_atom_head (value t n)
  guard (ltb (length (output ++ head) + n) limit) value_too_long
  (bytes, s') ← read_exact n s
  ok (output ++ head ++ bytes, s')
copy_atom inner limit (start t) output s = do
  head ← write_atom_head (start t)
  inner t (output ++ head) s
copy_atom inner limit (end t) output s = do
  head ← write_atom_head (end t)
  err unbalanced_segment_end

-- One round of the loop of `read_into_vec`, at the head just read.
unfoldable pub copy_next :
    (Tag → List ℕ → Source → BundleResult (List ℕ × Source))
    → ℕ
    → Tag
    → AtomHead
    → List ℕ
    → Source
    → BundleResult (List ℕ × Source)
copy_next inner limit open_tag head output s =
    if closes open_tag head
    then (do closing ← write_atom_head head; ok (output ++ closing, s))
    else (do (output', s') ← copy_atom inner limit head output s; inner open_tag output' s')

unfoldable pub copy_segment : ℕ → ℕ → Tag → List ℕ → Source → BundleResult (List ℕ × Source)
copy_segment limit zero open_tag output s = out_of_fuel
copy_segment limit (suc fuel) open_tag output s = do
  (head, s') ← expect_atom_head s
  copy_next (copy_segment limit fuel) limit open_tag head output s'

unfoldable pub read_into_vec : List ℕ → AtomHead → ℕ → Source → BundleResult (List ℕ × Source)
read_into_vec output head limit s =
    copy_atom (copy_segment limit (suc (length s))) limit head output s
