-- ===== src/Stlv/Tests.antt =====
-- Runs of the format's reads and writes on concrete bytes.
use rugix.Common.{ℕ, ◌≤◌, ◌≡◌, refl, List, [], ◌∷◌, ◌++◌, arith, length, some}
use rugix.Common.Result.{ok, err}
use rugix.Stlv.{
  value, start, end, Tag, zero_digit, unbalanced_segment_end, read_varint, compute_varint_size,
  write_varint, read_atom_head, write_atom_head, head_size, skip_atom, skip,
}
use rugix.Stlv.Varint.{read_varint-write_varint}
use rugix.Stlv.Head.{read_atom_head-write_atom_head}
use rugix.Stlv.Skip.{Forest, done, leaf, segment, write_forest, skip-write_forest}

abbrev tag_a : Tag
tag_a = record { b0 = 1; b1 = 2; b2 = 3; b3 = 4 }

abbrev tag_b : Tag
tag_b = record { b0 = 9; b1 = 9; b2 = 9; b3 = 9 }

-- A value, and a segment with the same tag as the one around it.
abbrev nested : Forest
nested = leaf tag_b (7 ∷ 8 ∷ []) (segment tag_a (leaf tag_a [] done) done)

skip-write_forest_example :
    (inner closing : List ℕ) × (write_forest nested ≡ ok inner)
    × (write_atom_head (end tag_a) ≡ ok closing)
    × (skip (start tag_a) (inner ++ (closing ++ 5 ∷ [])) ≡ ok (5 ∷ []))
skip-write_forest_example =
    skip-write_forest tag_a nested (5 ∷ []) (omega arith, ((omega arith, tt), tt))

read_atom_head-write_atom_head_example :
    (bytes : List ℕ) × (write_atom_head (value tag_a 1000) ≡ ok bytes)
    × (length bytes ≡ head_size (value tag_a 1000))
    × (read_atom_head (bytes ++ 5 ∷ []) ≡ ok (some (value tag_a 1000), 5 ∷ []))
read_atom_head-write_atom_head_example =
    read_atom_head-write_atom_head (value tag_a 1000) (5 ∷ []) (omega arith)

read_varint-write_varint_example :
    (bytes : List ℕ) × (write_varint 300 ≡ ok bytes)
    × (length bytes ≡ compute_varint_size 300)
    × (length bytes ≤ 10)
    × (read_varint (bytes ++ 5 ∷ []) ≡ ok (300, 5 ∷ []))
read_varint-write_varint_example = read_varint-write_varint 300 (5 ∷ []) (omega arith)

read_300 : read_varint (130 ∷ 44 ∷ 5 ∷ []) ≡ ok (300, 5 ∷ [])
unfolding read_varint
read_300 = refl

read_start : read_atom_head (1 ∷ 2 ∷ 3 ∷ 4 ∷ 64 ∷ 6 ∷ []) ≡ ok (some (start tag_a), 6 ∷ [])
unfolding read_atom_head
read_start = refl

-- A number does not start with a zero digit, and an end without its start is refused.
leading_zero : read_varint (128 ∷ 1 ∷ []) ≡ err zero_digit
unfolding read_varint
leading_zero = refl

lone_end : skip (end tag_a) [] ≡ err unbalanced_segment_end
unfolding skip skip_atom
lone_end = refl
