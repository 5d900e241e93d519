-- ===== src/Decoder/Tests.antt =====
-- Runs of the decoder on concrete bytes.
use rugix.Common.{ℕ, ◌+◌, ◌-◌, ◌≡◌, refl, List, [], ◌∷◌, ◌++◌, arith, ltb, if◌then◌else◌, length}
use rugix.Common.Result.{ok, err, ◌>>=◌}
use rugix.Stlv.{read_atom_head, atom_size, Tag, start, end, write_atom_head, size_limit}
use rugix.Stlv.Skip.{Forest, done, leaf, segment, write_forest}
use rugix.Decoder
use rugix.Decoder.{
  Decoder, new, decode, encode_int, decode_int, encode_bool, decode_bool, next_atom_head,
}
use rugix.Decoder.Values.{decode-encode_int}
use rugix.Decoder.Segments.{skip-forest, forest_size}

abbrev tag_a : Tag
tag_a = record { b0 = 1; b1 = 2; b2 = 3; b3 = 4 }

abbrev nested : Forest
nested = leaf tag_a (7 ∷ 8 ∷ []) (segment tag_a (leaf tag_a [] done) done)

abbrev rest : List ℕ
rest = 5 ∷ []

decode-encode_int_example :
    (written : List ℕ) × (encode_int 4 1000 tag_a ≡ ok written)
    × (decode (decode_int 4) (new (written ++ rest) 32 65536) ≡ (
        if ltb 65536 (length written + 4)
        then err size_limit
        else ok (1000, new rest 32 (65536 - (length written + 4)))))
decode-encode_int_example = decode-encode_int 4 1000 tag_a rest 32 65536 (omega arith) (omega arith)

skip-forest_example :
    (inner closing : List ℕ) × (write_forest nested ≡ ok inner)
    × (write_atom_head (end tag_a) ≡ ok closing)
    × (Decoder.skip (start tag_a) (new (inner ++ (closing ++ rest)) 31 65536)
        ≡ ok (new rest 32 (65536 - (forest_size nested + 5))))
unfolding atom_size
skip-forest_example =
    skip-forest tag_a nested rest 31 65536 (omega arith, ((omega arith, tt), tt)) (omega arith)
      (omega arith)

-- A byte that fits into the limit of six bytes with its atom, but not with its value once more.
counted_twice :
    (next_atom_head (new (1 ∷ 2 ∷ 3 ∷ 4 ∷ 129 ∷ 7 ∷ []) 32 6) >>= λ r. Decoder.read_value r.1)
    ≡ err size_limit
unfolding next_atom_head Decoder.read_value read_atom_head Decoder.take_head
    Decoder.check_and_subtract_size atom_size Decoder.enter_atom
counted_twice = refl
