-- ===== src/Bundle/Tests/Mixed.antt =====
-- A bundle of three files: one as it is, and two in blocks, with different algorithms. The blocks
-- of the second are compressed, and one of them is repeated; the third is in blocks of fixed size.
use rugix.Common.{
  ℕ, zero, suc, ◌<◌, ◌≡◌, ◌≢◌, ◌⊎◌, inl, inr, refl, sym, ap, ◌∙◌, true, false, none, some, List, [],
  ◌∷◌, ◌++◌, flatten, arith,
}
use rugix.Common.Result.{ok}
use rugix.Stlv.{write_tag, write_atom_head, write_value}
use rugix.Stlv.Skip.{write_forest}
use rugix.BlockIndex.{hash_of, entry}
use rugix.BlockIndex.Build.{index_of}
use rugix.Chunker.Algorithm.{casync, fixed}
use rugix.BlockCodec.{
  raw_block_hash, get_raw, insert_raw, encode_sizes, encode_block, encode_blocks,
  encode_payload_file,
}
use rugix.BlockCodec.Blocks.{CollisionFree, Serves}
use rugix.Bundle.{
  PayloadEntry, BundleHeader, BundleReader, to_vec, PreparedPayload, open_bundle, next_payload,
  write_payload, write_payloads, write_bundle,
}
use rugix.Bundle.Authentic.{Reads}
use rugix.Bundle.Unpacking.{numbered}
use rugix.Bundle.Packing.{
  Payload, prepare_payload, prepare_payloads, pack, contents_of, pack-unpacks,
}
use rugix.Bundle.Tests.{
  algs, by_length, nothing_stored, bare, no_signatures, header_bytes, prepare, trailer, front_bytes,
  hash_number,
}
use rugix.Bundle.Tests.Headers.{second_header, third_header, told_apart, header_decodes}

abbrev pair : List ℕ
pair = 4 ∷ 5 ∷ []

abbrev single : List ℕ
single = 6 ∷ []

abbrev Known : List ℕ → Type 0
Known bytes = (bytes ≡ pair) ⊎ (bytes ≡ single)

Known-free : (n : ℕ) → CollisionFree (hash_number n) Known
Known-free n x y (inl p) (inl q) e = p ∙ sym q
Known-free n x y (inr p) (inr q) e = p ∙ sym q
Known-free n x y (inl p) (inr q) e =
    absurd (pair-ne n (sym (ap (hash_of (hash_number n)) p) ∙ e ∙ ap (hash_of (hash_number n)) q))
  where
    pair-ne : (n : ℕ) → hash_of (hash_number n) pair ≢ hash_of (hash_number n) single
    pair-ne zero h = cc
    pair-ne (suc n) h = cc
Known-free n x y (inr p) (inl q) e =
    absurd (single-ne n (sym (ap (hash_of (hash_number n)) p) ∙ e ∙ ap (hash_of (hash_number n)) q))
  where
    single-ne : (n : ℕ) → hash_of (hash_number n) single ≢ hash_of (hash_number n) pair
    single-ne zero h = cc
    single-ne (suc n) h = cc

hash_size_pos : (n : ℕ) → 0 < (hash_number n).hash_size
hash_size_pos zero = omega arith
hash_size_pos (suc n) = omega arith

serves_nothing : Serves nothing_stored Known
serves_nothing hash stored p = cc

abbrev repeated : List (List ℕ)
repeated = pair ∷ single ∷ pair ∷ []

abbrev alone : List (List ℕ)
alone = single ∷ []

encoded_second :
    encode_payload_file
      (algs.hash 1)
      (some (algs.coder 0))
      true
      (casync 64)
      (flatten repeated)
      (index_of (algs.hash 1) repeated)
    ≡ ok (second_header.blocks, 7 ∷ 4 ∷ 5 ∷ 7 ∷ 6 ∷ [])
unfolding encode_payload_file encode_blocks encode_block encode_sizes insert_raw get_raw
    raw_block_hash entry flatten
encoded_second = refl

encoded_third :
    encode_payload_file
      (algs.hash 0)
      none
      false
      (fixed 1)
      (flatten alone)
      (index_of (algs.hash 0) alone)
    ≡ ok (third_header.blocks, 6 ∷ [])
unfolding encode_payload_file encode_blocks encode_block encode_sizes insert_raw get_raw
    raw_block_hash entry flatten
encoded_third = refl

abbrev header_of : List ℕ → List ℕ
header_of field_bytes = 9 ∷ 89 ∷ 202 ∷ 117 ∷ 64 ∷ field_bytes ++ 9 ∷ 89 ∷ 202 ∷ 117 ∷ 0 ∷ []

abbrev second_field : List ℕ
second_field = 66 ∷ 253 ∷ 100 ∷ 26 ∷ 128 ∷ []

abbrev third_field : List ℕ
third_field = 66 ∷ 253 ∷ 100 ∷ 26 ∷ 130 ∷ 0 ∷ 0 ∷ []

abbrev payloads : List Payload
payloads =
    record { delivery = []; contents = 1 ∷ 2 ∷ 3 ∷ []; block_encoding = none }
    ∷ record {
      delivery = [];
      contents = flatten repeated;
      block_encoding = some (record {
        hash_algorithm = 1;
        compression = some 0;
        deduplicate = true;
        chunker = casync 64;
        index = index_of (algs.hash 1) repeated;
      });
    }
    ∷ record {
      delivery = [];
      contents = flatten alone;
      block_encoding = some (record {
        hash_algorithm = 0;
        compression = none;
        deduplicate = false;
        chunker = fixed 1;
        index = index_of (algs.hash 0) alone;
      });
    }
    ∷ []

abbrev entry_for : ℕ → ℕ → PayloadEntry
entry_for header_size size = record {
  delivery = [];
  header_hash = header_size ∷ [];
  file_hash = size ∷ [];
}

abbrev entries : List PayloadEntry
entries = entry_for 10 3 ∷ entry_for 15 5 ∷ entry_for 17 1 ∷ []

abbrev prepared : List PreparedPayload
prepared =
    prepare (1 ∷ 2 ∷ 3 ∷ [])
    ∷ record { payload_header = header_of second_field; payload_data = 7 ∷ 4 ∷ 5 ∷ 7 ∷ 6 ∷ [] }
    ∷ record { payload_header = header_of third_field; payload_data = 6 ∷ [] }
    ∷ []

abbrev header : BundleHeader
header = record { manifest = none; is_incremental = false; payload_index = entries }

abbrev framed : List ℕ → ℕ → List ℕ → List ℕ
framed header_bytes size_byte contents =
    73 ∷ 12 ∷ 175 ∷ 175 ∷ 64 ∷ header_bytes
    ++ 66 ∷ 253 ∷ 100 ∷ 26 ∷ size_byte ∷ contents
    ++ 73 ∷ 12 ∷ 175 ∷ 175 ∷ 0 ∷ []

abbrev bundle : List ℕ
bundle =
    front_bytes
    ++ framed (header_of []) 131 (1 ∷ 2 ∷ 3 ∷ [])
    ++ framed (header_of second_field) 133 (7 ∷ 4 ∷ 5 ∷ 7 ∷ 6 ∷ [])
    ++ framed (header_of third_field) 129 (6 ∷ [])
    ++ trailer

is_prepared : prepare_payloads algs by_length told_apart payloads ≡ ok (entries, prepared)
unfolding prepare_payloads prepare_payload to_vec write_forest write_value write_atom_head write_tag
    encode_payload_file encode_blocks encode_block encode_sizes insert_raw get_raw raw_block_hash
    entry flatten
is_prepared = refl

is_packed : pack algs by_length told_apart (bare header) none false payloads ≡ ok (bundle, 10 ∷ [])
unfolding pack write_bundle write_payloads write_payload to_vec write_forest write_atom_head
    write_tag
is_packed = rw is_prepared refl

pack-unpacks_example :
    (r : BundleReader) × (r' : BundleReader) × (open_bundle
        (bare header)
        (bare no_signatures)
        by_length
        (some (10 ∷ []))
        bundle
      ≡ ok r)
    × Reads algs by_length nothing_stored told_apart r (numbered 0 (contents_of payloads)) r'
    × (next_payload by_length told_apart r' ≡ ok none)
pack-unpacks_example =
    pack-unpacks algs by_length nothing_stored Known hash_size_pos Known-free serves_nothing
      told_apart (bare header) (bare no_signatures) none false payloads entries prepared
      header_bytes bundle (10 ∷ [])
      (
        tt,
        (
          (
            repeated,
            refl,
            refl,
            (inl refl, (inr refl, (inl refl, tt))),
            tt,
            (omega arith, (omega arith, (omega arith, tt))),
          ),
          ((alone, refl, refl, (inr refl, tt), (omega arith, inl refl, tt), (omega arith, tt)), tt),
        ),
      )
      is_prepared
      (
        (
          omega arith,
          omega arith,
          λ x. header_decodes x.block_encoding (header_of []) (omega arith),
        ),
        (
          (
            omega arith,
            omega arith,
            λ x. header_decodes x.block_encoding (header_of second_field) (omega arith),
          ),
          (
            (
              omega arith,
              omega arith,
              λ x. header_decodes x.block_encoding (header_of third_field) (omega arith),
            ),
            tt,
          ),
        ),
      )
      tt (unfold to_vec write_forest write_atom_head write_tag in refl) (omega arith) refl is_packed
