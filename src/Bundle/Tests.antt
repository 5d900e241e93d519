-- ===== src/Bundle/Tests.antt =====
-- A bundle of one file that is stored as it is, with a hash that is the length.
mod Headers
mod Mixed
use rugix.Common.{
  Option, ℕ, zero, suc, ◌%◌, ◌≡◌, refl, ap, none, some, false, List, [], ◌∷◌, ◌++◌, append_assoc,
  append-nil, length, All, arith,
}
use rugix.Common.Result.{ok}
use rugix.Stlv.{read_atom_head, write_atom_head, write_tag}
use rugix.Stlv.Skip.{done, write_forest}
use rugix.BlockIndex.{HashAlgorithm, hash_of}
use rugix.BlockCodec.Decode.{Provider, file, Decoded, copy, decode_into}
use rugix.BlockCodec.Blocks.{CollisionFree, Serves}
use rugix.Reader.{
  skip_until, skip_until_start, skip_until_value, skip_until_end, pass_atom, expect_atom_head,
  head_left, read_into_vec, copy_atom, copy_segment, copy_next,
}
use rugix.Bundle.{
  Algorithms, PayloadReader, open_payload, decode_payload, read_optional_metadata, metadata_loop,
  metadata_next, BundleHeader, PayloadEntry, PayloadHeader, Signatures, Format, to_vec,
  BundleReader, PreparedPayload, open_bundle, next_payload, write_payload, write_payloads,
  write_bundle,
}
use rugix.Bundle.Signing.{
  Fits, with_signature, bundle_hash, add_bundle_signature, add_bundle_signature-keeps,
}
use rugix.Bundle.{
  bundle_header_tag, signatures_tag, bundle_header_size_limit, signatures_size_limit,
}
use rugix.BlockCodec.{Compression}
use rugix.Stlv.{BundleResult, write_value}
use rugix.Stlv.Skip.{Forest, leaf, AllWritable}
use rugix.Bundle.{payload_header_tag, payload_data_tag}
use rugix.Bundle.Packing.{
  Payload, prepare_payload, prepare_payloads, pack, contents_of, pack-unpacks,
}
use rugix.Bundle.Authentic.{Reads, opened, decoded, Listed, reads_authentic}
use rugix.Bundle.Unpacking.{numbered}

abbrev pub by_length : HashAlgorithm
by_length = record {
  Hasher = List ℕ;
  hasher = [];
  update = λ h bytes. h ++ bytes;
  finalize = λ h. length h % 256 ∷ [];
  hash_size = 1;
  update-nil = append-nil;
  update-append = append_assoc;
  length-finalize = λ h. refl;
}

abbrev pub nothing_stored : Provider
nothing_stored hash = none

abbrev pub entry_of : ℕ → PayloadEntry
entry_of size = record { delivery = []; header_hash = 10 ∷ []; file_hash = size ∷ [] }

-- A struct that is written without fields.
abbrev pub bare : {A : Type 0} → A → Format A
bare x = record { fields = λ y. done; decode_slice = λ raw. ok x }

abbrev pub whole_file : PayloadHeader
whole_file = record { block_encoding = none }

abbrev pub no_signatures : Signatures
no_signatures = record { cms_signatures = [] }

abbrev pub header_bytes : List ℕ
header_bytes = 73 ∷ 175 ∷ 100 ∷ 51 ∷ 64 ∷ 73 ∷ 175 ∷ 100 ∷ 51 ∷ 0 ∷ []

abbrev pub prepare : List ℕ → PreparedPayload
prepare contents = record {
  payload_header = 9 ∷ 89 ∷ 202 ∷ 117 ∷ 64 ∷ 9 ∷ 89 ∷ 202 ∷ 117 ∷ 0 ∷ [];
  payload_data = contents;
}

abbrev pub trailer : List ℕ
trailer = 1 ∷ 243 ∷ 143 ∷ 186 ∷ 0 ∷ 107 ∷ 80 ∷ 116 ∷ 28 ∷ 0 ∷ []

abbrev one_file : BundleHeader
one_file = record { manifest = none; is_incremental = false; payload_index = entry_of 1 ∷ [] }

abbrev payload_bytes : List ℕ
payload_bytes =
    73 ∷ 12 ∷ 175 ∷ 175 ∷ 64 ∷ 9 ∷ 89 ∷ 202 ∷ 117 ∷ 64 ∷ 9 ∷ 89 ∷ 202 ∷ 117 ∷ 0 ∷ 66 ∷ 253 ∷ 100
    ∷ 26 ∷ 129 ∷ 4 ∷ 73 ∷ 12 ∷ 175 ∷ 175 ∷ 0 ∷ []

abbrev reader_at : ℕ → List ℕ → BundleReader
reader_at next source = record {
  source = source;
  header = one_file;
  header_raw = header_bytes;
  signatures = none;
  next_payload = next;
}

abbrev pub front_bytes : List ℕ
front_bytes =
    107 ∷ 80 ∷ 116 ∷ 28 ∷ 64 ∷ 73 ∷ 175 ∷ 100 ∷ 51 ∷ 64 ∷ 73 ∷ 175 ∷ 100 ∷ 51 ∷ 0 ∷ 1 ∷ 243 ∷ 143
    ∷ 186 ∷ 64 ∷ []

opens_here :
    open_bundle
      (bare one_file)
      (bare no_signatures)
      by_length
      (some (10 ∷ []))
      (front_bytes ++ (payload_bytes ++ trailer))
    ≡ ok (reader_at 0 (payload_bytes ++ trailer))
unfolding open_bundle skip_until_start skip_until pass_atom expect_atom_head head_left read_into_vec
    copy_atom copy_segment copy_next read_optional_metadata metadata_loop metadata_next
    read_atom_head write_atom_head write_tag
opens_here = refl

abbrev reader_of : PayloadReader
reader_of = record {
  idx = 0;
  reader = reader_at 1 (4 ∷ 73 ∷ 12 ∷ 175 ∷ 175 ∷ 0 ∷ trailer);
  header = whole_file;
  remaining_data = 1;
}

next_here :
    next_payload by_length (bare whole_file) (reader_at 0 (payload_bytes ++ trailer))
    ≡ ok (some reader_of)
unfolding next_payload open_payload skip_until_start skip_until_value skip_until pass_atom
    expect_atom_head head_left read_into_vec copy_atom copy_segment copy_next read_atom_head
    write_atom_head write_tag
next_here = refl

-- The second algorithm hashes to two bytes.
abbrev pub two_bytes : HashAlgorithm
two_bytes = record {
  Hasher = List ℕ;
  hasher = [];
  update = λ h bytes. h ++ bytes;
  finalize = λ h. length h % 256 ∷ 9 ∷ [];
  hash_size = 2;
  update-nil = append-nil;
  update-append = append_assoc;
  length-finalize = λ h. refl;
}

abbrev pub unmark : List ℕ → Option (List ℕ)
unmark [] = none
unmark (mark ∷ bytes) = some bytes

-- A byte before the block.
abbrev pub marked : Compression
marked = record {
  compress = λ bytes. 7 ∷ bytes;
  uncompress = unmark;
  uncompress-compress = λ bytes. refl;
}

abbrev pub hash_number : ℕ → HashAlgorithm
hash_number zero = by_length
hash_number (suc n) = two_bytes

abbrev pub algs : Algorithms
algs = record { hash = hash_number; coder = λ n. marked }

abbrev four : Decoded by_length by_length none file nothing_stored
four = record {
  hash = 1 ∷ [];
  size = 1;
  source = 73 ∷ 12 ∷ 175 ∷ 175 ∷ 0 ∷ trailer;
  target = 4 ∷ [];
}

decodes_here :
    decode_payload algs by_length file nothing_stored reader_of [] ≡ ok (four, reader_at 1 trailer)
unfolding decode_payload decode_into copy skip_until_end skip_until pass_atom expect_atom_head
    read_atom_head
decodes_here = refl

reads_authentic_example :
    (hash_of by_length header_bytes ≡ 10 ∷ [])
    × ((bare one_file).decode_slice header_bytes ≡ ok one_file)
    × All (Listed algs by_length nothing_stored (bare whole_file) one_file) ((0, 4 ∷ []) ∷ [])
reads_authentic_example =
    reads_authentic algs by_length nothing_stored (bare whole_file) (bare one_file)
      (bare no_signatures) by_length (10 ∷ []) (front_bytes ++ (payload_bytes ++ trailer))
      (reader_at 0 (payload_bytes ++ trailer)) (reader_at 1 trailer) ((0, 4 ∷ []) ∷ []) opens_here
      (decoded (reader_at 0 (payload_bytes ++ trailer)) (reader_at 0 (payload_bytes ++ trailer))
        (reader_at 1 trailer) [] reader_of four (opened (reader_at 0 (payload_bytes ++ trailer)))
        next_here decodes_here)

abbrev payloads_start : List ℕ
payloads_start = 1 ∷ 243 ∷ 143 ∷ 186 ∷ 64 ∷ []

abbrev bundle_start : List ℕ
bundle_start = 107 ∷ 80 ∷ 116 ∷ 28 ∷ 64 ∷ []

abbrev section : List ℕ
section = 168 ∷ 57 ∷ 54 ∷ 241 ∷ 64 ∷ 168 ∷ 57 ∷ 54 ∷ 241 ∷ 0 ∷ []

abbrev signed_once : Signatures
signed_once = with_signature none (1 ∷ 2 ∷ [])

header-Fits : Fits (bare one_file) bundle_header_tag bundle_header_size_limit one_file header_bytes
header-Fits = record {
  writable = tt;
  is_raw = unfold to_vec write_forest write_atom_head write_tag in refl;
  in_limit = omega arith;
  decodes = refl;
}

section-Fits : Fits (bare signed_once) signatures_tag signatures_size_limit signed_once section
section-Fits = record {
  writable = tt;
  is_raw = unfold to_vec write_forest write_atom_head write_tag in refl;
  in_limit = omega arith;
  decodes = refl;
}

add_bundle_signature-keeps_example :
    (signed : List ℕ) × (add_bundle_signature
        (bare signed_once)
        (1 ∷ 2 ∷ [])
        (bundle_start ++ (header_bytes ++ ([] ++ (payloads_start ++ (payload_bytes ++ trailer)))))
      ≡ ok signed)
    × (open_bundle (bare one_file) (bare signed_once) by_length (some (10 ∷ [])) signed
        ≡ ok (record {
          source = payload_bytes ++ trailer;
          header = one_file;
          header_raw = header_bytes;
          signatures = some signed_once;
          next_payload = 0;
        }))
    × (bundle_hash by_length (bare one_file) signed
        ≡ bundle_hash by_length (bare one_file) (
            bundle_start
            ++ (header_bytes ++ ([] ++ (payloads_start ++ (payload_bytes ++ trailer))))))
add_bundle_signature-keeps_example =
    add_bundle_signature-keeps (bare signed_once) payloads_start (payload_bytes ++ trailer)
      (unfold write_atom_head write_tag in refl) by_length (bare one_file) bundle_start header_bytes
      (unfold write_atom_head write_tag in refl) one_file header-Fits by_length (some (10 ∷ []))
      none (1 ∷ 2 ∷ []) [] section refl refl section-Fits
