-- ===== src/Bundle.antt =====
-- crates/libs/rugix-bundle/src: `BundleReader` and `PayloadReader` in reader.rs, and the writing
-- of a bundle in builder.rs. The algorithms that a payload's header names are looked up by their
-- numbers; the one of the bundle's header is a parameter. So is, for every struct of format/mod.rs
-- that is read here, what the macros of format/macros.rs make of it: a `Format`.
pub mod Authentic
pub mod Opening
pub mod Unpacking
pub mod Signing
pub mod Packing
mod Tests
use rugix.Common.{
  ℕ, zero, suc, ◌+◌, ◌*◌, ◌^◌, ◌≡◌, Bool, true, false, not, Option, none, some, List, [], ◌∷◌, ◌++◌,
  if◌then◌else◌, length, get_elem?, flatten,
}
use rugix.Common.Result.{Result, ok, err, panic, out_of_fuel, ◌>>=◌, ◌>>◌, guard, unwrap}
use rugix.Stlv.{
  Tag, AtomHead, value, start, end, Source, BundleResult, multiple_signatures,
  unexpected_required_tag, invalid_header_hash, invalid_payload_header_hash, write_atom_head, skip,
  skip_bytes,
}
use rugix.Stlv.Skip.{Forest, done, segment, write_forest}
use rugix.BlockIndex.{HashAlgorithm, BlockIndex, hash_of}
use rugix.Chunker.Algorithm.{ChunkerAlgorithm}
use rugix.BlockCodec.{Compression, bytes_eq, BlockEncoding, encode_payload_file}
use rugix.BlockCodec.Decode.{PayloadTarget, Provider, Decoded, decode_into}
use rugix.Reader.{
  is_required, tag, starts, expect_atom_head, skip_until_start, skip_until_end, skip_until_value,
  ignore_start, read_into_vec,
}

-- Tags of tags.rs.
abbrev pub tag_of : ℕ → ℕ → ℕ → ℕ → Tag
tag_of b0 b1 b2 b3 = record { b0 = b0; b1 = b1; b2 = b2; b3 = b3 }

abbrev pub bundle_tag : Tag
bundle_tag = tag_of 107 80 116 28

abbrev pub bundle_header_tag : Tag
bundle_header_tag = tag_of 73 175 100 51

abbrev pub signatures_tag : Tag
signatures_tag = tag_of 168 57 54 241

abbrev pub payloads_tag : Tag
payloads_tag = tag_of 1 243 143 186

abbrev pub payload_tag : Tag
payload_tag = tag_of 73 12 175 175

abbrev pub payload_header_tag : Tag
payload_header_tag = tag_of 9 89 202 117

abbrev pub payload_data_tag : Tag
payload_data_tag = tag_of 66 253 100 26

abbrev pub bundle_header_size_limit : ℕ
bundle_header_size_limit = 128 * 1024

abbrev pub payload_header_size_limit : ℕ
payload_header_size_limit = 32 * 1024 * 1024

abbrev pub signatures_size_limit : ℕ
signatures_size_limit = 32 * 1024 * 1024

-- `PayloadEntry`, as far as the reader looks at it, with the rest as bytes.
pub record PayloadEntry : Type 0 where
  pub delivery : List ℕ
  pub header_hash : List ℕ
  pub file_hash : List ℕ

pub record BundleHeader : Type 0 where
  pub manifest : Option (List ℕ)
  pub is_incremental : Bool
  pub payload_index : List PayloadEntry

-- `format::BlockEncoding`, with the names of its algorithms: each payload has its own.
pub record NamedEncoding : Type 0 where
  pub hash_algorithm : ℕ
  pub compression : Option ℕ
  pub blocks : BlockEncoding

pub record PayloadHeader : Type 0 where
  pub block_encoding : Option NamedEncoding

-- The variants of `HashAlgorithm` and `Compression`, by their numbers.
pub record Algorithms : Type 1 where
  pub hash : ℕ → HashAlgorithm
  pub coder : ℕ → Compression

abbrev pub coder_named : Algorithms → Option ℕ → Option Compression
coder_named algs none = none
coder_named algs (some n) = some (algs.coder n)

-- The hash algorithm and the compression of the blocks of a payload; without blocks, there is none
-- to hash.
abbrev pub hash_for : Algorithms → HashAlgorithm → Option NamedEncoding → HashAlgorithm
hash_for algs h none = h
hash_for algs h (some e) = algs.hash e.hash_algorithm

abbrev pub coder_for : Algorithms → Option NamedEncoding → Option Compression
coder_for algs none = none
coder_for algs (some e) = coder_named algs e.compression

abbrev pub blocks_of : Option NamedEncoding → Option BlockEncoding
blocks_of none = none
blocks_of (some e) = some e.blocks

pub record Signatures : Type 0 where
  pub cms_signatures : List (List ℕ)

-- What a struct is written as between its start and its end, and `decode_slice`.
pub record Format (A : Type 0) : Type 0 where
  pub fields : A → Forest
  pub decode_slice : List ℕ → BundleResult A

-- `encode::to_vec`
unfoldable pub to_vec : {A : Type 0} → Format A → Tag → A → BundleResult (List ℕ)
to_vec f t x = write_forest (segment t (f.fields x) done)

-- `BundleReader`
pub record BundleReader : Type 0 where
  pub source : Source
  pub header : BundleHeader
  pub header_raw : List ℕ
  pub signatures : Option Signatures
  pub next_payload : ℕ

-- `PayloadReader`
pub record PayloadReader : Type 0 where
  pub idx : ℕ
  pub reader : BundleReader
  pub header : PayloadHeader
  pub remaining_data : ℕ

abbrev pub is_none : {A : Type 0} → Option A → Bool
is_none none = true
is_none (some x) = false

module _ (signatures_format : Format Signatures) where
  -- One round of the loop of `read_optional_metadata`, at the head just read; `inner` is the loop.
  unfoldable pub metadata_next :
      (Option Signatures → Source → BundleResult (Option Signatures × Source))
      → AtomHead
      → Option Signatures
      → Source
      → BundleResult (Option Signatures × Source)
  metadata_next inner head signatures s =
      if starts payloads_tag head
      then ok (signatures, s)
      else if starts signatures_tag head
      then (do
        guard (is_none signatures) multiple_signatures
        (raw, s') ← read_into_vec [] head signatures_size_limit s
        decoded ← signatures_format.decode_slice raw
        inner (some decoded) s')
      else (do
        guard (not (is_required (tag head))) unexpected_required_tag
        s' ← skip head s
        inner signatures s')

  unfoldable pub metadata_loop :
      ℕ → Option Signatures → Source → BundleResult (Option Signatures × Source)
  metadata_loop zero signatures s = out_of_fuel
  metadata_loop (suc fuel) signatures s = do
    (head, s') ← expect_atom_head s
    metadata_next (metadata_loop fuel) head signatures s'

  unfoldable pub read_optional_metadata : Source → BundleResult (Option Signatures × Source)
  read_optional_metadata s = metadata_loop (suc (length s)) none s

-- The check of the header, by the algorithm of the digest.
abbrev pub header_matches : HashAlgorithm → Option (List ℕ) → List ℕ → Bool
header_matches k none raw = true
header_matches k (some digest) raw = bytes_eq (hash_of k raw) digest

module _ (header_format : Format BundleHeader) (signatures_format : Format Signatures) where
  -- `BundleReader::start`
  unfoldable pub open_bundle :
      (k : HashAlgorithm) → Option (List ℕ) → Source → BundleResult BundleReader
  open_bundle k header_hash source = do
    (head, s1) ← skip_until_start bundle_header_tag (ignore_start source)
    (raw, s2) ← read_into_vec [] head bundle_header_size_limit s1
    guard (header_matches k header_hash raw) invalid_header_hash
    header ← header_format.decode_slice raw
    (signatures, s3) ← read_optional_metadata signatures_format s2
    ok (record {
      source = s3;
      header = header;
      header_raw = raw;
      signatures = signatures;
      next_payload = 0;
    })

module _ (h : HashAlgorithm) (payload_format : Format PayloadHeader) where
  -- `next_payload` for the entry of the payload. An error drops the reader, as its callers do.
  unfoldable pub open_payload : BundleReader → PayloadEntry → BundleResult PayloadReader
  open_payload r entry = do
    (head, s1) ← skip_until_start payload_header_tag (ignore_start r.source)
    (raw, s2) ← read_into_vec [] head payload_header_size_limit s1
    guard (bytes_eq (hash_of h raw) entry.header_hash) invalid_payload_header_hash
    (remaining, s3) ← skip_until_value payload_data_tag s2
    header ← payload_format.decode_slice raw
    ok (record {
      idx = r.next_payload;
      reader = record r { source = s3; next_payload = r.next_payload + 1 };
      header = header;
      remaining_data = remaining;
    })

  abbrev pub open_entry : BundleReader → Option PayloadEntry → BundleResult (Option PayloadReader)
  open_entry r none = ok none
  open_entry r (some entry) = do p ← open_payload r entry; ok (some p)

  unfoldable pub next_payload : BundleReader → BundleResult (Option PayloadReader)
  next_payload r = open_entry r (get_elem? r.header.payload_index r.next_payload)

-- `PayloadReader::skip`, with the reader behind it.
unfoldable pub skip_payload : PayloadReader → BundleResult BundleReader
skip_payload p = do
  s ← skip_bytes p.remaining_data p.reader.source
  s' ← skip_until_end payload_tag s
  ok (record (p.reader) { source = s' })

module _ (algs : Algorithms) (h : HashAlgorithm) (t : PayloadTarget) (provider : Provider) where
  -- What the decoding of a payload gives, with the algorithms that its header names.
  abbrev pub DecodedBy : Option NamedEncoding → Type 0
  DecodedBy e = Decoded (hash_for algs h e) h (coder_for algs e) t provider

  -- `PayloadReader::decode_into`, with the reader behind it.
  unfoldable pub decode_payload :
      (p : PayloadReader)
      → t.State
      → BundleResult (DecodedBy p.header.block_encoding × BundleReader)
  decode_payload p target = do
    entry ← unwrap (get_elem? p.reader.header.payload_index p.idx)
    d ←
        decode_into (hash_for algs h p.header.block_encoding) h
          (coder_for algs p.header.block_encoding) t provider (blocks_of p.header.block_encoding)
          entry.file_hash p.remaining_data target p.reader.source
    s ← skip_until_end payload_tag d.source
    ok (d, record (p.reader) { source = s })

-- `PreparedPayload`
pub record PreparedPayload : Type 0 where
  pub payload_header : List ℕ
  pub payload_data : List ℕ

-- The writing of a bundle in builder.rs.
unfoldable pub write_payload : PreparedPayload → BundleResult (List ℕ)
write_payload p = do
  opening ← write_atom_head (start payload_tag)
  head ← write_atom_head (value payload_data_tag (length p.payload_data))
  closing ← write_atom_head (end payload_tag)
  ok (opening ++ (p.payload_header ++ (head ++ (p.payload_data ++ closing))))

unfoldable pub write_payloads : List PreparedPayload → BundleResult (List ℕ)
write_payloads [] = ok []
write_payloads (p ∷ ps) = do first ← write_payload p; rest ← write_payloads ps; ok (first ++ rest)

unfoldable pub write_bundle :
    Format BundleHeader → BundleHeader → List PreparedPayload → BundleResult (List ℕ)
write_bundle header_format header payloads = do
  opening ← write_atom_head (start bundle_tag)
  raw ← to_vec header_format bundle_header_tag header
  payloads_opening ← write_atom_head (start payloads_tag)
  written ← write_payloads payloads
  payloads_closing ← write_atom_head (end payloads_tag)
  closing ← write_atom_head (end bundle_tag)
  ok (opening ++ (raw ++ (payloads_opening ++ (written ++ (payloads_closing ++ closing)))))
