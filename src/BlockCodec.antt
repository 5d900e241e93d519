-- ===== src/BlockCodec.antt =====
-- crates/libs/rugix-bundle/src: block_encoding/block_table.rs, the encoding of a payload as blocks
-- in block_encoding/mod.rs, and its decoding in reader.rs (`PayloadReader::decode_into`).
-- Compression is that of a crate behind the code: a coder with its inverse. The worker threads of
-- the encoder hand the blocks back with their numbers, and are written in that order.
pub mod Decode
pub mod Table
pub mod Encoding
pub mod Sizes
pub mod Blocks
pub mod Roundtrip
pub mod Integrity
pub mod Plain
mod Tests
use rugix.Common.{
  ℕ, zero, suc, ◌+◌, ◌-◌, ◌*◌, ◌/◌, ◌%◌, ◌^◌, ◌≡◌, min, Bool, true, false, ◌&&◌, ◌||◌, not, Option,
  none, some, List, [], ◌∷◌, ◌++◌, ltb, leb, ◌==◌, if◌then◌else◌, length, take, drop, get_elem?,
  map, flatten,
}
use rugix.Common.Result.{Result, ok, err, panic, out_of_fuel, ◌>>=◌, ◌>>◌, assert, guard, unwrap}
use rugix.BlockIndex.{HashAlgorithm, BlockIndex, BlockIndexEntry, hash_of, entry}
use rugix.Stlv.{BundleResult}
use rugix.Chunker.Algorithm.{ChunkerAlgorithm, casync, fixed}

-- `None` is no compression.
pub record Compression : Type 0 where
  pub compress : List ℕ → List ℕ
  pub uncompress : List ℕ → Option (List ℕ)
  pub uncompress-compress : (bytes : List ℕ) → uncompress (compress bytes) ≡ some bytes

abbrev pub compressed : Option Compression → List ℕ → List ℕ
compressed none bytes = bytes
compressed (some c) bytes = c.compress bytes

-- `uncompress_bytes`: what is no compressed data panics.
abbrev pub uncompressed : Option Compression → List ℕ → BundleResult (List ℕ)
uncompressed none bytes = ok bytes
uncompressed (some c) bytes = unwrap (c.uncompress bytes)

abbrev pub bytes_eq : List ℕ → List ℕ → Bool
bytes_eq [] [] = true
bytes_eq [] (y ∷ ys) = false
bytes_eq (x ∷ xs) [] = false
bytes_eq (x ∷ xs) (y ∷ ys) = x == y && bytes_eq xs ys

-- `RawBlockIndex::block_hash`, for a block of the index.
unfoldable pub raw_block_hash : ℕ → List ℕ → ℕ → List ℕ
raw_block_hash hash_size hashes block = take hash_size (drop (block * hash_size) hashes)

-- `BlockTable`: the hash table finds the block with the same hash, whatever its own hasher.
unfoldable pub get_raw : ℕ → List ℕ → List ℕ → List ℕ → Option ℕ
get_raw hash_size hashes [] hash = none
get_raw hash_size hashes (block ∷ table) hash =
    if bytes_eq hash (raw_block_hash hash_size hashes block)
    then some block
    else get_raw hash_size hashes table hash

abbrev pub vacant : Option ℕ → Bool
vacant none = true
vacant (some block) = false

abbrev pub with_block : Option ℕ → ℕ → List ℕ → List ℕ
with_block none block table = block ∷ table
with_block (some other) block table = table

-- Whether the block is new, and the table behind it.
unfoldable pub insert_raw : ℕ → List ℕ → List ℕ → ℕ → Bool × List ℕ
insert_raw hash_size hashes table block =
    let found = get_raw hash_size hashes table (raw_block_hash hash_size hashes block) in
    (vacant found, with_block found block table)

abbrev pub u32_to_be_bytes : ℕ → List ℕ
u32_to_be_bytes n = n / 2 ^ 24 ∷ n / 2 ^ 16 % 256 ∷ n / 2 ^ 8 % 256 ∷ n % 256 ∷ []

-- `format::BlockEncoding`, but for the names of its hash algorithm and its compression, which are
-- those of the parameters below; `NamedEncoding` has them.
pub record BlockEncoding : Type 0 where
  pub chunker : ChunkerAlgorithm
  pub deduplicated : Bool
  pub block_hashes : List ℕ
  pub block_sizes : Option (List ℕ)

-- The sizes of what was written, each in four bytes; a larger block panics.
unfoldable pub encode_sizes : List (List ℕ) → Result ⊥ (List ℕ)
encode_sizes [] = ok []
encode_sizes (block ∷ blocks) = do
  assert (ltb (length block) (2 ^ 32))
  rest ← encode_sizes blocks
  ok (u32_to_be_bytes (length block) ++ rest)

abbrev pub sizes_of : Option Compression → Bool → List (List ℕ) → Result ⊥ (Option (List ℕ))
sizes_of c false datas = ok none
sizes_of c true datas = do sizes ← encode_sizes datas; ok (some (compressed c sizes))

abbrev pub is_some : {A : Type 0} → Option A → Bool
is_some none = false
is_some (some x) = true

-- `ChunkerAlgorithm::is_fixed`
abbrev pub is_fixed : ChunkerAlgorithm → Bool
is_fixed (casync kib) = false
is_fixed (fixed kib) = true

module _ (a : HashAlgorithm) (c : Option Compression) where
  -- A worker: a payload that ends inside the block panics.
  unfoldable pub encode_block : List ℕ → BlockIndex → ℕ → Result ⊥ (List ℕ)
  encode_block payload index block = do
    e ← entry a index block
    let bytes = take e.size (drop e.offset payload)
    assert (length bytes == e.size)
    ok (compressed c bytes)

  -- The data of the blocks from number `block` on that are written, in order.
  unfoldable pub encode_blocks :
      Bool → List ℕ → BlockIndex → ℕ → ℕ → List ℕ → Result ⊥ (List (List ℕ))
  encode_blocks deduplicate payload index zero block table = ok []
  encode_blocks deduplicate payload index (suc left) block table =
      let inserted = insert_raw a.hash_size index.hashes table block in
      let table' = if deduplicate then inserted.1 else table in
      let rest = encode_blocks deduplicate payload index left (block + 1) table' in
      if not deduplicate || inserted.0
      then (do written ← encode_block payload index block; datas ← rest; ok (written ∷ datas))
      else rest

  -- `encode_payload_file` at the index that the chunker makes of the payload: the encoding, and
  -- the data of the payload.
  unfoldable pub encode_payload_file :
      Bool → ChunkerAlgorithm → List ℕ → BlockIndex → Result ⊥ (BlockEncoding × List ℕ)
  encode_payload_file deduplicate chunker payload index = do
    datas ← encode_blocks deduplicate payload index (length index.offsets) 0 []
    sizes ← sizes_of c (not (is_fixed chunker) || is_some c) datas
    ok (
      record {
        chunker = chunker;
        deduplicated = deduplicate;
        block_hashes = compressed c index.hashes;
        block_sizes = sizes;
      },
      flatten datas,
    )
