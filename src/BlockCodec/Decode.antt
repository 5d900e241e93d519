-- ===== src/BlockCodec/Decode.antt =====
-- crates/libs/rugix-bundle/src/reader.rs: `PayloadReader::decode_into`, and what it calls.
-- A source is the list of the bytes that it has not delivered. The buffer holds the last block.
use rugix.Common.{
  ℕ, zero, suc, ◌+◌, ◌-◌, ◌*◌, ◌/◌, min, Bool, true, false, ◌||◌, not, Option, none, some, List, [],
  ◌∷◌, ◌++◌, ltb, leb, ◌==◌, if◌then◌else◌, length, take, drop, get_elem?,
}
use rugix.Common.Result.{ok, err, out_of_fuel, ◌>>=◌, ◌>>◌, assert, guard, unwrap}
use rugix.BlockIndex.{HashAlgorithm, hash_of}
use rugix.Stlv.{
  BundleResult, Source, needs_block_sizes, invalid_block_hash, payload_hash_mismatch,
  target_failure, read_exact, skip_bytes,
}
use rugix.Chunker.Algorithm.{ChunkerAlgorithm, casync, fixed, kibibytes}
use rugix.BlockCodec.{
  Compression, uncompressed, bytes_eq, raw_block_hash, get_raw, insert_raw, BlockEncoding,
}

-- `PayloadTarget`
pub record PayloadTarget : Type 1 where
  pub State : Type 0
  pub write : State → List ℕ → BundleResult State
  pub read_block : State → ℕ → ℕ → BundleResult (List ℕ)
  pub finalize : State → BundleResult State

-- A file that is written from its start.
abbrev pub file : PayloadTarget
file = record {
  State = List ℕ;
  write = λ s bytes. ok (s ++ bytes);
  read_block = λ s offset size.
      if leb (offset + size) (length s) then ok (take size (drop offset s)) else err target_failure;
  finalize = λ s. ok s;
}

-- `StoredBlockProvider`: the stored block for a hash, whose file is then read.
abbrev pub Provider : Type 0
Provider = List ℕ → Option (BundleResult (List ℕ))

-- The four-byte sizes; what is left over is dropped.
unfoldable pub decode_sizes : List ℕ → List ℕ
decode_sizes (b0 ∷ b1 ∷ b2 ∷ b3 ∷ bytes) =
    (((b0 * 256 + b1) * 256 + b2) * 256 + b3) ∷ decode_sizes bytes
decode_sizes _ = []

-- `Some((block_size_kib as u32) * 1024)`: the number is of 16 bits.
abbrev pub fixed_block_size : ChunkerAlgorithm → Option ℕ
fixed_block_size (casync kib) = none
fixed_block_size (fixed kib) = some (kibibytes kib)

-- The size of the next block in the source.
abbrev pub next_size : Option (List ℕ) → Option ℕ → ℕ → BundleResult ℕ
next_size (some sizes) fixed_size i = unwrap (get_elem? sizes i)
next_size none fixed_size i = unwrap fixed_size

-- The variables of the loop over the blocks, with the target.
pub record Walk (State Hasher : Type 0) : Type 0 where
  pub table : List ℕ
  pub offsets : List ℕ
  pub sizes : List ℕ
  pub next_size_idx : ℕ
  pub source : Source
  pub remaining : ℕ
  pub written : ℕ
  pub target : State
  pub hasher : Hasher

module _ (a h : HashAlgorithm) (c : Option Compression) (t : PayloadTarget)
    (provider : Provider) where
  abbrev pub State : Type 0
  State = Walk t.State h.Hasher

  abbrev pub hash_matches : List ℕ → List ℕ → Bool
  hash_matches bytes hash = bytes_eq (hash_of a bytes) hash

  -- The block from the source.
  unfoldable pub from_source : ℕ → List ℕ → Source → BundleResult (List ℕ × Source)
  from_source size hash source = do
    (raw, rest) ← read_exact size source
    bytes ← uncompressed c raw
    guard (hash_matches bytes hash) invalid_block_hash
    ok (bytes, rest)

  -- A stored block is taken in place of that of the source if it has the hash.
  abbrev pub from_stored :
      Option (BundleResult (List ℕ)) → ℕ → List ℕ → Source → BundleResult (List ℕ × Source)
  from_stored none size hash source = from_source size hash source
  from_stored (some stored) size hash source = do
    bytes ← stored
    (if hash_matches bytes hash
        then (do rest ← skip_bytes size source; ok (bytes, rest))
        else from_source size hash source)

  -- The block, the source and the bytes of the payload that remain.
  unfoldable pub fetch :
      Option (List ℕ) → Option ℕ → List ℕ → State → BundleResult (List ℕ × Source × ℕ × ℕ)
  fetch sizes fixed_size hash w = do
    listed ← next_size sizes fixed_size w.next_size_idx
    let size = min listed w.remaining
    (bytes, rest) ← from_stored (provider hash) size hash w.source
    ok (bytes, rest, w.remaining - size, w.next_size_idx + 1)

  -- A block that is in the target already.
  unfoldable pub fetch_again : ℕ → ℕ → List ℕ → State → BundleResult (List ℕ × Source × ℕ × ℕ)
  fetch_again block first hash w = do
    assert (ltb first block)
    offset ← unwrap (get_elem? w.offsets first)
    size ← unwrap (get_elem? w.sizes first)
    bytes ← t.read_block w.target offset size
    guard (hash_matches bytes hash) invalid_block_hash
    ok (bytes, w.source, w.remaining, w.next_size_idx)

  unfoldable pub decode_block :
      Bool → List ℕ → Option (List ℕ) → Option ℕ → ℕ → State → BundleResult State
  decode_block deduplicated hashes sizes fixed_size block w = do
    let hash = raw_block_hash a.hash_size hashes block
    let inserted = insert_raw a.hash_size hashes w.table block
    first ← unwrap (get_raw a.hash_size hashes inserted.1 hash)
    (bytes, source, remaining, next) ←
        (if inserted.0 || not deduplicated
          then fetch sizes fixed_size hash w
          else fetch_again block first hash w)
    target ← t.write w.target bytes
    ok (record {
      table = inserted.1;
      offsets = w.offsets ++ w.written ∷ [];
      sizes = w.sizes ++ length bytes ∷ [];
      next_size_idx = next;
      source = source;
      remaining = remaining;
      written = w.written + length bytes;
      target = target;
      hasher = h.update w.hasher bytes;
    })

  -- The loop over the hashes, `left` of them from number `block` on.
  unfoldable pub decode_blocks :
      Bool → List ℕ → Option (List ℕ) → Option ℕ → ℕ → ℕ → State → BundleResult State
  decode_blocks deduplicated hashes sizes fixed_size zero block w = ok w
  decode_blocks deduplicated hashes sizes fixed_size (suc left) block w =
      decode_block deduplicated hashes sizes fixed_size block w >>= λ w'.
      decode_blocks deduplicated hashes sizes fixed_size left (block + 1) w'

  abbrev pub sizes_from : Option (List ℕ) → BundleResult (Option (List ℕ))
  sizes_from none = ok none
  sizes_from (some raw) = do bytes ← uncompressed c raw; ok (some (decode_sizes bytes))

  abbrev pub has_sizes : Option ℕ → Option (List ℕ) → Bool
  has_sizes none none = false
  has_sizes none (some sizes) = true
  has_sizes (some size) sizes = true

  unfoldable pub decode_encoded : BlockEncoding → State → BundleResult State
  decode_encoded e w = do
    hashes ← uncompressed c e.block_hashes
    sizes ← sizes_from e.block_sizes
    guard (has_sizes (fixed_block_size e.chunker) sizes) needs_block_sizes
    decode_blocks e.deduplicated hashes sizes (fixed_block_size e.chunker)
        (length hashes / a.hash_size) 0 w

  -- Without a block encoding: reads of 8192 bytes at most, until nothing comes. Each read takes a byte.
  unfoldable pub copy : ℕ → State → BundleResult State
  copy zero w = out_of_fuel
  copy (suc fuel) w =
      let bytes = take (min 8192 w.remaining) w.source in
      let rest = λ (target : t.State). copy fuel (record w {
        source = drop (min 8192 w.remaining) w.source;
        remaining = w.remaining - length bytes;
        written = w.written + length bytes;
        target = target;
        hasher = h.update w.hasher bytes;
      }) in
      if length bytes == 0 then ok w else (t.write w.target bytes >>= rest)

  abbrev pub decode_data : Option BlockEncoding → State → BundleResult State
  decode_data none w = copy (suc w.remaining) w
  decode_data (some e) w = decode_encoded e w

  abbrev pub walk_start : Source → ℕ → t.State → State
  walk_start source remaining target = record {
    table = [];
    offsets = [];
    sizes = [];
    next_size_idx = 0;
    source = source;
    remaining = remaining;
    written = 0;
    target = target;
    hasher = h.hasher;
  }

  -- `DecodedPayloadInfo`, with the source and the target.
  pub record Decoded : Type 0 where
    pub hash : List ℕ
    pub size : ℕ
    pub source : Source
    pub target : t.State

  -- `decode_into` up to the end of the payload's data: `file_hash` is that of the payload's entry.
  unfoldable pub decode_into :
      Option BlockEncoding → List ℕ → ℕ → t.State → Source → BundleResult Decoded
  decode_into encoding file_hash remaining target source = do
    w ← decode_data encoding (walk_start source remaining target)
    let hash = h.finalize w.hasher
    guard (bytes_eq hash file_hash) payload_hash_mismatch
    final ← t.finalize w.target
    ok (record { hash = hash; size = w.written; source = w.source; target = final })
