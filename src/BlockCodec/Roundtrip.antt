-- ===== src/BlockCodec/Roundtrip.antt =====
-- A payload that was encoded in blocks is decoded to what it was.
use rugix.Common.{
  ℕ, suc, ◌+◌, ◌/◌, ◌<◌, ◌≡◌, Bool, true, ◌||◌, not, refl, sym, ap, ◌∙◌, Option, none, some, List,
  [], ◌∷◌, ◌++◌, map, flatten, length, All,
}
use rugix.Common.Result.{ok}
use native.Mathlib.Nat.{mul-div_cancel}
use rugix.BlockIndex.{HashAlgorithm, hash_of}
use rugix.BlockIndex.Build.{index_of, offsets_from}
use rugix.BlockIndex.Entries.{length-hashes}
use rugix.Stlv.{Source}
use rugix.Chunker.Algorithm.{ChunkerAlgorithm, casync, fixed, kibibytes}
use rugix.BlockCodec.{
  Compression, compressed, BlockEncoding, sizes_of, is_some, is_fixed, encode_payload_file,
}
use rugix.BlockCodec.Decode.{
  file, Provider, fixed_block_size, decode_sizes, sizes_from, has_sizes, decode_encoded, walk_start,
  Decoded, decode_into,
}
use rugix.BlockCodec.Table.{written_blocks}
use rugix.BlockCodec.Encoding.{hashes, encode_blocks-written}
use rugix.BlockCodec.Integrity.{bytes_eq_refl, decode_blocks-Faithful}
use rugix.BlockCodec.Sizes.{
  Short, decode_sizes-encode_sizes, NextSizes, listed-NextSizes, Uniform, fixed-NextSizes,
  written_blocks-Uniform, written_blocks-All,
}
use rugix.BlockCodec.Blocks.{
  CollisionFree, Serves, uncompressed-compressed, Reached, decode_blocks-Reached,
}

-- Without compression, the sizes are not listed if the chunker's is fixed.
abbrev pub Sized : Option Compression → ChunkerAlgorithm → List (List ℕ) → Type 0
Sized c (casync kib) blocks = Unit
Sized (some c) (fixed kib) blocks = Unit
Sized none (fixed kib) blocks = Uniform (kibibytes kib) blocks

length-offsets : (at : ℕ) (blocks : List (List ℕ)) → length (offsets_from at blocks) ≡ length blocks
length-offsets at [] = refl
length-offsets at (b ∷ blocks) = ap suc (length-offsets (at + length b) blocks)

map-uncompressed : (blocks : List (List ℕ)) → map (compressed none) blocks ≡ blocks
map-uncompressed [] = refl
map-uncompressed (b ∷ blocks) = ap (λ bs. b ∷ bs) (map-uncompressed blocks)

All-compressed :
    (c : Option Compression) (blocks : List (List ℕ))
    → All (λ b. Short (compressed c b)) blocks
    → All Short (map (compressed c) blocks)
All-compressed c [] s = tt
All-compressed c (b ∷ blocks) (p, s) = (p, All-compressed c blocks s)

module _ (a h : HashAlgorithm) (c : Option Compression) (provider : Provider) where
  -- The sizes in the encoding, and what is decoded of them.
  abbrev SizesFor : ChunkerAlgorithm → List (List ℕ) → Type 0
  SizesFor chunker datas =
      (raw sizes : Option (List ℕ)) × (sizes_of c (not (is_fixed chunker) || is_some c) datas
        ≡ ok raw)
      × (sizes_from a h c file provider raw ≡ ok sizes)
      × (has_sizes a h c file provider (fixed_block_size chunker) sizes ≡ true)
      × NextSizes sizes (fixed_block_size chunker) 0 datas

  listed :
      (chunker : ChunkerAlgorithm) (datas : List (List ℕ))
      → All Short datas
      → not (is_fixed chunker) || is_some c ≡ true
      → SizesFor chunker datas
  listed chunker datas short flag =
      let (bytes, encoded, decoded) = decode_sizes-encode_sizes datas short in
      (
        some (compressed c bytes),
        some (decode_sizes bytes),
        rw (flag, encoded) refl,
        rw (uncompressed-compressed c bytes) refl,
        any_size (fixed_block_size chunker) (decode_sizes bytes),
        listed-NextSizes (fixed_block_size chunker) [] datas (decode_sizes bytes) decoded,
      )
    where
      any_size :
          (fixed : Option ℕ) (sizes : List ℕ)
          → has_sizes a h c file provider fixed (some sizes) ≡ true
      any_size none sizes = refl
      any_size (some size) sizes = refl

module _ (a h : HashAlgorithm) (provider : Provider) where
  sizes-fit :
      (c : Option Compression) (chunker : ChunkerAlgorithm) (datas : List (List ℕ))
      → All Short datas
      → Sized c chunker datas
      → SizesFor a h c provider chunker datas
  sizes-fit none (casync kib) datas short sized =
      listed a h none provider (casync kib) datas short refl
  sizes-fit (some c) (casync kib) datas short sized =
      listed a h (some c) provider (casync kib) datas short refl
  sizes-fit (some c) (fixed kib) datas short sized =
      listed a h (some c) provider (fixed kib) datas short refl
  sizes-fit none (fixed kib) datas short sized =
      (none, none, refl, refl, refl, fixed-NextSizes (kibibytes kib) 0 datas sized)

module _ (a : HashAlgorithm) where
  written-Sized :
      (c : Option Compression) (chunker : ChunkerAlgorithm) (deduplicate : Bool)
      (blocks : List (List ℕ))
      → Sized c chunker blocks
      → Sized c chunker (
          map
            (compressed c)
            (written_blocks a.hash_size (hashes a c blocks) deduplicate 0 [] blocks))
  written-Sized none (casync kib) deduplicate blocks s = tt
  written-Sized (some c) (casync kib) deduplicate blocks s = tt
  written-Sized (some c) (fixed kib) deduplicate blocks s = tt
  written-Sized none (fixed kib) deduplicate blocks s =
      rw
        (map-uncompressed
          (written_blocks a.hash_size (hashes a none blocks) deduplicate 0 [] blocks))
        (written_blocks-Uniform a.hash_size (hashes a none blocks) deduplicate (kibibytes kib) 0 []
          blocks s)

module _ (a h : HashAlgorithm) (c : Option Compression) (provider : Provider)
    (Known : List ℕ → Type 0) (deduplicate : Bool) (chunker : ChunkerAlgorithm)
    (blocks : List (List ℕ)) (rest : Source) where
  abbrev pub Decodes : BlockEncoding → List ℕ → Type 0
  Decodes encoding bytes =
      (d : Decoded a h c file provider) × (decode_into a h c file provider (some encoding)
          (hash_of h (flatten blocks)) (length bytes) [] (bytes ++ rest)
        ≡ ok d)
      × (d.target ≡ flatten blocks)
      × (d.size ≡ length (flatten blocks))
      × (d.source ≡ rest)

  datas : List (List ℕ)
  datas =
      map (compressed c) (written_blocks a.hash_size (hashes a c blocks) deduplicate 0 [] blocks)

  encoded-Decodes :
      0 < a.hash_size
      → CollisionFree a Known
      → Serves provider Known
      → All Known blocks
      → (sizes : Option (List ℕ)) (raw : Option (List ℕ))
      → sizes_from a h c file provider raw ≡ ok sizes
      → has_sizes a h c file provider (fixed_block_size chunker) sizes ≡ true
      → NextSizes sizes (fixed_block_size chunker) 0 datas
      → Decodes
          (record {
            deduplicated = deduplicate;
            chunker = chunker;
            block_hashes = compressed c (hashes a c blocks);
            block_sizes = raw;
          })
          (flatten datas)
  unfolding datas decode_into decode_encoded
  encoded-Decodes pos free serves known sizes raw s1 s2 next =
      let w0 = walk_start a h c file provider (flatten datas ++ rest) (length (flatten datas)) [] in
      let start : Reached a h c provider Known free serves deduplicate sizes
          (fixed_block_size chunker) blocks known rest [] blocks w0 =
        record {
          split = refl;
          earlier = tt;
          offsets = refl;
          block_sizes = refl;
          target = unfold flatten in refl;
          written = unfold flatten in refl;
          source = refl;
          remaining = refl;
          next = next;
        } in
      let (w, ran, target, written, source) =
        decode_blocks-Reached a h c provider Known free serves deduplicate sizes
          (fixed_block_size chunker) blocks known rest [] blocks 0 w0 refl start in
      let number : length (hashes a c blocks) / a.hash_size ≡ length blocks =
        ap (λ (n : ℕ). n / a.hash_size) (length-hashes a blocks)
        ∙ mul-div_cancel (length blocks) pos in
      let (seen, counted) =
        decode_blocks-Faithful a h c provider deduplicate (hashes a c blocks) sizes
          (fixed_block_size chunker) (length blocks) 0 w0 w (sym (h.update-nil h.hasher), refl)
          ran in
      let hash : h.finalize w.hasher ≡ hash_of h (flatten blocks) =
        ap h.finalize seen ∙ ap (hash_of h) target in
      (
        record {
          hash = h.finalize w.hasher;
          size = w.written;
          source = w.source;
          target = w.target;
        },
        rw
            (
              uncompressed-compressed c (hashes a c blocks),
              s1,
              s2,
              number,
              ran,
              hash,
              bytes_eq_refl (hash_of h (flatten blocks)),
            )
            refl,
        target,
        written,
        source,
      )

  -- A payload that is encoded in the blocks of its index, with or without deduplication and compression,
  -- and with sizes that are listed or fixed, is decoded again: the encoder succeeds, and the decoder,
  -- given what it made, the payload's hash and whatever stands behind its data, restores the payload and
  -- stops exactly behind them. It may take blocks from the provider, those repeated in the payload
  -- from the target. Conditions: no two of the known byte strings, which the blocks and what the provider
  -- stores are among, share a hash; hashes are not empty; blocks are written in less than 2^32 bytes; with
  -- a fixed size and no compression, only the last block may be shorter than that.
  pub decode_into-encode_payload_file :
      0 < a.hash_size
      → CollisionFree a Known
      → Serves provider Known
      → All Known blocks
      → Sized c chunker blocks
      → All (λ b. Short (compressed c b)) blocks
      → (encoding : BlockEncoding) × (bytes : List ℕ) × (encode_payload_file a c deduplicate chunker
            (flatten blocks)
            (index_of a blocks)
          ≡ ok (encoding, bytes))
        × Decodes encoding bytes
  unfolding encode_payload_file datas
  decode_into-encode_payload_file pos free serves known sized short =
      let all_short =
        All-compressed c (written_blocks a.hash_size (hashes a c blocks) deduplicate 0 [] blocks) (
          written_blocks-All a.hash_size (hashes a c blocks) deduplicate
            (λ b. Short (compressed c b)) 0 [] blocks short) in
      let (raw, sizes, is_raw, s1, s2, next) =
        sizes-fit a h provider c chunker datas all_short
          (written-Sized a c chunker deduplicate blocks sized) in
      let written = encode_blocks-written a c blocks deduplicate [] blocks 0 [] refl refl in
      (
        record {
          deduplicated = deduplicate;
          chunker = chunker;
          block_hashes = compressed c (hashes a c blocks);
          block_sizes = raw;
        },
        flatten datas,
        rw (length-offsets 0 blocks, written, is_raw) refl,
        encoded-Decodes pos free serves known sizes raw s1 s2 next,
      )
