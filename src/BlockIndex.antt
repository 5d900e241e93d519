-- ===== src/BlockIndex.antt =====
-- crates/libs/rugix-bundle/src/block_encoding/block_index.rs: the index of the blocks of a payload.
-- The hash algorithm is a parameter: a hasher that takes slices, and the size of its hashes. The
-- chunker is any implementation of the trait `Chunker`.
pub mod Build
pub mod Payload
pub mod Entries
mod Tests
use rugix.Common.{
  ℕ, zero, suc, ◌+◌, ◌-◌, ◌*◌, ◌≤◌, ◌<◌, ◌≡◌, refl, Bool, true, false, Option, none, some, List, [],
  ◌∷◌, ◌++◌, ltb, leb, ◌==◌, if◌then◌else◌, length, take, drop, get_elem?, arith,
}
use rugix.Common.Result.{Result, ok, err, panic, out_of_fuel, ◌>>=◌, ◌>>◌, assert, unwrap}
use rugix.Chunker.{Chunker}

-- The hashers of `si_crypto_hashes`: what they compute does not depend on how the input is sliced,
-- and a hash has the size of the algorithm.
pub record HashAlgorithm : Type 1 where
  pub Hasher : Type 0
  pub hasher : Hasher
  pub update : Hasher → List ℕ → Hasher
  pub finalize : Hasher → List ℕ
  pub hash_size : ℕ
  pub update-nil : (h : Hasher) → update h [] ≡ h
  pub update-append : (h : Hasher) (xs ys : List ℕ) → update (update h xs) ys ≡ update h (xs ++ ys)
  pub length-finalize : (h : Hasher) → length (finalize h) ≡ hash_size

-- `BlockIndex`, but for its configuration, which is the parameters below.
pub record BlockIndex : Type 0 where
  pub hashes : List ℕ
  pub offsets : List ℕ
  pub sizes : List ℕ

pub record BlockIndexEntry : Type 0 where
  pub hash : List ℕ
  pub offset : ℕ
  pub size : ℕ

abbrev pub empty : BlockIndex
empty = record { hashes = []; offsets = []; sizes = [] }

-- `xs[i]`
abbrev pub index_at : List ℕ → ℕ → Result ⊥ ℕ
index_at xs i = unwrap (get_elem? xs i)

module _ (a : HashAlgorithm) where
  abbrev pub hash_of : List ℕ → List ℕ
  hash_of bytes = a.finalize (a.update a.hasher bytes)

  -- `BlockIndex::push`, which asserts that the hash has the right size.
  unfoldable pub push : BlockIndex → BlockIndexEntry → Result ⊥ BlockIndex
  push index entry = do
    assert (length entry.hash == a.hash_size)
    ok (record {
      hashes = index.hashes ++ entry.hash;
      offsets = index.offsets ++ entry.offset ∷ [];
      sizes = index.sizes ++ entry.size ∷ [];
    })

  -- `BlockIndex::num_blocks`
  unfoldable pub num_blocks : BlockIndex → ℕ
  num_blocks index = length index.hashes

  -- `BlockIndex::block_hash`, for a block of the index.
  unfoldable pub block_hash : BlockIndex → ℕ → List ℕ
  block_hash index block = take a.hash_size (drop (block * a.hash_size) index.hashes)

  -- `BlockIndex::entry`, with `block_offset` and `block_size`; an index out of range panics.
  unfoldable pub entry : BlockIndex → ℕ → Result ⊥ BlockIndexEntry
  unfolding block_hash
  entry index block = do
    offset ← index_at index.offsets block
    size ← index_at index.sizes block
    assert (leb ((block + 1) * a.hash_size) (length index.hashes))
    ok (record { hash = block_hash index block; offset = offset; size = size })

  module _ (c : Chunker) where
    -- `BlockIndexBuilder`
    pub record Builder : Type 0 where
      pub hasher : a.Hasher
      pub chunker : c.State
      pub index : BlockIndex
      pub pending_block_offset : ℕ
      pub pending_block_size : ℕ

    -- `BlockIndexBuilder::new`, with the chunker that was made.
    unfoldable pub new : c.State → Builder
    new s = record {
      hasher = a.hasher;
      chunker = s;
      index = empty;
      pending_block_offset = 0;
      pending_block_size = 0;
    }

    -- `finalize_block`
    unfoldable pub finalize_block : Builder → Result ⊥ Builder
    unfolding push
    finalize_block b = do
      let entry : BlockIndexEntry = record {
        hash = a.finalize b.hasher;
        offset = b.pending_block_offset;
        size = b.pending_block_size;
      }
      index ← push b.index entry
      ok (record b {
        hasher = a.hasher;
        index = index;
        pending_block_offset = b.pending_block_offset + b.pending_block_size;
        pending_block_size = 0;
      })

    -- One round of the loop of `process`, at the result of the scan: the builder behind the chunk
    -- and the input that is left.
    unfoldable pub take_chunk : Builder → List ℕ → c.State × Option ℕ → Result ⊥ (Builder × List ℕ)
    take_chunk b input (s, none) = ok (
      record b {
        hasher = a.update b.hasher input;
        chunker = s;
        pending_block_size = b.pending_block_size + length input;
      },
      [],
    )
    take_chunk b input (s, some offset) = do
      let chunk = take offset input
      b' ← finalize_block (record b {
        hasher = a.update b.hasher chunk;
        chunker = s;
        pending_block_size = b.pending_block_size + length chunk;
      })
      ok (b', drop offset input)

    -- `process`. Every round takes a byte at least, so that the length of the input is enough fuel.
    unfoldable pub process_loop : ℕ → Builder → List ℕ → Result ⊥ Builder
    process_loop fuel b [] = ok b
    process_loop zero b (x ∷ xs) = out_of_fuel
    process_loop (suc fuel) b (x ∷ xs) = do
      (b', input) ← take_chunk b (x ∷ xs) (c.scan b.chunker (x ∷ xs))
      process_loop fuel b' input

    unfoldable pub process : Builder → List ℕ → Result ⊥ Builder
    process b input = process_loop (length input) b input

    -- `finalize`
    unfoldable pub finalize : Builder → Result ⊥ BlockIndex
    finalize b =
        if ltb 0 b.pending_block_size then (do b' ← finalize_block b; ok b'.index) else ok b.index

    -- The loop of `compute_block_index` over the buffers that the reader fills.
    unfoldable pub process_all : Builder → List (List ℕ) → Result ⊥ Builder
    process_all b [] = ok b
    process_all b (buffer ∷ buffers) = do b' ← process b buffer; process_all b' buffers

    unfoldable pub compute_block_index : c.State → List (List ℕ) → Result ⊥ BlockIndex
    compute_block_index s buffers = do b ← process_all (new s) buffers; finalize b
