-- ===== src/BlockIndex/Entries.antt =====
-- The entries of an index.
use rugix.Common.{
  ℕ, zero, suc, ◌+◌, ◌*◌, ◌<◌, ◌≡◌, refl, ap, sym, ◌∙◌, true, some, List, [], ◌∷◌, ◌++◌, map, leb,
  length, take, drop, get_elem?, arith, flatten, length-append, take-length_append, drop-add_append,
}
use rugix.Common.Result.{ok}
use native.Mathlib.Nat.{add-zero, zero-add, zero-mul, mul-le-mul_right}
use rugix.BlockIndex.{HashAlgorithm, BlockIndexEntry, hash_of, num_blocks, entry}
use rugix.BlockIndex.Build.{index_of, offsets_from}

-- Where the block `i` lies in the payload.
module _ where
  pub offset_finds :
      (blocks : List (List ℕ)) (at i : ℕ) (block : List ℕ)
      → get_elem? blocks i ≡ some block
      → (offset : ℕ) × (get_elem? (offsets_from at blocks) i ≡ some (at + offset))
        × (get_elem? (map length blocks) i ≡ some (length block))
        × (take (length block) (drop offset (flatten blocks)) ≡ block)
  unfolding flatten
  offset_finds [] at i block h = cc
  offset_finds (b ∷ blocks) at zero block h =
      let same : b ≡ block = ground arith in
      rw (← same) (0, rw add-zero, refl, take-length_append b (flatten blocks))
  offset_finds (b ∷ blocks) at (suc i) block h =
      let (offset, p, q, r) = offset_finds blocks (at + length b) i block h in
      let same : at + length b + offset ≡ at + (length b + offset) = omega arith in
      (length b + offset, p ∙ ap some same, q, rw (drop-add_append b (flatten blocks) offset) r)

module _ (a : HashAlgorithm) where
  pub length-hashes :
      (blocks : List (List ℕ))
      → length (flatten (map (hash_of a) blocks)) ≡ length blocks * a.hash_size
  unfolding flatten
  length-hashes [] = omega arith
  length-hashes (b ∷ blocks) = omega (
    arith,
    length-append (hash_of a b) (flatten (map (hash_of a) blocks)),
    length-hashes blocks,
    a.length-finalize (a.update a.hasher b),
  )

  -- `num_blocks` counts the bytes of the hashes: it is the number of blocks times the hash size.
  pub num_blocks-index_of :
      (blocks : List (List ℕ)) → num_blocks a (index_of a blocks) ≡ length blocks * a.hash_size
  unfolding num_blocks
  num_blocks-index_of = length-hashes

  pub hash_finds :
      (blocks : List (List ℕ)) (i : ℕ) (block : List ℕ)
      → get_elem? blocks i ≡ some block
      → (take a.hash_size (drop (i * a.hash_size) (flatten (map (hash_of a) blocks)))
          ≡ hash_of a block)
        × (i < length blocks)
  unfolding flatten
  hash_finds [] i block h = cc
  hash_finds (b ∷ blocks) zero block h =
      let same : b ≡ block = ground arith in
      let hashes = flatten (map (hash_of a) blocks) in
      rw (zero-mul, ← same)
        (
          ap (λ (n : ℕ). take n (hash_of a b ++ hashes))
                (sym (a.length-finalize (a.update a.hasher b)))
              ∙ take-length_append (hash_of a b) hashes,
          omega arith,
        )
  hash_finds (b ∷ blocks) (suc i) block h =
      let (p, q) = hash_finds blocks i block h in
      let next : suc i * a.hash_size ≡ length (hash_of a b) + i * a.hash_size =
        omega (arith, a.length-finalize (a.update a.hasher b)) in
      (
        rw
            (
              next,
              drop-add_append (hash_of a b) (flatten (map (hash_of a) blocks)) (i * a.hash_size),
            )
            p,
        omega arith,
      )

  -- The entry of every block of an index has the hash of the block, its size, and the offset at which
  -- the block lies in the payload.
  pub entry-index_of :
      (blocks : List (List ℕ)) (i : ℕ) (block : List ℕ)
      → get_elem? blocks i ≡ some block
      → (e : BlockIndexEntry) × (entry a (index_of a blocks) i ≡ ok e)
        × (e.hash ≡ hash_of a block)
        × (e.size ≡ length block)
        × (take e.size (drop e.offset (flatten blocks)) ≡ block)
  unfolding entry
  entry-index_of blocks i block h =
      let (offset, p, q, r) = offset_finds blocks 0 i block h in
      let (hash, inside) = hash_finds blocks i block h in
      let fits : leb ((i + 1) * a.hash_size) (length (flatten (map (hash_of a) blocks))) ≡ true =
        ground (
          arith,
          mul-le-mul_right {m = i + 1} {n = length blocks} a.hash_size (omega arith),
          length-hashes blocks,
        ) in
      rw (p, q, fits)
        (
          record { hash = hash_of a block; offset = 0 + offset; size = length block },
          ap (λ t. ok (record { hash = t; offset = 0 + offset; size = length block })) hash,
          refl,
          refl,
          rw zero-add r,
        )
