-- ===== src/BlockIndex/Tests.antt =====
-- The index of a short payload, in blocks of three bytes, with a checksum as the hash.
use rugix.Common.{
  ℕ, ◌%◌, ◌≡◌, refl, List, [], ◌∷◌, ◌++◌, arith, flatten, length, append_assoc, append-nil,
}
use rugix.Common.Result.{ok}
use rugix.Chunker.{chunks}
use rugix.Chunker.Fixed.{FixedSizeChunker}
use rugix.Chunker.Instances.{fixed_chunker}
use rugix.BlockIndex.{HashAlgorithm, compute_block_index}
use rugix.BlockIndex.Build.{index_of}
use rugix.BlockIndex.Payload.{compute_block_index-chunks}

-- The hash of a slice is its length and its last byte.
last_byte : List ℕ → ℕ
last_byte [] = 0
last_byte (b ∷ []) = b
last_byte (b ∷ c ∷ bs) = last_byte (c ∷ bs)

abbrev checksum : HashAlgorithm
checksum = record {
  Hasher = List ℕ;
  hasher = [];
  update = λ h bytes. h ++ bytes;
  finalize = λ h. length h % 256 ∷ last_byte h ∷ [];
  hash_size = 2;
  update-nil = append-nil;
  update-append = append_assoc;
  length-finalize = λ h. refl;
}

abbrev by_three : FixedSizeChunker
by_three = record { block_size = 3; remaining = 3 }

abbrev buffers : List (List ℕ)
buffers = (1 ∷ 2 ∷ []) ∷ (3 ∷ 4 ∷ []) ∷ []

compute_block_index-chunks_example :
    compute_block_index checksum (fixed_chunker 3) by_three buffers
    ≡ ok (
        index_of checksum
          (chunks (fixed_chunker 3).scan (length (flatten buffers)) by_three (flatten buffers)))
compute_block_index-chunks_example =
    compute_block_index-chunks checksum (fixed_chunker 3) by_three buffers
      (record { some_left = omega arith; in_block = omega arith }, refl)

abbrev second_block : List ℕ
second_block = 4 ∷ []

abbrev blocks : List (List ℕ)
blocks = (1 ∷ 2 ∷ 3 ∷ []) ∷ second_block ∷ []
