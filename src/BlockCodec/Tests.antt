-- ===== src/BlockCodec/Tests.antt =====
-- A payload of three blocks, two of which are the same, with a hash that is the length.
use rugix.Common.{
  ℕ, ◌%◌, ◌≡◌, ◌⊎◌, inl, inr, true, refl, sym, ◌∙◌, Option, none, some, List, [], ◌∷◌, ◌++◌,
  append_assoc, append-nil, length, flatten, if◌then◌else◌, Bool-cases, arith,
}
use rugix.Common.Result.{ok}
use rugix.BlockIndex.{HashAlgorithm, hash_of}
use rugix.Stlv.{BundleResult}
use rugix.Chunker.Algorithm.{fixed}
use rugix.BlockIndex.Build.{index_of}
use rugix.BlockCodec.{Compression, bytes_eq, BlockEncoding, encode_payload_file}
use rugix.BlockCodec.Decode.{file, Provider, Decoded, copy, decode_into}
use rugix.BlockCodec.Integrity.{decode_into_hash}
use rugix.BlockCodec.Blocks.{CollisionFree, Serves}
use rugix.BlockCodec.Plain.{decode_into-plain}
use rugix.BlockCodec.Roundtrip.{Decodes, decode_into-encode_payload_file}

abbrev by_length : HashAlgorithm
by_length = record {
  Hasher = List ℕ;
  hasher = [];
  update = λ h bytes. h ++ bytes;
  finalize = λ h. length h % 256 ∷ [];
  hash_size = 1;
  update-nil = append-nil;
  update-append = append_assoc;
  length-finalize = λ h. refl;
}

abbrev unmark : List ℕ → Option (List ℕ)
unmark [] = none
unmark (mark ∷ bytes) = some bytes

-- A byte before the block.
abbrev marked : Compression
marked = record {
  compress = λ bytes. 7 ∷ bytes;
  uncompress = unmark;
  uncompress-compress = λ bytes. refl;
}

abbrev head_block : List ℕ
head_block = 1 ∷ 2 ∷ 3 ∷ []

abbrev last_block : List ℕ
last_block = 4 ∷ []

abbrev blocks : List (List ℕ)
blocks = head_block ∷ head_block ∷ last_block ∷ []

abbrev Known : List ℕ → Type 0
Known bytes = (bytes ≡ head_block) ⊎ (bytes ≡ last_block)

-- The last block is stored.
abbrev stores_last : Provider
stores_last hash = if bytes_eq hash (1 ∷ []) then some (ok last_block) else none

Known-free : CollisionFree by_length Known
Known-free x y (inl p) (inl q) e = cc
Known-free x y (inr p) (inr q) e = cc
Known-free x y (inl p) (inr q) e =
    absurd (different (sym (hash_at x head_block p) ∙ e ∙ hash_at y last_block q))
  where
    hash_at : (x y : List ℕ) → x ≡ y → hash_of by_length x ≡ hash_of by_length y
    hash_at x y p = cc

    different : hash_of by_length head_block ≡ hash_of by_length last_block → ⊥
    different p = cc
Known-free x y (inr p) (inl q) e =
    absurd (different (sym (hash_at x last_block p) ∙ e ∙ hash_at y head_block q))
  where
    hash_at : (x y : List ℕ) → x ≡ y → hash_of by_length x ≡ hash_of by_length y
    hash_at x y p = cc

    different : hash_of by_length last_block ≡ hash_of by_length head_block → ⊥
    different p = cc

stores-Known : Serves stores_last Known
stores-Known hash stored p = elim (Bool-cases (bytes_eq hash (1 ∷ []))) [
  | inl y ↦
      let is_last : some (ok last_block) ≡ some stored = rw y at p in
      (last_block, injected is_last, inr refl)
  | inr n ↦
      let no : ◌≡◌ {A = Option (BundleResult (List ℕ))} none (some stored) = rw n at p in
      absurd (cc)
]
  where
    injected : {s : BundleResult (List ℕ)} → some (ok last_block) ≡ some s → s ≡ ok last_block
    injected p = cc

decode_into-encode_payload_file_example :
    (encoding : BlockEncoding) × (bytes : List ℕ) × (encode_payload_file by_length
        (some marked)
        true
        (fixed 1)
        (flatten blocks)
        (index_of by_length blocks)
      ≡ ok (encoding, bytes))
    × Decodes by_length by_length
        (some marked)
        stores_last
        Known
        true
        (fixed 1)
        blocks
        (9 ∷ [])
        encoding
        bytes
decode_into-encode_payload_file_example =
    decode_into-encode_payload_file by_length by_length (some marked) stores_last Known true
      (fixed 1) blocks (9 ∷ []) (omega arith) Known-free stores-Known
      (inl refl, (inl refl, (inr refl, tt))) tt (omega arith, (omega arith, (omega arith, tt)))

abbrev decoded : Decoded by_length by_length none file stores_last
decoded = record { hash = 4 ∷ []; size = 4; source = 9 ∷ []; target = 1 ∷ 2 ∷ 3 ∷ 4 ∷ [] }

decode_into_hash_example :
    (hash_of by_length decoded.target ≡ 4 ∷ [])
    × (decoded.hash ≡ 4 ∷ [])
    × (decoded.size ≡ length decoded.target)
decode_into_hash_example =
    decode_into_hash by_length by_length none stores_last none (4 ∷ []) 4 (1 ∷ 2 ∷ 3 ∷ 4 ∷ 9 ∷ [])
      decoded (unfold decode_into copy in refl)

decode_into-plain_example :
    (d : Decoded by_length by_length none file stores_last) × (decode_into by_length by_length none
        file stores_last none
        (hash_of by_length head_block)
        3
        []
        (head_block ++ 9 ∷ [])
      ≡ ok d)
    × (d.target ≡ head_block)
    × (d.size ≡ 3)
    × (d.source ≡ 9 ∷ [])
decode_into-plain_example =
    decode_into-plain by_length by_length none stores_last (9 ∷ []) head_block
