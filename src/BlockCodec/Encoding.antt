-- ===== src/BlockCodec/Encoding.antt =====
-- What the encoder writes of an index.
use rugix.Common.{
  ℕ, ◌+◌, ◌≡◌, inl, inr, Bool, Bool-cases, true, false, refl, sym, ap, ◌∙◌, Option, some, List, [],
  ◌∷◌, ◌++◌, append_assoc, map, flatten, ◌==◌, ==_iff, length, length-append, get_elem?,
  get_elem?-append_length, arith,
}
use rugix.Common.Result.{ok}
use rugix.BlockIndex.{HashAlgorithm, hash_of, entry}
use rugix.BlockIndex.Build.{index_of}
use rugix.BlockIndex.Entries.{entry-index_of, hash_finds}
use rugix.BlockCodec.{
  Compression, compressed, raw_block_hash, insert_raw, encode_block, encode_blocks,
}
use rugix.BlockCodec.Table.{written_blocks, written_blocks-all}

module _ (a : HashAlgorithm) (c : Option Compression) (blocks : List (List ℕ)) where
  abbrev pub hashes : List ℕ
  hashes = (index_of a blocks).hashes

  pub raw_block_hash-index_of :
      (i : ℕ) (block : List ℕ)
      → get_elem? blocks i ≡ some block
      → raw_block_hash a.hash_size hashes i ≡ hash_of a block
  unfolding raw_block_hash
  raw_block_hash-index_of i block h = (hash_finds a blocks i block h).0

  -- The block behind those that are done.
  pub at_front :
      (done todo : List (List ℕ)) (b : List ℕ)
      → blocks ≡ done ++ (b ∷ todo)
      → get_elem? blocks (length done) ≡ some b
  at_front done todo b split = rw split (get_elem?-append_length done b todo)

  pub move_on :
      (done todo : List (List ℕ)) (b : List ℕ)
      → blocks ≡ done ++ (b ∷ todo)
      → blocks ≡ (done ++ (b ∷ [])) ++ todo
  move_on done todo b split = split ∙ sym (append_assoc done (b ∷ []) todo)

  pub length_on : (done : List (List ℕ)) (b : List ℕ) → length (done ++ (b ∷ [])) ≡ length done + 1
  length_on done b = length-append done (b ∷ []) ∙ omega arith

  pub encode_blocks-written :
      (deduplicate : Bool) (done todo : List (List ℕ)) (i : ℕ) (table : List ℕ)
      → blocks ≡ done ++ todo
      → i ≡ length done
      → encode_blocks a c deduplicate (flatten blocks) (index_of a blocks) (length todo) i table
        ≡ ok (map (compressed c) (written_blocks a.hash_size hashes deduplicate i table todo))
  unfolding encode_blocks encode_block written_blocks
  encode_blocks-written deduplicate done [] i table split at = refl
  encode_blocks-written true done (b ∷ todo) i table split at =
      let (e, is_entry, hash, size, bytes) =
        entry-index_of a blocks (length done) b (at_front done todo b split) in
      let fits : (length b == e.size) ≡ true = (==_iff (length b) e.size).1 (sym size) in
      let inserted = insert_raw a.hash_size hashes table i in
      let is_entry' : entry a (index_of a blocks) i ≡ ok e =
        ap (entry a (index_of a blocks)) at ∙ is_entry in
      let ih =
        encode_blocks-written true (done ++ (b ∷ [])) todo (i + 1) inserted.1
          (move_on done todo b split) (ap (λ (n : ℕ). n + 1) at ∙ sym (length_on done b)) in
      elim (Bool-cases inserted.0) [
        | inl y ↦ rw y (rw (is_entry', ih, bytes, fits) refl)
        | inr n ↦ rw n ih
      ]
  encode_blocks-written false done (b ∷ todo) i table split at =
      let (e, is_entry, hash, size, bytes) =
        entry-index_of a blocks (length done) b (at_front done todo b split) in
      let is_entry' : entry a (index_of a blocks) i ≡ ok e =
        ap (entry a (index_of a blocks)) at ∙ is_entry in
      let fits : (length b == e.size) ≡ true = (==_iff (length b) e.size).1 (sym size) in
      let ih =
        encode_blocks-written false (done ++ (b ∷ [])) todo (i + 1) table
          (move_on done todo b split) (ap (λ (n : ℕ). n + 1) at ∙ sym (length_on done b)) in
      let all = written_blocks-all a.hash_size hashes i table (b ∷ todo) in
      let rest = written_blocks-all a.hash_size hashes (i + 1) table todo in
      rw (is_entry', ih, bytes, fits, rest)
        (ap (λ (bs : List (List ℕ)). ok (map (compressed c) bs)) (sym all))
