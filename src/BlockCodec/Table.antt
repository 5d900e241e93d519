-- ===== src/BlockCodec/Table.antt =====
-- The table of blocks: what is found in it, and what is written because of it.
use rugix.Common.{
  ℕ, ◌+◌, ◌≡◌, ◌⊎◌, inl, inr, Bool, Bool-cases, true, false, ◌||◌, not, refl, ap, subst, some,
  Option-cases, List, [], ◌∷◌, if◌then◌else◌, All, arith,
}
use rugix.BlockCodec.{bytes_eq, raw_block_hash, get_raw, insert_raw}
use rugix.BlockCodec.Integrity.{bytes_eq_refl}

module _ (hash_size : ℕ) (hashes : List ℕ) where
  -- A block that is found is in the table, and has the hash.
  pub get_raw_found :
      (P : ℕ → Type 0) (table hash : List ℕ) (block : ℕ)
      → All P table
      → get_raw hash_size hashes table hash ≡ some block
      → P block × (bytes_eq hash (raw_block_hash hash_size hashes block) ≡ true)
  unfolding get_raw
  get_raw_found P [] hash block a h = cc
  get_raw_found P (other ∷ table) hash block (p, a) h =
      elim (Bool-cases (bytes_eq hash (raw_block_hash hash_size hashes other))) [
        | inl y ↦
            let same : other ≡ block = ground arith in
            (
              subst P same p,
              subst (λ b. bytes_eq hash (raw_block_hash hash_size hashes b) ≡ true) same y,
            )
        | inr n ↦ get_raw_found P table hash block a (ground arith)
      ]

  -- The table behind an insertion has the block, or another with its hash.
  pub get_raw-insert_raw :
      (table : List ℕ) (block : ℕ)
      → ((insert_raw hash_size hashes table block ≡ (true, block ∷ table))
          × (get_raw hash_size hashes (block ∷ table) (raw_block_hash hash_size hashes block)
              ≡ some block))
        ⊎ ((first : ℕ) × (insert_raw hash_size hashes table block ≡ (false, table))
            × (get_raw hash_size hashes table (raw_block_hash hash_size hashes block) ≡ some first))
  unfolding insert_raw
  get_raw-insert_raw table block =
      let hash = raw_block_hash hash_size hashes block in
      elim (Option-cases (get_raw hash_size hashes table hash)) [
        | inl new ↦ inl (rw new refl, unfold get_raw in rw (bytes_eq_refl hash) refl)
        | inr found ↦ let (first, e) = found in inr (first, rw e refl, e)
      ]

  -- The blocks from number `block` on whose data are written.
  unfoldable pub written_blocks : Bool → ℕ → List ℕ → List (List ℕ) → List (List ℕ)
  written_blocks deduplicate block table [] = []
  written_blocks deduplicate block table (b ∷ todo) =
      let inserted = insert_raw hash_size hashes table block in
      let rest = written_blocks deduplicate (block + 1) inserted.1 todo in
      if inserted.0 || not deduplicate then b ∷ rest else rest

  -- Without deduplication all are.
  pub written_blocks-all :
      (block : ℕ) (table : List ℕ) (todo : List (List ℕ))
      → written_blocks false block table todo ≡ todo
  unfolding written_blocks
  written_blocks-all block table [] = refl
  written_blocks-all block table (b ∷ todo) =
      let inserted = insert_raw hash_size hashes table block in
      let ih = written_blocks-all (block + 1) inserted.1 todo in
      elim (Bool-cases inserted.0) [
        | inl y ↦ rw y (ap (λ (bs : List (List ℕ)). b ∷ bs) ih)
        | inr n ↦ rw n (ap (λ (bs : List (List ℕ)). b ∷ bs) ih)
      ]
