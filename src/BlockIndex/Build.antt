-- ===== src/BlockIndex/Build.antt =====
-- The builder divides the payload as the chunker does, whatever buffers it is given.
use rugix.Common.{
  ℕ, zero, suc, ◌+◌, ◌≤◌, ◌≡◌, refl, ap, ◌∙◌, true, Option, none, some, List, [], ◌∷◌, ◌++◌, map,
  ◌==◌, length, take, drop, arith, append-nil, flatten, length-append, flatten-append, length-drop,
}
use rugix.Common.Result.{ok}
use rugix.Chunker.{Chunker, Cut, cut, scan_by}
use rugix.Chunker.Machine.{scan_by-cut, scan_by_bounds, After, scan_by-IsGood}
use native.Mathlib.Nat.{add-zero, zero-add}
use mathlib.Core.List.{map-append}
use rugix.BlockIndex
use rugix.BlockIndex.{HashAlgorithm, hash_of, BlockIndexEntry}

-- The offsets of blocks that lie one behind the other, from `at` on.
abbrev pub offsets_from : ℕ → List (List ℕ) → List ℕ
offsets_from at [] = []
offsets_from at (block ∷ blocks) = at ∷ offsets_from (at + length block) blocks

pub offsets_from-append :
    (at : ℕ) (blocks : List (List ℕ)) (block : List ℕ)
    → offsets_from at (blocks ++ block ∷ [])
      ≡ offsets_from at blocks ++ (at + length (flatten blocks)) ∷ []
unfolding flatten
offsets_from-append at [] block = rw add-zero
offsets_from-append at (b ∷ blocks) block =
    let same : at + length b + length (flatten blocks) ≡ at + length (b ++ flatten blocks) =
      omega (arith, length-append b (flatten blocks)) in
    ap (λ t. at ∷ t) (offsets_from-append (at + length b) blocks block ∙ rw same)

module _ (a : HashAlgorithm) where
  -- The index of a sequence of blocks.
  abbrev pub index_of : List (List ℕ) → BlockIndex.BlockIndex
  index_of blocks = record {
    hashes = flatten (map (hash_of a) blocks);
    offsets = offsets_from 0 blocks;
    sizes = map length blocks;
  }

  module _ (c : Chunker) where
    -- The builder at a division of the bytes so far.
    abbrev pub builder_at : Cut c.State → BlockIndex.Builder a c
    builder_at d = record {
      hasher = a.update a.hasher d.pending;
      chunker = d.state;
      index = index_of d.blocks;
      pending_block_offset = length (flatten d.blocks);
      pending_block_size = length d.pending;
    }

    abbrev pub division : List (List ℕ) → List ℕ → c.State → Cut c.State
    division blocks pending s = record { blocks = blocks; pending = pending; state = s }

    module _ (blocks : List (List ℕ)) (p : List ℕ) (s : c.State) where
      pub finalize_block-builder_at :
          BlockIndex.finalize_block a c (builder_at (division blocks p s))
          ≡ ok (builder_at (division (blocks ++ p ∷ []) [] s))
      unfolding BlockIndex.finalize_block flatten
      finalize_block-builder_at =
          let right : (length (hash_of a p) == a.hash_size) ≡ true =
            rw (a.length-finalize (a.update a.hasher p)) (ground arith) in
          rw
            (
              right,
              a.update-nil a.hasher,
              map-append,
              flatten-append,
              offsets_from-append 0 blocks p,
            )
            (simp (append-nil, map-append, flatten-append, length-append, zero-add))

      -- The builder that took more bytes of the pending block.
      more_pending :
          (s' : c.State) (bs : List ℕ)
          → record (builder_at (division blocks p s)) {
            hasher = a.update (a.update a.hasher p) bs;
            chunker = s';
            pending_block_size = length p + length bs;
          }
            ≡ builder_at (division blocks (p ++ bs) s')
      more_pending s' bs = rw (a.update-append a.hasher p bs, length-append p bs)

    -- A scan's result on the input, in the builder.
    abbrev goes_on : List (List ℕ) → List ℕ → List ℕ → c.State × Option ℕ → Cut c.State × List ℕ
    goes_on blocks p input (s, none) = (division blocks (p ++ input) s, [])
    goes_on blocks p input (s, some n) =
        (division (blocks ++ (p ++ take n input) ∷ []) [] s, drop n input)

    take_chunk-builder_at :
        (d : Cut c.State) (input : List ℕ) (r : c.State × Option ℕ)
        → let (d', input') = goes_on d.blocks d.pending input r in
          BlockIndex.take_chunk a c (builder_at d) input r ≡ ok (builder_at d', input')
    unfolding BlockIndex.take_chunk
    take_chunk-builder_at d input (s, none) =
        ap (λ b. ok (b, [])) (more_pending d.blocks d.pending d.state s input)
    take_chunk-builder_at d input (s, some n) = rw (
      more_pending d.blocks d.pending d.state s (take n input),
      finalize_block-builder_at d.blocks (d.pending ++ take n input) s,
    )

    abbrev Processes : ℕ → Type 0
    Processes fuel =
        (d : Cut c.State) (input : List ℕ)
        → length input ≤ fuel
        → c.IsGood d.state
        → BlockIndex.process_loop a c fuel (builder_at d) input
          ≡ ok (builder_at (cut c.feed d input))

    module _ (fuel : ℕ) (d : Cut c.State) (x : ℕ) (xs : List ℕ) (g : c.IsGood d.state) where
      round :
          Processes fuel
          → length (x ∷ xs) ≤ suc fuel
          → (r : c.State × Option ℕ) → scan_by c.feed d.state (x ∷ xs) ≡ r
          → After c.feed d (x ∷ xs) r
          → BlockIndex.process_loop a c (suc fuel) (builder_at d) (x ∷ xs)
            ≡ ok (builder_at (cut c.feed d (x ∷ xs)))
      unfolding BlockIndex.process_loop
      round ih h (s', none) e after =
          rw (after, c.scan-feed d.state (x ∷ xs) g, e, take_chunk-builder_at d (x ∷ xs) (s', none))
      round ih h (s', some n) e after =
          let (pos, _) = scan_by_bounds c.feed d.state s' (x ∷ xs) n e in
          let good : c.IsGood s' =
            rw e at (scan_by-IsGood c.IsGood c.feed c.feed-IsGood d.state (x ∷ xs) g) in
          rw
            (
              after,
              c.scan-feed d.state (x ∷ xs) g,
              e,
              take_chunk-builder_at d (x ∷ xs) (s', some n),
            )
            (ih (division (d.blocks ++ (d.pending ++ take n (x ∷ xs)) ∷ []) [] s') (drop n (x ∷ xs))
              (omega (arith, length-drop n (x ∷ xs))) good)

    pub process_loop-cut :
        (fuel : ℕ) (d : Cut c.State) (input : List ℕ)
        → length input ≤ fuel
        → c.IsGood d.state
        → BlockIndex.process_loop a c fuel (builder_at d) input
          ≡ ok (builder_at (cut c.feed d input))
    process_loop-cut fuel d [] h g = unfold cut BlockIndex.process_loop in refl
    process_loop-cut zero d (x ∷ xs) h g = absurd (omega arith)
    process_loop-cut (suc fuel) d (x ∷ xs) h g =
        round fuel d x xs g (process_loop-cut fuel) h (scan_by c.feed d.state (x ∷ xs)) refl
          (scan_by-cut c.feed d (x ∷ xs))
