-- ===== src/BlockIndex/Payload.antt =====
-- The index of a whole payload.
use rugix.Common.{ℕ, suc, ◌≡◌, refl, true, List, [], ◌∷◌, ltb, length, arith, append-nil, flatten}
use rugix.Common.Result.{ok}
use rugix.Chunker.{Chunker, Cut, cut, chunks}
use rugix.Chunker.Machine.{cut-append, cut-IsGood}
use rugix.Chunker.Chunks.{chunks-cut, all_blocks}
use rugix.BlockIndex
use rugix.BlockIndex.{HashAlgorithm, hash_of, process, process_all, finalize, compute_block_index}
use rugix.BlockIndex.Build.{
  index_of, division, builder_at, process_loop-cut, finalize_block-builder_at,
}

module _ (a : HashAlgorithm) (c : Chunker) where
  abbrev fresh : c.State → Cut c.State
  fresh s = record { blocks = []; pending = []; state = s }

  new-builder_at : (s : c.State) → BlockIndex.new a c s ≡ builder_at a c (fresh s)
  unfolding BlockIndex.new flatten
  new-builder_at s = rw (a.update-nil a.hasher)

  process_all-cut :
      (d : Cut c.State) (buffers : List (List ℕ))
      → c.IsGood d.state
      → process_all a c (builder_at a c d) buffers
        ≡ ok (builder_at a c (cut c.feed d (flatten buffers)))
  unfolding process_all process flatten
  process_all-cut d [] g = unfold cut in refl
  process_all-cut d (buffer ∷ buffers) g =
      rw
        (
          process_loop-cut a c (length buffer) d buffer (omega arith) g,
          cut-append c.feed d buffer (flatten buffers),
        )
        (process_all-cut (cut c.feed d buffer) buffers
          (cut-IsGood c.IsGood c.feed c.feed-IsGood d buffer g))

  finalize-builder_at :
      (d : Cut c.State) → finalize a c (builder_at a c d) ≡ ok (index_of a (all_blocks d))
  unfolding finalize
  finalize-builder_at d = by_pending d.blocks d.pending d.state
    where
      by_pending :
          (blocks : List (List ℕ)) (p : List ℕ) (s : c.State)
          → finalize a c (builder_at a c (division a c blocks p s))
            ≡ ok (index_of a (all_blocks (division a c blocks p s)))
      by_pending blocks [] s = rw append-nil
      by_pending blocks (x ∷ xs) s =
          let pending : ltb 0 (suc (length xs)) ≡ true = ground arith in
          rw (pending, finalize_block-builder_at a c blocks (x ∷ xs) s)

  -- Whatever buffers the reader fills, and with any chunker in a good state, no assertion fails, and
  -- the index is that of the blocks into which the chunker divides the whole payload: it lists the
  -- hash, the offset and the size of each.
  pub compute_block_index-chunks :
      (s : c.State) (buffers : List (List ℕ))
      → c.IsGood s
      → let payload = flatten buffers in
        compute_block_index a c s buffers
        ≡ ok (index_of a (chunks c.scan (length payload) s payload))
  unfolding compute_block_index
  compute_block_index-chunks s buffers g =
      let payload = flatten buffers in
      rw (
        new-builder_at s,
        process_all-cut (fresh s) buffers g,
        finalize-builder_at (cut c.feed (fresh s) payload),
        chunks-cut c (length payload) s payload [] (omega arith) g,
      )
