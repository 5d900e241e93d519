-- ===== src/Chunker/Sizes.antt =====
-- The sizes of the blocks of a chunker that counts the bytes of its block.
use rugix.Common.{
  ℕ, ◌+◌, ◌≤◌, ◌<◌, ◌≡◌, true, false, inl, inr, List, [], ◌∷◌, ◌++◌, length, length-append, arith,
  Bool-cases, All, All-append,
}
use rugix.Chunker.{Chunker, Cut, cut, cut_byte}

-- The bounds for a block of at least `lo` and at most `hi` bytes.
abbrev pub InBounds : ℕ → ℕ → List ℕ → Type 0
InBounds lo hi block = (lo ≤ length block) × (length block ≤ hi)

-- A chunker whose state tells how many bytes the block has so far.
pub record Counts (c : Chunker) (lo hi : ℕ) : Type 1 where
  pub size : c.State → ℕ
  pub ends :
      (s : c.State) (b : ℕ)
      → c.IsGood s
      → (c.feed s b).1 ≡ true
      → (lo ≤ size s + 1) × (size s + 1 ≤ hi) × (size (c.feed s b).0 ≡ 0)
  pub goes :
      (s : c.State) (b : ℕ)
      → c.IsGood s
      → (c.feed s b).1 ≡ false
      → (size (c.feed s b).0 ≡ size s + 1) × (size s + 1 < hi)

module _ (c : Chunker) (lo hi : ℕ) (counts : Counts c lo hi) where
  -- All blocks are in bounds, and the chunker has counted the pending bytes.
  pub record Sized (d : Cut c.State) : Type 0 where
    pub good : c.IsGood d.state
    pub bounds : All (InBounds lo hi) d.blocks
    pub counted : counts.size d.state ≡ length d.pending
    pub below : length d.pending < hi

  one_more : (d : Cut c.State) (b : ℕ) → length (d.pending ++ b ∷ []) ≡ length d.pending + 1
  one_more d b = length-append d.pending (b ∷ [])

  cut_byte-Sized : (d : Cut c.State) (b : ℕ) → Sized d → Sized (cut_byte c.feed d b)
  unfolding cut_byte
  cut_byte-Sized d b h = elim (Bool-cases (c.feed d.state b).1) [
    | inl e ↦
        let (low, high, zero_size) = counts.ends d.state b h.good e in
        rw e (record {
          good = c.feed-IsGood d.state b h.good;
          bounds =
              All-append (InBounds lo hi) d.blocks _ h.bounds
                (omega (arith, one_more d b, h.counted));
          counted = zero_size;
          below = omega arith;
        })
    | inr e ↦
        let (next_size, high) = counts.goes d.state b h.good e in
        rw e (record {
          good = c.feed-IsGood d.state b h.good;
          bounds = h.bounds;
          counted = omega (arith, one_more d b, h.counted);
          below = omega (arith, one_more d b, h.counted);
        })
  ]

  -- However the stream goes on, all blocks that end are in bounds.
  pub cut-Sized : (d : Cut c.State) (bs : List ℕ) → Sized d → Sized (cut c.feed d bs)
  unfolding cut
  cut-Sized d [] h = h
  cut-Sized d (b ∷ bs) h = cut-Sized (cut_byte c.feed d b) bs (cut_byte-Sized d b h)
