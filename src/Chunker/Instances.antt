-- ===== src/Chunker/Instances.antt =====
-- The two chunkers of the crate behind the interface `Chunker`, and what they promise.
use rugix.Common.{ℕ, ◌+◌, ◌-◌, ◌≤◌, ◌<◌, ◌≡◌, true, false, List, arith}
use rugix.Chunker.{Chunker, scan_by}
use rugix.Chunker.Sizes.{Counts}
use rugix.Chunker.Fixed
use rugix.Chunker.Fixed.{FixedSizeChunker}
use rugix.Chunker.Casync
use rugix.Chunker.Casync.{CasyncChunker, Options}
use rugix.Chunker.Casync.Bytewise
use rugix.Chunker.Casync.Bytewise.Scan

module _ (block_size : ℕ) where
  abbrev pub FixedGood : FixedSizeChunker → Type 0
  FixedGood c = Fixed.IsGood c × (c.block_size ≡ block_size)

  pub fixed_feed-good : (c : FixedSizeChunker) (b : ℕ) → FixedGood c → FixedGood (Fixed.feed c b).0
  unfolding Fixed.feed
  fixed_feed-good c b g = (Fixed.feed-IsGood c b g.0, ground arith)

  pub fixed_scan-feed :
      (c : FixedSizeChunker) (bs : List ℕ) → FixedGood c → Fixed.scan c bs ≡ scan_by Fixed.feed c bs
  fixed_scan-feed c bs g = Fixed.scan-feed c bs g.0

  -- The chunker for blocks of `block_size` bytes.
  abbrev pub fixed_chunker : Chunker
  fixed_chunker = record {
    State = FixedSizeChunker;
    IsGood = FixedGood;
    feed = Fixed.feed;
    scan = Fixed.scan;
    feed-IsGood = fixed_feed-good;
    scan-feed = fixed_scan-feed;
  }

  pub fixed_ends :
      (c : FixedSizeChunker) (b : ℕ)
      → FixedGood c
      → (Fixed.feed c b).1 ≡ true
      → let size = λ (d : FixedSizeChunker). d.block_size - d.remaining in
        (block_size ≤ size c + 1) × (size c + 1 ≤ block_size) × (size (Fixed.feed c b).0 ≡ 0)
  unfolding Fixed.feed
  fixed_ends c b g h = ground arith

  pub fixed_goes :
      (c : FixedSizeChunker) (b : ℕ)
      → FixedGood c
      → (Fixed.feed c b).1 ≡ false
      → let size = λ (d : FixedSizeChunker). d.block_size - d.remaining in
        (size (Fixed.feed c b).0 ≡ size c + 1) × (size c + 1 < block_size)
  unfolding Fixed.feed
  fixed_goes c b g h = ground arith

  abbrev pub fixed_counts : Counts fixed_chunker block_size block_size
  fixed_counts = record {
    size = λ c. c.block_size - c.remaining;
    ends = fixed_ends;
    goes = fixed_goes;
  }

module _ (o : Options) where
  abbrev pub CasyncGood : CasyncChunker → Type 0
  CasyncGood c = Bytewise.IsGood c × (c.options ≡ o)

  pub casync_feed-good :
      (c : CasyncChunker) (b : ℕ) → CasyncGood c → CasyncGood (Bytewise.feed c b).0
  unfolding Bytewise.feed Casync.reset Casync.start Casync.advance
  casync_feed-good c b g = (Bytewise.feed-IsGood c b g.0, ground arith)

  pub casync_scan-feed :
      (c : CasyncChunker) (bs : List ℕ)
      → CasyncGood c
      → Casync.scan c bs ≡ scan_by Bytewise.feed c bs
  casync_scan-feed c bs g = Scan.scan-feed c bs g.0

  -- The chunker with the options `o`.
  abbrev pub casync_chunker : Chunker
  casync_chunker = record {
    State = CasyncChunker;
    IsGood = CasyncGood;
    feed = Bytewise.feed;
    scan = Casync.scan;
    feed-IsGood = casync_feed-good;
    scan-feed = casync_scan-feed;
  }

  pub casync_ends :
      (c : CasyncChunker) (b : ℕ)
      → CasyncGood c
      → (Bytewise.feed c b).1 ≡ true
      → (o.min_chunk_size ≤ c.chunk_size + 1)
        × (c.chunk_size + 1 ≤ o.max_chunk_size)
        × ((Bytewise.feed c b).0.chunk_size ≡ 0)
  unfolding Bytewise.feed Casync.reset Casync.start Casync.advance
  casync_ends c b (g, e) h = rw (← e) (ground arith)

  pub casync_goes :
      (c : CasyncChunker) (b : ℕ)
      → CasyncGood c
      → (Bytewise.feed c b).1 ≡ false
      → ((Bytewise.feed c b).0.chunk_size ≡ c.chunk_size + 1)
        × (c.chunk_size + 1 < o.max_chunk_size)
  unfolding Bytewise.feed Casync.reset Casync.start Casync.advance Casync.shall_break
  casync_goes c b (g, e) h = rw (← e) (ground arith)

  abbrev pub casync_counts : Counts casync_chunker o.min_chunk_size o.max_chunk_size
  casync_counts = record { size = λ c. c.chunk_size; ends = casync_ends; goes = casync_goes }
