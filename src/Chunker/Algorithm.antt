-- ===== src/Chunker/Algorithm.antt =====
-- crates/libs/rugix-chunker/src/lib.rs: `ChunkerAlgorithm` and `AnyChunker`.
use rugix.Common.{ℕ, ◌*◌, ◌<◌, ◌≡◌, ◌^◌, ◌↔◌, Option, List, [], arith}
use rugix.Common.Result.{Result, ok, err, panic, ◌>>=◌}
use rugix.Chunker.Fixed
use rugix.Chunker.Fixed.{FixedSizeChunker}
use rugix.Chunker.Casync
use rugix.Chunker.Casync.{CasyncChunker, Options, InvalidChunkerOptions, min_too_small}
use rugix.Chunker.Streams.{casync_chunks, fixed_chunks}

pub data ChunkerAlgorithm : Type 0 where
  casync : ℕ → ChunkerAlgorithm
  fixed : ℕ → ChunkerAlgorithm

pub data AnyChunker : Type 0 where
  fixed_chunker : FixedSizeChunker → AnyChunker
  casync_chunker : CasyncChunker → AnyChunker

-- `NumBytes::kibibytes`
abbrev pub kibibytes : ℕ → ℕ
kibibytes n = n * 1024

-- `ChunkerAlgorithm::chunker`
unfoldable pub chunker : (ℕ → ℕ) → ChunkerAlgorithm → Result InvalidChunkerOptions AnyChunker
chunker estimate (casync kib) = do
  c ← Casync.new estimate (Casync.avg (kibibytes kib))
  ok (casync_chunker c)
chunker estimate (fixed kib) = do c ← Fixed.new (kibibytes kib); ok (fixed_chunker c)

-- `AnyChunker::scan`
unfoldable pub scan : AnyChunker → List ℕ → AnyChunker × Option ℕ
scan (fixed_chunker c) bytes =
    let (c', boundary) = Fixed.scan c bytes in (fixed_chunker c', boundary)
scan (casync_chunker c) bytes =
    let (c', boundary) = Casync.scan c bytes in (casync_chunker c', boundary)

casync_made :
    (estimate : ℕ → ℕ) (kib : ℕ)
    → kib < 2 ^ 16
    → 0 < kib
    → (c : AnyChunker) × (chunker estimate (casync kib) ≡ ok c)
unfolding chunker Casync.avg
casync_made estimate kib h pos =
    let (c, made, _) = casync_chunks estimate (Casync.avg (kibibytes kib)) [] (omega arith) in
    (casync_chunker c, rw made)

fixed_made :
    (estimate : ℕ → ℕ) (kib : ℕ)
    → 0 < kib
    → (c : AnyChunker) × (chunker estimate (fixed kib) ≡ ok c)
unfolding chunker
fixed_made estimate kib pos =
    let (c, made, _) = fixed_chunks (kibibytes kib) [] (omega arith) in (fixed_chunker c, rw made)

-- For sizes of 16 bits, a size of 0 is an error of the content-defined algorithm and a panic of the
-- fixed-size one; every other size makes a chunker.
pub chunker_cases :
    (estimate : ℕ → ℕ) (kib : ℕ)
    → kib < 2 ^ 16
    → ((chunker estimate (casync kib) ≡ err min_too_small) ↔ (kib ≡ 0))
      × ((chunker estimate (fixed kib) ≡ panic) ↔ (kib ≡ 0))
      × (0 < kib → (c : AnyChunker) × (chunker estimate (casync kib) ≡ ok c))
      × (0 < kib → (c : AnyChunker) × (chunker estimate (fixed kib) ≡ ok c))
unfolding chunker Fixed.new Casync.new Casync.check Casync.avg
chunker_cases estimate kib h = (
  ((λ e. ground arith), (λ e. ground arith)),
  ((λ e. ground arith), (λ e. ground arith)),
  casync_made estimate kib h,
  fixed_made estimate kib,
)
