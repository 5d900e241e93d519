-- ===== src/Chunker/Tests.antt =====
-- Runs of the chunkers on concrete streams.
use rugix.Common.{ℕ, ◌≡◌, refl, List, [], ◌∷◌, ◌++◌, arith, replicate, length}
use rugix.Common.Result.{ok}
use rugix.Chunker.{chunks}
use rugix.Chunker.Machine.{resume}
use rugix.Chunker.Fixed
use rugix.Chunker.Fixed.{FixedSizeChunker}
use rugix.Chunker.Casync
use rugix.Chunker.Casync.{CasyncChunker, Options, InvalidChunkerOptions, min_too_small}
use rugix.Chunker.Streams.{Divides, after_slices, casync_chunks, casync_scan-append}
use rugix.Common.Text.{text, split_once, from_str, parse_digits}
use rugix.Chunker.Names.{from_parts, from_text}
use rugix.Chunker.Algorithm.{fixed}

-- An estimate that the bounds of the options replace.
abbrev no_estimate : ℕ → ℕ
no_estimate n = 0

abbrev small : Options
small = record { min_chunk_size = 49; avg_chunk_size = 64; max_chunk_size = 80 }

abbrev small_chunker : CasyncChunker
small_chunker = record {
  hash = 0;
  options = small;
  chunk_size = 0;
  window = replicate 48 0;
  window_size = 0;
  discrim = 49;
}

small_made : Casync.new no_estimate small ≡ ok small_chunker
unfolding Casync.new Casync.check Casync.discriminator
small_made = refl

abbrev sevens : List ℕ
sevens = replicate 60 7

abbrev nines : List ℕ
nines = replicate 30 9

abbrev kib : ℕ
kib = 64

casync_chunks_example :
    (c : CasyncChunker) × (Casync.new no_estimate small ≡ ok c)
    × Divides 49 80 sevens (chunks Casync.scan (length sevens) c sevens)
casync_chunks_example =
    casync_chunks no_estimate small sevens (omega arith, omega arith, omega arith, omega arith)

casync_scan-append_example :
    let d = after_slices Casync.scan small_chunker ((1 ∷ []) ∷ []) in
    Casync.scan d (sevens ++ nines)
    ≡ resume Casync.scan (length sevens) (Casync.scan d sevens) nines
casync_scan-append_example =
    casync_scan-append no_estimate small small_chunker ((1 ∷ []) ∷ []) sevens nines small_made

fixed_blocks :
    chunks Fixed.scan 4 (record { block_size = 3; remaining = 3 }) (1 ∷ 2 ∷ 3 ∷ 4 ∷ [])
    ≡ (1 ∷ 2 ∷ 3 ∷ []) ∷ (4 ∷ []) ∷ []
unfolding chunks Fixed.scan
fixed_blocks = refl

fixed_4 : from_text (text "fixed-4") ≡ ok (fixed 4)
unfolding from_text from_parts split_once from_str parse_digits
fixed_4 = refl
