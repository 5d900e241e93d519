-- ===== src/Chunker/Streams.antt =====
-- What the chunkers do with whole streams.
use rugix.Common.{
  ℕ, ◌-◌, ◌/◌, ◌^◌, ◌≤◌, ◌<◌, ◌≡◌, ◌∙◌, ◌↔◌, sym, ap, refl, true, not, Option, none, some, List, [],
  ◌∷◌, ◌++◌, ◌==◌, length, arith, All, flatten, replicate, flatten-append, append-nil,
}
use rugix.Common.Result.{ok, >>=-eq-ok}
use rugix.Chunker.{Chunker, cut, chunks, scan_by, shift}
use rugix.Chunker.Machine.{resume, scan_by-append, scan_by-IsGood, flatten-cut}
use rugix.Chunker.Chunks.{last_block, chunks-cut, fresh}
use rugix.Chunker.Sizes.{Counts, InBounds, Sized, cut-Sized}
use rugix.Chunker.Instances.{fixed_chunker, fixed_counts, casync_chunker, casync_counts}
use rugix.Chunker.Fixed
use rugix.Chunker.Fixed.{FixedSizeChunker}
use rugix.Chunker.Casync
use rugix.Chunker.Casync.{CasyncChunker, Options, InvalidChunkerOptions, window_max}
use rugix.Chunker.Casync.Bytewise

-- A stream divided into blocks of `lo` to `hi` bytes and a shorter rest.
abbrev pub Divides : ℕ → ℕ → List ℕ → List (List ℕ) → Type 0
Divides lo hi bytes blocks =
    (full : List (List ℕ)) × (rest : List ℕ) × (blocks ≡ full ++ last_block rest)
    × All (InBounds lo hi) full
    × (length rest < hi)
    × (flatten blocks ≡ bytes)

flatten-last_block : (bs : List ℕ) → flatten (last_block bs) ≡ bs
unfolding flatten
flatten-last_block [] = refl
flatten-last_block (b ∷ bs) = append-nil (b ∷ bs)

module _ (c : Chunker) where
  module _ (lo hi : ℕ) (counts : Counts c lo hi) where
    chunks-Divides :
        (s : c.State) (bytes : List ℕ)
        → c.IsGood s
        → counts.size s ≡ 0
        → 0 < hi
        → Divides lo hi bytes (chunks c.scan (length bytes) s bytes)
    unfolding flatten
    chunks-Divides s bytes g z pos =
        let d = cut c.feed (fresh c [] s) bytes in
        let sized : Sized c lo hi counts d =
          cut-Sized c lo hi counts (fresh c [] s) bytes
            (record { good = g; bounds = tt; counted = z; below = pos }) in
        let blocks = chunks-cut c (length bytes) s bytes [] (omega arith) g in
        (
          d.blocks,
          d.pending,
          blocks,
          sized.bounds,
          sized.below,
          ap flatten blocks
              ∙ flatten-append d.blocks (last_block d.pending)
              ∙ ap (λ t. flatten d.blocks ++ t) (flatten-last_block d.pending)
              ∙ flatten-cut c.feed (fresh c [] s) bytes,
        )

  -- The scan of two slices, one after the other.
  scan-append :
      (s : c.State) (bs cs : List ℕ)
      → c.IsGood s
      → c.scan s (bs ++ cs) ≡ resume c.scan (length bs) (c.scan s bs) cs
  scan-append s bs cs g =
      c.scan-feed s (bs ++ cs) g
      ∙ scan_by-append c.feed s bs cs
      ∙ later (scan_by c.feed s bs) (scan_by-IsGood c.IsGood c.feed c.feed-IsGood s bs g)
      ∙ ap (λ r. resume c.scan (length bs) r cs) (sym (c.scan-feed s bs g))
    where
      later :
          (r : c.State × Option ℕ)
          → c.IsGood r.0
          → resume (scan_by c.feed) (length bs) r cs ≡ resume c.scan (length bs) r cs
      later (s', none) h = ap (shift (length bs)) (sym (c.scan-feed s' cs h))
      later (s', some n) h = refl

-- The state after the slices of a stream, where the scan goes on behind each boundary.
abbrev pub after_slices {ℓ} : {S : Type ℓ} → (S → List ℕ → S × Option ℕ) → S → List (List ℕ) → S
after_slices scan s [] = s
after_slices scan s (xs ∷ slices) = after_slices scan (scan s xs).0 slices

after_slices-IsGood :
    (c : Chunker) (s : c.State) (slices : List (List ℕ))
    → c.IsGood s
    → c.IsGood (after_slices c.scan s slices)
after_slices-IsGood c s [] g = g
after_slices-IsGood c s (xs ∷ slices) g =
    after_slices-IsGood c (c.scan s xs).0 slices
      (rw (c.scan-feed s xs g) (scan_by-IsGood c.IsGood c.feed c.feed-IsGood s xs g))

-- The options that the chunker accepts.
abbrev pub IsValid : Options → Type 0
IsValid o =
    (window_max < o.min_chunk_size)
    × (o.min_chunk_size ≤ o.avg_chunk_size)
    × (o.avg_chunk_size ≤ o.max_chunk_size)
    × (o.max_chunk_size ≤ (2 ^ 32 - 1) / 2)

-- `check` accepts exactly the options with 48 < min ≤ avg ≤ max < 2 ^ 31.
pub check_iff : (o : Options) → (Casync.check o ≡ ok tt) ↔ IsValid o
unfolding Casync.check
check_iff o = (λ h. ground arith, λ v. ground arith)

-- `CasyncChunker::new` succeeds on valid options, with a state that keeps the invariant.
new-IsGood :
    (estimate : ℕ → ℕ) (o : Options)
    → IsValid o
    → (c : CasyncChunker) × (Casync.new estimate o ≡ ok c)
      × Bytewise.IsGood c
      × (c.options ≡ o)
      × (c.chunk_size ≡ 0)
      × (0 < c.discrim)
unfolding Casync.new
new-IsGood estimate o v = rw ((check_iff o).1 v) (
  record {
    hash = 0;
    options = o;
    chunk_size = 0;
    window = replicate window_max 0;
    window_size = 0;
    discrim = Casync.discriminator estimate o;
  },
  refl,
  omega arith,
  refl,
  refl,
  (unfold Casync.discriminator in omega arith),
)

new-IsValid :
    (estimate : ℕ → ℕ) (o : Options) (c : CasyncChunker) → Casync.new estimate o ≡ ok c → IsValid o
unfolding Casync.new
new-IsValid estimate o c made =
    let (u, accepted, _) = >>=-eq-ok (Casync.check o) _ made in (check_iff o).0 accepted

-- On valid options, whatever the floating-point estimate, the new chunker divides every stream into
-- blocks of `min_chunk_size` to `max_chunk_size` bytes, but for a shorter rest at the end, and the
-- blocks are the stream.
pub casync_chunks :
    (estimate : ℕ → ℕ) (o : Options) (bytes : List ℕ)
    → IsValid o
    → (c : CasyncChunker) × (Casync.new estimate o ≡ ok c)
      × Divides o.min_chunk_size o.max_chunk_size bytes (chunks Casync.scan (length bytes) c bytes)
casync_chunks estimate o bytes v =
    let (c, made, good, same, zero_size, _) = new-IsGood estimate o v in
    (
      c,
      made,
      chunks-Divides (casync_chunker o) o.min_chunk_size o.max_chunk_size (casync_counts o) c bytes
          (good, same) zero_size (omega arith),
    )

-- Where a stream is sliced does not matter: after any slices `cs` that a new chunker was fed, the
-- scan of `xs ++ ys` finds the boundary that the scan of `xs` finds, or else the one that the next
-- scan finds in `ys`, and leaves the same state.
pub casync_scan-append :
    (estimate : ℕ → ℕ) (o : Options) (c : CasyncChunker) (slices : List (List ℕ)) (xs ys : List ℕ)
    → Casync.new estimate o ≡ ok c
    → let d = after_slices Casync.scan c slices in
      Casync.scan d (xs ++ ys) ≡ resume Casync.scan (length xs) (Casync.scan d xs) ys
casync_scan-append estimate o c slices xs ys made =
    let (c', made', good, same, _, _) = new-IsGood estimate o (new-IsValid estimate o c made) in
    let equal : c' ≡ c = cc in
    let made_good : Bytewise.IsGood c' × (c'.options ≡ o) = (good, same) in
    let start : Bytewise.IsGood c × (c.options ≡ o) = rw equal at made_good in
    let d = after_slices Casync.scan c slices in
    scan-append (casync_chunker o) d xs ys (after_slices-IsGood (casync_chunker o) c slices start)

-- On valid options the discriminator lies between the minimal and the maximal size of the blocks, so
-- that the remainder by it is defined.
pub discriminator_bounds :
    (estimate : ℕ → ℕ) (o : Options)
    → IsValid o
    → let d = Casync.discriminator estimate o in (o.min_chunk_size ≤ d) × (d ≤ o.max_chunk_size)
unfolding Casync.discriminator
discriminator_bounds estimate o v = omega arith

-- A fixed-size chunker is made, without a panic, for every size but 0, and divides every stream into
-- blocks of just that size and a shorter rest.
pub fixed_chunks :
    (n : ℕ) (bytes : List ℕ)
    → 0 < n
    → (c : FixedSizeChunker) × (Fixed.new {E = InvalidChunkerOptions} n ≡ ok c)
      × Divides n n bytes (chunks Fixed.scan (length bytes) c bytes)
unfolding Fixed.new
fixed_chunks n bytes pos =
    let fits : not (n == 0) ≡ true = ground arith in
    let c : FixedSizeChunker = record { block_size = n; remaining = n } in
    rw fits (
      c,
      refl,
      chunks-Divides (fixed_chunker n) n n (fixed_counts n) c bytes (omega arith, refl)
          (omega arith) pos,
    )
