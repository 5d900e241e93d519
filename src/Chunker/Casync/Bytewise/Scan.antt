-- ===== src/Chunker/Casync/Bytewise/Scan.antt =====
-- The whole scan, with the bytes that are skipped, reads byte by byte.
use rugix.Common.{
  ℕ, zero, suc, ◌+◌, ◌-◌, ◌≤◌, ◌<◌, ◌≡◌, ◌∙◌, sym, ap, refl, true, false, none, List, [], ◌∷◌, ltb,
  lt→ltb, length, drop, arith,
}
use native.Mathlib.Decide.{dec_lt}
use native.Mathlib.Nat.{add-zero}
use native.Mathlib.Numerals.{add-one}
use rugix.Chunker.{shift, scan_by}
use rugix.Chunker.Machine.{shift-shift, shift-zero}
use rugix.Chunker.Casync.{CasyncChunker, to_skip, scan_window, scan}
use rugix.Chunker.Casync.Bytewise.{feed, IsGood}
use rugix.Chunker.Casync.Bytewise.Filling.{scan_window-scan_by}

scan_window_later :
    (c : CasyncChunker) (bs : List ℕ) (offset : ℕ)
    → IsGood c
    → to_skip c ≤ c.chunk_size
    → scan_window c bs (offset + 1) ≡ shift 1 (scan_window c bs offset)
scan_window_later c bs offset g h =
    let r = scan_by feed c bs in
    rw (scan_window-scan_by c bs (offset + 1) g h, scan_window-scan_by c bs offset g h)
      (rw add-one (sym (shift-shift offset r)))

feed_skipping :
    (c : CasyncChunker) (b : ℕ)
    → c.chunk_size < to_skip c
    → feed c b ≡ (record c { chunk_size = c.chunk_size + 1 }, false)
unfolding feed
feed_skipping c b h = rw (lt→ltb _ _ h)

abbrev at : CasyncChunker → ℕ → CasyncChunker
at c n = record c { chunk_size = n }

-- The skip is not over at the end of the input, or it is over after `k` bytes.
module _ (c : CasyncChunker) (bs : List ℕ) where
  scan_short :
      c.chunk_size + length bs < to_skip c → scan c bs ≡ (at c (c.chunk_size + length bs), none)
  unfolding scan
  scan_short h =
      let skips : ltb c.chunk_size (to_skip c) ≡ true = ground arith in
      let short : ltb (length bs) (to_skip c - c.chunk_size) ≡ true = ground arith in
      rw (skips, short)

  scan_long :
      (k : ℕ)
      → c.chunk_size + k ≡ to_skip c
      → k ≤ length bs
      → scan c bs ≡ scan_window (at c (c.chunk_size + k)) (drop k bs) k
  unfolding scan
  scan_long zero e h =
      let skips : ltb c.chunk_size (to_skip c) ≡ false = ground arith in rw (skips, add-zero)
  scan_long (suc k) e h =
      let skips : ltb c.chunk_size (to_skip c) ≡ true = ground arith in
      let exact : to_skip c - c.chunk_size ≡ suc k = omega arith in
      let long : ltb (length bs) (suc k) ≡ false = ground arith in rw (skips, exact, long)

skipped-IsGood :
    (c : CasyncChunker) (n : ℕ) → IsGood c → c.chunk_size ≤ n → n ≤ to_skip c → IsGood (at c n)
skipped-IsGood c n g h le = ground arith

-- One byte of the skip.
scan_skips :
    (c : CasyncChunker) (b : ℕ) (bs : List ℕ)
    → IsGood c
    → c.chunk_size < to_skip c
    → scan c (b ∷ bs) ≡ shift 1 (scan (at c (c.chunk_size + 1)) bs)
scan_skips c b bs g h = elim (dec_lt (c.chunk_size + length (b ∷ bs)) (to_skip c)) [
  | yes short ↦
      let next : c.chunk_size + suc (length bs) ≡ c.chunk_size + 1 + length bs = omega arith in
      rw (scan_short c (b ∷ bs) short, scan_short (at c (c.chunk_size + 1)) bs (omega arith), next)
        (unfold shift in refl)
  | no long ↦ over (to_skip c - (c.chunk_size + 1)) (omega arith) (omega arith)
]
  where
    over :
        (k : ℕ)
        → c.chunk_size + suc k ≡ to_skip c
        → k ≤ length bs
        → scan c (b ∷ bs) ≡ shift 1 (scan (at c (c.chunk_size + 1)) bs)
    over k e le =
        let next : c.chunk_size + suc k ≡ c.chunk_size + 1 + k = omega arith in
        let d = at c (c.chunk_size + 1 + k) in
        rw
          (
            scan_long c (b ∷ bs) (suc k) e (omega arith),
            scan_long (at c (c.chunk_size + 1)) bs k (omega arith) le,
            next,
            ← add-one k,
          )
          (scan_window_later d (drop k bs) k (skipped-IsGood c _ g (omega arith) (omega arith))
            (omega arith))

scan-skipped :
    (c : CasyncChunker) (bs : List ℕ)
    → IsGood c
    → to_skip c ≤ c.chunk_size
    → scan c bs ≡ scan_by feed c bs
unfolding scan
scan-skipped c bs g h =
    let skipped : ltb c.chunk_size (to_skip c) ≡ false = ground arith in
    rw skipped (scan_window-scan_by c bs 0 g h ∙ shift-zero (scan_by feed c bs))

scan-skipping :
    (c : CasyncChunker) (bs : List ℕ)
    → IsGood c
    → c.chunk_size < to_skip c
    → scan c bs ≡ scan_by feed c bs
scan-skipping c [] g h = unfold scan_by in (scan_short c [] (omega arith) ∙ rw add-zero)
scan-skipping c (b ∷ bs) g h =
    scan_skips c b bs g h
    ∙ ap (shift 1) (next (λ g' m. scan-skipping (at c (c.chunk_size + 1)) bs g' m))
    ∙ (unfold scan_by in rw (feed_skipping c b h))
  where
    next-IsGood : IsGood (at c (c.chunk_size + 1))
    next-IsGood = skipped-IsGood c _ g (omega arith) (omega arith)

    next :
        (IsGood (at c (c.chunk_size + 1))
          → c.chunk_size + 1 < to_skip c
          → scan (at c (c.chunk_size + 1)) bs ≡ scan_by feed (at c (c.chunk_size + 1)) bs)
        → scan (at c (c.chunk_size + 1)) bs ≡ scan_by feed (at c (c.chunk_size + 1)) bs
    next ih = elim (dec_lt (c.chunk_size + 1) (to_skip c)) [
      | yes more ↦ ih next-IsGood more
      | no last ↦ scan-skipped (at c (c.chunk_size + 1)) bs next-IsGood (omega arith)
    ]

-- On every good state `scan` is the scan of the machine that reads byte by byte.
pub scan-feed : (c : CasyncChunker) (bs : List ℕ) → IsGood c → scan c bs ≡ scan_by feed c bs
scan-feed c bs g = elim (dec_lt c.chunk_size (to_skip c)) [
  | yes e ↦ scan-skipping c bs g e
  | no e ↦ scan-skipped c bs g (omega arith)
]
