-- ===== src/Chunker/Casync/Bytewise/Rolling.antt =====
-- The loop that moves the window reads byte by byte.
use rugix.Common.{
  ℕ, ◌+◌, ◌-◌, ◌%◌, ◌≤◌, ◌≡◌, ◌∙◌, sym, refl, true, false, Option, some, List, [], ◌∷◌, ltb, ◌==◌,
  if◌then◌else◌, arith, Bool-cases, inl, inr,
}
use mathlib.Core.Path.{subst}
use rugix.Chunker.{shift, scan_by}
use rugix.Chunker.Machine.{shift-add}
use rugix.Chunker.Casync.{CasyncChunker, window_max, reset, advance, shall_break, roll, to_skip}
use rugix.Chunker.Casync.Bytewise.{rolled, kept, feed, IsGood, feed-IsGood}

-- The index moves round the window.
idx_next :
    (n k : ℕ) → k ≤ n → (if (n - k) % 48 + 1 == 48 then 0 else (n - k) % 48 + 1) ≡ (n + 1 - k) % 48
idx_next n k h = ground arith

abbrev oldest : CasyncChunker → ℕ
oldest c = (c.chunk_size - to_skip c) % window_max

module _ (c : CasyncChunker) (b : ℕ) (g : IsGood c) (full : c.window_size ≡ window_max) where
  feed_full : feed c b ≡ (
      if shall_break (rolled c (oldest c) b)
      then (reset (rolled c (oldest c) b), true)
      else (kept c (oldest c) b, false))
  unfolding feed
  feed_full =
      let skipped : ltb c.chunk_size (to_skip c) ≡ false = ground arith in
      let filled : ltb c.window_size window_max ≡ false = ground arith in rw (skipped, filled)

  oldest-kept :
      (if oldest c + 1 == window_max then 0 else oldest c + 1) ≡ oldest (kept c (oldest c) b)
  unfolding kept advance
  oldest-kept = idx_next c.chunk_size (to_skip c) (ground arith)

roll_step :
    (c : CasyncChunker) (idx b : ℕ) (bs : List ℕ) (offset : ℕ)
    → roll c idx (b ∷ bs) offset ≡ (
        if shall_break (rolled c idx b)
        then (reset (rolled c idx b), some (offset + 1))
        else roll (kept c idx b) (if idx + 1 == window_max then 0 else idx + 1) bs (offset + 1))
unfolding roll rolled kept
roll_step c idx b bs offset = refl

-- A scan that found no end at its first byte goes on behind it.
pub feed_goes :
    (c c' : CasyncChunker) (b : ℕ) (bs : List ℕ) (offset : ℕ)
    → feed c b ≡ (c', false)
    → shift (offset + 1) (scan_by feed c' bs) ≡ shift offset (scan_by feed c (b ∷ bs))
unfolding scan_by
feed_goes c c' b bs offset e = rw (e) (sym (shift-add offset (scan_by feed c' bs)))

pub feed_ends :
    (c c' : CasyncChunker) (b : ℕ) (bs : List ℕ) (offset : ℕ)
    → feed c b ≡ (c', true)
    → ◌≡◌ {A = CasyncChunker × Option ℕ}
        (c', some (offset + 1))
        (shift offset (scan_by feed c (b ∷ bs)))
unfolding scan_by shift
feed_ends c c' b bs offset e = rw e

pub IsGood-goes : {c c' : CasyncChunker} (b : ℕ) → IsGood c → feed c b ≡ (c', false) → IsGood c'
IsGood-goes {c} b g e = subst (λ r. IsGood r.0) e (feed-IsGood c b g)

pub roll-scan_by :
    (c : CasyncChunker) (bs : List ℕ) (offset : ℕ)
    → IsGood c
    → c.window_size ≡ window_max
    → roll c (oldest c) bs offset ≡ shift offset (scan_by feed c bs)
roll-scan_by c [] offset g w = unfold roll scan_by shift in refl
roll-scan_by c (b ∷ bs) offset g w = elim (Bool-cases (shall_break (rolled c (oldest c) b))) [
  | inl e ↦
      let ends = rw e at (feed_full c b g w) in
      rw (roll_step c (oldest c) b bs offset, e)
        (feed_ends c (reset (rolled c (oldest c) b)) b bs offset ends)
  | inr e ↦
      let goes = rw e at (feed_full c b g w) in
      rw (roll_step c (oldest c) b bs offset, e, oldest-kept c b g w)
        (roll-scan_by (kept c (oldest c) b) bs (offset + 1) (IsGood-goes b g goes)
            (unfold kept advance in w)
          ∙ feed_goes c (kept c (oldest c) b) b bs offset goes)
]
