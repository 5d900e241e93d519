-- ===== src/Chunker/Fixed.antt =====
-- crates/libs/rugix-chunker/src/lib.rs: `FixedSizeChunker`.
use rugix.Common.{
  ℕ, ◌-◌, ◌≤◌, ◌≡◌, min, Bool, true, false, inl, inr, Option, none, some, List, [], ◌∷◌, ◌==◌,
  if◌then◌else◌, length, arith, Bool-cases, not,
}
use rugix.Common.Result.{Result, ok, ◌>>◌, assert}
use rugix.Chunker.{shift, scan_by}

pub record FixedSizeChunker : Type 0 where
  pub block_size : ℕ
  pub remaining : ℕ

-- `FixedSizeChunker::new`
unfoldable pub new {ℓ} : {E : Type ℓ} → ℕ → Result E FixedSizeChunker
new block_size = do
  assert (not (block_size == 0))
  ok (record { block_size = block_size; remaining = block_size })

unfoldable pub scan : FixedSizeChunker → List ℕ → FixedSizeChunker × Option ℕ
scan c bytes =
    let n = min c.remaining (length bytes) in
    let left = c.remaining - n in
    if left == 0
    then (record c { remaining = c.block_size }, some n)
    else (record c { remaining = left }, none)

-- One byte of the block.
unfoldable pub feed : FixedSizeChunker → ℕ → FixedSizeChunker × Bool
feed c b =
    if c.remaining == 1
    then (record c { remaining = c.block_size }, true)
    else (record c { remaining = c.remaining - 1 }, false)

pub record IsGood (c : FixedSizeChunker) : Type 0 where
  pub some_left : 1 ≤ c.remaining
  pub in_block : c.remaining ≤ c.block_size

pub feed-IsGood : (c : FixedSizeChunker) (b : ℕ) → IsGood c → IsGood (feed c b).0
unfolding feed
feed-IsGood c b g = ground arith

scan-cons :
    (c : FixedSizeChunker) (b : ℕ) (bs : List ℕ)
    → 2 ≤ c.remaining
    → scan c (b ∷ bs) ≡ shift 1 (scan (record c { remaining = c.remaining - 1 }) bs)
unfolding scan shift
scan-cons c b bs h = ground arith

pub scan-feed : (c : FixedSizeChunker) (bs : List ℕ) → IsGood c → scan c bs ≡ scan_by feed c bs
unfolding scan_by feed scan
scan-feed c [] g = ground arith
scan-feed c (b ∷ bs) g = elim (Bool-cases (c.remaining == 1)) [
  | inl e ↦ rw e (ground arith)
  | inr e ↦ rw e (
      rw (← scan-feed (record c { remaining = c.remaining - 1 }) bs (ground arith))
        (scan-cons c b bs (ground arith)))
]
