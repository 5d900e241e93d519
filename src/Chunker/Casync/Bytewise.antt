-- ===== src/Chunker/Casync/Bytewise.antt =====
-- The chunker as a machine that reads byte by byte, and the invariant of its state.
pub mod Rolling
pub mod Filling
pub mod Scan
use rugix.Common.{
  ℕ, zero, suc, ◌+◌, ◌-◌, ◌%◌, ◌≤◌, ◌<◌, ◌≡◌, ◌∙◌, sym, ap, refl, min, Bool, true, false, Option,
  none, some, List, [], ◌∷◌, ltb, lt→ltb, ◌==◌, if◌then◌else◌, length, drop, get_or, set, arith,
  Bool-cases, inl, inr,
}
use mathlib.Core.Path.{subst}
use native.Mathlib.Decide.{dec_lt}
use native.Mathlib.Nat.{add-zero}
use native.Mathlib.Numerals.{add-one}
use rugix.Chunker.{shift, scan_by}
use rugix.Chunker.Machine.{shift-shift, shift-add, shift-zero}
use rugix.Chunker.Casync.{
  CasyncChunker, window_max, reset, start, advance, shall_break, fill, roll, to_skip, scan_rolling,
  scan_window, scan,
}

unfoldable pub push : CasyncChunker → ℕ → CasyncChunker
push c b = record c {
  window = set c.window c.window_size b;
  window_size = c.window_size + 1;
  chunk_size = c.chunk_size + 1;
}

-- The chunker with one more byte in its hash, and then in its window.
unfoldable pub rolled : CasyncChunker → ℕ → ℕ → CasyncChunker
rolled c idx b =
    let moved = advance c (get_or c.window idx 0) b in
    record moved { chunk_size = c.chunk_size + 1 }

unfoldable pub kept : CasyncChunker → ℕ → ℕ → CasyncChunker
unfolding rolled
kept c idx b = record (rolled c idx b) { window = set c.window idx b }

-- One byte of the stream.
unfoldable pub feed : CasyncChunker → ℕ → CasyncChunker × Bool
unfolding push rolled kept
feed c b =
    let idx = (c.chunk_size - to_skip c) % window_max in
    if ltb c.chunk_size (to_skip c)
    then (record c { chunk_size = c.chunk_size + 1 }, false)
    else if ltb c.window_size window_max
    then (if ltb (push c b).window_size window_max
        then (push c b, false)
        else if shall_break (start (push c b))
        then (reset (start (push c b)), true)
        else (start (push c b), false))
    else if shall_break (rolled c idx b)
    then (reset (rolled c idx b), true)
    else (kept c idx b, false)

-- The invariant between two bytes: the window starts to fill when `min_chunk_size - 48` bytes were
-- skipped, and the chunk is not over-long.
pub record IsGood (c : CasyncChunker) : Type 0 where
  pub min_above : window_max < c.options.min_chunk_size
  pub min_le : c.options.min_chunk_size ≤ c.options.max_chunk_size
  pub filled : c.window_size ≡ min (c.chunk_size - to_skip c) window_max
  pub not_over : c.chunk_size < c.options.max_chunk_size

pub feed-IsGood : (c : CasyncChunker) (b : ℕ) → IsGood c → IsGood (feed c b).0
unfolding feed reset start advance shall_break
feed-IsGood c b g = ground arith
