-- ===== src/Chunker/Casync.antt =====
-- crates/libs/rugix-chunker/src/casync.rs: the chunker with a rolling hash.
-- A `u32` is a number below 2 ^ 32. The only floating-point expression, the first argument of `max`
-- in `discriminator`, is the parameter `estimate`, applied to the average size.
pub mod Bytewise
use rugix.Common.{
  ℕ, zero, suc, ◌+◌, ◌-◌, ◌*◌, ◌/◌, ◌%◌, ◌^◌, ◌≤◌, ◌<◌, ◌≡◌, refl, min, max, Bool, true, false,
  ◌||◌, Option, none, some, List, [], ◌∷◌, ltb, leb, ◌==◌, if◌then◌else◌, length, drop, get_or, set,
  replicate, arith,
}
use Prim.Native.Nat.{bit_xor}
use rugix.Common.Result.{Result, ok, err, panic, out_of_fuel, ◌>>=◌, ◌>>◌}
use rugix.Chunker.Table.{table}

-- `InvalidChunkerOptionsError`, by its message.
pub data InvalidChunkerOptions : Type 0 where
  min_too_small : InvalidChunkerOptions
  min_above_max : InvalidChunkerOptions
  min_above_avg : InvalidChunkerOptions
  avg_above_max : InvalidChunkerOptions
  max_above_31_bits : InvalidChunkerOptions
  max_above_usize : InvalidChunkerOptions

abbrev pub window_max : ℕ
window_max = 48

pub record Options : Type 0 where
  pub min_chunk_size : ℕ
  pub avg_chunk_size : ℕ
  pub max_chunk_size : ℕ

-- `CasyncChunkerOptions::avg`
unfoldable pub avg : ℕ → Options
avg size = record { min_chunk_size = size / 4; avg_chunk_size = size; max_chunk_size = size * 4 }

-- `CasyncChunkerOptions::check`, on a machine with 64-bit `usize`.
unfoldable pub check : Options → Result InvalidChunkerOptions (Unit {0})
check o =
    if leb o.min_chunk_size window_max
    then err min_too_small
    else if ltb o.max_chunk_size o.min_chunk_size
    then err min_above_max
    else if ltb o.avg_chunk_size o.min_chunk_size
    then err min_above_avg
    else if ltb o.max_chunk_size o.avg_chunk_size
    then err avg_above_max
    else if ltb ((2 ^ 32 - 1) / 2) o.max_chunk_size
    then err max_above_31_bits
    else if leb (2 ^ 64) o.max_chunk_size
    then err max_above_usize
    else ok tt

-- `discriminator`, with its casts to `u32`.
unfoldable pub discriminator : (ℕ → ℕ) → Options → ℕ
discriminator estimate o =
    min (max (estimate o.avg_chunk_size) (o.min_chunk_size % 2 ^ 32)) (o.max_chunk_size % 2 ^ 32)

-- `CasyncChunker`
pub record CasyncChunker : Type 0 where
  pub hash : ℕ
  pub options : Options
  pub chunk_size : ℕ
  pub window : List ℕ
  pub window_size : ℕ
  pub discrim : ℕ

unfoldable pub new : (ℕ → ℕ) → Options → Result InvalidChunkerOptions CasyncChunker
new estimate o = do
  check o
  ok (record {
    hash = 0;
    options = o;
    chunk_size = 0;
    window = replicate window_max 0;
    window_size = 0;
    discrim = discriminator estimate o;
  })

-- `u32::rotate_left(offset % 32)`
unfoldable pub rotate_left : ℕ → ℕ → ℕ
rotate_left v offset = let k = offset % 32 in v * 2 ^ k % 2 ^ 32 + v / 2 ^ (32 - k)

unfoldable pub hash_byte : ℕ → ℕ
hash_byte byte = get_or table byte 0

unfoldable pub reset : CasyncChunker → CasyncChunker
reset c = record c { hash = 0; chunk_size = 0; window_size = 0 }

-- The loop of `start`, from the index `idx` on.
unfoldable pub start_hash : ℕ → ℕ → List ℕ → ℕ
start_hash hash idx [] = hash
start_hash hash idx (byte ∷ bytes) =
    start_hash (bit_xor hash (rotate_left (hash_byte byte) (window_max - idx - 1))) (suc idx) bytes

unfoldable pub start : CasyncChunker → CasyncChunker
start c = record c { hash = start_hash 0 0 c.window }

unfoldable pub advance : CasyncChunker → ℕ → ℕ → CasyncChunker
advance c leave enter = record c {
  hash =
      bit_xor (bit_xor (rotate_left c.hash 1) (rotate_left (hash_byte leave) window_max))
        (hash_byte enter);
}

unfoldable pub shall_break : CasyncChunker → Bool
shall_break c = leb c.options.max_chunk_size c.chunk_size || c.hash % c.discrim == c.discrim - 1

-- The loop that fills the window: the chunker, the bytes that remain, and the offset behind the
-- bytes that were read.
unfoldable pub fill : CasyncChunker → List ℕ → ℕ → CasyncChunker × List ℕ × ℕ
fill c [] offset = (c, [], offset)
fill c (b ∷ bs) offset =
    let c' = record c {
      window = set c.window c.window_size b;
      window_size = c.window_size + 1;
      chunk_size = c.chunk_size + 1;
    } in
    let rest = fill c' bs (offset + 1) in
    if ltb c.window_size window_max then rest else (c, b ∷ bs, offset)

-- The loop that moves the window, at the index `idx` of its oldest byte.
unfoldable pub roll : CasyncChunker → ℕ → List ℕ → ℕ → CasyncChunker × Option ℕ
roll c idx [] offset = (c, none)
roll c idx (enter ∷ bs) offset =
    let moved = advance c (get_or c.window idx 0) enter in
    let c' = record moved { chunk_size = c.chunk_size + 1 } in
    let idx' = if idx + 1 == window_max then 0 else idx + 1 in
    let rest = roll (record c' { window = set c.window idx enter }) idx' bs (offset + 1) in
    if shall_break c' then (reset c', some (offset + 1)) else rest

-- `min_chunk_size - WINDOW_SIZE`
abbrev pub to_skip : CasyncChunker → ℕ
to_skip c = c.options.min_chunk_size - window_max

-- The last part of `scan`.
unfoldable pub scan_rolling : CasyncChunker → List ℕ → ℕ → CasyncChunker × Option ℕ
scan_rolling c bs offset = roll c ((c.chunk_size - to_skip c) % window_max) bs offset

-- `scan` behind the bytes that are skipped.
unfoldable pub scan_window : CasyncChunker → List ℕ → ℕ → CasyncChunker × Option ℕ
scan_window c bs offset =
    if ltb c.window_size window_max
    then (let (filled, bs', offset') = fill c bs offset in
        let c' = start filled in
        if ltb filled.window_size window_max
        then (filled, none)
        else if shall_break c'
        then (reset c', some offset')
        else scan_rolling c' bs' offset')
    else scan_rolling c bs offset

unfoldable pub scan : CasyncChunker → List ℕ → CasyncChunker × Option ℕ
scan c bs =
    let may_skip = to_skip c - c.chunk_size in
    if ltb c.chunk_size (to_skip c)
    then (if ltb (length bs) may_skip
        then (record c { chunk_size = c.chunk_size + length bs }, none)
        else scan_window (record c { chunk_size = c.chunk_size + may_skip }) (drop may_skip bs)
            may_skip)
    else scan_window c bs 0
