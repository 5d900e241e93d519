-- ===== src/Stlv.antt =====
-- crates/libs/rugix-bundle/src/format/stlv.rs: tags, atom heads, and the reads and writes below them.
-- A byte is a number below 256. A `BundleSource` is the list of the bytes that it has not delivered
-- (a `ReaderSource<_, SkipRead>` over a slice), and a writer is the list of the bytes written.
pub mod Size
pub mod Varint
pub mod Head
pub mod Skip
pub mod Fuel
mod Tests
use rugix.Common.{
  ℕ, zero, suc, ◌+◌, ◌-◌, ◌*◌, ◌/◌, ◌%◌, ◌^◌, ◌≤◌, ◌<◌, ◌≡◌, min, Bool, true, false, ◌&&◌, not,
  Option, none, some, List, [], ◌∷◌, ◌++◌, ltb, leb, ◌==◌, if◌then◌else◌, length, take, drop,
}
use rugix.Common.Arith.{shr, low_bits, div_ceil, leading_zeros}
use rugix.Common.Result.{Result, ok, err, panic, out_of_fuel, ◌>>=◌, ◌>>◌, assert}

-- The messages of `bail!`, with those of decode.rs and reader.rs, and failures of files.
pub data Error : Type 0 where
  unexpected_end : Error
  varint_exceeds_63_bits : Error
  varint_exceeds_64_bits : Error
  zero_digit : Error
  nonzero_indicator_bits : Error
  unexpected_end_in_segment : Error
  unbalanced_segment_end : Error
  depth_limit : Error
  size_limit : Error
  invalid_value_length : Error
  invalid_boolean : Error
  unexpected_required_tag : Error
  unexpected_atom : Error
  value_too_long : Error
  multiple_signatures : Error
  invalid_header_hash : Error
  invalid_payload_header_hash : Error
  needs_block_sizes : Error
  invalid_block_hash : Error
  payload_hash_mismatch : Error
  target_failure : Error
  provider_failure : Error

abbrev pub BundleResult : Type 0 → Type 0
BundleResult A = Result Error A

abbrev pub Source : Type 0
Source = List ℕ

abbrev pub u64_max : ℕ
u64_max = 2 ^ 64 - 1

-- `Tag`
pub record Tag : Type 0 where
  pub b0 : ℕ
  pub b1 : ℕ
  pub b2 : ℕ
  pub b3 : ℕ

-- `AtomHead`
pub data AtomHead : Type 0 where
  value : Tag → ℕ → AtomHead
  start : Tag → AtomHead
  end : Tag → AtomHead

-- The derived equality of tags.
abbrev pub tag_eq : Tag → Tag → Bool
tag_eq s t = s.b0 == t.b0 && (s.b1 == t.b1 && (s.b2 == t.b2 && s.b3 == t.b3))

-- `BundleSource::read_exact` over a slice: a source that ends early is an error.
unfoldable pub read_exact : ℕ → Source → BundleResult (List ℕ × Source)
read_exact n s = if leb n (length s) then ok (take n s, drop n s) else err unexpected_end

unfoldable pub read_byte : Source → BundleResult (ℕ × Source)
read_byte [] = err unexpected_end
read_byte (b ∷ s) = ok (b, s)

-- A source that is already at its end has no tag; one that ends inside the tag is truncated.
unfoldable pub read_tag : Source → BundleResult (Option Tag × Source)
read_tag [] = ok (none, [])
read_tag (b0 ∷ b1 ∷ b2 ∷ b3 ∷ s) = ok (some (record { b0 = b0; b1 = b1; b2 = b2; b3 = b3 }), s)
read_tag _ = err unexpected_end

-- The loop of `read_varint` at the value `integer` read so far. `checked_shl(7)` drops the bits that
-- are shifted out, and is `None` only for shifts of 64 and more, so its `None` branch is never taken.
-- The low seven bits of `shifted` are 0, so `|` is `+`.
unfoldable pub read_varint_loop : ℕ → Source → BundleResult (ℕ × Source)
read_varint_loop integer [] = err unexpected_end
read_varint_loop integer (byte ∷ s) =
    let shifted = integer * 2 ^ 7 % 2 ^ 64 in
    let integer' = shifted + low_bits byte 7 in
    let rest = read_varint_loop integer' s in
    if shr byte 7 % 2 == 0
    then if ltb (u64_max / 2) integer' then err varint_exceeds_63_bits else ok (integer', s)
    else if integer' == 0
    then err zero_digit
    else rest

unfoldable pub read_varint : Source → BundleResult (ℕ × Source)
unfolding read_varint_loop
read_varint s = read_varint_loop 0 s

unfoldable pub compute_varint_size : ℕ → ℕ
unfolding leading_zeros
compute_varint_size integer =
    let bits = 64 - leading_zeros integer in if bits == 0 then 1 else div_ceil bits 7

-- The loop of `write_varint` with `shift` at 7 * k. The digit has seven bits, so `| 0x80` is `+ 128`.
unfoldable pub write_digits : ℕ → ℕ → List ℕ
write_digits zero integer = low_bits (shr integer 0) 7 ∷ []
write_digits (suc k) integer = (low_bits (shr integer (7 * suc k)) 7 + 128) ∷ write_digits k integer

unfoldable pub write_varint : ℕ → BundleResult (List ℕ)
unfolding write_digits compute_varint_size
write_varint integer = do
  assert (leb integer (u64_max / 2))
  ok (write_digits (compute_varint_size integer - 1) integer)

unfoldable pub write_tag : Tag → List ℕ
write_tag t = t.b0 ∷ t.b1 ∷ t.b2 ∷ t.b3 ∷ []

-- `IS_VALUE_MASK` and `IS_START_MASK`.
abbrev pub is_value_mask : ℕ
is_value_mask = 2 ^ 7

abbrev pub is_start_mask : ℕ
is_start_mask = 2 ^ 6

-- `AtomHead::head_size` and `AtomHead::atom_size`.
unfoldable pub head_size : AtomHead → ℕ
unfolding compute_varint_size
head_size (value t n) = 4 + 1 + (if leb 127 n then compute_varint_size (n - 127) else 0)
head_size _ = 4 + 1

unfoldable pub atom_size : AtomHead → ℕ
unfolding head_size
atom_size (value t n) = head_size (value t n) + n
atom_size h = head_size h

-- The bytes that are written. A length has at most seven bits here, so `IS_VALUE_MASK |` is `+`.
unfoldable pub write_atom_head : AtomHead → BundleResult (List ℕ)
unfolding write_tag write_varint
write_atom_head (value t n) = do
  long ← if leb 127 n then write_varint (n - 127) else ok []
  ok (write_tag t ++ (is_value_mask + min n 127) ∷ long)
write_atom_head (start t) = ok (write_tag t ++ is_start_mask ∷ [])
write_atom_head (end t) = ok (write_tag t ++ 0 ∷ [])

unfoldable pub write_value : Tag → List ℕ → BundleResult (List ℕ)
write_value t bytes = do head ← write_atom_head (value t (length bytes)); ok (head ++ bytes)

-- The length of a value, from the seven bits in the indicator.
unfoldable pub read_length : ℕ → Source → BundleResult (ℕ × Source)
unfolding read_varint
read_length n s = if n == 127 then (do (more, s') ← read_varint s; ok (n + more, s')) else ok (n, s)

-- The head behind `tag`, by its indicator byte. `indicator & !IS_VALUE_MASK` are its low seven bits.
unfoldable pub read_indicator : Tag → ℕ → Source → BundleResult (AtomHead × Source)
unfolding read_length
read_indicator tag indicator s =
    if shr indicator 7 % 2 == 1
    then (do (n, s') ← read_length (low_bits indicator 7) s; ok (value tag n, s'))
    else if not (low_bits indicator 6 == 0)
    then err nonzero_indicator_bits
    else if shr indicator 6 % 2 == 1
    then ok (start tag, s)
    else ok (end tag, s)

unfoldable pub read_atom_head : Source → BundleResult (Option AtomHead × Source)
unfolding read_tag read_byte read_indicator
read_atom_head s = do
  (tag, s') ← read_tag s
  elim tag [
    | none ↦ ok (none, s')
    | some t ↦ do
      (indicator, s'') ← read_byte s'
      (head, s''') ← read_indicator t indicator s''
      ok (some head, s''')
  ]

-- `BundleSource::skip` by reading.
unfoldable pub skip_bytes : ℕ → Source → BundleResult Source
skip_bytes n s = if leb n (length s) then ok (drop n s) else err unexpected_end

-- `skip`, where `inner` skips a segment that is open.
unfoldable pub skip_atom :
    (Tag → Source → BundleResult Source) → AtomHead → Source → BundleResult Source
skip_atom inner (value t n) s = skip_bytes n s
skip_atom inner (start t) s = inner t s
skip_atom inner (end t) s = err unbalanced_segment_end

abbrev pub closes : Tag → AtomHead → Bool
closes open_tag (end t) = tag_eq open_tag t
closes open_tag _ = false

-- One round of the loop of `skip`, at the head just read; `inner` is the loop.
unfoldable pub skip_next :
    (Tag → Source → BundleResult Source) → Tag → Option AtomHead → Source → BundleResult Source
skip_next inner open_tag none s = err unexpected_end_in_segment
skip_next inner open_tag (some head) s =
    if closes open_tag head then ok s else (do s' ← skip_atom inner head s; inner open_tag s')

-- The loop of `skip` inside a segment. Every round reads a head, of at least five bytes.
unfoldable pub skip_segment : ℕ → Tag → Source → BundleResult Source
skip_segment zero open_tag s = out_of_fuel
skip_segment (suc fuel) open_tag s = do
  (next, s') ← read_atom_head s
  skip_next (skip_segment fuel) open_tag next s'

unfoldable pub skip : AtomHead → Source → BundleResult Source
unfolding skip_segment
skip head s = skip_atom (skip_segment (suc (length s))) head s
