-- ===== src/Decoder.antt =====
-- crates/libs/rugix-bundle/src/format/decode.rs and encode.rs: the decoder with its limits, and
-- values. An error ends the decoding, since every caller passes it on, so that the decoder is not
-- kept behind it. A size is a `u64` and a depth a `usize`, which a stream in memory does not exhaust.
pub mod Values
pub mod Segments
pub mod Fuel
mod Tests
use rugix.Common.{
  ℕ, zero, suc, ◌+◌, ◌-◌, ◌*◌, ◌/◌, ◌%◌, ◌^◌, Bool, true, false, not, Option, none, some, List, [],
  ◌∷◌, ◌++◌, ltb, leb, ◌==◌, if◌then◌else◌, length,
}
use rugix.Common.Result.{ok, err, panic, out_of_fuel, ◌>>=◌, ◌>>◌, assert, unwrap}
use rugix.Stlv.{
  BundleResult, Source, Tag, tag_eq, AtomHead, value, start, end, unexpected_end, size_limit,
  depth_limit, unbalanced_segment_end, invalid_value_length, invalid_boolean, read_atom_head,
  atom_size, read_exact, skip_bytes, write_value,
}

-- `Decoder`
pub record Decoder : Type 0 where
  pub source : Source
  pub remaining_depth : ℕ
  pub remaining_bytes : ℕ
  pub value_length : Option ℕ

-- `Decoder::new`
abbrev pub new : Source → ℕ → ℕ → Decoder
new source max_depth max_size = record {
  source = source;
  remaining_depth = max_depth;
  remaining_bytes = max_size;
  value_length = none;
}

-- On an error the source sets `remaining_bytes` to 0, in a decoder that is not used again.
unfoldable pub check_and_subtract_size : ℕ → Decoder → BundleResult Decoder
check_and_subtract_size size d =
    if ltb d.remaining_bytes size
    then err size_limit
    else ok (record d { remaining_bytes = d.remaining_bytes - size })

abbrev pub is_none : Option ℕ → Bool
is_none none = true
is_none (some n) = false

-- The last part of `next_atom_head`, by the head.
unfoldable pub enter_atom : AtomHead → Decoder → BundleResult Decoder
enter_atom (start t) d =
    if ltb 0 d.remaining_depth
    then ok (record d { remaining_depth = d.remaining_depth - 1 })
    else err depth_limit
enter_atom (end t) d = ok (record d { remaining_depth = d.remaining_depth + 1 })
enter_atom (value t n) d = ok (record d { value_length = some n })

-- `next_atom_head` behind the read.
unfoldable pub take_head : Option AtomHead → Decoder → BundleResult (AtomHead × Decoder)
take_head none d = err unexpected_end
take_head (some head) d = do
  d' ← check_and_subtract_size (atom_size head) d
  d'' ← enter_atom head d'
  ok (head, d'')

unfoldable pub next_atom_head : Decoder → BundleResult (AtomHead × Decoder)
next_atom_head d = do
  assert (is_none d.value_length)
  (next, s) ← read_atom_head d.source
  take_head next (record d { source = s })

-- `self.value_length.take().expect(..)`
abbrev pub take_length : Decoder → BundleResult (ℕ × Decoder)
take_length d = do n ← unwrap d.value_length; ok (n, record d { value_length = none })

unfoldable pub read_value : Decoder → BundleResult (List ℕ × Decoder)
read_value d = do
  (n, d') ← take_length d
  d'' ← check_and_subtract_size n d'
  (bytes, s) ← read_exact n d''.source
  ok (bytes, record d'' { source = s })

unfoldable pub read_value_array : ℕ → Decoder → BundleResult (List ℕ × Decoder)
read_value_array size d = do
  (n, d') ← take_length d
  d'' ← check_and_subtract_size n d'
  (if size == n
      then (do (bytes, s) ← read_exact size d''.source; ok (bytes, record d'' { source = s }))
      else err invalid_value_length)

unfoldable pub skip_value : Decoder → BundleResult Decoder
skip_value d = do (n, d') ← take_length d; s ← skip_bytes n d'.source; ok (record d' { source = s })

-- A round of the loop of `skip_segment`, at the head just read, with the rounds that follow;
-- `inner` is the loop.
unfoldable pub skip_round :
    (Tag → Decoder → BundleResult Decoder) → Tag → AtomHead → Decoder → BundleResult Decoder
skip_round inner tag (value t n) d = do d' ← skip_value d; inner tag d'
skip_round inner tag (start t) d = do d' ← inner t d; inner tag d'
skip_round inner tag (end t) d = if tag_eq t tag then ok d else err unbalanced_segment_end

-- The loop of `skip_segment`. Every round reads a head, of at least five bytes.
unfoldable pub skip_segment : ℕ → Tag → Decoder → BundleResult Decoder
skip_segment zero tag d = out_of_fuel
skip_segment (suc fuel) tag d = do
  (head, d') ← next_atom_head d
  skip_round (skip_segment fuel) tag head d'

-- `Decoder::skip`
unfoldable pub skip : AtomHead → Decoder → BundleResult Decoder
skip (value t n) d = skip_value d
skip (start t) d = skip_segment (suc (length d.source)) t d
skip (end t) d = err unbalanced_segment_end

-- `to_be_bytes` and `from_be_bytes` of an unsigned integer of `size` bytes.
unfoldable pub to_be_bytes : ℕ → ℕ → List ℕ
to_be_bytes zero n = []
to_be_bytes (suc size) n = to_be_bytes size (n / 256) ++ n % 256 ∷ []

unfoldable pub from_be_bytes : ℕ → List ℕ → ℕ
from_be_bytes acc [] = acc
from_be_bytes acc (b ∷ bs) = from_be_bytes (acc * 256 + b) bs

-- `Encode` and `Decode` of the unsigned integers.
unfoldable pub encode_int : ℕ → ℕ → Tag → BundleResult (List ℕ)
encode_int size n t = write_value t (to_be_bytes size n)

unfoldable pub decode_int : ℕ → Decoder → AtomHead → BundleResult (ℕ × Decoder)
decode_int size d atom = do (bytes, d') ← read_value_array size d; ok (from_be_bytes 0 bytes, d')

-- `Encode` and `Decode` of `bool`.
unfoldable pub encode_bool : Bool → Tag → BundleResult (List ℕ)
encode_bool b t = write_value t ((if b then 1 else 0) ∷ [])

unfoldable pub bool_of : List ℕ → BundleResult Bool
bool_of (b ∷ []) = if b == 0 then ok false else if b == 1 then ok true else err invalid_boolean
bool_of _ = panic

unfoldable pub decode_bool : Decoder → AtomHead → BundleResult (Bool × Decoder)
decode_bool d atom = do (bytes, d') ← read_value_array 1 d; b ← bool_of bytes; ok (b, d')

-- `Decoder::decode`, where `T::decode` is the argument.
unfoldable pub decode :
    {A : Type 0}
    → (Decoder → AtomHead → BundleResult (A × Decoder))
    → Decoder
    → BundleResult (A × Decoder)
decode as_value d = do (atom, d') ← next_atom_head d; as_value d' atom
