-- ===== src/Bundle/Tests/Headers.antt =====
-- Two block encodings with different algorithms, and a format that tells their headers apart.
use rugix.Common.{
  ℕ, ◌≡◌, ◌≢◌, inl, inr, refl, sym, ap, Bool, Bool-cases, true, false, ◌&&◌, ◌==◌, Option, none,
  some, List, [], ◌∷◌, length, if◌then◌else◌, arith, replicate,
}
use rugix.Common.Result.{ok}
use rugix.Stlv.{BundleResult, write_tag, write_atom_head, write_value}
use rugix.Stlv.Skip.{Forest, done, leaf, AllWritable, write_forest}
use rugix.Chunker.Algorithm.{ChunkerAlgorithm, casync, fixed}
use rugix.BlockCodec.{bytes_eq, BlockEncoding}
use rugix.BlockCodec.Integrity.{bytes_eq_sound}
use rugix.Bundle.{
  NamedEncoding, PayloadHeader, Format, to_vec, payload_header_tag, payload_data_tag,
}
use rugix.Bundle.Tests.{whole_file}

abbrev pub second_header : NamedEncoding
second_header = record {
  hash_algorithm = 1;
  compression = some 0;
  blocks = record {
    chunker = casync 64;
    deduplicated = true;
    block_hashes = 7 ∷ 2 ∷ 9 ∷ 1 ∷ 9 ∷ 2 ∷ 9 ∷ [];
    block_sizes = some (7 ∷ 0 ∷ 0 ∷ 0 ∷ 3 ∷ 0 ∷ 0 ∷ 0 ∷ 2 ∷ []);
  };
}

abbrev pub third_header : NamedEncoding
third_header = record {
  hash_algorithm = 0;
  compression = none;
  blocks = record {
    chunker = fixed 1;
    deduplicated = false;
    block_hashes = 1 ∷ [];
    block_sizes = none;
  };
}

-- Headers that are told apart by what they are written as.
abbrev pub same_number : Option ℕ → Option ℕ → Bool
same_number none none = true
same_number none (some n) = false
same_number (some m) none = false
same_number (some m) (some n) = m == n

abbrev pub same_chunker : ChunkerAlgorithm → ChunkerAlgorithm → Bool
same_chunker (casync m) (casync n) = m == n
same_chunker (casync m) (fixed n) = false
same_chunker (fixed m) (casync n) = false
same_chunker (fixed m) (fixed n) = m == n

abbrev pub same_flag : Bool → Bool → Bool
same_flag true b = b
same_flag false true = false
same_flag false false = true

abbrev pub same_bytes : Option (List ℕ) → Option (List ℕ) → Bool
same_bytes none none = true
same_bytes none (some y) = false
same_bytes (some x) none = false
same_bytes (some x) (some y) = bytes_eq x y

abbrev pub same_blocks : BlockEncoding → BlockEncoding → Bool
same_blocks x y =
    same_chunker x.chunker y.chunker
    && (same_flag x.deduplicated y.deduplicated
        && (bytes_eq x.block_hashes y.block_hashes && same_bytes x.block_sizes y.block_sizes))

abbrev pub same_encoding : NamedEncoding → NamedEncoding → Bool
same_encoding x y =
    x.hash_algorithm == y.hash_algorithm
    && (same_number x.compression y.compression && same_blocks x.blocks y.blocks)

both : (a b : Bool) → (a && b) ≡ true → (a ≡ true) × (b ≡ true)
both true b h = (refl, h)
both false b h = cc

same_number-eq : (x y : Option ℕ) → same_number x y ≡ true → x ≡ y
same_number-eq none none h = refl
same_number-eq none (some n) h = cc
same_number-eq (some m) none h = cc
same_number-eq (some m) (some n) h = ap some (ground arith)

same_chunker-eq : (x y : ChunkerAlgorithm) → same_chunker x y ≡ true → x ≡ y
same_chunker-eq (casync m) (casync n) h = ap casync (ground arith)
same_chunker-eq (casync m) (fixed n) h = cc
same_chunker-eq (fixed m) (casync n) h = cc
same_chunker-eq (fixed m) (fixed n) h = ap fixed (ground arith)

same_flag-eq : (x y : Bool) → same_flag x y ≡ true → x ≡ y
same_flag-eq true y h = sym h
same_flag-eq false true h = cc
same_flag-eq false false h = refl

same_bytes-eq : (x y : Option (List ℕ)) → same_bytes x y ≡ true → x ≡ y
same_bytes-eq none none h = refl
same_bytes-eq none (some y) h = cc
same_bytes-eq (some x) none h = cc
same_bytes-eq (some x) (some y) h = ap some (bytes_eq_sound x y h)

same_blocks-eq : (x y : BlockEncoding) → same_blocks x y ≡ true → x ≡ y
same_blocks-eq x y h =
    let (c, h1) = both _ _ h in
    let (d, h2) = both _ _ h1 in
    let (b, s) = both _ _ h2 in
    let chunker = same_chunker-eq x.chunker y.chunker c in
    let flag = same_flag-eq x.deduplicated y.deduplicated d in
    let hashes = bytes_eq_sound x.block_hashes y.block_hashes b in
    let sizes = same_bytes-eq x.block_sizes y.block_sizes s in cc

same_encoding-eq : (x y : NamedEncoding) → same_encoding x y ≡ true → x ≡ y
same_encoding-eq x y h =
    let (n, h1) = both _ _ h in
    let (c, b) = both _ _ h1 in
    let name : x.hash_algorithm ≡ y.hash_algorithm = ground arith in
    let coder = same_number-eq x.compression y.compression c in
    let blocks = same_blocks-eq x.blocks y.blocks b in cc

abbrev pub field : ℕ → Forest
field n = leaf payload_data_tag (replicate n 0) done

abbrev pub encoding_fields : Option NamedEncoding → Forest
encoding_fields none = done
encoding_fields (some e) =
    if same_encoding e second_header
    then field 0
    else (if same_encoding e third_header then field 2 else field 1)

abbrev pub decoded_by : ℕ → PayloadHeader
decoded_by n =
    if n == 10
    then whole_file
    else (if n == 15
        then record { block_encoding = some second_header }
        else record { block_encoding = some third_header })

abbrev pub told_apart : Format PayloadHeader
told_apart = record {
  fields = λ x. encoding_fields x.block_encoding;
  decode_slice = λ raw. ok (decoded_by (length raw));
}

abbrev pub size : BundleResult (List ℕ) → ℕ
size (ok bytes) = length bytes
size _ = 0

pub header_decodes :
    (o : Option NamedEncoding) (raw : List ℕ)
    → length raw ≢ 16
    → to_vec told_apart payload_header_tag (record { block_encoding = o }) ≡ ok raw
    → AllWritable (encoding_fields o)
      × (told_apart.decode_slice raw ≡ ok (record { block_encoding = o }))
unfolding to_vec write_forest write_value write_atom_head write_tag
header_decodes none raw p e = let is : 10 ≡ length raw = ap size e in (tt, rw (← is) refl)
header_decodes (some x) raw p e = elim (Bool-cases (same_encoding x second_header)) [
  | inl y ↦
      let is : 15 ≡ length raw = ap size (rw y at e) in
      let same = same_encoding-eq x second_header y in rw (y, ← is, same) ((omega arith, tt), refl)
  | inr n ↦ elim (Bool-cases (same_encoding x third_header)) [
    | inl y ↦
        let is : 17 ≡ length raw = ap size (rw (n, y) at e) in
        let same = same_encoding-eq x third_header y in
        rw (n, y, ← is, same) ((omega arith, tt), refl)
    | inr m ↦ let is : 16 ≡ length raw = ap size (rw (n, m) at e) in absurd (p (sym is))
  ]
]
