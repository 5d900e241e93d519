-- ===== src/Stlv/Head.antt =====
-- Atom heads: sizes, and what is written is read back.
use rugix.Common.{
  ℕ, ◌+◌, ◌-◌, ◌%◌, ◌^◌, ◌≤◌, ◌<◌, ◌≡◌, refl, ◌∙◌, true, inl, inr, some, List, [], ◌∷◌, ◌++◌, ◌↔◌,
  arith, leb, ◌==◌, length, Bool-cases, min,
}
use rugix.Common.Arith.{shr, low_bits}
use rugix.Common.Result.{ok, panic, ◌>>=◌, >>=-eq-ok}
use rugix.Stlv.Varint.{read_varint-write_varint, write_varint_panics, read_varint_reads}
use rugix.Stlv.{
  AtomHead, value, start, end, Tag, Source, read_varint, read_atom_head, write_atom_head, head_size,
  read_indicator, read_length, is_value_mask, is_start_mask, write_tag,
}

-- The lengths that a head can be written with.
abbrev pub IsWritable : AtomHead → Type 0
IsWritable (value t n) = n < 2 ^ 63 + 127
IsWritable _ = Unit {0}

read_atom_head_tag :
    (t : Tag) (indicator : ℕ) (s : Source)
    → read_atom_head (write_tag t ++ indicator ∷ s)
      ≡ (read_indicator t indicator s >>= λ r. ok (some r.0, r.1))
unfolding read_atom_head write_tag
read_atom_head_tag t indicator s = refl

module _ (t : Tag) where
  indicator_short :
      (n : ℕ) (s : Source) → n < 127 → read_indicator t (is_value_mask + n) s ≡ ok (value t n, s)
  unfolding read_indicator
  indicator_short n s h =
      let test : shr (is_value_mask + n) 7 % 2 ≡ 1 = omega arith in
      let low : low_bits (is_value_mask + n) 7 ≡ n = omega arith in rw (test, low) (ground arith)

  indicator_long :
      (m : ℕ) (s s' : Source)
      → read_varint s ≡ ok (m, s')
      → read_indicator t 255 s ≡ ok (value t (127 + m), s')
  unfolding read_indicator
  indicator_long m s s' e = rw e

-- What is written is read back, in as many bytes as `head_size` says.
abbrev RoundTrips : AtomHead → Source → Type 0
RoundTrips head rest =
    (bytes : List ℕ) × (write_atom_head head ≡ ok bytes)
    × (length bytes ≡ head_size head)
    × (read_atom_head (bytes ++ rest) ≡ ok (some head, rest))

value_round_trip :
    (t : Tag) (n : ℕ) (rest : Source) → n < 2 ^ 63 + 127 → RoundTrips (value t n) rest
unfolding write_atom_head head_size
value_round_trip t n rest h = elim (Bool-cases (leb 127 n)) [
  | inl long ↦
      let (ds, w, l, _, r) = read_varint-write_varint (n - 127) rest (omega arith) in
      let full : min n 127 ≡ 127 = ground arith in
      let same : 127 + (n - 127) ≡ n = ground arith in
      rw (long, w, full)
        (
          write_tag t ++ 255 ∷ ds,
          refl,
          omega (arith, l),
          read_atom_head_tag t 255 (ds ++ rest)
              ∙ rw (indicator_long t (n - 127) (ds ++ rest) rest r, same),
        )
  | inr short ↦
      let whole : min n 127 ≡ n = ground arith in
      rw (short, whole)
        (
          write_tag t ++ (is_value_mask + n) ∷ [],
          refl,
          omega arith,
          read_atom_head_tag t (is_value_mask + n) rest
              ∙ rw (indicator_short t n rest (ground arith)),
        )
]

-- Every head whose length is below 2 ^ 63 + 127 is written without a panic, in `head_size` bytes,
-- and is read back from them, whatever follows.
pub read_atom_head-write_atom_head :
    (head : AtomHead) (rest : Source)
    → IsWritable head
    → (bytes : List ℕ) × (write_atom_head head ≡ ok bytes)
      × (length bytes ≡ head_size head)
      × (read_atom_head (bytes ++ rest) ≡ ok (some head, rest))
unfolding write_atom_head head_size
read_atom_head-write_atom_head (value t n) rest h = value_round_trip t n rest h
read_atom_head-write_atom_head (start t) rest h =
    (write_tag t ++ is_start_mask ∷ [], refl, refl, unfold read_atom_head in refl)
read_atom_head-write_atom_head (end t) rest h =
    (write_tag t ++ 0 ∷ [], refl, refl, unfold read_atom_head in refl)

-- A head is refused, by a panic, exactly if its length is 2 ^ 63 + 127 or more.
pub write_atom_head_panics :
    (head : AtomHead) → (write_atom_head head ≡ panic) ↔ (¬ IsWritable head)
unfolding write_atom_head
write_atom_head_panics (value t n) = (
  λ p small. let (bytes, w, _, _) = value_round_trip t n [] small in cc,
  λ large.
      let long : leb 127 n ≡ true = ground arith in
      let big : 2 ^ 63 ≤ n - 127 = ground arith in rw (long, (write_varint_panics (n - 127)).1 big),
)
write_atom_head_panics (start t) = (λ p. cc, λ no_unit. absurd (no_unit tt))
write_atom_head_panics (end t) = (λ p. cc, λ no_unit. absurd (no_unit tt))

-- `rest` is what a read leaves of `s`.
abbrev pub IsSuffixOf : Source → Source → Type 0
IsSuffixOf rest s = (taken : List ℕ) × (s ≡ taken ++ rest)

length_suffix :
    (n : ℕ) (s : Source) (m : ℕ) (rest : Source)
    → read_length n s ≡ ok (m, rest)
    → IsSuffixOf rest s
unfolding read_length
length_suffix n s m rest h = elim (Bool-cases (n == 127)) [
  | inr short ↦ ([], ground arith)
  | inl long ↦
      let (a, e, f) = >>=-eq-ok (read_varint s) (λ r. ok (n + r.0, r.1)) (rw long at h) in
      let (ds, split, _, _, _, _) = read_varint_reads s a.0 a.1 e in (ds, ground arith)
]

indicator_suffix :
    (t : Tag) (i : ℕ) (s : Source) (head : AtomHead) (rest : Source)
    → read_indicator t i s ≡ ok (head, rest)
    → IsSuffixOf rest s
unfolding read_indicator
indicator_suffix t i s head rest h = elim (Bool-cases (shr i 7 % 2 == 1)) [
  | inr segment ↦ ([], ground arith)
  | inl v ↦
      let (a, e, f) =
        >>=-eq-ok (read_length (low_bits i 7) s) (λ r. ok (value t r.0, r.1)) (rw v at h) in
      let (ds, split) = length_suffix (low_bits i 7) s a.0 a.1 e in (ds, ground arith)
]

-- Reading a head takes at least five bytes off the front of the source.
pub read_atom_head_takes :
    (s : Source) (head : AtomHead) (rest : Source)
    → read_atom_head s ≡ ok (some head, rest)
    → (taken : List ℕ) × (s ≡ taken ++ rest) × (5 ≤ length taken)
unfolding read_atom_head
read_atom_head_takes [] head rest h = cc
read_atom_head_takes (b0 ∷ []) head rest h = cc
read_atom_head_takes (b0 ∷ b1 ∷ []) head rest h = cc
read_atom_head_takes (b0 ∷ b1 ∷ b2 ∷ []) head rest h = cc
read_atom_head_takes (b0 ∷ b1 ∷ b2 ∷ b3 ∷ []) head rest h = cc
read_atom_head_takes (b0 ∷ b1 ∷ b2 ∷ b3 ∷ i ∷ s) head rest h =
    let t : Tag = record { b0 = b0; b1 = b1; b2 = b2; b3 = b3 } in
    let (a, e, f) = >>=-eq-ok (read_indicator t i s) (λ r. ok (some r.0, r.1)) h in
    let (ds, split) = indicator_suffix t i s a.0 a.1 e in
    (b0 ∷ b1 ∷ b2 ∷ b3 ∷ i ∷ ds, ground arith, ground arith)
