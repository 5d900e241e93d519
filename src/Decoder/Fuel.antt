-- ===== src/Decoder/Fuel.antt =====
-- Skipping with the decoder ends on every input: its fuel is never used up.
use rugix.Common.{
  ℕ, zero, suc, ◌≤◌, ◌<◌, ◌≡◌, ◌≢◌, refl, ap, inl, inr, Option, none, some, arith, length,
  Bool-cases, length-append, length-drop,
}
use rugix.Common.Result.{ok, err, panic, out_of_fuel, ◌>>=◌}
use rugix.Stlv.{
  BundleResult, Source, Tag, AtomHead, value, start, end, read_atom_head, skip_bytes, tag_eq,
}
use rugix.Stlv.Head.{read_atom_head_takes}
use rugix.Stlv.Fuel.{read_atom_head-Ends}
use rugix.Decoder.{
  Decoder, check_and_subtract_size, enter_atom, take_head, next_atom_head, skip_value, skip_round,
  skip_segment, skip, is_none,
}

-- A result that is no lack of fuel, and whose decoder has at most `n` bytes left.
abbrev Leaves : ℕ → BundleResult Decoder → Type 0
Leaves n (ok d) = length d.source ≤ n
Leaves n (err e) = Unit
Leaves n panic = Unit
Leaves n out_of_fuel = ⊥

abbrev Heads : ℕ → BundleResult (AtomHead × Decoder) → Type 0
Heads n (ok r) = length r.1.source < n
Heads n (err e) = Unit
Heads n panic = Unit
Heads n out_of_fuel = ⊥

>>=-Leaves :
    (n m : ℕ) (r : BundleResult Decoder) (f : Decoder → BundleResult Decoder)
    → Leaves n r
    → ((d : Decoder) → length d.source ≤ n → Leaves m (f d))
    → Leaves m (r >>= f)
>>=-Leaves n m (ok d) f h k = k d h
>>=-Leaves n m (err e) f h k = tt
>>=-Leaves n m panic f h k = tt
>>=-Leaves n m out_of_fuel f h k = h

head-Leaves :
    (n m : ℕ) (r : BundleResult (AtomHead × Decoder))
    (f : AtomHead × Decoder → BundleResult Decoder)
    → Heads n r
    → ((a : AtomHead × Decoder) → length a.1.source < n → Leaves m (f a))
    → Leaves m (r >>= f)
head-Leaves n m (ok a) f h k = k a h
head-Leaves n m (err e) f h k = tt
head-Leaves n m panic f h k = tt
head-Leaves n m out_of_fuel f h k = h

take_head-Heads :
    (n : ℕ) (head : AtomHead) (d : Decoder)
    → length d.source < n
    → Heads n (take_head (some head) d)
unfolding take_head check_and_subtract_size enter_atom
take_head-Heads n (value t k) d h = ground arith
take_head-Heads n (start t) d h = ground arith
take_head-Heads n (end t) d h = ground arith

read-Heads :
    (d : Decoder) (m : BundleResult (Option AtomHead × Source))
    → read_atom_head d.source ≡ m
    → Heads (length d.source) (m >>= λ r. take_head r.0 (record d { source = r.1 }))
unfolding take_head
read-Heads d (ok (none, s)) e = tt
read-Heads d (ok (some head, s)) e =
    let (taken, split, five) = read_atom_head_takes d.source head s e in
    take_head-Heads (length d.source) head (record d { source = s })
      (omega (arith, ap length split, length-append taken s))
read-Heads d (err e') e = tt
read-Heads d panic e = tt
read-Heads d out_of_fuel e = read_atom_head-Ends d.source e

next_atom_head-Heads : (d : Decoder) → Heads (length d.source) (next_atom_head d)
unfolding next_atom_head
next_atom_head-Heads d = elim (Bool-cases (is_none d.value_length)) [
  | inl e ↦ rw e (read-Heads d (read_atom_head d.source) refl)
  | inr e ↦ rw e tt
]

skip_value-Leaves : (d : Decoder) → Leaves (length d.source) (skip_value d)
unfolding skip_value skip_bytes
skip_value-Leaves d = by_length d.value_length
  where
    by_length :
        (o : Option ℕ) → Leaves (length d.source) (skip_value (record d { value_length = o }))
    by_length none = tt
    by_length (some n) = ground (arith, length-drop n d.source)

-- `inner` ends, and takes no bytes away, on decoders with fewer than `n` bytes.
abbrev SkipsBelow : ℕ → (Tag → Decoder → BundleResult Decoder) → Type 0
SkipsBelow n inner =
    (t : Tag) (d : Decoder) → length d.source < n → Leaves (length d.source) (inner t d)

Leaves-le : (n m : ℕ) (r : BundleResult Decoder) → n ≤ m → Leaves n r → Leaves m r
Leaves-le n m (ok d) h w = omega arith
Leaves-le n m (err e) h w = tt
Leaves-le n m panic h w = tt
Leaves-le n m out_of_fuel h w = w

module _ (fuel : ℕ) (inner : Tag → Decoder → BundleResult Decoder)
    (ih : SkipsBelow fuel inner) where
  go_on :
      (tag : Tag) (n : ℕ) (r : BundleResult Decoder)
      → n < fuel
      → Leaves n r
      → Leaves n (r >>= inner tag)
  go_on tag n r h w =
      >>=-Leaves n n r (inner tag) w
        (λ d le. Leaves-le (length d.source) n (inner tag d) le (ih tag d (omega arith)))

  skip_round-Leaves :
      (tag : Tag) (head : AtomHead) (d : Decoder)
      → length d.source < fuel
      → Leaves (length d.source) (skip_round inner tag head d)
  unfolding skip_round
  skip_round-Leaves tag (value t n) d h =
      go_on tag (length d.source) (skip_value d) h (skip_value-Leaves d)
  skip_round-Leaves tag (start t) d h = go_on tag (length d.source) (inner t d) h (ih t d h)
  skip_round-Leaves tag (end t) d h = elim (Bool-cases (tag_eq t tag)) [
    | inl e ↦ rw e (omega arith)
    | inr e ↦ rw e tt
  ]

skip_segment-Leaves : (fuel : ℕ) → SkipsBelow fuel (skip_segment fuel)
unfolding skip_segment
skip_segment-Leaves zero t d h = absurd (omega arith)
skip_segment-Leaves (suc fuel) t d h =
    head-Leaves (length d.source) (length d.source) (next_atom_head d) _ (next_atom_head-Heads d)
      (λ a shorter. Leaves-le (length a.1.source) (length d.source) _ (omega arith) (
        skip_round-Leaves fuel (skip_segment fuel) (skip_segment-Leaves fuel) t a.0 a.1
          (omega arith)))

Leaves-ends : (n : ℕ) (r : BundleResult Decoder) → Leaves n r → r ≢ out_of_fuel
Leaves-ends n (ok s) w = λ p. cc
Leaves-ends n (err e) w = λ p. cc
Leaves-ends n panic w = λ p. cc
Leaves-ends n out_of_fuel w = absurd w

-- The decoder's `skip` returns for every head and every decoder, well formed or not.
pub skip-ends : (head : AtomHead) (d : Decoder) → skip head d ≢ out_of_fuel
unfolding skip
skip-ends (value t n) d = Leaves-ends (length d.source) _ (skip_value-Leaves d)
skip-ends (start t) d =
    Leaves-ends (length d.source) _ (skip_segment-Leaves (suc (length d.source)) t d (omega arith))
skip-ends (end t) d = λ p. cc
