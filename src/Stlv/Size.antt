-- ===== src/Stlv/Size.antt =====
-- The size that `compute_varint_size` gives is the number of digits of base 128.
use rugix.Common.{
  ℕ, suc, ◌+◌, ◌-◌, ◌*◌, ◌^◌, ◌≤◌, ◌<◌, ◌≡◌, ◌⊎◌, inl, inr, arith, ◌==◌, if◌then◌else◌,
}
use native.Mathlib.Nat.{
  pow-le-pow_right, pow-suc, le-div_iff_mul-le, le_trans, div-eq_of_lt, one-le-pow, one-mul,
}
use rugix.Common.Arith.{
  shr, div_ceil, leading_zeros, bit_length, bit_length-zero, bit_length_bounds,
}
use rugix.Stlv.{compute_varint_size}

abbrev digits_of_bits : ℕ → ℕ
digits_of_bits bits = if bits == 0 then 1 else div_ceil bits 7

digits_of_bits_bounds :
    (l : ℕ)
    → l ≤ 64
    → let s = digits_of_bits l in ((7 * s < l + 7) ⊎ (s ≡ 1)) × (l ≤ 7 * s) × (1 ≤ s) × (s ≤ 10)
digits_of_bits_bounds l h = ground arith

-- An integer that needs `l` bits is at least `2 ^ (l - 1)`.
bits_pos : (n l : ℕ) → 2 ^ l ≤ 2 * n → (j : ℕ) → j < l → 2 ^ j ≤ n
bits_pos n l h j p =
    omega (arith, pow-suc 2 j, pow-le-pow_right {n = 2} (omega arith) {i = suc j} {j = l} p)

module _ (n : ℕ) (h : n < 2 ^ 64) where
  abbrev bits : ℕ
  bits = bit_length 64 n

  abbrev size : ℕ
  size = compute_varint_size n

  size-bits : size ≡ digits_of_bits bits
  unfolding compute_varint_size leading_zeros
  size-bits =
      let same : 64 - (64 - bits) ≡ bits = omega (arith, bit_length_bounds 64 n h) in rw same

  bounds : ((7 * size < bits + 7) ⊎ (size ≡ 1)) × (bits ≤ 7 * size) × (1 ≤ size) × (size ≤ 10)
  bounds = rw size-bits (digits_of_bits_bounds bits (omega (arith, bit_length_bounds 64 n h)))

  -- All digits fit.
  pub shr-size : shr n (7 * size) ≡ 0
  shr-size =
      div-eq_of_lt (le_trans (bit_length_bounds 64 n h).0 (pow-le-pow_right (omega arith) bounds.1))

  pub size_bounds : (1 ≤ size) × (size ≤ 10)
  size_bounds = (bounds.2, bounds.3)

  -- The first digit is not 0, unless it is the only one.
  pub first_digit : (k : ℕ) → size ≡ suc k → (k ≡ 0) ⊎ (0 < shr n (7 * k))
  first_digit k e = elim bounds.0 [
    | inr one ↦ inl (omega arith)
    | inl more ↦ elim (bit_length_bounds 64 n h).2 [
      | inl none ↦ inl (ground (arith, bits_of_zero none))
      | inr low ↦ inr (at_least (bits_pos n bits low (7 * k) (omega arith)))
    ]
  ]
    where
      bits_of_zero : n ≡ 0 → bits ≡ 0
      bits_of_zero z = rw z (bit_length-zero 64)

      at_least : 2 ^ (7 * k) ≤ n → 0 < shr n (7 * k)
      at_least p = (le-div_iff_mul-le (one-le-pow (7 * k) 2 (omega arith))).1 (rw one-mul p)
