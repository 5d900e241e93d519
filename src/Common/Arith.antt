-- ===== src/Common/Arith.antt =====
-- Powers, quotients and bit lengths of the native numbers.
use Prim.Native.Nat.{ℕ, zero, suc, ◌+◌, ◌-◌, ◌*◌, ◌/◌, ◌%◌, ◌^◌, ◌≤◌, ◌<◌}
use mathlib.Core.Path.{◌≡◌, refl, sym}
use native.Mathlib.Nat.{pow-suc, div-div-eq-div-mul}
use native.Mathlib.Omega.{arith}
use mathlib.Core.Logic.{◌⊎◌, inl, inr}
use rugix.Common.Tests.{◌==◌, if◌then◌else◌, Bool-cases}

-- Shifts and masks, in the form that the arithmetic tactics read.
abbrev pub shr : ℕ → ℕ → ℕ
shr x k = x / 2 ^ k

-- `x & (2 ^ k - 1)`
abbrev pub low_bits : ℕ → ℕ → ℕ
low_bits x k = x % 2 ^ k

-- `u64::div_ceil`
abbrev pub div_ceil : ℕ → ℕ → ℕ
div_ceil a b = if a % b == 0 then a / b else a / b + 1

-- The number of bits of `n`, for `n` below `2 ^ fuel`.
unfoldable pub bit_length : ℕ → ℕ → ℕ
bit_length zero n = 0
bit_length (suc f) n = if n == 0 then 0 else suc (bit_length f (n / 2))

-- `u64::leading_zeros`
unfoldable pub leading_zeros : ℕ → ℕ
unfolding bit_length
leading_zeros n = 64 - bit_length 64 n

pub pow7 : (k : ℕ) → 2 ^ (7 * k) ≡ 128 ^ k
pow7 zero = refl
pow7 (suc k) =
    let step : 7 * suc k ≡ suc (suc (suc (suc (suc (suc (suc (7 * k))))))) = omega arith in
    rw (step) (simp pow-suc (omega (arith, pow7 k)))

-- Dropping one more digit of base 128.
pub shr_digit : (n k : ℕ) → shr n (7 * suc k) ≡ shr n (7 * k) / 128
shr_digit n k = rw (pow7 (suc k), pow7 k, pow-suc 128 k) (sym (div-div-eq-div-mul n (128 ^ k) 128))

pub bit_length-zero : (f : ℕ) → bit_length f 0 ≡ 0
unfolding bit_length
bit_length-zero zero = refl
bit_length-zero (suc f) = refl

module _ (f n : ℕ) where
  low_half : n / 2 ≡ 0 → 2 ^ bit_length f (n / 2) ≡ 1
  low_half e = rw (e, bit_length-zero f)

pub bit_length_bounds :
    (f n : ℕ)
    → n < 2 ^ f
    → (n < 2 ^ bit_length f n) × (bit_length f n ≤ f) × ((n ≡ 0) ⊎ (2 ^ bit_length f n ≤ 2 * n))
unfolding bit_length
bit_length_bounds zero n h = (omega arith, omega arith, inl (omega arith))
bit_length_bounds (suc f) n h = elim (Bool-cases (n == 0)) [
  | inl z ↦ ground arith
  | inr p ↦
      let (upper, bound, lower) = bit_length_bounds f (n / 2) (omega (arith, pow-suc 2 f)) in
      rw (p, pow-suc 2 (bit_length f (n / 2)))
        (omega arith, omega arith, inr (ground (arith, low_half f n)))
]
