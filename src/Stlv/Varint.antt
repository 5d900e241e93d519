-- ===== src/Stlv/Varint.antt =====
-- Variable-length integers: what is written is read back, and how reading wraps.
use rugix.Common.{
  ℕ, zero, suc, ◌+◌, ◌-◌, ◌*◌, ◌/◌, ◌%◌, ◌^◌, ◌≤◌, ◌<◌, ◌≡◌, ◌≢◌, ◌⊎◌, refl, ap, ◌∙◌, true, inl,
  inr, List, [], ◌∷◌, ◌++◌, ◌↔◌, arith, leb, ◌==◌, length, Bool-cases,
}
use native.Mathlib.Nat.{div-le_self, div-one, le_trans, pow-suc, pow-le-pow_right, mul-le-mul_right}
use rugix.Common.Arith.{shr, low_bits, shr_digit}
use rugix.Common.Result.{ok, panic}
use rugix.Stlv.Size.{shr-size, size_bounds, first_digit}
use rugix.Stlv.{
  read_varint_loop, read_varint, compute_varint_size, write_digits, write_varint, u64_max,
}

-- One round of the loop, on a digit that another follows and on the last one.
inner_digit :
    (m : ℕ) (s : List ℕ)
    → m < 2 ^ 63
    → m ≢ 0
    → read_varint_loop (m / 128) ((low_bits m 7 + 128) ∷ s) ≡ read_varint_loop m s
unfolding read_varint_loop
inner_digit m s h p =
    let test : shr (low_bits m 7 + 128) 7 % 2 ≡ 1 = omega arith in
    let same : m / 128 * 2 ^ 7 % 2 ^ 64 + low_bits (low_bits m 7 + 128) 7 ≡ m = omega arith in
    rw (test, same) (ground arith)

last_digit :
    (n : ℕ) (s : List ℕ) → n < 2 ^ 63 → read_varint_loop (n / 128) (low_bits n 7 ∷ s) ≡ ok (n, s)
unfolding read_varint_loop
last_digit n s h =
    let test : shr (low_bits n 7) 7 % 2 ≡ 0 = omega arith in
    let same : n / 128 * 2 ^ 7 % 2 ^ 64 + low_bits (low_bits n 7) 7 ≡ n = omega arith in
    rw (test, same) (ground arith)

-- Reading the digits of `n` from the digit `k` on, where all higher ones were read.
read_digits :
    (k n : ℕ) (rest : List ℕ)
    → n < 2 ^ 63
    → (k ≡ 0) ⊎ (0 < shr n (7 * k))
    → read_varint_loop (shr n (7 * suc k)) (write_digits k n ++ rest) ≡ ok (n, rest)
unfolding write_digits
read_digits zero n rest h p = rw (shr_digit n 0) (rw (div-one n) (last_digit n rest h))
read_digits (suc k) n rest h p =
    let low : shr n (7 * suc k) < 2 ^ 63 = omega (arith, div-le_self n (2 ^ (7 * suc k))) in
    let pos : shr n (7 * suc k) ≢ 0 = ground arith in
    let more : shr n (7 * k) ≢ 0 = ground (arith, shr_digit n k) in
    rw (shr_digit n (suc k), inner_digit (shr n (7 * suc k)) (write_digits k n ++ rest) low pos)
      (read_digits k n rest h (inr (omega arith)))

length-write_digits : (k n : ℕ) → length (write_digits k n) ≡ suc k
unfolding write_digits
length-write_digits zero n = refl
length-write_digits (suc k) n = ap suc (length-write_digits k n)

pub write_varint_digits :
    (n : ℕ) → n < 2 ^ 63 → write_varint n ≡ ok (write_digits (compute_varint_size n - 1) n)
unfolding write_varint
write_varint_digits n h = let fits : leb n (u64_max / 2) ≡ true = ground arith in rw fits

pub read_varint-write_digits :
    (n : ℕ) (rest : List ℕ)
    → n < 2 ^ 63
    → read_varint (write_digits (compute_varint_size n - 1) n ++ rest) ≡ ok (n, rest)
unfolding read_varint
read_varint-write_digits n rest h =
    let k = compute_varint_size n - 1 in
    let fits : n < 2 ^ 64 = omega arith in
    let one_more : compute_varint_size n ≡ suc k = omega (arith, size_bounds n fits) in
    let none_left : shr n (7 * suc k) ≡ 0 = rw (← one_more) (shr-size n fits) in
    rw none_left at (read_digits k n rest h (first_digit n fits k one_more))

-- Every integer of at most 63 bits is written without a panic, in as many bytes as
-- `compute_varint_size` says, at most 10, and is read back from these bytes, whatever follows them.
pub read_varint-write_varint :
    (n : ℕ) (rest : List ℕ)
    → n < 2 ^ 63
    → (bytes : List ℕ) × (write_varint n ≡ ok bytes)
      × (length bytes ≡ compute_varint_size n)
      × (length bytes ≤ 10)
      × (read_varint (bytes ++ rest) ≡ ok (n, rest))
read_varint-write_varint n rest h = (
  write_digits k n,
  write_varint_digits n h,
  omega (arith, length-write_digits k n, size_bounds n (omega arith)),
  omega (arith, length-write_digits k n, size_bounds n (omega arith)),
  read_varint-write_digits n rest h,
)
  where
    k : ℕ
    k = compute_varint_size n - 1

-- Writing is refused, by a panic, exactly for the integers that need 64 bits.
pub write_varint_panics : (n : ℕ) → (write_varint n ≡ panic) ↔ (2 ^ 63 ≤ n)
unfolding write_varint
write_varint_panics n = elim (Bool-cases (leb n (u64_max / 2))) [
  | inl e ↦ rw e (λ p. cc, λ p. absurd (ground arith))
  | inr e ↦ rw e (λ p. ground arith, λ p. refl)
]

-- The number that a string of digits of base 128 stands for, behind the digits of `acc`.
unfoldable pub digits_value : ℕ → List ℕ → ℕ
digits_value acc [] = acc
digits_value acc (d ∷ ds) = digits_value (acc * 128 + d % 128) ds

-- The bytes of a variable-length integer: all but the last have the continuation bit.
abbrev pub IsVarint : List ℕ → Type 0
IsVarint [] = ⊥
IsVarint (d ∷ []) = d / 128 % 2 ≡ 0
IsVarint (d ∷ e ∷ ds) = (d / 128 % 2 ≢ 0) × IsVarint (e ∷ ds)

digits_value-mod :
    (a b : ℕ) (ds : List ℕ)
    → a % 2 ^ 64 ≡ b % 2 ^ 64
    → digits_value a ds % 2 ^ 64 ≡ digits_value b ds % 2 ^ 64
unfolding digits_value
digits_value-mod a b [] h = h
digits_value-mod a b (d ∷ ds) h =
    digits_value-mod (a * 128 + d % 128) (b * 128 + d % 128) ds (omega arith)

widen : (a c p : ℕ) {q v : ℕ} → a + 1 ≤ c * 128 → v < (a + 1) * p → q ≡ p * 128 → v < c * q
widen a c p le lt e =
    let more : (a + 1) * p ≤ c * 128 * p = mul-le-mul_right p le in
    let same : c * 128 * p ≡ c * (p * 128) = omega arith in rw e (le_trans lt (rw same at more))

digits_value-lt : (acc : ℕ) (ds : List ℕ) → digits_value acc ds < (acc + 1) * 128 ^ length ds
unfolding digits_value
digits_value-lt acc [] = omega arith
digits_value-lt acc (d ∷ ds) =
    widen (acc * 128 + d % 128) (acc + 1) (128 ^ length ds) (omega arith)
      (digits_value-lt (acc * 128 + d % 128) ds) (pow-suc 128 (length ds))

abbrev Reads : ℕ → List ℕ → ℕ → List ℕ → Type 0
Reads acc s v rest =
    (ds : List ℕ) × (s ≡ ds ++ rest)
    × IsVarint ds
    × (v ≡ digits_value acc ds % 2 ^ 64)
    × (v < 2 ^ 63)

IsVarint-cons : (d : ℕ) (ds : List ℕ) → d / 128 % 2 ≢ 0 → IsVarint ds → IsVarint (d ∷ ds)
IsVarint-cons d [] h v = absurd v
IsVarint-cons d (e ∷ ds) h v = (h, v)

-- The value after one more byte.
abbrev next_value : ℕ → ℕ → ℕ
next_value acc d = acc * 2 ^ 7 % 2 ^ 64 + low_bits d 7

loop_last :
    (acc d : ℕ) (s : List ℕ) (v : ℕ) (rest : List ℕ)
    → shr d 7 % 2 ≡ 0
    → read_varint_loop acc (d ∷ s) ≡ ok (v, rest)
    → (v ≡ next_value acc d) × (v < 2 ^ 63) × (s ≡ rest)
unfolding read_varint_loop
loop_last acc d s v rest last h = ground arith

loop_more :
    (acc d : ℕ) (s : List ℕ) (v : ℕ) (rest : List ℕ)
    → shr d 7 % 2 ≢ 0
    → read_varint_loop acc (d ∷ s) ≡ ok (v, rest)
    → read_varint_loop (next_value acc d) s ≡ ok (v, rest)
unfolding read_varint_loop
loop_more acc d s v rest more h = ground arith

read_varint_loop-Reads :
    (acc : ℕ) (s : List ℕ) (v : ℕ) (rest : List ℕ)
    → read_varint_loop acc s ≡ ok (v, rest)
    → Reads acc s v rest
unfolding digits_value
read_varint_loop-Reads acc [] v rest h = unfold read_varint_loop in cc
read_varint_loop-Reads acc (d ∷ s) v rest h = elim (Bool-cases (shr d 7 % 2 == 0)) [
  | inl e ↦
      let last : shr d 7 % 2 ≡ 0 = ground arith in
      let (value, bound, left) = loop_last acc d s v rest last h in
      (d ∷ [], ap (λ t. d ∷ t) left, last, omega arith, bound)
  | inr e ↦
      let more : shr d 7 % 2 ≢ 0 = ground arith in
      let (ds, split, shape, value, bound) =
        read_varint_loop-Reads (next_value acc d) s v rest (loop_more acc d s v rest more h) in
      let same = digits_value-mod (next_value acc d) (acc * 128 + d % 128) ds (omega arith) in
      (d ∷ ds, ap (λ t. d ∷ t) split, IsVarint-cons d ds more shape, value ∙ same, bound)
]

-- Whatever `read_varint` accepts is a variable-length integer at the front of the source. The result
-- has at most 63 bits, and is the number that the digits stand for, modulo 2 ^ 64; with at most 9
-- bytes it is that number.
pub read_varint_reads :
    (s : List ℕ) (v : ℕ) (rest : List ℕ)
    → read_varint s ≡ ok (v, rest)
    → (ds : List ℕ) × (s ≡ ds ++ rest)
      × IsVarint ds
      × (v ≡ digits_value 0 ds % 2 ^ 64)
      × (v < 2 ^ 63)
      × (length ds ≤ 9 → v ≡ digits_value 0 ds)
unfolding read_varint
read_varint_reads s v rest h =
    let (ds, split, shape, value, bound) = read_varint_loop-Reads 0 s v rest h in
    (ds, split, shape, value, bound, λ short. exact ds value short)
  where
    exact : (ds : List ℕ) → v ≡ digits_value 0 ds % 2 ^ 64 → length ds ≤ 9 → v ≡ digits_value 0 ds
    exact ds value short = omega (
      arith,
      digits_value-lt 0 ds,
      pow-le-pow_right {n = 128} (omega arith) {i = length ds} {j = 9} short,
    )

-- An eleven-byte integer whose first digit is shifted out of the 64 bits is accepted.
abbrev pub overlong : ℕ → List ℕ
overlong d = 129 ∷ 128 ∷ 128 ∷ 128 ∷ 128 ∷ 128 ∷ 128 ∷ 128 ∷ 128 ∷ 128 ∷ d ∷ []

-- For every last byte `d` below 128 the overlong encoding of 2 ^ 70 + d reads as `d`, without an
-- error: the digits that do not fit into 64 bits are dropped.
pub read_varint_wraps :
    (d : ℕ) (rest : List ℕ)
    → d < 128
    → (read_varint (overlong d ++ rest) ≡ ok (d, rest)) × (digits_value 0 (overlong d) ≡ 2 ^ 70 + d)
unfolding read_varint read_varint_loop digits_value
read_varint_wraps d rest h = (ground arith, omega arith)
