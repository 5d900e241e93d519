-- ===== src/Common/Text.antt =====
-- What the program uses of Rust's strings, as lists of code points: equality, `trim`, `split_once`,
-- and the decimal and hexadecimal forms of integers of at most 32 bits.
use Prim.Native.Nat.{ℕ, zero, suc, ◌+◌, ◌-◌, ◌*◌, ◌/◌, ◌%◌, ◌^◌, ◌≤◌, ◌<◌}
use Prim.Native.Char.{code}
use Prim.Native.String.{String}
use mathlib.Core.Path.{◌≡◌, refl, ◌∙◌}
use mathlib.Core.Logic.{inl, inr, ◌≢◌}
use mathlib.Core.Bool.{Bool, true, false, ◌&&◌, ◌||◌}
use mathlib.Core.Option.{Option, none, some}
use mathlib.Core.List.{List, [], ◌∷◌, ◌++◌, append_assoc, append-nil}
use native.Mathlib.Omega.{arith}
use rugix.Common.{ltb, leb, ◌==◌, if◌then◌else◌, All, All-append, Bool-cases}
use native.Mathlib.Nat.{pow-suc}

abbrev pub Text : Type 0
Text = List ℕ

-- The code points of a literal.
abbrev pub text : String → Text
text String.[] = []
text (String.◌∷◌ c s) = code c ∷ text s

abbrev pub text_eq : Text → Text → Bool
text_eq [] [] = true
text_eq [] (d ∷ t) = false
text_eq (c ∷ s) [] = false
text_eq (c ∷ s) (d ∷ t) = c == d && text_eq s t

-- The property `White_Space` of Unicode.
unfoldable pub is_whitespace : ℕ → Bool
is_whitespace c =
    leb 9 c && leb c 13
    || (c == 32
        || (c == 0x85
            || (c == 0xA0
                || (c == 0x1680
                    || (leb 0x2000 c && leb c 0x200A
                        || (c == 0x2028
                            || (c == 0x2029 || (c == 0x202F || (c == 0x205F || c == 0x3000)))))))))

unfoldable pub trim_start : Text → Text
trim_start [] = []
trim_start (c ∷ s) = let rest = trim_start s in if is_whitespace c then rest else c ∷ s

-- `c` in front of a text whose end is trimmed.
unfoldable pub keep : ℕ → Text → Text
keep c [] = if is_whitespace c then [] else c ∷ []
keep c (d ∷ s) = c ∷ d ∷ s

unfoldable pub trim_end : Text → Text
trim_end [] = []
trim_end (c ∷ s) = keep c (trim_end s)

unfoldable pub trim : Text → Text
trim s = trim_end (trim_start s)

-- `u32::to_string`, which needs ten digits at most.
unfoldable pub decimal : ℕ → ℕ → Text
decimal zero n = []
decimal (suc digits) n =
    let more = decimal digits (n / 10) in
    if ltb n 10 then (48 + n) ∷ [] else more ++ (48 + n % 10) ∷ []

unfoldable pub to_string : ℕ → Text
unfolding decimal
to_string n = decimal 10 n

-- `format!("{:#x}", n)`, which needs eight digits at most.
unfoldable pub hex_digits : ℕ → ℕ → Text
hex_digits zero n = []
hex_digits (suc digits) n =
    let more = hex_digits digits (n / 16) in
    let digit = if ltb (n % 16) 10 then 48 + n % 16 else 87 + n % 16 in
    if ltb n 16 then digit ∷ [] else more ++ digit ∷ []

unfoldable pub to_hex : ℕ → Text
unfolding hex_digits
to_hex n = 48 ∷ 120 ∷ hex_digits 8 n

-- The printable characters of ASCII, but for the space and the equals sign.
abbrev pub IsPrintable : ℕ → Type 0
IsPrintable c = (32 < c) × (c < 127) × (c ≢ 61)

-- A text that needs no quotes.
abbrev pub IsPlain : Text → Type 0
IsPlain [] = ⊥
IsPlain (c ∷ s) = All IsPrintable (c ∷ s)

-- The loop of `from_str` of an unsigned integer below `bound`, at the number read so far.
unfoldable pub parse_digits : ℕ → ℕ → Text → Option ℕ
parse_digits bound n [] = some n
parse_digits bound n (c ∷ s) =
    let n' = n * 10 + (c - 48) in
    let rest = parse_digits bound n' s in
    if leb 48 c && leb c 57 then if ltb n' bound then rest else none else none

-- `from_str` of an unsigned integer below `bound`, which accepts one `+` in front of the digits.
unfoldable pub from_str : ℕ → Text → Option ℕ
from_str bound [] = none
from_str bound (c ∷ []) = parse_digits bound 0 (c ∷ [])
from_str bound (c ∷ d ∷ s) =
    if c == 43 then parse_digits bound 0 (d ∷ s) else parse_digits bound 0 (c ∷ d ∷ s)

-- `str::split_once` at a character.
abbrev pub cons_first : ℕ → Option (Text × Text) → Option (Text × Text)
cons_first c none = none
cons_first c (some (a, b)) = some (c ∷ a, b)

unfoldable pub split_once : ℕ → Text → Option (Text × Text)
split_once separator [] = none
split_once separator (c ∷ s) =
    let rest = cons_first c (split_once separator s) in
    if c == separator then some ([], s) else rest

abbrev IsDigit : ℕ → Type 0
IsDigit c = (48 ≤ c) × (c ≤ 57)

decimal-IsDigit : (digits n : ℕ) → All IsDigit (decimal digits n)
unfolding decimal
decimal-IsDigit zero n = tt
decimal-IsDigit (suc digits) n = elim (Bool-cases (ltb n 10)) [
  | inl e ↦ rw e ((omega arith, ground arith), tt)
  | inr e ↦ rw e (
      All-append IsDigit (decimal digits (n / 10)) _ (decimal-IsDigit digits (n / 10))
        ((omega arith, omega arith), tt))
]

module _ where
  keep_digit : (c : ℕ) (s : Text) → IsDigit c → keep c s ≡ c ∷ s
  unfolding keep is_whitespace
  keep_digit c [] h = ground arith
  keep_digit c (d ∷ s) h = refl

  trim_end-digits : (s : Text) → All IsDigit s → trim_end s ≡ s
  unfolding trim_end
  trim_end-digits [] h = refl
  trim_end-digits (c ∷ s) (d, h) = rw (trim_end-digits s h) (keep_digit c s d)

  trim_start-digits : (s : Text) → All IsDigit s → trim_start s ≡ s
  unfolding trim_start is_whitespace
  trim_start-digits [] h = refl
  trim_start-digits (c ∷ s) (d, h) = ground arith

pub trim-digit : (c : ℕ) → 48 ≤ c → c ≤ 57 → trim (c ∷ []) ≡ c ∷ []
unfolding trim
trim-digit c h k =
    rw (trim_start-digits (c ∷ []) ((h, k), tt)) (trim_end-digits (c ∷ []) ((h, k), tt))

parse_digit :
    (bound n : ℕ) (s : Text)
    → n < bound
    → parse_digits bound (n / 10) ((48 + n % 10) ∷ s) ≡ parse_digits bound n s
unfolding parse_digits
parse_digit bound n s h =
    let same : n / 10 * 10 + (48 + n % 10 - 48) ≡ n = omega arith in
    let low : leb 48 (48 + n % 10) ≡ true = ground arith in
    let high : leb (48 + n % 10) 57 ≡ true = ground arith in
    let fits : ltb n bound ≡ true = ground arith in rw (low, high, same, fits)

parse_digits-decimal :
    (bound digits n : ℕ) (s : Text)
    → n < bound
    → n < 10 ^ digits
    → parse_digits bound 0 (decimal digits n ++ s) ≡ parse_digits bound n s
unfolding decimal
parse_digits-decimal bound zero n s h k = let none_left : n ≡ 0 = omega arith in rw none_left
parse_digits-decimal bound (suc digits) n s h k = elim (Bool-cases (ltb n 10)) [
  | inl e ↦
      let high : n / 10 ≡ 0 = ground arith in
      let low : n % 10 ≡ n = ground arith in rw e (rw (high, low) at (parse_digit bound n s h))
  | inr e ↦
      rw (e, append_assoc (decimal digits (n / 10)) ((48 + n % 10) ∷ []) s)
        (parse_digits-decimal bound digits (n / 10) ((48 + n % 10) ∷ s) (omega arith)
            (omega (arith, pow-suc 10 digits))
          ∙ parse_digit bound n s h)
]

snoc-ne-nil : (s : Text) (c : ℕ) → s ++ c ∷ [] ≢ []
snoc-ne-nil [] c h = cc
snoc-ne-nil (d ∷ s) c h = cc

decimal-ne-nil : (digits n : ℕ) → decimal (suc digits) n ≢ []
unfolding decimal
decimal-ne-nil digits n = elim (Bool-cases (ltb n 10)) [
  | inl e ↦ rw e (λ h. cc)
  | inr e ↦ rw e (snoc-ne-nil (decimal digits (n / 10)) (48 + n % 10))
]

from_str-digits :
    (bound : ℕ) (s : Text) → All IsDigit s → s ≢ [] → from_str bound s ≡ parse_digits bound 0 s
unfolding from_str
from_str-digits bound [] h p = absurd (p refl)
from_str-digits bound (c ∷ []) h p = refl
from_str-digits bound (c ∷ d ∷ s) (digit, h) p = ground arith

-- An integer is read back from its decimal form.
pub from_str-to_string :
    (bound n : ℕ) → n < bound → bound ≤ 2 ^ 32 → from_str bound (to_string n) ≡ some n
unfolding to_string
from_str-to_string bound n h k =
    let all_read : parse_digits bound 0 (decimal 10 n ++ []) ≡ parse_digits bound n [] =
      parse_digits-decimal bound 10 n [] h (omega arith) in
    from_str-digits bound (decimal 10 n) (decimal-IsDigit 10 n) (decimal-ne-nil 9 n)
    ∙ (rw append-nil at all_read)
    ∙ unfold parse_digits in refl

pub trim-to_string : (n : ℕ) → trim (to_string n) ≡ to_string n
unfolding trim to_string
trim-to_string n =
    let digits = decimal-IsDigit 10 n in
    rw (trim_start-digits (decimal 10 n) digits) (trim_end-digits (decimal 10 n) digits)

parse_digits-below :
    (bound n m : ℕ) (s : Text) → n < bound → parse_digits bound n s ≡ some m → m < bound
unfolding parse_digits
parse_digits-below bound n m [] h e = ground arith
parse_digits-below bound n m (c ∷ s) h e = elim (Bool-cases (leb 48 c && leb c 57)) [
  | inl digit ↦ elim (Bool-cases (ltb (n * 10 + (c - 48)) bound)) [
    | inl fits ↦
        parse_digits-below bound (n * 10 + (c - 48)) m s (ground arith) (rw (digit, fits) at e)
    | inr over ↦ absurd (none_ne m (rw (digit, over) at e))
  ]
  | inr other ↦ absurd (none_ne m (rw other at e))
]
  where
    none_ne : (k : ℕ) → ◌≡◌ {A = Option ℕ} none (some k) → ⊥
    none_ne k p = cc

-- What is read is below the bound.
pub from_str-below : (bound m : ℕ) (s : Text) → 0 < bound → from_str bound s ≡ some m → m < bound
unfolding from_str
from_str-below bound m [] pos e = cc
from_str-below bound m (c ∷ []) pos e = parse_digits-below bound 0 m (c ∷ []) pos e
from_str-below bound m (c ∷ d ∷ s) pos e = elim (Bool-cases (c == 43)) [
  | inl plus ↦ parse_digits-below bound 0 m (d ∷ s) pos (rw plus at e)
  | inr digits ↦ parse_digits-below bound 0 m (c ∷ d ∷ s) pos (rw digits at e)
]

All-IsPlain : (s : Text) → All IsPrintable s → s ≢ [] → IsPlain s
All-IsPlain [] h p = absurd (p refl)
All-IsPlain (c ∷ s) h p = h

digits-IsPrintable : (s : Text) → All IsDigit s → All IsPrintable s
digits-IsPrintable [] h = tt
digits-IsPrintable (c ∷ s) (d, h) =
    ((omega arith, omega arith, omega arith), digits-IsPrintable s h)

pub to_string-IsPlain : (n : ℕ) → IsPlain (to_string n)
unfolding to_string
to_string-IsPlain n =
    All-IsPlain (decimal 10 n) (digits-IsPrintable (decimal 10 n) (decimal-IsDigit 10 n))
      (decimal-ne-nil 9 n)

hex_digits-IsPrintable : (digits n : ℕ) → All IsPrintable (hex_digits digits n)
unfolding hex_digits
hex_digits-IsPrintable zero n = tt
hex_digits-IsPrintable (suc digits) n = elim (Bool-cases (ltb n 16)) [
  | inl e ↦ rw e (ground arith, tt)
  | inr e ↦ rw e (
      All-append IsPrintable (hex_digits digits (n / 16)) _ (hex_digits-IsPrintable digits (n / 16))
        (ground arith, tt))
]

pub to_hex-IsPlain : (n : ℕ) → IsPlain (to_hex n)
unfolding to_hex
to_hex-IsPlain n = (
  (omega arith, omega arith, omega arith),
  ((omega arith, omega arith, omega arith), hex_digits-IsPrintable 8 n),
)
