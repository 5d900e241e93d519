-- ===== src/UbootEnv/Tests.antt =====
-- An encoding that accepts ASCII, and an environment.
use rugix.Common.{ℕ, zero, ◌+◌, ◌%◌, ◌<◌, ◌≡◌, refl, Bool, true, ◌&&◌, [], ◌∷◌, All, ltb, arith}
use rugix.Common.Text.{Text, text}
use rugix.Common.Result.{ok}
use rugix.GrubEnv.{Env, contains}
use rugix.UbootEnv.{Encoding, to_bytes, from_bytes}
use rugix.UbootEnv.Roundtrip.{from_bytes-to_bytes}

abbrev pub sum : Text → ℕ
sum [] = zero
sum (b ∷ bytes) = b + sum bytes

abbrev pub is_ascii : Text → Bool
is_ascii [] = true
is_ascii (b ∷ bytes) = ltb b 128 && is_ascii bytes

pub All-is_ascii : (bytes : Text) → All (λ b. b < 128) bytes → is_ascii bytes ≡ true
All-is_ascii [] h = refl
All-is_ascii (b ∷ bytes) (small, h) = let ih = All-is_ascii bytes h in ground arith

abbrev pub ascii_only : Encoding
ascii_only = record {
  crc32 = λ bytes. sum bytes % 256 ∷ 0 ∷ 0 ∷ 0 ∷ [];
  from_utf8 = is_ascii;
  length-crc32 = λ bytes. refl;
  from_utf8-ascii = All-is_ascii;
}

abbrev env : Env
env =
    (text "bootpart", text "2") ∷ (text "bootargs", text "root=/dev/sda2") ∷ (text "empty", []) ∷ []

from_bytes-to_bytes_example : from_bytes ascii_only (to_bytes ascii_only env) ≡ ok env
unfolding contains
from_bytes-to_bytes_example =
    from_bytes-to_bytes ascii_only env
      ((refl, refl, refl, refl), ((refl, refl, refl, refl), ((refl, refl, refl, refl), tt)))
      ((refl, (refl, tt)), ((refl, tt), (tt, tt)))
