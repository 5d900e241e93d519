-- ===== src/Chunker/Names.antt =====
-- crates/libs/rugix-chunker/src/lib.rs: the names of the algorithms, `Display` and `FromStr`.
use rugix.Common.{
  ℕ, ◌^◌, ◌<◌, ◌≡◌, refl, inl, inr, Option, none, some, ◌++◌, arith, if◌then◌else◌, Bool-cases,
}
use rugix.Common.Result.{Result, ok, err, ◌>>=◌, ok_or, >>=-eq-ok}
use rugix.Common.Text.{
  Text, text, text_eq, split_once, from_str, to_string, from_str-to_string, from_str-below,
}
use rugix.Chunker.Algorithm.{ChunkerAlgorithm, casync, fixed}

-- `InvalidChunkerAlgorithmError`, by its reason.
pub data InvalidChunkerAlgorithm : Type 0 where
  missing_delimiter : InvalidChunkerAlgorithm
  invalid_kind : InvalidChunkerAlgorithm
  invalid_options_for_fixed : InvalidChunkerAlgorithm
  invalid_options_for_casync : InvalidChunkerAlgorithm

-- `Display::fmt`
unfoldable pub to_text : ChunkerAlgorithm → Text
to_text (casync kib) = text "casync-" ++ to_string kib
to_text (fixed kib) = text "fixed-" ++ to_string kib

-- The kinds of algorithms behind a successful split; sizes are `u16`.
unfoldable pub from_parts : Text → Text → Result InvalidChunkerAlgorithm ChunkerAlgorithm
from_parts kind options =
    if text_eq kind (text "fixed")
    then (do kib ← ok_or (from_str (2 ^ 16) options) invalid_options_for_fixed; ok (fixed kib))
    else if text_eq kind (text "casync")
    then (do kib ← ok_or (from_str (2 ^ 16) options) invalid_options_for_casync; ok (casync kib))
    else err invalid_kind

-- `FromStr::from_str`
unfoldable pub from_text : Text → Result InvalidChunkerAlgorithm ChunkerAlgorithm
from_text s = do
  (kind, options) ← ok_or (split_once 45 s) missing_delimiter
  from_parts kind options

abbrev pub size_of : ChunkerAlgorithm → ℕ
size_of (casync kib) = kib
size_of (fixed kib) = kib

-- Every algorithm, with a size of 16 bits, is read back from its name.
pub from_text-to_text : (a : ChunkerAlgorithm) → size_of a < 2 ^ 16 → from_text (to_text a) ≡ ok a
unfolding from_text to_text from_parts split_once
from_text-to_text (casync kib) h = rw (from_str-to_string (2 ^ 16) kib h (omega arith)) refl
from_text-to_text (fixed kib) h = rw (from_str-to_string (2 ^ 16) kib h (omega arith)) refl

sized :
    (options : Text) (e : InvalidChunkerAlgorithm) (kib : ℕ)
    → ok_or (from_str (2 ^ 16) options) e ≡ ok kib
    → kib < 2 ^ 16
sized options e kib h = by_result (from_str (2 ^ 16) options) refl h
  where
    by_result : (r : Option ℕ) → from_str (2 ^ 16) options ≡ r → ok_or r e ≡ ok kib → kib < 2 ^ 16
    by_result none p q = cc
    by_result (some n) p q =
        let same : n ≡ kib = cc in rw (← same) (from_str-below (2 ^ 16) n options (omega arith) p)

from_parts-sized :
    (kind options : Text) (a : ChunkerAlgorithm)
    → from_parts kind options ≡ ok a
    → size_of a < 2 ^ 16
unfolding from_parts
from_parts-sized kind options a h = elim (Bool-cases (text_eq kind (text "fixed"))) [
  | inl e ↦
      let (kib, read, same) =
        >>=-eq-ok (ok_or (from_str (2 ^ 16) options) invalid_options_for_fixed) (λ n. ok (fixed n))
          (rw e at h) in
      let equal : fixed kib ≡ a = cc in
      rw (← equal) (sized options invalid_options_for_fixed kib read)
  | inr e ↦ elim (Bool-cases (text_eq kind (text "casync"))) [
    | inl f ↦
        let (kib, read, same) =
          >>=-eq-ok (ok_or (from_str (2 ^ 16) options) invalid_options_for_casync)
            (λ n. ok (casync n)) (rw (e, f) at h) in
        let equal : casync kib ≡ a = cc in
        rw (← equal) (sized options invalid_options_for_casync kib read)
    | inr f ↦ absurd (no_kind (rw (e, f) at h))
  ]
]
  where
    no_kind :
        ◌≡◌ {A = Result InvalidChunkerAlgorithm ChunkerAlgorithm} (err invalid_kind) (ok a) → ⊥
    no_kind p = cc

-- Whatever name is accepted, the size of its algorithm has 16 bits.
pub from_text-sized : (s : Text) (a : ChunkerAlgorithm) → from_text s ≡ ok a → size_of a < 2 ^ 16
unfolding from_text
from_text-sized s a h =
    let (parts, split, made) =
      >>=-eq-ok (ok_or (split_once 45 s) missing_delimiter) (λ p. from_parts p.0 p.1) h in
    from_parts-sized parts.0 parts.1 a made
