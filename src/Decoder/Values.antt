-- ===== src/Decoder/Values.antt =====
-- Decoding what was encoded, within the limit on the bytes and beyond it.
use rugix.Common.{
  ℕ, zero, suc, ◌+◌, ◌-◌, ◌*◌, ◌/◌, ◌%◌, ◌^◌, ◌<◌, ◌≡◌, refl, ap, sym, ◌∙◌, Bool, true, false, inl,
  inr, some, List, [], ◌∷◌, ◌++◌, arith, ltb, leb, ◌==◌, if◌then◌else◌, length, Bool-cases,
  length-append, append_assoc, append-nil, drop-length_append, take-length_append,
}
use native.Mathlib.Nat.{pow-suc}
use rugix.Common.Result.{Result, ok, err, panic, out_of_fuel, ◌>>=◌}
use rugix.Stlv.{
  BundleResult, Error, Source, Tag, AtomHead, value, size_limit, head_size, atom_size, write_value,
  read_exact,
}
use rugix.Stlv.Head.{read_atom_head-write_atom_head}
use rugix.Stlv.Skip.{Heads, head_bytes}
use rugix.Decoder.{
  Decoder, new, check_and_subtract_size, enter_atom, take_head, next_atom_head, read_value_array,
  to_be_bytes, from_be_bytes, encode_int, decode_int, encode_bool, decode_bool, bool_of, decode,
}

>>=_assoc {ℓ κ μ} :
    {A : Type ℓ} {B : Type κ} {C : Type μ} (m : Result Error A) (f : A → Result Error B)
    (g : B → Result Error C)
    → ((m >>= f) >>= g) ≡ (m >>= λ a. f a >>= g)
>>=_assoc (ok a) f g = refl
>>=_assoc (err e) f g = refl
>>=_assoc panic f g = refl
>>=_assoc out_of_fuel f g = refl

pub next-Heads :
    (head : AtomHead) (hb : List ℕ) (rest : Source) (depth limit : ℕ)
    → Heads head hb
    → next_atom_head (new (hb ++ rest) depth limit) ≡ take_head (some head) (new rest depth limit)
unfolding next_atom_head
next-Heads head hb rest depth limit (_, reads) = rw (reads rest)

read_exact-append : (bs rest : List ℕ) → read_exact (length bs) (bs ++ rest) ≡ ok (bs, rest)
unfolding read_exact
read_exact-append bs rest =
    let fits : leb (length bs) (length (bs ++ rest)) ≡ true =
      ground (arith, length-append bs rest) in
    rw (fits, take-length_append bs rest, drop-length_append bs rest)

-- Reading a value that lies ahead: its bytes count twice, in its atom and as a value.
abbrev Outcome : Source → ℕ → ℕ → ℕ → List ℕ → BundleResult (List ℕ × Decoder)
Outcome rest depth limit cost bs =
    if ltb limit cost then err size_limit else ok (bs, new rest depth (limit - cost))

array_ahead :
    (t : Tag) (bs rest : List ℕ) (depth limit cost : ℕ)
    → cost ≡ atom_size (value t (length bs)) + length bs
    → (take_head (some (value t (length bs))) (new (bs ++ rest) depth limit) >>= λ r.
        read_value_array (length bs) r.1)
      ≡ Outcome rest depth limit cost bs
unfolding take_head enter_atom read_value_array check_and_subtract_size
array_ahead t bs rest depth limit cost e =
    elim (Bool-cases (ltb limit (atom_size (value t (length bs))))) [
      | inl small ↦ let beyond : ltb limit cost ≡ true = ground arith in rw (small, beyond)
      | inr first ↦ elim (Bool-cases (ltb (limit - atom_size (value t (length bs))) (length bs))) [
        | inl small ↦ let beyond : ltb limit cost ≡ true = ground arith in rw (first, small, beyond)
        | inr second ↦
            let within : ltb limit cost ≡ false = ground arith in
            let same : length bs == length bs ≡ true = ground arith in
            let left : limit - atom_size (value t (length bs)) - length bs ≡ limit - cost =
              omega arith in
            rw (first, second, within, same, read_exact-append bs rest, left)
      ]
    ]

array_written :
    (t : Tag) (bs rest : List ℕ) (depth limit : ℕ)
    → length bs < 2 ^ 63 + 127
    → (written : List ℕ) × (write_value t bs ≡ ok written)
      × ((next_atom_head (new (written ++ rest) depth limit) >>= λ r.
            read_value_array (length bs) r.1)
          ≡ Outcome rest depth limit (length written + length bs) bs)
unfolding write_value
array_written t bs rest depth limit small =
    let (hb, w, heads) = head_bytes (value t (length bs)) small in
    let (hb', w', size, _) = read_atom_head-write_atom_head (value t (length bs)) [] small in
    let same : hb' ≡ hb = cc in
    let long : length hb ≡ head_size (value t (length bs)) = rw same at size in
    let cost : length (hb ++ bs) + length bs ≡ atom_size (value t (length bs)) + length bs =
      unfold atom_size in omega (arith, length-append hb bs, long) in
    rw w (
      hb ++ bs,
      refl,
      rw
          (
            append_assoc hb bs rest,
            next-Heads (value t (length bs)) hb (bs ++ rest) depth limit heads,
          )
          (array_ahead t bs rest depth limit (length (hb ++ bs) + length bs) cost),
    )

>>=_if :
    {A B : Type 0} (b : Bool) (a : A) (f : A → BundleResult B)
    → ((if b then err size_limit else ok a) >>= f) ≡ (if b then err size_limit else f a)
>>=_if true a f = refl
>>=_if false a f = refl

length-to_be_bytes : (size n : ℕ) → length (to_be_bytes size n) ≡ size
unfolding to_be_bytes
length-to_be_bytes zero n = refl
length-to_be_bytes (suc size) n = omega (
  arith,
  length-append (to_be_bytes size (n / 256)) (n % 256 ∷ []),
  length-to_be_bytes size (n / 256),
)

from_be_bytes-to_be_bytes :
    (size n : ℕ) (rest : List ℕ)
    → n < 256 ^ size
    → from_be_bytes 0 (to_be_bytes size n ++ rest) ≡ from_be_bytes n rest
unfolding to_be_bytes from_be_bytes
from_be_bytes-to_be_bytes zero n rest h = let none_left : n ≡ 0 = omega arith in rw none_left
from_be_bytes-to_be_bytes (suc size) n rest h =
    let high : n / 256 < 256 ^ size = omega (arith, pow-suc 256 size) in
    let whole : n / 256 * 256 + n % 256 ≡ n = omega arith in
    rw (
      append_assoc (to_be_bytes size (n / 256)) (n % 256 ∷ []) rest,
      from_be_bytes-to_be_bytes size (n / 256) (n % 256 ∷ rest) high,
      whole,
    )

-- What reads an array, and then makes a value of it, from what was written.
decode_written :
    {A : Type 0} (t : Tag) (bs rest : List ℕ) (depth limit : ℕ)
    (make : List ℕ × Decoder → BundleResult (A × Decoder))
    → length bs < 2 ^ 63 + 127
    → (written : List ℕ) × (write_value t bs ≡ ok written)
      × (decode
            (λ d atom. read_value_array (length bs) d >>= make)
            (new (written ++ rest) depth limit)
          ≡ (if ltb limit (length written + length bs)
              then err size_limit
              else make (bs, new rest depth (limit - (length written + length bs)))))
unfolding decode
decode_written t bs rest depth limit make small =
    let (written, w, e) = array_written t bs rest depth limit small in
    (
      written,
      w,
      sym (
            >>=_assoc (next_atom_head (new (written ++ rest) depth limit))
              (λ r. read_value_array (length bs) r.1) make)
          ∙ ap (λ m. m >>= make) e
          ∙ >>=_if (ltb limit (length written + length bs))
              (bs, new rest depth (limit - (length written + length bs))) make,
    )

-- An unsigned integer that fits into `size` bytes, fewer than 2 ^ 63 + 127, encoded with any tag, is
-- decoded if the limit on the bytes admits its atom and, once more, its value; what follows is left,
-- at the same depth. With a lower limit the error is that the size limit was reached.
pub decode-encode_int :
    (size n : ℕ) (t : Tag) (rest : List ℕ) (depth limit : ℕ)
    → n < 256 ^ size
    → size < 2 ^ 63 + 127
    → (written : List ℕ) × (encode_int size n t ≡ ok written)
      × (decode (decode_int size) (new (written ++ rest) depth limit) ≡ (
          if ltb limit (length written + size)
          then err size_limit
          else ok (n, new rest depth (limit - (length written + size)))))
unfolding encode_int decode_int
decode-encode_int size n t rest depth limit fits small =
    let bs = to_be_bytes size n in
    let long : length bs ≡ size = length-to_be_bytes size n in
    let value_back : from_be_bytes 0 bs ≡ n =
      ap (from_be_bytes 0) (sym (append-nil bs))
      ∙ from_be_bytes-to_be_bytes size n [] fits
      ∙ unfold from_be_bytes in refl in
    let (written, w, e) =
      decode_written t bs rest depth limit (λ r. ok (from_be_bytes 0 r.0, r.1)) (omega arith) in
    (written, w, rw (← long, e) (rw value_back))

-- A Boolean, encoded with any tag, is decoded under the same limit, which counts its byte twice.
pub decode-encode_bool :
    (b : Bool) (t : Tag) (rest : List ℕ) (depth limit : ℕ)
    → (written : List ℕ) × (encode_bool b t ≡ ok written)
      × (decode decode_bool (new (written ++ rest) depth limit) ≡ (
          if ltb limit (length written + 1)
          then err size_limit
          else ok (b, new rest depth (limit - (length written + 1)))))
unfolding encode_bool decode_bool bool_of
decode-encode_bool true t rest depth limit =
    decode_written t (1 ∷ []) rest depth limit (λ r. bool_of r.0 >>= λ b. ok (b, r.1)) (omega arith)
decode-encode_bool false t rest depth limit =
    decode_written t (0 ∷ []) rest depth limit (λ r. bool_of r.0 >>= λ b. ok (b, r.1)) (omega arith)
