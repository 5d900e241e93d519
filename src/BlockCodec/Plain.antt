-- ===== src/BlockCodec/Plain.antt =====
-- A payload without a block encoding.
use rugix.Common.{
  ℕ, zero, suc, ◌+◌, ◌-◌, ◌≤◌, ◌<◌, ◌≡◌, inl, inr, min, Bool-cases, refl, sym, ap, ◌∙◌, Option,
  none, List, [], ◌∷◌, ◌++◌, append_assoc, append-nil, take, drop, length, length-take, length-drop,
  take-append-drop, ◌==◌, arith,
}
use rugix.Common.Result.{ok}
use rugix.BlockIndex.{HashAlgorithm, hash_of}
use rugix.Stlv.{Source}
use rugix.BlockCodec.{Compression}
use rugix.BlockCodec.Decode.{file, Provider, Walk, copy, walk_start, Decoded, decode_into}
use rugix.BlockCodec.Integrity.{bytes_eq_refl, copy-Faithful}

take-append_left : (n : ℕ) (xs ys : List ℕ) → n ≤ length xs → take n (xs ++ ys) ≡ take n xs
take-append_left zero xs ys h = refl
take-append_left (suc n) [] ys h = absurd (omega arith)
take-append_left (suc n) (x ∷ xs) ys h = ap (λ zs. x ∷ zs) (take-append_left n xs ys (omega arith))

drop-append_left : (n : ℕ) (xs ys : List ℕ) → n ≤ length xs → drop n (xs ++ ys) ≡ drop n xs ++ ys
drop-append_left zero xs ys h = refl
drop-append_left (suc n) [] ys h = absurd (omega arith)
drop-append_left (suc n) (x ∷ xs) ys h = drop-append_left n xs ys (omega arith)

length-zero : (xs : List ℕ) → length xs ≡ 0 → xs ≡ []
length-zero [] h = refl
length-zero (x ∷ xs) h = absurd (omega arith)

module _ (a h : HashAlgorithm) (c : Option Compression) (provider : Provider) (rest : Source) where
  copy-whole :
      (fuel : ℕ) (xs : List ℕ) (w : Walk (List ℕ) h.Hasher)
      → length xs < fuel
      → w.source ≡ xs ++ rest
      → w.remaining ≡ length xs
      → (w' : Walk (List ℕ) h.Hasher) × (copy a h c file provider fuel w ≡ ok w')
        × (w'.target ≡ w.target ++ xs)
        × (w'.source ≡ rest)
  unfolding copy
  copy-whole zero xs w lt source remaining = absurd (omega arith)
  copy-whole (suc fuel) xs w lt source remaining =
      let n = min 8192 (length xs) in
      let bytes : take (min 8192 w.remaining) w.source ≡ take n xs =
        rw (source, remaining) (take-append_left n xs rest (omega arith)) in
      let left : drop (min 8192 w.remaining) w.source ≡ drop n xs ++ rest =
        rw (source, remaining) (drop-append_left n xs rest (omega arith)) in
      elim (Bool-cases (length (take n xs) == 0)) [
        | inl y ↦
            let empty : length xs ≡ 0 = ground (arith, length-take n xs) in
            let none_left = length-zero xs empty in
            (
              w,
              rw (bytes, y) refl,
              rw none_left (sym (append-nil w.target)),
              source ∙ ap (λ (ys : List ℕ). ys ++ rest) none_left,
            )
        | inr m ↦
            let w1 : Walk (List ℕ) h.Hasher = record w {
              source = drop n xs ++ rest;
              remaining = w.remaining - length (take n xs);
              written = w.written + length (take n xs);
              target = w.target ++ take n xs;
              hasher = h.update w.hasher (take n xs);
            } in
            let size : w.remaining - length (take n xs) ≡ length (drop n xs) =
              omega (arith, length-take n xs, length-drop n xs) in
            let shorter : length (drop n xs) < fuel =
              ground (arith, length-take n xs, length-drop n xs) in
            let (w', ran, target, source') = copy-whole fuel (drop n xs) w1 shorter refl size in
            (
              w',
              rw (bytes, left, m) ran,
              target
                  ∙ append_assoc w.target (take n xs) (drop n xs)
                  ∙ ap (λ (ys : List ℕ). w.target ++ ys) (take-append-drop n xs),
              source',
            )
      ]

  -- A payload that is stored as it is, read with its size and its hash, is restored: the reading ends,
  -- succeeds, and stops exactly behind the payload.
  pub decode_into-plain :
      (payload : List ℕ)
      → (d : Decoded a h c file provider) × (decode_into a h c file provider none
            (hash_of h payload)
            (length payload)
            []
            (payload ++ rest)
          ≡ ok d)
        × (d.target ≡ payload)
        × (d.size ≡ length payload)
        × (d.source ≡ rest)
  unfolding decode_into
  decode_into-plain payload =
      let w0 = walk_start a h c file provider (payload ++ rest) (length payload) [] in
      let (w, ran, target, source) =
        copy-whole (suc (length payload)) payload w0 (omega arith) refl refl in
      let (seen, counted) =
        copy-Faithful a h c provider (suc (length payload)) w0 w (sym (h.update-nil h.hasher), refl)
          ran in
      let hash : h.finalize w.hasher ≡ hash_of h payload =
        ap h.finalize seen ∙ ap (hash_of h) target in
      (
        record {
          hash = h.finalize w.hasher;
          size = w.written;
          source = w.source;
          target = w.target;
        },
        rw (ran, hash, bytes_eq_refl (hash_of h payload)) refl,
        target,
        counted ∙ ap length target,
        source,
      )
