-- ===== src/BlockCodec/Integrity.antt =====
-- What a decoded payload is, whatever the source, the provider and the encoding are.
use rugix.Common.{
  ℕ, zero, suc, ◌+◌, ◌-◌, ◌/◌, ◌≡◌, inl, inr, min, Bool, Bool-cases, true, false, ◌||◌, not, refl,
  sym, ap, ◌∙◌, Option, none, some, List, [], ◌∷◌, ◌++◌, ◌==◌, if◌then◌else◌, length, length-append,
  take, drop, arith,
}
use rugix.Common.Result.{Result, ok, guard, unwrap, >>=-eq-ok}
use rugix.BlockIndex.{HashAlgorithm, hash_of}
use rugix.Stlv.{Source, Error, payload_hash_mismatch, needs_block_sizes}
use rugix.BlockCodec.{
  Compression, uncompressed, bytes_eq, raw_block_hash, get_raw, insert_raw, BlockEncoding,
}
use rugix.BlockCodec.Decode.{
  file, Provider, fixed_block_size, Walk, fetch, fetch_again, decode_block, decode_blocks,
  sizes_from, has_sizes, decode_encoded, copy, decode_data, walk_start, Decoded, decode_into,
}

pub bytes_eq_sound : (xs ys : List ℕ) → bytes_eq xs ys ≡ true → xs ≡ ys
bytes_eq_sound [] [] h = refl
bytes_eq_sound [] (y ∷ ys) h = cc
bytes_eq_sound (x ∷ xs) [] h = cc
bytes_eq_sound (x ∷ xs) (y ∷ ys) h =
    let first : x ≡ y = ground arith in
    let tail : bytes_eq xs ys ≡ true = ground arith in let rest = bytes_eq_sound xs ys tail in cc

pub bytes_eq_refl : (xs : List ℕ) → bytes_eq xs xs ≡ true
bytes_eq_refl [] = refl
bytes_eq_refl (x ∷ xs) = let ih = bytes_eq_refl xs in ground arith

pub guard_ok : (b : Bool) (e : Error) → guard b e ≡ ok tt → b ≡ true
guard_ok true e h = refl
guard_ok false e h = cc

module _ (a h : HashAlgorithm) (c : Option Compression) (provider : Provider) where
  -- The hasher has seen what the file holds, and the bytes are counted.
  abbrev pub Faithful : Walk (List ℕ) h.Hasher → Type 0
  Faithful w = (w.hasher ≡ h.update h.hasher w.target) × (w.written ≡ length w.target)

  appended :
      (w w' : Walk (List ℕ) h.Hasher) (bytes : List ℕ)
      → Faithful w
      → w'.target ≡ w.target ++ bytes
      → w'.hasher ≡ h.update w.hasher bytes
      → w'.written ≡ w.written + length bytes
      → Faithful w'
  appended w w' bytes (seen, counted) target hasher written = (
    hasher
        ∙ ap (λ s. h.update s bytes) seen
        ∙ h.update-append h.hasher w.target bytes
        ∙ ap (h.update h.hasher) (sym target),
    written ∙ omega (arith, length-append w.target bytes) ∙ ap length (sym target),
  )

  decode_block-Faithful :
      (deduplicated : Bool) (hashes : List ℕ) (sizes : Option (List ℕ)) (fixed_size : Option ℕ)
      (block : ℕ) (w w' : Walk (List ℕ) h.Hasher)
      → Faithful w
      → decode_block a h c file provider deduplicated hashes sizes fixed_size block w ≡ ok w'
      → Faithful w'
  unfolding decode_block
  decode_block-Faithful deduplicated hashes sizes fixed_size block w w' f e =
      let hash = raw_block_hash a.hash_size hashes block in
      let inserted = insert_raw a.hash_size hashes w.table block in
      let (first, e1, h1) = >>=-eq-ok (unwrap (get_raw a.hash_size hashes inserted.1 hash)) _ e in
      let ((bytes, source, remaining, next), e2, h2) =
        >>=-eq-ok
          (if inserted.0 || not deduplicated
            then fetch a h c file provider sizes fixed_size hash w
            else fetch_again a h c file provider block first hash w)
          _ h1 in
      appended w w' bytes f (cc) (cc) (cc)

  pub decode_blocks-Faithful :
      (deduplicated : Bool) (hashes : List ℕ) (sizes : Option (List ℕ)) (fixed_size : Option ℕ)
      (left block : ℕ) (w w' : Walk (List ℕ) h.Hasher)
      → Faithful w
      → decode_blocks a h c file provider deduplicated hashes sizes fixed_size left block w ≡ ok w'
      → Faithful w'
  unfolding decode_blocks
  decode_blocks-Faithful deduplicated hashes sizes fixed_size zero block w w' f e =
      let same : w ≡ w' = cc in rw⁻¹ same f
  decode_blocks-Faithful deduplicated hashes sizes fixed_size (suc left) block w w' f e =
      let (mid, e1, rest) =
        >>=-eq-ok (decode_block a h c file provider deduplicated hashes sizes fixed_size block w) _
          e in
      decode_blocks-Faithful deduplicated hashes sizes fixed_size left (block + 1) mid w'
        (decode_block-Faithful deduplicated hashes sizes fixed_size block w mid f e1) rest

  pub copy-Faithful :
      (fuel : ℕ) (w w' : Walk (List ℕ) h.Hasher)
      → Faithful w
      → copy a h c file provider fuel w ≡ ok w'
      → Faithful w'
  unfolding copy
  copy-Faithful zero w w' f e = cc
  copy-Faithful (suc fuel) w w' f e =
      let bytes = take (min 8192 w.remaining) w.source in
      let w1 : Walk (List ℕ) h.Hasher = record w {
        source = drop (min 8192 w.remaining) w.source;
        remaining = w.remaining - length bytes;
        written = w.written + length bytes;
        target = w.target ++ bytes;
        hasher = h.update w.hasher bytes;
      } in
      elim (Bool-cases (length bytes == 0)) [
        | inl y ↦ let same : w ≡ w' = ok_inj w w' (rw y at e) in rw⁻¹ same f
        | inr n ↦ copy-Faithful fuel w1 w' (appended w w1 bytes f refl refl refl) (rw n at e)
      ]
    where
      ok_inj :
          (u v : Walk (List ℕ) h.Hasher)
          → ◌≡◌ {A = Result Error (Walk (List ℕ) h.Hasher)} (ok u) (ok v)
          → u ≡ v
      ok_inj u v p = cc

  decode_data-Faithful :
      (encoding : Option BlockEncoding) (w w' : Walk (List ℕ) h.Hasher)
      → Faithful w
      → decode_data a h c file provider encoding w ≡ ok w'
      → Faithful w'
  unfolding decode_encoded
  decode_data-Faithful none w w' f e = copy-Faithful (suc w.remaining) w w' f e
  decode_data-Faithful (some enc) w w' f e =
      let (hashes, e1, h1) = >>=-eq-ok (uncompressed c enc.block_hashes) _ e in
      let (sizes, e2, h2) = >>=-eq-ok (sizes_from a h c file provider enc.block_sizes) _ h1 in
      let (u, e3, h3) =
        >>=-eq-ok
          (guard (has_sizes a h c file provider (fixed_block_size enc.chunker) sizes)
            needs_block_sizes)
          _ h2 in
      decode_blocks-Faithful enc.deduplicated hashes sizes (fixed_block_size enc.chunker)
        (length hashes / a.hash_size) 0 w w' f h3

  -- Whatever the source delivers and the provider answers, with or without a block encoding: a payload
  -- that is decoded into a file leaves a file whose hash is the hash in the payload's entry, and the
  -- size that is reported is that of the file.
  pub decode_into_hash :
      (encoding : Option BlockEncoding) (file_hash : List ℕ) (remaining : ℕ) (source : Source)
      (d : Decoded a h c file provider)
      → decode_into a h c file provider encoding file_hash remaining [] source ≡ ok d
      → (hash_of h d.target ≡ file_hash) × (d.hash ≡ file_hash) × (d.size ≡ length d.target)
  unfolding decode_into
  decode_into_hash encoding file_hash remaining source d e =
      let w0 = walk_start a h c file provider source remaining [] in
      let (w, e1, h1) = >>=-eq-ok (decode_data a h c file provider encoding w0) _ e in
      let (u, e2, h2) =
        >>=-eq-ok (guard (bytes_eq (h.finalize w.hasher) file_hash) payload_hash_mismatch) _ h1 in
      let (seen, counted) =
        decode_data-Faithful encoding w0 w (sym (h.update-nil h.hasher), refl) e1 in
      let same =
        bytes_eq_sound (h.finalize w.hasher) file_hash
          (guard_ok (bytes_eq (h.finalize w.hasher) file_hash) payload_hash_mismatch e2) in
      let target : d.target ≡ w.target = cc in
      let hash : d.hash ≡ h.finalize w.hasher = cc in
      let size : d.size ≡ w.written = cc in
      (
        rw target (ap h.finalize (sym seen) ∙ same),
        hash ∙ same,
        size ∙ counted ∙ ap length (sym target),
      )
