-- ===== src/BlockCodec/Sizes.antt =====
-- The sizes that the decoder takes for the data in the source are those of what was written.
use rugix.Common.{
  ℕ, ◌+◌, ◌*◌, ◌/◌, ◌%◌, ◌^◌, ◌≤◌, ◌<◌, ◌≡◌, ◌⊎◌, inl, inr, min, Bool, Bool-cases, true, ◌||◌, not,
  refl, sym, ap, ◌∙◌, Option, none, some, List, [], ◌∷◌, ◌++◌, append_assoc, append-nil, map,
  flatten, length, length-append, get_elem?-append_length, All, ltb, arith,
}
use rugix.Common.Result.{ok, unwrap}
use rugix.BlockCodec.{insert_raw, u32_to_be_bytes, encode_sizes}
use rugix.BlockCodec.Decode.{decode_sizes, next_size}
use rugix.BlockCodec.Table.{written_blocks}

abbrev pub Short : List ℕ → Type 0
Short bytes = length bytes < 2 ^ 32

be_bytes_value :
    (n : ℕ)
    → n < 2 ^ 32
    → ((n / 2 ^ 24 * 256 + n / 2 ^ 16 % 256) * 256 + n / 2 ^ 8 % 256) * 256 + n % 256 ≡ n
be_bytes_value n h = omega arith

-- The list of the sizes is read as it was written.
pub decode_sizes-encode_sizes :
    (datas : List (List ℕ))
    → All Short datas
    → (bytes : List ℕ) × (encode_sizes datas ≡ ok bytes) × (decode_sizes bytes ≡ map length datas)
unfolding encode_sizes decode_sizes
decode_sizes-encode_sizes [] s = ([], refl, refl)
decode_sizes-encode_sizes (d ∷ datas) (short, s) =
    let (bytes, p, q) = decode_sizes-encode_sizes datas s in
    let fits : ltb (length d) (2 ^ 32) ≡ true = ground arith in
    (
      u32_to_be_bytes (length d) ++ bytes,
      rw (fits, p) refl,
      rw (be_bytes_value (length d) short, q) refl,
    )

-- From the number `n` on, the size for each of the data is its length.
abbrev pub NextSizes : Option (List ℕ) → Option ℕ → ℕ → List (List ℕ) → Type 0
NextSizes sizes fixed_size n [] = Unit
NextSizes sizes fixed_size n (d ∷ datas) =
    ((listed : ℕ) × (next_size sizes fixed_size n ≡ ok listed)
      × (min listed (length (d ++ flatten datas)) ≡ length d))
    × NextSizes sizes fixed_size (n + 1) datas

pub listed-NextSizes :
    (fixed_size : Option ℕ) (before : List ℕ) (datas : List (List ℕ)) (sizes : List ℕ)
    → sizes ≡ before ++ map length datas
    → NextSizes (some sizes) fixed_size (length before) datas
listed-NextSizes fixed_size before [] sizes e = tt
listed-NextSizes fixed_size before (d ∷ datas) sizes e =
    let listed : next_size (some sizes) fixed_size (length before) ≡ ok (length d) =
      rw e (ap unwrap (get_elem?-append_length before (length d) (map length datas))) in
    let on : length (before ++ length d ∷ []) ≡ length before + 1 =
      length-append before (length d ∷ []) ∙ omega arith in
    let rest =
      listed-NextSizes fixed_size (before ++ length d ∷ []) datas sizes
        (e ∙ sym (append_assoc before (length d ∷ []) (map length datas))) in
    ((length d, listed, omega (arith, length-append d (flatten datas))), rw on at rest)

-- What a chunker of fixed_size size makes: only the last block may be shorter.
abbrev pub Uniform : ℕ → List (List ℕ) → Type 0
Uniform size [] = Unit
Uniform size (b ∷ blocks) =
    (length b ≤ size) × ((blocks ≡ []) ⊎ (length b ≡ size)) × Uniform size blocks

pub fixed-NextSizes :
    (size n : ℕ) (blocks : List (List ℕ))
    → Uniform size blocks
    → NextSizes none (some size) n blocks
unfolding flatten
fixed-NextSizes size n [] u = tt
fixed-NextSizes size n (b ∷ blocks) (le, last, u) =
    let all : min size (length (b ++ flatten blocks)) ≡ length b = elim last [
      | inl none_left ↦ rw (none_left, append-nil) (omega arith)
      | inr full ↦ omega (arith, length-append b (flatten blocks))
    ] in
    ((size, refl, all), fixed-NextSizes size (n + 1) blocks u)

module _ (hash_size : ℕ) (hashes : List ℕ) (deduplicate : Bool) where
  -- What is left out makes no block other than the last shorter.
  pub written_blocks-Uniform :
      (size block : ℕ) (table : List ℕ) (todo : List (List ℕ))
      → Uniform size todo
      → Uniform size (written_blocks hash_size hashes deduplicate block table todo)
  unfolding written_blocks
  written_blocks-Uniform size block table [] u = tt
  written_blocks-Uniform size block table (b ∷ todo) (le, last, u) =
      let inserted = insert_raw hash_size hashes table block in
      let ih = written_blocks-Uniform size (block + 1) inserted.1 todo u in
      let last' : (written_blocks hash_size hashes deduplicate (block + 1) inserted.1 todo ≡ [])
          ⊎ (length b ≡ size) =
        elim last [ inl none_left ↦ inl (rw none_left refl) | inr full ↦ inr full ] in
      elim (Bool-cases (inserted.0 || not deduplicate)) [
        | inl y ↦ rw y (le, last', ih)
        | inr n ↦ rw n ih
      ]

  pub written_blocks-All :
      (P : List ℕ → Type 0) (block : ℕ) (table : List ℕ) (todo : List (List ℕ))
      → All P todo
      → All P (written_blocks hash_size hashes deduplicate block table todo)
  unfolding written_blocks
  written_blocks-All P block table [] a = tt
  written_blocks-All P block table (b ∷ todo) (p, a) =
      let inserted = insert_raw hash_size hashes table block in
      let ih = written_blocks-All P (block + 1) inserted.1 todo a in
      elim (Bool-cases (inserted.0 || not deduplicate)) [ inl y ↦ rw y (p, ih) | inr n ↦ rw n ih ]
