-- ===== src/BlockCodec/Blocks.antt =====
-- The decoder on the data that the encoder wrote, block by block.
use rugix.Common.{
  ℕ, zero, suc, ◌+◌, ◌-◌, ◌≤◌, ◌<◌, ◌≡◌, inl, inr, Bool, Bool-cases, true, false, ◌||◌, not, refl,
  sym, ap, ◌∙◌, Option, none, some, List, [], ◌∷◌, ◌++◌, append_assoc, append-nil, map, flatten,
  flatten-append, length, length-append, take, drop, take-length_append, drop-length_append,
  get_elem?, get_elem?-append_left, get_elem?-lt_length, get_elem?-All, All, ltb, leb, arith,
}
use rugix.Common.Result.{ok}
use mathlib.Core.List.{map-append}
use native.Mathlib.Nat.{zero-add}
use rugix.BlockIndex.{HashAlgorithm, hash_of}
use rugix.BlockIndex.Build.{offsets_from, offsets_from-append}
use rugix.BlockIndex.Entries.{offset_finds}
use rugix.Stlv.{Source, BundleResult, read_exact}
use rugix.Stlv.Skip.{skip_bytes-append}
use rugix.BlockCodec.{
  Compression, compressed, uncompressed, bytes_eq, raw_block_hash, get_raw, insert_raw,
}
use rugix.BlockCodec.Decode.{
  file, Provider, Walk, from_source, from_stored, fetch, fetch_again, decode_block, decode_blocks,
}
use rugix.BlockCodec.Table.{get_raw_found, get_raw-insert_raw, written_blocks}
use rugix.BlockCodec.Encoding.{hashes, raw_block_hash-index_of, at_front, move_on, length_on}
use rugix.BlockCodec.Integrity.{bytes_eq_sound, bytes_eq_refl}
use rugix.BlockCodec.Sizes.{NextSizes}

-- No two of the known byte strings share a hash.
abbrev pub CollisionFree : HashAlgorithm → (List ℕ → Type 0) → Type 0
CollisionFree a Known = (x y : List ℕ) → Known x → Known y → hash_of a x ≡ hash_of a y → x ≡ y

-- What the provider stores can be read, and is known.
abbrev pub Serves : Provider → (List ℕ → Type 0) → Type 0
Serves provider Known =
    (hash : List ℕ) (stored : BundleResult (List ℕ))
    → provider hash ≡ some stored
    → (bytes : List ℕ) × (stored ≡ ok bytes) × Known bytes

pub uncompressed-compressed :
    (c : Option Compression) (bytes : List ℕ) → uncompressed c (compressed c bytes) ≡ ok bytes
uncompressed-compressed none bytes = refl
uncompressed-compressed (some c) bytes = rw (c.uncompress-compress bytes) refl

pub read_exact-append : (xs ys : List ℕ) → read_exact (length xs) (xs ++ ys) ≡ ok (xs, ys)
unfolding read_exact
read_exact-append xs ys =
    let fits : leb (length xs) (length (xs ++ ys)) ≡ true = ground (arith, length-append xs ys) in
    rw (fits, take-length_append xs ys, drop-length_append xs ys) refl

offset_fits :
    (blocks : List (List ℕ)) (at i offset : ℕ) (b : List ℕ)
    → get_elem? blocks i ≡ some b
    → get_elem? (offsets_from at blocks) i ≡ some offset
    → offset + length b ≤ at + length (flatten blocks)
unfolding flatten
offset_fits [] at i offset b h k = cc
offset_fits (x ∷ blocks) at zero offset b h k =
    let same : x ≡ b = ground arith in
    let start : at ≡ offset = ground arith in
    rw⁻¹ (same, start) (omega (arith, length-append x (flatten blocks)))
offset_fits (x ∷ blocks) at (suc i) offset b h k =
    omega
      (arith, offset_fits blocks (at + length x) i offset b h k, length-append x (flatten blocks))

All-map : (P Q : ℕ → Type 0) → ((n : ℕ) → P n → Q n) → (xs : List ℕ) → All P xs → All Q xs
All-map P Q f [] t = tt
All-map P Q f (x ∷ xs) (p, ps) = (f x p, All-map P Q f xs ps)

module _ (a h : HashAlgorithm) (c : Option Compression) (provider : Provider) where
  from_source-written :
      (b : List ℕ) (rest : Source)
      → from_source a h c file provider
          (length (compressed c b))
          (hash_of a b)
          (compressed c b ++ rest)
        ≡ ok (b, rest)
  unfolding from_source
  from_source-written b rest =
      rw
        (
          read_exact-append (compressed c b) rest,
          uncompressed-compressed c b,
          bytes_eq_refl (hash_of a b),
        )
        refl

  module _ (Known : List ℕ → Type 0) (collision_free : CollisionFree a Known)
      (serves : Serves provider Known) where
    -- The block is the one that was encoded, whether it is stored or not.
    from_stored-written :
        (stored : Option (BundleResult (List ℕ))) (b : List ℕ) (rest : Source)
        → Known b
        → provider (hash_of a b) ≡ stored
        → from_stored a h c file provider stored
            (length (compressed c b))
            (hash_of a b)
            (compressed c b ++ rest)
          ≡ ok (b, rest)
    from_stored-written none b rest known p = from_source-written b rest
    from_stored-written (some stored) b rest known p =
        let (bytes, is_bytes, known') = serves (hash_of a b) stored p in
        elim (Bool-cases (bytes_eq (hash_of a bytes) (hash_of a b))) [
          | inl y ↦
              let same : bytes ≡ b =
                collision_free bytes b known' known
                  (bytes_eq_sound (hash_of a bytes) (hash_of a b) y) in
              rw (is_bytes, y, skip_bytes-append (compressed c b) rest, same) refl
          | inr n ↦ rw (is_bytes, n) (from_source-written b rest)
        ]

    fetch-written :
        (sizes : Option (List ℕ)) (fixed_size : Option ℕ) (b : List ℕ) (datas : List (List ℕ))
        (rest : Source) (w : Walk (List ℕ) h.Hasher)
        → Known b
        → NextSizes sizes fixed_size w.next_size_idx (compressed c b ∷ datas)
        → w.source ≡ compressed c b ++ (flatten datas ++ rest)
        → w.remaining ≡ length (compressed c b ++ flatten datas)
        → fetch a h c file provider sizes fixed_size (hash_of a b) w
          ≡ ok (b, flatten datas ++ rest, length (flatten datas), w.next_size_idx + 1)
    unfolding fetch
    fetch-written sizes fixed_size b datas rest w known ((listed, is_listed, cut), next) source
          remaining =
        let left : length (compressed c b ++ flatten datas) - length (compressed c b)
            ≡ length (flatten datas) =
          omega (arith, length-append (compressed c b) (flatten datas)) in
        rw
          (
            is_listed,
            source,
            remaining,
            cut,
            left,
            from_stored-written (provider (hash_of a b)) b (flatten datas ++ rest) known refl,
          )
          refl

    fetch_again-written :
        (done : List (List ℕ)) (b : List ℕ) (first i : ℕ) (w : Walk (List ℕ) h.Hasher)
        → get_elem? done first ≡ some b
        → first < i
        → w.offsets ≡ offsets_from 0 done
        → w.sizes ≡ map length done
        → w.target ≡ flatten done
        → fetch_again a h c file provider i first (hash_of a b) w
          ≡ ok (b, w.source, w.remaining, w.next_size_idx)
    unfolding fetch_again
    fetch_again-written done b first i w found before offsets sizes target =
        let (offset, p, q, r) = offset_finds done 0 first b found in
        let earlier : ltb first i ≡ true = ground arith in
        let inside = offset_fits done 0 first (0 + offset) b found p in
        let fits : leb (0 + offset + length b) (length (flatten done)) ≡ true = ground arith in
        let cut : take (length b) (drop (0 + offset) (flatten done)) ≡ b = rw zero-add r in
        rw (earlier, offsets, p, sizes, q, target, fits, cut, bytes_eq_refl (hash_of a b)) refl

    module _ (deduplicate : Bool) (sizes : Option (List ℕ)) (fixed_size : Option ℕ)
        (blocks : List (List ℕ)) (known : All Known blocks) (rest : Source) where
      abbrev datas_from : ℕ → List ℕ → List (List ℕ) → List (List ℕ)
      datas_from block table todo =
          map (compressed c)
            (written_blocks a.hash_size (hashes a c blocks) deduplicate block table todo)

      -- The loop behind the blocks `done`, with `todo` before it.
      pub record Reached (done todo : List (List ℕ)) (w : Walk (List ℕ) h.Hasher) : Type 0 where
        pub split : blocks ≡ done ++ todo
        pub earlier : All (λ block. block < length done) w.table
        pub offsets : w.offsets ≡ offsets_from 0 done
        pub block_sizes : w.sizes ≡ map length done
        pub target : w.target ≡ flatten done
        pub written : w.written ≡ length (flatten done)
        pub source : w.source ≡ flatten (datas_from (length done) w.table todo) ++ rest
        pub remaining : w.remaining ≡ length (flatten (datas_from (length done) w.table todo))
        pub next :
            NextSizes sizes fixed_size w.next_size_idx (datas_from (length done) w.table todo)

      abbrev moved :
          (table b : List ℕ) (source : Source) (remaining next : ℕ)
          → Walk (List ℕ) h.Hasher
          → Walk (List ℕ) h.Hasher
      moved table b source remaining next w = record {
        table = table;
        offsets = w.offsets ++ w.written ∷ [];
        sizes = w.sizes ++ length b ∷ [];
        next_size_idx = next;
        source = source;
        remaining = remaining;
        written = w.written + length b;
        target = w.target ++ b;
        hasher = h.update w.hasher b;
      }

      module _ (done todo : List (List ℕ)) (b : List ℕ) (w : Walk (List ℕ) h.Hasher)
          (r : Reached done (b ∷ todo) w) where
        abbrev datas_behind : List ℕ → List (List ℕ)
        datas_behind table = datas_from (length done + 1) table todo

        Reached-moved :
            (table : List ℕ) (source : Source) (remaining next : ℕ)
            → All (λ block. block < length done + 1) table
            → source ≡ flatten (datas_behind table) ++ rest
            → remaining ≡ length (flatten (datas_behind table))
            → NextSizes sizes fixed_size next (datas_behind table)
            → Reached (done ++ b ∷ []) todo (moved table b source remaining next w)
        unfolding flatten
        Reached-moved table source remaining next earlier s m n =
            let on = length_on a c blocks done b in
            record {
              split = move_on a c blocks done todo b r.split;
              earlier = rw on earlier;
              offsets =
                  rw (r.offsets, r.written) (sym (offsets_from-append 0 done b ∙ rw zero-add refl));
              block_sizes = rw (r.block_sizes, map-append) refl;
              target = rw (r.target, flatten-append done (b ∷ []), append-nil) refl;
              written =
                  rw (r.written, flatten-append done (b ∷ []), append-nil)
                    (sym (length-append (flatten done) b));
              source = rw on s;
              remaining = rw on m;
              next = rw on n;
            }

        abbrev Steps : Type 0
        Steps =
            (w' : Walk (List ℕ) h.Hasher) × (decode_block a h c file provider deduplicate
                (hashes a c blocks) sizes fixed_size (length done) w
              ≡ ok w')
            × Reached (done ++ b ∷ []) todo w'

        abbrev hash_at : ℕ → List ℕ
        hash_at block = raw_block_hash a.hash_size (hashes a c blocks) block

        is_hash : hash_at (length done) ≡ hash_of a b
        is_hash =
            raw_block_hash-index_of a c blocks (length done) b
              (at_front a c blocks done todo b r.split)

        is_Known : Known b
        is_Known =
            get_elem?-All Known blocks (length done) b known
              (at_front a c blocks done todo b r.split)

        -- The block's data are in the source.
        step-written :
            (new : Bool) (table : List ℕ) (first : ℕ)
            → insert_raw a.hash_size (hashes a c blocks) w.table (length done) ≡ (new, table)
            → get_raw a.hash_size (hashes a c blocks) table (hash_at (length done)) ≡ some first
            → (new || not deduplicate) ≡ true
            → All (λ block. block < length done + 1) table
            → Steps
        unfolding decode_block flatten
        step-written new table first inserted found taken earlier =
            let datas = datas_behind table in
            let behind : datas_from (length done) w.table (b ∷ todo) ≡ compressed c b ∷ datas =
              unfold written_blocks in rw (inserted, taken) refl in
            let next : NextSizes sizes fixed_size w.next_size_idx (compressed c b ∷ datas) =
              rw behind at r.next in
            let source : w.source ≡ compressed c b ++ (flatten datas ++ rest) =
              (rw behind at r.source) ∙ append_assoc (compressed c b) (flatten datas) rest in
            let remaining : w.remaining ≡ length (compressed c b ++ flatten datas) =
              rw behind at r.remaining in
            let fetched =
              fetch-written sizes fixed_size b datas rest w is_Known next source remaining in
            (
              moved table b (flatten datas ++ rest) (length (flatten datas)) (w.next_size_idx + 1)
                  w,
              rw (inserted, found, taken, is_hash, fetched) refl,
              Reached-moved table (flatten datas ++ rest) (length (flatten datas))
                  (w.next_size_idx + 1) earlier refl refl next.1,
            )

        -- The block is read from the target.
        step-again :
            (first : ℕ)
            → insert_raw a.hash_size (hashes a c blocks) w.table (length done) ≡ (false, w.table)
            → get_raw a.hash_size (hashes a c blocks) w.table (hash_at (length done)) ≡ some first
            → not deduplicate ≡ false
            → All (λ block. block < length done + 1) w.table
            → Steps
        unfolding decode_block
        step-again first inserted found dedup earlier =
            let behind : datas_from (length done) w.table (b ∷ todo) ≡ datas_behind w.table =
              unfold written_blocks in rw (inserted, dedup) refl in
            let (before, same_hash) =
              get_raw_found a.hash_size (hashes a c blocks) (λ block. block < length done) w.table
                (hash_at (length done)) first r.earlier found in
            let (x, is_x) = get_elem?-lt_length done first before in
            let in_blocks : get_elem? blocks first ≡ some x =
              rw r.split (get_elem?-append_left done (b ∷ todo) first before ∙ is_x) in
            let hashes_agree : hash_of a b ≡ hash_of a x =
              sym is_hash
              ∙ bytes_eq_sound (hash_at (length done)) (hash_at first) same_hash
              ∙ raw_block_hash-index_of a c blocks first x in_blocks in
            let same : b ≡ x =
              collision_free b x is_Known (get_elem?-All Known blocks first x known in_blocks)
                hashes_agree in
            let again =
              fetch_again-written done b first (length done) w (is_x ∙ ap some (sym same)) before
                r.offsets r.block_sizes r.target in
            (
              moved w.table b w.source w.remaining w.next_size_idx w,
              rw (inserted, found, dedup, is_hash, again) refl,
              Reached-moved w.table w.source w.remaining w.next_size_idx earlier
                  (rw behind at r.source) (rw behind at r.remaining) (rw behind at r.next),
            )

        decode_block-Reached : Steps
        decode_block-Reached =
            elim (get_raw-insert_raw a.hash_size (hashes a c blocks) w.table (length done)) [
              | inl (inserted, found) ↦
                  step-written true (length done ∷ w.table) (length done) inserted found refl
                    (omega arith, earlier_on)
              | inr (first, inserted, found) ↦ elim (Bool-cases deduplicate) [
                | inl y ↦ step-again first inserted found (ap not y) earlier_on
                | inr n ↦ step-written false w.table first inserted found (ap not n) earlier_on
              ]
            ]
          where
            earlier_on : All (λ block. block < length done + 1) w.table
            earlier_on =
                All-map (λ block. block < length done) (λ block. block < length done + 1)
                  (λ block le. omega arith) w.table r.earlier

      pub decode_blocks-Reached :
          (done todo : List (List ℕ)) (i : ℕ) (w : Walk (List ℕ) h.Hasher)
          → i ≡ length done
          → Reached done todo w
          → (w' : Walk (List ℕ) h.Hasher) × (decode_blocks a h c file provider deduplicate
                (hashes a c blocks)
                sizes
                fixed_size
                (length todo)
                i
                w
              ≡ ok w')
            × (w'.target ≡ flatten blocks)
            × (w'.written ≡ length (flatten blocks))
            × (w'.source ≡ rest)
      unfolding decode_blocks
      decode_blocks-Reached done [] i w at r =
          let all : blocks ≡ done = r.split ∙ append-nil done in
          let empty : flatten (datas_from (length done) w.table []) ≡ [] =
            unfold written_blocks flatten in refl in
          (
            w,
            refl,
            r.target ∙ ap flatten (sym all),
            r.written ∙ ap (λ bs. length (flatten bs)) (sym all),
            r.source ∙ rw empty refl,
          )
      decode_blocks-Reached done (b ∷ todo) i w at r =
          let (mid, is_mid, r') = decode_block-Reached done todo b w r in
          let (w', is_w', whole, counted, left) =
            decode_blocks-Reached (done ++ b ∷ []) todo (i + 1) mid
              (ap (λ (n : ℕ). n + 1) at ∙ sym (length_on a c blocks done b)) r' in
          (w', rw (at, is_mid, ← at) is_w', whole, counted, left)
