-- ===== src/Bundle/Packing.antt =====
-- crates/libs/rugix-bundle/src/builder.rs: the preparation of the payloads, and the packing of a
-- bundle. A payload of the manifest is its contents with what its delivery is written as; its
-- block encoding comes with the index that the chunker makes of the contents.
use rugix.Common.{
  ℕ, ◌+◌, ◌≤◌, ◌<◌, ◌^◌, ◌≡◌, sym, ap, subst, ◌∙◌, Bool, Option, none, some, List, [], ◌∷◌, flatten,
  length, All,
}
use rugix.Common.Result.{Result, ok, err, panic, out_of_fuel, ◌>>=◌, >>=-eq-ok}
use rugix.Stlv.{BundleResult}
use rugix.Stlv.Skip.{AllWritable}
use rugix.BlockIndex.{HashAlgorithm, BlockIndex, hash_of}
use rugix.BlockIndex.Build.{index_of}
use rugix.Chunker.Algorithm.{ChunkerAlgorithm}
use rugix.BlockCodec.{compressed, encode_payload_file}
use rugix.BlockCodec.Decode.{Provider}
use rugix.BlockCodec.Sizes.{Short}
use rugix.BlockCodec.Blocks.{CollisionFree, Serves}
use rugix.BlockCodec.Integrity.{bytes_eq_refl}
use rugix.BlockCodec.Roundtrip.{Sized}
use rugix.Bundle.{
  BundleHeader, PayloadEntry, PayloadHeader, Signatures, Format, to_vec, BundleReader, open_bundle,
  next_payload, PreparedPayload, NamedEncoding, Algorithms, coder_named, write_bundle,
  bundle_header_tag, payload_header_tag, bundle_header_size_limit, payload_header_size_limit,
}
use rugix.Bundle.Authentic.{Reads}
use rugix.Bundle.Unpacking.{Stored, plain, encoded, Packed, AllPacked, numbered, unpacks}

-- `manifest::BlockEncoding`, with the index.
pub record BlockConfig : Type 0 where
  pub hash_algorithm : ℕ
  pub compression : Option ℕ
  pub deduplicate : Bool
  pub chunker : ChunkerAlgorithm
  pub index : BlockIndex

pub record Payload : Type 0 where
  pub delivery : List ℕ
  pub contents : List ℕ
  pub block_encoding : Option BlockConfig

-- A call that has no errors.
abbrev pub no_errors : {A : Type 0} → Result ⊥ A → BundleResult A
no_errors (ok x) = ok x
no_errors (err e) = absurd e
no_errors panic = panic
no_errors out_of_fuel = out_of_fuel

no_errors-ok : {A : Type 0} (r : Result ⊥ A) (x : A) → no_errors r ≡ ok x → r ≡ ok x
no_errors-ok (ok y) x e = cc
no_errors-ok (err y) x e = absurd y
no_errors-ok panic x e = cc
no_errors-ok out_of_fuel x e = cc

module _ (algs : Algorithms) (h : HashAlgorithm) (payload_format : Format PayloadHeader) where
  abbrev pub encode_payload :
      Option BlockConfig → List ℕ → BundleResult (Option NamedEncoding × List ℕ)
  encode_payload none contents = ok (none, contents)
  encode_payload (some config) contents = do
    (encoding, bytes) ← no_errors (
        encode_payload_file (algs.hash config.hash_algorithm) (coder_named algs config.compression)
          config.deduplicate config.chunker contents config.index)
    ok (
      some (record {
        hash_algorithm = config.hash_algorithm;
        compression = config.compression;
        blocks = encoding;
      }),
      bytes,
    )

  unfoldable pub prepare_payload : Payload → BundleResult (PayloadEntry × PreparedPayload)
  prepare_payload p = do
    (encoding, bytes) ← encode_payload p.block_encoding p.contents
    raw ← to_vec payload_format payload_header_tag (record { block_encoding = encoding })
    ok (
      record {
        delivery = p.delivery;
        header_hash = hash_of h raw;
        file_hash = hash_of h p.contents;
      },
      record { payload_header = raw; payload_data = bytes },
    )

  unfoldable pub prepare_payloads :
      List Payload → BundleResult (List PayloadEntry × List PreparedPayload)
  prepare_payloads [] = ok ([], [])
  prepare_payloads (p ∷ ps) = do
    (entry, prepared) ← prepare_payload p
    (entries, rest) ← prepare_payloads ps
    ok (entry ∷ entries, prepared ∷ rest)

  -- `pack`: the bundle, and the hash of its header.
  unfoldable pub pack :
      Format BundleHeader → Option (List ℕ) → Bool → List Payload → BundleResult (List ℕ × List ℕ)
  pack header_format manifest is_incremental payloads = do
    (entries, prepared) ← prepare_payloads payloads
    let header : BundleHeader = record {
      manifest = manifest;
      is_incremental = is_incremental;
      payload_index = entries;
    }
    raw ← to_vec header_format bundle_header_tag header
    bundle ← write_bundle header_format header prepared
    ok (bundle, hash_of h raw)

abbrev pub contents_of : List Payload → List (List ℕ)
contents_of [] = []
contents_of (p ∷ ps) = p.contents ∷ contents_of ps

module _ (algs : Algorithms) (h : HashAlgorithm) (provider : Provider) (Known : List ℕ → Type 0)
    (pos : (n : ℕ) → 0 < (algs.hash n).hash_size)
    (free : (n : ℕ) → CollisionFree (algs.hash n) Known) (serves : Serves provider Known)
    (payload_format : Format PayloadHeader) where
  -- The index of a block encoding is that of blocks that make up the contents.
  abbrev pub Encodable : Option BlockConfig → List ℕ → Type 0
  Encodable none contents = Unit
  Encodable (some config) contents =
      (blocks : List (List ℕ)) × (contents ≡ flatten blocks)
      × (config.index ≡ index_of (algs.hash config.hash_algorithm) blocks)
      × All Known blocks
      × Sized (coder_named algs config.compression) config.chunker blocks
      × All (λ b. Short (compressed (coder_named algs config.compression) b)) blocks

  -- The sizes are in their limits, and a header that is written like this is decoded to itself.
  abbrev pub Fitting : PreparedPayload → Type 0
  Fitting p =
      (length p.payload_data < 2 ^ 63 + 127)
      × (length p.payload_header ≤ payload_header_size_limit)
      × ((header : PayloadHeader)
          → to_vec payload_format payload_header_tag header ≡ ok p.payload_header
          → AllWritable (payload_format.fields header)
            × (payload_format.decode_slice p.payload_header ≡ ok header))

  encode_payload-Stored :
      (config : Option BlockConfig) (contents : List ℕ) (encoding : Option NamedEncoding)
      (bytes : List ℕ)
      → Encodable config contents
      → encode_payload algs h payload_format config contents ≡ ok (encoding, bytes)
      → Stored algs h provider Known encoding bytes contents
  encode_payload-Stored none contents encoding bytes ok_for e =
      let same : none ≡ encoding = cc in
      let same' : contents ≡ bytes = cc in
      subst (λ (o : Option NamedEncoding). Stored algs h provider Known o bytes contents) same
        (subst (λ (bs : List ℕ). Stored algs h provider Known none bs contents) same'
          (plain contents))
  encode_payload-Stored (some config) contents encoding bytes
        (blocks, is_contents, is_index, known, sized, short) e =
      let ((made, bytes'), e1, h1) =
        >>=-eq-ok
          (no_errors (
            encode_payload_file (algs.hash config.hash_algorithm)
              (coder_named algs config.compression) config.deduplicate config.chunker contents
              config.index))
          _ e in
      let is_encoded =
        no_errors-ok
          (encode_payload_file (algs.hash config.hash_algorithm)
            (coder_named algs config.compression) config.deduplicate config.chunker contents
            config.index)
          (made, bytes') e1 in
      let named : NamedEncoding = record {
        hash_algorithm = config.hash_algorithm;
        compression = config.compression;
        blocks = made;
      } in
      let same : some named ≡ encoding = cc in
      let same' : bytes' ≡ bytes = cc in
      let stored =
        encoded config.hash_algorithm config.compression config.deduplicate config.chunker blocks
          made bytes' known sized short (rw (is_contents, is_index) at is_encoded) in
      subst (λ (o : Option NamedEncoding). Stored algs h provider Known o bytes contents) same
        (subst (λ (bs : List ℕ). Stored algs h provider Known (some named) bs contents) same'
          (subst (λ (cs : List ℕ). Stored algs h provider Known (some named) bytes' cs)
            (sym is_contents) stored))

  prepare_payload-Packed :
      (p : Payload) (entry : PayloadEntry) (prepared : PreparedPayload)
      → Encodable p.block_encoding p.contents
      → prepare_payload algs h payload_format p ≡ ok (entry, prepared)
      → Fitting prepared
      → Packed algs h provider Known pos free serves payload_format entry prepared p.contents
  unfolding prepare_payload
  prepare_payload-Packed p entry prepared ok_for e (small, le, lawful) =
      let ((encoding, bytes), e1, h1) =
        >>=-eq-ok (encode_payload algs h payload_format p.block_encoding p.contents) _ e in
      let (raw, e2, h2) =
        >>=-eq-ok (to_vec payload_format payload_header_tag (record { block_encoding = encoding }))
          _ h1 in
      let is_raw : raw ≡ prepared.payload_header = cc in
      let is_data : bytes ≡ prepared.payload_data = cc in
      let is_header : to_vec payload_format payload_header_tag
            (record { block_encoding = encoding })
          ≡ ok prepared.payload_header =
        e2 ∙ ap ok is_raw in
      let (writable, decodes) = lawful (record { block_encoding = encoding }) is_header in
      let header_hash : entry.header_hash ≡ hash_of h raw = cc in
      let file_hash : entry.file_hash ≡ hash_of h p.contents = cc in
      record {
        header = record { block_encoding = encoding };
        writable = writable;
        is_header = is_header;
        in_limit = le;
        decodes = decodes;
        short = small;
        header_hash = header_hash ∙ ap (hash_of h) is_raw;
        file_hash = file_hash;
        stored =
            subst (λ (bs : List ℕ). Stored algs h provider Known encoding bs p.contents) is_data
              (encode_payload-Stored p.block_encoding p.contents encoding bytes ok_for e1);
      }

  prepare_payloads-AllPacked :
      (ps : List Payload) (entries : List PayloadEntry) (prepared : List PreparedPayload)
      → All (λ p. Encodable p.block_encoding p.contents) ps
      → prepare_payloads algs h payload_format ps ≡ ok (entries, prepared)
      → All Fitting prepared
      → AllPacked algs h provider Known pos free serves payload_format entries prepared
          (contents_of ps)
  unfolding prepare_payloads
  prepare_payloads-AllPacked [] [] [] ok_for e fit = tt
  prepare_payloads-AllPacked [] (x ∷ xs) prepared ok_for e fit = cc
  prepare_payloads-AllPacked [] [] (x ∷ xs) ok_for e fit = cc
  prepare_payloads-AllPacked (p ∷ ps) entries prepared (first, ok_for) e fit =
      let ((entry, made), e1, h1) = >>=-eq-ok (prepare_payload algs h payload_format p) _ e in
      let ((entries', rest), e2, h2) = >>=-eq-ok (prepare_payloads algs h payload_format ps) _ h1 in
      let same : entry ∷ entries' ≡ entries = cc in
      let same' : made ∷ rest ≡ prepared = cc in
      let (fit1, fits) = subst (All Fitting) (sym same') fit in
      subst
        (λ (es : List PayloadEntry).
          AllPacked algs h provider Known pos free serves payload_format es prepared
            (contents_of (p ∷ ps)))
        same
        (subst
          (λ (xs : List PreparedPayload).
            AllPacked algs h provider Known pos free serves payload_format (entry ∷ entries') xs
              (contents_of (p ∷ ps)))
          same'
          (
            prepare_payload-Packed p entry made first e1 fit1,
            prepare_payloads-AllPacked ps entries' rest ok_for e2 fits,
          ))

  -- A bundle that was packed of payloads, each as it is or in the blocks of its index, with a hash
  -- algorithm and a compression of its own, is read back whole: a reader that is given the hash
  -- that packing returned opens it, and decodes the payloads one after the other, each to its
  -- contents; behind the last one there are no more. Conditions: no two of the known byte strings,
  -- which the blocks and what the provider stores are among, share a hash in any of the
  -- algorithms; block hashes are not empty; blocks are written in less than 2^32 bytes, and only
  -- the last one of a chunker of fixed size is shorter than that size; the headers are within
  -- their limits, and what they are written to is decoded to them.
  pub pack-unpacks :
      (header_format : Format BundleHeader) (signatures_format : Format Signatures)
      (manifest : Option (List ℕ)) (is_incremental : Bool) (payloads : List Payload)
      (entries : List PayloadEntry) (prepared : List PreparedPayload) (raw bundle digest : List ℕ)
      → All (λ p. Encodable p.block_encoding p.contents) payloads
      → prepare_payloads algs h payload_format payloads ≡ ok (entries, prepared)
      → All Fitting prepared
      → let header : BundleHeader = record {
        manifest = manifest;
        is_incremental = is_incremental;
        payload_index = entries;
      } in
        AllWritable (header_format.fields header)
        → to_vec header_format bundle_header_tag header ≡ ok raw
        → length raw ≤ bundle_header_size_limit
        → header_format.decode_slice raw ≡ ok header
        → pack algs h payload_format header_format manifest is_incremental payloads
          ≡ ok (bundle, digest)
        → (r : BundleReader) × (r' : BundleReader) × (open_bundle header_format signatures_format h
              (some digest)
              bundle
            ≡ ok r)
          × Reads algs h provider payload_format r (numbered 0 (contents_of payloads)) r'
          × (next_payload h payload_format r' ≡ ok none)
  unfolding pack
  pack-unpacks header_format signatures_format manifest is_incremental payloads entries prepared raw
        bundle digest encodable is_prepared fit writable is_raw le decodes e =
      let header : BundleHeader = record {
        manifest = manifest;
        is_incremental = is_incremental;
        payload_index = entries;
      } in
      let ((entries', prepared'), e1, h1) =
        >>=-eq-ok (prepare_payloads algs h payload_format payloads) _ e in
      let same : entries' ≡ entries = cc in
      let same' : prepared' ≡ prepared = cc in
      let h1' = rw (same, same') at h1 in
      let (raw', e2, h2) = >>=-eq-ok (to_vec header_format bundle_header_tag header) _ h1' in
      let (bundle', e3, h3) = >>=-eq-ok (write_bundle header_format header prepared) _ h2 in
      let same_raw : raw' ≡ raw = cc in
      let same_bundle : bundle' ≡ bundle = cc in
      let is_digest : hash_of h raw ≡ digest = cc in
      unpacks algs h provider Known pos free serves payload_format header_format signatures_format h
        (some digest) header prepared (contents_of payloads) raw bundle writable is_raw le decodes
        (rw is_digest (bytes_eq_refl digest))
        (prepare_payloads-AllPacked payloads entries prepared encodable is_prepared fit)
        (e3 ∙ ap ok same_bundle)
