-- ===== src/Bundle/Unpacking.antt =====
-- All payloads of a bundle that was built are read back.
use rugix.Common.{
  ℕ, ◌+◌, ◌≤◌, ◌<◌, ◌^◌, ◌≡◌, refl, sym, ap, subst, ◌∙◌, Bool, true, Option, none, some, List, [],
  ◌∷◌, ◌++◌, append_assoc, append-nil, flatten, length, length-append, get_elem?,
  get_elem?-append_length, All, arith,
}
use rugix.Common.Result.{ok, >>=-eq-ok}
use rugix.Stlv.{value, start, end, Source, write_atom_head}
use rugix.Stlv.Skip.{AllWritable}
use rugix.BlockIndex.{HashAlgorithm, hash_of}
use rugix.BlockIndex.Build.{index_of}
use rugix.Chunker.Algorithm.{ChunkerAlgorithm}
use rugix.BlockCodec.{compressed, BlockEncoding, encode_payload_file}
use rugix.BlockCodec.Decode.{file, Provider, decode_into}
use rugix.BlockCodec.Integrity.{bytes_eq_refl}
use rugix.BlockCodec.Sizes.{Short}
use rugix.BlockCodec.Blocks.{CollisionFree, Serves}
use rugix.BlockCodec.Plain.{decode_into-plain}
use rugix.BlockCodec.Roundtrip.{Sized, decode_into-encode_payload_file}
use rugix.Bundle.{
  BundleHeader, PayloadEntry, PayloadHeader, Signatures, Format, to_vec, BundleReader,
  PayloadReader, NamedEncoding, Algorithms, coder_named, hash_for, coder_for, blocks_of, DecodedBy,
  header_matches, open_bundle, open_payload, next_payload, decode_payload, PreparedPayload,
  write_payload, write_payloads, write_bundle, bundle_header_tag, payload_tag, payload_header_tag,
  payload_data_tag, bundle_header_size_limit, payload_header_size_limit,
}
use rugix.Bundle.Authentic.{Reads, opened, decoded}
use rugix.Bundle.Opening.{
  expect-written, ignore_start-written, skip_until_end-found, skip_until_value-found, copied,
  open_bundle-write_bundle,
}

get_elem?-past : {A : Type 0} (xs : List A) → get_elem? xs (length xs) ≡ none
get_elem?-past [] = refl
get_elem?-past (x ∷ xs) = get_elem?-past xs

abbrev pub numbered : ℕ → List (List ℕ) → List (ℕ × List ℕ)
numbered i [] = []
numbered i (f ∷ fs) = (i, f) ∷ numbered (i + 1) fs

same_files :
    (seen : List (ℕ × List ℕ)) (i next : ℕ) (f : List ℕ) (fs : List (List ℕ))
    → next ≡ i + 1
    → (seen ++ (i, f) ∷ []) ++ numbered next fs ≡ seen ++ numbered i (f ∷ fs)
same_files seen i next f fs e = rw e (append_assoc seen ((i, f) ∷ []) (numbered (i + 1) fs))

module _ (algs : Algorithms) (h : HashAlgorithm) (provider : Provider)
    (Known : List ℕ → Type 0) where
  -- How the builder stores a file: as it is, or as the encoding of the blocks that its index
  -- lists, with algorithms of its own.
  pub data Stored : Option NamedEncoding → List ℕ → List ℕ → Type 0 where
    plain : (contents : List ℕ) → Stored none contents contents
    encoded :
        (name : ℕ) (coder : Option ℕ) (deduplicate : Bool) (chunker : ChunkerAlgorithm)
        (blocks : List (List ℕ)) (encoding : BlockEncoding) (bytes : List ℕ)
        → All Known blocks
        → Sized (coder_named algs coder) chunker blocks
        → All (λ b. Short (compressed (coder_named algs coder) b)) blocks
        → encode_payload_file
            (algs.hash name)
            (coder_named algs coder)
            deduplicate
            chunker
            (flatten blocks)
            (index_of (algs.hash name) blocks)
          ≡ ok (encoding, bytes)
        → Stored
            (some (record { hash_algorithm = name; compression = coder; blocks = encoding }))
            bytes
            (flatten blocks)

  abbrev Restored :
      (e : Option NamedEncoding) → List ℕ → Source → DecodedBy algs h file provider e → Type 0
  Restored e contents rest d = (d.target ≡ contents) × (d.source ≡ rest)

  module _ (pos : (n : ℕ) → 0 < (algs.hash n).hash_size)
      (free : (n : ℕ) → CollisionFree (algs.hash n) Known) (serves : Serves provider Known) where
    Stored-Restored :
        (encoding : Option NamedEncoding) (bytes contents : List ℕ) (rest : Source)
        → Stored encoding bytes contents
        → (d : DecodedBy algs h file provider encoding) × (decode_into
              (hash_for algs h encoding)
              h
              (coder_for algs encoding)
              file
              provider
              (blocks_of encoding)
              (hash_of h contents)
              (length bytes)
              []
              (bytes ++ rest)
            ≡ ok d)
          × Restored encoding contents rest d
    Stored-Restored _ _ _ rest (plain contents) =
        let (d, e, target, size, source) = decode_into-plain h h none provider rest contents in
        (d, e, (target, source))
    Stored-Restored _ _ _ rest
          (encoded name coder deduplicate chunker blocks encoding bytes known sized short
            is_encoded) =
        let (encoding', bytes', is_encoded', (d, e, target, size, source)) =
          decode_into-encode_payload_file (algs.hash name) h (coder_named algs coder) provider Known
            deduplicate chunker blocks rest (pos name) (free name) serves known sized short in
        let same : encoding' ≡ encoding = cc in
        let same' : bytes' ≡ bytes = cc in (d, rw (same, same') at e, (target, source))

    module _ (payload_format : Format PayloadHeader) where
      -- What the builder prepares for a file: the entry in the header's index, the payload's
      -- header and its data. The payload's header is written in 32 MiB at most, and decoded to
      -- what it was.
      pub record Packed (entry : PayloadEntry) (prepared : PreparedPayload) (contents : List ℕ)
          : Type 0 where
        pub header : PayloadHeader
        pub writable : AllWritable (payload_format.fields header)
        pub is_header : to_vec payload_format payload_header_tag header ≡ ok prepared.payload_header
        pub in_limit : length prepared.payload_header ≤ payload_header_size_limit
        pub decodes : payload_format.decode_slice prepared.payload_header ≡ ok header
        pub short : length prepared.payload_data < 2 ^ 63 + 127
        pub header_hash : entry.header_hash ≡ hash_of h prepared.payload_header
        pub file_hash : entry.file_hash ≡ hash_of h contents
        pub stored : Stored header.block_encoding prepared.payload_data contents

      abbrev behind : BundleReader → Source → BundleReader
      behind r rest = record r { source = rest; next_payload = r.next_payload + 1 }

      module _ (r : BundleReader) (entry : PayloadEntry) (prepared : PreparedPayload)
          (contents bytes : List ℕ) (rest : Source) where
        open_payload-written :
            (p : Packed entry prepared contents) (ob hb eb : List ℕ)
            → write_atom_head (start payload_tag) ≡ ok ob
            → write_atom_head (value payload_data_tag (length prepared.payload_data)) ≡ ok hb
            → r.source
              ≡ ob ++ (prepared.payload_header ++ (hb ++ (prepared.payload_data ++ (eb ++ rest))))
            → open_payload h payload_format r entry
              ≡ ok (record {
                idx = r.next_payload;
                reader = behind r (prepared.payload_data ++ (eb ++ rest));
                header = p.header;
                remaining_data = length prepared.payload_data;
              })
        unfolding open_payload
        open_payload-written p ob hb eb e1 e2 source =
            let data_source = prepared.payload_data ++ (eb ++ rest) in
            let (s, found, read) =
              copied payload_format payload_header_tag p.header prepared.payload_header
                payload_header_size_limit (hb ++ data_source) p.writable p.is_header p.in_limit in
            let data_found =
              skip_until_value-found (hb ++ data_source) data_source payload_data_tag
                (length prepared.payload_data)
                (expect-written (value payload_data_tag (length prepared.payload_data)) hb p.short
                  e2 data_source) in
            rw
              (
                source,
                ignore_start-written payload_tag ob e1
                    (prepared.payload_header ++ (hb ++ data_source)),
                found,
                read,
                p.header_hash,
                bytes_eq_refl (hash_of h prepared.payload_header),
                data_found,
                p.decodes,
              )
              refl

        decode_payload-written :
            (p : Packed entry prepared contents) (eb : List ℕ)
            → write_atom_head (end payload_tag) ≡ ok eb
            → get_elem? r.header.payload_index r.next_payload ≡ some entry
            → (d : DecodedBy algs h file provider p.header.block_encoding) × (decode_payload algs h
                  file provider
                  (record {
                    idx = r.next_payload;
                    reader = behind r (prepared.payload_data ++ (eb ++ rest));
                    header = p.header;
                    remaining_data = length prepared.payload_data;
                  })
                  []
                ≡ ok (d, behind r rest))
              × (d.target ≡ contents)
        unfolding decode_payload
        decode_payload-written p eb e3 at =
            let (d, e, (target, source)) =
              Stored-Restored p.header.block_encoding prepared.payload_data contents (eb ++ rest)
                p.stored in
            let ended =
              skip_until_end-found (eb ++ rest) rest payload_tag
                (expect-written (end payload_tag) eb tt e3 rest) in
            (d, rw (at, p.file_hash, e, source, ended) refl, target)

        -- One payload is read back.
        payload-read :
            Packed entry prepared contents
            → write_payload prepared ≡ ok bytes
            → r.source ≡ bytes ++ rest
            → get_elem? r.header.payload_index r.next_payload ≡ some entry
            → (p : PayloadReader) × (d : DecodedBy algs h file provider p.header.block_encoding)
              × (next_payload h payload_format r ≡ ok (some p))
              × (decode_payload algs h file provider p [] ≡ ok (d, behind r rest))
              × (p.idx ≡ r.next_payload)
              × (d.target ≡ contents)
        unfolding write_payload next_payload
        payload-read p w source at =
            let (ob, e1, h1) = >>=-eq-ok (write_atom_head (start payload_tag)) _ w in
            let (hb, e2, h2) =
              >>=-eq-ok (write_atom_head (value payload_data_tag (length prepared.payload_data))) _
                h1 in
            let (eb, e3, h3) = >>=-eq-ok (write_atom_head (end payload_tag)) _ h2 in
            let parts : ob ++ (prepared.payload_header ++ (hb ++ (prepared.payload_data ++ eb)))
                ≡ bytes =
              cc in
            let split : r.source
                ≡ ob
                  ++ (prepared.payload_header ++ (hb ++ (prepared.payload_data ++ (eb ++ rest)))) =
              source
              ∙ ap (λ (xs : List ℕ). xs ++ rest) (sym parts)
              ∙ assoc ob prepared.payload_header hb prepared.payload_data eb in
            let is_open = open_payload-written p ob hb eb e1 e2 split in
            let (d, e, target) = decode_payload-written p eb e3 at in
            (_, d, rw (at, is_open) refl, e, refl, target)
          where
            assoc :
                (u v w x y : List ℕ)
                → (u ++ (v ++ (w ++ (x ++ y)))) ++ rest ≡ u ++ (v ++ (w ++ (x ++ (y ++ rest))))
            assoc u v w x y = simp append_assoc

      -- Entries, what was prepared, and files, one for one.
      abbrev pub AllPacked : List PayloadEntry → List PreparedPayload → List (List ℕ) → Type 0
      AllPacked [] [] [] = Unit
      AllPacked (e ∷ es) (p ∷ ps) (f ∷ fs) = Packed e p f × AllPacked es ps fs
      AllPacked _ _ _ = ⊥

      reads-all :
          (r0 r : BundleReader) (seen : List (ℕ × List ℕ)) (pre es : List PayloadEntry)
          (ps : List PreparedPayload) (fs : List (List ℕ)) (written : List ℕ) (trailer : Source)
          → Reads algs h provider payload_format r0 seen r
          → r.header.payload_index ≡ pre ++ es
          → r.next_payload ≡ length pre
          → r.source ≡ written ++ trailer
          → write_payloads ps ≡ ok written
          → AllPacked es ps fs
          → (r' : BundleReader) × Reads algs h provider payload_format r0
              (seen ++ numbered (length pre) fs)
              r'
            × (next_payload h payload_format r' ≡ ok none)
      unfolding write_payloads next_payload
      reads-all r0 r seen pre [] [] [] written trailer reads index next source w all =
          (r, rw append-nil reads, rw (index, next, append-nil, get_elem?-past pre) refl)
      reads-all r0 r seen pre (e ∷ es) (p ∷ ps) (f ∷ fs) written trailer reads index next source w
            (packed, all) =
          let (bytes, w1, h1) = >>=-eq-ok (write_payload p) _ w in
          let (written', w2, h2) = >>=-eq-ok (write_payloads ps) _ h1 in
          let parts : bytes ++ written' ≡ written = cc in
          let split : r.source ≡ bytes ++ (written' ++ trailer) =
            source
            ∙ ap (λ (xs : List ℕ). xs ++ trailer) (sym parts)
            ∙ append_assoc bytes written' trailer in
          let at : get_elem? r.header.payload_index r.next_payload ≡ some e =
            rw (index, next) (get_elem?-append_length pre e es) in
          let (q, d, is_next, run, idx, target) =
            payload-read r e p f bytes (written' ++ trailer) packed w1 split at in
          let one_more : length (pre ++ e ∷ []) ≡ length pre + 1 =
            length-append pre (e ∷ []) ∙ omega arith in
          let reads' =
            rw (idx ∙ next, target) at
              (decoded r0 r (behind r (written' ++ trailer)) seen q d reads is_next run) in
          let (r', all_read, ended) =
            reads-all r0 (behind r (written' ++ trailer)) (seen ++ (length pre, f) ∷ [])
              (pre ++ e ∷ []) es ps fs written' trailer reads'
              (index ∙ sym (append_assoc pre (e ∷ []) es))
              (ap (λ (n : ℕ). n + 1) next ∙ sym one_more) refl w2 all in
          (
            r',
            subst (λ (read : List (ℕ × List ℕ)). Reads algs h provider payload_format r0 read r')
                (same_files seen (length pre) (length (pre ++ e ∷ [])) f fs one_more) all_read,
            ended,
          )
      reads-all r0 r seen pre (e ∷ es) [] fs written trailer reads index next source w all =
          absurd all
      reads-all r0 r seen pre [] (p ∷ ps) fs written trailer reads index next source w all =
          absurd all
      reads-all r0 r seen pre [] [] (f ∷ fs) written trailer reads index next source w all =
          absurd all
      reads-all r0 r seen pre (e ∷ es) (p ∷ ps) [] written trailer reads index next source w all =
          absurd all

      -- A bundle that was built of files, each stored as it is or in blocks, is read back whole:
      -- it is opened, with the digest of its header or with none; its payloads are then decoded
      -- one after the other, each into the file that it was made of; and behind the last one there
      -- are no more. Conditions: no two of the known byte strings, which the blocks and what the
      -- provider stores are among, share a hash; block hashes are not empty; the headers are
      -- within their limits, and their bytes are decoded to them.
      pub unpacks :
          (header_format : Format BundleHeader) (signatures_format : Format Signatures)
          (k : HashAlgorithm) (digest : Option (List ℕ)) (header : BundleHeader)
          (prepared : List PreparedPayload) (files : List (List ℕ)) (raw bundle : List ℕ)
          → AllWritable (header_format.fields header)
          → to_vec header_format bundle_header_tag header ≡ ok raw
          → length raw ≤ bundle_header_size_limit
          → header_format.decode_slice raw ≡ ok header
          → header_matches k digest raw ≡ true
          → AllPacked header.payload_index prepared files
          → write_bundle header_format header prepared ≡ ok bundle
          → (r : BundleReader) × (r' : BundleReader) × (open_bundle header_format signatures_format
                k digest bundle
              ≡ ok r)
            × Reads algs h provider payload_format r (numbered 0 files) r'
            × (next_payload h payload_format r' ≡ ok none)
      unpacks header_format signatures_format k digest header prepared files raw bundle writable
            is_raw le decodes matches packed w =
          let (written, trailer, is_written, is_open) =
            open_bundle-write_bundle header_format signatures_format k digest header prepared raw
              bundle writable is_raw le decodes matches w in
          let r : BundleReader = record {
            source = written ++ trailer;
            header = header;
            header_raw = raw;
            signatures = none;
            next_payload = 0;
          } in
          let (r', reads, ended) =
            reads-all r r [] [] header.payload_index prepared files written trailer (opened r) refl
              refl refl is_written packed in
          (r, r', is_open, reads, ended)
