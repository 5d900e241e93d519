-- ===== src/Bundle/Authentic.antt =====
-- What a reader trusts: the header by its hash, and the payloads by the header.
use rugix.Common.{
  ℕ, ◌≡◌, refl, sym, ap, ◌∙◌, Option, none, some, List, [], ◌∷◌, ◌++◌, get_elem?, All, All-append,
}
use rugix.Common.Result.{ok, guard, unwrap, >>=-eq-ok}
use rugix.Stlv.{Source, BundleResult, skip_bytes, invalid_header_hash, invalid_payload_header_hash}
use rugix.BlockIndex.{HashAlgorithm, hash_of}
use rugix.BlockCodec.{bytes_eq}
use rugix.BlockCodec.Decode.{file, Provider, decode_into}
use rugix.BlockCodec.Integrity.{bytes_eq_sound, guard_ok, decode_into_hash}
use rugix.Reader.{skip_until_start, skip_until_end, skip_until_value, ignore_start, read_into_vec}
use rugix.Bundle.{
  BundleHeader, PayloadEntry, PayloadHeader, Signatures, Format, BundleReader, PayloadReader,
  read_optional_metadata, header_matches, open_bundle, open_payload, open_entry, next_payload,
  skip_payload, decode_payload, Algorithms, hash_for, coder_for, blocks_of, DecodedBy,
  bundle_header_tag, payload_header_tag, payload_data_tag, payload_tag, bundle_header_size_limit,
  payload_header_size_limit,
}

unwrap-some :
    {A : Type 0} (o : Option A) (x : A) → ◌≡◌ {A = BundleResult A} (unwrap o) (ok x) → o ≡ some x
unwrap-some none x p = cc
unwrap-some (some y) x p = cc

module _ (header_format : Format BundleHeader) (signatures_format : Format Signatures)
    (k : HashAlgorithm) (digest : List ℕ) where
  -- The header is that of bytes with the digest.
  abbrev pub Trusted : BundleReader → Type 0
  Trusted r =
      (hash_of k r.header_raw ≡ digest) × (header_format.decode_slice r.header_raw ≡ ok r.header)

  open_bundle-Trusted :
      (source : Source) (r : BundleReader)
      → open_bundle header_format signatures_format k (some digest) source ≡ ok r
      → Trusted r
  unfolding open_bundle
  open_bundle-Trusted source r e =
      let ((head, s1), e1, h1) =
        >>=-eq-ok (skip_until_start bundle_header_tag (ignore_start source)) _ e in
      let ((raw, s2), e2, h2) =
        >>=-eq-ok (read_into_vec [] head bundle_header_size_limit s1) _ h1 in
      let (u, e3, h3) =
        >>=-eq-ok (guard (header_matches k (some digest) raw) invalid_header_hash) _ h2 in
      let (header, e4, h4) = >>=-eq-ok (header_format.decode_slice raw) _ h3 in
      let ((signatures, s3), e5, h5) =
        >>=-eq-ok (read_optional_metadata signatures_format s2) _ h4 in
      let is_raw : r.header_raw ≡ raw = cc in
      let is_header : r.header ≡ header = cc in
      let matches =
        bytes_eq_sound (hash_of k raw) digest
          (guard_ok (bytes_eq (hash_of k raw) digest) invalid_header_hash e3) in
      (ap (hash_of k) is_raw ∙ matches, rw (is_raw, is_header) e4)

module _ (algs : Algorithms) (h : HashAlgorithm) (provider : Provider)
    (payload_format : Format PayloadHeader) where
  -- Decodings of payloads into files, with the payloads' numbers, and skips, in any order.
  pub data Reads : BundleReader → List (ℕ × List ℕ) → BundleReader → Type 0 where
    opened : (r : BundleReader) → Reads r [] r
    decoded :
        (r r1 r2 : BundleReader) (files : List (ℕ × List ℕ)) (p : PayloadReader)
        (d : DecodedBy algs h file provider p.header.block_encoding)
        → Reads r files r1
        → next_payload h payload_format r1 ≡ ok (some p)
        → decode_payload algs h file provider p [] ≡ ok (d, r2)
        → Reads r (files ++ (p.idx, d.target) ∷ []) r2
    skipped :
        (r r1 r2 : BundleReader) (files : List (ℕ × List ℕ)) (p : PayloadReader)
        → Reads r files r1
        → next_payload h payload_format r1 ≡ ok (some p)
        → skip_payload p ≡ ok r2
        → Reads r files r2

  abbrev SameHeader : BundleReader → BundleReader → Type 0
  SameHeader r r' = (r'.header ≡ r.header) × (r'.header_raw ≡ r.header_raw)

  next_payload-SameHeader :
      (r : BundleReader) (p : PayloadReader)
      → next_payload h payload_format r ≡ ok (some p)
      → SameHeader r p.reader
  unfolding next_payload open_payload
  next_payload-SameHeader r p e = known (get_elem? r.header.payload_index r.next_payload) e
    where
      known :
          (o : Option PayloadEntry)
          → open_entry h payload_format r o ≡ ok (some p)
          → SameHeader r p.reader
      known none q = cc
      known (some entry) q =
          let (p', e1, h1) = >>=-eq-ok (open_payload h payload_format r entry) _ q in
          let same : p' ≡ p = cc in
          let ((head, s1), f1, g1) =
            >>=-eq-ok (skip_until_start payload_header_tag (ignore_start r.source)) _ e1 in
          let ((raw, s2), f2, g2) =
            >>=-eq-ok (read_into_vec [] head payload_header_size_limit s1) _ g1 in
          let (u, f3, g3) =
            >>=-eq-ok
              (guard (bytes_eq (hash_of h raw) entry.header_hash) invalid_payload_header_hash) _
              g2 in
          let ((remaining, s3), f4, g4) = >>=-eq-ok (skip_until_value payload_data_tag s2) _ g3 in
          let (header, f5, g5) = >>=-eq-ok (payload_format.decode_slice raw) _ g4 in (cc, cc)

  -- The file is the one that the entry of its number names.
  abbrev pub Listed : BundleHeader → ℕ × List ℕ → Type 0
  Listed header (idx, contents) =
      (entry : PayloadEntry) × (get_elem? header.payload_index idx ≡ some entry)
      × (hash_of h contents ≡ entry.file_hash)

  decode_payload-Listed :
      (p : PayloadReader) (d : DecodedBy algs h file provider p.header.block_encoding)
      (r : BundleReader)
      → decode_payload algs h file provider p [] ≡ ok (d, r)
      → SameHeader p.reader r × Listed p.reader.header (p.idx, d.target)
  unfolding decode_payload
  decode_payload-Listed p d r e =
      let (entry, e1, h1) =
        >>=-eq-ok (unwrap (get_elem? p.reader.header.payload_index p.idx)) _ e in
      let (d', e2, h2) =
        >>=-eq-ok
          (decode_into (hash_for algs h p.header.block_encoding) h
            (coder_for algs p.header.block_encoding) file provider
            (blocks_of p.header.block_encoding) entry.file_hash p.remaining_data [] p.reader.source)
          _ h1 in
      let (s, e3, h3) = >>=-eq-ok (skip_until_end payload_tag d'.source) _ h2 in
      let same : d' ≡ d = cc in
      let (hash, _, _) =
        decode_into_hash (hash_for algs h p.header.block_encoding) h
          (coder_for algs p.header.block_encoding) provider (blocks_of p.header.block_encoding)
          entry.file_hash p.remaining_data p.reader.source d' e2 in
      (
        ((cc), (cc)),
        (
          entry,
          unwrap-some (get_elem? p.reader.header.payload_index p.idx) entry e1,
          rw same at hash,
        ),
      )

  skip_payload-SameHeader :
      (p : PayloadReader) (r : BundleReader) → skip_payload p ≡ ok r → SameHeader p.reader r
  unfolding skip_payload
  skip_payload-SameHeader p r e =
      let (s, e1, h1) = >>=-eq-ok (skip_bytes p.remaining_data p.reader.source) _ e in
      let (s', e2, h2) = >>=-eq-ok (skip_until_end payload_tag s) _ h1 in (cc, cc)

  Reads-Listed :
      (r r' : BundleReader) (files : List (ℕ × List ℕ))
      → Reads r files r'
      → SameHeader r r' × All (Listed r.header) files
  Reads-Listed _ _ _ (opened r) = ((refl, refl), tt)
  Reads-Listed _ _ _ (decoded r r1 r2 files p d before next run) =
      let (same, listed) = Reads-Listed r r1 files before in
      let same1 = next_payload-SameHeader r1 p next in
      let (same2, (entry, place, hash)) = decode_payload-Listed p d r2 run in
      let header : p.reader.header ≡ r.header = same1.0 ∙ same.0 in
      (
        (same2.0 ∙ header, same2.1 ∙ same1.1 ∙ same.1),
        All-append (Listed r.header) files ((p.idx, d.target) ∷ []) listed (
          (
            entry,
            ap (λ (x : BundleHeader). get_elem? x.payload_index p.idx) (sym header) ∙ place,
            hash,
          ),
          tt,
        ),
      )
  Reads-Listed _ _ _ (skipped r r1 r2 files p before next run) =
      let (same, listed) = Reads-Listed r r1 files before in
      let same1 = next_payload-SameHeader r1 p next in
      let same2 = skip_payload-SameHeader p r2 run in
      ((same2.0 ∙ same1.0 ∙ same.0, same2.1 ∙ same1.1 ∙ same.1), listed)

  -- Whatever source delivers the bundle, whatever algorithms its payloads' headers name, and
  -- whatever a provider answers: when a reader that was started with a digest has decoded payloads
  -- into files, skipping others, its header is decoded from bytes that have the digest, and every
  -- file has the hash that the header's entry of its payload's number names.
  pub reads_authentic :
      (header_format : Format BundleHeader) (signatures_format : Format Signatures)
      (k : HashAlgorithm) (digest : List ℕ) (source : Source) (r r' : BundleReader)
      (files : List (ℕ × List ℕ))
      → open_bundle header_format signatures_format k (some digest) source ≡ ok r
      → Reads r files r'
      → (hash_of k r'.header_raw ≡ digest)
        × (header_format.decode_slice r'.header_raw ≡ ok r'.header)
        × All (Listed r'.header) files
  reads_authentic header_format signatures_format k digest source r r' files e reads =
      let (hash, header) =
        open_bundle-Trusted header_format signatures_format k digest source r e in
      let (same, listed) = Reads-Listed r r' files reads in
      (rw same.1 hash, rw (same.1, same.0) header, rw same.0 listed)
