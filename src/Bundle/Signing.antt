-- ===== src/Bundle/Signing.antt =====
-- crates/libs/rugix-bundle/src/lib.rs: `bundle_hash` and `add_bundle_signature`. A file is the list of its
-- bytes; the output of a failed call is not looked at.
use rugix.Common.{
  ℕ, suc, ◌-◌, ◌≤◌, ◌≡◌, refl, sym, ◌∙◌, true, Option, none, some, List, [], ◌∷◌, ◌++◌, length,
  length-append, arith,
}
use rugix.Common.Result.{ok, ◌>>=◌}
use rugix.Stlv.{Tag, start, Source, BundleResult, write_atom_head}
use rugix.Stlv.Skip.{AllWritable, tag_eq_refl}
use rugix.BlockIndex.{HashAlgorithm, hash_of}
use rugix.Reader.{expect_atom_head, expect_start, read_into_vec}
use rugix.Reader.Copy.{read_into_vec-write_forest}
use rugix.Bundle.{
  BundleHeader, Signatures, Format, to_vec, metadata_next, metadata_loop, read_optional_metadata,
  header_matches, open_bundle, bundle_tag, bundle_header_tag, payloads_tag, signatures_tag,
  bundle_header_size_limit, signatures_size_limit,
}
use rugix.Bundle.Opening.{written_head, expect-written, opens, read_optional_metadata-none}

module _ (h : HashAlgorithm) (header_format : Format BundleHeader) where
  -- By the algorithm that the header names.
  unfoldable pub bundle_hash : Source → BundleResult (List ℕ)
  bundle_hash bundle = do
    (opening, s1) ← expect_start bundle_tag bundle
    (head, s2) ← expect_start bundle_header_tag s1
    (raw, s3) ← read_into_vec [] head bundle_header_size_limit s2
    header ← header_format.decode_slice raw
    ok (hash_of h raw)

abbrev pub or_default : Option Signatures → List (List ℕ)
or_default none = []
or_default (some s) = s.cms_signatures

-- The signatures with one more.
abbrev pub with_signature : Option Signatures → List ℕ → Signatures
with_signature old signature = record { cms_signatures = or_default old ++ signature ∷ [] }

module _ (signatures_format : Format Signatures) where
  unfoldable pub add_bundle_signature : List ℕ → Source → BundleResult (List ℕ)
  add_bundle_signature signature bundle = do
    (first, s1) ← expect_start bundle_tag bundle
    opening ← write_atom_head (start bundle_tag)
    (head, s2) ← expect_start bundle_header_tag s1
    (raw, s3) ← read_into_vec [] head bundle_header_size_limit s2
    (old, s4) ← read_optional_metadata signatures_format s3
    section ← to_vec signatures_format signatures_tag (with_signature old signature)
    payloads ← write_atom_head (start payloads_tag)
    ok (opening ++ (raw ++ (section ++ (payloads ++ s4))))

-- A struct that is written to bytes within the limit, and is decoded from them.
pub record Fits {A : Type 0} (f : Format A) (t : Tag) (limit : ℕ) (x : A) (raw : List ℕ)
    : Type 0 where
  pub writable : AllWritable (f.fields x)
  pub is_raw : to_vec f t x ≡ ok raw
  pub in_limit : length raw ≤ limit
  pub decodes : f.decode_slice raw ≡ ok x

expect_start-found :
    (t : Tag) (s s' : Source)
    → expect_atom_head s ≡ ok (start t, s')
    → expect_start t s ≡ ok (start t, s')
unfolding expect_start
expect_start-found t s s' e = rw (e, tag_eq_refl t) refl

-- A struct in a stream.
in_stream :
    {A : Type 0} (f : Format A) (t : Tag) (limit : ℕ) (x : A) (raw : List ℕ) (rest : Source)
    → Fits f t limit x raw
    → (s : Source) × (expect_atom_head (raw ++ rest) ≡ ok (start t, s))
      × (read_into_vec [] (start t) limit s ≡ ok (raw, rest))
unfolding to_vec
in_stream f t limit x raw rest fits =
    let (body, e, r) =
      read_into_vec-write_forest t (f.fields x) raw limit rest fits.writable fits.is_raw
        fits.in_limit in
    (body ++ rest, e, r)

module _ (signatures_format : Format Signatures) (pb : List ℕ) (rest : Source)
    (wp : write_atom_head (start payloads_tag) ≡ ok pb) where
  read_optional_metadata-some :
      (signatures : Signatures) (section : List ℕ)
      → Fits signatures_format signatures_tag signatures_size_limit signatures section
      → read_optional_metadata signatures_format (section ++ (pb ++ rest))
        ≡ ok (some signatures, rest)
  unfolding read_optional_metadata metadata_loop metadata_next
  read_optional_metadata-some signatures section fits =
      let (s, found, read) =
        in_stream signatures_format signatures_tag signatures_size_limit signatures section
          (pb ++ rest) fits in
      let heads = written_head (start payloads_tag) pb tt wp in
      let size : length (section ++ (pb ++ rest)) ≡ suc (length (section ++ (pb ++ rest)) - 1) =
        omega (arith, heads.0, length-append section (pb ++ rest), length-append pb rest) in
      rw (found, size, read, fits.decodes, expect-written (start payloads_tag) pb tt wp rest) refl

  -- The section of the signatures, if there are any.
  abbrev pub Section : Option Signatures → List ℕ → Type 0
  Section none section = section ≡ []
  Section (some signatures) section =
      Fits signatures_format signatures_tag signatures_size_limit signatures section

  Section-read :
      (old : Option Signatures) (section : List ℕ)
      → Section old section
      → read_optional_metadata signatures_format (section ++ (pb ++ rest)) ≡ ok (old, rest)
  Section-read none section e = rw e (
      read_optional_metadata-none signatures_format (pb ++ rest) rest
        (expect-written (start payloads_tag) pb tt wp rest))
  Section-read (some signatures) section fits = read_optional_metadata-some signatures section fits

  module _ (h : HashAlgorithm) (header_format : Format BundleHeader) (ob raw : List ℕ)
      (wo : write_atom_head (start bundle_tag) ≡ ok ob) (header : BundleHeader)
      (fits : Fits header_format bundle_header_tag bundle_header_size_limit header raw) where
    bundle_hash-written :
        (behind : Source) → bundle_hash h header_format (ob ++ (raw ++ behind)) ≡ ok (hash_of h raw)
    unfolding bundle_hash
    bundle_hash-written behind =
        let (s, found, read) =
          in_stream header_format bundle_header_tag bundle_header_size_limit header raw behind
            fits in
        rw
          (
            expect_start-found bundle_tag (ob ++ (raw ++ behind)) (raw ++ behind)
                (expect-written (start bundle_tag) ob tt wo (raw ++ behind)),
            expect_start-found bundle_header_tag (raw ++ behind) s found,
            read,
            fits.decodes,
          )
          refl

    -- A signature is added to a bundle with any signatures or none: it is the last one that a reader of the
    -- new bundle finds, which has the same header, byte for byte, so that the bundle's hash and a digest
    -- stay valid, and stands at the same payloads. Conditions: the header, the old section and the new one
    -- are within their limits, and are decoded to what they were.
    pub add_bundle_signature-keeps :
        (k : HashAlgorithm) (digest : Option (List ℕ)) (old : Option Signatures)
        (signature section section' : List ℕ)
        → header_matches k digest raw ≡ true
        → Section old section
        → Fits signatures_format signatures_tag signatures_size_limit
            (with_signature old signature)
            section'
        → (signed : List ℕ) × (add_bundle_signature signatures_format signature
              (ob ++ (raw ++ (section ++ (pb ++ rest))))
            ≡ ok signed)
          × (open_bundle header_format signatures_format k digest signed
              ≡ ok (record {
                source = rest;
                header = header;
                header_raw = raw;
                signatures = some (with_signature old signature);
                next_payload = 0;
              }))
          × (bundle_hash h header_format signed
              ≡ bundle_hash h header_format (ob ++ (raw ++ (section ++ (pb ++ rest)))))
    unfolding add_bundle_signature
    add_bundle_signature-keeps k digest old signature section section' matches is_section new =
        let behind = section ++ (pb ++ rest) in
        let (s, found, read) =
          in_stream header_format bundle_header_tag bundle_header_size_limit header raw behind
            fits in
        (
          ob ++ (raw ++ (section' ++ (pb ++ rest))),
          rw
              (
                expect_start-found bundle_tag (ob ++ (raw ++ behind)) (raw ++ behind)
                    (expect-written (start bundle_tag) ob tt wo (raw ++ behind)),
                wo,
                expect_start-found bundle_header_tag (raw ++ behind) s found,
                read,
                Section-read old section is_section,
                new.is_raw,
                wp,
              )
              refl,
          opens header_format signatures_format k digest header raw ob (section' ++ (pb ++ rest))
              rest (some (with_signature old signature)) fits.writable fits.is_raw fits.in_limit
              fits.decodes matches wo
              (Section-read (some (with_signature old signature)) section' new),
          bundle_hash-written (section' ++ (pb ++ rest)) ∙ sym (bundle_hash-written behind),
        )
