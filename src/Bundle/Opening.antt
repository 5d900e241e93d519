-- ===== src/Bundle/Opening.antt =====
-- The reader at the start of a bundle, and at the start of a payload.
use rugix.Common.{
  ℕ, suc, ◌≤◌, ◌≡◌, refl, ap, ◌∙◌, Bool, true, Option, none, List, [], ◌∷◌, ◌++◌, length,
}
use rugix.Common.Result.{ok, >>=-eq-ok}
use rugix.Stlv.{Tag, AtomHead, value, start, end, Source, write_tag, write_atom_head, is_start_mask}
use rugix.Stlv.Skip.{AllWritable, Heads, head_bytes, tag_eq_refl}
use rugix.Stlv.Head.{IsWritable}
use rugix.BlockIndex.{HashAlgorithm}
use rugix.Reader.{
  expect_atom_head, pass_atom, skip_until, skip_until_start, skip_until_end, skip_until_value,
  head_left, ignore_start, read_into_vec,
}
use rugix.Reader.Copy.{expect_atom_head-Heads, read_into_vec-write_forest}
use rugix.Bundle.{
  BundleHeader, Signatures, Format, to_vec, metadata_next, metadata_loop, read_optional_metadata,
  header_matches, open_bundle, PreparedPayload, write_payloads, write_bundle, bundle_tag,
  bundle_header_tag, payloads_tag, bundle_header_size_limit,
}

-- The bytes of a head, whatever stands behind them.
pub written_head :
    (head : AtomHead) (hb : List ℕ) → IsWritable head → write_atom_head head ≡ ok hb → Heads head hb
written_head head hb writable w =
    let (hb', w', heads) = head_bytes head writable in let same : hb' ≡ hb = cc in rw same at heads

pub expect-written :
    (head : AtomHead) (hb : List ℕ)
    → IsWritable head
    → write_atom_head head ≡ ok hb
    → (rest : Source) → expect_atom_head (hb ++ rest) ≡ ok (head, rest)
expect-written head hb writable w rest =
    expect_atom_head-Heads head hb (written_head head hb writable w) rest

pub ignore_start-written :
    (t : Tag) (hb : List ℕ)
    → write_atom_head (start t) ≡ ok hb
    → (rest : Source) → ignore_start (hb ++ rest) ≡ rest
unfolding write_atom_head write_tag head_left
ignore_start-written t hb w rest =
    let same : hb ≡ t.b0 ∷ t.b1 ∷ t.b2 ∷ t.b3 ∷ is_start_mask ∷ [] = cc in rw same refl

module _ (s s' : Source) where
  found_at_once :
      (wanted : AtomHead → Bool) (head : AtomHead)
      → expect_atom_head s ≡ ok (head, s')
      → wanted head ≡ true
      → skip_until wanted (suc (length s)) s ≡ ok (head, s')
  unfolding skip_until pass_atom
  found_at_once wanted head e w = rw (e, w) refl

  pub skip_until_start-found :
      (t : Tag) → expect_atom_head s ≡ ok (start t, s') → skip_until_start t s ≡ ok (start t, s')
  unfolding skip_until_start
  skip_until_start-found t e = found_at_once _ (start t) e (tag_eq_refl t)

  pub skip_until_end-found :
      (t : Tag) → expect_atom_head s ≡ ok (end t, s') → skip_until_end t s ≡ ok s'
  unfolding skip_until_end
  skip_until_end-found t e = rw (found_at_once _ (end t) e (tag_eq_refl t)) refl

  pub skip_until_value-found :
      (t : Tag) (n : ℕ)
      → expect_atom_head s ≡ ok (value t n, s')
      → skip_until_value t s ≡ ok (n, s')
  unfolding skip_until_value
  skip_until_value-found t n e = rw (found_at_once _ (value t n) e (tag_eq_refl t)) refl

-- A header is found and copied as it was written.
pub copied :
    {A : Type 0} (f : Format A) (t : Tag) (x : A) (raw : List ℕ) (limit : ℕ) (rest : Source)
    → AllWritable (f.fields x)
    → to_vec f t x ≡ ok raw
    → length raw ≤ limit
    → (s : Source) × (skip_until_start t (raw ++ rest) ≡ ok (start t, s))
      × (read_into_vec [] (start t) limit s ≡ ok (raw, rest))
unfolding to_vec
copied f t x raw limit rest writable w le =
    let (body, e, r) = read_into_vec-write_forest t (f.fields x) raw limit rest writable w le in
    (body ++ rest, skip_until_start-found (raw ++ rest) (body ++ rest) t e, r)

module _ (signatures_format : Format Signatures) where
  pub read_optional_metadata-none :
      (s s' : Source)
      → expect_atom_head s ≡ ok (start payloads_tag, s')
      → read_optional_metadata signatures_format s ≡ ok (none, s')
  unfolding read_optional_metadata metadata_loop metadata_next
  read_optional_metadata-none s s' e = rw e refl

module _ (header_format : Format BundleHeader) (signatures_format : Format Signatures) where
  pub opens :
      (k : HashAlgorithm) (digest : Option (List ℕ)) (header : BundleHeader) (raw ob : List ℕ)
      (behind rest : Source) (signatures : Option Signatures)
      → AllWritable (header_format.fields header)
      → to_vec header_format bundle_header_tag header ≡ ok raw
      → length raw ≤ bundle_header_size_limit
      → header_format.decode_slice raw ≡ ok header
      → header_matches k digest raw ≡ true
      → write_atom_head (start bundle_tag) ≡ ok ob
      → read_optional_metadata signatures_format behind ≡ ok (signatures, rest)
      → open_bundle header_format signatures_format k digest (ob ++ (raw ++ behind))
        ≡ ok (record {
          source = rest;
          header = header;
          header_raw = raw;
          signatures = signatures;
          next_payload = 0;
        })
  unfolding open_bundle
  opens k digest header raw ob behind rest signatures writable is_raw le decodes matches e1
        metadata =
      let (s, found, read) =
        copied header_format bundle_header_tag header raw bundle_header_size_limit behind writable
          is_raw le in
      rw
        (
          ignore_start-written bundle_tag ob e1 (raw ++ behind),
          found,
          read,
          matches,
          decodes,
          metadata,
        )
        refl

  -- A bundle that was built is opened: with the digest of its header or with none, the reader has the
  -- header that was written, its bytes, no signatures, and stands at the first payload. Conditions: the
  -- header is written in 128 KiB at most, and its bytes are decoded to it.
  pub open_bundle-write_bundle :
      (k : HashAlgorithm) (digest : Option (List ℕ)) (header : BundleHeader)
      (payloads : List PreparedPayload) (raw bundle : List ℕ)
      → AllWritable (header_format.fields header)
      → to_vec header_format bundle_header_tag header ≡ ok raw
      → length raw ≤ bundle_header_size_limit
      → header_format.decode_slice raw ≡ ok header
      → header_matches k digest raw ≡ true
      → write_bundle header_format header payloads ≡ ok bundle
      → (written trailer : List ℕ) × (write_payloads payloads ≡ ok written)
        × (open_bundle header_format signatures_format k digest bundle
            ≡ ok (record {
              source = written ++ trailer;
              header = header;
              header_raw = raw;
              signatures = none;
              next_payload = 0;
            }))
  unfolding write_bundle
  open_bundle-write_bundle k digest header payloads raw bundle writable is_raw le decodes matches
        e =
      let (ob, e1, h1) = >>=-eq-ok (write_atom_head (start bundle_tag)) _ e in
      let (raw', e2, h2) = >>=-eq-ok (to_vec header_format bundle_header_tag header) _ h1 in
      let (pb, e3, h3) = >>=-eq-ok (write_atom_head (start payloads_tag)) _ h2 in
      let (written, e4, h4) = >>=-eq-ok (write_payloads payloads) _ h3 in
      let (pe, e5, h5) = >>=-eq-ok (write_atom_head (end payloads_tag)) _ h4 in
      let (oe, e6, h6) = >>=-eq-ok (write_atom_head (end bundle_tag)) _ h5 in
      let same : raw' ≡ raw = cc in
      let rest = written ++ (pe ++ oe) in
      let whole : bundle ≡ ob ++ (raw ++ (pb ++ rest)) = cc in
      (
        written,
        pe ++ oe,
        e4,
        ap (open_bundle header_format signatures_format k digest) whole
            ∙ opens k digest header raw ob (pb ++ rest) rest none writable is_raw le decodes matches
                e1
                (read_optional_metadata-none signatures_format (pb ++ rest) rest
                  (expect-written (start payloads_tag) pb tt e3 rest)),
      )
