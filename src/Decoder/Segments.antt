-- ===== src/Decoder/Segments.antt =====
-- Skipping a segment with the decoder: the limits that it needs, and what it charges.
use rugix.Common.{
  ℕ, zero, suc, ◌+◌, ◌-◌, ◌≤◌, ◌<◌, ◌≡◌, max, refl, ap, ◌∙◌, true, false, some, List, [], ◌++◌,
  arith, ltb, length, length-append, append_assoc,
}
use native.Mathlib.Nat.{sub-zero}
use rugix.Common.Result.{ok, ◌>>=◌}
use rugix.Stlv.{
  Source, Tag, AtomHead, value, start, end, head_size, atom_size, write_value, write_atom_head,
  skip_bytes,
}
use rugix.Stlv.Skip.{
  Forest, done, leaf, segment, write_forest, AllWritable, Heads, head_bytes, skip_bytes-append,
  tag_eq_refl,
}
use rugix.Decoder.{
  Decoder, new, check_and_subtract_size, enter_atom, take_head, skip_value, skip_round,
  skip_segment, skip,
}
use rugix.Decoder.Values.{next-Heads}

-- The sizes of the atoms of a forest.
abbrev pub forest_size : Forest → ℕ
forest_size done = 0
forest_size (leaf t bytes f) = atom_size (value t (length bytes)) + forest_size f
forest_size (segment t inner f) = 5 + (forest_size inner + (5 + forest_size f))

-- How deep its segments nest.
abbrev pub depth_of : Forest → ℕ
depth_of done = 0
depth_of (leaf t bytes f) = depth_of f
depth_of (segment t inner f) = max (suc (depth_of inner)) (depth_of f)

-- With enough depth and bytes, skipping passes over the bytes and goes on behind them.
abbrev Passes : ℕ → ℕ → List ℕ → Type 0
Passes deep size bytes =
    (open_tag : Tag) (s : Source) (depth limit fuel : ℕ)
    → length (bytes ++ s) < fuel
    → deep ≤ depth
    → size ≤ limit
    → (left : ℕ) × (length s < left)
      × (skip_segment fuel open_tag (new (bytes ++ s) depth limit)
          ≡ skip_segment left open_tag (new s depth (limit - size)))

module _ (open_tag : Tag) (hb s : List ℕ) (depth limit k : ℕ) where
  segment_round :
      (head : AtomHead)
      → Heads head hb
      → skip_segment (suc k) open_tag (new (hb ++ s) depth limit) ≡ (
          take_head (some head) (new s depth limit) >>= λ r.
          skip_round (skip_segment k) open_tag r.0 r.1)
  unfolding skip_segment
  segment_round head heads = rw (next-Heads head hb s depth limit heads)

  value_round :
      (t : Tag) (n : ℕ) (s' : Source)
      → Heads (value t n) hb
      → atom_size (value t n) ≤ limit
      → skip_bytes n s ≡ ok s'
      → skip_segment (suc k) open_tag (new (hb ++ s) depth limit)
        ≡ skip_segment k open_tag (new s' depth (limit - atom_size (value t n)))
  unfolding take_head check_and_subtract_size enter_atom skip_round skip_value
  value_round t n s' heads h e =
      let within : ltb limit (atom_size (value t n)) ≡ false = ground arith in
      segment_round (value t n) heads ∙ rw (within, e)

  start_round :
      (t : Tag) (d : Decoder)
      → Heads (start t) hb
      → 0 < depth
      → 5 ≤ limit
      → skip_segment k t (new s (depth - 1) (limit - 5)) ≡ ok d
      → skip_segment (suc k) open_tag (new (hb ++ s) depth limit) ≡ skip_segment k open_tag d
  unfolding take_head check_and_subtract_size enter_atom skip_round atom_size head_size
  start_round t d heads deep h e =
      let within : ltb limit (4 + 1) ≡ false = ground arith in
      let admitted : ltb 0 depth ≡ true = ground arith in
      segment_round (start t) heads ∙ rw (within, admitted, e)

  end_round :
      Heads (end open_tag) hb
      → 5 ≤ limit
      → skip_segment (suc k) open_tag (new (hb ++ s) depth limit)
        ≡ ok (new s (depth + 1) (limit - 5))
  unfolding take_head check_and_subtract_size enter_atom skip_round atom_size head_size
  end_round heads h =
      let within : ltb limit (4 + 1) ≡ false = ground arith in
      segment_round (end open_tag) heads ∙ rw (within, tag_eq_refl open_tag)

leaf-Passes :
    (t : Tag) (bs hb fb : List ℕ) (deep size : ℕ)
    → Heads (value t (length bs)) hb
    → Passes deep size fb
    → Passes deep (atom_size (value t (length bs)) + size) ((hb ++ bs) ++ fb)
leaf-Passes t bs hb fb deep size (long, reads) p open_tag s depth limit zero h d l =
    absurd (omega arith)
leaf-Passes t bs hb fb deep size (long, reads) p open_tag s depth limit (suc k) h d l =
    let split : ((hb ++ bs) ++ fb) ++ s ≡ hb ++ (bs ++ (fb ++ s)) = simp append_assoc in
    let first = atom_size (value t (length bs)) in
    let (left, more, e) =
      p open_tag s depth (limit - first) k
        (omega
          (arith, ap length split, length-append hb (bs ++ (fb ++ s)), length-append bs (fb ++ s)))
        d (omega arith) in
    let same : limit - first - size ≡ limit - (first + size) = omega arith in
    (
      left,
      more,
      rw split (
            value_round open_tag hb (bs ++ (fb ++ s)) depth limit k t (length bs) (fb ++ s)
              (long, reads) (omega arith) (skip_bytes-append bs (fb ++ s)))
          ∙ e
          ∙ ap (λ n. skip_segment left open_tag (new s depth n)) same,
    )

-- From behind the start of a segment to behind its end.
inner-Passes :
    (t : Tag) (gb eb : List ℕ) (deep size : ℕ) (s : Source) (depth limit fuel : ℕ)
    → Heads (end t) eb
    → Passes deep size gb
    → length (gb ++ (eb ++ s)) < fuel
    → deep ≤ depth
    → size + 5 ≤ limit
    → skip_segment fuel t (new (gb ++ (eb ++ s)) depth limit)
      ≡ ok (new s (depth + 1) (limit - (size + 5)))
inner-Passes t gb eb deep size s depth limit fuel ends q h d l =
    let (left, more, e) = q t (eb ++ s) depth limit fuel h d (omega arith) in
    let one_more : left ≡ suc (left - 1) = omega arith in
    let same : limit - size - 5 ≡ limit - (size + 5) = omega arith in
    e
    ∙ rw one_more (end_round t eb s depth (limit - size) (left - 1) ends (omega arith))
    ∙ ap (λ n. ok (new s (depth + 1) n)) same

segment-Passes :
    (t : Tag) (hb gb eb fb : List ℕ) (deep deep' size size' : ℕ)
    → Heads (start t) hb
    → Heads (end t) eb
    → Passes deep size gb
    → Passes deep' size' fb
    → Passes (max (suc deep) deep') (5 + (size + (5 + size'))) (hb ++ (gb ++ (eb ++ fb)))
segment-Passes t hb gb eb fb deep deep' size size' heads ends q p open_tag s depth limit zero h d
      l =
    absurd (omega arith)
segment-Passes t hb gb eb fb deep deep' size size' (long, reads) ends q p open_tag s depth limit
      (suc k) h d l =
    let split : (hb ++ (gb ++ (eb ++ fb))) ++ s ≡ hb ++ (gb ++ (eb ++ (fb ++ s))) =
      simp append_assoc in
    let lengths : length (hb ++ (gb ++ (eb ++ (fb ++ s))))
        ≡ length hb + (length gb + (length eb + length (fb ++ s))) =
      simp length-append in
    let inner_length : length (gb ++ (eb ++ (fb ++ s)))
        ≡ length gb + (length eb + length (fb ++ s)) =
      simp length-append in
    let inner =
      inner-Passes t gb eb deep size (fb ++ s) (depth - 1) (limit - 5) k ends q
        (omega (arith, ap length split, lengths, inner_length)) (omega arith) (omega arith) in
    let restored : depth - 1 + 1 ≡ depth = omega arith in
    let charged : limit - 5 - (size + 5) ≡ limit - (size + 10) = omega arith in
    let (left, more, e) =
      p open_tag s depth (limit - (size + 10)) k (omega (arith, ap length split, lengths))
        (omega arith) (omega arith) in
    let same : limit - (size + 10) - size' ≡ limit - (5 + (size + (5 + size'))) = omega arith in
    (
      left,
      more,
      rw split (
            start_round open_tag hb (gb ++ (eb ++ (fb ++ s))) depth limit k t
              (new (fb ++ s) depth (limit - (size + 10))) (long, reads) (omega arith) (omega arith)
              (rw (restored, charged) at inner))
          ∙ e
          ∙ ap (λ n. skip_segment left open_tag (new s depth n)) same,
    )

write_forest-Passes :
    (f : Forest)
    → AllWritable f
    → (bytes : List ℕ) × (write_forest f ≡ ok bytes) × Passes (depth_of f) (forest_size f) bytes
unfolding write_forest write_value
write_forest-Passes done w = ([], refl, λ t s depth limit fuel h d l. (fuel, h, rw sub-zero refl))
write_forest-Passes (leaf t bytes f) (small, w) =
    let (hb, wh, heads) = head_bytes (value t (length bytes)) small in
    let (fb, wf, p) = write_forest-Passes f w in
    rw (wh, wf)
      ((hb ++ bytes) ++ fb, refl, leaf-Passes t bytes hb fb (depth_of f) (forest_size f) heads p)
write_forest-Passes (segment t inner f) (w, v) =
    let (hb, wh, heads) = head_bytes (start t) tt in
    let (gb, wg, q) = write_forest-Passes inner w in
    let (eb, we, ends) = head_bytes (end t) tt in
    let (fb, wf, p) = write_forest-Passes f v in
    rw (wh, wg, we, wf)
      (
        hb ++ (gb ++ (eb ++ fb)),
        refl,
        segment-Passes t hb gb eb fb (depth_of inner) (depth_of f) (forest_size inner)
            (forest_size f) heads ends q p,
      )

-- Behind the start of a segment, with as much depth as its segments nest and as many bytes as its
-- atoms and its end have, and with values of fewer than 2 ^ 63 + 127 bytes, the decoder skips the
-- segment: it leaves what follows, gives the depth of the segment back, and charges every atom once.
pub skip-forest :
    (t : Tag) (f : Forest) (rest : Source) (depth limit : ℕ)
    → AllWritable f
    → depth_of f ≤ depth
    → forest_size f + 5 ≤ limit
    → (inner closing : List ℕ) × (write_forest f ≡ ok inner)
      × (write_atom_head (end t) ≡ ok closing)
      × (skip (start t) (new (inner ++ (closing ++ rest)) depth limit)
          ≡ ok (new rest (depth + 1) (limit - (forest_size f + 5))))
unfolding skip
skip-forest t f rest depth limit w d l =
    let (inner, wi, passes) = write_forest-Passes f w in
    let (closing, wc, ends) = head_bytes (end t) tt in
    (
      inner,
      closing,
      wi,
      wc,
      inner-Passes t inner closing (depth_of f) (forest_size f) rest depth limit
          (suc (length (inner ++ (closing ++ rest)))) ends passes (omega arith) d l,
    )
