-- ===== src/Stlv/Skip.antt =====
-- Streams of nested segments: writing one, and skipping over it.
use rugix.Common.{
  ℕ, zero, suc, ◌+◌, ◌-◌, ◌^◌, ◌≤◌, ◌<◌, ◌≡◌, refl, ap, ◌∙◌, true, false, some, List, [], ◌++◌,
  arith, leb, length, append_assoc, length-append, drop-length_append,
}
use rugix.Common.Result.{ok, ◌>>=◌}
use rugix.Stlv.Head.{IsWritable, read_atom_head-write_atom_head}
use rugix.Stlv.{
  AtomHead, value, start, end, Tag, Source, BundleResult, tag_eq, read_atom_head, write_atom_head,
  write_value, head_size, skip_bytes, skip_atom, skip_next, skip_segment, skip, closes,
}

-- A sequence of values and segments: the stream of a bundle as a tree.
pub data Forest : Type 0 where
  done : Forest
  leaf : Tag → List ℕ → Forest → Forest
  segment : Tag → Forest → Forest → Forest

unfoldable pub write_forest : Forest → BundleResult (List ℕ)
write_forest done = ok []
write_forest (leaf t bytes f) = do a ← write_value t bytes; b ← write_forest f; ok (a ++ b)
write_forest (segment t inner f) = do
  a ← write_atom_head (start t)
  b ← write_forest inner
  c ← write_atom_head (end t)
  d ← write_forest f
  ok (a ++ (b ++ (c ++ d)))

abbrev pub AllWritable : Forest → Type 0
AllWritable done = Unit {0}
AllWritable (leaf t bytes f) = (length bytes < 2 ^ 63 + 127) × AllWritable f
AllWritable (segment t inner f) = AllWritable inner × AllWritable f

pub tag_eq_refl : (t : Tag) → tag_eq t t ≡ true
tag_eq_refl t = ground arith

module _ (open_tag : Tag) (fuel : ℕ) (s s' s'' : Source) where
  skip_segment_step :
      (head : AtomHead)
      → read_atom_head s ≡ ok (some head, s')
      → closes open_tag head ≡ false
      → skip_atom (skip_segment fuel) head s' ≡ ok s''
      → skip_segment (suc fuel) open_tag s ≡ skip_segment fuel open_tag s''
  unfolding skip_segment skip_next
  skip_segment_step head r c a = rw (r, c, a)

pub skip_segment_end :
    (open_tag : Tag) (fuel : ℕ) (s s' : Source)
    → read_atom_head s ≡ ok (some (end open_tag), s')
    → skip_segment (suc fuel) open_tag s ≡ ok s'
unfolding skip_segment skip_next
skip_segment_end open_tag fuel s s' r = rw (r, tag_eq_refl open_tag)

pub skip_bytes-append : (bs s : Source) → skip_bytes (length bs) (bs ++ s) ≡ ok s
unfolding skip_bytes
skip_bytes-append bs s =
    let fits : leb (length bs) (length (bs ++ s)) ≡ true = ground (arith, length-append bs s) in
    rw (fits, drop-length_append bs s)

-- `hb` are the bytes of `head`.
abbrev pub Heads : AtomHead → List ℕ → Type 0
Heads head hb =
    (5 ≤ length hb) × ((rest : Source) → read_atom_head (hb ++ rest) ≡ ok (some head, rest))

pub head_bytes :
    (head : AtomHead)
    → IsWritable head
    → (hb : List ℕ) × (write_atom_head head ≡ ok hb) × Heads head hb
head_bytes head h =
    let (hb, w, l, r) = read_atom_head-write_atom_head head [] h in
    (hb, w, (omega (arith, l, head_size_pos head), reads hb w))
  where
    head_size_pos : (x : AtomHead) → 5 ≤ head_size x
    head_size_pos (value t n) = unfold head_size in omega arith
    head_size_pos (start t) = unfold head_size in omega arith
    head_size_pos (end t) = unfold head_size in omega arith

    reads :
        (hb : List ℕ)
        → write_atom_head head ≡ ok hb
        → (rest : Source) → read_atom_head (hb ++ rest) ≡ ok (some head, rest)
    reads hb w rest =
        let (hb', w', _, r) = read_atom_head-write_atom_head head rest h in
        let same : hb' ≡ hb = cc in rw same at r

-- Skipping passes over the bytes, and goes on behind them.
abbrev Passes : List ℕ → Type 0
Passes bytes =
    (open_tag : Tag) (s : Source) (fuel : ℕ)
    → length (bytes ++ s) < fuel
    → (left : ℕ) × (length s < left)
      × (skip_segment fuel open_tag (bytes ++ s) ≡ skip_segment left open_tag s)

leaf-Passes :
    (t : Tag) (bs hb fb : List ℕ)
    → Heads (value t (length bs)) hb
    → Passes fb
    → Passes ((hb ++ bs) ++ fb)
unfolding skip_atom
leaf-Passes t bs hb fb (long, reads) p open_tag s zero h = absurd (omega arith)
leaf-Passes t bs hb fb (long, reads) p open_tag s (suc k) h =
    rw (split, step)
      (p open_tag s k (
        omega
          (arith, ap length split, length-append hb (bs ++ (fb ++ s)), length-append bs (fb ++ s))))
  where
    split : ((hb ++ bs) ++ fb) ++ s ≡ hb ++ (bs ++ (fb ++ s))
    split = simp append_assoc

    step :
        skip_segment (suc k) open_tag (hb ++ (bs ++ (fb ++ s))) ≡ skip_segment k open_tag (fb ++ s)
    step =
        skip_segment_step open_tag k _ (bs ++ (fb ++ s)) (fb ++ s) (value t (length bs)) (reads _)
          refl (skip_bytes-append bs (fb ++ s))

segment-Passes :
    (t : Tag) (hb gb eb fb : List ℕ)
    → Heads (start t) hb
    → Heads (end t) eb
    → Passes gb
    → Passes fb
    → Passes (hb ++ (gb ++ (eb ++ fb)))
unfolding skip_atom
segment-Passes t hb gb eb fb (long, reads) (_, ends) q p open_tag s zero h = absurd (omega arith)
segment-Passes t hb gb eb fb (long, reads) (_, ends) q p open_tag s (suc k) h =
    rw (split, step) (p open_tag s k (omega (arith, ap length split, lengths)))
  where
    split : (hb ++ (gb ++ (eb ++ fb))) ++ s ≡ hb ++ (gb ++ (eb ++ (fb ++ s)))
    split = simp append_assoc

    lengths :
        length (hb ++ (gb ++ (eb ++ (fb ++ s))))
        ≡ length hb + (length gb + (length eb + length (fb ++ s)))
    lengths = simp length-append

    inner : skip_segment k t (gb ++ (eb ++ (fb ++ s))) ≡ ok (fb ++ s)
    inner =
        let (left, more, e) = q t (eb ++ (fb ++ s)) k (
          omega (
            arith,
            ap length split,
            lengths,
            length-append gb (eb ++ (fb ++ s)),
            length-append eb (fb ++ s),
          )) in
        let one_more : left ≡ suc (left - 1) = omega arith in
        e ∙ rw one_more (skip_segment_end t (left - 1) _ (fb ++ s) (ends (fb ++ s)))

    step :
        skip_segment (suc k) open_tag (hb ++ (gb ++ (eb ++ (fb ++ s))))
        ≡ skip_segment k open_tag (fb ++ s)
    step =
        skip_segment_step open_tag k _ (gb ++ (eb ++ (fb ++ s))) (fb ++ s) (start t) (reads _) refl
          inner

write_forest-Passes :
    (f : Forest) → AllWritable f → (bytes : List ℕ) × (write_forest f ≡ ok bytes) × Passes bytes
unfolding write_forest write_value
write_forest-Passes done w = ([], refl, λ t s fuel h. (fuel, h, refl))
write_forest-Passes (leaf t bytes f) (small, w) =
    let (hb, wh, heads) = head_bytes (value t (length bytes)) small in
    let (fb, wf, p) = write_forest-Passes f w in
    rw (wh, wf) ((hb ++ bytes) ++ fb, refl, leaf-Passes t bytes hb fb heads p)
write_forest-Passes (segment t inner f) (w, v) =
    let (hb, wh, heads) = head_bytes (start t) tt in
    let (gb, wg, q) = write_forest-Passes inner w in
    let (eb, we, ends) = head_bytes (end t) tt in
    let (fb, wf, p) = write_forest-Passes f v in
    rw (wh, wg, we, wf)
      (hb ++ (gb ++ (eb ++ fb)), refl, segment-Passes t hb gb eb fb heads ends q p)

-- Skipping the segment whose start was just read passes over everything written inside it, nested
-- segments with any tags included and values of fewer than 2 ^ 63 + 127 bytes, and over its own end,
-- and leaves exactly what follows.
pub skip-write_forest :
    (t : Tag) (f : Forest) (rest : Source)
    → AllWritable f
    → (inner closing : List ℕ) × (write_forest f ≡ ok inner)
      × (write_atom_head (end t) ≡ ok closing)
      × (skip (start t) (inner ++ (closing ++ rest)) ≡ ok rest)
unfolding skip skip_atom
skip-write_forest t f rest w =
    let (inner, wi, passes) = write_forest-Passes f w in
    let (closing, wc, (_, reads)) = head_bytes (end t) tt in
    let s = closing ++ rest in
    let (left, more, e) = passes t s (suc (length (inner ++ s))) (omega arith) in
    let one_more : left ≡ suc (left - 1) = omega arith in
    (inner, closing, wi, wc, e ∙ rw one_more (skip_segment_end t (left - 1) s rest (reads rest)))
