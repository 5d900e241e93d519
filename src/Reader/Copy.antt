-- ===== src/Reader/Copy.antt =====
-- `read_into_vec` copies what was written, byte for byte.
use rugix.Common.{
  ℕ, zero, suc, ◌+◌, ◌-◌, ◌≤◌, ◌<◌, ◌≡◌, refl, sym, ap, ◌∙◌, true, false, List, [], ◌++◌, arith,
  ltb, leb, length, append_assoc, append-nil, length-append, take-length_append, drop-length_append,
}
use rugix.Common.Result.{ok}
use rugix.Stlv.{
  AtomHead, value, start, end, Tag, Source, write_atom_head, write_value, read_exact, closes,
}
use rugix.Stlv.Skip.{
  Forest, done, leaf, segment, write_forest, AllWritable, Heads, head_bytes, tag_eq_refl,
}
use rugix.Reader.{expect_atom_head, copy_atom, copy_next, copy_segment, read_into_vec}

pub expect_atom_head-Heads :
    (head : AtomHead) (hb : List ℕ)
    → Heads head hb
    → (rest : Source) → expect_atom_head (hb ++ rest) ≡ ok (head, rest)
unfolding expect_atom_head
expect_atom_head-Heads head hb (long, reads) rest = rw (reads rest) refl

pub read_exact-append : (xs ys : List ℕ) → read_exact (length xs) (xs ++ ys) ≡ ok (xs, ys)
unfolding read_exact
read_exact-append xs ys =
    let fits : leb (length xs) (length (xs ++ ys)) ≡ true = ground (arith, length-append xs ys) in
    rw (fits, take-length_append xs ys, drop-length_append xs ys) refl

module _ (limit : ℕ) (open_tag : Tag) where
  copy_segment_step :
      (fuel : ℕ) (output output' : List ℕ) (s s' s'' : Source) (head : AtomHead)
      → expect_atom_head s ≡ ok (head, s')
      → closes open_tag head ≡ false
      → copy_atom (copy_segment limit fuel) limit head output s' ≡ ok (output', s'')
      → copy_segment limit (suc fuel) open_tag output s
        ≡ copy_segment limit fuel open_tag output' s''
  unfolding copy_segment copy_next
  copy_segment_step fuel output output' s s' s'' head r c a = rw (r, c, a) refl

  -- The closing of the segment is copied, too.
  pub copy_segment_end :
      (fuel : ℕ) (output eb : List ℕ) (s : Source)
      → write_atom_head (end open_tag) ≡ ok eb
      → Heads (end open_tag) eb
      → copy_segment limit (suc fuel) open_tag output (eb ++ s) ≡ ok (output ++ eb, s)
  unfolding copy_segment copy_next
  copy_segment_end fuel output eb s w heads =
      rw (expect_atom_head-Heads (end open_tag) eb heads s, tag_eq_refl open_tag, w) refl

-- Copying takes the bytes from the source to the output, and goes on behind them.
abbrev Copies : ℕ → List ℕ → Type 0
Copies limit bytes =
    (open_tag : Tag) (output : List ℕ) (s : Source) (fuel : ℕ)
    → length (output ++ bytes) < limit
    → length (bytes ++ s) < fuel
    → (left : ℕ) × (length s < left)
      × (copy_segment limit fuel open_tag output (bytes ++ s)
          ≡ copy_segment limit left open_tag (output ++ bytes) s)

module _ (limit : ℕ) where
  leaf-Copies :
      (t : Tag) (bs hb fb : List ℕ)
      → write_atom_head (value t (length bs)) ≡ ok hb
      → Heads (value t (length bs)) hb
      → Copies limit fb
      → Copies limit ((hb ++ bs) ++ fb)
  unfolding copy_atom
  leaf-Copies t bs hb fb w heads p open_tag output s zero small h = absurd (omega arith)
  leaf-Copies t bs hb fb w (long, reads) p open_tag output s (suc k) small h =
      let (left, more, e) = p open_tag (output ++ hb ++ bs) s k room shorter in
      (left, more, rw (split, step, ← joined) e)
    where
      split : ((hb ++ bs) ++ fb) ++ s ≡ hb ++ (bs ++ (fb ++ s))
      split = simp append_assoc

      joined : (output ++ hb ++ bs) ++ fb ≡ output ++ ((hb ++ bs) ++ fb)
      joined = simp append_assoc

      room : length ((output ++ hb ++ bs) ++ fb) < limit
      room = omega (arith, ap length joined)

      shorter : length (fb ++ s) < k
      shorter =
          omega
            (arith, ap length split, length-append hb (bs ++ (fb ++ s)), length-append bs (fb ++ s))

      fits : ltb (length (output ++ hb) + length bs) limit ≡ true
      fits =
          ground
            (arith, length-append (output ++ hb ++ bs) fb, length-append (output ++ hb) bs, room)

      step :
          copy_segment limit (suc k) open_tag output (hb ++ (bs ++ (fb ++ s)))
          ≡ copy_segment limit k open_tag (output ++ hb ++ bs) (fb ++ s)
      step =
          copy_segment_step limit open_tag k output (output ++ hb ++ bs) _ (bs ++ (fb ++ s))
            (fb ++ s) (value t (length bs))
            (expect_atom_head-Heads (value t (length bs)) hb (long, reads) _) refl
            (rw (w, fits, read_exact-append bs (fb ++ s)) refl)

  segment-Copies :
      (t : Tag) (hb gb eb fb : List ℕ)
      → write_atom_head (start t) ≡ ok hb
      → Heads (start t) hb
      → write_atom_head (end t) ≡ ok eb
      → Heads (end t) eb
      → Copies limit gb
      → Copies limit fb
      → Copies limit (hb ++ (gb ++ (eb ++ fb)))
  unfolding copy_atom
  segment-Copies t hb gb eb fb w heads we ends q p open_tag output s zero small h =
      absurd (omega arith)
  segment-Copies t hb gb eb fb w (long, reads) we ends q p open_tag output s (suc k) small h =
      let (left, more, e) =
        p open_tag (output ++ hb ++ gb ++ eb) s k (omega (arith, ap length joined))
          (omega (arith, ap length split, lengths)) in
      (left, more, rw (split, step, ← joined) e)
    where
      split : (hb ++ (gb ++ (eb ++ fb))) ++ s ≡ hb ++ (gb ++ (eb ++ (fb ++ s)))
      split = simp append_assoc

      joined : (output ++ hb ++ gb ++ eb) ++ fb ≡ output ++ (hb ++ (gb ++ (eb ++ fb)))
      joined = simp append_assoc

      lengths :
          length (hb ++ (gb ++ (eb ++ (fb ++ s))))
          ≡ length hb + (length gb + (length eb + length (fb ++ s)))
      lengths = simp length-append

      all_lengths :
          length (output ++ (hb ++ (gb ++ (eb ++ fb))))
          ≡ length output + (length hb + (length gb + (length eb + length fb)))
      all_lengths = simp length-append

      inner_lengths : length ((output ++ hb) ++ gb) ≡ length output + length hb + length gb
      inner_lengths = simp length-append

      inner :
          copy_segment limit k t (output ++ hb) (gb ++ (eb ++ (fb ++ s)))
          ≡ ok (output ++ hb ++ gb ++ eb, fb ++ s)
      inner =
          let (left, more, e) =
            q t (output ++ hb) (eb ++ (fb ++ s)) k (omega (arith, all_lengths, inner_lengths)) (
              omega (
                arith,
                ap length split,
                lengths,
                length-append gb (eb ++ (fb ++ s)),
                length-append eb (fb ++ s),
              )) in
          let one_more : left ≡ suc (left - 1) = omega arith in
          e
          ∙ rw one_more
              (copy_segment_end limit t (left - 1) (output ++ hb ++ gb) eb (fb ++ s) we ends)

      step :
          copy_segment limit (suc k) open_tag output (hb ++ (gb ++ (eb ++ (fb ++ s))))
          ≡ copy_segment limit k open_tag (output ++ hb ++ gb ++ eb) (fb ++ s)
      step =
          copy_segment_step limit open_tag k output (output ++ hb ++ gb ++ eb) _
            (gb ++ (eb ++ (fb ++ s))) (fb ++ s) (start t)
            (expect_atom_head-Heads (start t) hb (long, reads) _) refl (rw (w, inner) refl)

  write_forest-Copies :
      (f : Forest)
      → AllWritable f
      → (bytes : List ℕ) × (write_forest f ≡ ok bytes) × Copies limit bytes
  unfolding write_forest write_value
  write_forest-Copies done w = ([], refl, λ t output s fuel small h. (fuel, h, rw append-nil refl))
  write_forest-Copies (leaf t bytes f) (small, w) =
      let (hb, wh, heads) = head_bytes (value t (length bytes)) small in
      let (fb, wf, p) = write_forest-Copies f w in
      rw (wh, wf) ((hb ++ bytes) ++ fb, refl, leaf-Copies t bytes hb fb wh heads p)
  write_forest-Copies (segment t inner f) (w, v) =
      let (hb, wh, heads) = head_bytes (start t) tt in
      let (gb, wg, q) = write_forest-Copies inner w in
      let (eb, we, ends) = head_bytes (end t) tt in
      let (fb, wf, p) = write_forest-Copies f v in
      rw (wh, wg, we, wf)
        (hb ++ (gb ++ (eb ++ fb)), refl, segment-Copies t hb gb eb fb wh heads we ends q p)

-- A segment is found by its start, and all that was written of it, its start, the values and the segments
-- inside and its end, is copied, byte for byte, whatever stands behind it; nothing of what stands behind
-- is read. Conditions: values of fewer than 2 ^ 63 + 127 bytes, and a whole that is not above the limit.
pub read_into_vec-write_forest :
    (t : Tag) (f : Forest) (whole : List ℕ) (limit : ℕ) (rest : Source)
    → AllWritable f
    → write_forest (segment t f done) ≡ ok whole
    → length whole ≤ limit
    → (body : List ℕ) × (expect_atom_head (whole ++ rest) ≡ ok (start t, body ++ rest))
      × (read_into_vec [] (start t) limit (body ++ rest) ≡ ok (whole, rest))
unfolding read_into_vec copy_atom write_forest
read_into_vec-write_forest t f whole limit rest w is_whole le =
    let (hb, wh, heads) = head_bytes (start t) tt in
    let (gb, wg, copies) = write_forest-Copies limit f w in
    let (eb, we, ends) = head_bytes (end t) tt in
    let parts : whole ≡ hb ++ (gb ++ eb) = written hb gb eb wh wg we in
    let lengths : length (hb ++ (gb ++ eb)) ≡ length hb + (length gb + length eb) =
      simp length-append in
    let s = gb ++ (eb ++ rest) in
    let (left, more, e) =
      copies t hb (eb ++ rest) (suc (length s))
        (omega (arith, ap length parts, lengths, length-append hb gb, ends.0)) (omega arith) in
    let one_more : left ≡ suc (left - 1) = omega arith in
    let joined : (hb ++ gb) ++ eb ≡ whole = append_assoc hb gb eb ∙ sym parts in
    let behind : (gb ++ eb) ++ rest ≡ s = append_assoc gb eb rest in
    let front : whole ++ rest ≡ hb ++ s =
      ap (λ (xs : List ℕ). xs ++ rest) parts
      ∙ append_assoc hb (gb ++ eb) rest
      ∙ ap (λ (xs : List ℕ). hb ++ xs) behind in
    (
      gb ++ eb,
      rw (front, behind) (expect_atom_head-Heads (start t) hb heads s),
      rw (behind, wh, e, one_more)
          (copy_segment_end limit t (left - 1) (hb ++ gb) eb rest we ends ∙ rw joined refl),
    )
  where
    written :
        (hb gb eb : List ℕ)
        → write_atom_head (start t) ≡ ok hb
        → write_forest f ≡ ok gb
        → write_atom_head (end t) ≡ ok eb
        → whole ≡ hb ++ (gb ++ eb)
    written hb gb eb wh wg we =
        let all : write_forest (segment t f done) ≡ ok (hb ++ (gb ++ (eb ++ []))) =
          rw (wh, wg, we) refl in
        let same : whole ≡ hb ++ (gb ++ (eb ++ [])) = cc in same ∙ rw append-nil refl
