-- ===== src/Reader/Passing.antt =====
-- The search for a head passes over what an older reader does not know, and stops at what it must know.
use rugix.Common.{
  ℕ, zero, suc, ◌+◌, ◌-◌, ◌<◌, ◌≡◌, ◌⊎◌, inl, inr, refl, ap, ◌∙◌, Bool, Bool-cases, true, false,
  List, [], ◌++◌, arith, length, append_assoc, length-append, if◌then◌else◌,
}
use rugix.Common.Result.{ok, err}
use rugix.Stlv.{
  AtomHead, value, start, end, Tag, Source, unexpected_required_tag, write_atom_head, write_value,
  skip, skip_atom,
}
use rugix.Stlv.Head.{IsWritable}
use rugix.Stlv.Skip.{
  Forest, done, leaf, segment, write_forest, AllWritable, Heads, head_bytes, skip_bytes-append,
  skip-write_forest,
}
use rugix.Reader.{is_required, tag, expect_atom_head, pass_atom, skip_until}
use rugix.Reader.Copy.{expect_atom_head-Heads}

-- All atoms of the sequence may be skipped, and none is the wanted one.
abbrev pub AllOptional : (AtomHead → Bool) → Forest → Type 0
AllOptional wanted done = Unit
AllOptional wanted (leaf t bytes f) =
    (wanted (value t (length bytes)) ≡ false) × (is_required t ≡ false) × AllOptional wanted f
AllOptional wanted (segment t inner f) =
    (wanted (start t) ≡ false) × (is_required t ≡ false) × AllOptional wanted f

module _ (wanted : AtomHead → Bool) where
  abbrev Passes : List ℕ → Type 0
  Passes bytes =
      (s : Source) (fuel : ℕ)
      → length (bytes ++ s) < fuel
      → (left : ℕ) × (length s < left)
        × (skip_until wanted fuel (bytes ++ s) ≡ skip_until wanted left s)

  pass_step :
      (fuel : ℕ) (s s' s'' : Source) (head : AtomHead)
      → expect_atom_head s ≡ ok (head, s')
      → wanted head ≡ false
      → is_required (tag head) ≡ false
      → skip head s' ≡ ok s''
      → skip_until wanted (suc fuel) s ≡ skip_until wanted fuel s''
  unfolding skip_until pass_atom
  pass_step fuel s s' s'' head e w r p = rw (e, w, r, p) refl

  leaf-Passes :
      (t : Tag) (bs hb fb : List ℕ)
      → Heads (value t (length bs)) hb
      → wanted (value t (length bs)) ≡ false
      → is_required t ≡ false
      → Passes fb
      → Passes ((hb ++ bs) ++ fb)
  unfolding skip skip_atom
  leaf-Passes t bs hb fb (long, reads) w r p s zero h = absurd (omega arith)
  leaf-Passes t bs hb fb (long, reads) w r p s (suc k) h =
      let split : ((hb ++ bs) ++ fb) ++ s ≡ hb ++ (bs ++ (fb ++ s)) = simp append_assoc in
      let shorter : length (fb ++ s) < k =
        omega (
          arith,
          ap length split,
          length-append hb (bs ++ (fb ++ s)),
          length-append bs (fb ++ s),
        ) in
      let step =
        pass_step k _ (bs ++ (fb ++ s)) (fb ++ s) (value t (length bs))
          (expect_atom_head-Heads (value t (length bs)) hb (long, reads) _) w r
          (skip_bytes-append bs (fb ++ s)) in
      let (left, more, e) = p s k shorter in (left, more, rw (split, step) e)

  segment-Passes :
      (t : Tag) (f : Forest) (hb gb eb fb : List ℕ)
      → AllWritable f
      → write_forest f ≡ ok gb
      → write_atom_head (end t) ≡ ok eb
      → Heads (start t) hb
      → wanted (start t) ≡ false
      → is_required t ≡ false
      → Passes fb
      → Passes (hb ++ (gb ++ (eb ++ fb)))
  segment-Passes t f hb gb eb fb v wg we (long, reads) w r p s zero h = absurd (omega arith)
  segment-Passes t f hb gb eb fb v wg we (long, reads) w r p s (suc k) h =
      let split : (hb ++ (gb ++ (eb ++ fb))) ++ s ≡ hb ++ (gb ++ (eb ++ (fb ++ s))) =
        simp append_assoc in
      let lengths : length (hb ++ (gb ++ (eb ++ (fb ++ s))))
          ≡ length hb + (length gb + (length eb + length (fb ++ s))) =
        simp length-append in
      let (gb', eb', wg', we', skipped) = skip-write_forest t f (fb ++ s) v in
      let same : gb' ≡ gb = cc in
      let same' : eb' ≡ eb = cc in
      let step =
        pass_step k _ (gb ++ (eb ++ (fb ++ s))) (fb ++ s) (start t)
          (expect_atom_head-Heads (start t) hb (long, reads) _) w r (rw (same, same') at skipped) in
      let (left, more, e) = p s k (omega (arith, ap length split, lengths)) in
      (left, more, rw (split, step) e)

  write_forest-Passes :
      (f : Forest)
      → AllWritable f
      → AllOptional wanted f
      → (bytes : List ℕ) × (write_forest f ≡ ok bytes) × Passes bytes
  unfolding write_forest write_value
  write_forest-Passes done v o = ([], refl, λ s fuel h. (fuel, h, refl))
  write_forest-Passes (leaf t bytes f) (small, v) (w, r, o) =
      let (hb, wh, heads) = head_bytes (value t (length bytes)) small in
      let (fb, wf, p) = write_forest-Passes f v o in
      rw (wh, wf) ((hb ++ bytes) ++ fb, refl, leaf-Passes t bytes hb fb heads w r p)
  write_forest-Passes (segment t inner f) (v, v') (w, r, o) =
      let (hb, wh, heads) = head_bytes (start t) tt in
      let (eb, we, ends) = head_bytes (end t) tt in
      let (gb, _, wg, _, _) = skip-write_forest t inner [] v in
      let (fb, wf, p) = write_forest-Passes f v' o in
      rw (wh, wg, we, wf)
        (hb ++ (gb ++ (eb ++ fb)), refl, segment-Passes t inner hb gb eb fb v wg we heads w r p)

  pub skip_until-Heads :
      (f : Forest) (head : AtomHead) (hb : List ℕ) (rest : Source)
      → AllWritable f
      → AllOptional wanted f
      → Heads head hb
      → (wanted head ≡ true) ⊎ (is_required (tag head) ≡ true)
      → (before : List ℕ) × (write_forest f ≡ ok before)
        × (skip_until wanted (suc (length (before ++ (hb ++ rest)))) (before ++ (hb ++ rest))
            ≡ (if wanted head then ok (head, rest) else err unexpected_required_tag))
  unfolding skip_until pass_atom
  skip_until-Heads f head hb rest v o heads either =
      let (before, wf, p) = write_forest-Passes f v o in
      let (left, more, e) = p (hb ++ rest) (suc (length (before ++ (hb ++ rest)))) (omega arith) in
      let one_more : left ≡ suc (left - 1) = omega arith in
      (before, wf, e ∙ rw one_more (stops (left - 1)))
    where
      stops :
          (fuel : ℕ)
          → skip_until wanted (suc fuel) (hb ++ rest)
            ≡ (if wanted head then ok (head, rest) else err unexpected_required_tag)
      stops fuel = rw (expect_atom_head-Heads head hb heads rest) (elim (Bool-cases (wanted head)) [
        | inl y ↦ rw y refl
        | inr n ↦ elim either [ inl y ↦ cc | inr req ↦ rw (n, req) refl ]
      ])

  -- The search passes over values and segments with optional tags, nested ones included, up to the next
  -- atom: if that is the wanted one, the search ends behind its head, and if it is another with a required
  -- tag, the stream is refused. Condition: lengths below 2 ^ 63 + 127.
  pub skip_until-write_forest :
      (f : Forest) (head : AtomHead) (rest : Source)
      → AllWritable f
      → AllOptional wanted f
      → IsWritable head
      → (wanted head ≡ true) ⊎ (is_required (tag head) ≡ true)
      → (before hb : List ℕ) × (write_forest f ≡ ok before)
        × (write_atom_head head ≡ ok hb)
        × (skip_until wanted (suc (length (before ++ (hb ++ rest)))) (before ++ (hb ++ rest))
            ≡ (if wanted head then ok (head, rest) else err unexpected_required_tag))
  skip_until-write_forest f head rest v o writable either =
      let (hb, wh, heads) = head_bytes head writable in
      let (before, wf, e) = skip_until-Heads f head hb rest v o heads either in
      (before, hb, wf, wh, e)
