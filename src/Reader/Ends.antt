-- ===== src/Reader/Ends.antt =====
-- The loops of the reader end on every source.
use rugix.Common.{
  ℕ, zero, suc, ◌+◌, ◌-◌, ◌/◌, ◌≤◌, ◌<◌, ◌≡◌, ◌≢◌, inl, inr, refl, ap, ◌∙◌, Option, none, some,
  Bool, Bool-cases, List, ◌++◌, arith, length, leb, ltb, length-append, length-drop,
}
use rugix.Common.Result.{Result, ok, err, panic, out_of_fuel, ◌>>=◌, ok_or, >>=-eq-ok}
use rugix.Stlv.{
  AtomHead, value, start, end, Tag, Source, BundleResult, Error, unexpected_end, read_atom_head,
  write_atom_head, read_exact, skip, closes, write_varint, u64_max,
}
use rugix.Stlv.Head.{read_atom_head_takes}
use rugix.Stlv.Fuel.{Ends, read_atom_head-Ends, Within-Ends, skip-Within, >>=-Ends}
use rugix.Reader.{
  is_required, tag, expect_atom_head, pass_atom, skip_until, copy_atom, copy_next, copy_segment,
  read_into_vec,
}

-- A result that leaves at most `n` bytes.
abbrev Leaves : {A : Type 0} → ℕ → BundleResult (A × Source) → Type 0
Leaves n (ok r) = length r.1 ≤ n
Leaves n (err e) = Unit
Leaves n panic = Unit
Leaves n out_of_fuel = ⊥

Leaves-Ends : {A : Type 0} (n : ℕ) (r : BundleResult (A × Source)) → Leaves n r → Ends r
Leaves-Ends n (ok r) l = λ p. cc
Leaves-Ends n (err e) l = λ p. cc
Leaves-Ends n panic l = λ p. cc
Leaves-Ends n out_of_fuel l = absurd l

Leaves-ok :
    {A : Type 0} (n : ℕ) (r : BundleResult (A × Source)) (x : A × Source)
    → Leaves n r
    → r ≡ ok x
    → length x.1 ≤ n
Leaves-ok n (ok r) x l e = let same : r ≡ x = cc in rw⁻¹ same l
Leaves-ok n (err m) x l e = cc
Leaves-ok n panic x l e = cc
Leaves-ok n out_of_fuel x l e = absurd l

Leaves-le : {A : Type 0} (n m : ℕ) (r : BundleResult (A × Source)) → n ≤ m → Leaves n r → Leaves m r
Leaves-le n m (ok r) h l = omega arith
Leaves-le n m (err e) h l = tt
Leaves-le n m panic h l = tt
Leaves-le n m out_of_fuel h l = l

>>=-Leaves {ℓ} :
    {A : Type ℓ} {B : Type 0} (n : ℕ) (m : Result Error A) (f : A → BundleResult (B × Source))
    → Ends m
    → ((x : A) → m ≡ ok x → Leaves n (f x))
    → Leaves n (m >>= f)
>>=-Leaves n (ok x) f h k = k x refl
>>=-Leaves n (err e) f h k = tt
>>=-Leaves n panic f h k = tt
>>=-Leaves n out_of_fuel f h k = absurd (h refl)

expect_atom_head-Ends : (s : Source) → Ends (expect_atom_head s)
unfolding expect_atom_head
expect_atom_head-Ends s =
    >>=-Ends (read_atom_head s) _ (read_atom_head-Ends s) (λ r e. known r.0 r.1)
  where
    known :
        (o : Option AtomHead) (s' : Source)
        → Ends {A = AtomHead × Source} (ok_or o unexpected_end >>= λ head. ok (head, s'))
    known none s' p = cc
    known (some head) s' p = cc

pub expect_atom_head_takes :
    (s : Source) (head : AtomHead) (s' : Source)
    → expect_atom_head s ≡ ok (head, s')
    → length s' + 5 ≤ length s
unfolding expect_atom_head
expect_atom_head_takes s head s' e =
    let ((next, s''), r, e1) = >>=-eq-ok (read_atom_head s) _ e in
    let (head', r', e2) = >>=-eq-ok (ok_or next unexpected_end) _ e1 in
    let is_head : next ≡ some head' = from_ok next head' r' in
    let same : s'' ≡ s' = cc in
    let (taken, split, five) =
      read_atom_head_takes s head' s'' (r ∙ ap (λ (o : Option AtomHead). ok (o, s'')) is_head) in
    omega (arith, ap length split, length-append taken s'', ap length same)
  where
    from_ok :
        (o : Option AtomHead) (x : AtomHead)
        → ◌≡◌ {A = BundleResult AtomHead} (ok_or o unexpected_end) (ok x)
        → o ≡ some x
    from_ok none x p = cc
    from_ok (some y) x p = cc

-- `inner` ends, and takes no bytes away, on sources below `n`.
abbrev ReadsBelow : {A : Type 0} → ℕ → (Source → BundleResult (A × Source)) → Type 0
ReadsBelow n inner = (s : Source) → length s < n → Leaves (length s) (inner s)

module _ (wanted : AtomHead → Bool) (fuel : ℕ) (inner : Source → BundleResult (AtomHead × Source))
    (below : ReadsBelow fuel inner) where
  pass_atom-Leaves :
      (head : AtomHead) (s : Source)
      → length s < fuel
      → Leaves (length s) (pass_atom wanted inner head s)
  unfolding pass_atom
  pass_atom-Leaves head s h = elim (Bool-cases (wanted head)) [
    | inl y ↦ rw y (omega arith)
    | inr n ↦ rw n (elim (Bool-cases (is_required (tag head))) [
      | inl req ↦ rw req tt
      | inr opt ↦ rw opt (
          >>=-Leaves (length s) (skip head s) inner (Within-Ends (length s) _ (skip-Within head s))
            (λ s' e.
              let within : length s' ≤ length s = rw e at (skip-Within head s) in
              Leaves-le (length s') (length s) _ within (below s' (omega arith))))
    ])
  ]

skip_until-Leaves : (wanted : AtomHead → Bool) (fuel : ℕ) → ReadsBelow fuel (skip_until wanted fuel)
unfolding skip_until
skip_until-Leaves wanted zero s h = absurd (omega arith)
skip_until-Leaves wanted (suc fuel) s h =
    >>=-Leaves (length s) (expect_atom_head s) _ (expect_atom_head-Ends s) (λ r e.
      let shorter = expect_atom_head_takes s r.0 r.1 e in
      Leaves-le (length r.1) (length s) _ (omega arith) (
        pass_atom-Leaves wanted fuel (skip_until wanted fuel) (skip_until-Leaves wanted fuel) r.0
          r.1 (omega arith)))

write_varint-Ends : (k : ℕ) → Ends (write_varint k)
unfolding write_varint
write_varint-Ends k = elim (Bool-cases (leb k (u64_max / 2))) [
  | inl y ↦ rw y (λ p. cc)
  | inr m ↦ rw m (λ p. cc)
]

write_atom_head-Ends : (head : AtomHead) → Ends (write_atom_head head)
unfolding write_atom_head
write_atom_head-Ends (value t n) = elim (Bool-cases (leb 127 n)) [
  | inl y ↦ rw y (>>=-Ends (write_varint (n - 127)) _ (write_varint-Ends (n - 127)) (λ x e p. cc))
  | inr m ↦ rw m (λ p. cc)
]
write_atom_head-Ends (start t) = λ p. cc
write_atom_head-Ends (end t) = λ p. cc

module _ (limit fuel : ℕ) (inner : Tag → List ℕ → Source → BundleResult (List ℕ × Source))
    (below : (t : Tag) (output : List ℕ) → ReadsBelow fuel (inner t output)) where
  copy_atom-Leaves :
      (head : AtomHead) (output : List ℕ) (s : Source)
      → length s < fuel
      → Leaves (length s) (copy_atom inner limit head output s)
  unfolding copy_atom read_exact
  copy_atom-Leaves (value t n) output s h =
      >>=-Leaves (length s) (write_atom_head (value t n)) _ (write_atom_head-Ends (value t n))
        (λ hb e. elim (Bool-cases (ltb (length (output ++ hb) + n) limit)) [
          | inl y ↦ rw y (elim (Bool-cases (leb n (length s))) [
            | inl fits ↦ rw fits (omega (arith, length-drop n s))
            | inr short ↦ rw short tt
          ])
          | inr m ↦ rw m tt
        ])
  copy_atom-Leaves (start t) output s h =
      >>=-Leaves (length s) (write_atom_head (start t)) _ (write_atom_head-Ends (start t))
        (λ hb e. below t (output ++ hb) s h)
  copy_atom-Leaves (end t) output s h =
      >>=-Leaves (length s) (write_atom_head (end t)) _ (write_atom_head-Ends (end t)) (λ hb e. tt)

  copy_next-Leaves :
      (t : Tag) (head : AtomHead) (output : List ℕ) (s : Source)
      → length s < fuel
      → Leaves (length s) (copy_next inner limit t head output s)
  unfolding copy_next
  copy_next-Leaves t head output s h = elim (Bool-cases (closes t head)) [
    | inl y ↦ rw y (
        >>=-Leaves (length s) (write_atom_head head) _ (write_atom_head-Ends head)
          (λ hb e. omega arith))
    | inr n ↦ rw n (
        let copied = copy_atom-Leaves head output s h in
        >>=-Leaves (length s) (copy_atom inner limit head output s) _
          (Leaves-Ends (length s) _ copied)
          (λ r e.
            let within = Leaves-ok (length s) (copy_atom inner limit head output s) r copied e in
            Leaves-le (length r.1) (length s) _ within (below t r.0 r.1 (omega arith))))
  ]

copy_segment-Leaves :
    (limit fuel : ℕ) (t : Tag) (output : List ℕ)
    → ReadsBelow fuel (copy_segment limit fuel t output)
unfolding copy_segment
copy_segment-Leaves limit zero t output s h = absurd (omega arith)
copy_segment-Leaves limit (suc fuel) t output s h =
    >>=-Leaves (length s) (expect_atom_head s) _ (expect_atom_head-Ends s) (λ r e.
      let shorter = expect_atom_head_takes s r.0 r.1 e in
      Leaves-le (length r.1) (length s) _ (omega arith) (
        copy_next-Leaves limit fuel (copy_segment limit fuel) (copy_segment-Leaves limit fuel) t r.0
          output r.1 (omega arith)))

-- On every source, well formed or not, the search for a head, whichever is wanted, and the copying of an
-- atom return: with a value, an error or a panic.
pub reader-ends :
    (wanted : AtomHead → Bool) (head : AtomHead) (output : List ℕ) (limit : ℕ) (s : Source)
    → (skip_until wanted (suc (length s)) s ≢ out_of_fuel)
      × (read_into_vec output head limit s ≢ out_of_fuel)
unfolding read_into_vec
reader-ends wanted head output limit s = (
  Leaves-Ends (length s) _ (skip_until-Leaves wanted (suc (length s)) s (omega arith)),
  Leaves-Ends (length s) _ (
      copy_atom-Leaves limit (suc (length s)) (copy_segment limit (suc (length s)))
        (copy_segment-Leaves limit (suc (length s))) head output s (omega arith)),
)
