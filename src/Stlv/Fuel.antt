-- ===== src/Stlv/Fuel.antt =====
-- The loop of `skip` ends on every input: its fuel is never used up.
use rugix.Common.{
  ℕ, zero, suc, ◌+◌, ◌*◌, ◌%◌, ◌^◌, ◌≤◌, ◌<◌, ◌≡◌, ◌≢◌, refl, ap, inl, inr, Option, none, some, [],
  ◌∷◌, arith, leb, length, Bool-cases, length-append, length-drop,
}
use rugix.Common.Result.{Result, ok, err, panic, out_of_fuel, ◌>>=◌}
use rugix.Stlv.Head.{read_atom_head_takes}
use rugix.Stlv.{
  AtomHead, value, start, end, Tag, Source, BundleResult, Error, read_varint_loop, read_indicator,
  read_atom_head, skip_bytes, skip_atom, skip_next, skip_segment, skip, closes,
}

-- A result that has a value, an error, or a panic.
abbrev pub Ends {ℓ} : {A : Type ℓ} → Result Error A → Type ℓ
Ends r = r ≢ out_of_fuel

read_varint_loop-Ends : (n : ℕ) (s : Source) → Ends (read_varint_loop n s)
unfolding read_varint_loop
read_varint_loop-Ends n [] h = cc
read_varint_loop-Ends n (b ∷ s) h =
    ground (arith, read_varint_loop-Ends (n * 2 ^ 7 % 2 ^ 64 + b % 2 ^ 7) s)

pub >>=-Ends {ℓ κ} :
    {A : Type ℓ} {B : Type κ} (m : Result Error A) (f : A → Result Error B)
    → Ends m
    → ((a : A) → m ≡ ok a → Ends (f a))
    → Ends (m >>= f)
>>=-Ends (ok a) f h k = k a refl
>>=-Ends (err e) f h k = λ p. cc
>>=-Ends panic f h k = λ p. cc
>>=-Ends out_of_fuel f h k = absurd (h refl)

read_indicator-Ends : (t : Tag) (i : ℕ) (s : Source) → Ends (read_indicator t i s)
unfolding read_indicator
read_indicator-Ends t i s h = ground (arith, read_varint_loop-Ends 0 s)

pub read_atom_head-Ends : (s : Source) → Ends (read_atom_head s)
unfolding read_atom_head
read_atom_head-Ends [] h = cc
read_atom_head-Ends (b0 ∷ []) h = cc
read_atom_head-Ends (b0 ∷ b1 ∷ []) h = cc
read_atom_head-Ends (b0 ∷ b1 ∷ b2 ∷ []) h = cc
read_atom_head-Ends (b0 ∷ b1 ∷ b2 ∷ b3 ∷ []) h = cc
read_atom_head-Ends (b0 ∷ b1 ∷ b2 ∷ b3 ∷ i ∷ s) h =
    >>=-Ends (read_indicator t i s) (λ r. ok (some r.0, r.1)) (read_indicator-Ends t i s)
      (λ a e p. cc) h
  where
    t : Tag
    t = record { b0 = b0; b1 = b1; b2 = b2; b3 = b3 }

-- A result that leaves at most `n` bytes.
abbrev pub Within : ℕ → BundleResult Source → Type 0
Within n (ok s) = length s ≤ n
Within n (err e) = Unit
Within n panic = Unit
Within n out_of_fuel = ⊥

>>=-Within :
    (n : ℕ) (m : BundleResult Source) (f : Source → BundleResult Source)
    → Within n m
    → ((s : Source) → length s ≤ n → Within n (f s))
    → Within n (m >>= f)
>>=-Within n (ok s) f h k = k s h
>>=-Within n (err e) f h k = tt
>>=-Within n panic f h k = tt
>>=-Within n out_of_fuel f h k = h

read-Within {ℓ} :
    {A : Type ℓ} (n : ℕ) (m : Result Error A) (f : A → BundleResult Source)
    → Ends m
    → ((a : A) → m ≡ ok a → Within n (f a))
    → Within n (m >>= f)
read-Within n (ok a) f h k = k a refl
read-Within n (err e) f h k = tt
read-Within n panic f h k = tt
read-Within n out_of_fuel f h k = absurd (h refl)

Within-le : (n m : ℕ) (r : BundleResult Source) → n ≤ m → Within n r → Within m r
Within-le n m (ok s) h w = omega arith
Within-le n m (err e) h w = tt
Within-le n m panic h w = tt
Within-le n m out_of_fuel h w = w

-- `inner` ends, and takes no bytes away, on sources below `n`.
abbrev SkipsBelow : ℕ → (Tag → Source → BundleResult Source) → Type 0
SkipsBelow n inner = (t : Tag) (s : Source) → length s < n → Within (length s) (inner t s)

skip_atom-Within :
    (n : ℕ) (inner : Tag → Source → BundleResult Source) (head : AtomHead) (s : Source)
    → SkipsBelow n inner
    → length s < n
    → Within (length s) (skip_atom inner head s)
unfolding skip_atom skip_bytes
skip_atom-Within n inner (value t k) s below h = elim (Bool-cases (leb k (length s))) [
  | inl fits ↦ rw fits (omega (arith, length-drop k s))
  | inr short ↦ rw short tt
]
skip_atom-Within n inner (start t) s below h = below t s h
skip_atom-Within n inner (end t) s below h = tt

module _ (fuel : ℕ) (t : Tag) (s : Source) (ih : SkipsBelow fuel (skip_segment fuel)) where
  skip_next-Within :
      (next : Option AtomHead) (s' : Source)
      → length s < suc fuel
      → read_atom_head s ≡ ok (next, s')
      → Within (length s) (skip_next (skip_segment fuel) t next s')
  unfolding skip_next
  skip_next-Within none s' h e = tt
  skip_next-Within (some head) s' h e =
      let (taken, split, five) = read_atom_head_takes s head s' e in
      let shorter : length s' + 5 ≤ length s =
        omega (arith, ap length split, length-append taken s') in
      let passed : Within (length s') (skip_atom (skip_segment fuel) head s') =
        skip_atom-Within fuel (skip_segment fuel) head s' ih (omega arith) in
      elim (Bool-cases (closes t head)) [
        | inl closing ↦ rw closing (omega arith)
        | inr other ↦ rw other (
            Within-le (length s') (length s) _ (omega arith) (
              >>=-Within (length s') _ (skip_segment fuel t) passed
                (λ left le. Within-le (length left) (length s') _ le (ih t left (omega arith)))))
      ]

skip_segment-Within : (fuel : ℕ) → SkipsBelow fuel (skip_segment fuel)
unfolding skip_segment
skip_segment-Within zero t s h = absurd (omega arith)
skip_segment-Within (suc fuel) t s h =
    read-Within (length s) (read_atom_head s) _ (read_atom_head-Ends s)
      (λ a e. skip_next-Within fuel t s (skip_segment-Within fuel) a.0 a.1 h e)

pub Within-Ends : (n : ℕ) (r : BundleResult Source) → Within n r → Ends r
Within-Ends n (ok s) w = λ p. cc
Within-Ends n (err e) w = λ p. cc
Within-Ends n panic w = λ p. cc
Within-Ends n out_of_fuel w = absurd w

-- What `skip` leaves is no longer than what it got.
pub skip-Within : (head : AtomHead) (s : Source) → Within (length s) (skip head s)
unfolding skip
skip-Within head s =
    skip_atom-Within (suc (length s)) (skip_segment (suc (length s))) head s (skip_segment-Within _)
      (omega arith)

-- `skip` returns on every source and every head, well formed or not.
pub skip-Ends : (head : AtomHead) (s : Source) → skip head s ≢ out_of_fuel
skip-Ends head s = Within-Ends (length s) _ (skip-Within head s)
