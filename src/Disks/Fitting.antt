-- ===== src/Disks/Fitting.antt =====
-- The ranges of the sums in a table that validates.
use rugix.Common.{
  ℕ, ◌+◌, ◌^◌, ◌<◌, ◌==◌, leb, not, ◌&&◌, leb→le, Bool, true, false, List, [], ◌∷◌, All, ◌≡◌, refl,
  if◌then◌else◌, arith,
}
use rugix.Common.Result.{ok, guard, >>=-eq-ok}
use rugix.Disks.{
  Partition, DiskError, starting_block, partition_number, extended_number, number_of_extended, plus,
  next_u8, is_extended, Cursor, skip_ebr, enter_extended, pass, validate_round, validate_loop,
}

pub guard_ok : (b : Bool) (e : DiskError) → guard b e ≡ ok tt → b ≡ true
guard_ok true e h = refl
guard_ok false e h = cc

plus_fits : (a b c : ℕ) → plus a b ≡ ok c → a + b < 2 ^ 64
unfolding plus
plus_fits a b c h = ground arith

next_u8_fits : (n m : ℕ) → next_u8 n ≡ ok m → n < 255
unfolding next_u8
next_u8_fits n m h = ground arith

-- The end of the partition, and the number behind its own, are in the ranges of their types.
abbrev pub Fits : Partition → Type 0
Fits p = (p.start + p.size < 2 ^ 64) × (p.number < 255)

pass-Fits : (c : Cursor) (p : Partition) (d : Cursor) → pass c p ≡ ok d → Fits p
unfolding pass
pass-Fits c p d h =
    let (n, e, h1) = >>=-eq-ok (next_u8 p.number) _ h in
    let (f, e2, h2) = >>=-eq-ok (plus p.start p.size) _ h1 in
    (plus_fits p.start p.size f e2, next_u8_fits p.number n e)

enter-Fits : (p : Partition) (d : Cursor) → enter_extended p ≡ ok d → Fits p
unfolding enter_extended
enter-Fits p d h =
    let (u, g, h0) = >>=-eq-ok (guard (leb p.number 4) number_of_extended) _ h in
    let (f, e, h1) = >>=-eq-ok (plus p.start 63) _ h0 in
    let (l, e2, h2) = >>=-eq-ok (plus p.start p.size) _ h1 in
    let small = leb→le p.number 4 (guard_ok (leb p.number 4) number_of_extended g) in
    (plus_fits p.start p.size l e2, omega arith)

round-Fits : (c : Cursor) (p : Partition) (d : Cursor) → validate_round c p ≡ ok d → Fits p
unfolding validate_round
round-Fits c p d h =
    let (free, e, h0) = >>=-eq-ok (skip_ebr c) _ h in
    let (u1, g1, h1) = >>=-eq-ok (guard (leb free p.start) starting_block) _ h0 in
    let (u2, g2, h2) = >>=-eq-ok (guard (leb c.next_number p.number) partition_number) _ h1 in
    let (u3, g3, h3) =
      >>=-eq-ok (guard (not (c.in_extended && not (p.number == c.next_number))) extended_number) _
        h2 in
    by_type (is_extended p.ty) h3
  where
    by_type : (b : Bool) → (if b then enter_extended p else pass c p) ≡ ok d → Fits p
    by_type true k = enter-Fits p d k
    by_type false k = pass-Fits c p d k

pub loop-Fits :
    (c : Cursor) (parts : List Partition) (d : Cursor)
    → validate_loop c parts ≡ ok d
    → All Fits parts
unfolding validate_loop
loop-Fits c [] d h = tt
loop-Fits c (p ∷ parts) d h =
    let (c', e, rest) = >>=-eq-ok (validate_round c p) (λ x. validate_loop x parts) h in
    (round-Fits c p c' e, loop-Fits c' parts d rest)
