-- ===== src/Disks/Layout.antt =====
-- What a partition table that validates looks like.
use rugix.Common.{
  ℕ, ◌+◌, ◌-◌, ◌≤◌, ◌<◌, ◌==◌, leb, not, ◌&&◌, leb→le, Bool, true, false, List, [], ◌∷◌, All, ◌≡◌,
  refl, sym, ap, ◌∙◌, if◌then◌else◌, arith,
}
use rugix.Common.Result.{ok, guard, >>=-eq-ok}
use rugix.Disks.{
  Partition, PartitionTable, starting_block, partition_number, extended_number, number_of_extended,
  beyond_range, Checked, plus, minus, next_u8, is_extended, first_usable_block, last_usable_block,
  Cursor, skip_ebr, enter_extended, pass, validate_round, validate_loop, validate,
}
use rugix.Disks.Fitting.{guard_ok, Fits, loop-Fits}

plus_ok : (a b c : ℕ) → plus a b ≡ ok c → c ≡ a + b
unfolding plus
plus_ok a b c h = ground arith

minus_ok : (a b c : ℕ) → minus a b ≡ ok c → (c ≡ a - b) × (b ≤ a)
unfolding minus
minus_ok a b c h = (ground arith, ground arith)

next_u8_ok : (n m : ℕ) → next_u8 n ≡ ok m → m ≡ n + 1
unfolding next_u8
next_u8_ok n m h = ground arith

-- Where a partition ends for those behind it: of an extended one, the first block of a logical one.
unfoldable pub reserved_end : Partition → ℕ
reserved_end p = if is_extended p.ty then p.start + 64 else p.start + p.size

-- The first block that the next partition may start at.
unfoldable floor : Cursor → ℕ
floor c = if c.in_extended then c.next_free + 1 else c.next_free

skip_ebr_ok : (c : Cursor) (free : ℕ) → skip_ebr c ≡ ok free → free ≡ floor c
unfolding skip_ebr plus floor
skip_ebr_ok c free h = ground arith

pass_ok :
    (c : Cursor) (p : Partition) (d : Cursor)
    → pass c p ≡ ok d
    → (p.number < d.next_number)
      × (d.next_free ≡ p.start + p.size)
      × (d.last ≡ c.last)
      × (d.in_extended ≡ c.in_extended)
unfolding pass
pass_ok c p d h =
    let (n, e, h1) = >>=-eq-ok (next_u8 p.number) _ h in
    let (f, e2, h2) = >>=-eq-ok (plus p.start p.size) _ h1 in
    let en = next_u8_ok p.number n e in
    let ef = plus_ok p.start p.size f e2 in (ground arith, ground arith, ground arith, cc)

enter_ok :
    (p : Partition) (d : Cursor)
    → enter_extended p ≡ ok d
    → (p.number < d.next_number) × (d.next_free ≡ p.start + 63) × (d.in_extended ≡ true)
unfolding enter_extended
enter_ok p d h =
    let (u, g, h0) = >>=-eq-ok (guard (leb p.number 4) number_of_extended) _ h in
    let (f, e, h1) = >>=-eq-ok (plus p.start 63) _ h0 in
    let (l, e2, h2) = >>=-eq-ok (plus p.start p.size) _ h1 in
    let small = guard_ok (leb p.number 4) number_of_extended g in
    let ef = plus_ok p.start 63 f e in (ground arith, ground arith, cc)

-- What a round shows of its partition, and of the cursor behind it.
abbrev Passed : Cursor → Partition → Cursor → Type 0
Passed c p d =
    (c.next_number ≤ p.number)
    × (p.number < d.next_number)
    × (floor c ≤ p.start)
    × (reserved_end p ≤ floor d)

pass-Passed :
    (c : Cursor) (p : Partition) (d : Cursor)
    → is_extended p.ty ≡ false
    → pass c p ≡ ok d
    → (p.number < d.next_number) × (reserved_end p ≤ floor d)
unfolding floor reserved_end
pass-Passed c p d ext h =
    let (n, free, last, inside) = pass_ok c p d h in (n, rw (ext, free) (ground arith))

enter-Passed :
    (p : Partition) (d : Cursor)
    → is_extended p.ty ≡ true
    → enter_extended p ≡ ok d
    → (p.number < d.next_number) × (reserved_end p ≤ floor d)
unfolding floor reserved_end
enter-Passed p d ext h =
    let (n, free, inside) = enter_ok p d h in (n, rw (ext, free, inside) (omega arith))

validate_round-Passed :
    (c : Cursor) (p : Partition) (d : Cursor) → validate_round c p ≡ ok d → Passed c p d
unfolding validate_round
validate_round-Passed c p d h =
    let (free, e, h0) = >>=-eq-ok (skip_ebr c) _ h in
    let (u1, g1, h1) = >>=-eq-ok (guard (leb free p.start) starting_block) _ h0 in
    let (u2, g2, h2) = >>=-eq-ok (guard (leb c.next_number p.number) partition_number) _ h1 in
    let (u3, g3, h3) =
      >>=-eq-ok (guard (not (c.in_extended && not (p.number == c.next_number))) extended_number) _
        h2 in
    let at_floor = skip_ebr_ok c free e in
    let start_ok = leb→le free p.start (guard_ok (leb free p.start) starting_block g1) in
    let number_ok =
      leb→le c.next_number p.number (guard_ok (leb c.next_number p.number) partition_number g2) in
    let (below, behind) = by_type (is_extended p.ty) refl h3 in
    (number_ok, below, omega arith, behind)
  where
    by_type :
        (b : Bool)
        → is_extended p.ty ≡ b
        → (if b then enter_extended p else pass c p) ≡ ok d
        → (p.number < d.next_number) × (reserved_end p ≤ floor d)
    by_type true ext k = enter-Passed p d ext k
    by_type false ext k = pass-Passed c p d ext k

-- `p` stands in front of `q`.
abbrev pub Before : Partition → Partition → Type 0
Before p q = (p.number < q.number) × (reserved_end p ≤ q.start)

abbrev pub Separate : List Partition → Type 0
Separate [] = Unit {0}
Separate (p ∷ parts) = All (Before p) parts × Separate parts

abbrev Behind : ℕ → ℕ → Partition → Type 0
Behind free number q = (free ≤ q.start) × (number ≤ q.number)

reserved_end_le : (p : Partition) → p.start ≤ reserved_end p
unfolding reserved_end
reserved_end_le p = ground arith

All-Behind :
    (free free' number number' : ℕ) (parts : List Partition)
    → free ≤ free'
    → number ≤ number'
    → All (Behind free' number') parts
    → All (Behind free number) parts
All-Behind free free' number number' [] h k a = tt
All-Behind free free' number number' (q ∷ parts) h k ((s, n), a) =
    ((omega arith, omega arith), All-Behind free free' number number' parts h k a)

All-Before :
    (p : Partition) (free number : ℕ) (parts : List Partition)
    → reserved_end p ≤ free
    → p.number < number
    → All (Behind free number) parts
    → All (Before p) parts
All-Before p free number [] h k a = tt
All-Before p free number (q ∷ parts) h k ((s, n), a) =
    ((omega arith, omega arith), All-Before p free number parts h k a)

-- All partitions of a loop stand behind its first cursor, apart from each other, and before its
-- last.
loop_separates :
    (c : Cursor) (parts : List Partition) (d : Cursor)
    → validate_loop c parts ≡ ok d
    → All (Behind (floor c) c.next_number) parts
      × Separate parts
      × All (λ q. reserved_end q ≤ floor d) parts
      × (floor c ≤ floor d)
unfolding validate_loop
loop_separates c [] d h = (tt, tt, tt, rw (ok_inj c d h) (omega arith))
  where
    ok_inj : (a b : Cursor) → ◌≡◌ {A = Checked Cursor} (ok a) (ok b) → a ≡ b
    ok_inj a b e = cc
loop_separates c (p ∷ parts) d h =
    let (c', e, rest) = >>=-eq-ok (validate_round c p) (λ x. validate_loop x parts) h in
    let (number, below, start, behind) = validate_round-Passed c p c' e in
    let (others, apart, ends, grows) = loop_separates c' parts d rest in
    let wide = reserved_end_le p in
    (
      (
        (start, number),
        All-Behind (floor c) (floor c') c.next_number c'.next_number parts (omega arith)
            (omega arith) others,
      ),
      (All-Before p (floor c') c'.next_number parts behind below others, apart),
      (omega arith, ends),
      omega arith,
    )

-- A table that validates has its partitions behind the first usable block, in the order of their
-- numbers, each from where the one in front of it ends on (behind an extended one, from its 65th
-- block on), and no number is 0; the end of each partition fits into 64 bits, and the number behind
-- its own into 8.
pub validate_separates :
    (t : PartitionTable)
    → validate t ≡ ok tt
    → All (λ p. (first_usable_block ≤ p.start) × (1 ≤ p.number)) t.partitions
      × Separate t.partitions
      × All Fits t.partitions
unfolding validate floor
validate_separates t h =
    let (last, e, h0) = >>=-eq-ok (last_usable_block t) _ h in
    let c : Cursor = record {
      last = last;
      next_free = first_usable_block;
      next_number = 1;
      in_extended = false;
    } in
    let (d, e1, h1) = >>=-eq-ok (validate_loop c t.partitions) _ h0 in
    let (all, apart, ends, grows) = loop_separates c t.partitions d e1 in
    (all, apart, loop-Fits c t.partitions d e1)

-- Without an extended partition, the end of the range stays what it was.
plain_loop :
    (c : Cursor) (parts : List Partition) (d : Cursor)
    → All (λ p. is_extended p.ty ≡ false) parts
    → c.in_extended ≡ false
    → validate_loop c parts ≡ ok d
    → (d.in_extended ≡ false) × (d.last ≡ c.last)
unfolding validate_loop validate_round
plain_loop c [] d a out h = (cc, cc)
plain_loop c (p ∷ parts) d (plain, a) out h =
    let (c', e, rest) = >>=-eq-ok (validate_round c p) (λ x. validate_loop x parts) h in
    let (f, e0, h0) = >>=-eq-ok (skip_ebr c) _ e in
    let (u1, g1, h1) = >>=-eq-ok (guard (leb f p.start) starting_block) _ h0 in
    let (u2, g2, h2) = >>=-eq-ok (guard (leb c.next_number p.number) partition_number) _ h1 in
    let (u3, g3, h3) =
      >>=-eq-ok (guard (not (c.in_extended && not (p.number == c.next_number))) extended_number) _
        h2 in
    let passed : pass c p ≡ ok c' =
      ap (λ b. if b then enter_extended p else pass c p) (sym plain) ∙ h3 in
    let (n, free, last, inside) = pass_ok c p c' passed in
    let (out', last') = plain_loop c' parts d a (inside ∙ out) rest in (out', last' ∙ last)

plain_ends :
    (n : ℕ) (parts : List Partition)
    → All (λ p. is_extended p.ty ≡ false) parts
    → All (λ q. reserved_end q ≤ n) parts
    → All (λ p. p.start + p.size ≤ n) parts
unfolding reserved_end
plain_ends n [] a h = tt
plain_ends n (p ∷ parts) (e, a) (k, h) = (ground arith, plain_ends n parts a h)

-- Where a table without an extended partition validates, all its partitions end at the last usable
-- block or before.
pub validate_in_range :
    (t : PartitionTable)
    → All (λ p. is_extended p.ty ≡ false) t.partitions
    → validate t ≡ ok tt
    → (last : ℕ) × (last_usable_block t ≡ ok last)
      × All (λ p. p.start + p.size ≤ last + 1) t.partitions
unfolding validate floor
validate_in_range t a h =
    let (last, e, h0) = >>=-eq-ok (last_usable_block t) _ h in
    let c : Cursor = record {
      last = last;
      next_free = first_usable_block;
      next_number = 1;
      in_extended = false;
    } in
    let (d, e1, h1) = >>=-eq-ok (validate_loop c t.partitions) _ h0 in
    let (end, e2, h2) = >>=-eq-ok (minus d.next_free 1) _ h1 in
    let (all, apart, ends, grows) = loop_separates c t.partitions d e1 in
    let (out, same) = plain_loop c t.partitions d a refl e1 in
    let (end_is, at_least) = minus_ok d.next_free 1 end e2 in
    let le = leb→le end d.last (guard_ok (leb end d.last) beyond_range h2) in
    (
      last,
      e,
      plain_ends (last + 1) t.partitions a
          (All_le (floor d) (last + 1) t.partitions (rw out (omega arith)) ends),
    )
  where
    All_le :
        (m n : ℕ) (parts : List Partition)
        → m ≤ n
        → All (λ q. reserved_end q ≤ m) parts
        → All (λ q. reserved_end q ≤ n) parts
    All_le m n [] k r = tt
    All_le m n (q ∷ parts) k (p, r) = (omega arith, All_le m n parts k r)
