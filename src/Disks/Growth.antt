-- ===== src/Disks/Growth.antt =====
-- What a repartitioning keeps of the partitions there are.
use rugix.Common.{
  ℕ, zero, suc, ◌+◌, ◌≤◌, ◌||◌, max, min, Bool, true, false, Option, none, some, List, [], ◌∷◌,
  ◌++◌, get_elem?, set, ◌≡◌, refl, sym, ap, ◌∙◌, if◌then◌else◌, arith,
}
use rugix.Common.Result.{ok, ◌>>=◌, >>=-eq-ok}
use rugix.Disks.{
  PartitionTableType, PartitionType, Partition, PartitionTable, plus, minus, is_extended,
}
use rugix.Disks.Repart.{
  SchemaPartition, linux, type_or, wanted, size_or, place, available_blocks, Walk, put, size_at,
  changes, advance, repart_round, repart_loop,
}

-- The same partition, with at least its size.
abbrev pub Kept : Partition → Partition → Type 0
Kept old new = (new ≡ record old { size = new.size }) × (old.size ≤ new.size)

-- Every old partition is kept at its index.
abbrev pub Grown : List Partition → List Partition → Type 0
Grown [] news = Unit {0}
Grown (old ∷ olds) [] = false ≡ true
Grown (old ∷ olds) (new ∷ news) = Kept old new × Grown olds news

pub Grown-refl : (parts : List Partition) → Grown parts parts
Grown-refl [] = tt
Grown-refl (p ∷ parts) = ((refl, omega arith), Grown-refl parts)

Grown-append :
    (olds parts : List Partition) (p : Partition)
    → Grown olds parts
    → Grown olds (parts ++ (p ∷ []))
Grown-append [] parts p h = tt
Grown-append (o ∷ olds) [] p h = cc
Grown-append (o ∷ olds) (q ∷ parts) p (k, h) = (k, Grown-append olds parts p h)

Grown-set :
    (olds parts : List Partition) (idx : ℕ) (new : Partition) (size : ℕ)
    → get_elem? parts idx ≡ some new
    → new.size ≤ size
    → Grown olds parts
    → Grown olds (set parts idx (record new { size = size }))
Grown-set [] parts idx new size e le h = tt
Grown-set (o ∷ olds) [] idx new size e le h = cc
Grown-set (o ∷ olds) (q ∷ parts) zero new size e le ((same, big), h) =
    let is_q : q ≡ new = cc in
    let kept : new ≡ record o { size = new.size } =
      sym is_q ∙ same ∙ ap (λ (p : Partition). record o { size = p.size }) is_q in
    let small : q.size ≡ new.size = ap (λ (p : Partition). p.size) is_q in
    ((ap (λ (p : Partition). record p { size = size }) kept, omega arith), h)
Grown-set (o ∷ olds) (q ∷ parts) (suc idx) new size e le (k, h) =
    (k, Grown-set olds parts idx new size e le h)

put-Grown :
    (olds parts : List Partition) (idx start size : ℕ) (ty : PartitionType)
    → Grown olds parts
    → Grown olds (put (get_elem? parts idx) idx start size ty parts)
unfolding put
put-Grown olds parts idx start size ty h = by_element (get_elem? parts idx) refl
  where
    by_element :
        (o : Option Partition)
        → get_elem? parts idx ≡ o
        → Grown olds (put o idx start size ty parts)
    by_element none e = Grown-append olds parts _ h
    by_element (some new) e = Grown-set olds parts idx new (max size new.size) e (omega arith) h

advance_parts :
    (ty : PartitionType) (start size : ℕ) (parts : List Partition) (changed : Bool) (w w' : Walk)
    → advance ty start size parts changed w ≡ ok w'
    → w'.parts ≡ parts
unfolding advance
advance_parts ty start size parts changed w w' h =
    let (end, e, rest) = >>=-eq-ok (plus start size) _ h in by_type (is_extended ty) end rest
  where
    by_type :
        (b : Bool) (end : ℕ)
        → (if b
            then (minus end 1 >>= λ last. ok (record {
              parts = parts;
              next_start = start;
              last = last;
              in_extended = true;
              has_changed = changed;
            }))
            else ok (record w { parts = parts; next_start = end; has_changed = changed }))
          ≡ ok w'
        → w'.parts ≡ parts
    by_type true end k = let (last, e, same) = >>=-eq-ok (minus end 1) _ k in cc
    by_type false end k = cc

module _ (old : PartitionTable) (kind : PartitionTableType) where
  repart_round-Grown :
      (idx : ℕ) (partition : SchemaPartition) (w w' : Walk)
      → Grown old.partitions w.parts
      → repart_round old kind idx partition w ≡ ok w'
      → Grown old.partitions w'.parts
  unfolding repart_round
  repart_round-Grown idx partition w w' g h =
      let (next_start, e0, h0) =
        >>=-eq-ok (if w.in_extended then plus w.next_start 63 else ok w.next_start) _ h in
      let (size, e1, h1) = >>=-eq-ok (wanted old partition.size) _ h0 in
      let ty = type_or partition.ty (linux kind) in
      let (placed, e2, h2) =
        >>=-eq-ok (place (get_elem? old.partitions idx) ty next_start size) _ h1 in
      let (available, e3, h3) =
        >>=-eq-ok
          (available_blocks ty w.in_extended placed.0 (get_elem? old.partitions (idx + 1)) w.last) _
          h2 in
      let granted = min (size_or placed.1 available) available in
      let (sum, e4, h4) = >>=-eq-ok (plus placed.0 granted) _ h3 in
      let (end, e5, h5) = >>=-eq-ok (minus sum 1) _ h4 in
      let new = get_elem? w.parts idx in
      let same =
        advance_parts ty placed.0 (size_at new granted) (put new idx placed.0 granted ty w.parts)
          (w.has_changed || changes new granted) w w' h5 in
      rw same (put-Grown old.partitions w.parts idx placed.0 granted ty g)

  pub repart_loop-Grown :
      (idx : ℕ) (schema : List SchemaPartition) (w w' : Walk)
      → Grown old.partitions w.parts
      → repart_loop old kind idx schema w ≡ ok w'
      → Grown old.partitions w'.parts
  unfolding repart_loop
  repart_loop-Grown idx [] w w' g h = let same : w ≡ w' = cc in rw⁻¹ same g
  repart_loop-Grown idx (partition ∷ schema) w w' g h =
      let (mid, e, rest) = >>=-eq-ok (repart_round old kind idx partition w) _ h in
      repart_loop-Grown (idx + 1) schema mid w' (repart_round-Grown idx partition w mid g e) rest
