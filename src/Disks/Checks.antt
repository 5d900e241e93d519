-- ===== src/Disks/Checks.antt =====
-- The checks of a repartitioning, and its result.
use rugix.Common.{
  ℕ, ◌≤◌, ◌==◌, leb, Bool, true, false, Option, none, some, List, [], ◌∷◌, length, ◌≡◌, refl, sym,
  ap, subst, ◌∙◌, if◌then◌else◌, arith,
}
use rugix.Common.Result.{ok, err, panic, out_of_fuel, guard, ◌>>=◌, ◌>>◌, >>=-eq-ok}
use rugix.Disks.{
  DiskId, mbr_id, gpt_id, PartitionTableType, gpt, mbr, PartitionType, mbr_type, gpt_type,
  Partition, PartitionTable, table_types, Checked, ceil_align_to, table_type, first_usable_block,
  last_usable_block, validate,
}
use rugix.Disks.Repart.{
  PartitionSchema, bytes_eq, disk_id_eq, type_eq, table_type_eq, guid_eq, Walk, repart_loop,
  check_partitions, check_new_table, finish, repart,
}
use rugix.Disks.Growth.{Grown, Grown-refl, repart_loop-Grown}

bytes_eq_refl : (g : List ℕ) → bytes_eq g g ≡ true
unfolding bytes_eq
bytes_eq_refl [] = refl
bytes_eq_refl (b ∷ g) = let ih = bytes_eq_refl g in ground arith

disk_id_eq_refl : (i : DiskId) → disk_id_eq i i ≡ true
unfolding disk_id_eq
disk_id_eq_refl (mbr_id n) = ground arith
disk_id_eq_refl (gpt_id g) = bytes_eq_refl g

type_eq_refl : (t : PartitionType) → type_eq t t ≡ true
unfolding type_eq
type_eq_refl (mbr_type n) = ground arith
type_eq_refl (gpt_type g) = bytes_eq_refl g

table_type_eq_refl : (t : PartitionTableType) → table_type_eq t t ≡ true
unfolding table_type_eq
table_type_eq_refl gpt = refl
table_type_eq_refl mbr = refl

guid_eq_refl : (g : Option (List ℕ)) → guid_eq g g ≡ true
unfolding guid_eq
guid_eq_refl none = refl
guid_eq_refl (some g) = bytes_eq_refl g

check_partitions-Grown :
    (olds news : List Partition) → Grown olds news → check_partitions olds news ≡ ok tt
unfolding check_partitions
check_partitions-Grown [] news h = refl
check_partitions-Grown (o ∷ olds) [] h = refl
check_partitions-Grown (o ∷ olds) (n ∷ news) ((same, big), h) =
    let types : type_eq o.ty n.ty ≡ true =
      ap (λ (p : Partition). type_eq o.ty p.ty) same ∙ type_eq_refl o.ty in
    let starts : (o.start == n.start) ≡ true =
      ap (λ (p : Partition). o.start == p.start) same ∙ ground arith in
    let sizes : leb o.size n.size ≡ true = ground arith in
    let guids : guid_eq o.guid n.guid ≡ true =
      ap (λ (p : Partition). guid_eq o.guid p.guid) same ∙ guid_eq_refl o.guid in
    rw (types, starts, sizes, guids) (check_partitions-Grown olds news h)

length-Grown : (olds news : List Partition) → Grown olds news → length olds ≤ length news
length-Grown [] news h = omega arith
length-Grown (o ∷ olds) [] h = cc
length-Grown (o ∷ olds) (n ∷ news) (k, h) = let ih = length-Grown olds news h in omega arith

unit_ok : (r : Checked (Unit {0})) → (r >>= λ u. ok tt) ≡ r
unit_ok (ok u) = refl
unit_ok (err e) = refl
unit_ok panic = refl
unit_ok out_of_fuel = refl

check_new_table-Grown :
    (old : PartitionTable) (parts : List Partition)
    → Grown old.partitions parts
    → check_new_table old (record old { partitions = parts })
      ≡ validate (record old { partitions = parts })
unfolding check_new_table
check_new_table-Grown old parts h =
    let few : leb (length old.partitions) (length parts) ≡ true =
      let le = length-Grown old.partitions parts h in ground arith in
    rw
      (
        disk_id_eq_refl old.disk_id,
        table_type_eq_refl (table_type old.disk_id),
        few,
        check_partitions-Grown old.partitions parts h,
      )
      (unit_ok (validate (record old { partitions = parts })))

-- Whatever the table, the schema and the place in it, behind the loop of `repart` the checks of the
-- new table against the old one are those of `validate`: no internal error is reported.
pub check_new_table-repart_loop :
    (old : PartitionTable) (schema : PartitionSchema) (next_start last : ℕ) (w : Walk)
    → repart_loop old schema.ty 0 schema.partitions (record {
      parts = old.partitions;
      next_start = next_start;
      last = last;
      in_extended = false;
      has_changed = false;
    })
      ≡ ok w
    → check_new_table old (record old { partitions = w.parts })
      ≡ validate (record old { partitions = w.parts })
check_new_table-repart_loop old schema next_start last w h = check_new_table-Grown old w.parts (
    repart_loop-Grown old schema.ty 0 schema.partitions
      (record {
        parts = old.partitions;
        next_start = next_start;
        last = last;
        in_extended = false;
        has_changed = false;
      })
      w (Grown-refl old.partitions) h)

-- A new table differs from the old one in its partitions only, of which each old one is kept at its
-- index, in all but its size, which does not shrink; and the new table validates.
pub repart-Grown :
    (old new : PartitionTable) (schema : PartitionSchema)
    → repart old schema ≡ ok (some new)
    → (new ≡ record old { partitions = new.partitions })
      × Grown old.partitions new.partitions
      × (validate new ≡ ok tt)
unfolding repart finish
repart-Grown old new schema h =
    let (u, e0, h0) =
      >>=-eq-ok (guard (table_type_eq (table_type old.disk_id) schema.ty) table_types) _ h in
    let (start, e1, h1) = >>=-eq-ok (ceil_align_to first_usable_block 2048) _ h0 in
    let (last, e2, h2) = >>=-eq-ok (last_usable_block old) _ h1 in
    let w0 : Walk = record {
      parts = old.partitions;
      next_start = start;
      last = last;
      in_extended = false;
      has_changed = false;
    } in
    let (w, e3, h3) = >>=-eq-ok (repart_loop old schema.ty 0 schema.partitions w0) _ h2 in
    let grown =
      repart_loop-Grown old schema.ty 0 schema.partitions w0 w (Grown-refl old.partitions) e3 in
    by_change w grown w.has_changed h3
  where
    by_change :
        (w : Walk)
        → Grown old.partitions w.parts
        → (b : Bool)
        → (if b
            then (check_new_table old (record old { partitions = w.parts })
                >> ok (some (record old { partitions = w.parts })))
            else ok none)
          ≡ ok (some new)
        → (new ≡ record old { partitions = new.partitions })
          × Grown old.partitions new.partitions
          × (validate new ≡ ok tt)
    by_change w grown false k = cc
    by_change w grown true k =
        let (u, passed, same) =
          >>=-eq-ok (check_new_table old (record old { partitions = w.parts }))
            (λ u. ok (some (record old { partitions = w.parts }))) k in
        let is_new : record old { partitions = w.parts } ≡ new = cc in
        let valid : validate (record old { partitions = w.parts }) ≡ ok tt =
          sym (check_new_table-Grown old w.parts grown) ∙ passed in
        subst
          (λ t.
            (t ≡ record old { partitions = t.partitions })
            × Grown old.partitions t.partitions
            × (validate t ≡ ok tt))
          is_new (refl, grown, valid)
