-- ===== src/Disks/Tests.antt =====
-- A disk with two partitions, and a schema that lets them grow and adds a third.
use rugix.Common.{ℕ, ◌+◌, ◌≤◌, ◌≡◌, refl, false, true, Option, none, some, List, [], ◌∷◌, All}
use rugix.Common.Result.{ok}
use rugix.Disks.{
  gpt_id, mbr_id, gpt, mbr_type, Partition, PartitionTable, plus, minus, times, next_u8,
  ceil_align_to, table_type, is_extended, bytes_to_blocks, first_usable_block, last_usable_block,
  skip_ebr, enter_extended, pass, validate_round, validate_loop, validate,
}
use rugix.Disks.Repart.{
  SchemaPartition, PartitionSchema, bytes_eq, disk_id_eq, type_eq, table_type_eq, guid_eq, linux,
  place, up_to, between, available_blocks, Walk, put, advance, repart_round, repart_loop,
  check_partitions, check_new_table, finish, repart,
}
use rugix.Disks.Fitting.{Fits}
use rugix.Disks.Layout.{Separate, validate_separates, validate_in_range}
use rugix.Disks.Growth.{Grown}
use rugix.Disks.Checks.{repart-Grown, check_new_table-repart_loop}

abbrev partition : ℕ → ℕ → ℕ → Partition
partition number start size = record {
  number = number;
  start = start;
  size = size;
  ty = linux gpt;
  name = none;
  guid = none;
}

abbrev table : List Partition → PartitionTable
table parts = record {
  disk_id = gpt_id (7 ∷ []);
  disk_size = 1000000;
  block_size = 512;
  partitions = parts;
}

abbrev old_parts : List Partition
old_parts = partition 1 2048 1000 ∷ partition 2 4096 2048 ∷ []

abbrev new_parts : List Partition
new_parts = partition 1 2048 2048 ∷ partition 2 4096 4096 ∷ partition 3 8192 991775 ∷ []

abbrev wish : Option ℕ → SchemaPartition
wish size = record { number = none; name = none; size = size; ty = none }

abbrev schema : PartitionSchema
schema = record { ty = gpt; partitions = wish none ∷ wish (some 2097152) ∷ wish none ∷ [] }

new_validates : validate (table new_parts) ≡ ok tt
unfolding validate validate_loop validate_round skip_ebr pass last_usable_block is_extended plus
    minus next_u8
new_validates = refl

validate_separates_example :
    All (λ p. (first_usable_block ≤ p.start) × (1 ≤ p.number)) new_parts
    × Separate new_parts
    × All Fits new_parts
validate_separates_example = validate_separates (table new_parts) new_validates

validate_in_range_example :
    (last : ℕ) × (last_usable_block (table new_parts) ≡ ok last)
    × All (λ p. p.start + p.size ≤ last + 1) new_parts
unfolding is_extended
validate_in_range_example =
    validate_in_range (table new_parts) (refl, (refl, (refl, tt))) new_validates

reparts : repart (table old_parts) schema ≡ ok (some (table new_parts))
unfolding repart repart_loop repart_round place available_blocks between up_to put advance finish
    check_new_table check_partitions bytes_eq disk_id_eq type_eq table_type_eq guid_eq table_type
    ceil_align_to times bytes_to_blocks validate validate_loop validate_round skip_ebr pass
    last_usable_block is_extended plus minus next_u8
reparts = refl

repart-Grown_example :
    (table new_parts ≡ table new_parts)
    × Grown old_parts new_parts
    × (validate (table new_parts) ≡ ok tt)
repart-Grown_example = repart-Grown (table old_parts) (table new_parts) schema reparts

abbrev walked : Walk
walked = record {
  parts = new_parts;
  next_start = 999967;
  last = 999966;
  in_extended = false;
  has_changed = true;
}

walks :
    repart_loop (table old_parts) gpt 0 schema.partitions (record {
      parts = old_parts;
      next_start = 2048;
      last = 999966;
      in_extended = false;
      has_changed = false;
    })
    ≡ ok walked
unfolding repart_loop repart_round place available_blocks between up_to put advance bytes_eq type_eq
    ceil_align_to times bytes_to_blocks is_extended plus minus
walks = refl

check_new_table-repart_loop_example :
    check_new_table (table old_parts) (table new_parts) ≡ validate (table new_parts)
check_new_table-repart_loop_example =
    check_new_table-repart_loop (table old_parts) schema 2048 999966 walked walks

-- The range of an extended partition is taken to end one block behind it: a logical partition that
-- ends there validates.
overhangs :
    validate (record {
      disk_id = mbr_id 1;
      disk_size = 100000;
      block_size = 512;
      partitions =
          record {
            number = 1;
            start = 2048;
            size = 1000;
            ty = mbr_type 0x05;
            name = none;
            guid = none;
          }
          ∷ record {
            number = 5;
            start = 2148;
            size = 901;
            ty = mbr_type 0x83;
            name = none;
            guid = none;
          }
          ∷ [];
    })
    ≡ ok tt
unfolding validate validate_loop validate_round skip_ebr pass enter_extended last_usable_block
    is_extended plus minus next_u8
overhangs = refl
