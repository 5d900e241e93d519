-- ===== src/Disks.antt =====
-- crates/libs/rugix-common/src/disk/mod.rs: partition tables and their validation.
-- Numbers of blocks are `u64`; the release profile checks for overflow, so that a sum or a difference
-- out of range is a panic. A GUID is the list of its bytes.
pub mod Fitting
pub mod Layout
pub mod Repart
pub mod Growth
mod Checks
mod Tests
use rugix.Common.{
  ℕ, ◌+◌, ◌-◌, ◌*◌, ◌/◌, ◌^◌, ◌==◌, ltb, leb, not, ◌&&◌, ◌||◌, Bool, true, false, Option, none,
  some, List, [], ◌∷◌, min, if◌then◌else◌,
}
use rugix.Common.Arith.{div_ceil}
use rugix.Common.Text.{Text}
use rugix.Common.Result.{Result, ok, err, panic, guard, ◌>>=◌, ◌>>◌}

pub data DiskId : Type 0 where
  mbr_id : ℕ → DiskId
  gpt_id : List ℕ → DiskId

pub data PartitionTableType : Type 0 where
  gpt : PartitionTableType
  mbr : PartitionTableType

pub data PartitionType : Type 0 where
  mbr_type : ℕ → PartitionType
  gpt_type : List ℕ → PartitionType

pub record Partition : Type 0 where
  pub number : ℕ
  pub start : ℕ
  pub size : ℕ
  pub ty : PartitionType
  pub name : Option Text
  pub guid : Option (List ℕ)

pub record PartitionTable : Type 0 where
  pub disk_id : DiskId
  pub disk_size : ℕ
  pub block_size : ℕ
  pub partitions : List Partition

-- The messages; those from `changed_id` on are internal errors of a repartitioning.
pub data DiskError : Type 0 where
  starting_block : DiskError
  partition_number : DiskError
  extended_number : DiskError
  number_of_extended : DiskError
  beyond_range : DiskError
  table_types : DiskError
  partition_types : DiskError
  insufficient_space : DiskError
  changed_id : DiskError
  changed_table_type : DiskError
  deleted_partition : DiskError
  changed_type : DiskError
  changed_start : DiskError
  smaller_partition : DiskError
  changed_guid : DiskError

abbrev pub Checked : Type 0 → Type 0
Checked A = Result DiskError A

unfoldable pub plus : ℕ → ℕ → Checked ℕ
plus a b = if ltb (a + b) (2 ^ 64) then ok (a + b) else panic

unfoldable pub minus : ℕ → ℕ → Checked ℕ
minus a b = if leb b a then ok (a - b) else panic

unfoldable pub times : ℕ → ℕ → Checked ℕ
times a b = if ltb (a * b) (2 ^ 64) then ok (a * b) else panic

-- `u8`
unfoldable pub next_u8 : ℕ → Checked ℕ
next_u8 n = if ltb n 255 then ok (n + 1) else panic

unfoldable pub floor_align_to : ℕ → ℕ → Checked ℕ
floor_align_to n align = if align == 0 then panic else times align (n / align)

unfoldable pub ceil_align_to : ℕ → ℕ → Checked ℕ
ceil_align_to n align = if align == 0 then panic else times align (div_ceil n align)

unfoldable pub table_type : DiskId → PartitionTableType
table_type (mbr_id n) = mbr
table_type (gpt_id g) = gpt

unfoldable pub is_extended : PartitionType → Bool
is_extended (mbr_type id) = id == 0x05 || id == 0x0F
is_extended (gpt_type g) = false

abbrev pub gpt_table_blocks : ℕ
gpt_table_blocks = 33

unfoldable pub bytes_to_blocks : PartitionTable → ℕ → Checked ℕ
bytes_to_blocks t bytes = if t.block_size == 0 then panic else ok (div_ceil bytes t.block_size)

abbrev pub first_usable_block : ℕ
first_usable_block = gpt_table_blocks + 1

abbrev pub last_usable : DiskId → ℕ → Checked ℕ
last_usable (mbr_id n) disk_size = do last ← minus disk_size 1; ok (min last (2 ^ 32 - 1))
last_usable (gpt_id g) disk_size = do end ← minus disk_size gpt_table_blocks; minus end 1

unfoldable pub last_usable_block : PartitionTable → Checked ℕ
last_usable_block t = last_usable t.disk_id t.disk_size

-- The variables of the loop of `validate`.
pub record Cursor : Type 0 where
  pub last : ℕ
  pub next_free : ℕ
  pub next_number : ℕ
  pub in_extended : Bool

-- Space for the EBR.
unfoldable pub skip_ebr : Cursor → Checked ℕ
skip_ebr c = if c.in_extended then plus c.next_free 1 else ok c.next_free

unfoldable pub enter_extended : Partition → Checked Cursor
enter_extended p = do
  guard (leb p.number 4) number_of_extended
  free ← plus p.start 63
  end ← plus p.start p.size
  ok (record { last = end; next_free = free; next_number = 5; in_extended = true })

unfoldable pub pass : Cursor → Partition → Checked Cursor
pass c p = do
  number ← next_u8 p.number
  free ← plus p.start p.size
  ok (record c { next_free = free; next_number = number })

unfoldable pub validate_round : Cursor → Partition → Checked Cursor
validate_round c p = do
  free ← skip_ebr c
  guard (leb free p.start) starting_block
  guard (leb c.next_number p.number) partition_number
  guard (not (c.in_extended && not (p.number == c.next_number))) extended_number
  (if is_extended p.ty then enter_extended p else pass c p)

unfoldable pub validate_loop : Cursor → List Partition → Checked Cursor
validate_loop c [] = ok c
validate_loop c (p ∷ parts) = validate_round c p >>= λ c'. validate_loop c' parts

unfoldable pub validate : PartitionTable → Checked (Unit {0})
validate t = do
  last ← last_usable_block t
  c ←
      validate_loop
        (record {
          last = last;
          next_free = first_usable_block;
          next_number = 1;
          in_extended = false;
        })
        t.partitions
  end ← minus c.next_free 1
  guard (leb end c.last) beyond_range
