-- ===== src/Disks/Repart.antt =====
-- crates/libs/rugix-common/src/disk/repart.rs: the repartitioning of a disk by a schema.
use rugix.Common.{
  ℕ, ◌+◌, ◌%◌, ◌^◌, ◌==◌, ltb, leb, not, ◌&&◌, ◌||◌, Bool, true, false, Option, none, some, List,
  [], ◌∷◌, ◌++◌, length, get_elem?, set, min, max, if◌then◌else◌,
}
use rugix.Common.Text.{Text}
use rugix.Common.Result.{ok, guard, ◌>>=◌, ◌>>◌}
use rugix.Disks.{
  DiskId, mbr_id, gpt_id, PartitionTableType, gpt, mbr, PartitionType, mbr_type, gpt_type,
  Partition, PartitionTable, table_types, partition_types, insufficient_space, changed_id,
  changed_table_type, deleted_partition, changed_type, changed_start, smaller_partition,
  changed_guid, Checked, plus, minus, floor_align_to, ceil_align_to, table_type, is_extended,
  bytes_to_blocks, first_usable_block, last_usable_block, validate,
}

pub record SchemaPartition : Type 0 where
  pub number : Option ℕ
  pub name : Option Text
  pub size : Option ℕ
  pub ty : Option PartitionType

pub record PartitionSchema : Type 0 where
  pub ty : PartitionTableType
  pub partitions : List SchemaPartition

-- Derived equality.
unfoldable pub bytes_eq : List ℕ → List ℕ → Bool
bytes_eq [] [] = true
bytes_eq [] (b ∷ bs) = false
bytes_eq (a ∷ as') [] = false
bytes_eq (a ∷ as') (b ∷ bs) = a == b && bytes_eq as' bs

unfoldable pub disk_id_eq : DiskId → DiskId → Bool
disk_id_eq (mbr_id m) (mbr_id n) = m == n
disk_id_eq (gpt_id g) (gpt_id h) = bytes_eq g h
disk_id_eq (mbr_id m) (gpt_id h) = false
disk_id_eq (gpt_id g) (mbr_id n) = false

unfoldable pub type_eq : PartitionType → PartitionType → Bool
type_eq (mbr_type m) (mbr_type n) = m == n
type_eq (gpt_type g) (gpt_type h) = bytes_eq g h
type_eq (mbr_type m) (gpt_type h) = false
type_eq (gpt_type g) (mbr_type n) = false

unfoldable pub table_type_eq : PartitionTableType → PartitionTableType → Bool
table_type_eq gpt gpt = true
table_type_eq mbr mbr = true
table_type_eq gpt mbr = false
table_type_eq mbr gpt = false

unfoldable pub guid_eq : Option (List ℕ) → Option (List ℕ) → Bool
guid_eq none none = true
guid_eq (some g) (some h) = bytes_eq g h
guid_eq none (some h) = false
guid_eq (some g) none = false

-- `gpt_types::LINUX`, in the byte order of a GUID on disk, and `mbr_types::LINUX`.
abbrev pub linux : PartitionTableType → PartitionType
linux gpt = gpt_type (
    0xAF ∷ 0x3D ∷ 0xC6 ∷ 0x0F ∷ 0x83 ∷ 0x84 ∷ 0x72 ∷ 0x47 ∷ 0x8E ∷ 0x79 ∷ 0x3D ∷ 0x69 ∷ 0xD8 ∷ 0x47
    ∷ 0x7D ∷ 0xE4 ∷ [])
linux mbr = mbr_type 0x83

abbrev pub type_or : Option PartitionType → PartitionType → PartitionType
type_or none d = d
type_or (some t) d = t

abbrev pub wanted : PartitionTable → Option ℕ → Checked (Option ℕ)
wanted old none = ok none
wanted old (some bytes) = do blocks ← bytes_to_blocks old bytes; ok (some blocks)

abbrev pub at_least : ℕ → Option ℕ → Option ℕ
at_least n none = none
at_least n (some m) = some (max m n)

abbrev pub size_or : Option ℕ → ℕ → ℕ
size_or none available = available
size_or (some n) available = n

-- The start of a partition, and its size if one is wanted.
unfoldable pub place : Option Partition → PartitionType → ℕ → Option ℕ → Checked (ℕ × Option ℕ)
place (some old) ty next_start size = do
  guard (type_eq old.ty ty) partition_types
  ok (old.start, at_least old.size size)
place none ty next_start size = do start ← ceil_align_to next_start 2048; ok (start, size)

unfoldable pub up_to : ℕ → ℕ → Checked ℕ
up_to last start = do blocks ← minus last start; plus blocks 1

unfoldable pub between : Bool → ℕ → Option Partition → ℕ → Checked ℕ
between in_extended start (some old_next) last = do
  blocks ← minus old_next.start start
  (if in_extended then (do rest ← minus blocks 63; floor_align_to rest 2048) else ok blocks)
between in_extended start none last = do guard (ltb start last) insufficient_space; up_to last start

unfoldable pub available_blocks : PartitionType → Bool → ℕ → Option Partition → ℕ → Checked ℕ
available_blocks ty in_extended start old_next last =
    if is_extended ty then up_to last start else between in_extended start old_next last

-- The variables of the loop of `repart`.
pub record Walk : Type 0 where
  pub parts : List Partition
  pub next_start : ℕ
  pub last : ℕ
  pub in_extended : Bool
  pub has_changed : Bool

-- The partition with the index `idx` grows, or a partition is added behind the last.
unfoldable pub put : Option Partition → ℕ → ℕ → ℕ → PartitionType → List Partition → List Partition
put (some new) idx start size ty parts = set parts idx (record new { size = max size new.size })
put none idx start size ty parts =
    parts
    ++ (record {
      number = (idx + 1) % 2 ^ 8;
      start = start;
      size = size;
      ty = ty;
      name = none;
      guid = none;
    }
        ∷ [])

abbrev pub size_at : Option Partition → ℕ → ℕ
size_at (some new) size = max size new.size
size_at none size = size

abbrev pub changes : Option Partition → ℕ → Bool
changes (some new) size = not (new.size == max size new.size)
changes none size = true

-- The end of a round, where `end` is the sum of the start and the new size.
unfoldable pub advance : PartitionType → ℕ → ℕ → List Partition → Bool → Walk → Checked Walk
advance ty start size parts changed w = do
  end ← plus start size
  (if is_extended ty
      then (do
        last ← minus end 1
        ok (record {
          parts = parts;
          next_start = start;
          last = last;
          in_extended = true;
          has_changed = changed;
        }))
      else ok (record w { parts = parts; next_start = end; has_changed = changed }))

unfoldable pub repart_round :
    PartitionTable → PartitionTableType → ℕ → SchemaPartition → Walk → Checked Walk
repart_round old kind idx partition w = do
  next_start ← (if w.in_extended then plus w.next_start 63 else ok w.next_start)
  size ← wanted old partition.size
  let ty = type_or partition.ty (linux kind)
  placed ← place (get_elem? old.partitions idx) ty next_start size
  available ← available_blocks ty w.in_extended placed.0 (get_elem? old.partitions (idx + 1)) w.last
  let granted = min (size_or placed.1 available) available
  sum ← plus placed.0 granted
  end ← minus sum 1
  let new = get_elem? w.parts idx
  advance ty placed.0 (size_at new granted) (put new idx placed.0 granted ty w.parts)
      (w.has_changed || changes new granted) w

unfoldable pub repart_loop :
    PartitionTable → PartitionTableType → ℕ → List SchemaPartition → Walk → Checked Walk
repart_loop old kind idx [] w = ok w
repart_loop old kind idx (partition ∷ schema) w =
    repart_round old kind idx partition w >>= λ w'. repart_loop old kind (idx + 1) schema w'

unfoldable pub check_partitions : List Partition → List Partition → Checked (Unit {0})
check_partitions [] news = ok tt
check_partitions (old ∷ olds) [] = ok tt
check_partitions (old ∷ olds) (new ∷ news) = do
  guard (type_eq old.ty new.ty) changed_type
  guard (old.start == new.start) changed_start
  guard (leb old.size new.size) smaller_partition
  guard (guid_eq old.guid new.guid) changed_guid
  check_partitions olds news

unfoldable pub check_new_table : PartitionTable → PartitionTable → Checked (Unit {0})
check_new_table old new = do
  validate new
  guard (disk_id_eq old.disk_id new.disk_id) changed_id
  guard (table_type_eq (table_type old.disk_id) (table_type new.disk_id)) changed_table_type
  guard (leb (length old.partitions) (length new.partitions)) deleted_partition
  check_partitions old.partitions new.partitions

-- `None` if nothing changes.
unfoldable pub finish : PartitionTable → Walk → Checked (Option PartitionTable)
finish old w =
    if w.has_changed
    then (do
      check_new_table old (record old { partitions = w.parts })
      ok (some (record old { partitions = w.parts })))
    else ok none

unfoldable pub repart : PartitionTable → PartitionSchema → Checked (Option PartitionTable)
repart old schema = do
  guard (table_type_eq (table_type old.disk_id) schema.ty) table_types
  start ← ceil_align_to first_usable_block 2048
  last ← last_usable_block old
  w ← repart_loop old schema.ty 0 schema.partitions (record {
    parts = old.partitions;
    next_start = start;
    last = last;
    in_extended = false;
    has_changed = false;
  })
  finish old w
