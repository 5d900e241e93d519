-- ===== src/BootFlow/Storage.antt =====
-- What the boot flows of crates/apps/rugix-ctrl/src/system/boot_flows/mod.rs write to the config
-- partition: files that are replaced, and operations on them. An operation is on the disk before
-- the next one starts.
pub mod Interrupts
use rugix.Common.{◌≡◌, Bool, true, false, Option, none, some, List, [], ◌∷◌, ◌++◌, if◌then◌else◌}
use rugix.Common.Text.{Text, text_eq}

abbrev pub Files : Type 0
Files = Text → Option Text

abbrev pub set_file : Text → Text → Files → Files
set_file path contents files p = if text_eq p path then some contents else files p

abbrev pub move_found : Option Text → Text → Text → Files → Files
move_found none from to files p = files p
move_found (some contents) from to files p =
    if text_eq p to then some contents else (if text_eq p from then none else files p)

-- `rename`, of a file that is there.
abbrev pub move : Text → Text → Files → Files
move from to files = move_found (files from) from to files

-- A write that is synchronized is on the disk before the next operation starts.
pub data FileOp : Type 0 where
  write : Text → Text → FileOp
  write_synced : Text → Text → FileOp
  rename : Text → Text → FileOp

abbrev pub apply : FileOp → Files → Files
apply (write path contents) files = set_file path contents files
apply (write_synced path contents) files = set_file path contents files
apply (rename from to) files = move from to files

unfoldable pub run : List FileOp → Files → Files
run [] files = files
run (op ∷ ops) files = run ops (apply op files)

-- What is on the disk when the operations stop at any point, where each one is there before the
-- next: between two of them, or within a write, of which any part is done.
pub data InOrder : List FileOp → Files → Files → Type 0 where
  stopped : (ops : List FileOp) (files : Files) → InOrder ops files files
  torn :
      (path done rest : Text) (ops : List FileOp) (files : Files)
      → InOrder (write path (done ++ rest) ∷ ops) files (set_file path done files)
  torn_synced :
      (path done rest : Text) (ops : List FileOp) (files : Files)
      → InOrder (write_synced path (done ++ rest) ∷ ops) files (set_file path done files)
  behind :
      (op : FileOp) (ops : List FileOp) (files left : Files)
      → InOrder ops (apply op files) left
      → InOrder (op ∷ ops) files left

abbrev pub is_synced : FileOp → Bool
is_synced (write path contents) = false
is_synced (write_synced path contents) = true
is_synced (rename from to) = false

-- What is on the disk when the operations stop by an error or a loss of power, at any point. An
-- operation that is not synchronized may be missing, or a write done in part, although later ones
-- are on the disk.
pub data Interrupted : List FileOp → Files → Files → Type 0 where
  ended : (ops : List FileOp) (files : Files) → Interrupted ops files files
  cut :
      (path done rest : Text) (ops : List FileOp) (files : Files)
      → Interrupted (write_synced path (done ++ rest) ∷ ops) files (set_file path done files)
  past :
      (op : FileOp) (ops : List FileOp) (files left : Files)
      → Interrupted ops (apply op files) left
      → Interrupted (op ∷ ops) files left
  partly :
      (path done rest : Text) (ops : List FileOp) (files left : Files)
      → Interrupted ops (set_file path done files) left
      → Interrupted (write path (done ++ rest) ∷ ops) files left
  missing :
      (op : FileOp) (ops : List FileOp) (files left : Files)
      → is_synced op ≡ false
      → Interrupted ops files left
      → Interrupted (op ∷ ops) files left

-- What happens in order may happen.
pub InOrder-Interrupted :
    (ops : List FileOp) (files left : Files) → InOrder ops files left → Interrupted ops files left
InOrder-Interrupted _ _ _ (stopped ops files) = ended ops files
InOrder-Interrupted _ _ _ (torn path done rest ops files) =
    partly path done rest ops files _ (ended ops (set_file path done files))
InOrder-Interrupted _ _ _ (torn_synced path done rest ops files) = cut path done rest ops files
InOrder-Interrupted _ _ _ (behind op ops files left i) =
    past op ops files left (InOrder-Interrupted ops (apply op files) left i)

pub run-Interrupted : (ops : List FileOp) (files : Files) → Interrupted ops files (run ops files)
unfolding run
run-Interrupted [] files = ended [] files
run-Interrupted (op ∷ ops) files = past op ops files _ (run-Interrupted ops (apply op files))
