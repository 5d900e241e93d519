-- ===== src/BootFlow/Storage/Interrupts.antt =====
-- What interrupted operations leave of a file.
use rugix.Common.{
  ◌≡◌, refl, ◌∙◌, ◌⊎◌, inl, inr, Bool, true, not, ◌&&◌, Option, none, some, List, [], ◌∷◌, ◌++◌,
  All, arith,
}
use rugix.Common.Text.{Text, text_eq}
use rugix.BootFlow.Storage.{
  Files, set_file, move_found, FileOp, write, write_synced, rename, apply, run, InOrder, stopped,
  torn, torn_synced, behind, Interrupted, ended, cut, past, partly, missing,
}

-- The operation is on other files than `path`.
abbrev pub spares : Text → FileOp → Bool
spares path (write to contents) = not (text_eq path to)
spares path (write_synced to contents) = not (text_eq path to)
spares path (rename from to) = not (text_eq path from) && not (text_eq path to)

abbrev pub Spared : Text → List FileOp → Type 0
Spared path ops = All (λ op. spares path op ≡ true) ops

set_file-spares :
    (path to contents : Text) (files : Files)
    → not (text_eq path to) ≡ true
    → set_file to contents files path ≡ files path
set_file-spares path to contents files h = ground arith

move_found-spares :
    (found : Option Text) (path from to : Text) (files : Files)
    → (not (text_eq path from) && not (text_eq path to)) ≡ true
    → move_found found from to files path ≡ files path
move_found-spares none path from to files h = refl
move_found-spares (some contents) path from to files h = ground arith

apply-spares :
    (op : FileOp) (path : Text) (files : Files)
    → spares path op ≡ true
    → apply op files path ≡ files path
apply-spares (write to contents) path files h = set_file-spares path to contents files h
apply-spares (write_synced to contents) path files h = set_file-spares path to contents files h
apply-spares (rename from to) path files h = move_found-spares (files from) path from to files h

pub run-Spared :
    (ops : List FileOp) (path : Text) (files : Files)
    → Spared path ops
    → run ops files path ≡ files path
unfolding run
run-Spared [] path files h = refl
run-Spared (op ∷ ops) path files (h, hs) =
    run-Spared ops path (apply op files) hs ∙ apply-spares op path files h

nothing_more :
    {files left : Files} (path : Text) → Interrupted [] files left → left path ≡ files path
nothing_more path (ended _ _) = refl

from_there :
    (path : Text) (more : List FileOp) (files there left : Files)
    → there path ≡ files path
    → (left path ≡ there path) ⊎ (mid : Files) × (mid path ≡ there path) × Interrupted more mid left
    → (left path ≡ files path) ⊎ (mid : Files) × (mid path ≡ files path) × Interrupted more mid left
from_there path more files there left same (inl h) = inl (h ∙ same)
from_there path more files there left same (inr (mid, h, i)) = inr (mid, h ∙ same, i)

or_old :
    (path contents : Text) (files there left : Files)
    → there path ≡ files path
    → (left path ≡ there path) ⊎ (left path ≡ some contents)
    → (left path ≡ files path) ⊎ (left path ≡ some contents)
or_old path contents files there left same (inl h) = inl (h ∙ same)
or_old path contents files there left same (inr h) = inr h

pub InOrder-Spared :
    {ops : List FileOp} {files left : Files} (path : Text)
    → InOrder ops files left
    → Spared path ops
    → left path ≡ files path
InOrder-Spared path (stopped _ _) h = refl
InOrder-Spared path (torn to done rest _ files) (h, hs) = set_file-spares path to done files h
InOrder-Spared path (torn_synced to done rest _ files) (h, hs) =
    set_file-spares path to done files h
InOrder-Spared path (behind op _ files _ later) (h, hs) =
    InOrder-Spared path later hs ∙ apply-spares op path files h

-- Operations that stop in the first part, or behind it.
pub InOrder-append :
    (ops more : List FileOp) {files left : Files}
    → InOrder (ops ++ more) files left
    → InOrder ops files left ⊎ InOrder more (run ops files) left
unfolding run
InOrder-append [] more i = inr i
InOrder-append (op ∷ ops) more (stopped _ files) = inl (stopped (op ∷ ops) files)
InOrder-append (op ∷ ops) more (torn to done rest _ files) = inl (torn to done rest ops files)
InOrder-append (op ∷ ops) more (torn_synced to done rest _ files) =
    inl (torn_synced to done rest ops files)
InOrder-append (op ∷ ops) more (behind _ _ files left later) =
    elim (InOrder-append ops more later) [
      | inl i ↦ inl (behind op ops files left i)
      | inr i ↦ inr i
    ]

pub run-append :
    (ops more : List FileOp) (files : Files) → run (ops ++ more) files ≡ run more (run ops files)
unfolding run
run-append [] more files = refl
run-append (op ∷ ops) more files = run-append ops more (apply op files)

-- Of a file that the first operations spare, what is left is the old one, or what the others leave.
pub Interrupted-append :
    (path : Text) (ops more : List FileOp) (files left : Files)
    → Spared path ops
    → Interrupted (ops ++ more) files left
    → (left path ≡ files path) ⊎ (mid : Files) × (mid path ≡ files path) × Interrupted more mid left
Interrupted-append path [] more files left h i = inr (files, refl, i)
Interrupted-append path (op ∷ ops) more _ _ h (ended _ files) = inl refl
Interrupted-append path (op ∷ ops) more _ _ (h, hs) (cut to done rest _ files) =
    inl (set_file-spares path to done files h)
Interrupted-append path (op ∷ ops) more _ _ (h, hs) (past _ _ files left i) =
    from_there path more files (apply op files) left (apply-spares op path files h)
      (Interrupted-append path ops more (apply op files) left hs i)
Interrupted-append path (op ∷ ops) more _ _ (h, hs) (partly to done rest _ files left i) =
    from_there path more files (set_file to done files) left (set_file-spares path to done files h)
      (Interrupted-append path ops more (set_file to done files) left hs i)
Interrupted-append path (op ∷ ops) more _ _ (h, hs) (missing _ _ files left p i) =
    Interrupted-append path ops more files left hs i

-- Where `from` has the new contents already.
replaced :
    (ops : List FileOp) (from to contents : Text) (files left : Files)
    → Spared to ops
    → Spared from ops
    → files from ≡ some contents
    → text_eq to to ≡ true
    → Interrupted (ops ++ rename from to ∷ []) files left
    → (left to ≡ files to) ⊎ (left to ≡ some contents)
replaced [] from to contents _ _ h k written same (ended _ files) = inl refl
replaced [] from to contents _ _ h k written same (past _ _ files left i) =
    inr (nothing_more to i ∙ rw written (rw same refl))
replaced [] from to contents _ _ h k written same (missing _ _ files left p i) =
    inl (nothing_more to i)
replaced (op ∷ ops) from to contents _ _ h k written same (ended _ files) = inl refl
replaced (op ∷ ops) from to contents _ _ (h, hs) k written same (cut path done rest _ files) =
    inl (set_file-spares to path done files h)
replaced (op ∷ ops) from to contents _ _ (h, hs) (k, ks) written same (past _ _ files left i) =
    or_old to contents files (apply op files) left (apply-spares op to files h) (
      replaced ops from to contents (apply op files) left hs ks
        (apply-spares op from files k ∙ written) same i)
replaced (op ∷ ops) from to contents _ _ (h, hs) (k, ks) written same
      (partly path done rest _ files left i) =
    or_old to contents files (set_file path done files) left (set_file-spares to path done files h)
      (replaced ops from to contents (set_file path done files) left hs ks
        (set_file-spares from path done files k ∙ written) same i)
replaced (op ∷ ops) from to contents _ _ (h, hs) (k, ks) written same (missing _ _ files left p i) =
    replaced ops from to contents files left hs ks written same i

-- A file that is replaced by a rename, behind a synchronized write of the new contents, is the old
-- one or the new one, whatever becomes of other files.
pub Interrupted-replace :
    (ops : List FileOp) (from to contents : Text) (files left : Files)
    → not (text_eq to from) ≡ true
    → Spared to ops
    → Spared from ops
    → text_eq from from ≡ true
    → text_eq to to ≡ true
    → Interrupted (write_synced from contents ∷ ops ++ rename from to ∷ []) files left
    → (left to ≡ files to) ⊎ (left to ≡ some contents)
Interrupted-replace ops from to contents _ _ p h k same_from same (ended _ files) = inl refl
Interrupted-replace ops from to contents _ _ p h k same_from same (cut _ done rest _ files) =
    inl (set_file-spares to from done files p)
Interrupted-replace ops from to contents _ _ p h k same_from same (past _ _ files left i) =
    or_old to contents files (set_file from contents files) left
      (set_file-spares to from contents files p)
      (replaced ops from to contents (set_file from contents files) left h k (rw same_from refl)
        same i)
Interrupted-replace ops from to contents _ _ p h k same_from same (missing _ _ files left q i) =
    absurd (cc)
