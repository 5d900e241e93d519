-- ===== src/Apps/Generations.antt =====
-- crates/apps/rugix-ctrl/src/apps/manager.rs: the directories of generations, rollback and garbage collection.
-- The directories are those whose names are numbers, in the order in which they are read; reading
-- the list of them does not fail.
use rugix.Common.{
  ℕ, ◌+◌, ◌-◌, ◌^◌, max, ltb, leb, ◌==◌, ◌||◌, ◌&&◌, not, Bool, true, false, Option, none, some,
  List, [], ◌∷◌, ◌++◌, length, take, map, if◌then◌else◌,
}
use rugix.Common.Text.{Text}
use rugix.Apps.{
  Error, io_failure, no_active_generation, no_rollback_target, absent, AppGeneration, Generation,
  World, M, ok, crashed, pure, gets, or_raise, attempt, ◌>>=◌, ◌>>◌, ensure, perform,
  find_generation, update_generation,
}
use rugix.Apps.Manager.{
  current_generation, exists, is_complete, generation_dir, activate_generation, deactivate_app,
}

unfoldable pub max_number : List Generation → ℕ
max_number [] = 0
max_number (g ∷ gens) = max g.number (max_number gens)

-- A sum beyond 64 bits is a panic, which aborts the program.
unfoldable pub next_generation_number : List Generation → Option ℕ
next_generation_number gens =
    let next = max_number gens + 1 in if ltb next (2 ^ 64) then some next else none

abbrev pub or_abort : Option ℕ → M ℕ
or_abort none w = (crashed, w)
or_abort (some n) w = (ok n, w)

abbrev pub new_directory : ℕ → Generation
new_directory n = record { number = n; complete = false; meta = none; manifest = none }

-- `create_dir_all` leaves a directory that is there.
unfoldable pub add_directory : ℕ → List Generation → List Generation
add_directory n gens =
    if exists (find_generation n gens) then gens else gens ++ (new_directory n ∷ [])

-- `create_generation`, behind the ensure of the name: `generations` and the data directory are made first.
unfoldable pub create_generation : M ℕ
create_generation = do
  perform (λ w. w)
  perform (λ w. w)
  number ← gets (λ w. next_generation_number w.generations)
  next ← or_abort number
  perform (λ w. record w { generations = add_directory next w.generations })
  pure next

unfoldable pub write_generation_metadata : ℕ → AppGeneration → M (Unit {0})
write_generation_metadata n meta = perform (λ w. record w {
  generations = update_generation (λ g. record g { meta = some meta }) n w.generations;
})

-- The directory `.rugix`, the marker, and its way to the disk.
unfoldable pub mark_complete : ℕ → M (Unit {0})
mark_complete n = do
  perform (λ w. w)
  perform (λ w. record w {
    generations = update_generation (λ g. record g { complete = true }) n w.generations;
  })
  perform (λ w. w)

pub record ResolvedGeneration : Type 0 where
  pub meta : AppGeneration
  pub complete : Bool

abbrev pub meta_or_new : ℕ → Option AppGeneration → AppGeneration
meta_or_new n none = record { number = n; created_at = []; last_activated = none }
meta_or_new n (some meta) = meta

abbrev pub resolved : Generation → ResolvedGeneration
resolved g = record { meta = meta_or_new g.number g.meta; complete = g.complete }

-- `sort_by_key`, which is stable.
unfoldable pub insert_by_number :
    ResolvedGeneration → List ResolvedGeneration → List ResolvedGeneration
insert_by_number g [] = g ∷ []
insert_by_number g (h ∷ gens) =
    let rest = insert_by_number g gens in
    if leb g.meta.number h.meta.number then g ∷ h ∷ gens else h ∷ rest

unfoldable pub sort_by_number : List ResolvedGeneration → List ResolvedGeneration
sort_by_number [] = []
sort_by_number (g ∷ gens) = insert_by_number g (sort_by_number gens)

unfoldable pub list_generations : List Generation → List ResolvedGeneration
list_generations gens = sort_by_number (map resolved gens)

abbrev pub is_some : Option Text → Bool
is_some none = false
is_some (some t) = true

-- The order of strings.
unfoldable pub text_leb : Text → Text → Bool
text_leb [] t = true
text_leb (c ∷ s) [] = false
text_leb (c ∷ s) (d ∷ t) = ltb c d || c == d && text_leb s t

-- `max_by_key`: the last of the greatest.
abbrev pub later : Option (ℕ × Text) → ℕ × Text → ℕ × Text
later none p = p
later (some (m, s)) (n, t) = if text_leb s t then (n, t) else (m, s)

unfoldable pub latest : Option (ℕ × Text) → List ResolvedGeneration → Option (ℕ × Text)
latest best [] = best
latest best (g ∷ gens) = latest (considered g.meta.last_activated) gens
  where
    considered : Option Text → Option (ℕ × Text)
    considered none = best
    considered (some t) = some (later best (g.meta.number, t))

abbrev pub number_of : Option (ℕ × Text) → Option ℕ
number_of none = none
number_of (some (n, t)) = some n

unfoldable pub last_activated_generation : List Generation → Option ℕ
last_activated_generation gens = number_of (latest none (list_generations gens))

-- `iter().rev().find(..)`
abbrev pub or_this :
    Option ResolvedGeneration → Bool → ResolvedGeneration → Option ResolvedGeneration
or_this (some h) b g = some h
or_this none b g = if b then some g else none

unfoldable pub previous : ℕ → List ResolvedGeneration → Option ResolvedGeneration
previous current [] = none
previous current (g ∷ gens) =
    or_this (previous current gens) (ltb g.meta.number current && is_some g.meta.last_activated) g

unfoldable pub rollback : M (Unit {0})
rollback = do
  found ← current_generation
  current ← or_raise found no_active_generation
  gens ← gets (λ w. list_generations w.generations)
  target ← or_raise (previous current gens) no_rollback_target
  activate_generation target.meta.number

unfoldable pub remove_directory : ℕ → List Generation → List Generation
remove_directory n [] = []
remove_directory n (g ∷ gens) =
    let rest = remove_directory n gens in if g.number == n then rest else g ∷ rest

-- The marker goes first. A directory that is not there cannot be removed.
unfoldable pub remove_generation : ℕ → M (Unit {0})
remove_generation n = do
  dir ← generation_dir n
  (if is_complete dir
      then perform (λ w. record w {
        generations = update_generation (λ g. record g { complete = false }) n w.generations;
      })
      else pure tt)
  ensure (exists dir) io_failure
  perform (λ w. record w { generations = remove_directory n w.generations })

abbrev pub note : Option Error → ℕ → List ℕ → List ℕ
note none n removed = removed ++ (n ∷ [])
note (some e) n removed = removed

-- A loop of `gc`, over the generations that it does not skip.
unfoldable pub remove_each : List ResolvedGeneration → List ℕ → M (List ℕ)
remove_each [] removed = pure removed
remove_each (g ∷ gens) removed = attempt (remove_generation g.meta.number) >>= λ failure.
    remove_each gens (note failure g.meta.number removed)

unfoldable pub filter :
    (ResolvedGeneration → Bool) → List ResolvedGeneration → List ResolvedGeneration
filter p [] = []
filter p (g ∷ gens) = let rest = filter p gens in if p g then g ∷ rest else rest

abbrev pub never_activated : ResolvedGeneration → Bool
never_activated g = not (is_some g.meta.last_activated)

abbrev pub is_current : Option ℕ → ℕ → Bool
is_current none n = false
is_current (some c) n = n == c

abbrev pub activated_before : Option ℕ → ResolvedGeneration → Bool
activated_before current g = is_some g.meta.last_activated && not (is_current current g.meta.number)

-- The oldest, so that `keep` remain.
unfoldable pub surplus : ℕ → List ResolvedGeneration → List ResolvedGeneration
surplus keep activated =
    if ltb keep (length activated) then take (length activated - keep) activated else []

unfoldable pub insert_number : ℕ → List ℕ → List ℕ
insert_number n [] = n ∷ []
insert_number n (m ∷ ns) = let rest = insert_number n ns in if leb n m then n ∷ m ∷ ns else m ∷ rest

unfoldable pub sort_numbers : List ℕ → List ℕ
sort_numbers [] = []
sort_numbers (n ∷ ns) = insert_number n (sort_numbers ns)

unfoldable pub gc : ℕ → M (List ℕ)
gc keep = do
  current ← current_generation
  gens ← gets (λ w. sort_by_number (list_generations w.generations))
  removed ← remove_each (filter never_activated gens) []
  removed' ← remove_each (surplus keep (filter (activated_before current) gens)) removed
  pure (sort_numbers removed')

-- The directory of the app holds its state, its generations and its lock, so that it is there.
unfoldable pub remove_app : M (Unit {0})
remove_app = do
  current ← current_generation
  (deactivate_if current)
  perform (λ w. record w { state = absent; generations = [] })
  where
    deactivate_if : Option ℕ → M (Unit {0})
    deactivate_if none = pure tt
    deactivate_if (some n) = deactivate_app

unfoldable pub resolve_current : M (Option ℕ)
resolve_current = do current ← current_generation; w ← gets (λ w. w); pure (existing current w)
  where
    existing : Option ℕ → World → Option ℕ
    existing none w = none
    existing (some n) w = if exists (find_generation n w.generations) then some n else none
