-- ===== src/Apps/Collection.antt =====
-- What generations are created and removed.
use rugix.Common.{
  ℕ, zero, suc, ◌+◌, ◌-◌, ◌^◌, ◌<◌, ◌≤◌, ltb, Bool-cases, ◌≡◌, ◌≢◌, inl, inr, refl, ◌∙◌, Bool, true,
  false, Option, some, List, [], ◌∷◌, All, length, take, map, if◌then◌else◌, arith,
}
use rugix.Apps.{
  io_failure, Generation, World, M, pure, attempt, ◌>>=◌, ◌>>◌, ensure, perform, find_generation,
  update_generation,
}
use rugix.Apps.Manager.{exists, is_complete, generation_dir}
use rugix.Apps.Steps.{active_file}
use rugix.Apps.Triples.{Keeps, >>=-Keeps, attempt-Keeps, perform-Keeps}
use rugix.Apps.Generations.{
  max_number, next_generation_number, ResolvedGeneration, resolved, sort_by_number,
  list_generations, is_some, remove_directory, remove_generation, note, remove_each, filter,
  never_activated, activated_before, surplus, sort_numbers, gc,
}
use rugix.Apps.Rollback.{sort-All, resolved-All, current_is}

max_number_bounds :
    (gens : List Generation) (m : ℕ) → max_number gens ≤ m → All (λ g. g.number < m + 1) gens
unfolding max_number
max_number_bounds [] m h = tt
max_number_bounds (g ∷ gens) m h = (omega arith, max_number_bounds gens m (omega arith))

-- The number of a new generation is greater than that of every directory there is.
pub next_generation_number_fresh :
    (gens : List Generation) (n : ℕ)
    → next_generation_number gens ≡ some n
    → All (λ g. g.number < n) gens
unfolding next_generation_number
next_generation_number_fresh gens n h = elim (Bool-cases (ltb (max_number gens + 1) (2 ^ 64))) [
  | inl y ↦
      let e : n ≡ max_number gens + 1 = ground arith in
      rw e (max_number_bounds gens (max_number gens) (omega arith))
  | inr no_room ↦ ground arith
]

-- Removals of other generations keep a directory.
remove_directory-other :
    (n c : ℕ) (gens : List Generation)
    → n ≢ c
    → find_generation c (remove_directory n gens) ≡ find_generation c gens
unfolding find_generation remove_directory
remove_directory-other n c [] h = refl
remove_directory-other n c (g ∷ gens) h = let ih = remove_directory-other n c gens h in ground arith

update_generation-other :
    (change : Generation → Generation) (n c : ℕ) (gens : List Generation)
    → ((g : Generation) → (change g).number ≡ g.number)
    → n ≢ c
    → find_generation c (update_generation change n gens) ≡ find_generation c gens
unfolding find_generation update_generation
update_generation-other change n c [] same h = refl
update_generation-other change n c (g ∷ gens) same h =
    let ih = update_generation-other change n c gens same h in let e = same g in ground arith

module _ (c : ℕ) (kept : Option Generation) where
  abbrev Kept : World → Type 0
  Kept w = find_generation c w.generations ≡ kept

  remove_generation-Kept : (n : ℕ) → n ≢ c → Keeps Kept (remove_generation n)
  unfolding remove_generation generation_dir
  remove_generation-Kept n other w h = by_dir (find_generation n w.generations)
    where
      unmark : Bool → M (Unit {0})
      unmark b =
          if b
          then perform (λ v. record v {
            generations = update_generation (λ g. record g { complete = false }) n v.generations;
          })
          else pure tt

      unmark-Kept : (b : Bool) → Keeps Kept (unmark b)
      unmark-Kept true v k =
          perform-Keeps Kept
            (λ v. record v {
              generations = update_generation (λ g. record g { complete = false }) n v.generations;
            })
            (λ v k.
              update_generation-other (λ g. record g { complete = false }) n c v.generations
                (λ g. refl) other
              ∙ k)
            (λ v turns k. k) v k
      unmark-Kept false v k = k

      delete : M (Unit {0})
      delete = perform (λ v. record v { generations = remove_directory n v.generations })

      delete-Kept : Keeps Kept delete
      delete-Kept =
          perform-Keeps Kept (λ v. record v { generations = remove_directory n v.generations })
            (λ v k. remove_directory-other n c v.generations other ∙ k) (λ v turns k. k)

      ensure-Kept : (b : Bool) → Keeps Kept (ensure b io_failure)
      ensure-Kept b v k = k

      by_dir :
          (dir : Option Generation)
          → Kept ((unmark (is_complete dir) >> (ensure (exists dir) io_failure >> delete)) w).1
      by_dir dir =
          >>=-Keeps Kept (unmark (is_complete dir)) (λ a. ensure (exists dir) io_failure >> delete)
            (unmark-Kept (is_complete dir))
            (λ a.
              >>=-Keeps Kept (ensure (exists dir) io_failure) (λ b. delete)
                (ensure-Kept (exists dir)) (λ b. delete-Kept))
            w h

  remove_each-Kept :
      (gens : List ResolvedGeneration) (removed : List ℕ)
      → All (λ g. g.meta.number ≢ c) gens
      → Keeps Kept (remove_each gens removed)
  unfolding remove_each
  remove_each-Kept [] removed a w h = h
  remove_each-Kept (g ∷ gens) removed (p, a) w h =
      >>=-Keeps Kept (attempt (remove_generation g.meta.number))
        (λ failure. remove_each gens (note failure g.meta.number removed))
        (attempt-Keeps Kept (remove_generation g.meta.number)
          (remove_generation-Kept g.meta.number p))
        (λ failure. remove_each-Kept gens (note failure g.meta.number removed) a) w h

-- Those that the loops do not skip are others than the active one.
never-other :
    (c : ℕ) (gens : List ResolvedGeneration)
    → All (λ g. g.meta.number ≡ c → is_some g.meta.last_activated ≡ true) gens
    → All (λ g. g.meta.number ≢ c) (filter never_activated gens)
unfolding filter
never-other c [] a = tt
never-other c (g ∷ gens) (p, a) = elim (Bool-cases (is_some g.meta.last_activated)) [
  | inl y ↦ rw y (never-other c gens a)
  | inr n ↦ rw n ((λ e. let z = p e in absurd (cc)), never-other c gens a)
]

before-other :
    (c : ℕ) (gens : List ResolvedGeneration)
    → All (λ g. g.meta.number ≢ c) (filter (activated_before (some c)) gens)
unfolding filter
before-other c [] = tt
before-other c (g ∷ gens) = elim (Bool-cases (activated_before (some c) g)) [
  | inl y ↦ rw y ((λ e. ground arith), before-other c gens)
  | inr n ↦ rw n (before-other c gens)
]

take-All :
    (P : ResolvedGeneration → Type 0) (n : ℕ) (gens : List ResolvedGeneration)
    → All P gens
    → All P (take n gens)
take-All P zero gens h = tt
take-All P (suc n) [] h = tt
take-All P (suc n) (g ∷ gens) (p, h) = (p, take-All P n gens h)

surplus-All :
    (P : ResolvedGeneration → Type 0) (keep : ℕ) (gens : List ResolvedGeneration)
    → All P gens
    → All P (surplus keep gens)
unfolding surplus
surplus-All P keep gens h = elim (Bool-cases (ltb keep (length gens))) [
  | inl y ↦ rw y (take-All P (length gens - keep) gens h)
  | inr n ↦ rw n tt
]

-- `gc` keeps the directory of the active generation, whatever fails and wherever it is interrupted,
-- where each directory whose metadata bear the number of the active generation was activated before.
pub gc-keeps :
    (keep c : ℕ) (w : World)
    → active_file w.state ≡ some c
    → All
        (λ g. (resolved g).meta.number ≡ c → is_some (resolved g).meta.last_activated ≡ true)
        w.generations
    → find_generation c (gc keep w).1.generations ≡ find_generation c w.generations
unfolding gc list_generations
gc-keeps keep c w h a =
    let kept = find_generation c w.generations in
    let gens = sort_by_number (sort_by_number (map resolved w.generations)) in
    let P : ResolvedGeneration → Type 0 =
      λ g. g.meta.number ≡ c → is_some g.meta.last_activated ≡ true in
    let all : All P gens =
      sort-All P (sort_by_number (map resolved w.generations))
        (sort-All P (map resolved w.generations) (resolved-All P w.generations a)) in
    let rest : List ℕ → M (List ℕ) = λ removed.
      remove_each (surplus keep (filter (activated_before (some c)) gens)) removed >>= λ removed'.
      pure (sort_numbers removed') in
    rw (current_is c w h) (
      >>=-Keeps (Kept c kept) (remove_each (filter never_activated gens) []) rest
        (remove_each-Kept c kept (filter never_activated gens) [] (never-other c gens all))
        (λ removed.
          >>=-Keeps (Kept c kept)
            (remove_each (surplus keep (filter (activated_before (some c)) gens)) removed)
            (λ removed'. pure (sort_numbers removed'))
            (remove_each-Kept c kept (surplus keep (filter (activated_before (some c)) gens))
              removed
              (surplus-All (λ g. g.meta.number ≢ c) keep (filter (activated_before (some c)) gens)
                (before-other c gens)))
            (λ removed' v k. k))
        w refl)
