-- ===== src/Apps/Rollback.antt =====
-- The order of the listed generations, and the one that a rollback activates.
use rugix.Common.{
  ℕ, ◌≤◌, ltb, leb, ◌&&◌, leb→le, Bool-cases, Option-cases, ◌≡◌, ◌⊎◌, inl, inr, refl, subst, true,
  false, Option, none, some, List, [], ◌∷◌, All, map, arith,
}
use rugix.Apps.{
  no_rollback_target, StateFile, absent, corrupt, holds, Generation, World, ok, err, pure,
  continue_with,
}
use rugix.Apps.Manager.{read_file, read_state, active_in, current_generation, activate_generation}
use rugix.Apps.Steps.{active_file}
use rugix.Apps.Generations.{
  ResolvedGeneration, resolved, insert_by_number, sort_by_number, list_generations, is_some,
  or_this, previous, rollback,
}

-- Sorting keeps what holds of all.
module _ (P : ResolvedGeneration → Type 0) where
  insert-All :
      (g : ResolvedGeneration) (gens : List ResolvedGeneration)
      → P g
      → All P gens
      → All P (insert_by_number g gens)
  unfolding insert_by_number
  insert-All g [] p h = (p, tt)
  insert-All g (x ∷ gens) p (q, h) = elim (Bool-cases (leb g.meta.number x.meta.number)) [
    | inl y ↦ rw y (p, (q, h))
    | inr n ↦ rw n (q, insert-All g gens p h)
  ]

  pub sort-All : (gens : List ResolvedGeneration) → All P gens → All P (sort_by_number gens)
  unfolding sort_by_number
  sort-All [] h = tt
  sort-All (g ∷ gens) (p, h) = insert-All g (sort_by_number gens) p (sort-All gens h)

  pub resolved-All :
      (gens : List Generation) → All (λ g. P (resolved g)) gens → All P (map resolved gens)
  resolved-All [] h = tt
  resolved-All (g ∷ gens) (p, h) = (p, resolved-All gens h)

-- The list of generations is in the order of the numbers.
abbrev Above : ℕ → List ResolvedGeneration → Type 0
Above n = All (λ g. n ≤ g.meta.number)

abbrev Sorted : List ResolvedGeneration → Type 0
Sorted [] = Unit {0}
Sorted (g ∷ gens) = Above g.meta.number gens × Sorted gens

Above-le : (m n : ℕ) (gens : List ResolvedGeneration) → m ≤ n → Above n gens → Above m gens
Above-le m n [] h a = tt
Above-le m n (g ∷ gens) h (p, a) = (omega arith, Above-le m n gens h a)

insert-Sorted :
    (g : ResolvedGeneration) (gens : List ResolvedGeneration)
    → Sorted gens
    → Sorted (insert_by_number g gens)
unfolding insert_by_number
insert-Sorted g [] h = (tt, tt)
insert-Sorted g (x ∷ gens) (a, h) = elim (Bool-cases (leb g.meta.number x.meta.number)) [
  | inl y ↦
      let le = leb→le g.meta.number x.meta.number y in
      rw y ((le, Above-le g.meta.number x.meta.number gens le a), (a, h))
  | inr n ↦ rw n (
    insert-All (λ u. x.meta.number ≤ u.meta.number) g gens (ground arith) a,
    insert-Sorted g gens h,
  )
]

sort-Sorted : (gens : List ResolvedGeneration) → Sorted (sort_by_number gens)
unfolding sort_by_number
sort-Sorted [] = tt
sort-Sorted (g ∷ gens) = insert-Sorted g (sort_by_number gens) (sort-Sorted gens)

-- A generation to go back to.
abbrev pub Candidate : ℕ → ResolvedGeneration → Type 0
Candidate current g = (ltb g.meta.number current && is_some g.meta.last_activated) ≡ true

no_previous :
    (c : ℕ) (gens : List ResolvedGeneration)
    → previous c gens ≡ none
    → All (λ g. (ltb g.meta.number c && is_some g.meta.last_activated) ≡ false) gens
unfolding previous
no_previous c [] h = tt
no_previous c (g ∷ gens) h = by_rest (previous c gens) refl (no_previous c gens) h
  where
    by_rest :
        (o : Option ResolvedGeneration)
        → previous c gens ≡ o
        → (previous c gens ≡ none
            → All (λ x. (ltb x.meta.number c && is_some x.meta.last_activated) ≡ false) gens)
        → or_this o (ltb g.meta.number c && is_some g.meta.last_activated) g ≡ none
        → ((ltb g.meta.number c && is_some g.meta.last_activated) ≡ false)
          × All (λ g. (ltb g.meta.number c && is_some g.meta.last_activated) ≡ false) gens
    by_rest (some x) e ih k = cc
    by_rest none e ih k = (ground arith, ih e)

previous_in :
    (P : ResolvedGeneration → Type 0) (c : ℕ) (gens : List ResolvedGeneration)
    (g : ResolvedGeneration)
    → All P gens
    → previous c gens ≡ some g
    → P g
unfolding previous
previous_in P c [] g h e = cc
previous_in P c (x ∷ gens) g (p, h) e =
    by_rest (previous c gens) refl (λ y. previous_in P c gens y h) e
  where
    by_rest :
        (o : Option ResolvedGeneration)
        → previous c gens ≡ o
        → ((y : ResolvedGeneration) → previous c gens ≡ some y → P y)
        → or_this o (ltb x.meta.number c && is_some x.meta.last_activated) x ≡ some g
        → P g
    by_rest (some y) e' ih k = let same : y ≡ g = cc in subst P same (ih y e')
    by_rest none e' ih k =
        elim (Bool-cases (ltb x.meta.number c && is_some x.meta.last_activated)) [
          | inl yes_x ↦ let same : x ≡ g = cc in subst P same p
          | inr no_x ↦ cc
        ]

-- It may be gone back to, and no other that may is greater.
abbrev pub Best : ℕ → ResolvedGeneration → List ResolvedGeneration → Type 0
Best c g gens = Candidate c g × All (λ h. Candidate c h → h.meta.number ≤ g.meta.number) gens

none-Best :
    (c n : ℕ) (gens : List ResolvedGeneration)
    → All (λ g. (ltb g.meta.number c && is_some g.meta.last_activated) ≡ false) gens
    → All (λ h. Candidate c h → h.meta.number ≤ n) gens
none-Best c n [] h = tt
none-Best c n (g ∷ gens) (p, h) = ((λ k. cc), none-Best c n gens h)

previous-Best :
    (c : ℕ) (gens : List ResolvedGeneration) (g : ResolvedGeneration)
    → Sorted gens
    → previous c gens ≡ some g
    → Best c g gens
unfolding previous
previous-Best c [] g s e = cc
previous-Best c (x ∷ gens) g (a, s) e =
    by_rest (previous c gens) refl (λ y. previous-Best c gens y s) e
  where
    by_rest :
        (o : Option ResolvedGeneration)
        → previous c gens ≡ o
        → ((y : ResolvedGeneration) → previous c gens ≡ some y → Best c y gens)
        → or_this o (ltb x.meta.number c && is_some x.meta.last_activated) x ≡ some g
        → Best c g (x ∷ gens)
    by_rest (some y) e' ih k =
        let same : y ≡ g = cc in
        subst (λ z. Best c z (x ∷ gens)) same
          (
            (ih y e').0,
            ((λ h. previous_in (λ u. x.meta.number ≤ u.meta.number) c gens y a e'), (ih y e').1),
          )
    by_rest none e' ih k =
        elim (Bool-cases (ltb x.meta.number c && is_some x.meta.last_activated)) [
          | inl yes_x ↦
              let same : x ≡ g = cc in
              subst (λ z. Best c z (x ∷ gens)) same
                (
                  yes_x,
                  ((λ h. omega arith), none-Best c x.meta.number gens (no_previous c gens e')),
                )
          | inr no_x ↦ cc
        ]

pub current_is :
    (c : ℕ) (w : World) → active_file w.state ≡ some c → current_generation w ≡ (ok (some c), w)
unfolding current_generation read_state
current_is c w h = by_file w.state h
  where
    by_file :
        (u : StateFile)
        → active_file u ≡ some c
        → continue_with (λ s. pure (active_in s)) (read_file u w) ≡ (ok (some c), w)
    by_file absent e = cc
    by_file corrupt e = cc
    by_file (holds s) e = rw e refl

list_generations-Sorted : (gens : List Generation) → Sorted (list_generations gens)
unfolding list_generations
list_generations-Sorted gens = sort-Sorted (map resolved gens)

-- `rollback` activates the greatest generation below the active one that was activated before, as the
-- metadata say, however the directories are ordered; where there is none it fails and does nothing.
pub rollback-Best :
    (c : ℕ) (w : World)
    → active_file w.state ≡ some c
    → ((g : ResolvedGeneration) × (rollback w ≡ activate_generation g.meta.number w)
        × Best c g (list_generations w.generations))
      ⊎ ((rollback w ≡ (err no_rollback_target, w))
          × All
              (λ g. (ltb g.meta.number c && is_some g.meta.last_activated) ≡ false)
              (list_generations w.generations))
unfolding rollback
rollback-Best c w h =
    let gens = list_generations w.generations in
    elim (Option-cases (previous c gens)) [
      | inl e ↦ inr (rw (current_is c w h) (rw e refl), no_previous c gens e)
      | inr found ↦
          let (g, e) = found in
          inl (
            g,
            rw (current_is c w h) (rw e refl),
            previous-Best c gens g (list_generations-Sorted w.generations) e,
          )
    ]
