-- ===== src/Chunker/Chunks.antt =====
-- The iterator `chunks`: it gives out the reference division of its input.
use rugix.Common.{
  ℕ, zero, suc, ◌≤◌, ◌≡◌, refl, sym, ◌∙◌, Option, none, some, List, [], ◌∷◌, ◌++◌, length,
  length-drop, take, drop, arith, append_assoc,
}
use rugix.Chunker.{Chunker, Cut, cut, scan_by, chunks}
use rugix.Chunker.Machine.{After, scan_by-cut, scan_by_bounds, scan_by-IsGood}

-- The bytes that are left make a last block, if there are any.
abbrev pub last_block : List ℕ → List (List ℕ)
last_block [] = []
last_block (b ∷ bs) = (b ∷ bs) ∷ []

abbrev pub all_blocks {ℓ} : {S : Type ℓ} → Cut S → List (List ℕ)
all_blocks c = c.blocks ++ last_block c.pending

module _ (c : Chunker) where
  abbrev pub fresh : List (List ℕ) → c.State → Cut c.State
  fresh blocks s = record { blocks = blocks; pending = []; state = s }

  -- The iterator gives out the division of what is left.
  abbrev pub Cuts : ℕ → Type 0
  Cuts fuel =
      (s : c.State) (bytes : List ℕ) (before : List (List ℕ))
      → length bytes ≤ fuel
      → c.IsGood s
      → before ++ chunks c.scan fuel s bytes ≡ all_blocks (cut c.feed (fresh before s) bytes)

  module _ (fuel : ℕ) (s : c.State) (b : ℕ) (bs : List ℕ) (before : List (List ℕ))
      (g : c.IsGood s) where
    next-cut :
        Cuts fuel
        → length (b ∷ bs) ≤ suc fuel
        → (r : c.State × Option ℕ) → scan_by c.feed s (b ∷ bs) ≡ r
        → After c.feed (fresh before s) (b ∷ bs) r
        → before ++ chunks c.scan (suc fuel) s (b ∷ bs)
          ≡ all_blocks (cut c.feed (fresh before s) (b ∷ bs))
    unfolding chunks
    next-cut ih h (s', none) e a = rw (a, c.scan-feed s (b ∷ bs) g, e)
    next-cut ih h (s', some n) e a =
        let (pos, _) = scan_by_bounds c.feed s s' (b ∷ bs) n e in
        let good : c.IsGood s' =
          rw e at (scan_by-IsGood c.IsGood c.feed c.feed-IsGood s (b ∷ bs) g) in
        rw (a, c.scan-feed s (b ∷ bs) g, e)
          (sym (append_assoc before (take n (b ∷ bs) ∷ []) _)
            ∙ ih s' (drop n (b ∷ bs)) (before ++ take n (b ∷ bs) ∷ [])
                (omega (arith, length-drop n (b ∷ bs))) good)

  pub chunks-cut :
      (fuel : ℕ) (s : c.State) (bytes : List ℕ) (before : List (List ℕ))
      → length bytes ≤ fuel
      → c.IsGood s
      → before ++ chunks c.scan fuel s bytes ≡ all_blocks (cut c.feed (fresh before s) bytes)
  chunks-cut zero s [] before h g = unfold chunks cut in refl
  chunks-cut zero s (b ∷ bs) before h g = absurd (omega arith)
  chunks-cut (suc fuel) s [] before h g = unfold chunks cut in refl
  chunks-cut (suc fuel) s (b ∷ bs) before h g =
      next-cut fuel s b bs before g (chunks-cut fuel) h (scan_by c.feed s (b ∷ bs)) refl
        (scan_by-cut c.feed (fresh before s) (b ∷ bs))
