-- ===== src/Chunker/Casync/Bytewise/Filling.antt =====
-- The scan behind the bytes that are skipped, which fills the window first, reads byte by byte.
use rugix.Common.{
  ℕ, ◌+◌, ◌≤◌, ◌≡◌, ◌∙◌, refl, true, false, some, List, [], ◌∷◌, ltb, if◌then◌else◌, arith,
  Bool-cases, inl, inr,
}
use rugix.Chunker.{shift, scan_by}
use rugix.Chunker.Casync.{
  CasyncChunker, window_max, reset, start, shall_break, fill, to_skip, scan_rolling, scan_window,
}
use rugix.Chunker.Casync.Bytewise.{push, feed, IsGood}
use rugix.Chunker.Casync.Bytewise.Rolling.{feed_goes, feed_ends, IsGood-goes, roll-scan_by}

fill_full :
    (c : CasyncChunker) (bs : List ℕ) (offset : ℕ)
    → ltb c.window_size window_max ≡ false
    → fill c bs offset ≡ (c, bs, offset)
unfolding fill
fill_full c [] offset h = refl
fill_full c (b ∷ bs) offset h = rw h

-- The phase that fills the window.
module _ (c : CasyncChunker) (b : ℕ) (room : ltb c.window_size window_max ≡ true) where
  feed_filling :
      IsGood c
      → to_skip c ≤ c.chunk_size
      → feed c b ≡ (
          if ltb (push c b).window_size window_max
          then (push c b, false)
          else if shall_break (start (push c b))
          then (reset (start (push c b)), true)
          else (start (push c b), false))
  unfolding feed
  feed_filling g h =
      let skipped : ltb c.chunk_size (to_skip c) ≡ false = ground arith in rw (skipped, room)

  fill-push : (bs : List ℕ) (offset : ℕ) → fill c (b ∷ bs) offset ≡ fill (push c b) bs (offset + 1)
  unfolding fill push
  fill-push bs offset = rw room

  -- The window is still not full.
  window_goes :
      (bs : List ℕ) (offset : ℕ)
      → ltb (push c b).window_size window_max ≡ true
      → scan_window c (b ∷ bs) offset ≡ scan_window (push c b) bs (offset + 1)
  unfolding scan_window
  window_goes bs offset more = rw (room, more, fill-push bs offset)

  -- The window is full now.
  window_filled :
      (bs : List ℕ) (offset : ℕ)
      → ltb (push c b).window_size window_max ≡ false
      → scan_window c (b ∷ bs) offset ≡ (
          if shall_break (start (push c b))
          then (reset (start (push c b)), some (offset + 1))
          else scan_rolling (start (push c b)) bs (offset + 1))
  unfolding scan_window
  window_filled bs offset full =
      rw (room, fill-push bs offset, fill_full (push c b) bs (offset + 1) full) (rw full)

rolling-scan_by :
    (c : CasyncChunker) (bs : List ℕ) (offset : ℕ)
    → IsGood c
    → c.window_size ≡ window_max
    → scan_rolling c bs offset ≡ shift offset (scan_by feed c bs)
unfolding scan_rolling
rolling-scan_by c bs offset g w = roll-scan_by c bs offset g w

becomes_full :
    (c : CasyncChunker) (b : ℕ)
    → IsGood c
    → ltb c.window_size window_max ≡ true
    → ltb (push c b).window_size window_max ≡ false
    → (start (push c b)).window_size ≡ window_max
unfolding push start
becomes_full c b g room full = ground arith

pub scan_window-scan_by :
    (c : CasyncChunker) (bs : List ℕ) (offset : ℕ)
    → IsGood c
    → to_skip c ≤ c.chunk_size
    → scan_window c bs offset ≡ shift offset (scan_by feed c bs)
scan_window-scan_by c [] offset g h = elim (Bool-cases (ltb c.window_size window_max)) [
  | inl room ↦ unfold scan_window fill scan_by shift in rw room
  | inr full ↦
      unfold scan_window in rw full (rolling-scan_by c [] offset g (ground (arith, g.filled)))
]
scan_window-scan_by c (b ∷ bs) offset g h = elim (Bool-cases (ltb c.window_size window_max)) [
  | inr full ↦
      unfold scan_window in rw full (rolling-scan_by c (b ∷ bs) offset g (ground (arith, g.filled)))
  | inl room ↦ elim (Bool-cases (ltb (push c b).window_size window_max)) [
    | inl more ↦
        let goes = rw more at (feed_filling c b room g h) in
        window_goes c b room bs offset more
        ∙ scan_window-scan_by (push c b) bs (offset + 1) (IsGood-goes b g goes)
            (unfold push in omega arith)
        ∙ feed_goes c (push c b) b bs offset goes
    | inr full ↦ elim (Bool-cases (shall_break (start (push c b)))) [
      | inl e ↦
          let ends = rw (full, e) at (feed_filling c b room g h) in
          rw (window_filled c b room bs offset full, e)
            (feed_ends c (reset (start (push c b))) b bs offset ends)
      | inr e ↦
          let goes = rw (full, e) at (feed_filling c b room g h) in
          rw (window_filled c b room bs offset full, e)
            (rolling-scan_by (start (push c b)) bs (offset + 1) (IsGood-goes b g goes)
                (becomes_full c b g room full)
              ∙ feed_goes c (start (push c b)) b bs offset goes)
    ]
  ]
]
