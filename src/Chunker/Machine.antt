-- ===== src/Chunker/Machine.antt =====
-- What holds of every chunker that reads byte by byte.
use rugix.Common.{
  ℕ, suc, ◌+◌, ◌≤◌, ◌≡◌, refl, sym, ◌∙◌, Bool, false, inl, inr, Option, none, some, List, [], ◌∷◌,
  ◌++◌, length, take, drop, arith, Bool-cases, append_assoc, append-nil, flatten, flatten-append,
}
use rugix.Chunker.{shift, scan_by, Cut, cut, cut_byte}

module _ {ℓ} {S : Type ℓ} where
  pub shift-shift : (k : ℕ) (r : S × Option ℕ) → shift 1 (shift k r) ≡ shift (suc k) r
  unfolding shift
  shift-shift k (s, none) = refl
  shift-shift k (s, some n) = ground arith

  pub shift-add : (k : ℕ) (r : S × Option ℕ) → shift k (shift 1 r) ≡ shift (k + 1) r
  unfolding shift
  shift-add k (s, none) = refl
  shift-add k (s, some n) = ground arith

  pub shift-state : (k : ℕ) (r : S × Option ℕ) → (shift k r).0 ≡ r.0
  unfolding shift
  shift-state k (s, none) = refl
  shift-state k (s, some n) = refl

  pub shift-zero : (r : S × Option ℕ) → shift 0 r ≡ r
  unfolding shift
  shift-zero (s, none) = refl
  shift-zero (s, some n) = ground arith

-- A boundary that was found does not depend on what follows; else the scan goes on, `k` bytes later.
abbrev pub resume {ℓ} :
    {S : Type ℓ} → (S → List ℕ → S × Option ℕ) → ℕ → S × Option ℕ → List ℕ → S × Option ℕ
resume scan k (s, some n) cs = (s, some n)
resume scan k (s, none) cs = shift k (scan s cs)

module _ {ℓ} {S : Type ℓ} (feed : S → ℕ → S × Bool) where
  -- The boundary lies behind at least one byte, and in the input.
  pub scan_by_bounds :
      (s s' : S) (bs : List ℕ) (n : ℕ)
      → scan_by feed s bs ≡ (s', some n)
      → (1 ≤ n) × (n ≤ length bs)
  unfolding scan_by
  scan_by_bounds s s' [] n h = cc
  scan_by_bounds s s' (b ∷ bs) n h = elim (Bool-cases (feed s b).1) [
    | inl e ↦ ground arith
    | inr e ↦
        behind (scan_by feed (feed s b).0 bs) (λ m p. scan_by_bounds (feed s b).0 s' bs m p)
          (rw e at h)
  ]
    where
      behind :
          (r : S × Option ℕ)
          → ((m : ℕ) → r ≡ (s', some m) → (1 ≤ m) × (m ≤ length bs))
          → shift 1 r ≡ (s', some n)
          → (1 ≤ n) × (n ≤ suc (length bs))
      behind (s₁, none) k p = unfold shift in cc
      behind (s₁, some m) k p = ground (arith, k m)

  pub scan_by-append :
      (s : S) (bs cs : List ℕ)
      → scan_by feed s (bs ++ cs) ≡ resume (scan_by feed) (length bs) (scan_by feed s bs) cs
  unfolding scan_by
  scan_by-append s [] cs = sym (shift-zero (scan_by feed s cs))
  scan_by-append s (b ∷ bs) cs = elim (Bool-cases (feed s b).1) [
    | inl e ↦ rw e refl
    | inr e ↦ rw (e, scan_by-append (feed s b).0 bs cs) (later (scan_by feed (feed s b).0 bs))
  ]
    where
      later :
          (r : S × Option ℕ)
          → shift 1 (resume (scan_by feed) (length bs) r cs)
            ≡ resume (scan_by feed) (length (b ∷ bs)) (shift 1 r) cs
      later (s₁, none) = shift-shift (length bs) (scan_by feed s₁ cs)
      later (s₁, some m) = refl

  -- The division of two slices is that of the one slice that holds both.
  pub cut-append :
      (c : Cut S) (bs cs : List ℕ) → cut feed c (bs ++ cs) ≡ cut feed (cut feed c bs) cs
  unfolding cut
  cut-append c [] cs = refl
  cut-append c (b ∷ bs) cs = cut-append (cut_byte feed c b) bs cs

  pub cut_byte-state : (c : Cut S) (b : ℕ) → (cut_byte feed c b).state ≡ (feed c.state b).0
  unfolding cut_byte
  cut_byte-state c b = elim (Bool-cases (feed c.state b).1) [
    | inl e ↦ rw e refl
    | inr e ↦ rw e refl
  ]

  one_byte :
      (c : Cut S) (b : ℕ) (bs : List ℕ)
      → let c' = cut_byte feed c b in
        (flatten c'.blocks ++ c'.pending) ++ bs ≡ (flatten c.blocks ++ c.pending) ++ b ∷ bs
  unfolding cut_byte flatten
  one_byte c b bs = elim (Bool-cases (feed c.state b).1) [
    | inl e ↦ rw e (simp (flatten-append, append_assoc, append-nil))
    | inr e ↦ rw e (simp append_assoc)
  ]

  -- The blocks and the pending bytes are the bytes of the stream.
  pub flatten-cut :
      (c : Cut S) (bs : List ℕ)
      → flatten (cut feed c bs).blocks ++ (cut feed c bs).pending
        ≡ (flatten c.blocks ++ c.pending) ++ bs
  unfolding cut
  flatten-cut c [] = sym (append-nil _)
  flatten-cut c (b ∷ bs) = flatten-cut (cut_byte feed c b) bs ∙ one_byte c b bs

-- How far a scan has come, in terms of the division.
module _ {ℓ} {S : Type ℓ} (feed : S → ℕ → S × Bool) where
  -- The division goes on behind the scan.
  abbrev pub After : Cut S → List ℕ → S × Option ℕ → Type ℓ
  After c bs (s', none) =
      cut feed c bs ≡ record { blocks = c.blocks; pending = c.pending ++ bs; state = s' }
  After c bs (s', some n) =
      cut feed c bs
      ≡ cut feed
          (record { blocks = c.blocks ++ (c.pending ++ take n bs) ∷ []; pending = []; state = s' })
          (drop n bs)

  abbrev more_bytes : Cut S → ℕ → Cut S
  more_bytes c b = record {
    blocks = c.blocks;
    pending = c.pending ++ b ∷ [];
    state = (feed c.state b).0;
  }

  pub scan_by-cut : (c : Cut S) (bs : List ℕ) → After c bs (scan_by feed c.state bs)
  unfolding scan_by cut
  scan_by-cut c [] = rw append-nil
  scan_by-cut c (b ∷ bs) = elim (Bool-cases (feed c.state b).1) [
    | inl e ↦ rw e (unfold cut_byte in rw e)
    | inr e ↦ rw e (later e (scan_by feed (feed c.state b).0 bs) (scan_by-cut (more_bytes c b) bs))
  ]
    where
      first : (feed c.state b).1 ≡ false → cut_byte feed c b ≡ more_bytes c b
      first e = unfold cut_byte in rw e

      later :
          (feed c.state b).1 ≡ false
          → (r : S × Option ℕ) → After (more_bytes c b) bs r
          → After c (b ∷ bs) (shift 1 r)
      later e (s₁, none) a = rw (first e, a, append_assoc)
      later e (s₁, some m) a =
          let next : 1 + m ≡ suc m = omega arith in rw (first e, a, next, append_assoc)

-- A scan keeps what every byte keeps.
pub scan_by-IsGood {ℓ κ} :
    {S : Type ℓ} (P : S → Type κ) (feed : S → ℕ → S × Bool)
    → ((s : S) (b : ℕ) → P s → P (feed s b).0)
    → (s : S) (bs : List ℕ) → P s
    → P (scan_by feed s bs).0
unfolding scan_by
scan_by-IsGood P feed keep s [] h = h
scan_by-IsGood P feed keep s (b ∷ bs) h = elim (Bool-cases (feed s b).1) [
  | inl e ↦ rw e (keep s b h)
  | inr e ↦
      rw (e, shift-state 1 (scan_by feed (feed s b).0 bs))
        (scan_by-IsGood P feed keep (feed s b).0 bs (keep s b h))
]

pub cut-IsGood {ℓ κ} :
    {S : Type ℓ} (P : S → Type κ) (feed : S → ℕ → S × Bool)
    → ((s : S) (b : ℕ) → P s → P (feed s b).0)
    → (c : Cut S) (bs : List ℕ) → P c.state
    → P (cut feed c bs).state
unfolding cut
cut-IsGood P feed keep c [] h = h
cut-IsGood P feed keep c (b ∷ bs) h =
    cut-IsGood P feed keep (cut_byte feed c b) bs (rw (cut_byte-state feed c b) (keep c.state b h))
