-- ===== src/Chunker.antt =====
-- crates/libs/rugix-chunker/src/lib.rs: dividing a byte stream into blocks.
pub mod Machine
pub mod Sizes
pub mod Chunks
pub mod Instances
pub mod Algorithm
pub mod Names
pub mod Streams
pub mod Fixed
pub mod Table
pub mod Casync
mod Tests
use rugix.Common.{
  ℕ, zero, suc, ◌+◌, ◌-◌, ◌*◌, ◌≤◌, ◌<◌, ◌≡◌, min, Bool, true, false, Option, none, some, List, [],
  ◌∷◌, ◌++◌, ◌==◌, if◌then◌else◌, length, take, drop,
}

-- A chunker reads bytes one by one: `feed` gives the new state and whether a block ends behind the
-- byte. This is the scan that every chunker promises, whatever slices it is given.
unfoldable pub shift {ℓ} : {S : Type ℓ} → ℕ → S × Option ℕ → S × Option ℕ
shift k (s, none) = (s, none)
shift k (s, some n) = (s, some (k + n))

unfoldable pub scan_by {ℓ} : {S : Type ℓ} → (S → ℕ → S × Bool) → S → List ℕ → S × Option ℕ
unfolding shift
scan_by feed s [] = (s, none)
scan_by feed s (b ∷ bs) =
    let (s', ends) = feed s b in
    let rest = shift 1 (scan_by feed s' bs) in if ends then (s', some 1) else rest

-- What a stream has been divided into: the blocks that ended, the bytes of the one that did not,
-- and the state of the chunker.
pub record Cut {ℓ} (S : Type ℓ) : Type ℓ where
  pub blocks : List (List ℕ)
  pub pending : List ℕ
  pub state : S

unfoldable pub cut_byte {ℓ} : {S : Type ℓ} → (S → ℕ → S × Bool) → Cut S → ℕ → Cut S
cut_byte feed c b =
    let (s', ends) = feed c.state b in
    let block = c.pending ++ b ∷ [] in
    if ends
    then record { blocks = c.blocks ++ block ∷ []; pending = []; state = s' }
    else record { blocks = c.blocks; pending = block; state = s' }

-- The reference division of a stream, byte by byte.
unfoldable pub cut {ℓ} : {S : Type ℓ} → (S → ℕ → S × Bool) → Cut S → List ℕ → Cut S
unfolding cut_byte
cut feed c [] = c
cut feed c (b ∷ bs) = cut feed (cut_byte feed c b) bs

-- The trait `Chunker`, with what its clients rely on: on every good state `scan` is the scan of a
-- machine that reads byte by byte.
pub record Chunker : Type 1 where
  pub State : Type 0
  pub IsGood : State → Type 0
  pub feed : State → ℕ → State × Bool
  pub scan : State → List ℕ → State × Option ℕ
  pub feed-IsGood : (s : State) (b : ℕ) → IsGood s → IsGood (feed s b).0
  pub scan-feed : (s : State) (bs : List ℕ) → IsGood s → scan s bs ≡ scan_by feed s bs

-- One call of the iterator of `Chunker::chunks` on bytes that are left, at the result of the scan;
-- `more` are the later calls.
unfoldable pub next_chunk {ℓ} :
    {S : Type ℓ} → (S → List ℕ → List (List ℕ)) → List ℕ → S × Option ℕ → List (List ℕ)
next_chunk more bytes (s, some offset) = take offset bytes ∷ more s (drop offset bytes)
next_chunk more bytes (s, none) = bytes ∷ []

-- `Chunker::chunks`; `fuel` bounds the blocks that are given out.
unfoldable pub chunks {ℓ} :
    {S : Type ℓ} → (S → List ℕ → S × Option ℕ) → ℕ → S → List ℕ → List (List ℕ)
unfolding next_chunk
chunks scan zero s bytes = []
chunks scan (suc fuel) s [] = []
chunks scan (suc fuel) s (b ∷ bs) = next_chunk (chunks scan fuel) (b ∷ bs) (scan s (b ∷ bs))
