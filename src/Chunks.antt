-- ===== src/Chunks.antt =====
-- src/utils.rs: `Utf16Chunks`, the units of a name in pieces of the length that a name entry holds.
mod Tests
pub mod Whole
use exfat_slim.Base.{
  ℕ, zero, suc, ◌-◌, Option, none, some, List, [], ◌∷◌, ◌++◌, take, drop, length, replicate, ◌==◌,
  if◌then◌else◌,
}

-- The loop of `next_chunk`: at most `n` units, and what the iterator has left.
unfoldable pub pull : ℕ → List ℕ → List ℕ × List ℕ
pull zero units = ([], units)
pull (suc n) [] = ([], [])
pull (suc n) (item ∷ units) = let (taken, left) = pull n units in (item ∷ taken, left)

-- `Utf16Chunks::next_chunk` with a chunk of `n` units: the chunk, filled up with zeros, and its
-- number of units, or nothing; and the iterator.
unfoldable pub next_chunk_of : ℕ → List ℕ → Option (List ℕ × ℕ) × List ℕ
unfolding pull
next_chunk_of n units =
    let (taken, left) = pull n units in
    let index = length taken in
    if index == 0 then (none, left) else (some (taken ++ replicate (n - index) 0, index), left)

-- The chunks that a loop over `next_chunk` sees, in `rounds` rounds at most.
abbrev pub and_chunks :
    Option (List ℕ × ℕ) × List ℕ → (List ℕ → List (List ℕ × ℕ)) → List (List ℕ × ℕ)
and_chunks (none, left) rest = []
and_chunks (some chunk, left) rest = chunk ∷ rest left

unfoldable pub all_chunks : (rounds n : ℕ) → List ℕ → List (List ℕ × ℕ)
unfolding next_chunk_of
all_chunks zero n units = []
all_chunks (suc rounds) n units = and_chunks (next_chunk_of n units) (all_chunks rounds n)
