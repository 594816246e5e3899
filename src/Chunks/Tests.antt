-- ===== src/Chunks/Tests.antt =====
-- Chunks of three units.
use exfat_slim.Base.{◌≡◌, refl, [], ◌∷◌, arith}
use exfat_slim.Chunks.{all_chunks}
use exfat_slim.Chunks.Whole.{joined, AreFull, all_chunks-joined}

four_units : all_chunks 5 3 (7 ∷ 8 ∷ 9 ∷ 10 ∷ []) ≡ (7 ∷ 8 ∷ 9 ∷ [], 3) ∷ (10 ∷ 0 ∷ 0 ∷ [], 1) ∷ []
unfolding all_chunks
four_units = refl

all_chunks-joined_example :
    (joined (all_chunks 5 3 (7 ∷ 8 ∷ 9 ∷ 10 ∷ [])) ≡ 7 ∷ 8 ∷ 9 ∷ 10 ∷ [])
    × AreFull 3 (all_chunks 5 3 (7 ∷ 8 ∷ 9 ∷ 10 ∷ []))
all_chunks-joined_example = all_chunks-joined 5 3 (7 ∷ 8 ∷ 9 ∷ 10 ∷ []) (omega arith) (omega arith)
