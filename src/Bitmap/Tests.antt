-- ===== src/Bitmap/Tests.antt =====
-- The tests of positions and chunks in src/allocation.rs, and the theorems at their inputs.
use exfat_slim.Base.{
  ℕ, ◌+◌, ◌≤◌, ◌<◌, ◌*◌, ◌≡◌, refl, true, not, ◌&&◌, length, List, [], ◌∷◌, leb, ltb, if◌then◌else◌,
  arith,
}
use exfat_slim.Word.{AreBytes}
use exfat_slim.Bitmap.{BitmapPos, pos_of, cluster, chunks, run_chunks, next_chunk, set_bit_range}
use exfat_slim.Bitmap.Bits.{is_free_at, set_bit_range-is_free_at}
use exfat_slim.Bitmap.Chunks.{cluster-pos_of, in_chunks, AreProper, chunks-in_chunks}

-- `run_splits_at_bitmap_sector_boundaries`.
run_splits :
    chunks 512 8 (run_chunks 4094 8)
    ≡ record { sector = 0; start = 4092; end = 4096 }
      ∷ record { sector = 1; start = 0; end = 4 }
      ∷ []
unfolding chunks next_chunk
run_splits = refl

-- The last bit of a sector.
abbrev last_bit : BitmapPos
last_bit = record { sector = 3; bit = 4095 }

cluster-pos_of_example :
    ((pos_of 512 4098).bit < 8 * 512)
    × (cluster 512 (pos_of 512 4098) ≡ 4098)
    × (pos_of 512 (cluster 512 last_bit) ≡ last_bit)
cluster-pos_of_example = cluster-pos_of 512 4098 last_bit (omega arith) (omega arith) (omega arith)

chunks-in_chunks_example :
    AreProper 512 (chunks 512 8 (run_chunks 4094 8))
    × ((x : ℕ)
        → 2 ≤ x
        → in_chunks 512 (chunks 512 8 (run_chunks 4094 8)) x ≡ (leb 4094 x && ltb x (4094 + 8)))
chunks-in_chunks_example =
    chunks-in_chunks 512 (omega arith) 8 (run_chunks 4094 8) (omega arith) (omega arith)

abbrev two_bytes : List ℕ
two_bytes = 0x0F ∷ 0x00 ∷ []

set_bit_range-is_free_at_example :
    AreBytes (set_bit_range 6 5 true two_bytes)
    × (length (set_bit_range 6 5 true two_bytes) ≡ length two_bytes)
    × ((i : ℕ)
        → is_free_at (set_bit_range 6 5 true two_bytes) i
          ≡ (if leb 5 i && ltb i (5 + 6) then not true else is_free_at two_bytes i))
set_bit_range-is_free_at_example =
    set_bit_range-is_free_at 6 5 true two_bytes (omega arith, (omega arith, tt)) (omega arith)
