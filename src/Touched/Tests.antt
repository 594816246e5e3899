-- ===== src/Touched/Tests.antt =====
-- The seventh sector does not fit.
use exfat_slim.Base.{ℕ, ◌≤◌, ◌≡◌, Bool, true, ◌⊎◌, [], ◌∷◌, length, arith}
use exfat_slim.Touched.{TouchedKind, TouchedSector, touched_sector, FileDirty, has_sector, insert}
use exfat_slim.Touched.Covers.{insert-has_sector}

abbrev data_at : ℕ → TouchedSector
data_at n = touched_sector TouchedKind.data_block n

abbrev six : FileDirty
six = record {
  sectors = data_at 1 ∷ data_at 2 ∷ data_at 3 ∷ data_at 4 ∷ data_at 5 ∷ data_at 6 ∷ [];
  overflowed = Bool.false;
  is_dir_entry_dirty = Bool.false;
}

insert-has_sector_example :
    (((insert (data_at 7) six).overflowed ≡ true)
      ⊎ (has_sector 7 (insert (data_at 7) six).sectors ≡ true))
    × ((x : ℕ)
        → has_sector x six.sectors ≡ true
        → has_sector x (insert (data_at 7) six).sectors ≡ true)
    × (six.overflowed ≡ true → (insert (data_at 7) six).overflowed ≡ true)
    × (length (insert (data_at 7) six).sectors ≤ 6)
insert-has_sector_example = insert-has_sector (data_at 7) six (omega arith)
