-- ===== src/Fat/Tests.antt =====
-- A table of sectors with two entries each, over a device in memory.
use exfat_slim.Base.{ℕ, ◌≡◌, refl, ap, some, [], ◌∷◌, length, ◌==◌, if◌then◌else◌, arith}
use exfat_slim.Device.{Block}
use exfat_slim.Action.{Ensures}
use exfat_slim.SlotCache.{new}
use exfat_slim.SlotCache.Tests.{memory, memory-Storage}
use exfat_slim.SlotCache.Initial.{new-Coherent}
use exfat_slim.Touched.{no_touched}
use exfat_slim.Fat.{FatSession, set_link, next_cluster_in_fat_chain}
use exfat_slim.Fat.Lookup.{
  IsTable, entry, set_link-Ensures, IsNext, next_cluster_in_fat_chain-IsNext,
}

abbrev zeros : ℕ → Block
zeros x = 0 ∷ 0 ∷ 0 ∷ 0 ∷ 0 ∷ 0 ∷ 0 ∷ 0 ∷ []

abbrev session : FatSession (ℕ → Block)
session = record {
  fat = record { start_of_fat_sector = some 3; cache = new 8 2 };
  touched = no_touched;
  dev = zeros;
}

session-IsTable : IsTable memory-Storage 8 2 3 (omega arith) refl session
session-IsTable =
    let (coherent, shows) = new-Coherent memory-Storage 8 2 zeros (omega arith) in
    record { coherent = coherent; blocks = λ y. ap length (shows y); started = refl }

set_link-Ensures_example :
    Ensures
      (λ _ t.
        IsTable memory-Storage 8 2 3 (omega arith) refl t
        × ((x : ℕ)
            → entry memory-Storage 8 2 3 (omega arith) refl t x
              ≡ (if 5 == x then 6 else entry memory-Storage 8 2 3 (omega arith) refl session x)))
      (λ t. Unit {0})
      (set_link memory 8 5 6 session)
set_link-Ensures_example =
    set_link-Ensures memory-Storage 8 2 3 (omega arith) refl 5 6 session session-IsTable
      (omega arith) (omega arith)

next_cluster_in_fat_chain-IsNext_example :
    Ensures
      (λ o t.
        IsNext (entry memory-Storage 8 2 3 (omega arith) refl session 5) o
        × IsTable memory-Storage 8 2 3 (omega arith) refl t
        × ((x : ℕ)
            → entry memory-Storage 8 2 3 (omega arith) refl t x
              ≡ entry memory-Storage 8 2 3 (omega arith) refl session x))
      (λ t. Unit {0})
      (next_cluster_in_fat_chain memory 8 5 session)
next_cluster_in_fat_chain-IsNext_example =
    next_cluster_in_fat_chain-IsNext memory-Storage 8 2 3 (omega arith) refl 5 session
      session-IsTable (omega arith)
