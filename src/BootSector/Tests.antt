-- ===== src/BootSector/Tests.antt =====
-- The boot sector of the tests of src/boot_sector.rs, and the theorems on it.
use exfat_slim.Base.{ℕ, ◌+◌, ◌-◌, ◌*◌, ◌≡◌, List, [], ◌∷◌, replicate, set, arith}
use exfat_slim.Word.{copy_at}
use exfat_slim.Error.{ok}
use exfat_slim.BootSector.{
  FileSystemDetails, empty_details, try_from, get_heap_sector_id, cluster_of_sector,
}
use exfat_slim.BootSector.Bounds.{Parsed, try_from-Parsed, cluster_of_sector-get_heap_sector_id}

abbrev head : List ℕ
head = 0xeb ∷ 0x76 ∷ 0x90 ∷ 0x45 ∷ 0x58 ∷ 0x46 ∷ 0x41 ∷ 0x54 ∷ 0x20 ∷ 0x20 ∷ 0x20 ∷ []

-- From byte 64 on.
abbrev fields : List ℕ
fields =
    0x00 ∷ 0x08 ∷ 0x00 ∷ 0x00 ∷ 0x00 ∷ 0x00 ∷ 0x00 ∷ 0x00 ∷ 0x00 ∷ 0x18 ∷ 0xf1 ∷ 0x00 ∷ 0x00 ∷ 0x00
    ∷ 0x00 ∷ 0x00 ∷ 0x00 ∷ 0x08 ∷ 0x00 ∷ 0x00 ∷ 0xc0 ∷ 0x07 ∷ 0x00 ∷ 0x00 ∷ 0x00 ∷ 0x10 ∷ 0x00
    ∷ 0x00 ∷ 0x20 ∷ 0xc4 ∷ 0x03 ∷ 0x00 ∷ 0x04 ∷ 0x00 ∷ 0x00 ∷ 0x00 ∷ 0xeb ∷ 0xb9 ∷ 0xdd ∷ 0xee
    ∷ 0x00 ∷ 0x01 ∷ 0x02 ∷ 0x00 ∷ 0x09 ∷ 0x06 ∷ 0x01 ∷ 0x80 ∷ []

abbrev boot_sector : List ℕ
unfolding copy_at
boot_sector = set (set (copy_at (copy_at (replicate 512 0) 0 head) 64 fields) 510 0x55) 511 0xaa

try_from-Parsed_example : Parsed boot_sector (try_from boot_sector)
try_from-Parsed_example = try_from-Parsed boot_sector

-- The volume of that boot sector.
abbrev volume : FileSystemDetails
volume = record empty_details {
  cluster_heap_offset = 4096;
  fat_offset = 2048;
  cluster_count = 246816;
}

cluster_of_sector-get_heap_sector_id_example :
    (get_heap_sector_id {E = ℕ} volume 5 ≡ ok (4096 + (5 - 2) * 64))
    × (cluster_of_sector volume (4096 + (5 - 2) * 64 + 7) ≡ (5, 7))
cluster_of_sector-get_heap_sector_id_example =
    cluster_of_sector-get_heap_sector_id volume 5 7 (omega arith) (omega arith) (omega arith)
