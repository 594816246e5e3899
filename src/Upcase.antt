-- ===== src/Upcase.antt =====
-- src/upcase_table.rs: the table that maps a UTF-16 unit below 128 to its upper case. Loading it reads
-- a sector of the heap without a cache. `Name.upcase` is the look-up.
mod Tests
use exfat_slim.Base.{ℕ, ◌+◌, ◌*◌, List, [], ◌∷◌, replicate}
use exfat_slim.Error.{Result, ok, err, stuck, ExFatError}
use exfat_slim.Action.{Action, and_then}
use exfat_slim.Device.{Block, BlockDevice, Outcome, done, failed}
use exfat_slim.BootSector.{FileSystemDetails, get_heap_sector_id}
use exfat_slim.DirEntry.{UpcaseTableDirEntry}

-- `UpcaseTable::default`.
abbrev pub default_mapping : List ℕ
default_mapping =
    0 ∷ 1 ∷ 2 ∷ 3 ∷ 4 ∷ 5 ∷ 6 ∷ 7 ∷ 8 ∷ 9 ∷ 10 ∷ 11 ∷ 12 ∷ 13 ∷ 14 ∷ 15 ∷ 16 ∷ 17 ∷ 18 ∷ 19 ∷ 20
    ∷ 21 ∷ 22 ∷ 23 ∷ 24 ∷ 25 ∷ 26 ∷ 27 ∷ 28 ∷ 29 ∷ 30 ∷ 31 ∷ 32 ∷ 33 ∷ 34 ∷ 35 ∷ 36 ∷ 37 ∷ 38 ∷ 39
    ∷ 40 ∷ 41 ∷ 42 ∷ 43 ∷ 44 ∷ 45 ∷ 46 ∷ 47 ∷ 48 ∷ 49 ∷ 50 ∷ 51 ∷ 52 ∷ 53 ∷ 54 ∷ 55 ∷ 56 ∷ 57 ∷ 58
    ∷ 59 ∷ 60 ∷ 61 ∷ 62 ∷ 63 ∷ 64 ∷ 65 ∷ 66 ∷ 67 ∷ 68 ∷ 69 ∷ 70 ∷ 71 ∷ 72 ∷ 73 ∷ 74 ∷ 75 ∷ 76 ∷ 77
    ∷ 78 ∷ 79 ∷ 80 ∷ 81 ∷ 82 ∷ 83 ∷ 84 ∷ 85 ∷ 86 ∷ 87 ∷ 88 ∷ 89 ∷ 90 ∷ 91 ∷ 92 ∷ 93 ∷ 94 ∷ 95 ∷ 96
    ∷ 65 ∷ 66 ∷ 67 ∷ 68 ∷ 69 ∷ 70 ∷ 71 ∷ 72 ∷ 73 ∷ 74 ∷ 75 ∷ 76 ∷ 77 ∷ 78 ∷ 79 ∷ 80 ∷ 81 ∷ 82 ∷ 83
    ∷ 84 ∷ 85 ∷ 86 ∷ 87 ∷ 88 ∷ 89 ∷ 90 ∷ 123 ∷ 124 ∷ 125 ∷ 126 ∷ 127 ∷ []

-- `UpcaseTable::empty`.
abbrev pub empty_mapping : List ℕ
empty_mapping = replicate 128 0

-- The loop of `load`: as many units as both the table and the sector have.
unfoldable pub load_units : List ℕ → Block → List ℕ
load_units [] block = []
load_units (to ∷ mapping) [] = to ∷ mapping
load_units (to ∷ mapping) (low ∷ []) = to ∷ mapping
load_units (to ∷ mapping) (low ∷ high ∷ block) = (low + 256 * high) ∷ load_units mapping block

-- A read of the device into a buffer of zeros, with `.map_err(ExFatError::Io)`.
abbrev pub after_read : {E S : Type 0} → Outcome E × Block × S → Result (ExFatError E) Block × S
after_read (done, block, s) = (ok block, s)
after_read (failed e, block, s) = (err (ExFatError.io e), s)

module _ (d : BlockDevice) (size : ℕ) where
  abbrev pub read_block : ℕ → Action (ExFatError d.Error) d.State Block
  read_block sector_id io = after_read (d.read sector_id (replicate size 0) io)

  -- `UpcaseTable::load`.
  unfoldable pub load_table :
      List ℕ
      → UpcaseTableDirEntry
      → FileSystemDetails
      → Action (ExFatError d.Error) d.State (List ℕ)
  load_table mapping dir_entry fs io =
      and_then (get_heap_sector_id fs dir_entry.first_cluster, io)
        (λ sector_id io.
          and_then (read_block sector_id io) (λ block io. (ok (load_units mapping block), io)))
