-- ===== src/Touched.antt =====
-- src/file.rs: the sectors that an operation touches and must flush before it returns, at most six
-- of them, with a flag that says that there were more.
pub mod Covers
mod Tests
use exfat_slim.Base.{
  ℕ, Bool, true, false, ◌||◌, List, [], ◌∷◌, ◌++◌, length, ltb, ◌==◌, if◌then◌else◌,
}

pub data TouchedKind : Type 0 where
  data_block : TouchedKind
  fat : TouchedKind
  bitmap : TouchedKind
  dir : TouchedKind
  nothing : TouchedKind

-- `TouchedKind::rank`, the order of flushing.
abbrev pub rank : TouchedKind → ℕ
rank data_block = 0
rank bitmap = 1
rank fat = 2
rank dir = 3
rank nothing = 4

pub record TouchedSector : Type 0 where
  pub kind : TouchedKind
  pub sector : ℕ

abbrev pub touched_sector : TouchedKind → ℕ → TouchedSector
touched_sector kind sector = record { kind = kind; sector = sector }

abbrev pub default_touched_sectors : ℕ
default_touched_sectors = 6

pub record FileDirty : Type 0 where
  pub sectors : List TouchedSector
  pub overflowed : Bool
  pub is_dir_entry_dirty : Bool

-- `FileDirty::new`.
abbrev pub no_touched : FileDirty
no_touched = record { sectors = []; overflowed = false; is_dir_entry_dirty = false }

unfoldable pub has_sector : ℕ → List TouchedSector → Bool
has_sector sector [] = false
has_sector sector (t ∷ ts) = t.sector == sector || has_sector sector ts

-- `FileDirty::insert`, at `DEFAULT_TOUCHED_SECTORS`.
unfoldable pub insert : TouchedSector → FileDirty → FileDirty
insert touched f =
    if has_sector touched.sector f.sectors
    then f
    else if ltb (length f.sectors) default_touched_sectors
    then record f { sectors = f.sectors ++ (touched ∷ []) }
    else record f { overflowed = true }
