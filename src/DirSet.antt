-- ===== src/DirSet.antt =====
-- src/directory_entry.rs: `DirSetWriter`, which writes the entries of a set one after the other and
-- sums up their checksum. It assumes that the sectors of a set follow one another.
pub mod Checksum
mod Tests
use exfat_slim.Base.{
  ℕ, zero, suc, ◌+◌, ◌*◌, ◌/◌, ◌%◌, ◌^◌, Bool, true, false, ◌&&◌, ◌||◌, List, [], ◌∷◌, ◌==◌,
  if◌then◌else◌,
}
use exfat_slim.Word.{u16, copy_at, to_le_bytes}
use exfat_slim.Action.{pure, ◌>>=◌, ◌>>◌, modify}
use exfat_slim.Device.{Block, BlockDevice}
use exfat_slim.SlotCache.{update}
use exfat_slim.Touched.{TouchedKind, touched_sector, insert}
use exfat_slim.OpenOptions.{Location}
use exfat_slim.DirEntry.{raw_entry_len}
use exfat_slim.Disk.{Disk, DiskAction, on_data}

pub record DirSetWriter : Type 0 where
  pub start : Location
  pub current : Location
  pub checksum : ℕ

-- `DirSetWriter::new`.
abbrev pub new_writer : Location → DirSetWriter
new_writer location = record { start = location; current = location; checksum = 0 }

-- `DirSetWriter::next_dir_entry_location`.
unfoldable pub next_dir_entry_location : ℕ → DirSetWriter → DirSetWriter
next_dir_entry_location size w =
    let next = record w.current { dir_entry_offset = w.current.dir_entry_offset + 1 } in
    if next.dir_entry_offset == size / raw_entry_len
    then record w { current = record { sector_id = next.sector_id + 1; dir_entry_offset = 0 } }
    else record w { current = next }

-- `u16::rotate_right(1)`.
abbrev pub rotate_right_one : ℕ → ℕ
rotate_right_one x = x / 2 + (x % 2) * 2 ^ 15

-- The loop of `DirSetWriter::calc_checksum`, from `byte_index` on.
unfoldable pub sum_bytes : Bool → (byte_index : ℕ) → List ℕ → ℕ → ℕ
sum_bytes is_file_dir byte_index [] checksum = checksum
sum_bytes is_file_dir byte_index (b ∷ raw) checksum = sum_bytes is_file_dir (suc byte_index) raw (
    if is_file_dir && (byte_index == 2 || byte_index == 3)
    then checksum
    else u16 (rotate_right_one checksum + b))

abbrev pub calc_checksum : List ℕ → Bool → DirSetWriter → DirSetWriter
calc_checksum raw is_file_dir w = record w { checksum = sum_bytes is_file_dir 0 raw w.checksum }

-- `DirSetWriter::add_no_write`.
abbrev pub add_no_write : ℕ → List ℕ → Bool → DirSetWriter → DirSetWriter
add_no_write size dir_entry is_file_dir w =
    calc_checksum dir_entry is_file_dir (next_dir_entry_location size w)

module _ (d : BlockDevice) (size : ℕ) where
  -- `touched.insert(TouchedSector::new(TouchedKind::Dir, sector_id))`.
  abbrev pub touch_dir : ℕ → DiskAction d size (Unit {0})
  touch_dir sector_id = modify (λ (s : Disk d.State). record s {
    touched = insert (touched_sector TouchedKind.dir sector_id) s.touched;
  })

  -- `DirSetWriter::add`, which returns the writer.
  unfoldable pub add : List ℕ → Bool → DirSetWriter → DiskAction d size DirSetWriter
  add dir_entry is_file_dir w =
      let sector_id = w.current.sector_id in
      let offset = w.current.dir_entry_offset * raw_entry_len in
      on_data d size (update d sector_id (λ slot. copy_at slot offset dir_entry))
      >> touch_dir sector_id
      >> pure (add_no_write size dir_entry is_file_dir w)

  -- `DirSetWriter::finish`.
  unfoldable pub finish_set : List ℕ → DirSetWriter → DiskAction d size (Unit {0})
  finish_set file_dir w =
      let sector_id = w.start.sector_id in
      let offset = w.start.dir_entry_offset * raw_entry_len in
      let change = λ (slot : Block).
        copy_at (copy_at slot offset file_dir) (offset + 2) (to_le_bytes 2 w.checksum) in
      on_data d size (update d sector_id change) >> touch_dir sector_id
