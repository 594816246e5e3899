-- ===== src/Volume.antt =====
-- src/utils.rs: `set_volume_dirty`, which changes a flag of the boot sector without a cache, and
-- `split_path`, on the bytes of a path.
use exfat_slim.Base.{ℕ, Bool, false, ◌||◌, List, [], ◌∷◌, bit_and, bit_or, ◌==◌, if◌then◌else◌}
use exfat_slim.Word.{read_u16_le, to_le_bytes, copy_at}
use exfat_slim.Error.{ExFatError}
use exfat_slim.Action.{Action, ◌>>=◌}
use exfat_slim.Device.{Block, BlockDevice, write_block}
use exfat_slim.BootSector.{volume_flags_of}
use exfat_slim.Upcase.{read_block}

-- `VolumeFlags::set(VolumeFlags::VolumeDirty, ..)`.
abbrev pub with_dirty : Bool → ℕ → ℕ
with_dirty is_dirty volume_flags =
    if is_dirty then bit_or volume_flags 2 else bit_and volume_flags 5

-- The boot sector with the flag set.
unfoldable pub dirty_block : Bool → Block → Block
dirty_block is_dirty block =
    copy_at block 106
      (to_le_bytes 2 (with_dirty is_dirty (volume_flags_of (read_u16_le 106 block))))

-- `set_volume_dirty`.
unfoldable pub set_volume_dirty :
    (d : BlockDevice) (size : ℕ) → Bool → Action (ExFatError d.Error) d.State (Unit {0})
set_volume_dirty d size is_dirty =
    read_block d size 0 >>= λ block. write_block d 0 (dirty_block is_dirty block)

-- `/` or `\`.
abbrev pub is_separator : ℕ → Bool
is_separator c = c == 0x2F || c == 0x5C

abbrev pub has_separator : List ℕ → Bool
has_separator [] = false
has_separator (c ∷ path) = is_separator c || has_separator path

-- `split_path`: the parts before and after the last separator, or the whole path as a name.
abbrev pub before : ℕ → List ℕ × List ℕ → List ℕ × List ℕ
before c (directory, name) = (c ∷ directory, name)

unfoldable pub split_path : List ℕ → List ℕ × List ℕ
split_path [] = ([], [])
split_path (c ∷ path) =
    let further = before c (split_path path) in
    if has_separator path then further else if is_separator c then ([], path) else ([], c ∷ path)
