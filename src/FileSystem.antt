-- ===== src/FileSystem.antt =====
-- src/file_system.rs: the state of a mounted file system, and mounting it: the boot sector and the
-- first sector of the root directory are read without a cache. `collect` stands for the collection of
-- the volume label into a `heapless::String<22>`.
pub mod Chains
pub mod EntrySets
pub mod Removing
pub mod Creating
use exfat_slim.Base.{
  ℕ, zero, suc, ◌/◌, Bool, true, false, ◌&&◌, Option, none, some, List, take, drop, if◌then◌else◌,
}
use exfat_slim.Word.{byte_at}
use exfat_slim.Timestamp.{Timestamp, EncodedTimestamp, encode, default_encoded}
use exfat_slim.Error.{Result, ok, err, stuck, ExFatError, BootSectorError, DirectoryEntryError}
use exfat_slim.Action.{Action, pure, fail, ◌>>=◌, zoom}
use exfat_slim.Device.{Block, BlockDevice}
use exfat_slim.SlotCache.{SlotCache, new}
use exfat_slim.Touched.{FileDirty}
use exfat_slim.BootSector.{
  BootSector, try_from, FileSystemDetails, empty_details, details_of, get_heap_sector_id,
}
use exfat_slim.DirEntry.{
  raw_entry_len, EntryType, entry_type_of, AllocationBitmapDirEntry, UpcaseTableDirEntry,
  parse_bitmap, parse_upcase,
}
use exfat_slim.NameEntry.{is_end_of_directory, parse_label}
use exfat_slim.Upcase.{default_mapping, empty_mapping, read_block, load_table}
use exfat_slim.Allocator.{Allocator, AllocationBitmap, allocation_bitmap, new_allocator}
use exfat_slim.Fat.{Fat, new_fat}
use exfat_slim.Disk.{Disk, DiskAction}

-- `time_provider` is what the provider answers at the time of a call.
pub record FileSystem (D : Type 0) : Type 0 where
  pub dev : D
  pub is_mounted : Bool
  pub fs : FileSystemDetails
  pub upcase_table : List ℕ
  pub allocator : Allocator
  pub fat : Fat
  pub data_blocks : SlotCache
  pub time_provider : Option Timestamp

-- `FileSystem::new`, with `n` slots for each cache.
unfoldable pub new_file_system : {D : Type 0} → (size n : ℕ) → D → FileSystem D
new_file_system size n io = record {
  dev = io;
  is_mounted = false;
  fs = empty_details;
  upcase_table = empty_mapping;
  allocator = new_allocator (new size n);
  fat = new_fat (new size n);
  data_blocks = new size n;
  time_provider = none;
}

-- `FileSystem::get_current_timestamp`.
abbrev pub encoded_or_default : Option Timestamp → EncodedTimestamp
encoded_or_default (some timestamp) = encode timestamp
encoded_or_default none = default_encoded

abbrev pub get_current_timestamp : {D : Type 0} → FileSystem D → EncodedTimestamp
get_current_timestamp s = encoded_or_default s.time_provider

-- A file system and the record of touched sectors that an operation is handed, and the disk in it.
pub record Run (D : Type 0) : Type 0 where
  pub fsys : FileSystem D
  pub touched : FileDirty

abbrev pub disk_of : {D : Type 0} → Run D → Disk D
disk_of r = record {
  alloc = r.fsys.allocator;
  fat = r.fsys.fat;
  data_blocks = r.fsys.data_blocks;
  touched = r.touched;
  dev = r.fsys.dev;
}

abbrev pub with_disk : {D : Type 0} → Disk D → Run D → Run D
with_disk s r = record {
  fsys = record r.fsys {
    allocator = s.alloc;
    fat = s.fat;
    data_blocks = s.data_blocks;
    dev = s.dev;
  };
  touched = s.touched;
}

-- `FileSystemMetadata`.
pub record FileSystemMetadata : Type 0 where
  pub details : FileSystemDetails
  pub upcase_table : List ℕ
  pub alloc_bitmap : AllocationBitmap

-- The entries of the root directory that `read_file_system_metadata` collects.
pub record RootEntries : Type 0 where
  pub bitmap : Option AllocationBitmapDirEntry
  pub label : Option (List ℕ)
  pub upcase : Option UpcaseTableDirEntry

abbrev pub is_some : {A : Type 0} → Option A → Bool
is_some none = false
is_some (some a) = true

module _ (d : BlockDevice) (size : ℕ) (collect : List ℕ → Result DirectoryEntryError (List ℕ)) where
  -- The label of an entry, with `?` into `ExFatError`.
  abbrev pub with_label :
      RootEntries → Result DirectoryEntryError (List ℕ) → Result (ExFatError d.Error) RootEntries
  with_label r (ok label) = ok (record r { label = some label })
  with_label r (err e) = err (ExFatError.directory_entry e)
  with_label r stuck = stuck

  -- The arms of the loop over the entries of the root directory's first sector.
  abbrev pub root_entry : EntryType → List ℕ → RootEntries → Result (ExFatError d.Error) RootEntries
  root_entry EntryType.allocation_bitmap chunk r =
      ok (record r { bitmap = some (parse_bitmap chunk) })
  root_entry EntryType.volume_label chunk r = with_label r (parse_label collect chunk)
  root_entry EntryType.upcase_table chunk r = ok (record r { upcase = some (parse_upcase chunk) })
  root_entry other chunk r = ok r

  -- The loop leaves at the end of the directory, and when all three entries are found.
  abbrev pub is_end : EntryType → List ℕ → Bool
  is_end EntryType.end_of_directory chunk = is_end_of_directory chunk
  is_end other chunk = false

  abbrev pub or_go_on :
      Result (ExFatError d.Error) RootEntries
      → (RootEntries → Result (ExFatError d.Error) RootEntries)
      → Result (ExFatError d.Error) RootEntries
  or_go_on (ok r) rest =
      let further = rest r in
      if is_some r.bitmap && is_some r.upcase && is_some r.label then ok r else further
  or_go_on (err e) rest = err e
  or_go_on stuck rest = stuck

  unfoldable pub scan_root :
      (count : ℕ) → Block → RootEntries → Result (ExFatError d.Error) RootEntries
  scan_root zero block r = ok r
  scan_root (suc count) block r =
      let chunk = take raw_entry_len block in
      let entry_type = entry_type_of (byte_at chunk 0) in
      let further =
        or_go_on (root_entry entry_type chunk r) (scan_root count (drop raw_entry_len block)) in
      if is_end entry_type chunk then ok r else further

  abbrev pub DeviceAction : Type 0 → Type 0
  DeviceAction A = Action (ExFatError d.Error) d.State A

  abbrev pub lift : {A : Type 0} → Result (ExFatError d.Error) A → DeviceAction A
  lift r io = (r, io)

  -- `?` on the error of the boot sector.
  abbrev pub or_not_ex_fat :
      Result BootSectorError BootSector → Result (ExFatError d.Error) BootSector
  or_not_ex_fat (ok b) = ok b
  or_not_ex_fat (err e) = err (ExFatError.not_ex_fat e)
  or_not_ex_fat stuck = stuck

  abbrev pub require : {A : Type 0} → Option A → ExFatError d.Error → DeviceAction A
  require (some a) e = pure a
  require none e = fail e

  -- `read_file_system_metadata`.
  unfoldable pub read_file_system_metadata : DeviceAction FileSystemMetadata
  read_file_system_metadata = read_block d size 0 >>= λ bytes.
      lift (or_not_ex_fat (try_from bytes)) >>= λ boot_sector.
      let details = details_of boot_sector in
      lift (get_heap_sector_id details details.first_cluster_of_root_dir) >>= λ sector_id.
      read_block d size sector_id >>= λ bytes.
      lift (
        scan_root (size / raw_entry_len) bytes
          (record { bitmap = none; label = none; upcase = none }))
      >>= λ found.
          require found.upcase (ExFatError.invalid_file_system "no upcase table found in root dir")
          >>= λ upcase.
              require found.label
                (ExFatError.invalid_file_system "no volume label found in root dir")
              >>= λ label.
                  require found.bitmap
                    (ExFatError.invalid_file_system "no allocation bitmap found in root dir")
                  >>= λ bitmap. load_table d size default_mapping upcase details >>= λ upcase_table.
                      pure (record {
                        details = details;
                        upcase_table = upcase_table;
                        alloc_bitmap =
                            allocation_bitmap size bitmap.first_cluster bitmap.data_length;
                      })

  abbrev pub FsAction : Type 0 → Type 0
  FsAction A = Action (ExFatError d.Error) (FileSystem d.State) A

  -- The part of `mount` that sets the first sector of the bitmap, and what comes after.
  abbrev pub mounted_at :
      FileSystemMetadata
      → FileSystem d.State
      → Result (ExFatError d.Error) ℕ
      → Result (ExFatError d.Error) (Unit {0}) × FileSystem d.State
  mounted_at m s (ok first_sector) = (
    ok tt,
    record s {
      allocator = record s.allocator {
        bitmap = record s.allocator.bitmap {
          first_sector = first_sector;
          num_sectors = m.alloc_bitmap.num_sectors;
        };
      };
      upcase_table = m.upcase_table;
      is_mounted = true;
    },
  )
  mounted_at m s (err e) = (err e, s)
  mounted_at m s stuck = (stuck, s)

  abbrev pub set_details : FileSystemMetadata → FsAction (Unit {0})
  set_details m s =
      let s' = record s {
        fat = record s.fat { start_of_fat_sector = some m.details.fat_offset };
        allocator = record s.allocator {
          bitmap = record s.allocator.bitmap { cluster_count = m.details.cluster_count };
        };
        fs = m.details;
      } in
      mounted_at m s' (get_heap_sector_id m.details m.alloc_bitmap.first_cluster)

  -- `FileSystem::mount`.
  unfoldable pub mount : FsAction (Unit {0})
  mount s =
      let mounting =
        (zoom (λ s. s.dev) (λ io s. record s { dev = io }) read_file_system_metadata
            >>= set_details)
          s in
      if s.is_mounted then (ok tt, s) else mounting

  abbrev pub RunAction : Type 0 → Type 0
  RunAction A = Action (ExFatError d.Error) (Run d.State) A

  abbrev pub on_fs : {A : Type 0} → FsAction A → RunAction A
  on_fs m = zoom (λ r. r.fsys) (λ s r. record r { fsys = s }) m

  abbrev pub in_run : {A : Type 0} → DiskAction d size A → RunAction A
  in_run m = zoom disk_of with_disk m
