-- ===== src/FileSystem/Removing.antt =====
-- src/file_system.rs: removing a file or a directory, and the search for room for an entry set.
-- Nothing bounds the loops over the entries of a directory in the source, so their rounds are an
-- argument. `fs` is the field of `FileSystem`.
use exfat_slim.Base.{
  ℕ, zero, suc, ◌+◌, ◌*◌, ◌/◌, Option, none, some, List, set, bit_and, ◌==◌, if◌then◌else◌,
}
use exfat_slim.Word.{byte_at}
use exfat_slim.Error.{ok, ExFatError}
use exfat_slim.Action.{pure, fail, out_of_rounds, ◌>>=◌, ◌>>◌}
use exfat_slim.Device.{Block, BlockDevice}
use exfat_slim.SlotCache.{update}
use exfat_slim.BootSector.{FileSystemDetails}
use exfat_slim.OpenOptions.{FileDetails, Location}
use exfat_slim.DirEntry.{raw_entry_len, EntryType, entry_type_of}
use exfat_slim.NameEntry.{is_end_of_directory}
use exfat_slim.Disk.{DiskAction, on_data, free, flush_touched}
use exfat_slim.DirSet.{touch_dir}
use exfat_slim.DirChain.{WalkAction, chain_of_cluster, contains, next}
use exfat_slim.FileSystem.Chains.{get_stored_chain}
use exfat_slim.FileSystem.EntrySets.{walking, nothing_touched}

-- `slice[index] &= 0x7F`.
abbrev pub clear_in_use : ℕ → Block → Block
clear_in_use index slot = set slot index (bit_and (byte_at slot index) 0x7F)

-- The place of an entry, on the next sector if it is behind the last of one.
abbrev pub wrapped : (size : ℕ) → Location → Location
wrapped size location =
    if location.dir_entry_offset == size / raw_entry_len
    then record { sector_id = location.sector_id + 1; dir_entry_offset = 0 }
    else location

module _ (d : BlockDevice) (size : ℕ) (fs : FileSystemDetails) where
  -- `mark_directory_entry_set_unused`.
  unfoldable pub mark_directory_entry_set_unused :
      (num_entries : ℕ) → Location → DiskAction d size (Unit {0})
  mark_directory_entry_set_unused zero location = pure tt
  mark_directory_entry_set_unused (suc num_entries) location =
      let at = wrapped size location in
      on_data d size (update d at.sector_id (clear_in_use (at.dir_entry_offset * raw_entry_len)))
      >> touch_dir d size at.sector_id
      >> mark_directory_entry_set_unused num_entries
          (record at { dir_entry_offset = at.dir_entry_offset + 1 })

  -- The loop of `confirm_has_no_children`.
  abbrev pub empty_at :
      EntryType → List ℕ → WalkAction d size (Unit {0}) → WalkAction d size (Unit {0})
  empty_at EntryType.end_of_directory dir_entry rest =
      if is_end_of_directory dir_entry then pure tt else rest
  empty_at (EntryType.unused x) dir_entry rest = rest
  empty_at other dir_entry rest = fail ExFatError.directory_not_empty

  abbrev pub child_or_next :
      WalkAction d size (Unit {0}) → Option (List ℕ × Location) → WalkAction d size (Unit {0})
  child_or_next rest none = pure tt
  child_or_next rest (some (dir_entry, location)) =
      empty_at (entry_type_of (byte_at dir_entry 0)) dir_entry rest

  unfoldable pub no_children : ℕ → WalkAction d size (Unit {0})
  no_children zero = out_of_rounds
  no_children (suc rounds) = next d size >>= child_or_next (no_children rounds)

  -- `confirm_has_no_children`: 0x10 is `FileAttributes::Directory`.
  unfoldable pub confirm_has_no_children : (rounds : ℕ) → FileDetails → DiskAction d size (Unit {0})
  confirm_has_no_children rounds file_details s =
      let walked =
        walking d size fs (chain_of_cluster size file_details.first_cluster fs) (no_children rounds)
          s in
      if contains file_details.attributes 0x10 then walked else (ok tt, s)

  -- `delete_inner`.
  unfoldable pub delete_inner : (rounds : ℕ) → FileDetails → DiskAction d size (Unit {0})
  delete_inner rounds file_details =
      confirm_has_no_children rounds file_details
      >> nothing_touched d size fs
      >> get_stored_chain d size fs file_details
      >>= λ chain.
          free d size chain
          >> mark_directory_entry_set_unused (file_details.secondary_count + 1)
              file_details.location
          >> flush_touched d size

  -- The loop of `find_empty_dir_entry_set`: the start of a run of free entries and its length.
  abbrev pub or_this : Option Location → Location → Option Location
  or_this none location = some location
  or_this (some start) location = some start

  abbrev pub count_free :
      (dir_entry_set_len counter : ℕ)
      → Option Location
      → (ℕ → Option Location → WalkAction d size (Option Location))
      → WalkAction d size (Option Location)
  count_free dir_entry_set_len counter start rest w =
      let further = rest (counter + 1) start w in
      if counter + 1 == dir_entry_set_len then (ok start, w) else further

  abbrev pub free_at :
      (dir_entry_set_len counter : ℕ)
      → Option Location
      → Location
      → EntryType
      → (ℕ → Option Location → WalkAction d size (Option Location))
      → WalkAction d size (Option Location)
  free_at len counter start location EntryType.end_of_directory rest =
      count_free len counter (or_this start location) rest
  free_at len counter start location (EntryType.unused x) rest =
      count_free len counter (or_this start location) rest
  free_at len counter start location other rest = rest 0 none

  abbrev pub run_or_next :
      (dir_entry_set_len counter : ℕ)
      → Option Location
      → (ℕ → Option Location → WalkAction d size (Option Location))
      → Option (List ℕ × Location)
      → WalkAction d size (Option Location)
  run_or_next len counter start rest none = pure start
  run_or_next len counter start rest (some (entry, location)) =
      free_at len counter start location (entry_type_of (byte_at entry 0)) rest

  unfoldable pub find_run :
      (dir_entry_set_len rounds counter : ℕ) → Option Location → WalkAction d size (Option Location)
  find_run len zero counter start = out_of_rounds
  find_run len (suc rounds) counter start =
      next d size >>= run_or_next len counter start (find_run len rounds)

  -- `find_empty_dir_entry_set`.
  abbrev pub or_directory_full : Option Location → DiskAction d size Location
  or_directory_full (some location) = pure location
  or_directory_full none = fail ExFatError.directory_full

  unfoldable pub find_empty_dir_entry_set :
      (rounds cluster_id dir_entry_set_len : ℕ) → DiskAction d size Location
  find_empty_dir_entry_set rounds cluster_id dir_entry_set_len =
      walking d size fs (chain_of_cluster size cluster_id fs)
        (find_run dir_entry_set_len rounds 0 none)
      >>= or_directory_full
