-- ===== src/FileSystem/EntrySets.antt =====
-- src/file_system.rs: reading the entries of a directory to its end, and writing the entry set of a
-- file again. `fs` is the field of `FileSystem`.
use exfat_slim.Base.{
  ℕ, zero, suc, ◌+◌, min, true, false, Option, none, some, List, replicate, length,
}
use exfat_slim.Error.{Result, ExFatError}
use exfat_slim.Action.{pure, out_of_rounds, ◌>>=◌, ◌>>◌, put_part, modify}
use exfat_slim.Device.{Block, BlockDevice}
use exfat_slim.SlotCache.{update}
use exfat_slim.Touched.{no_touched}
use exfat_slim.BootSector.{FileSystemDetails, get_heap_sector_id}
use exfat_slim.OpenOptions.{FileDetails, Location}
use exfat_slim.DirEntry.{StreamExtensionDirEntry, parse_stream, serialize_stream}
use exfat_slim.Disk.{Disk, DiskAction, on_data, free, flush_touched, no_cluster_id}
use exfat_slim.DirSet.{DirSetWriter, new_writer, add, add_no_write, finish_set, touch_dir}
use exfat_slim.DirChain.{DirectoryEntryChain, Walk, WalkAction, chain_of_details, on_disk, next}
use exfat_slim.FileSystem.Chains.{get_stored_chain}

module _ (d : BlockDevice) (size : ℕ) (fs : FileSystemDetails) where
  -- An operation on a new `DirectoryEntryChain`.
  abbrev pub walking :
      {A : Type 0} → DirectoryEntryChain → WalkAction d size A → DiskAction d size A
  walking chain m s =
      put_part (λ (w : Walk d.State). w.disk) (m (record { chain = chain; disk = s }))

  -- `FileDirty::new()`: the touched sectors of the state are those of the operation.
  abbrev pub nothing_touched : DiskAction d size (Unit {0})
  nothing_touched = modify (λ (s : Disk d.State). record s { touched = no_touched })

  -- What is done with the entry of that number in a set: the file entry for later, if it is that,
  -- and the writer.
  abbrev pub Visit : Type 0
  Visit = ℕ → List ℕ → DirSetWriter → DiskAction d size (Option (List ℕ) × DirSetWriter)

  -- The loop over the entries of a set. The chain has the number of entries, one round less than is
  -- given.
  abbrev pub kept : Option (List ℕ) → Option (List ℕ) → Option (List ℕ)
  kept none old = old
  kept (some new) old = some new

  abbrev pub visit_entry :
      Visit
      → (Option (List ℕ) → DirSetWriter → WalkAction d size (Option (List ℕ) × DirSetWriter))
      → (count : ℕ) → Option (List ℕ)
      → DirSetWriter
      → Option (List ℕ × Location)
      → WalkAction d size (Option (List ℕ) × DirSetWriter)
  visit_entry visit rest count file_dir w none = pure (file_dir, w)
  visit_entry visit rest count file_dir w (some (dir_entry, location)) =
      on_disk d size (visit count dir_entry w) >>= λ (found, w'). rest (kept found file_dir) w'

  unfoldable pub visit_entries :
      Visit
      → (rounds count : ℕ) → Option (List ℕ)
      → DirSetWriter
      → WalkAction d size (Option (List ℕ) × DirSetWriter)
  visit_entries visit zero count file_dir w = out_of_rounds
  visit_entries visit (suc rounds) count file_dir w =
      next d size >>= visit_entry visit (visit_entries visit rounds (suc count)) count file_dir w

  -- The end of the writing of a set.
  abbrev pub finish_found : Option (List ℕ) × DirSetWriter → DiskAction d size (Unit {0})
  finish_found (none, w) = pure tt
  finish_found (some file_dir, w) = finish_set d size file_dir w

  unfoldable pub rewrite_set : Visit → FileDetails → DiskAction d size (Unit {0})
  rewrite_set visit file_details =
      walking (chain_of_details size file_details fs) (
        visit_entries visit (file_details.secondary_count + 2) 0 none
          (new_writer file_details.location))
      >>= finish_found

  -- `truncate_file` to length 0, the only one that the source implements: the entries of the set.
  abbrev pub truncated_stream : FileDetails → StreamExtensionDirEntry → StreamExtensionDirEntry
  truncated_stream file_details stream_ext = record stream_ext {
    data_length = file_details.data_length;
    valid_data_length = file_details.valid_data_length;
    first_cluster = file_details.first_cluster;
  }

  abbrev pub truncate_entry : FileDetails → Visit
  truncate_entry file_details zero dir_entry w =
      pure (some dir_entry, add_no_write size dir_entry true w)
  truncate_entry file_details (suc zero) dir_entry w =
      add d size (serialize_stream (truncated_stream file_details (parse_stream dir_entry))) false w
      >>= λ w'. pure (none, w')
  truncate_entry file_details (suc (suc count)) dir_entry w =
      pure (none, add_no_write size dir_entry false w)

  -- `truncate_file`, which returns the new details.
  unfoldable pub truncate_file : FileDetails → DiskAction d size FileDetails
  truncate_file file_details =
      let emptied = record file_details {
        data_length = 0;
        valid_data_length = min file_details.valid_data_length 0;
        first_cluster = no_cluster_id;
      } in
      nothing_touched >> get_stored_chain d size fs file_details >>= λ stored_chain.
      rewrite_set (truncate_entry emptied) emptied
      >> free d size stored_chain
      >> flush_touched d size
      >> pure emptied

  -- The loop of `zero_cluster`.
  unfoldable pub zero_sectors : (count sector_id : ℕ) → DiskAction d size (Unit {0})
  zero_sectors zero sector_id = pure tt
  zero_sectors (suc count) sector_id =
      on_data d size (update d sector_id (λ (slot : Block). replicate (length slot) 0))
      >> touch_dir d size sector_id
      >> zero_sectors count (suc sector_id)

  abbrev pub in_disk : {A : Type 0} → Result (ExFatError d.Error) A → DiskAction d size A
  in_disk r s = (r, s)

  -- `zero_cluster`.
  unfoldable pub zero_cluster : ℕ → DiskAction d size (Unit {0})
  zero_cluster cluster_id = in_disk (get_heap_sector_id fs cluster_id) >>= λ first_sector.
      zero_sectors fs.sectors_per_cluster first_sector
