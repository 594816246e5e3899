-- ===== src/File/Flushing.antt =====
-- src/file.rs: `flush`, which writes the entry set of a file again and then all touched sectors.
use exfat_slim.Base.{ℕ, zero, suc, true, false, none, some, List, if◌then◌else◌}
use exfat_slim.Timestamp.{EncodedTimestamp}
use exfat_slim.Error.{Result, ok, DirectoryEntryError}
use exfat_slim.Action.{pure, ◌>>=◌, ◌>>◌}
use exfat_slim.Device.{BlockDevice}
use exfat_slim.Allocator.{StoredChain}
use exfat_slim.DirEntry.{
  FileDirEntry, StreamExtensionDirEntry, parse_file, serialize_file, parse_stream, serialize_stream,
}
use exfat_slim.Disk.{flush_touched, no_cluster_id}
use exfat_slim.DirSet.{add, add_no_write}
use exfat_slim.FileSystem.{get_current_timestamp}
use exfat_slim.FileSystem.EntrySets.{Visit, rewrite_set}
use exfat_slim.File.{File, Opened, FileAction, on_disk_of}

-- The file entry with the time of the change.
abbrev pub touched_file : EncodedTimestamp → FileDirEntry → FileDirEntry
touched_file timestamp e = record e {
  last_modified_timestamp = timestamp.packed;
  last_modified_10ms_increment = timestamp.increment_10ms;
  last_modified_utc_offset = timestamp.utc_offset;
  last_accessed_timestamp = timestamp.packed;
  last_accessed_utc_offset = timestamp.utc_offset;
}

abbrev pub first_cluster_of_chain : StoredChain → ℕ
first_cluster_of_chain StoredChain.empty = no_cluster_id
first_cluster_of_chain (StoredChain.contiguous first cluster_count) = first
first_cluster_of_chain (StoredChain.fat first last cluster_count) = first

-- The stream extension with the chain and the lengths of the file.
abbrev pub touched_stream : File → StreamExtensionDirEntry → StreamExtensionDirEntry
touched_stream f stream_ext = record stream_ext {
  first_cluster = first_cluster_of_chain f.chain;
  data_length = f.details.data_length;
  valid_data_length = f.details.valid_data_length;
  general_secondary_flags = f.details.flags;
}

module _ (d : BlockDevice) (size : ℕ) (collect : List ℕ → Result DirectoryEntryError (List ℕ)) where
  -- The loop of `flush` over the entries of the set.
  abbrev pub flush_entry : (o : Opened d.State) → Visit d size o.fsys.fs
  flush_entry o zero dir_entry w =
      let raw =
        serialize_file (touched_file (get_current_timestamp o.fsys) (parse_file dir_entry)) in
      add d size raw true w >>= λ w'. pure (some raw, w')
  flush_entry o (suc zero) dir_entry w =
      add d size (serialize_stream (touched_stream o.file (parse_stream dir_entry))) false w
      >>= λ w'. pure (none, w')
  flush_entry o (suc (suc counter)) dir_entry w = pure (none, add_no_write size dir_entry false w)

  -- The part of `flush` for a file whose entries have to change.
  abbrev pub flush_entries : FileAction d size collect (Unit {0})
  flush_entries o =
      let rewritten =
        on_disk_of d size collect (rewrite_set d size o.fsys.fs (flush_entry o) o.file.details) o in
      if o.file.touched.is_dir_entry_dirty then rewritten else (ok tt, o)

  -- `File::flush`.
  unfoldable pub flush_file : FileAction d size collect (Unit {0})
  flush_file = flush_entries >> on_disk_of d size collect (flush_touched d size)

  -- `File::close`, after which the file is gone.
  abbrev pub close : FileAction d size collect (Unit {0})
  close = flush_file
