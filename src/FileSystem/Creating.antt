-- ===== src/FileSystem/Creating.antt =====
-- src/file_system.rs and src/directory.rs: the search of a path, and making files and directories. A
-- path is the list of its names (`path_to_iter`, `split_path`), a name the list of its UTF-16 units.
-- Nothing bounds the loops over the entries of a directory in the source, so `rounds` is an argument.
-- `fs`, `mapping` and `timestamp` stand for the fields of `FileSystem` and `get_current_timestamp`.
use exfat_slim.Base.{
  ℕ, zero, suc, ◌+◌, ◌-◌, ◌%◌, true, false, Option, none, some, List, [], ◌∷◌, length,
  if◌then◌else◌,
}
use exfat_slim.Timestamp.{EncodedTimestamp}
use exfat_slim.Error.{ExFatError}
use exfat_slim.Action.{pure, fail, out_of_rounds, ◌>>=◌, ◌>>◌}
use exfat_slim.Device.{BlockDevice}
use exfat_slim.BootSector.{FileSystemDetails}
use exfat_slim.OpenOptions.{FileDetails, Location}
use exfat_slim.FreeRun.{longest_run}
use exfat_slim.Allocator.{find_free_clusters, mark_allocated}
use exfat_slim.Name.{encode_utf16_upcase_and_hash, calc_dir_entry_set_len}
use exfat_slim.DirEntry.{FileDirEntry, StreamExtensionDirEntry, serialize_file, serialize_stream}
use exfat_slim.NameEntry.{serialize_name}
use exfat_slim.Chunks.{next_chunk_of}
use exfat_slim.Disk.{DiskAction, on_alloc, flush_touched, no_cluster_id}
use exfat_slim.DirSet.{DirSetWriter, new_writer, add, finish_set}
use exfat_slim.DirChain.{
  DirectoryEntryFilter, exact_name_filter, or_invalid_name, chain_of_cluster, contains,
  next_file_entry,
}
use exfat_slim.FileSystem.EntrySets.{walking, nothing_touched, in_disk, zero_cluster}
use exfat_slim.FileSystem.Removing.{find_empty_dir_entry_set}

-- The entries of a new file or directory.
abbrev pub file_entry_of : (secondary_count file_attributes : ℕ) → EncodedTimestamp → FileDirEntry
file_entry_of secondary_count file_attributes timestamp = record {
  secondary_count = secondary_count;
  set_checksum = 0;
  file_attributes = file_attributes;
  create_timestamp = timestamp.packed;
  last_modified_timestamp = timestamp.packed;
  last_accessed_timestamp = timestamp.packed;
  create_10ms_increment = timestamp.increment_10ms;
  last_modified_10ms_increment = timestamp.increment_10ms;
  create_utc_offset = timestamp.utc_offset;
  last_modified_utc_offset = timestamp.utc_offset;
  last_accessed_utc_offset = timestamp.utc_offset;
}

-- What the entries of a new file or directory say of its data.
pub record NewEntry : Type 0 where
  pub first_cluster : ℕ
  pub file_attributes : ℕ
  pub stream_ext_flags : ℕ
  pub valid_data_length : ℕ
  pub data_length : ℕ

abbrev pub stream_entry_of : NewEntry → (name_length name_hash : ℕ) → StreamExtensionDirEntry
stream_entry_of e name_length name_hash = record {
  general_secondary_flags = e.stream_ext_flags;
  name_length = name_length;
  name_hash = name_hash;
  valid_data_length = e.valid_data_length;
  first_cluster = e.first_cluster;
  data_length = e.data_length;
}

abbrev pub new_details :
    NewEntry → Location → (secondary_count : ℕ) → EncodedTimestamp → FileDetails
new_details e location secondary_count timestamp = record {
  first_cluster = e.first_cluster;
  data_length = e.data_length;
  valid_data_length = e.valid_data_length;
  attributes = e.file_attributes;
  location = location;
  flags = e.stream_ext_flags;
  secondary_count = secondary_count;
  created = timestamp;
  modified = timestamp;
  accessed = timestamp;
}

module _ (d : BlockDevice) (size : ℕ) (fs : FileSystemDetails) (mapping : List ℕ)
    (timestamp : EncodedTimestamp) (rounds : ℕ) where
  -- The loop of `create_file_dir_entry_at` over the chunks of the name.
  abbrev pub name_entry :
      (List ℕ → DirSetWriter → DiskAction d size DirSetWriter)
      → DirSetWriter
      → Option (List ℕ × ℕ) × List ℕ
      → DiskAction d size DirSetWriter
  name_entry rest w (none, left) = pure w
  name_entry rest w (some (chunk, len), left) =
      add d size (serialize_name (record { general_secondary_flags = 0; file_name = chunk })) false
        w
      >>= rest left

  unfoldable pub write_name : (chunks : ℕ) → List ℕ → DirSetWriter → DiskAction d size DirSetWriter
  write_name zero units w = out_of_rounds
  write_name (suc chunks) units w = name_entry (write_name chunks) w (next_chunk_of 15 units)

  -- `create_file_dir_entry_at`.
  unfoldable pub create_file_dir_entry_at :
      (name : List ℕ) (directory_cluster_id : ℕ) → NewEntry → DiskAction d size FileDetails
  create_file_dir_entry_at name directory_cluster_id e =
      in_disk d size fs (or_invalid_name (encode_utf16_upcase_and_hash name mapping) (λ p. p))
      >>= λ (name_hash, file_name_char_count).
          let dir_entry_set_len = calc_dir_entry_set_len file_name_char_count in
          let secondary_count = dir_entry_set_len % 256 - 1 in
          let file_dir =
            serialize_file (file_entry_of secondary_count e.file_attributes timestamp) in
          let stream_ext = stream_entry_of e (file_name_char_count % 256) name_hash in
          find_empty_dir_entry_set d size fs rounds directory_cluster_id dir_entry_set_len
          >>= λ location. add d size file_dir true (new_writer location) >>= λ w.
              add d size (serialize_stream stream_ext) false w >>= λ w.
              write_name (length name + 1) name w >>= λ w.
              finish_set d size file_dir w
              >> pure (new_details e location secondary_count timestamp)

  -- The first entry set of a directory that a filter lets pass. The name is not asked for.
  abbrev pub first_found :
      DirectoryEntryFilter → (cluster_id : ℕ) → DiskAction d size (Option (FileDetails × List ℕ))
  first_found filter cluster_id =
      walking d size fs (chain_of_cluster size cluster_id fs)
        (next_file_entry d size rounds filter mapping none rounds)

  abbrev pub find_named :
      (name : List ℕ)
      → (file_attributes : Option ℕ) → (cluster_id : ℕ)
      → DiskAction d size (Option (FileDetails × List ℕ))
  find_named name file_attributes cluster_id =
      in_disk d size fs (exact_name_filter name mapping file_attributes) >>= λ filter.
      first_found filter cluster_id

  -- The loop of `get_leaf_file_entry`: 0x10 is `FileAttributes::Directory`.
  abbrev pub into_directory :
      (ℕ → DiskAction d size (Option FileDetails))
      → Option (FileDetails × List ℕ)
      → DiskAction d size (Option FileDetails)
  into_directory rest none = pure none
  into_directory rest (some (file_details, _)) =
      if contains file_details.attributes 0x10 then rest file_details.first_cluster else pure none

  abbrev pub details_found : Option (FileDetails × List ℕ) → DiskAction d size (Option FileDetails)
  details_found none = pure none
  details_found (some (file_details, _)) = pure (some file_details)

  unfoldable pub leaf_from :
      List (List ℕ) → Option ℕ → (cluster_id : ℕ) → DiskAction d size (Option FileDetails)
  leaf_from [] file_attributes cluster_id = pure none
  leaf_from (part ∷ []) file_attributes cluster_id =
      find_named part file_attributes cluster_id >>= details_found
  leaf_from (part ∷ next ∷ parts) file_attributes cluster_id =
      find_named part (some 0x10) cluster_id
      >>= into_directory (leaf_from (next ∷ parts) file_attributes)

  -- `get_leaf_file_entry`.
  abbrev pub get_leaf_file_entry : List (List ℕ) → Option ℕ → DiskAction d size (Option FileDetails)
  get_leaf_file_entry path file_attributes =
      leaf_from path file_attributes fs.first_cluster_of_root_dir

  -- `find_file_inner`.
  abbrev pub or_not_found : Option FileDetails → DiskAction d size FileDetails
  or_not_found (some file_details) = pure file_details
  or_not_found none = fail ExFatError.file_not_found

  unfoldable pub find_file_inner : List (List ℕ) → Option ℕ → DiskAction d size FileDetails
  find_file_inner path file_attributes = get_leaf_file_entry path file_attributes >>= or_not_found

  -- The arm of `get_or_create_directory` that makes a directory: 3 is `AllocationPossible` and
  -- `NoFatChain`.
  unfoldable pub make_directory : (dir_name : List ℕ) (cluster_id : ℕ) → DiskAction d size ℕ
  make_directory dir_name cluster_id =
      on_alloc d size (find_free_clusters d size none 1 longest_run) >>= λ run.
      on_alloc d size (mark_allocated d size run true)
      >> zero_cluster d size fs run.first_cluster
      >> create_file_dir_entry_at dir_name cluster_id (record {
        first_cluster = run.first_cluster;
        file_attributes = 0x10;
        stream_ext_flags = 3;
        valid_data_length = fs.cluster_length;
        data_length = fs.cluster_length;
      })
      >>= λ _. pure run.first_cluster

  -- The loop of `get_or_create_directory`.
  abbrev pub found_or_made :
      (dir_name : List ℕ) (cluster_id : ℕ) → Option (FileDetails × List ℕ) → DiskAction d size ℕ
  found_or_made dir_name cluster_id (some (file_details, _)) = pure file_details.first_cluster
  found_or_made dir_name cluster_id none = make_directory dir_name cluster_id

  unfoldable pub directory_from : List (List ℕ) → (cluster_id : ℕ) → DiskAction d size ℕ
  directory_from [] cluster_id = pure cluster_id
  directory_from (dir_name ∷ names) cluster_id =
      find_named dir_name (some 0x10) cluster_id
      >>= found_or_made dir_name cluster_id
      >>= directory_from names

  -- `get_or_create_directory`.
  abbrev pub get_or_create_directory : List (List ℕ) → DiskAction d size ℕ
  get_or_create_directory path = directory_from path fs.first_cluster_of_root_dir

  -- `create_file`, of the directory and the name that `split_path` gives: 0x20 is
  -- `FileAttributes::Archive`.
  unfoldable pub create_file :
      (dir_path : List (List ℕ)) (name : List ℕ) → DiskAction d size FileDetails
  create_file dir_path name =
      nothing_touched d size fs >> get_or_create_directory dir_path >>= λ directory_cluster_id.
      create_file_dir_entry_at name directory_cluster_id (record {
        first_cluster = no_cluster_id;
        file_attributes = 0x20;
        stream_ext_flags = 3;
        valid_data_length = 0;
        data_length = 0;
      })
      >>= λ file_details. flush_touched d size >> pure file_details
