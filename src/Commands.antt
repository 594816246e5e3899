-- ===== src/Commands.antt =====
-- src/file_system.rs and src/directory.rs: the public operations of a file system on paths, and the
-- listing of a directory. A path is the list of its names; of a path to create, `dir_path` and `name`
-- are the parts that `split_path` gives. The state is the file system and the record of touched
-- sectors of the operation.
use exfat_slim.Base.{ℕ, ◌+◌, Bool, true, false, Option, none, some, List, [], ◌∷◌, if◌then◌else◌}
use exfat_slim.Error.{Result, ok, err, stuck, ExFatError, DirectoryEntryError}
use exfat_slim.Action.{pure, fail, ◌>>=◌, ◌>>◌, put_part}
use exfat_slim.Device.{BlockDevice}
use exfat_slim.SlotCache.{flush}
use exfat_slim.Allocator.{flush_alloc}
use exfat_slim.Fat.{flush_fat}
use exfat_slim.OpenOptions.{FileDetails, no_options, set_read, set_write, set_create, set_truncate}
use exfat_slim.Disk.{Disk, DiskAction, on_alloc, on_fat, on_data, flush_touched}
use exfat_slim.DirChain.{
  DirectoryEntryChain, WalkAction, all_pass, chain_of_cluster, contains, next_file_entry,
}
use exfat_slim.FileSystem.{FileSystem, RunAction, mount, on_fs, in_run, get_current_timestamp}
use exfat_slim.FileSystem.EntrySets.{nothing_touched}
use exfat_slim.FileSystem.Removing.{delete_inner, mark_directory_entry_set_unused}
use exfat_slim.FileSystem.Creating.{
  NewEntry, find_file_inner, get_leaf_file_entry, get_or_create_directory, create_file_dir_entry_at,
}
use exfat_slim.File.{File, Opened, FileAction}
use exfat_slim.File.Reading.{read_to_end}
use exfat_slim.File.Writing.{write_file}
use exfat_slim.File.Flushing.{close}
use exfat_slim.File.Opening.{open_file}

abbrev pub PathNames : Type 0
PathNames = List (List ℕ)

module _ (d : BlockDevice) (size : ℕ) (collect : List ℕ → Result DirectoryEntryError (List ℕ))
    (rounds : ℕ) where
  abbrev pub Command : Type 0 → Type 0
  Command A = RunAction d size collect A

  -- An operation on the disk, after `mount`, with what it reads of the file system.
  abbrev pub when_mounted : {A : Type 0} → (FileSystem d.State → DiskAction d size A) → Command A
  when_mounted m =
      on_fs d size collect (mount d size collect) >> λ r. in_run d size collect (m r.fsys) r

  abbrev pub find : PathNames → Option ℕ → FileSystem d.State → DiskAction d size FileDetails
  find path file_attributes s =
      find_file_inner d size s.fs s.upcase_table (get_current_timestamp s) rounds path
        file_attributes

  -- `exists`.
  abbrev pub or_absent :
      {S : Type 0}
      → Result (ExFatError d.Error) FileDetails × S
      → Result (ExFatError d.Error) Bool × S
  or_absent (ok file, s) = (ok true, s)
  or_absent (err ExFatError.file_not_found, s) = (ok false, s)
  or_absent (err ExFatError.directory_not_found, s) = (ok false, s)
  or_absent (err e, s) = (err e, s)
  or_absent (stuck, s) = (stuck, s)

  unfoldable pub exists : PathNames → Command Bool
  exists path = when_mounted (λ s disk. or_absent (find path none s disk))

  -- `remove_file` and `remove_dir`: 0x20 is `FileAttributes::Archive`, 0x10 `FileAttributes::Directory`.
  unfoldable pub remove_file : PathNames → Command (Unit {0})
  remove_file path = when_mounted (λ s. find path (some 0x20) s >>= delete_inner d size s.fs rounds)

  unfoldable pub remove_dir : PathNames → Command (Unit {0})
  remove_dir path = when_mounted (λ s. find path (some 0x10) s >>= delete_inner d size s.fs rounds)

  abbrev pub directory_of : PathNames → FileSystem d.State → DiskAction d size ℕ
  directory_of dir_path s =
      get_or_create_directory d size s.fs s.upcase_table (get_current_timestamp s) rounds dir_path

  -- `create_directory`.
  unfoldable pub create_directory : PathNames → Command (Unit {0})
  create_directory path =
      when_mounted
        (λ s. nothing_touched d size s.fs >> directory_of path s >>= λ _. flush_touched d size)

  -- `rename`: any error of the second search lets it go on.
  abbrev pub unless_there :
      DiskAction d size (Unit {0})
      → Result (ExFatError d.Error) FileDetails × Disk d.State
      → Result (ExFatError d.Error) (Unit {0}) × Disk d.State
  unless_there rest (ok file, disk) = (err ExFatError.already_exists, disk)
  unless_there rest (err e, disk) = rest disk
  unless_there rest (stuck, disk) = (stuck, disk)

  abbrev pub same_data : FileDetails → NewEntry
  same_data file_details = record {
    first_cluster = file_details.first_cluster;
    file_attributes = file_details.attributes;
    stream_ext_flags = file_details.flags;
    valid_data_length = file_details.valid_data_length;
    data_length = file_details.data_length;
  }

  unfoldable pub rename :
      (from_path to_path dir_path : PathNames) (name : List ℕ) → Command (Unit {0})
  rename from_path to_path dir_path name = when_mounted (λ s.
      find from_path none s >>= λ file_details. λ disk.
        unless_there
          (nothing_touched d size s.fs >> directory_of dir_path s >>= λ directory_cluster_id.
            create_file_dir_entry_at d size s.fs s.upcase_table (get_current_timestamp s) rounds
              name directory_cluster_id (same_data file_details)
            >>= λ _.
                mark_directory_entry_set_unused d size s.fs (file_details.secondary_count + 1)
                  file_details.location
                >> flush_touched d size)
          (find to_path none s disk))

  -- An operation on an open file.
  abbrev pub on_file : {A : Type 0} → FileAction d size collect A → File → Command A
  on_file m f r =
      put_part (λ (o : Opened d.State). record r { fsys = o.fsys })
        (m (record { file = f; fsys = r.fsys }))

  -- `read` and `write`, which open the file anew.
  unfoldable pub read_path : (path dir_path : PathNames) (name : List ℕ) → Command (List ℕ)
  read_path path dir_path name =
      on_fs d size collect (mount d size collect)
      >> open_file d size collect rounds path dir_path name (set_read true no_options)
      >>= on_file (read_to_end d size collect >>= λ buf. close d size collect >> pure buf)

  unfoldable pub write_path :
      (path dir_path : PathNames) (name contents : List ℕ) → Command (Unit {0})
  write_path path dir_path name contents =
      on_fs d size collect (mount d size collect)
      >> open_file d size collect rounds path dir_path name
          (set_write true (set_truncate true (set_create true no_options)))
      >>= on_file (write_file d size collect contents >> close d size collect)

  -- `directory_list`, behind `mount` in `read_dir`: the chain of the entries.
  abbrev pub or_no_directory : Option FileDetails → DiskAction d size ℕ
  or_no_directory none = fail ExFatError.directory_not_found
  or_no_directory (some file_details) =
      if contains file_details.attributes 0x10
      then pure file_details.first_cluster
      else fail ExFatError.directory_not_found

  abbrev pub cluster_of_path : PathNames → FileSystem d.State → DiskAction d size ℕ
  cluster_of_path [] s = pure s.fs.first_cluster_of_root_dir
  cluster_of_path (part ∷ path) s =
      get_leaf_file_entry d size s.fs s.upcase_table (get_current_timestamp s) rounds (part ∷ path)
        (some 0x10)
      >>= or_no_directory

  unfoldable pub read_dir : PathNames → Command DirectoryEntryChain
  read_dir path =
      when_mounted
        (λ s. cluster_of_path path s >>= λ cluster_id. pure (chain_of_cluster size cluster_id s.fs))

  -- `DirectoryIterator::next_entry`, with a buffer of `room` bytes for the name. The bytes are those of
  -- a decoded name, so `from_utf8` takes them.
  unfoldable pub next_entry :
      (mapping : List ℕ) (room : ℕ) → WalkAction d size (Option (FileDetails × List ℕ))
  next_entry mapping room = next_file_entry d size rounds all_pass mapping (some room) rounds

  -- `flush`, of all caches.
  unfoldable pub flush_caches : Command (Unit {0})
  flush_caches = in_run d size collect (
      on_fat d size (flush_fat d size)
      >> on_alloc d size (flush_alloc d size)
      >> on_data d size (flush d))
