-- ===== src/File/Opening.antt =====
-- src/file_system.rs: `open`. A path is the list of its names: `dir_path` and `name` are the parts
-- that `split_path` gives, `path` is all of them.
use exfat_slim.Base.{ℕ, ◌+◌, ◌-◌, ◌||◌, some, List, if◌then◌else◌}
use exfat_slim.Error.{Result, ok, err, stuck, ExFatError, DirectoryEntryError}
use exfat_slim.Action.{◌>>=◌, ◌>>◌}
use exfat_slim.Device.{BlockDevice}
use exfat_slim.Allocator.{StoredChain}
use exfat_slim.OpenOptions.{OpenOptions, FileDetails}
use exfat_slim.Disk.{DiskAction}
use exfat_slim.FileSystem.{FileSystem, Run, RunAction, mount, on_fs, in_run, get_current_timestamp}
use exfat_slim.FileSystem.Chains.{get_stored_chain}
use exfat_slim.FileSystem.EntrySets.{truncate_file}
use exfat_slim.FileSystem.Creating.{find_file_inner, create_file}
use exfat_slim.File.{File, new_file}

-- The cluster at which an opened file starts: the last one for `append`.
abbrev pub last_of_chain : StoredChain → FileDetails → ℕ
last_of_chain StoredChain.empty file_details = file_details.first_cluster
last_of_chain (StoredChain.contiguous first cluster_count) file_details = first + cluster_count - 1
last_of_chain (StoredChain.fat first last cluster_count) file_details = last

abbrev pub first_cluster_for : OpenOptions → StoredChain → FileDetails → ℕ
first_cluster_for options chain file_details =
    if options.append then last_of_chain chain file_details else file_details.first_cluster

module _ (d : BlockDevice) (size : ℕ) (collect : List ℕ → Result DirectoryEntryError (List ℕ))
    (rounds : ℕ) where
  abbrev pub Acts : Type 0 → Type 0
  Acts A = RunAction d size collect A

  abbrev pub on_disk_for : {A : Type 0} → (FileSystem d.State → DiskAction d size A) → Acts A
  on_disk_for m r = in_run d size collect (m r.fsys) r

  -- An existing file.
  abbrev pub existing : OpenOptions → FileDetails → Acts FileDetails
  existing options file_details r =
      let truncated = on_disk_for (λ s. truncate_file d size s.fs file_details) r in
      if options.create_new
      then (err ExFatError.already_exists, r)
      else if options.truncate
      then truncated
      else (ok file_details, r)

  -- A file that is not there.
  abbrev pub missing : OpenOptions → (dir_path : List (List ℕ)) (name : List ℕ) → Acts FileDetails
  missing options dir_path name r =
      let created =
        on_disk_for
          (λ s.
            create_file d size s.fs s.upcase_table (get_current_timestamp s) rounds dir_path name)
          r in
      if options.create || options.create_new then created else (err ExFatError.file_not_found, r)

  abbrev pub details_for :
      OpenOptions
      → (dir_path : List (List ℕ)) (name : List ℕ)
      → Result (ExFatError d.Error) FileDetails × Run d.State
      → Result (ExFatError d.Error) FileDetails × Run d.State
  details_for options dir_path name (ok file_details, r) = existing options file_details r
  details_for options dir_path name (err ExFatError.file_not_found, r) =
      missing options dir_path name r
  details_for options dir_path name (err e, r) = (err e, r)
  details_for options dir_path name (stuck, r) = (stuck, r)

  -- `open`: 0x20 is `FileAttributes::Archive`.
  unfoldable pub open_file :
      (path dir_path : List (List ℕ)) (name : List ℕ) → OpenOptions → Acts File
  open_file path dir_path name options =
      on_fs d size collect (mount d size collect)
      >> (λ r. details_for options dir_path name (
          on_disk_for
            (λ s.
              find_file_inner d size s.fs s.upcase_table (get_current_timestamp s) rounds path
                (some 0x20))
            r))
      >>= λ file_details. on_disk_for (λ s. get_stored_chain d size s.fs file_details) >>= λ chain.
          λ r. (
            ok (
                new_file file_details (first_cluster_for options chain file_details)
                  r.fsys.fs.cluster_length options chain),
            r,
          )
