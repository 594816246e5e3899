-- ===== src/File.antt =====
-- src/file.rs: an open file. `self` and the file system that is handed to its operations are the state
-- `Opened`. `current_cluster` is the cluster that the cursor stands in, or has just left: then no
-- bytes remain in it. The remaining bytes wrap round as in a release build.
pub mod Reading
pub mod Flushing
pub mod Opening
pub mod Writing
pub mod Linking
pub mod Position
pub mod Seeking
mod Tests
use exfat_slim.Base.{
  ℕ, zero, suc, ◌+◌, ◌-◌, ◌*◌, ◌/◌, ◌%◌, ◌^◌, min, Bool, true, false, ◌&&◌, ◌||◌, not, Option, none,
  some, List, [], ◌∷◌, ◌++◌, take, drop, length, replicate, bit_and, leb, ltb, ◌==◌, if◌then◌else◌,
}
use exfat_slim.Word.{u32, div_ceil}
use exfat_slim.Error.{Result, ok, err, stuck, ExFatError, DirectoryEntryError}
use exfat_slim.Action.{Action, pure, fail, out_of_rounds, ◌>>=◌, ◌>>◌, modify, gets, zoom, and_then}
use exfat_slim.Device.{BlockDevice}
use exfat_slim.Touched.{FileDirty, no_touched}
use exfat_slim.OpenOptions.{OpenOptions, FileDetails}
use exfat_slim.BootSector.{get_heap_sector_id}
use exfat_slim.FreeRun.{AllocatedRun}
use exfat_slim.Allocator.{StoredChain}
use exfat_slim.Fat.{next_cluster_in_fat_chain}
use exfat_slim.Disk.{DiskAction, on_fat, no_cluster_id}
use exfat_slim.FileSystem.{FileSystem, Run, RunAction, mount, on_fs, in_run}

pub record File : Type 0 where
  pub details : FileDetails
  pub current_cluster : ℕ
  pub remaining_bytes_in_cluster : ℕ
  pub cursor : ℕ
  pub open_options : OpenOptions
  pub chain : StoredChain
  pub touched : FileDirty

-- `File::new`.
abbrev pub first_remaining : StoredChain → (cluster_length cursor : ℕ) → ℕ
first_remaining StoredChain.empty cluster_length cursor = 0
first_remaining (StoredChain.contiguous first count) cluster_length cursor =
    cluster_length - cursor % cluster_length
first_remaining (StoredChain.fat first last count) cluster_length cursor =
    cluster_length - cursor % cluster_length

unfoldable pub new_file :
    FileDetails → (cluster_id cluster_length : ℕ) → OpenOptions → StoredChain → File
new_file file_details cluster_id cluster_length open_options chain =
    let cursor = if open_options.append then file_details.valid_data_length else 0 in
    record {
      details = file_details;
      current_cluster = cluster_id;
      remaining_bytes_in_cluster = first_remaining chain cluster_length cursor;
      cursor = cursor;
      open_options = open_options;
      chain = chain;
      touched = no_touched;
    }

-- `eof`.
abbrev pub eof : File → Bool
eof f = leb f.details.data_length f.cursor

-- `move_file_cursor`.
unfoldable pub move_file_cursor : ℕ → File → File
move_file_cursor num_bytes f = record f {
  cursor = f.cursor + num_bytes;
  remaining_bytes_in_cluster = u32 (f.remaining_bytes_in_cluster + 2 ^ 32 - u32 num_bytes);
}

-- `update_data_length`.
abbrev pub max_of : ℕ → ℕ → ℕ
max_of a b = if ltb a b then b else a

unfoldable pub update_data_length : ℕ → File → File
update_data_length num_bytes f =
    let valid_data_length = max_of (f.cursor + num_bytes) f.details.valid_data_length in
    record f {
      details = record f.details {
        data_length = max_of valid_data_length f.details.data_length;
        valid_data_length = valid_data_length;
      };
      touched = record f.touched { is_dir_entry_dirty = true };
    }

-- `GeneralSecondaryFlags::NoFatChain`, and `flags.contains(..)`, `flags.set(.., false)` on it.
abbrev pub has_no_fat_chain : ℕ → Bool
has_no_fat_chain flags = bit_and flags 2 == 2

abbrev pub without_no_fat_chain : ℕ → ℕ
without_no_fat_chain flags = bit_and flags 0xFD

pub record Opened (D : Type 0) : Type 0 where
  pub file : File
  pub fsys : FileSystem D

abbrev pub run_of : {D : Type 0} → Opened D → Run D
run_of o = record { fsys = o.fsys; touched = o.file.touched }

abbrev pub with_run : {D : Type 0} → Run D → Opened D → Opened D
with_run r o = record { file = record o.file { touched = r.touched }; fsys = r.fsys }

-- `get_cluster_offset`, and the length of a cluster.
abbrev pub cluster_length_of : {D : Type 0} → Opened D → ℕ
cluster_length_of o = o.fsys.fs.cluster_length

abbrev pub get_cluster_offset : {D : Type 0} → Opened D → ℕ
get_cluster_offset o = u32 (o.file.cursor % cluster_length_of o)

-- `num_clusters`.
abbrev pub num_clusters : {D : Type 0} → Opened D → ℕ
num_clusters o = u32 (div_ceil o.file.details.data_length (cluster_length_of o))

module _ (d : BlockDevice) (size : ℕ) (collect : List ℕ → Result DirectoryEntryError (List ℕ)) where
  abbrev pub FileAction : Type 0 → Type 0
  FileAction A = Action (ExFatError d.Error) (Opened d.State) A

  abbrev pub on_run : {A : Type 0} → RunAction d size collect A → FileAction A
  on_run m = zoom run_of with_run m

  abbrev pub on_disk_of : {A : Type 0} → DiskAction d size A → FileAction A
  on_disk_of m = on_run (in_run d size collect m)

  abbrev pub change_file : (File → File) → FileAction (Unit {0})
  change_file f = modify (λ o. record o { file = f o.file })

  abbrev pub try_result : {A : Type 0} → Result (ExFatError d.Error) A → FileAction A
  try_result r o = (r, o)

  -- `fs.mount()`.
  abbrev pub mounted : FileAction (Unit {0})
  mounted = on_run (on_fs d size collect (mount d size collect))

  -- The end of `next_cursor_id`, where the table is asked.
  abbrev pub or_end_of_chain : Option ℕ → FileAction ℕ
  or_end_of_chain (some cluster_id) = pure cluster_id
  or_end_of_chain none = fail ExFatError.end_of_fat_chain

  -- `next_cursor_id`.
  abbrev pub next_in_chain : StoredChain → (current_cluster : ℕ) → FileAction ℕ
  next_in_chain StoredChain.empty current_cluster o = (err ExFatError.end_of_fat_chain, o)
  next_in_chain (StoredChain.contiguous first cluster_count) current_cluster o =
      let cursor_id = current_cluster + 1 in
      if leb first cursor_id && ltb cursor_id (first + cluster_count)
      then (ok cursor_id, o)
      else (err ExFatError.end_of_fat_chain, o)
  next_in_chain (StoredChain.fat first last cluster_count) current_cluster o =
      (on_disk_of (on_fat d size (next_cluster_in_fat_chain d size current_cluster))
          >>= or_end_of_chain)
        o

  abbrev pub next_cursor_id : FileAction ℕ
  next_cursor_id o = next_in_chain o.file.chain o.file.current_cluster o

  -- `next_cluster_if_required`.
  unfoldable pub next_cluster_if_required : FileAction (Unit {0})
  next_cluster_if_required o =
      let step =
        (next_cursor_id >>= λ cluster_id. modify (λ (o : Opened d.State). record o {
          file = record o.file {
            current_cluster = cluster_id;
            remaining_bytes_in_cluster = cluster_length_of o;
          };
        }))
          o in
      if o.file.remaining_bytes_in_cluster == 0 then step else (ok tt, o)

  -- `get_current_sector_id`.
  unfoldable pub current_sector_id : FileAction ℕ
  current_sector_id o =
      (try_result (get_heap_sector_id o.fsys.fs o.file.current_cluster) >>= λ start_sector_id.
      pure (start_sector_id + u32 (o.file.cursor % cluster_length_of o) / size))
        o

  -- `update_remaining_bytes_in_cluster`.
  abbrev pub update_remaining : FileAction (Unit {0})
  update_remaining = modify (λ (o : Opened d.State). record o {
    file = record o.file {
      remaining_bytes_in_cluster = cluster_length_of o - u32 (o.file.cursor % cluster_length_of o);
    };
  })

  -- The loop of `seek` over the links of the table.
  abbrev pub step_from : (ℕ → FileAction ℕ) → Option ℕ → FileAction ℕ
  step_from rest (some cluster_id) = rest cluster_id
  step_from rest none = fail ExFatError.end_of_fat_chain

  unfoldable pub follow : (count cluster_id : ℕ) → FileAction ℕ
  follow zero cluster_id = pure cluster_id
  follow (suc count) cluster_id =
      on_disk_of (on_fat d size (next_cluster_in_fat_chain d size cluster_id))
      >>= step_from (follow count)

  abbrev pub set_cluster : ℕ → FileAction (Unit {0})
  set_cluster cluster_id = change_file (λ f. record f { current_cluster = cluster_id })

  -- `seek`: its `match` on the chain, after the cursor has been set.
  abbrev pub seek_in : StoredChain → (num_clusters : ℕ) → FileAction (Unit {0})
  seek_in StoredChain.empty num_clusters =
      change_file (λ f. record f {
        current_cluster = f.details.first_cluster;
        remaining_bytes_in_cluster = 0;
      })
  seek_in (StoredChain.contiguous first cluster_count) num_clusters =
      set_cluster (first + num_clusters) >> update_remaining
  seek_in (StoredChain.fat first last cluster_count) num_clusters =
      follow num_clusters first >>= λ cluster_id. set_cluster cluster_id >> update_remaining

  unfoldable pub seek : ℕ → FileAction (Unit {0})
  seek cursor = mounted >> λ o.
      let moved = record o { file = record o.file { cursor = cursor } } in
      let placed = seek_in o.file.chain (u32 (cursor / cluster_length_of o)) moved in
      if ltb o.file.details.valid_data_length cursor
      then (err ExFatError.seek_out_of_range, o)
      else placed
