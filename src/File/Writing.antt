-- ===== src/File/Writing.antt =====
-- src/file.rs: growing the chain of a file, and `write`.
use exfat_slim.Base.{
  ℕ, zero, suc, ◌+◌, ◌-◌, ◌*◌, ◌/◌, ◌%◌, min, Bool, true, false, ◌&&◌, ◌||◌, not, Option, none,
  some, List, [], ◌∷◌, take, drop, length, ltb, ◌==◌, if◌then◌else◌,
}
use exfat_slim.Word.{u32, div_ceil, copy_at}
use exfat_slim.Error.{Result, ok, err, stuck, ExFatError, DirectoryEntryError}
use exfat_slim.Action.{pure, ◌>>=◌, ◌>>◌, modify}
use exfat_slim.Device.{BlockDevice}
use exfat_slim.SlotCache.{update, write}
use exfat_slim.Touched.{TouchedKind, touched_sector, insert}
use exfat_slim.FreeRun.{AllocatedRun}
use exfat_slim.Allocator.{StoredChain, allocate}
use exfat_slim.Fat.{set_link, end_of_chain}
use exfat_slim.Disk.{DiskAction, on_alloc, on_fat, on_data}
use exfat_slim.File.{
  File, Opened, FileAction, move_file_cursor, update_data_length, has_no_fat_chain,
  without_no_fat_chain, cluster_length_of, on_disk_of, change_file, mounted,
  next_cluster_if_required, current_sector_id,
}

-- `should_convert_to_fat_chain`.
abbrev pub leaves_chain : StoredChain → (flags : ℕ) → AllocatedRun → Bool
leaves_chain StoredChain.empty flags run = false
leaves_chain (StoredChain.contiguous first len) flags run =
    has_no_fat_chain flags && not (first + len == run.first_cluster)
leaves_chain (StoredChain.fat first last len) flags run = false

abbrev pub should_convert_to_fat_chain : File → AllocatedRun → Bool
should_convert_to_fat_chain f run = leaves_chain f.chain f.details.flags run

-- The last cluster of a chain, to which a run is linked.
abbrev pub last_cluster : StoredChain → Option ℕ
last_cluster StoredChain.empty = none
last_cluster (StoredChain.contiguous first cluster_count) = some (first + cluster_count - 1)
last_cluster (StoredChain.fat first last cluster_count) = some last

-- The chain of a file after a run has been added.
abbrev pub extended : Bool → AllocatedRun → StoredChain → StoredChain
extended has_fat_chain run StoredChain.empty =
    StoredChain.contiguous run.first_cluster run.cluster_count
extended has_fat_chain run (StoredChain.contiguous first cluster_count) =
    if has_fat_chain
    then StoredChain.fat first (run.first_cluster + run.cluster_count - 1)
        (cluster_count + run.cluster_count)
    else StoredChain.contiguous first (cluster_count + run.cluster_count)
extended has_fat_chain run (StoredChain.fat first last cluster_count) =
    StoredChain.fat first (run.first_cluster + run.cluster_count - 1)
      (cluster_count + run.cluster_count)

abbrev pub is_empty_chain : StoredChain → Bool
is_empty_chain StoredChain.empty = true
is_empty_chain (StoredChain.contiguous first cluster_count) = false
is_empty_chain (StoredChain.fat first last cluster_count) = false

module _ (d : BlockDevice) (size : ℕ) where
  -- The loop of `convert_file_to_fat_chain_if_required` over `first..tail`.
  unfoldable pub link_consecutive : (count cluster_id : ℕ) → DiskAction d size (Unit {0})
  link_consecutive zero cluster_id = pure tt
  link_consecutive (suc count) cluster_id =
      on_fat d size (set_link d size cluster_id (cluster_id + 1))
      >> link_consecutive count (suc cluster_id)

  -- The loop of `update_chain` over the clusters of a run: each is linked to the one before.
  abbrev pub link_to_prev : Option ℕ → ℕ → DiskAction d size (Unit {0})
  link_to_prev none next_cluster = pure tt
  link_to_prev (some prev_cluster) next_cluster =
      on_fat d size (set_link d size prev_cluster next_cluster)

  unfoldable pub link_run : (count next_cluster : ℕ) → Option ℕ → DiskAction d size (Unit {0})
  link_run zero next_cluster prev_cluster = pure tt
  link_run (suc count) next_cluster prev_cluster =
      link_to_prev prev_cluster next_cluster
      >> link_run count (suc next_cluster) (some next_cluster)

  -- The part of `update_chain` that writes the table.
  unfoldable pub link_chain : StoredChain → AllocatedRun → DiskAction d size (Unit {0})
  link_chain chain run =
      link_run run.cluster_count run.first_cluster (last_cluster chain)
      >> on_fat d size (set_link d size (run.first_cluster + run.cluster_count - 1) end_of_chain)

module _ (d : BlockDevice) (size : ℕ) (collect : List ℕ → Result DirectoryEntryError (List ℕ)) where
  abbrev pub Act : Type 0 → Type 0
  Act A = FileAction d size collect A

  abbrev pub on_storage : {A : Type 0} → DiskAction d size A → Act A
  on_storage m = on_disk_of d size collect m

  -- The links of a contiguous chain that becomes one of the table.
  abbrev pub link_stored : StoredChain → Act (Unit {0})
  link_stored StoredChain.empty = pure tt
  link_stored (StoredChain.contiguous first cluster_count) =
      on_storage (link_consecutive d size (cluster_count - 1) first)
  link_stored (StoredChain.fat first last cluster_count) = pure tt

  -- `convert_file_to_fat_chain_if_required`.
  unfoldable pub convert_file_to_fat_chain_if_required : Act (Unit {0})
  convert_file_to_fat_chain_if_required o =
      let converted =
        (change_file d size collect (λ f. record f {
          details = record f.details { flags = without_no_fat_chain f.details.flags };
          touched = record f.touched { is_dir_entry_dirty = true };
        })
            >> link_stored o.file.chain)
          o in
      if has_no_fat_chain o.file.details.flags then converted else (ok tt, o)

  abbrev pub converted_for : AllocatedRun → Act (Unit {0})
  converted_for run o =
      let converted = convert_file_to_fat_chain_if_required o in
      if should_convert_to_fat_chain o.file run then converted else (ok tt, o)

  abbrev pub linked_if : Bool → StoredChain → AllocatedRun → Act (Unit {0})
  linked_if true chain run = on_storage (link_chain d size chain run)
  linked_if false chain run = pure tt

  -- The end of `update_chain`: the file's chain, and its place if it had no cluster.
  abbrev pub stored_chain : Bool → AllocatedRun → Opened d.State → File
  stored_chain has_fat_chain run o =
      let f = record o.file { chain = extended has_fat_chain run o.file.chain } in
      if is_empty_chain o.file.chain
      then record f {
        current_cluster = run.first_cluster;
        remaining_bytes_in_cluster = cluster_length_of o;
      }
      else f

  -- `update_chain`.
  unfoldable pub update_chain : AllocatedRun → Act (Unit {0})
  update_chain run = converted_for run >> λ o.
      let has_fat_chain = not (has_no_fat_chain o.file.details.flags) in
      (linked_if has_fat_chain o.file.chain run
          >> modify (λ (o : Opened d.State). record o { file = stored_chain has_fat_chain run o }))
        o

  abbrev pub unless_done : ℕ → Act (Unit {0}) → Act (Unit {0})
  unless_done left rest o = if left == 0 then (ok tt, o) else rest o

  -- The loop of `allocate_clusters_for`: each round adds a cluster at least.
  unfoldable pub allocate_loop : (rounds cluster_count : ℕ) → Act (Unit {0})
  allocate_loop zero cluster_count o = (stuck, o)
  allocate_loop (suc rounds) cluster_count o =
      (on_storage (on_alloc d size (allocate d size o.file.chain cluster_count)) >>= λ run.
      update_chain run
      >> unless_done (cluster_count - run.cluster_count)
          (allocate_loop rounds (cluster_count - run.cluster_count)))
        o

  -- `allocate_clusters_for`.
  unfoldable pub allocate_clusters_for : ℕ → Act (Unit {0})
  allocate_clusters_for num_bytes o =
      let cluster_count = u32 (div_ceil num_bytes (cluster_length_of o)) in
      allocate_loop (cluster_count + 1) cluster_count o

  abbrev pub or_nothing : Bool → Act ℕ → Act ℕ
  or_nothing true m = m
  or_nothing false m = pure 0

  -- `write_partial_sector`: the number of bytes written, none where the bytes fill a sector.
  unfoldable pub write_partial_sector : List ℕ → Act ℕ
  write_partial_sector [] o = (ok 0, o)
  write_partial_sector (b ∷ bytes) o =
      let buf = b ∷ bytes in
      let start_index = o.file.cursor % size in
      let end_index = min size (start_index + length buf) in
      let len = end_index - start_index in
      (current_sector_id d size collect >>= λ sector_id.
      or_nothing (ltb 0 start_index || ltb end_index size) (
        on_storage
          (on_data d size (update d sector_id (λ slot. copy_at slot start_index (take len buf))))
        >> change_file d size collect (λ f. record f {
          touched = insert (touched_sector TouchedKind.data_block sector_id) f.touched;
        })
        >> change_file d size collect (move_file_cursor len)
        >> pure len))
        o

  -- The loop of `write` over full sectors, and the rest.
  unfoldable pub write_sectors : (count : ℕ) → List ℕ → Act (Unit {0})
  write_sectors zero buf = write_partial_sector buf >>= λ len. pure tt
  write_sectors (suc count) buf =
      next_cluster_if_required d size collect >> current_sector_id d size collect >>= λ sector_id.
      on_storage (on_data d size (write d sector_id (take size buf)))
      >> change_file d size collect (move_file_cursor size)
      >> write_sectors count (drop size buf)

  abbrev pub grown : (len : ℕ) → Act (Unit {0})
  grown len o =
      let cluster_length = cluster_length_of o in
      let capacity = div_ceil o.file.details.data_length cluster_length * cluster_length in
      let end_of_write = o.file.cursor + len in
      let growing = allocate_clusters_for (end_of_write - capacity) o in
      if ltb capacity end_of_write then growing else (ok tt, o)

  -- `write`, behind its first three checks.
  unfoldable pub write_all : List ℕ → Act (Unit {0})
  write_all buf =
      grown (length buf)
      >> change_file d size collect (update_data_length (length buf))
      >> next_cluster_if_required d size collect
      >> write_partial_sector buf
      >>= λ len. λ o.
        let rest = write_sectors ((length buf - len) / size) (drop len buf) o in
        if ltb len (length buf) then rest else (ok tt, o)

  unfoldable pub write_file : List ℕ → Act (Unit {0})
  write_file [] = pure tt
  write_file (b ∷ bytes) = mounted d size collect >> λ o.
      let writing = write_all (b ∷ bytes) o in
      if not o.file.open_options.write then (err ExFatError.write_not_enabled, o) else writing
