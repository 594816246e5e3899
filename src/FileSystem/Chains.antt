-- ===== src/FileSystem/Chains.antt =====
-- src/file_system.rs: the chain of a stored file. `fs` is the field of `FileSystem`.
use exfat_slim.Base.{
  ℕ, zero, suc, ◌+◌, ◌-◌, ◌/◌, Bool, ◌||◌, Option, none, some, bit_and, ◌==◌, if◌then◌else◌,
}
use exfat_slim.Word.{u32, div_ceil}
use exfat_slim.Error.{ok, ExFatError}
use exfat_slim.Action.{pure, fail, ◌>>=◌}
use exfat_slim.Device.{BlockDevice}
use exfat_slim.BootSector.{FileSystemDetails}
use exfat_slim.OpenOptions.{FileDetails}
use exfat_slim.Allocator.{StoredChain}
use exfat_slim.Fat.{next_cluster_in_fat_chain}
use exfat_slim.Disk.{DiskAction, on_fat, no_cluster_id}

-- `flags.contains(GeneralSecondaryFlags::NoFatChain)`.
abbrev pub is_contiguous : FileDetails → Bool
is_contiguous file_details = bit_and file_details.flags 2 == 2

module _ (d : BlockDevice) (size : ℕ) (fs : FileSystemDetails) where
  -- The loop of `get_cluster_id_at`.
  abbrev pub go_on_from : (ℕ → DiskAction d size ℕ) → Option ℕ → DiskAction d size ℕ
  go_on_from rest (some cluster_id) = rest cluster_id
  go_on_from rest none = fail ExFatError.end_of_fat_chain

  unfoldable pub follow_links : (count cluster_id : ℕ) → DiskAction d size ℕ
  follow_links zero cluster_id = pure cluster_id
  follow_links (suc count) cluster_id =
      on_fat d size (next_cluster_in_fat_chain d size cluster_id)
      >>= go_on_from (follow_links count)

  -- `get_cluster_id_at`.
  unfoldable pub get_cluster_id_at : (cursor : ℕ) → FileDetails → DiskAction d size ℕ
  get_cluster_id_at cursor file_details s =
      let num_clusters = u32 ((cursor - 1) / fs.cluster_length) in
      let linked = follow_links num_clusters file_details.first_cluster s in
      if cursor == 0
      then (ok file_details.first_cluster, s)
      else if is_contiguous file_details
      then (ok (file_details.first_cluster + num_clusters), s)
      else linked

  -- `get_stored_chain`.
  unfoldable pub get_stored_chain : FileDetails → DiskAction d size StoredChain
  get_stored_chain file_details s =
      let cluster_count = u32 (div_ceil file_details.data_length fs.cluster_length) in
      let linked =
        (get_cluster_id_at file_details.data_length file_details >>= λ last.
        pure (StoredChain.fat file_details.first_cluster last cluster_count))
          s in
      if file_details.first_cluster == no_cluster_id || cluster_count == 0
      then (ok StoredChain.empty, s)
      else if is_contiguous file_details
      then (ok (StoredChain.contiguous file_details.first_cluster cluster_count), s)
      else linked
