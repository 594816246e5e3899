-- ===== src/Fat.antt =====
-- src/fat.rs: the file allocation table, reached through a cache of its own. A failing `assert!` is
-- `stuck`. Sums of sector numbers are natural numbers: a debug build stops where one passes 2 ^ 32.
pub mod Lookup
pub mod Contained
mod Tests
use exfat_slim.Base.{
  ℕ, ◌+◌, ◌*◌, ◌/◌, ◌%◌, Bool, ◌&&◌, Option, none, some, List, take, drop, ltb, leb, if◌then◌else◌,
}
use exfat_slim.Word.{from_le_bytes, to_le_bytes, copy_at}
use exfat_slim.Error.{Result, ok, err, stuck, ExFatError}
use exfat_slim.Action.{Action, pure, ◌>>=◌, ◌>>◌, modify, zoom, and_then}
use exfat_slim.Device.{Block, BlockDevice}
use exfat_slim.SlotCache.{SlotCache, Cached, CacheAction, fetch, update, flush, flush_sector}
use exfat_slim.Touched.{TouchedKind, FileDirty, touched_sector, insert}

abbrev pub min_cluster_id : ℕ
min_cluster_id = 2

-- `CLUSTER_LEN`, the greatest cluster number.
abbrev pub cluster_len : ℕ
cluster_len = 0xFFFFFFF6

abbrev pub entry_size : ℕ
entry_size = 4

abbrev pub end_of_chain : ℕ
end_of_chain = 0xFFFF_FFFF

pub record Fat : Type 0 where
  pub start_of_fat_sector : Option ℕ
  pub cache : SlotCache

-- `Fat::new`, over `SlotCache::new`.
abbrev pub new_fat : SlotCache → Fat
new_fat cache = record { start_of_fat_sector = none; cache = cache }

-- The table with the record of touched sectors and the device that its operations are handed.
pub record FatSession (D : Type 0) : Type 0 where
  pub fat : Fat
  pub touched : FileDirty
  pub dev : D

abbrev pub fat_cached : {D : Type 0} → FatSession D → Cached D
fat_cached s = record { slots = s.fat.cache; dev = s.dev }

abbrev pub with_fat_cached : {D : Type 0} → Cached D → FatSession D → FatSession D
with_fat_cached c s = record s { fat = record s.fat { cache = c.slots }; dev = c.dev }

-- `Fat::num_entries`.
abbrev pub num_entries : ℕ → ℕ
num_entries size = size / entry_size

-- The entry at an index of a sector, `chunks[sector_offset]`, and a change of it.
unfoldable pub entry_at : ℕ → Block → ℕ
entry_at sector_offset block = from_le_bytes (take 4 (drop (4 * sector_offset) block))

unfoldable pub put_entry : (sector_offset value : ℕ) → Block → Block
put_entry sector_offset value block = copy_at block (4 * sector_offset) (to_le_bytes 4 value)

-- What an entry says of the chain.
unfoldable pub link : ℕ → Option ℕ
link next_cluster_id =
    if leb min_cluster_id next_cluster_id && leb next_cluster_id cluster_len
    then some next_cluster_id
    else none

module _ (d : BlockDevice) (size : ℕ) where
  abbrev pub FatAction : Type 0 → Type 0
  FatAction A = Action (ExFatError d.Error) (FatSession d.State) A

  abbrev pub on_fat_cache : {A : Type 0} → CacheAction d A → FatAction A
  on_fat_cache m = zoom fat_cached with_fat_cached m

  unfoldable pub flush_fat : FatAction (Unit {0})
  flush_fat = on_fat_cache (flush d)

  unfoldable pub flush_fat_sector : ℕ → FatAction (Unit {0})
  flush_fat_sector sector = on_fat_cache (flush_sector d sector)

  -- `Fat::get_sector_id`.
  abbrev pub get_sector_id : Option ℕ → ℕ → Result (ExFatError d.Error) ℕ
  get_sector_id (some fat_offset) cluster_id = ok (fat_offset + cluster_id / num_entries size)
  get_sector_id none cluster_id =
      err (ExFatError.unexpected "attemt to access fat when not initialized")

  -- `Fat::set`.
  unfoldable pub set_link : (cluster_id cluster_id_to : ℕ) → FatAction (Unit {0})
  set_link cluster_id cluster_id_to s =
      let touch = λ (sector_id : ℕ) (s : FatSession d.State). record s {
        touched = insert (touched_sector TouchedKind.fat sector_id) s.touched;
      } in
      let change = put_entry (cluster_id % num_entries size) cluster_id_to in
      let written =
        and_then (get_sector_id s.fat.start_of_fat_sector cluster_id, s)
          (λ sector_id. modify (touch sector_id) >> on_fat_cache (update d sector_id change)) in
      if ltb cluster_id min_cluster_id then (stuck, s) else written

  -- `Fat::next_cluster_in_fat_chain`.
  unfoldable pub next_cluster_in_fat_chain : ℕ → FatAction (Option ℕ)
  next_cluster_in_fat_chain cluster_id s =
      let found =
        and_then (get_sector_id s.fat.start_of_fat_sector cluster_id, s)
          (λ sector_id. on_fat_cache (fetch d sector_id) >>= λ block.
            pure (link (entry_at (cluster_id % num_entries size) block))) in
      if ltb cluster_id min_cluster_id then (stuck, s) else found
