-- ===== src/Disk.antt =====
-- The three caches of a `FileSystem` (src/file_system.rs) over its device, with the record of touched
-- sectors that an operation is handed; and the operations that use more than one of the caches:
-- `Allocator::free` (src/allocation.rs) and `FileDirty::flush` (src/file.rs).
pub mod Sound
pub mod Steps
pub mod Operations
pub mod Chain
pub mod Free
pub mod Stitch
pub mod Tests
use exfat_slim.Base.{
  ℕ, zero, suc, ◌+◌, ◌*◌, Bool, true, false, ◌&&◌, ◌||◌, Option, none, some, List, [], ◌∷◌, ltb,
  leb, ◌==◌, if◌then◌else◌,
}
use exfat_slim.Error.{Result, ok, err, stuck, ExFatError}
use exfat_slim.Action.{Action, pure, ◌>>=◌, ◌>>◌, modify, zoom, and_then}
use exfat_slim.Device.{BlockDevice}
use exfat_slim.SlotCache.{SlotCache, Cached, CacheAction, flush, flush_sector}
use exfat_slim.Touched.{TouchedKind, TouchedSector, FileDirty, no_touched, rank}
use exfat_slim.FreeRun.{AllocatedRun}
use exfat_slim.Allocator.{
  Allocator, Session, AllocAction, StoredChain, mark_allocated, flush_alloc, flush_alloc_sector,
}
use exfat_slim.Fat.{
  Fat, FatSession, FatAction, set_link, next_cluster_in_fat_chain, flush_fat, flush_fat_sector,
}

pub record Disk (D : Type 0) : Type 0 where
  pub alloc : Allocator
  pub fat : Fat
  pub data_blocks : SlotCache
  pub touched : FileDirty
  pub dev : D

-- The parts of the disk that an operation on one cache is handed, and the disk with them changed.
abbrev pub alloc_part : {D : Type 0} → Disk D → Session D
alloc_part s = record { alloc = s.alloc; touched = s.touched; dev = s.dev }

abbrev pub with_alloc_part : {D : Type 0} → Session D → Disk D → Disk D
with_alloc_part p s = record s { alloc = p.alloc; touched = p.touched; dev = p.dev }

abbrev pub fat_part : {D : Type 0} → Disk D → FatSession D
fat_part s = record { fat = s.fat; touched = s.touched; dev = s.dev }

abbrev pub with_fat_part : {D : Type 0} → FatSession D → Disk D → Disk D
with_fat_part p s = record s { fat = p.fat; touched = p.touched; dev = p.dev }

abbrev pub data_part : {D : Type 0} → Disk D → Cached D
data_part s = record { slots = s.data_blocks; dev = s.dev }

abbrev pub with_data_part : {D : Type 0} → Cached D → Disk D → Disk D
with_data_part p s = record s { data_blocks = p.slots; dev = p.dev }

-- `NO_CLUSTER_ID` of src/file.rs.
abbrev pub no_cluster_id : ℕ
no_cluster_id = 0

-- A run of one cluster.
abbrev pub one_cluster : ℕ → AllocatedRun
one_cluster cluster_id = record { first_cluster = cluster_id; cluster_count = 1 }

-- The order of `FileDirty::sort`: by kind, then by sector.
abbrev pub in_order : TouchedSector → TouchedSector → Bool
in_order a b =
    ltb (rank a.kind) (rank b.kind) || (rank a.kind == rank b.kind && leb a.sector b.sector)

unfoldable pub insert_sorted : TouchedSector → List TouchedSector → List TouchedSector
insert_sorted t [] = t ∷ []
insert_sorted t (u ∷ us) = if in_order t u then t ∷ u ∷ us else u ∷ insert_sorted t us

-- `FileDirty::sort`. The sectors are distinct, so any sorting function gives this list.
unfoldable pub sort : List TouchedSector → List TouchedSector
sort [] = []
sort (t ∷ ts) = insert_sorted t (sort ts)

module _ (d : BlockDevice) (size : ℕ) where
  abbrev pub DiskAction : Type 0 → Type 0
  DiskAction A = Action (ExFatError d.Error) (Disk d.State) A

  abbrev pub on_alloc : {A : Type 0} → AllocAction d size A → DiskAction A
  on_alloc m = zoom alloc_part with_alloc_part m

  abbrev pub on_fat : {A : Type 0} → FatAction d size A → DiskAction A
  on_fat m = zoom fat_part with_fat_part m

  abbrev pub on_data : {A : Type 0} → CacheAction d A → DiskAction A
  on_data m = zoom data_part with_data_part m

  -- The loop of `Allocator::free` over a chain of the table.
  abbrev pub free_next : Option ℕ → (ℕ → DiskAction (Unit {0})) → DiskAction (Unit {0})
  free_next (some next) rest = rest next
  free_next none rest = pure tt

  unfoldable pub free_chain : (rounds cluster_id : ℕ) → DiskAction (Unit {0})
  free_chain zero cluster_id = pure tt
  free_chain (suc rounds) cluster_id =
      on_fat (next_cluster_in_fat_chain d size cluster_id) >>= λ next_cluster_id.
      on_alloc (mark_allocated d size (one_cluster cluster_id) false)
      >> on_fat (set_link d size cluster_id no_cluster_id)
      >> free_next next_cluster_id (free_chain rounds)

  -- `Allocator::free`.
  unfoldable pub free : StoredChain → DiskAction (Unit {0})
  free StoredChain.empty = pure tt
  free (StoredChain.contiguous first cluster_count) = on_alloc (
      mark_allocated d size (record { first_cluster = first; cluster_count = cluster_count }) false)
  free (StoredChain.fat first last cluster_count) = free_chain cluster_count first

  -- One round of the loop of `FileDirty::flush`.
  abbrev pub flush_item : TouchedKind → ℕ → DiskAction (Unit {0})
  flush_item TouchedKind.bitmap sector = on_alloc (flush_alloc_sector d size sector)
  flush_item TouchedKind.fat sector = on_fat (flush_fat_sector d size sector)
  flush_item TouchedKind.data_block sector = on_data (flush_sector d sector)
  flush_item TouchedKind.dir sector = on_data (flush_sector d sector)
  flush_item TouchedKind.nothing sector = pure tt

  unfoldable pub flush_items : List TouchedSector → DiskAction (Unit {0})
  flush_items [] = pure tt
  flush_items (item ∷ items) = flush_item item.kind item.sector >> flush_items items

  -- `FileDirty::flush`: everything, if the record overflowed, or else the sorted sectors.
  unfoldable pub flush_touched : DiskAction (Unit {0})
  flush_touched s =
      let all = on_fat (flush_fat d size) >> on_alloc (flush_alloc d size) >> on_data (flush d) in
      let sorted = record s.touched { sectors = sort s.touched.sectors } in
      let some_of = flush_items (sort s.touched.sectors) in
      let clear = modify (λ (t : Disk d.State). record t { touched = no_touched }) in
      if s.touched.overflowed
      then (all >> clear) s
      else (some_of >> clear) (record s { touched = sorted })
