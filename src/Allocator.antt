-- ===== src/Allocator.antt =====
-- src/allocation.rs: the allocator of clusters. It changes bits of the allocation bitmap, which it
-- reaches through a cache of its own, and searches it for runs of free clusters. `size` is `SIZE`.
-- Sums of cluster numbers and of sector numbers are natural numbers: where they pass 2 ^ 32 a
-- debug build stops. `checked_add`, the one sum that the source checks, is written out.
pub mod State
pub mod Marking
pub mod Refusing
pub mod Search
pub mod Full
pub mod Allocate
pub mod Contained
mod Tests
use exfat_slim.Base.{
  ℕ, zero, suc, ◌+◌, ◌-◌, ◌*◌, ◌/◌, ◌%◌, ◌^◌, Bool, true, false, ◌||◌, Option, none, some, List, [],
  ◌∷◌, ltb, leb, ◌==◌, if◌then◌else◌,
}
use exfat_slim.Word.{u32, div_ceil}
use exfat_slim.Error.{Result, ok, err, stuck, ExFatError}
use exfat_slim.Action.{Action, pure, fail, ◌>>=◌, ◌>>◌, modify, zoom, and_then}
use exfat_slim.Device.{Block, BlockDevice}
use exfat_slim.SlotCache.{SlotCache, Cached, CacheAction, fetch, update, flush, flush_sector}
use exfat_slim.Touched.{TouchedKind, FileDirty, touched_sector, insert}
use exfat_slim.Bitmap.{
  BitmapPos, BitmapChunk, pos_of, first_cluster_of, first_cluster_id, run_chunks, chunks,
  set_bit_range,
}
use exfat_slim.FreeRun.{
  SearchPolicy, first_run, longest_run, AllocatedRun, Scan, Step, going, found, stopped, or_else,
  scan_chunks, finish,
}

pub record AllocationBitmap : Type 0 where
  pub first_cluster : ℕ
  pub num_sectors : ℕ

-- `AllocationBitmap::new`, of the fields of a directory entry.
unfoldable pub allocation_bitmap : (size first_cluster data_length : ℕ) → AllocationBitmap
allocation_bitmap size first_cluster data_length = record {
  first_cluster = first_cluster;
  num_sectors = u32 (div_ceil data_length size);
}

pub data StoredChain : Type 0 where
  empty : StoredChain
  contiguous : (first cluster_count : ℕ) → StoredChain
  fat : (first last cluster_count : ℕ) → StoredChain

pub record AllocationBitmapSlim : Type 0 where
  pub first_sector : ℕ
  pub num_sectors : ℕ
  pub cluster_count : ℕ

pub record Allocator : Type 0 where
  pub bitmap : AllocationBitmapSlim
  pub cache : SlotCache
  pub next_search_cluster : ℕ

-- `Allocator::new`, over `SlotCache::new`.
abbrev pub new_allocator : SlotCache → Allocator
new_allocator cache = record {
  bitmap = record { first_sector = 0; num_sectors = 0; cluster_count = 0 };
  cache = cache;
  next_search_cluster = first_cluster_id;
}

-- The allocator with the record of touched sectors and the device that its operations are handed.
pub record Session (D : Type 0) : Type 0 where
  pub alloc : Allocator
  pub touched : FileDirty
  pub dev : D

abbrev pub cached : {D : Type 0} → Session D → Cached D
cached s = record { slots = s.alloc.cache; dev = s.dev }

abbrev pub with_cached : {D : Type 0} → Cached D → Session D → Session D
with_cached c s = record s { alloc = record s.alloc { cache = c.slots }; dev = c.dev }

-- `u32::checked_add`.
abbrev pub checked_add : ℕ → ℕ → Option ℕ
checked_add a b = if ltb (a + b) (2 ^ 32) then some (a + b) else none

module _ (d : BlockDevice) (size : ℕ) where
  abbrev pub AllocAction : Type 0 → Type 0
  AllocAction A = Action (ExFatError d.Error) (Session d.State) A

  -- A call on `self.cache`.
  abbrev pub on_cache : {A : Type 0} → CacheAction d A → AllocAction A
  on_cache m = zoom cached with_cached m

  unfoldable pub flush_alloc : AllocAction (Unit {0})
  flush_alloc = on_cache (flush d)

  unfoldable pub flush_alloc_sector : ℕ → AllocAction (Unit {0})
  flush_alloc_sector sector = on_cache (flush_sector d sector)

  -- One round of the loop of `mark_allocated`.
  unfoldable pub mark_chunk : Bool → BitmapChunk → AllocAction (Unit {0})
  mark_chunk allocated chunk s =
      let sector_id = s.alloc.bitmap.first_sector + chunk.sector in
      let change = set_bit_range (chunk.end - chunk.start) chunk.start allocated in
      let touch = λ (s : Session d.State). record s {
        touched = insert (touched_sector TouchedKind.bitmap sector_id) s.touched;
      } in
      (on_cache (update d sector_id change) >> modify touch) s

  unfoldable pub mark_chunks : Bool → List BitmapChunk → AllocAction (Unit {0})
  mark_chunks allocated [] = pure tt
  mark_chunks allocated (chunk ∷ rest) = mark_chunk allocated chunk >> mark_chunks allocated rest

  -- The checks on the last cluster of the run, and the loop.
  abbrev pub mark_until : AllocatedRun → Bool → Option ℕ → AllocAction (Unit {0})
  mark_until run allocated none s = (err (ExFatError.invalid_cluster_id run.first_cluster), s)
  mark_until run allocated (some last_cluster) s =
      let bitmap = s.alloc.bitmap in
      let marked =
        mark_chunks allocated
          (chunks size run.cluster_count (run_chunks run.first_cluster run.cluster_count)) s in
      if leb (first_cluster_id + bitmap.cluster_count) last_cluster
        || leb bitmap.num_sectors ((pos_of size last_cluster).sector)
      then (err (ExFatError.invalid_cluster_id run.first_cluster), s)
      else marked

  unfoldable pub mark_allocated : AllocatedRun → Bool → AllocAction (Unit {0})
  mark_allocated run allocated s =
      if run.cluster_count == 0
      then (ok tt, s)
      else if ltb run.first_cluster first_cluster_id
      then (err (ExFatError.invalid_cluster_id run.first_cluster), s)
      else mark_until run allocated (checked_add run.first_cluster (run.cluster_count - 1)) s

  -- The loop over sectors of `find_free_clusters_from`.
  abbrev pub and_sector : Step → (Scan → AllocAction Step) → AllocAction Step
  and_sector (going s) f = f s
  and_sector (found run) f = pure (found run)
  and_sector (stopped s) f = pure (stopped s)

  module _ (policy : SearchPolicy) (from_cluster end_cluster num_clusters first_sector : ℕ) where
    unfoldable pub scan_sectors : (count sector : ℕ) → Scan → AllocAction Step
    scan_sectors zero sector scan = pure (going scan)
    scan_sectors (suc count) sector scan = on_cache (fetch d (first_sector + sector)) >>= λ block.
        and_sector (scan_chunks policy from_cluster end_cluster num_clusters block scan)
          (scan_sectors count (suc sector))

  abbrev pub finish_with :
      SearchPolicy
      → Result (ExFatError d.Error) Step × Session d.State
      → Result (ExFatError d.Error) AllocatedRun × Session d.State
  finish_with policy (ok step, s) = (finish policy step, s)
  finish_with policy (err e, s) = (err e, s)
  finish_with policy (stuck, s) = (stuck, s)

  unfoldable pub find_free_clusters_from :
      (from_cluster num_clusters : ℕ) → SearchPolicy → AllocAction AllocatedRun
  find_free_clusters_from from_cluster num_clusters policy s =
      let bitmap = s.alloc.bitmap in
      let end_cluster = first_cluster_id + bitmap.cluster_count in
      let start = (pos_of size from_cluster).sector in
      let scan : Scan = record {
        cluster_id = first_cluster_of size start;
        first_cluster = none;
        count = 0;
        longest = none;
      } in
      let scanned =
        scan_sectors policy from_cluster end_cluster num_clusters bitmap.first_sector
          (bitmap.num_sectors - start) start scan s in
      if ltb from_cluster first_cluster_id
      then (err (ExFatError.invalid_cluster_id from_cluster), s)
      else if leb end_cluster from_cluster || leb bitmap.num_sectors start
      then (err ExFatError.disk_full, s)
      else finish_with policy scanned

  -- `Err(ExFatError::DiskFull) if from_cluster > FIRST_CLUSTER_ID`: the search starts again.
  abbrev pub or_wrap :
      ℕ
      → AllocAction AllocatedRun
      → Result (ExFatError d.Error) AllocatedRun × Session d.State
      → Result (ExFatError d.Error) AllocatedRun × Session d.State
  or_wrap from_cluster again (err ExFatError.disk_full, s) =
      if ltb first_cluster_id from_cluster then again s else (err ExFatError.disk_full, s)
  or_wrap from_cluster again (r, s) = (r, s)

  unfoldable pub find_free_clusters :
      Option ℕ → (num_clusters : ℕ) → SearchPolicy → AllocAction AllocatedRun
  find_free_clusters from num_clusters policy s =
      let from_cluster = or_else from s.alloc.next_search_cluster in
      let advance = λ (run : AllocatedRun) (s : Session d.State). record s {
        alloc = record s.alloc { next_search_cluster = run.first_cluster + run.cluster_count };
      } in
      let r =
        or_wrap from_cluster (find_free_clusters_from first_cluster_id num_clusters policy)
          (find_free_clusters_from from_cluster num_clusters policy s) in
      and_then r (λ run. modify (advance run) >> pure run)

  -- Where `allocate` starts its search for a chain, and its policy.
  abbrev pub search_for : StoredChain → Option ℕ × SearchPolicy
  search_for empty = (none, longest_run)
  search_for (contiguous first cluster_count) = (some (first + cluster_count), first_run)
  search_for (fat first last cluster_count) = (some (last + 1), first_run)

  unfoldable pub allocate : StoredChain → (count : ℕ) → AllocAction AllocatedRun
  allocate chain count =
      let (from, policy) = search_for chain in
      find_free_clusters from count policy >>= λ run. mark_allocated run true >> pure run
