-- ===== src/FreeRun.antt =====
-- src/allocation.rs: the search for a run of free clusters in the bytes of the bitmap, without the
-- cache that they come from (`find_free_clusters_from`, from its loops inward, and `close_run`).
-- A `return`, a `break 'scan` and going on are the constructors of `Step`.
pub mod Sound
pub mod Loops
pub mod Answer
pub mod Skipping
mod Tests
use exfat_slim.Base.{
  ℕ, zero, suc, ◌+◌, ◌-◌, ◌^◌, Bool, Option, none, some, List, [], ◌∷◌, ltb, leb, ◌==◌,
  if◌then◌else◌,
}
use exfat_slim.Word.{from_le_bytes}
use exfat_slim.Error.{Result, ok, err, ExFatError}
use exfat_slim.Bitmap.{is_free}

pub data SearchPolicy : Type 0 where
  first_run : SearchPolicy
  longest_run : SearchPolicy

pub record AllocatedRun : Type 0 where
  pub first_cluster : ℕ
  pub cluster_count : ℕ

-- What a scan keeps between two bits: the cluster of the next bit, the run in progress and the
-- longest run so far.
pub record Scan : Type 0 where
  pub cluster_id : ℕ
  pub first_cluster : Option ℕ
  pub count : ℕ
  pub longest : Option AllocatedRun

-- How a part of a scan ends: it goes on, it returns a run, or it breaks out of all loops.
pub data Step : Type 0 where
  going : Scan → Step
  found : AllocatedRun → Step
  stopped : Scan → Step

-- `Allocator::close_run`: the run to return, if any, and the longest run.
abbrev pub longer : Option AllocatedRun → AllocatedRun → Option AllocatedRun
longer none run = some run
longer (some best) run = if ltb best.cluster_count run.cluster_count then some run else some best

abbrev pub closed :
    SearchPolicy → Option ℕ → ℕ → Option AllocatedRun → Option AllocatedRun × Option AllocatedRun
closed first_run (some first) count longest =
    (some (record { first_cluster = first; cluster_count = count }), longest)
closed first_run none count longest = (none, longest)
closed longest_run (some first) count longest =
    (none, longer longest (record { first_cluster = first; cluster_count = count }))
closed longest_run none count longest = (none, longest)

-- `close_run`, and `cluster_id` moved on by `by` if it returns `None`.
abbrev pub after_close : ℕ → Scan → Option AllocatedRun × Option AllocatedRun → Step
after_close by s (some run, longest) = found run
after_close by s (none, longest) =
    going (record {
      cluster_id = s.cluster_id + by;
      first_cluster = none;
      count = 0;
      longest = longest;
    })

unfoldable pub close_run : SearchPolicy → ℕ → Scan → Step
close_run policy by s = after_close by s (closed policy s.first_cluster s.count s.longest)

abbrev pub or_else : Option ℕ → ℕ → ℕ
or_else (some first) cluster_id = first
or_else none cluster_id = cluster_id

-- A step of a loop, after the ones before it.
abbrev pub and_step : Step → (Scan → Step) → Step
and_step (going s) f = f s
and_step (found run) f = found run
and_step (stopped s) f = stopped s

module _ (policy : SearchPolicy) (from_cluster end_cluster num_clusters : ℕ) where
  -- The innermost loop of `find_free_clusters_from`, on one bit.
  unfoldable pub scan_bit : (byte bit : ℕ) → Scan → Step
  unfolding is_free close_run
  scan_bit byte bit s =
      let first = or_else s.first_cluster s.cluster_id in
      let longer_run = record s {
        cluster_id = s.cluster_id + 1;
        first_cluster = some first;
        count = s.count + 1;
      } in
      if ltb s.cluster_id from_cluster
      then going (record s { cluster_id = s.cluster_id + 1 })
      else if leb end_cluster s.cluster_id
      then stopped s
      else if is_free byte bit
      then if s.count + 1 == num_clusters
        then found (record { first_cluster = first; cluster_count = s.count + 1 })
        else going longer_run
      else close_run policy 1 s

  -- `for bit in 0..u8::BITS`, the last `count` of them.
  unfoldable pub scan_bits : (count byte bit : ℕ) → Scan → Step
  scan_bits zero byte bit s = going s
  scan_bits (suc count) byte bit s = and_step (scan_bit byte bit s) (scan_bits count byte (suc bit))

  unfoldable pub scan_bytes : List ℕ → Scan → Step
  scan_bytes [] s = going s
  scan_bytes (byte ∷ bytes) s = and_step (scan_bits 8 byte 0 s) (scan_bytes bytes)

  -- One chunk of four bytes, which is skipped if it is all ones.
  unfoldable pub scan_chunk : List ℕ → Scan → Step
  unfolding close_run
  scan_chunk chunk s =
      if from_le_bytes chunk == 2 ^ 32 - 1 then close_run policy 32 s else scan_bytes chunk s

  -- `as_chunks::<4>`, without the remainder.
  unfoldable pub scan_chunks : List ℕ → Scan → Step
  scan_chunks (b0 ∷ b1 ∷ b2 ∷ b3 ∷ bytes) s =
      and_step (scan_chunk (b0 ∷ b1 ∷ b2 ∷ b3 ∷ []) s) (scan_chunks bytes)
  scan_chunks bytes s = going s

-- The end of `find_free_clusters_from`: the run in progress is closed too.
abbrev pub last_run :
    {E : Type 0} → Option AllocatedRun × Option AllocatedRun → Result (ExFatError E) AllocatedRun
last_run (some run, longest) = ok run
last_run (none, some run) = ok run
last_run (none, none) = err ExFatError.disk_full

abbrev pub finish : {E : Type 0} → SearchPolicy → Step → Result (ExFatError E) AllocatedRun
finish policy (found run) = ok run
finish policy (going s) = last_run (closed policy s.first_cluster s.count s.longest)
finish policy (stopped s) = last_run (closed policy s.first_cluster s.count s.longest)
