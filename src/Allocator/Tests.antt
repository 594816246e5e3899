-- ===== src/Allocator/Tests.antt =====
-- An allocator over a device in memory with sectors of four bytes, two of them with the bitmap of a
-- heap of 60 clusters.
use exfat_slim.Base.{some, ℕ, ◌+◌, ◌≡◌, refl, sym, subst, true, [], ◌∷◌, length, inl, inr, arith}
use exfat_slim.Word.{AreBytes}
use exfat_slim.Error.{err, ExFatError}
use exfat_slim.Device.{Block}
use exfat_slim.Action.{Ensures}
use exfat_slim.SlotCache.{new}
use exfat_slim.SlotCache.Tests.{memory, memory-Storage}
use exfat_slim.SlotCache.Initial.{new-Coherent}
use exfat_slim.Touched.{no_touched}
use exfat_slim.FreeRun.{AllocatedRun, longest_run}
use exfat_slim.FreeRun.Sound.{IsFreeRun}
use exfat_slim.Allocator.{
  Session, StoredChain, mark_allocated, find_free_clusters_from, find_free_clusters, allocate,
}
use exfat_slim.Allocator.State.{IsSound, is_clear}
use exfat_slim.Allocator.Marking.{Marked, in_run, mark_allocated-Ensures}
use exfat_slim.Allocator.Refusing.{mark_allocated-refuses}
use exfat_slim.Allocator.Full.{Searched, find_free_clusters_from-Searched}
use exfat_slim.Allocator.Allocate.{Located, find_free_clusters-Located, allocate-Ensures}

abbrev zeros : ℕ → Block
zeros x = 0 ∷ 0 ∷ 0 ∷ 0 ∷ []

abbrev session : Session (ℕ → Block)
session = record {
  alloc = record {
    bitmap = record { first_sector = 1; num_sectors = 2; cluster_count = 60 };
    cache = new 4 2;
    next_search_cluster = 2;
  };
  touched = no_touched;
  dev = zeros;
}

session-IsSound : IsSound memory-Storage 4 session
session-IsSound =
    let (coherent, shows) = new-Coherent memory-Storage 4 2 zeros (omega arith) in
    record {
      coherent = coherent;
      blocks = λ y.
          subst (λ (b : Block). AreBytes b × (length b ≡ 4)) (sym (shows y))
            ((omega arith, (omega arith, (omega arith, (omega arith, tt)))), refl);
    }

-- Thirty clusters cross the boundary between the two sectors of bitmap.
abbrev run : AllocatedRun
run = record { first_cluster = 20; cluster_count = 30 }

mark_allocated-Ensures_example :
    Ensures
      (λ _ t. Marked memory-Storage 4 session t (in_run run) true)
      (λ t. Unit {0})
      (mark_allocated memory 4 run true session)
mark_allocated-Ensures_example =
    mark_allocated-Ensures memory-Storage 4 run true session (omega arith) session-IsSound

find_free_clusters_from-Searched_example :
    Searched memory-Storage 4 10 12 session
      (find_free_clusters_from memory 4 10 12 longest_run session)
find_free_clusters_from-Searched_example =
    find_free_clusters_from-Searched memory-Storage 4 10 12 1 longest_run session (omega arith)
      (omega arith) refl session-IsSound

find_free_clusters-Located_example :
    Located memory-Storage 4 12 session
      (find_free_clusters memory 4 (some 10) 12 longest_run session)
find_free_clusters-Located_example =
    find_free_clusters-Located memory-Storage 4 (some 10) 12 1 longest_run session (omega arith)
      (omega arith) refl session-IsSound

allocate-Ensures_example :
    Ensures
      (λ run t.
        IsFreeRun 2 (2 + 60) 12 (is_clear memory-Storage 4 session) run
        × Marked memory-Storage 4 session t (in_run run) true)
      (λ t. Unit {0})
      (allocate memory 4 StoredChain.empty 12 session)
allocate-Ensures_example =
    allocate-Ensures memory-Storage 4 StoredChain.empty 12 1 session (omega arith) (omega arith)
      refl session-IsSound

-- The heap ends with cluster 61.
abbrev behind : AllocatedRun
behind = record { first_cluster = 60; cluster_count = 3 }

mark_allocated-refuses_example :
    mark_allocated memory 4 behind true session ≡ (err (ExFatError.invalid_cluster_id 60), session)
mark_allocated-refuses_example =
    mark_allocated-refuses memory 4 behind true 62 session (omega arith) (omega arith) (omega arith)
      (inr (inr (inl (omega arith))))
