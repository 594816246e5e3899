-- ===== src/Allocator/Allocate.antt =====
-- The search that starts again from the first cluster, and allocation.
use exfat_slim.Base.{
  ℕ, ◌+◌, ◌*◌, ◌/◌, ◌%◌, ◌-◌, ◌<◌, ◌≡◌, sym, ap, ◌∙◌, Bool, Bool-cases, true, not, inl, inr, Option,
  List, ltb, if◌then◌else◌, arith,
}
use exfat_slim.Error.{Result, ok, err, stuck, ExFatError}
use exfat_slim.Device.{BlockDevice, Storage}
use exfat_slim.Action.{Ensures, returned, raised, bind, and_then, modify, pure, ◌>>◌}
use exfat_slim.SlotCache.Memory.{view}
use exfat_slim.Bitmap.{pos_of}
use exfat_slim.Bitmap.Bits.{is_free_at}
use exfat_slim.FreeRun.{SearchPolicy, AllocatedRun, or_else}
use exfat_slim.FreeRun.Sound.{IsFreeRun}
use exfat_slim.Allocator.{
  Session, StoredChain, cached, find_free_clusters_from, or_wrap, find_free_clusters, search_for,
  allocate,
}
use exfat_slim.Allocator.State.{IsSound, is_clear, Looks}
use exfat_slim.Allocator.Marking.{Marked, in_run, mark_allocated-Ensures}
use exfat_slim.Allocator.Search.{Looks-trans}
use exfat_slim.Allocator.Full.{
  IfFull, IfFull-map, NoneClear, Searched, find_free_clusters_from-Searched,
}

module _ {d : BlockDevice} (st : Storage d) (size : ℕ) where
  is_clear-Looks :
      {s t : Session d.State}
      → Looks st size s t
      → (x : ℕ) → is_clear st size t x ≡ is_clear st size s x
  unfolding is_clear pos_of
  is_clear-Looks {s = s} {t = t} look x =
      ap (λ (b : List ℕ). is_free_at b ((x - 2) % (size * 8)))
        (look.same_view _
          ∙ ap (λ b. view st (cached s) (b.first_sector + (x - 2) / (size * 8))) look.same_bitmap)

  -- The answers of a search over the whole heap.
  abbrev pub Located :
      ℕ → Session d.State → Result (ExFatError d.Error) AllocatedRun × Session d.State → Type 0
  Located num s (ok run, t) =
      IsFreeRun 2 (2 + s.alloc.bitmap.cluster_count) num (is_clear st size s) run
      × Looks st size s t
  Located num s (err e, t) = IfFull e (NoneClear st size 2 s × Looks st size s t)
  Located num s (stuck, t) = ⊥

  NoneClear-Looks :
      {s t : Session d.State} → Looks st size s t → NoneClear st size 2 t → NoneClear st size 2 s
  NoneClear-Looks look none_clear x hx he hb =
      sym (is_clear-Looks look x)
      ∙ none_clear x hx (omega (arith, he, ap (λ b. b.cluster_count) look.same_bitmap))
          (before (ap (λ b. b.num_sectors) (sym look.same_bitmap)) hb)
    where
      before : {a b : ℕ} → a ≡ b → x < 2 + a * (size * 8) → x < 2 + b * (size * 8)
      before e h = omega (arith, h, ap (λ (k : ℕ). k * (size * 8)) e)

  IsFreeRun-Looks :
      {num : ℕ} {s t : Session d.State} {run : AllocatedRun}
      → Looks st size s t
      → IsFreeRun 2 (2 + t.alloc.bitmap.cluster_count) num (is_clear st size t) run
      → IsFreeRun 2 (2 + s.alloc.bitmap.cluster_count) num (is_clear st size s) run
  IsFreeRun-Looks look (pos, few, first, last, free) = (
    pos,
    few,
    first,
    omega (arith, last, ap (λ b. b.cluster_count) look.same_bitmap),
    λ x h h'. sym (is_clear-Looks look x) ∙ free x h h',
  )

  Looks-Located :
      (num : ℕ) {s t : Session d.State}
      (r : Result (ExFatError d.Error) AllocatedRun × Session d.State)
      → Looks st size s t
      → Searched st size 2 num t r
      → Located num s r
  Looks-Located num (ok run, u) look (two, free, look') =
      (IsFreeRun-Looks look free, Looks-trans st size look look')
  Looks-Located num (err e, u) look h =
      IfFull-map _ _ e
        (λ (none_clear, look'). (NoneClear-Looks look none_clear, Looks-trans st size look look')) h
  Looks-Located num (stuck, u) look h = h

  module _ (num n : ℕ) (policy : SearchPolicy) (s : Session d.State) (hn : 0 < num) (hs : 0 < size)
      (four : size ≡ 4 * n) where
    again : Session d.State → Result (ExFatError d.Error) AllocatedRun × Session d.State
    again = find_free_clusters_from d size 2 num policy

    wrapped :
        (from : ℕ) (r : Result (ExFatError d.Error) AllocatedRun × Session d.State)
        → Searched st size from num s r
        → Located num s (or_wrap d size from again r)
    unfolding again
    wrapped from (ok run, t) (two, (pos, few, first, last, free), look) =
        ((pos, few, omega arith, last, free), look)
    wrapped from (err ExFatError.disk_full, t) (none_clear, look) = elim (Bool-cases (ltb 2 from)) [
      | inl behind ↦ rw behind (
          Looks-Located num _ look
            (find_free_clusters_from-Searched st size 2 num n policy t hn hs four look.sound))
      | inr first ↦ rw first ((λ x hx he hb. none_clear x (ground arith) he hb), look)
    ]
    wrapped from (err e, t) h = tt
    wrapped from (stuck, t) h = h

    -- The cursor of the next search moves behind the run.
    advance : AllocatedRun → Session d.State → Session d.State
    advance run t = record t {
      alloc = record t.alloc { next_search_cluster = run.first_cluster + run.cluster_count };
    }

    advanced :
        (r : Result (ExFatError d.Error) AllocatedRun × Session d.State)
        → Located num s r
        → Located num s (and_then r (λ run. modify (advance run) >> pure run))
    unfolding advance
    advanced (ok run, t) (free, look) = (
      free,
      record {
        sound = record { coherent = look.sound.coherent; blocks = look.sound.blocks };
        same_view = look.same_view;
        same_bitmap = look.same_bitmap;
      },
    )
    advanced (err e, t) h = h
    advanced (stuck, t) h = h

  -- A search that may start anywhere and starts again from the first cluster: it returns a run of
  -- clear clusters within the heap, no longer than asked for, or, if it answers that the disk is
  -- full, no cluster of the heap that has a bit in the bitmap is clear. In both cases nothing that
  -- the cache shows has changed. The hypotheses: some clusters are asked for, sectors have a
  -- positive multiple of four bytes, and the session is sound.
  pub find_free_clusters-Located :
      (from : Option ℕ) (num n : ℕ) (policy : SearchPolicy) (s : Session d.State)
      → 0 < num
      → 0 < size
      → size ≡ 4 * n
      → IsSound st size s
      → Located num s (find_free_clusters d size from num policy s)
  unfolding find_free_clusters advance again
  find_free_clusters-Located from num n policy s hn hs four v =
      advanced num n policy s hn hs four _ (
        wrapped num n policy s hn hs four (or_else from s.alloc.next_search_cluster) _ (
          find_free_clusters_from-Searched st size (or_else from s.alloc.next_search_cluster) num n
            policy s hn hs four v))

  Located-Ensures :
      (num : ℕ) (s : Session d.State)
      (r : Result (ExFatError d.Error) AllocatedRun × Session d.State)
      → Located num s r
      → Ensures
          (λ run t.
            IsFreeRun 2 (2 + s.alloc.bitmap.cluster_count) num (is_clear st size s) run
            × Looks st size s t)
          (λ t. Unit {0})
          r
  Located-Ensures num s (ok run, t) h = returned h
  Located-Ensures num s (err e, t) h = raised tt
  Located-Ensures num s (stuck, t) h = absurd h

  Marked-after :
      {s t u : Session d.State} {f : ℕ → Bool} {allocated : Bool}
      → Looks st size s t
      → Marked st size t u f allocated
      → Marked st size s u f allocated
  Marked-after {f = f} {allocated = a} look p = record {
    sound = p.sound;
    same_bitmap = p.same_bitmap ∙ look.same_bitmap;
    bits =
        λ x hx. p.bits x hx ∙ ap (λ (o : Bool). if f x then not a else o) (is_clear-Looks look x);
  }

  -- Allocating clusters for a chain returns a run of at most so many clusters of the heap, all of
  -- them clear before, and afterwards the bits of exactly this run are set and every other bit is as
  -- it was; or it fails. The hypotheses are those of the search.
  pub allocate-Ensures :
      (chain : StoredChain) (count n : ℕ) (s : Session d.State)
      → 0 < count
      → 0 < size
      → size ≡ 4 * n
      → IsSound st size s
      → Ensures
          (λ run t.
            IsFreeRun 2 (2 + s.alloc.bitmap.cluster_count) count (is_clear st size s) run
            × Marked st size s t (in_run run) true)
          (λ t. Unit {0})
          (allocate d size chain count s)
  unfolding allocate
  allocate-Ensures chain count n s hn hs four v =
      bind
        (Located-Ensures count s _ (
          find_free_clusters-Located ((search_for d size chain).0) count n
            ((search_for d size chain).1) s hn hs four v))
        (λ run t (free, look).
          bind (mark_allocated-Ensures st size run true t hs look.sound)
            (λ _ u p. returned (free, Marked-after look p)) (λ u q. q))
        (λ t q. q)
