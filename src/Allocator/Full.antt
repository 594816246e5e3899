-- ===== src/Allocator/Full.antt =====
-- When the search answers that the disk is full, nothing was missed.
use exfat_slim.Base.{
  ℕ, zero, suc, ◌+◌, ◌-◌, ◌*◌, ◌/◌, ◌≤◌, ◌<◌, ◌≡◌, ◌⊎◌, refl, Bool-cases, false, ◌||◌, inl, inr,
  ltb, leb, arith,
}
use native.Mathlib.Nat.{div-add-mod', mul-le-mul_right}
use exfat_slim.Error.{Result, ok, err, stuck, ExFatError}
use exfat_slim.Device.{BlockDevice, Storage}
use exfat_slim.Action.{Ensures, outcomes}
use exfat_slim.SlotCache.{fetch}
use exfat_slim.SlotCache.Errors.{IsIo, OnlyIo, and_then-OnlyIo, put_part-OnlyIo, fetch-OnlyIo}
use exfat_slim.Bitmap.{pos_of, first_cluster_of}
use exfat_slim.FreeRun.{
  SearchPolicy, AllocatedRun, Scan, Step, going, found, stopped, scan_chunks, finish,
}
use exfat_slim.FreeRun.Sound.{IsFreeRun}
use exfat_slim.FreeRun.Answer.{IsAnswer, finish-IsAnswer}
use exfat_slim.Allocator.{
  Session, on_cache, cached, with_cached, and_sector, scan_sectors, finish_with,
  find_free_clusters_from,
}
use exfat_slim.Allocator.State.{IsSound, is_clear, Looks}
use exfat_slim.Allocator.Search.{scan_sectors-Answers, Answers, sector_start, Looks-refl}

-- What holds if an error is that the disk is full.
abbrev pub IfFull : {E : Type 0} → ExFatError E → Type 0 → Type 0
IfFull ExFatError.disk_full P = P
IfFull e P = Unit {0}

if_full : {E P : Type 0} (e : ExFatError E) → P → IfFull e P
if_full ExFatError.disk_full p = p
if_full e p = tt

if_io : {E : Type 0} (P : Type 0) (e : ExFatError E) → IsIo e → IfFull e P
if_io P (ExFatError.io e) h = tt
if_io P e h = absurd h

pub IfFull-map : {E : Type 0} (P Q : Type 0) (e : ExFatError E) → (P → Q) → IfFull e P → IfFull e Q
IfFull-map P Q ExFatError.disk_full f p = f p
IfFull-map P Q e f p = tt

module _ (d : BlockDevice) (size : ℕ) (policy : SearchPolicy) (from end num first_sector : ℕ) where
  and_sector-OnlyIo :
      (step : Step)
      (f : Scan → Session d.State → Result (ExFatError d.Error) Step × Session d.State)
      (s : Session d.State)
      → ((scan : Scan) → OnlyIo (f scan s))
      → OnlyIo (and_sector d size step f s)
  and_sector-OnlyIo (going scan) f s h = h scan
  and_sector-OnlyIo (found run) f s h = tt
  and_sector-OnlyIo (stopped scan) f s h = tt

  scan_sectors-OnlyIo :
      (count sector : ℕ) (scan : Scan) (s : Session d.State)
      → OnlyIo (scan_sectors d size policy from end num first_sector count sector scan s)
  unfolding scan_sectors
  scan_sectors-OnlyIo zero sector scan s = tt
  scan_sectors-OnlyIo (suc count) sector scan s =
      and_then-OnlyIo (on_cache d size (fetch d (first_sector + sector)) s) _
        (put_part-OnlyIo (λ t. with_cached t s) (fetch d (first_sector + sector) (cached s))
          (fetch-OnlyIo d _ (cached s)))
        (λ block t.
          and_sector-OnlyIo (scan_chunks policy from end num block scan)
            (scan_sectors d size policy from end num first_sector count (suc sector)) t
            (λ scan. scan_sectors-OnlyIo count (suc sector) scan t))

module _ {d : BlockDevice} (st : Storage d) (size : ℕ) where
  -- No cluster of the heap from `from` on that has a bit in the bitmap is clear.
  abbrev pub NoneClear : ℕ → Session d.State → Type 0
  NoneClear from s =
      (x : ℕ)
      → from ≤ x
      → x < 2 + s.alloc.bitmap.cluster_count
      → x < 2 + s.alloc.bitmap.num_sectors * (size * 8)
      → is_clear st size s x ≡ false

  -- The answers of a search from `from` on.
  abbrev pub Searched :
      ℕ → ℕ → Session d.State → Result (ExFatError d.Error) AllocatedRun × Session d.State → Type 0
  Searched from num s (ok run, t) =
      (2 ≤ from)
      × IsFreeRun from (2 + s.alloc.bitmap.cluster_count) num (is_clear st size s) run
      × Looks st size s t
  Searched from num s (err e, t) = IfFull e (NoneClear from s × Looks st size s t)
  Searched from num s (stuck, t) = ⊥

  module _ (s : Session d.State) (policy : SearchPolicy) (from num n : ℕ) (hn : 0 < num)
      (hs : 0 < size) (four : size ≡ 4 * n) (two : 2 ≤ from) where
    answered :
        (r : Result (ExFatError d.Error) AllocatedRun) (t : Session d.State) (id : ℕ)
        → 2 + s.alloc.bitmap.num_sectors * (size * 8) ≤ id
        → Looks st size s t
        → IsAnswer d.Error policy from
            (2 + s.alloc.bitmap.cluster_count)
            num
            (is_clear st size s)
            id
            r
        → Searched from num s (r, t)
    answered (ok run) t id le look h = (two, h, look)
    answered (err e) t id le look h =
        if_full e ((λ x hx he hb. h x hx he (omega (arith, hb, le))), look)
    answered stuck t id le look h = h

    ended :
        (sector : ℕ) (r : Result (ExFatError d.Error) Step × Session d.State)
        → s.alloc.bitmap.num_sectors ≤ sector
        → Ensures
            (Answers st size s policy from
              (2 + s.alloc.bitmap.cluster_count)
              num
              n
              hn
              hs
              four
              sector)
            (λ t. Unit {0})
            r
        → OnlyIo r
        → Searched from num s (finish_with d size policy r)
    unfolding sector_start
    ended sector (ok step, t) le h io =
        let (steps, look) = outcomes h in
        answered (finish policy step) t (2 + sector * (size * 8))
          (omega
            (arith, mul-le-mul_right {m = s.alloc.bitmap.num_sectors} {n = sector} (size * 8) le))
          look
          (finish-IsAnswer d.Error policy from (2 + s.alloc.bitmap.cluster_count) num
            (is_clear st size s) _ step steps)
    ended sector (err e, t) le h io = if_io _ e io
    ended sector (stuck, t) le h io = outcomes h

  not_full :
      (num : ℕ) (s : Session d.State) (from : ℕ)
      → IsSound st size s
      → (2 + s.alloc.bitmap.cluster_count ≤ from)
        ⊎ (s.alloc.bitmap.num_sectors ≤ (from - 2) / (size * 8))
      → 2 ≤ from
      → NoneClear from s
  not_full num s from v (inl h) two x hx he hb = absurd (omega arith)
  not_full num s from v (inr h) two x hx he hb = absurd (
      omega (
        arith,
        div-add-mod' (from - 2) (size * 8),
        mul-le-mul_right {m = s.alloc.bitmap.num_sectors} {n = (from - 2) / (size * 8)} (size * 8)
            h,
      ))

  -- The search from a cluster on, through the cache, either returns a run of clusters whose bits are
  -- clear, not below that cluster, within the heap and no longer than asked for, or answers that the
  -- disk is full, and then no cluster from there to the end of the heap and of the bitmap is clear,
  -- or fails with another error. In the first two cases nothing that the cache shows has changed.
  -- The hypotheses: some clusters are asked for, and sectors have a positive multiple of four bytes.
  pub find_free_clusters_from-Searched :
      (from num n : ℕ) (policy : SearchPolicy) (s : Session d.State)
      → 0 < num
      → 0 < size
      → size ≡ 4 * n
      → IsSound st size s
      → Searched from num s (find_free_clusters_from d size from num policy s)
  unfolding find_free_clusters_from pos_of first_cluster_of sector_start
  find_free_clusters_from-Searched from num n policy s hn hs four v =
      elim (Bool-cases (ltb from 2)) [
        | inl low ↦ rw low tt
        | inr high ↦
            let two : 2 ≤ from = ground arith in
            elim (Bool-cases (
              leb (2 + s.alloc.bitmap.cluster_count) from
              || leb s.alloc.bitmap.num_sectors ((from - 2) / (size * 8)))) [
                | inl behind ↦
                    rw (high, behind)
                      (not_full num s from v (ground (arith, behind)) two, Looks-refl st size s v)
                | inr inside ↦
                    rw (high, inside)
                      (ended s policy from num n hn hs four two _ _ (omega arith)
                        (scan_sectors-Answers st size s policy from
                          (2 + s.alloc.bitmap.cluster_count) num n hn hs four
                          (s.alloc.bitmap.num_sectors - (from - 2) / (size * 8))
                          ((from - 2) / (size * 8)) _ s (Looks-refl st size s v) v (start two)
                          (refl, hn, tt, λ x hx hx'. behind_start x two hx hx'))
                        (scan_sectors-OnlyIo d size policy from (2 + s.alloc.bitmap.cluster_count)
                          num s.alloc.bitmap.first_sector
                          (s.alloc.bitmap.num_sectors - (from - 2) / (size * 8))
                          ((from - 2) / (size * 8)) _ s))
              ]
      ]
    where
      start :
          2 ≤ from
          → (from - 2) / (size * 8) * (size * 8) + 0 + 2 ≡ 2 + (from - 2) / (size * 8) * (size * 8)
      start two = omega arith

      behind_start :
          (x : ℕ)
          → 2 ≤ from
          → from ≤ x
          → x < (from - 2) / (size * 8) * (size * 8) + 0 + 2
          → is_clear st size s x ≡ false
      behind_start x h hx hx' = absurd (omega (arith, div-add-mod' (from - 2) (size * 8)))
