-- ===== src/Allocator/Refusing.antt =====
-- Marking a run with a cluster that the bitmap has no bit for (`mark_allocated`, src/allocation.rs).
use exfat_slim.Base.{
  ℕ, ◌+◌, ◌-◌, ◌*◌, ◌/◌, ◌^◌, ◌≤◌, ◌<◌, ◌≡◌, ◌⊎◌, refl, Bool, Bool-cases, true, false, ◌||◌, inl,
  inr, ltb, leb, ◌==◌, div_mono, arith,
}
use exfat_slim.Error.{err, ExFatError}
use exfat_slim.Device.{BlockDevice}
use exfat_slim.Bitmap.{pos_of}
use exfat_slim.FreeRun.{AllocatedRun}
use exfat_slim.Allocator.{Session, mark_allocated}

module _ (d : BlockDevice) (size : ℕ) where
  -- The refusal by the first and the last cluster of a run.
  refuses_ends :
      (run : AllocatedRun) (allocated : Bool) (s : Session d.State)
      → 0 < run.cluster_count
      → (run.first_cluster < 2)
        ⊎ ((2 ^ 32 ≤ run.first_cluster + (run.cluster_count - 1))
            ⊎ ((2 + s.alloc.bitmap.cluster_count ≤ run.first_cluster + (run.cluster_count - 1))
                ⊎ (s.alloc.bitmap.num_sectors
                    ≤ (pos_of size (run.first_cluster + (run.cluster_count - 1))).sector)))
      → mark_allocated d size run allocated s
        ≡ (err (ExFatError.invalid_cluster_id run.first_cluster), s)
  unfolding mark_allocated
  refuses_ends run allocated s h bad =
      let more : (run.cluster_count == 0) ≡ false = ground arith in
      elim (Bool-cases (ltb run.first_cluster 2)) [
        | inl low ↦ rw (more, low) refl
        | inr high ↦
            elim (Bool-cases (ltb (run.first_cluster + (run.cluster_count - 1)) (2 ^ 32))) [
              | inr long ↦ rw (more, high, long) refl
              | inl short ↦
                  let behind : (leb (2 + s.alloc.bitmap.cluster_count)
                          (run.first_cluster + (run.cluster_count - 1))
                        || leb s.alloc.bitmap.num_sectors
                            ((pos_of size (run.first_cluster + (run.cluster_count - 1))).sector))
                      ≡ true =
                    ground arith in
                  rw (more, high, short, behind) refl
            ]
      ]

  -- A cluster that has no bit in the bitmap: it is below cluster 2, does not fit in 32 bits, or lies
  -- behind the heap or behind the sectors of the bitmap.
  abbrev pub HasNoBit : Session d.State → ℕ → Type 0
  HasNoBit s x =
      (x < 2)
      ⊎ ((2 ^ 32 ≤ x)
          ⊎ ((2 + s.alloc.bitmap.cluster_count ≤ x)
              ⊎ (s.alloc.bitmap.num_sectors ≤ (pos_of size x).sector)))

  -- A run with any cluster that has no bit, at its ends or between them, is refused before anything
  -- changes: no cluster of it is marked. A sector has at least one byte.
  pub mark_allocated-refuses :
      (run : AllocatedRun) (allocated : Bool) (x : ℕ) (s : Session d.State)
      → 0 < size
      → run.first_cluster ≤ x
      → x < run.first_cluster + run.cluster_count
      → HasNoBit s x
      → mark_allocated d size run allocated s
        ≡ (err (ExFatError.invalid_cluster_id run.first_cluster), s)
  unfolding pos_of
  mark_allocated-refuses run allocated x s hs lo up missing =
      refuses_ends run allocated s (omega arith) (elim missing [
        | inl low ↦ inl (omega arith)
        | inr (inl long) ↦ inr (inl (omega arith))
        | inr (inr (inl behind)) ↦ inr (inr (inl (omega arith)))
        | inr (inr (inr outside)) ↦
            let later : (x - 2) / (size * 8)
                ≤ (run.first_cluster + (run.cluster_count - 1) - 2) / (size * 8) =
              div_mono (size * 8) (x - 2) (run.first_cluster + (run.cluster_count - 1) - 2)
                (omega arith) (omega arith) in
            inr (inr (inr (omega (arith, later, outside))))
      ])
