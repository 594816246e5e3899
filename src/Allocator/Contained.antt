-- ===== src/Allocator/Contained.antt =====
-- Marking clusters writes to the sectors of the bitmap only.
use exfat_slim.Base.{
  ℕ, ◌+◌, ◌-◌, ◌^◌, ◌≤◌, ◌<◌, ◌≡◌, refl, ap, ◌∙◌, Bool, Bool-cases, true, ◌||◌, inl, inr, some,
  List, [], ◌∷◌, ltb, leb, ◌==◌, arith,
}
use exfat_slim.Word.{IsBlock}
use exfat_slim.Device.{Block, BlockDevice, Storage}
use exfat_slim.Action.{Ensures, returned, raised, bind, mono, within, both}
use exfat_slim.SlotCache.Operations.{update-Ensures}
use exfat_slim.SlotCache.Regions.{IsStocked, Spares}
use exfat_slim.SlotCache.Regions.Operations.{update-Confines, confined}
use exfat_slim.Bitmap.{pos_of, BitmapChunk, run_chunks, set_bit_range}
use exfat_slim.Bitmap.Bits.{set_bit_range-is_free_at}
use exfat_slim.Bitmap.Chunks.{AreProper, SectorsUpTo, chunks-in_chunks, chunks-SectorsUpTo}
use exfat_slim.FreeRun.{AllocatedRun}
use exfat_slim.Allocator.{
  Session, cached, with_cached, mark_chunk, mark_chunks, mark_until, mark_allocated,
}
use exfat_slim.Allocator.State.{IsSound}
use exfat_slim.Allocator.Marking.{mark_chunk-Marked}

module _ {d : BlockDevice} (st : Storage d) (region : ℕ → Bool) (size : ℕ) where
  -- From `s` to `t` the device has changed in the region only, and the cache holds none but its
  -- sectors.
  pub record Contained (s t : Session d.State) : Type 0 where
    pub stocked : IsStocked st region (IsBlock size) (cached t)
    pub spares : Spares st region (IsBlock size) (cached s) (cached t)

  -- The sectors of the bitmap belong to the region.
  abbrev pub Owns : Session d.State → Type 0
  Owns s =
      (k : ℕ) → k < s.alloc.bitmap.num_sectors → region (s.alloc.bitmap.first_sector + k) ≡ true

  abbrev Away : Session d.State → Session d.State → Type 0
  Away s t = Spares st region (IsBlock size) (cached s) (cached t)

  mark_chunk-Contained :
      (s : Session d.State) (allocated : Bool) (chunk : BitmapChunk)
      → IsSound st size s
      → IsStocked st region (IsBlock size) (cached s)
      → region (s.alloc.bitmap.first_sector + chunk.sector) ≡ true
      → AreProper size (chunk ∷ [])
      → Ensures (λ _ t. Contained s t) (Away s) (mark_chunk d size allocated chunk s)
  unfolding mark_chunk
  mark_chunk-Contained s allocated chunk v w ours (lt, le, _) =
      let sector_id = s.alloc.bitmap.first_sector + chunk.sector in
      let change = set_bit_range (chunk.end - chunk.start) chunk.start allocated in
      bind {P = λ _ t. Contained s t} {Q = Away s}
        (within (λ c. with_cached c s)
          (confined st region (IsBlock size) (cached s)
            (update-Ensures st sector_id change (cached s) v.coherent)
            (update-Confines st region (IsBlock size) sector_id change (cached s) v.coherent w ours
              keep))
          (λ _ c (stocked, spares). kept (with_cached c s) stocked spares) (λ c q. q))
        (λ _ t p. returned (record { stocked = p.stocked; spares = p.spares })) (λ t q. q)
    where
      kept :
          (t : Session d.State)
          → IsStocked st region (IsBlock size) (cached t)
          → Away s t
          → Contained s t
      kept t a b = record { stocked = a; spares = b }

      keep :
          (b : Block)
          → IsBlock size b
          → IsBlock size (set_bit_range (chunk.end - chunk.start) chunk.start allocated b)
      keep b (bytes, len) =
          let (bytes', len', bits) =
            set_bit_range-is_free_at (chunk.end - chunk.start) chunk.start allocated b bytes
              (omega (arith, len, le, lt)) in
          (bytes', len' ∙ len)

  Contained-trans : {s t u : Session d.State} → Contained s t → Contained t u → Contained s u
  Contained-trans p q = record { stocked = q.stocked; spares = λ x o. q.spares x o ∙ p.spares x o }

  mark_chunks-Contained :
      (chunks : List BitmapChunk) (bound : ℕ) (allocated : Bool) (s : Session d.State)
      → IsSound st size s
      → IsStocked st region (IsBlock size) (cached s)
      → Owns s
      → bound < s.alloc.bitmap.num_sectors
      → SectorsUpTo bound chunks
      → AreProper size chunks
      → Ensures (λ _ t. Contained s t) (Away s) (mark_chunks d size allocated chunks s)
  unfolding mark_chunks
  mark_chunks-Contained [] bound allocated s v w owns hb up proper =
      returned (record { stocked = w; spares = λ x o. refl })
  mark_chunks-Contained (chunk ∷ later) bound allocated s v w owns hb (low, up) (lt, le, rest) =
      bind
        (both (mark_chunk-Marked st size s v allocated chunk (lt, le, tt)) (
          mark_chunk-Contained s allocated chunk v w (owns chunk.sector (omega arith))
            (lt, le, tt)))
        (λ _ t (m, p).
          let same = m.same_bitmap in
          mono
            (mark_chunks-Contained later bound allocated t m.sound p.stocked (owns-eq t same)
              (omega (arith, ap (λ b. b.num_sectors) same, hb)) up rest)
            (λ _ u q. Contained-trans p q) (λ u q. λ x o. q x o ∙ p.spares x o))
        (λ t (_, q). q)
    where
      owns-eq : (t : Session d.State) → t.alloc.bitmap ≡ s.alloc.bitmap → Owns t
      owns-eq t e k h =
          ap (λ b. region (b.first_sector + k)) e
          ∙ owns k (omega (arith, ap (λ b. b.num_sectors) e, h))

  -- Marking a run, accepted or not, changes the device in the bitmap's sectors only.
  pub mark_allocated-Contained :
      (run : AllocatedRun) (allocated : Bool) (s : Session d.State)
      → 0 < size
      → IsSound st size s
      → IsStocked st region (IsBlock size) (cached s)
      → Owns s
      → Ensures (λ _ t. Contained s t) (Away s) (mark_allocated d size run allocated s)
  unfolding mark_allocated
  mark_allocated-Contained run allocated s hs v w owns =
      elim (Bool-cases (run.cluster_count == 0)) [
        | inl nothing ↦ rw nothing (returned (record { stocked = w; spares = λ x o. refl }))
        | inr more ↦ elim (Bool-cases (ltb run.first_cluster 2)) [
          | inl low ↦ rw (more, low) (raised (λ x o. refl))
          | inr high ↦ elim (Bool-cases (ltb last (2 ^ 32))) [
            | inl short ↦ rw (more, high, short) (until (ground arith) (ground arith))
            | inr long ↦ rw (more, high, long) (raised (λ x o. refl))
          ]
        ]
      ]
    where
      last : ℕ
      last = run.first_cluster + (run.cluster_count - 1)

      until :
          2 ≤ run.first_cluster
          → 0 < run.cluster_count
          → Ensures (λ _ t. Contained s t) (Away s) (mark_until d size run allocated (some last) s)
      until high more =
          let r = run_chunks run.first_cluster run.cluster_count in
          let (proper, bits) = chunks-in_chunks size hs run.cluster_count r (omega arith) high in
          let up = chunks-SectorsUpTo size hs run.cluster_count r last high (omega arith) in
          elim (Bool-cases (
            leb (2 + s.alloc.bitmap.cluster_count) last
            || leb s.alloc.bitmap.num_sectors ((pos_of size last).sector))) [
              | inl bad ↦ rw bad (raised (λ x o. refl))
              | inr good ↦ rw good (
                  mark_chunks-Contained _ ((pos_of size last).sector) allocated s v w owns
                    (ground arith) up proper)
            ]
