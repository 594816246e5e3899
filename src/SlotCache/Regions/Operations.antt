-- ===== src/SlotCache/Regions/Operations.antt =====
-- The public operations of a cache that serves one region of the device, and what they mean for the
-- other caches over it.
use exfat_slim.Base.{
  ℕ, zero, suc, ◌≡◌, refl, Bool, Bool-cases, true, false, inl, inr, Option, none, some, List, [],
  ◌∷◌, length, ◌==◌, arith,
}
use exfat_slim.Error.{Result, ok, err, stuck, ExFatError}
use exfat_slim.Device.{Block, BlockDevice, Storage}
use exfat_slim.Action.{Outcomes, outcomes, Ensures, returned, raised, and_then, modify}
use exfat_slim.SlotCache.{
  Slot, SlotCache, Cached, slot_at, cache_hit, modify_slot, change_slots, flush_slot, flush_from,
  flush, flush_sector_from, flush_sector, write_back, read_inner, update, overwrite, write,
}
use exfat_slim.SlotCache.View.{holds, shown, Uncached, AllClean-ext, shown_ext}
use exfat_slim.SlotCache.Coherence.{IsCoherent}
use exfat_slim.SlotCache.Victim.{Coherent}
use exfat_slim.SlotCache.Memory.{Fetched, read_inner-Fetched}
use exfat_slim.SlotCache.Regions.{
  Spares, Confines, IsStocked, AllInside, Inside-at, Inside-set, after-Confines, if-Confines,
  when_true-Confines, write_dev-Confines, write_back-Confines, read_inner-Confines,
  cache_hit_loop-inside, clean-IsInside,
}

module _ {d : BlockDevice} (st : Storage d) (region : ℕ → Bool) (P : Block → Type 0) where
  -- Changing the bytes of a sector of the region, in a coherent cache that serves the region: after a
  -- return and after an error the device is as it was outside the region; after a return all blocks
  -- of the region, cached or on the device, still have a property that they had and that the change
  -- keeps.
  pub update-Confines :
      (x : ℕ) (change : Block → Block) (s : Cached d.State)
      → Coherent st s
      → IsStocked st region P s
      → region x ≡ true
      → ((b : Block) → P b → P (change b))
      → Confines st region P s (update d x change s)
  unfolding update modify_slot
  update-Confines x change s v w hx keep =
      joined (read_inner d x s) (outcomes (read_inner-Fetched st x s v))
        (read_inner-Confines st region P x s w hx)
    where
      joined :
          (r : Result (ExFatError d.Error) ℕ × Cached d.State)
          → Outcomes (λ i t. Fetched st s t x i) (λ t. Unit {0}) r
          → Confines st region P s r
          → Confines st region P s (and_then r (λ i. modify (change_slots (modify_slot i change))))
      joined (ok i, t) p (h, same) =
          let slot = slot_at t.slots.cache i in
          let (ours, good) =
            Inside-at st region P t.slots.cache i h.inside (ground (arith, p.in_slot)) in
          (
            record {
              inside =
                  Inside-set st region P t.slots.cache i _ h.inside
                    (λ e. (ours, keep slot.block good));
              stocked = h.stocked;
            },
            same,
          )
      joined (err e, t) p h = h
      joined (stuck, t) p h = h

  -- The write of a whole block, which has the property, to a sector of the region, by a cache that
  -- serves the region: after a return and after an error the device is as it was outside the region;
  -- after a return all blocks of the region still have the property.
  pub write-Confines :
      (x : ℕ) (b : Block) (s : Cached d.State)
      → IsStocked st region P s
      → region x ≡ true
      → P b
      → Confines st region P s (write d x b s)
  unfolding write cache_hit
  write-Confines x b s v hx hb =
      write_dev-Confines st region P x b _
        (record {
          inside =
              overwritten _ _
                (cache_hit_loop-inside st region P (length s.slots.cache) x s.slots v.inside);
          stocked = v.stocked;
        })
        hx hb
    where
      overwritten :
          (o : Option ℕ) (c : SlotCache)
          → AllInside st region P c.cache
          → AllInside st region P (overwrite d o b c).cache
      overwritten none c h = h
      overwritten (some i) c h = Inside-set st region P c.cache i _ h (λ e. (
        (clean-IsInside st region P (slot_at c.cache i) (Inside-at st region P c.cache i h) e).0,
        hb,
      ))

  flush_slot-Confines :
      (i : ℕ) (s : Cached d.State)
      → IsStocked st region P s
      → Confines st region P s (flush_slot d i s)
  unfolding flush_slot write_back
  flush_slot-Confines i s v =
      when_true-Confines st region P s (slot_at s.slots.cache i).is_dirty _ _ s
        (λ dirty. write_back-Confines st region P i s v dirty) (λ e. (v, λ x o. refl))

  flush_from-Confines :
      (count i : ℕ) (s : Cached d.State)
      → IsStocked st region P s
      → Confines st region P s (flush_from d count i s)
  unfolding flush_from
  flush_from-Confines zero i s v = (v, λ x o. refl)
  flush_from-Confines (suc count) i s v =
      after-Confines st region P s (flush_slot d i s) _ (flush_slot-Confines i s v)
        (λ _ t w. flush_from-Confines count (suc i) t w)

  -- Writing the dirty slots of a cache that serves the region back: after a return and after an error
  -- the device is as it was outside the region; after a return all blocks of the region still have
  -- the property.
  pub flush-Confines :
      (s : Cached d.State) → IsStocked st region P s → Confines st region P s (flush d s)
  unfolding flush
  flush-Confines s v = flush_from-Confines (length s.slots.cache) 0 s v

  flush_sector_from-Confines :
      (count i sector : ℕ) (s : Cached d.State)
      → IsStocked st region P s
      → Confines st region P s (flush_sector_from d count i sector s)
  unfolding flush_sector_from
  flush_sector_from-Confines zero i sector s v = (v, λ x o. refl)
  flush_sector_from-Confines (suc count) i sector s v =
      if-Confines st region P s ((slot_at s.slots.cache i).sector_id == sector) _ _
        (λ e. flush_slot-Confines i s v) (λ e. flush_sector_from-Confines count (suc i) sector s v)

  -- The same for the slots of one sector.
  pub flush_sector-Confines :
      (sector : ℕ) (s : Cached d.State)
      → IsStocked st region P s
      → Confines st region P s (flush_sector d sector s)
  unfolding flush_sector
  flush_sector-Confines sector s v = flush_sector_from-Confines (length s.slots.cache) 0 sector s v

-- The pieces of one cache that another one over the same device relies on.
module _ {d : BlockDevice} (st : Storage d) (region : ℕ → Bool) (P : Block → Type 0) where
  open st use {contents}

  Uncached-outside :
      (slots : List Slot) (x : ℕ)
      → AllInside st region P slots
      → region x ≡ false
      → Uncached x slots
  Uncached-outside [] x h o = tt
  Uncached-outside (slot ∷ slots) x (h, hs) o = (
    elim (Bool-cases (holds slot x)) [
      | inl e ↦
          let (ours, good) = h (ground arith) in let q : slot.sector_id ≡ x = ground arith in cc
      | inr e ↦ e
    ],
    Uncached-outside slots x hs o,
  )

  -- A cache whose region the device keeps: it stays coherent and shows what it did.
  pub spared-Coherent :
      (c : SlotCache) (dev dev' : d.State)
      → AllInside st region P c.cache
      → ((x : ℕ) → region x ≡ true → contents dev' x ≡ contents dev x)
      → IsCoherent (contents dev) c
      → IsCoherent (contents dev') c
        × ((x : ℕ)
            → region x ≡ true
            → shown (contents dev') c.cache x ≡ shown (contents dev) c.cache x)
  spared-Coherent c dev dev' h same v = (
    record {
      hand_in = v.hand_in;
      unique = v.unique;
      clean =
          AllClean-ext (contents dev) (contents dev') c.cache
            (λ x. elim (Bool-cases (region x)) [
              | inl ours ↦ inl (same x ours)
              | inr away ↦ inr (Uncached-outside c.cache x h away)
            ])
            v.clean;
    },
    λ x o. shown_ext (contents dev) (contents dev') c.cache x (same x o),
  )

  -- A run that ends without running out of rounds.
  pub confined :
      {A : Type 0} {Post : A → Cached d.State → Type 0} {Q : Cached d.State → Type 0}
      {r : Result (ExFatError d.Error) A × Cached d.State} (s : Cached d.State)
      → Ensures Post Q r
      → Confines st region P s r
      → Ensures (λ _ t. IsStocked st region P t × Spares st region P s t) (Spares st region P s) r
  confined s (returned p) h = returned h
  confined s (raised q) h = raised h
