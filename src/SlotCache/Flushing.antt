-- ===== src/SlotCache/Flushing.antt =====
-- Flushing: after it the device has what the cache shows, at every sector or at one.
use exfat_slim.Base.{
  ℕ, zero, suc, ◌+◌, ◌<◌, ◌≡◌, refl, sym, subst, ◌∙◌, Bool-cases, true, false, inl, inr, length,
  ◌==◌, arith,
}
use exfat_slim.Device.{BlockDevice, Storage}
use exfat_slim.Action.{Ensures, returned, bind, mono}
use exfat_slim.SlotCache.{
  Cached, slot_at, flush_slot, flush_from, flush, flush_sector, flush_sector_from, write_back,
}
use exfat_slim.SlotCache.View.{holds, AllClean-at, shown-at, shown_of_Uncached, shown_of_clean}
use exfat_slim.SlotCache.Coherence.{Keeps-hand, Uncached-misses}
use exfat_slim.SlotCache.Victim.{Coherent, SameView, SameView-trans, NotDirty, write_back-Ensures}
use exfat_slim.SlotCache.Memory.{view, clean_agrees}

module _ {d : BlockDevice} (st : Storage d) where
  open st use {contents}

  SameView-refl : (s : Cached d.State) → Coherent st s → SameView st s s
  SameView-refl s v = Keeps-hand (contents s.dev) s.slots s.slots.hand v v.hand_in

  abbrev Flushed : ℕ → Cached d.State → Cached d.State → Type 0
  Flushed i s t =
      SameView st s t
      × NotDirty st i t
      × ((j : ℕ) → NotDirty st j s → NotDirty st j t)
      × ((x : ℕ) → holds (slot_at t.slots.cache i) x ≡ holds (slot_at s.slots.cache i) x)

  flush_slot-Flushed :
      (i : ℕ) (s : Cached d.State)
      → Coherent st s
      → i < length s.slots.cache
      → Ensures (λ _ t. Flushed i s t) (SameView st s) (flush_slot d i s)
  unfolding flush_slot write_back
  flush_slot-Flushed i s v h = elim (Bool-cases (slot_at s.slots.cache i).is_dirty) [
    | inl dirty ↦ rw dirty (write_back-Ensures st i s v h dirty)
    | inr clean ↦ rw clean (returned (SameView-refl s v, (h, clean), (λ j q. q), (λ x. refl)))
  ]

  flush_from-Ensures :
      (count i : ℕ) (s : Cached d.State)
      → Coherent st s
      → i + count ≡ length s.slots.cache
      → ((j : ℕ) → j < i → NotDirty st j s)
      → Ensures
          (λ _ t. SameView st s t × ((j : ℕ) → j < i + count → NotDirty st j t))
          (SameView st s)
          (flush_from d count i s)
  unfolding flush_from
  flush_from-Ensures zero i s v e done = returned (SameView-refl s v, (λ j h. done j (omega arith)))
  flush_from-Ensures (suc count) i s v e done =
      bind (flush_slot-Flushed i s v (omega arith))
        (λ _ t (same, clean, keep, labels).
          mono
            (flush_from-Ensures count (suc i) t same.coherent (omega (arith, same.same_length))
              (λ j h. elim (Bool-cases (j == i)) [
                | inl q ↦ subst (λ k. NotDirty st k t) (sym (eq j q)) clean
                | inr q ↦ keep j (done j (ground arith))
              ]))
            (λ _ u (rest, all). (SameView-trans st same rest, (λ j h. all j (omega arith))))
            (λ u rest. SameView-trans st same rest))
        (λ t same. same)
    where
      eq : (j : ℕ) → (j == i) ≡ true → j ≡ i
      eq j q = ground arith

  -- `flush` writes every dirty slot back: the device then has, at every sector, what the cache
  -- shows, and the cache shows what it did. If a write fails, no sector looks different.
  pub flush-Ensures :
      (s : Cached d.State)
      → Coherent st s
      → Ensures
          (λ _ t. SameView st s t × ((x : ℕ) → contents t.dev x ≡ view st s x))
          (SameView st s)
          (flush d s)
  unfolding flush
  flush-Ensures s v =
      mono
        (flush_from-Ensures (length s.slots.cache) 0 s v (omega arith)
          (λ j h. absurd (omega arith)))
        (λ _ t (same, clean). (
          same,
          λ x.
              sym (
                shown_of_clean (contents t.dev) t.slots.cache x same.coherent.clean
                  (λ i h. (clean i (omega (arith, h, same.same_length))).1))
              ∙ same.same_shown x,
        ))
        (λ t same. same)

  -- A slot with a label that is no default is valid.
  labelled :
      (i x : ℕ) (s : Cached d.State)
      → Coherent st s
      → 0 < x
      → i < length s.slots.cache
      → ((slot_at s.slots.cache i).sector_id == x) ≡ true
      → holds (slot_at s.slots.cache i) x ≡ true
  labelled i x s v hx h e =
      let k = AllClean-at (contents s.dev) s.slots.cache i h v.clean in
      elim (Bool-cases (slot_at s.slots.cache i).is_valid) [
        | inl valid ↦ rw (e, valid) refl
        | inr free ↦ ground (arith, k.fresh free)
      ]

  -- The device has what a slot that is not dirty holds.
  flushed_here :
      (i x : ℕ) (t : Cached d.State)
      → Coherent st t
      → NotDirty st i t
      → holds (slot_at t.slots.cache i) x ≡ true
      → contents t.dev x ≡ view st t x
  flushed_here i x t v (h, clean) e = sym (
      shown-at (contents t.dev) t.slots.cache i x h (v.unique x) e
      ∙ clean_agrees (contents t.dev) (slot_at t.slots.cache i) x
          (AllClean-at (contents t.dev) t.slots.cache i h v.clean) clean e)

  -- No slot from `i` on is labelled with sector `x`, or slot `i` is.
  flush_sector_from-Ensures :
      (count i x : ℕ) (s : Cached d.State)
      → Coherent st s
      → 0 < x
      → i + count ≡ length s.slots.cache
      → ((j : ℕ) → j < i → holds (slot_at s.slots.cache j) x ≡ false)
      → Ensures
          (λ _ t. SameView st s t × (contents t.dev x ≡ view st t x))
          (SameView st s)
          (flush_sector_from d count i x s)
  unfolding flush_sector_from
  flush_sector_from-Ensures zero i x s v hx e missed = returned (
    SameView-refl s v,
    sym (
        shown_of_Uncached (contents s.dev) s.slots.cache x
          (Uncached-misses s.slots.cache x (λ j h. missed j (omega arith)))),
  )
  flush_sector_from-Ensures (suc count) i x s v hx e missed =
      elim (Bool-cases ((slot_at s.slots.cache i).sector_id == x)) [
        | inl found ↦ rw found (
            mono (flush_slot-Flushed i s v (omega arith))
              (λ _ t (same, clean, keep, labels). (
                same,
                flushed_here i x t same.coherent clean
                    (labels x ∙ labelled i x s v hx (omega arith) found),
              ))
              (λ t same. same))
        | inr other ↦ rw other (
            flush_sector_from-Ensures count (suc i) x s v hx (omega arith) (λ j h.
              elim (Bool-cases (j == i)) [
                | inl q ↦ ground (arith, other)
                | inr q ↦ missed j (ground arith)
              ]))
      ]

  -- `flush_sector` brings one sector to the device, for any sector but 0: an unused slot is
  -- labelled 0, and the search stops there.
  pub flush_sector-Ensures :
      (x : ℕ) (s : Cached d.State)
      → Coherent st s
      → 0 < x
      → Ensures
          (λ _ t. SameView st s t × (contents t.dev x ≡ view st s x))
          (SameView st s)
          (flush_sector d x s)
  unfolding flush_sector
  flush_sector-Ensures x s v hx =
      mono
        (flush_sector_from-Ensures (length s.slots.cache) 0 x s v hx (omega arith)
          (λ j h. absurd (omega arith)))
        (λ _ t (same, e). (same, e ∙ same.same_shown x)) (λ t same. same)
