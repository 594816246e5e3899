-- ===== src/SlotCache/Operations.antt =====
-- The public operations of the cache, over any device that keeps its blocks.
use exfat_slim.Base.{
  ℕ, ◌≡◌, refl, sym, ap, subst, ◌∙◌, Bool-cases, true, false, inl, inr, Option, none, some, length,
  ◌==◌, arith, ==_iff,
}
use exfat_slim.Device.{Block, BlockDevice, Storage, Written}
use exfat_slim.Action.{Ensures, returned, bind, mono}
use exfat_slim.SlotCache.{
  SlotCache, Cached, slot_at, modify_slot, update, fetch, overwrite, write, write_dev, change_slots,
}
use exfat_slim.SlotCache.View.{
  shown, Uncached, AllClean-at, AllClean-ext, AtMostOne-elsewhere, shown-at, shown_of_Uncached,
  shown_ext,
}
use exfat_slim.SlotCache.Coherence.{Found, cache_hit-Found}
use exfat_slim.SlotCache.Victim.{Coherent, SameView, write_dev-Ensures}
use exfat_slim.SlotCache.Memory.{Stores, Stores-put_slot, Stored, view, Fetched, read_inner-Fetched}

-- A store after steps that no client sees.
Stores-after :
    {a b c : ℕ → Block} {k l m : SlotCache} {x : ℕ} {v w : Block}
    → length l.cache ≡ length k.cache
    → ((y : ℕ) → shown b l.cache y ≡ shown a k.cache y)
    → Stores b l c m x v
    → v ≡ w
    → Stores a k c m x w
Stores-after {x = x} {w = w} same_length same p e = record {
  coherent = p.coherent;
  same_length = p.same_length ∙ same_length;
  stored = λ y. rw (sym e, sym (same y)) (p.stored y);
}

module _ {d : BlockDevice} (st : Storage d) where
  open st use {contents}

  -- Reading a sector through the cache returns the block that the sector shows, changes what no
  -- sector shows, and leaves a coherent cache; the search for a slot to evict ends.
  pub fetch-Ensures :
      (x : ℕ) (s : Cached d.State)
      → Coherent st s
      → Ensures
          (λ b t. (b ≡ view st s x) × Coherent st t × ((y : ℕ) → view st t y ≡ view st s y))
          (λ t. Unit {0})
          (fetch d x s)
  unfolding fetch
  fetch-Ensures x s v =
      bind (read_inner-Fetched st x s v)
        (λ i t p. returned (
          sym (
                shown-at (contents t.dev) t.slots.cache i x p.slot_in (p.coherent.unique x)
                  p.in_slot)
              ∙ p.same_view x,
          p.coherent,
          p.same_view,
        ))
        (λ t q. q)

  modified :
      (s t : Cached d.State) (x i : ℕ) (change : Block → Block)
      → Fetched st s t x i
      → Stored st s (change_slots (modify_slot i change) t) x (change (view st s x))
  unfolding modify_slot
  modified s t x i change p =
      let e : (slot_at t.slots.cache i).sector_id ≡ x = ground (arith, p.in_slot) in
      let ev : (slot_at t.slots.cache i).is_valid ≡ true = ground (arith, p.in_slot) in
      let only = p.coherent.unique x in
      let k = AllClean-at (contents t.dev) t.slots.cache i p.slot_in p.coherent.clean in
      Stores-after p.same_length p.same_view
        (Stores-put_slot (contents t.dev) (contents t.dev) t.slots i x
          (record (slot_at t.slots.cache i) {
            is_dirty = true;
            block = change (slot_at t.slots.cache i).block;
          })
          p.coherent p.slot_in e ev (AtMostOne-elsewhere t.slots.cache i x p.slot_in only p.in_slot)
          (λ y q. refl) (record { dirty_valid = λ q. ev; clean = λ q. λ q'. cc; fresh = λ q. cc })
          (λ y other held. ground (arith, p.in_slot)))
        (ap change (
          sym (shown-at (contents t.dev) t.slots.cache i x p.slot_in only p.in_slot)
          ∙ p.same_view x))

  -- Changing a sector through the cache changes what that sector shows and no other.
  pub update-Ensures :
      (x : ℕ) (change : Block → Block) (s : Cached d.State)
      → Coherent st s
      → Ensures
          (λ _ t. Stored st s t x (change (view st s x)))
          (λ t. Unit {0})
          (update d x change s)
  unfolding update
  update-Ensures x change s v =
      bind (read_inner-Fetched st x s v) (λ i t p. returned (modified s t x i change p)) (λ t q. q)

  -- The write of a whole block, where the sector is cached and where it is not.
  abbrev Overwritten : ℕ → Block → Cached d.State → Cached d.State → Type 0
  Overwritten x b s t = Stored st s t x b × (contents t.dev x ≡ b)

  overwritten :
      (x : ℕ) (b : Block) (s : Cached d.State) (r : Option ℕ) (io : d.State)
      → Coherent st s
      → Found x s.slots r
      → Written st x b s.dev io
      → Overwritten x b s (record { slots = overwrite d r b s.slots; dev = io })
  overwritten x b s (some i) io v (h, e) w =
      let ex : (slot_at s.slots.cache i).sector_id ≡ x = ground (arith, e) in
      let ev : (slot_at s.slots.cache i).is_valid ≡ true = ground (arith, e) in
      let here : contents io x ≡ b = ground (arith, w x) in
      (
        Stores-put_slot (contents s.dev) (contents io) s.slots i x
            (record (slot_at s.slots.cache i) { block = b; is_dirty = false }) v h ex ev
            (AtMostOne-elsewhere s.slots.cache i x h (v.unique x) e)
            (λ y other. ground (arith, w y))
            (record { dirty_valid = λ q. cc; clean = λ q q'. rw ex (sym here); fresh = λ q. cc })
            (λ y other held. ground (arith, e)),
        here,
      )
  overwritten x b s none io v free w = (
    record {
      coherent = record {
        hand_in = v.hand_in;
        unique = v.unique;
        clean =
            AllClean-ext (contents s.dev) (contents io) s.slots.cache
              (λ y. elim (Bool-cases (x == y)) [
                | inl e ↦ inr (subst (λ z. Uncached z s.slots.cache) ((==_iff x y).0 e) free)
                | inr e ↦ inl (ground (arith, w y))
              ])
              v.clean;
      };
      same_length = refl;
      stored = λ y. elim (Bool-cases (x == y)) [
        | inl e ↦ rw e (
            shown_of_Uncached (contents io) s.slots.cache y
              (subst (λ z. Uncached z s.slots.cache) ((==_iff x y).0 e) free)
            ∙ ground (arith, w y))
        | inr e ↦
            rw e (shown_ext (contents s.dev) (contents io) s.slots.cache y (ground (arith, w y)))
      ];
    },
    ground (arith, w x),
  )

  -- The write of a whole block: the sector shows it, the device has it, and no other sector changes.
  pub write-Ensures :
      (x : ℕ) (b : Block) (s : Cached d.State)
      → Coherent st s
      → Ensures (λ _ t. Overwritten x b s t) (λ t. Unit {0}) (write d x b s)
  unfolding write
  write-Ensures x b s v =
      let (same, found) = cache_hit-Found (contents s.dev) x s.slots v in go _ same found
    where
      go :
          (r : Option ℕ) {c : SlotCache}
          → SameView st s (record s { slots = c })
          → Found x c r
          → Ensures
              (λ _ t. Overwritten x b s t)
              (λ t. Unit {0})
              (write_dev d x b (record s { slots = overwrite d r b c }))
      go r {c = c} same found =
          mono (write_dev-Ensures st x b (record s { slots = overwrite d r b c }))
            (λ _ t (e, w).
              let (p, q) = overwritten x b (record s { slots = c }) r t.dev same.coherent found w in
              rw e (Stores-after same.same_length same.same_shown p refl, q))
            (λ t q. tt)
