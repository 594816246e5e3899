-- ===== src/SlotCache/Memory.antt =====
-- A cache over a device behaves as a memory of sectors: what `read_inner` returns, what a change of
-- a slot and a whole-block write leave.
use exfat_slim.Base.{
  ℕ, ◌+◌, ◌<◌, ◌≡◌, refl, sym, subst, ◌∙◌, Bool-cases, true, false, inl, inr, Option, none, some,
  length, length-set, get_or-set_self, ◌==◌, if◌then◌else◌, arith, ==_iff,
}
use exfat_slim.Device.{Block, BlockDevice, Outcome, done, failed, Storage}
use exfat_slim.Action.{Ensures, returned, raised, bind, mono}
use exfat_slim.SlotCache.{
  Slot, SlotCache, Cached, new_slot, slot_at, put_slot, load, loaded, after_hit, read_inner,
}
use exfat_slim.SlotCache.View.{
  holds, shown, Uncached, UncachedElsewhere, IsClean, AllClean-at, AllClean-set, AtMostOne-set,
  Uncached-elsewhere, shown-set_hit, shown-set_miss, shown_of_Uncached, shown_ext,
}
use exfat_slim.SlotCache.Coherence.{IsCoherent, Keeps-trans, Found, cache_hit-Found}
use exfat_slim.SlotCache.Victim.{Coherent, SameView, NotDirty, choose_victim-Ensures, count_used-le}

-- The cache after one sector has got a new block.
pub record Stores (cts : ℕ → Block) (c : SlotCache) (cts' : ℕ → Block) (c' : SlotCache) (x : ℕ)
    (b : Block) : Type 0 where
  pub coherent : IsCoherent cts' c'
  pub same_length : length c'.cache ≡ length c.cache
  pub stored : (y : ℕ) → shown cts' c'.cache y ≡ (if x == y then b else shown cts c.cache y)

holds_self : (x : ℕ) (w : Slot) → w.sector_id ≡ x → w.is_valid ≡ true → holds w x ≡ true
holds_self x w e v = ground arith

module _ (cts cts' : ℕ → Block) (c : SlotCache) (i x : ℕ) (w : Slot) where
  -- Slot `i` is relabelled, or written, with sector `x`, which no other slot caches; the device may
  -- have changed at `x` only, and what slot `i` held before is on the device.
  pub Stores-put_slot :
      IsCoherent cts c
      → i < length c.cache
      → w.sector_id ≡ x
      → w.is_valid ≡ true
      → UncachedElsewhere x c.cache i
      → ((y : ℕ) → (x == y) ≡ false → cts' y ≡ cts y)
      → IsClean cts' w
      → ((y : ℕ)
          → (x == y) ≡ false
          → holds (slot_at c.cache i) y ≡ true
          → (slot_at c.cache i).block ≡ cts y)
      → Stores cts c cts' (put_slot c i w) x w.block
  Stores-put_slot v h ex ev free other k agree = record {
    coherent = record {
      hand_in = omega (arith, length-set c.cache i w, v.hand_in);
      unique = λ y. AtMostOne-set c.cache i y w (v.unique y) (λ e. only y e);
      clean =
          AllClean-set cts cts' c.cache i w
            (λ y. elim (Bool-cases (x == y)) [
              | inl e ↦ inr (subst (λ z. UncachedElsewhere z c.cache i) ((==_iff x y).0 e) free)
              | inr e ↦ inl (other y e)
            ])
            v.clean k;
    };
    same_length = length-set c.cache i w;
    stored = λ y. elim (Bool-cases (x == y)) [
      | inl e ↦
          let p : x ≡ y = (==_iff x y).0 e in
          rw e (
            shown-set_hit cts' c.cache i y w h (subst (λ z. UncachedElsewhere z c.cache i) p free)
              (holds_self y w (ex ∙ p) ev))
      | inr e ↦ rw e (
          shown-set_miss cts' c.cache i y w h (v.unique y) (misses y e)
            (λ e'. agree y e e' ∙ sym (other y e))
          ∙ shown_ext cts cts' c.cache y (other y e))
    ];
  }
    where
      only : (y : ℕ) → holds w y ≡ true → UncachedElsewhere y c.cache i
      only y e =
          let p : x ≡ y = ground (arith, ex) in subst (λ z. UncachedElsewhere z c.cache i) p free

      misses : (y : ℕ) → (x == y) ≡ false → holds w y ≡ false
      misses y e = ground (arith, ex)

-- What a slot that is not dirty held is on the device.
pub clean_agrees :
    (cts : ℕ → Block) (slot : Slot) (y : ℕ)
    → IsClean cts slot
    → slot.is_dirty ≡ false
    → holds slot y ≡ true
    → slot.block ≡ cts y
clean_agrees cts slot y k e e' = ground (arith, k.clean)

module _ {d : BlockDevice} (st : Storage d) where
  open st use {contents, read_ok}

  -- What sector `x` contains for a client.
  abbrev pub view : Cached d.State → ℕ → Block
  view s x = shown (contents s.dev) s.slots.cache x

  -- Sector `x` is cached in slot `i`, and no sector looks different.
  pub record Fetched (s t : Cached d.State) (x i : ℕ) : Type 0 where
    pub coherent : Coherent st t
    pub same_length : length t.slots.cache ≡ length s.slots.cache
    pub same_view : (y : ℕ) → view t y ≡ view s y
    pub slot_in : i < length t.slots.cache
    pub in_slot : holds (slot_at t.slots.cache i) x ≡ true

  -- The state after sector `x` has got block `b`.
  abbrev pub Stored : Cached d.State → Cached d.State → ℕ → Block → Type 0
  Stored s t x b = Stores (contents s.dev) s.slots (contents t.dev) t.slots x b

  Fetched-hit :
      {s t : Cached d.State} {x i : ℕ}
      → SameView st s t
      → Found x t.slots (some i)
      → Fetched s t x i
  Fetched-hit same (h, e) = record {
    coherent = same.coherent;
    same_length = same.same_length;
    same_view = same.same_shown;
    slot_in = h;
    in_slot = e;
  }

  module _ (x i : ℕ) (s : Cached d.State) (v : Coherent st s) (free : Uncached x s.slots.cache)
      (clean : NotDirty st i s) where
    filled : Slot
    filled = record (slot_at s.slots.cache i) {
      sector_id = x;
      is_valid = true;
      is_used = true;
      block = contents s.dev x;
    }

    filled-Stores :
        (io : d.State)
        → ((y : ℕ) → contents io y ≡ contents s.dev y)
        → Stores
            (contents s.dev)
            s.slots
            (contents io)
            (put_slot s.slots i filled)
            x
            (contents s.dev x)
    unfolding filled
    filled-Stores io same =
        Stores-put_slot (contents s.dev) (contents io) s.slots i x filled v (clean.0) refl refl
          (Uncached-elsewhere s.slots.cache i x free) (λ y e. same y)
          (record { dirty_valid = λ e. refl; clean = λ e e'. sym (same x); fresh = λ e. cc })
          (λ y e e'.
            clean_agrees (contents s.dev) (slot_at s.slots.cache i) y
              (AllClean-at (contents s.dev) s.slots.cache i (clean.0) v.clean) (clean.1) e')

    filled-Fetched :
        (io : d.State)
        → ((y : ℕ) → contents io y ≡ contents s.dev y)
        → Fetched s (record { slots = put_slot s.slots i filled; dev = io }) x i
    unfolding filled
    filled-Fetched io same =
        let p = filled-Stores io same in
        record {
          coherent = p.coherent;
          same_length = p.same_length;
          same_view = λ y. p.stored y ∙ unchanged y;
          slot_in = omega (arith, clean.0, p.same_length);
          in_slot =
              rw (get_or-set_self s.slots.cache i filled (new_slot 0) (clean.0))
                (holds_self x filled refl refl);
        }
      where
        unchanged : (y : ℕ) → (if x == y then contents s.dev x else view s y) ≡ view s y
        unchanged y = elim (Bool-cases (x == y)) [
          | inl e ↦
              let p : x ≡ y = (==_iff x y).0 e in
              rw e (
                sym (
                  subst (λ z. view s z ≡ contents s.dev x) p
                    (shown_of_Uncached (contents s.dev) s.slots.cache x free)))
          | inr e ↦ rw e
        ]

    load-Fetched : Ensures (λ j t. Fetched s t x j) (λ t. Unit {0}) (load d x i s)
    unfolding load filled
    load-Fetched = outcome (d.read x (slot_at s.slots.cache i).block s.dev) refl
      where
        outcome :
            (r : Outcome d.Error × Block × d.State)
            → d.read x (slot_at s.slots.cache i).block s.dev ≡ r
            → Ensures (λ j t. Fetched s t x j) (λ t. Unit {0}) (loaded d x i s r)
        outcome (done, b, io) e =
            let (eb, same) = read_ok x _ b s.dev io e in returned (rw eb (filled-Fetched io same))
        outcome (failed err, b, io) e = raised tt

  Fetched-after :
      {s t u : Cached d.State} {x i : ℕ} → SameView st s t → Fetched t u x i → Fetched s u x i
  Fetched-after same p = record {
    coherent = p.coherent;
    same_length = p.same_length ∙ same.same_length;
    same_view = λ y. p.same_view y ∙ same.same_shown y;
    slot_in = p.slot_in;
    in_slot = p.in_slot;
  }

  pub read_inner-Fetched :
      (x : ℕ) (s : Cached d.State)
      → Coherent st s
      → Ensures (λ i t. Fetched s t x i) (λ t. Unit {0}) (read_inner d x s)
  unfolding read_inner
  read_inner-Fetched x s v =
      let (same, found) = cache_hit-Found (contents s.dev) x s.slots v in after _ same found
    where
      after :
          (r : Option ℕ) {c : SlotCache}
          → SameView st s (record s { slots = c })
          → Found x c r
          → Ensures
              (λ i t. Fetched s t x i)
              (λ t. Unit {0})
              (after_hit d x r (record s { slots = c }))
      after (some i) same found = returned (Fetched-hit same found)
      after none {c = c} same free =
          bind
            (choose_victim-Ensures st (length c.cache + 1) (record s { slots = c }) same.coherent
              (omega (arith, count_used-le c.cache)))
            (λ i t (kept, clean).
              mono (load-Fetched x i t kept.coherent (kept.uncached x free) clean)
                (λ j u p. Fetched-after (Keeps-trans same kept) p) (λ u q. q))
            (λ t q. tt)
