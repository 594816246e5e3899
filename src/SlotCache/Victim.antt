-- ===== src/SlotCache/Victim.antt =====
-- Choosing a slot to evict: the loop of `choose_victim` ends, what it writes back was cached, and
-- no client sees a difference, whether or not the device fails.
use exfat_slim.Base.{
  ℕ, zero, suc, ◌≤◌, ◌<◌, ◌≡◌, refl, sym, subst, Bool, Bool-cases, true, false, ◌&&◌, not, inl, inr,
  List, [], ◌∷◌, length, length-set, get_or-set_self, get_or-set_ne, set-get_or, set, ◌==◌,
  if◌then◌else◌, arith,
}
use exfat_slim.Error.{Result, ExFatError}
use exfat_slim.Device.{Block, BlockDevice, Storage, Written, Spoiled, write_block-Ensures}
use exfat_slim.Action.{Ensures, returned, bind, within, mono, ◌>>◌, modify, pure}
use exfat_slim.SlotCache.{
  Slot, SlotCache, Cached, new_slot, slot_at, advance, put_slot, change_slot, change_slots,
  write_dev, write_back, choose_victim,
}
use exfat_slim.SlotCache.View.{holds, IsClean, AllClean-at}
use exfat_slim.SlotCache.Coherence.{
  IsCoherent, Keeps, Keeps-trans, Keeps-hand, Keeps-put_slot, Keeps-mark, advance_in,
}

-- Slots that the hand passes over: each costs the loop one round.
unfoldable pub count_used : List Slot → ℕ
count_used [] = 0
count_used (slot ∷ slots) =
    if slot.is_valid && slot.is_used then suc (count_used slots) else count_used slots

pub count_used-le : (slots : List Slot) → count_used slots ≤ length slots
unfolding count_used
count_used-le [] = omega arith
count_used-le (slot ∷ slots) = ground (arith, count_used-le slots)

count_used-set :
    (slots : List Slot) (i : ℕ)
    → i < length slots
    → (slot_at slots i).is_valid ≡ true
    → (slot_at slots i).is_used ≡ true
    → suc (count_used (set slots i (record (slot_at slots i) { is_used = false })))
      ≡ count_used slots
unfolding count_used
count_used-set [] i h v u = absurd (omega arith)
count_used-set (slot ∷ slots) zero h v u = ground arith
count_used-set (slot ∷ slots) (suc i) h v u = ground (arith, count_used-set slots i (omega arith))

abbrev pub IsNotDirty : ℕ → SlotCache → Type 0
IsNotDirty i c = (i < length c.cache) × ((slot_at c.cache i).is_dirty ≡ false)

NotDirty-put_slot :
    (i : ℕ) (c : SlotCache) (w : Slot)
    → i < length c.cache
    → w.is_dirty ≡ false
    → IsNotDirty i (put_slot c i w)
NotDirty-put_slot i c w h e =
    (omega (arith, length-set c.cache i w), rw (get_or-set_self c.cache i w (new_slot 0) h) e)

NotDirty-keep :
    (i : ℕ) (c : SlotCache) (w : Slot)
    → i < length c.cache
    → w.is_dirty ≡ false
    → (j : ℕ) → IsNotDirty j c
    → IsNotDirty j (put_slot c i w)
NotDirty-keep i c w h e j (h', e') = (
  omega (arith, h', length-set c.cache i w),
  elim (Bool-cases (i == j)) [
    | inl same ↦
        let p : i ≡ j = ground arith in
        subst (λ k. (slot_at (set c.cache i w) k).is_dirty ≡ false) p
          (rw (get_or-set_self c.cache i w (new_slot 0) h) e)
    | inr other ↦ rw (get_or-set_ne c.cache i j w (new_slot 0) (λ p. ground arith)) e'
  ],
)

module _ {d : BlockDevice} (st : Storage d) where
  open st use {contents}

  -- A valid cache over its device, and two states that look the same to a client.
  abbrev pub Coherent : Cached d.State → Type 0
  Coherent s = IsCoherent (contents s.dev) s.slots

  abbrev pub SameView : Cached d.State → Cached d.State → Type 0
  SameView s t = Keeps (contents s.dev) s.slots (contents t.dev) t.slots

  pub write_dev-Ensures :
      (a : ℕ) (b : Block) (s : Cached d.State)
      → Ensures
          (λ _ t. (t.slots ≡ s.slots) × Written st a b s.dev t.dev)
          (λ t. (t.slots ≡ s.slots) × Spoiled st a s.dev t.dev)
          (write_dev d a b s)
  write_dev-Ensures a b s =
      within (λ io. record s { dev = io }) (write_block-Ensures st a b s.dev) (λ _ io w. (refl, w))
        (λ io w. (refl, w))

  abbrev pub NotDirty : ℕ → Cached d.State → Type 0
  NotDirty i s = IsNotDirty i s.slots

  module _ (i : ℕ) (s : Cached d.State) (v : Coherent s) (h : i < length s.slots.cache)
      (dirty : (slot_at s.slots.cache i).is_dirty ≡ true) where
    slot : Slot
    slot = slot_at s.slots.cache i

    k : IsClean (contents s.dev) slot
    unfolding slot
    k = AllClean-at (contents s.dev) s.slots.cache i h v.clean

    -- The slot after it has been written.
    cleaned :
        (t : Cached d.State)
        → (t.slots ≡ s.slots)
        → Written st slot.sector_id slot.block s.dev t.dev
        → let u = change_slot i (λ w. record w { is_dirty = false }) t in
          SameView s u
          × NotDirty i u
          × ((j : ℕ) → NotDirty j s → NotDirty j u)
          × ((x : ℕ) → holds (slot_at u.slots.cache i) x ≡ holds slot x)
    unfolding k
    cleaned t e w = rw e (
      Keeps-put_slot (contents s.dev) (contents t.dev) s.slots i (record slot { is_dirty = false })
          v h (λ x miss. ground (arith, w x, k.dirty_valid dirty))
          (record {
            dirty_valid = λ x. cc;
            clean = λ x y. ground (arith, w slot.sector_id);
            fresh = k.fresh;
          })
          refl refl refl,
      NotDirty-put_slot i s.slots (record slot { is_dirty = false }) h refl,
      NotDirty-keep i s.slots (record slot { is_dirty = false }) h refl,
      λ x. rw (get_or-set_self s.slots.cache i (record slot { is_dirty = false }) (new_slot 0) h),
    )

    -- A failed write leaves the slot dirty, so the spoiled block on the device is not looked at.
    spoiled :
        (t : Cached d.State)
        → (t.slots ≡ s.slots)
        → Spoiled st slot.sector_id s.dev t.dev
        → SameView s t
    unfolding k
    spoiled t e w = rw e (
        subst (λ c. Keeps (contents s.dev) s.slots (contents t.dev) c) put_back
          (Keeps-put_slot (contents s.dev) (contents t.dev) s.slots i slot v h
            (λ x miss. w x (ground (arith, k.dirty_valid dirty)))
            (record { dirty_valid = k.dirty_valid; clean = λ x y. cc; fresh = k.fresh }) refl refl
            refl))
      where
        put_back : put_slot s.slots i slot ≡ s.slots
        put_back =
            λ j. record { cache = set-get_or s.slots.cache i (new_slot 0) j; hand = s.slots.hand }

  pub write_back-Ensures :
      (i : ℕ) (s : Cached d.State)
      → Coherent s
      → i < length s.slots.cache
      → (slot_at s.slots.cache i).is_dirty ≡ true
      → Ensures
          (λ _ t.
            SameView s t
            × NotDirty i t
            × ((j : ℕ) → NotDirty j s → NotDirty j t)
            × ((x : ℕ) → holds (slot_at t.slots.cache i) x ≡ holds (slot_at s.slots.cache i) x))
          (SameView s)
          (write_back d i s)
  unfolding write_back slot
  write_back-Ensures i s v h dirty =
      bind (write_dev-Ensures slot.sector_id slot.block s)
        (λ _ t (e, w). returned (cleaned i s v h dirty t e w))
        (λ t (e, w). spoiled i s v h dirty t e w)
    where
      slot : Slot
      slot = slot_at s.slots.cache i

  -- Cleaning a slot that is clean already.
  recleaned :
      (i : ℕ) (s : Cached d.State)
      → Coherent s
      → NotDirty i s
      → let u = change_slot i (λ w. record w { is_dirty = false }) s in SameView s u × NotDirty i u
  recleaned i s v (h, e) =
      let k = AllClean-at (contents s.dev) s.slots.cache i h v.clean in
      (
        Keeps-put_slot (contents s.dev) (contents s.dev) s.slots i
            (record (slot_at s.slots.cache i) { is_dirty = false }) v h (λ x miss. refl)
            (record { dirty_valid = λ x. cc; clean = λ x y. k.clean x e; fresh = k.fresh }) refl
            refl refl,
        NotDirty-put_slot i s.slots (record (slot_at s.slots.cache i) { is_dirty = false }) h refl,
      )

  pub SameView-trans : {s t u : Cached d.State} → SameView s t → SameView t u → SameView s u
  SameView-trans p q = Keeps-trans p q

  module _ (s : Cached d.State) (v : Coherent s) where
    -- The hand has moved on from the slot it stood at.
    moved : SameView s (change_slots advance s)
    moved = Keeps-hand (contents s.dev) s.slots _ v (advance_in s.slots v.hand_in)

    unmark : Slot → Slot
    unmark w = record w { is_used = false }

    unmarked : SameView s (change_slot s.slots.hand unmark (change_slots advance s))
    unfolding moved unmark
    unmarked =
        SameView-trans moved
          (Keeps-mark (contents s.dev) _ s.slots.hand false moved.coherent v.hand_in)

    -- An invalid slot is not dirty.
    free_NotDirty :
        (slot_at s.slots.cache s.slots.hand).is_valid ≡ false
        → NotDirty s.slots.hand (change_slots advance s)
    free_NotDirty free =
        let k = AllClean-at (contents s.dev) s.slots.cache s.slots.hand v.hand_in v.clean in
        (
          v.hand_in,
          elim (Bool-cases (slot_at s.slots.cache s.slots.hand).is_dirty) [
            | inl dirty ↦ cc (k.dirty_valid dirty)
            | inr clean ↦ clean
          ],
        )

    evicted :
        (slot_at s.slots.cache s.slots.hand).is_dirty ≡ true
        → Ensures
            (λ i t. SameView s t × NotDirty i t)
            (SameView s)
            ((write_back d s.slots.hand
                >> modify (change_slot s.slots.hand (λ w. record w { is_dirty = false }))
                >> pure s.slots.hand)
              (change_slots advance s))
    evicted dirty =
        bind
          (bind
            (write_back-Ensures s.slots.hand (change_slots advance s) moved.coherent v.hand_in
              dirty)
            (λ _ t (same, clean, _, _).
              let (again, clean') = recleaned s.slots.hand t same.coherent clean in
              returned (SameView-trans moved (SameView-trans same again), clean'))
            (λ t same. SameView-trans moved same))
          (λ _ u p. returned p) (λ t same. same)

    next : Cached d.State
    next = change_slot s.slots.hand (λ w. record w { is_used = false }) (change_slots advance s)

    next_few :
        {rounds : ℕ}
        → count_used s.slots.cache < suc rounds
        → (slot_at s.slots.cache s.slots.hand).is_valid ≡ true
        → (slot_at s.slots.cache s.slots.hand).is_used ≡ true
        → count_used next.slots.cache < rounds
    unfolding next
    next_few few valid used =
        omega (arith, few, count_used-set s.slots.cache s.slots.hand v.hand_in valid used)

  -- The clock finds a slot within one round more than there are marks to take off.
  pub choose_victim-Ensures :
      (rounds : ℕ) (s : Cached d.State)
      → Coherent s
      → count_used s.slots.cache < rounds
      → Ensures (λ i t. SameView s t × NotDirty i t) (SameView s) (choose_victim d rounds s)
  unfolding choose_victim unmark next
  choose_victim-Ensures zero s v few = absurd (omega arith)
  choose_victim-Ensures (suc rounds) s v few = elim (Bool-cases slot.is_valid) [
    | inr free ↦ rw free (returned (moved s v, free_NotDirty s v free))
    | inl valid ↦ elim (Bool-cases slot.is_used) [
      | inl used ↦ by_tests _ _ (sym valid) (sym used) (
          mono
            (choose_victim-Ensures rounds (next s v) ((unmarked s v).coherent)
              (next_few s v few valid used))
            (λ i t (same, clean). (SameView-trans (unmarked s v) same, clean))
            (λ t same. SameView-trans (unmarked s v) same))
      | inr idle ↦ elim (Bool-cases slot.is_dirty) [
        | inl dirty ↦ rw (valid, idle, dirty) (evicted s v dirty)
        | inr clean ↦ rw (valid, idle, clean) (returned (moved s v, (v.hand_in, clean)))
      ]
    ]
  ]
    where
      slot : Slot
      slot = slot_at s.slots.cache s.slots.hand

      by_tests :
          {P : ℕ → Cached d.State → Type 0} {Q : Cached d.State → Type 0} {b c : Bool}
          {r : Result (ExFatError d.Error) ℕ × Cached d.State}
          (r' r'' : Result (ExFatError d.Error) ℕ × Cached d.State)
          → true ≡ b
          → true ≡ c
          → Ensures P Q r
          → Ensures P Q (if not b then r' else if c then r else r'')
      by_tests r' r'' e e' h = rw (sym e, sym e') h
