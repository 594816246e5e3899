-- ===== src/SlotCache.antt =====
-- src/slot_cache.rs: a write-back cache of sectors with clock replacement. A `&mut Slot` is the
-- index of the slot in the cache. The cache has N > 0 slots (the source indexes `cache[0]`).
pub mod View
pub mod Coherence
pub mod Victim
pub mod Memory
pub mod Operations
pub mod Flushing
pub mod Initial
pub mod Errors
pub mod Regions
pub mod Tests
use exfat_slim.Base.{
  ℕ, zero, suc, ◌+◌, Bool, true, false, ◌&&◌, not, Option, none, some, List, [], ◌∷◌, length,
  get_or, set, replicate, ◌==◌, if◌then◌else◌,
}
use exfat_slim.Error.{Result, ok, err, ExFatError}
use exfat_slim.Action.{Action, pure, out_of_rounds, gets, when_true, ◌>>=◌, ◌>>◌, modify, put_part}
use exfat_slim.Device.{Block, BlockDevice, Outcome, done, failed, write_block}

pub record Slot : Type 0 where
  pub sector_id : ℕ
  pub is_dirty : Bool
  pub is_used : Bool
  pub is_valid : Bool
  pub block : Block

-- `Slot::new`, with SIZE bytes.
abbrev pub new_slot : ℕ → Slot
new_slot size = record {
  sector_id = 0;
  is_dirty = false;
  is_used = false;
  is_valid = false;
  block = replicate size 0;
}

pub record SlotCache : Type 0 where
  pub cache : List Slot
  pub hand : ℕ

-- `SlotCache::new`, with N slots.
unfoldable pub new : (size n : ℕ) → SlotCache
new size n = record { cache = replicate n (new_slot size); hand = 0 }

-- `cache[i]`, in range.
abbrev pub slot_at : List Slot → ℕ → Slot
slot_at cache i = get_or cache i (new_slot 0)

-- `hand += 1; if hand == N { hand = 0 }`.
abbrev pub advance : SlotCache → SlotCache
advance c = record c { hand = if c.hand + 1 == length c.cache then 0 else c.hand + 1 }

abbrev pub put_slot : SlotCache → ℕ → Slot → SlotCache
put_slot c i slot = record c { cache = set c.cache i slot }

-- The loop of `cache_hit`: `right.chain(left)` visits the slots from the hand on, round the end,
-- and the hand moves with it.
unfoldable pub cache_hit_loop : ℕ → ℕ → SlotCache → Option ℕ × SlotCache
cache_hit_loop zero sector_id c = (none, c)
cache_hit_loop (suc rounds) sector_id c =
    let slot = slot_at c.cache c.hand in
    let rest = cache_hit_loop rounds sector_id (advance c) in
    if slot.sector_id == sector_id && slot.is_valid
    then (some c.hand, put_slot c c.hand (record slot { is_used = true }))
    else rest

unfoldable pub cache_hit : ℕ → SlotCache → Option ℕ × SlotCache
cache_hit sector_id c = cache_hit_loop (length c.cache) sector_id c

-- `Slot::as_mut_slice` on slot `i`, and what the caller does to the bytes.
unfoldable pub modify_slot : ℕ → (Block → Block) → SlotCache → SlotCache
modify_slot i change c =
    let slot = slot_at c.cache i in
    put_slot c i (record slot { is_dirty = true; block = change slot.block })

-- A cache and the device that is handed to its operations.
pub record Cached (D : Type 0) : Type 0 where
  pub slots : SlotCache
  pub dev : D

-- A change of the cache, and of its slot `i`.
abbrev pub change_slots : {D : Type 0} → (SlotCache → SlotCache) → Cached D → Cached D
change_slots f s = record s { slots = f s.slots }

abbrev pub change_slot : {D : Type 0} → ℕ → (Slot → Slot) → Cached D → Cached D
change_slot i f s = change_slots (λ c. put_slot c i (f (slot_at c.cache i))) s

module _ (d : BlockDevice) where
  abbrev pub CacheAction : Type 0 → Type 0
  CacheAction A = Action (ExFatError d.Error) (Cached d.State) A

  -- `io.write` by an operation of the cache.
  abbrev pub write_dev : ℕ → Block → CacheAction (Unit {0})
  write_dev sector_id block s =
      put_part (λ io. record s { dev = io }) (write_block d sector_id block s.dev)

  -- `Slot::flush` of slot `i`.
  unfoldable pub flush_slot : ℕ → CacheAction (Unit {0})
  flush_slot i s =
      let slot = slot_at s.slots.cache i in
      let clean = λ (w : Slot). record w { is_dirty = false } in
      when_true slot.is_dirty (write_dev slot.sector_id slot.block >> modify (change_slot i clean))
        (pure tt) s

  -- `SlotCache::flush`: the slots from `i` on, in order.
  unfoldable pub flush_from : (count i : ℕ) → CacheAction (Unit {0})
  flush_from zero i = pure tt
  flush_from (suc count) i = flush_slot i >> flush_from count (suc i)

  unfoldable pub flush : CacheAction (Unit {0})
  flush s = flush_from (length s.slots.cache) 0 s

  -- `SlotCache::flush_sector`: the first slot with that sector id, valid or not, is flushed.
  unfoldable pub flush_sector_from : (count i sector : ℕ) → CacheAction (Unit {0})
  flush_sector_from zero i sector s = pure tt s
  flush_sector_from (suc count) i sector s =
      let rest = flush_sector_from count (suc i) sector s in
      if (slot_at s.slots.cache i).sector_id == sector then flush_slot i s else rest

  unfoldable pub flush_sector : ℕ → CacheAction (Unit {0})
  flush_sector sector s = flush_sector_from (length s.slots.cache) 0 sector s

  -- `SlotCache::write_back` of slot `i`.
  unfoldable pub write_back : ℕ → CacheAction (Unit {0})
  write_back i s =
      let slot = slot_at s.slots.cache i in
      let clean = λ (w : Slot). record w { is_dirty = false } in
      (write_dev slot.sector_id slot.block >> modify (change_slot i clean)) s

  -- `SlotCache::choose_victim`, with a bound on the rounds of its `loop`.
  unfoldable pub choose_victim : ℕ → CacheAction ℕ
  choose_victim zero s = out_of_rounds s
  choose_victim (suc rounds) s =
      let i = s.slots.hand in
      let slot = slot_at s.slots.cache i in
      let moved = change_slots advance s in
      let unmark = λ (w : Slot). record w { is_used = false } in
      let clean = λ (w : Slot). record w { is_dirty = false } in
      let again = choose_victim rounds (change_slot i unmark moved) in
      if not slot.is_valid
      then (ok i, moved)
      else if slot.is_used
      then again
      else when_true slot.is_dirty (write_back i >> modify (change_slot i clean) >> pure i) (pure i)
          moved

  -- What a device read into slot `i` leaves, with the labels that `read_inner` then sets.
  abbrev pub loaded :
      ℕ
      → ℕ
      → Cached d.State
      → Outcome d.Error × Block × d.State
      → Result (ExFatError d.Error) ℕ × Cached d.State
  loaded sector_id i s (done, block', io) =
      let label = λ (w : Slot). record w {
        sector_id = sector_id;
        is_valid = true;
        is_used = true;
        block = block';
      } in
      (ok i, change_slot i label (record s { dev = io }))
  loaded sector_id i s (failed e, block', io) =
      let spill = λ (w : Slot). record w { block = block' } in
      (err (ExFatError.io e), change_slot i spill (record s { dev = io }))

  unfoldable pub load : ℕ → ℕ → CacheAction ℕ
  load sector_id i s = loaded sector_id i s (d.read sector_id (slot_at s.slots.cache i).block s.dev)

  -- `SlotCache::read_inner`, which `read` and `read_mut` return: the index of the sector's slot.
  -- The loop of `choose_victim` is given one round more than there are slots.
  abbrev pub after_hit : ℕ → Option ℕ → CacheAction ℕ
  after_hit sector_id (some i) s = pure i s
  after_hit sector_id none s = (choose_victim (length s.slots.cache + 1) >>= load sector_id) s

  unfoldable pub read_inner : ℕ → CacheAction ℕ
  read_inner sector_id s =
      let (hit, c) = cache_hit sector_id s.slots in after_hit sector_id hit (record s { slots = c })

  -- `read_mut` followed by a change of the bytes through `as_mut_slice`.
  unfoldable pub update : ℕ → (Block → Block) → CacheAction (Unit {0})
  update sector_id change =
      read_inner sector_id >>= λ i. modify (change_slots (modify_slot i change))

  -- `read` followed by a copy of the bytes through `as_slice`.
  unfoldable pub fetch : ℕ → CacheAction Block
  fetch sector_id = read_inner sector_id >>= λ i. gets (λ s. (slot_at s.slots.cache i).block)

  -- `SlotCache::write` of a full block.
  abbrev pub overwrite : Option ℕ → Block → SlotCache → SlotCache
  overwrite (some i) block c =
      put_slot c i (record (slot_at c.cache i) { block = block; is_dirty = false })
  overwrite none block c = c

  unfoldable pub write : ℕ → Block → CacheAction (Unit {0})
  write sector_id block s =
      let (hit, c) = cache_hit sector_id s.slots in
      write_dev sector_id block (record s { slots = overwrite hit block c })
