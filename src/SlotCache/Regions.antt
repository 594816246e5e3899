-- ===== src/SlotCache/Regions.antt =====
-- A cache that serves one region of the device: its operations on sectors of the region change the
-- device nowhere else, and what they write and cache there keeps a property of blocks. Several
-- caches over one device, each with a region of its own, rely on this.
pub mod Operations
mod Tests
use exfat_slim.Base.{
  ℕ, zero, suc, ◌+◌, ◌<◌, ◌≡◌, refl, sym, subst, ◌∙◌, ==_iff, Bool, Bool-cases, true, false, ◌||◌,
  ◌&&◌, not, inl, inr, Option, none, some, List, [], ◌∷◌, length, set, ◌==◌, if◌then◌else◌, arith,
}
use exfat_slim.Error.{Result, ok, err, stuck, ExFatError}
use exfat_slim.Device.{Block, BlockDevice, Outcome, done, failed, Storage, after_write}
use exfat_slim.Action.{
  Outcomes, outcomes, Ensures, returned, raised, and_then, put_part, when_true, modify,
}
use exfat_slim.SlotCache.{
  Slot, SlotCache, Cached, CacheAction, new_slot, slot_at, advance, put_slot, cache_hit_loop,
  cache_hit, modify_slot, change_slot, change_slots, write_dev, flush_slot, flush_from, flush,
  flush_sector_from, flush_sector, write_back, choose_victim, load, loaded, after_hit, read_inner,
  update, fetch, overwrite, write,
}
use exfat_slim.SlotCache.View.{holds, shown, Uncached, AllClean-ext, shown_ext}
use exfat_slim.SlotCache.Coherence.{IsCoherent}
use exfat_slim.SlotCache.Victim.{Coherent}
use exfat_slim.SlotCache.Memory.{Fetched, read_inner-Fetched}

if-eq : {c k : Bool} → k ≡ c → (x y : Block) → (if k then x else y) ≡ (if c then x else y)
if-eq e x y = rw e

module _ {d : BlockDevice} (st : Storage d) (region : ℕ → Bool) (P : Block → Type 0) where
  open st use {contents, read_ok, read_err, write_ok, write_err}

  -- A slot in use caches a sector of the region, with a block that has the property.
  abbrev pub IsInside : Slot → Type 0
  IsInside slot =
      (slot.is_valid || slot.is_dirty) ≡ true → (region slot.sector_id ≡ true) × P slot.block

  abbrev pub AllInside : List Slot → Type 0
  AllInside [] = Unit {0}
  AllInside (slot ∷ slots) = IsInside slot × AllInside slots

  -- The blocks of the region have the property, on the device and in the cache.
  pub record IsStocked (s : Cached d.State) : Type 0 where
    pub inside : AllInside s.slots.cache
    pub stocked : (x : ℕ) → region x ≡ true → P (contents s.dev x)

  -- The device is the same outside the region.
  abbrev pub Spares : Cached d.State → Cached d.State → Type 0
  Spares s t = (x : ℕ) → region x ≡ false → contents t.dev x ≡ contents s.dev x

  -- What an operation on the region leaves.
  abbrev pub Confines :
      {A : Type 0} → Cached d.State → Result (ExFatError d.Error) A × Cached d.State → Type 0
  Confines s (ok a, t) = IsStocked t × Spares s t
  Confines s (err e, t) = Spares s t
  Confines s (stuck, t) = Spares s t

  Inside-at : (slots : List Slot) (i : ℕ) → AllInside slots → IsInside (slot_at slots i)
  Inside-at [] i h = λ e. cc
  Inside-at (slot ∷ slots) zero (h, hs) = h
  Inside-at (slot ∷ slots) (suc i) (h, hs) = Inside-at slots i hs

  Inside-set :
      (slots : List Slot) (i : ℕ) (w : Slot)
      → AllInside slots
      → IsInside w
      → AllInside (set slots i w)
  Inside-set [] i w h k = tt
  Inside-set (slot ∷ slots) zero w (h, hs) k = (k, hs)
  Inside-set (slot ∷ slots) (suc i) w (h, hs) k = (h, Inside-set slots i w hs k)

  clean-IsInside : (w : Slot) → IsInside w → IsInside (record w { is_dirty = false })
  clean-IsInside w h e = h (valid w.is_valid w.is_dirty e)
    where
      valid : (a b : Bool) → (a || false) ≡ true → (a || b) ≡ true
      valid true b e = refl
      valid false b e = cc

  after-Confines :
      {A B : Type 0} (s : Cached d.State) (r : Result (ExFatError d.Error) A × Cached d.State)
      (f : A → CacheAction d B)
      → Confines s r
      → ((a : A) (t : Cached d.State) → IsStocked t → Confines t (f a t))
      → Confines s (and_then r f)
  after-Confines {B = B} s (ok a, t) f (h, same) k = widen (f a t) (k a t h)
    where
      widen : (r : Result (ExFatError d.Error) B × Cached d.State) → Confines t r → Confines s r
      widen (ok b, u) (h', same') = (h', λ x o. same' x o ∙ same x o)
      widen (err e, u) same' = λ x o. same' x o ∙ same x o
      widen (stuck, u) same' = λ x o. same' x o ∙ same x o
  after-Confines s (err e, t) f h k = h
  after-Confines s (stuck, t) f h k = h

  -- A change of the slots alone.
  slots-Confines :
      {A : Type 0} (a : A) (s : Cached d.State) (c : SlotCache)
      → IsStocked s
      → AllInside c.cache
      → Confines s (ok a, record s { slots = c })
  slots-Confines a s c v h = (record { inside = h; stocked = v.stocked }, λ x o. refl)

  if-Confines :
      {A : Type 0} (s : Cached d.State) (c : Bool)
      (x y : Result (ExFatError d.Error) A × Cached d.State)
      → (c ≡ true → Confines s x)
      → (c ≡ false → Confines s y)
      → Confines s (if c then x else y)
  if-Confines s true x y h k = h refl
  if-Confines s false x y h k = k refl

  when_true-Confines :
      {A : Type 0} (s : Cached d.State) (c : Bool) (m k : CacheAction d A) (t : Cached d.State)
      → (c ≡ true → Confines s (m t))
      → (c ≡ false → Confines s (k t))
      → Confines s (when_true c m k t)
  when_true-Confines s true m k t h h' = h refl
  when_true-Confines s false m k t h h' = h' refl

  write_dev-Confines :
      (a : ℕ) (b : Block) (s : Cached d.State)
      → IsStocked s
      → region a ≡ true
      → P b
      → Confines s (write_dev d a b s)
  write_dev-Confines a b s v ha hb = outcome (d.write a b s.dev) refl
    where
      away : (x : ℕ) → region x ≡ false → (a == x) ≡ false
      away x o = elim (Bool-cases (a == x)) [ inl e ↦ cc ((==_iff a x).0 e) | inr e ↦ e ]

      here :
          (io : d.State) (x : ℕ)
          → contents io x ≡ (if a == x then b else contents s.dev x)
          → region x ≡ true
          → P (contents io x)
      here io x e o = elim (Bool-cases (a == x)) [
        | inl q ↦ subst P (sym (e ∙ if-eq q _ _)) hb
        | inr q ↦ subst P (sym (e ∙ if-eq q _ _)) (v.stocked x o)
      ]

      outcome :
          (r : Outcome d.Error × d.State)
          → d.write a b s.dev ≡ r
          → Confines s (put_part (λ io. record s { dev = io }) (after_write r))
      outcome (done, io) e = (
        record { inside = v.inside; stocked = λ x o. here io x (write_ok a b s.dev io e x) o },
        λ x o. ground (arith, write_ok a b s.dev io e x, away x o),
      )
      outcome (failed q, io) e = λ x o. write_err a b s.dev io q e x (away x o)

  -- A change of one slot that leaves it inside.
  change_slot-Confines :
      {A : Type 0} (a : A) (i : ℕ) (f : Slot → Slot) (s : Cached d.State)
      → IsStocked s
      → IsInside (f (slot_at s.slots.cache i))
      → Confines s (ok a, change_slot i f s)
  change_slot-Confines a i f s v h =
      slots-Confines a s (put_slot s.slots i (f (slot_at s.slots.cache i))) v
        (Inside-set s.slots.cache i _ v.inside h)

  module _ (i : ℕ) (s : Cached d.State) (v : IsStocked s)
      (dirty : (slot_at s.slots.cache i).is_dirty ≡ true) where
    dirty-inside :
        (region (slot_at s.slots.cache i).sector_id ≡ true) × P (slot_at s.slots.cache i).block
    dirty-inside = Inside-at s.slots.cache i v.inside (ground arith)

    write_back-Confines : Confines s (write_back d i s)
    unfolding write_back
    write_back-Confines =
        after-Confines s (write_dev d _ _ s) _
          (write_dev-Confines _ _ s v dirty-inside.0 dirty-inside.1)
          (λ _ t w.
            change_slot-Confines tt i (λ w. record w { is_dirty = false }) t w
              (clean-IsInside (slot_at t.slots.cache i) (Inside-at t.slots.cache i w.inside)))

  choose_victim-Confines :
      (rounds : ℕ) (s : Cached d.State) → IsStocked s → Confines s (choose_victim d rounds s)
  unfolding choose_victim
  choose_victim-Confines zero s v = λ x o. refl
  choose_victim-Confines (suc rounds) s v =
      let i = s.slots.hand in
      let slot = slot_at s.slots.cache i in
      let moved : IsStocked (change_slots advance s) = record {
        inside = v.inside;
        stocked = v.stocked;
      } in
      let clean = λ (w : Slot). record w { is_dirty = false } in
      let unmark = λ (w : Slot). record w { is_used = false } in
      if-Confines s (not slot.is_valid) _ _ (λ e. (moved, λ x o. refl))
        (λ e.
          if-Confines s slot.is_used _ _
            (λ e.
              choose_victim-Confines rounds (change_slot i unmark (change_slots advance s))
                (record {
                  inside =
                      Inside-set s.slots.cache i _ v.inside (Inside-at s.slots.cache i v.inside);
                  stocked = v.stocked;
                }))
            (λ e.
              when_true-Confines s slot.is_dirty _ _ (change_slots advance s)
                (λ dirty.
                  after-Confines s _ _
                    (after-Confines s (write_back d i (change_slots advance s)) _
                      (write_back-Confines i (change_slots advance s) moved dirty)
                      (λ _ t w. change_slot-Confines tt i clean t w (
                        clean-IsInside (slot_at t.slots.cache i)
                          (Inside-at t.slots.cache i w.inside))))
                    (λ _ t w. (w, λ x o. refl)))
                (λ e. (moved, λ x o. refl))))

  load-Confines :
      (x i : ℕ) (s : Cached d.State) → IsStocked s → region x ≡ true → Confines s (load d x i s)
  unfolding load
  load-Confines x i s v hx = outcome (d.read x (slot_at s.slots.cache i).block s.dev) refl
    where
      outcome :
          (r : Outcome d.Error × Block × d.State)
          → d.read x (slot_at s.slots.cache i).block s.dev ≡ r
          → Confines s (loaded d x i s r)
      outcome (done, b, io) e =
          let (eb, same) = read_ok x _ b s.dev io e in
          (
            record {
              inside =
                  Inside-set s.slots.cache i _ v.inside
                    (λ q. (hx, subst P (sym eb) (v.stocked x hx)));
              stocked = λ y o. subst P (sym (same y)) (v.stocked y o);
            },
            λ y o. same y,
          )
      outcome (failed q, b, io) e = λ y o. read_err x _ b s.dev io q e y

  cache_hit_loop-inside :
      (rounds x : ℕ) (c : SlotCache)
      → AllInside c.cache
      → AllInside ((cache_hit_loop rounds x c).1).cache
  unfolding cache_hit_loop
  cache_hit_loop-inside zero x c h = h
  cache_hit_loop-inside (suc rounds) x c h =
      let slot = slot_at c.cache c.hand in
      elim (Bool-cases (slot.sector_id == x && slot.is_valid)) [
        | inl e ↦ rw e (Inside-set c.cache c.hand _ h (Inside-at c.cache c.hand h))
        | inr e ↦ rw e (cache_hit_loop-inside rounds x (advance c) h)
      ]

  after_hit-Confines :
      (x : ℕ) (o : Option ℕ) (s : Cached d.State)
      → IsStocked s
      → region x ≡ true
      → Confines s (after_hit d x o s)
  after_hit-Confines x (some i) s v hx = (v, λ y o. refl)
  after_hit-Confines x none s v hx =
      after-Confines s (choose_victim d (length s.slots.cache + 1) s) _
        (choose_victim-Confines (length s.slots.cache + 1) s v) (λ i t w. load-Confines x i t w hx)

  read_inner-Confines :
      (x : ℕ) (s : Cached d.State) → IsStocked s → region x ≡ true → Confines s (read_inner d x s)
  unfolding read_inner cache_hit
  read_inner-Confines x s v hx =
      after_hit-Confines x _ _
        (record {
          inside = cache_hit_loop-inside (length s.slots.cache) x s.slots v.inside;
          stocked = v.stocked;
        })
        hx

  -- Reading a sector of the region.
  pub fetch-Confines :
      (x : ℕ) (s : Cached d.State) → IsStocked s → region x ≡ true → Confines s (fetch d x s)
  unfolding fetch
  fetch-Confines x s v hx =
      after-Confines s (read_inner d x s) _ (read_inner-Confines x s v hx)
        (λ i t w. (w, λ y o. refl))
