-- ===== src/SlotCache/Errors.antt =====
-- The only errors of a read through the cache are those of the device.
use exfat_slim.Base.{
  ℕ, zero, suc, Bool, true, false, not, Option, none, some, length, ◌+◌, if◌then◌else◌,
}
use exfat_slim.Error.{Result, ok, err, stuck, ExFatError}
use exfat_slim.Device.{Block, BlockDevice, Outcome, done, failed, after_write}
use exfat_slim.Action.{Action, and_then, put_part, gets, when_true}
use exfat_slim.SlotCache.{
  Cached, slot_at, write_dev, write_back, choose_victim, load, loaded, after_hit, read_inner, fetch,
  cache_hit, advance, change_slots,
}

abbrev pub IsIo : {E : Type 0} → ExFatError E → Type 0
IsIo (ExFatError.io e) = Unit {0}
IsIo e = ⊥

abbrev pub OnlyIo : {E S A : Type 0} → Result (ExFatError E) A × S → Type 0
OnlyIo (ok a, s) = Unit {0}
OnlyIo (err e, s) = IsIo e
OnlyIo (stuck, s) = Unit {0}

pub and_then-OnlyIo :
    {E S A B : Type 0} (r : Result (ExFatError E) A × S) (f : A → Action (ExFatError E) S B)
    → OnlyIo r
    → ((a : A) (s : S) → OnlyIo (f a s))
    → OnlyIo (and_then r f)
and_then-OnlyIo (ok a, s) f h k = k a s
and_then-OnlyIo (err e, s) f h k = h
and_then-OnlyIo (stuck, s) f h k = tt

pub put_part-OnlyIo :
    {E S T A : Type 0} (put : T → S) (r : Result (ExFatError E) A × T)
    → OnlyIo r
    → OnlyIo (put_part put r)
put_part-OnlyIo put (ok a, t) h = tt
put_part-OnlyIo put (err e, t) h = h
put_part-OnlyIo put (stuck, t) h = tt

if-OnlyIo :
    {E S A : Type 0} (c : Bool) (x y : Result (ExFatError E) A × S)
    → OnlyIo x
    → OnlyIo y
    → OnlyIo (if c then x else y)
if-OnlyIo true x y h k = h
if-OnlyIo false x y h k = k

when_true-OnlyIo :
    {E S A : Type 0} (c : Bool) (m k : Action (ExFatError E) S A) (s : S)
    → OnlyIo (m s)
    → OnlyIo (k s)
    → OnlyIo (when_true c m k s)
when_true-OnlyIo true m k s h h' = h
when_true-OnlyIo false m k s h h' = h'

module _ (d : BlockDevice) where
  after_write-OnlyIo : (r : Outcome d.Error × d.State) → OnlyIo (after_write r)
  after_write-OnlyIo (done, s) = tt
  after_write-OnlyIo (failed e, s) = tt

  write_back-OnlyIo : (i : ℕ) (s : Cached d.State) → OnlyIo (write_back d i s)
  unfolding write_back
  write_back-OnlyIo i s =
      and_then-OnlyIo (write_dev d _ _ s) _
        (put_part-OnlyIo (λ io. record s { dev = io }) _ (after_write-OnlyIo (d.write _ _ s.dev)))
        (λ a t. tt)

  choose_victim-OnlyIo : (rounds : ℕ) (s : Cached d.State) → OnlyIo (choose_victim d rounds s)
  unfolding choose_victim
  choose_victim-OnlyIo zero s = tt
  choose_victim-OnlyIo (suc rounds) s =
      if-OnlyIo (not (slot_at s.slots.cache s.slots.hand).is_valid) _ _ tt (
        if-OnlyIo (slot_at s.slots.cache s.slots.hand).is_used _ _ (choose_victim-OnlyIo rounds _) (
          when_true-OnlyIo (slot_at s.slots.cache s.slots.hand).is_dirty _ _
            (change_slots advance s)
            (and_then-OnlyIo _ _
              (and_then-OnlyIo (write_back d s.slots.hand (change_slots advance s)) _
                (write_back-OnlyIo _ _) (λ a t. tt))
              (λ a t. tt))
            tt))

  loaded-OnlyIo :
      (x i : ℕ) (s : Cached d.State) (r : Outcome d.Error × Block × d.State)
      → OnlyIo (loaded d x i s r)
  loaded-OnlyIo x i s (done, b, io) = tt
  loaded-OnlyIo x i s (failed e, b, io) = tt

  after_hit-OnlyIo : (x : ℕ) (o : Option ℕ) (s : Cached d.State) → OnlyIo (after_hit d x o s)
  unfolding load
  after_hit-OnlyIo x (some i) s = tt
  after_hit-OnlyIo x none s =
      and_then-OnlyIo (choose_victim d (length s.slots.cache + 1) s) _ (choose_victim-OnlyIo _ s)
        (λ i t. loaded-OnlyIo x i t _)

  pub fetch-OnlyIo : (x : ℕ) (s : Cached d.State) → OnlyIo (fetch d x s)
  unfolding fetch read_inner
  fetch-OnlyIo x s =
      let (hit, c) = cache_hit x s.slots in
      and_then-OnlyIo {B = Block} (after_hit d x hit (record s { slots = c }))
        (λ i. gets (λ s. (slot_at s.slots.cache i).block)) (after_hit-OnlyIo x hit _) (λ i t. tt)
