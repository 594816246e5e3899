-- ===== src/SlotCache/View.antt =====
-- What a cache over a device shows: for each sector the block of the valid slot that holds it, or
-- else the device's. `cts` is the content of the device.
use exfat_slim.Base.{
  ℕ, zero, suc, ◌<◌, ◌≡◌, refl, sym, Bool, Bool-cases, true, false, ◌&&◌, ◌⊎◌, inl, inr, List, [],
  ◌∷◌, length, set, ◌==◌, if◌then◌else◌, arith,
}
use exfat_slim.Device.{Block}
use exfat_slim.SlotCache.{Slot, slot_at}

-- The slot caches sector `x`.
abbrev pub holds : Slot → ℕ → Bool
holds slot x = slot.sector_id == x && slot.is_valid

unfoldable pub shown : (ℕ → Block) → List Slot → ℕ → Block
shown cts [] x = cts x
shown cts (slot ∷ slots) x = if holds slot x then slot.block else shown cts slots x

-- No slot caches sector `x`.
abbrev pub Uncached : ℕ → List Slot → Type 0
Uncached x [] = Unit {0}
Uncached x (slot ∷ slots) = (holds slot x ≡ false) × Uncached x slots

-- No slot but slot `i` caches sector `x`.
abbrev pub UncachedElsewhere : ℕ → List Slot → ℕ → Type 0
UncachedElsewhere x [] i = Unit {0}
UncachedElsewhere x (slot ∷ slots) zero = Uncached x slots
UncachedElsewhere x (slot ∷ slots) (suc i) = (holds slot x ≡ false) × UncachedElsewhere x slots i

-- One slot at most caches sector `x`.
abbrev pub AtMostOne : ℕ → List Slot → Type 0
AtMostOne x [] = Unit {0}
AtMostOne x (slot ∷ slots) =
    ((holds slot x ≡ true) × Uncached x slots) ⊎ ((holds slot x ≡ false) × AtMostOne x slots)

abbrev pub Unique : List Slot → Type 0
Unique slots = (x : ℕ) → AtMostOne x slots

-- Only a valid slot is dirty, and a clean one agrees with the device.
pub record IsClean (cts : ℕ → Block) (slot : Slot) : Type 0 where
  pub dirty_valid : slot.is_dirty ≡ true → slot.is_valid ≡ true
  pub clean : slot.is_valid ≡ true → slot.is_dirty ≡ false → slot.block ≡ cts slot.sector_id
  pub fresh : slot.is_valid ≡ false → slot.sector_id ≡ 0

abbrev pub AllClean : (ℕ → Block) → List Slot → Type 0
AllClean cts [] = Unit {0}
AllClean cts (slot ∷ slots) = IsClean cts slot × AllClean cts slots

pub shown_of_Uncached :
    (cts : ℕ → Block) (slots : List Slot) (x : ℕ) → Uncached x slots → shown cts slots x ≡ cts x
unfolding shown
shown_of_Uncached cts [] x u = refl
shown_of_Uncached cts (slot ∷ slots) x (u, us) = ground (arith, shown_of_Uncached cts slots x us)

pub AllClean-at :
    (cts : ℕ → Block) (slots : List Slot) (i : ℕ)
    → i < length slots
    → AllClean cts slots
    → IsClean cts (slot_at slots i)
AllClean-at cts [] i h v = absurd (omega arith)
AllClean-at cts (slot ∷ slots) zero h (v, vs) = v
AllClean-at cts (slot ∷ slots) (suc i) h (v, vs) = AllClean-at cts slots i (omega arith) vs

pub Uncached-at :
    (slots : List Slot) (i x : ℕ)
    → i < length slots
    → Uncached x slots
    → holds (slot_at slots i) x ≡ false
Uncached-at [] i x h u = absurd (omega arith)
Uncached-at (slot ∷ slots) zero x h (u, us) = u
Uncached-at (slot ∷ slots) (suc i) x h (u, us) = Uncached-at slots i x (omega arith) us

-- What a slot holds is cached nowhere else.
pub AtMostOne-elsewhere :
    (slots : List Slot) (i x : ℕ)
    → i < length slots
    → AtMostOne x slots
    → holds (slot_at slots i) x ≡ true
    → UncachedElsewhere x slots i
AtMostOne-elsewhere [] i x h m e = tt
AtMostOne-elsewhere (slot ∷ slots) zero x h (inl (_, us)) e = us
AtMostOne-elsewhere (slot ∷ slots) zero x h (inr (no_hit, m)) e = cc
AtMostOne-elsewhere (slot ∷ slots) (suc i) x h (inl (_, us)) e =
    cc (Uncached-at slots i x (omega arith) us)
AtMostOne-elsewhere (slot ∷ slots) (suc i) x h (inr (no_hit, m)) e =
    (no_hit, AtMostOne-elsewhere slots i x (omega arith) m e)

pub Uncached-elsewhere :
    (slots : List Slot) (i x : ℕ) → Uncached x slots → UncachedElsewhere x slots i
Uncached-elsewhere [] i x u = tt
Uncached-elsewhere (slot ∷ slots) zero x (u, us) = us
Uncached-elsewhere (slot ∷ slots) (suc i) x (u, us) = (u, Uncached-elsewhere slots i x us)

pub Uncached-set :
    (slots : List Slot) (i x : ℕ) (w : Slot)
    → Uncached x slots
    → holds w x ≡ false
    → Uncached x (set slots i w)
Uncached-set [] i x w u e = tt
Uncached-set (slot ∷ slots) zero x w (u, us) e = (e, us)
Uncached-set (slot ∷ slots) (suc i) x w (u, us) e = (u, Uncached-set slots i x w us e)

pub AtMostOne-Uncached : (slots : List Slot) (x : ℕ) → Uncached x slots → AtMostOne x slots
AtMostOne-Uncached [] x u = tt
AtMostOne-Uncached (slot ∷ slots) x (u, us) = inr (u, AtMostOne-Uncached slots x us)

-- A slot may be relabelled with a sector that no other slot caches.
pub AtMostOne-set :
    (slots : List Slot) (i x : ℕ) (w : Slot)
    → AtMostOne x slots
    → (holds w x ≡ true → UncachedElsewhere x slots i)
    → AtMostOne x (set slots i w)
AtMostOne-set [] i x w m h = tt
AtMostOne-set (slot ∷ slots) zero x w m h = elim (Bool-cases (holds w x)) [
  | inl hit ↦ inl (hit, h hit)
  | inr miss ↦ inr (miss, rest m)
]
  where
    rest : AtMostOne x (slot ∷ slots) → AtMostOne x slots
    rest (inl (_, us)) = AtMostOne-Uncached slots x us
    rest (inr (_, m')) = m'
AtMostOne-set (slot ∷ slots) (suc i) x w (inl (hit, us)) h = inl (
  hit,
  Uncached-set slots i x w us (elim (Bool-cases (holds w x)) [ inl e ↦ cc ((h e).0) | inr e ↦ e ]),
)
AtMostOne-set (slot ∷ slots) (suc i) x w (inr (miss, m)) h =
    inr (miss, AtMostOne-set slots i x w m (λ e. (h e).1))

-- Writing slot `i`: sector `x` is shown by the new slot, or, if the new slot does not hold it,
-- as before (it was not in slot `i`, or slot `i` agreed with the device).
pub shown-set_hit :
    (cts : ℕ → Block) (slots : List Slot) (i x : ℕ) (w : Slot)
    → i < length slots
    → UncachedElsewhere x slots i
    → holds w x ≡ true
    → shown cts (set slots i w) x ≡ w.block
unfolding shown
shown-set_hit cts [] i x w h u e = absurd (omega arith)
shown-set_hit cts (slot ∷ slots) zero x w h u e = rw e
shown-set_hit cts (slot ∷ slots) (suc i) x w h (u, us) e =
    rw u (shown-set_hit cts slots i x w (omega arith) us e)

pub shown-set_miss :
    (cts : ℕ → Block) (slots : List Slot) (i x : ℕ) (w : Slot)
    → i < length slots
    → AtMostOne x slots
    → holds w x ≡ false
    → (holds (slot_at slots i) x ≡ true → (slot_at slots i).block ≡ cts x)
    → shown cts (set slots i w) x ≡ shown cts slots x
unfolding shown
shown-set_miss cts [] i x w h m e agree = refl
shown-set_miss cts (slot ∷ slots) zero x w h (inl (hit, us)) e agree =
    rw (e, hit, shown_of_Uncached cts slots x us) (sym (agree hit))
shown-set_miss cts (slot ∷ slots) zero x w h (inr (miss, m)) e agree = rw (e, miss)
shown-set_miss cts (slot ∷ slots) (suc i) x w h (inl (hit, us)) e agree = rw hit
shown-set_miss cts (slot ∷ slots) (suc i) x w h (inr (miss, m)) e agree =
    rw miss (shown-set_miss cts slots i x w (omega arith) m e agree)

-- The slot that holds `x` shows it.
pub shown-at :
    (cts : ℕ → Block) (slots : List Slot) (i x : ℕ)
    → i < length slots
    → AtMostOne x slots
    → holds (slot_at slots i) x ≡ true
    → shown cts slots x ≡ (slot_at slots i).block
unfolding shown
shown-at cts [] i x h m e = absurd (omega arith)
shown-at cts (slot ∷ slots) zero x h m e = rw e
shown-at cts (slot ∷ slots) (suc i) x h (inl (hit, us)) e =
    cc (Uncached-at slots i x (omega arith) us)
shown-at cts (slot ∷ slots) (suc i) x h (inr (miss, m)) e =
    rw miss (shown-at cts slots i x (omega arith) m e)

-- The device matters only for what is not cached.
pub shown_ext :
    (cts cts' : ℕ → Block) (slots : List Slot) (x : ℕ)
    → cts' x ≡ cts x
    → shown cts' slots x ≡ shown cts slots x
unfolding shown
shown_ext cts cts' [] x e = e
shown_ext cts cts' (slot ∷ slots) x e = ground (arith, shown_ext cts cts' slots x e)

IsClean_ext :
    (cts cts' : ℕ → Block) (slot : Slot)
    → (cts' slot.sector_id ≡ cts slot.sector_id) ⊎ (holds slot slot.sector_id ≡ false)
    → IsClean cts slot
    → IsClean cts' slot
IsClean_ext cts cts' slot h v = record {
  dirty_valid = v.dirty_valid;
  clean = λ valid clean. ground (arith, v.clean valid clean);
  fresh = v.fresh;
}

pub AllClean-ext :
    (cts cts' : ℕ → Block) (slots : List Slot)
    → ((x : ℕ) → (cts' x ≡ cts x) ⊎ Uncached x slots)
    → AllClean cts slots
    → AllClean cts' slots
AllClean-ext cts cts' [] h v = tt
AllClean-ext cts cts' (slot ∷ slots) h (v, vs) = (
  IsClean_ext cts cts' slot (ground (arith, h slot.sector_id)) v,
  AllClean-ext cts cts' slots (λ x. ground (arith, h x)) vs,
)

-- The device may change where no other slot than the one written caches.
pub AllClean-set :
    (cts cts' : ℕ → Block) (slots : List Slot) (i : ℕ) (w : Slot)
    → ((x : ℕ) → (cts' x ≡ cts x) ⊎ UncachedElsewhere x slots i)
    → AllClean cts slots
    → IsClean cts' w
    → AllClean cts' (set slots i w)
AllClean-set cts cts' [] i w h v c = tt
AllClean-set cts cts' (slot ∷ slots) zero w h (v, vs) c = (c, AllClean-ext cts cts' slots h vs)
AllClean-set cts cts' (slot ∷ slots) (suc i) w h (v, vs) c = (
  IsClean_ext cts cts' slot (ground (arith, h slot.sector_id)) v,
  AllClean-set cts cts' slots i w (λ x. ground (arith, h x)) vs c,
)

-- Where every slot agrees with the device, so does the cache.
pub shown_of_clean :
    (cts : ℕ → Block) (slots : List Slot) (x : ℕ)
    → AllClean cts slots
    → ((i : ℕ) → i < length slots → (slot_at slots i).is_dirty ≡ false)
    → shown cts slots x ≡ cts x
unfolding shown
shown_of_clean cts [] x v h = refl
shown_of_clean cts (slot ∷ slots) x (v, vs) h = ground (
  arith,
  h 0 (omega arith),
  v.clean,
  shown_of_clean cts slots x vs (λ i lt. h (suc i) (omega arith)),
)
