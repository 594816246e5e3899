-- ===== src/SlotCache/Coherence.antt =====
-- The invariant of a cache over a device, what its steps keep, and the two searches of the clock:
-- for a sector (`cache_hit`) and for a slot to evict (`choose_victim`).
use exfat_slim.Base.{
  ℕ, zero, suc, ◌+◌, ◌≤◌, ◌<◌, ◌≡◌, refl, sym, ◌∙◌, Bool, Bool-cases, true, false, ◌⊎◌, inl, inr,
  Option, none, some, List, [], ◌∷◌, length, length-set, get_or-set_self, ◌==◌, arith,
}
use exfat_slim.Device.{Block}
use exfat_slim.SlotCache.{
  Slot, SlotCache, new_slot, slot_at, advance, put_slot, cache_hit_loop, cache_hit,
}
use exfat_slim.SlotCache.View.{
  holds, shown, Uncached, Unique, IsClean, AllClean, AllClean-at, AllClean-set, UncachedElsewhere,
  Uncached-at, AtMostOne-elsewhere, AtMostOne-set, Uncached-set, shown-set_hit, shown-set_miss,
  shown-at, shown_ext,
}

pub record IsCoherent (cts : ℕ → Block) (c : SlotCache) : Type 0 where
  pub hand_in : c.hand < length c.cache
  pub unique : Unique c.cache
  pub clean : AllClean cts c.cache

-- From `c` over `cts` to `c'` over `cts'` nothing changes that a client can see.
pub record Keeps (cts : ℕ → Block) (c : SlotCache) (cts' : ℕ → Block) (c' : SlotCache)
    : Type 0 where
  pub coherent : IsCoherent cts' c'
  pub same_length : length c'.cache ≡ length c.cache
  pub same_shown : (x : ℕ) → shown cts' c'.cache x ≡ shown cts c.cache x
  pub uncached : (x : ℕ) → Uncached x c.cache → Uncached x c'.cache

pub Keeps-trans :
    {a b c : ℕ → Block} {k l m : SlotCache} → Keeps a k b l → Keeps b l c m → Keeps a k c m
Keeps-trans p q = record {
  coherent = q.coherent;
  same_length = q.same_length ∙ p.same_length;
  same_shown = λ x. q.same_shown x ∙ p.same_shown x;
  uncached = λ x u. q.uncached x (p.uncached x u);
}

pub advance_in : (c : SlotCache) → c.hand < length c.cache → (advance c).hand < length c.cache
advance_in c h = ground arith

-- A change of the hand.
pub Keeps-hand :
    (cts : ℕ → Block) (c : SlotCache) (h : ℕ)
    → IsCoherent cts c
    → h < length c.cache
    → Keeps cts c cts (record c { hand = h })
Keeps-hand cts c h v lt = record {
  coherent = record { hand_in = lt; unique = v.unique; clean = v.clean };
  same_length = refl;
  same_shown = λ x. refl;
  uncached = λ x u. u;
}

module _ (cts cts' : ℕ → Block) (c : SlotCache) (i : ℕ) (w : Slot) where
  -- A slot that keeps its labels and its bytes, while the device may change at its sector.
  pub Keeps-put_slot :
      IsCoherent cts c
      → i < length c.cache
      → ((x : ℕ) → holds (slot_at c.cache i) x ≡ false → cts' x ≡ cts x)
      → IsClean cts' w
      → w.sector_id ≡ (slot_at c.cache i).sector_id
      → w.is_valid ≡ (slot_at c.cache i).is_valid
      → w.block ≡ (slot_at c.cache i).block
      → Keeps cts c cts' (put_slot c i w)
  Keeps-put_slot v h stored k es ev eb = record {
    coherent = record {
      hand_in = omega (arith, length-set c.cache i w, v.hand_in);
      unique = λ x. AtMostOne-set c.cache i x w (v.unique x) (elsewhere x);
      clean =
          AllClean-set cts cts' c.cache i w
            (λ x. elim (Bool-cases (holds w x)) [
              | inl e ↦ inr (elsewhere x e)
              | inr e ↦ inl (stored x (sym (same x) ∙ e))
            ])
            v.clean k;
    };
    same_length = length-set c.cache i w;
    same_shown = λ x. elim (Bool-cases (holds w x)) [
      | inl e ↦
          shown-set_hit cts' c.cache i x w h (elsewhere x e) e
          ∙ eb
          ∙ sym (shown-at cts c.cache i x h (v.unique x) (sym (same x) ∙ e))
      | inr e ↦
          shown-set_miss cts' c.cache i x w h (v.unique x) e (λ e'. cc (same x))
          ∙ shown_ext cts cts' c.cache x (stored x (sym (same x) ∙ e))
    ];
    uncached = λ x u. Uncached-set c.cache i x w u (same x ∙ Uncached-at c.cache i x h u);
  }
    where
      same : (x : ℕ) → holds w x ≡ holds (slot_at c.cache i) x
      same x = rw (es, ev)

      elsewhere : (x : ℕ) → holds w x ≡ true → UncachedElsewhere x c.cache i
      elsewhere x e = AtMostOne-elsewhere c.cache i x h (v.unique x) (sym (same x) ∙ e)

-- Setting or clearing the mark of recent use.
pub Keeps-mark :
    (cts : ℕ → Block) (c : SlotCache) (i : ℕ) (used : Bool)
    → IsCoherent cts c
    → i < length c.cache
    → Keeps cts c cts (put_slot c i (record (slot_at c.cache i) { is_used = used }))
Keeps-mark cts c i used v h =
    let k = AllClean-at cts c.cache i h v.clean in
    Keeps-put_slot cts cts c i (record (slot_at c.cache i) { is_used = used }) v h (λ x e. refl)
      (record { dirty_valid = k.dirty_valid; clean = k.clean; fresh = k.fresh }) refl refl refl

-- Slot `i` lies on the way of a search of `rounds` slots from `hand` on, round the end.
abbrev OnTheWay : ℕ → ℕ → ℕ → ℕ → Type 0
OnTheWay n hand rounds i = ((hand ≤ i) × (i < hand + rounds)) ⊎ (i + n < hand + rounds)

abbrev HitPost : ℕ → ℕ → SlotCache → Option ℕ → SlotCache → Type 0
HitPost rounds x c (some i) c' =
    (i < length c.cache)
    × (holds (slot_at c.cache i) x ≡ true)
    × (c' ≡ put_slot (record c { hand = i }) i (record (slot_at c.cache i) { is_used = true }))
HitPost rounds x c none c' =
    (c'.cache ≡ c.cache)
    × (c'.hand < length c.cache)
    × ((i : ℕ)
        → i < length c.cache
        → OnTheWay (length c.cache) c.hand rounds i
        → holds (slot_at c.cache i) x ≡ false)

-- A round that misses goes on from the next slot.
HitPost-suc :
    (rounds x : ℕ) (c : SlotCache) (r : Option ℕ) (c' : SlotCache)
    → c.hand < length c.cache
    → holds (slot_at c.cache c.hand) x ≡ false
    → HitPost rounds x (advance c) r c'
    → HitPost (suc rounds) x c r c'
HitPost-suc rounds x c (some i) c' h miss p = p
HitPost-suc rounds x c none c' h miss (same, lt, others) = (same, lt, missed)
  where
    missed :
        (i : ℕ)
        → i < length c.cache
        → OnTheWay (length c.cache) c.hand (suc rounds) i
        → holds (slot_at c.cache i) x ≡ false
    missed i hi on = elim (Bool-cases (i == c.hand)) [
      | inl e ↦ let e' : i ≡ c.hand = ground arith in rw e' miss
      | inr e ↦ others i hi (ground arith)
    ]

cache_hit_loop-HitPost :
    (rounds x : ℕ) (c : SlotCache)
    → c.hand < length c.cache
    → let (r, c') = cache_hit_loop rounds x c in HitPost rounds x c r c'
unfolding cache_hit_loop
cache_hit_loop-HitPost zero x c h = (refl, h, λ i hi on. absurd (omega arith))
cache_hit_loop-HitPost (suc rounds) x c h = elim (Bool-cases (holds (slot_at c.cache c.hand) x)) [
  | inl e ↦ rw e (h, e, refl)
  | inr e ↦ rw e (
      HitPost-suc rounds x c _ _ h e (cache_hit_loop-HitPost rounds x (advance c) (advance_in c h)))
]

pub Uncached-misses :
    (slots : List Slot) (x : ℕ)
    → ((i : ℕ) → i < length slots → holds (slot_at slots i) x ≡ false)
    → Uncached x slots
Uncached-misses [] x h = tt
Uncached-misses (slot ∷ slots) x h =
    (h 0 (omega arith), Uncached-misses slots x (λ i lt. h (suc i) (omega arith)))

-- What a search for sector `x` returns: the slot that caches it, or that none does.
abbrev pub Found : ℕ → SlotCache → Option ℕ → Type 0
Found x c (some i) = (i < length c.cache) × (holds (slot_at c.cache i) x ≡ true)
Found x c none = Uncached x c.cache

module _ (cts : ℕ → Block) (x : ℕ) (c : SlotCache) (v : IsCoherent cts c) where
  found :
      (r : Option ℕ) (c' : SlotCache)
      → HitPost (length c.cache) x c r c'
      → Keeps cts c cts c' × Found x c' r
  found (some i) c' (h, e, p) = rw p (
    Keeps-trans moved (Keeps-mark cts _ i true moved.coherent h),
    (
      omega (arith, length-set c.cache i (marked i)),
      rw (get_or-set_self c.cache i (marked i) (new_slot 0) h) e,
    ),
  )
    where
      marked : ℕ → Slot
      marked j = record (slot_at c.cache j) { is_used = true }

      moved : Keeps cts c cts (record c { hand = i })
      moved = Keeps-hand cts c i v h
  found none c' (same, lt, misses) =
      rw whole
        (Keeps-hand cts c c'.hand v lt, Uncached-misses c.cache x λ i h. misses i h (ground arith))
    where
      whole : c' ≡ record c { hand = c'.hand }
      whole = λ j. record { cache = same j; hand = c'.hand }

  pub cache_hit-Found : let (r, c') = cache_hit x c in Keeps cts c cts c' × Found x c' r
  unfolding cache_hit
  cache_hit-Found = found _ _ (cache_hit_loop-HitPost (length c.cache) x c v.hand_in)
