-- ===== src/Disk/Sound.antt =====
-- The disk as a client sees it: the bits of the bitmap, the links of the table, the blocks of data.
-- Every sector has one owner, and each cache serves the sectors of one owner, so that what one cache
-- writes back is never what another one shows.
use exfat_slim.Base.{
  ℕ, ◌+◌, ◌*◌, ◌/◌, ◌≤◌, ◌<◌, ◌≡◌, refl, Bool, Bool-cases, true, false, inl, inr, some, List, [],
  ◌∷◌, arith,
}
use exfat_slim.Word.{IsBlock}
use exfat_slim.Device.{Block, BlockDevice, Storage}
use exfat_slim.SlotCache.{Slot, SlotCache}
use exfat_slim.SlotCache.View.{holds, shown}
use exfat_slim.SlotCache.Coherence.{IsCoherent}
use exfat_slim.SlotCache.Memory.{view}
use exfat_slim.SlotCache.Regions.{AllInside, IsStocked}
use exfat_slim.SlotCache.Regions.Operations.{spared-Coherent}
use exfat_slim.Bitmap.{pos_of}
use exfat_slim.Allocator.{cached}
use exfat_slim.Allocator.State.{IsSound, is_clear}
use exfat_slim.Allocator.Contained.{Owns}
use exfat_slim.Fat.{fat_cached, num_entries}
use exfat_slim.Fat.Lookup.{IsTable, entry}
use exfat_slim.Disk.{Disk, alloc_part, fat_part, data_part}

-- Who a sector belongs to.
pub data Owner : Type 0 where
  bitmap : Owner
  fat : Owner
  heap : Owner
  nobody : Owner

abbrev pub is_bitmap : Owner → Bool
is_bitmap bitmap = true
is_bitmap o = false

abbrev pub is_fat : Owner → Bool
is_fat fat = true
is_fat o = false

abbrev pub is_heap : Owner → Bool
is_heap heap = true
is_heap o = false

-- An owner is one of them.
pub alone :
    (o : Owner)
    → (is_bitmap o ≡ true → (is_fat o ≡ false) × (is_heap o ≡ false))
      × (is_fat o ≡ true → (is_bitmap o ≡ false) × (is_heap o ≡ false))
      × (is_heap o ≡ true → (is_bitmap o ≡ false) × (is_fat o ≡ false))
alone bitmap = (λ h. (refl, refl), λ h. cc, λ h. cc)
alone fat = (λ h. cc, λ h. (refl, refl), λ h. cc)
alone heap = (λ h. cc, λ h. cc, λ h. (refl, refl))
alone nobody = (λ h. cc, λ h. cc, λ h. cc)

module _ {d : BlockDevice} (st : Storage d) (size : ℕ) where
  open st use {contents}

  -- A cache over a device that serves a region.
  pub record Serves (region : ℕ → Bool) (c : SlotCache) (dev : d.State) : Type 0 where
    pub coherent : IsCoherent (contents dev) c
    pub inside : AllInside st region (IsBlock size) c.cache

  -- All it shows are blocks of `size` bytes, if the device has such.
  shown-IsBlock :
      (region : ℕ → Bool) (cts : ℕ → Block) (slots : List Slot) (x : ℕ)
      → AllInside st region (IsBlock size) slots
      → IsBlock size (cts x)
      → IsBlock size (shown cts slots x)
  unfolding shown
  shown-IsBlock region cts [] x h v = v
  shown-IsBlock region cts (slot ∷ slots) x (h, hs) v = elim (Bool-cases (holds slot x)) [
    | inl e ↦ rw e ((h (ground arith)).1)
    | inr e ↦ rw e (shown-IsBlock region cts slots x hs v)
  ]

  pub Serves-spared :
      (region : ℕ → Bool) (c : SlotCache) (dev dev' : d.State)
      → Serves region c dev
      → ((x : ℕ) → region x ≡ true → contents dev' x ≡ contents dev x)
      → Serves region c dev'
        × ((x : ℕ)
            → region x ≡ true
            → shown (contents dev') c.cache x ≡ shown (contents dev) c.cache x)
  Serves-spared region c dev dev' v same =
      let (coherent, shows) =
        spared-Coherent st region (IsBlock size) c dev dev' v.inside same v.coherent in
      (record { coherent = coherent; inside = v.inside }, shows)

module _ {d : BlockDevice} (st : Storage d) (size n start : ℕ) (hn : 0 < n) (four : size ≡ 4 * n)
    (owner : ℕ → Owner) where
  open st use {contents}

  abbrev pub bitmap_sector : ℕ → Bool
  bitmap_sector x = is_bitmap (owner x)

  abbrev pub fat_sector : ℕ → Bool
  fat_sector x = is_fat (owner x)

  abbrev pub heap_sector : ℕ → Bool
  heap_sector x = is_heap (owner x)

  pub record IsReady (s : Disk d.State) : Type 0 where
    pub sized : (x : ℕ) → IsBlock size (contents s.dev x)
    pub on_bitmap : Serves st size bitmap_sector s.alloc.cache s.dev
    pub on_fat : Serves st size fat_sector s.fat.cache s.dev
    pub on_heap : Serves st size heap_sector s.data_blocks s.dev
    pub started : s.fat.start_of_fat_sector ≡ some start
    pub bitmap_owned : Owns st bitmap_sector size (alloc_part s)
    pub fat_owned :
        (c : ℕ)
        → c < 2 + s.alloc.bitmap.cluster_count
        → fat_sector (start + c / num_entries size) ≡ true

  -- What a client sees.
  abbrev pub clear : Disk d.State → ℕ → Bool
  clear s = is_clear st size (alloc_part s)

  abbrev pub link_of : Disk d.State → ℕ → ℕ
  link_of s = entry st size n start hn four (fat_part s)

  abbrev pub block_of : Disk d.State → ℕ → Block
  block_of s = view st (data_part s)

  -- A cluster of the heap that has a bit.
  abbrev pub InHeap : Disk d.State → ℕ → Type 0
  InHeap s x =
      (2 ≤ x)
      × (x < 2 + s.alloc.bitmap.cluster_count)
      × ((pos_of size x).sector < s.alloc.bitmap.num_sectors)

  -- From `s` to `t` the bits have become `bits`, the links `links`, and no block of data changed.
  pub record Changes (s t : Disk d.State) (bits : ℕ → Bool) (links : ℕ → ℕ) : Type 0 where
    pub ready : IsReady t
    pub same_bitmap : t.alloc.bitmap ≡ s.alloc.bitmap
    pub bits_are : (x : ℕ) → InHeap s x → clear t x ≡ bits x
    pub links_are : (x : ℕ) → InHeap s x → link_of t x ≡ links x
    pub same_blocks : (x : ℕ) → heap_sector x ≡ true → block_of t x ≡ block_of s x

  -- The parts of a disk that is ready.
  pub IsReady-IsSound : {s : Disk d.State} → IsReady s → IsSound st size (alloc_part s)
  IsReady-IsSound v = record {
    coherent = v.on_bitmap.coherent;
    blocks = λ y. shown-IsBlock st size bitmap_sector _ _ y v.on_bitmap.inside (v.sized y);
  }

  pub IsReady-IsTable :
      {s : Disk d.State} → IsReady s → IsTable st size n start hn four (fat_part s)
  IsReady-IsTable v = record {
    coherent = v.on_fat.coherent;
    blocks = λ y. (shown-IsBlock st size fat_sector _ _ y v.on_fat.inside (v.sized y)).1;
    started = v.started;
  }

  pub IsReady-bitmap :
      {s : Disk d.State}
      → IsReady s
      → IsStocked st bitmap_sector (IsBlock size) (cached (alloc_part s))
  IsReady-bitmap v = record { inside = v.on_bitmap.inside; stocked = λ x o. v.sized x }

  pub IsReady-fat :
      {s : Disk d.State}
      → IsReady s
      → IsStocked st fat_sector (IsBlock size) (fat_cached (fat_part s))
  IsReady-fat v = record { inside = v.on_fat.inside; stocked = λ x o. v.sized x }

  pub IsReady-heap :
      {s : Disk d.State} → IsReady s → IsStocked st heap_sector (IsBlock size) (data_part s)
  IsReady-heap v = record { inside = v.on_heap.inside; stocked = λ x o. v.sized x }
