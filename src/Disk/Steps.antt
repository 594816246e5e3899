-- ===== src/Disk/Steps.antt =====
-- An operation through one of the caches changes nothing that the others show.
use exfat_slim.Base.{
  ℕ, ◌+◌, ◌*◌, ◌/◌, ◌%◌, ◌≤◌, ◌<◌, ◌≡◌, refl, sym, ap, subst, ◌∙◌, Bool, Bool-cases, true, inl, inr,
  List, arith,
}
use exfat_slim.Word.{IsBlock}
use exfat_slim.Device.{BlockDevice, Storage}
use exfat_slim.SlotCache.{Cached}
use exfat_slim.SlotCache.Victim.{Coherent}
use exfat_slim.SlotCache.Regions.{IsStocked, Spares}
use exfat_slim.Bitmap.{pos_of}
use exfat_slim.Bitmap.Bits.{is_free_at}
use exfat_slim.Allocator.{Session, cached}
use exfat_slim.Allocator.State.{is_clear}
use exfat_slim.Allocator.Contained.{Contained}
use exfat_slim.Fat.{FatSession, fat_cached, num_entries, entry_at}
use exfat_slim.Fat.Lookup.{IsTable, entry}
use exfat_slim.Fat.Contained.{FatContained}
use exfat_slim.Disk.{Disk, alloc_part, with_alloc_part, fat_part, with_fat_part}
use exfat_slim.Disk.Sound.{
  Owner, is_bitmap, is_fat, is_heap, alone, Serves-spared, bitmap_sector, fat_sector, IsReady,
  clear, link_of, Changes,
}

module _ {d : BlockDevice} (st : Storage d) (size n start : ℕ) (hn : 0 < n) (four : size ≡ 4 * n)
    (owner : ℕ → Owner) where
  open st use {contents}

  abbrev pub Ready : Disk d.State → Type 0
  Ready = IsReady st size n start hn four owner

  abbrev pub Change : Disk d.State → Disk d.State → (ℕ → Bool) → (ℕ → ℕ) → Type 0
  Change = Changes st size n start hn four owner

  abbrev pub bit : Disk d.State → ℕ → Bool
  bit = clear st size n start hn four owner

  abbrev pub next_of : Disk d.State → ℕ → ℕ
  next_of = link_of st size n start hn four owner

  sized_after :
      (region : ℕ → Bool) (s t : Cached d.State)
      → ((x : ℕ) → IsBlock size (contents s.dev x))
      → IsStocked st region (IsBlock size) t
      → Spares st region (IsBlock size) s t
      → (x : ℕ) → IsBlock size (contents t.dev x)
  sized_after region s t v w same x = elim (Bool-cases (region x)) [
    | inl ours ↦ w.stocked x ours
    | inr away ↦ subst (IsBlock size) (sym (same x away)) (v x)
  ]

  -- An operation on the bitmap.
  module _ (s : Disk d.State) (v : Ready s) (t : Session d.State)
      (coherent : Coherent st (cached t))
      (k : Contained st (bitmap_sector st size n start hn four owner) size (alloc_part s) t)
      (e : t.alloc.bitmap ≡ s.alloc.bitmap) where
    fat_kept : (x : ℕ) → is_fat (owner x) ≡ true → contents t.dev x ≡ contents s.dev x
    fat_kept x o = k.spares x (((alone (owner x)).1 o).0)

    heap_kept : (x : ℕ) → is_heap (owner x) ≡ true → contents t.dev x ≡ contents s.dev x
    heap_kept x o = k.spares x (((alone (owner x)).2 o).0)

    bitmap-IsReady : Ready (with_alloc_part t s)
    bitmap-IsReady = record {
      sized = sized_after _ (cached (alloc_part s)) (cached t) v.sized k.stocked k.spares;
      on_bitmap = record { coherent = coherent; inside = k.stocked.inside };
      on_fat = (Serves-spared st size _ s.fat.cache s.dev t.dev v.on_fat fat_kept).0;
      on_heap = (Serves-spared st size _ s.data_blocks s.dev t.dev v.on_heap heap_kept).0;
      started = v.started;
      bitmap_owned = λ i h.
          ap (λ b. is_bitmap (owner (b.first_sector + i))) e
          ∙ v.bitmap_owned i (omega (arith, h, ap (λ b. b.num_sectors) e));
      fat_owned = λ c h. v.fat_owned c (omega (arith, h, ap (λ b. b.cluster_count) e));
    }

    pub after_bitmap :
        (bits : ℕ → Bool)
        → ((x : ℕ) → 2 ≤ x → is_clear st size t x ≡ bits x)
        → Change s (with_alloc_part t s) bits (next_of s)
    unfolding entry
    after_bitmap bits h = record {
      ready = bitmap-IsReady;
      same_bitmap = e;
      bits_are = λ x (two, _, _). h x two;
      links_are = λ x (_, lt, _). ap (entry_at (x % num_entries size)) (
          (Serves-spared st size _ s.fat.cache s.dev t.dev v.on_fat fat_kept).1
            (start + x / num_entries size) (v.fat_owned x lt));
      same_blocks =
          λ x o. (Serves-spared st size _ s.data_blocks s.dev t.dev v.on_heap heap_kept).1 x o;
    }

  -- An operation on the table.
  module _ (s : Disk d.State) (v : Ready s) (t : FatSession d.State)
      (table : IsTable st size n start hn four t)
      (k : FatContained st
        (fat_sector st size n start hn four owner)
        size
        n
        start
        hn
        four
        (fat_part s)
        t) where
    bitmap_kept : (x : ℕ) → is_bitmap (owner x) ≡ true → contents t.dev x ≡ contents s.dev x
    bitmap_kept x o = k.spares x (((alone (owner x)).0 o).0)

    heap_kept' : (x : ℕ) → is_heap (owner x) ≡ true → contents t.dev x ≡ contents s.dev x
    heap_kept' x o = k.spares x (((alone (owner x)).2 o).1)

    fat-IsReady : Ready (with_fat_part t s)
    fat-IsReady = record {
      sized = sized_after _ (fat_cached (fat_part s)) (fat_cached t) v.sized k.stocked k.spares;
      on_bitmap = (Serves-spared st size _ s.alloc.cache s.dev t.dev v.on_bitmap bitmap_kept).0;
      on_fat = record { coherent = table.coherent; inside = k.stocked.inside };
      on_heap = (Serves-spared st size _ s.data_blocks s.dev t.dev v.on_heap heap_kept').0;
      started = table.started;
      bitmap_owned = v.bitmap_owned;
      fat_owned = v.fat_owned;
    }

    pub after_fat :
        (links : ℕ → ℕ)
        → ((x : ℕ) → entry st size n start hn four t x ≡ links x)
        → Change s (with_fat_part t s) (bit s) links
    unfolding is_clear pos_of
    after_fat links h = record {
      ready = fat-IsReady;
      same_bitmap = refl;
      bits_are = λ x (_, _, in_bitmap).
          ap (λ (b : List ℕ). is_free_at b ((pos_of size x).bit))
            ((Serves-spared st size _ s.alloc.cache s.dev t.dev v.on_bitmap bitmap_kept).1
              (s.alloc.bitmap.first_sector + (pos_of size x).sector) (v.bitmap_owned _ in_bitmap));
      links_are = λ x _. h x;
      same_blocks =
          λ x o. (Serves-spared st size _ s.data_blocks s.dev t.dev v.on_heap heap_kept').1 x o;
    }
