-- ===== src/Disk/Tests.antt =====
-- A disk of eight-byte sectors in memory: the bitmap in sector 1, the table from sector 2 on, and a
-- heap of six clusters, in which a chain leads from cluster 2 over 4 to 5.
use exfat_slim.Base.{
  none, ℕ, zero, suc, ◌+◌, ◌/◌, ◌<◌, ◌≤◌, ◌≡◌, refl, Bool, true, false, some, List, [], ◌∷◌,
  replicate, leb, ◌==◌, if◌then◌else◌, arith,
}
use exfat_slim.Word.{IsBlock, from_le_bytes}
use exfat_slim.Device.{Block}
use exfat_slim.Action.{Ensures}
use exfat_slim.SlotCache.{new_slot, new}
use exfat_slim.SlotCache.Tests.{memory, memory-Storage}
use exfat_slim.SlotCache.Initial.{new-Coherent}
use exfat_slim.SlotCache.Regions.{AllInside}
use exfat_slim.Touched.{no_touched}
use exfat_slim.Allocator.{StoredChain}
use exfat_slim.Fat.{num_entries, link, entry_at}
use exfat_slim.Bitmap.{pos_of}
use exfat_slim.Fat.Lookup.{entry}
use exfat_slim.SlotCache.View.{shown}
use exfat_slim.Disk.{Disk, free}
use exfat_slim.Disk.Sound.{
  Owner, is_bitmap, is_fat, Serves, IsReady, Changes, clear, link_of, InHeap,
}
use exfat_slim.Disk.Chain.{has, ChainFrom, end_at, link_to}
use exfat_slim.Disk.Free.{links_without, free-Freed}

abbrev sectors : ℕ → Block
sectors x =
    if x == 1
    then 13 ∷ 0 ∷ 0 ∷ 0 ∷ 0 ∷ 0 ∷ 0 ∷ 0 ∷ []
    else if x == 3
    then 4 ∷ 0 ∷ 0 ∷ 0 ∷ 0 ∷ 0 ∷ 0 ∷ 0 ∷ []
    else if x == 4
    then 5 ∷ 0 ∷ 0 ∷ 0 ∷ 255 ∷ 255 ∷ 255 ∷ 255 ∷ []
    else 0 ∷ 0 ∷ 0 ∷ 0 ∷ 0 ∷ 0 ∷ 0 ∷ 0 ∷ []

abbrev pub disk : Disk (ℕ → Block)
disk = record {
  alloc = record {
    bitmap = record { first_sector = 1; num_sectors = 1; cluster_count = 6 };
    cache = new 8 2;
    next_search_cluster = 2;
  };
  fat = record { start_of_fat_sector = some 2; cache = new 8 2 };
  data_blocks = new 8 2;
  touched = no_touched;
  dev = sectors;
}

abbrev pub owner : ℕ → Owner
owner x =
    if x == 1
    then Owner.bitmap
    else if leb 6 x
    then Owner.heap
    else if leb 2 x
    then Owner.fat
    else Owner.nobody

if-IsBlock : (c : Bool) (x y : Block) → IsBlock 8 x → IsBlock 8 y → IsBlock 8 (if c then x else y)
if-IsBlock true x y h k = h
if-IsBlock false x y h k = k

two_words-IsBlock : (a e : ℕ) → a < 256 → e < 256 → IsBlock 8 (a ∷ 0 ∷ 0 ∷ 0 ∷ e ∷ e ∷ e ∷ e ∷ [])
two_words-IsBlock a e ha he =
    ((ha, (omega arith, (omega arith, (omega arith, (he, (he, (he, (he, tt)))))))), refl)

all-IsBlock : (x : ℕ) → IsBlock 8 (sectors x)
all-IsBlock x = if-IsBlock (x == 1) _ _ (two_words-IsBlock 13 0 (omega arith) (omega arith)) (
    if-IsBlock (x == 3) _ _ (two_words-IsBlock 4 0 (omega arith) (omega arith)) (
      if-IsBlock (x == 4) _ _ (two_words-IsBlock 5 255 (omega arith) (omega arith))
        (two_words-IsBlock 0 0 (omega arith) (omega arith))))

unused :
    (region : ℕ → Bool) (n : ℕ)
    → AllInside memory-Storage region (IsBlock 8) (replicate n (new_slot 8))
unused region zero = tt
unused region (suc n) = (λ e. cc, unused region n)

serves : (region : ℕ → Bool) → Serves memory-Storage 8 region (new 8 2) sectors
unfolding new
serves region = record {
  coherent = (new-Coherent memory-Storage 8 2 sectors (omega arith)).0;
  inside = unused region 2;
}

by_number : (k : ℕ) → k ≡ 0 → is_bitmap (owner (1 + k)) ≡ true
by_number k e = rw e refl

in_table : (x : ℕ) → 2 ≤ x → x < 6 → is_fat (owner x) ≡ true
in_table x lo hi =
    let not_bitmap : (x == 1) ≡ false = ground arith in
    let not_heap : leb 6 x ≡ false = ground arith in
    let table : leb 2 x ≡ true = ground arith in rw not_bitmap (rw not_heap (rw table refl))

pub disk-IsReady : IsReady memory-Storage 8 2 2 (omega arith) refl owner disk
disk-IsReady = record {
  sized = all-IsBlock;
  on_bitmap = serves _;
  on_fat = serves _;
  on_heap = serves _;
  started = refl;
  bitmap_owned = λ k h. by_number k (omega arith);
  fat_owned = λ c h. in_table (2 + c / num_entries 8) (omega arith) (omega arith);
}

abbrev pub links : ℕ → ℕ
links = link_of memory-Storage 8 2 2 (omega arith) refl owner disk

pub two_to_four : link (links 2) ≡ some 4
unfolding new shown entry entry_at from_le_bytes link
two_to_four = refl

pub four_to_five : link (links 4) ≡ some 5
unfolding new shown entry entry_at from_le_bytes link
four_to_five = refl

pub five_ends : link (links 5) ≡ none
unfolding new shown entry entry_at from_le_bytes link
five_ends = refl

pub in_heap : (x : ℕ) → 2 ≤ x → x < 8 → InHeap memory-Storage 8 2 2 (omega arith) refl owner disk x
unfolding pos_of
in_heap x lo hi = (lo, hi, omega arith)

abbrev pub chain : StoredChain
chain = StoredChain.fat 2 5 3

abbrev pub clusters : List ℕ
clusters = 2 ∷ 4 ∷ 5 ∷ []

pub leads : ChainFrom links 2 clusters
leads = link_to two_to_four (link_to four_to_five (end_at five_ends))

free-Freed_example :
    Ensures
      (λ _ t.
        Changes memory-Storage 8 2 2
          (omega arith)
          refl
          owner
          disk
          t
          (λ x.
            if has x clusters
            then true
            else clear memory-Storage 8 2 2 (omega arith) refl owner disk x)
          (links_without memory-Storage 8 2 2 (omega arith) refl owner disk chain clusters))
      (λ t. Unit {0})
      (free memory 8 chain disk)
free-Freed_example =
    free-Freed memory-Storage 8 2 2 (omega arith) refl owner chain clusters disk disk-IsReady (
      leads,
      (
        in_heap 2 (omega arith) (omega arith),
        (in_heap 4 (omega arith) (omega arith), (in_heap 5 (omega arith) (omega arith), tt)),
      ),
      omega arith,
    )
