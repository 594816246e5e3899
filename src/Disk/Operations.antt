-- ===== src/Disk/Operations.antt =====
-- Marking a run, reading a link and setting a link, on the disk.
use exfat_slim.Base.{ℕ, ◌*◌, ◌<◌, ◌≡◌, refl, ap, ◌∙◌, Bool, not, ◌^◌, if◌then◌else◌, ◌==◌, arith}
use exfat_slim.Device.{BlockDevice, Storage}
use exfat_slim.Action.{Ensures, within, both}
use exfat_slim.FreeRun.{AllocatedRun}
use exfat_slim.Allocator.{mark_allocated}
use exfat_slim.Allocator.Marking.{in_run, mark_allocated-Ensures}
use exfat_slim.Allocator.Contained.{mark_allocated-Contained}
use exfat_slim.Fat.{link, set_link, next_cluster_in_fat_chain}
use exfat_slim.Fat.Lookup.{next_cluster_in_fat_chain-Ensures, set_link-Ensures}
use exfat_slim.Fat.Contained.{next_cluster_in_fat_chain-Contained, set_link-Contained}
use exfat_slim.Disk.{Disk, alloc_part, with_alloc_part, fat_part, with_fat_part, on_alloc, on_fat}
use exfat_slim.Disk.Sound.{
  Owner, bitmap_sector, fat_sector, InHeap, IsReady-IsSound, IsReady-IsTable, IsReady-bitmap,
  IsReady-fat,
}
use exfat_slim.Disk.Steps.{Ready, Change, bit, next_of, after_bitmap, after_fat}

module _ {d : BlockDevice} (st : Storage d) (size n start : ℕ) (hn : 0 < n) (four : size ≡ 4 * n)
    (owner : ℕ → Owner) where
  abbrev pub Rd : Disk d.State → Type 0
  Rd = Ready st size n start hn four owner

  abbrev pub Ch : Disk d.State → Disk d.State → (ℕ → Bool) → (ℕ → ℕ) → Type 0
  Ch = Change st size n start hn four owner

  abbrev pub bits : Disk d.State → ℕ → Bool
  bits = bit st size n start hn four owner

  abbrev pub links : Disk d.State → ℕ → ℕ
  links = next_of st size n start hn four owner

  abbrev pub Within : Disk d.State → ℕ → Type 0
  Within = InHeap st size n start hn four owner

  pub mark-Changes :
      (run : AllocatedRun) (allocated : Bool) (s : Disk d.State)
      → Rd s
      → Ensures
          (λ _ t. Ch s t (λ x. if in_run run x then not allocated else bits s x) (links s))
          (λ t. Unit {0})
          (on_alloc d size (mark_allocated d size run allocated) s)
  mark-Changes run allocated s v =
      let sound = IsReady-IsSound st size n start hn four owner v in
      within (λ p. with_alloc_part p s)
        (both (mark_allocated-Ensures st size run allocated (alloc_part s) (omega arith) sound) (
          mark_allocated-Contained st (bitmap_sector st size n start hn four owner) size run
            allocated (alloc_part s) (omega arith) sound
            (IsReady-bitmap st size n start hn four owner v) v.bitmap_owned))
        (λ _ t (m, k).
          after_bitmap st size n start hn four owner s v t m.sound.coherent k m.same_bitmap _
            m.bits)
        (λ t q. tt)

  pub next-Changes :
      (c : ℕ) (s : Disk d.State)
      → Rd s
      → Within s c
      → Ensures
          (λ o t. (o ≡ link (links s c)) × Ch s t (bits s) (links s))
          (λ t. Unit {0})
          (on_fat d size (next_cluster_in_fat_chain d size c) s)
  next-Changes c s v (two, lt, _) =
      let table = IsReady-IsTable st size n start hn four owner v in
      within (λ p. with_fat_part p s)
        (both (next_cluster_in_fat_chain-Ensures st size n start hn four c (fat_part s) table two) (
          next_cluster_in_fat_chain-Contained st (fat_sector st size n start hn four owner) size n
            start hn four c (fat_part s) table (IsReady-fat st size n start hn four owner v) two
            (v.fat_owned c lt)))
        (λ o t ((e, table', same), k).
          (e, after_fat st size n start hn four owner s v t table' k _ same))
        (λ t q. tt)

  pub set-Changes :
      (c to : ℕ) (s : Disk d.State)
      → Rd s
      → Within s c
      → to < 256 ^ 4
      → Ensures
          (λ _ t. Ch s t (bits s) (λ x. if c == x then to else links s x))
          (λ t. Unit {0})
          (on_fat d size (set_link d size c to) s)
  set-Changes c to s v (two, lt, _) hto =
      let table = IsReady-IsTable st size n start hn four owner v in
      within (λ p. with_fat_part p s)
        (both (set_link-Ensures st size n start hn four c to (fat_part s) table two hto) (
          set_link-Contained st (fat_sector st size n start hn four owner) size n start hn four c
            (fat_part s) table (IsReady-fat st size n start hn four owner v) two (v.fat_owned c lt)
            to))
        (λ _ t ((table', sets), k). after_fat st size n start hn four owner s v t table' k _ sets)
        (λ t q. tt)

  pub Within-eq :
      (s t : Disk d.State) → t.alloc.bitmap ≡ s.alloc.bitmap → (x : ℕ) → Within s x → Within t x
  Within-eq s t e x (two, lt, sec) = (
    two,
    omega (arith, lt, ap (λ b. b.cluster_count) e),
    omega (arith, sec, ap (λ b. b.num_sectors) e),
  )

  pub Changes-refl : (s : Disk d.State) → Rd s → Ch s s (bits s) (links s)
  Changes-refl s v = record {
    ready = v;
    same_bitmap = refl;
    bits_are = λ x h. refl;
    links_are = λ x h. refl;
    same_blocks = λ x o. refl;
  }

  -- One change after another.
  pub Changes-trans :
      {s t u : Disk d.State} {b b' : ℕ → Bool} {l l' : ℕ → ℕ} (b'' : ℕ → Bool) (l'' : ℕ → ℕ)
      → Ch s t b l
      → Ch t u b' l'
      → ((x : ℕ) → Within s x → bits t x ≡ b x → links t x ≡ l x → (b' x ≡ b'' x) × (l' x ≡ l'' x))
      → Ch s u b'' l''
  Changes-trans {s = s} {t = t} b'' l'' p q h = record {
    ready = q.ready;
    same_bitmap = q.same_bitmap ∙ p.same_bitmap;
    bits_are = λ x hx.
        q.bits_are x (Within-eq s t p.same_bitmap x hx)
        ∙ (h x hx (p.bits_are x hx) (p.links_are x hx)).0;
    links_are = λ x hx.
        q.links_are x (Within-eq s t p.same_bitmap x hx)
        ∙ (h x hx (p.bits_are x hx) (p.links_are x hx)).1;
    same_blocks = λ x o. q.same_blocks x o ∙ p.same_blocks x o;
  }
