-- ===== src/Allocator/State.antt =====
-- The bitmap that an allocator shows through its cache, cluster by cluster.
use exfat_slim.Base.{ℕ, ◌+◌, ◌≡◌, Bool, length}
use exfat_slim.Word.{AreBytes}
use exfat_slim.Device.{BlockDevice, Storage}
use exfat_slim.SlotCache.Victim.{Coherent}
use exfat_slim.SlotCache.Memory.{view}
use exfat_slim.Bitmap.{pos_of}
use exfat_slim.Bitmap.Bits.{is_free_at}
use exfat_slim.Allocator.{Session, cached}

module _ {d : BlockDevice} (st : Storage d) (size : ℕ) where
  -- A coherent cache over sectors of `size` bytes.
  pub record IsSound (s : Session d.State) : Type 0 where
    pub coherent : Coherent st (cached s)
    pub blocks : (y : ℕ) → AreBytes (view st (cached s) y) × (length (view st (cached s) y) ≡ size)

  -- The bit of cluster `x` is clear.
  unfoldable pub is_clear : Session d.State → ℕ → Bool
  unfolding pos_of
  is_clear s x =
      let p = pos_of size x in
      is_free_at (view st (cached s) (s.alloc.bitmap.first_sector + p.sector)) p.bit

  -- No sector looks different, and the allocator has the same bitmap.
  pub record Looks (s t : Session d.State) : Type 0 where
    pub sound : IsSound t
    pub same_view : (y : ℕ) → view st (cached t) y ≡ view st (cached s) y
    pub same_bitmap : t.alloc.bitmap ≡ s.alloc.bitmap
