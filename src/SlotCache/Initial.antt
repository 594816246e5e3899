-- ===== src/SlotCache/Initial.antt =====
-- The cache that `new` returns is coherent and shows the device.
use exfat_slim.Base.{ℕ, zero, suc, ◌<◌, ◌≡◌, refl, replicate, length-replicate, arith}
use exfat_slim.Device.{Block, BlockDevice, Storage}
use exfat_slim.SlotCache.{new_slot, new}
use exfat_slim.SlotCache.View.{Uncached, AllClean, AtMostOne-Uncached, shown_of_Uncached}
use exfat_slim.SlotCache.Victim.{Coherent}
use exfat_slim.SlotCache.Memory.{view}

fresh_Uncached : (x size n : ℕ) → Uncached x (replicate n (new_slot size))
fresh_Uncached x size zero = tt
fresh_Uncached x size (suc n) = (ground arith, fresh_Uncached x size n)

fresh_AllClean : (cts : ℕ → Block) (size n : ℕ) → AllClean cts (replicate n (new_slot size))
fresh_AllClean cts size zero = tt
fresh_AllClean cts size (suc n) = (
  record { dirty_valid = λ e. cc; clean = λ e e'. cc; fresh = λ e. refl },
  fresh_AllClean cts size n,
)

-- A new cache of at least one slot is coherent with any device, and every sector shows what the
-- device has.
pub new-Coherent :
    {d : BlockDevice} (st : Storage d) (size n : ℕ) (io : d.State)
    → 0 < n
    → Coherent st (record { slots = new size n; dev = io })
      × ((x : ℕ) → view st (record { slots = new size n; dev = io }) x ≡ st.contents io x)
unfolding new
new-Coherent st size n io h = (
  record {
    hand_in = omega (arith, length-replicate n (new_slot size));
    unique = λ x. AtMostOne-Uncached (replicate n (new_slot size)) x (fresh_Uncached x size n);
    clean = fresh_AllClean (st.contents io) size n;
  },
  λ x. shown_of_Uncached (st.contents io) (replicate n (new_slot size)) x (fresh_Uncached x size n),
)
