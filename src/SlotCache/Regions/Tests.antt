-- ===== src/SlotCache/Regions/Tests.antt =====
-- A cache that serves sector 7 of a device in memory.
use exfat_slim.Base.{ℕ, ◌≡◌, refl, Bool, true, [], ◌∷◌, length, ◌==◌, arith}
use exfat_slim.Device.{Block}
use exfat_slim.SlotCache.{Cached, new, update, write, flush}
use exfat_slim.SlotCache.Initial.{new-Coherent}
use exfat_slim.SlotCache.Tests.{memory, memory-Storage}
use exfat_slim.SlotCache.Regions.{IsStocked, Confines}
use exfat_slim.SlotCache.Regions.Operations.{update-Confines, write-Confines, flush-Confines}

abbrev pairs : ℕ → Block
pairs x = x ∷ x ∷ []

abbrev fresh : Cached (ℕ → Block)
fresh = record { slots = new 2 2; dev = pairs }

abbrev seventh : ℕ → Bool
seventh x = x == 7

abbrev IsPair : Block → Type 0
IsPair b = length b ≡ 2

fresh-IsStocked : IsStocked memory-Storage seventh IsPair fresh
unfolding new
fresh-IsStocked = record { inside = (λ e. cc, (λ e. cc, tt)); stocked = λ x o. refl }

update-Confines_example :
    Confines memory-Storage seventh IsPair fresh (update memory 7 (λ b. 1 ∷ 2 ∷ []) fresh)
update-Confines_example =
    update-Confines memory-Storage seventh IsPair 7 (λ b. 1 ∷ 2 ∷ []) fresh
      (new-Coherent memory-Storage 2 2 pairs (omega arith)).0 fresh-IsStocked refl (λ b h. refl)

write-Confines_example :
    Confines memory-Storage seventh IsPair fresh (write memory 7 (1 ∷ 2 ∷ []) fresh)
write-Confines_example =
    write-Confines memory-Storage seventh IsPair 7 (1 ∷ 2 ∷ []) fresh fresh-IsStocked refl refl

-- One slot has a change that is not on the device.
abbrev dirty : Cached (ℕ → Block)
dirty = record {
  slots = record {
    cache =
        record {
          block = 1 ∷ 2 ∷ [];
          sector_id = 7;
          is_dirty = true;
          is_valid = true;
          is_used = true;
        }
        ∷ [];
    hand = 0;
  };
  dev = pairs;
}

dirty-IsStocked : IsStocked memory-Storage seventh IsPair dirty
dirty-IsStocked = record { inside = (λ e. (refl, refl), tt); stocked = λ x o. refl }

flush-Confines_example : Confines memory-Storage seventh IsPair dirty (flush memory dirty)
flush-Confines_example = flush-Confines memory-Storage seventh IsPair dirty dirty-IsStocked
