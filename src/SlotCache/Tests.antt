-- ===== src/SlotCache/Tests.antt =====
-- A cache of two slots over a device in memory, and the theorems on it.
use exfat_slim.Base.{ℕ, ◌≡◌, refl, sym, ap, [], ◌∷◌, ◌==◌, if◌then◌else◌, arith}
use exfat_slim.Device.{Block, done, BlockDevice, Storage}
use exfat_slim.Action.{Ensures, on_return, ◌>>◌, ◌>>=◌}
use exfat_slim.SlotCache.{
  Cached, new, fetch, update, write, flush, flush_sector, read_inner, cache_hit, cache_hit_loop,
  load, choose_victim, modify_slot, write_back,
}
use exfat_slim.SlotCache.Victim.{Coherent, SameView, NotDirty, choose_victim-Ensures, count_used}
use exfat_slim.SlotCache.Memory.{Stored, view}
use exfat_slim.SlotCache.Operations.{fetch-Ensures, update-Ensures, write-Ensures}
use exfat_slim.SlotCache.Flushing.{flush-Ensures, flush_sector-Ensures}
use exfat_slim.SlotCache.Initial.{new-Coherent}

-- A device that never fails.
abbrev pub memory : BlockDevice
memory = record {
  State = ℕ → Block;
  Error = ℕ;
  read = λ a b s. (done, s a, s);
  write = λ a b s. (done, λ x. if a == x then b else s x);
}

abbrev pub memory-Storage : Storage memory
memory-Storage = record {
  contents = λ s. s;
  read_ok = λ a b b' s s' e. (sym (ap (λ r. r.1) e), (λ x. sym (ap (λ r. r.2 x) e)));
  read_err = λ a b b' s s' x e. cc (ap (λ r. r.0) e);
  write_ok = λ a b s s' e x. sym (ap (λ r. r.1 x) e);
  write_err = λ a b s s' x e. cc (ap (λ r. r.0) e);
}

abbrev blocks : ℕ → Block
blocks x = x ∷ x ∷ []

abbrev start : Cached (ℕ → Block)
unfolding new
start = record { slots = new 2 2; dev = blocks }

abbrev zeroed : Block → Block
zeroed b = 0 ∷ 0 ∷ []

-- Three sectors pass through two slots: the changed first one is written back when it is evicted.
evicted_is_written :
    ((update memory 7 zeroed >> (fetch memory 8 >>= λ _. fetch memory 9 >>= λ _. fetch memory 10))
        start).1.dev
      7
    ≡ 0 ∷ 0 ∷ []
unfolding update fetch read_inner cache_hit cache_hit_loop load choose_victim modify_slot write_back
    start
evicted_is_written = refl

start-Coherent : Coherent memory-Storage start
unfolding start new
start-Coherent = (new-Coherent memory-Storage 2 2 blocks (omega arith)).0

-- The state with a dirty slot.
abbrev changed : Cached (ℕ → Block)
unfolding update read_inner cache_hit cache_hit_loop load choose_victim modify_slot start
changed = (update memory 7 zeroed start).1

changed-Coherent : Coherent memory-Storage changed
unfolding update read_inner cache_hit cache_hit_loop load choose_victim modify_slot start changed
changed-Coherent =
    (on_return (update-Ensures memory-Storage 7 zeroed start start-Coherent) refl).coherent

new-Coherent_example :
    Coherent memory-Storage (record { slots = new 2 2; dev = blocks })
    × ((x : ℕ) → view memory-Storage (record { slots = new 2 2; dev = blocks }) x ≡ blocks x)
new-Coherent_example = new-Coherent memory-Storage 2 2 blocks (omega arith)

choose_victim-Ensures_example :
    Ensures
      (λ i t. SameView memory-Storage changed t × NotDirty memory-Storage i t)
      (SameView memory-Storage changed)
      (choose_victim memory 3 changed)
unfolding update read_inner cache_hit cache_hit_loop load choose_victim modify_slot start changed
    count_used
choose_victim-Ensures_example =
    choose_victim-Ensures memory-Storage 3 changed changed-Coherent (omega arith)

fetch-Ensures_example :
    Ensures
      (λ b t.
        (b ≡ view memory-Storage changed 8)
        × Coherent memory-Storage t
        × ((y : ℕ) → view memory-Storage t y ≡ view memory-Storage changed y))
      (λ t. Unit {0})
      (fetch memory 8 changed)
fetch-Ensures_example = fetch-Ensures memory-Storage 8 changed changed-Coherent

update-Ensures_example :
    Ensures
      (λ _ t. Stored memory-Storage start t 7 (zeroed (view memory-Storage start 7)))
      (λ t. Unit {0})
      (update memory 7 zeroed start)
update-Ensures_example = update-Ensures memory-Storage 7 zeroed start start-Coherent

write-Ensures_example :
    Ensures
      (λ _ t. Stored memory-Storage changed t 7 (5 ∷ 5 ∷ []) × (t.dev 7 ≡ 5 ∷ 5 ∷ []))
      (λ t. Unit {0})
      (write memory 7 (5 ∷ 5 ∷ []) changed)
write-Ensures_example = write-Ensures memory-Storage 7 (5 ∷ 5 ∷ []) changed changed-Coherent

flush-Ensures_example :
    Ensures
      (λ _ t.
        SameView memory-Storage changed t × ((x : ℕ) → t.dev x ≡ view memory-Storage changed x))
      (SameView memory-Storage changed)
      (flush memory changed)
flush-Ensures_example = flush-Ensures memory-Storage changed changed-Coherent

flush_sector-Ensures_example :
    Ensures
      (λ _ t. SameView memory-Storage changed t × (t.dev 7 ≡ view memory-Storage changed 7))
      (SameView memory-Storage changed)
      (flush_sector memory 7 changed)
flush_sector-Ensures_example =
    flush_sector-Ensures memory-Storage 7 changed changed-Coherent (omega arith)
