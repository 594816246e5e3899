-- ===== src/Fat/Contained.antt =====
-- Reading and setting links changes the device in the sectors of the table only.
use exfat_slim.Base.{
  ℕ, ◌+◌, ◌*◌, ◌/◌, ◌%◌, ◌≤◌, ◌<◌, ◌≡◌, ap, ◌∙◌, Bool, true, false, Option, none, some, ltb, arith,
}
use exfat_slim.Word.{IsBlock, to_le_bytes}
use exfat_slim.Word.Laws.{AreBytes-to_le_bytes, AreBytes-copy_at, length-copy_at}
use exfat_slim.Device.{Block, BlockDevice, Storage}
use exfat_slim.Action.{pure, and_then, ◌>>=◌, ◌>>◌, modify, Ensures, returned, bind, within}
use exfat_slim.Touched.{TouchedKind, insert, touched_sector}
use exfat_slim.SlotCache.{fetch, update}
use exfat_slim.SlotCache.Operations.{fetch-Ensures, update-Ensures}
use exfat_slim.SlotCache.Regions.{IsStocked, Spares, fetch-Confines}
use exfat_slim.SlotCache.Regions.Operations.{update-Confines, confined}
use exfat_slim.Fat.{
  FatSession, fat_cached, with_fat_cached, on_fat_cache, entry_at, put_entry, link, set_link,
  next_cluster_in_fat_chain, get_sector_id, num_entries,
}
use exfat_slim.Fat.Lookup.{IsTable}

module _ {d : BlockDevice} (st : Storage d) (region : ℕ → Bool) (size n start : ℕ) (hn : 0 < n)
    (four : size ≡ 4 * n) where
  -- From `s` to `t` the device has changed in the region only, and the cache holds none but its
  -- sectors.
  pub record FatContained (s t : FatSession d.State) : Type 0 where
    pub stocked : IsStocked st region (IsBlock size) (fat_cached t)
    pub spares : Spares st region (IsBlock size) (fat_cached s) (fat_cached t)

  abbrev Away : FatSession d.State → FatSession d.State → Type 0
  Away s t = Spares st region (IsBlock size) (fat_cached s) (fat_cached t)

  contained :
      (s t : FatSession d.State)
      → IsStocked st region (IsBlock size) (fat_cached t)
      → Away s t
      → FatContained s t
  contained s t a b = record { stocked = a; spares = b }

  put_entry-IsBlock : (i v : ℕ) (b : Block) → IsBlock size b → IsBlock size (put_entry i v b)
  unfolding put_entry
  put_entry-IsBlock i v b (bytes, len) = (
    AreBytes-copy_at b (4 * i) (to_le_bytes 4 v) bytes (AreBytes-to_le_bytes 4 v),
    length-copy_at b (4 * i) (to_le_bytes 4 v) ∙ len,
  )

  module _ (c : ℕ) (s : FatSession d.State) (v : IsTable st size n start hn four s)
      (w : IsStocked st region (IsBlock size) (fat_cached s)) (hc : 2 ≤ c)
      (ours : region (start + c / num_entries size) ≡ true) where
    -- The sector of the cluster's entry.
    sector-eq : (f : ℕ) → some f ≡ some start → region (f + c / num_entries size) ≡ true
    sector-eq f e =
        let q : f ≡ start = ground arith in ap (λ f. region (f + c / num_entries size)) q ∙ ours

    looked_up :
        (o : Option ℕ)
        → o ≡ some start
        → Ensures
            (λ _ t. FatContained s t)
            (Away s)
            (and_then
              (get_sector_id d size o c, s)
              (λ sector_id. on_fat_cache d size (fetch d sector_id) >>= λ block.
                pure (link (entry_at (c % num_entries size) block))))
    looked_up none e = cc
    looked_up (some f) e =
        bind {P = λ _ t. FatContained s t} {Q = Away s}
          (within (λ k. with_fat_cached k s)
            (confined st region (IsBlock size) (fat_cached s)
              (fetch-Ensures st (f + c / num_entries size) (fat_cached s) v.coherent)
              (fetch-Confines st region (IsBlock size) (f + c / num_entries size) (fat_cached s) w
                (sector-eq f e)))
            (λ _ k (a, b). contained s (with_fat_cached k s) a b) (λ k q. q))
          (λ b t p. returned p) (λ t q. q)

    pub next_cluster_in_fat_chain-Contained :
        Ensures (λ _ t. FatContained s t) (Away s) (next_cluster_in_fat_chain d size c s)
    unfolding next_cluster_in_fat_chain
    next_cluster_in_fat_chain-Contained =
        let low : ltb c 2 ≡ false = ground arith in
        rw low (looked_up s.fat.start_of_fat_sector v.started)

    module _ (to : ℕ) where
      touching : ℕ → FatSession d.State → FatSession d.State
      touching y u = record u { touched = insert (touched_sector TouchedKind.fat y) u.touched }

      set_from :
          (o : Option ℕ)
          → o ≡ some start
          → Ensures
              (λ _ t. FatContained s t)
              (Away s)
              (and_then
                (get_sector_id d size o c, s)
                (λ y.
                  modify (touching y)
                  >> on_fat_cache d size (update d y (put_entry (c % num_entries size) to))))
      unfolding touching
      set_from none e = cc
      set_from (some f) e =
          let y = f + c / num_entries size in
          within (λ k. with_fat_cached k (touching y s))
            (confined st region (IsBlock size) (fat_cached s)
              (update-Ensures st y (put_entry (c % num_entries size) to) (fat_cached s) v.coherent)
              (update-Confines st region (IsBlock size) y (put_entry (c % num_entries size) to)
                (fat_cached s) v.coherent w (sector-eq f e)
                (put_entry-IsBlock (c % num_entries size) to)))
            (λ _ k (a, b). contained s (with_fat_cached k (touching y s)) a b) (λ k q. q)

      pub set_link-Contained : Ensures (λ _ t. FatContained s t) (Away s) (set_link d size c to s)
      unfolding set_link touching
      set_link-Contained =
          let low : ltb c 2 ≡ false = ground arith in
          rw low (set_from s.fat.start_of_fat_sector v.started)
