-- ===== src/Allocator/Search.antt =====
-- The search for free clusters through the cache, sector by sector.
use exfat_slim.Base.{
  ℕ, zero, suc, ◌+◌, ◌-◌, ◌*◌, ◌/◌, ◌%◌, ◌<◌, ◌≡◌, refl, sym, ap, subst, ◌∙◌, Bool, List, length,
  arith,
}
use exfat_slim.Word.{AreBytes}
use native.Mathlib.Nat.{
  add-mul, add-mul-div_right, add-mul-mod_self_right, div-eq_of_lt, mod-eq_of_lt,
}
use exfat_slim.Error.{Result, ExFatError}
use exfat_slim.Device.{BlockDevice, Storage}
use exfat_slim.Action.{Ensures, returned, bind, within}
use exfat_slim.SlotCache.{fetch}
use exfat_slim.SlotCache.Memory.{view}
use exfat_slim.SlotCache.Operations.{fetch-Ensures}
use exfat_slim.Bitmap.{pos_of}
use exfat_slim.Bitmap.Bits.{is_free_at}
use exfat_slim.FreeRun.{SearchPolicy, Scan, Step, going, found, stopped, scan_chunks}
use exfat_slim.FreeRun.Sound.{IsScan, StepsTo}
use exfat_slim.FreeRun.Loops.{scan_chunks-StepsTo}
use exfat_slim.Allocator.{Session, cached, with_cached, on_cache, and_sector, scan_sectors}
use exfat_slim.Allocator.State.{IsSound, is_clear, Looks}

module _ {d : BlockDevice} (st : Storage d) (size : ℕ) where
  pub Looks-refl : (s : Session d.State) → IsSound st size s → Looks st size s s
  Looks-refl s v = record { sound = v; same_view = λ y. refl; same_bitmap = refl }

  pub Looks-trans :
      {s t u : Session d.State} → Looks st size s t → Looks st size t u → Looks st size s u
  Looks-trans p q = record {
    sound = q.sound;
    same_view = λ y. q.same_view y ∙ p.same_view y;
    same_bitmap = q.same_bitmap ∙ p.same_bitmap;
  }

  -- Reading a sector.
  read-Looks :
      (y : ℕ) (s : Session d.State)
      → IsSound st size s
      → Ensures
          (λ b t. (b ≡ view st (cached s) y) × Looks st size s t)
          (λ t. Unit {0})
          (on_cache d size (fetch d y) s)
  read-Looks y s v =
      within (λ c. with_cached c s) (fetch-Ensures st y (cached s) v.coherent)
        (λ b c (e, coherent, same). (
          e,
          record {
            sound = record {
              coherent = coherent;
              blocks = λ z. subst (λ b. AreBytes b × (length b ≡ size)) (sym (same z)) (v.blocks z);
            };
            same_view = same;
            same_bitmap = refl;
          },
        ))
        (λ c q. tt)

  -- The bits of one sector of the bitmap are those of its clusters.
  sector_bits :
      (s : Session d.State) (sector k : ℕ)
      → 0 < size
      → k < size * 8
      → is_clear st size s (2 + sector * (size * 8) + k)
        ≡ is_free_at (view st (cached s) (s.alloc.bitmap.first_sector + sector)) k
  unfolding is_clear pos_of
  sector_bits s sector k hs hk =
      let index : 2 + sector * (size * 8) + k - 2 ≡ k + sector * (size * 8) = omega arith in
      let q : (2 + sector * (size * 8) + k - 2) / (size * 8) ≡ sector =
        ap (λ n. n / (size * 8)) index
        ∙ add-mul-div_right k sector {z = size * 8} (omega arith)
        ∙ omega (arith, div-eq_of_lt hk) in
      let r : (2 + sector * (size * 8) + k - 2) % (size * 8) ≡ k =
        ap (λ n. n % (size * 8)) index
        ∙ add-mul-mod_self_right k sector (size * 8)
        ∙ mod-eq_of_lt hk in
      rw (q, r) refl

  module _ (s₀ : Session d.State) (policy : SearchPolicy) (from end num n : ℕ) (hn : 0 < num)
      (hs : 0 < size) (four : size ≡ 4 * n) where
    abbrev pub clear : ℕ → Bool
    clear = is_clear st size s₀

    unfoldable pub sector_start : ℕ → ℕ
    sector_start sector = 2 + sector * (size * 8)

    -- One sector of the bitmap.
    scan_sector-StepsTo :
        (sector : ℕ) (scan : Scan) (b : List ℕ)
        → IsSound st size s₀
        → b ≡ view st (cached s₀) (s₀.alloc.bitmap.first_sector + sector)
        → scan.cluster_id ≡ sector_start sector
        → IsScan from end num clear scan
        → StepsTo from end num clear
            (sector_start (suc sector))
            (scan_chunks policy from end num b scan)
    unfolding sector_start
    scan_sector-StepsTo sector scan b v e at w =
        let len : length b ≡ size = ap length e ∙ (v.blocks _).1 in
        subst (λ id. StepsTo from end num clear id (scan_chunks policy from end num b scan))
          (omega (arith, at, len, add-mul sector 1 (size * 8)))
          (scan_chunks-StepsTo policy from end num clear hn n b scan (omega (arith, len, four)) w
            (subst AreBytes (sym e) ((v.blocks _).0))
            (λ k h.
              ap (λ id. clear (id + k)) at
              ∙ sector_bits s₀ sector k hs (omega (arith, h, len))
              ∙ ap (λ b. is_free_at b k) (sym e)))

    abbrev pub Answers : ℕ → Step → Session d.State → Type 0
    Answers sector step t =
        StepsTo from end num clear (sector_start sector) step × Looks st size s₀ t

    pub scan_sectors-Answers :
        (count sector : ℕ) (scan : Scan) (s : Session d.State)
        → Looks st size s₀ s
        → IsSound st size s₀
        → scan.cluster_id ≡ sector_start sector
        → IsScan from end num clear scan
        → Ensures
            (Answers (sector + count))
            (λ t. Unit {0})
            (scan_sectors d size policy from end num s₀.alloc.bitmap.first_sector count sector scan
              s)
    unfolding scan_sectors
    scan_sectors-Answers zero sector scan s look v at w =
        returned ((omega (arith, at, ap sector_start (e sector)), w), look)
      where
        e : (sector : ℕ) → sector + 0 ≡ sector
        e sector = omega arith
    scan_sectors-Answers (suc count) sector scan s look v at w =
        bind (read-Looks (s₀.alloc.bitmap.first_sector + sector) s look.sound)
          (λ b t (e, look').
            after t _ (scan_chunks policy from end num b scan)
              (λ scan' at' w'.
                scan_sectors-Answers count (suc sector) scan' t (Looks-trans look look') v at' w')
              (Looks-trans look look')
              (scan_sector-StepsTo sector scan b v (e ∙ look.same_view _) at w))
          (λ t q. tt)
      where
        shift : suc sector + count ≡ sector + suc count
        shift = omega arith

        after :
            (t : Session d.State)
            (f : Scan → Session d.State → Result (ExFatError d.Error) Step × Session d.State)
            (step : Step)
            → ((scan : Scan)
                → scan.cluster_id ≡ sector_start (suc sector)
                → IsScan from end num clear scan
                → Ensures (Answers (suc sector + count)) (λ t. Unit {0}) (f scan t))
            → Looks st size s₀ t
            → StepsTo from end num clear (sector_start (suc sector)) step
            → Ensures (Answers (sector + suc count)) (λ t. Unit {0}) (and_sector d size step f t)
        after t f (going scan) next look (at, w) =
            subst (λ m. Ensures (Answers m) (λ t. Unit {0}) (f scan t)) shift (next scan at w)
        after t f (found run) next look h = returned (h, look)
        after t f (stopped scan) next look h = returned (h, look)
