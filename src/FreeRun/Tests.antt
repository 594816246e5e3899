-- ===== src/FreeRun/Tests.antt =====
-- A search in one sector of eight bytes, the first four of which are all ones, with a run in progress.
use exfat_slim.Base.{
  ℕ, ◌+◌, ◌-◌, ◌<◌, ◌≡◌, refl, ap, true, false, none, some, List, [], ◌∷◌, Bool, ◌||◌, ltb, arith,
}
use exfat_slim.Bitmap.Bits.{is_free_at}
use exfat_slim.FreeRun.{Scan, longest_run, finish, scan_bytes, scan_chunks}
use exfat_slim.FreeRun.Skipping.{scan_chunks-scan_bytes}

abbrev block : List ℕ
block = 0xFF ∷ 0xFF ∷ 0xFF ∷ 0xFF ∷ 0x0C ∷ 0 ∷ 0 ∷ 0xF0 ∷ []

-- The sector's first bit is that of cluster 10; all clusters before it are clear.
abbrev is_clear : ℕ → Bool
unfolding is_free_at
is_clear x = ltb x 10 || is_free_at block (x - 10)

-- Clusters 5 to 9 are the run in progress.
abbrev scan : Scan
scan = record { cluster_id = 10; first_cluster = some 5; count = 5; longest = none }

behind : (k : ℕ) → is_clear (10 + k) ≡ is_free_at block k
unfolding is_clear
behind k =
    let not_before : ltb (10 + k) 10 ≡ false = ground arith in
    rw not_before (ap (is_free_at block) {x = 10 + k - 10} {y = k} (omega arith))

before : (x : ℕ) → x < 10 → is_clear x ≡ true
unfolding is_clear
before x h = let e : ltb x 10 ≡ true = ground arith in rw e refl

scan_chunks-scan_bytes_example :
    finish {E = ℕ} longest_run (scan_chunks longest_run 5 60 8 block scan)
    ≡ finish {E = ℕ} longest_run (scan_bytes longest_run 5 60 8 block scan)
scan_chunks-scan_bytes_example =
    scan_chunks-scan_bytes ℕ longest_run 5 60 8 is_clear 2 block scan (omega arith) refl
      (
        omega arith,
        (
          omega arith,
          (
            omega arith,
            (omega arith, (omega arith, (omega arith, (omega arith, (omega arith, tt))))),
          ),
        ),
      )
      (
        (
          refl,
          (omega arith, omega arith, omega arith, omega arith, λ x h h'. before x (omega arith)),
        ),
        omega arith,
        tt,
        tt,
      )
      (λ k h. behind k)
