-- ===== src/BootSector/Bounds.antt =====
-- The bounds that parsing enforces, and the addresses of clusters.
use exfat_slim.Base.{
  ℕ, zero, suc, ◌+◌, ◌-◌, ◌*◌, ◌/◌, ◌%◌, ◌^◌, ◌≤◌, ◌<◌, ◌≡◌, refl, ap, ap₂, subst, ◌∙◌, Bool, true,
  false, ◌&&◌, ◌||◌, not, List, ltb, leb, ◌==◌, if◌then◌else◌, arith,
}
use native.Mathlib.Nat.{
  pow-suc, pow-le-pow_right, add-mul-div_right, add-mul-mod_self_right, div-eq_of_lt, mod-eq_of_lt,
}
use exfat_slim.Word.{byte_at}
use exfat_slim.Error.{Result, ok, err, BootSectorError}
use exfat_slim.BootSector.{
  BootSector, FileSystemDetails, check_is_valid, try_from, details_of, get_heap_sector_id,
  cluster_of_sector, is_file_system_name,
}

-- The signatures of an exFAT boot sector: the jump instruction, the name "EXFAT   " and the end mark.
abbrev pub IsSigned : List ℕ → Type 0
IsSigned value =
    (byte_at value 0 ≡ 0xeb)
    × (byte_at value 1 ≡ 0x76)
    × (byte_at value 2 ≡ 0x90)
    × (byte_at value 3 ≡ 0x45)
    × (byte_at value 4 ≡ 0x58)
    × (byte_at value 5 ≡ 0x46)
    × (byte_at value 6 ≡ 0x41)
    × (byte_at value 7 ≡ 0x54)
    × (byte_at value 8 ≡ 0x20)
    × (byte_at value 9 ≡ 0x20)
    × (byte_at value 10 ≡ 0x20)
    × (byte_at value 510 ≡ 0x55)
    × (byte_at value 511 ≡ 0xaa)

-- The shifts are for sectors of 512 to 4096 bytes, and clusters of at most 32 MB.
abbrev pub IsMeasured : List ℕ → Type 0
IsMeasured value =
    (9 ≤ byte_at value 108)
    × (byte_at value 108 ≤ 12)
    × (byte_at value 108 + byte_at value 109 ≤ 25)

-- What holds of the result of parsing `value`.
abbrev pub Parsed : List ℕ → Result BootSectorError BootSector → Type 0
Parsed value (ok b) =
    IsSigned value
    × (512 ≤ b.bytes_per_sector)
    × (b.bytes_per_sector ≤ 4096)
    × (0 < b.sectors_per_cluster)
    × (b.bytes_per_sector * b.sectors_per_cluster ≤ 2 ^ 25)
    × ((details_of b).cluster_length ≡ b.bytes_per_sector * b.sectors_per_cluster)
Parsed value (err e) = ¬ (IsSigned value × IsMeasured value)
Parsed value Result.stuck = ⊥

two_pow-add : (a b : ℕ) → 2 ^ (a + b) ≡ 2 ^ a * 2 ^ b
two_pow-add zero b = ap (λ (n : ℕ). 2 ^ n) {x = 0 + b} {y = b} (omega arith) ∙ omega arith
two_pow-add (suc a) b =
    ap (λ (n : ℕ). 2 ^ n) {x = suc a + b} {y = suc (a + b)} (omega arith)
    ∙ omega (
      arith,
      pow-suc 2 (a + b),
      two_pow-add a b,
      pow-suc 2 a,
      ap (λ (n : ℕ). n * 2 ^ b) (pow-suc 2 a),
      mul-double (2 ^ a) (2 ^ b),
    )
  where
    mul-double : (m n : ℕ) → 2 ^ 1 * m * n ≡ 2 * (m * n)
    mul-double m n = grind arith

shift_bounds :
    (b s : ℕ)
    → 9 ≤ b
    → b ≤ 12
    → b + s ≤ 25
    → (512 ≤ 2 ^ b) × (2 ^ b ≤ 4096) × (0 < 2 ^ s) × (2 ^ b * 2 ^ s ≤ 2 ^ 25)
shift_bounds b s h h' h'' = (
  pow-le-pow_right {n = 2} (omega arith) {i = 9} {j = b} h,
  pow-le-pow_right {n = 2} (omega arith) {i = b} {j = 12} h',
  pow-le-pow_right {n = 2} (omega arith) {i = 0} {j = s} (omega arith),
  subst (λ n. n ≤ 2 ^ 25) (two_pow-add b s)
      (pow-le-pow_right {n = 2} (omega arith) {i = b + s} {j = 25} h''),
)

by_test :
    {A : Type 0} (P : A → Type 0) (c : Bool) {x y : A}
    → (c ≡ true → P x)
    → (c ≡ false → P y)
    → P (if c then x else y)
by_test P true p q = p refl
by_test P false p q = q refl

-- Parsing a sector that has all the signatures of an exFAT boot sector, and shifts for sectors of 512
-- to 4096 bytes and clusters of at most 32 MB, returns a boot sector, and of any other sector an
-- error. What is returned has such sizes, and clusters of at least one sector, so that the length of
-- a cluster, which is computed in 32 bits, does not wrap round.
pub try_from-Parsed : (value : List ℕ) → Parsed value (try_from value)
unfolding try_from check_is_valid details_of
try_from-Parsed value =
    by_test (Parsed value)
      (not (byte_at value 0 == 0xeb)
        || (not (byte_at value 1 == 0x76) || not (byte_at value 2 == 0x90)))
      (λ e h. ground (arith, e, h))
      (λ jump.
        by_test (Parsed value) (not (is_file_system_name value)) (λ e h. ground (arith, e, h))
          (λ name.
            by_test (Parsed value)
              (not (byte_at value 510 == 0x55) || not (byte_at value 511 == 0xaa))
              (λ e h. ground (arith, e, h))
              (λ sign.
                by_test (Parsed value)
                  (not (leb 9 (byte_at value 108) && leb (byte_at value 108) 12))
                  (λ e h. ground (arith, e, h))
                  (λ lo.
                    by_test (Parsed value) (ltb 25 (byte_at value 108 + byte_at value 109))
                      (λ e h. ground (arith, e, h))
                      (λ hi.
                        let (b, b', c, bc) =
                          shift_bounds (byte_at value 108) (byte_at value 109) (ground (arith, lo))
                            (ground (arith, lo)) (ground (arith, hi)) in
                        (ground (arith, jump, name, sign), b, b', c, bc, omega (arith, bc)))))))

-- The sectors of a cluster lead back to it: sector `k` of cluster `c` is found again as sector `k`
-- of cluster `c`, where the sector number fits in 32 bits.
pub cluster_of_sector-get_heap_sector_id :
    {E : Type 0} (fs : FileSystemDetails) (c k : ℕ)
    → 2 ≤ c
    → k < fs.sectors_per_cluster
    → fs.cluster_heap_offset + (c - 2) * fs.sectors_per_cluster < 2 ^ 32
    → (get_heap_sector_id {E = E} fs c
        ≡ ok (fs.cluster_heap_offset + (c - 2) * fs.sectors_per_cluster))
      × (cluster_of_sector fs (fs.cluster_heap_offset + (c - 2) * fs.sectors_per_cluster + k)
          ≡ (c, k))
unfolding get_heap_sector_id cluster_of_sector
cluster_of_sector-get_heap_sector_id fs c k hc hk fits =
    (rw low (ap ok (omega (arith, fits))), ap₂ (λ (q r : ℕ). (q, r)) quotient rest)
  where
    low : ltb c 2 ≡ false
    low = ground arith

    offset :
        fs.cluster_heap_offset + (c - 2) * fs.sectors_per_cluster + k - fs.cluster_heap_offset
        ≡ k + (c - 2) * fs.sectors_per_cluster
    offset = omega arith

    quotient :
        2
          + (fs.cluster_heap_offset + (c - 2) * fs.sectors_per_cluster + k - fs.cluster_heap_offset)
            / fs.sectors_per_cluster
        ≡ c
    quotient =
        ap (λ (n : ℕ). 2 + n / fs.sectors_per_cluster) offset
        ∙ omega (
          arith,
          hc,
          add-mul-div_right k (c - 2) {z = fs.sectors_per_cluster} (omega arith),
          div-eq_of_lt hk,
        )

    rest :
        (fs.cluster_heap_offset + (c - 2) * fs.sectors_per_cluster + k - fs.cluster_heap_offset)
          % fs.sectors_per_cluster
        ≡ k
    rest =
        ap (λ (n : ℕ). n % fs.sectors_per_cluster) offset
        ∙ add-mul-mod_self_right k (c - 2) fs.sectors_per_cluster
        ∙ mod-eq_of_lt hk
