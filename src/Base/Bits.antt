-- ===== src/Base/Bits.antt =====
-- `|` of fields that share no bit and `&` with a mask of low bits, as sums and remainders, for every
-- width. Both come from the meaning of the native operations: a walk over the binary digits.
use Prim.Native.Nat.{
  ℕ, zero, suc, ◌+◌, ◌-◌, ◌*◌, ◌/◌, ◌%◌, ◌^◌, ◌≤◌, ◌<◌, min, max, bit_and, bit_or, digits,
  bit_and-bitwise, bit_or-bitwise,
}
use mathlib.Core.Path.{◌≡◌, refl, ap}
use native.Mathlib.Nat.{pow-suc, one-le-pow}
use native.Mathlib.Omega.{arith}

-- The walk over the digits of `a` ends with `a`, so more rounds than `a` change nothing.
module _ (rest : ℕ → ℕ) (join : ℕ → ℕ → ℕ) where
  rounds_agree : (k l a b : ℕ) → a ≤ k → a ≤ l → digits rest join k a b ≡ digits rest join l a b
  rounds_agree zero zero a b hk hl = refl
  rounds_agree (suc k) zero zero b hk hl = refl
  rounds_agree zero (suc l) zero b hk hl = refl
  rounds_agree (suc k) (suc l) zero b hk hl = refl
  rounds_agree (suc k) zero (suc a) b hk hl = absurd (omega arith)
  rounds_agree zero (suc l) (suc a) b hk hl = absurd (omega arith)
  rounds_agree (suc k) (suc l) (suc a) b hk hl =
      omega (arith, rounds_agree k l (suc a / 2) (b / 2) (omega arith) (omega arith))

-- One binary digit of `|` and of `&`.
or_digit : (a b : ℕ) → bit_or a b ≡ max (a % 2) (b % 2) + 2 * bit_or (a / 2) (b / 2)
or_digit zero b = omega (arith, bit_or-bitwise 0 b, bit_or-bitwise 0 (b / 2))
or_digit (suc a) b = omega (
  arith,
  bit_or-bitwise (suc a) b,
  bit_or-bitwise (suc a / 2) (b / 2),
  rounds_agree (λ y. y) max a (suc a / 2) (suc a / 2) (b / 2) (omega arith) (omega arith),
)

and_digit : (a b : ℕ) → bit_and a b ≡ min (a % 2) (b % 2) + 2 * bit_and (a / 2) (b / 2)
and_digit zero b = omega (arith, bit_and-bitwise 0 b, bit_and-bitwise 0 (b / 2))
and_digit (suc a) b = omega (
  arith,
  bit_and-bitwise (suc a) b,
  bit_and-bitwise (suc a / 2) (b / 2),
  rounds_agree (λ y. 0) min a (suc a / 2) (suc a / 2) (b / 2) (omega arith) (omega arith),
)

-- `a | 0` and `a & 0`, by recursion on a bound of `a`.
or_nothing : (k a : ℕ) → a ≤ k → bit_or a 0 ≡ a
or_nothing k zero h = refl
or_nothing zero (suc a) h = absurd (omega arith)
or_nothing (suc k) (suc a) h =
    omega (arith, or_digit (suc a) 0, or_nothing k (suc a / 2) (omega arith))

and_nothing : (k a : ℕ) → a ≤ k → bit_and a 0 ≡ 0
and_nothing k zero h = refl
and_nothing zero (suc a) h = absurd (omega arith)
and_nothing (suc k) (suc a) h =
    omega (arith, and_digit (suc a) 0, and_nothing k (suc a / 2) (omega arith))

double : (q k : ℕ) → q * 2 ^ suc k ≡ 2 * (q * 2 ^ k)
double q k = omega (arith, ap (λ (t : ℕ). q * t) (pow-suc 2 k))

-- A field above bit `k` and a field below it.
pub bit_or_shifted : (k q r : ℕ) → r < 2 ^ k → bit_or (q * 2 ^ k) r ≡ q * 2 ^ k + r
bit_or_shifted zero q r h = ground (arith, or_nothing q q)
bit_or_shifted (suc k) q r h = ground (
  arith,
  double q k,
  or_digit (q * 2 ^ suc k) r,
  bit_or_shifted k q (r / 2) (omega (arith, pow-suc 2 k)),
)

keeps_low : (k q r : ℕ) → r < 2 ^ k → bit_and (q * 2 ^ k + r) (2 ^ k - 1) ≡ r
keeps_low zero q r h = ground (arith, and_nothing q q)
keeps_low (suc k) q r h = ground (
  arith,
  double q k,
  pow-suc 2 k,
  and_digit (q * 2 ^ suc k + r) (2 ^ suc k - 1),
  keeps_low k q (r / 2),
)

-- The `k` lowest bits.
pub bit_and_low : (k a : ℕ) → bit_and a (2 ^ k - 1) ≡ a % 2 ^ k
bit_and_low k a = ground (arith, one-le-pow k 2, keeps_low k (a / 2 ^ k) (a % 2 ^ k))
