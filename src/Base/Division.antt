-- ===== src/Base/Division.antt =====
-- Quotients and remainders by a variable, which linear arithmetic does not read.
use Prim.Native.Nat.{ℕ, ◌+◌, ◌-◌, ◌*◌, ◌/◌, ◌%◌, ◌≤◌, ◌<◌}
use mathlib.Core.Path.{◌≡◌, ap, ◌∙◌}
use mathlib.Core.Logic.{◌⊎◌, inl, inr}
use mathlib.Core.Bool.{◌&&◌}
use native.Mathlib.Nat.{
  div-add-mod', mod-lt, mul-le-mul_right, add-mul, div-eq_of_lt, mod-eq_of_lt, mul-add-div_right,
  mul-add-mod_self_right,
}
use native.Mathlib.Omega.{arith}
use exfat_slim.Base.Tests.{◌==◌, leb, ltb}

three_ways : (a b : ℕ) → (a < b) ⊎ ((a ≡ b) ⊎ (b < a))
three_ways a b = ground arith

next_block : (w q q' : ℕ) → q < q' → q * w + w ≤ q' * w
next_block w q q' h =
    omega (arith, mul-le-mul_right {m = q + 1} {n = q'} w (omega arith), add-mul q 1 w)

-- The numbers from `a` on up to the end of its block of `w`, by quotient and remainder.
pub window :
    (w a t y : ℕ)
    → 0 < w
    → t ≤ w - a % w
    → (y / w == a / w && (leb (a % w) (y % w) && ltb (y % w) (a % w + t)))
      ≡ (leb a y && ltb y (a + t))
window w a t y hw ht = go (three_ways (y / w) (a / w))
  where
    go :
        (y / w < a / w) ⊎ ((y / w ≡ a / w) ⊎ (a / w < y / w))
        → (y / w == a / w && (leb (a % w) (y % w) && ltb (y % w) (a % w + t)))
          ≡ (leb a y && ltb y (a + t))
    go (inl lt) = ground (
      arith,
      div-add-mod' y w,
      div-add-mod' a w,
      mod-lt y hw,
      mod-lt a hw,
      next_block w (y / w) (a / w) lt,
    )
    go (inr (inl eq)) = ground (
      arith,
      div-add-mod' y w,
      div-add-mod' a w,
      mod-lt y hw,
      mod-lt a hw,
      ap (λ (q : ℕ). q * w) eq,
    )
    go (inr (inr gt)) = ground (
      arith,
      div-add-mod' y w,
      div-add-mod' a w,
      mod-lt y hw,
      mod-lt a hw,
      next_block w (a / w) (y / w) gt,
    )

-- Division keeps the order.
pub div_mono : (w a b : ℕ) → 0 < w → a ≤ b → a / w ≤ b / w
div_mono w a b hw h = go (three_ways (b / w) (a / w))
  where
    go : (b / w < a / w) ⊎ ((b / w ≡ a / w) ⊎ (a / w < b / w)) → a / w ≤ b / w
    go (inl lt) = absurd (
        omega (
          arith,
          div-add-mod' a w,
          div-add-mod' b w,
          mod-lt b {m = w} hw,
          next_block w (b / w) (a / w) lt,
          h,
        ))
    go (inr (inl eq)) = omega (arith, eq)
    go (inr (inr gt)) = omega (arith, gt)

-- A number given by its quotient and its remainder.
pub div_mod_unique : (w a q r : ℕ) → r < w → a ≡ q * w + r → (a / w ≡ q) × (a % w ≡ r)
div_mod_unique w a q r h e = (
  ap (λ (n : ℕ). n / w) e
      ∙ mul-add-div_right {m = w} (omega arith) q r
      ∙ omega (arith, div-eq_of_lt {n = r} {m = w} h),
  ap (λ (n : ℕ). n % w) e ∙ mul-add-mod_self_right q w r ∙ mod-eq_of_lt h,
)
