-- ===== src/Word/Laws.antt =====
-- Reading back what `copy_at` and `to_le_bytes` wrote, and leaving the rest alone.
use exfat_slim.Base.{
  ℕ, zero, suc, ◌+◌, ◌/◌, ◌^◌, ◌≤◌, ◌<◌, ◌≡◌, refl, ap, List, [], ◌∷◌, take, drop, length, arith,
}
use exfat_slim.Word.{AreBytes, to_le_bytes, from_le_bytes, copy_at}
use native.Mathlib.Nat.{pow-suc, pow-zero}

pub length-to_le_bytes : (k v : ℕ) → length (to_le_bytes k v) ≡ k
unfolding to_le_bytes
length-to_le_bytes zero v = refl
length-to_le_bytes (suc k) v = ap suc (length-to_le_bytes k (v / 256))

-- A word of `k` bytes comes back from its bytes.
pub from-to_le_bytes : (k v : ℕ) → v < 256 ^ k → from_le_bytes (to_le_bytes k v) ≡ v
unfolding to_le_bytes from_le_bytes
from-to_le_bytes zero v h = omega (arith, pow-zero 256)
from-to_le_bytes (suc k) v h =
    omega (arith, from-to_le_bytes k (v / 256) (omega (arith, pow-suc 256 k)))

pub length-copy_at : (xs : List ℕ) (i : ℕ) (ys : List ℕ) → length (copy_at xs i ys) ≡ length xs
unfolding copy_at
length-copy_at [] i ys = refl
length-copy_at (x ∷ xs) (suc i) ys = ap suc (length-copy_at xs i ys)
length-copy_at (x ∷ xs) zero [] = refl
length-copy_at (x ∷ xs) zero (y ∷ ys) = ap suc (length-copy_at xs zero ys)

-- The copied bytes stand where they were put.
pub take-drop-copy_at :
    (xs : List ℕ) (i : ℕ) (ys : List ℕ)
    → i + length ys ≤ length xs
    → take (length ys) (drop i (copy_at xs i ys)) ≡ ys
unfolding copy_at
take-drop-copy_at xs zero [] h = refl
take-drop-copy_at [] zero (y ∷ ys) h = absurd (omega arith)
take-drop-copy_at (x ∷ xs) zero (y ∷ ys) h =
    ap (λ r. y ∷ r) (take-drop-copy_at xs zero ys (omega arith))
take-drop-copy_at [] (suc i) [] h = refl
take-drop-copy_at [] (suc i) (y ∷ ys) h = absurd (omega arith)
take-drop-copy_at (x ∷ xs) (suc i) ys h = take-drop-copy_at xs i ys (omega arith)

-- A field that ends before the copy, or starts behind it, is not touched.
pub take-drop-copy_at_before :
    (xs : List ℕ) (i : ℕ) (ys : List ℕ) (j n : ℕ)
    → j + n ≤ i
    → take n (drop j (copy_at xs i ys)) ≡ take n (drop j xs)
unfolding copy_at
take-drop-copy_at_before [] i ys j n h = refl
take-drop-copy_at_before (x ∷ xs) zero ys zero zero h = refl
take-drop-copy_at_before (x ∷ xs) zero ys zero (suc n) h = absurd (omega arith)
take-drop-copy_at_before (x ∷ xs) zero ys (suc j) n h = absurd (omega arith)
take-drop-copy_at_before (x ∷ xs) (suc i) ys zero zero h = refl
take-drop-copy_at_before (x ∷ xs) (suc i) ys zero (suc n) h =
    ap (λ r. x ∷ r) (take-drop-copy_at_before xs i ys zero n (omega arith))
take-drop-copy_at_before (x ∷ xs) (suc i) ys (suc j) n h =
    take-drop-copy_at_before xs i ys j n (omega arith)

pub drop-copy_at_behind :
    (xs : List ℕ) (i : ℕ) (ys : List ℕ) (j : ℕ)
    → i + length ys ≤ j
    → drop j (copy_at xs i ys) ≡ drop j xs
unfolding copy_at
drop-copy_at_behind [] i ys j h = refl
drop-copy_at_behind (x ∷ xs) zero [] j h = refl
drop-copy_at_behind (x ∷ xs) zero (y ∷ ys) zero h = absurd (omega arith)
drop-copy_at_behind (x ∷ xs) zero (y ∷ ys) (suc j) h =
    drop-copy_at_behind xs zero ys j (omega arith)
drop-copy_at_behind (x ∷ xs) (suc i) ys zero h = absurd (omega arith)
drop-copy_at_behind (x ∷ xs) (suc i) ys (suc j) h = drop-copy_at_behind xs i ys j (omega arith)

pub AreBytes-to_le_bytes : (k v : ℕ) → AreBytes (to_le_bytes k v)
unfolding to_le_bytes
AreBytes-to_le_bytes zero v = tt
AreBytes-to_le_bytes (suc k) v = (omega arith, AreBytes-to_le_bytes k (v / 256))

pub AreBytes-copy_at :
    (xs : List ℕ) (i : ℕ) (ys : List ℕ) → AreBytes xs → AreBytes ys → AreBytes (copy_at xs i ys)
unfolding copy_at
AreBytes-copy_at [] i ys v w = tt
AreBytes-copy_at (x ∷ xs) (suc i) ys (v, vs) w = (v, AreBytes-copy_at xs i ys vs w)
AreBytes-copy_at (x ∷ xs) zero [] v w = v
AreBytes-copy_at (x ∷ xs) zero (y ∷ ys) (v, vs) (w, ws) = (w, AreBytes-copy_at xs zero ys vs ws)
