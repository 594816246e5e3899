-- ===== src/Word.antt =====
-- Machine words and byte arrays as the sources use them: casts, shifts, `to_le_bytes` and
-- `from_le_bytes`, `copy_from_slice`, and the readers of src/utils.rs at a constant offset.
pub mod Laws
use exfat_slim.Base.{
  ℕ, zero, suc, ◌+◌, ◌*◌, ◌/◌, ◌%◌, ◌^◌, ◌-◌, ◌<◌, ◌≡◌, List, [], ◌∷◌, take, drop, length, get_or,
  Bool, ltb, if◌then◌else◌,
}

abbrev pub u8 : ℕ → ℕ
u8 n = n % 2 ^ 8

abbrev pub u16 : ℕ → ℕ
u16 n = n % 2 ^ 16

abbrev pub u32 : ℕ → ℕ
u32 n = n % 2 ^ 32

-- `x << k` of a u32, and `x >> k` at any width.
abbrev pub shl32 : ℕ → ℕ → ℕ
shl32 x k = u32 (x * 2 ^ k)

abbrev pub shr : ℕ → ℕ → ℕ
shr x k = x / 2 ^ k

-- `div_ceil`.
abbrev pub div_ceil : ℕ → ℕ → ℕ
div_ceil a b = (a + (b - 1)) / b

-- `to_le_bytes` of a word of `k` bytes, and `from_le_bytes`.
unfoldable pub to_le_bytes : ℕ → ℕ → List ℕ
to_le_bytes zero v = []
to_le_bytes (suc k) v = (v % 256) ∷ to_le_bytes k (v / 256)

unfoldable pub from_le_bytes : List ℕ → ℕ
from_le_bytes [] = 0
from_le_bytes (b ∷ bs) = b + 256 * from_le_bytes bs

-- `value[i]` of an array that is long enough.
abbrev pub byte_at : List ℕ → ℕ → ℕ
byte_at value i = get_or value i 0

-- `target[i..i + source.len()].copy_from_slice(source)`, in range.
unfoldable pub copy_at : List ℕ → ℕ → List ℕ → List ℕ
copy_at [] i source = []
copy_at (x ∷ xs) (suc i) source = x ∷ copy_at xs i source
copy_at (x ∷ xs) zero [] = x ∷ xs
copy_at (x ∷ xs) zero (y ∷ ys) = y ∷ copy_at xs zero ys

unfoldable pub read_u16_le : ℕ → List ℕ → ℕ
unfolding from_le_bytes
read_u16_le index value = from_le_bytes (take 2 (drop index value))

unfoldable pub read_u32_le : ℕ → List ℕ → ℕ
unfolding from_le_bytes
read_u32_le index value = from_le_bytes (take 4 (drop index value))

unfoldable pub read_u64_le : ℕ → List ℕ → ℕ
unfolding from_le_bytes
read_u64_le index value = from_le_bytes (take 8 (drop index value))

-- A list of bytes, and the bytes of a sector.
abbrev pub AreBytes : List ℕ → Type 0
AreBytes [] = Unit {0}
AreBytes (b ∷ bs) = (b < 256) × AreBytes bs

abbrev pub IsBlock : ℕ → List ℕ → Type 0
IsBlock size b = AreBytes b × (length b ≡ size)
