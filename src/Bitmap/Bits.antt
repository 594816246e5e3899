-- ===== src/Bitmap/Bits.antt =====
-- `set_bit_range` and `is_free` on the bits of a sector.
use exfat_slim.Base.{
  ℕ, zero, suc, ◌+◌, ◌-◌, ◌*◌, ◌/◌, ◌%◌, ◌^◌, ◌≤◌, ◌<◌, ◌≡◌, ◌≢◌, ==_iff, ap, refl, sym, ◌∙◌, Bool,
  Bool-cases, true, false, not, ◌&&◌, inl, inr, List, [], ◌∷◌, ◌++◌, length, length-set,
  get_or-set_self, get_or-set_ne, set, bit_and, bit_or, agree_below, agree_below→eq, ltb, leb, ◌==◌,
  if◌then◌else◌, arith,
}
use exfat_slim.Word.{byte_at, AreBytes}
use exfat_slim.Bitmap.{set_bit, set_bit_range, is_free}

-- The bit of cluster `i` of a sector is clear.
unfoldable pub is_free_at : List ℕ → ℕ → Bool
is_free_at block i = is_free (byte_at block (i / 8)) (i % 8)

abbrev as_number : Bool → ℕ
as_number true = 1
as_number false = 0

-- One bit of one byte, set (`on` is 1) or cleared.
written : (on byte k : ℕ) → ℕ
written on byte k = if on == 1 then bit_or byte (2 ^ k) else bit_and byte (255 - 2 ^ k)

read_back : (on byte k j : ℕ) → ℕ
unfolding is_free written
read_back on byte k j = as_number (is_free (written on byte k) j)

written_or_old : (on byte k j : ℕ) → ℕ
unfolding is_free
written_or_old on byte k j = if k == j then 1 - on else as_number (is_free byte j)

fits : (on byte k : ℕ) → ℕ
unfolding written
fits on byte k = as_number (ltb (written on byte k) 256)

-- Every case, by evaluation: `i` counts them.
all_read_back :
    (i : ℕ)
    → i < 2 ^ 15
    → read_back (i % 2) (i / 128) (i / 16 % 8) (i / 2 % 8)
      ≡ written_or_old (i % 2) (i / 128) (i / 16 % 8) (i / 2 % 8)
unfolding agree_below read_back written_or_old
all_read_back =
    agree_below→eq (λ i. read_back (i % 2) (i / 128) (i / 16 % 8) (i / 2 % 8))
      (λ i. written_or_old (i % 2) (i / 128) (i / 16 % 8) (i / 2 % 8)) (2 ^ 15) refl

all_fit : (i : ℕ) → i < 2 ^ 12 → fits (i % 2) (i / 16) (i / 2 % 8) ≡ 1
unfolding agree_below fits
all_fit = agree_below→eq (λ i. fits (i % 2) (i / 16) (i / 2 % 8)) (λ i. 1) (2 ^ 12) refl

module _ (on byte k : ℕ) (h : on < 2) (hb : byte < 256) (hk : k < 8) where
  read_back-eq : (j : ℕ) → j < 8 → read_back on byte k j ≡ written_or_old on byte k j
  read_back-eq j hj =
      let i = byte * 128 + k * 16 + j * 2 + on in
      let e0 : i % 2 ≡ on = omega arith in
      let e1 : i / 128 ≡ byte = omega arith in
      let e2 : i / 16 % 8 ≡ k = omega arith in
      let e3 : i / 2 % 8 ≡ j = omega arith in cc (all_read_back i (omega arith))

  fits-eq : fits on byte k ≡ 1
  fits-eq =
      let i = byte * 16 + k * 2 + on in
      let e0 : i % 2 ≡ on = omega arith in
      let e1 : i / 16 ≡ byte = omega arith in
      let e2 : i / 2 % 8 ≡ k = omega arith in cc (all_fit i (omega arith))

-- The bits of the first byte, and of the others.
pub is_free_at-head :
    (byte : ℕ) (bytes : List ℕ) (k : ℕ) → k < 8 → is_free_at (byte ∷ bytes) k ≡ is_free byte k
unfolding is_free_at
is_free_at-head byte bytes k h =
    let e : k / 8 ≡ 0 = omega arith in let e' : k % 8 ≡ k = omega arith in rw (e, e') refl

pub is_free_at-tail :
    (byte : ℕ) (bytes : List ℕ) (k : ℕ) → is_free_at (byte ∷ bytes) (8 + k) ≡ is_free_at bytes k
unfolding is_free_at
is_free_at-tail byte bytes k =
    let e : (8 + k) / 8 ≡ suc (k / 8) = omega arith in
    let e' : (8 + k) % 8 ≡ k % 8 = omega arith in rw (e, e') refl

byte_at-append_left : (xs ys : List ℕ) (i : ℕ) → i < length xs → byte_at (xs ++ ys) i ≡ byte_at xs i
byte_at-append_left [] ys i h = absurd (omega arith)
byte_at-append_left (x ∷ xs) ys zero h = refl
byte_at-append_left (x ∷ xs) ys (suc i) h = byte_at-append_left xs ys i (omega arith)

-- The bits of the first of two lists of bytes, and of the second.
pub is_free_at-append_left :
    (xs ys : List ℕ) (k : ℕ) → k < 8 * length xs → is_free_at (xs ++ ys) k ≡ is_free_at xs k
unfolding is_free_at
is_free_at-append_left xs ys k h =
    ap (λ b. is_free b (k % 8)) (byte_at-append_left xs ys (k / 8) (omega arith))

pub is_free_at-append_right :
    (xs ys : List ℕ) (k : ℕ) → is_free_at (xs ++ ys) (8 * length xs + k) ≡ is_free_at ys k
is_free_at-append_right [] ys k = ap (is_free_at ys) (omega arith)
is_free_at-append_right (x ∷ xs) ys k =
    ap (is_free_at (x ∷ xs ++ ys)) (omega arith)
    ∙ is_free_at-tail x (xs ++ ys) (8 * length xs + k)
    ∙ is_free_at-append_right xs ys k

as_number-inj : (a b : Bool) → as_number a ≡ as_number b → a ≡ b
as_number-inj true true e = refl
as_number-inj true false e = absurd (omega arith)
as_number-inj false true e = absurd (omega arith)
as_number-inj false false e = refl

byte_at-lt : (block : List ℕ) (i : ℕ) → AreBytes block → byte_at block i < 256
byte_at-lt [] i v = omega arith
byte_at-lt (b ∷ bs) zero (v, vs) = v
byte_at-lt (b ∷ bs) (suc i) (v, vs) = byte_at-lt bs i vs

AreBytes-set : (block : List ℕ) (i b : ℕ) → AreBytes block → b < 256 → AreBytes (set block i b)
AreBytes-set [] i b v h = tt
AreBytes-set (c ∷ bs) zero b (v, vs) h = (h, vs)
AreBytes-set (c ∷ bs) (suc i) b (v, vs) h = (v, AreBytes-set bs i b vs h)

set_bit-written :
    (bit : ℕ) (on : Bool) (block : List ℕ)
    → set_bit bit on block
      ≡ set block (bit / 8) (written (as_number on) (byte_at block (bit / 8)) (bit % 8))
unfolding set_bit written
set_bit-written bit true block = refl
set_bit-written bit false block = refl

module _ (on : Bool) (block : List ℕ) (bit : ℕ) (v : AreBytes block)
    (h : bit < 8 * length block) where
  as_number-lt : (b : Bool) → as_number b < 2
  as_number-lt true = omega arith
  as_number-lt false = omega arith

  set_bit-AreBytes : AreBytes (set_bit bit on block)
  unfolding fits
  set_bit-AreBytes = rw (set_bit-written bit on block) (
      AreBytes-set block (bit / 8) _ v (
        ground (
          arith,
          fits-eq (as_number on) (byte_at block (bit / 8)) (bit % 8) (as_number-lt on)
              (byte_at-lt block (bit / 8) v),
        )))

  length-set_bit : length (set_bit bit on block) ≡ length block
  unfolding set_bit
  length-set_bit = length-set block (bit / 8) _

  is_free-written :
      (j : ℕ)
      → j < 8
      → is_free (written (as_number on) (byte_at block (bit / 8)) (bit % 8)) j
        ≡ (if bit % 8 == j then not on else is_free (byte_at block (bit / 8)) j)
  unfolding read_back written_or_old
  is_free-written j hj = as_number-inj _ _ (
      read_back-eq (as_number on) (byte_at block (bit / 8)) (bit % 8) (as_number-lt on)
        (byte_at-lt block (bit / 8) v) (omega arith) j hj
      ∙ cases (bit % 8 == j) on _)
    where
      cases :
          (c on b : Bool)
          → (if c then 1 - as_number on else as_number b) ≡ as_number (if c then not on else b)
      cases true true b = omega arith
      cases true false b = omega arith
      cases false on b = refl

  byte-set_bit_here :
      byte_at (set_bit bit on block) (bit / 8)
      ≡ written (as_number on) (byte_at block (bit / 8)) (bit % 8)
  byte-set_bit_here =
      rw (set_bit-written bit on block) (get_or-set_self block (bit / 8) _ 0 (omega arith))

  byte-set_bit_elsewhere :
      (k : ℕ) → bit / 8 ≢ k → byte_at (set_bit bit on block) k ≡ byte_at block k
  byte-set_bit_elsewhere k ne =
      rw (set_bit-written bit on block) (get_or-set_ne block (bit / 8) k _ 0 ne)

  -- Writing one bit of a sector changes that bit and no other.
  is_free_at-set_bit :
      (i : ℕ)
      → is_free_at (set_bit bit on block) i ≡ (if bit == i then not on else is_free_at block i)
  unfolding is_free_at
  is_free_at-set_bit i = elim (Bool-cases (bit / 8 == i / 8)) [
    | inl same ↦
        let e : i / 8 ≡ bit / 8 = sym ((==_iff _ _).0 same) in
        ap (λ k. is_free (byte_at (set_bit bit on block) k) (i % 8)) e
        ∙ ap (λ b. is_free b (i % 8)) byte-set_bit_here
        ∙ is_free-written (i % 8) (omega arith)
        ∙ (λ t. if same_bit e t then not on else is_free (byte_at block (sym e t)) (i % 8))
    | inr other ↦
        ap (λ b. is_free b (i % 8)) (byte-set_bit_elsewhere (i / 8) (λ e. ground arith))
        ∙ ap (λ c. if c then not on else is_free (byte_at block (i / 8)) (i % 8))
            (sym (apart other))
  ]
    where
      same_bit : i / 8 ≡ bit / 8 → (bit % 8 == i % 8) ≡ (bit == i)
      same_bit e = ground arith

      apart : (bit / 8 == i / 8) ≡ false → (bit == i) ≡ false
      apart other = ground arith

-- `set_bit_range` sets or clears the bits of the range and leaves every other bit of the sector;
-- the sector keeps its length, and its bytes stay bytes.
pub set_bit_range-is_free_at :
    (count start : ℕ) (on : Bool) (block : List ℕ)
    → AreBytes block
    → start + count ≤ 8 * length block
    → AreBytes (set_bit_range count start on block)
      × (length (set_bit_range count start on block) ≡ length block)
      × ((i : ℕ)
          → is_free_at (set_bit_range count start on block) i
            ≡ (if leb start i && ltb i (start + count) then not on else is_free_at block i))
unfolding set_bit_range
set_bit_range-is_free_at zero start on block v h = (v, refl, λ i. ground arith)
set_bit_range-is_free_at (suc count) start on block v h =
    let (bytes, same_length, bits) =
      set_bit_range-is_free_at count (suc start) on (set_bit start on block)
        (set_bit-AreBytes on block start v (omega arith))
        (omega (arith, length-set_bit on block start v (omega arith))) in
    (
      bytes,
      same_length ∙ length-set_bit on block start v (omega arith),
      λ i. ground (arith, bits i, is_free_at-set_bit on block start v (omega arith) i),
    )
