-- ===== src/Name/Entries.antt =====
-- The entry set of a name, and what names are accepted.
use exfat_slim.Base.{
  ℕ, suc, ◌+◌, ◌-◌, ◌*◌, ◌^◌, ◌≤◌, ◌<◌, ◌≡◌, Bool-cases, false, inl, inr, List, [], ◌∷◌, length,
  String, ◌==◌, arith,
}
use exfat_slim.Error.{Result, ok, err, stuck}
use exfat_slim.Name.{
  is_illegal_name_char, hash_units, encode_utf16_upcase_and_hash, is_reserved,
  calc_dir_entry_set_len,
}

-- The name entries of an entry set hold the name, and one entry less would not: a name of up to
-- 255 units has at most 19 entries. The length of the name fits in 32 bits.
pub calc_dir_entry_set_len-least :
    (n : ℕ)
    → n < 2 ^ 32
    → (n ≤ 15 * (calc_dir_entry_set_len n - 2))
      × (15 * (calc_dir_entry_set_len n - 2) < n + 15)
      × (n ≤ 255 → calc_dir_entry_set_len n ≤ 19)
unfolding calc_dir_entry_set_len
calc_dir_entry_set_len-least n h = (omega arith, omega arith, λ k. omega arith)

abbrev pub AreLegal : List ℕ → Type 0
AreLegal [] = Unit {0}
AreLegal (c ∷ units) = (is_illegal_name_char c ≡ false) × AreLegal units

-- What is known of a name whose hash is `h` and whose number of units is `c`.
abbrev pub Accepts : List ℕ → ℕ → Result String (ℕ × ℕ) → Type 0
Accepts units count (ok (h, c)) =
    (c ≡ count + length units) × (0 < c) × (h < 2 ^ 16) × AreLegal units
Accepts units count (err e) = Unit {0}
Accepts units count stuck = ⊥

Accepts-suc :
    (c : ℕ) (units : List ℕ) (count : ℕ) (r : Result String (ℕ × ℕ))
    → is_illegal_name_char c ≡ false
    → Accepts units (suc count) r
    → Accepts (c ∷ units) count r
Accepts-suc c units count (ok (h, n)) e (len, pos, fits, legal) =
    (omega (arith, len), pos, fits, (e, legal))
Accepts-suc c units count (err x) e p = tt
Accepts-suc c units count stuck e p = p

hash_units-Accepts :
    (mapping units : List ℕ) (hash count : ℕ)
    → hash < 2 ^ 16
    → Accepts units count (hash_units mapping units hash count)
unfolding hash_units
hash_units-Accepts mapping [] hash count h = elim (Bool-cases (count == 0)) [
  | inl e ↦ rw e tt
  | inr e ↦ rw e (omega arith, ground arith, h, tt)
]
hash_units-Accepts mapping (c ∷ units) hash count h = elim (Bool-cases (is_illegal_name_char c)) [
  | inl e ↦ rw e tt
  | inr e ↦
      rw e (
        Accepts-suc c units count _ e
          (hash_units-Accepts mapping units _ (suc count) (omega arith)))
]

-- A name is accepted only if it is not empty and has no illegal unit; the answer is a hash of 16
-- bits, and the number of units.
pub encode_utf16_upcase_and_hash-Accepts :
    (units mapping : List ℕ) → Accepts units 0 (encode_utf16_upcase_and_hash units mapping)
unfolding encode_utf16_upcase_and_hash
encode_utf16_upcase_and_hash-Accepts units mapping = elim (Bool-cases (is_reserved units)) [
  | inl e ↦ rw e tt
  | inr e ↦ rw e (hash_units-Accepts mapping units 0 0 (omega arith))
]
