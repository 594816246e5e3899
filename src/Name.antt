-- ===== src/Name.antt =====
-- src/utils.rs and src/upcase_table.rs: the units of a file name, its hash and the length of its
-- entry set. A name is the list of its UTF-16 units; a release build wraps the sums of the hash.
pub mod Entries
mod Tests
use exfat_slim.Base.{
  ℕ, suc, ◌+◌, ◌/◌, Bool, true, false, ◌||◌, ◌&&◌, List, [], ◌∷◌, get_or, String, bit_and, leb, ltb,
  ◌==◌, if◌then◌else◌,
}
use exfat_slim.Word.{u8, u16, u32, shr, div_ceil}
use exfat_slim.Error.{Result, ok, err}

-- `UpcaseTable::upcase`, with the table's `mapping`.
abbrev pub upcase : List ℕ → ℕ → ℕ
upcase mapping utf16_char = get_or mapping utf16_char utf16_char

abbrev pub is_illegal_name_char : ℕ → Bool
is_illegal_name_char c =
    leb c 0x001F
    || c == 0x0022
    || c == 0x002A
    || c == 0x002F
    || c == 0x003A
    || c == 0x003C
    || c == 0x003E
    || c == 0x003F
    || c == 0x005C
    || c == 0x007C

-- One byte of the hash.
abbrev pub hash_byte : ℕ → ℕ → ℕ
hash_byte hash byte = u16 ((if ltb 0 (bit_and hash 1) then 0x8000 else 0) + shr hash 1 + byte)

-- The loop of `encode_utf16_upcase_and_hash`.
unfoldable pub hash_units : List ℕ → List ℕ → (hash count : ℕ) → Result String (ℕ × ℕ)
hash_units mapping [] hash count = if count == 0 then err "name is empty" else ok (hash, count)
hash_units mapping (c ∷ units) hash count =
    let u = upcase mapping c in
    let rest =
      hash_units mapping units (hash_byte (hash_byte hash (u8 (bit_and u 0xFF))) (u8 (shr u 8)))
        (suc count) in
    if is_illegal_name_char c then err "name contains an illegal character" else rest

-- `s == "." || s == ".."`.
abbrev pub is_reserved : List ℕ → Bool
is_reserved [] = false
is_reserved (a ∷ []) = a == 0x2E
is_reserved (a ∷ b ∷ []) = a == 0x2E && b == 0x2E
is_reserved (a ∷ b ∷ c ∷ units) = false

unfoldable pub encode_utf16_upcase_and_hash : List ℕ → List ℕ → Result String (ℕ × ℕ)
encode_utf16_upcase_and_hash units mapping =
    if is_reserved units then err ". and .. are reserved names" else hash_units mapping units 0 0

-- `calc_dir_entry_set_len`: entries for the file, the stream and 15 units of the name each.
unfoldable pub calc_dir_entry_set_len : ℕ → ℕ
calc_dir_entry_set_len name_char_count = 2 + div_ceil (u32 name_char_count) 15
