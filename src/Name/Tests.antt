-- ===== src/Name/Tests.antt =====
-- The tests of src/utils.rs on names, and the theorems at their inputs.
use exfat_slim.Base.{ℕ, ◌+◌, ◌-◌, ◌*◌, ◌≤◌, ◌<◌, List, [], ◌∷◌, arith}
use exfat_slim.Name.{encode_utf16_upcase_and_hash, calc_dir_entry_set_len}
use exfat_slim.Name.Entries.{
  Accepts, calc_dir_entry_set_len-least, encode_utf16_upcase_and_hash-Accepts,
}

calc_dir_entry_set_len-least_example :
    (16 ≤ 15 * (calc_dir_entry_set_len 16 - 2))
    × (15 * (calc_dir_entry_set_len 16 - 2) < 16 + 15)
    × (16 ≤ 255 → calc_dir_entry_set_len 16 ≤ 19)
calc_dir_entry_set_len-least_example = calc_dir_entry_set_len-least 16 (omega arith)

-- "ab"
abbrev name : List ℕ
name = 0x61 ∷ 0x62 ∷ []

encode_utf16_upcase_and_hash-Accepts_example : Accepts name 0 (encode_utf16_upcase_and_hash name [])
encode_utf16_upcase_and_hash-Accepts_example = encode_utf16_upcase_and_hash-Accepts name []
