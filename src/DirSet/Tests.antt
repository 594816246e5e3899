-- ===== src/DirSet/Tests.antt =====
-- The entry set of a real volume (the test `checksum_matches_real_volume`).
use exfat_slim.Base.{ℕ, ◌+◌, ◌*◌, ◌≡◌, refl, List, [], ◌∷◌, ◌++◌, take, drop, true, arith}
use exfat_slim.OpenOptions.{Location}
use exfat_slim.DirSet.{new_writer, add_no_write, next_dir_entry_location, sum_bytes}
use exfat_slim.DirSet.Checksum.{add_rest, checksum_of, flatten, add_rest-checksum_of}

abbrev file : List ℕ
file =
    133 ∷ 2 ∷ 240 ∷ 119 ∷ 32 ∷ 0 ∷ 0 ∷ 0 ∷ 0 ∷ 107 ∷ 16 ∷ 93 ∷ 15 ∷ 107 ∷ 16 ∷ 93 ∷ 15 ∷ 107 ∷ 16
    ∷ 93 ∷ 183 ∷ 107 ∷ 128 ∷ 128 ∷ 128 ∷ 0 ∷ 0 ∷ 0 ∷ 0 ∷ 0 ∷ 0 ∷ 0 ∷ []

abbrev stream : List ℕ
stream =
    192 ∷ 3 ∷ 0 ∷ 9 ∷ 70 ∷ 48 ∷ 0 ∷ 0 ∷ 26 ∷ 0 ∷ 0 ∷ 0 ∷ 0 ∷ 0 ∷ 0 ∷ 0 ∷ 0 ∷ 0 ∷ 0 ∷ 0 ∷ 5 ∷ 0 ∷ 0
    ∷ 0 ∷ 26 ∷ 0 ∷ 0 ∷ 0 ∷ 0 ∷ 0 ∷ 0 ∷ 0 ∷ []

abbrev name : List ℕ
name =
    193 ∷ 0 ∷ 72 ∷ 0 ∷ 101 ∷ 0 ∷ 108 ∷ 0 ∷ 108 ∷ 0 ∷ 111 ∷ 0 ∷ 46 ∷ 0 ∷ 84 ∷ 0 ∷ 88 ∷ 0 ∷ 84 ∷ 0 ∷ 0
    ∷ 0 ∷ 0 ∷ 0 ∷ 0 ∷ 0 ∷ 0 ∷ 0 ∷ 0 ∷ 0 ∷ 0 ∷ 0 ∷ []

abbrev start : Location
start = record { sector_id = 0; dir_entry_offset = 0 }

real_volume :
    (add_rest 512 (stream ∷ name ∷ []) (add_no_write 512 file true (new_writer start))).checksum
    ≡ 240 + 256 * 119
unfolding next_dir_entry_location sum_bytes
real_volume = refl

add_rest-checksum_of_example :
    (add_rest 512 (stream ∷ name ∷ []) (add_no_write 512 file true (new_writer start))).checksum
    ≡ checksum_of 0 ((take 2 file ++ drop 4 file) ++ flatten (stream ∷ name ∷ []))
add_rest-checksum_of_example =
    add_rest-checksum_of 512 start file (stream ∷ name ∷ []) (omega arith)
