-- ===== src/DirSet/Checksum.antt =====
-- The checksum of an entry set, independently of how the set is cut into entries.
use exfat_slim.Base.{
  ℕ, suc, ◌+◌, ◌≤◌, ◌≡◌, refl, sym, ap, ◌∙◌, true, false, ◌||◌, List, [], ◌∷◌, ◌++◌, take, drop,
  length, ◌==◌, arith,
}
use exfat_slim.Word.{u16}
use exfat_slim.OpenOptions.{Location}
use exfat_slim.DirSet.{
  DirSetWriter, new_writer, next_dir_entry_location, rotate_right_one, sum_bytes, add_no_write,
}

-- The writer after the entries of a set, the first of them the file's.
abbrev pub add_rest : ℕ → List (List ℕ) → DirSetWriter → DirSetWriter
add_rest size [] w = w
add_rest size (entry ∷ entries) w = add_rest size entries (add_no_write size entry false w)

-- The sum over bytes of the format: rotate, then add, modulo 2 ^ 16.
unfoldable pub checksum_of : ℕ → List ℕ → ℕ
checksum_of sum [] = sum
checksum_of sum (b ∷ bytes) = checksum_of (u16 (rotate_right_one sum + b)) bytes

abbrev pub flatten : List (List ℕ) → List ℕ
flatten [] = []
flatten (entry ∷ entries) = entry ++ flatten entries

checksum_of-append :
    (xs ys : List ℕ) (sum : ℕ) → checksum_of sum (xs ++ ys) ≡ checksum_of (checksum_of sum xs) ys
unfolding checksum_of
checksum_of-append [] ys sum = refl
checksum_of-append (x ∷ xs) ys sum = checksum_of-append xs ys _

sum_bytes-plain : (raw : List ℕ) (i sum : ℕ) → sum_bytes false i raw sum ≡ checksum_of sum raw
unfolding sum_bytes checksum_of
sum_bytes-plain [] i sum = refl
sum_bytes-plain (b ∷ raw) i sum = sum_bytes-plain raw (suc i) _

-- Behind the field of the checksum nothing is left out.
sum_bytes-behind :
    (raw : List ℕ) (i sum : ℕ) → 4 ≤ i → sum_bytes true i raw sum ≡ checksum_of sum raw
unfolding sum_bytes checksum_of
sum_bytes-behind [] i sum h = refl
sum_bytes-behind (b ∷ raw) i sum h =
    let behind : (i == 2 || i == 3) ≡ false = ground arith in
    rw behind (sum_bytes-behind raw (suc i) _ (omega arith))

same_checksum :
    (size : ℕ) (w : DirSetWriter) → (next_dir_entry_location size w).checksum ≡ w.checksum
unfolding next_dir_entry_location
same_checksum size w = ground arith

add_rest-checksum :
    (size : ℕ) (entries : List (List ℕ)) (w : DirSetWriter)
    → (add_rest size entries w).checksum ≡ checksum_of w.checksum (flatten entries)
unfolding checksum_of
add_rest-checksum size [] w = refl
add_rest-checksum size (entry ∷ entries) w =
    add_rest-checksum size entries (add_no_write size entry false w)
    ∙ ap (λ sum. checksum_of sum (flatten entries))
        (sum_bytes-plain entry 0 _ ∙ ap (λ sum. checksum_of sum entry) (same_checksum size w))
    ∙ sym (checksum_of-append entry (flatten entries) w.checksum)

-- The checksum that a writer has after all entries of a set, the file's first, is the format's: the
-- rotating sum, modulo 2 ^ 16, over all bytes of the set but the two of the checksum field. The file
-- entry has at least its four first bytes.
pub add_rest-checksum_of :
    (size : ℕ) (location : Location) (first : List ℕ) (entries : List (List ℕ))
    → 4 ≤ length first
    → (add_rest size entries (add_no_write size first true (new_writer location))).checksum
      ≡ checksum_of 0 ((take 2 first ++ drop 4 first) ++ flatten entries)
unfolding checksum_of sum_bytes
add_rest-checksum_of size location [] entries h = absurd (omega arith)
add_rest-checksum_of size location (a ∷ []) entries h = absurd (omega arith)
add_rest-checksum_of size location (a ∷ b ∷ []) entries h = absurd (omega arith)
add_rest-checksum_of size location (a ∷ b ∷ c ∷ []) entries h = absurd (omega arith)
add_rest-checksum_of size location (a ∷ b ∷ c ∷ e ∷ raw) entries h =
    add_rest-checksum size entries
      (add_no_write size (a ∷ b ∷ c ∷ e ∷ raw) true (new_writer location))
    ∙ ap (λ sum. checksum_of sum (flatten entries))
        (sum_bytes-behind raw 4 _ (omega arith)
          ∙ ap (λ sum. checksum_of sum (a ∷ b ∷ raw)) (same_checksum size (new_writer location)))
    ∙ sym (checksum_of-append (a ∷ b ∷ raw) (flatten entries) 0)
