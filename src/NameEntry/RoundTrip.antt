-- ===== src/NameEntry/RoundTrip.antt =====
-- A name entry is read back, and a decoded name fits its buffer.
use exfat_slim.Base.{
  ℕ, ◌+◌, ◌-◌, ◌*◌, ◌^◌, ◌≤◌, ◌<◌, ◌≡◌, refl, ap, ◌∙◌, Bool, Bool-cases, true, false, ◌||◌, ◌&&◌,
  inl, inr, List, [], ◌∷◌, ◌++◌, drop, length, length-append, ltb, leb, if◌then◌else◌, arith,
}
use exfat_slim.Word.{to_le_bytes, copy_at}
use exfat_slim.Word.Laws.{from-to_le_bytes}
use exfat_slim.Error.{Result, ok, err, stuck, ExFatError}
use exfat_slim.DirEntry.{no_bytes, general_secondary_flags_of}
use exfat_slim.NameEntry.{
  FileNameDirEntry, bytes_of, units_of, serialize_name, parse_name, put_char, encode_utf8,
  decode_utf16_to_utf8, invalid_character,
}

-- 15 units, and flags that are declared.
abbrev pub AreUnits : List ℕ → Type 0
AreUnits [] = Unit {0}
AreUnits (u ∷ us) = (u < 256 ^ 2) × AreUnits us

pub record NameInRange (e : FileNameDirEntry) : Type 0 where
  pub flags : general_secondary_flags_of e.general_secondary_flags ≡ e.general_secondary_flags
  pub units : AreUnits e.file_name
  pub fifteen : length e.file_name ≡ 15

units_of-bytes_of : (us : List ℕ) → AreUnits us → units_of (bytes_of us) ≡ us
unfolding units_of bytes_of to_le_bytes
units_of-bytes_of [] h = refl
units_of-bytes_of (u ∷ us) (h, hs) = λ i. from-to_le_bytes 2 u h i ∷ units_of-bytes_of us hs i

length-bytes_of : (us : List ℕ) → length (bytes_of us) ≡ 2 * length us
unfolding bytes_of to_le_bytes
length-bytes_of [] = refl
length-bytes_of (u ∷ us) = omega (arith, length-bytes_of us)

drop-copy_at : (xs ys : List ℕ) → length ys ≡ length xs → copy_at xs 0 ys ≡ ys
unfolding copy_at
drop-copy_at [] [] h = refl
drop-copy_at [] (y ∷ ys) h = absurd (omega arith)
drop-copy_at (x ∷ xs) [] h = absurd (omega arith)
drop-copy_at (x ∷ xs) (y ∷ ys) h = ap (λ r. y ∷ r) (drop-copy_at xs ys (omega arith))

-- A name entry with known flags and 15 units of 16 bits is parsed from the bytes that it is
-- serialized to.
pub parse_name-serialize_name :
    (e : FileNameDirEntry) → NameInRange e → parse_name (serialize_name e) ≡ e
unfolding parse_name serialize_name
parse_name-serialize_name e v = λ i. record {
  general_secondary_flags = v.flags i;
  file_name =
      (ap units_of (
            drop-copy_at (drop 2 no_bytes) (bytes_of e.file_name)
              (omega (arith, length-bytes_of e.file_name, v.fifteen)))
          ∙ units_of-bytes_of e.file_name v.units)
        i;
}

module _ (E : Type 0) where
  -- A result that is no longer than what is there and the room that is left.
  abbrev pub Fits : ℕ → List ℕ → Result (ExFatError E) (List ℕ) → Type 0
  Fits room utf8 (ok name) = length name ≤ length utf8 + room
  Fits room utf8 (err e) = Unit {0}
  Fits room utf8 stuck = ⊥

  put_char-Fits :
      (c room : ℕ) (utf8 : List ℕ) (rest : ℕ → List ℕ → Result (ExFatError E) (List ℕ))
      → ((room' : ℕ) (utf8' : List ℕ) → Fits room' utf8' (rest room' utf8'))
      → Fits room utf8 (put_char c room utf8 rest)
  put_char-Fits c room utf8 rest k = elim (Bool-cases (leb (length (encode_utf8 c)) room)) [
    | inl small ↦
        let e : length (utf8 ++ encode_utf8 c) + (room - length (encode_utf8 c))
            ≡ length utf8 + room =
          ground (arith, length-append utf8 (encode_utf8 c)) in
        rw small (wider _ _ _ _ e (rest _ _) (k _ _))
    | inr big ↦ rw big tt
  ]
    where
      wider :
          (room' room'' : ℕ) (xs ys : List ℕ)
          → length xs + room' ≡ length ys + room''
          → (r : Result (ExFatError E) (List ℕ)) → Fits room' xs r
          → Fits room'' ys r
      wider room' room'' xs ys e (ok name) h = omega (arith, h, e)
      wider room' room'' xs ys e (err x) h = tt
      wider room' room'' xs ys e stuck h = h

  if-Fits :
      (room : ℕ) (utf8 : List ℕ) (c : Bool) (x y : Result (ExFatError E) (List ℕ))
      → Fits room utf8 x
      → Fits room utf8 y
      → Fits room utf8 (if c then x else y)
  if-Fits room utf8 true x y h k = h
  if-Fits room utf8 false x y h k = k

  -- A decoded name is no longer than the buffer: with what was decoded before, it stays within the
  -- room; or the name is refused.
  pub decode_utf16_to_utf8-Fits :
      (units : List ℕ) (room : ℕ) (utf8 : List ℕ)
      → Fits room utf8 (decode_utf16_to_utf8 units room utf8)
  unfolding decode_utf16_to_utf8
  decode_utf16_to_utf8-Fits [] room utf8 = omega arith
  decode_utf16_to_utf8-Fits (u ∷ []) room utf8 =
      if-Fits room utf8 (ltb u 0xD800 || leb 0xE000 u) _ _
        (put_char-Fits u room utf8 (λ room utf8. ok utf8) (λ room' utf8'. omega arith)) tt
  decode_utf16_to_utf8-Fits (u ∷ v ∷ units) room utf8 =
      if-Fits room utf8 (ltb u 0xD800 || leb 0xE000 u) _ _
        (put_char-Fits u room utf8 _ (decode_utf16_to_utf8-Fits (v ∷ units)))
        (if-Fits room utf8 (ltb u 0xDC00 && leb 0xDC00 v && ltb v 0xE000) _
          (invalid_character {E = E})
          (put_char-Fits (0x10000 + (u - 0xD800) * 0x400 + (v - 0xDC00)) room utf8 _
            (decode_utf16_to_utf8-Fits units))
          tt)
