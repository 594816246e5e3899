-- ===== src/Timestamp/RoundTrip.antt =====
-- `decode` undoes `encode` on every valid timestamp, and `encode` stays within its bytes.
use exfat_slim.Base.{
  ℕ, ◌+◌, ◌-◌, ◌*◌, ◌/◌, ◌%◌, ◌^◌, ◌≤◌, ◌<◌, ◌≡◌, refl, ◌∙◌, true, inl, inr, Bool-cases, Option,
  none, some, arith, bit_and, bit_or, bit_or_shifted, bit_and_low, agree_below, agree_below→eq,
}
use exfat_slim.Base.Int.{ℤ, pos, negsuc}
use exfat_slim.Timestamp.{
  Timestamp, is_valid, days_in_month, is_valid_offset, pack, encode, decode, encode_offset,
  decode_offset, default_encoded, byte_of,
}

-- What `is_valid` lets through, as bounds.
record InRange (t : Timestamp) : Type 0 where
  year_from : 1980 ≤ t.year
  year_to : t.year ≤ 2107
  month_to : t.month ≤ 12
  day_to : t.day ≤ 31
  hour_to : t.hour ≤ 23
  minute_to : t.minute ≤ 59
  second_to : t.second ≤ 59
  centis_to : t.centis ≤ 99
  offset : is_valid_offset t.utc_offset_15min ≡ true

days_in_month-le : (year month : ℕ) → days_in_month year month ≤ 31
unfolding days_in_month
days_in_month-le year month = ground arith

month-le : (year month day : ℕ) → 1 ≤ day → day ≤ days_in_month year month → month ≤ 12
unfolding days_in_month
month-le year month day h k = ground arith

is_valid-InRange : (t : Timestamp) → is_valid t ≡ true → InRange t
unfolding is_valid
is_valid-InRange t v =
    ground (arith, days_in_month-le t.year t.month, month-le t.year t.month t.day)

-- `|` of a number whose `k` low bits are clear with a number of `k` bits.
or_sum : (k q : ℕ) {a r s : ℕ} → a ≡ q * 2 ^ k → r < 2 ^ k → q * 2 ^ k + r ≡ s → bit_or a r ≡ s
or_sum k q {a} {r} e h sum = rw e (bit_or_shifted k q r h ∙ sum)

-- The fields stand side by side.
pack-sum :
    (t : Timestamp)
    → InRange t
    → pack t
      ≡ (t.year - 1980) * 2 ^ 25
        + t.month * 2 ^ 21
        + t.day * 2 ^ 16
        + t.hour * 2 ^ 11
        + t.minute * 2 ^ 5
        + t.second / 2
unfolding pack
pack-sum t v =
    or_sum 5 (y * 2 ^ 20 + m * 2 ^ 16 + d * 2 ^ 11 + h * 2 ^ 6 + t.minute)
      (or_sum 11 (y * 2 ^ 14 + m * 2 ^ 10 + d * 2 ^ 5 + h)
        (or_sum 16 (y * 2 ^ 9 + m * 2 ^ 5 + d)
          (or_sum 21 (y * 2 ^ 4 + m) (or_sum 25 y (omega arith) (omega arith) (omega arith))
            (omega arith) (omega arith))
          (omega arith) (omega arith))
        (omega arith) (omega arith))
      (omega arith) (omega arith)
  where
    y : ℕ
    y = t.year - 1980

    open t use {month as m, day as d, hour as h}

-- The flag of the offset byte is its highest bit.
top_bit : (b : ℕ) → b < 256 → bit_and b 0x80 ≡ b / 128 * 128
unfolding agree_below
top_bit = agree_below→eq _ _ 256 refl

encode_offset-sum : (z : ℤ) → encode_offset (some z) ≡ 128 + byte_of z % 128
unfolding encode_offset
encode_offset-sum z =
    rw (bit_and_low 7 (byte_of z)) (bit_or_shifted 7 1 (byte_of z % 128) (omega arith))

decode_offset-encode_offset :
    (o : Option ℤ) → is_valid_offset o ≡ true → decode_offset (encode_offset o) ≡ o
unfolding decode_offset is_valid_offset
decode_offset-encode_offset none v = unfold encode_offset in refl
decode_offset-encode_offset (some (pos n)) v =
    rw (encode_offset-sum (pos n)) (ground (arith, top_bit (128 + byte_of (pos n) % 128)))
decode_offset-encode_offset (some (negsuc n)) v =
    rw (encode_offset-sum (negsuc n)) (ground (arith, top_bit (128 + byte_of (negsuc n) % 128)))

-- The fields of `decode`, with the masks as remainders.
decode-fields :
    (t : Timestamp)
    → InRange t
    → decode (record {
      packed = pack t;
      increment_10ms = bit_and t.second 1 * 100 + t.centis;
      utc_offset = encode_offset t.utc_offset_15min;
    })
      ≡ t
unfolding decode
decode-fields t v =
    rw
      (
        pack-sum t v,
        bit_and_low 1 t.second,
        decode_offset-encode_offset t.utc_offset_15min v.offset,
      )
      (rw (bit_and_low 4, bit_and_low 5, bit_and_low 5, bit_and_low 5, bit_and_low 6)
        (ground arith))

-- Every valid timestamp is read back as it was written.
pub decode-encode : (t : Timestamp) → is_valid t ≡ true → decode (encode t) ≡ t
unfolding encode
decode-encode t v = rw v (decode-fields t (is_valid-InRange t v))

-- What `encode` writes fits the fields of a directory entry, whatever the timestamp: the packed
-- word is a `u32`, the increment is below 200, and the offset is a byte.
pub encode_fits :
    (t : Timestamp)
    → ((encode t).packed < 2 ^ 32)
      × ((encode t).increment_10ms ≤ 199)
      × ((encode t).utc_offset < 2 ^ 8)
unfolding encode default_encoded
encode_fits t = elim (Bool-cases (is_valid t)) [
  | inl v ↦ rw v (fits t (is_valid-InRange t v))
  | inr v ↦ rw v (omega arith)
]
  where
    offset_fits : (o : Option ℤ) → encode_offset o < 2 ^ 8
    offset_fits none = unfold encode_offset in omega arith
    offset_fits (some z) = omega (arith, encode_offset-sum z)

    fits :
        (t : Timestamp)
        → InRange t
        → (pack t < 2 ^ 32)
          × (bit_and t.second 1 * 100 + t.centis ≤ 199)
          × (encode_offset t.utc_offset_15min < 2 ^ 8)
    fits t v = (
      omega (arith, pack-sum t v),
      omega (arith, bit_and_low 1 t.second),
      offset_fits t.utc_offset_15min,
    )
