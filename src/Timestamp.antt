-- ===== src/Timestamp.antt =====
-- src/timestamp.rs: the local date and time of a directory entry, and its packed form on disk.
-- Years, months and so on are numbers; the UTC offset, an `i8` in quarters of an hour, is an
-- integer. A debug build stops in `encode` where the release build returns the default.
pub mod RoundTrip
mod Tests
use exfat_slim.Base.{
  ℕ, ◌+◌, ◌-◌, ◌*◌, ◌/◌, ◌%◌, ◌^◌, ◌<◌, Bool, true, false, ◌&&◌, ◌||◌, not, Option, none, some,
  bit_and, bit_or, ltb, leb, ◌==◌, if◌then◌else◌,
}
use exfat_slim.Base.Int.{ℤ, pos, negsuc, leb_ℤ}
use exfat_slim.Word.{u8, u16, shl32, shr}

abbrev pub min_timestamp : ℕ
min_timestamp = 0x0021_0000

abbrev pub min_year : ℕ
min_year = 1980

abbrev pub max_year : ℕ
max_year = 2107

abbrev pub utc_offset_valid : ℕ
utc_offset_valid = 0x80

pub record Timestamp : Type 0 where
  pub year : ℕ
  pub month : ℕ
  pub day : ℕ
  pub hour : ℕ
  pub minute : ℕ
  pub second : ℕ
  pub centis : ℕ
  pub utc_offset_15min : Option ℤ

pub record EncodedTimestamp : Type 0 where
  pub packed : ℕ
  pub increment_10ms : ℕ
  pub utc_offset : ℕ

-- `EncodedTimestamp::default`.
unfoldable pub default_encoded : EncodedTimestamp
default_encoded = record { packed = min_timestamp; increment_10ms = 0; utc_offset = 0 }

pub is_leap_year : ℕ → Bool
is_leap_year year = year % 4 == 0 && (not (year % 100 == 0) || year % 400 == 0)

pub days_in_month : ℕ → ℕ → ℕ
unfolding is_leap_year
days_in_month year month =
    if month == 1
      || month == 3
      || month == 5
      || month == 7
      || month == 8
      || month == 10
      || month == 12
    then 31
    else if month == 4 || month == 6 || month == 9 || month == 11
    then 30
    else if month == 2
    then 28 + (if is_leap_year year then 1 else 0)
    else 0

-- `is_none_or(|offset| (-48..=56).contains(&offset))`.
pub is_valid_offset : Option ℤ → Bool
is_valid_offset none = true
is_valid_offset (some offset) = leb_ℤ (negsuc 47) offset && leb_ℤ offset (pos 56)

pub is_valid : Timestamp → Bool
unfolding days_in_month is_valid_offset
is_valid t =
    leb min_year t.year
    && leb t.year max_year
    && (leb 1 t.day && leb t.day (days_in_month t.year t.month))
    && leb t.hour 23
    && leb t.minute 59
    && leb t.second 59
    && leb t.centis 99
    && is_valid_offset t.utc_offset_15min

-- `offset as u8` of an `i8`.
abbrev pub byte_of : ℤ → ℕ
byte_of (pos n) = u8 n
byte_of (negsuc n) = 255 - u8 n

pub encode_offset : Option ℤ → ℕ
encode_offset (some offset) = bit_or utc_offset_valid (bit_and (byte_of offset) 0x7F)
encode_offset none = 0

-- The fields from the year down, each over the bits of the next.
pub pack : Timestamp → ℕ
pack t =
    bit_or
      (bit_or
        (bit_or (bit_or (bit_or (shl32 (t.year - min_year) 25) (shl32 t.month 21)) (shl32 t.day 16))
          (shl32 t.hour 11))
        (shl32 t.minute 5))
      (shr t.second 1)

pub encode : Timestamp → EncodedTimestamp
unfolding pack encode_offset default_encoded
encode t = if not (is_valid t) then default_encoded else record {
  packed = pack t;
  increment_10ms = bit_and t.second 1 * 100 + t.centis;
  utc_offset = encode_offset t.utc_offset_15min;
}

-- A byte read as an `i8`, and the arithmetic shift of an `i8` to the right.
abbrev pub i8_of : ℕ → ℤ
i8_of b = if ltb b 128 then pos b else negsuc (255 - b)

abbrev pub shift_right_one : ℤ → ℤ
shift_right_one (pos n) = pos (n / 2)
shift_right_one (negsuc n) = negsuc (n / 2)

pub decode_offset : ℕ → Option ℤ
decode_offset offset =
    if not (bit_and offset utc_offset_valid == 0)
    then some (shift_right_one (i8_of (u8 (offset * 2))))
    else none

pub decode : EncodedTimestamp → Timestamp
unfolding decode_offset
decode encoded = record {
  year = u16 (shr packed 25) + min_year;
  month = bit_and (u8 (shr packed 21)) 0x0F;
  day = bit_and (u8 (shr packed 16)) 0x1F;
  hour = bit_and (u8 (shr packed 11)) 0x1F;
  minute = bit_and (u8 (shr packed 5)) 0x3F;
  second = u8 (bit_and (u8 packed) 0x1F * 2) + increment_10ms / 100;
  centis = increment_10ms % 100;
  utc_offset_15min = decode_offset utc_offset;
}
  where
    open encoded use {packed, increment_10ms, utc_offset}

-- `Timestamp::default`.
pub default_timestamp : Timestamp
unfolding decode default_encoded
default_timestamp = decode default_encoded
