-- ===== src/Timestamp/Tests.antt =====
-- The tests of src/timestamp.rs, and the theorems at their inputs.
use exfat_slim.Base.{◌<◌, ◌≤◌, ◌^◌, ◌≡◌, refl, some}
use exfat_slim.Base.Int.{negsuc}
use exfat_slim.Timestamp.{Timestamp, encode, decode, is_valid, default_encoded, default_timestamp}
use exfat_slim.Timestamp.RoundTrip.{decode-encode, encode_fits}

-- An odd second, a centisecond and a negative offset (UTC-5).
abbrev difficult : Timestamp
difficult = record {
  year = 2026;
  month = 8;
  day = 11;
  hour = 14;
  minute = 30;
  second = 37;
  centis = 25;
  utc_offset_15min = some (negsuc 19);
}

difficult_bytes : ((encode difficult).increment_10ms ≡ 125) × ((encode difficult).utc_offset ≡ 0xEC)
unfolding encode is_valid
difficult_bytes = (refl, refl)

min_timestamp_is_epoch : encode default_timestamp ≡ default_encoded
unfolding encode is_valid default_timestamp
min_timestamp_is_epoch = refl

decode-encode_example : decode (encode difficult) ≡ difficult
unfolding is_valid
decode-encode_example = decode-encode difficult refl

encode_fits_example :
    ((encode difficult).packed < 2 ^ 32)
    × ((encode difficult).increment_10ms ≤ 199)
    × ((encode difficult).utc_offset < 2 ^ 8)
encode_fits_example = encode_fits difficult
