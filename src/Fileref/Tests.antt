-- ===== src/Fileref/Tests.antt =====
-- A key of one hour, its text, and texts that no key has.
use declarion_sdk_go.Common.{◌≡◌, ◌↔◌, refl, ℕ, [], ◌∷◌, Bool, true, false, not, arith}
use declarion_sdk_go.Common.Int.{pos, negsuc}
use declarion_sdk_go.Common.Text.{Bytes, codes}
use declarion_sdk_go.Common.Split.{occurs, split_on}
use declarion_sdk_go.Common.Result.{ok, err}
use declarion_sdk_go.Platform.Stream.Utf8.{bytes_eq}
use declarion_sdk_go.Fileref.Time.{
  UtcTime, is_time, days_in, parse_time, format_time, year_digits, two_digits, read_two, read_byte,
  read_fields, in_range, is_after, later, leading_digits,
}
use declarion_sdk_go.Fileref.Parsed.{parse_key_iff}
use declarion_sdk_go.Fileref.{
  invalid_key, size_mismatch, digest_mismatch, Key, parse_key, key_string, valid_key_value,
  valid_backend_name, backend_rest, is_digest, decode_hex, hex_value, encode_hex, hex_digit,
  parse_partition, parse_partition_parts, parse_exact, partition, verify_content,
}

abbrev no_slash : Bytes → Bool
no_slash u = not (occurs b'/' u)

no_slash_plain : (u : Bytes) → no_slash u ≡ true → occurs b'/' u ≡ false
no_slash_plain u h = ground arith

abbrev at_hour : ℕ → UtcTime
at_hour h = record {
  year = 2024;
  month = 2;
  day = 29;
  hour = h;
  minute = 0;
  second = 0;
  nanosecond = 0;
}

abbrev digest_text : Bytes
digest_text = codes "9f86d081884c7d659a2feaa0c55ad015a3bf4f1b2b0b822cd15d6c15b0f00a08"

abbrev stored : Key
stored = record {
  backend = codes "s3-main";
  partition_start = at_hour 9;
  partition_end = at_hour 10;
  tenant_id = codes "0b4cc1ae-7d07-4f52-8d0c-0f0a4c6f1a01";
  sha256 = digest_text;
}

abbrev stored_text : Bytes
stored_text =
    codes
      "s3-main/20240229T090000Z_20240229T100000Z/9f/0b4cc1ae-7d07-4f52-8d0c-0f0a4c6f1a01/9f86d081884c7d659a2feaa0c55ad015a3bf4f1b2b0b822cd15d6c15b0f00a08"

stored_valid : valid_key_value no_slash stored ≡ true
unfolding valid_key_value valid_backend_name backend_rest occurs is_digest decode_hex hex_value
    encode_hex hex_digit bytes_eq parse_partition partition split_on parse_partition_parts
    parse_exact parse_time format_time year_digits two_digits read_two read_byte read_fields
    in_range is_time days_in is_after later leading_digits
stored_valid = refl

hour_is_time : (is_time (at_hour 9) ≡ true) × (is_time (at_hour 10) ≡ true)
unfolding is_time days_in
hour_is_time = (refl, refl)

parse_key_iff_example :
    (parse_key no_slash stored_text ≡ ok stored) ↔ (key_string no_slash stored ≡ stored_text)
parse_key_iff_example =
    parse_key_iff no_slash no_slash_plain stored stored_text (hour_is_time.0, refl, omega arith)
      (hour_is_time.1, refl, omega arith) stored_valid

-- no leap year, an hour of one digit, and an end that is not after the start
bad_partitions :
    (parse_partition (codes "20230229T090000Z_20240229T100000Z") ≡ err invalid_key)
    × (parse_partition (codes "20240229T90000Z_20240229T100000Z") ≡ err invalid_key)
    × (parse_partition (codes "20240229T090000Z_20240229T090000Z") ≡ err invalid_key)
unfolding bytes_eq parse_partition split_on parse_partition_parts parse_exact parse_time format_time
    year_digits two_digits read_two read_byte read_fields in_range is_time days_in is_after later
    leading_digits
bad_partitions = (refl, refl, refl)

-- a content of another size, a negative size, and a digest in upper case
contents :
    (verify_content (λ _. 171 ∷ []) (1 ∷ []) (pos 2) (codes "ab") ≡ err size_mismatch)
    × (verify_content (λ _. 171 ∷ []) (1 ∷ []) (negsuc 0) (codes "ab") ≡ err size_mismatch)
    × (verify_content (λ _. 171 ∷ []) (1 ∷ []) (pos 1) (codes "AB") ≡ err digest_mismatch)
unfolding verify_content is_digest decode_hex hex_value encode_hex hex_digit bytes_eq
contents = (refl, refl, refl)
