-- ===== src/Platform/References/Tests.antt =====
-- A stored content of two bytes under a digest of zeros, a limit that it exceeds, and the checks of
-- an argument.
use declarion_sdk_go.Common.{◌≡◌, refl, ℕ, [], ◌∷◌, String, string_Eq, Bool, true, false, not}
use declarion_sdk_go.Common.Int.{ℤ, pos, pos_part}
use declarion_sdk_go.Common.Text.{Bytes, codes}
use declarion_sdk_go.Common.Split.{occurs, split_on}
use declarion_sdk_go.Common.Result.{ok, err}
use declarion_sdk_go.Errs.{Error, raise}
use declarion_sdk_go.Platform.Call.{ArgsReference}
use declarion_sdk_go.Platform.Stream.Utf8.{bytes_eq}
use declarion_sdk_go.Fileref.Time.{
  is_time, days_in, parse_time, format_time, year_digits, two_digits, read_two, read_byte,
  read_fields, in_range, is_after, later, leading_digits,
}
use declarion_sdk_go.Fileref.{
  Key, parse_key, parse_key_parts, valid_backend_name, backend_rest, is_digest, decode_hex,
  hex_value, encode_hex, hex_digit, parse_partition, parse_partition_parts, parse_exact,
  verify_content,
}
use declarion_sdk_go.Platform.References.{
  StoredBody, Sent, answered, over_read_limit, bad_bounds, foreign_tenant, is_success, read_limited,
  read_content, verified_read, read_file_reference, validate_args_reference,
}
use declarion_sdk_go.Platform.References.Verified.{IsWholeBody, read_file_reference-verified}

abbrev error_of : ℤ → Bytes → (path content_type : String) → Error ℕ
error_of status body path content_type = raise [] "transport.unreadable_response" []

abbrev no_slash : Bytes → Bool
no_slash u = not (occurs b'/' u)

abbrev zeros : Bytes → Bytes
zeros _ =
    0 ∷ 0 ∷ 0 ∷ 0 ∷ 0 ∷ 0 ∷ 0 ∷ 0 ∷ 0 ∷ 0 ∷ 0 ∷ 0 ∷ 0 ∷ 0 ∷ 0 ∷ 0 ∷ 0 ∷ 0 ∷ 0 ∷ 0 ∷ 0 ∷ 0 ∷ 0 ∷ 0
    ∷ 0 ∷ 0 ∷ 0 ∷ 0 ∷ 0 ∷ 0 ∷ 0 ∷ 0 ∷ []

abbrev key_text : String
key_text =
    "s3/00010101T000000Z_00010101T000001Z/00/tenant-1/0000000000000000000000000000000000000000000000000000000000000000"

abbrev two_bytes : Sent ℕ
two_bytes =
    answered (pos 200) (record { content = 7 ∷ 8 ∷ []; breaks_off = false })
      "application/octet-stream"

reads :
    read_file_reference error_of no_slash zeros two_bytes (codes key_text) (pos 2) ≡ ok (7 ∷ 8 ∷ [])
unfolding read_file_reference verified_read read_content read_limited verify_content parse_key
    parse_key_parts valid_backend_name backend_rest occurs is_digest decode_hex hex_value encode_hex
    hex_digit bytes_eq parse_partition split_on parse_partition_parts parse_exact parse_time
    format_time year_digits two_digits read_two read_byte read_fields in_range is_time days_in
    is_after later leading_digits
reads = refl

read_file_reference-verified_example :
    (parsed : Key) × (parse_key no_slash (codes key_text) ≡ ok parsed)
    × (encode_hex (zeros (7 ∷ 8 ∷ [])) ≡ parsed.sha256)
    × (status : ℤ) × (body : StoredBody) × (content_type : String) × (two_bytes
        ≡ answered status body content_type)
    × (is_success status ≡ true)
    × IsWholeBody body (pos_part (pos 2)) (7 ∷ 8 ∷ [])
read_file_reference-verified_example =
    read_file_reference-verified error_of no_slash zeros two_bytes (codes key_text) (pos 2)
      (7 ∷ 8 ∷ []) reads

too_long :
    read_file_reference error_of no_slash zeros two_bytes (codes key_text) (pos 1)
    ≡ err over_read_limit
unfolding read_file_reference verified_read read_content read_limited parse_key parse_key_parts
    valid_backend_name backend_rest occurs is_digest decode_hex hex_value encode_hex hex_digit
    bytes_eq parse_partition split_on parse_partition_parts parse_exact parse_time format_time
    year_digits two_digits read_two read_byte read_fields in_range is_time days_in is_after later
    leading_digits
too_long = refl

abbrev argument : ArgsReference
argument = record {
  entity_code = "document";
  field_code = "body";
  key = key_text;
  size_bytes = pos 2;
  json_pointer = "/input";
}

of_another_tenant :
    validate_args_reference no_slash argument "tenant-2" (pos 10) ≡ err foreign_tenant
unfolding validate_args_reference parse_key parse_key_parts valid_backend_name backend_rest occurs
    is_digest decode_hex hex_value encode_hex hex_digit bytes_eq parse_partition split_on
    parse_partition_parts parse_exact parse_time format_time year_digits two_digits read_two
    read_byte read_fields in_range is_time days_in is_after later leading_digits
of_another_tenant = refl

too_large_argument : validate_args_reference no_slash argument "tenant-1" (pos 1) ≡ err bad_bounds
unfolding validate_args_reference
too_large_argument = refl
