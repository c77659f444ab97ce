-- ===== src/Fileref.antt =====
-- fileref/key.go: the key of a stored file, its text, and the check of a content.
--
-- A `time.Time` is the reading of its clock in UTC, from the year 0 on; `is_time` says that the
-- reading is one. Of the texts that `time.Parse` accepts for the layout, `parse_time` reads those
-- of the layout's own width, since the others (an hour of one digit, a fraction of a second) fail
-- the comparison with `Format` that follows every `Parse`. `canonical_uuid` is `uuid.Parse` with
-- the comparison of its `String`; `sha256` is the digest of crypto/sha256. `NewKey` needs the
-- calendar's arithmetic and is left out.
pub mod Time
pub mod TimeText
pub mod RoundTrip
pub mod Parsed
mod Tests
use declarion_sdk_go.Common.{
  ℕ, ◌+◌, ◌-◌, ◌*◌, ◌/◌, ◌%◌, Option, none, some, List, [], ◌∷◌, ◌++◌, Bool, true, false, not, ◌&&◌,
  ◌||◌, leb, ltb, nat_eq, if◌then◌else◌, length, take,
}
use declarion_sdk_go.Common.Int.{ℤ, pos, negsuc, ltb_ℤ, eq_ℤ}
use declarion_sdk_go.Common.Text.{Bytes, is_digit}
use declarion_sdk_go.Common.Split.{split_on}
use declarion_sdk_go.Common.Result.{Result, ok, err, ◌>>=◌, ◌>>◌, fail_if, or_fail}
use declarion_sdk_go.Platform.Stream.Utf8.{bytes_eq}
use declarion_sdk_go.Fileref.Time.{UtcTime, parse_time, format_time, is_after}

-- `ErrInvalidKey`, `ErrSizeMismatch` and `ErrDigestMismatch`
pub data KeyError : Type 0 where
  invalid_key size_mismatch digest_mismatch : KeyError

pub record Key : Type 0 where
  pub backend : Bytes
  pub partition_start : UtcTime
  pub partition_end : UtcTime
  pub tenant_id : Bytes
  pub sha256 : Bytes

abbrev is_alphanumeric : ℕ → Bool
is_alphanumeric c = leb b'a' c && leb c b'z' || leb b'A' c && leb c b'Z' || is_digit c

unfoldable pub backend_rest : Bytes → Bool
backend_rest [] = true
backend_rest (c ∷ s) = (is_alphanumeric c || nat_eq c b'_' || nat_eq c b'-') && backend_rest s

-- `ValidBackendName`
unfoldable pub valid_backend_name : Bytes → Bool
valid_backend_name [] = false
valid_backend_name (c ∷ s) = is_alphanumeric c && backend_rest s

-- the value of a hexadecimal digit, of either case
unfoldable pub hex_value : ℕ → Option ℕ
hex_value c =
    if is_digit c
    then some (c - b'0')
    else if leb b'a' c && leb c b'f'
    then some (c - b'a' + 10)
    else if leb b'A' c && leb c b'F'
    then some (c - b'A' + 10)
    else none

-- `hex.DecodeString`
unfoldable pub decode_hex : Bytes → Option Bytes
decode_hex [] = some []
decode_hex (c ∷ []) = none
decode_hex (c ∷ d ∷ s) = elim (hex_value c) [
  | none ↦ none
  | some high ↦ elim (hex_value d) [
    | none ↦ none
    | some low ↦ elim (decode_hex s) [ none ↦ none | some rest ↦ some ((high * 16 + low) ∷ rest) ]
  ]
]

-- the digit of a value below 16
unfoldable pub hex_digit : ℕ → ℕ
hex_digit v = if ltb v 10 then b'0' + v else b'a' + (v - 10)

-- `hex.EncodeToString`
unfoldable pub encode_hex : Bytes → Bytes
encode_hex [] = []
encode_hex (b ∷ s) = hex_digit (b / 16) ∷ hex_digit (b % 16) ∷ encode_hex s

-- a digest of 32 bytes in lower case
unfoldable pub is_digest : Bytes → Bool
is_digest s = elim (decode_hex s) [
  | none ↦ false
  | some digest ↦ nat_eq (length digest) 32 && bytes_eq (encode_hex digest) s
]

-- one time of a partition: `Parse`, and `Format` giving the text back
unfoldable pub parse_exact : Bytes → Result KeyError UtcTime
parse_exact text = do
  t ← or_fail (parse_time text) invalid_key
  fail_if (not (bytes_eq (format_time t) text)) invalid_key
  ok t

-- `ParsePartition`
unfoldable pub parse_partition_parts : List Bytes → Result KeyError (UtcTime × UtcTime)
parse_partition_parts [] = err invalid_key
parse_partition_parts (_ ∷ []) = err invalid_key
parse_partition_parts (first ∷ second ∷ _ ∷ _) = err invalid_key
parse_partition_parts (first ∷ second ∷ []) = do
  start ← parse_exact first
  end ← parse_exact second
  fail_if (not (is_after end start) || ltb start.year 1) invalid_key
  ok (start, end)

unfoldable pub parse_partition : Bytes → Result KeyError (UtcTime × UtcTime)
parse_partition value = parse_partition_parts (split_on b'_' value)

-- `Key.Partition`
unfoldable pub partition : Key → Bytes
partition key = format_time key.partition_start ++ (b'_' ∷ format_time key.partition_end)

-- `VerifyContent`
unfoldable pub verify_content :
    (sha256 : Bytes → Bytes)
    → (content : Bytes) → (expected_size : ℤ) → (expected_sha256 : Bytes) → Result KeyError Unit
verify_content sha256 content expected_size expected_sha256 = do
  fail_if (ltb_ℤ expected_size (pos 0)) size_mismatch
  fail_if (ltb_ℤ (pos 0) expected_size && not (eq_ℤ (pos (length content)) expected_size))
      size_mismatch
  fail_if (not (is_digest expected_sha256)) digest_mismatch
  fail_if (not (bytes_eq (encode_hex (sha256 content)) expected_sha256)) digest_mismatch
  ok tt

module _ (canonical_uuid : Bytes → Bool) where
  unfoldable pub parse_key_parts : List Bytes → Result KeyError Key
  parse_key_parts (backend ∷ part ∷ shard ∷ tenant ∷ digest ∷ []) = do
    fail_if (not (valid_backend_name backend)) invalid_key
    (start, end) ← parse_partition part
    fail_if (not (canonical_uuid tenant)) invalid_key
    fail_if (not (is_digest digest) || not (bytes_eq shard (take 2 digest))) invalid_key
    ok (record {
      backend = backend;
      partition_start = start;
      partition_end = end;
      tenant_id = tenant;
      sha256 = digest;
    })
  parse_key_parts _ = err invalid_key

  -- `ParseKey`
  unfoldable pub parse_key : Bytes → Result KeyError Key
  parse_key value = parse_key_parts (split_on b'/' value)

  -- `validKeyValue`
  unfoldable pub valid_key_value : Key → Bool
  valid_key_value key =
      valid_backend_name key.backend
      && canonical_uuid key.tenant_id
      && is_digest key.sha256
      && elim (parse_partition (partition key)) [ ok _ ↦ true | err _ ↦ false ]

  -- `Key.String`: empty where a field is invalid
  unfoldable pub key_string : Key → Bytes
  key_string key =
      if valid_key_value key
      then key.backend
        ++ (b'/' ∷ partition key
            ++ (b'/' ∷ take 2 key.sha256 ++ (b'/' ∷ key.tenant_id ++ (b'/' ∷ key.sha256))))
      else []
