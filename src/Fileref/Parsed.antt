-- ===== src/Fileref/Parsed.antt =====
-- `ParseKey` reads back what `Key.String` writes.
use declarion_sdk_go.Common.{
  ℕ, zero, suc, ◌≡◌, ◌↔◌, inl, inr, refl, subst, ◌∙◌, [], ◌∷◌, ◌++◌, Bool, true, false, not, ◌||◌,
  ltb, arith, take, Bool-cases, Option-cases,
}
use declarion_sdk_go.Common.Text.{Bytes}
use declarion_sdk_go.Common.Split.{occurs, split_on, split_on-part, split_on-last}
use declarion_sdk_go.Common.Result.{ok, err, ◌>>◌, fail_if}
use declarion_sdk_go.Platform.Stream.Utf8.{bytes_eq_iff}
use declarion_sdk_go.Fileref.Time.{UtcTime, format_time, is_after}
use declarion_sdk_go.Fileref.TimeText.{
  IsWhole, parse_time-format_time, format_time-plain, occurs-append,
}
use declarion_sdk_go.Fileref.RoundTrip.{string-parse_key}
use declarion_sdk_go.Fileref.{
  invalid_key, Key, valid_backend_name, backend_rest, hex_digit, encode_hex, decode_hex, is_digest,
  parse_exact, parse_partition_parts, parse_partition, partition, parse_key_parts, parse_key,
  valid_key_value, key_string,
}

parse_exact-format : (t : UtcTime) → IsWhole t → parse_exact (format_time t) ≡ ok t
unfolding parse_exact
parse_exact-format t h =
    rw (parse_time-format_time t h, (bytes_eq_iff (format_time t) (format_time t)).1 refl) refl

occurs-before :
    (b : ℕ) (s t : Bytes) → occurs b s ≡ false → occurs b t ≡ false → occurs b (s ++ t) ≡ false
occurs-before b s t h k = ground (arith, occurs-append b s t)

backend-plain : (s : Bytes) → backend_rest s ≡ true → occurs b'/' s ≡ false
unfolding backend_rest occurs
backend-plain [] h = refl
backend-plain (c ∷ s) h = ground (arith, backend-plain s)

valid_backend-plain : (s : Bytes) → valid_backend_name s ≡ true → occurs b'/' s ≡ false
unfolding valid_backend_name occurs
valid_backend-plain [] h = refl
valid_backend-plain (c ∷ s) h = ground (arith, backend-plain s)

encode_hex-plain : (s : Bytes) → occurs b'/' (encode_hex s) ≡ false
unfolding encode_hex occurs hex_digit
encode_hex-plain [] = refl
encode_hex-plain (b ∷ s) = ground (arith, encode_hex-plain s)

digest-plain : (s : Bytes) → is_digest s ≡ true → occurs b'/' s ≡ false
unfolding is_digest
digest-plain s h = elim (Option-cases (decode_hex s)) [
  | inl e ↦ ground (arith, e)
  | inr (d, e) ↦ ground (arith, e, bytes_eq_iff (encode_hex d) s, encode_hex-plain d)
]

take-plain : (n : ℕ) (s : Bytes) → occurs b'/' s ≡ false → occurs b'/' (take n s) ≡ false
unfolding occurs
take-plain zero s h = refl
take-plain (suc n) [] h = refl
take-plain (suc n) (c ∷ s) h = ground (arith, take-plain n s)

partition-plain :
    (key : Key)
    → IsWhole key.partition_start
    → IsWhole key.partition_end
    → occurs b'/' (partition key) ≡ false
unfolding partition
partition-plain key h k =
    occurs-before b'/' (format_time key.partition_start) (b'_' ∷ format_time key.partition_end)
      (format_time-plain key.partition_start b'/' h.2 (omega arith))
      (unfold occurs in ground (arith, format_time-plain key.partition_end b'/' k.2 (omega arith)))

parse_partition-partition :
    (key : Key)
    → IsWhole key.partition_start
    → IsWhole key.partition_end
    → parse_partition (partition key) ≡ (
        fail_if
          (not (is_after key.partition_end key.partition_start) || ltb key.partition_start.year 1)
          invalid_key
        >> ok (key.partition_start, key.partition_end))
unfolding parse_partition partition parse_partition_parts is_after
parse_partition-partition key h k =
    let start = key.partition_start in
    let end = key.partition_end in
    rw
      (
        split_on-part b'_' (format_time start) (format_time end)
            (format_time-plain start b'_' h.2 (inr (omega arith))),
        split_on-last b'_' (format_time end) (format_time-plain end b'_' k.2 (inr (omega arith))),
        parse_exact-format start h,
        parse_exact-format end k,
      )
      refl

-- what the partition of a valid key gives back
partition_parsed :
    (key : Key)
    → IsWhole key.partition_start
    → IsWhole key.partition_end
    → elim (parse_partition (partition key)) as (λ _. Bool) [ ok _ ↦ true | err _ ↦ false ] ≡ true
    → parse_partition (partition key) ≡ ok (key.partition_start, key.partition_end)
partition_parsed key h k valid =
    let e = parse_partition-partition key h k in
    let refused =
      not (is_after key.partition_end key.partition_start) || ltb key.partition_start.year 1 in
    elim (Bool-cases refused) [
      | inl r ↦ absurd (ground (arith, rw (e, r) at valid))
      | inr r ↦ e ∙ rw r refl
    ]

valid_fields :
    (canonical_uuid : Bytes → Bool) (key : Key)
    → valid_key_value canonical_uuid key ≡ true
    → (valid_backend_name key.backend ≡ true)
      × (canonical_uuid key.tenant_id ≡ true)
      × (is_digest key.sha256 ≡ true)
      × (elim (parse_partition (partition key)) as (λ _. Bool) [ ok _ ↦ true | err _ ↦ false ]
          ≡ true)
unfolding valid_key_value
valid_fields canonical_uuid key valid = (ground arith, ground arith, ground arith, ground arith)

module _ (canonical_uuid : Bytes → Bool)
    (uuid_plain : (u : Bytes) → canonical_uuid u ≡ true → occurs b'/' u ≡ false) where
  split-key_string :
      (key : Key)
      → IsWhole key.partition_start
      → IsWhole key.partition_end
      → valid_key_value canonical_uuid key ≡ true
      → split_on b'/' (key_string canonical_uuid key)
        ≡ key.backend ∷ partition key ∷ take 2 key.sha256 ∷ key.tenant_id ∷ key.sha256 ∷ []
  unfolding key_string
  split-key_string key h k valid =
      let fields = valid_fields canonical_uuid key valid in
      let digest = digest-plain key.sha256 fields.2 in
      let shard = take 2 key.sha256 in
      let at_tenant = key.tenant_id ++ (b'/' ∷ key.sha256) in
      let at_shard = shard ++ (b'/' ∷ at_tenant) in
      rw
        (
          valid,
          split_on-part b'/' key.backend (partition key ++ (b'/' ∷ at_shard))
              (valid_backend-plain key.backend fields.0),
          split_on-part b'/' (partition key) at_shard (partition-plain key h k),
          split_on-part b'/' shard at_tenant (take-plain 2 key.sha256 digest),
          split_on-part b'/' key.tenant_id key.sha256 (uuid_plain key.tenant_id fields.1),
          split_on-last b'/' key.sha256 digest,
        )
        refl

  parse_key-string :
      (key : Key)
      → IsWhole key.partition_start
      → IsWhole key.partition_end
      → valid_key_value canonical_uuid key ≡ true
      → parse_key canonical_uuid (key_string canonical_uuid key) ≡ ok key
  unfolding parse_key parse_key_parts
  parse_key-string key h k valid =
      let fields = valid_fields canonical_uuid key valid in
      let shard = take 2 key.sha256 in
      rw
        (
          split-key_string key h k valid,
          fields.0,
          partition_parsed key h k fields.3,
          fields.1,
          fields.2,
          (bytes_eq_iff shard shard).1 refl,
        )
        refl

  -- For a valid key whose two times are of whole seconds in years of four digits, `ParseKey` gives
  -- this key for exactly the text that `Key.String` writes. A canonical UUID has no slash.
  pub parse_key_iff :
      (key : Key) (text : Bytes)
      → IsWhole key.partition_start
      → IsWhole key.partition_end
      → valid_key_value canonical_uuid key ≡ true
      → (parse_key canonical_uuid text ≡ ok key) ↔ (key_string canonical_uuid key ≡ text)
  parse_key_iff key text h k valid = (
    string-parse_key canonical_uuid text key,
    λ e. subst (λ t. parse_key canonical_uuid t ≡ ok key) e (parse_key-string key h k valid),
  )
