-- ===== src/Fileref/RoundTrip.antt =====
-- `ParseKey` and `Key.String` undo one another.
use declarion_sdk_go.Common.{
  ◌≡◌, inl, inr, sym, ap, ◌∙◌, List, [], ◌∷◌, ◌++◌, Bool, true, arith, take, Option-cases,
}
use declarion_sdk_go.Common.Text.{Bytes}
use declarion_sdk_go.Common.Split.{split_on, join_with, join_with-split_on}
use declarion_sdk_go.Common.Result.{ok, Result-cases}
use declarion_sdk_go.Platform.Stream.Utf8.{bytes_eq_iff}
use declarion_sdk_go.Fileref.Time.{UtcTime, parse_time, format_time}
use declarion_sdk_go.Fileref.{
  Key, parse_exact, parse_partition_parts, parse_partition, partition, parse_key_parts, parse_key,
  valid_key_value, key_string,
}

format-parse_exact : (text : Bytes) (t : UtcTime) → parse_exact text ≡ ok t → format_time t ≡ text
unfolding parse_exact
format-parse_exact text t h = elim (Option-cases (parse_time text)) [
  | inl e ↦ ground (arith, e)
  | inr (u, e) ↦ ground (arith, e, bytes_eq_iff (format_time u) text)
]

abbrev joined_times : UtcTime → UtcTime → Bytes
joined_times start end = format_time start ++ (b'_' ∷ format_time end)

two_parts :
    (parts : List Bytes) (start end : UtcTime)
    → parse_partition_parts parts ≡ ok (start, end)
    → parts ≡ format_time start ∷ format_time end ∷ []
unfolding parse_partition_parts
two_parts [] start end h = absurd (ground arith)
two_parts (a ∷ []) start end h = absurd (ground arith)
two_parts (a ∷ b ∷ c ∷ parts) start end h = absurd (ground arith)
two_parts (a ∷ b ∷ []) start end h = elim (Result-cases (parse_exact a)) [
  | inr (e, p) ↦ absurd (ground (arith, p))
  | inl (x, p) ↦ elim (Result-cases (parse_exact b)) [
    | inr (e, q) ↦ absurd (ground (arith, p, q))
    | inl (y, q) ↦ ground (arith, p, q, format-parse_exact a x p, format-parse_exact b y q)
  ]
]

format-parse_partition :
    (text : Bytes) (start end : UtcTime)
    → parse_partition text ≡ ok (start, end)
    → joined_times start end ≡ text
unfolding parse_partition
format-parse_partition text start end h =
    unfold join_with in
    ap (join_with b'_') (sym (two_parts (split_on b'_' text) start end h))
    ∙ join_with-split_on b'_' text

module _ (canonical_uuid : Bytes → Bool) where
  abbrev key_parts : Key → List Bytes
  key_parts key = key.backend ∷ partition key ∷ take 2 key.sha256 ∷ key.tenant_id ∷ key.sha256 ∷ []

  five_parts :
      (parts : List Bytes) (key : Key)
      → parse_key_parts canonical_uuid parts ≡ ok key
      → (parts ≡ key_parts key) × (valid_key_value canonical_uuid key ≡ true)
  unfolding parse_key_parts valid_key_value partition
  five_parts (b ∷ p ∷ sh ∷ t ∷ d ∷ []) key h = elim (Result-cases (parse_partition p)) [
    | inr (e, q) ↦ absurd (ground (arith, q))
    | inl ((start, end), q) ↦
        ground (arith, q, format-parse_partition p start end q, bytes_eq_iff sh (take 2 d))
  ]
  five_parts [] key h = absurd (ground arith)
  five_parts (b ∷ []) key h = absurd (ground arith)
  five_parts (b ∷ p ∷ []) key h = absurd (ground arith)
  five_parts (b ∷ p ∷ sh ∷ []) key h = absurd (ground arith)
  five_parts (b ∷ p ∷ sh ∷ t ∷ []) key h = absurd (ground arith)
  five_parts (b ∷ p ∷ sh ∷ t ∷ d ∷ e ∷ parts) key h = absurd (ground arith)

  -- A text that `ParseKey` accepts is the text of the key that it gives.
  pub string-parse_key :
      (text : Bytes) (key : Key)
      → parse_key canonical_uuid text ≡ ok key
      → key_string canonical_uuid key ≡ text
  unfolding parse_key key_string
  string-parse_key text key h =
      let (parts, valid) = five_parts (split_on b'/' text) key h in
      rw valid (unfold join_with in ap (join_with b'/') (sym parts) ∙ join_with-split_on b'/' text)
