-- ===== src/Platform/References/Verified.antt =====
-- What is known of a content that a read gives.
use declarion_sdk_go.Common.{
  ℕ, zero, suc, ◌≤◌, ◌≡◌, inl, inr, refl, subst, List, [], ◌∷◌, String, Bool, true, false, ltb,
  length, take, arith, Bool-cases,
}
use declarion_sdk_go.Common.Int.{ℤ, pos, pos_part}
use declarion_sdk_go.Common.Text.{Bytes}
use declarion_sdk_go.Common.Result.{ok, Result-cases}
use declarion_sdk_go.Errs.{Link, Error}
use declarion_sdk_go.Platform.Stream.Utf8.{bytes_eq_iff}
use declarion_sdk_go.Fileref.{Key, parse_key, verify_content, encode_hex}
use declarion_sdk_go.Platform.References.{
  StoredBody, Sent, not_sent, answered, read_limited, is_success, read_content, read_file_reference,
  refused_read, verified_read, whole_answer,
}

take_all : {A : Type 0} (n : ℕ) (xs : List A) → length xs ≤ n → take n xs ≡ xs
take_all zero [] h = refl
take_all zero (x ∷ xs) h = absurd (omega (arith, h))
take_all (suc n) [] h = refl
take_all (suc n) (x ∷ xs) h = ground (arith, take_all n xs (omega (arith, h)))

length-take_exact : {A : Type 0} (n : ℕ) (xs : List A) → n ≤ length xs → length (take n xs) ≡ n
length-take_exact zero xs h = refl
length-take_exact (suc n) [] h = absurd (omega (arith, h))
length-take_exact (suc n) (x ∷ xs) h = ground (arith, length-take_exact n xs (omega (arith, h)))

-- A content that is read is the whole body, which did not break off, within the limit.
abbrev pub IsWholeBody : StoredBody → ℕ → Bytes → Type 0
IsWholeBody body limit content =
    (content ≡ body.content) × (length body.content ≤ limit) × (body.breaks_off ≡ false)

verified-digest :
    (sha256 : Bytes → Bytes) (content digest : Bytes) {done : Unit}
    → verify_content sha256 content (pos 0) digest ≡ ok done
    → encode_hex (sha256 content) ≡ digest
unfolding verify_content
verified-digest sha256 content digest h =
    ground (arith, h, bytes_eq_iff (encode_hex (sha256 content)) digest)

module _ {V : Type 0} (error_of : ℤ → Bytes → (path content_type : String) → Error V) where
  read_content-whole :
      (status : ℤ) (body : StoredBody) (limit : ℕ) {content : Bytes}
      → read_content error_of status body limit ≡ ok content
      → IsWholeBody body limit content
  unfolding read_content read_limited
  read_content-whole status body limit {content} h =
      elim (Bool-cases (ltb (length body.content) limit)) [
        | inl short ↦ ground (arith, h, short, take_all limit body.content (ground (arith, short)))
        | inr long ↦ ground (
          arith,
          h,
          long,
          length-take_exact limit body.content (ground (arith, long)),
          take_all limit body.content,
        )
      ]

  refused_read-fails :
      (status : ℤ) (body : StoredBody) (content_type : String) {content : Bytes}
      → refused_read error_of status body content_type ≡ ok content
      → ⊥
  unfolding refused_read
  refused_read-fails status body content_type h =
      elim (Result-cases (whole_answer {V = V} status body)) [
        | inl (refusal, e) ↦ absurd (ground (arith, rw e at h))
        | inr (e, p) ↦ absurd (ground (arith, rw p at h))
      ]

  verified_read-whole :
      (sha256 : Bytes → Bytes) (parsed : Key) (status : ℤ) (body : StoredBody) (limit : ℕ)
      {content : Bytes}
      → verified_read error_of sha256 parsed status body limit ≡ ok content
      → (encode_hex (sha256 content) ≡ parsed.sha256) × IsWholeBody body limit content
  unfolding verified_read
  verified_read-whole sha256 parsed status body limit {content} h =
      elim (Result-cases (read_content error_of status body limit)) [
        | inr (e, p) ↦ absurd (ground (arith, rw p at h))
        | inl (read, p) ↦ elim (Result-cases (verify_content sha256 read (pos 0) parsed.sha256)) [
          | inr (e, q) ↦ absurd (ground (arith, h, p, q))
          | inl (_, q) ↦
              let is : read ≡ content = ground (arith, h, p, q) in
              subst (λ c. (encode_hex (sha256 c) ≡ parsed.sha256) × IsWholeBody body limit c) is
                (
                  verified-digest sha256 read parsed.sha256 q,
                  read_content-whole status body limit p,
                )
        ]
      ]

  not_sent_fails :
      (canonical_uuid : Bytes → Bool) (sha256 : Bytes → Bytes) (e : List (Link V)) (key : Bytes)
      (max_bytes : ℤ) {content : Bytes}
      → read_file_reference error_of canonical_uuid sha256 (not_sent e) key max_bytes ≡ ok content
      → ⊥
  unfolding read_file_reference
  not_sent_fails canonical_uuid sha256 e key max_bytes h =
      elim (Result-cases (parse_key canonical_uuid key)) [
        | inr (e', p) ↦ absurd (ground (arith, h, p))
        | inl (parsed, p) ↦ absurd (ground (arith, h, p))
      ]

  -- A content that `ReadFileReferenceRuntime` returns is the whole body of a successful answer, which
  -- did not break off, is no longer than the limit, and has the digest that the key names.
  pub read_file_reference-verified :
      (canonical_uuid : Bytes → Bool) (sha256 : Bytes → Bytes) (sent : Sent V) (key : Bytes)
      (max_bytes : ℤ) (content : Bytes)
      → read_file_reference error_of canonical_uuid sha256 sent key max_bytes ≡ ok content
      → (parsed : Key) × (parse_key canonical_uuid key ≡ ok parsed)
        × (encode_hex (sha256 content) ≡ parsed.sha256)
        × (status : ℤ) × (body : StoredBody) × (content_type : String) × (sent
            ≡ answered status body content_type)
        × (is_success status ≡ true)
        × IsWholeBody body (pos_part max_bytes) content
  unfolding read_file_reference
  read_file_reference-verified canonical_uuid sha256 (not_sent e) key max_bytes content h =
      absurd (not_sent_fails canonical_uuid sha256 e key max_bytes h)
  read_file_reference-verified canonical_uuid sha256 (answered status body content_type) key
        max_bytes content h =
      elim (Result-cases (parse_key canonical_uuid key)) [
        | inr (e, p) ↦ absurd (ground (arith, h, p))
        | inl (parsed, p) ↦ elim (Bool-cases (is_success status)) [
          | inr failed ↦ absurd (
              refused_read-fails status body content_type {content = content}
                (ground (arith, h, p, failed)))
          | inl fine ↦
              let (digest, whole) =
                verified_read-whole sha256 parsed status body (pos_part max_bytes)
                  {content = content} (ground (arith, h, p, fine)) in
              (parsed, p, digest, status, body, content_type, refl, fine, whole)
        ]
      ]
