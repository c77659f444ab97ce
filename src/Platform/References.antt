-- ===== src/Platform/References.antt =====
-- platform/references.go and platform/argument_reference.go: reading and uploading a stored file, and
-- the check of an argument that stands in one. A body is its bytes and whether its reading breaks
-- off behind them. `sha256` and `canonical_uuid` are as in fileref/.
pub mod Verified
mod Tests
use declarion_sdk_go.Common.{
  ℕ, ◌+◌, ◌≡◌, Option, none, some, List, [], ◌∷◌, String, string_Eq, Bool, true, false, not, ◌&&◌,
  ◌||◌, ◌==◌, ltb, leb, nat_eq, if◌then◌else◌, length, take,
}
use declarion_sdk_go.Common.Int.{ℤ, pos, pos_part, ltb_ℤ, leb_ℤ}
use declarion_sdk_go.Common.Text.{Bytes, codes}
use declarion_sdk_go.Common.Result.{Result, ok, err, ◌>>=◌, ◌>>◌, fail_if, or_fail}
use declarion_sdk_go.Errs.{Link, Error}
use declarion_sdk_go.Platform.Call.{ArgsReference}
use declarion_sdk_go.Platform.Stream.Utf8.{bytes_eq}
use declarion_sdk_go.Fileref.{KeyError, Key, parse_key, verify_content}

pub record StoredBody : Type 0 where
  pub content : Bytes
  pub breaks_off : Bool

-- what came of a request that was made
pub data Sent (V : Type 0) : Type 0 where
  not_sent : List (Link V) → Sent V
  answered : (status : ℤ) → StoredBody → (content_type : String) → Sent V

pub data ReferenceError (V : Type 0) : Type 0 where
  limit_not_positive over_read_limit undecodable_receipt : ReferenceError V
  bad_key bad_content : KeyError → ReferenceError V
  no_response : List (Link V) → ReferenceError V
  unreadable : (status : ℤ) → (over_limit : Bool) → ReferenceError V
  not_success : Error V → ReferenceError V

-- `MaxResponseSize`
abbrev pub max_response_size : ℕ
max_response_size = 104857600

-- `io.ReadAll(io.LimitReader(body, limit))`
unfoldable pub read_limited : StoredBody → (limit : ℕ) → Option Bytes
read_limited body limit =
    if ltb (length body.content) limit && body.breaks_off
    then none
    else some (take limit body.content)

abbrev pub is_success : ℤ → Bool
is_success status = leb_ℤ (pos 200) status && ltb_ℤ status (pos 300)

-- The reading of a whole answer, up to the largest response.
unfoldable pub whole_answer :
    {V : Type 0} → (status : ℤ) → StoredBody → Result (ReferenceError V) Bytes
whole_answer status body = do
  content ← or_fail (read_limited body (max_response_size + 1)) (unreadable status false)
  fail_if (ltb max_response_size (length content)) (unreadable status true)
  ok content

module _ {V : Type 0} (error_of : ℤ → Bytes → (path content_type : String) → Error V) where
  -- `UploadFileReference` behind the request
  unfoldable pub upload_file_reference :
      {A : Type 0} → (unmarshal : Bytes → Option A) → Sent V → Result (ReferenceError V) A
  upload_file_reference unmarshal (not_sent e) = err (no_response e)
  upload_file_reference unmarshal (answered status body content_type) = do
    content ← whole_answer status body
    fail_if (not (is_success status))
        (not_success (error_of status content "/api/files/references/upload" content_type))
    or_fail (unmarshal content) undecodable_receipt

  -- the content of an answer that is a success
  unfoldable pub read_content :
      (status : ℤ) → StoredBody → (max_bytes : ℕ) → Result (ReferenceError V) Bytes
  read_content status body max_bytes = do
    content ← or_fail (read_limited body max_bytes) (unreadable status false)
    fail_if (nat_eq (length content) max_bytes && ltb max_bytes (length body.content))
        over_read_limit
    fail_if (nat_eq (length content) max_bytes && body.breaks_off) (unreadable status false)
    ok content

  -- the answer is no success
  unfoldable pub refused_read :
      (status : ℤ) → StoredBody → (content_type : String) → Result (ReferenceError V) Bytes
  refused_read status body content_type = do
    refusal ← whole_answer status body
    err (not_success (error_of status refusal "/api/files/references/runtime" content_type))

  -- the content, checked against the digest of its key
  unfoldable pub verified_read :
      (sha256 : Bytes → Bytes)
      → Key
      → (status : ℤ) → StoredBody
      → (max_bytes : ℕ) → Result (ReferenceError V) Bytes
  verified_read sha256 parsed status body max_bytes = do
    content ← read_content status body max_bytes
    elim (verify_content sha256 content (pos 0) parsed.sha256) [
      | ok _ ↦ ok content
      | err e ↦ err (bad_content e)
    ]

  -- `ReadFileReferenceRuntime`: `sent` is read where the request is made
  unfoldable pub read_file_reference :
      (canonical_uuid : Bytes → Bool)
      → (sha256 : Bytes → Bytes) → (sent : Sent V) → (key : Bytes) → (max_bytes : ℤ)
      → Result (ReferenceError V) Bytes
  read_file_reference canonical_uuid sha256 sent key max_bytes = do
    fail_if (leb_ℤ max_bytes (pos 0)) limit_not_positive
    parsed ← elim (parse_key canonical_uuid key) [ ok k ↦ ok k | err e ↦ err (bad_key e) ]
    elim sent [
      | not_sent e ↦ err (no_response e)
      | answered status body content_type ↦
          if not (is_success status)
          then refused_read status body content_type
          else verified_read sha256 parsed status body (pos_part max_bytes)
    ]

-- `ArgsReference.Validate`: `none` where it passes
pub data ArgsError : Type 0 where
  bad_bounds foreign_tenant : ArgsError
  bad_reference : KeyError → ArgsError

unfoldable pub validate_args_reference :
    (canonical_uuid : Bytes → Bool)
    → ArgsReference
    → (tenant_id : String) → (max_bytes : ℤ) → Result ArgsError Unit
validate_args_reference canonical_uuid r tenant_id max_bytes = do
  fail_if
      (r.entity_code == ""
        || r.field_code == ""
        || r.key == ""
        || leb_ℤ r.size_bytes (pos 0)
        || ltb_ℤ max_bytes r.size_bytes)
      bad_bounds
  key ← elim (parse_key canonical_uuid (codes r.key)) [
    | ok k ↦ ok k
    | err e ↦ err (bad_reference e)
  ]
  fail_if (not (bytes_eq key.tenant_id (codes tenant_id))) foreign_tenant
  ok tt
