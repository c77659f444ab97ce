-- ===== src/Platform/Errors/Trust.antt =====
-- Whose identity an error carries, by the media type of the response.
use declarion_sdk_go.Common.{
  ℕ, Option, none, some, [], ◌∷◌, String, string_Eq, true, false, ◌≡◌, refl, arith,
}
use declarion_sdk_go.Common.Int.{ℤ, pos, ◌≤ℤ◌, min_int64, max_int64, eq_ℤ}
use declarion_sdk_go.Common.Assoc.{lookup}
use declarion_sdk_go.Errs.{
  text, integer, Core, Error, Catalogue, as_error, code_of, after_last_slash, raise, from,
}
use declarion_sdk_go.Errs.Wire.{Members}
use declarion_sdk_go.Platform.Errors.{
  transport_err, is_problem_response, platform_error, error_from_response, status_of, ext_int,
  is_not_found, unreadable_response,
}

module _ {V : Type 0} (catalogue : Catalogue) (size : Core V → Option ℕ)
    (media_type : String → Option String) (decode_members : String → Option (Members V))
    (trim_space : String → String) (float_int : V → Option ℤ) where
  foreign_none :
      (status : ℤ) (body content_type : String)
      → is_problem_response media_type content_type ≡ false
      → platform_error catalogue size media_type decode_members trim_space status body content_type
        ≡ none
  unfolding platform_error
  foreign_none status body content_type f = rw f refl

  transport_answer :
      (status : ℤ) (shown path : String)
      → min_int64 ≤ℤ status
      → status ≤ℤ max_int64
      → let e : Error V =
          transport_err catalogue unreadable_response
            (("peer_status", integer status) ∷ ("body", text shown) ∷ ("path", text path) ∷ [])
            [] in
        (code_of e.core.type ≡ "transport.unreadable_response")
        × (e.core.retryable ≡ true)
        × (status_of float_int (as_error e) ≡ some status)
        × (is_not_found float_int (as_error e) ≡ eq_ℤ status (pos 404))
  unfolding transport_err lookup raise code_of after_last_slash status_of ext_int from is_not_found
  transport_answer status shown path lo hi = ground (arith, lo, hi)

  -- A response that is no success and is not of the platform's media type, with a status of an
  -- `int64`, becomes this client's own error, whatever its body says: it is retryable, it answers
  -- the status that the peer sent, and it reads as not found exactly where that status is 404.
  pub error_from_response-foreign :
      (status : ℤ) (body path content_type : String)
      → is_problem_response media_type content_type ≡ false
      → min_int64 ≤ℤ status
      → status ≤ℤ max_int64
      → let e =
          error_from_response catalogue size media_type decode_members trim_space status body path
            content_type in
        (code_of e.core.type ≡ "transport.unreadable_response")
        × (e.core.retryable ≡ true)
        × (status_of float_int (as_error e) ≡ some status)
        × (is_not_found float_int (as_error e) ≡ eq_ℤ status (pos 404))
  unfolding error_from_response
  error_from_response-foreign status body path content_type f lo hi =
      rw (foreign_none status body content_type f, error_from_response)
        (transport_answer status _ path lo hi)
