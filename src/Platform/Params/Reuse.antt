-- ===== src/Platform/Params/Reuse.antt =====
-- When a lookup is served with no request.
use declarion_sdk_go.Common.{
  ℕ, ◌*◌, ◌≤◌, ◌<◌, ◌≡◌, refl, arith, Option, none, some, String, string_Eq, ==_iff, true, false,
}
use declarion_sdk_go.Common.Int.{ℤ, pos, ◌+ℤ◌, ◌≤ℤ◌, ◌<ℤ◌}
use declarion_sdk_go.Common.Assoc.{lookup-insert, IsMap}
use declarion_sdk_go.Platform.Header.{
  Header, header_int, params_version_header, params_max_age_header,
}
use declarion_sdk_go.Platform.ParamsCache.{
  ParamsKey, params_key_Eq, ParamsCache, observe, get, version_of, key_eq, key_eq_iff,
}
use declarion_sdk_go.Platform.ParamsCache.Sweep.{IsKept, get-put}
use declarion_sdk_go.Platform.Params.{
  Exchange, answered, decode, Envelope, entry_of, lookup_param, settle,
}

-- A response that carries a version no older than the newest one makes it the newest.
version_of-observe_newer :
    (url : String) (h : Header) (version : ℤ) (pc : ParamsCache)
    → header_int h params_version_header ≡ some version
    → version_of pc url ≤ℤ version
    → version ≡ version_of (observe url h pc) url
unfolding version_of observe
version_of-observe_newer url h version pc e le =
    ground (arith, ==_iff url url, lookup-insert url url version pc.versions)

entries-observe :
    (url : String) (h : Header) (pc : ParamsCache) → (observe url h pc).entries ≡ pc.entries
unfolding observe
entries-observe url h pc = ground arith

key_eq_refl : (key : ParamsKey) → key_eq key key ≡ true
key_eq_refl key = (key_eq_iff key key).1 refl

module _ {V F : Type 0} (parse_envelope : String → Option Envelope)
    (parse_value : String → Option V) where
  -- A read that the platform let be kept, for at most 9223372036854 milliseconds, is reused: until
  -- that many milliseconds have gone by since it arrived, and while no other response arrives, the next lookup of the same key gives the same answer, sends nothing
  -- whatever the platform would say by now, and leaves the cache alone.
  pub lookup_param_reused :
      (key : ParamsKey) (status : ℕ) (h : Header) (body : String) (envelope : Envelope)
      (version : ℤ) (ms : ℕ) (start arrived later end : ℤ) (again : Exchange F) (pc : ParamsCache)
      → IsMap pc.entries
      → get key start pc ≡ none
      → 200 ≤ status
      → status < 300
      → parse_envelope body ≡ some envelope
      → header_int h params_max_age_header ≡ some (pos ms)
      → 0 < ms
      → ms ≤ 9223372036854
      → header_int h params_version_header ≡ some version
      → version_of pc key.base_url ≤ℤ version
      → arrived ≤ℤ later
      → later <ℤ arrived +ℤ pos (ms * 1000000)
      → let (a, asked, pc') =
          lookup_param parse_envelope parse_value key start (answered status h body) arrived pc in
        (asked ≡ true)
        × (lookup_param parse_envelope parse_value key later again end pc' ≡ (a, false, pc'))
  unfolding lookup_param settle decode
  lookup_param_reused key status h body envelope version ms start arrived later end again pc m miss
        lo hi parsed aged positive small versioned newest le intime =
      let pc1 = observe key.base_url h pc in
      let k : IsKept key h version (pos ms) pc1 = record {
        aged = aged;
        positive = omega (arith, positive);
        versioned = versioned;
        newest = version_of-observe_newer key.base_url h version pc versioned newest;
      } in
      (
        ground arith,
        ground (
          arith,
          key_eq_refl key,
          get-put key key h (entry_of envelope) version ms arrived later pc1
              (rw (entries-observe key.base_url h pc) m) le k small,
        ),
      )
