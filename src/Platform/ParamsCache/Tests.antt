-- ===== src/Platform/ParamsCache/Tests.antt =====
-- The cache on concrete histories.
use declarion_sdk_go.Common.{◌≡◌, refl, arith, some, none, List, [], ◌∷◌, true, length, ◌*◌}
use declarion_sdk_go.Common.Int.{ℤ, pos, negsuc, ◌+ℤ◌, mul_int64}
use declarion_sdk_go.Common.Text.{parse_int64}
use declarion_sdk_go.Common.Assoc.{lookup, insert, retain}
use declarion_sdk_go.Platform.Header.{Header, get as get_header, header_int}
use declarion_sdk_go.Platform.ParamsCache.{
  ParamsKey, params_key_Eq, ParamsEntry, ParamsCache, version_of, observe, get, put, sweep,
  drop_unservable, expiry,
}
use declarion_sdk_go.Platform.ParamsCache.Sweep.{IsKept, get-put, put-refused, sweep_due}
use declarion_sdk_go.Platform.ParamsCache.Trace.{
  Event, heard, read, replay, apply, IsFresh, get-IsFresh, IsBounded, replay-IsBounded,
}

abbrev key : ParamsKey
key = record {
  base_url = "http://p";
  token = "t";
  tenant_id = "";
  tenant_code = "acme";
  code = "retries";
}

abbrev other_key : ParamsKey
other_key = record key { code = "limit" }

abbrev entry : ParamsEntry
entry = record { value = "3"; found = true; source = "tenant"; version = pos 0; expires = pos 0 }

abbrev headers : Header
headers = ("X-Declarion-Params-Version", "7") ∷ ("X-Declarion-Params-Max-Age-Ms", "5") ∷ []

abbrev history : List Event
history = read key headers entry (pos 1000) ∷ heard "http://p" headers ∷ []

abbrev old_headers : Header
old_headers = ("X-Declarion-Params-Version", "6") ∷ ("X-Declarion-Params-Max-Age-Ms", "5") ∷ []

abbrev kept_entry : ParamsEntry
kept_entry = record entry { version = pos 7; expires = pos 5001000 }

abbrev cache : ParamsCache
cache = record {
  versions = ("http://p", pos 7) ∷ [];
  entries = (key, kept_entry) ∷ [];
  sweep_at = 2;
}

replay-history : replay history ≡ cache
unfolding replay apply observe put sweep drop_unservable version_of lookup insert retain get_header
    header_int parse_int64 mul_int64 ◌+ℤ◌
replay-history = refl

-- a version that goes up ends the reuse, and so does the end of the max age
gets :
    (get key (pos 5000999) cache ≡ some kept_entry)
    × (get key (pos 5001000) cache ≡ none)
    × (get key (pos 2000) (observe "http://p" (("X-Declarion-Params-Version", "8") ∷ []) cache)
        ≡ none)
unfolding get observe version_of lookup insert get_header header_int parse_int64
gets = (refl, refl, refl)

-- The largest max age that the header can say is read as one in the past: its nanoseconds wrap.
wrapped_expiry : expiry (pos 0) (pos 9223372036854775807) ≡ negsuc 999999
unfolding mul_int64 ◌+ℤ◌
wrapped_expiry = refl

get-IsFresh_example : IsFresh key (pos 2000) kept_entry history
unfolding replay apply observe put sweep drop_unservable version_of lookup insert retain get_header
    header_int parse_int64 mul_int64 ◌+ℤ◌ get
get-IsFresh_example = get-IsFresh history key (pos 2000) kept_entry refl

cache-IsKept : IsKept key headers (pos 7) (pos 5) cache
unfolding version_of lookup get_header header_int parse_int64
cache-IsKept = record { aged = refl; positive = omega arith; versioned = refl; newest = refl }

get-put_example : get key (pos 2000) (put key headers entry (pos 1000) cache) ≡ some kept_entry
unfolding mul_int64 ◌+ℤ◌ lookup
get-put_example =
    get-put key key headers entry (pos 7) 5 (pos 1000) (pos 2000) cache (refl, tt) (omega arith)
      cache-IsKept (omega arith)

-- a read at version 6 is stale against 7
old_not-IsKept : (version max_age : ℤ) → ¬ IsKept key old_headers version max_age cache
unfolding version_of lookup get_header header_int parse_int64
old_not-IsKept version max_age k = ground (arith, k.versioned, k.newest)

put-refused_example : put key old_headers entry (pos 1000) cache ≡ cache
put-refused_example = put-refused key old_headers entry (pos 1000) cache old_not-IsKept

replay-IsBounded_example : IsBounded (replay history)
replay-IsBounded_example = replay-IsBounded history

abbrev due : ParamsCache
due = record cache { sweep_at = 1 }

sweep_due_example :
    ((sweep (pos 1000) due).sweep_at ≡ 2 * length (sweep (pos 1000) due).entries)
    × (lookup other_key (sweep (pos 1000) due).entries ≡ get other_key (pos 1000) due)
unfolding lookup
sweep_due_example = sweep_due other_key (pos 1000) due (refl, tt) (omega arith)
