-- ===== src/Platform/Params.antt =====
-- platform/params.go: `ParamsClient.Lookup` over the cache, and `GetParam`. The wire, the JSON codec
-- and the decoding of values are not the program's: they are parameters.
pub mod Reuse
mod Tests
use declarion_sdk_go.Common.{
  ℕ, ◌+◌, ◌≡◌, Option, none, some, String, string_Eq, ◌==◌, Bool, true, false, ◌||◌, ltb, leb,
  if◌then◌else◌,
}
use declarion_sdk_go.Common.Int.{ℤ, pos}
use declarion_sdk_go.Platform.Header.{Header}
use declarion_sdk_go.Platform.ParamsCache.{ParamsKey, ParamsEntry, ParamsCache, observe, get, put}

-- What came of sending one read: no request or no response, a response whose body could not be
-- read, or a whole response. `F` is the error that the client raises.
pub data Exchange (F : Type 0) : Type 0 where
  not_answered : F → Exchange F
  unread : Header → F → Exchange F
  answered : (status : ℕ) → Header → (body : String) → Exchange F

-- the `data` member of the platform's envelope
pub record Envelope : Type 0 where
  pub found : Bool
  pub value : String
  pub source : String

-- The failures of a lookup: the exchange's, a status outside 2xx (`errorFromResponse`), an envelope
-- that is no JSON.
pub data Failure (F : Type 0) : Type 0 where
  exchange_failed : F → Failure F
  refused : (status : ℕ) → (body : String) → Failure F
  malformed : Failure F

-- `decode`: no value, a decoded value, or the decoder's error
pub data Decoded (V : Type 0) : Type 0 where
  absent : Decoded V
  value : V → Decoded V
  undecodable : Decoded V

-- `(value, found, source, err)` where an entry was at hand, or the failure before one was
pub data Answer (V F : Type 0) : Type 0 where
  answer : Decoded V → (found : Bool) → (source : String) → Answer V F
  failure : Failure F → Answer V F

unfoldable pub decode : {V : Type 0} → (parse_value : String → Option V) → ParamsEntry → Decoded V
decode parse_value e =
    if e.value == ""
    then absent
    else elim (parse_value e.value) [ none ↦ undecodable | some v ↦ value v ]

-- the part of `exchange` that the cache sees
unfoldable pub observe_exchange : {F : Type 0} → String → Exchange F → ParamsCache → ParamsCache
observe_exchange base_url (not_answered _) pc = pc
observe_exchange base_url (unread h _) pc = observe base_url h pc
observe_exchange base_url (answered _ h _) pc = observe base_url h pc

-- `paramsEntry{value: …, found: …, source: …}`
abbrev pub entry_of : Envelope → ParamsEntry
entry_of e = record {
  value = e.value;
  found = e.found;
  source = e.source;
  version = pos 0;
  expires = pos 0;
}

module _ {V F : Type 0} (parse_envelope : String → Option Envelope)
    (parse_value : String → Option V) where
  abbrev answer_of : ParamsEntry → Answer V F
  answer_of e = answer (decode parse_value e) e.found e.source

  -- the end of `Lookup`, on the response that came
  unfoldable pub settle : ParamsKey → Exchange F → ℤ → ParamsCache → Answer V F × ParamsCache
  settle key (not_answered f) now pc = (failure (exchange_failed f), pc)
  settle key (unread h f) now pc = (failure (exchange_failed f), pc)
  settle key (answered status h body) now pc =
      if ltb status 200 || leb 300 status
      then (failure (refused status body), pc)
      else elim (parse_envelope body) [
        | none ↦ (failure malformed, pc)
        | some e ↦ (answer_of (entry_of e), put key h (entry_of e) now pc)
      ]

  -- `Lookup`: the answer, whether a request was sent, and the cache. `sent` is read at a miss only.
  unfoldable pub lookup_param :
      ParamsKey
      → (start : ℤ) → (sent : Exchange F) → (arrived : ℤ) → ParamsCache
      → Answer V F × Bool × ParamsCache
  unfolding observe_exchange
  lookup_param key start sent arrived pc = elim (get key start pc) [
    | some entry ↦ (answer_of entry, false, pc)
    | none ↦
        let (a, pc') = settle key sent arrived (observe_exchange key.base_url sent pc) in
        (a, true, pc')
  ]

-- `GetParam[T]`: `convert` is `Convert[T]`, which may fail; `none` is any of its errors
unfoldable pub get_param :
    {V F T : Type 0} → (convert : Option V → Option T) → (default : T) → Answer V F → Option T
get_param convert default (failure _) = none
get_param convert default (answer undecodable found source) = none
get_param convert default (answer absent found source) =
    if found then convert none else some default
get_param convert default (answer (value v) found source) =
    if found then convert (some v) else some default
