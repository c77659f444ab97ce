-- ===== src/Platform/ParamsCache.antt =====
-- platform/params_cache.go: the process-wide cache of parameter reads. A time is a number of
-- nanoseconds on one clock; the mutex makes each operation one step.
pub mod Sweep
pub mod Trace
mod Tests
use declarion_sdk_go.Common.{
  ℕ, ◌*◌, ◌≡◌, ◌↔◌, Option, none, some, List, [], ◌∷◌, String, Bool, true, false, not, ◌&&◌, ◌||◌,
  arith, leb, length, Eq, string_Eq, ◌==◌, ==_iff, if◌then◌else◌,
}
use declarion_sdk_go.Common.Int.{ℤ, pos, ◌+ℤ◌, ltb_ℤ, leb_ℤ, eq_ℤ, mul_int64}
use declarion_sdk_go.Common.Assoc.{Assoc, lookup, insert, retain}
use declarion_sdk_go.Platform.Header.{
  Header, header_int, params_version_header, params_max_age_header,
}

pub record ParamsKey : Type 0 where
  pub base_url : String
  pub token : String
  pub tenant_id : String
  pub tenant_code : String
  pub code : String

abbrev pub key_eq : ParamsKey → ParamsKey → Bool
key_eq a b =
    a.base_url == b.base_url
    && a.token == b.token
    && a.tenant_id == b.tenant_id
    && a.tenant_code == b.tenant_code
    && a.code == b.code

pub key_eq_iff : (a b : ParamsKey) → (key_eq a b ≡ true) ↔ (a ≡ b)
key_eq_iff a b = ground (
  arith,
  ==_iff a.base_url b.base_url,
  ==_iff a.token b.token,
  ==_iff a.tenant_id b.tenant_id,
  ==_iff a.tenant_code b.tenant_code,
  ==_iff a.code b.code,
)

instance abbrev pub params_key_Eq : Eq ParamsKey
params_key_Eq = record { same = key_eq; same_iff = key_eq_iff }

pub record ParamsEntry : Type 0 where
  pub value : String
  pub found : Bool
  pub source : String
  pub version : ℤ
  pub expires : ℤ

pub record ParamsCache : Type 0 where
  pub versions : Assoc String ℤ
  pub entries : Assoc ParamsKey ParamsEntry
  pub sweep_at : ℕ

-- `processParams` as the process starts
abbrev pub new : ParamsCache
new = record { versions = []; entries = []; sweep_at = 0 }

-- `pc.versions[baseURL]`: a missing key reads as 0
unfoldable pub version_of : ParamsCache → String → ℤ
version_of pc base_url = elim (lookup base_url pc.versions) [ none ↦ pos 0 | some v ↦ v ]

unfoldable pub observe : String → Header → ParamsCache → ParamsCache
observe base_url h pc = elim (header_int h params_version_header) [
  | none ↦ pc
  | some version ↦
      if ltb_ℤ (version_of pc base_url) version
      then record pc { versions = insert base_url version pc.versions }
      else pc
]

-- the test that `get` and `dropUnservable` share
abbrev pub is_unservable : ParamsCache → ℤ → ParamsKey → ParamsEntry → Bool
is_unservable pc now key entry =
    not (eq_ℤ entry.version (version_of pc key.base_url)) || not (ltb_ℤ now entry.expires)

unfoldable pub get : ParamsKey → ℤ → ParamsCache → Option ParamsEntry
get key now pc = elim (lookup key pc.entries) [
  | none ↦ none
  | some entry ↦ if is_unservable pc now key entry then none else some entry
]

unfoldable pub drop_unservable : ℤ → ParamsCache → ParamsCache
drop_unservable now pc = record pc {
  entries = retain (λ key entry. not (is_unservable pc now key entry)) pc.entries;
}

-- `now.Add(time.Duration(maxAge) * time.Millisecond)`: the product keeps 64 bits
abbrev pub expiry : ℤ → ℤ → ℤ
expiry now max_age = now +ℤ mul_int64 max_age 1000000

abbrev pub stamped : ParamsEntry → ℤ → ℤ → ParamsEntry
stamped entry version expires = record entry { version = version; expires = expires }

-- the sweep that ends `put`
unfoldable pub sweep : ℤ → ParamsCache → ParamsCache
sweep now pc =
    let swept = drop_unservable now pc in
    if leb pc.sweep_at (length pc.entries)
    then record swept { sweep_at = 2 * length swept.entries }
    else pc

unfoldable pub put : ParamsKey → Header → ParamsEntry → ℤ → ParamsCache → ParamsCache
put key h entry now pc = elim (header_int h params_max_age_header) [
  | none ↦ pc
  | some max_age ↦ if leb_ℤ max_age (pos 0) then pc else elim (header_int h params_version_header) [
    | none ↦ pc
    | some version ↦
        if not (eq_ℤ version (version_of pc key.base_url))
        then pc
        else sweep now (record pc {
          entries = insert key (stamped entry version (expiry now max_age)) pc.entries;
        })
  ]
]
