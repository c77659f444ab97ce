-- ===== src/Platform/ParamsCache/Trace.antt =====
-- A process's history: the responses that it heard and the reads that it was given to keep, in the
-- order in which the cache's mutex took them. What the cache answers, told from the history alone.
use declarion_sdk_go.Common.{
  ◌<◌, ◌≡◌, ◌⊎◌, inl, inr, refl, ap, subst, ◌∙◌, none, some, List, [], ◌∷◌, String, string_Eq, not,
  arith, leb, length, ◌==◌, ==_iff, if◌then◌else◌, Bool-cases, Option-cases,
}
use declarion_sdk_go.Common.Int.{ℤ, pos, ◌<ℤ◌, ltb_ℤ}
use declarion_sdk_go.Common.Assoc.{lookup, IsMap, lookup-insert, lookup-retain, retain-IsMap}
use declarion_sdk_go.Platform.Header.{
  Header, header_int, params_version_header, params_max_age_header,
}
use declarion_sdk_go.Platform.ParamsCache.{
  ParamsKey, params_key_Eq, key_eq_iff, ParamsEntry, ParamsCache, new, version_of, is_unservable,
  get, drop_unservable, expiry, stamped, sweep, put, observe,
}
use declarion_sdk_go.Platform.ParamsCache.Sweep.{kept, refused, keeps, put-cases, kept-IsMap}

pub data Event : Type 0 where
  -- a response from a platform
  heard : String → Header → Event
  -- a parameter read, with what it answered and when it arrived
  read : ParamsKey → Header → ParamsEntry → ℤ → Event

unfoldable pub apply : Event → ParamsCache → ParamsCache
apply (heard base_url h) pc = observe base_url h pc
apply (read key h entry now) pc = put key h entry now pc

-- The newest event stands first.
unfoldable pub replay : List Event → ParamsCache
replay [] = new
replay (ev ∷ evs) = apply ev (replay evs)

abbrev newer : ℤ → ℤ → ℤ
newer v w = if ltb_ℤ v w then w else v

-- The newest version that a response of this platform carried, and 0 before any.
unfoldable pub newest_heard : String → List Event → ℤ
newest_heard url [] = pos 0
newest_heard url (heard base_url h ∷ evs) =
    if base_url == url
    then elim (header_int h params_version_header) [
      | none ↦ newest_heard url evs
      | some v ↦ newer (newest_heard url evs) v
    ]
    else newest_heard url evs
newest_heard url (read key h entry now ∷ evs) = newest_heard url evs

-- The read of this key that the history holds, with the version and the max age that it carried.
pub data WasRead (key : ParamsKey) (e : ParamsEntry) : List Event → Type 0 where
  here :
      {h : Header} {raw : ParamsEntry} {now : ℤ} {evs : List Event} (max_age : ℤ)
      → header_int h params_max_age_header ≡ some max_age
      → pos 0 <ℤ max_age
      → header_int h params_version_header ≡ some e.version
      → e ≡ stamped raw e.version (expiry now max_age)
      → WasRead key e (read key h raw now ∷ evs)
  before : {ev : Event} {evs : List Event} → WasRead key e evs → WasRead key e (ev ∷ evs)

version_of-observe :
    (base_url url : String) (h : Header) (pc : ParamsCache)
    → version_of (observe base_url h pc) url ≡ (
        if base_url == url
        then elim (header_int h params_version_header) [
          | none ↦ version_of pc url
          | some v ↦ newer (version_of pc url) v
        ]
        else version_of pc url)
unfolding version_of observe
version_of-observe base_url url h pc = elim (Option-cases (header_int h params_version_header)) [
  | inl e ↦ ground arith
  | inr (v, e) ↦ ground (arith, ==_iff base_url url, lookup-insert base_url url v pc.versions)
]

versions-sweep : (now : ℤ) (pc : ParamsCache) → (sweep now pc).versions ≡ pc.versions
unfolding sweep drop_unservable
versions-sweep now pc = ground arith

versions-put :
    (key : ParamsKey) (h : Header) (entry : ParamsEntry) (now : ℤ) (pc : ParamsCache)
    → (put key h entry now pc).versions ≡ pc.versions
versions-put key h entry now pc = elim (put-cases key h entry now pc) [
  | refused _ same ↦ rw same
  | keeps version max_age k e ↦ rw e (versions-sweep now (kept key entry version max_age now pc))
]

-- The version that the cache holds for a platform is the newest that it was told of.
pub version_of-replay :
    (evs : List Event) (url : String) → version_of (replay evs) url ≡ newest_heard url evs
unfolding replay apply newest_heard version_of
version_of-replay [] url = unfold lookup in refl
version_of-replay (heard base_url h ∷ evs) url =
    version_of-observe base_url url h (replay evs) ∙ ground (arith, version_of-replay evs url)
version_of-replay (read key h entry now ∷ evs) url =
    ground (arith, versions-put key h entry now (replay evs), version_of-replay evs url)

sweep-IsMap : (now : ℤ) (pc : ParamsCache) → IsMap pc.entries → IsMap (sweep now pc).entries
unfolding sweep drop_unservable
sweep-IsMap now pc m = elim (Bool-cases (leb pc.sweep_at (length pc.entries))) [
  | inl due ↦ rw due (retain-IsMap _ pc.entries m)
  | inr early ↦ rw early m
]

pub replay-IsMap : (evs : List Event) → IsMap (replay evs).entries
unfolding replay apply observe
replay-IsMap [] = tt
replay-IsMap (heard base_url h ∷ evs) = ground (arith, replay-IsMap evs)
replay-IsMap (read key h entry now ∷ evs) = elim (put-cases key h entry now (replay evs)) [
  | refused _ same ↦ rw same (replay-IsMap evs)
  | keeps version max_age k e ↦
      let pc = replay evs in
      rw e (
        sweep-IsMap now (kept key entry version max_age now pc)
          (kept-IsMap key entry version max_age now pc (replay-IsMap evs)))
]

-- An entry that a sweep leaves was there before it.
lookup-sweep :
    (key : ParamsKey) (now : ℤ) (pc : ParamsCache) {e : ParamsEntry}
    → IsMap pc.entries
    → lookup key (sweep now pc).entries ≡ some e
    → lookup key pc.entries ≡ some e
unfolding sweep drop_unservable
lookup-sweep key now pc m h = elim (Bool-cases (leb pc.sweep_at (length pc.entries))) [
  | inl due ↦ ground (arith, lookup-retain (λ k e. not (is_unservable pc now k e)) key pc.entries m)
  | inr early ↦ ground arith
]

entries-WasRead :
    (evs : List Event) (key : ParamsKey) {e : ParamsEntry}
    → lookup key (replay evs).entries ≡ some e
    → WasRead key e evs
unfolding replay apply observe
entries-WasRead [] key h = unfold lookup in cc
entries-WasRead (heard base_url hd ∷ evs) key h = before (entries-WasRead evs key (ground arith))
entries-WasRead (read j hd raw now ∷ evs) key {e} h = elim (put-cases j hd raw now (replay evs)) [
  | refused _ same ↦ before (entries-WasRead evs key (rw same at h))
  | keeps version max_age k p ↦
      let pc = replay evs in
      let there =
        lookup-sweep key now (kept j raw version max_age now pc)
          (kept-IsMap j raw version max_age now pc (replay-IsMap evs)) (rw p at h) in
      elim (Bool-cases (j == key)) [
        | inl same ↦
            let path = (key_eq_iff j key).0 same in
            let is : e ≡ stamped raw version (expiry now max_age) =
              ground (
                arith,
                lookup-insert j key (stamped raw version (expiry now max_age)) pc.entries,
              ) in
            subst (λ q. WasRead q e (read j hd raw now ∷ evs)) path
              (here max_age k.aged k.positive (ground (arith, k.versioned)) (ground arith))
        | inr other ↦ before (
            entries-WasRead evs key (
              ground
                (arith, lookup-insert j key (stamped raw version (expiry now max_age)) pc.entries)))
      ]
]

-- What a hit says: the entry is of a read of this very key, at the newest version heard from the
-- platform, and its max age has not run out.
pub record IsFresh (key : ParamsKey) (now : ℤ) (e : ParamsEntry) (evs : List Event) : Type 0 where
  pub was_read : WasRead key e evs
  pub newest : e.version ≡ newest_heard key.base_url evs
  pub in_time : now <ℤ e.expires

-- A hit of the cache that any sequence of responses leads to is the entry of a read of this very key,
-- at the newest version heard from that platform, and its max age has not run out.
pub get-IsFresh :
    (evs : List Event) (key : ParamsKey) (now : ℤ) (e : ParamsEntry)
    → get key now (replay evs) ≡ some e
    → IsFresh key now e evs
unfolding get
get-IsFresh evs key now e h = elim (Option-cases (lookup key (replay evs).entries)) [
  | inl missing ↦ absurd (ground arith)
  | inr (found, f) ↦
      let same : found ≡ e = ground arith in
      record {
        was_read = entries-WasRead evs key (f ∙ ap some same);
        newest = ground (arith, version_of-replay evs key.base_url);
        in_time = ground arith;
      }
]

-- The number of entries stays below the mark of the next sweep.
abbrev pub IsBounded : ParamsCache → Type 0
IsBounded pc = (length pc.entries < pc.sweep_at) ⊎ (length pc.entries ≡ 0)

sweep-IsBounded : (now : ℤ) (pc : ParamsCache) → IsBounded (sweep now pc)
unfolding sweep
sweep-IsBounded now pc = ground arith

-- After any sequence of responses the map is below the size at which it is swept, or empty.
pub replay-IsBounded : (evs : List Event) → IsBounded (replay evs)
unfolding replay apply observe
replay-IsBounded [] = inr refl
replay-IsBounded (heard base_url h ∷ evs) = ground (arith, replay-IsBounded evs)
replay-IsBounded (read key h entry now ∷ evs) = elim (put-cases key h entry now (replay evs)) [
  | refused _ same ↦ rw same (replay-IsBounded evs)
  | keeps version max_age k e ↦
      rw e (sweep-IsBounded now (kept key entry version max_age now (replay evs)))
]
