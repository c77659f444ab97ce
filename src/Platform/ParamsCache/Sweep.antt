-- ===== src/Platform/ParamsCache/Sweep.antt =====
-- What `put` and its sweep leave of the entries, and how many there may be.
use declarion_sdk_go.Common.{
  ℕ, ◌*◌, ◌%◌, ◌^◌, ◌≤◌, subst, ◌≡◌, inl, inr, ◌∙◌, none, some, string_Eq, not, ◌||◌, arith, leb,
  length, ◌==◌, if◌then◌else◌, Bool-cases, Option-cases,
}
use declarion_sdk_go.Common.Int.{ℤ, pos, ◌+ℤ◌, mul_int64, wrap_bits, ◌≤ℤ◌, ◌<ℤ◌, ltb_ℤ, leb_ℤ, eq_ℤ}
use declarion_sdk_go.Common.Assoc.{
  lookup, insert, IsMap, lookup-insert, insert-IsMap, lookup-retain,
}
use declarion_sdk_go.Platform.Header.{
  Header, header_int, params_version_header, params_max_age_header,
}
use declarion_sdk_go.Platform.ParamsCache.{
  ParamsKey, params_key_Eq, key_eq_iff, ParamsEntry, ParamsCache, version_of, is_unservable, get,
  drop_unservable, expiry, stamped, sweep, put,
}

-- A sweep at one time hides nothing that a read at that time or later would be given.
pub get-drop_unservable :
    (key : ParamsKey) (t now : ℤ) (pc : ParamsCache)
    → IsMap pc.entries
    → now ≤ℤ t
    → get key t (drop_unservable now pc) ≡ get key t pc
unfolding get drop_unservable version_of
get-drop_unservable key t now pc m le =
    ground (arith, lookup-retain (λ k e. not (is_unservable pc now k e)) key pc.entries m)

pub get-sweep :
    (key : ParamsKey) (t now : ℤ) (pc : ParamsCache)
    → IsMap pc.entries
    → now ≤ℤ t
    → get key t (sweep now pc) ≡ get key t pc
unfolding sweep get version_of drop_unservable
get-sweep key t now pc m le = elim (Bool-cases (leb pc.sweep_at (length pc.entries))) [
  | inl due ↦ rw (due, sweep) (get-drop_unservable key t now pc m le)
  | inr early ↦ rw (early, sweep)
]

-- What `put` stores when it keeps a read, before the sweep.
abbrev pub kept : ParamsKey → ParamsEntry → ℤ → ℤ → ℤ → ParamsCache → ParamsCache
kept key entry version max_age now pc = record pc {
  entries = insert key (stamped entry version (expiry now max_age)) pc.entries;
}

get-kept :
    (key j : ParamsKey) (entry : ParamsEntry) (version max_age now t : ℤ) (pc : ParamsCache)
    → version ≡ version_of pc key.base_url
    → get j t (kept key entry version max_age now pc) ≡ (
        if key == j
        then (if ltb_ℤ t (expiry now max_age)
            then some (stamped entry version (expiry now max_age))
            else none)
        else get j t pc)
unfolding get version_of
get-kept key j entry version max_age now t pc e = ground (
  arith,
  key_eq_iff key j,
  lookup-insert key j (stamped entry version (expiry now max_age)) pc.entries,
)

-- The read is one that `put` keeps: the platform gave a positive max age and the newest version.
pub record IsKept (key : ParamsKey) (h : Header) (version max_age : ℤ) (pc : ParamsCache)
    : Type 0 where
  pub aged : header_int h params_max_age_header ≡ some max_age
  pub positive : pos 0 <ℤ max_age
  pub versioned : header_int h params_version_header ≡ some version
  pub newest : version ≡ version_of pc key.base_url

put-kept :
    (key : ParamsKey) (h : Header) (entry : ParamsEntry) (version max_age now : ℤ)
    (pc : ParamsCache)
    → IsKept key h version max_age pc
    → put key h entry now pc ≡ sweep now (kept key entry version max_age now pc)
unfolding put
put-kept key h entry version max_age now pc k = ground (arith, k.aged, k.versioned, k.newest)

pub kept-IsMap :
    (key : ParamsKey) (entry : ParamsEntry) (version max_age now : ℤ) (pc : ParamsCache)
    → IsMap pc.entries
    → IsMap (kept key entry version max_age now pc).entries
kept-IsMap key entry version max_age now pc m = insert-IsMap key _ pc.entries m

get-put-expiry :
    (key j : ParamsKey) (h : Header) (entry : ParamsEntry) (version max_age now t : ℤ)
    (pc : ParamsCache)
    → IsMap pc.entries
    → now ≤ℤ t
    → IsKept key h version max_age pc
    → get j t (put key h entry now pc) ≡ (
        if key == j
        then (if ltb_ℤ t (expiry now max_age)
            then some (stamped entry version (expiry now max_age))
            else none)
        else get j t pc)
get-put-expiry key j h entry version max_age now t pc m le k =
    rw (put-kept key h entry version max_age now pc k) (
      get-sweep j t now _ (kept-IsMap key entry version max_age now pc m) le
      ∙ get-kept key j entry version max_age now t pc k.newest)

-- A max age of at most 9223372036854 milliseconds is added in full.
expiry_exact :
    (now : ℤ) (ms : ℕ) → ms ≤ 9223372036854 → expiry now (pos ms) ≡ now +ℤ pos (ms * 1000000)
unfolding mul_int64 wrap_bits
expiry_exact now ms h =
    let low : ms % 2 ^ 64 ≡ ms = omega arith in
    let fits : (ms * 1000000) % 2 ^ 64 ≡ ms * 1000000 = omega arith in ground (arith, low, fits)

-- A read with a positive max age of at most 9223372036854 milliseconds and the newest version known,
-- put in a map with each key once, is answered for its key until that many milliseconds have gone by
-- since the put and not after; no other key's answer changes, swept or not, at any time from the put
-- on.
pub get-put :
    (key j : ParamsKey) (h : Header) (entry : ParamsEntry) (version : ℤ) (ms : ℕ) (now t : ℤ)
    (pc : ParamsCache)
    → IsMap pc.entries
    → now ≤ℤ t
    → IsKept key h version (pos ms) pc
    → ms ≤ 9223372036854
    → let end = now +ℤ pos (ms * 1000000) in
      get j t (put key h entry now pc) ≡ (
        if key == j
        then (if ltb_ℤ t end then some (stamped entry version end) else none)
        else get j t pc)
get-put key j h entry version ms now t pc m le k small =
    subst
      (λ end. get j t (put key h entry now pc) ≡ (
        if key == j
        then (if ltb_ℤ t end then some (stamped entry version end) else none)
        else get j t pc))
      (expiry_exact now ms small) (get-put-expiry key j h entry version (pos ms) now t pc m le k)

-- `put` keeps the read or leaves the cache as it is.
pub data PutCases (key : ParamsKey) (h : Header) (entry : ParamsEntry) (now : ℤ) (pc : ParamsCache)
    : Type 0 where
  refused :
      ((version max_age : ℤ) → ¬ IsKept key h version max_age pc)
      → put key h entry now pc ≡ pc
      → PutCases key h entry now pc
  keeps :
      (version max_age : ℤ)
      → IsKept key h version max_age pc
      → put key h entry now pc ≡ sweep now (kept key entry version max_age now pc)
      → PutCases key h entry now pc

pub put-cases :
    (key : ParamsKey) (h : Header) (entry : ParamsEntry) (now : ℤ) (pc : ParamsCache)
    → PutCases key h entry now pc
unfolding put
put-cases key h entry now pc = elim (Option-cases (header_int h params_max_age_header)) [
  | inl e ↦ refused (λ v m k. cc (e, k.aged)) (rw (e, put))
  | inr (max_age, e) ↦ elim (Option-cases (header_int h params_version_header)) [
    | inl f ↦ refused (λ v m k. cc (f, k.versioned)) (ground arith)
    | inr (version, f) ↦
        elim (Bool-cases
          (leb_ℤ max_age (pos 0) || not (eq_ℤ version (version_of pc key.base_url)))) [
            | inl g ↦
                refused (λ v m k. ground (arith, k.aged, k.versioned, k.positive, k.newest))
                  (ground arith)
            | inr g ↦
                keeps version max_age
                  (record {
                    aged = e;
                    positive = ground arith;
                    versioned = f;
                    newest = ground arith;
                  })
                  (ground arith)
          ]
  ]
]

-- A read without a max age or a version, with a max age that is not positive, or with a version
-- other than the newest known, leaves the cache as it is.
pub put-refused :
    (key : ParamsKey) (h : Header) (entry : ParamsEntry) (now : ℤ) (pc : ParamsCache)
    → ((version max_age : ℤ) → ¬ IsKept key h version max_age pc)
    → put key h entry now pc ≡ pc
put-refused key h entry now pc no_keep = elim (put-cases key h entry now pc) [
  | refused _ same ↦ same
  | keeps version max_age k _ ↦ absurd (no_keep version max_age k)
]

-- A sweep that is due, of a map with each key once, leaves exactly the entries that can be served,
-- and the next one is due at twice as many.
pub sweep_due :
    (key : ParamsKey) (now : ℤ) (pc : ParamsCache)
    → IsMap pc.entries
    → pc.sweep_at ≤ length pc.entries
    → ((sweep now pc).sweep_at ≡ 2 * length (sweep now pc).entries)
      × (lookup key (sweep now pc).entries ≡ get key now pc)
unfolding sweep get drop_unservable
sweep_due key now pc m due =
    ground (arith, lookup-retain (λ k e. not (is_unservable pc now k e)) key pc.entries m)
