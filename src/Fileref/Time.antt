-- ===== src/Fileref/Time.antt =====
-- What fileref/key.go uses of package time: `Format` and `Parse` with the layout "20060102T150405Z",
-- and `After`, on a clock's reading in UTC.
use declarion_sdk_go.Common.{
  ℕ, zero, suc, ◌+◌, ◌-◌, ◌*◌, ◌/◌, ◌%◌, Option, none, some, List, [], ◌∷◌, ◌++◌, Bool, false, not,
  ◌&&◌, ◌||◌, leb, ltb, nat_eq, if◌then◌else◌,
}
use declarion_sdk_go.Common.Text.{Bytes, is_digit}

pub record UtcTime : Type 0 where
  pub year : ℕ
  pub month : ℕ
  pub day : ℕ
  pub hour : ℕ
  pub minute : ℕ
  pub second : ℕ
  pub nanosecond : ℕ

abbrev is_leap : ℕ → Bool
is_leap year = nat_eq (year % 4) 0 && (not (nat_eq (year % 100) 0) || nat_eq (year % 400) 0)

unfoldable pub days_in : (month year : ℕ) → ℕ
days_in month year =
    if nat_eq month 2
    then if is_leap year then 29 else 28
    else if nat_eq month 4 || nat_eq month 6 || nat_eq month 9 || nat_eq month 11
    then 30
    else 31

-- the ranges that `Parse` checks
unfoldable pub is_time : UtcTime → Bool
is_time t =
    leb 1 t.month
    && leb t.month 12
    && leb 1 t.day
    && leb t.day (days_in t.month t.year)
    && ltb t.hour 24
    && ltb t.minute 60
    && ltb t.second 60

unfoldable pub two_digits : ℕ → Bytes
two_digits v = (b'0' + v / 10 % 10) ∷ (b'0' + v % 10) ∷ []

-- the decimal digits of a number above `v`, at least one of them, in front of `s`
unfoldable pub leading_digits : (bound v : ℕ) → Bytes → Bytes
leading_digits zero v s = (b'0' + v % 10) ∷ s
leading_digits (suc bound) v s =
    let more = leading_digits bound (v / 10) ((b'0' + v % 10) ∷ s) in
    if ltb v 10 then (b'0' + v) ∷ s else more

-- a year in four digits at least
unfoldable pub year_digits : ℕ → Bytes → Bytes
year_digits year s =
    let low =
      (b'0' + year / 1000 % 10)
      ∷ (b'0' + year / 100 % 10)
      ∷ (b'0' + year / 10 % 10)
      ∷ (b'0' + year % 10)
      ∷ s in
    if ltb year 10000 then low else leading_digits year (year / 10000) low

-- `t.Format(partitionFormat)`
unfoldable pub format_time : UtcTime → Bytes
format_time t = year_digits t.year (
    two_digits t.month
    ++ (two_digits t.day
        ++ (b'T' ∷ two_digits t.hour
            ++ (two_digits t.minute ++ (two_digits t.second ++ (b'Z' ∷ []))))))

unfoldable pub read_two : Bytes → Option (ℕ × Bytes)
read_two (a ∷ b ∷ s) =
    if is_digit a && is_digit b then some ((a - b'0') * 10 + (b - b'0'), s) else none
read_two _ = none

-- a byte of the layout
unfoldable pub read_byte : ℕ → Bytes → Option Bytes
read_byte b [] = none
read_byte b (c ∷ s) = if nat_eq c b then some s else none

abbrev pub and_then : {A B : Type 0} → Option A → (A → Option B) → Option B
and_then none f = none
and_then (some a) f = f a

-- the fields behind the year, which end the text
unfoldable pub read_fields : (year : ℕ) → Bytes → Option UtcTime
read_fields year s = and_then (read_two s) λ (month, s). and_then (read_two s) λ (day, s).
    and_then (read_byte b'T' s) λ s. and_then (read_two s) λ (hour, s).
      and_then (read_two s) λ (minute, s). and_then (read_two s) λ (second, s).
        and_then (read_byte b'Z' s) λ rest. elim rest [
          | [] ↦ some (record {
            year = year;
            month = month;
            day = day;
            hour = hour;
            minute = minute;
            second = second;
            nanosecond = 0;
          })
          | _ ∷ _ ↦ none
        ]

unfoldable pub in_range : UtcTime → Option UtcTime
in_range t = if is_time t then some t else none

-- `time.Parse(partitionFormat, s)`
unfoldable pub parse_time : Bytes → Option UtcTime
parse_time s = and_then (read_two s) λ (century, s).
    and_then (read_two s) λ (years, s). and_then (read_fields (century * 100 + years) s) in_range

unfoldable pub later : List (ℕ × ℕ) → Bool
later [] = false
later ((x, y) ∷ fields) = let rest = later fields in if nat_eq x y then rest else ltb y x

-- `t.After(u)`
unfoldable pub is_after : UtcTime → UtcTime → Bool
is_after t u = later (
    (t.year, u.year)
    ∷ (t.month, u.month)
    ∷ (t.day, u.day)
    ∷ (t.hour, u.hour)
    ∷ (t.minute, u.minute)
    ∷ (t.second, u.second)
    ∷ (t.nanosecond, u.nanosecond)
    ∷ [])
