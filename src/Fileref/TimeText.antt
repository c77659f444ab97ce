-- ===== src/Fileref/TimeText.antt =====
-- The text of a time of whole seconds, in a year of four digits, is read back as that time.
use declarion_sdk_go.Common.{
  ℕ, ◌+◌, ◌*◌, ◌/◌, ◌%◌, ◌<◌, ◌≤◌, ◌≡◌, ◌⊎◌, refl, some, [], ◌∷◌, ◌++◌, true, false, ◌||◌, arith,
}
use declarion_sdk_go.Common.Text.{Bytes}
use declarion_sdk_go.Common.Split.{occurs}
use declarion_sdk_go.Fileref.Time.{
  UtcTime, days_in, is_time, two_digits, year_digits, format_time, read_two, read_byte, read_fields,
  in_range, parse_time,
}

abbrev pub IsWhole : UtcTime → Type 0
IsWhole t = (is_time t ≡ true) × (t.nanosecond ≡ 0) × (t.year < 10000)

read_two-two_digits : (v : ℕ) (s : Bytes) → v < 100 → read_two (two_digits v ++ s) ≡ some (v, s)
unfolding read_two two_digits
read_two-two_digits v s h = ground arith

read_byte_same : (b : ℕ) (s : Bytes) → read_byte b (b ∷ s) ≡ some s
unfolding read_byte
read_byte_same b s = ground arith

year_digits_short :
    (year : ℕ) (s : Bytes)
    → year < 10000
    → year_digits year s ≡ two_digits (year / 100) ++ (two_digits (year % 100) ++ s)
unfolding year_digits two_digits
year_digits_short year s h = ground arith

days_in-le : (month year : ℕ) → days_in month year ≤ 31
unfolding days_in
days_in-le month year = ground arith

-- the text behind the year
abbrev fields_text : UtcTime → Bytes
fields_text t =
    two_digits t.month
    ++ (two_digits t.day
        ++ (b'T' ∷ two_digits t.hour
            ++ (two_digits t.minute ++ (two_digits t.second ++ (b'Z' ∷ [])))))

read_fields_lem :
    (t : UtcTime)
    → is_time t ≡ true
    → t.nanosecond ≡ 0
    → read_fields t.year (fields_text t) ≡ some t
unfolding read_fields is_time
read_fields_lem t h k =
    let d = days_in-le t.month t.year in
    let second = b'Z' ∷ [] in
    let minute = two_digits t.second ++ second in
    let hour = two_digits t.minute ++ minute in
    let clock = two_digits t.hour ++ hour in
    let day = b'T' ∷ clock in
    rw
      (
        read_two-two_digits t.month (two_digits t.day ++ day) (ground (arith, h)),
        read_two-two_digits t.day day (ground (arith, h, d)),
        read_byte_same b'T' clock,
        read_two-two_digits t.hour hour (ground (arith, h)),
        read_two-two_digits t.minute minute (ground (arith, h)),
        read_two-two_digits t.second second (ground (arith, h)),
        read_byte_same b'Z' [],
      )
      (ground (arith, k))

pub parse_time-format_time : (t : UtcTime) → IsWhole t → parse_time (format_time t) ≡ some t
unfolding parse_time format_time in_range
parse_time-format_time t h =
    let rest = fields_text t in
    let year_rest = two_digits (t.year % 100) ++ rest in
    let there : t.year / 100 * 100 + t.year % 100 ≡ t.year = omega arith in
    rw
      (
        year_digits_short t.year rest h.2,
        read_two-two_digits (t.year / 100) year_rest (omega (arith, h.2)),
        read_two-two_digits (t.year % 100) rest (omega arith),
        there,
        read_fields_lem t h.0 h.1,
        in_range,
        h.0,
      )
      refl

occurs-digits :
    (b v : ℕ) (s : Bytes) → (b < 48) ⊎ (57 < b) → occurs b (two_digits v ++ s) ≡ occurs b s
unfolding occurs two_digits
occurs-digits b v s h = ground arith

-- A byte that is no digit and neither T nor Z does not stand in the text of a time.
pub format_time-plain :
    (t : UtcTime) (b : ℕ) → t.year < 10000 → (b < 48) ⊎ (90 < b) → occurs b (format_time t) ≡ false
unfolding format_time
format_time-plain t b h k =
    let out : (b < 48) ⊎ (57 < b) = ground (arith, k) in
    let at_end : occurs b (b'Z' ∷ []) ≡ false = unfold occurs in ground (arith, k) in
    let clock =
      two_digits t.hour ++ (two_digits t.minute ++ (two_digits t.second ++ (b'Z' ∷ []))) in
    let at_t : occurs b (b'T' ∷ clock) ≡ occurs b clock = unfold occurs in ground (arith, k) in
    let rest = fields_text t in
    rw
      (
        year_digits_short t.year rest h,
        occurs-digits b (t.year / 100) (two_digits (t.year % 100) ++ rest) out,
        occurs-digits b (t.year % 100) rest out,
        occurs-digits b t.month (two_digits t.day ++ (b'T' ∷ clock)) out,
        occurs-digits b t.day (b'T' ∷ clock) out,
        at_t,
        occurs-digits b t.hour (two_digits t.minute ++ (two_digits t.second ++ (b'Z' ∷ []))) out,
        occurs-digits b t.minute (two_digits t.second ++ (b'Z' ∷ [])) out,
        occurs-digits b t.second (b'Z' ∷ []) out,
      )
      at_end

pub occurs-append : (b : ℕ) (s t : Bytes) → occurs b (s ++ t) ≡ (occurs b s || occurs b t)
unfolding occurs
occurs-append b [] t = refl
occurs-append b (c ∷ s) t = ground (arith, occurs-append b s t)
