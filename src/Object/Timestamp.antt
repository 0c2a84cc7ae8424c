-- ===== src/Object/Timestamp.antt =====
-- validTimestamp of internal/object/object.go, and canonicalProtocolMtime and
-- parseCanonicalProtocolMtime of cmd/filecloud/protocol_mtime.go, with the time.Parse and
-- Time.Format that they call.
pub mod Laws
use filecloud.Prelude.{
  ℕ, ◌+◌, ◌-◌, ◌*◌, ◌/◌, ◌%◌, Bool, true, false, not, ◌&&◌, ◌||◌, Option, none, some, List, [], ◌∷◌,
  leb, ltb, ◌==◌, if◌then◌else◌, length,
}
use filecloud.Prelude.Bytes.{Bytes, same}
use filecloud.Prelude.Outcome.{Result, ok, err, failed}

-- A reading of the calendar and the clock, to the second.
pub record Civil : Type 0 where
  pub year : ℕ
  pub month : ℕ
  pub day : ℕ
  pub hour : ℕ
  pub minute : ℕ
  pub second : ℕ

abbrev pub is_leap : ℕ → Bool
is_leap year = (year % 4 == 0) && (not (year % 100 == 0) || (year % 400 == 0))

abbrev pub days_in : ℕ → ℕ → ℕ
days_in year month =
    if month == 2
    then (if is_leap year then 29 else 28)
    else if (month == 4) || (month == 6) || (month == 9) || (month == 11)
    then 30
    else 31

-- The ranges that time.Parse checks.
unfoldable pub in_range : Civil → Bool
in_range t =
    leb 1 t.month
    && leb t.month 12
    && leb 1 t.day
    && leb t.day (days_in t.year t.month)
    && ltb t.hour 24
    && ltb t.minute 60
    && ltb t.second 60

abbrev pub digit : ℕ → Bool
digit c = leb b'0' c && leb c b'9'

abbrev pub two : ℕ → ℕ → ℕ
two a b = (a - b'0') * 10 + (b - b'0')

abbrev all_digits : Bytes → Bool
all_digits [] = true
all_digits (c ∷ s) = digit c && all_digits s

abbrev pub civil : ℕ → ℕ → ℕ → ℕ → ℕ → ℕ → ℕ → ℕ → ℕ → ℕ → ℕ → ℕ → ℕ → ℕ → Civil
civil y₁ y₂ y₃ y₄ m₁ m₂ d₁ d₂ h₁ h₂ n₁ n₂ s₁ s₂ = record {
  year = two y₁ y₂ * 100 + two y₃ y₄;
  month = two m₁ m₂;
  day = two d₁ d₂;
  hour = two h₁ h₂;
  minute = two n₁ n₂;
  second = two s₁ s₂;
}

-- time.Parse at the layout 2006-01-02T15:04:05Z. The other texts that it reads (an hour of one
-- digit, a fraction of a second) are not printed again by Format, which every caller asks for.
unfoldable pub parse_time : Bytes → Option Civil
unfolding in_range
parse_time
      (y₁ ∷ y₂ ∷ y₃ ∷ y₄ ∷ c₁ ∷ m₁ ∷ m₂ ∷ c₂ ∷ d₁ ∷ d₂ ∷ t ∷ h₁ ∷ h₂ ∷ c₃ ∷ n₁ ∷ n₂ ∷ c₄ ∷ s₁ ∷ s₂
        ∷ z ∷ []) =
    let time = civil y₁ y₂ y₃ y₄ m₁ m₂ d₁ d₂ h₁ h₂ n₁ n₂ s₁ s₂ in
    if all_digits (y₁ ∷ y₂ ∷ y₃ ∷ y₄ ∷ m₁ ∷ m₂ ∷ d₁ ∷ d₂ ∷ h₁ ∷ h₂ ∷ n₁ ∷ n₂ ∷ s₁ ∷ s₂ ∷ [])
      && (c₁ == b'-')
      && (c₂ == b'-')
      && (t == b'T')
      && (c₃ == b':')
      && (c₄ == b':')
      && (z == b'Z')
      && in_range time
    then some time
    else none
parse_time _ = none

abbrev pub tens : ℕ → ℕ
tens n = b'0' + n / 10

abbrev pub ones : ℕ → ℕ
ones n = b'0' + n % 10

-- Time.Format at that layout, of a year with four digits.
unfoldable pub format_time : Civil → Bytes
format_time t =
    tens (t.year / 100)
    ∷ ones (t.year / 100)
    ∷ tens (t.year % 100)
    ∷ ones (t.year % 100)
    ∷ b'-'
    ∷ tens t.month
    ∷ ones t.month
    ∷ b'-'
    ∷ tens t.day
    ∷ ones t.day
    ∷ b'T'
    ∷ tens t.hour
    ∷ ones t.hour
    ∷ b':'
    ∷ tens t.minute
    ∷ ones t.minute
    ∷ b':'
    ∷ tens t.second
    ∷ ones t.second
    ∷ b'Z'
    ∷ []

abbrev printed_as : Bytes → Option Civil → Bool
printed_as value none = false
printed_as value (some t) = same (format_time t) value

unfoldable pub valid_timestamp : Bytes → Bool
unfolding parse_time format_time
valid_timestamp value = printed_as value (parse_time value)

-- A time.Time: the readings of its instant in UTC and in its location, and the nanoseconds within the
-- second, which are the same in both.
pub record Time : Type 0 where
  pub date : Civil
  pub local : Civil
  pub nanosecond : ℕ

-- Time.UTC, which moves the location.
abbrev pub utc : Time → Time
utc t = record t { local = t.date }

-- Truncate(time.Second)
abbrev pub truncate_second : Time → Time
truncate_second t = record t { nanosecond = 0 }

-- What time.Parse returns at a layout without a zone and without a fraction.
abbrev pub parsed_time : Civil → Time
parsed_time date = record { date = date; local = date; nanosecond = 0 }

-- Time.Format prints the reading in the time's location.
abbrev pub format_layout : Time → Bytes
format_layout t = format_time t.local

unfoldable pub canonical_protocol_mtime : Time → Bytes
canonical_protocol_mtime value = format_layout (truncate_second (utc value))

abbrev checked : Bytes → Option Civil → Result Time
checked value none = err (failed "mtime is not canonical protocol UTC")
checked value (some date) =
    if same (canonical_protocol_mtime (parsed_time date)) value
    then ok (parsed_time date)
    else err (failed "mtime is not canonical protocol UTC")

unfoldable pub parse_canonical_protocol_mtime : Bytes → Result Time
unfolding parse_time canonical_protocol_mtime
parse_canonical_protocol_mtime value = checked value (parse_time value)
