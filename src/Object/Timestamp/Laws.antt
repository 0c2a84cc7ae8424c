-- ===== src/Object/Timestamp/Laws.antt =====
-- Timestamps are read back from their print, and their order as texts is the order of time.
use filecloud.Prelude.{
  ℕ, ◌+◌, ◌*◌, ◌/◌, ◌%◌, ◌≤◌, ◌<◌, ◌≡◌, refl, true, ◌&&◌, ◌||◌, none, some, [], ◌∷◌, arith, ltb,
  ◌==◌, if◌then◌else◌, ap, sym, subst, ◌∙◌,
}
use filecloud.Prelude.Bytes.{Bytes, same_refl}
use filecloud.Prelude.ByteOrder.{before}
use filecloud.Prelude.Outcome.{ok}
use native.Mathlib.Nat.{mul-le-mul_right}
use filecloud.Object.Timestamp.{
  Civil, Time, utc, truncate_second, in_range, days_in, digit, two, civil, parse_time, format_time,
  tens, ones, parse_canonical_protocol_mtime, canonical_protocol_mtime,
}

-- A time of the Gregorian calendar in a year of four digits.
pub record IsCivil (t : Civil) : Type 0 where
  pub years : t.year < 10000
  pub fields : in_range t ≡ true

digit_pair :
    (n : ℕ)
    → n < 100
    → (digit (tens n) ≡ true) × (digit (ones n) ≡ true) × (two (tens n) (ones n) ≡ n)
digit_pair n h = (ground arith, ground arith, omega arith)

days-le : (y m : ℕ) → days_in y m ≤ 31
days-le y m = ground arith

-- Every field has two digits.
record Small (t : Civil) : Type 0 where
  century : t.year / 100 < 100
  year : t.year % 100 < 100
  month : t.month < 100
  day : t.day < 100
  hour : t.hour < 100
  minute : t.minute < 100
  second : t.second < 100

IsCivil-Small : (t : Civil) → IsCivil t → Small t
unfolding in_range
IsCivil-Small t c = ground (arith, days-le t.year t.month, c.years, c.fields)

digit-tens : (n : ℕ) → n < 100 → digit (tens n) ≡ true
digit-tens n h = (digit_pair n h).0

digit-ones : (n : ℕ) → n < 100 → digit (ones n) ≡ true
digit-ones n h = (digit_pair n h).1

two-digits : (n : ℕ) → n < 100 → two (tens n) (ones n) ≡ n
two-digits n h = (digit_pair n h).2

-- The digits that Format writes, read back.
civil-digits :
    (t : Civil)
    → Small t
    → civil
        (tens (t.year / 100))
        (ones (t.year / 100))
        (tens (t.year % 100))
        (ones (t.year % 100))
        (tens t.month)
        (ones t.month)
        (tens t.day)
        (ones t.day)
        (tens t.hour)
        (ones t.hour)
        (tens t.minute)
        (ones t.minute)
        (tens t.second)
        (ones t.second)
      ≡ t
civil-digits t h = λ i. record {
  year = years i;
  month = two-digits t.month h.month i;
  day = two-digits t.day h.day i;
  hour = two-digits t.hour h.hour i;
  minute = two-digits t.minute h.minute i;
  second = two-digits t.second h.second i;
}
  where
    years :
        two (tens (t.year / 100)) (ones (t.year / 100)) * 100
          + two (tens (t.year % 100)) (ones (t.year % 100))
        ≡ t.year
    years = omega (arith, two-digits (t.year / 100) h.century, two-digits (t.year % 100) h.year)

parse-format : (t : Civil) → IsCivil t → parse_time (format_time t) ≡ some t
unfolding parse_time format_time
parse-format t c =
    let h = IsCivil-Small t c in
    rw
      (
        digit-tens _ h.century,
        digit-ones _ h.century,
        digit-tens _ h.year,
        digit-ones _ h.year,
        digit-tens _ h.month,
        digit-ones _ h.month,
        digit-tens _ h.day,
        digit-ones _ h.day,
        digit-tens _ h.hour,
        digit-ones _ h.hour,
        digit-tens _ h.minute,
        digit-ones _ h.minute,
        digit-tens _ h.second,
        digit-ones _ h.second,
      )
      (subst (λ x. (if in_range x then some x else none) ≡ some t) (sym (civil-digits t h))
        (rw c.fields))

-- The print of a time, whose date in UTC has a year below 10000 and fields in their ranges, is read
-- back as that time in UTC, truncated to the second.
pub parse_canonical_protocol_mtime-canonical :
    (t : Time)
    → IsCivil t.date
    → parse_canonical_protocol_mtime (canonical_protocol_mtime t) ≡ ok (truncate_second (utc t))
unfolding parse_canonical_protocol_mtime canonical_protocol_mtime
parse_canonical_protocol_mtime-canonical t c =
    rw (parse-format t.date c, same_refl (format_time t.date)) refl

key_lt : (a b x y k : ℕ) → a < b → x < k → a * k + x < b * k + y
key_lt a b x y k h hx = omega (arith, mul-le-mul_right k h)

-- Comparing by a major part first, then by a minor part below `k`.
lexicographic :
    (a b x y k : ℕ)
    → x < k
    → y < k
    → (ltb a b || ((a == b) && ltb x y)) ≡ ltb (a * k + x) (b * k + y)
lexicographic a b x y k hx hy = ground (arith, key_lt a b x y k, key_lt b a y x k)

before-two :
    (m n : ℕ) (s r : Bytes)
    → m < 100
    → n < 100
    → before (tens m ∷ ones m ∷ s) (tens n ∷ ones n ∷ r) ≡ (ltb m n || ((m == n) && before s r))
before-two m n s r hm hn = ground arith

-- One more field in front of texts that compare as `x` and `y` do.
before_field :
    (m n : ℕ) (s r : Bytes) (x y k : ℕ)
    → m < 100
    → n < 100
    → x < k
    → y < k
    → before s r ≡ ltb x y
    → before (tens m ∷ ones m ∷ s) (tens n ∷ ones n ∷ r) ≡ ltb (m * k + x) (n * k + y)
before_field m n s r x y k hm hn hx hy e =
    before-two m n s r hm hn
    ∙ ap (λ q. ltb m n || ((m == n) && q)) e
    ∙ lexicographic m n x y k hx hy

abbrev seconds_key : Civil → ℕ
seconds_key t = t.second * 1 + 0

abbrev minutes_key : Civil → ℕ
minutes_key t = t.minute * 100 + seconds_key t

abbrev hours_key : Civil → ℕ
hours_key t = t.hour * 10000 + minutes_key t

abbrev days_key : Civil → ℕ
days_key t = t.day * 1000000 + hours_key t

abbrev months_key : Civil → ℕ
months_key t = t.month * 100000000 + days_key t

-- A number for each time, ordered as the times are: first by the year, then by the month, and so on.
abbrev pub order_key : Civil → ℕ
order_key t = t.year / 100 * 1000000000000 + (t.year % 100 * 10000000000 + months_key t)

-- What stands behind each field of the print.
abbrev behind_minute : Civil → Bytes
behind_minute t = b':' ∷ tens t.second ∷ ones t.second ∷ b'Z' ∷ []

abbrev behind_hour : Civil → Bytes
behind_hour t = b':' ∷ tens t.minute ∷ ones t.minute ∷ behind_minute t

abbrev behind_day : Civil → Bytes
behind_day t = b'T' ∷ tens t.hour ∷ ones t.hour ∷ behind_hour t

abbrev behind_month : Civil → Bytes
behind_month t = b'-' ∷ tens t.day ∷ ones t.day ∷ behind_day t

abbrev behind_year : Civil → Bytes
behind_year t = b'-' ∷ tens t.month ∷ ones t.month ∷ behind_month t

before-Small :
    (a b : Civil)
    → Small a
    → Small b
    → before (format_time a) (format_time b) ≡ ltb (order_key a) (order_key b)
unfolding format_time
before-Small a b p q =
    before_field (a.year / 100) (b.year / 100)
      (tens (a.year % 100) ∷ ones (a.year % 100) ∷ behind_year a)
      (tens (b.year % 100) ∷ ones (b.year % 100) ∷ behind_year b)
      (a.year % 100 * 10000000000 + months_key a) (b.year % 100 * 10000000000 + months_key b)
      1000000000000 p.century q.century (omega arith) (omega arith)
      (before_field (a.year % 100) (b.year % 100) (behind_year a) (behind_year b) (months_key a)
        (months_key b) 10000000000 p.year q.year (omega arith) (omega arith)
        (before_field (a.month) (b.month) (behind_month a) (behind_month b) (days_key a)
          (days_key b) 100000000 p.month q.month (omega arith) (omega arith)
          (before_field (a.day) (b.day) (behind_day a) (behind_day b) (hours_key a) (hours_key b)
            1000000 p.day q.day (omega arith) (omega arith)
            (before_field (a.hour) (b.hour) (behind_hour a) (behind_hour b) (minutes_key a)
              (minutes_key b) 10000 p.hour q.hour (omega arith) (omega arith)
              (before_field (a.minute) (b.minute) (behind_minute a) (behind_minute b)
                (seconds_key a) (seconds_key b) 100 p.minute q.minute (omega arith) (omega arith)
                (before_field (a.second) (b.second) (b'Z' ∷ []) (b'Z' ∷ []) (0) (0) 1 p.second
                  q.second (omega arith) (omega arith) refl))))))

-- The prints of two times, whose dates in UTC have years below 10000 and fields in their ranges,
-- compare as texts the way those dates compare.
pub before-canonical_protocol_mtime :
    (a b : Time)
    → IsCivil a.date
    → IsCivil b.date
    → before (canonical_protocol_mtime a) (canonical_protocol_mtime b)
      ≡ ltb (order_key a.date) (order_key b.date)
unfolding canonical_protocol_mtime
before-canonical_protocol_mtime a b ca cb =
    before-Small a.date b.date (IsCivil-Small a.date ca) (IsCivil-Small b.date cb)
