-- ===== src/Object/Decimal/Laws.antt =====
-- What parseDecimal accepts.
use filecloud.Prelude.{
  ℕ, ◌^◌, ◌≤◌, ◌<◌, ◌≡◌, ◌≢◌, ◌↔◌, ◌||◌, Option, none, some, [], arith, Bool-cases, inl, inr,
}
use filecloud.Prelude.Bytes.{Bytes, same, same_iff, same_refl}
use filecloud.Prelude.Outcome.{ok, err, out_of_fuel, Error}
use filecloud.Prelude.Int.{ℤ, pos, negsuc}
use filecloud.Object.Decimal.{parse_int, format, format_int, parse_decimal, leading_zero, checked}
use filecloud.Object.Decimal.RoundTrip.{parse_int-format, leading_zero-format, format-nil}

checked_sound :
    (value : Bytes) (maximum n : ℕ) (r : Option ℤ)
    → checked value maximum r ≡ ok n
    → (value ≡ format n) × (n ≤ maximum)
unfolding format_int
checked_sound value maximum n none h = cc
checked_sound value maximum n (some (negsuc k)) h = cc
checked_sound value maximum n (some (pos k)) h = ground (arith, same_iff (format k) value)

parse_decimal_sound :
    (value : Bytes) (maximum n : ℕ)
    → parse_decimal value maximum ≡ ok n
    → (value ≡ format n) × (n ≤ maximum)
unfolding parse_decimal
parse_decimal_sound value maximum n h = elim (Bool-cases (same value [] || leading_zero value)) [
  | inl bad ↦ let h' = (rw bad at h) in cc
  | inr good ↦ checked_sound value maximum n (parse_int value) (rw good at h)
]

checked_complete : (maximum n : ℕ) → n ≤ maximum → checked (format n) maximum (some (pos n)) ≡ ok n
unfolding format_int
checked_complete maximum n h = ground (arith, same_refl (format n))

parse_decimal_complete :
    (maximum n : ℕ) → n < 2 ^ 63 → n ≤ maximum → parse_decimal (format n) maximum ≡ ok n
unfolding parse_decimal
parse_decimal_complete maximum n fits h =
    rw (format-nil n, leading_zero-format n, parse_int-format n fits) (checked_complete maximum n h)

-- For a maximum below 2 ^ 63, parseDecimal returns a number exactly for the canonical print of that
-- number, if it is at most the maximum.
pub parse_decimal_iff :
    (value : Bytes) (maximum n : ℕ)
    → maximum < 2 ^ 63
    → (parse_decimal value maximum ≡ ok n) ↔ ((value ≡ format n) × (n ≤ maximum))
parse_decimal_iff value maximum n fits = (
  parse_decimal_sound value maximum n,
  λ (e, h). rw e (parse_decimal_complete maximum n (omega arith) h),
)

checked-err :
    (value : Bytes) (maximum : ℕ) (r : Option ℤ) (e : Error)
    → checked value maximum r ≡ err e
    → e ≢ out_of_fuel
checked-err value maximum none e h k = cc
checked-err value maximum (some (negsuc n)) e h k = cc
checked-err value maximum (some (pos n)) e h k = ground arith

-- A refusal is one of the program's two errors.
pub parse_decimal-err :
    (value : Bytes) (maximum : ℕ) (e : Error)
    → parse_decimal value maximum ≡ err e
    → e ≢ out_of_fuel
unfolding parse_decimal
parse_decimal-err value maximum e h k =
    ground (arith, checked-err value maximum (parse_int value) e)
