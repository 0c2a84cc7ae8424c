-- ===== src/Object/Decimal.antt =====
-- parseDecimal of internal/object/object.go, with strconv.ParseInt, Atoi and FormatInt.
pub mod RoundTrip
pub mod Laws
use filecloud.Prelude.{
  ℕ, zero, suc, ◌+◌, ◌-◌, ◌*◌, ◌/◌, ◌%◌, ◌^◌, Bool, true, false, not, ◌&&◌, ◌||◌, Option, none,
  some, [], ◌∷◌, leb, ltb, ◌==◌, if◌then◌else◌, length,
}
use filecloud.Prelude.Bytes.{Bytes, same}
use filecloud.Prelude.Int.{ℤ, pos, negsuc}
use filecloud.Prelude.Outcome.{Result, ok, err, failed, payload_too_large}

-- The loop of strconv.ParseUint in base 10 with 64 bits. `n >= cutoff` is the test for the product,
-- and the sum is tested by wrapping around.
parse_digits : Bytes → ℕ → Option ℕ
parse_digits [] n = some n
parse_digits (c ∷ s) n =
    let d = c - b'0' in
    let sum = (n * 10 + d) % 2 ^ 64 in
    if ltb c b'0' || ltb b'9' c
    then none
    else if leb ((2 ^ 64 - 1) / 10 + 1) n
    then none
    else if ltb sum (n * 10)
    then none
    else parse_digits s sum

abbrev parse_uint : Bytes → Option ℕ
parse_uint [] = none
parse_uint (c ∷ s) = parse_digits (c ∷ s) 0

-- The bounds of int64, and the sign.
abbrev positive : Option ℕ → Option ℤ
positive none = none
positive (some n) = if leb (2 ^ 63) n then none else some (pos n)

abbrev negated : ℕ → ℤ
negated zero = pos 0
negated (suc n) = negsuc n

abbrev negative : Option ℕ → Option ℤ
negative none = none
negative (some n) = if ltb (2 ^ 63) n then none else some (negated n)

-- strconv.ParseInt(s, 10, 64), and strconv.Atoi on a 64-bit machine.
unfoldable pub parse_int : Bytes → Option ℤ
unfolding parse_digits
parse_int [] = none
parse_int (c ∷ s) =
    if c == b'+'
    then positive (parse_uint s)
    else if c == b'-'
    then negative (parse_uint s)
    else positive (parse_uint (c ∷ s))

format_from : ℕ → ℕ → Bytes → Bytes
format_from zero n out = out
format_from (suc fuel) n out =
    let more = format_from fuel (n / 10) ((b'0' + n % 10) ∷ out) in
    if ltb n 10 then (b'0' + n) ∷ out else more

-- The decimal digits of a number. There are at most `n + 1` rounds, since each divides by ten.
unfoldable pub format : ℕ → Bytes
unfolding format_from
format n = format_from (suc n) n []

-- strconv.FormatInt in base 10
unfoldable pub format_int : ℤ → Bytes
unfolding format
format_int (pos n) = format n
format_int (negsuc n) = b'-' ∷ format (suc n)

abbrev pub leading_zero : Bytes → Bool
leading_zero [] = false
leading_zero (c ∷ s) = ltb 1 (length (c ∷ s)) && (c == b'0')

-- The tests behind ParseInt.
abbrev checked : Bytes → ℕ → Option ℤ → Result ℕ
checked value maximum none = err (failed "invalid decimal string")
checked value maximum (some (negsuc n)) = err (failed "invalid decimal string")
checked value maximum (some (pos n)) =
    if not (same (format_int (pos n)) value)
    then err (failed "invalid decimal string")
    else if ltb maximum n
    then err payload_too_large
    else ok n

unfoldable pub parse_decimal : Bytes → ℕ → Result ℕ
unfolding parse_int format_int
parse_decimal value maximum =
    if same value [] || leading_zero value
    then err (failed "invalid decimal string")
    else checked value maximum (parse_int value)
