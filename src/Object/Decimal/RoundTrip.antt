-- ===== src/Object/Decimal/RoundTrip.antt =====
-- Reading the digits of a number gives the number.
use filecloud.Prelude.{
  ℕ, zero, suc, ◌+◌, ◌/◌, ◌%◌, ◌^◌, ◌≤◌, ◌<◌, ◌≡◌, refl, false, some, [], ◌∷◌, arith, ltb,
  Bool-cases, inl, inr, ◌∙◌,
}
use filecloud.Prelude.Bytes.{Bytes, same, contains_byte}
use filecloud.Prelude.Int.{pos}
use filecloud.Object.Decimal.{parse_digits, positive, parse_int, format_from, format, leading_zero}

abbrev IsWord : ℕ → Type 0
IsWord n = n < 2 ^ 64

-- One more digit behind a number that has room for it.
parse_last :
    (n : ℕ) (out : Bytes)
    → IsWord n
    → parse_digits ((b'0' + n % 10) ∷ out) (n / 10) ≡ parse_digits out n
unfolding parse_digits
parse_last n out h = ground arith

parse_single :
    (n : ℕ) (out : Bytes) → n < 10 → parse_digits ((b'0' + n) ∷ out) 0 ≡ parse_digits out n
unfolding parse_digits
parse_single n out h = ground arith

parse_digits-format_from :
    (fuel n : ℕ) (out : Bytes)
    → n < fuel
    → IsWord n
    → parse_digits (format_from fuel n out) 0 ≡ parse_digits out n
unfolding format_from
parse_digits-format_from zero n out h k = elim h [ ]
parse_digits-format_from (suc fuel) n out h k = ground (
  arith,
  parse_single n out,
  parse_last n out k,
  parse_digits-format_from fuel (n / 10) ((b'0' + n % 10) ∷ out),
)

-- The first digit, which is no zero unless the number is.
record Head (n : ℕ) (s : Bytes) : Type 0 where
  first : ℕ
  rest : Bytes
  shape : s ≡ first ∷ rest
  digit : (b'0' ≤ first) × (first ≤ b'9')
  significant : 0 < n → b'0' < first

first_digit : (fuel n : ℕ) (out : Bytes) → n < fuel → Head n (format_from fuel n out)
unfolding format_from
first_digit zero n out h = elim h [ ]
first_digit (suc fuel) n out h = elim (Bool-cases (ltb n 10)) [
  | inl small ↦ record {
    first = b'0' + n;
    rest = out;
    shape = rw small;
    digit = ground arith;
    significant = λ p. omega arith;
  }
  | inr large ↦
      let ih = first_digit fuel (n / 10) ((b'0' + n % 10) ∷ out) (ground arith) in
      record {
        first = ih.first;
        rest = ih.rest;
        shape = rw large ih.shape;
        digit = ih.digit;
        significant = λ p. ih.significant (ground arith);
      }
]

first-format : (n : ℕ) → Head n (format n)
unfolding format
first-format n = first_digit (suc n) n [] (omega arith)

no_sign :
    (c : ℕ) (s : Bytes)
    → b'0' ≤ c
    → c ≤ b'9'
    → parse_int (c ∷ s) ≡ positive (parse_digits (c ∷ s) 0)
unfolding parse_int
no_sign c s h k = ground arith

parse_int_of_first : (n : ℕ) (s : Bytes) → Head n s → parse_int s ≡ positive (parse_digits s 0)
parse_int_of_first n s h = rw h.shape (no_sign h.first h.rest h.digit.0 h.digit.1)

parse_digits-nil : (n : ℕ) → parse_digits [] n ≡ some n
unfolding parse_digits
parse_digits-nil n = refl

parse_digits-format : (n : ℕ) → n < 2 ^ 63 → parse_digits (format n) 0 ≡ some n
unfolding format
parse_digits-format n h =
    parse_digits-format_from (suc n) n [] (omega arith) (omega arith) ∙ parse_digits-nil n

-- Every int64 that is not negative is read back from its digits.
pub parse_int-format : (n : ℕ) → n < 2 ^ 63 → parse_int (format n) ≡ some (pos n)
parse_int-format n h =
    rw (parse_int_of_first n (format n) (first-format n), parse_digits-format n h) (ground arith)

leading_zero_of_first : (n : ℕ) (s : Bytes) → 0 < n → Head n s → leading_zero s ≡ false
leading_zero_of_first n s p h = rw h.shape (let q = h.significant p in ground arith)

-- The digits of a number start with a zero only for zero itself.
pub leading_zero-format : (n : ℕ) → leading_zero (format n) ≡ false
leading_zero-format zero = unfold format format_from in refl
leading_zero-format (suc n) =
    leading_zero_of_first (suc n) (format (suc n)) (omega arith) (first-format (suc n))

nil_of_first : (n : ℕ) (s : Bytes) → Head n s → same s [] ≡ false
nil_of_first n s h = rw h.shape refl

pub format-nil : (n : ℕ) → same (format n) [] ≡ false
format-nil n = nil_of_first n (format n) (first-format n)

contains_byte-format_from :
    (fuel n : ℕ) (out : Bytes) (b : ℕ)
    → b < b'0'
    → contains_byte out b ≡ false
    → contains_byte (format_from fuel n out) b ≡ false
unfolding format_from
contains_byte-format_from zero n out b low h = h
contains_byte-format_from (suc fuel) n out b low h = elim (Bool-cases (ltb n 10)) [
  | inl e ↦ rw e (ground (arith, h))
  | inr e ↦
      rw e
        (contains_byte-format_from fuel (n / 10) ((b'0' + n % 10) ∷ out) b low (ground (arith, h)))
]

-- There is nothing below the digits in a number's digits.
pub contains_byte-format : (n b : ℕ) → b < b'0' → contains_byte (format n) b ≡ false
unfolding format
contains_byte-format n b low = contains_byte-format_from (suc n) n [] b low refl
