-- ===== src/Object/Surrogates.antt =====
-- validEscapedSurrogates of internal/object/object.go.
use filecloud.Prelude.{
  ℕ, zero, suc, ◌+◌, ◌*◌, Bool, true, false, not, ◌&&◌, ◌||◌, Option, none, some, [], ◌∷◌, leb, ltb,
  ◌==◌, if◌then◌else◌, length, drop,
}
use filecloud.Prelude.Bytes.{Bytes}
use filecloud.Object.Text.{hex_value}

abbrev shifted : Option ℕ → Option ℕ → Option ℕ
shifted (some n) (some d) = some (n * 16 + d)
shifted _ _ = none

-- strconv.ParseUint(string(data[i:i+4]), 16, 16)
abbrev pub hex4 : Bytes → Option ℕ
hex4 (a ∷ b ∷ c ∷ d ∷ s) =
    shifted (shifted (shifted (hex_value a) (hex_value b)) (hex_value c)) (hex_value d)
hex4 _ = none

abbrev low_half : Option ℕ → Option ℕ
low_half none = none
low_half (some low) = if ltb low 0xdc00 || ltb 0xdfff low then none else some 11

-- What follows the four digits of a high surrogate: `\u` and the digits of a low one.
abbrev pair_of : Bytes → Option ℕ
pair_of (a ∷ b ∷ s) =
    if ltb (length (a ∷ b ∷ s)) 6 || not (a == b'\\') || not (b == b'u')
    then none
    else low_half (hex4 s)
pair_of _ = none

abbrev escaped : Bytes → Option ℕ → Option ℕ
escaped s none = none
escaped s (some value) =
    if leb 0xdc00 value && leb value 0xdfff
    then none
    else if ltb value 0xd800 || ltb 0xdbff value
    then some 5
    else pair_of (drop 4 s)

-- How many bytes the loop passes over behind a backslash; none where it returns false.
abbrev after_backslash : Bytes → Option ℕ
after_backslash [] = some 0
after_backslash (d ∷ s) = if not (d == b'u') || ltb (length s) 4 then some 1 else escaped s (hex4 s)

abbrev passed : ℕ → Bytes → Option ℕ
passed c s = if not (c == b'\\') then some 0 else after_backslash s

-- The first argument counts the bytes that `i += n` still has to pass over.
surrogates_from : ℕ → Bytes → Bool
surrogates_from n [] = true
surrogates_from (suc n) (c ∷ s) = surrogates_from n s
surrogates_from zero (c ∷ s) = elim (passed c s) [ none ↦ false | some n ↦ surrogates_from n s ]

unfoldable pub valid_escaped_surrogates : Bytes → Bool
unfolding surrogates_from
valid_escaped_surrogates = surrogates_from 0
