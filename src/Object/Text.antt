-- ===== src/Object/Text.antt =====
-- What internal/object takes from other packages: golang.org/x/text (parameters), and the functions
-- of strings, unicode/utf8 and encoding/hex that it calls.
use filecloud.Prelude.{
  ℕ, zero, suc, ◌+◌, ◌-◌, ◌*◌, ◌/◌, ◌%◌, ◌≡◌, refl, Bool, true, false, ◌&&◌, ◌||◌, Option, none,
  some, [], ◌∷◌, leb, ltb, ◌==◌, if◌then◌else◌, ap,
}
use filecloud.Prelude.Bytes.{Bytes}

-- norm.NFC.String and cases.Fold().String of golang.org/x/text.
pub record Unicode : Type 0 where
  pub nfc : Bytes → Bytes
  pub fold : Bytes → Bytes

-- strings.ToLower. Only ASCII letters are changed: the callers refuse a text with any other byte.
abbrev pub lower : ℕ → ℕ
lower c = if leb b'A' c && leb c b'Z' then c + 32 else c

abbrev pub to_lower : Bytes → Bytes
to_lower [] = []
to_lower (c ∷ s) = lower c ∷ to_lower s

-- strings.ToUpper. The code points outside ASCII whose upper form is ASCII are U+0131 and U+017F;
-- the others keep their bytes here, since the caller compares the result with ASCII texts alone.
abbrev pub upper : ℕ → ℕ
upper c = if leb b'a' c && leb c b'z' then c - 32 else c

abbrev pub to_upper : Bytes → Bytes
to_upper [] = []
to_upper (c ∷ []) = upper c ∷ []
to_upper (c ∷ d ∷ s) =
    if (c == 0xc4) && (d == 0xb1)
    then b'I' ∷ to_upper s
    else if (c == 0xc5) && (d == 0xbf)
    then b'S' ∷ to_upper s
    else upper c ∷ to_upper (d ∷ s)

-- The digits of encoding/hex, either case, and the digits of strconv.ParseUint in base 16.
abbrev pub hex_value : ℕ → Option ℕ
hex_value c =
    if leb b'0' c && leb c b'9'
    then some (c - b'0')
    else if leb b'a' c && leb c b'f'
    then some (c - b'a' + 10)
    else if leb b'A' c && leb c b'F'
    then some (c - b'A' + 10)
    else none

abbrev pub pair_value : Option ℕ → Option ℕ → Option Bytes → Option Bytes
pair_value (some x) (some y) (some rest) = some ((x * 16 + y) ∷ rest)
pair_value _ _ _ = none

-- hex.DecodeString; an odd length is an error.
abbrev pub hex_decode : Bytes → Option Bytes
hex_decode [] = some []
hex_decode (a ∷ []) = none
hex_decode (a ∷ b ∷ s) = pair_value (hex_value a) (hex_value b) (hex_decode s)

abbrev pub hex_digit : ℕ → ℕ
hex_digit d = if ltb d 10 then b'0' + d else b'a' + (d - 10)

-- hex.EncodeToString
abbrev pub hex_encode : Bytes → Bytes
hex_encode [] = []
hex_encode (b ∷ s) = hex_digit (b / 16) ∷ hex_digit (b % 16) ∷ hex_encode s

-- The next `n` bytes continue a code point; the first of them lies in lo..hi.
abbrev continues : ℕ → ℕ → ℕ → Bytes → Bool
continues zero lo hi s = true
continues (suc n) lo hi [] = false
continues (suc n) lo hi (c ∷ s) = leb lo c && leb c hi && continues n 0x80 0xbf s

-- How many bytes the code point in front takes, as unicode/utf8 reads it; 0 if it is invalid.
rune_width : Bytes → ℕ
rune_width [] = 0
rune_width (a ∷ s) =
    if ltb a 0x80
    then 1
    else if leb 0xc2 a && leb a 0xdf && continues 1 0x80 0xbf s
    then 2
    else if (a == 0xe0) && continues 2 0xa0 0xbf s
    then 3
    else if (a == 0xed) && continues 2 0x80 0x9f s
    then 3
    else if leb 0xe1 a && leb a 0xef && (leb a 0xec || leb 0xee a) && continues 2 0x80 0xbf s
    then 3
    else if (a == 0xf0) && continues 3 0x90 0xbf s
    then 4
    else if (a == 0xf4) && continues 3 0x80 0x8f s
    then 4
    else if leb 0xf1 a && leb a 0xf3 && continues 3 0x80 0xbf s
    then 4
    else 0

-- The first argument counts the bytes left of a code point that is already read.
valid_from : ℕ → Bytes → Bool
valid_from n [] = true
valid_from (suc n) (c ∷ s) = valid_from n s
valid_from zero (c ∷ s) = elim (rune_width (c ∷ s)) [ zero ↦ false | suc n ↦ valid_from n s ]

-- utf8.ValidString and utf8.Valid
unfoldable pub valid_utf8 : Bytes → Bool
unfolding valid_from rune_width
valid_utf8 = valid_from 0

replaced_from : ℕ → Bytes → Bytes
replaced_from n [] = []
replaced_from (suc n) (c ∷ s) = c ∷ replaced_from n s
replaced_from zero (c ∷ s) = elim (rune_width (c ∷ s)) [
  | zero ↦ 0xef ∷ 0xbf ∷ 0xbd ∷ replaced_from 0 s
  | suc n ↦ c ∷ replaced_from n s
]

-- The text that `for _, r := range value` reads: an invalid byte reads as U+FFFD.
unfoldable pub range_text : Bytes → Bytes
unfolding replaced_from rune_width
range_text = replaced_from 0

replaced_from-valid : (n : ℕ) (s : Bytes) → valid_from n s ≡ true → replaced_from n s ≡ s
unfolding valid_from replaced_from
replaced_from-valid n [] h = refl
replaced_from-valid (suc n) (c ∷ s) h = ap (λ r. c ∷ r) (replaced_from-valid n s h)
replaced_from-valid zero (c ∷ s) h = at_width (rune_width (c ∷ s)) (λ n. replaced_from-valid n s) h
  where
    at_width :
        (w : ℕ)
        → ((n : ℕ) → valid_from n s ≡ true → replaced_from n s ≡ s)
        → elim w [ zero ↦ false | suc n ↦ valid_from n s ] ≡ true
        → elim w [ zero ↦ 0xef ∷ 0xbf ∷ 0xbd ∷ replaced_from 0 s | suc n ↦ c ∷ replaced_from n s ]
          ≡ c ∷ s
    at_width zero ih h = cc
    at_width (suc n) ih h = ap (λ r. c ∷ r) (ih n h)

-- A valid text is read as it stands.
pub range_text-valid : (s : Bytes) → valid_utf8 s ≡ true → range_text s ≡ s
unfolding valid_utf8 range_text
range_text-valid = replaced_from-valid 0
