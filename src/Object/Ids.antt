-- ===== src/Object/Ids.antt =====
-- ID and ValidID of internal/object/object.go, and validUUID.
pub mod Laws
use filecloud.Prelude.{
  ℕ, ◌+◌, ◌-◌, ◌/◌, ◌%◌, Bool, true, false, not, ◌&&◌, ◌||◌, Option, none, some, List, [], ◌∷◌, leb,
  ltb, ◌==◌, if◌then◌else◌, length, get_elem?,
}
use filecloud.Prelude.Bytes.{Bytes, same}
use filecloud.Object.Text.{to_lower, hex_decode, hex_encode}

-- `sha256` stands for sha256.Sum256.
unfoldable pub id : (Bytes → Bytes) → Bytes → Bytes
id sha256 content = hex_encode (sha256 content)

abbrev decodes : Option Bytes → Bool
decodes none = false
decodes (some d) = true

unfoldable pub valid_id : Bytes → Bool
valid_id value =
    if not (length value == 64) || not (same (to_lower value) value)
    then false
    else decodes (hex_decode value)

-- `value[i]`, where the length test in front keeps the index in range.
abbrev is_at : Bytes → ℕ → ℕ → Bool
is_at value i c = elim (get_elem? value i) [ none ↦ false | some b ↦ b == c ]

-- strings.ReplaceAll(value, "-", "")
abbrev without_dashes : Bytes → Bytes
without_dashes [] = []
without_dashes (c ∷ s) = if c == b'-' then without_dashes s else c ∷ without_dashes s

abbrev at_or_zero : Bytes → ℕ → ℕ
at_or_zero d i = elim (get_elem? d i) [ none ↦ 0 | some b ↦ b ]

-- The version nibble, and the variant `decoded[8] & 0xc0 == 0x80`.
abbrev valid_version : Option Bytes → Bool
valid_version none = false
valid_version (some d) =
    if not (length d == 16)
    then false
    else let version = at_or_zero d 6 / 16 in
      leb 1 version && leb version 8 && (at_or_zero d 8 / 64 == 2)

unfoldable pub valid_uuid : Bytes → Bool
valid_uuid value =
    if not (length value == 36)
      || not (is_at value 8 b'-')
      || not (is_at value 13 b'-')
      || not (is_at value 18 b'-')
      || not (is_at value 23 b'-')
      || not (same (to_lower value) value)
    then false
    else valid_version (hex_decode (without_dashes value))
