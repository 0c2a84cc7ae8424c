-- ===== src/Object/Names.antt =====
-- validName and ValidPath of internal/object/object.go.
pub mod Laws
use filecloud.Prelude.{
  ℕ, suc, ◌+◌, Bool, true, false, not, ◌&&◌, ◌||◌, Option, none, some, List, [], ◌∷◌, leb, ltb,
  ◌==◌, if◌then◌else◌, length, any,
}
use filecloud.Prelude.Bytes.{
  Bytes, codes, same, has_prefix, ends_with, before_byte, contains_byte, split,
}
use filecloud.Object.Text.{Unicode, to_upper, valid_utf8}

abbrev pub max_path_depth : ℕ
max_path_depth = 256

abbrev pub max_path_bytes : ℕ
max_path_bytes = 1024

abbrev pub forbidden : Bytes
forbidden = codes "<>:\"/\\|?*"

-- The test of one character; the characters that it finds are single bytes.
unfoldable pub bad_char : ℕ → Bool
bad_char r = leb r 0x1f || contains_byte forbidden r

abbrev is_digit_1_9 : Bytes → Bool
is_digit_1_9 (a ∷ b ∷ c ∷ d ∷ []) = leb b'1' d && leb d b'9'
is_digit_1_9 _ = false

-- The names of devices that Windows reserves, of a name in upper case.
unfoldable pub reserved : Bytes → Bool
reserved upper =
    same upper (codes "CON")
    || same upper (codes "PRN")
    || same upper (codes "AUX")
    || same upper (codes "NUL")
    || ((has_prefix upper (codes "COM") || has_prefix upper (codes "LPT")) && is_digit_1_9 upper)

-- The first test of validName, a chain of `||`.
unfoldable pub bad_form : Unicode → Bytes → Bool
bad_form u name =
    same name []
    || not (same name (u.nfc name))
    || ltb 240 (length name)
    || same name (codes ".")
    || same name (codes "..")
    || has_prefix name (codes ".filecloud-internal-")
    || ends_with name b' '
    || ends_with name b'.'

unfoldable pub valid_name : Unicode → Bytes → Bool
valid_name u name =
    if bad_form u name
    then false
    else if any bad_char name
    then false
    else not (reserved (to_upper (before_byte b'.' name)))

-- The loop over the components; `depth` counts those before.
valid_components : Unicode → ℕ → List Bytes → Bool
valid_components u depth [] = true
valid_components u depth (component ∷ rest) =
    if ltb max_path_depth (depth + 1) || not (valid_name u component)
    then false
    else valid_components u (depth + 1) rest

unfoldable pub valid_path : Unicode → Bytes → Bool
unfolding valid_components
valid_path u value =
    if same value (codes ".")
    then true
    else if same value [] || ltb max_path_bytes (length value) || not (valid_utf8 value)
    then false
    else valid_components u 0 (split value b'/')
