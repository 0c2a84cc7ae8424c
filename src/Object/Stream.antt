-- ===== src/Object/Stream.antt =====
-- json.Decoder as the decoders of internal/object/object.go see it, and their readers of one value:
-- decodeJSONContainer, decodeJSONString, decodeJSONInt, consumeJSONValue and consumeJSONContainer.
pub mod Progress
use filecloud.Prelude.{
  ℕ, zero, suc, ◌+◌, Bool, true, false, not, ◌&&◌, ◌||◌, Option, none, some, List, [], ◌∷◌, leb,
  ltb, ◌==◌, if◌then◌else◌, String,
}
use filecloud.Prelude.Bytes.{Bytes}
use filecloud.Prelude.Outcome.{
  Result, ok, err, failed, payload_too_large, out_of_fuel, ◌>>=◌, ◌>>◌, require,
}
use filecloud.Prelude.Int.{ℤ}
use filecloud.Object.Decimal.{parse_int}

-- The tokens that Decoder.Token returns under UseNumber; a delimiter is its byte.
pub data Token : Type 0 where
  delim : ℕ → Token
  text : Bytes → Token
  number : Bytes → Token
  boolean : Bool → Token
  null : Token

-- The tokens that are still to come: up to the end of the input, or up to a syntax error. Behind the
-- last good token, More may answer either way; the flag says which.
infixr 67 ◌▸◌
pub data Stream : Type 0 where
  eof : Stream
  broken : Bool → Stream
  ◌▸◌ : Token → Stream → Stream

abbrev pub size : Stream → ℕ
size eof = 0
size (broken b) = 0
size (t ▸ s) = suc (size s)

abbrev is_closing : Token → Bool
is_closing (delim c) = (c == b']') || (c == b'}')
is_closing _ = false

-- Decoder.More
abbrev pub more : Stream → Bool
more eof = false
more (broken b) = b
more (t ▸ s) = not (is_closing t)

-- Decoder.Token
abbrev pub next : Stream → Result (Token × Stream)
next eof = err (failed "EOF")
next (broken b) = err (failed "syntax error")
next (t ▸ s) = ok (t, s)

-- `token, err := decoder.Token(); !errors.Is(err, io.EOF) || token != nil`
abbrev pub at_end : Stream → Result (Unit {0})
at_end eof = ok tt
at_end _ = err (failed "trailing JSON data")

abbrev pub max_nesting : ℕ
max_nesting = 256

abbrev pub matching : ℕ → ℕ → Bool
matching opening closing =
    ((opening == b'{') && (closing == b'}')) || ((opening == b'[') && (closing == b']'))

abbrev pub closed_by : ℕ → Token × Stream → Result Stream
closed_by opening (delim c, s) =
    if matching opening c then ok s else err (failed "invalid JSON structure")
closed_by opening (_, s) = err (failed "invalid JSON structure")

-- The key in front of a value, inside an object.
abbrev pub key_of : Token × Stream → Result Stream
key_of (text name, s) = ok s
key_of _ = err (failed "JSON object key is not a string")

abbrev pub skip_key : ℕ → Stream → Result Stream
skip_key opening s = if opening == b'{' then (next s >>= key_of) else ok s

-- The tests at the head of consumeJSONContainer.
abbrev pub enter : ℕ → ℕ → Result (Unit {0})
enter opening depth =
    if ltb max_nesting depth
    then err payload_too_large
    else require ((opening == b'{') || (opening == b'[')) (failed "invalid JSON delimiter")

-- One value inside a container, and the rest of the container by `loop`.
abbrev pub consume_one : (ℕ → ℕ → Stream → Result Stream) → ℕ → ℕ → Token × Stream → Result Stream
consume_one loop opening depth (delim d, s) = do
  enter d (depth + 1)
  s₁ ← loop d (depth + 1) s
  loop opening depth s₁
consume_one loop opening depth (_, s) = loop opening depth s

-- The loop of consumeJSONContainer with the closing delimiter behind it; `depth` is the container's.
consume_items : ℕ → ℕ → ℕ → Stream → Result Stream
consume_items zero opening depth s = err out_of_fuel
consume_items (suc fuel) opening depth s = elim (more s) [
  | false ↦ next s >>= closed_by opening
  | true ↦ skip_key opening s >>= λ s₁. next s₁ >>= consume_one (consume_items fuel) opening depth
]

-- Every round reads a token, so one round more than there are tokens is enough.
unfoldable pub consume_container : ℕ → ℕ → Stream → Result Stream
unfolding consume_items
consume_container opening depth s = do
  enter opening depth
  consume_items (suc (size s)) opening depth s

unfoldable pub consume_value : ℕ → Stream → Result Stream
consume_value depth s = do
  (t, s₁) ← next s
  elim t [ delim d ↦ consume_container d depth s₁ | _ ↦ ok s₁ ]

-- A container in the place of another value is read to its end, for its errors.
abbrev pub refuse {ℓ} : {A : Type ℓ} → ℕ → Token × Stream → String → Result A
refuse depth (delim d, s) what = consume_container d depth s >>= λ _. err (failed what)
refuse depth (_, s) what = err (failed what)

unfoldable pub decode_container : ℕ → ℕ → String → Stream → Result Stream
decode_container expected depth what s = do
  (t, s₁) ← next s
  elim t [
    | delim d ↦
        if d == expected
        then (if ltb max_nesting depth then err payload_too_large else ok s₁)
        else refuse depth (delim d, s₁) what
    | _ ↦ err (failed what)
  ]

unfoldable pub decode_string : ℕ → String → Stream → Result (Bytes × Stream)
decode_string depth what s = do
  (t, s₁) ← next s
  elim t [
    | text value ↦ ok (value, s₁)
    | delim d ↦ refuse depth (delim d, s₁) what
    | _ ↦ err (failed what)
  ]

abbrev pub int_of : Option ℤ → String → Stream → Result (ℤ × Stream)
int_of none what s = err (failed what)
int_of (some n) what s = ok (n, s)

unfoldable pub decode_int : ℕ → String → Stream → Result (ℤ × Stream)
decode_int depth what s = do
  (t, s₁) ← next s
  elim t [
    | number digits ↦ int_of (parse_int digits) what s₁
    | delim d ↦ refuse depth (delim d, s₁) what
    | _ ↦ err (failed what)
  ]
