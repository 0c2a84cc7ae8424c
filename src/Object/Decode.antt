-- ===== src/Object/Decode.antt =====
-- The decoders of internal/object/object.go. The loops over the fields of an object have one shape
-- in the source, and so have those over the items of an array; here they are two functions.
pub mod Loops
pub mod Progress
use filecloud.Prelude.{
  ℕ, zero, suc, ◌+◌, Bool, true, false, not, ◌&&◌, ◌||◌, Option, none, some, List, [], ◌∷◌, ◌++◌,
  leb, ltb, ◌==◌, if◌then◌else◌, String, length,
}
use filecloud.Prelude.Bytes.{Bytes, codes, same}
use filecloud.Prelude.Sets.{ByteSet, member, add}
use filecloud.Prelude.Outcome.{
  Result, ok, err, failed, payload_too_large, out_of_fuel, ◌>>=◌, ◌>>◌, require,
}
use filecloud.Object.Ids.{valid_id, valid_uuid}
use filecloud.Prelude.Int.{ℤ, pos}
use filecloud.Object.Decimal.{parse_decimal}
use filecloud.Object.Timestamp.{valid_timestamp}
use filecloud.Object.Stream.{
  Token, delim, text, number, boolean, null, Stream, ◌▸◌, size, more, next, at_end, consume_value,
  decode_container, decode_string, decode_int, refuse,
}
use filecloud.Object.Values.{
  FileObject, DirectoryEntry, DirectoryObject, CommitObject, no_file, no_entry, no_directory,
  no_commit,
}

abbrev pub max_file_size : ℕ
max_file_size = 1099511627776

abbrev pub max_blocks : ℕ
max_blocks = 262144

abbrev pub max_entries : ℕ
max_entries = 100000

abbrev pub max_parents : ℕ
max_parents = 2

-- What a loop over fields has read.
pub record Fields {ℓ} (V : Type ℓ) : Type ℓ where
  pub seen : ByteSet
  pub value : V

-- The name of the next field, which must be a new one.
abbrev pub new_field : ByteSet → Token × Stream → Result (Bytes × Stream)
new_field seen (text name, s) =
    if member name seen then err (failed "duplicate field") else ok (name, s)
new_field seen (_, s) = err (failed "field is not a string")

module _ {ℓ} {V : Type ℓ} (field : Bytes → V → Stream → Result (V × Stream)) where
  -- `for decoder.More()` over the fields. A field name and its value are one round.
  unfoldable pub fields_from : ℕ → Fields V → Stream → Result (Fields V × Stream)
  fields_from zero r s = err out_of_fuel
  fields_from (suc fuel) r s = elim (more s) [
    | false ↦ ok (r, s)
    | true ↦ next s >>= new_field r.seen >>= λ (name, s₁). field name r.value s₁ >>= λ (value, s₂).
        fields_from fuel (record { seen = add name r.seen; value = value }) s₂
  ]

module _ {ℓ} {A : Type ℓ} (limit : ℕ) (item : Stream → Result (A × Stream)) where
  -- `for decoder.More()` over the items, with the test of their number in front of each.
  unfoldable pub items_from : ℕ → List A → Stream → Result (List A × Stream)
  items_from zero items s = err out_of_fuel
  items_from (suc fuel) items s = elim (more s) [
    | false ↦ ok (items, s)
    | true ↦
        if length items == limit
        then err payload_too_large
        else item s >>= λ (a, s₁). items_from fuel (items ++ a ∷ []) s₁
  ]

abbrev pub is_delim : ℕ → String → Token × Stream → Result Stream
is_delim c what (delim d, s) = if d == c then ok s else err (failed what)
is_delim c what (_, s) = err (failed what)

-- The closing brace, and the number of fields that must have been there.
abbrev pub closed {ℓ} : {V : Type ℓ} → ℕ → String → Fields V × Stream → Result (V × Stream)
closed count what (r, s) = do
  s₁ ← next s >>= is_delim b'}' what
  require (length r.seen == count) (failed what)
  ok (r.value, s₁)

-- An object with its braces, and an array with its brackets; every round reads a token.
module _ {ℓ} {V : Type ℓ} (field : Bytes → V → Stream → Result (V × Stream)) where
  unfoldable pub decode_object : ℕ → ℕ → String → V → Stream → Result (V × Stream)
  unfolding fields_from
  decode_object depth count what start s = do
    s₁ ← decode_container b'{' depth what s
    r ← fields_from field (suc (size s₁)) (record { seen = []; value = start }) s₁
    closed count what r

module _ {ℓ} {A : Type ℓ} (limit : ℕ) (item : Stream → Result (A × Stream)) where
  unfoldable pub decode_array : ℕ → String → Stream → Result (List A × Stream)
  unfolding items_from
  decode_array depth what s = do
    s₁ ← decode_container b'[' depth what s
    (items, s₂) ← items_from limit item (suc (size s₁)) [] s₁
    s₃ ← next s₂ >>= is_delim b']' what
    ok (items, s₃)

-- Nothing follows the object.
abbrev pub alone {ℓ} : {V : Type ℓ} → Result (V × Stream) → Result V
alone r = r >>= λ (value, s). at_end s >>= λ _. ok value

module _ {ℓ} {V A : Type ℓ} where
  -- A field's value, stored by `store`.
  abbrev pub into : (A → V) → Result (A × Stream) → Result (V × Stream)
  into store r = r >>= λ (a, s). ok (store a, s)

abbrev unknown_field {ℓ} : {V : Type ℓ} → Result (V × Stream)
unknown_field = err (failed "unknown field")

unfoldable pub file_field : Bytes → FileObject → Stream → Result (FileObject × Stream)
file_field name value s =
    if same name (codes "Blocks")
    then into (λ blocks. record value { blocks = some blocks })
        (decode_array max_blocks (decode_string 3 "block id") 2 "file blocks" s)
    else if same name (codes "Size")
    then into (λ x. record value { size = x }) (decode_string 2 "file size" s)
    else if same name (codes "Type")
    then into (λ x. record value { kind = x }) (decode_string 2 "file type" s)
    else if same name (codes "Version")
    then into (λ x. record value { version = x }) (decode_int 2 "file version" s)
    else unknown_field

-- The first pass over a file object stores nothing but the names of the fields.
unfoldable pub budget_field : Bytes → Unit {0} → Stream → Result (Unit {0} × Stream)
budget_field name value s =
    if same name (codes "Blocks")
    then into (λ blocks. tt)
        (decode_array max_blocks (decode_string 3 "block id") 2 "file blocks" s)
    else if same name (codes "Size")
    then (do
      (digits, s₁) ← decode_string 2 "file size" s
      parse_decimal digits max_file_size >>= λ n. ok (tt, s₁))
    else if same name (codes "Type") || same name (codes "Version")
    then (do s₁ ← consume_value 2 s; ok (tt, s₁))
    else unknown_field

unfoldable pub check_file_budgets : Stream → Result (Unit {0})
unfolding fields_from
check_file_budgets s = do
  s₁ ← decode_container b'{' 1 "file object" s
  (r, s₂) ← fields_from budget_field (suc (size s₁)) (record { seen = []; value = tt }) s₁
  s₃ ← next s₂ >>= is_delim b'}' "invalid file object"
  at_end s₃

unfoldable pub decode_file : Stream → Result FileObject
decode_file s = do
  check_file_budgets s
  alone (decode_object file_field 1 4 "file object" no_file s)

unfoldable pub entry_field : Bytes → DirectoryEntry → Stream → Result (DirectoryEntry × Stream)
entry_field name entry s =
    if same name (codes "Id")
    then into (λ x. record entry { id = x }) (decode_string 4 "directory entry value" s)
    else if same name (codes "ModifiedAt")
    then into (λ x. record entry { modified_at = x }) (decode_string 4 "directory entry value" s)
    else if same name (codes "Name")
    then into (λ x. record entry { name = x }) (decode_string 4 "directory entry value" s)
    else if same name (codes "Type")
    then into (λ x. record entry { kind = x }) (decode_string 4 "directory entry value" s)
    else unknown_field

unfoldable pub decode_directory_entry : Stream → Result (DirectoryEntry × Stream)
decode_directory_entry = decode_object entry_field 3 4 "directory entry" no_entry

unfoldable pub directory_field :
    Bytes → DirectoryObject → Stream → Result (DirectoryObject × Stream)
directory_field name value s =
    if same name (codes "Entries")
    then into (λ entries. record value { entries = some entries })
        (decode_array max_entries decode_directory_entry 2 "directory entries" s)
    else if same name (codes "Type")
    then into (λ x. record value { kind = x }) (decode_string 2 "directory type" s)
    else if same name (codes "Version")
    then into (λ x. record value { version = x }) (decode_int 2 "directory version" s)
    else unknown_field

unfoldable pub decode_directory : Stream → Result DirectoryObject
decode_directory s = alone (decode_object directory_field 1 3 "directory object" no_directory s)

-- A string that has to pass a test.
abbrev pub tested : (Bytes → Bool) → String → Result (Bytes × Stream) → Result (Bytes × Stream)
tested test what r = r >>= λ (value, s). require (test value) (failed what) >>= λ _. ok (value, s)

unfoldable pub decode_commit_parent : Stream → Result (Bytes × Stream)
decode_commit_parent s =
    tested valid_id "invalid parent id" (decode_string 3 "commit Parents item" s)

unfoldable pub decode_commit_parents : Stream → Result (List Bytes × Stream)
decode_commit_parents = decode_array max_parents decode_commit_parent 2 "commit Parents"

abbrev is_one : Bytes → Stream → Result (ℤ × Stream)
is_one digits s =
    if same digits (codes "1") then ok (pos 1, s) else err (failed "invalid commit version")

unfoldable pub decode_commit_version : Stream → Result (ℤ × Stream)
decode_commit_version s = do
  (t, s₁) ← next s
  elim t [
    | number digits ↦ is_one digits s₁
    | delim d ↦ refuse 2 (delim d, s₁) "invalid commit version"
    | _ ↦ err (failed "invalid commit version")
  ]

unfoldable pub commit_field : Bytes → CommitObject → Stream → Result (CommitObject × Stream)
commit_field name value s =
    if same name (codes "AuthorUserId")
    then into (λ x. record value { author_user_id = x })
        (tested valid_uuid "invalid commit author" (decode_string 2 "commit AuthorUserId" s))
    else if same name (codes "CreatedAt")
    then into (λ x. record value { created_at = x })
        (tested valid_timestamp "invalid commit timestamp" (decode_string 2 "commit CreatedAt" s))
    else if same name (codes "DeviceId")
    then into (λ x. record value { device_id = x })
        (tested valid_uuid "invalid commit device" (decode_string 2 "commit DeviceId" s))
    else if same name (codes "Message")
    then into (λ x. record value { message = some x }) (decode_string 2 "commit Message" s)
    else if same name (codes "Parents")
    then into (λ x. record value { parents = x }) (decode_commit_parents s)
    else if same name (codes "Root")
    then into (λ x. record value { root = x })
        (tested valid_id "invalid commit root" (decode_string 2 "commit Root" s))
    else if same name (codes "Type")
    then into (λ x. record value { kind = x })
        (tested (λ x. same x (codes "Commit")) "invalid commit type"
          (decode_string 2 "commit Type" s))
    else if same name (codes "Version")
    then into (λ x. record value { version = x }) (decode_commit_version s)
    else unknown_field

unfoldable pub decode_commit : Stream → Result CommitObject
decode_commit s = alone (decode_object commit_field 1 8 "invalid commit object" no_commit s)
