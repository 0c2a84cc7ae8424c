-- ===== src/Object/Encode.antt =====
-- appendJSONString, appendFile, appendDirectory and appendCommit of internal/object/object.go. A
-- function that appends to `dst` returns here what it appends.
use filecloud.Prelude.{
  ℕ, ◌/◌, ◌%◌, ◌||◌, Option, none, some, List, [], ◌∷◌, ◌++◌, ltb, ◌==◌, if◌then◌else◌,
}
use filecloud.Prelude.Bytes.{Bytes, codes}
use filecloud.Object.Text.{range_text, hex_digit}
use filecloud.Object.Values.{FileObject, DirectoryEntry, DirectoryObject, CommitObject}

-- What stands for one byte. The bytes of a code point of several bytes are copied.
abbrev pub escape : ℕ → Bytes
escape r =
    if (r == b'"') || (r == b'\\')
    then b'\\' ∷ r ∷ []
    else if r == 8
    then b'\\' ∷ b'b' ∷ []
    else if r == 9
    then b'\\' ∷ b't' ∷ []
    else if r == 10
    then b'\\' ∷ b'n' ∷ []
    else if r == 12
    then b'\\' ∷ b'f' ∷ []
    else if r == 13
    then b'\\' ∷ b'r' ∷ []
    else if ltb r 0x20
    then codes "\\u00" ++ hex_digit (r / 16) ∷ hex_digit (r % 16) ∷ []
    else r ∷ []

abbrev pub escape_all : Bytes → Bytes
escape_all [] = []
escape_all (c ∷ s) = escape c ++ escape_all s

unfoldable pub append_json_string : Bytes → Bytes
append_json_string value = b'"' ∷ escape_all (range_text value) ++ b'"' ∷ []

-- The items of an array, with commas between them.
abbrev pub separated {ℓ} : {A : Type ℓ} → (A → Bytes) → List A → Bytes
separated print [] = []
separated print (a ∷ []) = print a
separated print (a ∷ b ∷ rest) = print a ++ b',' ∷ separated print (b ∷ rest)

abbrev pub items_or_nil {ℓ} : {A : Type ℓ} → Option (List A) → List A
items_or_nil none = []
items_or_nil (some items) = items

unfoldable pub append_file : FileObject → Bytes
unfolding append_json_string
append_file value =
    codes "{\"Blocks\":["
    ++ separated append_json_string (items_or_nil value.blocks)
    ++ codes "],\"Size\":"
    ++ append_json_string value.size
    ++ codes ",\"Type\":\"File\",\"Version\":1}"

abbrev pub append_entry : DirectoryEntry → Bytes
append_entry entry =
    codes "{\"Id\":"
    ++ append_json_string entry.id
    ++ codes ",\"ModifiedAt\":"
    ++ append_json_string entry.modified_at
    ++ codes ",\"Name\":"
    ++ append_json_string entry.name
    ++ codes ",\"Type\":"
    ++ append_json_string entry.kind
    ++ codes "}"

unfoldable pub append_directory : DirectoryObject → Bytes
unfolding append_json_string
append_directory value =
    codes "{\"Entries\":["
    ++ separated append_entry (items_or_nil value.entries)
    ++ codes "],\"Type\":\"Directory\",\"Version\":1}"

-- `*value.Message`, of a commit that was decoded with all its fields.
abbrev message_of : Option Bytes → Bytes
message_of none = []
message_of (some text) = text

unfoldable pub append_commit : CommitObject → Bytes
unfolding append_json_string
append_commit value =
    codes "{\"AuthorUserId\":"
    ++ append_json_string value.author_user_id
    ++ codes ",\"CreatedAt\":"
    ++ append_json_string value.created_at
    ++ codes ",\"DeviceId\":"
    ++ append_json_string value.device_id
    ++ codes ",\"Message\":"
    ++ append_json_string (message_of value.message)
    ++ codes ",\"Parents\":["
    ++ separated append_json_string value.parents
    ++ codes "],\"Root\":"
    ++ append_json_string value.root
    ++ codes ",\"Type\":\"Commit\",\"Version\":1}"
