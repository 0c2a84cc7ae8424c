-- ===== src/Object/Examples.antt =====
-- Runs of internal/object on small objects, and uses of its theorems there.
use filecloud.Prelude.{
  ℕ, zero, suc, ◌≤◌, ◌≡◌, ◌↔◌, ◌⊎◌, refl, true, some, List, [], ◌∷◌, ◌++◌, arith, ltb, length, All,
}
use filecloud.Prelude.Bytes.{Bytes, codes}
use filecloud.Prelude.ByteOrder.{before}
use filecloud.Prelude.Outcome.{ok}
use filecloud.Object.Text.{valid_utf8, Unicode, range_text, to_lower}
use filecloud.Object.Ids.{id, valid_id}
use filecloud.Object.Ids.Laws.{IsLowerHex, IsDigest, valid_id_iff, valid_id-id}
use filecloud.Object.Names.{bad_form, bad_char, valid_name, valid_path, reserved}
use filecloud.Object.Names.Laws.{IsSafeName, IsRelativePath, valid_name-IsSafeName, valid_path_iff}
use filecloud.Object.Decimal.{format, format_int, parse_int, parse_decimal}
use filecloud.Object.Decimal.Laws.{parse_decimal_iff}
use filecloud.Object.Timestamp.{
  Civil, Time, parsed_time, in_range, parse_time, format_time, valid_timestamp,
  canonical_protocol_mtime, parse_canonical_protocol_mtime,
}
use filecloud.Object.Timestamp.Laws.{
  IsCivil, order_key, parse_canonical_protocol_mtime-canonical, before-canonical_protocol_mtime,
}
use filecloud.Object.Stream.{
  Stream, delim, text, number, eof, ◌▸◌, decode_container, decode_string, decode_int, consume_value,
}
use filecloud.Object.Stream.Progress.{Ends}
use filecloud.Object.Values.{File, Directory, FileObject, DirectoryEntry, DirectoryObject}
use filecloud.Object.Decode.{
  check_file_budgets, fields_from, items_from, decode_object, decode_array, file_field,
  budget_field, directory_field, entry_field, decode_directory_entry, decode_file, decode_directory,
  decode_commit,
}
use filecloud.Object.Decode.Progress.{decoders-Ends}
use filecloud.Object.Encode.{append_directory, append_file, append_json_string}
use filecloud.Object.Surrogates.{valid_escaped_surrogates}
use filecloud.Object.Canonical.Verified.{
  IsVerifiedDirectory, IsVerifiedFile, verify_directory-IsVerifiedDirectory,
  verify_file-IsVerifiedFile,
}
use filecloud.Restore.Lookup.{restore_directory_entry}
use filecloud.Restore.Lookup.Laws.{find}
use filecloud.Restore.Lookup.Verified.{restore_directory_entry-verify_directory}
use filecloud.Object.Canonical.{
  verify_file, verify_directory, canonicalize, check_entries, canonical_file, canonical_directory,
}
use filecloud.Object.Canonical.Sizes.{IsFile, canonical_file-IsFile}
use filecloud.Object.Canonical.Order.{IsSorted, canonical_directory-IsSorted}

-- Unicode's tables on ASCII.
abbrev ascii : Unicode
ascii = record { nfc = λ s. s; fold = to_lower }

abbrev copies : ℕ → ℕ → Bytes
copies zero c = []
copies (suc n) c = c ∷ copies n c

abbrev digits : Bytes
digits = copies 64 b'a'

-- A function whose values have the size of a digest.
abbrev constant_digest : Bytes → Bytes
constant_digest s = copies 32 7

constant_digest-IsDigest : IsDigest constant_digest
constant_digest-IsDigest = record { size = λ s. refl; bytes = λ s. ground arith }

valid_id_iff_example : (valid_id digits ≡ true) ↔ ((length digits ≡ 64) × All IsLowerHex digits)
valid_id_iff_example = valid_id_iff digits

valid_id-id_example : valid_id (id constant_digest (codes "content")) ≡ true
valid_id-id_example = valid_id-id constant_digest constant_digest-IsDigest (codes "content")

name_accepted : valid_name ascii (codes "notes.txt") ≡ true
unfolding valid_name bad_form bad_char reserved
name_accepted = refl

valid_name-IsSafeName_example : IsSafeName ascii (codes "notes.txt")
valid_name-IsSafeName_example = valid_name-IsSafeName ascii (codes "notes.txt") name_accepted

valid_path_iff_example :
    (valid_path ascii (codes "a/b") ≡ true)
    ↔ ((codes "a/b" ≡ codes ".") ⊎ IsRelativePath ascii (codes "a/b"))
valid_path_iff_example = valid_path_iff ascii (codes "a/b")

parse_decimal_iff_example :
    (parse_decimal (codes "20") 100 ≡ ok 20) ↔ ((codes "20" ≡ format 20) × (20 ≤ 100))
parse_decimal_iff_example = parse_decimal_iff (codes "20") 100 20 (omega arith)

abbrev leap_day : Civil
leap_day = record { year = 2024; month = 2; day = 29; hour = 23; minute = 59; second = 58 }

abbrev day_after : Civil
day_after = record { year = 2024; month = 3; day = 1; hour = 0; minute = 0; second = 0 }

leap_day-IsCivil : IsCivil leap_day
unfolding in_range
leap_day-IsCivil = record { years = omega arith; fields = refl }

day_after-IsCivil : IsCivil day_after
unfolding in_range
day_after-IsCivil = record { years = omega arith; fields = refl }

-- An instant with a half second, in a location where the clock shows nine in the evening.
abbrev local_time : Civil → Time
local_time date = record { date = date; local = record date { hour = 21 }; nanosecond = 500000000 }

parse_canonical_protocol_mtime-canonical_example :
    parse_canonical_protocol_mtime (canonical_protocol_mtime (local_time leap_day))
    ≡ ok (parsed_time leap_day)
parse_canonical_protocol_mtime-canonical_example =
    parse_canonical_protocol_mtime-canonical (local_time leap_day) leap_day-IsCivil

before-canonical_protocol_mtime_example :
    before
      (canonical_protocol_mtime (local_time leap_day))
      (canonical_protocol_mtime (parsed_time day_after))
    ≡ ltb (order_key leap_day) (order_key day_after)
before-canonical_protocol_mtime_example =
    before-canonical_protocol_mtime (local_time leap_day) (parsed_time day_after) leap_day-IsCivil
      day_after-IsCivil

-- {"blocks":["aa…"],"size":"5","type":"File","version":1}
abbrev file_stream : Stream
file_stream =
    delim b'{'
    ▸ text (codes "Blocks")
    ▸ delim b'['
    ▸ text digits
    ▸ delim b']'
    ▸ text (codes "Size")
    ▸ text (codes "5")
    ▸ text (codes "Type")
    ▸ text (codes "File")
    ▸ text (codes "Version")
    ▸ number (codes "1")
    ▸ delim b'}'
    ▸ eof

decoders-Ends_example :
    Ends (decode_file file_stream)
    × Ends (decode_directory file_stream)
    × Ends (decode_commit file_stream)
decoders-Ends_example = decoders-Ends file_stream

abbrev encoded_file : Bytes
encoded_file =
    codes "{\"Blocks\":[\"" ++ digits ++ codes "\"],\"Size\":\"5\",\"Type\":\"File\",\"Version\":1}"

file_accepted : canonical_file file_stream ≡ ok encoded_file
unfolding canonical_file decode_file check_file_budgets fields_from items_from decode_object
    decode_array file_field budget_field decode_container decode_string decode_int consume_value
    parse_decimal parse_int valid_id append_file append_json_string format format_int range_text
file_accepted = refl

canonical_file-IsFile_example :
    (value : FileObject) × (decode_file file_stream ≡ ok value) × IsFile value encoded_file
canonical_file-IsFile_example = canonical_file-IsFile file_stream encoded_file file_accepted

-- {"Entries":[{"Id":"aa…","ModifiedAt":"2024-02-29T23:59:58Z","Name":"a","Type":"File"}, …b…],
-- "Type":"Directory","Version":1}
abbrev entry_stream : Bytes → Stream → Stream
entry_stream name rest =
    delim b'{'
    ▸ text (codes "Id")
    ▸ text digits
    ▸ text (codes "ModifiedAt")
    ▸ text (codes "2024-02-29T23:59:58Z")
    ▸ text (codes "Name")
    ▸ text name
    ▸ text (codes "Type")
    ▸ text (codes "File")
    ▸ delim b'}'
    ▸ rest

abbrev directory_stream : Stream
directory_stream =
    delim b'{'
    ▸ text (codes "Entries")
    ▸ delim b'['
    ▸ entry_stream (codes "a") (
        entry_stream (codes "b") (
          delim b']'
          ▸ text (codes "Type")
          ▸ text (codes "Directory")
          ▸ text (codes "Version")
          ▸ number (codes "1")
          ▸ delim b'}'
          ▸ eof))

abbrev encoded_entry : Bytes → Bytes
encoded_entry name =
    codes "{\"Id\":\""
    ++ digits
    ++ codes "\",\"ModifiedAt\":\"2024-02-29T23:59:58Z\",\"Name\":\""
    ++ name
    ++ codes "\",\"Type\":\"File\"}"

abbrev encoded_directory : Bytes
encoded_directory =
    codes "{\"Entries\":["
    ++ encoded_entry (codes "a")
    ++ codes ","
    ++ encoded_entry (codes "b")
    ++ codes "],\"Type\":\"Directory\",\"Version\":1}"

directory_accepted : canonical_directory ascii directory_stream ≡ ok encoded_directory
unfolding canonical_directory decode_directory fields_from items_from decode_object decode_array
    directory_field entry_field decode_directory_entry decode_container decode_string decode_int
    parse_int valid_id append_directory append_json_string format format_int range_text
    check_entries valid_name bad_form bad_char reserved valid_timestamp parse_time format_time
    in_range
directory_accepted = refl

canonical_directory-IsSorted_example :
    (value : DirectoryObject) × (entries : List DirectoryEntry) × (decode_directory directory_stream
      ≡ ok value)
    × (value.entries ≡ some entries)
    × IsSorted ascii entries
    × (encoded_directory ≡ append_directory value)
canonical_directory-IsSorted_example =
    canonical_directory-IsSorted ascii directory_stream encoded_directory directory_accepted

abbrev digest_id : Bytes
digest_id = id constant_digest []

abbrev example_entry : Bytes → DirectoryEntry
example_entry name = record {
  id = digits;
  modified_at = codes "2024-02-29T23:59:58Z";
  name = name;
  kind = codes "File";
}

abbrev verified_directory : Directory
verified_directory = record { entries = example_entry (codes "a") ∷ example_entry (codes "b") ∷ [] }

directory_verified :
    verify_directory ascii constant_digest (λ s. directory_stream) encoded_directory digest_id
    ≡ ok verified_directory
unfolding verify_directory canonicalize id valid_utf8 valid_escaped_surrogates canonical_directory
    decode_directory fields_from items_from decode_object decode_array directory_field entry_field
    decode_directory_entry decode_container decode_string decode_int parse_int valid_id
    append_directory append_json_string format format_int range_text check_entries valid_name
    bad_form bad_char reserved valid_timestamp parse_time format_time in_range
directory_verified = refl

verify_directory-IsVerifiedDirectory_example :
    IsVerifiedDirectory ascii constant_digest
      (λ s. directory_stream)
      encoded_directory
      digest_id
      verified_directory
verify_directory-IsVerifiedDirectory_example =
    verify_directory-IsVerifiedDirectory ascii constant_digest (λ s. directory_stream)
      encoded_directory digest_id verified_directory directory_verified

restore_directory_entry-verify_directory_example :
    restore_directory_entry verified_directory.entries (codes "b")
    ≡ find verified_directory.entries (codes "b")
restore_directory_entry-verify_directory_example =
    restore_directory_entry-verify_directory ascii constant_digest (λ s. directory_stream)
      encoded_directory digest_id (codes "b") verified_directory directory_verified

abbrev verified_file : File
verified_file = record { blocks = digits ∷ []; size = 5 }

file_verified :
    verify_file ascii constant_digest (λ s. file_stream) encoded_file digest_id ≡ ok verified_file
unfolding verify_file canonicalize id valid_utf8 valid_escaped_surrogates canonical_file decode_file
    check_file_budgets fields_from items_from decode_object decode_array file_field budget_field
    decode_container decode_string decode_int consume_value parse_decimal parse_int valid_id
    append_file append_json_string format format_int range_text
file_verified = refl

verify_file-IsVerifiedFile_example :
    IsVerifiedFile ascii constant_digest (λ s. file_stream) encoded_file digest_id verified_file
verify_file-IsVerifiedFile_example =
    verify_file-IsVerifiedFile ascii constant_digest (λ s. file_stream) encoded_file digest_id
      verified_file file_verified
