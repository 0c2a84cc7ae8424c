-- ===== src/Object/Canonical.antt =====
-- canonicalFile, canonicalDirectory, canonicalCommit, Canonicalize and the Verify functions of
-- internal/object. `tokens` stands for a json.Decoder over the bytes.
pub mod Sizes
pub mod Order
pub mod Verified
use filecloud.Prelude.{
  ℕ, suc, ◌+◌, ◌-◌, ◌*◌, Bool, true, false, not, ◌&&◌, ◌||◌, Option, none, some, List, [], ◌∷◌,
  ◌++◌, ltb, leb, ◌==◌, if◌then◌else◌, String, length, all,
}
use filecloud.Prelude.Bytes.{Bytes, codes, same}
use filecloud.Prelude.ByteOrder.{before}
use filecloud.Prelude.Sets.{ByteSet, member, add}
use filecloud.Prelude.Outcome.{Result, ok, err, failed, payload_too_large, ◌>>=◌, ◌>>◌, require}
use filecloud.Object.Text.{Unicode, valid_utf8}
use filecloud.Object.Ids.{id, valid_id}
use filecloud.Object.Names.{valid_name}
use filecloud.Prelude.Int.{ℤ, pos, negsuc}
use filecloud.Object.Decimal.{parse_decimal}
use filecloud.Object.Timestamp.{valid_timestamp}
use filecloud.Object.Surrogates.{valid_escaped_surrogates}
use filecloud.Object.Stream.{Stream}
use filecloud.Object.Values.{
  FileObject, DirectoryEntry, DirectoryObject, CommitObject, File, Directory,
}
use filecloud.Object.Decode.{max_file_size, decode_file, decode_directory, decode_commit}
use filecloud.Object.Encode.{append_file, append_directory, append_commit}

abbrev pub max_block_size : ℕ
max_block_size = 4194304

abbrev is_one : ℤ → Bool
is_one (pos n) = n == 1
is_one (negsuc n) = false

-- `value.Type != kind || value.Version != 1`
abbrev pub wrong_header : Bytes → Bytes → ℤ → Bool
wrong_header kind expected version = not (same kind expected) || not (is_one version)

abbrev pub minimum_size : List Bytes → ℕ
minimum_size [] = 0
minimum_size (b ∷ bs) = (length (b ∷ bs) - 1) * max_block_size + 1

abbrev pub maximum_size : List Bytes → ℕ
maximum_size blocks = length blocks * max_block_size

-- The tests behind the decoder, of the size and the blocks.
abbrev pub sized : FileObject → List Bytes → ℕ → Result Bytes
sized value blocks size =
    if not (all valid_id blocks)
    then err (failed "invalid block id")
    else if ltb size (minimum_size blocks) || ltb (maximum_size blocks) size
    then err (failed "file size does not match block count")
    else ok (append_file value)

abbrev pub checked_file : FileObject → Option (List Bytes) → Result Bytes
checked_file value none = err (failed "invalid file object")
checked_file value (some blocks) =
    if wrong_header value.kind (codes "File") value.version
    then err (failed "invalid file object")
    else parse_decimal value.size max_file_size >>= sized value blocks

unfoldable pub canonical_file : Stream → Result Bytes
canonical_file s = do value ← decode_file s; checked_file value value.blocks

-- `i > 0 && strings.Compare(previous, entry.Name) >= 0`, negated.
abbrev pub comes_later : Option Bytes → Bytes → Bool
comes_later none name = true
comes_later (some previous) name = before previous name

module _ (u : Unicode) where
  abbrev pub valid_entry : DirectoryEntry → Bool
  valid_entry entry =
      valid_id entry.id
      && (same entry.kind (codes "File") || same entry.kind (codes "Directory"))
      && valid_timestamp entry.modified_at
      && valid_name u entry.name

  -- The loop over the entries. `previous` is none at the first of them.
  unfoldable pub check_entries : Option Bytes → ByteSet → List DirectoryEntry → Result (Unit {0})
  check_entries previous seen [] = ok tt
  check_entries previous seen (entry ∷ rest) = do
    require (valid_entry entry) (failed "invalid directory entry")
    require (comes_later previous entry.name) (failed "directory entries are not sorted")
    require (not (member (u.fold entry.name) seen)) (failed "directory name collision")
    check_entries (some entry.name) (add (u.fold entry.name) seen) rest

  abbrev pub checked_directory : DirectoryObject → Option (List DirectoryEntry) → Result Bytes
  checked_directory value none = err (failed "invalid directory object")
  checked_directory value (some entries) =
      if wrong_header value.kind (codes "Directory") value.version
      then err (failed "invalid directory object")
      else check_entries none [] entries >>= λ _. ok (append_directory value)

  unfoldable pub canonical_directory : Stream → Result Bytes
  unfolding check_entries
  canonical_directory s = do value ← decode_directory s; checked_directory value value.entries

unfoldable pub canonical_commit : Stream → Result Bytes
canonical_commit s = do value ← decode_commit s; ok (append_commit value)

module _ (u : Unicode) (sha256 : Bytes → Bytes) (tokens : Bytes → Stream) where
  abbrev pub canonical_kind : Bytes → Bytes → Result Bytes
  canonical_kind kind content =
      if same kind (codes "files")
      then canonical_file (tokens content)
      else if same kind (codes "directories")
      then canonical_directory u (tokens content)
      else if same kind (codes "commits")
      then canonical_commit (tokens content)
      else err (failed "invalid metadata object type")

  unfoldable pub canonicalize : Bytes → Bytes → Result (Bytes × Bytes)
  canonicalize kind content =
      if not (valid_utf8 content) || not (valid_escaped_surrogates content)
      then err (failed "object is not valid unicode JSON")
      else canonical_kind kind content >>= λ canonical. ok (canonical, id sha256 canonical)

  -- The test that the three Verify functions begin with.
  abbrev pub is_persisted : Bytes → Bytes → Bytes × Bytes → Result (Unit {0})
  is_persisted content expected (canonical, actual) =
      if not (same actual expected) || not (same canonical content)
      then err (failed "invalid persisted object")
      else ok tt

  -- Every error becomes ErrInvalidPersistedObject.
  abbrev pub or_invalid {ℓ} : {A : Type ℓ} → Result A → Result A
  or_invalid (ok a) = ok a
  or_invalid (err e) = err (failed "invalid persisted object")

  unfoldable pub verify_file : Bytes → Bytes → Result File
  verify_file content expected = or_invalid (do
    canonicalize (codes "files") content >>= is_persisted content expected
    value ← decode_file (tokens content)
    size ← parse_decimal value.size max_file_size
    ok (record { blocks = elim value.blocks [ none ↦ [] | some blocks ↦ blocks ]; size = size }))

  unfoldable pub verify_directory : Bytes → Bytes → Result Directory
  verify_directory content expected = or_invalid (do
    canonicalize (codes "directories") content >>= is_persisted content expected
    value ← decode_directory (tokens content)
    ok (record { entries = elim value.entries [ none ↦ [] | some entries ↦ entries ] }))

  unfoldable pub verify_commit : Bytes → Bytes → Result CommitObject
  verify_commit content expected = or_invalid (do
    canonicalize (codes "commits") content >>= is_persisted content expected
    decode_commit (tokens content))
