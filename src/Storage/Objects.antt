-- ===== src/Storage/Objects.antt =====
-- validateObjectLocation and validObjectScopeID of internal/storage/objects.go, and the files below the
-- object directory.
pub mod Laws
pub mod Verified
use filecloud.Prelude.{
  ℕ, Bool, true, false, not, ◌&&◌, ◌||◌, Option, none, some, List, [], ◌∷◌, if◌then◌else◌, take,
  drop,
}
use filecloud.Prelude.Bytes.{Bytes, codes, same, contains_byte}
use filecloud.Prelude.Outcome.{Result, ok, err, failed, ◌>>=◌}
use filecloud.Object.Ids.{valid_id}
use filecloud.Object.Values.{File, Directory, CommitObject}

-- gcObjectKey: the owner and the library of an object, its type and its identity.
pub record Key : Type 0 where
  pub owner : Bytes
  pub library : Bytes
  pub kind : Bytes
  pub id : Bytes

abbrev pub same_key : Key → Key → Bool
same_key a b =
    same a.owner b.owner && same a.library b.library && same a.kind b.kind && same a.id b.id

-- A set of keys, as a list.
abbrev pub has : Key → List Key → Bool
has k [] = false
has k (x ∷ m) = same_key x k || has k m

-- `marked[key] = struct{}{}`
abbrev pub mark : Key → List Key → List Key
mark k m = if has k m then m else k ∷ m

unfoldable pub valid_object_scope_id : Bytes → Bool
valid_object_scope_id value =
    not (same value [])
    && not (same value (codes "."))
    && not (same value (codes ".."))
    && not (contains_byte value b'/' || contains_byte value b'\\')

abbrev pub valid_kind : Bytes → Bool
valid_kind kind =
    same kind (codes "blocks")
    || same kind (codes "files")
    || same kind (codes "directories")
    || same kind (codes "commits")

-- The parts of a valid location hold no separator and are no dots, so that the path which the source
-- builds of them stays below the object directory, as its last test asks.
unfoldable pub validate_object_location : Key → Result (Unit {0})
validate_object_location k =
    if not (valid_object_scope_id k.owner)
      || not (valid_object_scope_id k.library)
      || not (valid_id k.id)
    then err (failed "invalid object location")
    else if not (valid_kind k.kind)
    then err (failed "invalid object type")
    else ok tt

-- A file below the object directory: the parts of its relative path, whether it is a regular file, the
-- time of its last change, and its content.
pub record Stored : Type 0 where
  pub parts : List Bytes
  pub regular : Bool
  pub modified : ℕ
  pub content : Bytes

abbrev pub same_parts : List Bytes → List Bytes → Bool
same_parts [] [] = true
same_parts [] (q ∷ qs) = false
same_parts (p ∷ ps) [] = false
same_parts (p ∷ ps) (q ∷ qs) = same p q && same_parts ps qs

-- os.Lstat
abbrev pub find_file : List Bytes → List Stored → Option Stored
find_file parts [] = none
find_file parts (f ∷ disk) = if same_parts f.parts parts then some f else find_file parts disk

-- `filepath.Join(objectsDir, owner, library, kind, id[:2], id[2:])`
unfoldable pub object_path : Key → List Bytes
object_path k = k.owner ∷ k.library ∷ k.kind ∷ take 2 k.id ∷ drop 2 k.id ∷ []

-- The Verify functions of internal/object.
pub record Verifier : Type 0 where
  pub verify_commit : Bytes → Bytes → Result CommitObject
  pub verify_directory : Bytes → Bytes → Result Directory
  pub verify_file : Bytes → Bytes → Result File

-- The file that os.Lstat finds, read.
abbrev pub regular_content : Option Stored → Result Bytes
regular_content none = err (failed "stat published object")
regular_content (some f) =
    if f.regular then ok f.content else err (failed "published object is not a regular file")

module _ (disk : List Stored) where
  unfoldable pub read_published_object : Key → Result Bytes
  read_published_object k =
      validate_object_location k >>= λ valid. regular_content (find_file (object_path k) disk)

module _ (v : Verifier) (disk : List Stored) where
  abbrev pub file_at : Key → Result File
  file_at k = read_published_object disk k >>= λ content. v.verify_file content k.id

  abbrev pub directory_at : Key → Result Directory
  directory_at k = read_published_object disk k >>= λ content. v.verify_directory content k.id

  abbrev pub commit_at : Key → Result CommitObject
  commit_at k = read_published_object disk k >>= λ content. v.verify_commit content k.id
